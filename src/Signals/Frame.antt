-- ===== src/Signals/Frame.antt =====
-- kernel/signal.c: what `do_signal` leaves on the stack.
use my_practice.Base.{
  ℕ, zero, suc, ◌+◌, ◌-◌, ◌*◌, ◌^◌, ◌≤◌, ◌<◌, ◌≡◌, ◌≢◌, refl, sym, ap, ◌∙◌, ◌⊎◌, inl, inr, Bool,
  true, false, ◌==◌, if◌then◌else◌, update, update_ne, update_self, Bool-cases, if_true, if_false,
  arith, List, [], ◌∷◌, length,
}
use mathlib.Core.Path.{subst}
use Prim.Native.Nat.{bit_or}
use my_practice.Signals.{
  Sigaction, Signals, Regs, Stack, put_longs, frame_of, longs_of, Delivered, ignored, exits, runs,
  used_up, do_signal, child_signal, has_flag, sa_nomask,
}

-- The longs on the stack from an address on
pub read_longs : (n address : ℕ) → Stack → List ℕ
read_longs zero address m = []
read_longs (suc n) address m = m address ∷ read_longs n (address + 4) m

put_longs-below :
    (address a : ℕ) (xs : List ℕ) (m : Stack) → a < address → put_longs address xs m a ≡ m a
unfolding put_longs
put_longs-below address a [] m h = refl
put_longs-below address a (x ∷ xs) m h =
    put_longs-below (address + 4) a xs (update m address x) (omega arith)
    ∙ update_ne m address x a (λ e. absurd (omega arith))

put_longs-above :
    (address a : ℕ) (xs : List ℕ) (m : Stack)
    → address + 4 * length xs ≤ a
    → put_longs address xs m a ≡ m a
unfolding put_longs
put_longs-above address a [] m h = refl
put_longs-above address a (x ∷ xs) m h =
    put_longs-above (address + 4) a xs (update m address x) (omega arith)
    ∙ update_ne m address x a (λ e. absurd (omega arith))

read_longs-put_longs :
    (address : ℕ) (xs : List ℕ) (m : Stack)
    → read_longs (length xs) address (put_longs address xs m) ≡ xs
unfolding read_longs put_longs
read_longs-put_longs address [] m = refl
read_longs-put_longs address (x ∷ xs) m =
    ap
      (λ y.
        y ∷ read_longs (length xs) (address + 4) (put_longs (address + 4) xs (update m address x)))
      (put_longs-below (address + 4) address xs (update m address x) (omega arith)
        ∙ update_self m address x)
    ∙ ap (λ ys. x ∷ ys) (read_longs-put_longs (address + 4) xs (update m address x))

-- What the stack holds after a handler was entered, and the registers with which it runs
pub record Entered (signr : ℕ) (r : Regs) (m : Stack) (s : Signals) (r' : Regs) (m' : Stack)
    (s' : Signals) : Type 0 where
  pub eip : r'.eip ≡ (s.action (signr - 1)).handler
  pub esp : r'.esp + 4 * longs_of (s.action (signr - 1)) ≡ r.esp
  pub saved :
      read_longs (longs_of (s.action (signr - 1))) r'.esp m'
      ≡ frame_of signr (s.action (signr - 1)) s.blocked r
  pub others : (a : ℕ) → (a < r'.esp) ⊎ (r.esp ≤ a) → m' a ≡ m a
  pub blocked : s'.blocked ≡ bit_or s.blocked (s.action (signr - 1)).mask
  pub rest : (k : ℕ) → k ≢ signr - 1 → s'.action k ≡ s.action k

-- What `do_signal` ends with, by the handler
pub data Delivers (signr : ℕ) (r : Regs) (m : Stack) (s : Signals) : Delivered → Type 0 where
  is_ignored :
      ((s.action (signr - 1)).handler ≡ 1)
        ⊎ (((s.action (signr - 1)).handler ≡ 0) × (signr ≡ child_signal))
      → Delivers signr r m s ignored
  ends :
      (s.action (signr - 1)).handler ≡ 0
      → signr ≢ child_signal
      → Delivers signr r m s (exits (2 ^ (signr - 1)))
  enters :
      (r' : Regs) (m' : Stack) (s' : Signals)
      → Entered signr r m s r' m' s'
      → Delivers signr r m s (runs r' m' s')

length-frame_of :
    (signr : ℕ) (sa : Sigaction) (blocked : ℕ) (r : Regs)
    → length (frame_of signr sa blocked r) ≡ longs_of sa
length-frame_of signr sa blocked r = by_flag (has_flag sa.flags sa_nomask)
  where
    by_flag :
        (b : Bool)
        → length (
            if b
            then sa.restorer ∷ signr ∷ r.eax ∷ r.ecx ∷ r.edx ∷ r.eflags ∷ r.eip ∷ []
            else sa.restorer ∷ signr ∷ blocked ∷ r.eax ∷ r.ecx ∷ r.edx ∷ r.eflags ∷ r.eip ∷ [])
          ≡ (if b then 7 else 8)
    by_flag true = refl
    by_flag false = refl

longs_of-le : (sa : Sigaction) → longs_of sa ≤ 8
longs_of-le sa = by_flag (has_flag sa.flags sa_nomask)
  where
    by_flag : (b : Bool) → (if b then 7 else 8) ≤ 8
    by_flag true = omega arith
    by_flag false = omega arith

-- The run that `do_signal` gives, entered
entered :
    (signr : ℕ) (r : Regs) (m : Stack) (s : Signals)
    → 32 ≤ r.esp
    → let sa : Sigaction = s.action (signr - 1) in
      let esp : ℕ = r.esp - 4 * longs_of sa in
      Entered signr r m s
        (record r { eip = sa.handler; esp = esp })
        (put_longs esp (frame_of signr sa s.blocked r) m)
        (record s {
          action = update s.action (signr - 1) (used_up sa);
          blocked = bit_or s.blocked sa.mask;
        })
entered signr r m s room =
    let sa : Sigaction = s.action (signr - 1) in
    let xs : List ℕ = frame_of signr sa s.blocked r in
    let esp : ℕ = r.esp - 4 * longs_of sa in
    let size : length xs ≡ longs_of sa = length-frame_of signr sa s.blocked r in
    let few : longs_of sa ≤ 8 = longs_of-le sa in
    let top : esp + 4 * longs_of sa ≡ r.esp = omega arith in
    record {
      eip = refl;
      esp = top;
      saved =
          subst (λ n. read_longs n esp (put_longs esp xs m) ≡ xs) size
            (read_longs-put_longs esp xs m);
      others = λ a h. elim h [
        | inl below ↦ put_longs-below esp a xs m below
        | inr above ↦ put_longs-above esp a xs m (omega arith)
      ];
      blocked = refl;
      rest = λ k ne. update_ne s.action (signr - 1) (used_up sa) k (λ e. ne (sym e));
    }

-- With room on its stack a task either ignores the signal, ends, or enters the handler with the frame saved.
pub do_signal-Delivers :
    (signr : ℕ) (r : Regs) (m : Stack) (s : Signals)
    → 32 ≤ r.esp
    → Delivers signr r m s (do_signal signr r m s)
unfolding do_signal
do_signal-Delivers signr r m s room = elim (Bool-cases ((s.action (signr - 1)).handler == 1)) [
  | inl h ↦ subst (Delivers signr r m s) (sym (if_true _ _ h)) (is_ignored (inl (ground arith)))
  | inr h ↦
      subst (Delivers signr r m s) (sym (if_false _ _ h))
        (elim (Bool-cases ((s.action (signr - 1)).handler == 0)) [
          | inl z ↦
              subst (Delivers signr r m s) (sym (if_true _ _ z))
                (elim (Bool-cases (signr == child_signal)) [
                  | inl c ↦
                      subst (Delivers signr r m s) (sym (if_true _ _ c))
                        (is_ignored (inr (ground arith, ground arith)))
                  | inr c ↦
                      subst (Delivers signr r m s) (sym (if_false _ _ c))
                        (ends (ground arith) (ground arith))
                ])
          | inr z ↦
              subst (Delivers signr r m s) (sym (if_false _ _ z))
                (enters _ _ _ (entered signr r m s room))
        ])
]
