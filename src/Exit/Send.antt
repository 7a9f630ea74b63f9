-- ===== src/Exit/Send.antt =====
-- kernel/exit.c: what `send_sig` and the body of the loops of `sys_kill` do to one slot.
use my_practice.Base.{
  ℕ, ◌≤◌, ◌≡◌, refl, sym, ap, ◌∙◌, inl, inr, Bool, true, false, not, ◌&&◌, ◌||◌, Option, none, some,
  ltb, ◌==◌, if◌then◌else◌, update, update_ne, update_self, arith, Bool-cases, Option-cases,
  if_true, if_false,
}
use mathlib.Core.Path.{subst}
use my_practice.Exit.{TaskStruct, Slots, einval, eperm, with_signal, send_sig, send_to, pick_one}
use my_practice.Exit.Loops.{OneSlot}

-- Whether a task may send a signal to another one
abbrev pub may : (priv : Bool) → (me p : TaskStruct) → Bool
may priv me p = priv || (me.euid == p.euid || me.euid == 0)

-- What becomes of a slot where the tasks that `picks` picks are sent a signal
abbrev pub signalled :
    (picks : TaskStruct → Bool)
    → (sig : ℕ) → (priv : Bool) → (me : TaskStruct) → Option TaskStruct
    → Option TaskStruct
signalled picks sig priv me none = none
signalled picks sig priv me (some p) =
    if picks p && may priv me p then some (with_signal sig p) else some p

-- Whether a slot holds a task that is picked and may not be sent the signal
abbrev pub refuses :
    (picks : TaskStruct → Bool) → (priv : Bool) → (me : TaskStruct) → Option TaskStruct → Bool
refuses picks priv me none = false
refuses picks priv me (some p) = picks p && not (may priv me p)

abbrev pub IsSignal : ℕ → Type 0
IsSignal sig = (1 ≤ sig) × (sig ≤ 32)

pub send_sig-some :
    (sig i : ℕ) (priv : Bool) (me p : TaskStruct) (t : Slots)
    → t i ≡ some p
    → send_sig sig i priv me t ≡ send_to sig i priv me p t
unfolding send_sig
send_sig-some sig i priv me p t e =
    ap
      (λ (o : Option TaskStruct). elim o as (λ x. ℕ × Slots) [
        | none ↦ (einval, t)
        | some p ↦ send_to sig i priv me p t
      ])
      e

pub send_sig-none :
    (sig i : ℕ) (priv : Bool) (me : TaskStruct) (t : Slots)
    → t i ≡ none
    → send_sig sig i priv me t ≡ (einval, t)
unfolding send_sig
send_sig-none sig i priv me t e =
    ap
      (λ (o : Option TaskStruct). elim o as (λ x. ℕ × Slots) [
        | none ↦ (einval, t)
        | some p ↦ send_to sig i priv me p t
      ])
      e

signal_test : (n : ℕ) → 1 ≤ n → n ≤ 32 → (ltb n 1 || ltb 32 n) ≡ false
signal_test n a b = ground arith

send_to-may :
    (sig i : ℕ) (priv : Bool) (me p : TaskStruct) (t : Slots)
    → IsSignal sig
    → may priv me p ≡ true
    → send_to sig i priv me p t ≡ (0, update t i (some (with_signal sig p)))
send_to-may sig i priv me p t s m =
    let z : (ltb sig 1 || ltb 32 sig) ≡ false = signal_test sig s.0 s.1 in
    if_false _ _ z ∙ if_true _ _ m

send_to-refused :
    (sig i : ℕ) (priv : Bool) (me p : TaskStruct) (t : Slots)
    → IsSignal sig
    → may priv me p ≡ false
    → send_to sig i priv me p t ≡ (eperm, t)
send_to-refused sig i priv me p t s m =
    let z : (ltb sig 1 || ltb 32 sig) ≡ false = signal_test sig s.0 s.1 in
    if_false _ _ z ∙ if_false _ _ m

-- A body whose result is a change of the slot, or none
pub changed :
    (g : Option TaskStruct → Option TaskStruct) (bad : Option TaskStruct → Bool) (i err : ℕ)
    (t : Slots) (q : Option TaskStruct)
    → q ≡ g (t i)
    → (err == 0) ≡ not (bad (t i))
    → OneSlot g bad i t (err, update t i q)
changed g bad i err t q e h = record {
  at = update_self t i q ∙ e;
  others = λ j n. update_ne t i q j n;
  error = h;
}

pub unchanged :
    (g : Option TaskStruct → Option TaskStruct) (bad : Option TaskStruct → Bool) (i err : ℕ)
    (t : Slots)
    → t i ≡ g (t i)
    → (err == 0) ≡ not (bad (t i))
    → OneSlot g bad i t (err, t)
unchanged g bad i err t e h = record { at = e; others = λ j n. refl; error = h }

-- `send_sig` to a task that is picked, or to none
pub send-OneSlot :
    (picks : TaskStruct → Bool) (sig i : ℕ) (priv : Bool) (me p : TaskStruct) (t : Slots)
    (bad : Option TaskStruct → Bool)
    → IsSignal sig
    → t i ≡ some p
    → picks p ≡ true
    → bad (some p) ≡ not (may priv me p)
    → OneSlot (signalled picks sig priv me) bad i t (send_sig sig i priv me t)
send-OneSlot picks sig i priv me p t bad s e k b =
    let g : Option TaskStruct → Option TaskStruct = signalled picks sig priv me in
    elim (Bool-cases (may priv me p)) [
      | inl m ↦
          let y : (picks p && may priv me p) ≡ true = both _ _ k m in
          subst (OneSlot g bad i t)
            (sym (send_sig-some sig i priv me p t e ∙ send_to-may sig i priv me p t s m))
            (changed g bad i 0 t (some (with_signal sig p))
              (sym (ap g e ∙ if_true (some (with_signal sig p)) (some p) y))
              (sym (ap not (ap bad e ∙ b ∙ ap not m))))
      | inr m ↦
          let y : (picks p && may priv me p) ≡ false = ap (λ x. x && may priv me p) k ∙ m in
          subst (OneSlot g bad i t)
            (sym (send_sig-some sig i priv me p t e ∙ send_to-refused sig i priv me p t s m))
            (unchanged g bad i eperm t
              (e ∙ sym (ap g e ∙ if_false (some (with_signal sig p)) (some p) y))
              (sym (ap not (ap bad e ∙ b ∙ ap not m))))
    ]
  where
    both : (a b : Bool) → a ≡ true → b ≡ true → (a && b) ≡ true
    both a b x y = ground arith

pick_one-none :
    (picks : TaskStruct → Bool) (sig : ℕ) (priv : Bool) (me : TaskStruct) (i : ℕ) (t : Slots)
    → t i ≡ none
    → pick_one picks sig priv me i t ≡ (0, t)
unfolding pick_one
pick_one-none picks sig priv me i t e =
    ap
      (λ (o : Option TaskStruct). elim o as (λ x. ℕ × Slots) [
        | none ↦ (0, t)
        | some p ↦ if picks p then send_sig sig i priv me t else (0, t)
      ])
      e

pick_one-some :
    (picks : TaskStruct → Bool) (sig : ℕ) (priv : Bool) (me p : TaskStruct) (i : ℕ) (t : Slots)
    → t i ≡ some p
    → pick_one picks sig priv me i t ≡ (if picks p then send_sig sig i priv me t else (0, t))
unfolding pick_one
pick_one-some picks sig priv me p i t e =
    ap
      (λ (o : Option TaskStruct). elim o as (λ x. ℕ × Slots) [
        | none ↦ (0, t)
        | some p ↦ if picks p then send_sig sig i priv me t else (0, t)
      ])
      e

pub pick_one-OneSlot :
    (picks : TaskStruct → Bool) (sig : ℕ) (priv : Bool) (me : TaskStruct)
    → IsSignal sig
    → (i : ℕ) (t : Slots)
    → OneSlot
        (signalled picks sig priv me)
        (refuses picks priv me)
        i
        t
        (pick_one picks sig priv me i t)
pick_one-OneSlot picks sig priv me s i t =
    let g : Option TaskStruct → Option TaskStruct = signalled picks sig priv me in
    let bad : Option TaskStruct → Bool = refuses picks priv me in
    elim (Option-cases (t i)) [
      | inl e ↦
          subst (OneSlot g bad i t) (sym (pick_one-none picks sig priv me i t e))
            (unchanged g bad i 0 t (e ∙ sym (ap g e)) (sym (ap not (ap bad e))))
      | inr (p, e) ↦ elim (Bool-cases (picks p)) [
        | inl k ↦
            subst (OneSlot g bad i t)
              (sym (pick_one-some picks sig priv me p i t e ∙ if_true _ _ k))
              (send-OneSlot picks sig i priv me p t bad s e k
                (ap (λ x. x && not (may priv me p)) k))
        | inr k ↦
            subst (OneSlot g bad i t)
              (sym (pick_one-some picks sig priv me p i t e ∙ if_false _ _ k))
              (unchanged g bad i 0 t
                (e
                  ∙ sym (
                      ap g e
                      ∙ if_false (some (with_signal sig p)) (some p)
                          (ap (λ x. x && may priv me p) k)))
                (sym (ap not (ap bad e ∙ ap (λ x. x && not (may priv me p)) k))))
      ]
    ]
