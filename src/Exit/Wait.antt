-- ===== src/Exit/Wait.antt =====
-- kernel/exit.c: the child that `sys_waitpid` gives.
use my_practice.Base.{
  ℕ, suc, ◌≤◌, ◌<◌, ◌≡◌, ◌≢◌, sym, ◌∙◌, ◌⊎◌, inl, inr, Bool, true, false, some, arith,
}
use mathlib.Core.Path.{subst}
use my_practice.Base.Int.{ℤ}
use my_practice.Sched.{State, stopped, zombie}
use my_practice.Exit.{TaskStruct, Slots, awaited, Scan, child_stopped, child_ended, no_child}

-- The task of a slot is a child that the call is for.
abbrev pub IsChild :
    (pid : ℤ) → (current : ℕ) → (me : TaskStruct) → Slots → (i : ℕ) → TaskStruct → Type 0
IsChild pid current me t i p = (t i ≡ some p) × (i ≢ current) × (awaited pid me p ≡ true)

-- Whether the call gives a child in this state at once
abbrev pub ready : (untraced : Bool) → State → Bool
ready untraced stopped = untraced
ready untraced zombie = true
ready untraced _ = false

-- No child of a slot above `i` up to `n` is given at once.
abbrev pub NoneReady :
    (pid : ℤ) → (untraced : Bool) → (current : ℕ) → (me : TaskStruct) → Slots → (i n : ℕ) → Type 0
NoneReady pid untraced current me t i n =
    (j : ℕ) (q : TaskStruct)
    → i < j
    → j ≤ n
    → IsChild pid current me t j q
    → ready untraced q.state ≡ false

-- What the loop over the slots up to `n` finds: the child of the highest slot that can be given, or
-- none, with the flag set where there is a child that is not stopped
abbrev pub Found :
    (pid : ℤ)
    → (untraced : Bool) → (current : ℕ) → (me : TaskStruct) → Slots
    → (n : ℕ) → (flag : Bool) → Scan
    → Type 0
Found pid untraced current me t n flag (child_stopped i p) =
    (1 ≤ i)
    × (i ≤ n)
    × IsChild pid current me t i p
    × (p.state ≡ stopped)
    × (untraced ≡ true)
    × NoneReady pid untraced current me t i n
Found pid untraced current me t n flag (child_ended i p) =
    (1 ≤ i)
    × (i ≤ n)
    × IsChild pid current me t i p
    × (p.state ≡ zombie)
    × NoneReady pid untraced current me t i n
Found pid untraced current me t n flag (no_child f) =
    NoneReady pid untraced current me t 0 n
    × (flag ≡ true → f ≡ true)
    × (f ≡ true
        → (flag ≡ true)
          ⊎ ((j : ℕ) × (q : TaskStruct) × IsChild pid current me t j q × (q.state ≢ stopped)))
    × (f ≡ false
        → (j : ℕ) (q : TaskStruct) → 1 ≤ j
        → j ≤ n
        → IsChild pid current me t j q
        → q.state ≡ stopped)

module _ (pid : ℤ) (untraced : Bool) (current : ℕ) (me : TaskStruct) (t : Slots) where
  -- A slot that is passed over, with the flag `flag'` after it
  pub record Passed (i : ℕ) (flag flag' : Bool) : Type 0 where
    not_ready : (q : TaskStruct) → IsChild pid current me t i q → ready untraced q.state ≡ false
    kept : flag ≡ true → flag' ≡ true
    reason :
        flag' ≡ true
        → (flag ≡ true) ⊎ ((q : TaskStruct) × IsChild pid current me t i q × (q.state ≢ stopped))
    stopped_or_set :
        (q : TaskStruct) → IsChild pid current me t i q → (q.state ≡ stopped) ⊎ (flag' ≡ true)

  last_cases : (n j : ℕ) → j ≤ suc n → (j ≡ suc n) ⊎ (j ≤ n)
  last_cases n j h = ground arith

  contradiction : {b : Bool} → b ≡ true → b ≡ false → ⊥
  contradiction a b = cc

  more_ready :
      (i n : ℕ) {flag flag' : Bool}
      → Passed (suc n) flag flag'
      → NoneReady pid untraced current me t i n
      → NoneReady pid untraced current me t i (suc n)
  more_ready i n s h j q a b c = elim (last_cases n j b) [
    | inl e ↦ s.not_ready q (subst (λ k. IsChild pid current me t k q) e c)
    | inr l ↦ h j q a l c
  ]

  pub Found-pass :
      (n : ℕ) (flag flag' : Bool) (r : Scan)
      → Passed (suc n) flag flag'
      → Found pid untraced current me t n flag' r
      → Found pid untraced current me t (suc n) flag r
  Found-pass n flag flag' (child_stopped i p) s (a, b, c, d, e, h) =
      (a, omega arith, c, d, e, more_ready i n s h)
  Found-pass n flag flag' (child_ended i p) s (a, b, c, d, h) =
      (a, omega arith, c, d, more_ready i n s h)
  Found-pass n flag flag' (no_child f) s (h, k, w, z) = (
    more_ready 0 n s h,
    λ e. k (s.kept e),
    λ e. elim (w e) [
      | inr c ↦ inr c
      | inl q ↦ elim (s.reason q) [ inl g ↦ inl g | inr (c, d, ne) ↦ inr (suc n, c, d, ne) ]
    ],
    λ e j q a b c. elim (last_cases n j b) [
      | inr l ↦ z e j q a l c
      | inl g ↦ elim (s.stopped_or_set q (subst (λ x. IsChild pid current me t x q) g c)) [
        | inl x ↦ x
        | inr x ↦ absurd (contradiction (k x) e)
      ]
    ],
  )

  -- A slot that holds no child that the call is for
  pub no_child-Passed :
      (i : ℕ) (flag : Bool)
      → ((q : TaskStruct) → IsChild pid current me t i q → ⊥)
      → Passed i flag flag
  no_child-Passed i flag h = record {
    not_ready = λ q c. absurd (h q c);
    kept = λ e. e;
    reason = λ e. inl e;
    stopped_or_set = λ q c. absurd (h q c);
  }

  pub same_task : (i : ℕ) (p q : TaskStruct) → t i ≡ some p → t i ≡ some q → p ≡ q
  same_task i p q a b = let e : some p ≡ some q = sym a ∙ b in cc

  -- The only child of the slot is `p`.
  pub child-Passed :
      (i : ℕ) (p : TaskStruct) (flag flag' : Bool)
      → IsChild pid current me t i p
      → ready untraced p.state ≡ false
      → (flag ≡ true → flag' ≡ true)
      → (p.state ≡ stopped) ⊎ (flag' ≡ true)
      → (flag' ≡ true → (flag ≡ true) ⊎ (p.state ≢ stopped))
      → Passed i flag flag'
  child-Passed i p flag flag' c r k s w = record {
    not_ready = λ q d.
        subst (λ (x : TaskStruct). ready untraced x.state ≡ false) (same_task i p q c.0 d.0) r;
    kept = k;
    reason = λ e. elim (w e) [ inl x ↦ inl x | inr ne ↦ inr (p, c, ne) ];
    stopped_or_set = λ q d.
        subst (λ (x : TaskStruct). (x.state ≡ stopped) ⊎ (flag' ≡ true)) (same_task i p q c.0 d.0)
          s;
  }
