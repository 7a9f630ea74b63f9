-- ===== src/Exit/Children.antt =====
-- kernel/exit.c: what the loop of `sys_waitpid` finds.
use my_practice.Base.{
  ℕ, zero, suc, ◌≡◌, ◌≢◌, refl, sym, ap, ◌∙◌, inl, inr, Bool, true, false, not, ◌&&◌, Option, none,
  some, ◌==◌, if◌then◌else◌, arith, Bool-cases, Option-cases, if_true, if_false,
}
use mathlib.Core.Path.{subst}
use my_practice.Base.Int.{ℤ}
use my_practice.Sched.{State, running, interruptible, uninterruptible, stopped, zombie}
use my_practice.Exit.{TaskStruct, Slots, awaited, Scan, switch_child, scan_children}
use my_practice.Exit.Wait.{
  IsChild, ready, NoneReady, Found, Found-pass, no_child-Passed, child-Passed, same_task,
}

module _ (pid : ℤ) (untraced : Bool) (current : ℕ) (me : TaskStruct) (t : Slots) where
  next_scan : (n : ℕ) → Bool → Scan
  next_scan n f = scan_children n pid untraced current me f t

  scan_children-none :
      (n : ℕ) (flag : Bool)
      → t (suc n) ≡ none
      → scan_children (suc n) pid untraced current me flag t ≡ next_scan n flag
  unfolding scan_children next_scan
  scan_children-none n flag e =
      ap
        (λ (o : Option TaskStruct). elim o as (λ x. Scan) [
          | none ↦ next_scan n flag
          | some p ↦
              if not (suc n == current) && awaited pid me p
              then switch_child (suc n) untraced flag (λ f. next_scan n f) p p.state
              else next_scan n flag
        ])
        e

  scan_children-some :
      (n : ℕ) (flag : Bool) (p : TaskStruct)
      → t (suc n) ≡ some p
      → scan_children (suc n) pid untraced current me flag t ≡ (
          if not (suc n == current) && awaited pid me p
          then switch_child (suc n) untraced flag (λ f. next_scan n f) p p.state
          else next_scan n flag)
  unfolding scan_children next_scan
  scan_children-some n flag p e =
      ap
        (λ (o : Option TaskStruct). elim o as (λ x. Scan) [
          | none ↦ next_scan n flag
          | some p ↦
              if not (suc n == current) && awaited pid me p
              then switch_child (suc n) untraced flag (λ f. next_scan n f) p p.state
              else next_scan n flag
        ])
        e

  none_above : (n : ℕ) → NoneReady pid untraced current me t n n
  none_above n j q a b = absurd (omega arith)

  -- The `switch` for a child `p`, in each state
  switch_child-Found :
      (n : ℕ) (flag : Bool) (p : TaskStruct) (state : State)
      → p.state ≡ state
      → IsChild pid current me t (suc n) p
      → ((f : Bool) → Found pid untraced current me t n f (next_scan n f))
      → Found pid untraced current me t
          (suc n)
          flag
          (switch_child (suc n) untraced flag (λ f. next_scan n f) p state)
  switch_child-Found n flag p stopped e c ih = elim (Bool-cases untraced) [
    | inl u ↦
        subst (Found pid untraced current me t (suc n) flag) (sym (if_true _ _ u))
          (omega arith, omega arith, c, e, u, none_above (suc n))
    | inr u ↦ subst (Found pid untraced current me t (suc n) flag) (sym (if_false _ _ u)) (
        Found-pass pid untraced current me t n flag flag (next_scan n flag)
          (child-Passed pid untraced current me t (suc n) p flag flag c (ap (ready untraced) e ∙ u)
            (λ x. x) (inl e) (λ x. inl x))
          (ih flag))
  ]
  switch_child-Found n flag p zombie e c ih = (omega arith, omega arith, c, e, none_above (suc n))
  switch_child-Found n flag p running e c ih =
      Found-pass pid untraced current me t n flag true (next_scan n true)
        (child-Passed pid untraced current me t (suc n) p flag true c (ap (ready untraced) e)
          (λ x. refl) (inr refl)
          (λ x. inr (λ z. absurd (let no : running ≡ stopped = sym e ∙ z in cc))))
        (ih true)
  switch_child-Found n flag p interruptible e c ih =
      Found-pass pid untraced current me t n flag true (next_scan n true)
        (child-Passed pid untraced current me t (suc n) p flag true c (ap (ready untraced) e)
          (λ x. refl) (inr refl)
          (λ x. inr (λ z. absurd (let no : interruptible ≡ stopped = sym e ∙ z in cc))))
        (ih true)
  switch_child-Found n flag p uninterruptible e c ih =
      Found-pass pid untraced current me t n flag true (next_scan n true)
        (child-Passed pid untraced current me t (suc n) p flag true c (ap (ready untraced) e)
          (λ x. refl) (inr refl)
          (λ x. inr (λ z. absurd (let no : uninterruptible ≡ stopped = sym e ∙ z in cc))))
        (ih true)

  both_true : (i : ℕ) (a : Bool) → (not (i == current) && a) ≡ true → (i ≢ current) × (a ≡ true)
  both_true i a h = ground arith

  not_both : (i : ℕ) (a : Bool) → (not (i == current) && a) ≡ false → i ≢ current → a ≡ true → ⊥
  not_both i a h n e = ground arith

  pub scan_children-Found :
      (n : ℕ) (flag : Bool)
      → Found pid untraced current me t n flag (scan_children n pid untraced current me flag t)
  unfolding scan_children next_scan
  scan_children-Found zero flag = (
    (λ j q a b c. absurd (omega arith)),
    (λ e. e),
    (λ e. inl e),
    λ e j q a b. absurd (omega arith),
  )
  scan_children-Found (suc n) flag = elim (Option-cases (t (suc n))) [
    | inl e ↦
        subst (Found pid untraced current me t (suc n) flag) (sym (scan_children-none n flag e)) (
          Found-pass pid untraced current me t n flag flag (next_scan n flag)
            (no_child-Passed pid untraced current me t (suc n) flag
              (λ q c. none_some (sym e ∙ c.0)))
            (scan_children-Found n flag))
    | inr (p, e) ↦
        subst (Found pid untraced current me t (suc n) flag) (sym (scan_children-some n flag p e))
          (elim (Bool-cases (not (suc n == current) && awaited pid me p)) [
            | inl w ↦
                let (a, b) = both_true (suc n) (awaited pid me p) w in
                subst (Found pid untraced current me t (suc n) flag)
                  (sym (if_true _ (next_scan n flag) w))
                  (switch_child-Found n flag p p.state refl (e, a, b)
                    (λ f. scan_children-Found n f))
            | inr w ↦
                subst (Found pid untraced current me t (suc n) flag)
                  (sym (if_false _ (next_scan n flag) w))
                  (Found-pass pid untraced current me t n flag flag (next_scan n flag)
                    (no_child-Passed pid untraced current me t (suc n) flag (λ q c.
                      not_both (suc n) (awaited pid me p) w c.1 (
                        ap (λ (x : TaskStruct). awaited pid me x)
                          (same_task pid untraced current me t (suc n) p q e c.0)
                        ∙ c.2)))
                    (scan_children-Found n flag))
          ])
  ]
    where
      none_some : {q : TaskStruct} → none ≡ some q → ⊥
      none_some h = cc
