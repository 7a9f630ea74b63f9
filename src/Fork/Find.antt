-- ===== src/Fork/Find.antt =====
-- kernel/fork.c: what `find_empty_process` finds.
use my_practice.Base.{
  ℕ, zero, suc, ◌+◌, ◌^◌, ◌≤◌, ◌<◌, ◌≡◌, ◌≢◌, refl, sym, ap, ◌∙◌, ◌⊎◌, inl, inr, Bool, true, false,
  Option, none, some, ◌==◌, if◌then◌else◌, if_true, if_false, arith, Bool-cases, Option-cases,
}
use mathlib.Core.Path.{subst}
use my_practice.Fork.{Pids, pid_in_use, empty_slot, find_empty_process}
use my_practice.Fork.Draw.{draw_pid-IsNew}

in_use-none :
    (n i pid : ℕ) (t : Pids) → t i ≡ none → pid_in_use (suc n) i pid t ≡ pid_in_use n (i + 1) pid t
unfolding pid_in_use
in_use-none n i pid t e =
    ap
      (λ (o : Option ℕ). elim o as (λ x. Bool) [
        | none ↦ pid_in_use n (i + 1) pid t
        | some p ↦ if p == pid then true else pid_in_use n (i + 1) pid t
      ])
      e

in_use-some :
    (n i pid p : ℕ) (t : Pids)
    → t i ≡ some p
    → pid_in_use (suc n) i pid t ≡ (if p == pid then true else pid_in_use n (i + 1) pid t)
unfolding pid_in_use
in_use-some n i pid p t e =
    ap
      (λ (o : Option ℕ). elim o as (λ x. Bool) [
        | none ↦ pid_in_use n (i + 1) pid t
        | some p ↦ if p == pid then true else pid_in_use n (i + 1) pid t
      ])
      e

first_cases : (i j : ℕ) → i ≤ j → (j ≡ i) ⊎ (i + 1 ≤ j)
first_cases i j h = ground arith

not_in_use :
    (n i pid : ℕ) (t : Pids)
    → pid_in_use n i pid t ≡ false
    → (j : ℕ) → i ≤ j
    → j < i + n
    → t j ≢ some pid
not_in_use zero i pid t h j a b = absurd (omega arith)
not_in_use (suc n) i pid t h j a b = elim (first_cases i j a) [
  | inl q ↦ elim (Option-cases (t i)) [
    | inl e ↦ λ k. none_some (sym e ∙ ap t (sym q) ∙ k)
    | inr (p, e) ↦ λ k.
        let z : (p == pid) ≡ true = same_pid p pid (sym e ∙ ap t (sym q) ∙ k) in
        true_false (sym (in_use-some n i pid p t e ∙ if_true _ _ z) ∙ h)
  ]
  | inr l ↦ elim (Option-cases (t i)) [
    | inl e ↦ not_in_use n (i + 1) pid t (sym (in_use-none n i pid t e) ∙ h) j l (omega arith)
    | inr (p, e) ↦ elim (Bool-cases (p == pid)) [
      | inl z ↦ λ k. true_false (sym (in_use-some n i pid p t e ∙ if_true _ _ z) ∙ h)
      | inr z ↦
          not_in_use n (i + 1) pid t (sym (in_use-some n i pid p t e ∙ if_false _ _ z) ∙ h) j l
            (omega arith)
    ]
  ]
]
  where
    none_some : {x : ℕ} → none ≡ some x → ⊥
    none_some e = cc

    true_false : true ≡ false → ⊥
    true_false e = cc

    same_pid : (p pid : ℕ) → some p ≡ some pid → (p == pid) ≡ true
    same_pid p pid e = let q : p ≡ pid = cc in ground arith

-- A free slot, or that there is none
abbrev pub IsSlot : Pids → Option ℕ → Type 0
IsSlot t none = (i : ℕ) → 1 ≤ i → i < 64 → t i ≢ none
IsSlot t (some i) = (1 ≤ i) × (i < 64) × (t i ≡ none)

empty_slot-cases :
    (n i : ℕ) (t : Pids)
    → ((empty_slot n i t ≡ none) × ((j : ℕ) → i ≤ j → j < i + n → t j ≢ none))
      ⊎ ((s : ℕ) × (empty_slot n i t ≡ some s) × (i ≤ s) × (s < i + n) × (t s ≡ none))
unfolding empty_slot
empty_slot-cases zero i t = inl (refl, λ j a b. absurd (omega arith))
empty_slot-cases (suc n) i t = elim (Option-cases (t i)) [
  | inl e ↦ inr (i, ap slot e, omega arith, omega arith, e)
  | inr (p, e) ↦ elim (empty_slot-cases n (i + 1) t) [
    | inl (q, all) ↦ inl (
      ap slot e ∙ q,
      λ j a b. elim (first_cases i j a) [
        | inl z ↦ λ k. some_none (sym e ∙ ap t (sym z) ∙ k)
        | inr l ↦ all j l (omega arith)
      ],
    )
    | inr (s, q, l, u, f) ↦ inr (s, ap slot e ∙ q, omega arith, omega arith, f)
  ]
]
  where
    slot : Option ℕ → Option ℕ
    slot o = elim o [ none ↦ some i | some p ↦ empty_slot n (i + 1) t ]

    some_none : {x : ℕ} → some x ≡ none → ⊥
    some_none e = cc

empty_slot-IsSlot : (t : Pids) → IsSlot t (empty_slot 63 1 t)
empty_slot-IsSlot t = elim (empty_slot-cases 63 1 t) [
  | inl (e, all) ↦ subst (IsSlot t) (sym e) all
  | inr (s, e, l, u, f) ↦ subst (IsSlot t) (sym e) (l, u, f)
]

-- For a `last_pid` that is not negative, `find_empty_process` ends after at most 65 rounds, with a
-- `last_pid` that is positive and is the pid of no task, and with a free slot from 1 on, or, where
-- there is none, with -EAGAIN.
pub find_empty_process-ends :
    (last : ℕ) (t : Pids)
    → last < 2 ^ 31
    → (pid : ℕ) × (slot : Option ℕ) × (find_empty_process 65 last t ≡ some (pid, slot))
      × (1 ≤ pid)
      × (pid < 2 ^ 31)
      × ((i : ℕ) → i < 64 → t i ≢ some pid)
      × IsSlot t slot
unfolding find_empty_process
find_empty_process-ends last t h =
    let (pid, e, new) = draw_pid-IsNew last t h in
    (
      pid,
      empty_slot 63 1 t,
      ap
          (λ (o : Option ℕ). elim o as (λ x. Option (ℕ × Option ℕ)) [
            | none ↦ none
            | some pid ↦ some (pid, empty_slot 63 1 t)
          ])
          e,
      new.0,
      new.1,
      λ i l. not_in_use 64 0 pid t new.2 i (omega arith) l,
      empty_slot-IsSlot t,
    )
