-- ===== src/Fork/Draw.antt =====
-- kernel/fork.c: the loop of `find_empty_process` that draws a pid ends.
use my_practice.Base.{
  ℕ, zero, suc, ◌+◌, ◌-◌, ◌^◌, ◌≤◌, ◌<◌, ◌≡◌, ◌≢◌, refl, sym, ap, ◌∙◌, ◌⊎◌, inl, inr, Bool, true,
  false, Option, none, some, ltb, ◌==◌, ==→eq, if◌then◌else◌, if_true, if_false, arith, Bool-cases,
}
use mathlib.Core.Path.{subst}
use my_practice.Fork.{Pids, next_pid, pid_in_use, draw_pid}
use my_practice.Fork.Pigeons.{Collision, collide}

-- The pid of the round `k`
candidate : (last_pid k : ℕ) → ℕ
candidate last_pid k =
    if ltb (last_pid + k) (2 ^ 31) then last_pid + k else last_pid + k - (2 ^ 31 - 1)

next_pid-candidate :
    (last k : ℕ) → last < 2 ^ 31 → k < 100 → next_pid (candidate last k) ≡ candidate last (k + 1)
unfolding candidate
next_pid-candidate last k h l = ground arith

candidate_apart :
    (last i j : ℕ) → last < 2 ^ 31 → i < j → j < 100 → candidate last i ≢ candidate last j
unfolding candidate
candidate_apart last i j h a b e = ground arith

next_pid-bound : (last : ℕ) → last < 2 ^ 31 → (1 ≤ next_pid last) × (next_pid last < 2 ^ 31)
next_pid-bound last h = ground arith

candidate-bound : (last k : ℕ) → last < 2 ^ 31 → k < 100 → candidate last k < 2 ^ 31
unfolding candidate
candidate-bound last k h l = ground arith

candidate_zero : (last : ℕ) → last < 2 ^ 31 → candidate last 0 ≡ last
unfolding candidate
candidate_zero last h = ground arith

slot_of : (n i pid : ℕ) → Pids → ℕ
slot_of zero i pid t = i
slot_of (suc n) i pid t =
    let rest = slot_of n (i + 1) pid t in
    elim (t i) [ none ↦ rest | some p ↦ if p == pid then i else rest ]

pid_in_use-slot_of :
    (n i pid : ℕ) (t : Pids)
    → pid_in_use n i pid t ≡ true
    → (slot_of n i pid t < i + n) × (t (slot_of n i pid t) ≡ some pid)
unfolding pid_in_use slot_of
pid_in_use-slot_of zero i pid t h = cc
pid_in_use-slot_of (suc n) i pid t h = at_slot (t i) refl h (pid_in_use-slot_of n (i + 1) pid t)
  where
    at_slot :
        (o : Option ℕ)
        → t i ≡ o
        → elim o as (λ x. Bool) [
          | none ↦ pid_in_use n (i + 1) pid t
          | some p ↦ if p == pid then true else pid_in_use n (i + 1) pid t
        ]
          ≡ true
        → (pid_in_use n (i + 1) pid t ≡ true
            → (slot_of n (i + 1) pid t < i + 1 + n) × (t (slot_of n (i + 1) pid t) ≡ some pid))
        → let s : ℕ = elim o as (λ x. ℕ) [
          | none ↦ slot_of n (i + 1) pid t
          | some p ↦ if p == pid then i else slot_of n (i + 1) pid t
        ] in
          (s < i + suc n) × (t s ≡ some pid)
    at_slot none e u ih = let (a, b) = ih u in (omega arith, b)
    at_slot (some p) e u ih = elim (Bool-cases (p == pid)) [
      | inl q ↦
          subst (λ s. (s < i + suc n) × (t s ≡ some pid))
            (sym (if_true i (slot_of n (i + 1) pid t) q))
            (omega arith, e ∙ ap (λ x. some x) (==→eq _ _ q))
      | inr q ↦
          let (a, b) = ih (sym (if_false true (pid_in_use n (i + 1) pid t) q) ∙ u) in
          subst (λ s. (s < i + suc n) × (t s ≡ some pid))
            (sym (if_false i (slot_of n (i + 1) pid t) q)) (omega arith, b)
    ]

-- A pid that no task has
abbrev pub IsNew : Pids → ℕ → Type 0
IsNew t pid = (1 ≤ pid) × (pid < 2 ^ 31) × (pid_in_use 64 0 pid t ≡ false)

draw_pid-cases :
    (fuel k last : ℕ) (t : Pids)
    → last < 2 ^ 31
    → k + fuel < 100
    → ((pid : ℕ) × (draw_pid fuel (candidate last k) t ≡ some pid) × IsNew t pid)
      ⊎ ((j : ℕ) → k < j → j ≤ k + fuel → pid_in_use 64 0 (candidate last j) t ≡ true)
unfolding draw_pid
draw_pid-cases zero k last t h l = inr (λ j a b. absurd (omega arith))
draw_pid-cases (suc fuel) k last t h l =
    let e : next_pid (candidate last k) ≡ candidate last (k + 1) =
      next_pid-candidate last k h (omega arith) in
    elim (Bool-cases (pid_in_use 64 0 (next_pid (candidate last k)) t)) [
      | inr u ↦
          let b : (1 ≤ next_pid (candidate last k)) × (next_pid (candidate last k) < 2 ^ 31) =
            next_pid-bound (candidate last k) (candidate-bound last k h (omega arith)) in
          inl (next_pid (candidate last k), if_false _ _ u, (b.0, b.1, u))
      | inl u ↦ elim (draw_pid-cases fuel (k + 1) last t h (omega arith)) [
        | inl (pid, q, new) ↦ inl (pid, if_true _ _ u ∙ ap (λ c. draw_pid fuel c t) e ∙ q, new)
        | inr all ↦ inr (λ j a b. elim (next_cases k j a) [
          | inl q ↦ subst (λ c. pid_in_use 64 0 c t ≡ true) (e ∙ ap (candidate last) (sym q)) u
          | inr m ↦ all j m (omega arith)
        ])
      ]
    ]
  where
    next_cases : (k j : ℕ) → k < j → (j ≡ k + 1) ⊎ (k + 1 < j)
    next_cases k j a = ground arith

-- With 65 rounds the loop ends.
pub draw_pid-IsNew :
    (last : ℕ) (t : Pids)
    → last < 2 ^ 31
    → (pid : ℕ) × (draw_pid 65 last t ≡ some pid) × IsNew t pid
draw_pid-IsNew last t h = elim (draw_pid-cases 65 0 last t h (omega arith)) [
  | inl (pid, e, new) ↦ (pid, ap (λ c. draw_pid 65 c t) (sym (candidate_zero last h)) ∙ e, new)
  | inr all ↦
      let held : (i : ℕ)
          → i ≤ 64
          → (slot_of 64 0 (candidate last (i + 1)) t < 64)
            × (t (slot_of 64 0 (candidate last (i + 1)) t) ≡ some (candidate last (i + 1))) =
        λ i l.
          pid_in_use-slot_of 64 0 (candidate last (i + 1)) t
            (all (i + 1) (omega arith) (omega arith)) in
      let c : Collision 64 (λ i. slot_of 64 0 (candidate last (i + 1)) t) =
        collide 64 (λ i. slot_of 64 0 (candidate last (i + 1)) t) (λ i l. (held i l).0) in
      let less : c.i < c.j = c.less in
      let bound : c.j ≤ 64 = c.bound in
      let e : some (candidate last (c.i + 1)) ≡ some (candidate last (c.j + 1)) =
        sym (held c.i (omega arith)).1 ∙ ap t c.same ∙ (held c.j (omega arith)).1 in
      absurd (
        candidate_apart last (c.i + 1) (c.j + 1) h (omega arith) (omega arith)
          (some_same (candidate last (c.i + 1)) (candidate last (c.j + 1)) e))
]
  where
    some_same : (a b : ℕ) → some a ≡ some b → a ≡ b
    some_same a b e = cc
