-- ===== src/Lamport/Scan.antt =====
-- include/linux/lamport.h: what the searches of the lock find.
use native.Mathlib.Decide.{ℕ_discrete}
use my_practice.Base.{
  ℕ, zero, suc, ◌+◌, ◌≤◌, ◌<◌, ◌≡◌, refl, ap, ◌∙◌, ◌≢◌, ◌⊎◌, inl, inr, true, false, arith, ◌==◌,
  if◌then◌else◌, Bool-cases,
}
use my_practice.Lamport.{Lamport, find_task, max_round, take_max, blocked, passes, find_pid}

-- The outcome of a search for `p` among the entries from `i` up to `e`.
abbrev pub Found : (ℕ → ℕ) → ℕ → ℕ → ℕ → ℕ → Type 0
Found pids p i e k = (i ≤ k) × (k < e) × (pids k ≡ p)

abbrev pub Absent : (ℕ → ℕ) → ℕ → ℕ → ℕ → Type 0
Absent pids p i e = (j : ℕ) → i ≤ j → j < e → pids j ≢ p

Absent-suc : (pids : ℕ → ℕ) (p i e : ℕ) → pids i ≢ p → Absent pids p (suc i) e → Absent pids p i e
Absent-suc pids p i e ne absent j lo hi q = elim (ℕ_discrete i j) [
  | yes same ↦ ne (ap pids same ∙ q)
  | no other ↦ absent j (omega arith) hi q
]

-- The search of `lamportUnlock` ends at an entry of the task, or at the end if there is none.
pub find_pid-cases :
    (n i e : ℕ) (pids : ℕ → ℕ) (p : ℕ)
    → i + n ≡ e
    → Found pids p i e (find_pid n i pids p) ⊎ ((find_pid n i pids p ≡ e) × Absent pids p i e)
unfolding find_pid
find_pid-cases zero i e pids p q = inr (omega arith, λ j lo hi. absurd (omega arith))
find_pid-cases (suc n) i e pids p q = elim (ℕ_discrete (pids i) p) [
  | yes here ↦
      let stop : (pids i == p) ≡ true = ground arith in
      inl (rw stop (omega arith), rw stop (omega arith), rw stop here)
  | no other ↦
      let go_on : (pids i == p) ≡ false = ground arith in
      rw go_on (elim (find_pid-cases n (suc i) e pids p (omega arith)) [
        | inl f ↦ inl (omega (arith, f.0), f.1, f.2)
        | inr (ends, absent) ↦ inr (ends, Absent-suc pids p i e other absent)
      ])
]

-- A task that is not there is not found.
pub find_pid-Absent :
    (n i e : ℕ) (pids : ℕ → ℕ) (p : ℕ) → i + n ≡ e → Absent pids p i e → find_pid n i pids p ≡ e
find_pid-Absent n i e pids p q absent = elim (find_pid-cases n i e pids p q) [
  | inl f ↦ absurd (absent _ f.0 f.1 f.2)
  | inr (ends, _) ↦ ends
]

-- The two searches stop at the same entry.
pub find_task-find_pid :
    (n i z : ℕ) (pids : ℕ → ℕ) (p : ℕ) → (find_task n i z pids p).0 ≡ find_pid n i pids p
unfolding find_task find_pid
find_task-find_pid zero i z pids p = refl
find_task-find_pid (suc n) i z pids p =
    ground (arith, find_task-find_pid n (suc i) (if pids i == 0 then i else z) pids p)

-- The free entry that `lamportLock` chooses: one of the range, or the one it started with if there
-- is none.
abbrev pub Chosen : (ℕ → ℕ) → ℕ → ℕ → ℕ → ℕ → Type 0
Chosen pids i e z k = Found pids 0 i e k ⊎ ((k ≡ z) × Absent pids 0 i e)

pub find_task-null :
    (n i e z : ℕ) (pids : ℕ → ℕ) (p : ℕ)
    → i + n ≡ e
    → Absent pids p i e
    → Chosen pids i e z (find_task n i z pids p).1
unfolding find_task
find_task-null zero i e z pids p q absent = inr (refl, λ j lo hi. absurd (omega arith))
find_task-null (suc n) i e z pids p q absent =
    let other : pids i ≢ p = absent i (omega arith) (omega arith) in
    let go_on : (pids i == p) ≡ false = ground arith in
    let rest : Absent pids p (suc i) e = λ j lo hi. absent j (omega arith) hi in
    rw go_on (elim (ℕ_discrete (pids i) 0) [
      | yes free ↦
          let here : (pids i == 0) ≡ true = ground arith in
          rw here (elim (find_task-null n (suc i) e i pids p (omega arith) rest) [
            | inl f ↦ inl (omega (arith, f.0), f.1, f.2)
            | inr (k, all) ↦ inl (omega (arith, k), omega (arith, k), ap pids k ∙ free)
          ])
      | no held ↦
          let here : (pids i == 0) ≡ false = ground arith in
          rw here (elim (find_task-null n (suc i) e z pids p (omega arith) rest) [
            | inl f ↦ inl (omega (arith, f.0), f.1, f.2)
            | inr (k, all) ↦ inr (k, Absent-suc pids 0 i e held all)
          ])
    ])

-- While the numbers that it reads are 0, a round changes none.
abbrev Same : Lamport → Lamport → Type 0
Same l' l = ((k : ℕ) → l'.num k ≡ l.num k) × (l'.pid ≡ l.pid) × (l'.choosing ≡ l.choosing)

max_round-idle :
    (j task : ℕ) (l : Lamport) → l.num task ≡ 0 → l.num j ≡ 0 → Same (max_round j task l) l
unfolding max_round
max_round-idle j task l z idle = elim (Bool-cases (j == task)) [
  | inl same ↦ rw same (λ k. refl, refl, refl)
  | inr other ↦ rw other (λ k. ground arith, refl, refl)
]

pub take_max-idle :
    (n j task : ℕ) (l : Lamport)
    → l.num task ≡ 0
    → ((k : ℕ) → j ≤ k → l.num k ≡ 0)
    → Same (take_max n j task l) l
unfolding take_max
take_max-idle zero j task l z idle = (λ k. refl, refl, refl)
take_max-idle (suc n) j task l z idle =
    let (nums, pids, ch) = max_round-idle j task l z (idle j (omega arith)) in
    let (nums', pids', ch') =
      take_max-idle n (suc j) task (max_round j task l) (nums task ∙ z)
        (λ k h. nums k ∙ idle k (omega arith)) in
    (λ k. nums' k ∙ nums k, pids' ∙ pids, ch' ∙ ch)

pub passes-true :
    (n j task : ℕ) (l : Lamport) → ((k : ℕ) → blocked k task l ≡ false) → passes n j task l ≡ true
unfolding passes
passes-true zero j task l free = refl
passes-true (suc n) j task l free = rw (free j) (passes-true n (suc j) task l free)

-- The lock waits for ever if its first entry blocks it.
pub passes-blocked :
    (n j task : ℕ) (l : Lamport) → blocked j task l ≡ true → passes (suc n) j task l ≡ false
unfolding passes
passes-blocked n j task l h = rw h refl
