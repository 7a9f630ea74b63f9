-- ===== src/Lamport/Lock.antt =====
-- include/linux/lamport.h: the lock in a table where no task holds or wants it.
use mathlib.Core.Path.{subst}
use native.Mathlib.Decide.{ℕ_discrete}
use my_practice.Base.{
  ℕ, ◌≤◌, ◌<◌, ◌≡◌, refl, sym, ap, ◌∙◌, ◌⊎◌, inl, inr, Bool, true, false, none, some, arith, ◌==◌,
  if◌then◌else◌, update, update_ne, update_self,
}
use my_practice.Lamport.{
  Lamport, nr_tasks, find_task, take_max, blocked, enter, draw, lock, find_pid, unlock,
}
use my_practice.Lamport.Scan.{
  Absent, find_pid-cases, find_pid-Absent, find_task-find_pid, find_task-null, take_max-idle,
  passes-true, passes-blocked,
}

-- No task has drawn a number or is drawing one.
pub record IsQuiet (l : Lamport) : Type 0 where
  pub no_num : (k : ℕ) → l.num k ≡ 0
  pub no_choice : (k : ℕ) → l.choosing k ≡ false

-- What drawing a number leaves where entries 1 to 63 have none.
record Drawn (task : ℕ) (l l' : Lamport) : Type 0 where
  nums : (k : ℕ) → l'.num k ≡ (if task == k then 1 else l.num k)
  pids : l'.pid ≡ l.pid
  choices : (k : ℕ) → l'.choosing k ≡ (if task == k then false else l.choosing k)

draw-Drawn : (task : ℕ) (l : Lamport) → ((k : ℕ) → 1 ≤ k → l.num k ≡ 0) → Drawn task l (draw task l)
unfolding draw
draw-Drawn task l idle = record {
  nums = λ k. ground (arith, nums k, nums task);
  pids = pids;
  choices = λ k. ground (arith, ap (λ (f : ℕ → Bool). f k) ch);
}
  where
    ready : Lamport
    ready = record l { choosing = update l.choosing task true; num = update l.num task 0 }

    same :
        ((k : ℕ) → (take_max 63 1 task ready).num k ≡ ready.num k)
        × ((take_max 63 1 task ready).pid ≡ ready.pid)
        × ((take_max 63 1 task ready).choosing ≡ ready.choosing)
    same =
        take_max-idle 63 1 task ready (update_self l.num task 0) (λ k h. ground (arith, idle k h))

    open same use {«0» as nums, «1» as pids, «2» as ch}

enter-found :
    (p : ℕ) (l : Lamport) (k : ℕ) → find_pid 63 1 l.pid p ≡ k → k < nr_tasks → enter p l ≡ (k, l)
unfolding enter
enter-found p l k e lt = ground (arith, find_task-find_pid 63 1 0 l.pid p)

abbrev claim : ℕ → ℕ → Lamport → Lamport
claim p k l = record l { pid = update l.pid k p }

enter-new :
    (p : ℕ) (l : Lamport)
    → find_pid 63 1 l.pid p ≡ 64
    → let k = (find_task 63 1 0 l.pid p).1 in enter p l ≡ (k, claim p k l)
unfolding enter
enter-new p l e = ground (arith, find_task-find_pid 63 1 0 l.pid p)

-- The entry that `lamportLock` takes: it is the task's, and it is the one that `lamportUnlock` finds.
record Entered (p : ℕ) (l : Lamport) (r : ℕ × Lamport) : Type 0 where
  low : 1 ≤ r.0
  high : r.0 < nr_tasks
  nums : r.1.num ≡ l.num
  choices : r.1.choosing ≡ l.choosing
  finds : find_pid 63 1 r.1.pid p ≡ r.0
  mine : r.1.pid r.0 ≡ p

-- The task has an entry, or there is a free one.
abbrev pub Room : ℕ → Lamport → Type 0
Room p l = (j : ℕ) × (1 ≤ j) × (j < nr_tasks) × ((l.pid j ≡ p) ⊎ (l.pid j ≡ 0))

claim-finds :
    (p k : ℕ) (l : Lamport)
    → Absent l.pid p 1 64
    → 1 ≤ k
    → k < 64
    → find_pid 63 1 (update l.pid k p) p ≡ k
claim-finds p k l absent lo hi = elim (find_pid-cases 63 1 64 (update l.pid k p) p refl) [
  | inl f ↦ elim (ℕ_discrete k (find_pid 63 1 (update l.pid k p) p)) [
    | yes same ↦ sym same
    | no other ↦ absurd (absent _ f.0 f.1 (sym (update_ne l.pid k p _ other) ∙ f.2))
  ]
  | inr (ends, none_there) ↦ absurd (none_there k lo hi (update_self l.pid k p))
]

enter-Entered : (p : ℕ) (l : Lamport) → Room p l → Entered p l (enter p l)
enter-Entered p l (j, lo, hi, owner) = elim (find_pid-cases 63 1 64 l.pid p refl) [
  | inl f ↦
      subst (Entered p l) (sym (enter-found p l (find_pid 63 1 l.pid p) refl f.1))
        (record { low = f.0; high = f.1; nums = refl; choices = refl; finds = refl; mine = f.2 })
  | inr (ends, absent) ↦ elim (find_task-null 63 1 64 0 l.pid p refl absent) [
    | inl f ↦ subst (Entered p l) (sym (enter-new p l ends)) (record {
      low = f.0;
      high = f.1;
      nums = refl;
      choices = refl;
      finds = claim-finds p _ l absent f.0 f.1;
      mine = update_self l.pid _ p;
    })
    | inr (z, full) ↦ elim owner [
      | inl own ↦ absurd (absent j lo hi own)
      | inr free ↦ absurd (full j lo hi free)
    ]
  ]
]

unlock-at :
    (p : ℕ) (l : Lamport) (i : ℕ)
    → find_pid 63 1 l.pid p ≡ i
    → i < nr_tasks
    → unlock p l ≡ record l { num = update l.num i 0 }
unfolding unlock
unlock-at p l i e lt = ground arith

unlock-missing : (p : ℕ) (l : Lamport) → find_pid 63 1 l.pid p ≡ 64 → unlock p l ≡ l
unfolding unlock
unlock-missing p l e = ground arith

-- Taking the lock where it is free gives the task the one number in the table, and giving it back
-- leaves the table quiet, with the task registered.
pub lock-unlock :
    (p : ℕ) (l : Lamport)
    → IsQuiet l
    → Room p l
    → (i : ℕ) × (l' : Lamport) × (lock p l ≡ some l')
      × (l'.pid i ≡ p)
      × ((k : ℕ) → l'.num k ≡ (if i == k then 1 else 0))
      × IsQuiet (unlock p l')
unfolding lock
lock-unlock p l quiet room = (
  i,
  drawn,
  rw (passes-true nr_tasks 0 i drawn open_door) refl,
  rw d.pids e.mine,
  nums,
  subst IsQuiet (sym (unlock-at p drawn i finds e.high))
      (record { no_num = λ k. ground (arith, nums k); no_choice = calm }),
)
  where
    e : Entered p l (enter p l)
    e = enter-Entered p l room

    i : ℕ
    i = (enter p l).0

    entered : Lamport
    entered = (enter p l).1

    idle : (k : ℕ) → entered.num k ≡ 0
    idle k = ap (λ (f : ℕ → ℕ). f k) e.nums ∙ quiet.no_num k

    drawn : Lamport
    drawn = draw i entered

    d : Drawn i entered drawn
    d = draw-Drawn i entered (λ k h. idle k)

    nums : (k : ℕ) → drawn.num k ≡ (if i == k then 1 else 0)
    nums k = rw (d.nums k, idle k) refl

    calm : (k : ℕ) → drawn.choosing k ≡ false
    calm k = ground (arith, d.choices k, ap (λ (f : ℕ → Bool). f k) e.choices, quiet.no_choice k)

    open_door : (k : ℕ) → blocked k i drawn ≡ false
    open_door k = rw (calm k) (ground (arith, nums k, nums i))

    finds : find_pid 63 1 drawn.pid p ≡ i
    finds = rw d.pids e.finds

-- A task for which there is no entry: those from 1 to 63 belong to other tasks.
pub record IsFull (p : ℕ) (l : Lamport) : Type 0 where
  pub others : Absent l.pid p 1 64
  pub taken : Absent l.pid 0 1 64

module _ (p : ℕ) (l : Lamport) (quiet : IsQuiet l) (full : IsFull p l) where
  -- The table after such a task has taken the lock: it holds entry 0.
  abbrev stuck : Lamport
  stuck = draw 0 (claim p 0 l)

  full-enter : enter p l ≡ (0, claim p 0 l)
  full-enter = elim (find_task-null 63 1 64 0 l.pid p refl full.others) [
    | inl f ↦ absurd (full.taken _ f.0 f.1 f.2)
    | inr (z, _) ↦
        enter-new p l (find_pid-Absent 63 1 64 l.pid p refl full.others)
        ∙ ap (λ k. (k, claim p k l)) z
  ]

  stuck-Drawn : Drawn 0 (claim p 0 l) stuck
  stuck-Drawn = draw-Drawn 0 (claim p 0 l) (λ k h. quiet.no_num k)

  stuck-num : (k : ℕ) → stuck.num k ≡ (if 0 == k then 1 else 0)
  stuck-num k = ground (arith, stuck-Drawn.nums k, quiet.no_num k)

  stuck-choosing : (k : ℕ) → stuck.choosing k ≡ false
  stuck-choosing k = ground (arith, stuck-Drawn.choices k, quiet.no_choice k)

  stuck-pid : (k : ℕ) → 1 ≤ k → stuck.pid k ≡ l.pid k
  stuck-pid k h = ap (λ (f : ℕ → ℕ). f k) stuck-Drawn.pids ∙ update_ne l.pid 0 p k (omega arith)

  full-lock : lock p l ≡ some stuck
  unfolding lock
  full-lock =
      let open_door : (k : ℕ) → blocked k 0 stuck ≡ false =
        λ k. rw (stuck-choosing k) (ground (arith, stuck-num k, stuck-num 0)) in
      rw (full-enter, passes-true nr_tasks 0 0 stuck open_door) refl

  full-unlock : unlock p stuck ≡ stuck
  full-unlock = unlock-missing p stuck (
      find_pid-Absent 63 1 64 stuck.pid p refl
        (λ j lo hi e. full.others j lo hi (sym (stuck-pid j lo) ∙ e)))

  full-enter_other :
      (p2 : ℕ)
      → (k : ℕ) × (1 ≤ k) × (k < nr_tasks) × (l.pid k ≡ p2)
      → (s : ℕ) × (1 ≤ s) × (enter p2 stuck ≡ (s, stuck))
  full-enter_other p2 (k, lo, hi, own) = elim (find_pid-cases 63 1 64 stuck.pid p2 refl) [
    | inl f ↦ (find_pid 63 1 stuck.pid p2, f.0, enter-found p2 stuck _ refl f.1)
    | inr (_, absent) ↦ absurd (absent k lo hi (stuck-pid k lo ∙ own))
  ]

  full-blocks :
      (p2 : ℕ) → (k : ℕ) × (1 ≤ k) × (k < nr_tasks) × (l.pid k ≡ p2) → lock p2 stuck ≡ none
  unfolding lock
  full-blocks p2 own =
      let (s, lo, e) = full-enter_other p2 own in
      let d : Drawn s stuck (draw s stuck) =
        draw-Drawn s stuck (λ k h. ground (arith, stuck-num k)) in
      let waits : blocked 0 s (draw s stuck) ≡ true =
        ground (arith, d.nums 0, d.nums s, d.choices 0, stuck-num 0, stuck-choosing 0) in
      rw (e, passes-blocked 63 0 s (draw s stuck) waits) refl

-- Entries are never given back, so a task may find none: it then takes the lock with entry 0, and
-- its `lamportUnlock` does not release it. From then on `lamportLock` never returns for any task
-- that has an entry.
pub lock-full :
    (p : ℕ) (l : Lamport)
    → IsQuiet l
    → IsFull p l
    → (l' : Lamport) × (lock p l ≡ some l')
      × (unlock p l' ≡ l')
      × ((p2 k : ℕ) → 1 ≤ k → k < nr_tasks → l.pid k ≡ p2 → lock p2 l' ≡ none)
lock-full p l quiet full = (
  stuck p l quiet full,
  full-lock p l quiet full,
  full-unlock p l quiet full,
  λ p2 k lo hi own. full-blocks p l quiet full p2 (k, lo, hi, own),
)
