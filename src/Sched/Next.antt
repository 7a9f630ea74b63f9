-- ===== src/Sched/Next.antt =====
-- kernel/sched.c: `schedule` runs a task with the greatest counter, and its loop ends.
use native.Mathlib.Decide.{ℕ_discrete}
use mathlib.Core.Path.{subst}
use my_practice.Base.{
  ℕ, zero, suc, ◌^◌, ◌≤◌, ◌<◌, ◌≡◌, refl, sym, ap, ◌∙◌, ◌≢◌, ◌⊎◌, inl, inr, true, false, Option,
  none, some, arith, update_ne, update_self, Bool-cases,
}
use my_practice.Sched.{
  Task, Tasks, each_task, counter_of, select, recharge, refill, is_zero, choose, apply_at,
  check_signals, schedule, ring_alarm, wake_signalled,
}
use my_practice.Sched.Select.{runnable, AtMost, Selected, select-Selected}

-- A task that exists has a positive priority of at most 2^30, and its counter is not negative.
abbrev pub InRange : Option Task → Type 0
InRange none = Unit {0}
InRange (some t) = (1 ≤ t.priority) × (t.priority ≤ 2 ^ 30) × (t.counter < 2 ^ 31)

InRange-counter : (o : Option Task) → InRange o → counter_of o < 2 ^ 31
InRange-counter none p = omega arith
InRange-counter (some t) p = p.2

abbrev pub AllInRange : Tasks → Type 0
AllInRange ts = (i : ℕ) → 1 ≤ i → i ≤ 63 → InRange (ts i)

abbrev pub map_task : (Task → Task) → Option Task → Option Task
map_task f none = none
map_task f (some t) = some (f t)

apply_at_ne :
    (ts : Tasks) (n : ℕ) (f : Task → Task) (i : ℕ) (o : Option Task)
    → n ≢ i
    → apply_at ts n f o i ≡ ts i
apply_at_ne ts n f i none ne = refl
apply_at_ne ts n f i (some t) ne = update_ne ts n (some (f t)) i ne

apply_at_self :
    (ts : Tasks) (n : ℕ) (f : Task → Task) (o : Option Task)
    → ts n ≡ o
    → apply_at ts n f o n ≡ map_task f o
apply_at_self ts n f none e = e
apply_at_self ts n f (some t) e = update_self ts n (some (f t))

each_task-above : (n : ℕ) (f : Task → Task) (ts : Tasks) (i : ℕ) → n < i → each_task n f ts i ≡ ts i
unfolding each_task
each_task-above zero f ts i h = refl
each_task-above (suc n) f ts i h =
    each_task-above n f _ i (omega arith)
    ∙ apply_at_ne ts (suc n) f i (ts (suc n)) (λ e. omega arith)

pub each_task-at :
    (n : ℕ) (f : Task → Task) (ts : Tasks) (i : ℕ)
    → 1 ≤ i
    → i ≤ n
    → each_task n f ts i ≡ map_task f (ts i)
unfolding each_task
each_task-at zero f ts i lo hi = absurd (omega arith)
each_task-at (suc n) f ts i lo hi = elim (ℕ_discrete i (suc n)) [
  | yes e ↦
      each_task-above n f _ i (omega arith)
      ∙ subst (λ k. apply_at ts (suc n) f (ts (suc n)) k ≡ map_task f (ts k)) (sym e)
          (apply_at_self ts (suc n) f (ts (suc n)) refl)
  | no ne ↦
      each_task-at n f _ i lo (omega arith)
      ∙ ap (map_task f) (apply_at_ne ts (suc n) f i (ts (suc n)) (λ e. ne (sym e)))
]

-- A change of each task that keeps it in range keeps all in range.
each_task-InRange :
    (f : Task → Task) (ts : Tasks)
    → ((t : Task) → InRange (some t) → InRange (some (f t)))
    → AllInRange ts
    → AllInRange (each_task 63 f ts)
each_task-InRange f ts keep h i lo hi =
    subst InRange (sym (each_task-at 63 f ts i lo hi)) (kept (ts i) (h i lo hi))
  where
    kept : (o : Option Task) → InRange o → InRange (map_task f o)
    kept none p = p
    kept (some t) p = keep t p

check-InRange :
    (jiffies : ℕ) (t : Task)
    → InRange (some t)
    → InRange (some (wake_signalled (ring_alarm jiffies t)))
unfolding wake_signalled ring_alarm
check-InRange jiffies t p = ground arith

recharge-InRange : (t : Task) → InRange (some t) → InRange (some (recharge t))
recharge-InRange t (a, b, c) = (a, b, ground arith)

-- Task `next` is the one to run: a runnable task with time left and the greatest counter of all
-- runnable tasks, or task 0 where none of the others can run.
pub record Chosen (next : ℕ) (ts : Tasks) : Type 0 where
  pub best :
      ((next ≡ 0) × ((j : ℕ) → 1 ≤ j → j ≤ 63 → runnable (ts j) ≡ false))
      ⊎ ((1 ≤ next)
          × (next ≤ 63)
          × (runnable (ts next) ≡ true)
          × (1 ≤ counter_of (ts next))
          × ((j : ℕ)
              → 1 ≤ j
              → j ≤ 63
              → runnable (ts j) ≡ true
              → counter_of (ts j) ≤ counter_of (ts next)))

nonzero : (c : Option ℕ) (a : ℕ) → is_zero c ≡ false → c ≡ some a → 1 ≤ a
nonzero none a h e = cc
nonzero (some c) a h e = grind arith

zero_value : (c : Option ℕ) → is_zero c ≡ true → c ≡ some 0
zero_value none h = cc
zero_value (some c) h = ap some (ground arith)

positive_best : (c : Option ℕ) (a : ℕ) → AtMost a c → 1 ≤ a → is_zero c ≡ false
positive_best none a h le = absurd h
positive_best (some c) a h le = ground arith

no_rival : (a : ℕ) (c : Option ℕ) (b : ℕ) → AtMost a c → c ≡ some b → a ≤ b
no_rival a c b h e = subst (AtMost a) e h

-- A search that ends with a value other than 0 has found the task to run.
Selected-Chosen :
    (ts : Tasks) (r : Option ℕ × ℕ)
    → AllInRange ts
    → Selected ts 63 none 0 r
    → is_zero r.0 ≡ false
    → Chosen r.1 ts
Selected-Chosen ts r range s h = elim s.from [
  | inl e ↦ record {
    best = inl (
      ap (λ (x : Option ℕ × ℕ). x.1) e,
      λ j l u. elim (Bool-cases (runnable (ts j))) [
        | inl b ↦ absurd (
            subst (AtMost (counter_of (ts j))) (ap (λ (x : Option ℕ × ℕ). x.0) e)
              (s.upper j l u b (InRange-counter (ts j) (range j l u))))
        | inr b ↦ b
      ],
    );
  }
  | inr (lo, hi, run, e) ↦ record {
    best = inr (
      lo,
      hi,
      run,
      nonzero r.0 _ h e,
      λ j l u b. no_rival _ r.0 _ (s.upper j l u b (InRange-counter (ts j) (range j l u))) e,
    );
  }
]

recharge-counts :
    (o : Option Task)
    → InRange o
    → runnable o ≡ true
    → (runnable (map_task recharge o) ≡ true) × (1 ≤ counter_of (map_task recharge o))
recharge-counts none p run = cc
recharge-counts (some t) (a, b, c) run = (run, ground arith)

-- Where the greatest counter is 0, it is positive once the counters are refilled.
refill-counts :
    (ts : Tasks)
    → AllInRange ts
    → (r : Option ℕ × ℕ) → Selected ts 63 none 0 r
    → is_zero r.0 ≡ true
    → is_zero (select 63 none 0 (refill ts)).0 ≡ false
refill-counts ts h r s z = elim s.from [
  | inl e ↦ let at_none : r.0 ≡ none = ap (λ (x : Option ℕ × ℕ). x.0) e in cc
  | inr (lo, hi, run, e) ↦
      let o = ts r.1 in
      let (run', counts) = recharge-counts o (h r.1 lo hi) run in
      let same = each_task-at 63 recharge ts r.1 lo hi in
      let next = select-Selected 63 none 0 (refill ts) in
      let small =
        InRange-counter (refill ts r.1)
          (each_task-InRange recharge ts recharge-InRange h r.1 lo hi) in
      positive_best _ (counter_of (refill ts r.1))
        (next.upper r.1 lo hi (ap runnable same ∙ run') small)
        (subst (λ k. 1 ≤ counter_of k) (sym same) counts)
]

-- No task that can run has time left.
abbrev pub Exhausted : Tasks → Type 0
Exhausted ts = (j : ℕ) → 1 ≤ j → j ≤ 63 → runnable (ts j) ≡ true → counter_of (ts j) ≡ 0

-- What the loop of `schedule` has found with two rounds or more: the task to run, and the tasks
-- `ts` with the counters that they had or, where no task had time left, with new ones.
abbrev pub Found : Tasks → Option (ℕ × Tasks) → Type 0
Found ts o =
    (next : ℕ) × (ts' : Tasks) × (o ≡ some (next, ts'))
    × Chosen next ts'
    × ((ts' ≡ ts) ⊎ ((ts' ≡ refill ts) × Exhausted ts))

Selected-Exhausted :
    (ts : Tasks) (r : Option ℕ × ℕ)
    → AllInRange ts
    → Selected ts 63 none 0 r
    → is_zero r.0 ≡ true
    → Exhausted ts
Selected-Exhausted ts r range s z j lo hi run =
    let small : counter_of (ts j) < 2 ^ 31 = InRange-counter (ts j) (range j lo hi) in
    let below = no_rival _ r.0 0 (s.upper j lo hi run small) (zero_value r.0 z) in omega arith

choose_stop :
    (fuel : ℕ) (ts : Tasks)
    → is_zero (select 63 none 0 ts).0 ≡ false
    → choose (suc fuel) ts ≡ some ((select 63 none 0 ts).1, ts)
unfolding choose
choose_stop fuel ts h = rw h refl

choose_again :
    (fuel : ℕ) (ts : Tasks)
    → is_zero (select 63 none 0 ts).0 ≡ true
    → choose (suc fuel) ts ≡ choose fuel (refill ts)
unfolding choose
choose_again fuel ts h = rw h refl

choose-Found : (fuel : ℕ) (ts : Tasks) → AllInRange ts → Found ts (choose (suc (suc fuel)) ts)
choose-Found fuel ts h =
    let s = select-Selected 63 none 0 ts in
    elim (Bool-cases (is_zero (select 63 none 0 ts).0)) [
      | inl z ↦
          let counts = refill-counts ts h _ s z in
          let s' = select-Selected 63 none 0 (refill ts) in
          (
            (select 63 none 0 (refill ts)).1,
            refill ts,
            choose_again (suc fuel) ts z ∙ choose_stop fuel (refill ts) counts,
            Selected-Chosen (refill ts) _ (each_task-InRange recharge ts recharge-InRange h) s'
                counts,
            inr (refl, Selected-Exhausted ts _ h s z),
          )
      | inr z ↦ (
        (select 63 none 0 ts).1,
        ts,
        choose_stop (suc fuel) ts z,
        Selected-Chosen ts _ h s z,
        inl refl,
      )
    ]

-- Where every task has a priority from 1 to 2^30 and a counter that is not negative, no counter
-- overflows and the loop of `schedule` ends after at most two rounds,
-- with the tasks as the check of alarms and signals leaves them or, where no task that can run has
-- time left, with the counters refilled once.
-- It chooses a task that can run, has time left, and has the greatest counter of all tasks that can
-- run, or task 0 where none of the tasks 1 to 63 can run.
pub schedule-Chosen :
    (fuel jiffies : ℕ) (ts : Tasks)
    → AllInRange ts
    → Found (check_signals jiffies ts) (schedule (suc (suc fuel)) jiffies ts)
unfolding schedule
schedule-Chosen fuel jiffies ts h =
    choose-Found fuel (check_signals jiffies ts)
      (each_task-InRange (λ t. wake_signalled (ring_alarm jiffies t)) ts (check-InRange jiffies) h)
