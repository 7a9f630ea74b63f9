-- ===== src/Sched/Tests.antt =====
-- kernel/sched.c: the scheduler on concrete tasks.
use my_practice.Base.{ℕ, zero, suc, ◌≡◌, refl, true, false, Option, none, some, arith}
use my_practice.Sched.{
  running, interruptible, Task, Tasks, check_signals, schedule, choose, select, each_task,
  wake_signalled, pending, ring_alarm,
}
use my_practice.Sched.Select.{runnable}
use my_practice.Sched.Signals.{Delivered, check_signals-Delivered}
use my_practice.Sched.Next.{AllInRange, Found, schedule-Chosen}

-- A task that has used up its time.
abbrev busy : Task
busy = record {
  state = running;
  counter = 0;
  priority = 15;
  signal = λ n. false;
  blocked = λ n. false;
  alarm = 0;
}

-- A task that sleeps until an alarm at the time 99.
abbrev sleeper : Task
sleeper = record {
  state = interruptible;
  counter = 0;
  priority = 16;
  signal = λ n. false;
  blocked = λ n. false;
  alarm = 99;
}

abbrev two_tasks : Tasks
two_tasks zero = none
two_tasks (suc zero) = some busy
two_tasks (suc (suc zero)) = some sleeper
two_tasks (suc (suc (suc n))) = none

two_tasks-AllInRange : AllInRange two_tasks
two_tasks-AllInRange zero lo hi = tt
two_tasks-AllInRange (suc zero) lo hi = (omega arith, omega arith, omega arith)
two_tasks-AllInRange (suc (suc zero)) lo hi = (omega arith, omega arith, omega arith)
two_tasks-AllInRange (suc (suc (suc n))) lo hi = tt

schedule-Chosen_example : Found (check_signals 100 two_tasks) (schedule 2 100 two_tasks)
schedule-Chosen_example = schedule-Chosen 0 100 two_tasks two_tasks-AllInRange

abbrev chosen_task : Option (ℕ × Tasks) → ℕ
chosen_task none = 0
chosen_task (some r) = r.0

-- The alarm has passed, so that the sleeper has the greatest counter once these are refilled.
wakes_sleeper : chosen_task (schedule 2 100 two_tasks) ≡ 2
unfolding schedule choose select each_task wake_signalled pending ring_alarm
wakes_sleeper = refl

-- The alarm has not passed.
keeps_busy : chosen_task (schedule 2 99 two_tasks) ≡ 1
unfolding schedule choose select each_task wake_signalled pending ring_alarm
keeps_busy = refl

-- The alarm of the task in slot 2 has passed.
check_signals-Delivered_example :
    (runnable (check_signals 100 two_tasks 2) ≡ true → Delivered 100 sleeper)
    × (Delivered 100 sleeper → runnable (check_signals 100 two_tasks 2) ≡ true)
check_signals-Delivered_example =
    check_signals-Delivered 100 two_tasks 2 sleeper (omega arith) (omega arith) refl refl
