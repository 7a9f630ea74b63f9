-- ===== src/Sched.antt =====
-- kernel/sched.c: the choice of the task that runs next. The pointer `pnext` is the task of the slot
-- `next` and is not kept beside it.
pub mod Select
pub mod Next
pub mod Signals
mod Tests
use my_practice.Base.{
  ℕ, zero, suc, ◌+◌, ◌/◌, ◌%◌, ◌^◌, Bool, true, false, not, ◌&&◌, ◌||◌, Option, none, some, ltb,
  ◌==◌, if◌then◌else◌, update,
}

-- The states of a task, in the order of their numbers.
pub data State : Type 0 where
  running interruptible uninterruptible zombie stopped : State

abbrev pub is_running : State → Bool
is_running running = true
is_running _ = false

abbrev pub is_interruptible : State → Bool
is_interruptible interruptible = true
is_interruptible _ = false

-- The fields of `task_struct` that the scheduler reads. A set of signals is the function that tells
-- which of the bits 0 to 31 are set. `counter` and `priority` are longs by their 32 bits, so that
-- those from 2^31 on are negative.
pub record Task : Type 0 where
  pub state : State
  pub counter : ℕ
  pub priority : ℕ
  pub signal : ℕ → Bool
  pub blocked : ℕ → Bool
  pub alarm : ℕ

-- `task[NR_TASKS]`
abbrev pub Tasks : Type 0
Tasks = ℕ → Option Task

-- SIGALRM - 1
abbrev pub alarm_bit : ℕ
alarm_bit = 13

-- `_BLOCKABLE`: every signal but SIGKILL and SIGSTOP
abbrev pub blockable : ℕ → Bool
blockable n = not (n == 8 || n == 18)

-- `signal & ~(_BLOCKABLE & blocked)`, in the bits below `n`
pub pending : (n : ℕ) → Task → Bool
pending zero t = false
pending (suc n) t = (t.signal n && not (blockable n && t.blocked n)) || pending n t

-- An alarm that has passed becomes a signal.
pub ring_alarm : (jiffies : ℕ) → Task → Task
ring_alarm jiffies t =
    if not (t.alarm == 0) && ltb t.alarm jiffies
    then record t { signal = update t.signal alarm_bit true; alarm = 0 }
    else t

-- A task that can be interrupted and has a signal runs again.
pub wake_signalled : Task → Task
wake_signalled t =
    if pending 32 t && is_interruptible t.state then record t { state = running } else t

-- `f` applied to the task of slot `i`, if it has one
abbrev pub apply_at : Tasks → ℕ → (Task → Task) → Option Task → Tasks
apply_at ts i f none = ts
apply_at ts i f (some t) = update ts i (some (f t))

-- `f` applied to the tasks `n` to 1, as the loops over `task` do; task 0 is left out.
pub each_task : (n : ℕ) → (Task → Task) → Tasks → Tasks
each_task zero f ts = ts
each_task (suc n) f ts = each_task n f (apply_at ts (suc n) f (ts (suc n)))

abbrev pub check_signals : (jiffies : ℕ) → Tasks → Tasks
check_signals jiffies = each_task 63 (λ t. wake_signalled (ring_alarm jiffies t))

-- `counter > c`, where no value stands for the `c` of -1. Any other `c` is not negative.
abbrev pub beats : ℕ → Option ℕ → Bool
beats counter none = ltb counter (2 ^ 31)
beats counter (some c) = ltb counter (2 ^ 31) && ltb c counter

-- Whether task `i` takes the lead from `c`.
abbrev pub leads : Option Task → Option ℕ → Bool
leads none c = false
leads (some t) c = is_running t.state && beats t.counter c

abbrev pub counter_of : Option Task → ℕ
counter_of none = 0
counter_of (some t) = t.counter

-- The search for the greatest counter, over the tasks `n` to 1: `c` and `next`.
pub select : (n : ℕ) → (c : Option ℕ) (next : ℕ) → Tasks → Option ℕ × ℕ
select zero c next ts = (c, next)
select (suc n) c next ts =
    select n (if leads (ts (suc n)) c then some (counter_of (ts (suc n))) else c)
      (if leads (ts (suc n)) c then suc n else next) ts

-- `counter >> 1`, which keeps the sign
abbrev pub half : (counter : ℕ) → ℕ
half counter = if ltb counter (2 ^ 31) then counter / 2 else 2 ^ 31 + counter / 2

-- `(counter >> 1) + priority`
abbrev pub recharge : Task → Task
recharge t = record t { counter = (half t.counter + t.priority) % 2 ^ 32 }

-- The new counter of each task, where the greatest is 0.
abbrev pub refill : Tasks → Tasks
refill = each_task 63 recharge

abbrev pub is_zero : Option ℕ → Bool
is_zero none = false
is_zero (some c) = c == 0

-- The loop of `schedule`, with `fuel` rounds: the task that runs next, and the tasks with their
-- counters.
pub choose : (fuel : ℕ) → Tasks → Option (ℕ × Tasks)
choose zero ts = none
choose (suc fuel) ts =
    let again = choose fuel (refill ts) in
    let found = select 63 none 0 ts in if is_zero found.0 then again else some (found.1, ts)

-- `schedule` up to the switch.
pub schedule : (fuel jiffies : ℕ) → Tasks → Option (ℕ × Tasks)
schedule fuel jiffies ts = choose fuel (check_signals jiffies ts)
