-- ===== src/Fork.antt =====
-- kernel/fork.c: the pid and the slot of a new task.
pub mod Pigeons
pub mod Draw
pub mod Find
mod Tests
use my_practice.Base.{
  ℕ, zero, suc, ◌+◌, ◌^◌, Bool, true, false, Option, none, some, ◌==◌, if◌then◌else◌,
}

-- The pids of the tasks, by slot; none for a free slot
abbrev pub Pids : Type 0
Pids = ℕ → Option ℕ

-- `if ((++last_pid)<0) last_pid=1`, for a long of 32 bits that is not negative
abbrev pub next_pid : (last_pid : ℕ) → ℕ
next_pid last_pid = if last_pid + 1 == 2 ^ 31 then 1 else last_pid + 1

-- Whether one of `n` slots from `i` on has the pid
pub pid_in_use : (n i pid : ℕ) → Pids → Bool
pid_in_use zero i pid t = false
pid_in_use (suc n) i pid t =
    let rest = pid_in_use n (i + 1) pid t in
    elim (t i) [ none ↦ rest | some p ↦ if p == pid then true else rest ]

-- The `repeat` loop, with `fuel` rounds: the new `last_pid`
pub draw_pid : (fuel last_pid : ℕ) → Pids → Option ℕ
draw_pid zero last_pid t = none
draw_pid (suc fuel) last_pid t =
    let rest = draw_pid fuel (next_pid last_pid) t in
    if pid_in_use 64 0 (next_pid last_pid) t then rest else some (next_pid last_pid)

-- The first free slot of `n` from `i` on
pub empty_slot : (n i : ℕ) → Pids → Option ℕ
empty_slot zero i t = none
empty_slot (suc n) i t =
    let rest = empty_slot n (i + 1) t in elim (t i) [ none ↦ some i | some p ↦ rest ]

-- The new `last_pid` and the slot, with none for -EAGAIN; none where the fuel is not enough
pub find_empty_process : (fuel last_pid : ℕ) → Pids → Option (ℕ × Option ℕ)
find_empty_process fuel last_pid t = elim (draw_pid fuel last_pid t) [
  | none ↦ none
  | some pid ↦ some (pid, empty_slot 63 1 t)
]
