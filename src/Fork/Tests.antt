-- ===== src/Fork/Tests.antt =====
-- kernel/fork.c: concrete tasks.
use my_practice.Base.{
  ℕ, ◌-◌, ◌^◌, ◌≤◌, ◌<◌, ◌≡◌, ◌≢◌, refl, ltb, Option, none, some, if◌then◌else◌, arith,
}
use my_practice.Fork.{Pids, pid_in_use, draw_pid, empty_slot, find_empty_process}
use my_practice.Fork.Find.{IsSlot, find_empty_process-ends}

-- Tasks 0, 1 and 2 in the first slots
abbrev booted : Pids
booted i = if ltb i 3 then some i else none

find_empty_process-ends_example :
    (pid : ℕ) × (slot : Option ℕ) × (find_empty_process 65 (2 ^ 31 - 1) booted ≡ some (pid, slot))
    × (1 ≤ pid)
    × (pid < 2 ^ 31)
    × ((i : ℕ) → i < 64 → booted i ≢ some pid)
    × IsSlot booted slot
find_empty_process-ends_example = find_empty_process-ends (2 ^ 31 - 1) booted (omega arith)

-- The pids start again at 1, and 1 and 2 are in use.
wraps : find_empty_process 65 (2 ^ 31 - 1) booted ≡ some (3, some 3)
unfolding find_empty_process draw_pid pid_in_use empty_slot
wraps = refl
