-- ===== src/Exit/Tests.antt =====
-- kernel/exit.c: concrete tasks.
use my_practice.Base.{ℕ, ◌≡◌, refl, false, none, some, ◌==◌, if◌then◌else◌, arith}
use my_practice.Base.Int.{pos, negsuc}
use my_practice.Sched.{running, zombie, stopped}
use my_practice.Exit.{
  TaskStruct, Slots, send_sig, each_slot, kill, einval, Waited, gives, nothing, sleeps, echild,
  scan_children, waitpid,
}
use my_practice.Exit.Reap.{Reaps, waitpid-Reaps}
use my_practice.Exit.Loops.{EachSlot}
use my_practice.Exit.Send.{signalled}
use my_practice.Exit.Kill.{addressed, privileged, fails, kill-EachSlot}

abbrev task_of : (pid pgrp : ℕ) → TaskStruct
task_of pid pgrp = record {
  state = running;
  signal = λ i. false;
  exit_code = 0;
  pid = pid;
  father = 1;
  pgrp = pgrp;
  session = 1;
  euid = 0;
  utime = 0;
  stime = 0;
  cutime = 0;
  cstime = 0;
}

abbrev three : Slots
three i =
    if i == 0
    then some (task_of 0 0)
    else if i == 1
    then some (task_of 1 1)
    else if i == 5
    then some (task_of 9 9)
    else none

kill-EachSlot_example :
    EachSlot
      (signalled (addressed (negsuc 8) (task_of 1 1)) 15 (privileged (negsuc 8)) (task_of 1 1))
      (fails (negsuc 8) (task_of 1 1))
      63
      0
      three
      (kill (negsuc 8) 15 (task_of 1 1) three)
kill-EachSlot_example = kill-EachSlot (negsuc 8) 15 (task_of 1 1) three (omega arith, omega arith)

-- The superuser's `kill(-1)` reaches both tasks and returns an error.
kill_every : (kill (negsuc 0) 15 (task_of 1 1) three).0 ≡ einval
unfolding kill each_slot send_sig
kill_every = refl

-- Task 9 has ended with status 256, and the others run.
abbrev ended : Slots
ended i =
    if i == 5
    then some (record (task_of 9 9) { state = zombie; exit_code = 256; utime = 3 })
    else three i

waitpid-Reaps_example :
    Reaps
      (negsuc 0)
      false
      false
      1
      (task_of 1 1)
      ended
      (waitpid (negsuc 0) false false 1 (task_of 1 1) ended)
waitpid-Reaps_example = waitpid-Reaps (negsuc 0) false false 1 (task_of 1 1) ended

abbrev pid_of : Waited → ℕ
pid_of (gives pid status t) = pid
pid_of nothing = 0
pid_of (sleeps t) = 0
pid_of echild = 0

reaps_nine : pid_of (waitpid (negsuc 0) false false 1 (task_of 1 1) ended) ≡ 9
unfolding waitpid scan_children
reaps_nine = refl

-- A stopped child is not given without WUNTRACED, and the error is that there is no child.
abbrev halted : Slots
halted i = if i == 5 then some (record (task_of 9 9) { state = stopped }) else three i

stopped_only : waitpid (pos 9) false false 1 (task_of 1 1) halted ≡ echild
unfolding waitpid scan_children
stopped_only = refl
