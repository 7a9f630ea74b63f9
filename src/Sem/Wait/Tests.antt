-- ===== src/Sem/Wait/Tests.antt =====
-- Runs of `sys_sem_wait` and `sys_sem_post`, and the theorem on wakeups at one of them.
use my_practice.Base.{ℕ, ◌≡◌, refl, true, false, none, some, [], ◌∷◌, arith, ◌==◌, if◌then◌else◌}
use my_practice.Lamport
use my_practice.Sem.{empty, fresh}
use my_practice.Sem.Wait.{
  System, Outcome, returned, asleep, panic, hangs, sleep_on, leave_sleep, wake_up, take_one,
  give_one, find_sem, wait_loop, sem_wait, sem_wait_resume, sem_post, Step, wait, post, here, next,
  gave, slept,
}
use my_practice.Sem.Wait.Chains.{Woken}
use my_practice.Sem.Wait.Steps.{IsIdle, no_lost_wakeup}

-- What a run unfolds.
runs : ℕ
unfolding sem_wait sem_wait_resume sem_post wait_loop sleep_on leave_sleep wake_up take_one give_one
    find_sem Lamport.lock Lamport.unlock Lamport.enter Lamport.draw Lamport.take_max
    Lamport.max_round Lamport.passes Lamport.find_task Lamport.find_pid
runs = 0

-- Semaphore 1 has value 0. Tasks 2 and 3 wait for it, and then task 4 posts.
abbrev start : System
start = record {
  table = λ i. if i == 0 then fresh 0 (97 ∷ []) 0 else empty;
  lamport = record { pid = λ _. 0; choosing = λ _. false; num = λ _. 0 };
  running = λ _. true;
  stack = λ _. none;
}

abbrev system_of : Outcome → System
system_of (returned r s) = s
system_of (asleep s) = s
system_of panic = start
system_of hangs = start

abbrev s1 : System
s1 = system_of (sem_wait (some 1) 2 start)

abbrev s2 : System
s2 = system_of (sem_wait (some 1) 3 s1)

abbrev s3 : System
s3 = system_of (sem_post (some 1) 4 s2)

start-IsIdle : IsIdle start
start-IsIdle = record { no_head = λ k. ground arith; no_stack = λ q. refl }

step1 : Step start s1
unfolding runs
step1 = wait 2 (some 1) refl refl slept

step2 : Step s1 s2
unfolding runs
step2 = wait 3 (some 1) refl refl slept

step3 : Step s2 s3
unfolding runs
step3 = post 4 (some 1) refl refl gave

no_lost_wakeup_example : Woken s3 2
unfolding runs
no_lost_wakeup_example =
    no_lost_wakeup start-IsIdle (next (next (next here step1) step2) step3) 2 0 none refl refl
      (λ e. cc)

-- Task 3, at the head of the chain, takes the unit; task 2, woken by it, sleeps again.
abbrev s4 : System
s4 = system_of (sem_wait_resume 3 0 (some 2) s3)

s4_lem : ((s4.table 0).value ≡ 0) × (s4.running 2 ≡ true) × (s4.stack 3 ≡ none)
unfolding runs
s4_lem = (refl, refl, refl)
