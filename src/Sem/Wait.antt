-- ===== src/Sem/Wait.antt =====
-- kernel/sem.c, `sys_sem_wait` and `sys_sem_post`, with `sleep_on` and `wake_up` of kernel/sched.c,
-- as steps of tasks that run one at a time: a task leaves the processor only where `sleep_on` calls
-- `schedule`, and takes up there again when its state is TASK_RUNNING.
pub mod Chains
pub mod Steps
mod Tests
use my_practice.Base.{
  ℕ, zero, suc, ◌+◌, ◌-◌, ◌%◌, ◌^◌, ◌≡◌, Bool, true, false, Option, none, some, ltb, ◌==◌,
  if◌then◌else◌, update,
}
use my_practice.Base.Int.{ℤ, pos, negsuc}
use my_practice.Lamport.{Lamport, lock, unlock}
use my_practice.Sem.{StructSem, Table, sem_num}

-- `running p`: the state of task `p` is TASK_RUNNING, and else TASK_UNINTERRUPTIBLE. `stack p`: the
-- task stands in `sleep_on`, called for the semaphore of that entry, and its `tmp` is the second part.
pub record System : Type 0 where
  pub table : Table
  pub lamport : Lamport
  pub running : ℕ → Bool
  pub stack : ℕ → Option (ℕ × Option ℕ)

-- How a call goes on: it returns, it leaves the processor in `sleep_on`, it panics, or it waits for
-- the lock for ever.
pub data Outcome : Type 0 where
  returned : ℤ → System → Outcome
  asleep : System → Outcome
  panic : Outcome
  hangs : Outcome

abbrev pub with_lock : Option Lamport → System → (System → Outcome) → Outcome
with_lock none s k = hangs
with_lock (some l) s k = k (record s { lamport = l })

abbrev pub release : ℕ → System → System
release p s = record s { lamport = unlock p s.lamport }

-- `*p = current; current->state = TASK_UNINTERRUPTIBLE;`, with the old `*p` in `tmp`
pub sleep_on : (p k : ℕ) → System → System
sleep_on p k s = record s {
  table = update s.table k (record (s.table k) { wait = some p });
  running = update s.running p false;
  stack = update s.stack p (some (k, (s.table k).wait));
}

-- `if (tmp) tmp->state = 0;`
abbrev pub wake_task : Option ℕ → (ℕ → Bool) → ℕ → Bool
wake_task none running = running
wake_task (some q) running = update running q true

-- The end of `sleep_on`, behind `schedule`.
pub leave_sleep : (p : ℕ) (tmp : Option ℕ) → System → System
leave_sleep p tmp s = record s { running = wake_task tmp s.running; stack = update s.stack p none }

-- `wake_up(&semarray[k].wait)`
pub wake_up : ℕ → System → System
wake_up k s = record s {
  running = wake_task (s.table k).wait s.running;
  table = update s.table k (record (s.table k) { wait = none });
}

-- `cursem->value--` and `cursem->value++`
pub take_one : ℕ → System → System
take_one k s = record s {
  table = update s.table k (record (s.table k) { value = (s.table k).value - 1 });
}

pub give_one : ℕ → System → System
give_one k s = record s {
  table = update s.table k (record (s.table k) { value = ((s.table k).value + 1) % 2 ^ 32 });
}

-- The search of the two calls.
pub find_sem : (n i : ℕ) → Table → ℕ → ℕ
find_sem zero i t v = i
find_sem (suc n) i t v = let rest = find_sem n (suc i) t v in if v == (t i).sem then i else rest

-- The loop of `sys_sem_wait` from its test on, with the lock held by task `p`.
pub wait_loop : (p k : ℕ) → System → Outcome
wait_loop p k s =
    if (s.table k).value == 0
    then (if p == 0 then panic else asleep (sleep_on p k (release p s)))
    else returned (pos 0) (release p (take_one k s))

-- The argument is `*sem`, or none for a null pointer.
pub sem_wait : Option ℕ → (p : ℕ) → System → Outcome
sem_wait none p s = returned (negsuc 0) s
sem_wait (some v) p s =
    let k = find_sem sem_num 0 s.table v in
    if ltb k sem_num then with_lock (lock p s.lamport) s (wait_loop p k) else returned (negsuc 0) s

-- `sys_sem_wait` from the return of `schedule` on.
pub sem_wait_resume : (p k : ℕ) (tmp : Option ℕ) → System → Outcome
sem_wait_resume p k tmp s = with_lock (lock p s.lamport) (leave_sleep p tmp s) (wait_loop p k)

pub sem_post : Option ℕ → (p : ℕ) → System → Outcome
sem_post none p s = returned (negsuc 0) s
sem_post (some v) p s =
    let k = find_sem sem_num 0 s.table v in
    if ltb k sem_num
    then with_lock (lock p s.lamport) s
        (λ s'. returned (pos 0) (wake_up k (release p (give_one k s'))))
    else returned (negsuc 0) s

-- The system that a call leaves to the others.
pub data Leaves : Outcome → System → Type 0 where
  gave : {r : ℤ} {s : System} → Leaves (returned r s) s
  slept : {s : System} → Leaves (asleep s) s

-- A step of task `p`: it calls one of the two, or goes on with `sys_sem_wait` where it had slept.
pub data Step (s : System) : System → Type 0 where
  wait :
      (p : ℕ) (sem : Option ℕ) {s' : System}
      → s.running p ≡ true
      → s.stack p ≡ none
      → Leaves (sem_wait sem p s) s'
      → Step s s'
  resume :
      (p k : ℕ) (tmp : Option ℕ) {s' : System}
      → s.running p ≡ true
      → s.stack p ≡ some (k, tmp)
      → Leaves (sem_wait_resume p k tmp s) s'
      → Step s s'
  post :
      (p : ℕ) (sem : Option ℕ) {s' : System}
      → s.running p ≡ true
      → s.stack p ≡ none
      → Leaves (sem_post sem p s) s'
      → Step s s'

pub data Reach (s : System) : System → Type 0 where
  here : Reach s s
  next : {t u : System} → Reach s t → Step t u → Reach s u
