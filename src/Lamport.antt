-- ===== src/Lamport.antt =====
-- include/linux/lamport.h: the bakery lock that guards the semaphores, run by one processor that
-- no other task interrupts, so that a loop which waits for another task never ends.
pub mod Scan
pub mod Lock
mod Tests
use my_practice.Base.{
  ℕ, zero, suc, ◌+◌, Bool, true, false, not, ◌&&◌, ◌||◌, Option, none, some, ltb, ◌==◌,
  if◌then◌else◌, update,
}

abbrev pub nr_tasks : ℕ
nr_tasks = 64

-- `lamparray`, a field at a time
pub record Lamport : Type 0 where
  pub pid : ℕ → ℕ
  pub choosing : ℕ → Bool
  pub num : ℕ → ℕ

-- The search of `lamportLock`: `n` entries from `i` on. The results are the `i` and the `nulltask`
-- at which it ends: the entry of `p`, or 64; and the last entry seen that is free, or 0.
unfoldable pub find_task : (n i nulltask : ℕ) → (ℕ → ℕ) → ℕ → ℕ × ℕ
find_task zero i nulltask pids p = (i, nulltask)
find_task (suc n) i nulltask pids p =
    let rest = find_task n (suc i) (if pids i == 0 then i else nulltask) pids p in
    if pids i == p then (i, nulltask) else rest

-- One round of the loop that takes the greatest number of the others.
unfoldable pub max_round : (j task : ℕ) → Lamport → Lamport
max_round j task l = if j == task then l else record l {
  num = update l.num task (if ltb (l.num task) (l.num j) then l.num j else l.num task);
}

-- `n` rounds from `j` on
unfoldable pub take_max : (n j task : ℕ) → Lamport → Lamport
take_max zero j task l = l
take_max (suc n) j task l = take_max n (suc j) task (max_round j task l)

-- Whether `lamportLock` waits at entry `j`.
abbrev pub blocked : (j task : ℕ) → Lamport → Bool
blocked j task l =
    l.choosing j
    || (not (l.num j == 0) && (ltb (l.num j) (l.num task) || (l.num j == l.num task && ltb j task)))

-- `n` rounds from `j` on of the waiting loop; `false` if it never ends.
unfoldable pub passes : (n j task : ℕ) → Lamport → Bool
passes zero j task l = true
passes (suc n) j task l = not (blocked j task l) && passes n (suc j) task l

-- The choice of an entry, at the head of `lamportLock`: its index, and the table with it.
unfoldable pub enter : ℕ → Lamport → ℕ × Lamport
enter p l =
    let found = find_task 63 1 0 l.pid p in
    if ltb found.0 nr_tasks
    then (found.0, l)
    else (found.1, record l { pid = update l.pid found.1 p })

-- The number that is drawn for entry `task`.
unfoldable pub draw : ℕ → Lamport → Lamport
draw task l =
    let l1 =
      take_max 63 1 task
        (record l { choosing = update l.choosing task true; num = update l.num task 0 }) in
    record l1 {
      num = update l1.num task (l1.num task + 1);
      choosing = update l1.choosing task false;
    }

-- `lamportLock`; `none` if it waits for ever.
unfoldable pub lock : ℕ → Lamport → Option Lamport
lock p l =
    let entered = enter p l in
    let drawn = draw entered.0 entered.1 in
    if passes nr_tasks 0 entered.0 drawn then some drawn else none

-- The search of `lamportUnlock`.
unfoldable pub find_pid : (n i : ℕ) → (ℕ → ℕ) → ℕ → ℕ
find_pid zero i pids p = i
find_pid (suc n) i pids p = let rest = find_pid n (suc i) pids p in if pids i == p then i else rest

-- `lamportUnlock`; the message changes no state.
unfoldable pub unlock : ℕ → Lamport → Lamport
unlock p l =
    let i = find_pid 63 1 l.pid p in
    if ltb i nr_tasks then record l { num = update l.num i 0 } else l
