-- ===== src/Exit.antt =====
-- kernel/exit.c: signals between tasks, what becomes of the children of a task that ends, and the
-- search of `sys_waitpid`.
pub mod Loops
pub mod Send
pub mod Kill
pub mod Wait
pub mod Children
pub mod Reap
mod Tests
use my_practice.Base.{
  ℕ, zero, suc, ◌+◌, ◌-◌, Bool, true, false, not, ◌&&◌, ◌||◌, Option, none, some, ltb, leb, ◌==◌,
  if◌then◌else◌, update, List, [], ◌∷◌,
}
use my_practice.Base.Int.{ℤ, pos, negsuc}
use my_practice.Sched.{State, stopped, zombie, interruptible}

-- The fields of `struct task_struct` that the file uses. A set of signals is a function of the
-- signal's number less 1; the father of the first task, -1, is 2^32 - 1.
pub record TaskStruct : Type 0 where
  pub state : State
  pub signal : ℕ → Bool
  pub exit_code : ℕ
  pub pid : ℕ
  pub father : ℕ
  pub pgrp : ℕ
  pub session : ℕ
  pub euid : ℕ
  pub utime : ℕ
  pub stime : ℕ
  pub cutime : ℕ
  pub cstime : ℕ

-- `task`
abbrev pub Slots : Type 0
Slots = ℕ → Option TaskStruct

abbrev pub eperm : ℕ
eperm = 1

abbrev pub einval : ℕ
einval = 22

abbrev pub sighup : ℕ
sighup = 1

abbrev pub sigchld : ℕ
sigchld = 17

-- `p->signal |= 1<<(sig-1)`
abbrev pub with_signal : (sig : ℕ) → TaskStruct → TaskStruct
with_signal sig p = record p { signal = update p.signal (sig - 1) true }

-- `send_sig` for a task `p` of the slot `i`
abbrev pub send_to : (sig i : ℕ) → (priv : Bool) → (me p : TaskStruct) → Slots → ℕ × Slots
send_to sig i priv me p t =
    if ltb sig 1 || ltb 32 sig
    then (einval, t)
    else if priv || (me.euid == p.euid || me.euid == 0)
    then (0, update t i (some (with_signal sig p)))
    else (eperm, t)

-- `send_sig` of the task `me` to the slot `i`: the error, 0 for none, and the tasks
pub send_sig : (sig i : ℕ) → (priv : Bool) → (me : TaskStruct) → Slots → ℕ × Slots
send_sig sig i priv me t = elim (t i) [ none ↦ (einval, t) | some p ↦ send_to sig i priv me p t ]

-- The loop of `kill_session` over the slots from `n` down to 1
pub hang_up : (n : ℕ) → (me : TaskStruct) → Slots → Slots
hang_up zero me t = t
hang_up (suc n) me t = elim (t (suc n)) [
  | none ↦ hang_up n me t
  | some p ↦
      hang_up n me
        (if p.session == me.session then update t (suc n) (some (with_signal sighup p)) else t)
]

abbrev pub kill_session : (me : TaskStruct) → Slots → Slots
kill_session = hang_up 63

-- The body of the loops of `sys_kill` that pick tasks
pub pick_one :
    (picks : TaskStruct → Bool)
    → (sig : ℕ) → (priv : Bool) → (me : TaskStruct) → (i : ℕ) → Slots
    → ℕ × Slots
pick_one picks sig priv me i t = elim (t i) [
  | none ↦ (0, t)
  | some p ↦ if picks p then send_sig sig i priv me t else (0, t)
]

-- The loops of `sys_kill` over the slots from `n` down to 1, where `one` is the body and gives the
-- error `err`
pub each_slot : (n : ℕ) → (one : ℕ → Slots → ℕ × Slots) → (retval : ℕ) → Slots → ℕ × Slots
each_slot zero one retval t = (retval, t)
each_slot (suc n) one retval t =
    let r = one (suc n) t in each_slot n one (if r.0 == 0 then retval else r.0) r.1

-- `sys_kill`; the loop for -1 does not look whether there is a task.
pub kill : (pid : ℤ) → (sig : ℕ) → (me : TaskStruct) → Slots → ℕ × Slots
kill (pos zero) sig me t = each_slot 63 (pick_one (λ p. p.pgrp == me.pid) sig true me) 0 t
kill (pos (suc n)) sig me t = each_slot 63 (pick_one (λ p. p.pid == suc n) sig false me) 0 t
kill (negsuc zero) sig me t = each_slot 63 (λ i. send_sig sig i false me) 0 t
kill (negsuc (suc n)) sig me t =
    each_slot 63 (pick_one (λ p. p.pgrp == suc (suc n)) sig false me) 0 t

-- The tests of `sys_waitpid` on a child
abbrev pub awaited : (pid : ℤ) → (me p : TaskStruct) → Bool
awaited (pos zero) me p = p.father == me.pid && p.pgrp == me.pgrp
awaited (pos (suc n)) me p = p.father == me.pid && p.pid == suc n
awaited (negsuc zero) me p = p.father == me.pid
awaited (negsuc (suc n)) me p = p.father == me.pid && p.pgrp == suc (suc n)

-- What the loop of `sys_waitpid` ends with: a child that is stopped or that has ended, by its slot,
-- or `flag`
pub data Scan : Type 0 where
  child_stopped child_ended : (i : ℕ) → TaskStruct → Scan
  no_child : (flag : Bool) → Scan

-- The cases of the `switch` for a child in the slot `i`, where `continue` goes on with a flag
abbrev pub switch_child :
    (i : ℕ) → (untraced flag : Bool) → (continue : Bool → Scan) → TaskStruct → State → Scan
switch_child i untraced flag continue p stopped =
    if untraced then child_stopped i p else continue flag
switch_child i untraced flag continue p zombie = child_ended i p
switch_child i untraced flag continue p _ = continue true

-- The loop over the slots from `n` down to 1, for the task `me` of the slot `current`
pub scan_children :
    (n : ℕ)
    → (pid : ℤ) → (untraced : Bool) → (current : ℕ) → (me : TaskStruct) → (flag : Bool) → Slots
    → Scan
scan_children zero pid untraced current me flag t = no_child flag
scan_children (suc n) pid untraced current me flag t =
    let continue : Bool → Scan = λ f. scan_children n pid untraced current me f t in
    elim (t (suc n)) [
      | none ↦ continue flag
      | some p ↦
          if not (suc n == current) && awaited pid me p
          then switch_child (suc n) untraced flag continue p p.state
          else continue flag
    ]

-- What `sys_waitpid` ends with: the pid and the status of a child that is stopped or has ended, with
-- the tasks; 0; a sleep, with the tasks; -ECHILD
pub data Waited : Type 0 where
  gives : (pid status : ℕ) → Slots → Waited
  nothing : Waited
  sleeps : Slots → Waited
  echild : Waited

-- `release` of the task in a slot from 1 on, whose page it frees
abbrev pub release : (i : ℕ) → Slots → Slots
release i t = update t i none

-- `sys_waitpid`, up to `schedule` where it sleeps. `me` is the task of the slot `current`.
pub waitpid :
    (pid : ℤ) → (nohang untraced : Bool) → (current : ℕ) → (me : TaskStruct) → Slots → Waited
waitpid pid nohang untraced current me t = elim (scan_children 63 pid untraced current me false t) [
  | child_stopped i p ↦ gives p.pid 0x7f t
  | child_ended i p ↦ gives p.pid p.exit_code (
      release i (
        update t current
          (some (record me { cutime = me.cutime + p.utime; cstime = me.cstime + p.stime }))))
  | no_child flag ↦
      if flag
      then (if nohang
          then nothing
          else sleeps (update t current (some (record me { state = interruptible }))))
      else echild
]
