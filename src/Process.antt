-- ===== src/Process.antt =====
-- kernel/sys.c and kernel/signal.c: the identity of a task, its sessions, its memory and its signals.
pub mod Identity
pub mod Limits
mod Tests
use my_practice.Base.{
  ℕ, zero, suc, ◌+◌, ◌-◌, ◌%◌, ◌^◌, Bool, true, false, not, ◌&&◌, ◌||◌, Option, none, some, ltb,
  leb, ◌==◌, if◌then◌else◌, update, List, [], ◌∷◌,
}

-- The fields of `task_struct` that these calls use. A set of signals tells which of its 32 bits are
-- set; `tty` is none for -1.
pub record Process : Type 0 where
  pub pid : ℕ
  pub pgrp : ℕ
  pub session : ℕ
  pub leader : Bool
  pub uid : ℕ
  pub euid : ℕ
  pub gid : ℕ
  pub egid : ℕ
  pub sgid : ℕ
  pub tty : Option ℕ
  pub umask : ℕ
  pub end_code : ℕ
  pub brk : ℕ
  pub start_stack : ℕ
  pub blocked : ℕ → Bool

-- `suser()`
abbrev pub suser : Process → Bool
suser p = p.euid == 0

-- An identity is an unsigned short.
abbrev pub short : ℕ → ℕ
short n = n % 2 ^ 16

-- The result of a call: the task, and whether the call returns no error.
abbrev pub Result : Type 0
Result = Process × Bool

-- The second half of `setregid`. An argument below 0 acts as 0, which leaves the identity alone.
abbrev pub set_egid : (egid : ℕ) → Process → Result
set_egid egid p =
    if ltb 0 egid
    then (if p.gid == egid || (p.egid == egid || (p.sgid == egid || suser p))
        then (record p { egid = short egid }, true)
        else (p, false))
    else (p, true)

pub setregid : (rgid egid : ℕ) → Process → Result
setregid rgid egid p =
    if ltb 0 rgid
    then (if p.gid == rgid || suser p
        then set_egid egid (record p { gid = short rgid })
        else (p, false))
    else set_egid egid p

pub setgid : ℕ → Process → Result
setgid gid = setregid gid gid

-- The second half of `setreuid`, which puts `old_ruid` back where it fails.
abbrev pub set_euid : (old_ruid euid : ℕ) → Process → Result
set_euid old_ruid euid p =
    if ltb 0 euid
    then (if old_ruid == euid || (p.euid == euid || suser p)
        then (record p { euid = short euid }, true)
        else (record p { uid = old_ruid }, false))
    else (p, true)

pub setreuid : (ruid euid : ℕ) → Process → Result
setreuid ruid euid p =
    if ltb 0 ruid
    then (if p.euid == ruid || (p.uid == ruid || suser p)
        then set_euid p.uid euid (record p { uid = short ruid })
        else (p, false))
    else set_euid p.uid euid p

pub setuid : ℕ → Process → Result
setuid uid = setreuid uid uid

-- `a - b` of unsigned numbers
abbrev pub minus : ℕ → ℕ → ℕ
minus a b = (a + 2 ^ 32 - b) % 2 ^ 32

-- The new value of `brk` is the result as well.
pub set_brk : (end_data_seg : ℕ) → Process → Process
set_brk end_data_seg p =
    if leb p.end_code end_data_seg && ltb end_data_seg (minus p.start_stack 16384)
    then record p { brk = end_data_seg }
    else p

abbrev pub Tasks : Type 0
Tasks = ℕ → Option Process

abbrev pub has_pid : ℕ → Option Process → Bool
has_pid pid none = false
has_pid pid (some p) = p.pid == pid

-- The loop of `sys_setpgid`: the first of the `n` tasks from `i` on with the pid
pub find_task : (n i pid : ℕ) → Tasks → Option ℕ
find_task zero i pid ts = none
find_task (suc n) i pid ts =
    let rest = find_task n (i + 1) pid ts in if has_pid pid (ts i) then some i else rest

-- `setpgid` of the task `current`; EPERM and ESRCH are failures.
pub set_group : (i pgid : ℕ) → (current : Process) → Option Process → Tasks → Tasks × Bool
set_group i pgid current none ts = (ts, false)
set_group i pgid current (some p) ts =
    if p.leader
    then (ts, false)
    else (if p.session == current.session
        then (update ts i (some (record p { pgrp = pgid })), true)
        else (ts, false))

pub setpgid : (pid pgid : ℕ) → (current : Process) → Tasks → Tasks × Bool
setpgid pid pgid current ts =
    let pid' = (if pid == 0 then current.pid else pid) in
    let pgid' = (if pgid == 0 then current.pid else pgid) in
    elim (find_task 64 0 pid' ts) [
      | none ↦ (ts, false)
      | some i ↦ set_group i pgid' current (ts i) ts
    ]

pub setsid : Process → Result
setsid p =
    if p.leader && not (suser p)
    then (p, false)
    else (record p { leader = true; session = p.pid; pgrp = p.pid; tty = none }, true)

-- `mask & 0777`; the result is the old mask.
pub set_umask : ℕ → Process → Process × ℕ
set_umask mask p = (record p { umask = mask % 2 ^ 9 }, p.umask)

-- `newmask & ~(1 << (SIGKILL - 1))`; the result is the old set.
pub ssetmask : (ℕ → Bool) → Process → Process × (ℕ → Bool)
ssetmask newmask p = (record p { blocked = λ n. newmask n && not (n == 8) }, p.blocked)
