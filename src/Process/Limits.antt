-- ===== src/Process/Limits.antt =====
-- kernel/sys.c: the bounds of `brk`, and what `sys_setpgid` may change.
use native.Mathlib.Decide.{ℕ_discrete}
use mathlib.Core.Path.{subst}
use my_practice.Base.{
  ℕ, zero, suc, ◌+◌, ◌^◌, ◌≤◌, ◌<◌, ◌≡◌, refl, ap, ◌∙◌, ◌⊎◌, inl, inr, Bool, true, false, ◌==◌,
  if◌then◌else◌, arith, Bool-cases, Option, none, some, update, update_self, update_ne,
  Option-cases, if_true, if_false,
}
use my_practice.Process.{Process, Tasks, set_brk, has_pid, find_task, set_group, setpgid}

-- The heap ends behind the code and 16K before the stack, which is in the 32 bits of an address.
pub record HasRoom (p : Process) : Type 0 where
  pub above_code : p.end_code ≤ p.brk
  pub below_stack : p.brk + 16384 < p.start_stack
  pub stack : p.start_stack < 2 ^ 32

-- `brk` keeps the heap between the code and the stack, and is the address asked for exactly if that
-- lies between them.
pub set_brk-HasRoom :
    (end_data_seg : ℕ) (p : Process)
    → HasRoom p
    → HasRoom (set_brk end_data_seg p)
      × ((p.end_code ≤ end_data_seg) × (end_data_seg + 16384 < p.start_stack)
          → (set_brk end_data_seg p).brk ≡ end_data_seg)
      × (((end_data_seg < p.end_code) ⊎ (p.start_stack ≤ end_data_seg + 16384))
          → set_brk end_data_seg p ≡ p)
unfolding set_brk
set_brk-HasRoom end_data_seg p r = (ground arith, λ h. ground arith, λ h. ground arith)

find_task-has_pid :
    (n i pid : ℕ) (ts : Tasks) (k : ℕ) → find_task n i pid ts ≡ some k → has_pid pid (ts k) ≡ true
unfolding find_task
find_task-has_pid zero i pid ts k e = cc
find_task-has_pid (suc n) i pid ts k e = elim (Bool-cases (has_pid pid (ts i))) [
  | inl h ↦ let here : i ≡ k = ground arith in subst (λ j. has_pid pid (ts j) ≡ true) here h
  | inr h ↦ find_task-has_pid n (i + 1) pid ts k (ground arith)
]

-- What a call may change of a task: nothing, or the group of a task that is no leader, is of the
-- session of `current` and has the number `pid`.
abbrev pub Regrouped :
    (pid pgid : ℕ) → (current : Process) → (before after : Option Process) → Type 0
Regrouped pid pgid current before after =
    (after ≡ before)
    ⊎ ((p : Process) × (before ≡ some p)
        × (after ≡ some (record p { pgrp = pgid }))
        × (p.leader ≡ false)
        × (p.session ≡ current.session)
        × (p.pid ≡ pid))

set_group-done :
    (i pgid : ℕ) (current p : Process) (ts : Tasks)
    → p.leader ≡ false
    → (p.session == current.session) ≡ true
    → (set_group i pgid current (some p) ts).0 ≡ update ts i (some (record p { pgrp = pgid }))
unfolding set_group
set_group-done i pgid current p ts l s =
    ap (λ (r : Tasks × Bool). r.0) (if_false _ _ l ∙ if_true _ _ s)

set_group-Regrouped :
    (i pid pgid : ℕ) (current : Process) (ts : Tasks) (o : Option Process) (k : ℕ)
    → ts i ≡ o
    → has_pid pid o ≡ true
    → Regrouped pid pgid current (ts k) ((set_group i pgid current o ts).0 k)
unfolding set_group
set_group-Regrouped i pid pgid current ts none k e h = inl refl
set_group-Regrouped i pid pgid current ts (some p) k e h = elim (Bool-cases p.leader) [
  | inl l ↦ inl (rw l refl)
  | inr l ↦ elim (Bool-cases (p.session == current.session)) [
    | inr s ↦ inl (rw (l, s) refl)
    | inl s ↦ elim (ℕ_discrete i k) [
      | no ne ↦ inl (
          ap (λ (us : Tasks). us k) (set_group-done i pgid current p ts l s)
          ∙ update_ne ts i (some (record p { pgrp = pgid })) k ne)
      | yes at ↦ inr (
        p,
        subst (λ j. ts j ≡ some p) at e,
        ap (λ (us : Tasks). us k) (set_group-done i pgid current p ts l s)
            ∙ subst
                (λ j.
                  update ts i (some (record p { pgrp = pgid })) j ≡ some (record p { pgrp = pgid }))
                at (update_self ts i (some (record p { pgrp = pgid }))),
        l,
        ground arith,
        ground arith,
      )
    ]
  ]
]

-- `sys_setpgid` changes nothing of any task but the group of tasks that are no leaders, are of the
-- caller's session and have the number asked for, which is the caller's own for 0.
pub setpgid-Regrouped :
    (pid pgid : ℕ) (current : Process) (ts : Tasks) (k : ℕ)
    → Regrouped
        (if pid == 0 then current.pid else pid)
        (if pgid == 0 then current.pid else pgid)
        current
        (ts k)
        ((setpgid pid pgid current ts).0 k)
unfolding setpgid
setpgid-Regrouped pid pgid current ts k =
    elim (Option-cases (find_task 64 0 (if pid == 0 then current.pid else pid) ts)) [
      | inl e ↦ inl (rw (e, setpgid) refl)
      | inr (i, e) ↦
          rw (e, setpgid)
            (set_group-Regrouped i _ _ current ts (ts i) k refl (find_task-has_pid 64 0 _ ts i e))
    ]
