-- ===== src/Exit/Reap.antt =====
-- kernel/exit.c: what `sys_waitpid` ends with.
use my_practice.Base.{
  ℕ, ◌+◌, ◌≤◌, ◌≡◌, ◌≢◌, refl, inl, inr, Bool, true, false, some, if◌then◌else◌, update,
}
use my_practice.Base.Int.{ℤ}
use my_practice.Sched.{interruptible, stopped, zombie}
use my_practice.Exit.{
  TaskStruct, Slots, Scan, child_stopped, child_ended, no_child, scan_children, Waited, gives,
  nothing, sleeps, echild, release, waitpid,
}
use my_practice.Exit.Wait.{IsChild, NoneReady, Found}
use my_practice.Exit.Children.{scan_children-Found}

-- The task with the times of a child that has ended
abbrev pub charged : (me p : TaskStruct) → TaskStruct
charged me p = record me { cutime = me.cutime + p.utime; cstime = me.cstime + p.stime }

abbrev pub waiting : TaskStruct → TaskStruct
waiting me = record me { state = interruptible }

-- What `sys_waitpid` ends with
pub data Reaps (pid : ℤ) (nohang untraced : Bool) (current : ℕ) (me : TaskStruct) (t : Slots)
    : Waited → Type 0 where
  stopped_child :
      (i : ℕ) (p : TaskStruct)
      → IsChild pid current me t i p
      → p.state ≡ stopped
      → untraced ≡ true
      → NoneReady pid untraced current me t i 63
      → Reaps pid nohang untraced current me t (gives p.pid 0x7f t)
  ended_child :
      (i : ℕ) (p : TaskStruct)
      → IsChild pid current me t i p
      → p.state ≡ zombie
      → NoneReady pid untraced current me t i 63
      → Reaps pid nohang untraced current me t
          (gives p.pid p.exit_code (release i (update t current (some (charged me p)))))
  none_yet :
      NoneReady pid untraced current me t 0 63
      → (j : ℕ) (q : TaskStruct) → IsChild pid current me t j q
      → q.state ≢ stopped
      → Reaps pid nohang untraced current me t
          (if nohang then nothing else sleeps (update t current (some (waiting me))))
  all_stopped :
      NoneReady pid untraced current me t 0 63
      → ((j : ℕ) (q : TaskStruct)
          → 1 ≤ j
          → j ≤ 63
          → IsChild pid current me t j q
          → q.state ≡ stopped)
      → Reaps pid nohang untraced current me t echild

-- `sys_waitpid` gives the child of the highest slot that has ended or, with WUNTRACED, is stopped:
-- its pid and status, and for one that has ended a task table without it, its times added to the
-- caller's. Where there is none, it returns 0 or sleeps if some child is not stopped, and otherwise
-- -ECHILD, even with children that are stopped.
pub waitpid-Reaps :
    (pid : ℤ) (nohang untraced : Bool) (current : ℕ) (me : TaskStruct) (t : Slots)
    → Reaps pid nohang untraced current me t (waitpid pid nohang untraced current me t)
unfolding waitpid
waitpid-Reaps pid nohang untraced current me t =
    reaps (scan_children 63 pid untraced current me false t)
      (scan_children-Found pid untraced current me t 63 false)
  where
    false_true : false ≡ true → ⊥
    false_true e = cc

    with_flag :
        (f : Bool)
        → Found pid untraced current me t 63 false (no_child f)
        → Reaps pid nohang untraced current me t (
            if f
            then (if nohang then nothing else sleeps (update t current (some (waiting me))))
            else echild)
    with_flag true (h, k, w, z) = elim (w refl) [
      | inl e ↦ absurd (false_true e)
      | inr (j, q, c, ne) ↦ none_yet h j q c ne
    ]
    with_flag false (h, k, w, z) = all_stopped h (z refl)

    reaps :
        (r : Scan)
        → Found pid untraced current me t 63 false r
        → Reaps pid nohang untraced current me t (elim r as (λ x. Waited) [
          | child_stopped i p ↦ gives p.pid 0x7f t
          | child_ended i p ↦
              gives p.pid p.exit_code (release i (update t current (some (charged me p))))
          | no_child flag ↦
              if flag
              then (if nohang then nothing else sleeps (update t current (some (waiting me))))
              else echild
        ])
    reaps (child_stopped i p) (a, b, c, d, e, h) = stopped_child i p c d e h
    reaps (child_ended i p) (a, b, c, d, h) = ended_child i p c d h
    reaps (no_child f) h = with_flag f h
