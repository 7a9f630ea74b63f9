-- ===== src/Sched/Signals.antt =====
-- kernel/sched.c: `schedule` wakes the tasks that have a signal or an alarm.
use native.Mathlib.Decide.{ℕ_discrete}
use mathlib.Core.Path.{subst}
use my_practice.Base.{
  ℕ, zero, suc, ◌≤◌, ◌<◌, ◌≡◌, sym, ap, ◌∙◌, ◌⊎◌, inl, inr, true, false, some, arith, Bool-cases,
}
use my_practice.Sched.{
  interruptible, Task, Tasks, is_running, alarm_bit, pending, check_signals, ring_alarm,
  wake_signalled,
}
use my_practice.Sched.Select.{runnable}
use my_practice.Sched.Next.{map_task, each_task-at}

-- The signal of bit `b` is not held back: it is not blocked, or it is SIGKILL or SIGSTOP.
abbrev pub Open : Task → ℕ → Type 0
Open t b = (t.blocked b ≡ false) ⊎ (b ≡ 8) ⊎ (b ≡ 18)

abbrev pub Waiting : ℕ → Task → Type 0
Waiting n t = (b : ℕ) × (b < n) × (t.signal b ≡ true) × Open t b

pending-Waiting : (n : ℕ) (t : Task) → pending n t ≡ true → Waiting n t
unfolding pending
pending-Waiting zero t h = cc
pending-Waiting (suc n) t h = elim (Bool-cases (pending n t)) [
  | inl p ↦ let (b, lt, s, o) = pending-Waiting n t p in (b, omega arith, s, o)
  | inr p ↦ (n, omega arith, grind arith, grind arith)
]

Waiting-pending : (n : ℕ) (t : Task) → Waiting n t → pending n t ≡ true
unfolding pending
Waiting-pending zero t (b, lt, s, o) = absurd (omega arith)
Waiting-pending (suc n) t (b, lt, s, o) = elim (ℕ_discrete b n) [
  | yes e ↦
      let s' = subst (λ k. t.signal k ≡ true) e s in let o' = subst (Open t) e o in grind arith
  | no ne ↦ let p = Waiting-pending n t (b, omega arith, s, o) in grind arith
]

-- The alarm of `t` has passed, and its signal is that of bit `b`.
abbrev pub Rings : ℕ → Task → ℕ → Type 0
Rings jiffies t b = (b ≡ alarm_bit) × (1 ≤ t.alarm) × (t.alarm < jiffies)

ring_alarm-signal :
    (jiffies : ℕ) (t : Task) (b : ℕ)
    → (ring_alarm jiffies t).signal b ≡ true
    → (t.signal b ≡ true) ⊎ Rings jiffies t b
unfolding ring_alarm
ring_alarm-signal jiffies t b h = ground arith

signal-ring_alarm :
    (jiffies : ℕ) (t : Task) (b : ℕ)
    → (t.signal b ≡ true) ⊎ Rings jiffies t b
    → (ring_alarm jiffies t).signal b ≡ true
unfolding ring_alarm
signal-ring_alarm jiffies t b h = ground arith

ring_alarm-blocked :
    (jiffies : ℕ) (t : Task)
    → ((ring_alarm jiffies t).blocked ≡ t.blocked) × ((ring_alarm jiffies t).state ≡ t.state)
unfolding ring_alarm
ring_alarm-blocked jiffies t = ground arith

wake_signalled-running :
    (t : Task) → t.state ≡ interruptible → is_running (wake_signalled t).state ≡ pending 32 t
unfolding wake_signalled
wake_signalled-running t h = ground arith

-- A signal that can be delivered to `t` at the time `jiffies`: one of its 32 bits is set, or is set by
-- an alarm that has passed, and it is not held back.
abbrev pub Delivered : ℕ → Task → Type 0
Delivered jiffies t = (b : ℕ) × (b < 32) × ((t.signal b ≡ true) ⊎ Rings jiffies t b) × Open t b

rung-Open : (jiffies : ℕ) (t : Task) (b : ℕ) → Open (ring_alarm jiffies t) b → Open t b
rung-Open jiffies t b =
    subst (λ f. (f b ≡ false) ⊎ (b ≡ 8) ⊎ (b ≡ 18)) (ring_alarm-blocked jiffies t).0

Open-rung : (jiffies : ℕ) (t : Task) (b : ℕ) → Open t b → Open (ring_alarm jiffies t) b
Open-rung jiffies t b =
    subst (λ f. (f b ≡ false) ⊎ (b ≡ 8) ⊎ (b ≡ 18)) (sym (ring_alarm-blocked jiffies t).0)

-- Whether the task of slot `i` runs after the check of alarms and signals.
checked-pending :
    (jiffies : ℕ) (ts : Tasks) (i : ℕ) (t : Task)
    → 1 ≤ i
    → i ≤ 63
    → ts i ≡ some t
    → t.state ≡ interruptible
    → runnable (check_signals jiffies ts i) ≡ pending 32 (ring_alarm jiffies t)
checked-pending jiffies ts i t lo hi e h =
    ap runnable (each_task-at 63 (λ t. wake_signalled (ring_alarm jiffies t)) ts i lo hi)
    ∙ ap (λ o. runnable (map_task (λ t. wake_signalled (ring_alarm jiffies t)) o)) e
    ∙ wake_signalled-running (ring_alarm jiffies t) ((ring_alarm-blocked jiffies t).1 ∙ h)

-- A task of the slots 1 to 63 that sleeps and can be interrupted runs after the check of alarms and
-- signals exactly if a signal can be delivered to it: one of its 32 bits is set, or is SIGALRM and the
-- alarm has passed, and the signal is not blocked or is SIGKILL or SIGSTOP.
pub check_signals-Delivered :
    (jiffies : ℕ) (ts : Tasks) (i : ℕ) (t : Task)
    → 1 ≤ i
    → i ≤ 63
    → ts i ≡ some t
    → t.state ≡ interruptible
    → (runnable (check_signals jiffies ts i) ≡ true → Delivered jiffies t)
      × (Delivered jiffies t → runnable (check_signals jiffies ts i) ≡ true)
check_signals-Delivered jiffies ts i t lo hi e h =
    let same = checked-pending jiffies ts i t lo hi e h in
    (
      λ run.
          let (b, lt, s, o) = pending-Waiting 32 (ring_alarm jiffies t) (sym same ∙ run) in
          (b, lt, ring_alarm-signal jiffies t b s, rung-Open jiffies t b o),
      λ d.
          let (b, lt, s, o) = d in
          same
          ∙ Waiting-pending 32 (ring_alarm jiffies t)
              (b, lt, signal-ring_alarm jiffies t b s, Open-rung jiffies t b o),
    )
