-- ===== src/Signals.antt =====
-- kernel/signal.c: the handlers of a task's signals.
pub mod Handlers
pub mod Frame
mod Tests
use my_practice.Base.{
  ℕ, ◌+◌, ◌-◌, ◌*◌, ◌/◌, ◌%◌, ◌^◌, Bool, true, false, not, ◌&&◌, ◌||◌, Option, none, some, ltb,
  ◌==◌, if◌then◌else◌, update, List, [], ◌∷◌, length,
}
use Prim.Native.Nat.{bit_or}

-- `struct sigaction`
pub record Sigaction : Type 0 where
  pub handler : ℕ
  pub mask : ℕ
  pub flags : ℕ
  pub restorer : ℕ

-- `sigaction` of the task, by the signal's number less 1, and `blocked`
pub record Signals : Type 0 where
  pub action : ℕ → Sigaction
  pub blocked : ℕ

abbrev pub sa_nomask : ℕ
sa_nomask = 0x40000000

abbrev pub sa_oneshot : ℕ
sa_oneshot = 0x80000000

-- `flags & bit`
abbrev pub has_flag : (flags bit : ℕ) → Bool
has_flag flags bit = (flags / bit) % 2 == 1

abbrev pub kill_signal : ℕ
kill_signal = 9

abbrev pub child_signal : ℕ
child_signal = 17

abbrev pub may_handle : (signum : ℕ) → Bool
may_handle signum = not (ltb signum 1 || (ltb 32 signum || signum == kill_signal))

-- `sys_signal`: the old handler, none for -1
pub signal : (signum handler restorer : ℕ) → Signals → Option ℕ × Signals
signal signum handler restorer s =
    if may_handle signum
    then (
      some ((s.action (signum - 1)).handler),
      record s {
        action = update s.action (signum - 1) (record {
          handler = handler;
          mask = 0;
          flags = sa_oneshot + sa_nomask;
          restorer = restorer;
        });
      },
    )
    else (none, s)

-- `sys_sigaction` for the action that `get_new` reads: the action that `save_old` writes, none for -1
pub sigaction : (signum : ℕ) → (new : Sigaction) → Signals → Option Sigaction × Signals
sigaction signum new s =
    let mask = (if has_flag new.flags sa_nomask then 0 else bit_or new.mask (2 ^ (signum - 1))) in
    if may_handle signum
    then (
      some (s.action (signum - 1)),
      record s { action = update s.action (signum - 1) (record new { mask = mask }) },
    )
    else (none, s)

-- The registers of the task that `do_signal` reads and writes; the others stay as they are.
pub record Regs : Type 0 where
  pub eax : ℕ
  pub ecx : ℕ
  pub edx : ℕ
  pub eip : ℕ
  pub eflags : ℕ
  pub esp : ℕ

-- The longs of the task's stack, by address
abbrev pub Stack : Type 0
Stack = ℕ → ℕ

-- `put_fs_long` of each, from an address on
pub put_longs : (address : ℕ) → List ℕ → Stack → Stack
put_longs address [] m = m
put_longs address (x ∷ xs) m = put_longs (address + 4) xs (update m address x)

abbrev pub frame_of : (signr : ℕ) → Sigaction → (blocked : ℕ) → Regs → List ℕ
frame_of signr sa blocked r =
    if has_flag sa.flags sa_nomask
    then sa.restorer ∷ signr ∷ r.eax ∷ r.ecx ∷ r.edx ∷ r.eflags ∷ r.eip ∷ []
    else sa.restorer ∷ signr ∷ blocked ∷ r.eax ∷ r.ecx ∷ r.edx ∷ r.eflags ∷ r.eip ∷ []

-- `longs`
abbrev pub longs_of : Sigaction → ℕ
longs_of sa = if has_flag sa.flags sa_nomask then 7 else 8

-- What `do_signal` ends with: nothing done, `do_exit`, or the handler to run
pub data Delivered : Type 0 where
  ignored : Delivered
  exits : (code : ℕ) → Delivered
  runs : Regs → Stack → Signals → Delivered

-- `sa` without its handler where it is for one signal only
abbrev pub used_up : Sigaction → Sigaction
used_up sa = if has_flag sa.flags sa_oneshot then record sa { handler = 0 } else sa

pub do_signal : (signr : ℕ) → Regs → Stack → Signals → Delivered
do_signal signr r m s =
    let sa : Sigaction = s.action (signr - 1) in
    let esp : ℕ = r.esp - 4 * longs_of sa in
    if sa.handler == 1
    then ignored
    else if sa.handler == 0
    then (if signr == child_signal then ignored else exits (2 ^ (signr - 1)))
    else runs (record r { eip = sa.handler; esp = esp })
        (put_longs esp (frame_of signr sa s.blocked r) m)
        (record s {
          action = update s.action (signr - 1) (used_up sa);
          blocked = bit_or s.blocked sa.mask;
        })
