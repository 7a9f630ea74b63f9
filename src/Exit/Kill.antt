-- ===== src/Exit/Kill.antt =====
-- kernel/exit.c: which tasks `sys_kill` reaches, and what it returns.
use my_practice.Base.{
  ℕ, zero, suc, refl, sym, ap, ◌∙◌, inl, inr, Bool, true, false, not, ◌&&◌, Option, none, some,
  ◌==◌, Option-cases,
}
use mathlib.Core.Path.{subst}
use my_practice.Base.Int.{ℤ, pos, negsuc}
use my_practice.Exit.{TaskStruct, Slots, einval, send_sig, pick_one, kill}
use my_practice.Exit.Loops.{OneSlot, EachSlot, each_slot-EachSlot}
use my_practice.Exit.Send.{
  may, signalled, refuses, IsSignal, send_sig-none, send-OneSlot, pick_one-OneSlot, unchanged,
}

-- Whether `sys_kill` of `pid` is for a task, and with what right
abbrev pub addressed : (pid : ℤ) → (me p : TaskStruct) → Bool
addressed (pos zero) me p = p.pgrp == me.pid
addressed (pos (suc n)) me p = p.pid == suc n
addressed (negsuc zero) me p = true
addressed (negsuc (suc n)) me p = p.pgrp == suc (suc n)

abbrev pub privileged : (pid : ℤ) → Bool
privileged (pos zero) = true
privileged (pos (suc n)) = false
privileged (negsuc n) = false

-- Whether a slot makes `sys_kill` return an error: a task that it is for and may not be sent the
-- signal, or no task at all where the call is for every task
abbrev pub fails : (pid : ℤ) → (me : TaskStruct) → Option TaskStruct → Bool
fails (negsuc zero) me none = true
fails pid me none = false
fails pid me (some p) = addressed pid me p && not (may (privileged pid) me p)

every-OneSlot :
    (sig : ℕ) (me : TaskStruct)
    → IsSignal sig
    → (i : ℕ) (t : Slots)
    → OneSlot
        (signalled (λ p. true) sig false me)
        (fails (negsuc zero) me)
        i
        t
        (send_sig sig i false me t)
every-OneSlot sig me s i t =
    let g : Option TaskStruct → Option TaskStruct = signalled (λ p. true) sig false me in
    let bad : Option TaskStruct → Bool = fails (negsuc zero) me in
    elim (Option-cases (t i)) [
      | inl e ↦
          subst (OneSlot g bad i t) (sym (send_sig-none sig i false me t e))
            (unchanged g bad i einval t (e ∙ sym (ap g e)) (sym (ap not (ap bad e))))
      | inr (p, e) ↦ send-OneSlot (λ p. true) sig i false me p t bad s e refl refl
    ]

-- For a signal from 1 to 32, `sys_kill` adds it to the tasks of slots 1 to 63 that `pid` is for
-- and that may be sent it, and changes no other task. It returns an error exactly where such a
-- task may not be sent the signal or, for -1, a slot from 1 on is empty.
pub kill-EachSlot :
    (pid : ℤ) (sig : ℕ) (me : TaskStruct) (t : Slots)
    → IsSignal sig
    → EachSlot
        (signalled (addressed pid me) sig (privileged pid) me)
        (fails pid me)
        63
        0
        t
        (kill pid sig me t)
unfolding kill
kill-EachSlot (pos zero) sig me t s =
    each_slot-EachSlot (signalled (λ p. p.pgrp == me.pid) sig true me)
      (refuses (λ p. p.pgrp == me.pid) true me) (pick_one (λ p. p.pgrp == me.pid) sig true me)
      (pick_one-OneSlot (λ p. p.pgrp == me.pid) sig true me s) 63 0 t
kill-EachSlot (pos (suc n)) sig me t s =
    each_slot-EachSlot (signalled (λ p. p.pid == suc n) sig false me)
      (refuses (λ p. p.pid == suc n) false me) (pick_one (λ p. p.pid == suc n) sig false me)
      (pick_one-OneSlot (λ p. p.pid == suc n) sig false me s) 63 0 t
kill-EachSlot (negsuc zero) sig me t s =
    each_slot-EachSlot (signalled (λ p. true) sig false me) (fails (negsuc zero) me)
      (λ i. send_sig sig i false me) (every-OneSlot sig me s) 63 0 t
kill-EachSlot (negsuc (suc n)) sig me t s =
    each_slot-EachSlot (signalled (λ p. p.pgrp == suc (suc n)) sig false me)
      (refuses (λ p. p.pgrp == suc (suc n)) false me)
      (pick_one (λ p. p.pgrp == suc (suc n)) sig false me)
      (pick_one-OneSlot (λ p. p.pgrp == suc (suc n)) sig false me s) 63 0 t
