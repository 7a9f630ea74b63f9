-- ===== src/Signals/Tests.antt =====
-- kernel/signal.c: a task with a handler for SIGINT.
use my_practice.Base.{◌≡◌, refl, ◌==◌, if◌then◌else◌, arith, List, [], ◌∷◌}
use my_practice.Signals.{Sigaction, Signals, Regs, Stack, exits, do_signal}
use my_practice.Signals.Handlers.{Call, sets, acts, run_all, run_all-kill_ends}
use my_practice.Signals.Frame.{Delivers, do_signal-Delivers}

abbrev default_action : Sigaction
default_action = record { handler = 0; mask = 0; flags = 0; restorer = 0 }

abbrev catching : Sigaction
catching = record { handler = 0x1000; mask = 2; flags = 0; restorer = 0x2000 }

abbrev task : Signals
task = record { action = λ k. if k == 1 then catching else default_action; blocked = 4 }

abbrev regs : Regs
regs = record { eax = 5; ecx = 6; edx = 7; eip = 0x300; eflags = 0x202; esp = 0x8000 }

abbrev bare : Stack
bare address = 0

do_signal-Delivers_example : Delivers 2 regs bare task (do_signal 2 regs bare task)
do_signal-Delivers_example = do_signal-Delivers 2 regs bare task (omega arith)

abbrev calls : List Call
calls = sets 9 0x1000 0 ∷ acts 9 catching ∷ sets 15 1 0 ∷ []

run_all-kill_ends_example : do_signal 9 regs bare (run_all calls task) ≡ exits 256
run_all-kill_ends_example = run_all-kill_ends calls regs bare task refl
