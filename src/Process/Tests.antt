-- ===== src/Process/Tests.antt =====
-- kernel/sys.c: identities, memory and groups of concrete tasks.
use my_practice.Base.{◌≡◌, refl, false, none, some, arith, ◌==◌, if◌then◌else◌, List, [], ◌∷◌}
use my_practice.Process.{Process, Tasks, setreuid, setuid}
use my_practice.Process.Identity.{
  Call, reuid, gid, uid, run_all, IsBound, succeeds, run_all-IsBound,
}

-- A program of user 7 that runs for user 5
abbrev helper : Process
helper = record {
  pid = 12;
  pgrp = 12;
  session = 3;
  leader = false;
  uid = 5;
  euid = 7;
  gid = 50;
  egid = 70;
  sgid = 70;
  tty = some 0;
  umask = 18;
  end_code = 0x4000;
  brk = 0x5000;
  start_stack = 0x3fff000;
  blocked = λ n. false;
}

-- It becomes user 7, and cannot become user 0 by way of 65536.
abbrev calls : List Call
calls = reuid 7 5 ∷ uid 65536 ∷ gid 70 ∷ []

run_all-IsBound_example : IsBound helper (run_all calls helper)
run_all-IsBound_example = run_all-IsBound calls helper (omega arith) (omega arith) (omega arith)

refused : succeeds (uid 65536) helper ≡ false
unfolding setuid setreuid
refused = refl

abbrev only_helper : Tasks
only_helper i = if i == 1 then some helper else none
