-- ===== src/Process/Identity.antt =====
-- kernel/sys.c: what a task may make of its identity.
use my_practice.Base.{ℕ, ◌^◌, ◌≤◌, ◌<◌, ◌≡◌, ◌⊎◌, Bool, false, arith, List, [], ◌∷◌}
use my_practice.Process.{Process, setregid, setgid, setreuid, setuid}

-- A call that sets identities
pub data Call : Type 0 where
  regid reuid : ℕ → ℕ → Call
  gid uid : ℕ → Call

abbrev pub run : Call → Process → Process
run (regid r e) p = (setregid r e p).0
run (reuid r e) p = (setreuid r e p).0
run (gid g) p = (setgid g p).0
run (uid u) p = (setuid u p).0

abbrev pub run_all : List Call → Process → Process
run_all [] p = p
run_all (c ∷ cs) p = run_all cs (run c p)

-- The identities of `p` are among those of `o`, an unprivileged task.
pub record IsBound (o p : Process) : Type 0 where
  pub user : 1 ≤ o.uid
  pub effective_user : 1 ≤ o.euid
  pub shorts :
      (o.uid < 2 ^ 16)
      × (o.euid < 2 ^ 16)
      × (o.gid < 2 ^ 16)
      × (o.egid < 2 ^ 16)
      × (o.sgid < 2 ^ 16)
  pub real : (p.uid ≡ o.uid) ⊎ (p.uid ≡ o.euid)
  pub effective : (p.euid ≡ o.uid) ⊎ (p.euid ≡ o.euid)
  pub group : p.gid ≡ o.gid
  pub saved_group : p.sgid ≡ o.sgid
  pub effective_group : (p.egid ≡ o.gid) ⊎ (p.egid ≡ o.egid) ⊎ (p.egid ≡ o.sgid)

setreuid-IsBound : (r e : ℕ) {o p : Process} → IsBound o p → IsBound o (setreuid r e p).0
unfolding setreuid
setreuid-IsBound r e v = ground arith

setregid-IsBound : (r e : ℕ) {o p : Process} → IsBound o p → IsBound o (setregid r e p).0
unfolding setregid
setregid-IsBound r e v = ground arith

run-IsBound : (c : Call) {o p : Process} → IsBound o p → IsBound o (run c p)
unfolding setgid setuid
run-IsBound (regid r e) v = setregid-IsBound r e v
run-IsBound (reuid r e) v = setreuid-IsBound r e v
run-IsBound (gid g) v = setregid-IsBound g g v
run-IsBound (uid u) v = setreuid-IsBound u u v

run_all-keeps : (cs : List Call) {o p : Process} → IsBound o p → IsBound o (run_all cs p)
run_all-keeps [] v = v
run_all-keeps (c ∷ cs) v = run_all-keeps cs (run-IsBound c v)

-- However often an unprivileged task sets its identities, its user identities stay among the two and
-- its effective group among the three that it began with, and its real and saved groups are the same.
pub run_all-IsBound :
    (cs : List Call) (o : Process)
    → 1 ≤ o.uid
    → 1 ≤ o.euid
    → (o.uid < 2 ^ 16)
      × (o.euid < 2 ^ 16)
      × (o.gid < 2 ^ 16)
      × (o.egid < 2 ^ 16)
      × (o.sgid < 2 ^ 16)
    → IsBound o (run_all cs o)
run_all-IsBound cs o u e shorts = run_all-keeps cs (ground arith)

-- Whether a call returns no error
abbrev pub succeeds : Call → Process → Bool
succeeds (regid r e) p = (setregid r e p).1
succeeds (reuid r e) p = (setreuid r e p).1
succeeds (gid g) p = (setgid g p).1
succeeds (uid u) p = (setuid u p).1

setreuid-unchanged : (r e : ℕ) (p : Process) → (setreuid r e p).1 ≡ false → (setreuid r e p).0 ≡ p
unfolding setreuid
setreuid-unchanged r e p h = ground arith

setregid-unchanged :
    (r e : ℕ) (p : Process) → p.gid < 2 ^ 16 → (setregid r e p).1 ≡ false → (setregid r e p).0 ≡ p
unfolding setregid
setregid-unchanged r e p short_gid h = ground arith

-- A call that returns an error has changed nothing.
pub run-unchanged : (c : Call) (p : Process) → p.gid < 2 ^ 16 → succeeds c p ≡ false → run c p ≡ p
unfolding setgid setuid
run-unchanged (regid r e) p short_gid h = setregid-unchanged r e p short_gid h
run-unchanged (reuid r e) p short_gid h = setreuid-unchanged r e p h
run-unchanged (gid g) p short_gid h = setregid-unchanged g g p short_gid h
run-unchanged (uid u) p short_gid h = setreuid-unchanged u u p h
