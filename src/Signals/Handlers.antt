-- ===== src/Signals/Handlers.antt =====
-- kernel/signal.c: which handlers the calls can set.
use my_practice.Base.{
  ℕ, ◌-◌, ◌^◌, ◌≡◌, ◌≢◌, refl, ap, ◌∙◌, inl, inr, true, false, Option, none, ◌==◌, update_ne,
  Bool-cases, if_true, if_false, arith, List, [], ◌∷◌,
}
use my_practice.Signals.{
  Sigaction, Signals, signal, sigaction, may_handle, kill_signal, child_signal, Regs, Stack,
  ignored, exits, do_signal,
}

-- A call of `sys_signal` or `sys_sigaction`
pub data Call : Type 0 where
  sets : (signum handler restorer : ℕ) → Call
  acts : (signum : ℕ) → Sigaction → Call

pub run : Call → Signals → Signals
run (sets signum handler restorer) s = (signal signum handler restorer s).1
run (acts signum new) s = (sigaction signum new s).1

pub run_all : List Call → Signals → Signals
run_all [] s = s
run_all (c ∷ cs) s = run_all cs (run c s)

may_not : (signum k : ℕ) → may_handle signum ≡ true → (k ≡ 8) → signum - 1 ≢ k
may_not signum k h e q = ground arith

run-kill : (c : Call) (s : Signals) → (run c s).action 8 ≡ s.action 8
unfolding run signal sigaction
run-kill (sets signum handler restorer) s = elim (Bool-cases (may_handle signum)) [
  | inl e ↦
      ap (λ (x : Option ℕ × Signals). x.1.action 8) (if_true _ (none, s) e)
      ∙ update_ne s.action (signum - 1) _ 8 (may_not signum 8 e refl)
  | inr e ↦ ap (λ (x : Option ℕ × Signals). x.1.action 8) (if_false _ (none, s) e)
]
run-kill (acts signum new) s = elim (Bool-cases (may_handle signum)) [
  | inl e ↦
      ap (λ (x : Option Sigaction × Signals). x.1.action 8) (if_true _ (none, s) e)
      ∙ update_ne s.action (signum - 1) _ 8 (may_not signum 8 e refl)
  | inr e ↦ ap (λ (x : Option Sigaction × Signals). x.1.action 8) (if_false _ (none, s) e)
]

pub run_all-kill : (cs : List Call) (s : Signals) → (run_all cs s).action 8 ≡ s.action 8
unfolding run_all
run_all-kill [] s = refl
run_all-kill (c ∷ cs) s = run_all-kill cs (run c s) ∙ run-kill c s

default_ends :
    (signr : ℕ) (r : Regs) (m : Stack) (s : Signals)
    → (s.action (signr - 1)).handler ≡ 0
    → signr ≢ child_signal
    → do_signal signr r m s ≡ exits (2 ^ (signr - 1))
unfolding do_signal
default_ends signr r m s z ne =
    let h1 : ((s.action (signr - 1)).handler == 1) ≡ false = ground arith in
    let h0 : ((s.action (signr - 1)).handler == 0) ≡ true = ground arith in
    let hc : (signr == child_signal) ≡ false = ground arith in
    if_false ignored _ h1 ∙ if_true _ _ h0 ∙ if_false ignored _ hc

-- A task whose action for SIGKILL is the default ends by SIGKILL after any calls of `sys_signal` and
-- `sys_sigaction`.
pub run_all-kill_ends :
    (cs : List Call) (r : Regs) (m : Stack) (s : Signals)
    → (s.action 8).handler ≡ 0
    → do_signal kill_signal r m (run_all cs s) ≡ exits 256
run_all-kill_ends cs r m s z =
    default_ends kill_signal r m (run_all cs s)
      (ap (λ (sa : Sigaction). sa.handler) (run_all-kill cs s) ∙ z) (λ e. absurd (omega arith))
