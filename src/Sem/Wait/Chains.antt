-- ===== src/Sem/Wait/Chains.antt =====
-- The chains of sleeping tasks that `sleep_on` of kernel/sched.c builds, and what wakes them.
use native.Mathlib.Decide.{ℕ_discrete}
use mathlib.Core.Path.{subst, subst₂}
use my_practice.Base.{
  ℕ, ◌≡◌, sym, ap, ◌∙◌, ◌≢◌, ◌⊎◌, inl, inr, true, false, Option, none, some, arith, update_ne,
  update_self, Bool-cases,
}
use mathlib.Core.Bool.{false≢true}
use my_practice.Sem.{StructSem}
use my_practice.Sem.Wait.{System, sleep_on, leave_sleep}

-- `q` runs, or a task that runs, or will run, wakes it at the end of its `sleep_on`.
pub data Woken (s : System) : ℕ → Type 0 where
  awake : {q : ℕ} → s.running q ≡ true → Woken s q
  after : {q : ℕ} (p k : ℕ) → s.stack p ≡ some (k, some q) → Woken s p → Woken s q

-- `q` is on the chain that begins at the wait pointer of entry `k`.
pub data Waits (s : System) (k : ℕ) : ℕ → Type 0 where
  first : {q : ℕ} → (s.table k).wait ≡ some q → Waits s k q
  behind : {q : ℕ} (p : ℕ) → s.stack p ≡ some (k, some q) → Waits s k p → Waits s k q

-- A task sleeps on a semaphore only while its value is 0, and on a chain that something wakes.
pub record Inv (s : System) : Type 0 where
  pub head_zero : (k q : ℕ) → (s.table k).wait ≡ some q → (s.table k).value ≡ 0
  pub chained :
      (q k : ℕ) (tmp : Option ℕ)
      → s.stack q ≡ some (k, tmp)
      → s.running q ≡ false
      → Waits s k q ⊎ Woken s q

-- The end of `sleep_on` for a task `p` that runs again.
module _ (s : System) (p k : ℕ) (tmp : Option ℕ) (own : s.stack p ≡ some (k, tmp)) where
  abbrev left_system : System
  left_system = leave_sleep p tmp s

  leave_running : (q : ℕ) → s.running q ≡ true → left_system.running q ≡ true
  unfolding leave_sleep
  leave_running q h = ground arith

  leave_running_false : (q : ℕ) → left_system.running q ≡ false → s.running q ≡ false
  unfolding leave_sleep
  leave_running_false q h = ground arith

  leave_woken_tmp : (q j : ℕ) → s.stack p ≡ some (j, some q) → left_system.running q ≡ true
  unfolding leave_sleep
  leave_woken_tmp q j h = ground arith

  leave_stack : (q : ℕ) → p ≢ q → left_system.stack q ≡ s.stack q
  unfolding leave_sleep
  leave_stack q ne = update_ne s.stack p none q ne

  leave_stack_some :
      (q j : ℕ) (t : Option ℕ) → left_system.stack q ≡ some (j, t) → s.stack q ≡ some (j, t)
  unfolding leave_sleep
  leave_stack_some q j t h = ground arith

  leave-Woken : {q : ℕ} → Woken s q → Woken left_system q
  leave-Woken (awake {q} h) = awake (leave_running q h)
  leave-Woken (after {q} p' j e w) = elim (ℕ_discrete p p') [
    | yes same ↦ awake (leave_woken_tmp q j (ap s.stack same ∙ e))
    | no ne ↦ after p' j (leave_stack p' ne ∙ e) (leave-Woken w)
  ]

  leave-Waits : {i q : ℕ} → Waits s i q → Waits left_system i q ⊎ Woken left_system q
  unfolding leave_sleep
  leave-Waits (first h) = inl (first h)
  leave-Waits {i} (behind {q} p' e w) = elim (ℕ_discrete p p') [
    | yes same ↦ inr (awake (leave_woken_tmp q i (ap s.stack same ∙ e)))
    | no ne ↦ elim (leave-Waits w) [
      | inl l ↦ inl (behind p' (leave_stack p' ne ∙ e) l)
      | inr l ↦ inr (after p' i (leave_stack p' ne ∙ e) l)
    ]
  ]

  pub leave_sleep-Inv : Inv s → Inv left_system
  leave_sleep-Inv inv = record {
    head_zero = leave_head inv;
    chained = λ q j t e off.
        elim (inv.chained q j t (leave_stack_some q j t e) (leave_running_false q off)) [
          | inl w ↦ leave-Waits w
          | inr w ↦ inr (leave-Woken w)
        ];
  }
    where
      leave_head :
          Inv s → (k q : ℕ) → (left_system.table k).wait ≡ some q → (left_system.table k).value ≡ 0
      leave_head inv k q h = unfold leave_sleep in inv.head_zero k q (unfold leave_sleep in h)

fst_eq :
    {a b : ℕ} {x y : Option ℕ} → ◌≡◌ {A = Option (ℕ × Option ℕ)} (some (a, x)) (some (b, y)) → a ≡ b
fst_eq e = ground arith

-- A task `p` that does not sleep goes to sleep on entry `k`, whose value is 0.
module _ (s : System) (p k : ℕ) (out : s.stack p ≡ none) (zero_value : (s.table k).value ≡ 0) where
  abbrev slept_on : System
  slept_on = sleep_on p k s

  not_p : (q j : ℕ) (t : Option ℕ) → s.stack q ≡ some (j, t) → p ≢ q
  not_p q j t e same = let h : s.stack q ≡ none = ap s.stack (sym same) ∙ out in cc

  sleep_stack : (q j : ℕ) (t : Option ℕ) → s.stack q ≡ some (j, t) → slept_on.stack q ≡ some (j, t)
  unfolding sleep_on
  sleep_stack q j t e = update_ne s.stack p _ q (not_p q j t e) ∙ e

  sleep_running : (q : ℕ) → p ≢ q → slept_on.running q ≡ s.running q
  unfolding sleep_on
  sleep_running q ne = update_ne s.running p false q ne

  sleep_stack_other : (q : ℕ) → p ≢ q → slept_on.stack q ≡ s.stack q
  unfolding sleep_on
  sleep_stack_other q ne = update_ne s.stack p _ q ne

  sleep_stack_self : slept_on.stack p ≡ some (k, (s.table k).wait)
  unfolding sleep_on
  sleep_stack_self = update_self s.stack p _

  sleep_wait_self : (slept_on.table k).wait ≡ some p
  unfolding sleep_on
  sleep_wait_self = ground arith

  sleep_wait_other : (j : ℕ) → k ≢ j → slept_on.table j ≡ s.table j
  unfolding sleep_on
  sleep_wait_other j ne = update_ne s.table k _ j ne

  sleep_value : (j : ℕ) → (slept_on.table j).value ≡ (s.table j).value
  unfolding sleep_on
  sleep_value j = ground arith

  sleep-Woken : {q : ℕ} → p ≢ q → Woken s q → Woken slept_on q
  sleep-Woken ne (awake {q} h) = awake (sleep_running q ne ∙ h)
  sleep-Woken ne (after {q} p' j e w) =
      after p' j (sleep_stack p' j (some q) e) (sleep-Woken (not_p p' j (some q) e) w)

  sleep-Waits : {i q : ℕ} → Waits s i q → Waits slept_on i q
  sleep-Waits {i} (first {q} h) = elim (ℕ_discrete k i) [
    | yes same ↦
        subst (λ x. Waits slept_on x q) same
          (behind p (sleep_stack_self ∙ ap (λ w. some (k, w)) (ap (λ x. (s.table x).wait) same ∙ h))
            (first sleep_wait_self))
    | no ne ↦ first (ap (λ (x : StructSem). x.wait) (sleep_wait_other i ne) ∙ h)
  ]
  sleep-Waits {i} (behind {q} p' e w) = behind p' (sleep_stack p' i (some q) e) (sleep-Waits w)

  own_wait : (q j : ℕ) (t : Option ℕ) → p ≡ q → slept_on.stack q ≡ some (j, t) → Waits slept_on j q
  own_wait q j t same e =
      subst₂ (Waits slept_on) (fst_eq (sym sleep_stack_self ∙ ap slept_on.stack same ∙ e)) same
        (first sleep_wait_self)

  pub sleep_on-Inv : Inv s → Inv slept_on
  sleep_on-Inv inv = record {
    head_zero = λ j q h. elim (ℕ_discrete k j) [
      | yes same ↦ sleep_value j ∙ ap (λ x. (s.table x).value) (sym same) ∙ zero_value
      | no ne ↦
          sleep_value j
          ∙ inv.head_zero j q (sym (ap (λ (x : StructSem). x.wait) (sleep_wait_other j ne)) ∙ h)
    ];
    chained = λ q j t e off. elim (ℕ_discrete p q) [
      | yes same ↦ inl (own_wait q j t same e)
      | no ne ↦
          elim (inv.chained q j t (sym (sleep_stack_other q ne) ∙ e)
            (sym (sleep_running q ne) ∙ off)) [
              | inl w ↦ inl (sleep-Waits w)
              | inr w ↦ inr (sleep-Woken ne w)
            ]
    ];
  }

-- A change that puts no task to sleep, keeps the stacks, and takes a task off a wait pointer only to
-- wake it.
module _ (s s' : System) (on : (q : ℕ) → s.running q ≡ true → s'.running q ≡ true)
    (stacks : (q : ℕ) → s'.stack q ≡ s.stack q)
    (heads : (i q : ℕ)
      → (s.table i).wait ≡ some q
      → ((s'.table i).wait ≡ some q) ⊎ (s'.running q ≡ true)) where
  kept-Woken : {q : ℕ} → Woken s q → Woken s' q
  kept-Woken (awake {q} h) = awake (on q h)
  kept-Woken (after p j e w) = after p j (stacks p ∙ e) (kept-Woken w)

  kept-Waits : {i q : ℕ} → Waits s i q → Waits s' i q ⊎ Woken s' q
  kept-Waits {i} (first {q} h) = elim (heads i q h) [
    | inl l ↦ inl (first l)
    | inr r ↦ inr (awake r)
  ]
  kept-Waits {i} (behind p e w) = elim (kept-Waits w) [
    | inl l ↦ inl (behind p (stacks p ∙ e) l)
    | inr l ↦ inr (after p i (stacks p ∙ e) l)
  ]

  was_off : (q : ℕ) → s'.running q ≡ false → s.running q ≡ false
  was_off q off = elim (Bool-cases (s.running q)) [
    | inl h ↦ absurd (false≢true (sym off ∙ on q h))
    | inr h ↦ h
  ]

  pub kept-Inv : ((i q : ℕ) → (s'.table i).wait ≡ some q → (s'.table i).value ≡ 0) → Inv s → Inv s'
  kept-Inv zeros inv = record {
    head_zero = zeros;
    chained = λ q k t e off. elim (inv.chained q k t (sym (stacks q) ∙ e) (was_off q off)) [
      | inl w ↦ kept-Waits w
      | inr w ↦ inr (kept-Woken w)
    ];
  }
