-- ===== src/Sem/Wait/Steps.antt =====
-- kernel/sem.c: no step of `sys_sem_wait` or `sys_sem_post` loses a wakeup.
use native.Mathlib.Decide.{ℕ_discrete}
use my_practice.Base.{
  ℕ, ◌+◌, ◌%◌, ◌^◌, ◌≡◌, refl, sym, ap, ◌∙◌, ◌≢◌, ◌⊎◌, inl, inr, Bool, true, false, Option, none,
  some, arith, ◌==◌, ltb, if◌then◌else◌, update_self, Bool-cases,
}
use my_practice.Base.Int.{ℤ, pos, negsuc}
use my_practice.Lamport.{Lamport, lock}
use my_practice.Sem.{sem_num}
use my_practice.Sem.Wait.{
  System, Outcome, returned, asleep, with_lock, release, wake_task, leave_sleep, wake_up, take_one,
  give_one, find_sem, wait_loop, sem_wait, sem_wait_resume, sem_post, Leaves, gave, slept, Step,
  wait, resume, post, Reach, here, next,
}
use my_practice.Sem.Wait.Chains.{
  Woken, Waits, first, behind, Inv, leave_sleep-Inv, sleep_on-Inv, kept-Inv,
}

-- The lock's table plays no part in the invariant.
lamport-Inv : (s : System) (l : Lamport) → Inv s → Inv (record s { lamport = l })
lamport-Inv s l inv =
    kept-Inv s (record s { lamport = l }) (λ q h. h) (λ q. refl) (λ i q h. inl h) inv.head_zero inv

take_one-Inv : (s : System) (k : ℕ) → (s.table k).value ≢ 0 → Inv s → Inv (take_one k s)
unfolding take_one
take_one-Inv s k nz inv =
    kept-Inv s (take_one k s) (λ q h. h) (λ q. refl) (λ i q h. inl (ground arith))
      (λ i q h. ground (arith, inv.head_zero i q)) inv

wake_task_on :
    (w : Option ℕ) (running : ℕ → Bool) (q : ℕ) → running q ≡ true → wake_task w running q ≡ true
wake_task_on none running q h = h
wake_task_on (some x) running q h = ground arith

wake_task_head :
    (w : Option ℕ) (running : ℕ → Bool) (q : ℕ) → w ≡ some q → wake_task w running q ≡ true
wake_task_head w running q h = rw h (update_self running q true)

-- What `sys_sem_post` leaves of entry `k` behind the search.
module _ (s : System) (p k : ℕ) where
  abbrev posted : System
  posted = wake_up k (release p (give_one k s))

  posted_running : posted.running ≡ wake_task (s.table k).wait s.running
  unfolding wake_up give_one
  posted_running = ap (λ w. wake_task w s.running) (ground arith)

  posted_wait : (i : ℕ) → (posted.table i).wait ≡ (if k == i then none else (s.table i).wait)
  unfolding wake_up give_one
  posted_wait i = ground arith

  posted_value :
      (i : ℕ)
      → (posted.table i).value
        ≡ (if k == i then ((s.table k).value + 1) % 2 ^ 32 else (s.table i).value)
  unfolding wake_up give_one
  posted_value i = ground arith

  posted_stack : (q : ℕ) → posted.stack q ≡ s.stack q
  unfolding wake_up give_one
  posted_stack q = refl

  posted_heads :
      (i q : ℕ)
      → (s.table i).wait ≡ some q
      → ((posted.table i).wait ≡ some q) ⊎ (posted.running q ≡ true)
  posted_heads i q h = elim (ℕ_discrete k i) [
    | yes e ↦ inr (
        ap (λ (f : ℕ → Bool). f q) posted_running
        ∙ wake_task_head (s.table k).wait s.running q (ap (λ x. (s.table x).wait) e ∙ h))
    | no ne ↦ inl (ground (arith, posted_wait i))
  ]

  post-Inv : Inv s → Inv posted
  post-Inv inv =
      kept-Inv s posted
        (λ q h.
          ap (λ (f : ℕ → Bool). f q) posted_running ∙ wake_task_on (s.table k).wait s.running q h)
        posted_stack posted_heads
        (λ i q h. ground (arith, posted_wait i, posted_value i, inv.head_zero i q)) inv

-- Whatever a call leaves to the others keeps the invariant.
abbrev Keeps : Outcome → Type 0
Keeps o = (s' : System) → Leaves o s' → Inv s'

returned-Keeps : (r : ℤ) (s : System) → Inv s → Keeps (returned r s)
returned-Keeps r s inv s' gave = inv

asleep-Keeps : (s : System) → Inv s → Keeps (asleep s)
asleep-Keeps s inv s' slept = inv

wait_loop-Keeps : (p k : ℕ) (s : System) → Inv s → s.stack p ≡ none → Keeps (wait_loop p k s)
unfolding wait_loop
wait_loop-Keeps p k s inv out = elim (ℕ_discrete (s.table k).value 0) [
  | yes z ↦
      let test : ((s.table k).value == 0) ≡ true = ground arith in
      elim (Bool-cases (p == 0)) [
        | inl idle ↦ rw (test, idle) (λ s' l. elim l [ ])
        | inr other ↦
            rw (test, other)
              (asleep-Keeps _ (sleep_on-Inv (release p s) p k out z (lamport-Inv s _ inv)))
      ]
  | no nz ↦
      let test : ((s.table k).value == 0) ≡ false = ground arith in
      rw test (returned-Keeps (pos 0) _ (lamport-Inv _ _ (take_one-Inv s k nz inv)))
]

with_lock-Keeps :
    (o : Option Lamport) (s : System) (f : System → Outcome)
    → ((l : Lamport) → Keeps (f (record s { lamport = l })))
    → Keeps (with_lock o s f)
with_lock-Keeps none s f h s' l = elim l [ ]
with_lock-Keeps (some l) s f h s' left = h l s' left

sem_wait-Keeps : (v p : ℕ) (s : System) → Inv s → s.stack p ≡ none → Keeps (sem_wait (some v) p s)
unfolding sem_wait
sem_wait-Keeps v p s inv out = elim (Bool-cases (ltb (find_sem sem_num 0 s.table v) sem_num)) [
  | inl there ↦ rw there (
      with_lock-Keeps (lock p s.lamport) s (wait_loop p (find_sem sem_num 0 s.table v))
        (λ l. wait_loop-Keeps p _ _ (lamport-Inv s l inv) out))
  | inr missing ↦ rw missing (returned-Keeps (negsuc 0) s inv)
]

sem_post-Keeps : (v p : ℕ) (s : System) → Inv s → Keeps (sem_post (some v) p s)
unfolding sem_post
sem_post-Keeps v p s inv = elim (Bool-cases (ltb (find_sem sem_num 0 s.table v) sem_num)) [
  | inl there ↦
      let k : ℕ = find_sem sem_num 0 s.table v in
      rw there (
        with_lock-Keeps (lock p s.lamport) s
          (λ s'. returned (pos 0) (wake_up k (release p (give_one k s'))))
          (λ l. returned-Keeps (pos 0) _ (post-Inv _ p k (lamport-Inv s l inv))))
  | inr missing ↦ rw missing (returned-Keeps (negsuc 0) s inv)
]

left_stack : (s : System) (p : ℕ) (tmp : Option ℕ) → (leave_sleep p tmp s).stack p ≡ none
unfolding leave_sleep
left_stack s p tmp = update_self s.stack p none

resume-Keeps :
    (p k : ℕ) (tmp : Option ℕ) (s : System)
    → Inv s
    → s.stack p ≡ some (k, tmp)
    → Keeps (sem_wait_resume p k tmp s)
unfolding sem_wait_resume
resume-Keeps p k tmp s inv own =
    with_lock-Keeps (lock p s.lamport) (leave_sleep p tmp s) (wait_loop p k) (λ x.
      wait_loop-Keeps p k _ (lamport-Inv _ x (leave_sleep-Inv s p k tmp own inv))
        (left_stack s p tmp))

null-Keeps : (p : ℕ) (s : System) → Inv s → Keeps (sem_wait none p s) × Keeps (sem_post none p s)
unfolding sem_wait sem_post
null-Keeps p s inv = (returned-Keeps (negsuc 0) s inv, returned-Keeps (negsuc 0) s inv)

-- Every step keeps the invariant.
Step-Inv : {s s' : System} → Step s s' → Inv s → Inv s'
Step-Inv {s} {s'} (wait p none on out l) inv = (null-Keeps p s inv).0 s' l
Step-Inv {s} {s'} (wait p (some v) on out l) inv = sem_wait-Keeps v p s inv out s' l
Step-Inv {s} {s'} (resume p k tmp on own l) inv = resume-Keeps p k tmp s inv own s' l
Step-Inv {s} {s'} (post p none on out l) inv = (null-Keeps p s inv).1 s' l
Step-Inv {s} {s'} (post p (some v) on out l) inv = sem_post-Keeps v p s inv s' l

Reach-Inv : {s t : System} → Inv s → Reach s t → Inv t
Reach-Inv inv here = inv
Reach-Inv inv (next r st) = Step-Inv st (Reach-Inv inv r)

-- No task stands in `sleep_on`, and no wait pointer is set.
pub record IsIdle (s : System) : Type 0 where
  pub no_head : (k : ℕ) → (s.table k).wait ≡ none
  pub no_stack : (q : ℕ) → s.stack q ≡ none

idle-Inv : {s : System} → IsIdle s → Inv s
idle-Inv idle = record {
  head_zero = λ k q h. absurd (none_or_some (sym (idle.no_head k) ∙ h));
  chained = λ q k t h off. absurd (none_or_some (sym (idle.no_stack q) ∙ h));
}
  where
    none_or_some : {A : Type 0} {a : A} → none ≡ some a → ⊥
    none_or_some e = cc

chain_head : {s : System} {k q : ℕ} → Waits s k q → (h : ℕ) × ((s.table k).wait ≡ some h)
chain_head (first {q} h) = (q, h)
chain_head (behind p e w) = chain_head w

-- No wakeup is lost: in every system that steps of `sys_sem_wait` and `sys_sem_post` lead to from
-- one where no task sleeps, a task that sleeps on a semaphore whose value is not 0 is one that a
-- running task wakes, at the end of its own `sleep_on` or by a chain of tasks woken so.
pub no_lost_wakeup :
    {s t : System}
    → IsIdle s
    → Reach s t
    → (q k : ℕ) (tmp : Option ℕ) → t.stack q ≡ some (k, tmp)
    → t.running q ≡ false
    → (t.table k).value ≢ 0
    → Woken t q
no_lost_wakeup idle r q k tmp e off some_value =
    let inv = Reach-Inv (idle-Inv idle) r in
    elim (inv.chained q k tmp e off) [
      | inl w ↦ absurd (some_value (inv.head_zero k (chain_head w).0 (chain_head w).1))
      | inr w ↦ w
    ]
