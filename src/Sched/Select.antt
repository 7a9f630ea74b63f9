-- ===== src/Sched/Select.antt =====
-- kernel/sched.c: `schedule` runs a task with the greatest counter, and its loop ends.
use native.Mathlib.Decide.{ℕ_discrete}
use mathlib.Core.Path.{subst}
use mathlib.Core.Bool.{false≢true}
use my_practice.Base.{
  ℕ, zero, suc, ◌≤◌, ◌<◌, ◌^◌, ◌≡◌, refl, sym, ap, ◌∙◌, ◌⊎◌, inl, inr, Bool, true, false, Option,
  none, some, arith, Bool-cases,
}
use my_practice.Sched.{Task, Tasks, is_running, leads, counter_of, select}

-- Task `i` exists and can run.
abbrev pub runnable : Option Task → Bool
runnable none = false
runnable (some t) = is_running t.state

-- `a` is at most `c`, where no value is below every number.
abbrev pub AtMost : ℕ → Option ℕ → Type 0
AtMost a none = ⊥
AtMost a (some c) = a ≤ c

-- Where the result of a search comes from.
abbrev pub From : Tasks → ℕ → Option ℕ × ℕ → Option ℕ × ℕ → Type 0
From ts n start r =
    (r ≡ start)
    ⊎ ((1 ≤ r.1) × (r.1 ≤ n) × (runnable (ts r.1) ≡ true) × (r.0 ≡ some (counter_of (ts r.1))))

-- The result `r` of a search over the tasks from 1 to `n` that began with `c` and `next`.
pub record Selected (ts : Tasks) (n : ℕ) (c : Option ℕ) (next : ℕ) (r : Option ℕ × ℕ) : Type 0 where
  pub grows : (a : ℕ) → AtMost a c → AtMost a r.0
  pub upper :
      (j : ℕ)
      → 1 ≤ j
      → j ≤ n
      → runnable (ts j) ≡ true
      → counter_of (ts j) < 2 ^ 31
      → AtMost (counter_of (ts j)) r.0
  pub from : From ts n (c, next) r

AtMost-leads :
    (o : Option Task) (c : Option ℕ)
    → leads o c ≡ true
    → (runnable o ≡ true) × ((a : ℕ) → AtMost a c → a ≤ counter_of o)
AtMost-leads none c h = cc
AtMost-leads (some t) none h = (ground arith, λ a b. elim b [ ])
AtMost-leads (some t) (some c) h = (ground arith, λ a b. ground arith)

AtMost-not_leads :
    (o : Option Task) (c : Option ℕ)
    → leads o c ≡ false
    → runnable o ≡ true
    → counter_of o < 2 ^ 31
    → AtMost (counter_of o) c
AtMost-not_leads none c h run small = cc
AtMost-not_leads (some t) none h run small = absurd (false≢true (sym h ∙ ground arith))
AtMost-not_leads (some t) (some c) h run small = ground arith

lead-From :
    (ts : Tasks) (n : ℕ) (r : Option ℕ × ℕ)
    → runnable (ts (suc n)) ≡ true
    → From ts n (some (counter_of (ts (suc n))), suc n) r
    → (1 ≤ r.1) × (r.1 ≤ suc n) × (runnable (ts r.1) ≡ true) × (r.0 ≡ some (counter_of (ts r.1)))
lead-From ts n r run (inl e) =
    let at : r.1 ≡ suc n = ap (λ (x : Option ℕ × ℕ). x.1) e in
    let top : r.0 ≡ some (counter_of (ts (suc n))) = ap (λ (x : Option ℕ × ℕ). x.0) e in
    (
      omega arith,
      omega arith,
      subst (λ k. runnable (ts k) ≡ true) (sym at) run,
      top ∙ ap (λ k. some (counter_of (ts k))) (sym at),
    )
lead-From ts n r run (inr (lo, hi, run', e)) = (lo, omega arith, run', e)

stay-From :
    (ts : Tasks) (n : ℕ) (start r : Option ℕ × ℕ) → From ts n start r → From ts (suc n) start r
stay-From ts n start r (inl e) = inl e
stay-From ts n start r (inr (lo, hi, run, e)) = inr (lo, omega arith, run, e)

pub select-Selected :
    (n : ℕ) (c : Option ℕ) (next : ℕ) (ts : Tasks) → Selected ts n c next (select n c next ts)
unfolding select
select-Selected zero c next ts = record {
  grows = λ a h. h;
  upper = λ j lo hi. absurd (omega arith);
  from = inl refl;
}
select-Selected (suc n) c next ts = elim (Bool-cases (leads (ts (suc n)) c)) [
  | inl lead ↦
      let (run, over) = AtMost-leads (ts (suc n)) c lead in
      let rest = select-Selected n (some (counter_of (ts (suc n)))) (suc n) ts in
      rw lead (record {
        grows = λ a h. rest.grows a (over a h);
        upper = λ j lo hi r small. elim (ℕ_discrete j (suc n)) [
          | yes e ↦
              subst
                (λ k.
                  AtMost (counter_of (ts k))
                    (select n (some (counter_of (ts (suc n)))) (suc n) ts).0)
                (sym e) (rest.grows _ le_self)
          | no ne ↦ rest.upper j lo (omega arith) r small
        ];
        from = inr (lead-From ts n _ run rest.from);
      })
  | inr stay ↦
      let rest = select-Selected n c next ts in
      rw stay (record {
        grows = rest.grows;
        upper = λ j lo hi r small. elim (ℕ_discrete j (suc n)) [
          | yes e ↦
              subst (λ k. AtMost (counter_of (ts k)) (select n c next ts).0) (sym e)
                (rest.grows _ (
                  AtMost-not_leads (ts (suc n)) c stay (subst (λ k. runnable (ts k) ≡ true) e r)
                    (subst (λ k. counter_of (ts k) < 2 ^ 31) e small)))
          | no ne ↦ rest.upper j lo (omega arith) r small
        ];
        from = stay-From ts n _ _ rest.from;
      })
]
  where
    le_self : counter_of (ts (suc n)) ≤ counter_of (ts (suc n))
    le_self = omega arith
