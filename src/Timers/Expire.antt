-- ===== src/Timers/Expire.antt =====
-- kernel/sched.c: the loop of `do_timer` calls the functions of the timers at the front of the list
-- that have run down.
use my_practice.Base.{
  ℕ, zero, suc, ◌-◌, ◌<◌, ◌≡◌, refl, sym, ap, ◌∙◌, inl, inr, true, false, Option, none, some, ◌==◌,
  if◌then◌else◌, arith, List, [], ◌∷◌, length, Bool-cases, update, update_ne, update_self, if_true,
  if_false,
}
use mathlib.Core.Path.{subst}
use my_practice.Timers.{Timers, time_requests, fire, front, expire, tick}
use my_practice.Timers.Sift.{Entry, Linked, Absent, Distinct, timer_at, view}
use my_practice.Timers.Due.{Listed, IsList}

-- The functions of the entries at the front that are due
abbrev pub called_now : List Entry → List ℕ
called_now [] = []
called_now ((j, f) ∷ es) = let rest = called_now es in if j == 0 then fire f rest else []

-- What is left of the list
abbrev pub left_over : List Entry → List Entry
left_over [] = []
left_over ((j, f) ∷ es) = let rest = left_over es in if j == 0 then rest else (j, f) ∷ es

-- `do_timer` takes one tick from the first delay.
abbrev pub count_down : List Entry → List Entry
count_down [] = []
count_down ((j, f) ∷ es) = (j - 1, f) ∷ es

abbrev pub entries : Timers → List ℕ → List Entry
entries = view

-- The functions that the loop calls, and a list of entries that the timers then hold
pub record Expired (es : List Entry) (r : List ℕ × Timers) : Type 0 where
  pub called : r.0 ≡ called_now es
  pub rest : List ℕ
  pub listed : Listed r.1 rest
  pub view : entries r.1 rest ≡ left_over es

abbrev drop_first : (p : ℕ) → Timers → Timers
drop_first p t = record t { fn = update t.fn p none; next_timer = t.next p }

expire_end : (fuel : ℕ) (t : Timers) → t.next_timer ≡ none → expire (suc fuel) t ≡ ([], t)
unfolding expire
expire_end fuel t e =
    ap
      (λ (o : Option ℕ). elim o as (λ x. List ℕ × Timers) [
        | none ↦ ([], t)
        | some p ↦ front p (expire fuel (drop_first p t)) t
      ])
      e

expire_first :
    (fuel p : ℕ) (t : Timers)
    → t.next_timer ≡ some p
    → expire (suc fuel) t ≡ front p (expire fuel (drop_first p t)) t
unfolding expire
expire_first fuel p t e =
    ap
      (λ (o : Option ℕ). elim o as (λ x. List ℕ × Timers) [
        | none ↦ ([], t)
        | some p ↦ front p (expire fuel (drop_first p t)) t
      ])
      e

view-drop_first :
    (p : ℕ) (ps : List ℕ) (t : Timers) → Absent p ps → view (drop_first p t) ps ≡ view t ps
view-drop_first p [] t a = refl
view-drop_first p (q ∷ qs) t (n, a) =
    ap (λ (o : Option ℕ). (t.jiffies q, o) ∷ view (drop_first p t) qs)
      (update_ne t.fn p none q (λ e. n (sym e)))
    ∙ ap (λ l. timer_at t q ∷ l) (view-drop_first p qs t a)

Listed-drop_first :
    (p : ℕ) (ps : List ℕ) (t : Timers) → Linked t.next p ps → Listed (drop_first p t) ps
Listed-drop_first p [] t l = l
Listed-drop_first p (q ∷ qs) t l = l

expire_stop :
    (fuel p : ℕ) (ps : List ℕ) (t : Timers)
    → Listed t (p ∷ ps)
    → (t.jiffies p == 0) ≡ false
    → Expired (view t (p ∷ ps)) (expire (suc fuel) t)
expire_stop fuel p ps t l z =
    let e : expire (suc fuel) t ≡ ([], t) = expire_first fuel p t l.0 ∙ if_false _ _ z in
    subst (Expired (view t (p ∷ ps))) (sym e) (record {
      called = sym (if_false (fire (t.fn p) (called_now (view t ps))) [] z);
      rest = p ∷ ps;
      listed = l;
      view = sym (if_false (left_over (view t ps)) (view t (p ∷ ps)) z);
    })

expire_step :
    (fuel p : ℕ) (ps : List ℕ) (t : Timers)
    → t.next_timer ≡ some p
    → (t.jiffies p == 0) ≡ true
    → Expired (view t ps) (expire fuel (drop_first p t))
    → Expired (view t (p ∷ ps)) (expire (suc fuel) t)
expire_step fuel p ps t l z h =
    let r : List ℕ × Timers = expire fuel (drop_first p t) in
    let e : expire (suc fuel) t ≡ (fire (t.fn p) r.0, r.1) =
      expire_first fuel p t l ∙ if_true _ _ z in
    subst (Expired (view t (p ∷ ps))) (sym e) (record {
      called =
          ap (fire (t.fn p)) h.called ∙ sym (if_true (fire (t.fn p) (called_now (view t ps))) [] z);
      rest = h.rest;
      listed = h.listed;
      view = h.view ∙ sym (if_true (left_over (view t ps)) (view t (p ∷ ps)) z);
    })

expire-Expired :
    (fuel : ℕ) (ps : List ℕ) (t : Timers)
    → Listed t ps
    → Distinct ps
    → length ps < fuel
    → Expired (view t ps) (expire fuel t)
expire-Expired zero ps t l d h = elim h [ ]
expire-Expired (suc fuel) [] t l d h =
    subst (Expired []) (sym (expire_end fuel t l))
      (record { called = refl; rest = []; listed = l; view = refl })
expire-Expired (suc fuel) (p ∷ ps) t (l, ls) (a, d) h = elim (Bool-cases (t.jiffies p == 0)) [
  | inr z ↦ expire_stop fuel p ps t (l, ls) z
  | inl z ↦ expire_step fuel p ps t l z (
      subst (λ es. Expired es (expire fuel (drop_first p t))) (view-drop_first p ps t a)
        (expire-Expired fuel ps (drop_first p t) (Listed-drop_first p ps t ls) d (omega arith)))
]

abbrev one_tick : (p : ℕ) → Timers → Timers
one_tick p t = record t { jiffies = update t.jiffies p (t.jiffies p - 1) }

view-one_tick_rest :
    (p : ℕ) (ps : List ℕ) (t : Timers) → Absent p ps → view (one_tick p t) ps ≡ view t ps
view-one_tick_rest p [] t a = refl
view-one_tick_rest p (q ∷ qs) t (n, a) =
    ap (λ k. (k, t.fn q) ∷ view (one_tick p t) qs)
      (update_ne t.jiffies p (t.jiffies p - 1) q (λ e. n (sym e)))
    ∙ ap (λ l. timer_at t q ∷ l) (view-one_tick_rest p qs t a)

view-one_tick :
    (p : ℕ) (ps : List ℕ) (t : Timers)
    → Absent p ps
    → view (one_tick p t) (p ∷ ps) ≡ count_down (view t (p ∷ ps))
view-one_tick p ps t a =
    ap (λ k. (k, t.fn p) ∷ view (one_tick p t) ps) (update_self t.jiffies p (t.jiffies p - 1))
    ∙ ap (λ l. (t.jiffies p - 1, t.fn p) ∷ l) (view-one_tick_rest p ps t a)

tick-none : (t : Timers) → t.next_timer ≡ none → tick t ≡ ([], t)
unfolding tick
tick-none t e =
    ap
      (λ (o : Option ℕ). elim o as (λ x. List ℕ × Timers) [
        | none ↦ ([], t)
        | some p ↦ expire time_requests (one_tick p t)
      ])
      e

tick-some :
    (p : ℕ) (t : Timers) → t.next_timer ≡ some p → tick t ≡ expire time_requests (one_tick p t)
unfolding tick
tick-some p t e =
    ap
      (λ (o : Option ℕ). elim o as (λ x. List ℕ × Timers) [
        | none ↦ ([], t)
        | some p ↦ expire time_requests (one_tick p t)
      ])
      e

-- On a list of distinct entries in use, fewer than there are, `do_timer` takes one tick from the
-- first delay, calls the functions of the timers at the front whose delay is then 0, in order, and
-- leaves a list of those from the first other one on.
pub tick-Expired :
    (ps : List ℕ) (t : Timers) → IsList t ps → Expired (count_down (view t ps)) (tick t)
tick-Expired [] t h =
    subst (Expired []) (sym (tick-none t h.listed))
      (record { called = refl; rest = []; listed = h.listed; view = refl })
tick-Expired (p ∷ ps) t h =
    let l : (t.next_timer ≡ some p) × Linked t.next p ps = h.listed in
    let d : Absent p ps × Distinct ps = h.distinct in
    subst (Expired (count_down (view t (p ∷ ps)))) (sym (tick-some p t l.0)) (
      subst (λ es. Expired es (expire time_requests (one_tick p t))) (view-one_tick p ps t d.0)
        (expire-Expired time_requests (p ∷ ps) (one_tick p t) l d h.bound))
