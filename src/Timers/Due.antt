-- ===== src/Timers/Due.antt =====
-- kernel/sched.c: the list that `add_timer` leaves.
use my_practice.Base.{
  ℕ, zero, suc, ◌+◌, ◌<◌, ◌≡◌, refl, sym, ap, ◌∙◌, ◌≢◌, inl, inr, false, Option, none, some, ltb,
  ◌==◌, update, update_self, update_ne, arith, List, [], ◌∷◌, length, Bool-cases, Option-cases,
}
use mathlib.Core.Path.{subst}
use my_practice.Timers.{Timers, added, time_requests, free_entry, push, sift, swap, add_timer}
use my_practice.Timers.Sift.{
  Entry, Linked, Absent, Distinct, timer_at, view, insert, insert_cong, sift_step, sift_stop,
  sift_end, sift-insert,
}

-- The entries of the list, from `next_timer` on
abbrev pub Listed : Timers → List ℕ → Type 0
Listed t [] = t.next_timer ≡ none
Listed t (q ∷ qs) = (t.next_timer ≡ some q) × Linked t.next q qs

abbrev pub InUse : (ℕ → Option ℕ) → List ℕ → Type 0
InUse fn [] = Unit {0}
InUse fn (p ∷ ps) = (fn p ≢ none) × InUse fn ps

pub record IsList (t : Timers) (ps : List ℕ) : Type 0 where
  pub listed : Listed t ps
  pub distinct : Distinct ps
  pub in_use : InUse t.fn ps
  pub bound : length ps < time_requests

free_here : (n p : ℕ) (fn : ℕ → Option ℕ) → fn p ≡ none → free_entry (suc n) p fn ≡ some p
unfolding free_entry
free_here n p fn e = rw (e, free_entry) refl

free_next :
    (n p f : ℕ) (fn : ℕ → Option ℕ)
    → fn p ≡ some f
    → free_entry (suc n) p fn ≡ free_entry n (p + 1) fn
unfolding free_entry
free_next n p f fn e = rw (e, free_entry) refl

free_entry-none : (n p x : ℕ) (fn : ℕ → Option ℕ) → free_entry n p fn ≡ some x → fn x ≡ none
unfolding free_entry
free_entry-none zero p x fn h = cc
free_entry-none (suc n) p x fn h = elim (Option-cases (fn p)) [
  | inl e ↦
      let k : some p ≡ some x = sym (free_here n p fn e) ∙ h in
      let k' : p ≡ x = cc in ap fn (sym k') ∙ e
  | inr (f, e) ↦ free_entry-none n (p + 1) x fn (sym (free_next n p f fn e) ∙ h)
]

absent : (p : ℕ) (ps : List ℕ) (fn : ℕ → Option ℕ) → fn p ≡ none → InUse fn ps → Absent p ps
absent p [] fn e u = tt
absent p (q ∷ qs) fn e (n, u) = (λ k. n (ap fn k ∙ e), absent p qs fn e u)

Linked-update :
    (p q : ℕ) (qs : List ℕ) (next : ℕ → Option ℕ) (s : Option ℕ)
    → q ≢ p
    → Absent p qs
    → Linked next q qs
    → Linked (update next p s) q qs
Linked-update p q [] next s n a l = update_ne next p s q (λ e. n (sym e)) ∙ l
Linked-update p q (r ∷ rs) next s n (nr, a) (l, ls) =
    (update_ne next p s q (λ e. n (sym e)) ∙ l, Linked-update p r rs next s nr a ls)

sift-next : (fuel p : ℕ) (t : Timers) → (sift fuel p t).next ≡ t.next
unfolding sift
sift-next zero p t = refl
sift-next (suc fuel) p t = elim (Option-cases (t.next p)) [
  | inl e ↦ ap (λ (u : Timers). u.next) (sift_end fuel p t e)
  | inr (q, e) ↦ elim (Bool-cases (ltb (t.jiffies q) (t.jiffies p))) [
    | inl h ↦ ap (λ (u : Timers). u.next) (sift_step fuel p q t e h) ∙ sift-next fuel q (swap p q t)
    | inr h ↦ ap (λ (u : Timers). u.next) (sift_stop fuel p q t e h)
  ]
]

sift-next_timer : (fuel p : ℕ) (t : Timers) → (sift fuel p t).next_timer ≡ t.next_timer
unfolding sift
sift-next_timer zero p t = refl
sift-next_timer (suc fuel) p t = elim (Option-cases (t.next p)) [
  | inl e ↦ ap (λ (u : Timers). u.next_timer) (sift_end fuel p t e)
  | inr (q, e) ↦ elim (Bool-cases (ltb (t.jiffies q) (t.jiffies p))) [
    | inl h ↦
        ap (λ (u : Timers). u.next_timer) (sift_step fuel p q t e h)
        ∙ sift-next_timer fuel q (swap p q t)
    | inr h ↦ ap (λ (u : Timers). u.next_timer) (sift_stop fuel p q t e h)
  ]
]

timer_at-push : (p j f x : ℕ) (t : Timers) → x ≢ p → timer_at (push p j f t) x ≡ timer_at t x
timer_at-push p j f x t n = ground arith

timer_at_first : (p j f : ℕ) (t : Timers) → timer_at (push p j f t) p ≡ (j, some f)
timer_at_first p j f t = ground arith

Linked-push :
    (p j f : ℕ) (ps : List ℕ) (t : Timers)
    → Absent p ps
    → Listed t ps
    → Linked (push p j f t).next p ps
Linked-push p j f [] t a l = update_self t.next p t.next_timer ∙ l
Linked-push p j f (q ∷ qs) t (n, a) (l, ls) =
    (update_self t.next p t.next_timer ∙ l, Linked-update p q qs t.next t.next_timer n a ls)

view-push :
    (p j f : ℕ) (ps : List ℕ) (t : Timers) → Absent p ps → view (push p j f t) ps ≡ view t ps
view-push p j f [] t a = refl
view-push p j f (q ∷ qs) t (n, a) =
    ap (λ (e : Entry). e ∷ view (push p j f t) qs) (timer_at-push p j f q t n)
    ∙ ap (λ l. timer_at t q ∷ l) (view-push p j f qs t a)

-- The list that `add_timer` leaves: the entry `p` is its first, and the delays and functions along
-- it are those before, with the new ones inserted.
pub record Inserted (p j f : ℕ) (ps : List ℕ) (t t' : Timers) : Type 0 where
  pub first : t'.next_timer ≡ some p
  pub linked : Linked t'.next p ps
  pub distinct : Distinct (p ∷ ps)
  pub view : view t' (p ∷ ps) ≡ insert j (some f) (view t ps)

add_timer-added :
    (j f p : ℕ) (t : Timers)
    → (j == 0) ≡ false
    → free_entry time_requests 0 t.fn ≡ some p
    → add_timer j (some f) t ≡ added (sift time_requests p (push p j f t))
unfolding add_timer
add_timer-added j f p t z e = rw (z, e) refl

sift-push-Inserted :
    (j f p : ℕ) (ps : List ℕ) (t : Timers)
    → IsList t ps
    → t.fn p ≡ none
    → Inserted p j f ps t (sift time_requests p (push p j f t))
sift-push-Inserted j f p ps t h e =
    let a : Absent p ps = absent p ps t.fn e h.in_use in
    let u : Timers = push p j f t in
    let l : Linked u.next p ps = Linked-push p j f ps t a h.listed in
    record {
      first = sift-next_timer time_requests p u;
      linked = subst (λ n. Linked n p ps) (sym (sift-next time_requests p u)) l;
      distinct = (a, h.distinct);
      view =
          sift-insert time_requests p ps u l (a, h.distinct) h.bound
          ∙ insert_cong (timer_at u p) (j, some f) (view u ps) (view t ps) (timer_at_first p j f t)
              (view-push p j f ps t a);
    }

-- On a list of distinct entries in use, fewer than there are, `add_timer` with a positive delay and
-- a free entry left ends with the entry at the front and with the delays and functions along the
-- list those before, with the new ones inserted: before the first delay that is not less than what
-- is left of the new one after the delays before it. The delays behind it stay as they are.
pub add_timer-Inserted :
    (j f p : ℕ) (ps : List ℕ) (t : Timers)
    → IsList t ps
    → (j == 0) ≡ false
    → free_entry time_requests 0 t.fn ≡ some p
    → (t' : Timers) × (add_timer j (some f) t ≡ added t') × Inserted p j f ps t t'
add_timer-Inserted j f p ps t h z e = (
  sift time_requests p (push p j f t),
  add_timer-added j f p t z e,
  sift-push-Inserted j f p ps t h (free_entry-none time_requests 0 p t.fn e),
)
