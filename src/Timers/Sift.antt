-- ===== src/Timers/Sift.antt =====
-- kernel/sched.c: the loop of `add_timer` inserts a timer into the list of delays.
use my_practice.Base.{
  ℕ, zero, suc, ◌-◌, ◌<◌, ◌≡◌, refl, sym, ap, ◌∙◌, ◌≢◌, inl, inr, true, false, Option, none, some,
  ltb, if◌then◌else◌, arith, List, [], ◌∷◌, length, Bool-cases,
}
use my_practice.Timers.{Timers, swap, sift}

abbrev pub Entry : Type 0
Entry = ℕ × Option ℕ

-- The entries of the list that starts at `p` and goes on with `ps`
abbrev pub Linked : (ℕ → Option ℕ) → ℕ → List ℕ → Type 0
Linked next p [] = next p ≡ none
Linked next p (q ∷ qs) = (next p ≡ some q) × Linked next q qs

abbrev pub Absent : ℕ → List ℕ → Type 0
Absent p [] = Unit {0}
Absent p (q ∷ qs) = (q ≢ p) × Absent p qs

abbrev pub Distinct : List ℕ → Type 0
Distinct [] = Unit {0}
Distinct (p ∷ ps) = Absent p ps × Distinct ps

abbrev pub timer_at : Timers → ℕ → Entry
timer_at t p = (t.jiffies p, t.fn p)

abbrev pub view : Timers → List ℕ → List Entry
view t [] = []
view t (p ∷ ps) = timer_at t p ∷ view t ps

-- A delay goes in before the first one that is not less, and counts from the one before it. The
-- delays after it are not changed.
abbrev pub insert : (jiffies : ℕ) → Option ℕ → List Entry → List Entry
insert jiffies f [] = (jiffies, f) ∷ []
insert jiffies f ((k, g) ∷ es) =
    let rest = insert (jiffies - k) f es in
    if ltb k jiffies then (k, g) ∷ rest else (jiffies, f) ∷ (k, g) ∷ es

timer_at-swap : (p q x : ℕ) (t : Timers) → p ≢ x → q ≢ x → timer_at (swap p q t) x ≡ timer_at t x
timer_at-swap p q x t np nq = ground arith

view-swap :
    (p q : ℕ) (t : Timers) (ps : List ℕ)
    → Absent p ps
    → Absent q ps
    → view (swap p q t) ps ≡ view t ps
view-swap p q t [] a b = refl
view-swap p q t (x ∷ xs) (nx, a) (ny, b) =
    ap (λ (e : Entry). e ∷ view (swap p q t) xs)
      (timer_at-swap p q x t (λ e. nx (sym e)) (λ e. ny (sym e)))
    ∙ ap (λ l. timer_at t x ∷ l) (view-swap p q t xs a b)

-- The loop leaves the entries before it alone.
sift-other :
    (fuel q x : ℕ) (qs : List ℕ) (t : Timers)
    → Linked t.next q qs
    → q ≢ x
    → Absent x qs
    → timer_at (sift fuel q t) x ≡ timer_at t x
unfolding sift
sift-other zero q x qs t l ne a = refl
sift-other (suc fuel) q x [] t l ne a = rw (l, sift) refl
sift-other (suc fuel) q x (r ∷ rs) t (l, ls) ne (nr, a) =
    elim (Bool-cases (ltb (t.jiffies r) (t.jiffies q))) [
      | inl h ↦
          rw (l, sift, h)
            (sift-other fuel r x rs (swap q r t) ls nr a ∙ timer_at-swap q r x t ne nr)
      | inr h ↦ rw (l, sift, h) refl
    ]

pub sift_step :
    (fuel p q : ℕ) (t : Timers)
    → t.next p ≡ some q
    → ltb (t.jiffies q) (t.jiffies p) ≡ true
    → sift (suc fuel) p t ≡ sift fuel q (swap p q t)
unfolding sift
sift_step fuel p q t l k = rw (l, sift, k) refl

pub sift_stop :
    (fuel p q : ℕ) (t : Timers)
    → t.next p ≡ some q
    → ltb (t.jiffies q) (t.jiffies p) ≡ false
    → sift (suc fuel) p t ≡ t
unfolding sift
sift_stop fuel p q t l k = rw (l, sift, k) refl

pub sift_end : (fuel p : ℕ) (t : Timers) → t.next p ≡ none → sift (suc fuel) p t ≡ t
unfolding sift
sift_end fuel p t l = rw (l, sift) refl

pub insert-before :
    (j k : ℕ) (f g : Option ℕ) (es : List Entry)
    → ltb k j ≡ false
    → insert j f ((k, g) ∷ es) ≡ (j, f) ∷ (k, g) ∷ es
insert-before j k f g es h = rw h refl

pub insert-after :
    (j k : ℕ) (f g : Option ℕ) (es : List Entry)
    → ltb k j ≡ true
    → insert j f ((k, g) ∷ es) ≡ (k, g) ∷ insert (j - k) f es
insert-after j k f g es h = rw h refl

swap-first : (p q : ℕ) (t : Timers) → q ≢ p → timer_at (swap p q t) p ≡ timer_at t q
swap-first p q t ne = ground arith

swap-second : (p q : ℕ) (t : Timers) → timer_at (swap p q t) q ≡ (t.jiffies p - t.jiffies q, t.fn p)
swap-second p q t = ground arith

pub insert_cong :
    (e e' : Entry) (es es' : List Entry)
    → e ≡ e'
    → es ≡ es'
    → insert e.0 e.1 es ≡ insert e'.0 e'.1 es'
insert_cong e e' es es' a b =
    ap (λ (x : Entry). insert x.0 x.1 es) a ∙ ap (λ l. insert e'.0 e'.1 l) b

-- The loop, started at an entry at the front of a list of distinct entries, with enough rounds,
-- inserts its delay into the delays behind it.
pub sift-insert :
    (fuel p : ℕ) (ps : List ℕ) (t : Timers)
    → Linked t.next p ps
    → Distinct (p ∷ ps)
    → length ps < fuel
    → view (sift fuel p t) (p ∷ ps) ≡ insert (t.jiffies p) (t.fn p) (view t ps)
sift-insert zero p ps t l d h = elim h [ ]
sift-insert (suc fuel) p [] t l d h = ap (λ u. view u (p ∷ [])) (sift_end fuel p t l)
sift-insert (suc fuel) p (q ∷ qs) t (l, ls) ((nq, ap_qs), (aq_qs, d)) h =
    elim (Bool-cases (ltb (t.jiffies q) (t.jiffies p))) [
      | inr k ↦
          ap (λ u. view u (p ∷ q ∷ qs)) (sift_stop fuel p q t l k)
          ∙ sym (insert-before (t.jiffies p) (t.jiffies q) (t.fn p) (t.fn q) (view t qs) k)
      | inl k ↦
          let u : Timers = sift fuel q (swap p q t) in
          ap (λ u. view u (p ∷ q ∷ qs)) (sift_step fuel p q t l k)
          ∙ ap (λ (e : Entry). e ∷ view u (q ∷ qs))
              (sift-other fuel q p qs (swap p q t) ls nq ap_qs ∙ swap-first p q t nq)
          ∙ ap (λ es. timer_at t q ∷ es)
              (sift-insert fuel q qs (swap p q t) ls (aq_qs, d) (omega arith)
                ∙ insert_cong (timer_at (swap p q t) q) (t.jiffies p - t.jiffies q, t.fn p)
                    (view (swap p q t) qs) (view t qs) (swap-second p q t)
                    (view-swap p q t qs ap_qs aq_qs))
          ∙ sym (insert-after (t.jiffies p) (t.jiffies q) (t.fn p) (t.fn q) (view t qs) k)
    ]
