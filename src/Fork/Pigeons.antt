-- ===== src/Fork/Pigeons.antt =====
-- The pigeonhole principle.
use my_practice.Base.{
  ℕ, zero, suc, ◌-◌, ◌≤◌, ◌<◌, ◌≡◌, ◌≢◌, sym, ap, ◌∙◌, ◌⊎◌, inl, inr, ltb, if◌then◌else◌, arith,
}

-- Two indices up to `n` with the same value
pub record Collision (n : ℕ) (f : ℕ → ℕ) : Type 0 where
  pub i : ℕ
  pub j : ℕ
  pub less : i < j
  pub bound : j ≤ n
  pub same : f i ≡ f j

-- Whether one of the first `n` values is `v`
search_value :
    (n : ℕ) (f : ℕ → ℕ) (v : ℕ) → ((i : ℕ) × (i < n) × (f i ≡ v)) ⊎ ((i : ℕ) → i < n → f i ≢ v)
search_value zero f v = inr (λ i h. absurd (omega arith))
search_value (suc n) f v = elim (eq_cases (f n) v) [
  | inl e ↦ inl (n, omega arith, e)
  | inr ne ↦ elim (search_value n f v) [
    | inl (i, h, e) ↦ inl (i, omega arith, e)
    | inr all ↦
        inr (λ i h e. elim (last_cases n i h) [ inl q ↦ ne (ap f (sym q) ∙ e) | inr l ↦ all i l e ])
  ]
]
  where
    eq_cases : (a b : ℕ) → (a ≡ b) ⊎ (a ≢ b)
    eq_cases a b = omega arith

    last_cases : (n i : ℕ) → i < suc n → (i ≡ n) ⊎ (i < n)
    last_cases n i h = ground arith

-- The values above `v` closed up
close : (v : ℕ) → ℕ → ℕ
close v x = if ltb x v then x else x - 1

close-eq : (v x y : ℕ) → x ≢ v → y ≢ v → close v x ≡ close v y → x ≡ y
unfolding close
close-eq v x y p q e = ground arith

close-lt : (v x n : ℕ) → x ≢ v → v < suc n → x < suc n → close v x < n
unfolding close
close-lt v x n p a b = ground arith

-- Among `n + 1` values below `n`, two are the same.
pub collide : (n : ℕ) (f : ℕ → ℕ) → ((i : ℕ) → i ≤ n → f i < n) → Collision n f
collide zero f h = absurd (let l : f 0 < 0 = h 0 (omega arith) in omega arith)
collide (suc n) f h = elim (search_value (suc n) f (f (suc n))) [
  | inl (i, l, e) ↦ record { i = i; j = suc n; less = l; bound = omega arith; same = e }
  | inr ne ↦
      let c : Collision n (λ i. close (f (suc n)) (f i)) =
        collide n (λ i. close (f (suc n)) (f i))
          (λ i l.
            close-lt (f (suc n)) (f i) n (ne i (omega arith)) (h (suc n) (omega arith))
              (h i (omega arith))) in
      let less : c.i < c.j = c.less in
      let bound : c.j ≤ n = c.bound in
      record {
        i = c.i;
        j = c.j;
        less = c.less;
        bound = omega arith;
        same =
            close-eq (f (suc n)) (f c.i) (f c.j) (ne c.i (omega arith)) (ne c.j (omega arith))
              c.same;
      }
]
