-- ===== src/Fs/Bitmap/Search.antt =====
-- fs/bitmap.c: what the searches for a clear bit find.
use my_practice.Base.{
  ℕ, zero, suc, ◌+◌, ◌*◌, ◌≤◌, ◌<◌, ◌≡◌, refl, sym, ap, ◌∙◌, ◌⊎◌, inl, inr, Bool, true, false, ◌&&◌,
  Option, none, some, ltb, if◌then◌else◌, arith, Bool-cases, if_true, if_false, ltb→lt,
}
use mathlib.Core.Path.{subst}
use my_practice.Fs.Device.{Device}
use my_practice.Fs.Bitmap.{first_clear, next_zero, find_first_zero, find_map}

abbrev pub AllSet : (bits : ℕ → Bool) → (from to : ℕ) → Type 0
AllSet bits from to = (k : ℕ) → from ≤ k → k < to → bits k ≡ true

-- The lowest clear bit from `from` on and below `to`, or `to` where there is none
pub record Lowest (bits : ℕ → Bool) (from to r : ℕ) : Type 0 where
  pub below : AllSet bits from r
  pub clear : (bits r ≡ false) ⊎ (r ≡ to)
  pub bound : r ≤ to

next_cases : (i k : ℕ) → i ≤ k → (i ≡ k) ⊎ (i + 1 ≤ k)
next_cases i k h = ground arith

AllSet-more :
    (bits : ℕ → Bool) (from to : ℕ)
    → bits from ≡ true
    → AllSet bits (from + 1) to
    → AllSet bits from to
AllSet-more bits from to e h k a b = elim (next_cases from k a) [
  | inl q ↦ ap bits (sym q) ∙ e
  | inr q ↦ h k q b
]

AllSet-append : (bits : ℕ → Bool) (a b c : ℕ) → AllSet bits a b → AllSet bits b c → AllSet bits a c
AllSet-append bits a b c p q k x y = elim (lt_cases k b) [ inl h ↦ p k x h | inr h ↦ q k h y ]
  where
    lt_cases : (k b : ℕ) → (k < b) ⊎ (b ≤ k)
    lt_cases k b = omega arith

-- What `first_clear` finds among `n` bits from `j` on
abbrev Found : (bits : ℕ → Bool) → (n j : ℕ) → Option ℕ → Type 0
Found bits n j none = AllSet bits j (j + n)
Found bits n j (some r) = AllSet bits j r × (bits r ≡ false) × (j ≤ r) × (r < j + n)

Found-suc :
    (bits : ℕ → Bool) (n j : ℕ) (o : Option ℕ)
    → bits j ≡ true
    → Found bits n (j + 1) o
    → Found bits (suc n) j o
Found-suc bits n j none e h =
    AllSet-more bits j (j + suc n) e (subst (AllSet bits (j + 1)) (omega arith) h)
Found-suc bits n j (some r) e (a, c, l, u) = (AllSet-more bits j r e a, c, omega arith, omega arith)

first_clear-Found : (n j : ℕ) (bits : ℕ → Bool) → Found bits n j (first_clear n j bits)
unfolding first_clear
first_clear-Found zero j bits = λ k a b. absurd (omega arith)
first_clear-Found (suc n) j bits = elim (Bool-cases (bits j)) [
  | inl e ↦
      subst (Found bits (suc n) j) (sym (if_true (first_clear n (j + 1) bits) (some j) e))
        (Found-suc bits n j (first_clear n (j + 1) bits) e (first_clear-Found n (j + 1) bits))
  | inr e ↦
      subst (Found bits (suc n) j) (sym (if_false (first_clear n (j + 1) bits) (some j) e))
        ((λ k a b. absurd (omega arith)), e, omega arith, omega arith)
]

next_case :
    (bits : ℕ → Bool) (ecx rest : ℕ)
    → AllSet bits 0 ecx
    → (ecx + 32 < 8192 → AllSet bits 0 (ecx + 32) → Lowest bits 0 8192 rest)
    → ecx + 32 ≤ 8192
    → (o : Option ℕ) → Found bits 32 ecx o
    → Lowest bits 0 8192
        (elim o as (λ x. ℕ) [ some j ↦ j | none ↦ if ltb (ecx + 32) 8192 then rest else ecx + 32 ])
next_case bits ecx rest a more b (some r) (s, c, l, u) = record {
  below = AllSet-append bits 0 ecx r a s;
  clear = inl c;
  bound = omega arith;
}
next_case bits ecx rest a more b none s =
    let t : AllSet bits 0 (ecx + 32) = AllSet-append bits 0 ecx (ecx + 32) a s in
    elim (Bool-cases (ltb (ecx + 32) 8192)) [
      | inl h ↦ subst (Lowest bits 0 8192) (sym (if_true rest (ecx + 32) h)) (more (ltb→lt _ _ h) t)
      | inr h ↦
          let m : ecx + 32 ≡ 8192 = ground arith in
          subst (Lowest bits 0 8192) (sym (if_false rest (ecx + 32) h))
            (record { below = t; clear = inr m; bound = b })
    ]

next_zero-Lowest :
    (n ecx : ℕ) (bits : ℕ → Bool)
    → ecx + n * 32 ≡ 8192
    → AllSet bits 0 ecx
    → Lowest bits 0 8192 (next_zero n ecx bits)
unfolding next_zero
next_zero-Lowest zero ecx bits e a = record {
  below = a;
  clear = inr (omega arith);
  bound = omega arith;
}
next_zero-Lowest (suc n) ecx bits e a =
    next_case bits ecx (next_zero n (ecx + 32) bits) a
      (λ h. next_zero-Lowest n (ecx + 32) bits (omega arith)) (omega arith)
      (first_clear 32 ecx bits) (first_clear-Found 32 ecx bits)

pub find_first_zero-Lowest : (bits : ℕ → Bool) → Lowest bits 0 8192 (find_first_zero bits)
unfolding find_first_zero
find_first_zero-Lowest bits = next_zero-Lowest 256 0 bits refl (λ k a b. absurd (omega arith))

-- What the loop over `n` maps from `i` on finds
abbrev pub FoundMap : Device → (n i : ℕ) → Option (ℕ × ℕ) → Type 0
FoundMap d n i none =
    (map bit : ℕ) → i ≤ map → map < i + n → d.loaded map ≡ true → bit < 8192 → d.zmap map bit ≡ true
FoundMap d n i (some mb) =
    (d.loaded mb.0 ≡ true) × (d.zmap mb.0 mb.1 ≡ false) × (mb.1 < 8192) × (mb.0 < i + n)

FoundMap-suc :
    (d : Device) (n i : ℕ) (o : Option (ℕ × ℕ))
    → ((bit : ℕ) → d.loaded i ≡ true → bit < 8192 → d.zmap i bit ≡ true)
    → FoundMap d n (i + 1) o
    → FoundMap d (suc n) i o
FoundMap-suc d n i none e h = λ map bit a b l c. elim (next_cases i map a) [
  | inl q ↦ subst (λ m. d.zmap m bit ≡ true) q (e bit (subst (λ m. d.loaded m ≡ true) (sym q) l) c)
  | inr q ↦ h map bit q (omega arith) l c
]
FoundMap-suc d n i (some mb) e (l, z, b, m) = (l, z, b, omega arith)

all_set :
    (bits : ℕ → Bool) (bit : ℕ)
    → ltb (find_first_zero bits) 8192 ≡ false
    → bit < 8192
    → bits bit ≡ true
all_set bits bit h b =
    let l : Lowest bits 0 8192 (find_first_zero bits) = find_first_zero-Lowest bits in
    let le : 8192 ≤ find_first_zero bits = ground arith in l.below bit (omega arith) (omega arith)

is_clear :
    (bits : ℕ → Bool) → ltb (find_first_zero bits) 8192 ≡ true → bits (find_first_zero bits) ≡ false
is_clear bits h =
    let l : Lowest bits 0 8192 (find_first_zero bits) = find_first_zero-Lowest bits in
    let lt : find_first_zero bits < 8192 = ground arith in
    elim l.clear [ inl c ↦ c | inr c ↦ absurd (omega arith) ]

pub find_map-FoundMap : (n i : ℕ) (d : Device) → FoundMap d n i (find_map n i d)
unfolding find_map
find_map-FoundMap zero i d = λ map bit a b l c. absurd (omega arith)
find_map-FoundMap (suc n) i d =
    elim (Bool-cases (d.loaded i && ltb (find_first_zero (d.zmap i)) 8192)) [
      | inl e ↦
          let z : (d.loaded i ≡ true) × (ltb (find_first_zero (d.zmap i)) 8192 ≡ true) =
            ground arith in
          subst (FoundMap d (suc n) i)
            (sym (if_true (some (i, find_first_zero (d.zmap i))) (find_map n (i + 1) d) e))
            (z.0, is_clear (d.zmap i) z.1, ltb→lt _ _ z.1, omega arith)
      | inr e ↦
          subst (FoundMap d (suc n) i)
            (sym (if_false (some (i, find_first_zero (d.zmap i))) (find_map n (i + 1) d) e))
            (FoundMap-suc d n i (find_map n (i + 1) d)
              (λ bit l b.
                all_set (d.zmap i) bit
                  (rest_false (d.loaded i) (ltb (find_first_zero (d.zmap i)) 8192) e l) b)
              (find_map-FoundMap n (i + 1) d))
    ]
  where
    rest_false : (a b : Bool) → (a && b) ≡ false → a ≡ true → b ≡ false
    rest_false true b h e = h
    rest_false false b h e = cc
