-- ===== src/Fs/Truncate/Shrinks.antt =====
-- fs/truncate.c: freeing never marks a block used, and what it frees is free or in use by others.
use my_practice.Base.{
  ℕ, ◌+◌, ◌-◌, ◌/◌, ◌%◌, ◌≤◌, ◌≡◌, ◌≢◌, refl, sym, ap, ◌∙◌, ◌⊎◌, inl, inr, Bool, true, false, ◌==◌,
  ◌||◌, not, ltb, leb, update, update_self, update_ne, Bool-cases, if_true, if_false, arith,
}
use mathlib.Core.Path.{subst}
use my_practice.Fs.Device.{Device, Io, ok, panic, fault, ◌>>=◌, bit_of}
use my_practice.Fs.Bitmap.{free_block, clear_map, forget, get_hash_table}
use my_practice.Fs.Bitmap.Blocks.{is_used}
use my_practice.Fs.Bitmap.Keep.{eq_cases, bit_cases}

-- Of the blocks of `d` at most some are not used any more, no buffer has fewer users, and one that is
-- in use holds what it did.
pub record Shrinks (d d' : Device) : Type 0 where
  pub used : (i j : ℕ) → d'.zmap i j ≡ true → d.zmap i j ≡ true
  pub count : (b : ℕ) → d.count b ≤ d'.count b
  pub word : (b : ℕ) → d.count b ≢ 0 → d'.word b ≡ d.word b
  pub readable : (b : ℕ) → d'.readable b ≡ d.readable b
  pub first : d'.first_data_zone ≡ d.first_data_zone

-- The block is free, or its buffer is in use.
abbrev pub IsDone : (z : ℕ) → Device → Type 0
IsDone z d = (is_used d z ≡ false) ⊎ (d.count z ≢ 0)

-- The device that is left satisfies `P`.
abbrev pub After {ℓ} : {A : Type ℓ} → (A → Device → Type 0) → Io A → Type 0
After P (ok a d) = P a d
After P panic = Unit
After P fault = Unit

pub After-bind {ℓ κ} :
    {A : Type ℓ} {B : Type κ} (P : A → Device → Type 0) (Q : B → Device → Type 0) (r : Io A)
    (k : A → Device → Io B)
    → After P r
    → ((a : A) (d : Device) → P a d → After Q (k a d))
    → After Q (r >>= k)
After-bind P Q (ok a d) k p f = f a d p
After-bind P Q panic k p f = tt
After-bind P Q fault k p f = tt

pub Shrinks-refl : (d : Device) → Shrinks d d
Shrinks-refl d = record {
  used = λ i j e. e;
  count = λ b. omega arith;
  word = λ b c. refl;
  readable = λ b. refl;
  first = refl;
}

pub le_trans : {a b c : ℕ} → a ≤ b → b ≤ c → a ≤ c
le_trans h k = omega arith

pub still_held : {a b : ℕ} → a ≤ b → a ≢ 0 → b ≢ 0
still_held h n = λ e. n (omega arith)

pub Shrinks-trans : {d1 d2 d3 : Device} → Shrinks d1 d2 → Shrinks d2 d3 → Shrinks d1 d3
Shrinks-trans s t = record {
  used = λ i j e. s.used i j (t.used i j e);
  count = λ b. le_trans (s.count b) (t.count b);
  word = λ b c. t.word b (still_held (s.count b) c) ∙ s.word b c;
  readable = λ b. t.readable b ∙ s.readable b;
  first = t.first ∙ s.first;
}

pub contrary : {b : Bool} → b ≡ true → b ≡ false → ⊥
contrary h k = cc

not_true : (b : Bool) → (b ≡ true → ⊥) → b ≡ false
not_true true h = absurd (h refl)
not_true false h = refl

stays_unused : {d d' : Device} (z : ℕ) → Shrinks d d' → is_used d z ≡ false → is_used d' z ≡ false
stays_unused {d} {d'} z s u = not_true (is_used d' z) (λ h.
    let same : bit_of z d' ≡ bit_of z d = ap (λ f. z + 1 - f) s.first in
    contrary
      (s.used (bit_of z d / 8192) (bit_of z d % 8192)
        (subst (λ b. d'.zmap (b / 8192) (b % 8192) ≡ true) same h))
      u)

pub IsDone-later : {d d' : Device} (z : ℕ) → Shrinks d d' → IsDone z d → IsDone z d'
IsDone-later z s (inl u) = inl (stays_unused z s u)
IsDone-later z s (inr c) = inr (still_held (s.count z) c)

-- A map after a bit of it was cleared
clear-used :
    (f : ℕ → ℕ → Bool) (i j i' j' : ℕ)
    → update f i (update (f i) j false) i' j' ≡ true
    → f i' j' ≡ true
clear-used f i j i' j' h = elim (bit_cases f i j i' j' false) [
  | inr e ↦ sym e ∙ h
  | inl (p, q) ↦ absurd (
      contrary h (
        ap (λ x. update f i (update (f i) j false) x j') (sym p)
        ∙ ap (λ x. update f i (update (f i) j false) i x) (sym q)
        ∙ ap (λ g. g j) (update_self f i (update (f i) j false))
        ∙ update_self (f i) j false))
]

-- After `free_block` the block is free or its buffer is in use.
abbrev pub Frees : (z : ℕ) → Device → Unit {0} → Device → Type 0
Frees z d u d' = Shrinks d d' × IsDone z d'

-- Besides, no other block's buffer holds anything else than before.
abbrev pub FreesOne : (z : ℕ) → Device → Unit {0} → Device → Type 0
FreesOne z d u d' = Shrinks d d' × IsDone z d' × ((b : ℕ) → z ≢ b → d'.word b ≡ d.word b)

clear_map-FreesOne :
    (z : ℕ) (d : Device)
    → d.count z ≡ 0
    → After (FreesOne z d) (clear_map (bit_of z d / 8192) (bit_of z d % 8192) (forget z d))
clear_map-FreesOne z d c = elim (Bool-cases (d.loaded (bit_of z d / 8192))) [
  | inr e ↦ subst (After (FreesOne z d)) (sym (if_false _ fault e)) tt
  | inl e ↦
      subst (After (FreesOne z d)) (sym (if_true _ fault e))
        (elim (Bool-cases (d.zmap (bit_of z d / 8192) (bit_of z d % 8192))) [
          | inr k ↦ subst (After (FreesOne z d)) (sym (if_false _ panic k)) tt
          | inl k ↦ subst (After (FreesOne z d)) (sym (if_true _ panic k)) (
            record {
              used = λ i j h. clear-used d.zmap (bit_of z d / 8192) (bit_of z d % 8192) i j h;
              count = λ b. omega arith;
              word = λ b h. update_ne d.word z (d.disk z) b (λ e. h (ap d.count (sym e) ∙ c));
              readable = λ b. refl;
              first = refl;
            },
            inl (
                ap (λ g. g (bit_of z d % 8192)) (update_self d.zmap (bit_of z d / 8192) _)
                ∙ update_self (d.zmap (bit_of z d / 8192)) (bit_of z d % 8192) false),
            λ b n. update_ne d.word z (d.disk z) b n,
          )
        ])
]

pub held_count : (z : ℕ) (d : Device) → update d.count z (d.count z + 1) z ≢ 0
held_count z d e =
    let one_more : update d.count z (d.count z + 1) z ≡ d.count z + 1 =
      update_self d.count z (d.count z + 1) in
    omega arith

pub more_users : (f : ℕ → ℕ) (z b : ℕ) → f b ≤ update f z (f z + 1) b
more_users f z b = elim (eq_cases z b) [
  | inl e ↦
      subst (λ x. f x ≤ update f z (f z + 1) x) e
        (subst (λ n. f z ≤ n) (sym (update_self f z (f z + 1))) (omega arith))
  | inr n ↦ subst (λ m. f b ≤ m) (sym (update_ne f z (f z + 1) b n)) (omega arith)
]

held-Shrinks : (z : ℕ) (d : Device) → Shrinks d (get_hash_table z d)
held-Shrinks z d = record {
  used = λ i j e. e;
  count = λ b. more_users d.count z b;
  word = λ b c. refl;
  readable = λ b. refl;
  first = refl;
}

pub free_block-FreesOne : (z : ℕ) (d : Device) → After (FreesOne z d) (free_block z d)
unfolding free_block
free_block-FreesOne z d =
    elim (Bool-cases (not d.mounted || (ltb z d.first_data_zone || leb d.nzones z))) [
      | inl e ↦ subst (After (FreesOne z d)) (sym (if_true panic _ e)) tt
      | inr e ↦
          subst (After (FreesOne z d)) (sym (if_false panic _ e))
            (elim (Bool-cases (d.count z == 0)) [
              | inl c ↦
                  subst (After (FreesOne z d)) (sym (if_true _ (ok tt (get_hash_table z d)) c))
                    (clear_map-FreesOne z d (ground arith))
              | inr c ↦
                  subst (After (FreesOne z d)) (sym (if_false _ (ok tt (get_hash_table z d)) c))
                    (held-Shrinks z d, inr (held_count z d), λ b n. refl)
            ])
    ]

pub After-map {ℓ} :
    {A : Type ℓ} (P Q : A → Device → Type 0) (r : Io A)
    → After P r
    → ((a : A) (d : Device) → P a d → Q a d)
    → After Q r
After-map P Q (ok a d) p f = f a d p
After-map P Q panic p f = tt
After-map P Q fault p f = tt

pub free_block-Frees : (z : ℕ) (d : Device) → After (Frees z d) (free_block z d)
free_block-Frees z d =
    After-map (FreesOne z d) (Frees z d) (free_block z d) (free_block-FreesOne z d)
      (λ u d' p. (p.0, p.1))

-- After `free` a block that is not 0 is free or its buffer is in use.
abbrev pub Freeing : (free : ℕ → Device → Io (Unit {0})) → Type 0
Freeing free = (z : ℕ) (d : Device) → z ≢ 0 → After (Frees z d) (free z d)
