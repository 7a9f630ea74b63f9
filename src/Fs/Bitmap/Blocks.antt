-- ===== src/Fs/Bitmap/Blocks.antt =====
-- fs/bitmap.c: what allocating and freeing do to the set of used blocks.
use my_practice.Base.{
  ℕ, ◌+◌, ◌-◌, ◌*◌, ◌/◌, ◌%◌, ◌≤◌, ◌<◌, ◌≡◌, ◌≢◌, sym, ap, ◌∙◌, ◌⊎◌, inl, inr, Bool, true, false,
  not, ◌||◌, Option, none, some, ltb, leb, ◌==◌, update, arith, Bool-cases, if_true, if_false,
  update_ne, update_self, ==→eq,
}
use mathlib.Core.Path.{subst}
use my_practice.Fs.Device.{Device, Io, ok, panic, bit_of, set_map}
use my_practice.Fs.Bitmap.{
  free_block, new_block, forget, clear_map, clear_block, take_block, find_map, get_hash_table,
}
use my_practice.Fs.Bitmap.Search.{FoundMap, find_map-FoundMap}

-- Whether the maps say that a block is used
abbrev pub is_used : Device → (block : ℕ) → Bool
is_used d z = d.zmap (bit_of z d / 8192) (bit_of z d % 8192)

abbrev pub mark : (block : ℕ) → Bool → Device → Device
mark z b d = set_map (bit_of z d / 8192) (bit_of z d % 8192) b d

abbrev pub InData : Device → (block : ℕ) → Type 0
InData d z = (d.first_data_zone ≤ z) × (z < d.nzones)

-- A device with maps for its blocks, in which no bit is clear but those of blocks, and where no
-- buffer of a block that is not used is in use.
pub record IsValid (d : Device) : Type 0 where
  pub mounted : d.mounted ≡ true
  pub first : 1 ≤ d.first_data_zone
  pub size : d.nzones < 65536
  pub maps : (z : ℕ) → InData d z → d.loaded (bit_of z d / 8192) ≡ true
  pub bits :
      (i j : ℕ)
      → i < 8
      → j < 8192
      → d.zmap i j ≡ false
      → InData d (j + i * 8192 + d.first_data_zone - 1)
  pub idle : (z : ℕ) → InData d z → is_used d z ≡ false → d.count z ≡ 0

map_self : (f : ℕ → ℕ → Bool) (i j : ℕ) (b : Bool) → update f i (update (f i) j b) i j ≡ b
map_self f i j b = ground arith

pub map_other :
    (f : ℕ → ℕ → Bool) (i j i' j' : ℕ) (b : Bool)
    → (i ≢ i') ⊎ (j ≢ j')
    → update f i (update (f i) j b) i' j' ≡ f i' j'
map_other f i j i' j' b (inl h) = ap (λ g. g j') (update_ne f i (update (f i) j b) i' h)
map_other f i j i' j' b (inr h) = elim (Bool-cases (i == i')) [
  | inl e ↦
      let q : i ≡ i' = ==→eq _ _ e in
      subst (λ k. update f i (update (f i) j b) k j' ≡ f k j') q
        (ap (λ g. g j') (update_self f i (update (f i) j b)) ∙ update_ne (f i) j b j' h)
  | inr e ↦ ap (λ g. g j') (update_ne f i (update (f i) j b) i' (ground arith))
]

digits_differ : (m n : ℕ) → m ≢ n → (m / 8192 ≢ n / 8192) ⊎ (m % 8192 ≢ n % 8192)
digits_differ m n h = elim (Bool-cases (m / 8192 == n / 8192)) [
  | inl e ↦ let q : m / 8192 ≡ n / 8192 = ==→eq _ _ e in inr (λ r. h (omega arith))
  | inr e ↦ inl (ground arith)
]

pub is_used-mark_self : (z : ℕ) (b : Bool) (d : Device) → is_used (mark z b d) z ≡ b
is_used-mark_self z b d = map_self d.zmap (bit_of z d / 8192) (bit_of z d % 8192) b

pub is_used-mark_other :
    (z y : ℕ) (b : Bool) (d : Device)
    → 1 ≤ d.first_data_zone
    → d.first_data_zone ≤ z
    → d.first_data_zone ≤ y
    → z ≢ y
    → is_used (mark z b d) y ≡ is_used d y
is_used-mark_other z y b d f hz hy n =
    map_other d.zmap (bit_of z d / 8192) (bit_of z d % 8192) (bit_of y d / 8192) (bit_of y d % 8192)
      b (digits_differ (bit_of z d) (bit_of y d) (λ e. n (omega arith)))

-- What `new_block` ends with: 0 where every block is used, or a block that was not used, which it
-- marks and clears
pub data Allocated (d : Device) : Io ℕ → Type 0 where
  full : ((z : ℕ) → InData d z → is_used d z ≡ true) → Allocated d (ok 0 d)
  got :
      (z : ℕ)
      → InData d z
      → is_used d z ≡ false
      → Allocated d (ok z (clear_block z (mark z true d)))

zone_of : (i j : ℕ) → Device → ℕ
zone_of i j d = j + i * 8192 + d.first_data_zone - 1

take_block_lem :
    (i j : ℕ) (d : Device)
    → d.zmap i j ≡ false
    → leb d.nzones (zone_of i j d) ≡ false
    → (d.count (zone_of i j d) == 0) ≡ true
    → take_block i j d ≡ ok (zone_of i j d) (clear_block (zone_of i j d) (set_map i j true d))
unfolding zone_of
take_block_lem i j d b l c =
    if_false _ _ b
    ∙ if_false _ _ l
    ∙ if_true (ok (zone_of i j d) (clear_block (zone_of i j d) (set_map i j true d))) panic c

take-Allocated :
    (i j : ℕ) (d : Device)
    → IsValid d
    → d.zmap i j ≡ false
    → j < 8192
    → i < 8
    → Allocated d (take_block i j d)
unfolding zone_of
take-Allocated i j d v b hj hi =
    let z : ℕ = zone_of i j d in
    let r : InData d z = v.bits i j hi hj b in
    let f : 1 ≤ d.first_data_zone = v.first in
    let lo : d.first_data_zone ≤ z = r.0 in
    let ei : i ≡ bit_of z d / 8192 = omega arith in
    let ej : j ≡ bit_of z d % 8192 = omega arith in
    let u : is_used d z ≡ false =
      ap (λ m. d.zmap m (bit_of z d % 8192)) (sym ei) ∙ ap (d.zmap i) (sym ej) ∙ b in
    let c : d.count z ≡ 0 = v.idle z r u in
    let e : take_block i j d ≡ ok z (clear_block z (mark z true d)) =
      take_block_lem i j d b (ground arith) (ground arith)
      ∙ ap (λ m. ok z (clear_block z (set_map m j true d))) ei
      ∙ ap (λ k. ok z (clear_block z (set_map (bit_of z d / 8192) k true d))) ej in
    subst (Allocated d) (sym e) (got z r u)

-- On a valid device, `new_block` gives 0 and changes nothing where every block is used, and
-- otherwise a block that was not used, which it marks in the map and fills with 0; it does not panic.
pub new_block-Allocated : (d : Device) → IsValid d → Allocated d (new_block d)
unfolding new_block
new_block-Allocated d v =
    subst (Allocated d) (sym (if_true _ _ v.mounted))
      (found (find_map 8 0 d) (find_map-FoundMap 8 0 d))
  where
    found :
        (o : Option (ℕ × ℕ))
        → FoundMap d 8 0 o
        → Allocated d (elim o as (λ x. Io ℕ) [ none ↦ ok 0 d | some ij ↦ take_block ij.0 ij.1 d ])
    found none h = full (λ z r.
        let s : d.nzones < 65536 = v.size in
        let a : d.first_data_zone ≤ z = r.0 in
        let b : z < d.nzones = r.1 in
        let f : 1 ≤ d.first_data_zone = v.first in
        h (bit_of z d / 8192) (bit_of z d % 8192) (omega arith) (omega arith) (v.maps z r)
          (omega arith))
    found (some ij) (l, b, hj, hi) = take-Allocated ij.0 ij.1 d v b hj (omega arith)

-- What `free_block` ends with
pub data Freed (z : ℕ) (d : Device) : Io (Unit {0}) → Type 0 where
  outside : (InData d z → ⊥) → Freed z d panic
  in_use : InData d z → d.count z ≢ 0 → Freed z d (ok tt (get_hash_table z d))
  not_used : InData d z → is_used d z ≡ false → Freed z d panic
  freed :
      InData d z
      → d.count z ≡ 0
      → is_used d z ≡ true
      → Freed z d (ok tt (mark z false (forget z d)))

clear-Freed :
    (z : ℕ) (d : Device)
    → IsValid d
    → InData d z
    → d.count z ≡ 0
    → Freed z d (clear_map (bit_of z d / 8192) (bit_of z d % 8192) (forget z d))
clear-Freed z d v r c =
    subst (Freed z d) (sym (if_true _ _ (v.maps z r))) (elim (Bool-cases (is_used d z)) [
      | inl e ↦ subst (Freed z d) (sym (if_true _ _ e)) (freed r c e)
      | inr e ↦
          subst (Freed z d) (sym (if_false (ok tt (mark z false (forget z d))) panic e))
            (not_used r e)
    ])

guard_true :
    (m : Bool) (z f n : ℕ) → (not m || (ltb z f || leb n z)) ≡ true → m ≡ true → f ≤ z → z < n → ⊥
guard_true m z f n e h a b = ground arith

guard_false : (m : Bool) (z f n : ℕ) → (not m || (ltb z f || leb n z)) ≡ false → (f ≤ z) × (z < n)
guard_false m z f n e = ground arith

-- On a valid device, `free_block` panics for a block that is outside the data zone or is not used,
-- leaves a block whose buffer is in use, with one more user of it, and otherwise clears the block's bit and drops its buffer.
pub free_block-Freed : (z : ℕ) (d : Device) → IsValid d → Freed z d (free_block z d)
unfolding free_block
free_block-Freed z d v =
    elim (Bool-cases (not d.mounted || (ltb z d.first_data_zone || leb d.nzones z))) [
      | inl e ↦
          subst (Freed z d) (sym (if_true panic _ e))
            (outside (λ r. guard_true _ _ _ _ e v.mounted r.0 r.1))
      | inr e ↦
          let r : InData d z = guard_false d.mounted z d.first_data_zone d.nzones e in
          subst (Freed z d) (sym (if_false panic _ e)) (elim (Bool-cases (d.count z == 0)) [
            | inl c ↦ subst (Freed z d) (sym (if_true _ _ c)) (clear-Freed z d v r (==→eq _ _ c))
            | inr c ↦
                subst (Freed z d) (sym (if_false _ (ok tt (get_hash_table z d)) c))
                  (in_use r (ground arith))
          ])
    ]
