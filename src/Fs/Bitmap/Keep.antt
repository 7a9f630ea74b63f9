-- ===== src/Fs/Bitmap/Keep.antt =====
-- fs/bitmap.c: allocating and freeing keep the device valid, and freeing undoes allocating.
use my_practice.Base.{
  ℕ, ◌+◌, ◌/◌, ◌%◌, ◌≤◌, ◌<◌, ◌≡◌, ◌≢◌, refl, sym, ap, ◌∙◌, ◌⊎◌, inl, inr, Bool, true, false,
  if◌then◌else◌, update, update_ne, arith, ◌==◌, if_false,
}
use mathlib.Core.Path.{subst}
use my_practice.Fs.Device.{Device, Io, ok, panic, fault, ◌>>=◌, bit_of}
use my_practice.Fs.Bitmap.{free_block, new_block, forget, clear_block, get_hash_table}
use my_practice.Fs.Bitmap.Blocks.{
  is_used, mark, InData, IsValid, is_used-mark_self, is_used-mark_other, map_other, Allocated,
  new_block-Allocated, Freed, free_block-Freed, got, full, outside, in_use, not_used, freed,
}

pub eq_cases : (m n : ℕ) → (m ≡ n) ⊎ (m ≢ n)
eq_cases m n = omega arith

-- A bit of the map after a bit of it was set to `b`
pub bit_cases :
    (f : ℕ → ℕ → Bool) (i j i' j' : ℕ) (b : Bool)
    → ((i ≡ i') × (j ≡ j')) ⊎ (update f i (update (f i) j b) i' j' ≡ f i' j')
bit_cases f i j i' j' b = elim (eq_cases i i') [
  | inr h ↦ inr (map_other f i j i' j' b (inl h))
  | inl e ↦ elim (eq_cases j j') [
    | inr h ↦ inr (map_other f i j i' j' b (inr h))
    | inl k ↦ inl (e, k)
  ]
]

-- Marking keeps a device valid where the block's buffer is not in use.
pub mark-IsValid :
    (z : ℕ) (b : Bool) (d : Device) → IsValid d → InData d z → d.count z ≡ 0 → IsValid (mark z b d)
mark-IsValid z b d v r c = record {
  mounted = v.mounted;
  first = v.first;
  size = v.size;
  maps = v.maps;
  bits = λ i j hi hj e. elim (bit_cases d.zmap (bit_of z d / 8192) (bit_of z d % 8192) i j b) [
    | inl (p, q) ↦
        let f : 1 ≤ d.first_data_zone = v.first in
        let lo : d.first_data_zone ≤ z = r.0 in let up : z < d.nzones = r.1 in omega arith
    | inr h ↦ v.bits i j hi hj (sym h ∙ e)
  ];
  idle = λ y ry e. elim (eq_cases z y) [
    | inl q ↦ ap d.count (sym q) ∙ c
    | inr n ↦ v.idle y ry (sym (is_used-mark_other z y b d v.first r.0 ry.0 n) ∙ e)
  ];
}

pub word-IsValid : (d : Device) (w : ℕ → ℕ → ℕ) → IsValid d → IsValid (record d { word = w })
word-IsValid d w v = record {
  mounted = v.mounted;
  first = v.first;
  size = v.size;
  maps = v.maps;
  bits = v.bits;
  idle = v.idle;
}

-- One more user of a buffer that is in use
pub held-IsValid : (z : ℕ) (d : Device) → IsValid d → d.count z ≢ 0 → IsValid (get_hash_table z d)
held-IsValid z d v used = record {
  mounted = v.mounted;
  first = v.first;
  size = v.size;
  maps = v.maps;
  bits = v.bits;
  idle = λ y ry e. elim (eq_cases z y) [
    | inl q ↦ absurd (used (ap d.count q ∙ v.idle y ry e))
    | inr n ↦ update_ne d.count z (d.count z + 1) y n ∙ v.idle y ry e
  ];
}

abbrev pub Keeps {ℓ} : {A : Type ℓ} → Io A → Type 0
Keeps (ok a d) = IsValid d
Keeps r = Unit

-- What `new_block` gives has the device valid.
pub new_block-Keeps : (d : Device) → IsValid d → Keeps (new_block d)
new_block-Keeps d v = kept (new_block d) (new_block-Allocated d v)
  where
    kept : (r : Io ℕ) → Allocated d r → Keeps r
    kept r (full h) = v
    kept r (got z i u) =
        word-IsValid (mark z true d) (update d.word z (λ i. 0))
          (mark-IsValid z true d v i (v.idle z i u))

pub free_block-Keeps : (z : ℕ) (d : Device) → IsValid d → Keeps (free_block z d)
free_block-Keeps z d v = kept (free_block z d) (free_block-Freed z d v)
  where
    kept : (r : Io (Unit {0})) → Freed z d r → Keeps r
    kept r (outside h) = tt
    kept r (not_used i u) = tt
    kept r (in_use i u) = held-IsValid z d v u
    kept r (freed i c u) =
        mark-IsValid z false (forget z d) (word-IsValid d (update d.word z (d.disk z)) v) i c

-- The result does not panic, and the same blocks are used as on `d`.
abbrev pub SameUsed : Device → Io (Unit {0}) → Type 0
SameUsed d (ok a d') = (y : ℕ) → InData d y → is_used d' y ≡ is_used d y
SameUsed d panic = ⊥
SameUsed d fault = ⊥

-- Frees a block that `new_block` gave.
abbrev pub free_new : (block : ℕ) → Device → Io (Unit {0})
free_new block d = if block == 0 then ok tt d else free_block block d

Freed-SameUsed :
    (z : ℕ) (d : Device)
    → IsValid d
    → InData d z
    → is_used d z ≡ false
    → (r : Io (Unit {0})) → Freed z (clear_block z (mark z true d)) r
    → SameUsed d r
Freed-SameUsed z d v i u r (outside h) = h i
Freed-SameUsed z d v i u r (in_use k n) = absurd (n (v.idle z i u))
Freed-SameUsed z d v i u r (not_used k e) =
    absurd (true_false (sym (is_used-mark_self z true d) ∙ e))
  where
    true_false : true ≡ false → ⊥
    true_false h = cc
Freed-SameUsed z d v i u r (freed k c e) = λ y ry. elim (eq_cases z y) [
  | inl q ↦
      subst (λ x. is_used (mark z false (mark z true d)) x ≡ is_used d x) q
        (is_used-mark_self z false (mark z true d) ∙ sym u)
  | inr n ↦
      is_used-mark_other z y false (mark z true d) v.first i.0 ry.0 n
      ∙ is_used-mark_other z y true d v.first i.0 ry.0 n
]

Allocated-SameUsed :
    (d : Device) → IsValid d → (r : Io ℕ) → Allocated d r → SameUsed d (r >>= free_new)
Allocated-SameUsed d v r (full h) = λ y ry. refl
Allocated-SameUsed d v r (got z i u) =
    let f : 1 ≤ d.first_data_zone = v.first in
    let lo : d.first_data_zone ≤ z = i.0 in
    let d' : Device = clear_block z (mark z true d) in
    subst (SameUsed d) (sym (if_false (ok tt d') (free_block z d') (ground arith))) (
      Freed-SameUsed z d v i u (free_block z d') (
        free_block-Freed z d' (
          word-IsValid (mark z true d) (update d.word z (λ i. 0))
            (mark-IsValid z true d v i (v.idle z i u)))))

-- On a valid device, freeing what `new_block` gives succeeds and leaves the same blocks used as
-- before.
pub new_block-SameUsed : (d : Device) → IsValid d → SameUsed d (new_block d >>= free_new)
new_block-SameUsed d v = Allocated-SameUsed d v (new_block d) (new_block-Allocated d v)
