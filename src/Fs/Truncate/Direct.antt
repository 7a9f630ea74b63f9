-- ===== src/Fs/Truncate/Direct.antt =====
-- fs/truncate.c: files without blocks of entries.
use my_practice.Base.{
  ℕ, zero, suc, ◌+◌, ◌≤◌, ◌<◌, ◌≡◌, ◌≢◌, refl, sym, ap, ◌∙◌, inl, inr, true, false, ◌==◌, ◌||◌,
  update, update_ne, Bool-cases, if_true, if_false, arith,
}
use mathlib.Core.Path.{subst}
use my_practice.Fs.Device.{Device, Io, ok, panic, fault, ◌>>=◌}
use my_practice.Fs.Bitmap.{get_hash_table, free_block, forget}
use my_practice.Fs.Bitmap.Blocks.{
  is_used, mark, InData, IsValid, is_used-mark_other, Freed, free_block-Freed, outside, in_use,
  not_used, freed,
}
use my_practice.Fs.Bitmap.Keep.{held-IsValid, mark-IsValid, word-IsValid}
use my_practice.Fs.Bmap.{Inode}
use my_practice.Fs.Truncate.{
  free_ind, free_dind, free_zones, clear_zone, truncate, is_reg, is_dir, free_with,
}
use my_practice.Fs.Truncate.Shrinks.{After}
use my_practice.Fs.Truncate.Zones.{free_zones-Freed}

abbrev pub Returns {ℓ} : {A : Type ℓ} → Io A → Type 0
Returns (ok a d) = Unit
Returns panic = ⊥
Returns fault = ⊥

Returns-bind {ℓ κ} :
    {A : Type ℓ} {B : Type κ} (P : A → Device → Type 0) (r : Io A) (k : A → Device → Io B)
    → After P r
    → Returns r
    → ((a : A) (d : Device) → P a d → Returns (k a d))
    → Returns (r >>= k)
Returns-bind P (ok a d) k p t f = f a d p
Returns-bind P panic k p t f = t
Returns-bind P fault k p t f = t

Returns-chain {ℓ κ} :
    {A : Type ℓ} {B : Type κ} (r : Io A) (k : A → Device → Io B)
    → Returns r
    → ((a : A) (d : Device) → Returns (k a d))
    → Returns (r >>= k)
Returns-chain (ok a d) k t f = f a d
Returns-chain panic k t f = t
Returns-chain fault k t f = t

nothing_freed :
    (free : ℕ → Device → Io (Unit {0})) (z : ℕ) (d : Device) → z ≡ 0 → Returns (free_with free z d)
nothing_freed free z d e =
    let h : (z == 0) ≡ true = ground arith in subst Returns (sym (if_true (ok tt d) _ h)) tt

-- The zones from `i` to 6 are used blocks, all different.
pub record Ready (i : ℕ) (inode : Inode) (d : Device) : Type 0 where
  pub inside : (k : ℕ) → i ≤ k → k < 7 → inode.zone k ≢ 0 → InData d (inode.zone k)
  pub used : (k : ℕ) → i ≤ k → k < 7 → inode.zone k ≢ 0 → is_used d (inode.zone k) ≡ true
  pub distinct : (j k : ℕ) → i ≤ j → j < k → k < 7 → inode.zone j ≢ 0 → inode.zone j ≢ inode.zone k

Ready-later : (i : ℕ) (inode : Inode) (d : Device) → Ready i inode d → Ready (i + 1) inode d
Ready-later i inode d r = record {
  inside = λ k lo hi nz. r.inside k (omega arith) hi nz;
  used = λ k lo hi nz. r.used k (omega arith) hi nz;
  distinct = λ j k lo jk hi nz. r.distinct j k (omega arith) jk hi nz;
}

-- The zones from `i` on are those of another inode.
Ready-same :
    (i : ℕ) (inode inode' : Inode) (d : Device)
    → ((k : ℕ) → i ≤ k → inode'.zone k ≡ inode.zone k)
    → Ready i inode d
    → Ready i inode' d
Ready-same i inode inode' d same r = record {
  inside =
      λ k lo hi nz. subst (InData d) (sym (same k lo)) (r.inside k lo hi (λ e. nz (same k lo ∙ e)));
  used = λ k lo hi nz. ap (is_used d) (same k lo) ∙ r.used k lo hi (λ e. nz (same k lo ∙ e));
  distinct = λ j k lo jk hi nz e.
      r.distinct j k lo jk hi (λ z. nz (same j lo ∙ z))
        (sym (same j lo) ∙ e ∙ same k (omega arith));
}

-- The zones behind the first are used after the first was marked free.
Ready-mark :
    (i : ℕ) (inode : Inode) (d : Device)
    → IsValid d
    → i < 7
    → inode.zone i ≢ 0
    → Ready i inode d
    → Ready (i + 1) inode (mark (inode.zone i) false (forget (inode.zone i) d))
Ready-mark i inode d v hi nz r = record {
  inside = λ k lo h n. r.inside k (omega arith) h n;
  used = λ k lo h n.
      is_used-mark_other (inode.zone i) (inode.zone k) false (forget (inode.zone i) d) v.first
        (r.inside i (omega arith) hi nz).0 (r.inside k (omega arith) h n).0
        (r.distinct i k (omega arith) (omega arith) h nz)
      ∙ r.used k (omega arith) h n;
  distinct = λ j k lo jk h n. r.distinct j k (omega arith) jk h n;
}

-- More users of a buffer change nothing of the blocks.
Ready-held :
    (i : ℕ) (inode : Inode) (d : Device) (z : ℕ)
    → Ready (i + 1) inode d
    → Ready (i + 1) inode (get_hash_table z d)
Ready-held i inode d z r = record { inside = r.inside; used = r.used; distinct = r.distinct }

-- Freeing the first zone succeeds, on a device on which the others are ready.
first_goes :
    (i : ℕ) (inode : Inode) (d : Device) {B : Type 0} (k : Unit {0} → Device → Io B)
    → IsValid d
    → i < 7
    → inode.zone i ≢ 0
    → Ready i inode d
    → ((d' : Device) → IsValid d' → Ready (i + 1) inode d' → Returns (k tt d'))
    → (o : Io (Unit {0})) → Freed (inode.zone i) d o
    → Returns (o >>= k)
first_goes i inode d k v hi nz r f o (outside h) = h (r.inside i (omega arith) hi nz)
first_goes i inode d k v hi nz r f o (not_used a h) =
    absurd (true_false (sym (r.used i (omega arith) hi nz) ∙ h))
  where
    true_false : true ≡ false → ⊥
    true_false e = cc
first_goes i inode d k v hi nz r f o (in_use a h) =
    f (get_hash_table (inode.zone i) d) (held-IsValid (inode.zone i) d v h)
      (Ready-held i inode d (inode.zone i) (Ready-later i inode d r))
first_goes i inode d k v hi nz r f o (freed a c u) =
    f (mark (inode.zone i) false (forget (inode.zone i) d))
      (mark-IsValid (inode.zone i) false (forget (inode.zone i) d)
        (word-IsValid d (update d.word (inode.zone i) (d.disk (inode.zone i))) v) a c)
      (Ready-mark i inode d v hi nz r)

free_zones-Returns :
    (n i : ℕ) (inode : Inode) (d : Device)
    → IsValid d
    → i + n ≡ 7
    → Ready i inode d
    → Returns (free_zones n i inode d)
unfolding free_zones
free_zones-Returns zero i inode d v s r = tt
free_zones-Returns (suc n) i inode d v s r = elim (Bool-cases (inode.zone i == 0)) [
  | inl e ↦
      subst Returns (sym (if_true _ _ e))
        (free_zones-Returns n (i + 1) inode d v (omega arith) (Ready-later i inode d r))
  | inr e ↦ subst Returns (sym (if_false _ _ e)) (
      first_goes i inode d _ v (omega arith) (ground arith) r
        (λ d' v' r'. free_zones-Returns n (i + 1) (clear_zone i inode) d' v' (omega arith) (
          Ready-same (i + 1) inode (clear_zone i inode) d'
            (λ k lo. update_ne inode.zone i 0 k (λ e. absurd (omega arith))) r'))
        (free_block (inode.zone i) d) (free_block-Freed (inode.zone i) d v))
]

-- For a file without blocks of entries, whose blocks are used and all different, `truncate` returns on a
-- valid device.
pub truncate-Returns :
    (inode : Inode) (d : Device)
    → IsValid d
    → Ready 0 inode d
    → inode.zone 7 ≡ 0
    → inode.zone 8 ≡ 0
    → Returns (truncate inode d)
unfolding truncate free_ind free_dind
truncate-Returns inode d v r z7 z8 = elim (Bool-cases (is_reg inode.mode || is_dir inode.mode)) [
  | inr h ↦ subst Returns (sym (if_false _ (ok inode d) h)) tt
  | inl h ↦ subst Returns (sym (if_true _ (ok inode d) h)) (
      Returns-bind _ (free_zones 7 0 inode d) _ (free_zones-Freed 7 0 inode d)
        (free_zones-Returns 7 0 inode d v refl r)
        (λ i1 d1 f.
          let e7 : i1.zone 7 ≡ 0 = f.others 7 (inr (omega arith)) ∙ z7 in
          let e8 : i1.zone 8 ≡ 0 = f.others 8 (inr (omega arith)) ∙ z8 in
          Returns-chain (free_with free_block (i1.zone 7) d1) _
            (nothing_freed free_block (i1.zone 7) d1 e7)
            (λ u d2.
              Returns-chain (free_with free_ind (i1.zone 8) d2) _
                (nothing_freed free_ind (i1.zone 8) d2 e8) (λ u' d3. tt))))
]
