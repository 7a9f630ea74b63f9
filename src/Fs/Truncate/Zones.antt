-- ===== src/Fs/Truncate/Zones.antt =====
-- fs/truncate.c: what `truncate` leaves of a file.
use my_practice.Base.{
  ℕ, zero, suc, ◌+◌, ◌≤◌, ◌<◌, ◌≡◌, ◌≢◌, refl, sym, ap, ◌∙◌, ◌⊎◌, inl, inr, true, ◌==◌, update,
  update_self, update_ne, Bool-cases, if_true, if_false, arith,
}
use mathlib.Core.Path.{subst}
use my_practice.Fs.Device.{Device}
use my_practice.Fs.Bitmap.{free_block}
use my_practice.Fs.Bitmap.Keep.{eq_cases}
use my_practice.Fs.Bmap.{Inode}
use my_practice.Fs.Truncate.{free_zones, clear_zone}
use my_practice.Fs.Truncate.Shrinks.{
  Shrinks, Shrinks-refl, Shrinks-trans, IsDone, IsDone-later, After, After-bind, After-map,
  FreesOne, free_block-FreesOne,
}

-- The zones from `i` on, `n` of them, are freed, and the others are as they were.
pub record Freed (n i : ℕ) (inode : Inode) (d : Device) (inode' : Inode) (d' : Device)
    : Type 0 where
  pub shrinks : Shrinks d d'
  pub cleared : (k : ℕ) → i ≤ k → k < i + n → inode'.zone k ≡ 0
  pub others : (k : ℕ) → (k < i) ⊎ (i + n ≤ k) → inode'.zone k ≡ inode.zone k
  pub freed : (k : ℕ) → i ≤ k → k < i + n → inode.zone k ≢ 0 → IsDone (inode.zone k) d'
  pub words :
      (b : ℕ)
      → ((k : ℕ) → i ≤ k → k < i + n → inode.zone k ≢ 0 → inode.zone k ≢ b)
      → d'.word b ≡ d.word b

-- A zone that is 0 is passed over.
skipped :
    (n i : ℕ) (inode : Inode) (d : Device) (inode' : Inode) (d' : Device)
    → inode.zone i ≡ 0
    → Freed n (i + 1) inode d inode' d'
    → Freed (suc n) i inode d inode' d'
skipped n i inode d inode' d' z f = record {
  shrinks = f.shrinks;
  cleared = λ k lo hi. elim (eq_cases i k) [
    | inl e ↦ f.others k (inl (omega arith)) ∙ ap inode.zone (sym e) ∙ z
    | inr ne ↦ f.cleared k (omega arith) (omega arith)
  ];
  others = λ k h. f.others k (omega arith);
  freed = λ k lo hi nz. elim (eq_cases i k) [
    | inl e ↦ absurd (nz (ap inode.zone (sym e) ∙ z))
    | inr ne ↦ f.freed k (omega arith) (omega arith) nz
  ];
  words = λ b h. f.words b (λ k lo hi. h k (omega arith) (omega arith));
}

-- A zone is freed before the others are.
one_more :
    (n i : ℕ) (inode : Inode) (d d1 : Device) (inode' : Inode) (d' : Device)
    → inode.zone i ≢ 0
    → FreesOne (inode.zone i) d tt d1
    → Freed n (i + 1) (clear_zone i inode) d1 inode' d'
    → Freed (suc n) i inode d inode' d'
one_more n i inode d d1 inode' d' here p f = record {
  shrinks = Shrinks-trans p.0 f.shrinks;
  cleared = λ k lo hi. elim (eq_cases i k) [
    | inl e ↦
        f.others k (inl (omega arith))
        ∙ subst (λ x. update inode.zone i 0 x ≡ 0) e (update_self inode.zone i 0)
    | inr ne ↦ f.cleared k (omega arith) (omega arith)
  ];
  others = λ k h. f.others k (omega arith) ∙ update_ne inode.zone i 0 k (λ e. absurd (omega arith));
  freed = λ k lo hi nz. elim (eq_cases i k) [
    | inl e ↦ subst (λ x. IsDone (inode.zone x) d') e (IsDone-later (inode.zone i) f.shrinks p.1)
    | inr ne ↦
        let same : update inode.zone i 0 k ≡ inode.zone k = update_ne inode.zone i 0 k ne in
        subst (λ z. IsDone z d') same
          (f.freed k (omega arith) (omega arith) (λ e. nz (sym same ∙ e)))
  ];
  words = λ b h.
      f.words b (λ k lo hi nz.
        let ne : i ≢ k = λ e. absurd (omega arith) in
        let same : update inode.zone i 0 k ≡ inode.zone k = update_ne inode.zone i 0 k ne in
        λ e. h k (omega arith) (omega arith) (λ z. nz (same ∙ z)) (sym same ∙ e))
      ∙ p.2 b (h i (omega arith) (omega arith) here);
}

pub free_zones-Freed :
    (n i : ℕ) (inode : Inode) (d : Device) → After (Freed n i inode d) (free_zones n i inode d)
unfolding free_zones
free_zones-Freed zero i inode d = record {
  shrinks = Shrinks-refl d;
  cleared = λ k lo hi. absurd (omega arith);
  others = λ k h. refl;
  freed = λ k lo hi nz. absurd (omega arith);
  words = λ b h. refl;
}
free_zones-Freed (suc n) i inode d = elim (Bool-cases (inode.zone i == 0)) [
  | inl e ↦ subst (After (Freed (suc n) i inode d)) (sym (if_true _ _ e)) (
      After-map (Freed n (i + 1) inode d) (Freed (suc n) i inode d) _
        (free_zones-Freed n (i + 1) inode d)
        (λ inode' d' f. skipped n i inode d inode' d' (ground arith) f))
  | inr e ↦ subst (After (Freed (suc n) i inode d)) (sym (if_false _ _ e)) (
      After-bind (FreesOne (inode.zone i) d) (Freed (suc n) i inode d) (free_block (inode.zone i) d)
        (λ u d1. free_zones n (i + 1) (clear_zone i inode) d1)
        (free_block-FreesOne (inode.zone i) d)
        (λ u d1 p.
          After-map _ (Freed (suc n) i inode d) _
            (free_zones-Freed n (i + 1) (clear_zone i inode) d1)
            (λ inode' d' f. one_more n i inode d d1 inode' d' (ground arith) p f)))
]

-- What `truncate` has done where it returns
pub record Truncated (inode : Inode) (d : Device) (inode' : Inode) (d' : Device) : Type 0 where
  pub shrinks : Shrinks d d'
  pub empty : (k : ℕ) → k ≤ 8 → inode'.zone k ≡ 0
  pub size : inode'.size ≡ 0
  pub freed : (k : ℕ) → k ≤ 8 → inode.zone k ≢ 0 → IsDone (inode.zone k) d'
  pub entries :
      inode.zone 7 ≢ 0
      → d.readable (inode.zone 7) ≡ true
      → ((k : ℕ) → k < 7 → inode.zone k ≢ inode.zone 7)
      → (i : ℕ) → i < 512
      → d.word (inode.zone 7) i ≢ 0
      → IsDone (d.word (inode.zone 7) i) d'
