-- ===== src/Fs/Truncate/Entries.antt =====
-- fs/truncate.c: the blocks that `free_ind` and `free_dind` free.
use my_practice.Base.{
  ℕ, zero, suc, ◌+◌, ◌-◌, ◌≤◌, ◌<◌, ◌≡◌, ◌≢◌, sym, ap, ◌∙◌, inl, inr, true, ◌==◌, update,
  update_self, update_ne, Bool-cases, if_true, if_false, arith,
}
use mathlib.Core.Path.{subst}
use my_practice.Fs.Device.{Device, Io, ok, ◌>>=◌}
use my_practice.Fs.Bitmap.{free_block}
use my_practice.Fs.Bitmap.Keep.{eq_cases}
use my_practice.Fs.Bmap.{hold, release}
use my_practice.Fs.Truncate.{free_entries, free_with, free_ind, free_dind}
use my_practice.Fs.Truncate.Shrinks.{
  Shrinks, Shrinks-refl, Shrinks-trans, IsDone, IsDone-later, After, After-bind, After-map, Frees,
  Freeing, free_block-Frees, contrary, still_held, more_users, held_count,
}

-- The entries from `i` on, `n` of them, are free or their buffers are in use.
abbrev pub FreesFrom : (n i block : ℕ) → Device → Unit {0} → Device → Type 0
FreesFrom n i block d u d' =
    Shrinks d d' × ((k : ℕ) → i ≤ k → k < i + n → d.word block k ≢ 0 → IsDone (d.word block k) d')

FreesFrom-suc :
    (n i block : ℕ) (d d1 d' : Device)
    → d.count block ≢ 0
    → Shrinks d d1
    → (d.word block i ≢ 0 → IsDone (d.word block i) d1)
    → FreesFrom n (i + 1) block d1 tt d'
    → FreesFrom (suc n) i block d tt d'
FreesFrom-suc n i block d d1 d' c s done (t, rest) = (
  Shrinks-trans s t,
  λ k lo hi nz. elim (eq_cases i k) [
    | inl e ↦
        subst (λ x. IsDone (d.word block x) d') e
          (IsDone-later (d.word block i) t (done (λ z. nz (ap (d.word block) (sym e) ∙ z))))
    | inr ne ↦
        let same : d1.word block k ≡ d.word block k = ap (λ f. f k) (s.word block c) in
        subst (λ x. IsDone x d') same (rest k (omega arith) (omega arith) (λ z. nz (sym same ∙ z)))
  ],
)

-- The loop over the entries of a block whose buffer is in use
free_entries-Frees :
    (free : ℕ → Device → Io (Unit {0}))
    → Freeing free
    → (n i block : ℕ) (d : Device) → d.count block ≢ 0
    → After (FreesFrom n i block d) (free_entries free n i block d)
unfolding free_entries
free_entries-Frees free s zero i block d c = (Shrinks-refl d, λ k lo hi. absurd (omega arith))
free_entries-Frees free s (suc n) i block d c = elim (Bool-cases (d.word block i == 0)) [
  | inl e ↦
      subst
        (λ (r : Io (Unit {0})).
          After (FreesFrom (suc n) i block d)
            (r >>= (λ u d'. free_entries free n (i + 1) block d')))
        (sym (if_true (ok tt d) (free (d.word block i) d) e))
        (more d (Shrinks-refl d) (λ nz. absurd (nz (ground arith)))
          (free_entries-Frees free s n (i + 1) block d c))
  | inr e ↦
      subst
        (λ (r : Io (Unit {0})).
          After (FreesFrom (suc n) i block d)
            (r >>= (λ u d'. free_entries free n (i + 1) block d')))
        (sym (if_false (ok tt d) (free (d.word block i) d) e))
        (After-bind (Frees (d.word block i) d) (FreesFrom (suc n) i block d)
          (free (d.word block i) d) (λ u d'. free_entries free n (i + 1) block d')
          (s (d.word block i) d (ground arith))
          (λ u d1 p.
            more d1 p.0 (λ nz. p.1)
              (free_entries-Frees free s n (i + 1) block d1 (still_held (p.0.count block) c))))
]
  where
    more :
        (d1 : Device)
        → Shrinks d d1
        → (d.word block i ≢ 0 → IsDone (d.word block i) d1)
        → After (FreesFrom n (i + 1) block d1) (free_entries free n (i + 1) block d1)
        → After (FreesFrom (suc n) i block d) (free_entries free n (i + 1) block d1)
    more d1 p done r =
        After-map (FreesFrom n (i + 1) block d1) (FreesFrom (suc n) i block d) _ r
          (λ u d' q. FreesFrom-suc n i block d d1 d' c p done q)

-- A block whose buffer was held for what happened in between
released : (block : ℕ) (d d' : Device) → Shrinks (hold block d) d' → Shrinks d (release block d')
released block d d' s = record {
  used = s.used;
  count = λ b. elim (eq_cases block b) [
    | inl e ↦
        subst (λ x. d.count x ≤ update d'.count block (d'.count block - 1) x) e
          (subst (λ n. d.count block ≤ n) (sym (update_self d'.count block (d'.count block - 1)))
            back)
    | inr n ↦
        subst (λ x. d.count b ≤ x) (sym (update_ne d'.count block (d'.count block - 1) b n))
          (subst (λ x. x ≤ d'.count b) (update_ne d.count block (d.count block + 1) b n)
            (s.count b))
  ];
  word = λ b c. s.word b (still_held (more_users d.count block b) c);
  readable = s.readable;
  first = s.first;
}
  where
    back : d.count block ≤ d'.count block - 1
    back =
        let held : d.count block + 1 ≤ d'.count block =
          subst (λ x. x ≤ d'.count block) (update_self d.count block (d.count block + 1))
            (s.count block) in
        omega arith

-- After `free_ind` and `free_dind` the block and, where it can be read, its entries are free or their
-- buffers are in use.
abbrev pub FreesAll : (z : ℕ) → Device → Unit {0} → Device → Type 0
FreesAll z d u d' =
    Shrinks d d'
    × (z ≢ 0 → IsDone z d')
    × (z ≢ 0 → d.readable z ≡ true → (k : ℕ) → k < 512 → d.word z k ≢ 0 → IsDone (d.word z k) d')

-- `free_block` of the block itself, once its entries have been freed
last_freed :
    (z : ℕ) (d d1 : Device)
    → Shrinks (hold z d) d1
    → ((k : ℕ) → k < 512 → d.word z k ≢ 0 → IsDone (d.word z k) d1)
    → After (FreesAll z d) (free_block z (release z d1))
last_freed z d d1 s entries =
    After-map (Frees z (release z d1)) (FreesAll z d) (free_block z (release z d1))
      (free_block-Frees z (release z d1))
      (λ u d' p. (
        Shrinks-trans (released z d d1 s) p.0,
        λ nz. p.1,
        λ nz r k h n. elim (eq_cases z (d.word z k)) [
          | inl e ↦ subst (λ y. IsDone y d') e p.1
          | inr ne ↦ IsDone-later (d.word z k) p.0 (kept (d.word z k) ne (entries k h n))
        ],
      ))
  where
    kept : (y : ℕ) → z ≢ y → IsDone y d1 → IsDone y (release z d1)
    kept y ne (inl u) = inl u
    kept y ne (inr c) = inr (λ e. c (sym (update_ne d1.count z (d1.count z - 1) y ne) ∙ e))

free_with-Frees :
    (free : ℕ → Device → Io (Unit {0}))
    → Freeing free
    → (z : ℕ) (d : Device) → After (FreesAll z d) (free_with free z d)
free_with-Frees free s z d = elim (Bool-cases (z == 0)) [
  | inl e ↦
      subst (After (FreesAll z d)) (sym (if_true (ok tt d) _ e))
        (Shrinks-refl d, λ nz. absurd (nz (ground arith)), λ nz. absurd (nz (ground arith)))
  | inr e ↦
      subst (After (FreesAll z d)) (sym (if_false (ok tt d) _ e))
        (elim (Bool-cases (d.readable z)) [
          | inr k ↦ subst (After (FreesAll z d)) (sym (if_false _ (free_block z d) k)) (
              After-map (Frees z d) (FreesAll z d) (free_block z d) (free_block-Frees z d)
                (λ u d' p. (p.0, λ nz. p.1, λ nz r. absurd (contrary r k))))
          | inl k ↦ subst (After (FreesAll z d)) (sym (if_true _ (free_block z d) k)) (
              After-bind (FreesFrom 512 0 z (hold z d)) (FreesAll z d)
                (free_entries free 512 0 z (hold z d)) (λ u d'. free_block z (release z d'))
                (free_entries-Frees free s 512 0 z (hold z d) (held_count z d))
                (λ u d1 p. last_freed z d d1 p.0 (λ k h nz. p.1 k (omega arith) (omega arith) nz)))
        ])
]

pub free_ind-Frees : (z : ℕ) (d : Device) → After (FreesAll z d) (free_ind z d)
unfolding free_ind
free_ind-Frees z d = free_with-Frees free_block (λ y e nz. free_block-Frees y e) z d

pub free_dind-Frees : (z : ℕ) (d : Device) → After (FreesAll z d) (free_dind z d)
unfolding free_dind
free_dind-Frees z d =
    free_with-Frees free_ind
      (λ y e nz.
        After-map (FreesAll y e) (Frees y e) (free_ind y e) (free_ind-Frees y e)
          (λ u d' p. (p.0, p.1 nz)))
      z d
