-- ===== src/Fs/Bmap/Entry.antt =====
-- fs/inode.c: what the steps of `_bmap` do to the device.
use my_practice.Base.{
  ℕ, ◌+◌, ◌-◌, ◌%◌, ◌≤◌, ◌<◌, ◌≡◌, ◌≢◌, refl, sym, ap, ◌∙◌, ◌⊎◌, inl, inr, Bool, true, false,
  if◌then◌else◌, update, update_ne, update_self, arith, Bool-cases, if_true, if_false, ◌==◌,
}
use mathlib.Core.Path.{subst}
use my_practice.Fs.Device.{Device, Io, ok, panic, fault, ◌>>=◌}
use my_practice.Fs.Bitmap.{new_block, clear_block}
use my_practice.Fs.Bitmap.Blocks.{
  is_used, mark, InData, IsValid, is_used-mark_self, is_used-mark_other, Allocated,
  new_block-Allocated, got, full,
}
use my_practice.Fs.Bitmap.Keep.{mark-IsValid, word-IsValid}
use my_practice.Fs.Bmap.{Inode, set_zone, ensure_zone, hold, release, set_word, entry}

-- A block of the data zone that the maps say is used
abbrev pub Used : Device → ℕ → Type 0
Used d z = InData d z × (is_used d z ≡ true)

-- The device with other maps, contents and counts
abbrev pub change : (ℕ → ℕ → Bool) → (ℕ → ℕ → ℕ) → (ℕ → ℕ) → Device → Device
change m w c d = record d { zmap = m; word = w; count = c }

-- From `d` to `d'`, blocks stay used, and used ones but `b` keep what they hold.
pub record Grows (b : ℕ) (d d' : Device) : Type 0 where
  pub valid : IsValid d'
  pub within : (y : ℕ) → InData d y → InData d' y
  pub reads : (y : ℕ) → d'.readable y ≡ d.readable y
  pub still : (y : ℕ) → InData d y → is_used d y ≡ true → is_used d' y ≡ true
  pub keeps : (y j : ℕ) → Used d y → y ≢ b → d'.word y j ≡ d.word y j

pub used_ne : (d : Device) (y z : ℕ) → is_used d y ≡ true → is_used d z ≡ false → y ≢ z
used_ne d y z a b e = absurd (true_false (sym a ∙ ap (is_used d) e ∙ b))
  where
    true_false : true ≡ false → ⊥
    true_false h = cc

pub refl-Grows : (b : ℕ) (d : Device) → IsValid d → Grows b d d
refl-Grows b d v = record {
  valid = v;
  within = λ y r. r;
  reads = λ y. refl;
  still = λ y r u. u;
  keeps = λ y j u n. refl;
}

pub got-Grows :
    (b z : ℕ) (d : Device)
    → IsValid d
    → InData d z
    → is_used d z ≡ false
    → Grows b d (clear_block z (mark z true d))
got-Grows b z d v i u = record {
  valid =
      word-IsValid (mark z true d) (update d.word z (λ j. 0))
        (mark-IsValid z true d v i (v.idle z i u));
  within = λ y r. r;
  reads = λ y. refl;
  still =
      λ y r e. is_used-mark_other z y true d v.first i.0 r.0 (λ q. used_ne d y z e u (sym q)) ∙ e;
  keeps =
      λ y j e n. ap (λ w. w j) (update_ne d.word z (λ i. 0) y (λ q. used_ne d y z e.1 u (sym q)));
}

small : (z : ℕ) (d : Device) → IsValid d → InData d z → z % 65536 ≡ z
small z d v i = let s : d.nzones < 65536 = v.size in let up : z < d.nzones = i.1 in omega arith

nonzero : (z : ℕ) (d : Device) → IsValid d → InData d z → (z == 0) ≡ false
nonzero z d v i =
    let f : 1 ≤ d.first_data_zone = v.first in let lo : d.first_data_zone ≤ z = i.0 in ground arith

set_zone-zone : (k z now : ℕ) (inode : Inode) → z % 65536 ≡ z → (set_zone k z now inode).zone k ≡ z
set_zone-zone k z now inode m = elim (Bool-cases (z % 65536 == 0)) [
  | inl e ↦
      ap (λ (n : Inode). n.zone k) (if_true (record inode { zone = update inode.zone k 0 }) _ e)
      ∙ update_self inode.zone k 0
      ∙ ground arith
  | inr e ↦
      ap (λ (n : Inode). n.zone k) (if_false (record inode { zone = update inode.zone k 0 }) _ e)
      ∙ update_self inode.zone k (z % 65536)
      ∙ m
]

-- What `ensure_zone` ends with: an inode whose zone, where it is not 0, was there before or is of a
-- new block of zeros
pub data Zoned (k : ℕ) (inode : Inode) (d : Device) : Io Inode → Type 0 where
  same : Zoned k inode d (ok inode d)
  none : (inode' : Inode) → inode'.zone k ≡ 0 → Zoned k inode d (ok inode' d)
  made :
      (z : ℕ) (inode' : Inode)
      → InData d z
      → is_used d z ≡ false
      → inode'.zone k ≡ z
      → Zoned k inode d (ok inode' (clear_block z (mark z true d)))

pub ensure_zone-Zoned :
    (k : ℕ) (inode : Inode) (d : Device) → IsValid d → Zoned k inode d (ensure_zone true k inode d)
unfolding ensure_zone
ensure_zone-Zoned k inode d v = elim (Bool-cases (inode.zone k == 0)) [
  | inr e ↦ subst (Zoned k inode d) (sym (if_false _ (ok inode d) e)) same
  | inl e ↦
      subst (Zoned k inode d) (sym (if_true _ (ok inode d) e))
        (zoned (new_block d) (new_block-Allocated d v))
]
  where
    zoned :
        (r : Io ℕ)
        → Allocated d r
        → Zoned k inode d (r >>= (λ block d'. ok (set_zone k block d'.now inode) d'))
    zoned r (full h) = none (set_zone k 0 d.now inode) (update_self inode.zone k 0)
    zoned r (got z i u) =
        made z (set_zone k z d.now inode) i u (set_zone-zone k z d.now inode (small z d v i))

count-IsValid :
    (b : ℕ) (c : ℕ) (d : Device)
    → IsValid d
    → Used d b
    → IsValid (record d { count = update d.count b c })
count-IsValid b c d v u = record {
  mounted = v.mounted;
  first = v.first;
  size = v.size;
  maps = v.maps;
  bits = v.bits;
  idle = λ y r e. update_ne d.count b c y (λ q. used_ne d b y u.1 e q) ∙ v.idle y r e;
}

-- What `entry` ends with: the entry that is there, 0, or a new block of zeros that is stored in it
pub data Entered (b i : ℕ) (d : Device) : Io ℕ → Type 0 where
  unreadable : Entered b i d (ok 0 d)
  found : d.readable b ≡ true → Entered b i d (ok (d.word b i) (release b (hold b d)))
  none : Entered b i d (ok 0 (release b (hold b d)))
  made :
      (z : ℕ)
      → d.readable b ≡ true
      → InData d z
      → is_used d z ≡ false
      → Entered b i d (ok z (release b (set_word b i z (clear_block z (mark z true (hold b d))))))

pub entry-Entered : (b i : ℕ) (d : Device) → IsValid d → Used d b → Entered b i d (entry true b i d)
unfolding entry
entry-Entered b i d v u = elim (Bool-cases (d.readable b)) [
  | inr e ↦ subst (Entered b i d) (sym (if_false _ (ok 0 d) e)) unreadable
  | inl e ↦
      subst (Entered b i d) (sym (if_true _ (ok 0 d) e)) (elim (Bool-cases (d.word b i == 0)) [
        | inr z ↦
            subst (Entered b i d) (sym (if_false _ (ok (d.word b i) (release b (hold b d))) z))
              (found e)
        | inl z ↦
            subst (Entered b i d) (sym (if_true _ (ok (d.word b i) (release b (hold b d))) z)) (
              entered e (new_block (hold b d))
                (new_block-Allocated (hold b d) (count-IsValid b (d.count b + 1) d v u)))
      ])
]
  where
    entered :
        d.readable b ≡ true
        → (r : Io ℕ) → Allocated (hold b d) r
        → Entered b i d
            (r >>= (λ n d'. ok n (release b (if n == 0 then d' else set_word b i n d'))))
    entered e r (full h) = none
    entered e r (got z k w) =
        let d' : Device = clear_block z (mark z true (hold b d)) in
        subst (λ x. Entered b i d (ok z (release b x)))
          (sym (if_false d' (set_word b i z d') (nonzero z d v k))) (made z e k w)

-- The entry of a block that was made is stored, and nothing else that was used changes.
made-Grows :
    (b i z : ℕ) (d : Device)
    → IsValid d
    → Used d b
    → InData d z
    → is_used d z ≡ false
    → Grows b d (release b (set_word b i z (clear_block z (mark z true (hold b d)))))
made-Grows b i z d v u k w =
    let h : Device = hold b d in
    let g : Grows b h (clear_block z (mark z true h)) =
      got-Grows b z h (count-IsValid b (d.count b + 1) d v u) k w in
    let c : Device = clear_block z (mark z true h) in
    record {
      valid =
          count-IsValid b (c.count b - 1) (set_word b i z c)
            (word-IsValid c (update c.word b (update (c.word b) i (z % 65536))) g.valid)
            (u.0, g.still b u.0 u.1);
      within = λ y r. r;
      reads = λ y. refl;
      still = g.still;
      keeps = λ y j e n.
          ap (λ x. x j) (update_ne c.word b (update (c.word b) i (z % 65536)) y (λ q. n (sym q)))
          ∙ g.keeps y j e n;
    }

pub stored :
    (b i z : ℕ) (d : Device)
    → IsValid d
    → InData d z
    → (release b (set_word b i z (clear_block z (mark z true (hold b d))))).word b i ≡ z
stored b i z d v k =
    let c : Device = clear_block z (mark z true (hold b d)) in
    ap (λ x. x i) (update_self c.word b (update (c.word b) i (z % 65536)))
    ∙ update_self (c.word b) i (z % 65536)
    ∙ small z d v k

-- What `entry` leaves, where its result is not 0
pub record Kept (b i : ℕ) (d : Device) (z : ℕ) (d' : Device) : Type 0 where
  pub grows : Grows b d d'
  pub readable : z ≢ 0 → d'.readable b ≡ true
  pub word : z ≢ 0 → d'.word b i ≡ z
  pub old_or_new :
      z ≢ 0 → (z ≡ d.word b i) ⊎ (InData d z × (is_used d z ≡ false) × (is_used d' z ≡ true))

-- A result, and a property of it and of the device that it leaves
abbrev pub Ends {ℓ} : {A : Type ℓ} → (A → Device → Type 0) → Io A → Type 0
Ends P (ok a d) = P a d
Ends P panic = ⊥
Ends P fault = ⊥

release-Grows :
    (b c : ℕ) (d : Device)
    → IsValid d
    → Used d b
    → Grows b d (record d { count = update (update d.count b (d.count b + 1)) b c })
release-Grows b c d v u = record {
  valid = count-IsValid b c (hold b d) (count-IsValid b (d.count b + 1) d v u) u;
  within = λ y r. r;
  reads = λ y. refl;
  still = λ y r e. e;
  keeps = λ y j e n. refl;
}

pub entry-Kept :
    (b i : ℕ) (d : Device) → IsValid d → Used d b → Ends (Kept b i d) (entry true b i d)
entry-Kept b i d v u = kept (entry true b i d) (entry-Entered b i d v u)
  where
    none_kept : (d' : Device) → Grows b d d' → Kept b i d 0 d'
    none_kept d' g = record {
      grows = g;
      readable = λ n. absurd (n refl);
      word = λ n. absurd (n refl);
      old_or_new = λ n. absurd (n refl);
    }

    kept : (r : Io ℕ) → Entered b i d r → Ends (Kept b i d) r
    kept r unreadable = none_kept d (refl-Grows b d v)
    kept r none = none_kept (release b (hold b d)) (release-Grows b ((hold b d).count b - 1) d v u)
    kept r (found e) = record {
      grows = release-Grows b ((hold b d).count b - 1) d v u;
      readable = λ n. e;
      word = λ n. refl;
      old_or_new = λ n. inl refl;
    }
    kept r (made z e k w) = record {
      grows = made-Grows b i z d v u k w;
      readable = λ n. e;
      word = λ n. stored b i z d v k;
      old_or_new = λ n. inr (k, w, is_used-mark_self z true (hold b d));
    }
