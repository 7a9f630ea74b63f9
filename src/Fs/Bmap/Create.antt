-- ===== src/Fs/Bmap/Create.antt =====
-- fs/inode.c: a block that `create_block` gives is the one that `bmap` finds.
use my_practice.Base.{
  ℕ, ◌/◌, ◌%◌, ◌≡◌, ◌≢◌, refl, sym, ap, ◌∙◌, inl, inr, true, false, if◌then◌else◌, arith,
  Bool-cases, if_true, if_false, ◌==◌,
}
use mathlib.Core.Path.{subst}
use my_practice.Fs.Device.{Device, Io, ok, panic, fault, ◌>>=◌}
use my_practice.Fs.Bitmap.Blocks.{is_used, InData, IsValid}
use my_practice.Fs.Bmap.{Inode, ensure_zone, hold, release, entry, indirect, double_indirect}
use my_practice.Fs.Bmap.Entry.{Used, used_ne, Kept, Ends, entry-Kept}

-- The blocks of entries of a file are used, and those of `i_zone[8]` are not that block itself.
pub record Owned (inode : Inode) (d : Device) : Type 0 where
  pub single : inode.zone 7 ≢ 0 → Used d (inode.zone 7)
  pub double : inode.zone 8 ≢ 0 → Used d (inode.zone 8)
  pub entries :
      (i : ℕ)
      → inode.zone 8 ≢ 0
      → d.word (inode.zone 8) i ≢ 0
      → Used d (d.word (inode.zone 8) i) × (d.word (inode.zone 8) i ≢ inode.zone 8)

abbrev pub Yields : (z : ℕ) → Io (ℕ × Inode) → Type 0
Yields z = Ends (λ r d. r.0 ≡ z)

-- What `create` ends with is valid, and where it gives a block, `find` yields the same.
abbrev pub Finds : (find : Inode → Device → Io (ℕ × Inode)) → Io (ℕ × Inode) → Type 0
Finds find = Ends (λ r d. IsValid d × (r.0 ≢ 0 → Yields r.0 (find r.1 d)))

entry_lookup :
    (b i : ℕ) (d : Device)
    → d.readable b ≡ true
    → entry false b i d ≡ ok (d.word b i) (release b (hold b d))
unfolding entry
entry_lookup b i d e = if_true (ok (d.word b i) (release b (hold b d))) (ok 0 d) e

ne_test : (n : ℕ) → n ≢ 0 → (n == 0) ≡ false
ne_test n h = ground arith

ne_zero : (n : ℕ) → (n == 0) ≡ false → n ≢ 0
ne_zero n e = ground arith

indirect_lookup :
    (block : ℕ) (inode : Inode) (d : Device)
    → inode.zone 7 ≢ 0
    → d.readable (inode.zone 7) ≡ true
    → Yields (d.word (inode.zone 7) block) (indirect false block inode d)
unfolding indirect ensure_zone
indirect_lookup block inode d n e =
    let b : ℕ = inode.zone 7 in
    let k : ℕ → Device → Io (ℕ × Inode) = λ n d''. ok (n, inode) d'' in
    subst (Yields (d.word b block))
      (sym (
        if_false (ok (0, inode) d) (entry false b block d >>= k) (ne_test b n)
        ∙ ap (λ r. r >>= k) (entry_lookup b block d e)))
      refl

double_lookup :
    (block c z : ℕ) (inode : Inode) (d : Device)
    → inode.zone 8 ≢ 0
    → d.readable (inode.zone 8) ≡ true
    → d.word (inode.zone 8) (block / 512) ≡ c
    → c ≢ 0
    → d.readable c ≡ true
    → d.word c (block % 512) ≡ z
    → Yields z (double_indirect false block inode d)
unfolding double_indirect ensure_zone
double_lookup block c z inode d n e w m f x =
    let b : ℕ = inode.zone 8 in
    let k : ℕ → Device → Io (ℕ × Inode) = λ n d'. ok (n, inode) d' in
    let j : ℕ → Device → Io (ℕ × Inode) =
      λ b d'. if b == 0 then ok (0, inode) d' else entry false b (block % 512) d' >>= k in
    let h : Device = release b (hold b d) in
    subst (Yields z)
      (sym (
        if_false (ok (0, inode) d) (entry false b (block / 512) d >>= j) (ne_test b n)
        ∙ ap (λ r. r >>= j) (entry_lookup b (block / 512) d e)
        ∙ ap (λ x. j x h) w
        ∙ if_false (ok (0, inode) h) (entry false c (block % 512) h >>= k) (ne_test c m)
        ∙ ap (λ r. r >>= k) (entry_lookup c (block % 512) h f)))
      x

-- The steps of `indirect` after the zone, on an inode whose zone 7 is used
pub indirect-Finds :
    (block : ℕ) (inode : Inode) (d : Device)
    → IsValid d
    → (inode.zone 7 ≢ 0 → Used d (inode.zone 7))
    → Finds (indirect false block) (
        if inode.zone 7 == 0
        then ok (0, inode) d
        else entry true (inode.zone 7) block d >>= (λ n d''. ok (n, inode) d''))
indirect-Finds block inode d v u = elim (Bool-cases (inode.zone 7 == 0)) [
  | inl e ↦
      subst (Finds (indirect false block))
        (sym (if_true (ok (0, inode) d) (entry true b block d >>= k) e)) (v, λ n. absurd (n refl))
  | inr e ↦
      subst (Finds (indirect false block))
        (sym (if_false (ok (0, inode) d) (entry true b block d >>= k) e))
        (found (ne_zero b e) (entry true b block d) (entry-Kept b block d v (u (ne_zero b e))))
]
  where
    b : ℕ
    b = inode.zone 7

    k : ℕ → Device → Io (ℕ × Inode)
    k n d' = ok (n, inode) d'

    found :
        inode.zone 7 ≢ 0
        → (r : Io ℕ) → Ends (Kept b block d) r
        → Finds (indirect false block) (r >>= k)
    found m (ok z d') h = (
      h.grows.valid,
      λ n.
          subst (λ x. Yields x (indirect false block inode d')) (h.word n)
            (indirect_lookup block inode d' m (h.readable n)),
    )
    found m panic h = h
    found m fault h = h

-- The block of entries that the first one of `double_indirect` gives is used, and is another one.
entry-Used :
    (b i c : ℕ) (d d' : Device)
    → Used d b
    → (d.word b i ≢ 0 → Used d (d.word b i) × (d.word b i ≢ b))
    → Kept b i d c d'
    → c ≢ 0
    → Used d' c × (c ≢ b)
entry-Used b i c d d' u w h n = elim (h.old_or_new n) [
  | inl e ↦
      let (r, m) = w (λ q. n (e ∙ q)) in
      (
        (
          h.grows.within c (subst (InData d) (sym e) r.0),
          h.grows.still c (subst (InData d) (sym e) r.0) (ap (is_used d) e ∙ r.1),
        ),
        λ q. m (sym e ∙ q),
      )
  | inr (k, f, t) ↦ ((h.grows.within c k, t), λ q. used_ne d b c u.1 f (sym q))
]

pub double-Finds :
    (block : ℕ) (inode : Inode) (d : Device)
    → IsValid d
    → (inode.zone 8 ≢ 0 → Used d (inode.zone 8))
    → (inode.zone 8 ≢ 0
        → d.word (inode.zone 8) (block / 512) ≢ 0
        → Used d (d.word (inode.zone 8) (block / 512))
          × (d.word (inode.zone 8) (block / 512) ≢ inode.zone 8))
    → Finds (double_indirect false block) (
        if inode.zone 8 == 0
        then ok (0, inode) d
        else entry true (inode.zone 8) (block / 512) d >>= (λ b d''.
          if b == 0
          then ok (0, inode) d''
          else entry true b (block % 512) d'' >>= (λ n d3. ok (n, inode) d3)))
double-Finds block inode d v u w = elim (Bool-cases (inode.zone 8 == 0)) [
  | inl e ↦
      subst (Finds (double_indirect false block))
        (sym (if_true (ok (0, inode) d) (entry true b i d >>= j) e)) (v, λ n. absurd (n refl))
  | inr e ↦
      subst (Finds (double_indirect false block))
        (sym (if_false (ok (0, inode) d) (entry true b i d >>= j) e))
        (found (ne_zero b e) (entry true b i d) (entry-Kept b i d v (u (ne_zero b e))))
]
  where
    b : ℕ
    b = inode.zone 8

    i : ℕ
    i = block / 512

    k : ℕ → Device → Io (ℕ × Inode)
    k n d' = ok (n, inode) d'

    j : ℕ → Device → Io (ℕ × Inode)
    j c d' = if c == 0 then ok (0, inode) d' else entry true c (block % 512) d' >>= k

    second :
        (c : ℕ) (d' : Device)
        → b ≢ 0
        → c ≢ 0
        → c ≢ b
        → Kept b i d c d'
        → (r : Io ℕ) → Ends (Kept c (block % 512) d') r
        → Finds (double_indirect false block) (r >>= k)
    second c d' m n ne h (ok z d'') g = (
      g.grows.valid,
      λ nz.
          double_lookup block c z inode d'' m (g.grows.reads b ∙ h.readable n)
            (g.grows.keeps b i (h.grows.within b (u m).0, h.grows.still b (u m).0 (u m).1)
                (λ q. ne (sym q))
              ∙ h.word n)
            n (g.readable nz) (g.word nz),
    )
    second c d' m n ne h panic g = g
    second c d' m n ne h fault g = g

    found : b ≢ 0 → (r : Io ℕ) → Ends (Kept b i d) r → Finds (double_indirect false block) (r >>= j)
    found m (ok c d') h = elim (Bool-cases (c == 0)) [
      | inl e ↦
          subst (Finds (double_indirect false block))
            (sym (if_true (ok (0, inode) d') (entry true c (block % 512) d' >>= k) e))
            (h.grows.valid, λ n. absurd (n refl))
      | inr e ↦
          let (uc, ne) = entry-Used b i c d d' (u m) (w m) h (ne_zero c e) in
          subst (Finds (double_indirect false block))
            (sym (if_false (ok (0, inode) d') (entry true c (block % 512) d' >>= k) e))
            (second c d' m (ne_zero c e) ne h (entry true c (block % 512) d')
              (entry-Kept c (block % 512) d' h.grows.valid uc))
    ]
    found m panic h = h
    found m fault h = h
