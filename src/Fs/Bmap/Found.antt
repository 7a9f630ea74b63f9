-- ===== src/Fs/Bmap/Found.antt =====
-- fs/inode.c: every block that `create_block` gives is found by `bmap`.
use my_practice.Base.{
  ℕ, ◌-◌, ◌/◌, ◌≤◌, ◌<◌, ◌≡◌, ◌≢◌, ◌⊎◌, refl, sym, ap, ◌∙◌, Bool, true, false, arith, inl, inr,
  if_true, if_false, ltb, leb,
}
use mathlib.Core.Path.{subst}
use my_practice.Fs.Device.{Device, Io, ok, panic, fault, ◌>>=◌}
use my_practice.Fs.Bitmap.{clear_block}
use my_practice.Fs.Bitmap.Blocks.{is_used, mark, InData, IsValid, is_used-mark_self}
use my_practice.Fs.Bmap.{
  Inode, ensure_zone, indirect, double_indirect, bmap_at, bmap, create_block, block_limit,
}
use my_practice.Fs.Bmap.Entry.{Used, got-Grows, Zoned, ensure_zone-Zoned, same, none, made}
use my_practice.Fs.Bmap.Create.{Owned, Yields, Finds, indirect-Finds, double-Finds}

abbrev ZoneUsed : (k : ℕ) → Inode → Device → Type 0
ZoneUsed k inode d = IsValid d × (inode.zone k ≢ 0 → Used d (inode.zone k))

abbrev EntriesUsed : (i : ℕ) → Inode → Device → Type 0
EntriesUsed i inode d =
    inode.zone 8 ≢ 0
    → d.word (inode.zone 8) i ≢ 0
    → Used d (d.word (inode.zone 8) i) × (d.word (inode.zone 8) i ≢ inode.zone 8)

-- A property that holds whatever `ensure_zone` ends with holds after it.
zoned_then :
    (k : ℕ) (inode : Inode) (d : Device) (P : Inode → Device → Type 0)
    (find : Inode → Device → Io (ℕ × Inode)) (cont : Inode → Device → Io (ℕ × Inode))
    → P inode d
    → ((inode' : Inode) → inode'.zone k ≡ 0 → P inode' d)
    → ((z : ℕ) (inode' : Inode)
        → InData d z
        → is_used d z ≡ false
        → inode'.zone k ≡ z
        → P inode' (clear_block z (mark z true d)))
    → ((inode' : Inode) (d' : Device) → P inode' d' → Finds find (cont inode' d'))
    → (r : Io Inode) → Zoned k inode d r
    → Finds find (r >>= cont)
zoned_then k inode d P find cont p z m h r same = h inode d p
zoned_then k inode d P find cont p z m h r (none i e) = h i d (z i e)
zoned_then k inode d P find cont p z m h r (made y i a b e) = h i _ (m y i a b e)

made-ZoneUsed :
    (k z : ℕ) (inode : Inode) (d : Device)
    → IsValid d
    → InData d z
    → is_used d z ≡ false
    → inode.zone k ≡ z
    → ZoneUsed k inode (clear_block z (mark z true d))
made-ZoneUsed k z inode d v i u e = (
  (got-Grows 0 z d v i u).valid,
  λ n. subst (Used (clear_block z (mark z true d))) (sym e) (i, is_used-mark_self z true d),
)

made-EntriesUsed :
    (i z : ℕ) (inode : Inode) (d : Device)
    → inode.zone 8 ≡ z
    → EntriesUsed i inode (clear_block z (mark z true d))
made-EntriesUsed i z inode d e =
    λ n m. absurd (m (ap (λ b. (clear_block z (mark z true d)).word b i) e ∙ zeros))
  where
    zeros : (clear_block z (mark z true d)).word z i ≡ 0
    zeros = ground arith

bmap_direct :
    (create : Bool) (block : ℕ) (inode : Inode) (d : Device)
    → block < 7
    → bmap_at create block inode d
      ≡ (ensure_zone create block inode d >>= (λ inode' d'. ok (inode'.zone block, inode') d'))
unfolding bmap_at
bmap_direct create block inode d h =
    let a : leb block_limit block ≡ false = ground arith in
    let b : ltb block 7 ≡ true = ground arith in if_false _ _ a ∙ if_true _ _ b

bmap_indirect :
    (create : Bool) (block : ℕ) (inode : Inode) (d : Device)
    → 7 ≤ block
    → block < 519
    → bmap_at create block inode d ≡ indirect create (block - 7) inode d
unfolding bmap_at
bmap_indirect create block inode d h l =
    let a : leb block_limit block ≡ false = ground arith in
    let b : ltb block 7 ≡ false = ground arith in
    let c : ltb (block - 7) 512 ≡ true = ground arith in
    if_false _ _ a ∙ if_false _ _ b ∙ if_true _ _ c

bmap_double :
    (create : Bool) (block : ℕ) (inode : Inode) (d : Device)
    → 519 ≤ block
    → block < block_limit
    → bmap_at create block inode d ≡ double_indirect create (block - 7 - 512) inode d
unfolding bmap_at
bmap_double create block inode d h l =
    let a : leb block_limit block ≡ false = ground arith in
    let b : ltb block 7 ≡ false = ground arith in
    let c : ltb (block - 7) 512 ≡ false = ground arith in
    if_false _ _ a ∙ if_false _ _ b ∙ if_false _ _ c

Finds-map :
    (f g : Inode → Device → Io (ℕ × Inode))
    → ((inode : Inode) (d : Device) → f inode d ≡ g inode d)
    → (r : Io (ℕ × Inode)) → Finds g r
    → Finds f r
Finds-map f g e (ok r d) (v, h) = (v, λ n. subst (Yields r.0) (sym (e r.1 d)) (h n))
Finds-map f g e panic h = h
Finds-map f g e fault h = h

direct_lookup :
    (block : ℕ) (i : Inode) (d : Device)
    → Yields
        (i.zone block)
        (ensure_zone false block i d >>= (λ inode' d'. ok (inode'.zone block, inode') d'))
unfolding ensure_zone
direct_lookup block i d = refl

direct-Finds :
    (block : ℕ) (inode : Inode) (d : Device)
    → IsValid d
    → block < 7
    → Finds (bmap block) (create_block block inode d)
direct-Finds block inode d v h =
    subst (Finds (bmap block)) (sym (bmap_direct true block inode d h)) (
      zoned_then block inode d (λ i d'. IsValid d') (bmap block) (λ i d'. ok (i.zone block, i) d') v
        (λ i e. v) (λ z i a b e. (got-Grows 0 z d v a b).valid)
        (λ i d' w. (
          w,
          λ n.
              subst (Yields (i.zone block)) (sym (bmap_direct false block i d' h))
                (direct_lookup block i d'),
        ))
        (ensure_zone true block inode d) (ensure_zone-Zoned block inode d v))

single-Finds :
    (block : ℕ) (inode : Inode) (d : Device)
    → IsValid d
    → Owned inode d
    → Finds (indirect false block) (indirect true block inode d)
unfolding indirect
single-Finds block inode d v o =
    zoned_then 7 inode d (ZoneUsed 7) (indirect false block) _ (v, o.single)
      (λ i e. (v, λ n. absurd (n e))) (λ z i a b e. made-ZoneUsed 7 z i d v a b e)
      (λ i d' w. indirect-Finds block i d' w.0 w.1) (ensure_zone true 7 inode d)
      (ensure_zone-Zoned 7 inode d v)

doubled-Finds :
    (block : ℕ) (inode : Inode) (d : Device)
    → IsValid d
    → Owned inode d
    → Finds (double_indirect false block) (double_indirect true block inode d)
unfolding double_indirect
doubled-Finds block inode d v o =
    zoned_then 8 inode d (λ i d'. ZoneUsed 8 i d' × EntriesUsed (block / 512) i d')
      (double_indirect false block) _ ((v, o.double), o.entries (block / 512))
      (λ i e. ((v, λ n. absurd (n e)), λ n. absurd (n e)))
      (λ z i a b e. (made-ZoneUsed 8 z i d v a b e, made-EntriesUsed (block / 512) z i d e))
      (λ i d' w. double-Finds block i d' w.0.0 w.0.1 w.1) (ensure_zone true 8 inode d)
      (ensure_zone-Zoned 8 inode d v)

three_cases : (block : ℕ) → (block < 7) ⊎ ((7 ≤ block) × (block < 519)) ⊎ (519 ≤ block)
three_cases block = omega arith

-- On a valid device, for a file whose blocks of entries are used, `create_block` of a block number
-- below the limit leaves the device valid, and where it gives a block, `bmap` then finds that
-- block. Neither panics.
pub create_block-Finds :
    (block : ℕ) (inode : Inode) (d : Device)
    → IsValid d
    → Owned inode d
    → block < block_limit
    → Finds (bmap block) (create_block block inode d)
create_block-Finds block inode d v o l = elim (three_cases block) [
  | inl h ↦ direct-Finds block inode d v h
  | inr (inl (a, b)) ↦ subst (Finds (bmap block)) (sym (bmap_indirect true block inode d a b)) (
      Finds-map (bmap block) (indirect false (block - 7))
        (λ i d'. bmap_indirect false block i d' a b) (indirect true (block - 7) inode d)
        (single-Finds (block - 7) inode d v o))
  | inr (inr h) ↦ subst (Finds (bmap block)) (sym (bmap_double true block inode d h l)) (
      Finds-map (bmap block) (double_indirect false (block - 7 - 512))
        (λ i d'. bmap_double false block i d' h l) (double_indirect true (block - 7 - 512) inode d)
        (doubled-Finds (block - 7 - 512) inode d v o))
]
