-- ===== src/Fs/Bmap.antt =====
-- fs/inode.c: the blocks of a file, `_bmap`.
pub mod Entry
pub mod Create
pub mod Found
use my_practice.Base.{
  ℕ, ◌+◌, ◌-◌, ◌*◌, ◌/◌, ◌%◌, Bool, true, false, ◌&&◌, ltb, leb, ◌==◌, if◌then◌else◌, update,
}
use my_practice.Fs.Device.{Device, Io, ok, panic, ◌>>=◌}
use my_practice.Fs.Bitmap.{new_block}

-- The fields of `struct m_inode` that the blocks of a file need
pub record Inode : Type 0 where
  pub mode : ℕ
  pub size : ℕ
  pub zone : ℕ → ℕ
  pub mtime : ℕ
  pub ctime : ℕ
  pub dirt : Bool

-- `i_zone[k] = block`, an unsigned short, and what follows where it is not 0
abbrev pub set_zone : (k block now : ℕ) → Inode → Inode
set_zone k block now inode =
    if block % 65536 == 0
    then record inode { zone = update inode.zone k 0 }
    else record inode { zone = update inode.zone k (block % 65536); ctime = now; dirt = true }

-- A block for `i_zone[k]`, where it is to be made and there is none
unfoldable pub ensure_zone : (create : Bool) → (k : ℕ) → Inode → Device → Io Inode
ensure_zone create k inode d =
    if create && (inode.zone k == 0)
    then new_block d >>= (λ block d'. ok (set_zone k block d'.now inode) d')
    else ok inode d

-- `bread` and `brelse` on what uses a block's buffer
abbrev pub hold : (block : ℕ) → Device → Device
hold block d = record d { count = update d.count block (d.count block + 1) }

abbrev pub release : (block : ℕ) → Device → Device
release block d = record d { count = update d.count block (d.count block - 1) }

abbrev pub set_word : (block i n : ℕ) → Device → Device
set_word block i n d = record d { word = update d.word block (update (d.word block) i (n % 65536)) }

-- The entry `i` of an indirect block, with a new block where it is 0 and is to be made
unfoldable pub entry : (create : Bool) → (block i : ℕ) → Device → Io ℕ
entry create block i d =
    if d.readable block
    then (if create && (d.word block i == 0)
        then new_block (hold block d)
          >>= (λ n d'. ok n (release block (if n == 0 then d' else set_word block i n d')))
        else ok (d.word block i) (release block (hold block d)))
    else ok 0 d

abbrev pub block_limit : ℕ
block_limit = 7 + 512 + 512 * 512

-- The part of `_bmap` for the blocks behind `i_zone[7]`
unfoldable pub indirect : (create : Bool) → (block : ℕ) → Inode → Device → Io (ℕ × Inode)
indirect create block inode d = ensure_zone create 7 inode d >>= (λ inode' d'.
    if inode'.zone 7 == 0
    then ok (0, inode') d'
    else entry create (inode'.zone 7) block d' >>= (λ n d''. ok (n, inode') d''))

-- The part for those behind `i_zone[8]`
pub double_indirect : (create : Bool) → (block : ℕ) → Inode → Device → Io (ℕ × Inode)
double_indirect create block inode d = ensure_zone create 8 inode d >>= (λ inode' d'.
    if inode'.zone 8 == 0
    then ok (0, inode') d'
    else entry create (inode'.zone 8) (block / 512) d' >>= (λ b d''.
      if b == 0
      then ok (0, inode') d''
      else entry create b (block % 512) d'' >>= (λ n d3. ok (n, inode') d3)))

-- `_bmap` for a block number that is not negative
unfoldable pub bmap_at : (create : Bool) → (block : ℕ) → Inode → Device → Io (ℕ × Inode)
bmap_at create block inode d =
    if leb block_limit block
    then panic
    else if ltb block 7
    then ensure_zone create block inode d >>= (λ inode' d'. ok (inode'.zone block, inode') d')
    else if ltb (block - 7) 512
    then indirect create (block - 7) inode d
    else double_indirect create (block - 7 - 512) inode d

abbrev pub bmap : (block : ℕ) → Inode → Device → Io (ℕ × Inode)
bmap = bmap_at false

abbrev pub create_block : (block : ℕ) → Inode → Device → Io (ℕ × Inode)
create_block = bmap_at true
