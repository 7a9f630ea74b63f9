-- ===== src/Fs/Truncate.antt =====
-- fs/truncate.c: freeing the blocks of a file.
pub mod Shrinks
pub mod Entries
pub mod Zones
pub mod Direct
use my_practice.Base.{
  ℕ, zero, suc, ◌+◌, ◌/◌, ◌%◌, Bool, true, false, ◌||◌, ◌==◌, if◌then◌else◌, update,
}
use my_practice.Fs.Device.{Device, Io, ok, panic, fault, ◌>>=◌}
use my_practice.Fs.Bitmap.{free_block}
use my_practice.Fs.Bmap.{Inode, hold, release}

-- The loop of `free_ind` and `free_dind` over the entries of a block, with `n` left from `i` on
unfoldable pub free_entries :
    (free : ℕ → Device → Io (Unit {0})) → (n i block : ℕ) → Device → Io (Unit {0})
free_entries free zero i block d = ok tt d
free_entries free (suc n) i block d =
    (if d.word block i == 0 then ok tt d else free (d.word block i) d)
    >>= (λ u d'. free_entries free n (i + 1) block d')

-- The body that `free_ind` and `free_dind` share
abbrev pub free_with : (free : ℕ → Device → Io (Unit {0})) → (block : ℕ) → Device → Io (Unit {0})
free_with free block d =
    if block == 0
    then ok tt d
    else if d.readable block
    then free_entries free 512 0 block (hold block d)
      >>= (λ u d'. free_block block (release block d'))
    else free_block block d

unfoldable pub free_ind : (block : ℕ) → Device → Io (Unit {0})
free_ind = free_with free_block

unfoldable pub free_dind : (block : ℕ) → Device → Io (Unit {0})
free_dind = free_with free_ind

abbrev pub clear_zone : (k : ℕ) → Inode → Inode
clear_zone k inode = record inode { zone = update inode.zone k 0 }

-- The loop over `i_zone` up to 6, with `n` left from `i` on
unfoldable pub free_zones : (n i : ℕ) → Inode → Device → Io Inode
free_zones zero i inode d = ok inode d
free_zones (suc n) i inode d =
    if inode.zone i == 0
    then free_zones n (i + 1) inode d
    else free_block (inode.zone i) d >>= (λ u d'. free_zones n (i + 1) (clear_zone i inode) d')

-- `S_ISREG` and `S_ISDIR`
abbrev pub is_reg : (mode : ℕ) → Bool
is_reg mode = (mode / 4096) % 16 == 8

abbrev pub is_dir : (mode : ℕ) → Bool
is_dir mode = (mode / 4096) % 16 == 4

-- What is written to the inode last
abbrev pub emptied : (now : ℕ) → Inode → Inode
emptied now inode = record inode {
  zone = update (update inode.zone 7 0) 8 0;
  size = 0;
  dirt = true;
  mtime = now;
  ctime = now;
}

unfoldable pub truncate : Inode → Device → Io Inode
truncate inode d =
    if is_reg inode.mode || is_dir inode.mode
    then free_zones 7 0 inode d >>= (λ inode' d1.
      free_ind (inode'.zone 7) d1
      >>= (λ u d2. free_dind (inode'.zone 8) d2 >>= (λ u' d3. ok (emptied d3.now inode') d3)))
    else ok inode d
