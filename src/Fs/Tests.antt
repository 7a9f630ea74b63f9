-- ===== src/Fs/Tests.antt =====
-- fs: a small device with two used blocks.
use my_practice.Base.{ℕ, ◌<◌, ◌∙◌, ◌≡◌, refl, true, false, ◌&&◌, ltb, ◌==◌, if◌then◌else◌, arith}
use my_practice.Fs.Device.{Device, Io, ok, panic, fault, ◌>>=◌}
use my_practice.Fs.Bitmap.{first_clear, next_zero, find_first_zero, find_map, new_block}
use my_practice.Fs.Bitmap.Blocks.{IsValid, Allocated, new_block-Allocated}
use my_practice.Fs.Bitmap.Keep.{SameUsed, free_new, new_block-SameUsed}
use my_practice.Fs.Bmap.{Inode, bmap, bmap_at, create_block, entry, ensure_zone, indirect}
use my_practice.Fs.Bmap.Create.{Owned, Finds}
use my_practice.Fs.Bmap.Found.{create_block-Finds}
use my_practice.Fs.Truncate.{truncate}
use my_practice.Fs.Truncate.Direct.{Ready, Returns, truncate-Returns}

-- Blocks 3 to 9, of which 3 is used
abbrev small : Device
small = record {
  mounted = true;
  first_data_zone = 3;
  nzones = 10;
  loaded = λ i. true;
  zmap = λ i j. if i == 0 && (ltb 1 j && ltb j 8) then false else true;
  word = λ b i. 0;
  disk = λ b i. 0;
  count = λ b. 0;
  readable = λ b. true;
  now = 77;
}

small-IsValid : IsValid small
small-IsValid = record {
  mounted = refl;
  first = omega arith;
  size = omega arith;
  maps = λ z r. refl;
  bits = λ i j hi hj e. ground arith;
  idle = λ z r e. refl;
}

abbrev file : Inode
file = record {
  mode = 0;
  size = 0;
  zone = λ k. if k == 7 then 3 else 0;
  mtime = 0;
  ctime = 0;
  dirt = false;
}

file-Owned : Owned file small
file-Owned = record {
  single = λ n. ((omega arith, omega arith), refl);
  double = λ n. absurd (n refl);
  entries = λ i n. absurd (n refl);
}

new_block-Allocated_example : Allocated small (new_block small)
new_block-Allocated_example = new_block-Allocated small small-IsValid

new_block-SameUsed_example : SameUsed small (new_block small >>= free_new)
new_block-SameUsed_example = new_block-SameUsed small small-IsValid

create_block-Finds_example : Finds (bmap 20) (create_block 20 file small)
create_block-Finds_example = create_block-Finds 20 file small small-IsValid file-Owned (omega arith)

abbrev block_of : Io (ℕ × Inode) → ℕ
block_of (ok r d) = r.0
block_of panic = 0
block_of fault = 0

first_free : block_of (create_block 20 file small) ≡ 4
unfolding bmap_at indirect ensure_zone entry new_block find_map find_first_zero next_zero
    first_clear
first_free = refl

none_there : block_of (bmap 20 file small) ≡ 0
unfolding bmap_at indirect ensure_zone entry
none_there = refl

-- A regular file whose only block is 3
abbrev short_file : Inode
short_file = record {
  mode = 0x81a4;
  size = 100;
  zone = λ k. if k == 0 then 3 else 0;
  mtime = 0;
  ctime = 0;
  dirt = false;
}

later_0 : (k : ℕ) → 0 < k → short_file.zone k ≡ 0
later_0 k h = ground arith

short_file-Ready : Ready 0 short_file small
short_file-Ready = record {
  inside = λ k lo hi nz. ground arith;
  used = λ k lo hi nz. ground arith;
  distinct = λ j k lo jk hi nz e. nz (e ∙ later_0 k (omega arith));
}

truncate-Returns_example : Returns (truncate short_file small)
truncate-Returns_example =
    truncate-Returns short_file small small-IsValid short_file-Ready refl refl
