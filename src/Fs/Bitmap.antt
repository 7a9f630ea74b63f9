-- ===== src/Fs/Bitmap.antt =====
-- fs/bitmap.c: the bitmap of blocks.
pub mod Search
pub mod Blocks
pub mod Keep
use my_practice.Base.{
  ℕ, zero, suc, ◌+◌, ◌-◌, ◌*◌, ◌/◌, ◌%◌, Bool, true, false, not, ◌||◌, ◌&&◌, Option, none, some,
  ltb, leb, ◌==◌, if◌then◌else◌, update,
}
use my_practice.Fs.Device.{Device, Io, ok, panic, fault, bit_of, set_map}

-- `notl` and `bsfl`: the lowest clear one of `n` bits from `j` on
unfoldable pub first_clear : (n j : ℕ) → (ℕ → Bool) → Option ℕ
first_clear zero j bits = none
first_clear (suc n) j bits =
    let rest = first_clear n (j + 1) bits in if bits j then rest else some j

-- The loop over the map's words of 32 bits, with `n` of them left
unfoldable pub next_zero : (n ecx : ℕ) → (ℕ → Bool) → ℕ
next_zero zero ecx bits = ecx
next_zero (suc n) ecx bits =
    let rest = next_zero n (ecx + 32) bits in
    elim (first_clear 32 ecx bits) [
      | some j ↦ j
      | none ↦ if ltb (ecx + 32) 8192 then rest else ecx + 32
    ]

unfoldable pub find_first_zero : (ℕ → Bool) → ℕ
find_first_zero bits = next_zero 256 0 bits

-- `b_dirt=0` and `b_uptodate=0`: the next read is from the device.
abbrev pub forget : (block : ℕ) → Device → Device
forget block d = record d { word = update d.word block (d.disk block) }

-- `clear_bit`, whose result says whether the bit was clear, and the panic
abbrev pub clear_map : (map bit : ℕ) → Device → Io (Unit {0})
clear_map map bit d =
    if d.loaded map
    then (if d.zmap map bit then ok tt (set_map map bit false d) else panic)
    else fault

-- `get_hash_table` of a block in the buffer cache: one more uses its buffer.
abbrev pub get_hash_table : (block : ℕ) → Device → Device
get_hash_table block d = record d { count = update d.count block (d.count block + 1) }

-- A buffer that no one uses is used by `free_block` alone after `get_hash_table`, until `brelse`; where
-- others use it too, `free_block` returns without `brelse`.
unfoldable pub free_block : (block : ℕ) → Device → Io (Unit {0})
free_block block d =
    if not d.mounted || (ltb block d.first_data_zone || leb d.nzones block)
    then panic
    else if d.count block == 0
    then clear_map (bit_of block d / 8192) (bit_of block d % 8192) (forget block d)
    else ok tt (get_hash_table block d)

-- The loop of `new_block` over the maps, with `n` left from `i` on: the map and its bit
unfoldable pub find_map : (n i : ℕ) → Device → Option (ℕ × ℕ)
find_map zero i d = none
find_map (suc n) i d =
    let rest = find_map n (i + 1) d in
    if d.loaded i && ltb (find_first_zero (d.zmap i)) 8192
    then some (i, find_first_zero (d.zmap i))
    else rest

-- `clear_block` on the block's buffer
abbrev pub clear_block : (block : ℕ) → Device → Device
clear_block block d = record d { word = update d.word block (λ i. 0) }

-- `new_block` from `set_bit` on
abbrev pub take_block : (i j : ℕ) → Device → Io ℕ
take_block i j d =
    let block = j + i * 8192 + d.first_data_zone - 1 in
    if d.zmap i j
    then panic
    else if leb d.nzones block
    then ok 0 (set_map i j true d)
    else if d.count block == 0
    then ok block (clear_block block (set_map i j true d))
    else panic

unfoldable pub new_block : Device → Io ℕ
new_block d =
    if d.mounted
    then elim (find_map 8 0 d) [ none ↦ ok 0 d | some ij ↦ take_block ij.0 ij.1 d ]
    else panic
