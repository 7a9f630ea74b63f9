-- ===== src/Fs/Device.antt =====
-- fs: a mounted device, as the super block and the buffer cache show it.
use my_practice.Base.{ℕ, ◌+◌, ◌-◌, Bool, update}

-- `s_firstdatazone`, `s_nzones` and `s_zmap` of the device's super block, and whether `get_super`
-- finds it. Of the buffers: what each block holds, as 16-bit words, how many have its buffer in
-- use (`b_count`), and whether `bread` can read it. `disk` is what the device itself holds.
-- `now` is `CURRENT_TIME`. `count` does not wrap around as the byte `b_count` does.
pub record Device : Type 0 where
  pub mounted : Bool
  pub first_data_zone : ℕ
  pub nzones : ℕ
  pub loaded : (map : ℕ) → Bool
  pub zmap : (map bit : ℕ) → Bool
  pub word : (block i : ℕ) → ℕ
  pub disk : (block i : ℕ) → ℕ
  pub count : (block : ℕ) → ℕ
  pub readable : (block : ℕ) → Bool
  pub now : ℕ

-- `fault`: a NULL pointer is followed.
pub data Io {ℓ} (A : Type ℓ) : Type ℓ where
  ok : A → Device → Io A
  panic fault : Io A

infixl 5 ◌>>=◌
abbrev pub ◌>>=◌ {ℓ κ} : {A : Type ℓ} {B : Type κ} → Io A → (A → Device → Io B) → Io B
ok a d >>= k = k a d
panic >>= k = panic
fault >>= k = fault

-- The bit of a block in the maps
abbrev pub bit_of : (block : ℕ) → Device → ℕ
bit_of block d = block + 1 - d.first_data_zone

abbrev pub set_map : (map bit : ℕ) → Bool → Device → Device
set_map map bit b d = record d { zmap = update d.zmap map (update (d.zmap map) bit b) }
