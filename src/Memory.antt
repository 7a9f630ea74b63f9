-- ===== src/Memory.antt =====
-- mm/memory.c: page frames with their reference counts, page tables, copy on write, and sharing.
mod Defs
pub mod Frames
pub mod Paging
pub mod Cow
pub mod Tables
mod Tests
unfoldable pub use Defs.*
use my_practice.Base.{
  ℕ, zero, suc, ◌+◌, ◌-◌, ◌*◌, ◌/◌, ◌%◌, ◌^◌, Bool, not, ◌&&◌, ◌||◌, Option, none, some, ltb, leb,
  ◌==◌, if◌then◌else◌, update,
}
use my_practice.Base.Int.{ℤ, pos, negsuc}

-- The scan of `get_free_page`: the last of the first `k` entries that is 0.
pub last_free : (ℕ → ℕ) → ℕ → Option ℕ
last_free map zero = none
last_free map (suc k) = let rest = last_free map k in if map k == 0 then some k else rest

pub get_free_page : Memory → Run ℕ
get_free_page m = elim (last_free m.mem_map paging_pages) [
  | none ↦ ok 0 m
  | some i ↦
      ok (low_mem + i * 4096)
        (record m { mem_map = update m.mem_map i 1; word = clear_page (low_mem + i * 4096) m.word })
]

-- A free frame is marked free again before the panic.
pub free_page : ℕ → Memory → Run (Unit {0})
free_page addr m =
    if ltb addr low_mem
    then ok tt m
    else (if leb m.high_memory addr
        then panic
        else (if m.mem_map (map_nr addr) == 0 then panic else ok tt (dec_map (map_nr addr) m)))

-- The inner loop of `free_page_tables`: `n` entries from `pg_table` on.
pub free_table : ℕ → ℕ → Memory → Run (Unit {0})
free_table zero pg_table m = ok tt m
free_table (suc n) pg_table m =
    and_then (if present (m.word pg_table) then free_page (frame (m.word pg_table)) m else ok tt m)
      (λ _ m'. free_table n (pg_table + 4) (store pg_table 0 m'))

-- The outer loop: `size` entries of the directory from `dir` on.
pub free_dirs : ℕ → ℕ → Memory → Run (Unit {0})
free_dirs zero dir m = ok tt m
free_dirs (suc size) dir m =
    and_then
      (if present (m.word dir)
        then and_then (free_table 1024 (frame (m.word dir)) m) (λ _ m'.
          and_then (free_page (frame (m'.word dir)) m') (λ _ m''. ok tt (store dir 0 m'')))
        else ok tt m)
      (λ _ m'. free_dirs size (dir + 4) m')

-- A size in bytes, rounded up to directory entries, in 32 bits.
abbrev pub dir_count : ℕ → ℕ
dir_count size = (size + 0x3fffff) % 2 ^ 32 / 2 ^ 22

-- `addr & 0x3fffff` is 0
abbrev pub aligned : ℕ → Bool
aligned addr = addr % 2 ^ 22 == 0

pub free_page_tables : ℕ → ℕ → Memory → Run ℤ
free_page_tables from size m =
    if not (aligned from) || from == 0
    then panic
    else and_then (free_dirs (dir_count size) (dir_entry from) m) (λ _ m'. ok (pos 0) m')

-- The body of the inner loop of `copy_page_tables`, for the entry at `from` and its copy at `to`.
pub copy_entry : ℕ → ℕ → Memory → Memory
copy_entry from to m =
    let this_page = clear_rw (m.word from) in
    if present (m.word from)
    then (if ltb low_mem this_page
        then inc_map (map_nr this_page) (store from this_page (store to this_page m))
        else store to this_page m)
    else m

-- The inner loop of `copy_page_tables`: `nr` entries.
pub copy_table : ℕ → ℕ → ℕ → Memory → Memory
copy_table zero from to m = m
copy_table (suc nr) from to m = copy_table nr (from + 4) (to + 4) (copy_entry from to m)

-- The outer loop: `size` directory entries; `nr` entries of each table are copied.
pub copy_dirs : (nr size from_dir to_dir : ℕ) → Memory → Run ℤ
copy_dirs nr zero from_dir to_dir m = ok (pos 0) m
copy_dirs nr (suc size) from_dir to_dir m =
    let next = copy_dirs nr size (from_dir + 4) (to_dir + 4) in
    if present (m.word to_dir)
    then panic
    else (if present (m.word from_dir)
        then and_then (get_free_page m) (λ to_page_table m'.
          if to_page_table == 0
          then ok (negsuc 0) m'
          else next (
              copy_table nr (frame (m.word from_dir)) to_page_table
                (store to_dir (or_7 to_page_table) m')))
        else next m)

-- From address 0 only the first 160 pages are copied.
pub copy_page_tables : (from to size : ℕ) → Memory → Run ℤ
copy_page_tables from to size m =
    if not (aligned from) || not (aligned to)
    then panic
    else copy_dirs (if from == 0 then 0xa0 else 1024) (dir_count size) (dir_entry from)
        (dir_entry to) m

-- The two messages of `put_page` change no state.
unfoldable pub put_page : (page address : ℕ) → Memory → Run ℕ
put_page page address m =
    if present (m.word (dir_entry address))
    then ok page (store (frame (m.word (dir_entry address)) + table_offset address) (or_7 page) m)
    else and_then (get_free_page m) (λ tmp m'.
      if tmp == 0
      then ok 0 m'
      else ok page (
          store (tmp + table_offset address) (or_7 page) (store (dir_entry address) (or_7 tmp) m')))

pub un_wp_page : ℕ → Memory → Run (Unit {0})
un_wp_page table_entry m =
    let old_page = frame (m.word table_entry) in
    if leb low_mem old_page && m.mem_map (map_nr old_page) == 1
    then ok tt (store table_entry (set_rw (m.word table_entry)) m)
    else and_then (get_free_page m) (λ new_page m'.
      if new_page == 0
      then exit m'
      else ok tt (
          copy_page old_page new_page (
            store table_entry (or_7 new_page)
              (if leb low_mem old_page then dec_map (map_nr old_page) m' else m'))))

-- the address of the page-table entry of `address`
abbrev pub table_entry_of : ℕ → Memory → ℕ
table_entry_of address m = frame (m.word (dir_entry address)) + table_offset address

pub do_wp_page : ℕ → Memory → Run (Unit {0})
do_wp_page address m = un_wp_page (table_entry_of address m) m

pub write_verify : ℕ → Memory → Run (Unit {0})
write_verify address m =
    if present (m.word (dir_entry address))
    then (if m.word (table_entry_of address m) % 4 == 1
        then un_wp_page (table_entry_of address m) m
        else ok tt m)
    else ok tt m

-- The end of `get_empty_page` where memory has run out: the frame, if any, is given back.
abbrev pub give_back : ℕ → Memory → Run (Unit {0})
give_back tmp m = and_then (free_page tmp m) (λ _ m'. exit m')

pub get_empty_page : ℕ → Memory → Run (Unit {0})
get_empty_page address m = and_then (get_free_page m) (λ tmp m'.
    if tmp == 0
    then give_back tmp m'
    else and_then (put_page tmp address m')
        (λ put m2. if put == 0 then give_back tmp m2 else ok tt m2))

-- The directory entry that `try_to_share` reads: that of `address` plus that of the task's base.
abbrev pub share_entry : (start_code address : ℕ) → ℕ
share_entry start_code address = dir_entry address + dir_entry start_code

-- `e & 0x41` is 1: present and not dirty
abbrev pub clean : ℕ → Bool
clean e = present e && e / 2 ^ 6 % 2 == 0

-- The end of `try_to_share`, from "share them" on, with the test before it.
pub share_entry_at : (phys_addr from_page to_page : ℕ) → Memory → Run ℕ
share_entry_at phys_addr from_page to_page m =
    let m' = store from_page (clear_rw (m.word from_page)) m in
    if present (m.word to_page)
    then panic
    else ok 1 (inc_map (map_nr phys_addr) (store to_page (m'.word from_page) m'))

-- The task `p` starts at `p_start`, the current one at `current_start`.
pub try_to_share : (address p_start current_start : ℕ) → Memory → Run ℕ
try_to_share address p_start current_start m =
    let from_page = frame (m.word (share_entry p_start address)) + table_offset address in
    let phys_addr = frame (m.word from_page) in
    let to_dir = share_entry current_start address in
    if not (present (m.word (share_entry p_start address))) || not (clean (m.word from_page))
    then ok 0 m
    else (if leb m.high_memory phys_addr || ltb phys_addr low_mem
        then ok 0 m
        else (if present (m.word to_dir)
            then share_entry_at phys_addr from_page (frame (m.word to_dir) + table_offset address) m
            else and_then (get_free_page m) (λ to m'.
              if to == 0
              then exit m'
              else share_entry_at phys_addr from_page (frame to + table_offset address)
                  (store to_dir (or_7 to) m'))))

-- Frames from `start_mem` up to `end_mem` are free, all others used.
pub mem_init : (start_mem end_mem : ℕ) → Memory → Memory
mem_init start_mem end_mem m = record m {
  high_memory = end_mem;
  mem_map = λ i.
      if leb (map_nr start_mem) i && ltb i (map_nr start_mem + (end_mem - start_mem) / 4096)
      then 0
      else used;
}
