-- ===== src/Shm.antt =====
-- mm/shm.c: shared memory over the page tables: its segments, and the search for free addresses.
pub mod Attach
pub mod Search
pub mod Get
mod Tests
use my_practice.Base.{
  ℕ, zero, suc, ◌+◌, ◌-◌, ◌*◌, ◌/◌, ◌%◌, ◌^◌, Bool, true, false, not, ◌&&◌, ◌||◌, Option, none,
  some, ltb, leb, ◌==◌, if◌then◌else◌, update,
}
use my_practice.Memory.{
  Memory, Run, ok, and_then, present, frame, or_7, dir_entry, table_offset, store, get_free_page,
  free_page, put_page,
}

-- SHM_NUM
abbrev pub shm_num : ℕ
shm_num = 64

-- PAGE_NUM
abbrev pub page_max : ℕ
page_max = 64

-- TASK_NUM
abbrev pub task_num : ℕ
task_num = 64

-- SHM_MAX_HEAP
abbrev pub shm_max_heap : ℕ
shm_max_heap = 0xA00000

-- The key -1 of a free entry, in an unsigned long
abbrev pub no_key : ℕ
no_key = 2 ^ 32 - 1

-- `shmstruct`
pub record Segment : Type 0 where
  pub key : ℕ
  pub page_num : ℕ
  pub shmaddr : ℕ → ℕ
  pub pid : ℕ → ℕ
  pub vaddr : ℕ → ℕ
  pub nattch : ℕ
  pub atime : ℕ
  pub dtime : ℕ

-- `shmnum`
abbrev pub Table : Type 0
Table = ℕ → Segment

-- What the functions read of `current`.
pub record Current : Type 0 where
  pub pid : ℕ
  pub code_base : ℕ
  pub brk : ℕ
  pub cutime : ℕ

-- `memset(a, 0, 64)` over words: 64 bytes are 16 of them.
abbrev pub clear_64 : (ℕ → ℕ) → ℕ → ℕ
clear_64 a j = if ltb j 16 then 0 else a j

pub inishm : Table → Table
inishm t i =
    if ltb i shm_num
    then record {
      key = no_key;
      page_num = 0;
      shmaddr = clear_64 (t i).shmaddr;
      pid = clear_64 (t i).pid;
      vaddr = clear_64 (t i).vaddr;
      nattch = 0;
      atime = 0;
      dtime = 0;
    }
    else t i

-- `((i_num << 8) & 0x00FFFF00) | (proj_id & 0xFF)`
abbrev pub file_key : (i_num proj_id : ℕ) → ℕ
file_key i_num proj_id = i_num % 2 ^ 16 * 256 + proj_id % 256

-- `sys_ftok`. `open_namei` gives the number of the file's inode, or nothing where it fails.
pub ftok : (open_namei : ℕ → Option ℕ) (pathname : Option ℕ) (proj_id : ℕ) → Option ℕ
ftok open_namei pathname proj_id = elim pathname [
  | none ↦ none
  | some path ↦
      if proj_id == 0
      then none
      else elim (open_namei path) [ none ↦ none | some i_num ↦ some (file_key i_num proj_id) ]
]

-- The page table of `base`, which is made where there is none, or 0 where there is no free frame.
pub get_table : (base : ℕ) → Memory → Run ℕ
get_table base m =
    if present (m.word (dir_entry base))
    then ok (frame (m.word (dir_entry base))) m
    else and_then (get_free_page m)
        (λ tmp m'. if tmp == 0 then ok 0 m' else ok tmp (store (dir_entry base) (or_7 tmp) m'))

-- `data_base-pageNum*PAGE_SIZE` of unsigned numbers
abbrev pub first_of : (base page_num : ℕ) → ℕ
first_of base page_num = (base + 2 ^ 32 - page_num * 4096 % 2 ^ 32) % 2 ^ 32

-- The loop of `findEmptyAdress`, with `fuel` rounds, for the page `i` at `base`; none where the rounds
-- do not suffice
pub search : (fuel i base limit page_num : ℕ) → Memory → Run (Option ℕ)
search zero i base limit page_num m = ok none m
search (suc fuel) i base limit page_num m =
    let again : Memory → Run (Option ℕ) = search fuel 0 base limit page_num in
    let rest : Memory → Run (Option ℕ) =
      search fuel (i + 1) ((base + 4096) % 2 ^ 32) limit page_num in
    if ltb i page_num && ltb base limit
    then and_then (get_table base m) (λ table m'.
      if table == 0
      then ok (some 0) m'
      else (if present (m'.word (table + table_offset base))
          then again m'
          else (if i + 1 == page_num
              then ok (some (first_of ((base + 4096) % 2 ^ 32) page_num)) m'
              else rest m')))
    else ok (some 0) m

-- The heap's end, rounded up to a page
abbrev pub heap_end : Current → ℕ
heap_end c = (c.code_base + c.brk + 0xfff) % 2 ^ 32 / 4096 * 4096

-- `code_base+SHM_MAX_HEAP` of unsigned numbers
abbrev pub heap_limit : Current → ℕ
heap_limit c = (heap_end c + shm_max_heap) % 2 ^ 32

pub find_empty_adress : (fuel page_num : ℕ) → Current → Memory → Run (Option ℕ)
find_empty_adress fuel page_num c = search fuel 0 (heap_end c) (heap_limit c) page_num

-- IPC_CREAT and IPC_EXCL
abbrev pub ipc_creat : ℕ → Bool
ipc_creat shmflg = shmflg / 2 ^ 9 % 2 == 1

abbrev pub ipc_excl : ℕ → Bool
ipc_excl shmflg = shmflg / 2 ^ 10 % 2 == 1

-- The first of the entries from `i` on that has the key or is free, of `n` entries.
pub scan : (n i key : ℕ) → Table → Option ℕ
scan zero i key t = none
scan (suc n) i key t =
    let rest = scan n (i + 1) key t in
    if (t i).key == key || (t i).key == no_key then some i else rest

-- The frames `n` to 1 of a segment are given back.
pub release : (n : ℕ) → (ℕ → ℕ) → Memory → Run (ℕ → ℕ)
release zero a m = ok a m
release (suc n) a m = and_then (free_page (a n) m) (λ _ m'. release n (update a n 0) m')

-- `n` frames for a segment, from its page `i` on; without a frame all are given back.
pub allocate : (n i : ℕ) → (ℕ → ℕ) → Memory → Run (Bool × (ℕ → ℕ))
allocate zero i a m = ok (true, a) m
allocate (suc n) i a m = and_then (get_free_page m) (λ page m'.
    if page == 0
    then and_then (release (suc i) (update a i 0) m') (λ a' m2. ok (false, a') m2)
    else allocate n (i + 1) (update a i page) m')

-- The result of `sys_shmget`. `wild`: the code writes through a null pointer.
pub data Got : Type 0 where
  id : ℕ → Got
  failed wild : Got

-- A new segment in the free entry `i`
pub create : (i key page_num : ℕ) → Table → Memory → Run (Got × Table)
create i key page_num t m = and_then (allocate page_num 0 (t i).shmaddr m) (λ r m'.
    let (done, a) = r in
    if done
    then ok
        (
          id i,
          update t i (record (t i) { shmaddr = a; page_num = page_num; key = key; nattch = 0 }),
        )
        m'
    else ok (failed, update t i (record (t i) { shmaddr = a; page_num = 0; key = no_key })) m')

pub shmget : (key size shmflg : ℕ) → Table → Memory → Run (Got × Table)
shmget key size shmflg t m =
    let page_num = (size + 0xfff) % 2 ^ 32 / 4096 in
    if size == 0 then ok (failed, t) m else elim (scan shm_num 0 key t) [
      | none ↦ ok (failed, t) m
      | some i ↦
          if ltb page_max page_num
          then ok (failed, t) m
          else (if key == 0 || (ipc_creat shmflg && not ((t i).key == key))
              then (if (t i).key == no_key then create i key page_num t m else ok (wild, t) m)
              else (if ipc_creat shmflg && (not (ipc_excl shmflg) && (t i).key == key)
                  then ok (id i, t) m
                  else ok (failed, t) m))
    ]
