-- ===== src/Shm/Attach.antt =====
-- mm/shm.c: `sys_shmat` and `sys_shmdt`.
pub mod Mapped
pub mod Anywhere
pub mod Cancel
use my_practice.Base.{
  ℕ, zero, suc, ◌+◌, ◌-◌, ◌*◌, ◌/◌, ◌%◌, ◌^◌, Bool, true, false, not, ◌&&◌, ◌||◌, Option, none,
  some, ltb, leb, ◌==◌, if◌then◌else◌, update,
}
use my_practice.Memory.{
  Memory, Run, ok, and_then, present, frame, dir_entry, table_offset, store, free_page, put_page,
}
use my_practice.Shm.{shm_num, task_num, no_key, Segment, Table, Current, find_empty_adress}

-- The loop of `sys_shmat` at an address that it has found: `n` pages from page `i` on.
unfoldable pub map_pages : (n i address : ℕ) → (ℕ → ℕ) → Memory → Run (Unit {0})
map_pages zero i address a m = ok tt m
map_pages (suc n) i address a m =
    and_then (put_page (a i) address m) (λ _ m'. map_pages n (i + 1) (address + 4096) a m')

-- The loop at an address that it is given: each page is put at the same address.
pub map_given : (n i address : ℕ) → (ℕ → ℕ) → Memory → Run Bool
map_given zero i address a m = ok true m
map_given (suc n) i address a m =
    and_then (put_page (a i) address m)
      (λ put m'. if put == 0 then ok false m' else map_given n (i + 1) address a m')

-- The first free entry of a segment's processes from `j` on, of `n`
unfoldable pub free_slot : (n j : ℕ) → (ℕ → ℕ) → Option ℕ
free_slot zero j pid = none
free_slot (suc n) j pid = let rest = free_slot n (j + 1) pid in if pid j == 0 then some j else rest

-- The segment once it is attached at `address`
unfoldable pub attached : (address : ℕ) → Current → Segment → Segment
attached address c g =
    let g' : Segment = record g { atime = c.cutime; nattch = g.nattch + 1 } in
    elim (free_slot task_num 0 g.pid) [
      | none ↦ g'
      | some j ↦ record g' { pid = update g.pid j c.pid; vaddr = update g.vaddr j address }
    ]

-- The result of `sys_shmat`; `hangs`: the search for an address has not ended in its rounds.
pub data Attached : Type 0 where
  returned : ℕ → Attached
  failed hangs : Attached

-- `address - code_base` of unsigned numbers
abbrev pub relative : (address : ℕ) → Current → ℕ
relative address c = (address + 2 ^ 32 - c.code_base) % 2 ^ 32

-- `sys_shmat` where no address is given, with `fuel` rounds for the search
unfoldable pub attach_anywhere :
    (fuel shmid : ℕ) → Current → Table → Memory → Run (Attached × Table)
attach_anywhere fuel shmid c t m =
    and_then (find_empty_adress fuel (t shmid).page_num c m) (λ found m'. elim found [
      | none ↦ ok (hangs, t) m'
      | some a ↦
          if a == 0
          then ok (failed, t) m'
          else and_then (map_pages (t shmid).page_num 0 a (t shmid).shmaddr m')
              (λ _ m2. ok (returned (relative a c), update t shmid (attached a c (t shmid))) m2)
    ])

-- `sys_shmat` at the address `a`. With SHM_RND it is `a - a % SHMLBA`, which is `a`.
pub attach_at : (a shmid : ℕ) → Current → Table → Memory → Run (Attached × Table)
attach_at a shmid c t m =
    and_then (map_given (t shmid).page_num 0 a (t shmid).shmaddr m) (λ done m'.
      if done
      then ok (returned (relative a c), update t shmid (attached a c (t shmid))) m'
      else ok (failed, t) m')

-- A segment's number and an address, where 0 is the null pointer. A negative number is one from 64 on.
pub shmat : (fuel shmid shmaddr : ℕ) → Current → Table → Memory → Run (Attached × Table)
shmat fuel shmid shmaddr c t m =
    if leb shm_num shmid
    then ok (failed, t) m
    else (if shmaddr == 0 then attach_anywhere fuel shmid c t m else attach_at shmaddr shmid c t m)

-- `cancelAdress`. Its second test is of the first entry of the page table.
pub cancel_adress : (addr : ℕ) → Memory → Memory
cancel_adress addr m =
    let table = frame (m.word (dir_entry addr)) in
    if present (m.word (dir_entry addr)) && present (m.word table)
    then store (table + table_offset addr) 0 m
    else m

-- `n` pages from `addr` on
pub cancel_pages : (n addr : ℕ) → Memory → Memory
cancel_pages zero addr m = m
cancel_pages (suc n) addr m = cancel_pages n (addr + 4096) (cancel_adress addr m)

-- The entry of a segment's processes that `sys_shmdt` looks for, from `j` on, of `n`
pub find_slot : (n j pid addr : ℕ) → Segment → Option ℕ
find_slot zero j pid addr g = none
find_slot (suc n) j pid addr g =
    let rest = find_slot n (j + 1) pid addr g in
    if g.pid j == pid && g.vaddr j == addr then some j else rest

-- The segment and its entry, from segment `i` on, of `n`. An unsigned key is never below 0.
pub find_segment : (n i pid addr : ℕ) → Table → Option (ℕ × ℕ)
find_segment zero i pid addr t = none
find_segment (suc n) i pid addr t =
    let rest = find_segment n (i + 1) pid addr t in
    elim (find_slot task_num 0 pid addr (t i)) [ none ↦ rest | some j ↦ some (i, j) ]

-- The frames from page `i` on, `n` of them, are given back.
pub free_pages : (n i : ℕ) → (ℕ → ℕ) → Memory → Run (Unit {0})
free_pages zero i a m = ok tt m
free_pages (suc n) i a m = and_then (free_page (a i) m) (λ _ m'. free_pages n (i + 1) a m')

-- The end of `sys_shmdt`, for the entry `j` of segment `i`
pub detach : (i j : ℕ) → Table → Memory → Run (Bool × Table)
detach i j t m =
    let g : Segment = t i in
    let g' : Segment = record g {
      nattch = g.nattch - 1;
      pid = update g.pid j 0;
      vaddr = update g.vaddr j 0;
    } in
    let m' = cancel_pages g.page_num (g.vaddr j) m in
    if g.nattch == 0
    then ok (true, t) m
    else (if g.nattch == 1
        then and_then (free_pages g.page_num 0 g.shmaddr m')
            (λ _ m2. ok (true, update t i (record g' { key = no_key; page_num = 0 })) m2)
        else ok (true, update t i g') m')

-- The result tells whether `sys_shmdt` returns 0.
pub shmdt : (shmaddr : ℕ) → Current → Table → Memory → Run (Bool × Table)
shmdt shmaddr c t m =
    if shmaddr == 0
    then ok (false, t) m
    else elim (find_segment shm_num 0 c.pid ((shmaddr + c.code_base) % 2 ^ 32) t) [
      | none ↦ ok (false, t) m
      | some (i, j) ↦ detach i j t m
    ]
