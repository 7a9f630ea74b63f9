-- ===== src/Shm/Tests.antt =====
-- mm/shm.c: shared memory on concrete states.
use my_practice.Base.{
  ℕ, ◌+◌, ◌*◌, ◌%◌, ◌^◌, ◌≤◌, ◌<◌, ◌≡◌, refl, ◌≢◌, true, false, none, some, arith, ◌==◌,
  if◌then◌else◌,
}
use my_practice.Memory.{Memory, Run, ok, panic, exit, put_page, present, frame, dir_entry}
use my_practice.Memory.Paging.{IsPaged, translate, same_page}
use my_practice.Memory.Tables.{Put}
use my_practice.Shm.{Segment, Table, Current, no_key, shmget, find_empty_adress, search, get_table}
use my_practice.Shm.Get.{id_of, shmget-shadowed}
use my_practice.Shm.Attach.{
  Attached, returned, hangs, attached, free_slot, map_pages, map_given, attach_anywhere,
  cancel_adress,
}
use my_practice.Shm.Attach.Anywhere.{Anywhere, attach_anywhere-Mapped, attach_anywhere-twice}
use my_practice.Shm.Attach.Cancel.{map_given-last, cancel_adress-cases}

-- A page table at 0x2000 for the addresses from 64 MB on, and no free frame
abbrev tabled : Memory
tabled = record {
  mem_map = λ i. 1;
  high_memory = 0x1000000;
  word = λ a. if a == 64 then 0x2007 else 0;
}

tabled-IsPaged : IsPaged tabled
tabled-IsPaged = record {
  outside = λ a h. ground arith;
  apart = λ a b h k e. ground arith;
  held = λ a i h z. absurd (omega arith);
}

abbrev unused : Segment
unused = record {
  key = no_key;
  page_num = 0;
  shmaddr = λ k. 0;
  pid = λ j. 0;
  vaddr = λ j. 0;
  nattch = 0;
  atime = 0;
  dtime = 0;
}

abbrev frames : ℕ → ℕ
frames k = 0x500000 + k * 4096

abbrev two_pages : Segment
two_pages = record unused { key = 7; page_num = 2; shmaddr = frames }

-- Entry 0 is free, and the segment with the key 7 is number 1.
abbrev segments : Table
segments i = if i == 1 then two_pages else unused

abbrev task : Current
task = record { pid = 4; code_base = 0x4000000; brk = 0x5000; cutime = 0 }

frames_aligned : (k : ℕ) → frames k % 4096 ≡ 0
frames_aligned k = omega arith

attach_anywhere-Mapped_example :
    (m' : Memory) × Anywhere 1 task segments tabled m' (attach_anywhere 3 1 task segments tabled)
attach_anywhere-Mapped_example =
    attach_anywhere-Mapped 3 1 task segments tabled tabled-IsPaged frames_aligned (omega arith)
      (omega arith)

-- What the first call leaves
abbrev after : Run (Attached × Table) → Memory
after (ok r m) = m
after panic = tabled
after (exit m) = m

abbrev table_after : Run (Attached × Table) → Table
table_after (ok r m) = r.1
table_after panic = segments
table_after (exit m) = segments

abbrev first : Run (Attached × Table)
first = attach_anywhere 3 1 task segments tabled

first_returns : first ≡ ok (returned 0x5000, table_after first) (after first)
unfolding attach_anywhere find_empty_adress search get_table map_pages put_page attached free_slot
first_returns = refl

attach_anywhere-twice_example :
    attach_anywhere 100 1 task segments (after first) ≡ ok (hangs, segments) (after first)
attach_anywhere-twice_example =
    attach_anywhere-twice 3 100 1 1 0x5000 task segments (table_after first) segments tabled
      (after first) tabled-IsPaged frames_aligned (omega arith) (omega arith) (omega arith)
      (omega arith) first_returns (omega arith)

frames_some : (k : ℕ) → (frames k % 4096 ≡ 0) × (1 ≤ frames k)
frames_some k = omega arith

map_given-last_example :
    (m' : Memory) × (map_given 2 0 0x4008000 frames tabled ≡ ok true m')
    × Put (frames 1) 0x4008000 tabled m'
map_given-last_example =
    map_given-last 1 0 0x4008000 frames tabled tabled-IsPaged (omega arith) frames_some refl

cancel_adress-cases_example :
    (present (tabled.word (frame (tabled.word (dir_entry 0x4005000)))) ≡ true
      → (translate 0x4005000 (cancel_adress 0x4005000 tabled) ≡ none)
        × ((b : ℕ)
            → b < 2 ^ 32
            → same_page 0x4005000 b ≡ false
            → translate b (cancel_adress 0x4005000 tabled) ≡ translate b tabled))
    × (present (tabled.word (frame (tabled.word (dir_entry 0x4005000)))) ≡ false
        → cancel_adress 0x4005000 tabled ≡ tabled)
cancel_adress-cases_example = cancel_adress-cases 0x4005000 tabled tabled-IsPaged (omega arith) refl

shmget-shadowed_example : id_of (shmget 7 8192 0x3b6 segments tabled) ≢ some 1
shmget-shadowed_example =
    shmget-shadowed 0 1 7 8192 0x3b6 segments tabled (omega arith) (omega arith) refl refl
      (omega arith) (λ k h. absurd (omega arith)) refl
