-- ===== src/Memory/Tests.antt =====
-- Runs of mm/memory.c, and its theorems at small memories.
use mathlib.Core.Bool.{false≢true}
use my_practice.Base.{
  ℕ, ◌^◌, ◌<◌, ◌≡◌, refl, ◌≢◌, ◌⊎◌, false, some, arith, ◌==◌, if◌then◌else◌, update,
}
use my_practice.Memory.{
  Memory, Run, ok, panic, exit, paging_pages, map_nr, last_free, get_free_page, free_page, put_page,
  un_wp_page, mem_init, present, dir_entry,
}
use my_practice.Memory.Frames.{
  IsValid, mem_init-IsValid, get_free_page-IsValid, free_page-get_free_page,
}
use my_practice.Memory.Paging.{translate, same_page, IsPaged, put_page-translate}
use my_practice.Memory.Cow.{is_sole, IsMapped, Unshared, un_wp_page-Unshared}

abbrev zeros : Memory
zeros = record { mem_map = λ _. 0; high_memory = 0; word = λ _. 0 }

-- 16 MB, with the frames from 4 MB on free
abbrev booted : Memory
booted = mem_init 0x400000 0x1000000 zeros

booted-IsValid : IsValid booted
booted-IsValid =
    mem_init-IsValid 0x400000 0x1000000 zeros refl refl (omega arith) (omega arith) (omega arith)

abbrev memory_of : {A : Type 0} → Run A → Memory
memory_of (ok a m) = m
memory_of panic = zeros
memory_of (exit m) = m

-- The last page of memory is the first to go.
abbrev one_page : Memory
one_page = memory_of (get_free_page booted)

first_page : get_free_page booted ≡ ok 0xfff000 one_page
unfolding get_free_page last_free mem_init
first_page = refl

one_page-IsValid : IsValid one_page
one_page-IsValid = get_free_page-IsValid first_page booted-IsValid

free_page-get_free_page_example :
    (m2 : Memory) × (free_page 0xfff000 one_page ≡ ok tt m2)
    × ((j : ℕ) → m2.mem_map j ≡ booted.mem_map j)
free_page-get_free_page_example = free_page-get_free_page booted-IsValid first_page (omega arith)

-- No page table is there yet.
booted-IsPaged : IsPaged booted
unfolding mem_init
booted-IsPaged = record {
  outside = λ a h. absurd (false≢true h);
  apart = λ a b h. absurd (false≢true h);
  held = λ a i h. absurd (false≢true h);
}

put_page-translate_example :
    ((put_page 0x500000 0x8048123 booted ≡ ok 0 booted)
      × (present (booted.word (dir_entry 0x8048123)) ≡ false)
      × ((j : ℕ) → j < paging_pages → booted.mem_map j ≢ 0))
    ⊎ ((m' : Memory) × (put_page 0x500000 0x8048123 booted ≡ ok 0x500000 m')
        × (translate 0x8048123 m' ≡ some 0x500123)
        × ((b : ℕ)
            → b < 2 ^ 32
            → same_page 0x8048123 b ≡ false
            → translate b m' ≡ translate b booted)
        × IsPaged m')
put_page-translate_example =
    put_page-translate 0x500000 0x8048123 booted booted-IsPaged refl (omega arith)

-- The entry at 0x2000 maps the frame at 0x500000 for reading, which two tasks share.
abbrev shared : Memory
shared = record {
  mem_map = update booted.mem_map (map_nr 0x500000) 2;
  high_memory = 0x1000000;
  word = λ a. if a == 0x2000 then 0x500005 else a;
}

shared-IsValid : IsValid shared
unfolding mem_init
shared-IsValid = record {
  page_aligned = refl;
  high_low = omega arith;
  high_bound = omega arith;
  above = λ j h. ground arith;
  byte = λ j. ground arith;
}

shared-IsMapped : IsMapped shared 0x2000
shared-IsMapped = record {
  is_present = refl;
  entry_held = λ i z. ground arith;
  entry_outside = refl;
  page_held = λ h e. omega arith;
}

un_wp_page-Unshared_example :
    ((m' : Memory) × (un_wp_page 0x2000 shared ≡ ok tt m') × Unshared shared 0x2000 m')
    ⊎ ((un_wp_page 0x2000 shared ≡ exit shared)
        × (is_sole shared 0x2000 ≡ false)
        × ((j : ℕ) → j < paging_pages → shared.mem_map j ≢ 0))
un_wp_page-Unshared_example = un_wp_page-Unshared 0x2000 shared shared-IsValid shared-IsMapped

-- It gets a copy in the last frame.
unshared_entry : (memory_of (un_wp_page 0x2000 shared)).word 0x2000 ≡ 0xfff007
unfolding un_wp_page get_free_page last_free mem_init
unshared_entry = refl
