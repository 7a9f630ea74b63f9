-- ===== src/Memory/Defs.antt =====
-- The state of mm/memory.c, and the outcome of its code. Addresses and entries are unsigned numbers
-- below 2^32; a mask of a page entry is written as the arithmetic that it stands for.
use my_practice.Base.{
  ℕ, ◌+◌, ◌-◌, ◌*◌, ◌/◌, ◌%◌, ◌^◌, Bool, ◌&&◌, ltb, leb, ◌==◌, if◌then◌else◌, update,
}

abbrev pub low_mem : ℕ
low_mem = 0x100000

abbrev pub paging_memory : ℕ
paging_memory = 15 * 1024 * 1024

abbrev pub paging_pages : ℕ
paging_pages = paging_memory / 4096

-- `MAP_NR`
abbrev pub map_nr : ℕ → ℕ
map_nr addr = (addr - low_mem) / 4096

abbrev pub used : ℕ
used = 100

-- `mem_map`, `HIGH_MEMORY`, and the 32-bit words of physical memory by their byte address. The page
-- directory starts at address 0.
pub record Memory : Type 0 where
  pub mem_map : ℕ → ℕ
  pub high_memory : ℕ
  pub word : ℕ → ℕ

-- `exit m`: `do_exit(SIGSEGV)` ends the task, with memory `m`.
pub data Run (A : Type 0) : Type 0 where
  ok : A → Memory → Run A
  panic : Run A
  exit : Memory → Run A

abbrev pub and_then : {A B : Type 0} → Run A → (A → Memory → Run B) → Run B
and_then (ok a m) k = k a m
and_then panic k = panic
and_then (exit m) k = exit m

infixl 5 ◌>>=◌ ◌>>◌
abbrev pub ◌>>=◌ : {A B : Type 0} → (Memory → Run A) → (A → Memory → Run B) → Memory → Run B
◌>>=◌ f k m = and_then (f m) k

abbrev pub ◌>>◌ : {B : Type 0} → (Memory → Run (Unit {0})) → (Memory → Run B) → Memory → Run B
◌>>◌ f k m = and_then (f m) (λ _. k)

-- `e & 1`
abbrev pub present : ℕ → Bool
present e = e % 2 == 1

-- `e & 0xfffff000`
abbrev pub frame : ℕ → ℕ
frame e = e / 4096 * 4096

-- `e & ~2`
abbrev pub clear_rw : ℕ → ℕ
clear_rw e = e - e / 2 % 2 * 2

-- `e | 2`
abbrev pub set_rw : ℕ → ℕ
set_rw e = e / 4 * 4 + 2 + e % 2

-- `e | 7`
abbrev pub or_7 : ℕ → ℕ
or_7 e = e / 8 * 8 + 7

-- `(addr >> 20) & 0xffc`, the address of the directory entry
abbrev pub dir_entry : ℕ → ℕ
dir_entry addr = addr / 2 ^ 22 % 1024 * 4

-- `(addr >> 10) & 0xffc`, the offset in the page table
abbrev pub table_offset : ℕ → ℕ
table_offset addr = addr / 2 ^ 12 % 1024 * 4

-- `*p = e`
abbrev pub store : ℕ → ℕ → Memory → Memory
store p e m = record m { word = update m.word p e }

-- `mem_map[i]++`, an unsigned char
abbrev pub inc_map : ℕ → Memory → Memory
inc_map i m = record m { mem_map = update m.mem_map i ((m.mem_map i + 1) % 256) }

-- `mem_map[i]--`
abbrev pub dec_map : ℕ → Memory → Memory
dec_map i m = record m { mem_map = update m.mem_map i ((m.mem_map i + 255) % 256) }

abbrev pub in_page : ℕ → ℕ → Bool
in_page page a = leb page a && ltb a (page + 4096)

-- `rep stosl` of zeros over a page
abbrev pub clear_page : ℕ → (ℕ → ℕ) → ℕ → ℕ
clear_page page w a = if in_page page a then 0 else w a

-- `copy_page`
abbrev pub copy_page : ℕ → ℕ → Memory → Memory
copy_page from to m = record m {
  word = λ a. if in_page to a then m.word (from + (a - to)) else m.word a;
}
