-- ===== src/Memory/Tables.antt =====
-- mm/memory.c: what later code needs of page tables that are there or are made.
use native.Mathlib.Decide.{ℕ_discrete}
use my_practice.Base.{ℕ, ◌+◌, ◌*◌, ◌/◌, ◌%◌, ◌^◌, ◌<◌, ◌≡◌, refl, ◌∙◌, true, false, arith, some}
use my_practice.Memory.{
  Memory, ok, low_mem, present, frame, or_7, dir_entry, table_offset, store, put_page,
}
use my_practice.Memory.Frames.{Allocated}
use my_practice.Memory.Paging.{
  IsPaged, translate, same_page, put, put-dir, put-translate_self, put-translate_other, put-IsPaged,
  made, made-dir_other, made-present, made-frame, made-IsPaged, made-translate,
}

-- `m'` translates every address as `m` does, and keeps its page tables where they are.
pub record Extends (m m' : Memory) : Type 0 where
  pub paged : IsPaged m'
  pub same : (b : ℕ) → translate b m' ≡ translate b m
  pub kept :
      (b : ℕ) → present (m.word (dir_entry b)) ≡ true → present (m'.word (dir_entry b)) ≡ true

pub Extends-refl : {m : Memory} → IsPaged m → Extends m m
Extends-refl p = record { paged = p; same = λ b. refl; kept = λ b h. h }

pub Extends-trans : {m n o : Memory} → Extends m n → Extends n o → Extends m o
Extends-trans e f = record {
  paged = f.paged;
  same = λ b. f.same b ∙ e.same b;
  kept = λ b h. f.kept b (e.kept b h);
}

translate-same_page :
    (a b x : ℕ) (m : Memory)
    → a / 4096 ≡ b / 4096
    → translate a m ≡ some (x + a % 4096)
    → translate b m ≡ some (x + b % 4096)
unfolding translate
translate-same_page a b x m e h =
    let d : dir_entry a ≡ dir_entry b = omega arith in
    let t : table_offset a ≡ table_offset b = omega arith in let h' = rw (d, t) at h in ground arith

-- What `put_page` does where the page table is there.
pub record Put (page a : ℕ) (m m' : Memory) : Type 0 where
  pub paged : IsPaged m'
  pub self : (b : ℕ) → a / 4096 ≡ b / 4096 → translate b m' ≡ some (page + b % 4096)
  pub other : (b : ℕ) → b < 2 ^ 32 → same_page a b ≡ false → translate b m' ≡ translate b m
  pub dirs : (b : ℕ) → m'.word (dir_entry b) ≡ m.word (dir_entry b)

pub put_page-Put :
    (page a : ℕ) (m : Memory)
    → IsPaged m
    → page % 4096 ≡ 0
    → a < 2 ^ 32
    → present (m.word (dir_entry a)) ≡ true
    → (m' : Memory) × (put_page page a m ≡ ok page m') × Put page a m m'
unfolding put_page
put_page-Put page a m p aligned ha h = (
  put p page a aligned ha,
  rw h refl,
  record {
    paged = put-IsPaged p page a aligned ha h;
    self = λ b e. translate-same_page a b page _ e (put-translate_self p page a aligned ha h);
    other = put-translate_other p page a aligned ha h;
    dirs = put-dir p page a aligned ha h;
  },
)

-- A page table made in the frame that `get_free_page` returns
pub made-Extends :
    {m m1 : Memory} {i : ℕ}
    → IsPaged m
    → Allocated m i m1
    → (a : ℕ) → present (m.word (dir_entry a)) ≡ false
    → (m' : Memory) × (m' ≡ store (dir_entry a) (or_7 (low_mem + i * 4096)) m1)
      × Extends m m'
      × (present (m'.word (dir_entry a)) ≡ true)
      × (frame (m'.word (dir_entry a)) ≡ low_mem + i * 4096)
made-Extends {m} {m1} {i} p al a absent = (
  made p al a absent,
  refl,
  record {
    paged = made-IsPaged p al a absent;
    same = made-translate p al a absent;
    kept = λ b h. elim (ℕ_discrete (dir_entry a) (dir_entry b)) [
      | yes e ↦ absurd (was b e h)
      | no ne ↦ rw (made-dir_other p al a absent b ne) h
    ];
  },
  made-present p al a absent,
  made-frame p al a absent,
)
  where
    was : (b : ℕ) → dir_entry a ≡ dir_entry b → present (m.word (dir_entry b)) ≡ true → ⊥
    was b e h = let h' : present (m.word (dir_entry a)) ≡ true = rw e h in cc
