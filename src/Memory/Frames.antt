-- ===== src/Memory/Frames.antt =====
-- mm/memory.c: what `get_free_page` and `free_page` do to the frames and their counts.
use my_practice.Base.{
  ℕ, zero, suc, ◌+◌, ◌*◌, ◌%◌, ◌≤◌, ◌<◌, ◌≡◌, refl, sym, ◌∙◌, ◌≢◌, ◌⊎◌, inl, inr, none, some, arith,
  update, true, false,
}
use mathlib.Core.Path.{subst, subst₂}
use native.Mathlib.Decide.{dec_lt, dec_le, ℕ_discrete}
use my_practice.Memory.{
  Memory, ok, panic, low_mem, paging_pages, map_nr, in_page, clear_page, dec_map, last_free,
  get_free_page, free_page, mem_init,
}

-- The last free entry of the first `k`, as a specification.
pub record LastFree (map : ℕ → ℕ) (k i : ℕ) : Type 0 where
  pub below : i < k
  pub free : map i ≡ 0
  pub last : (j : ℕ) → i < j → j < k → map j ≢ 0

LastFree-suc : (map : ℕ → ℕ) (k i : ℕ) → map k ≢ 0 → LastFree map k i → LastFree map (suc k) i
LastFree-suc map k i used_k l = record {
  below = omega (arith, l.below);
  free = l.free;
  last = λ j lo hi e. elim (dec_lt j k) [
    | yes h ↦ l.last j lo h e
    | no h ↦ used_k (subst (λ x. map x ≡ 0) (omega arith) e)
  ];
}

-- The scan finds the last free entry, and fails only if there is none.
last_free-cases :
    (map : ℕ → ℕ) (k : ℕ)
    → ((i : ℕ) × (last_free map k ≡ some i) × LastFree map k i)
      ⊎ ((last_free map k ≡ none) × ((j : ℕ) → j < k → map j ≢ 0))
unfolding last_free
last_free-cases map zero = inr (refl, λ j h. elim h [ ])
last_free-cases map (suc k) = elim (ℕ_discrete (map k) 0) [
  | yes e ↦ inl (
    k,
    ground arith,
    record { below = omega arith; free = e; last = λ j lo hi. absurd (omega arith) },
  )
  | no e ↦ elim (last_free-cases map k) [
    | inl (i, found, l) ↦ inl (i, ground arith, LastFree-suc map k i e l)
    | inr (none_free, all) ↦ inr (
      ground arith,
      λ j h z. elim (dec_lt j k) [
        | yes below ↦ all j below z
        | no last ↦ e (subst (λ x. map x ≡ 0) (omega arith) z)
      ],
    )
  ]
]

pub ok_mem : {A : Type 0} {a b : A} {m m' : Memory} → ok a m ≡ ok b m' → m ≡ m'
ok_mem e = cc

pub ok_value : {A : Type 0} {a b : A} {m m' : Memory} → ok a m ≡ ok b m' → a ≡ b
ok_value e = cc

-- What `get_free_page` does when it returns the frame of entry `i`.
pub record Allocated (m : Memory) (i : ℕ) (m' : Memory) : Type 0 where
  pub picked : LastFree m.mem_map paging_pages i
  pub map_self : m'.mem_map i ≡ 1
  pub map_other : (j : ℕ) → i ≢ j → m'.mem_map j ≡ m.mem_map j
  pub zeroed : (a : ℕ) → in_page (low_mem + i * 4096) a ≡ true → m'.word a ≡ 0
  pub word_other : (a : ℕ) → in_page (low_mem + i * 4096) a ≡ false → m'.word a ≡ m.word a
  pub high_same : m'.high_memory ≡ m.high_memory

-- `get_free_page` returns the frame of the last entry of `mem_map` that is 0. That entry becomes 1,
-- the frame is filled with zeros, and no other entry or word changes. If no entry is 0 it returns 0
-- and changes nothing.
pub get_free_page-cases :
    (m : Memory)
    → ((i : ℕ) × (m' : Memory) × (get_free_page m ≡ ok (low_mem + i * 4096) m') × Allocated m i m')
      ⊎ ((get_free_page m ≡ ok 0 m) × ((j : ℕ) → j < paging_pages → m.mem_map j ≢ 0))
unfolding get_free_page
get_free_page-cases m = elim (last_free-cases m.mem_map paging_pages) [
  | inl (i, found, l) ↦ inl (
    i,
    record m { mem_map = update m.mem_map i 1; word = clear_page (low_mem + i * 4096) m.word },
    rw (found, get_free_page) refl,
    record {
      picked = l;
      map_self = ground arith;
      map_other = λ j ne. ground arith;
      zeroed = λ a h. rw h refl;
      word_other = λ a h. rw h refl;
      high_same = refl;
    },
  )
  | inr (none_free, all) ↦ inr (rw (none_free, get_free_page) refl, all)
]

-- Every frame that `get_free_page` can return lies below `HIGH_MEMORY`: the entries from there on
-- are never 0. A count fits a byte.
pub record IsValid (m : Memory) : Type 0 where
  pub page_aligned : m.high_memory % 4096 ≡ 0
  pub high_low : low_mem ≤ m.high_memory
  pub high_bound : m.high_memory ≤ low_mem + paging_pages * 4096
  pub above : (j : ℕ) → m.high_memory ≤ low_mem + j * 4096 → m.mem_map j ≢ 0
  pub byte : (j : ℕ) → m.mem_map j < 256

-- `mem_init` establishes the invariant, for an aligned range inside the memory that is paged.
pub mem_init-IsValid :
    (start_mem end_mem : ℕ) (m : Memory)
    → start_mem % 4096 ≡ 0
    → end_mem % 4096 ≡ 0
    → low_mem ≤ start_mem
    → start_mem ≤ end_mem
    → end_mem ≤ low_mem + paging_pages * 4096
    → IsValid (mem_init start_mem end_mem m)
unfolding mem_init
mem_init-IsValid start_mem end_mem m a b lo le hi = record {
  page_aligned = b;
  high_low = omega arith;
  high_bound = hi;
  above = λ j h. ground arith;
  byte = λ j. ground arith;
}

Allocated-IsValid : {m m' : Memory} {i : ℕ} → Allocated m i m' → IsValid m → IsValid m'
Allocated-IsValid {m} {m'} {i} a v = record {
  page_aligned = rw a.high_same v.page_aligned;
  high_low = rw a.high_same v.high_low;
  high_bound = rw a.high_same v.high_bound;
  above = λ j h. ground (arith, v.above j, a.map_other j);
  byte = λ j. ground (arith, v.byte j, a.map_other j);
}

-- `get_free_page` keeps the invariant.
pub get_free_page-IsValid :
    {m m' : Memory} {page : ℕ} → get_free_page m ≡ ok page m' → IsValid m → IsValid m'
get_free_page-IsValid {m} e v = elim (get_free_page-cases m) [
  | inl (i, m2, e2, a) ↦ subst IsValid (ok_mem (sym e2 ∙ e)) (Allocated-IsValid a v)
  | inr (e2, all) ↦ subst IsValid (ok_mem (sym e2 ∙ e)) v
]

module _ {m m' : Memory} {i : ℕ} (v : IsValid m) (a : Allocated m i m') where
  pub Allocated-lt-high : low_mem + i * 4096 < m.high_memory
  Allocated-lt-high = elim (dec_lt (low_mem + i * 4096) m.high_memory) [
    | yes h ↦ h
    | no h ↦ absurd (v.above i (omega arith) a.picked.free)
  ]

  free_page-Allocated : free_page (low_mem + i * 4096) m' ≡ ok tt (dec_map i m')
  unfolding free_page
  free_page-Allocated =
      let index : map_nr (low_mem + i * 4096) ≡ i = omega arith in
      rw index (ground (arith, Allocated-lt-high))

  free_page-Allocated_map : (j : ℕ) → (dec_map i m').mem_map j ≡ m.mem_map j
  free_page-Allocated_map j = ground (arith, a.map_other j)

-- A frame that `get_free_page` returns is one that `free_page` accepts, and freeing it at once puts
-- every count back.
pub free_page-get_free_page :
    {m m' : Memory} {page : ℕ}
    → IsValid m
    → get_free_page m ≡ ok page m'
    → page ≢ 0
    → (m2 : Memory) × (free_page page m' ≡ ok tt m2) × ((j : ℕ) → m2.mem_map j ≡ m.mem_map j)
free_page-get_free_page {m} {m'} {page} v e ne = elim (get_free_page-cases m) [
  | inl (i, m2, e2, a) ↦ (
    dec_map i m2,
    subst₂ (λ p x. free_page p x ≡ ok tt (dec_map i m2)) (ok_value (sym e2 ∙ e))
        (ok_mem (sym e2 ∙ e)) (free_page-Allocated v a),
    free_page-Allocated_map v a,
  )
  | inr (e2, all) ↦ absurd (ne (ok_value (sym e ∙ e2)))
]

-- The outcome of `free_page` on each of its branches: an address below `LOW_MEM` is ignored, one
-- from `HIGH_MEMORY` on and a frame that is free already panic, and else the count of the frame
-- falls by one and nothing else changes.
pub free_page-cases :
    (addr : ℕ) (m : Memory)
    → IsValid m
    → ((addr < low_mem) × (free_page addr m ≡ ok tt m))
      ⊎ ((m.high_memory ≤ addr) × (free_page addr m ≡ panic))
      ⊎ ((m.mem_map (map_nr addr) ≡ 0) × (free_page addr m ≡ panic))
      ⊎ ((m' : Memory) × (free_page addr m ≡ ok tt m')
          × (m'.word ≡ m.word)
          × (m'.mem_map (map_nr addr) + 1 ≡ m.mem_map (map_nr addr))
          × ((j : ℕ) → map_nr addr ≢ j → m'.mem_map j ≡ m.mem_map j))
unfolding free_page
free_page-cases addr m v = elim (dec_lt addr low_mem) [
  | yes low ↦ inl (low, ground arith)
  | no low ↦ elim (dec_le m.high_memory addr) [
    | yes high ↦ inr (inl (high, ground arith))
    | no high ↦ elim (ℕ_discrete (m.mem_map (map_nr addr)) 0) [
      | yes free ↦ inr (inr (inl (free, ground arith)))
      | no held ↦ inr (
          inr (
            inr (
              dec_map (map_nr addr) m,
              ground arith,
              refl,
              ground (arith, v.byte (map_nr addr)),
              λ j ne. ground arith,
            )))
    ]
  ]
]
