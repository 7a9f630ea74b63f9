-- ===== src/Memory/Paging.antt =====
-- mm/memory.c: the address translation that the page tables describe, and what `put_page` does to it.
use native.Mathlib.Decide.{ℕ_discrete}
use my_practice.Base.{
  ℕ, ◌+◌, ◌*◌, ◌/◌, ◌%◌, ◌^◌, ◌≤◌, ◌<◌, ◌≡◌, refl, sym, ap, ◌∙◌, ◌≢◌, ◌⊎◌, inl, inr, Option, none,
  some, arith, ◌==◌, if◌then◌else◌, update_ne, Bool-cases, Bool, true, false, ◌&&◌,
}
use my_practice.Memory.{
  Memory, ok, low_mem, paging_pages, present, frame, or_7, dir_entry, table_offset, table_entry_of,
  store, put_page,
}
use my_practice.Memory.Frames.{Allocated, get_free_page-cases}

-- The physical address that the processor reaches through the page tables, if the page is present.
unfoldable pub translate : ℕ → Memory → Option ℕ
translate address m =
    if present (m.word (dir_entry address)) && present (m.word (table_entry_of address m))
    then some (frame (m.word (table_entry_of address m)) + address % 4096)
    else none

translate-no_entry : (b : ℕ) (m : Memory) → m.word (table_entry_of b m) ≡ 0 → translate b m ≡ none
unfolding translate
translate-no_entry b m e = ground arith

translate-no_table :
    (b : ℕ) (m : Memory) → present (m.word (dir_entry b)) ≡ false → translate b m ≡ none
unfolding translate
translate-no_table b m e = rw e refl

pub table_ne_zero : (i : ℕ) → (low_mem + i * 4096 == 0) ≡ false
table_ne_zero i = ground arith

-- The page tables lie outside the directory and apart from one another, in frames that are in use.
pub record IsPaged (m : Memory) : Type 0 where
  pub outside :
      (a : ℕ) → present (m.word (dir_entry a)) ≡ true → 4096 ≤ frame (m.word (dir_entry a))
  pub apart :
      (a b : ℕ)
      → present (m.word (dir_entry a)) ≡ true
      → present (m.word (dir_entry b)) ≡ true
      → frame (m.word (dir_entry a)) ≡ frame (m.word (dir_entry b))
      → dir_entry a ≡ dir_entry b
  pub held :
      (a i : ℕ)
      → present (m.word (dir_entry a)) ≡ true
      → m.mem_map i ≡ 0
      → frame (m.word (dir_entry a)) ≢ low_mem + i * 4096

-- Addresses of one page
abbrev pub same_page : ℕ → ℕ → Bool
same_page a b = a / 4096 == b / 4096

dir_entry-lt : (a : ℕ) → dir_entry a < 4096
dir_entry-lt a = omega arith

-- Within the tables, an entry belongs to one page only.
entry_page :
    (a b : ℕ)
    → a < 2 ^ 32
    → b < 2 ^ 32
    → dir_entry a ≡ dir_entry b
    → table_offset a ≡ table_offset b
    → a / 4096 ≡ b / 4096
entry_page a b ha hb d t = omega arith

-- The invariant is about the directory and the frames in use only.
IsPaged-same_dirs :
    {m m' : Memory}
    → IsPaged m
    → ((b : ℕ) → m'.word (dir_entry b) ≡ m.word (dir_entry b))
    → ((i : ℕ) → m'.mem_map i ≡ 0 → m.mem_map i ≡ 0)
    → IsPaged m'
IsPaged-same_dirs {m} {m'} p same still = record {
  outside = λ b h. rw same (p.outside b (was b h));
  apart = λ b c hb hc e. p.apart b c (was b hb) (was c hc) (rw (same b, same c) at e);
  held = λ b i h z. rw same (p.held b i (was b h) (still i z));
}
  where
    was : (b : ℕ) → present (m'.word (dir_entry b)) ≡ true → present (m.word (dir_entry b)) ≡ true
    was b h = rw (same b) at h

module _ {m : Memory} (p : IsPaged m) (page a : ℕ) (aligned : page % 4096 ≡ 0)
    (ha : a < 2 ^ 32) where
  -- the memory after `put_page` where the page table is there
  abbrev pub put : Memory
  put = store (table_entry_of a m) (or_7 page) m

  pub put-dir :
      present (m.word (dir_entry a)) ≡ true
      → (b : ℕ) → put.word (dir_entry b) ≡ m.word (dir_entry b)
  put-dir h b = ground (arith, p.outside a h, dir_entry-lt b)

  pub put-translate_self :
      present (m.word (dir_entry a)) ≡ true → translate a put ≡ some (page + a % 4096)
  unfolding translate
  put-translate_self h = rw (put-dir h a, h) (ground arith)

  pub entries_apart :
      present (m.word (dir_entry a)) ≡ true
      → (b : ℕ) → b < 2 ^ 32
      → same_page a b ≡ false
      → present (m.word (dir_entry b)) ≡ true
      → table_entry_of a m ≢ table_entry_of b m
  entries_apart h b hb ne hd e =
      let same_table : frame (m.word (dir_entry a)) ≡ frame (m.word (dir_entry b)) = omega arith in
      let same_dir : dir_entry a ≡ dir_entry b = p.apart a b h hd same_table in
      ground (arith, entry_page a b ha hb same_dir (omega arith))

  pub put-translate_other :
      present (m.word (dir_entry a)) ≡ true
      → (b : ℕ) → b < 2 ^ 32
      → same_page a b ≡ false
      → translate b put ≡ translate b m
  unfolding translate
  put-translate_other h b hb ne = elim (Bool-cases (present (m.word (dir_entry b)))) [
    | inl hd ↦ rw (put-dir h b, update_ne m.word _ (or_7 page) _ (entries_apart h b hb ne hd)) refl
    | inr hd ↦ rw (put-dir h b, hd) refl
  ]

  pub put-IsPaged : present (m.word (dir_entry a)) ≡ true → IsPaged put
  put-IsPaged h = IsPaged-same_dirs p (put-dir h) (λ i z. z)

-- The memory after `put_page` has made a page table for `a` in the frame of entry `i`.
module _ {m m1 : Memory} {i : ℕ} (p : IsPaged m) (al : Allocated m i m1) (a : ℕ)
    (absent : present (m.word (dir_entry a)) ≡ false) where
  abbrev pub table : ℕ
  table = low_mem + i * 4096

  abbrev pub made : Memory
  made = store (dir_entry a) (or_7 table) m1

  pub made-dir_self : (b : ℕ) → dir_entry a ≡ dir_entry b → made.word (dir_entry b) ≡ or_7 table
  made-dir_self b e = ground arith

  pub made-dir_other :
      (b : ℕ) → dir_entry a ≢ dir_entry b → made.word (dir_entry b) ≡ m.word (dir_entry b)
  made-dir_other b ne =
      update_ne m1.word _ _ _ ne ∙ al.word_other (dir_entry b) (ground (arith, dir_entry-lt b))

  pub made-present : present (made.word (dir_entry a)) ≡ true
  made-present = rw (made-dir_self a refl) (ground arith)

  pub made-frame : frame (made.word (dir_entry a)) ≡ table
  made-frame = rw (made-dir_self a refl) (omega arith)

  -- A table that was there is not the new one.
  old_table :
      (b : ℕ)
      → dir_entry a ≢ dir_entry b
      → present (made.word (dir_entry b)) ≡ true
      → (present (m.word (dir_entry b)) ≡ true) × (frame (made.word (dir_entry b)) ≢ table)
  old_table b ne h =
      let h' : present (m.word (dir_entry b)) ≡ true = rw (made-dir_other b ne) at h in
      (h', λ e. p.held b i h' al.picked.free (rw (made-dir_other b ne) at e))

  made-frame_of : (b : ℕ) → dir_entry a ≡ dir_entry b → frame (made.word (dir_entry b)) ≡ table
  made-frame_of b e = rw (made-dir_self b e) (omega arith)

  still_free : (j : ℕ) → m1.mem_map j ≡ 0 → (m.mem_map j ≡ 0) × (i ≢ j)
  still_free j z = ground (arith, al.map_other j, al.map_self)

  pub made-IsPaged : IsPaged made
  made-IsPaged = record {
    outside = λ b h. elim (ℕ_discrete (dir_entry a) (dir_entry b)) [
      | yes e ↦ rw (made-dir_self b e) (omega arith)
      | no ne ↦ rw (made-dir_other b ne) (p.outside b (old_table b ne h).0)
    ];
    apart = λ b c hb hc e. elim (ℕ_discrete (dir_entry a) (dir_entry b)) [
      | yes eb ↦ elim (ℕ_discrete (dir_entry a) (dir_entry c)) [
        | yes ec ↦ sym eb ∙ ec
        | no nc ↦ absurd ((old_table c nc hc).1 (sym e ∙ made-frame_of b eb))
      ]
      | no nb ↦ elim (ℕ_discrete (dir_entry a) (dir_entry c)) [
        | yes ec ↦ absurd ((old_table b nb hb).1 (e ∙ made-frame_of c ec))
        | no nc ↦
            p.apart b c (old_table b nb hb).0 (old_table c nc hc).0
              (rw (made-dir_other b nb, made-dir_other c nc) at e)
      ]
    ];
    held = λ b j h z. elim (ℕ_discrete (dir_entry a) (dir_entry b)) [
      | yes e ↦ λ q. (still_free j z).1 (omega (arith, made-frame_of b e))
      | no ne ↦ rw (made-dir_other b ne) (p.held b j (old_table b ne h).0 (still_free j z).0)
    ];
  }

  pub new_entry : (b : ℕ) → made.word (table + table_offset b) ≡ 0
  new_entry b =
      update_ne m1.word (dir_entry a) _ _ (omega (arith, dir_entry-lt a))
      ∙ al.zeroed _ (ground arith)

  old_entry :
      (b : ℕ)
      → dir_entry a ≢ dir_entry b
      → present (m.word (dir_entry b)) ≡ true
      → made.word (table_entry_of b m) ≡ m.word (table_entry_of b m)
  old_entry b ne h =
      let far : frame (m.word (dir_entry b)) ≢ table = p.held b i h al.picked.free in
      update_ne m1.word (dir_entry a) _ _ (omega (arith, dir_entry-lt a, p.outside b h))
      ∙ al.word_other _ (ground arith)

  pub made-translate : (b : ℕ) → translate b made ≡ translate b m
  unfolding translate
  made-translate b = elim (ℕ_discrete (dir_entry a) (dir_entry b)) [
    | yes e ↦
        translate-no_entry b made
          (ap (λ x. made.word (x + table_offset b)) (made-frame_of b e) ∙ new_entry b)
        ∙ sym (translate-no_table b m (rw (← e) absent))
    | no ne ↦ elim (Bool-cases (present (m.word (dir_entry b)))) [
      | inl h ↦ rw (made-dir_other b ne, old_entry b ne h) refl
      | inr h ↦ rw (made-dir_other b ne, h) refl
    ]
  ]

-- `put_page` maps the page of `address` to the frame `page`, for an address of 32 bits and an
-- aligned frame: the address is then translated into the frame, the translation of every address
-- of another page is what it was, and the page tables stay well-formed. It does not map the page only
-- where there is neither a page table nor a free frame: it then returns 0, with nothing changed.
pub put_page-translate :
    (page a : ℕ) (m : Memory)
    → IsPaged m
    → page % 4096 ≡ 0
    → a < 2 ^ 32
    → ((put_page page a m ≡ ok 0 m)
        × (present (m.word (dir_entry a)) ≡ false)
        × ((j : ℕ) → j < paging_pages → m.mem_map j ≢ 0))
      ⊎ ((m' : Memory) × (put_page page a m ≡ ok page m')
          × (translate a m' ≡ some (page + a % 4096))
          × ((b : ℕ) → b < 2 ^ 32 → same_page a b ≡ false → translate b m' ≡ translate b m)
          × IsPaged m')
unfolding put_page
put_page-translate page a m p aligned ha = elim (Bool-cases (present (m.word (dir_entry a)))) [
  | inl h ↦ inr (
    put p page a aligned ha,
    rw h refl,
    put-translate_self p page a aligned ha h,
    put-translate_other p page a aligned ha h,
    put-IsPaged p page a aligned ha h,
  )
  | inr h ↦ elim (get_free_page-cases m) [
    | inl (i, m1, e, al) ↦
        let m2 : Memory = made p al a h in
        let p2 : IsPaged m2 = made-IsPaged p al a h in
        let h2 : present (m2.word (dir_entry a)) ≡ true = made-present p al a h in
        inr (
          put p2 page a aligned ha,
          rw (h, e, table_ne_zero i)
              (ap (λ x. ok page (store (x + table_offset a) (or_7 page) m2))
                (sym (made-frame p al a h))),
          put-translate_self p2 page a aligned ha h2,
          λ b hb ne.
              put-translate_other p2 page a aligned ha h2 b hb ne ∙ made-translate p al a h b,
          put-IsPaged p2 page a aligned ha h2,
        )
    | inr (e, all) ↦ inl (rw (h, e) refl, h, all)
  ]
]
