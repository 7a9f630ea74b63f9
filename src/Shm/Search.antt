-- ===== src/Shm/Search.antt =====
-- mm/shm.c: what `findEmptyAdress` finds.
use my_practice.Base.{
  ℕ, zero, suc, ◌+◌, ◌*◌, ◌%◌, ◌^◌, ◌≤◌, ◌<◌, ◌≡◌, refl, sym, ap, ◌∙◌, ◌≢◌, ◌⊎◌, inl, inr, true,
  false, ltb, ◌==◌, ◌&&◌, arith, Bool-cases, Option, none, some,
}
use my_practice.Memory.{Memory, Run, ok, paging_pages, present, frame, dir_entry, table_entry_of}
use my_practice.Memory.Frames.{get_free_page-cases}
use my_practice.Memory.Paging.{IsPaged, translate, table_ne_zero}
use my_practice.Memory.Tables.{Extends, Extends-refl, Extends-trans, made-Extends}
use my_practice.Shm.{get_table, first_of, search}

ok_eq : {A : Type 0} {a b : A} {m m' : Memory} → a ≡ b → m ≡ m' → ok a m ≡ ok b m'
ok_eq e f = cc

-- No frame is free.
abbrev pub AllUsed : Memory → Type 0
AllUsed m = (j : ℕ) → j < paging_pages → m.mem_map j ≢ 0

-- The table that `get_table` returns is that of the address; it fails only without a free frame.
get_table-cases :
    (base : ℕ) (m : Memory)
    → IsPaged m
    → ((get_table base m ≡ ok 0 m) × AllUsed m)
      ⊎ ((m' : Memory) × (get_table base m ≡ ok (frame (m'.word (dir_entry base))) m')
          × Extends m m'
          × (present (m'.word (dir_entry base)) ≡ true)
          × (4096 ≤ frame (m'.word (dir_entry base))))
unfolding get_table
get_table-cases base m p = elim (Bool-cases (present (m.word (dir_entry base)))) [
  | inl h ↦ inr (m, rw h refl, Extends-refl p, h, p.outside base h)
  | inr h ↦ elim (get_free_page-cases m) [
    | inl (i, m1, e, al) ↦
        let (m', is, x, there, at) = made-Extends p al base h in
        inr (
          m',
          rw (h, e, table_ne_zero i) (ok_eq (sym at) (sym is)),
          x,
          there,
          x.paged.outside base there,
        )
    | inr (e, all) ↦ inl (rw (h, e) refl, all)
  ]
]

-- `n` pages from `base` on that are not mapped and have page tables
pub record Ready (n base : ℕ) (m : Memory) : Type 0 where
  pub tables : (k : ℕ) → k < n → present (m.word (dir_entry (base + k * 4096))) ≡ true
  pub unmapped : (k : ℕ) → k < n → translate (base + k * 4096) m ≡ none

no_entry-translate :
    (base : ℕ) (m : Memory)
    → present (m.word (table_entry_of base m)) ≡ false
    → translate base m ≡ none
unfolding translate
no_entry-translate base m h = ground arith

Ready-suc :
    (n base : ℕ) {m m' : Memory}
    → present (m.word (dir_entry base)) ≡ true
    → translate base m ≡ none
    → Extends m m'
    → Ready n (base + 4096) m'
    → Ready (suc n) base m'
Ready-suc n base {m} {m'} there free x r = record { tables = tables; unmapped = unmapped }
  where
    tables : (k : ℕ) → k < suc n → present (m'.word (dir_entry (base + k * 4096))) ≡ true
    tables zero h =
        ap (λ (a : ℕ). present (m'.word (dir_entry a))) (omega arith) ∙ x.kept base there
    tables (suc k) h =
        ap (λ (a : ℕ). present (m'.word (dir_entry a))) (omega arith) ∙ r.tables k (omega arith)

    unmapped : (k : ℕ) → k < suc n → translate (base + k * 4096) m' ≡ none
    unmapped zero h = ap (λ (a : ℕ). translate a m') (omega arith) ∙ x.same base ∙ free
    unmapped (suc k) h = ap (λ (a : ℕ). translate a m') (omega arith) ∙ r.unmapped k (omega arith)

Ready-zero : (base : ℕ) (m : Memory) → Ready 0 base m
Ready-zero base m = record { tables = λ k h. elim h [ ]; unmapped = λ k h. elim h [ ] }

mapped_entry :
    (base : ℕ) (m : Memory)
    → translate base m ≢ none
    → (present (m.word (dir_entry base)) ≡ true) × (present (m.word (table_entry_of base m)) ≡ true)
unfolding translate
mapped_entry base m h = elim (Bool-cases (present (m.word (dir_entry base)))) [
  | inl there ↦ elim (Bool-cases (present (m.word (table_entry_of base m)))) [
    | inl held ↦ (there, held)
    | inr free ↦ absurd (h (ground arith))
  ]
  | inr gone ↦ absurd (h (ground arith))
]

entry-mapped :
    (base : ℕ) (m : Memory)
    → present (m.word (dir_entry base)) ≡ true
    → present (m.word (table_entry_of base m)) ≡ true
    → translate base m ≢ none
unfolding translate
entry-mapped base m h k = rw (h, k) (λ e. cc)

-- A page in use at `base` is looked at again in every round.
pub search-held :
    (fuel i base limit page_num : ℕ) (m : Memory)
    → IsPaged m
    → i < page_num
    → base < limit
    → translate base m ≢ none
    → search fuel i base limit page_num m ≡ ok none m
unfolding search get_table
search-held zero i base limit page_num m p some_page lt h = refl
search-held (suc fuel) i base limit page_num m p some_page lt h =
    let (there, held) = mapped_entry base m h in
    let far = p.outside base there in
    let some_table : (frame (m.word (dir_entry base)) == 0) ≡ false = ground arith in
    let room : (ltb i page_num && ltb base limit) ≡ true = ground arith in
    rw (room, there, some_table, held)
      (search-held fuel 0 base limit page_num m p (omega arith) lt h)

-- Why the search fails, for `n` pages from `base` on: there are none, they reach over the limit, or no
-- frame is free.
abbrev pub Fails : (n base limit : ℕ) → Memory → Type 0
Fails n base limit m' = (n ≡ 0) ⊎ (limit < base + n * 4096) ⊎ AllUsed m'

-- The outcomes of the search, for `n` pages left to check from `base` on: it has not ended, as one of
-- them is mapped; it fails; or they are not mapped, and it gives the first of `page_num` pages of
-- which these are the last.
abbrev pub Searched : (n base limit page_num : ℕ) → Memory → Run (Option ℕ) → Type 0
Searched n base limit page_num m r =
    (m' : Memory) × Extends m m'
    × (((r ≡ ok none m') × ((k : ℕ) × (k < n) × (translate (base + k * 4096) m ≢ none)))
        ⊎ ((r ≡ ok (some 0) m') × Fails n base limit m')
        ⊎ ((r ≡ ok (some (first_of ((base + n * 4096) % 2 ^ 32) page_num)) m') × Ready n base m'))

-- The rounds after the first, in the memory that this leaves
Searched-suc :
    (n base limit page_num : ℕ) {m m1 : Memory} {r : Run (Option ℕ)}
    → Extends m m1
    → present (m1.word (dir_entry base)) ≡ true
    → translate base m1 ≡ none
    → 1 ≤ n
    → Searched n (base + 4096) limit page_num m1 r
    → Searched (suc n) base limit page_num m r
Searched-suc n base limit page_num {m} {m1} x there free more (m2, y, inl (e, (k, lt, held))) = (
  m2,
  Extends-trans x y,
  inl (
    e,
    (
      suc k,
      omega arith,
      λ z. held (ap (λ (a : ℕ). translate a m1) (omega arith) ∙ x.same (base + suc k * 4096) ∙ z),
    ),
  ),
)
Searched-suc n base limit page_num x there free more (m2, y, inr (inl (e, why))) = (
  m2,
  Extends-trans x y,
  inr (
      inl (
        e,
        elim why [
          | inl z ↦ absurd (omega arith)
          | inr (inl z) ↦ inr (inl (omega arith))
          | inr (inr z) ↦ inr (inr z)
        ],
      )),
)
Searched-suc n base limit page_num x there free more (m2, y, inr (inr (e, ready))) = (
  m2,
  Extends-trans x y,
  inr (
      inr (
        e ∙ ap (λ (a : ℕ). ok (some (first_of (a % 2 ^ 32) page_num)) m2) (omega arith),
        Ready-suc n base there free y ready,
      )),
)

pub search-Searched :
    (fuel n i base limit page_num : ℕ) (m : Memory)
    → IsPaged m
    → i + n ≡ page_num
    → n < fuel
    → base + n * 4096 ≤ 2 ^ 32
    → Searched n base limit page_num m (search fuel i base limit page_num m)
unfolding search
search-Searched zero n i base limit page_num m p s f b = absurd (omega arith)
search-Searched (suc fuel) zero i base limit page_num m p s f b =
    let last : ltb i page_num ≡ false = ground arith in
    (m, Extends-refl p, inr (inl (rw last refl, inl refl)))
search-Searched (suc fuel) (suc n) i base limit page_num m p s f b =
    let yes : ltb i page_num ≡ true = ground arith in
    elim (Bool-cases (ltb base limit)) [
      | inr h ↦ (m, Extends-refl p, inr (inl (rw (yes, h) refl, inr (inl (ground arith)))))
      | inl h ↦ elim (get_table-cases base m p) [
        | inl (e, all) ↦ (m, Extends-refl p, inr (inl (rw (yes, h, e) refl, inr (inr all))))
        | inr (m1, e, x, there, far) ↦
            let some_table : (frame (m1.word (dir_entry base)) == 0) ≡ false = ground arith in
            elim (Bool-cases (present (m1.word (table_entry_of base m1)))) [
              | inl held ↦
                  let mapped : translate base m1 ≢ none = entry-mapped base m1 there held in
                  (
                    m1,
                    x,
                    inl (
                      rw (yes, h, e, some_table, held)
                          (search-held fuel 0 base limit page_num m1 x.paged (omega arith)
                            (ground arith) mapped),
                      (
                        0,
                        omega arith,
                        λ z. mapped (x.same base ∙ ap (λ (a : ℕ). translate a m) (omega arith) ∙ z),
                      ),
                    ),
                  )
              | inr free ↦
                  let unmapped = no_entry-translate base m1 free in
                  elim (Bool-cases (i + 1 == page_num)) [
                    | inl last ↦
                        let is_zero : n ≡ 0 = ground arith in
                        (
                          m1,
                          x,
                          inr (
                              inr (
                                rw (yes, h, e, some_table, free, last)
                                    (ap (λ (k : ℕ). ok (some (first_of (k % 2 ^ 32) page_num)) m1)
                                      (omega arith)),
                                rw is_zero (
                                    Ready-suc 0 base there unmapped (Extends-refl x.paged)
                                      (Ready-zero (base + 4096) m1)),
                              )),
                        )
                    | inr more ↦
                        let left : 1 ≤ n = ground arith in
                        let step : (base + 4096) % 2 ^ 32 ≡ base + 4096 = omega arith in
                        rw (yes, h, e, some_table, free, more, step)
                          (Searched-suc n base limit page_num x there unmapped left (
                            search-Searched fuel n (i + 1) (base + 4096) limit page_num m1 x.paged
                              (omega arith) (omega arith) (omega arith)))
                  ]
            ]
      ]
    ]
