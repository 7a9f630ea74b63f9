-- ===== src/Shm/Attach/Anywhere.antt =====
-- mm/shm.c: `sys_shmat` where no address is given.
use my_practice.Base.{
  ℕ, ◌+◌, ◌*◌, ◌%◌, ◌^◌, ◌≤◌, ◌<◌, ◌≡◌, refl, sym, ap, ◌∙◌, ◌≢◌, ◌⊎◌, inl, inr, ◌==◌, arith, update,
  Bool-cases, none, some,
}
use mathlib.Core.Path.{subst}
use my_practice.Memory.{Memory, Run, ok, panic, exit}
use my_practice.Memory.Paging.{IsPaged, translate}
use my_practice.Memory.Tables.{Extends}
use my_practice.Shm.{
  Table, Current, shm_max_heap, heap_end, heap_limit, first_of, find_empty_adress, search,
}
use my_practice.Shm.Search.{Searched, Fails, search-Searched, search-held}
use my_practice.Shm.Attach.{Attached, returned, failed, hangs, relative, attached, attach_anywhere}
use my_practice.Shm.Attach.Mapped.{Mapped, map_pages-Mapped}

-- The memory `m'` that a call with the result `r` leaves, where no page is mapped or unmapped unless it
-- has attached the segment: it has not returned, as a page is mapped where the segment is to go; it has
-- failed, as there are no pages, they reach over the limit, no frame is free or the heap ends at 0; or
-- the pages of segment `shmid` are mapped at the heap's end, where none was.
abbrev pub Anywhere :
    (shmid : ℕ) → Current → Table → (m m' : Memory) → Run (Attached × Table) → Type 0
Anywhere shmid c t m m' r =
    ((r ≡ ok (hangs, t) m')
      × Extends m m'
      × ((k : ℕ) × (k < (t shmid).page_num) × (translate (heap_end c + k * 4096) m ≢ none)))
    ⊎ ((r ≡ ok (failed, t) m')
        × Extends m m'
        × ((heap_end c ≡ 0) ⊎ Fails (t shmid).page_num (heap_end c) (heap_limit c) m'))
    ⊎ ((r
          ≡ ok
              (
                returned (relative (heap_end c) c),
                update t shmid (attached (heap_end c) c (t shmid)),
              )
              m')
        × Mapped (t shmid).page_num 0 (heap_end c) (t shmid).shmaddr m m'
        × ((k : ℕ) → k < (t shmid).page_num → translate (heap_end c + k * 4096) m ≡ none))

first_of-end :
    (a n : ℕ) → a + n * 4096 ≤ 2 ^ 32 → a < 2 ^ 32 → first_of ((a + n * 4096) % 2 ^ 32) n ≡ a
first_of-end a n h k = omega arith

module _ (fuel shmid : ℕ) (c : Current) (t : Table) (m : Memory) (p : IsPaged m)
    (aligned : (k : ℕ) → (t shmid).shmaddr k % 4096 ≡ 0)
    (fits : heap_end c + (t shmid).page_num * 4096 ≤ 2 ^ 32)
    (enough : (t shmid).page_num < fuel) where
  abbrev pages : ℕ
  pages = (t shmid).page_num

  -- The end of `sys_shmat`, once a search has found the address
  attach_found :
      Searched pages (heap_end c) (heap_limit c) pages m (find_empty_adress fuel pages c m)
      → (m' : Memory) × Anywhere shmid c t m m' (attach_anywhere fuel shmid c t m)
  unfolding attach_anywhere
  attach_found (m1, x, inl (e, held)) = (m1, inl (rw e refl, x, held))
  attach_found (m1, x, inr (inl (e, why))) = (m1, inr (inl (rw e refl, x, inr why)))
  attach_found (m1, x, inr (inr (e, ready))) =
      let e' : find_empty_adress fuel pages c m ≡ ok (some (heap_end c)) m1 =
        e ∙ ap (λ (a : ℕ). ok (some a) m1) (first_of-end (heap_end c) pages fits (omega arith)) in
      elim (Bool-cases (heap_end c == 0)) [
        | inl z ↦ (m1, inr (inl (rw (e', z) refl, x, inl (ground arith))))
        | inr nz ↦
            let (m2, e2, r) =
              map_pages-Mapped pages 0 (heap_end c) (t shmid).shmaddr m1 x.paged (omega arith) fits
                aligned ready.tables in
            (
              m2,
              inr (
                  inr (
                    rw (e', nz, e2) refl,
                    record {
                      paged = r.paged;
                      inside = r.inside;
                      outside = λ b hb far. r.outside b hb far ∙ x.same b;
                    },
                    λ k h. sym (x.same (heap_end c + k * 4096)) ∙ ready.unmapped k h,
                  )),
            )
      ]

  -- `sys_shmat` without an address, for frames that are aligned, pages that do not reach over 2^32 and
  -- more rounds than pages. Where a page is mapped where the segment is to go, it may not have
  -- returned; it fails only where the segment has no pages, its pages reach over the limit, which is
  -- taken modulo 2^32, no frame is free or the heap ends at 0. In both cases no address is translated
  -- otherwise than before. Else it attaches the segment at the end of the heap, where no page was
  -- mapped: the segment's frames in order, and no other page is changed.
  pub attach_anywhere-Mapped :
      (m' : Memory) × Anywhere shmid c t m m' (attach_anywhere fuel shmid c t m)
  unfolding find_empty_adress
  attach_anywhere-Mapped =
      attach_found (
        search-Searched fuel pages 0 (heap_end c) (heap_limit c) pages m p (omega arith) enough
          fits)

-- A page that is mapped at the end of the heap stands in the way: `sys_shmat` then does not return in
-- any number of rounds, for a segment with a page at least.
pub attach_anywhere-held :
    (fuel shmid : ℕ) (c : Current) (t : Table) (m : Memory)
    → IsPaged m
    → 1 ≤ (t shmid).page_num
    → heap_end c + shm_max_heap < 2 ^ 32
    → translate (heap_end c) m ≢ none
    → attach_anywhere fuel shmid c t m ≡ ok (hangs, t) m
unfolding attach_anywhere find_empty_adress
attach_anywhere-held fuel shmid c t m p some_page low h =
    let pages : ℕ = (t shmid).page_num in
    let never : search fuel 0 (heap_end c) (heap_limit c) pages m ≡ ok none m =
      search-held fuel 0 (heap_end c) (heap_limit c) pages m p some_page (omega arith) h in
    rw never refl

abbrev answer_of : Run (Attached × Table) → Attached
answer_of (ok r m) = r.0
answer_of panic = failed
answer_of (exit m) = failed

abbrev memory_after : Memory → Run (Attached × Table) → Memory
memory_after m0 (ok r m) = m
memory_after m0 panic = m0
memory_after m0 (exit m) = m0

-- What has returned has mapped the pages of the segment.
returned-Mapped :
    (shmid a : ℕ) (c : Current) (t t1 : Table) (m m1 m' : Memory) (r : Run (Attached × Table))
    → r ≡ ok (returned a, t1) m1
    → Anywhere shmid c t m m' r
    → Mapped (t shmid).page_num 0 (heap_end c) (t shmid).shmaddr m m1
returned-Mapped shmid a c t t1 m m1 m' r h (inl (e, x, y)) =
    absurd (let no : hangs ≡ returned a = ap answer_of (sym e ∙ h) in cc)
returned-Mapped shmid a c t t1 m m1 m' r h (inr (inl (e, x, y))) =
    absurd (let no : failed ≡ returned a = ap answer_of (sym e ∙ h) in cc)
returned-Mapped shmid a c t t1 m m1 m' r h (inr (inr (e, x, y))) =
    subst (Mapped (t shmid).page_num 0 (heap_end c) (t shmid).shmaddr m)
      (ap (memory_after m) (sym e ∙ h)) x

-- A second segment of the same process: once `sys_shmat` without an address has attached a segment with
-- a page at least, a later call for such a segment does not return in any number of rounds, as long as
-- the heap's end and the memory are the same, and the heap does not end within SHM_MAX_HEAP of 2^32.
pub attach_anywhere-twice :
    (fuel fuel2 shmid shmid2 a : ℕ) (c : Current) (t t1 t2 : Table) (m m1 : Memory)
    → IsPaged m
    → ((k : ℕ) → (t shmid).shmaddr k % 4096 ≡ 0)
    → (t shmid).page_num ≤ 64
    → (t shmid).page_num < fuel
    → heap_end c + shm_max_heap < 2 ^ 32
    → 1 ≤ (t shmid).page_num
    → attach_anywhere fuel shmid c t m ≡ ok (returned a, t1) m1
    → 1 ≤ (t2 shmid2).page_num
    → attach_anywhere fuel2 shmid2 c t2 m1 ≡ ok (hangs, t2) m1
attach_anywhere-twice fuel fuel2 shmid shmid2 a c t t1 t2 m m1 p al few enough low one h two =
    let first = attach_anywhere-Mapped fuel shmid c t m p al (omega arith) enough in
    let r = returned-Mapped shmid a c t t1 m m1 first.0 _ h first.1 in
    attach_anywhere-held fuel2 shmid2 c t2 m1 r.paged two low (λ e. some-none (
      sym (ap (λ (a : ℕ). translate a m1) (omega arith) ∙ r.inside 0 0 (omega arith) (omega arith))
      ∙ e))
  where
    some-none : {x : ℕ} → some x ≡ none → ⊥
    some-none e = cc
