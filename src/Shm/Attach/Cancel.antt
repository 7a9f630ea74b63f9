-- ===== src/Shm/Attach/Cancel.antt =====
-- mm/shm.c: what `cancelAdress` unmaps, and what `sys_shmat` maps at an address that it is given.
use my_practice.Base.{
  ℕ, zero, suc, ◌+◌, ◌%◌, ◌^◌, ◌≤◌, ◌<◌, ◌≡◌, refl, ap, ◌∙◌, ◌≢◌, inl, inr, true, false, ◌==◌,
  arith, update_ne, update_self, Bool-cases, none,
}
use my_practice.Memory.{Memory, ok, present, frame, dir_entry, table_entry_of, store}
use my_practice.Memory.Paging.{IsPaged, translate, same_page, entries_apart}
use my_practice.Memory.Tables.{Put, put_page-Put}
use my_practice.Shm.Attach.{map_given, cancel_adress}

-- A page put over another at the same address
Put-over : {p q a : ℕ} {m m1 m2 : Memory} → a < 2 ^ 32 → Put p a m m1 → Put q a m1 m2 → Put q a m m2
Put-over h x y = record {
  paged = y.paged;
  self = y.self;
  other = λ b hb ne. y.other b hb ne ∙ x.other b hb ne;
  dirs = λ b. y.dirs b ∙ x.dirs b;
}

-- `sys_shmat` at an address that it is given puts every page of the segment there, one over the
-- other, where the page table is there and the frames are aligned and not 0: the last page of the
-- segment alone is mapped, and the pages after the address are as they were.
pub map_given-last :
    (n i address : ℕ) (a : ℕ → ℕ) (m : Memory)
    → IsPaged m
    → address < 2 ^ 32
    → ((k : ℕ) → (a k % 4096 ≡ 0) × (1 ≤ a k))
    → present (m.word (dir_entry address)) ≡ true
    → (m' : Memory) × (map_given (suc n) i address a m ≡ ok true m') × Put (a (i + n)) address m m'
unfolding map_given
map_given-last zero i address a m p h frames there =
    let (m1, e, q) = put_page-Put (a i) address m p (frames i).0 h there in
    let some_frame : (a i == 0) ≡ false = (let f = (frames i).1 in ground arith) in
    let same : i + 0 ≡ i = omega arith in (m1, rw (e, some_frame) refl, rw same q)
map_given-last (suc n) i address a m p h frames there =
    let (m1, e, q) = put_page-Put (a i) address m p (frames i).0 h there in
    let some_frame : (a i == 0) ≡ false = (let f = (frames i).1 in ground arith) in
    let (m2, e2, r) =
      map_given-last n (i + 1) address a m1 q.paged h frames
        (ap present (q.dirs address) ∙ there) in
    let same : i + suc n ≡ i + 1 + n = omega arith in
    (m2, rw (e, some_frame) e2, rw same (Put-over h q r))

-- `cancelAdress` looks at the first entry of the page table. If that is present, it unmaps the page
-- of the address and no other; if not, it unmaps nothing, even if the page of the address is mapped.
pub cancel_adress-cases :
    (addr : ℕ) (m : Memory)
    → IsPaged m
    → addr < 2 ^ 32
    → present (m.word (dir_entry addr)) ≡ true
    → (present (m.word (frame (m.word (dir_entry addr)))) ≡ true
        → (translate addr (cancel_adress addr m) ≡ none)
          × ((b : ℕ)
              → b < 2 ^ 32
              → same_page addr b ≡ false
              → translate b (cancel_adress addr m) ≡ translate b m))
      × (present (m.word (frame (m.word (dir_entry addr)))) ≡ false → cancel_adress addr m ≡ m)
unfolding cancel_adress translate
cancel_adress-cases addr m p h there =
    (λ first. rw (there, first) (gone, others), λ first. rw (there, first) refl)
  where
    far : (b : ℕ) → table_entry_of addr m ≢ dir_entry b
    far b e = let o = p.outside addr there in omega arith

    dirs : (b : ℕ) → (store (table_entry_of addr m) 0 m).word (dir_entry b) ≡ m.word (dir_entry b)
    dirs b = update_ne m.word (table_entry_of addr m) 0 (dir_entry b) (far b)

    gone : translate addr (store (table_entry_of addr m) 0 m) ≡ none
    gone = rw (dirs addr, there, update_self m.word (table_entry_of addr m) 0) refl

    others :
        (b : ℕ)
        → b < 2 ^ 32
        → same_page addr b ≡ false
        → translate b (store (table_entry_of addr m) 0 m) ≡ translate b m
    others b hb ne = elim (Bool-cases (present (m.word (dir_entry b)))) [
      | inl hd ↦
          rw (dirs b, update_ne m.word _ 0 _ (entries_apart p 0 addr refl h there b hb ne hd)) refl
      | inr hd ↦ rw (dirs b, hd) refl
    ]
