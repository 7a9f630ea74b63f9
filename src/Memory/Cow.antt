-- ===== src/Memory/Cow.antt =====
-- mm/memory.c, `un_wp_page`: a write to a page that others share gives the writer a copy.
use my_practice.Base.{
  ℕ, ◌+◌, ◌-◌, ◌*◌, ◌/◌, ◌%◌, ◌≤◌, ◌<◌, ◌≡◌, refl, sym, ap, ◌∙◌, ◌≢◌, ◌⊎◌, inl, inr, arith, leb,
  ◌==◌, if◌then◌else◌, update_ne, Bool-cases, Bool, true, false, ◌&&◌, not,
}
use mathlib.Core.Path.{subst}
use my_practice.Memory.{
  Memory, ok, exit, low_mem, paging_pages, map_nr, in_page, present, frame, or_7, set_rw, dec_map,
  copy_page, store, un_wp_page,
}
use my_practice.Memory.Frames.{IsValid, Allocated, get_free_page-cases}
use my_practice.Memory.Paging.{table_ne_zero}

-- What the caller of `un_wp_page` provides: the entry is present, and lies in no free frame and not
-- in the page that it maps, which is in use.
pub record IsMapped (m : Memory) (entry : ℕ) : Type 0 where
  pub is_present : present (m.word entry) ≡ true
  pub entry_held : (i : ℕ) → m.mem_map i ≡ 0 → in_page (low_mem + i * 4096) entry ≡ false
  pub entry_outside : in_page (frame (m.word entry)) entry ≡ false
  pub page_held : low_mem ≤ frame (m.word entry) → m.mem_map (map_nr (frame (m.word entry))) ≢ 0

-- The frame of the entry is one that is counted, and no other task uses it.
abbrev pub is_sole : Memory → (entry : ℕ) → Bool
is_sole m entry =
    leb low_mem (frame (m.word entry)) && m.mem_map (map_nr (frame (m.word entry))) == 1

-- The task at `entry` has the page for itself, with the contents that it had.
pub record Unshared (m : Memory) (entry : ℕ) (m' : Memory) : Type 0 where
  pub is_present : present (m'.word entry) ≡ true
  pub writable : m'.word entry / 2 % 2 ≡ 1
  pub contents :
      (k : ℕ) → k < 4096 → m'.word (frame (m'.word entry) + k) ≡ m.word (frame (m.word entry) + k)
  pub sole : m'.mem_map (map_nr (frame (m'.word entry))) ≡ 1
  -- The frame is the one that it had if no other task uses it, and else one that was free.
  pub in_place : is_sole m entry ≡ true → frame (m'.word entry) ≡ frame (m.word entry)
  pub moved :
      is_sole m entry ≡ false
      → (low_mem ≤ frame (m'.word entry)) × (m.mem_map (map_nr (frame (m'.word entry))) ≡ 0)
  -- No word changes but the entry and those of frames that were free.
  pub others :
      (a : ℕ)
      → a ≢ entry
      → ((i : ℕ) → m.mem_map i ≡ 0 → in_page (low_mem + i * 4096) a ≡ false)
      → m'.word a ≡ m.word a
  -- The old frame loses one reference if it is left, and no other frame in use changes its count.
  pub released :
      (j : ℕ)
      → m.mem_map j ≢ 0
      → m'.mem_map j
          + (if map_nr (frame (m.word entry)) == j
                && (leb low_mem (frame (m.word entry))
                    && not (frame (m'.word entry) == frame (m.word entry)))
              then 1
              else 0)
        ≡ m.mem_map j

contrary : {b : Bool} → b ≡ true → b ≡ false → ⊥
contrary h k = cc

module _ {m : Memory} {entry : ℕ} (h : IsMapped m entry) where
  abbrev old : ℕ
  old = frame (m.word entry)

  -- The only user of the page gets the right to write.
  in_place-Unshared :
      is_sole m entry ≡ true → Unshared m entry (store entry (set_rw (m.word entry)) m)
  in_place-Unshared t =
      let same : frame (set_rw (m.word entry)) ≡ old = omega arith in
      record {
        is_present = ground (arith, h.is_present);
        writable = ground arith;
        contents = λ k lt. ground (arith, h.entry_outside);
        sole = ground arith;
        in_place = λ e. ground arith;
        moved = λ e. absurd (contrary t e);
        others = λ a ne far. update_ne m.word entry _ a (λ e. ne (sym e));
        released = λ j used. ground arith;
      }

module _ {m m1 : Memory} {entry i : ℕ} (v : IsValid m) (h : IsMapped m entry)
    (al : Allocated m i m1) where
  abbrev new : ℕ
  new = low_mem + i * 4096

  -- the memory behind the copy
  abbrev copied : Memory
  copied = copy_page (frame (m.word entry)) new (
      store entry (or_7 new) (
        if leb low_mem (frame (m.word entry))
        then dec_map (map_nr (frame (m.word entry))) m1
        else m1))

  new-ne-old : new ≢ frame (m.word entry)
  new-ne-old e = h.page_held (omega arith) (ap m.mem_map (omega arith) ∙ al.picked.free)

  entry_far : in_page new entry ≡ false
  entry_far = h.entry_held i al.picked.free

  copied-entry : copied.word entry ≡ or_7 new
  copied-entry = ground (arith, entry_far)

  copied-frame : frame (copied.word entry) ≡ new
  copied-frame = ap frame copied-entry ∙ omega arith

  copied-in : (k : ℕ) → k < 4096 → copied.word (new + k) ≡ m.word (frame (m.word entry) + k)
  copied-in k lt =
      let offset : new + k - new ≡ k = omega arith in
      let far : in_page new (frame (m.word entry) + k) ≡ false = ground (arith, new-ne-old) in
      ground (arith, h.entry_outside, far, al.word_other (frame (m.word entry) + k))

  copied-map :
      (j : ℕ)
      → copied.mem_map j ≡ (
          if leb low_mem (frame (m.word entry)) && map_nr (frame (m.word entry)) == j
          then (m1.mem_map j + 255) % 256
          else m1.mem_map j)
  copied-map j = ground arith

  copied-map_new : copied.mem_map (map_nr new) ≡ 1
  copied-map_new =
      let index : map_nr new ≡ i = omega arith in
      rw (index, copied-map) (ground (arith, new-ne-old, al.map_self))

  copied-released :
      (j : ℕ)
      → m.mem_map j ≢ 0
      → copied.mem_map j
          + (if map_nr (frame (m.word entry)) == j
                && (leb low_mem (frame (m.word entry))
                    && not (frame (copied.word entry) == frame (m.word entry)))
              then 1
              else 0)
        ≡ m.mem_map j
  copied-released j used =
      let left : (new == frame (m.word entry)) ≡ false = ground (arith, new-ne-old) in
      let other : i ≢ j = λ e. used (ap m.mem_map (sym e) ∙ al.picked.free) in
      rw (copied-frame, left, copied-map j, al.map_other j other) (ground (arith, v.byte j))

  copied-free : m.mem_map (map_nr (frame (copied.word entry))) ≡ 0
  copied-free =
      let index : map_nr (frame (copied.word entry)) ≡ i =
        ap (λ x. map_nr x) copied-frame ∙ omega arith in
      ap m.mem_map index ∙ al.picked.free

  copied-Unshared : is_sole m entry ≡ false → Unshared m entry copied
  copied-Unshared t = record {
    is_present = rw copied-entry (ground arith);
    writable = rw copied-entry (omega arith);
    contents = λ k lt. ap (λ x. copied.word (x + k)) copied-frame ∙ copied-in k lt;
    sole = ap (λ x. copied.mem_map (map_nr x)) copied-frame ∙ copied-map_new;
    in_place = λ e. absurd (contrary e t);
    moved = λ e. (subst (λ x. low_mem ≤ x) (sym copied-frame) (omega arith), copied-free);
    others = λ a ne far. ground (arith, far i al.picked.free, al.word_other a);
    released = λ j used. copied-released j used;
  }

-- `un_wp_page` gives the task of `entry` the page for itself, with its contents and the right to
-- write: in place if the frame is from 1 MB on and no other task uses it, and else in a frame that was free, in which case the old
-- one loses a reference. It ends the task only if another one may use the frame and no frame is free.
pub un_wp_page-Unshared :
    (entry : ℕ) (m : Memory)
    → IsValid m
    → IsMapped m entry
    → ((m' : Memory) × (un_wp_page entry m ≡ ok tt m') × Unshared m entry m')
      ⊎ ((un_wp_page entry m ≡ exit m)
          × (is_sole m entry ≡ false)
          × ((j : ℕ) → j < paging_pages → m.mem_map j ≢ 0))
unfolding un_wp_page
un_wp_page-Unshared entry m v h = elim (Bool-cases (is_sole m entry)) [
  | inl t ↦ inl (_, rw t refl, in_place-Unshared h t)
  | inr t ↦ elim (get_free_page-cases m) [
    | inl (i, m1, e, al) ↦
        inl (copied v h al, rw (t, e, table_ne_zero i) refl, copied-Unshared v h al t)
    | inr (e, all) ↦ inr (rw (t, e) refl, t, all)
  ]
]
