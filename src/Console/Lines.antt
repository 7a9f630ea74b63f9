-- ===== src/Console/Lines.antt =====
-- kernel/chr_drv/console.c: what scrolling shows, the cursor that the controller is told, and the
-- state that `con_init` starts from.
use my_practice.Base.{
  ℕ, zero, suc, ◌+◌, ◌-◌, ◌*◌, ◌/◌, ◌%◌, ◌^◌, ◌≤◌, ◌<◌, ◌≡◌, refl, ap, ◌∙◌, ◌⊎◌, inl, inr, Bool,
  true, false, none, some, arith, update, update_ne, update_self,
}
use my_practice.Queue.{Queue, chars}
use my_practice.Console.{
  Console, fill, move, movsl, region_longs, scroll_up, con_write, con_init, Progress, end_write,
  write_chars, gotoxy,
}
use my_practice.Console.Video.{Outside, fill-Outside, move-Outside}
use my_practice.Console.Screen.{IsValid, line_end, row_succ, row_pred, cursor_end}
use my_practice.Console.Write.{write_chars-Keeps}

-- A word that is filled
fill-at : (n at v : ℕ) (w : ℕ → ℕ) (i : ℕ) → i < n → fill n at v w (at + i * 2) ≡ v
unfolding fill
fill-at zero at v w i h = elim h [ ]
fill-at (suc n) at v w zero h =
    fill-Outside (at + 2) (at + 2 + n * 2) (at + 0 * 2) (inl (omega arith)) n (at + 2) v
      (update w at v) (omega arith) (omega arith)
    ∙ ap (update w at v) (omega arith)
    ∙ update_self w at v
fill-at (suc n) at v w (suc i) h =
    ap (fill n (at + 2) v (update w at v)) (omega arith)
    ∙ fill-at n (at + 2) v (update w at v) i (omega arith)

module _ (to from : ℕ) (w : ℕ → ℕ) where
  movsl-first : movsl to from w to ≡ w from
  movsl-first =
      update_ne (update w to (w from)) (to + 2) (w (from + 2)) to (λ e. omega arith)
      ∙ update_self w to (w from)

  movsl-second : movsl to from w (to + 2) ≡ w (from + 2)
  movsl-second = update_self (update w to (w from)) (to + 2) (w (from + 2))

  movsl-other : (a : ℕ) → to + 4 ≤ a → movsl to from w a ≡ w a
  movsl-other a h =
      update_ne (update w to (w from)) (to + 2) (w (from + 2)) a (λ e. omega arith)
      ∙ update_ne w to (w from) a (λ e. omega arith)

-- A word that is moved downwards in memory: each is read before it is overwritten.
move-at :
    (n to from : ℕ) (w : ℕ → ℕ) (i : ℕ)
    → to + 4 ≤ from
    → i < n * 2
    → move n to from w (to + i * 2) ≡ w (from + i * 2)
unfolding move
move-at zero to from w i d h = absurd (omega arith)
move-at (suc n) to from w zero d h =
    move-Outside (to + 4) (to + 4 + n * 4) (to + 0 * 2) (inl (omega arith)) n (to + 4) (from + 4)
      (movsl to from w) (omega arith) (omega arith)
    ∙ ap (movsl to from w) (omega arith)
    ∙ movsl-first to from w
    ∙ ap w (omega arith)
move-at (suc n) to from w (suc zero) d h =
    move-Outside (to + 4) (to + 4 + n * 4) (to + 1 * 2) (inl (omega arith)) n (to + 4) (from + 4)
      (movsl to from w) (omega arith) (omega arith)
    ∙ ap (movsl to from w) (omega arith)
    ∙ movsl-second to from w
    ∙ ap w (omega arith)
move-at (suc n) to from w (suc (suc i)) d h =
    ap (move n (to + 4) (from + 4) (movsl to from w)) (omega arith)
    ∙ move-at n (to + 4) (from + 4) (movsl to from w) i (omega arith) (omega arith)
    ∙ movsl-other to from w (from + 4 + i * 2) (omega arith)
    ∙ ap w (omega arith)

-- the address of a column of a line
abbrev pub place : Console → (line column : ℕ) → ℕ
place s line column = s.origin + line * s.size_row + column * 2

suc_mul : (k columns : ℕ) → suc k * columns ≡ k * columns + columns
suc_mul k columns = grind arith

even_longs : (k columns : ℕ) → columns % 2 ≡ 0 → k * columns / 2 * 2 ≡ k * columns
even_longs zero columns e = omega arith
even_longs (suc k) columns e = omega (arith, even_longs k columns e, suc_mul k columns)

-- The index of a column of a line, among the words from the line `top` on.
abbrev index : (top line column columns : ℕ) → ℕ
index top line column columns = (line - top) * columns + column

le_mul : (a b row : ℕ) → a ≤ b → a * row ≤ b * row
le_mul a b row h = grind arith

swap_mul : (a b : ℕ) → a * b ≡ b * a
swap_mul a b = grind arith

index-lt :
    (top bottom line column columns : ℕ)
    → top ≤ line
    → line + 1 < bottom
    → column < columns
    → index top line column columns < (bottom - top - 1) * columns
index-lt top bottom line column columns lo hi h =
    omega (arith, line_end (line - top) (bottom - top - 1) columns (omega arith))

place_sum :
    (top more column columns : ℕ)
    → columns * 2 * top + (more * columns + column) * 2 ≡ (top + more) * (columns * 2) + column * 2
place_sum top more column columns = grind arith

index-place :
    (top line column columns row : ℕ)
    → top ≤ line
    → row ≡ columns * 2
    → row * top + index top line column columns * 2 ≡ line * row + column * 2
index-place top line column columns row lo e = rw e (
    place_sum top (line - top) column columns
    ∙ ap (λ (l : ℕ). l * (columns * 2) + column * 2) (omega arith))

module _ {s : Console} (v : IsValid s) (even : s.num_columns % 2 ≡ 0) where
  abbrev region_start : ℕ
  region_start = s.origin + s.size_row * s.top

  abbrev moved : ℕ → ℕ
  moved = move (region_longs s) region_start (s.origin + s.size_row * (s.top + 1)) s.word

  longs_even : region_longs s * 2 ≡ (s.bottom - s.top - 1) * s.num_columns
  longs_even = even_longs (s.bottom - s.top - 1) s.num_columns even

  scroll_up-moved :
      (line column : ℕ)
      → s.top ≤ line
      → line + 1 < s.bottom
      → column < s.num_columns
      → (scroll_up s).word (place s line column) ≡ s.word (place s (line + 1) column)
  unfolding scroll_up
  scroll_up-moved line column lo hi h =
      let i : ℕ = index s.top line column s.num_columns in
      let below = index-lt s.top s.bottom line column s.num_columns lo hi h in
      let here = index-place s.top line column s.num_columns s.size_row lo v.row in
      let there = row_succ line s.size_row in
      let next = row_succ s.top s.size_row in
      let next' : s.size_row * (s.top + 1) ≡ s.size_row * s.top + s.size_row = grind arith in
      let n : ℕ = region_longs s in
      let a : place s line column ≡ region_start + i * 2 = omega arith in
      ap (fill s.num_columns (region_start + n * 4) s.erase_char moved) a
      ∙ fill-Outside (region_start + n * 4) (region_start + n * 4 + s.num_columns * 2)
          (region_start + i * 2) (inl (omega (arith, longs_even))) s.num_columns
          (region_start + n * 4) s.erase_char moved (omega arith) (omega arith)
      ∙ move-at n region_start (s.origin + s.size_row * (s.top + 1)) s.word i (omega arith)
          (omega (arith, longs_even))
      ∙ ap s.word (omega arith)

  longs_lines : region_start + region_longs s * 4 ≡ s.origin + (s.bottom - 1) * s.size_row
  longs_lines =
      let columns = v.row in
      let split = place_sum s.top (s.bottom - s.top - 1) 0 s.num_columns in
      let whole : (s.top + (s.bottom - s.top - 1)) * (s.num_columns * 2)
          ≡ (s.bottom - 1) * s.size_row =
        rw v.row (ap (λ (l : ℕ). l * (s.num_columns * 2)) (omega arith)) in
      let start : s.size_row * s.top ≡ s.num_columns * 2 * s.top = rw v.row refl in
      omega (arith, longs_even)

  scroll_up-erased :
      (column : ℕ)
      → column < s.num_columns
      → (scroll_up s).word (place s (s.bottom - 1) column) ≡ s.erase_char
  unfolding scroll_up
  scroll_up-erased column h =
      let at : ℕ = region_start + region_longs s * 4 in
      let a : place s (s.bottom - 1) column ≡ at + column * 2 = omega (arith, longs_lines) in
      ap (fill s.num_columns at s.erase_char moved) a
      ∙ fill-at s.num_columns at s.erase_char moved column h

  scroll_up-other :
      (line column : ℕ)
      → column < s.num_columns
      → (line < s.top) ⊎ (s.bottom ≤ line)
      → (scroll_up s).word (place s line column) ≡ s.word (place s line column)
  unfolding scroll_up
  scroll_up-other line column h far =
      let n : ℕ = region_longs s in
      let last = row_pred s.bottom s.size_row (omega arith) in
      let out : Outside region_start (region_start + n * 4 + s.num_columns * 2)
          (place s line column) =
        outside far in
      fill-Outside region_start (region_start + n * 4 + s.num_columns * 2) (place s line column) out
        s.num_columns (region_start + n * 4) s.erase_char moved (omega arith) (omega arith)
      ∙ move-Outside region_start (region_start + n * 4 + s.num_columns * 2) (place s line column)
          out n region_start (s.origin + s.size_row * (s.top + 1)) s.word (omega arith)
          (omega arith)
    where
      outside :
          (line < s.top) ⊎ (s.bottom ≤ line)
          → Outside region_start
              (region_start + region_longs s * 4 + s.num_columns * 2)
              (place s line column)
      outside (inl before) =
          inl (omega (arith, line_end line s.top s.size_row before, swap_mul s.size_row s.top))
      outside (inr after) = inr (
          omega (
            arith,
            longs_lines,
            row_pred s.bottom s.size_row (omega arith),
            le_mul s.bottom line s.size_row after,
          ))

  -- Scrolling moves each line of the region but the first up by one, fills the last one with the
  -- erase character, and leaves the lines outside the region as they are, for a screen with an even
  -- number of columns.
  pub scroll_up-lines :
      (line column : ℕ)
      → column < s.num_columns
      → (s.top ≤ line
          → line + 1 < s.bottom
          → (scroll_up s).word (place s line column) ≡ s.word (place s (line + 1) column))
        × (line + 1 ≡ s.bottom → (scroll_up s).word (place s line column) ≡ s.erase_char)
        × ((line < s.top) ⊎ (s.bottom ≤ line)
            → (scroll_up s).word (place s line column) ≡ s.word (place s line column))
  scroll_up-lines line column h = (
    λ lo hi. scroll_up-moved line column lo hi h,
    λ e.
        ap (λ (l : ℕ). (scroll_up s).word (place s l column)) (omega arith)
        ∙ scroll_up-erased column h,
    λ far. scroll_up-other line column h far,
  )

end_write-cursor :
    (r : Progress)
    → r.0 ≡ none
    → IsValid r.2
    → r.2.mem_end < r.2.mem_start + 2 ^ 17
    → (end_write r).2.crtc 14 * 256 + (end_write r).2.crtc 15
      ≡ ((end_write r).2.pos - r.2.mem_start) / 2
end_write-cursor (some nr, q, s) h v small = cc
end_write-cursor (none, q, s) h v small = let bound = cursor_end v in omega arith

-- Where `con_write` returns, the registers 14 and 15 of the video controller hold the index of the
-- cursor's word, counted from the start of video memory, if that is shorter than 128K.
pub con_write-cursor :
    (erase : ℕ) (write_q : Queue) {s : Console}
    → IsValid s
    → s.mem_end < s.mem_start + 2 ^ 17
    → (write_chars (chars write_q) erase write_q s).0 ≡ none
    → (con_write erase write_q s).2.crtc 14 * 256 + (con_write erase write_q s).2.crtc 15
      ≡ ((con_write erase write_q s).2.pos
          - (write_chars (chars write_q) erase write_q s).2.mem_start)
        / 2
unfolding con_write
con_write-cursor erase write_q {s} v small h =
    let k = write_chars-Keeps (chars write_q) erase write_q v in
    end_write-cursor (write_chars (chars write_q) erase write_q s) h k.valid
      (omega (arith, k.same_start, k.same_end))

-- `con_init` makes a valid state on every card, for a screen of 25 lines that fits into 8K, at least
-- 8 columns, and a cursor on the screen.
pub con_init-IsValid :
    (mono ega : Bool) (columns orig_x orig_y : ℕ) (s : Console)
    → 8 ≤ columns
    → 25 * (columns * 2) ≤ 0x2000
    → orig_x ≤ columns
    → orig_y < 25
    → IsValid (con_init mono ega columns orig_x orig_y s)
unfolding con_init gotoxy
con_init-IsValid true true columns orig_x orig_y s h fits hx hy = ground arith
con_init-IsValid true false columns orig_x orig_y s h fits hx hy = ground arith
con_init-IsValid false true columns orig_x orig_y s h fits hx hy = ground arith
con_init-IsValid false false columns orig_x orig_y s h fits hx hy = ground arith
