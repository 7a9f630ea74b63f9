-- ===== src/Console/Scroll.antt =====
-- kernel/chr_drv/console.c: scrolling stays inside video memory and keeps the cursor in its place.
use my_practice.Base.{
  ℕ, ◌+◌, ◌-◌, ◌*◌, ◌/◌, ◌≤◌, ◌<◌, ◌≡◌, refl, ap, ◌∙◌, inl, inr, ◌&&◌, ltb, ◌==◌, arith, Bool-cases,
}
use my_practice.Console.{
  Console, is_ega, move, move_down, region_longs, set_register, scroll_up, scrdown, advance, scrup,
  lf, ri,
}
use my_practice.Console.Video.{fill-Outside, move-Outside, fill_down-Outside, move_down-Outside}
use my_practice.Console.Screen.{IsValid, Keeps, Keeps-trans, rewrite-Keeps, row_succ, row_pred}

pub set_register-Keeps :
    (r address : ℕ) {s : Console} → IsValid s → Keeps s (set_register r address s)
set_register-Keeps r address {s} v = record {
  valid = omega arith;
  same_start = refl;
  same_end = refl;
  same_lines = refl;
  frame = λ a o. refl;
}

-- Moving longs of four bytes never moves more than whole lines.
longs-le : (k columns row : ℕ) → row ≡ columns * 2 → k * columns / 2 * 4 ≤ k * row
longs-le k columns row e = rw e (grind arith)

split_lines : (top more row : ℕ) → row * top + more * row + row ≡ row * (top + more + 1)
split_lines top more row = grind arith

-- The lines above a region, its lines but the last, and its last line.
region_split :
    (top bottom row : ℕ) → top < bottom → row * top + (bottom - top - 1) * row + row ≡ row * bottom
region_split top bottom row h =
    split_lines top (bottom - top - 1) row ∙ ap (λ (b : ℕ). row * b) (omega arith)

lines_le : (bottom lines row : ℕ) → bottom ≤ lines → row * bottom ≤ lines * row
lines_le bottom lines row le = grind arith

module _ {s : Console} (v : IsValid s) where
  pub scroll_up-Keeps : Keeps s (scroll_up s)
  unfolding scroll_up
  scroll_up-Keeps =
      let inside = lines_le s.bottom s.num_lines s.size_row v.within in
      let split = region_split s.top s.bottom s.size_row v.region in
      let longs = longs-le (s.bottom - s.top - 1) s.num_columns s.size_row v.row in
      let to : ℕ = s.origin + s.size_row * s.top in
      let from : ℕ = s.origin + s.size_row * (s.top + 1) in
      let n : ℕ = region_longs s in
      rewrite-Keeps _ v (λ a o.
        fill-Outside s.mem_start s.mem_end a o s.num_columns (to + n * 4) s.erase_char
          (move n to from s.word) (omega arith) (omega arith)
        ∙ move-Outside s.mem_start s.mem_end a o n to from s.word (omega arith) (omega arith))

  pub scrdown-Keeps : Keeps s (scrdown s)
  unfolding scrdown
  scrdown-Keeps =
      let inside = lines_le s.bottom s.num_lines s.size_row v.within in
      let split = region_split s.top s.bottom s.size_row v.region in
      let longs = longs-le (s.bottom - s.top - 1) s.num_columns s.size_row v.row in
      let to : ℕ = s.origin + s.size_row * s.bottom - 4 in
      let from : ℕ = s.origin + s.size_row * (s.bottom - 1) - 4 in
      let n : ℕ = region_longs s in
      rewrite-Keeps _ v (λ a o.
        fill_down-Outside s.mem_start s.mem_end a o s.num_columns (to - n * 4 + 2) s.erase_char
          (move_down n to from s.word) (omega arith) (omega arith)
        ∙ move_down-Outside s.mem_start s.mem_end a o n to from s.word (omega arith) (omega arith))

  advance-Keeps : Keeps s (advance s)
  unfolding advance
  advance-Keeps =
      let longs = longs-le (s.num_lines - 1) s.num_columns s.size_row v.row in
      let whole = row_pred s.num_lines s.size_row (omega arith) in
      let n : ℕ = (s.num_lines - 1) * s.num_columns / 2 in
      elim (Bool-cases (ltb s.mem_end (s.scr_end + s.size_row))) [
        | inl h ↦ rw h (record {
          valid = omega arith;
          same_start = refl;
          same_end = refl;
          same_lines = refl;
          frame = λ a o.
              fill-Outside s.mem_start s.mem_end a o s.num_columns (s.mem_start + n * 4)
                s.erase_char (move n s.mem_start (s.origin + s.size_row) s.word) (omega arith)
                (omega arith)
              ∙ move-Outside s.mem_start s.mem_end a o n s.mem_start (s.origin + s.size_row) s.word
                  (omega arith) (omega arith);
        })
        | inr h ↦
            let room : s.scr_end + s.size_row ≤ s.mem_end = ground arith in
            rw h (record {
              valid = omega arith;
              same_start = refl;
              same_end = refl;
              same_lines = refl;
              frame = λ a o.
                  fill-Outside s.mem_start s.mem_end a o s.num_columns
                    (s.scr_end + s.size_row - s.size_row) s.erase_char s.word (omega arith)
                    (omega arith);
            })
      ]

  pub scrup-Keeps : Keeps s (scrup s)
  unfolding scrup
  scrup-Keeps = elim (Bool-cases (is_ega s.video_type && (s.top == 0 && s.bottom == s.num_lines))) [
    | inl h ↦
        rw h
          (Keeps-trans advance-Keeps (set_register-Keeps 12 (advance s).origin advance-Keeps.valid))
    | inr h ↦ rw h scroll_up-Keeps
  ]

  pub lf-Keeps : Keeps s (lf s)
  unfolding lf
  lf-Keeps = elim (Bool-cases (ltb (s.y + 1) s.bottom)) [
    | inl h ↦
        let below : s.y + 1 < s.bottom = ground arith in
        rw h (record {
          valid = omega (arith, row_succ s.y s.size_row);
          same_start = refl;
          same_end = refl;
          same_lines = refl;
          frame = λ a o. refl;
        })
    | inr h ↦ rw h scrup-Keeps
  ]

  pub ri-Keeps : Keeps s (ri s)
  unfolding ri
  ri-Keeps = elim (Bool-cases (ltb s.top s.y)) [
    | inl h ↦
        let below : s.top < s.y = ground arith in
        rw h (record {
          valid = omega (arith, row_pred s.y s.size_row (omega arith));
          same_start = refl;
          same_end = refl;
          same_lines = refl;
          frame = λ a o. refl;
        })
    | inr h ↦ rw h scrdown-Keeps
  ]

-- A line feed keeps the column and the width.
pub lf_column : (s : Console) → ((lf s).x ≡ s.x) × ((lf s).num_columns ≡ s.num_columns)
unfolding lf scrup advance scroll_up
lf_column s = ground arith
