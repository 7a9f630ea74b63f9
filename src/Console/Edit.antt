-- ===== src/Console/Edit.antt =====
-- kernel/chr_drv/console.c: erasing, inserting and deleting stay inside video memory.
use my_practice.Base.{
  ℕ, zero, suc, ◌+◌, ◌-◌, ◌*◌, ◌≤◌, ◌<◌, ◌≡◌, refl, inl, inr, ◌&&◌, ltb, leb, ◌==◌, if◌then◌else◌,
  arith, Bool-cases,
}
use my_practice.Console.{
  Console, fill, erase, csi_J, csi_K, csi_m, insert_char, delete_char, from_cursor, insert_line,
  delete_line, repeat, scrup, scrdown, set_par, set_region, less_one,
}
use my_practice.Console.Video.{fill-Outside, insert_words-Outside, delete_words-Outside}
use my_practice.Console.Screen.{
  IsValid, Keeps, Keeps-refl, Keeps-trans, rewrite-Keeps, cursor_start, cursor_end,
}
use my_practice.Console.Scroll.{scrup-Keeps, scrdown-Keeps}

pub erase-Keeps :
    (count start : ℕ) {s : Console}
    → IsValid s
    → s.mem_start ≤ start
    → start + count * 2 ≤ s.mem_end
    → Keeps s (erase count start s)
erase-Keeps count start {s} v lo hi =
    rewrite-Keeps (fill count start s.erase_char s.word) v
      (λ a o. fill-Outside s.mem_start s.mem_end a o count start s.erase_char s.word lo hi)

module _ {s : Console} (v : IsValid s) where
  pub csi_J-Keeps : (par : ℕ) → Keeps s (csi_J par s)
  unfolding csi_J
  csi_J-Keeps par =
      let lo = cursor_start v in
      let hi = cursor_end v in
      let whole : s.num_columns * s.num_lines * 2 ≡ s.num_lines * s.size_row =
        rw v.row (grind arith) in
      elim (Bool-cases (par == 0)) [
        | inl h ↦ rw h (erase-Keeps _ s.pos v (omega arith) (omega arith))
        | inr h ↦ elim (Bool-cases (par == 1)) [
          | inl h' ↦ rw (h, h') (erase-Keeps _ s.origin v (omega arith) (omega arith))
          | inr h' ↦ elim (Bool-cases (par == 2)) [
            | inl h2 ↦ rw (h, h', h2) (erase-Keeps _ s.origin v (omega arith) (omega arith))
            | inr h2 ↦ rw (h, h', h2) (Keeps-refl v)
          ]
        ]
      ]

  pub csi_K-Keeps : (par : ℕ) → Keeps s (csi_K par s)
  unfolding csi_K
  csi_K-Keeps par =
      let lo = cursor_start v in
      let hi = cursor_end v in
      let least : (if ltb s.x s.num_columns then s.x else s.num_columns) ≤ s.x = ground arith in
      elim (Bool-cases (par == 0)) [
        | inl h ↦ elim (Bool-cases (leb s.num_columns s.x)) [
          | inl k ↦ rw (h, k) (Keeps-refl v)
          | inr k ↦ rw (h, k) (erase-Keeps _ s.pos v (omega arith) (omega arith))
        ]
        | inr h ↦ elim (Bool-cases (par == 1)) [
          | inl h' ↦ rw (h, h') (erase-Keeps _ (s.pos - s.x * 2) v (omega arith) (omega arith))
          | inr h' ↦ elim (Bool-cases (par == 2)) [
            | inl h2 ↦
                rw (h, h', h2) (erase-Keeps _ (s.pos - s.x * 2) v (omega arith) (omega arith))
            | inr h2 ↦ rw (h, h', h2) (Keeps-refl v)
          ]
        ]
      ]

  pub csi_m-Keeps : Keeps s (csi_m s)
  unfolding csi_m
  csi_m-Keeps = record {
    valid = omega arith;
    same_start = refl;
    same_end = refl;
    same_lines = refl;
    frame = λ a o. refl;
  }

  pub insert_char-Keeps : Keeps s (insert_char s)
  unfolding insert_char
  insert_char-Keeps = rewrite-Keeps _ v (λ a o.
      insert_words-Outside s.mem_start s.mem_end a o (s.num_columns - s.x) s.pos s.erase_char s.word
        (omega (arith, cursor_start v)) (cursor_end v))

  pub delete_char-Keeps : Keeps s (delete_char s)
  unfolding delete_char
  delete_char-Keeps = elim (Bool-cases (leb s.num_columns s.x)) [
    | inl h ↦ rw h (Keeps-refl v)
    | inr h ↦
        let room : s.x < s.num_columns = ground arith in
        let hi = cursor_end v in
        rw h (
          rewrite-Keeps _ v (λ a o.
            delete_words-Outside s.mem_start s.mem_end a o (s.num_columns - s.x - 1) s.pos
              s.erase_char s.word (omega (arith, cursor_start v)) (omega arith)))
  ]

-- A change of the region's bounds to valid ones
pub region-Keeps :
    (top bottom : ℕ) {s : Console}
    → IsValid s
    → top < bottom
    → bottom ≤ s.num_lines
    → Keeps s (record s { top = top; bottom = bottom })
region-Keeps top bottom {s} v h le = record {
  valid = omega arith;
  same_start = refl;
  same_end = refl;
  same_lines = refl;
  frame = λ a o. refl;
}

from_cursor-Keeps :
    (scroll : Console → Console) {s : Console}
    → ((t : Console) → IsValid t → Keeps t (scroll t))
    → IsValid s
    → Keeps s (from_cursor scroll s)
from_cursor-Keeps scroll {s} keep v =
    let first = region-Keeps s.y s.num_lines v v.line (omega arith) in
    let scrolled = keep _ first.valid in
    let both = Keeps-trans first scrolled in
    Keeps-trans both (
      region-Keeps s.top s.bottom scrolled.valid v.region
        (omega (arith, both.same_lines, v.within)))

pub insert_line-Keeps : {s : Console} → IsValid s → Keeps s (insert_line s)
unfolding insert_line
insert_line-Keeps v = from_cursor-Keeps scrdown (λ t w. scrdown-Keeps w) v

pub delete_line-Keeps : {s : Console} → IsValid s → Keeps s (delete_line s)
unfolding delete_line
delete_line-Keeps v = from_cursor-Keeps scrup (λ t w. scrup-Keeps w) v

pub repeat-Keeps :
    (f : Console → Console)
    → ((t : Console) → IsValid t → Keeps t (f t))
    → (nr : ℕ) {s : Console} → IsValid s
    → Keeps s (repeat nr f s)
unfolding repeat
repeat-Keeps f keep zero v = Keeps-refl v
repeat-Keeps f keep (suc nr) {s} v =
    let first = keep s v in Keeps-trans first (repeat-Keeps f keep nr first.valid)

pub set_par-Keeps : (i p : ℕ) {s : Console} → IsValid s → Keeps s (set_par i p s)
set_par-Keeps i p {s} v = record {
  valid = omega arith;
  same_start = refl;
  same_end = refl;
  same_lines = refl;
  frame = λ a o. refl;
}

pub set_region-Keeps : {s : Console} → IsValid s → Keeps s (set_region s)
set_region-Keeps {s} v =
    let first : ℕ = less_one (s.par 0) in
    let last : ℕ = (if s.par 1 == 0 then s.num_lines else s.par 1) in
    let written =
      Keeps-trans (set_par-Keeps 0 first v)
        (set_par-Keeps 1 last (set_par-Keeps 0 first v).valid) in
    elim (Bool-cases (ltb first last && leb last s.num_lines)) [
      | inl h ↦ rw h (
          Keeps-trans written (region-Keeps first last written.valid (ground arith) (ground arith)))
      | inr h ↦ rw h written
    ]
