-- ===== src/Console/Screen.antt =====
-- kernel/chr_drv/console.c: the invariant of the cursor and the screen, and the moves of the cursor.
use my_practice.Base.{
  ℕ, zero, suc, ◌+◌, ◌-◌, ◌*◌, ◌≤◌, ◌<◌, ◌≡◌, refl, ◌∙◌, inl, inr, false, ◌||◌, ltb, leb, ◌==◌,
  arith, update, Bool-cases,
}
use my_practice.Console.{Console, gotoxy, cr, del}
use my_practice.Console.Video.{Outside, update-Outside}

-- The cursor is on the screen, `pos` is its address, and the screen lies in video memory.
pub record IsValid (s : Console) : Type 0 where
  pub columns : 8 ≤ s.num_columns
  pub row : s.size_row ≡ s.num_columns * 2
  pub start : s.mem_start ≤ s.origin
  pub screen : s.scr_end ≡ s.origin + s.num_lines * s.size_row
  pub end : s.scr_end ≤ s.mem_end
  pub column : s.x ≤ s.num_columns
  pub line : s.y < s.num_lines
  pub cursor : s.pos ≡ s.origin + s.y * s.size_row + s.x * 2
  pub region : s.top < s.bottom
  pub within : s.bottom ≤ s.num_lines

-- `s'` is valid, and comes from `s` with no write outside video memory.
pub record Keeps (s s' : Console) : Type 0 where
  pub valid : IsValid s'
  pub same_start : s'.mem_start ≡ s.mem_start
  pub same_end : s'.mem_end ≡ s.mem_end
  pub same_lines : s'.num_lines ≡ s.num_lines
  pub frame : (a : ℕ) → Outside s.mem_start s.mem_end a → s'.word a ≡ s.word a

pub Keeps-refl : {s : Console} → IsValid s → Keeps s s
Keeps-refl v = record {
  valid = v;
  same_start = refl;
  same_end = refl;
  same_lines = refl;
  frame = λ a o. refl;
}

pub Keeps-trans : {s t u : Console} → Keeps s t → Keeps t u → Keeps s u
Keeps-trans {s} {t} {u} k l = record {
  valid = l.valid;
  same_start = l.same_start ∙ k.same_start;
  same_end = l.same_end ∙ k.same_end;
  same_lines = l.same_lines ∙ k.same_lines;
  frame = λ a o. l.frame a (rw (k.same_start, k.same_end) o) ∙ k.frame a o;
}

-- The words alone are changed.
pub rewrite-Keeps :
    {s : Console} (w : ℕ → ℕ)
    → IsValid s
    → ((a : ℕ) → Outside s.mem_start s.mem_end a → w a ≡ s.word a)
    → Keeps s (record s { word = w })
rewrite-Keeps {s} w v h = record {
  valid = omega arith;
  same_start = refl;
  same_end = refl;
  same_lines = refl;
  frame = h;
}

-- A line ends where the next one starts.
pub line_end : (y lines row : ℕ) → y < lines → y * row + row ≤ lines * row
line_end y lines row h = grind arith

pub row_succ : (y row : ℕ) → (y + 1) * row ≡ y * row + row
row_succ y row = grind arith

pub row_pred : (y row : ℕ) → 0 < y → (y - 1) * row + row ≡ y * row
row_pred zero row h = elim h [ ]
row_pred (suc y) row h = grind arith

pub gotoxy-Keeps : (new_x new_y : ℕ) {s : Console} → IsValid s → Keeps s (gotoxy new_x new_y s)
unfolding gotoxy
gotoxy-Keeps new_x new_y {s} v =
    elim (Bool-cases (ltb s.num_columns new_x || leb s.num_lines new_y)) [
      | inl h ↦ rw h (Keeps-refl v)
      | inr h ↦ rw h (record {
        valid = ground arith;
        same_start = refl;
        same_end = refl;
        same_lines = refl;
        frame = λ a o. refl;
      })
    ]

pub cr-Keeps : {s : Console} → IsValid s → Keeps s (cr s)
unfolding cr
cr-Keeps {s} v = record {
  valid = omega arith;
  same_start = refl;
  same_end = refl;
  same_lines = refl;
  frame = λ a o. refl;
}

-- The cursor moves one column to the left.
pub back-Keeps :
    {s : Console}
    → IsValid s
    → (s.x == 0) ≡ false
    → Keeps s (record s { x = s.x - 1; pos = s.pos - 2 })
back-Keeps {s} v h = record {
  valid = ground arith;
  same_start = refl;
  same_end = refl;
  same_lines = refl;
  frame = λ a o. refl;
}

-- The words of the cursor's line lie on the screen.
module _ {s : Console} (v : IsValid s) where
  pub cursor_start : s.mem_start + s.x * 2 ≤ s.pos
  cursor_start = omega (arith, v.cursor, v.start)

  pub cursor_end : s.pos + (s.num_columns - s.x) * 2 ≤ s.mem_end
  cursor_end = omega (arith, line_end s.y s.num_lines s.size_row v.line)

pub del-Keeps : {s : Console} → IsValid s → Keeps s (del s)
unfolding del
del-Keeps {s} v = elim (Bool-cases (s.x == 0)) [
  | inl h ↦ rw h (Keeps-refl v)
  | inr h ↦
      let some_left : 0 < s.x = ground arith in
      let lo = cursor_start v in
      let hi = cursor_end v in
      rw h (
        Keeps-trans (back-Keeps v h) (
          rewrite-Keeps (update s.word (s.pos - 2) s.erase_char) (back-Keeps v h).valid (λ a o.
            update-Outside s.mem_start s.mem_end a o s.word (s.pos - 2) s.erase_char (omega arith)
              (omega arith))))
]
