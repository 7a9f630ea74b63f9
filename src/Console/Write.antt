-- ===== src/Console/Write.antt =====
-- kernel/chr_drv/console.c: whatever is written to the console, the cursor stays on the screen and
-- nothing outside video memory changes.
use my_practice.Base.{
  ℕ, zero, suc, ◌+◌, ◌-◌, ◌*◌, ◌%◌, ◌^◌, ◌≤◌, ◌<◌, ◌≡◌, refl, sym, ap, ◌∙◌, ◌≢◌, inl, inr, Bool,
  ◌&&◌, none, some, if_true, if_false, true, false, ltb, leb, ◌==◌, if◌then◌else◌, arith,
  Bool-cases,
}
use mathlib.Core.Path.{subst}
use my_practice.Queue.{Queue, chars, getch}
use my_practice.Console.{
  Console, Phase, plain, escape, bracket, number, command, insert_char, delete_char, insert_line,
  delete_line, clamp, set_par, less_one, at_least_one, minus, gotoxy, save_cur, respond, sysbeep,
  wrap, show, tab, tab_width, move_to, plain_char, escape_char, cursor_command, edit_command,
  number_char, bracket_char, command_char, switch, write_char, write_chars, con_write, npar_max,
  is_escape, responds, Progress, end_write,
}
use my_practice.Console.Video.{update-Outside}
use my_practice.Console.Screen.{
  IsValid, Keeps, Keeps-refl, Keeps-trans, cursor_start, cursor_end, gotoxy-Keeps, cr-Keeps,
  back-Keeps, del-Keeps,
}
use my_practice.Console.Scroll.{lf-Keeps, lf_column, ri-Keeps, set_register-Keeps}
use my_practice.Console.Edit.{
  csi_J-Keeps, csi_K-Keeps, csi_m-Keeps, insert_char-Keeps, delete_char-Keeps, insert_line-Keeps,
  delete_line-Keeps, repeat-Keeps, set_par-Keeps, set_region-Keeps,
}

-- A cursor past the last column moves to the next line.
wrap-Keeps :
    {s : Console}
    → IsValid (record s { x = s.x - s.num_columns; pos = s.pos - s.size_row })
    → Keeps s (wrap s)
wrap-Keeps {s} v =
    Keeps-trans
      (record {
        valid = v;
        same_start = refl;
        same_end = refl;
        same_lines = refl;
        frame = λ a o. refl;
      })
      (lf-Keeps v)

show-Keeps : (c : ℕ) {s : Console} → IsValid s → s.x < s.num_columns → Keeps s (show c s)
show-Keeps c {s} v room =
    let lo = cursor_start v in
    let hi = cursor_end v in
    record {
      valid = omega arith;
      same_start = refl;
      same_end = refl;
      same_lines = refl;
      frame = λ a o.
          update-Outside s.mem_start s.mem_end a o s.word s.pos (s.attr * 256 + c) (omega arith)
            (omega arith);
    }

-- Changes of the fields that the cursor and the screen do not depend on
phase-Keeps : (p : Phase) {s : Console} → IsValid s → Keeps s (record s { state = p })
phase-Keeps p {s} v = record {
  valid = omega arith;
  same_start = refl;
  same_end = refl;
  same_lines = refl;
  frame = λ a o. refl;
}

saved-Keeps : {s : Console} → IsValid s → Keeps s (save_cur s)
saved-Keeps {s} v = record {
  valid = omega arith;
  same_start = refl;
  same_end = refl;
  same_lines = refl;
  frame = λ a o. refl;
}

respond-Keeps : {s : Console} → IsValid s → Keeps s (respond s)
respond-Keeps {s} v = record {
  valid = omega arith;
  same_start = refl;
  same_end = refl;
  same_lines = refl;
  frame = λ a o. refl;
}

beep-Keeps : {s : Console} → IsValid s → Keeps s (sysbeep s)
beep-Keeps {s} v = record {
  valid = omega arith;
  same_start = refl;
  same_end = refl;
  same_lines = refl;
  frame = λ a o. refl;
}

branch-Keeps :
    (b : Bool) {s : Console} (t u : Console) → Keeps s t → Keeps s u → Keeps s (if b then t else u)
branch-Keeps true t u k l = k
branch-Keeps false t u k l = l

escape_char-Keeps : (c : ℕ) {s : Console} → IsValid s → Keeps s (escape_char c s)
unfolding escape_char
escape_char-Keeps c {s} v =
    let w = phase-Keeps plain v in
    let line = Keeps-trans w (gotoxy-Keeps 0 (s.y + 1) w.valid) in
    let up = Keeps-trans w (ri-Keeps w.valid) in
    let down = Keeps-trans w (lf-Keeps w.valid) in
    let answer = Keeps-trans w (respond-Keeps w.valid) in
    let saved = Keeps-trans w (saved-Keeps w.valid) in
    let restored = Keeps-trans w (gotoxy-Keeps s.saved_x s.saved_y w.valid) in
    branch-Keeps _ _ _ (phase-Keeps bracket v) (
      branch-Keeps _ _ _ line (
        branch-Keeps _ _ _ up (
          branch-Keeps _ _ _ down (
            branch-Keeps _ _ _ answer (branch-Keeps _ _ _ saved (branch-Keeps _ _ _ restored w))))))

-- The columns are not changed by the scrolling that a line feed may need.
tab-Keeps :
    {s : Console}
    → IsValid s
    → Keeps s (let s' : Console = tab s in if ltb s.num_columns s'.x then wrap s' else s')
tab-Keeps {s} v = elim (Bool-cases (ltb s.num_columns (s.x + tab_width s.x))) [
  | inl h ↦
      let over : s.num_columns < s.x + tab_width s.x = ground arith in
      let near : s.x + tab_width s.x ≤ s.num_columns + 8 = omega arith in
      let moved : Keeps s (record s {
        x = s.x + tab_width s.x - s.num_columns;
        pos = s.pos + tab_width s.x * 2 - s.size_row;
      }) =
        record {
          valid = omega arith;
          same_start = refl;
          same_end = refl;
          same_lines = refl;
          frame = λ a o. refl;
        } in
      rw h (Keeps-trans moved (lf-Keeps moved.valid))
  | inr h ↦
      let near : s.x + tab_width s.x ≤ s.num_columns = ground arith in
      rw h (record {
        valid = omega arith;
        same_start = refl;
        same_end = refl;
        same_lines = refl;
        frame = λ a o. refl;
      })
]

shown-Keeps :
    (c : ℕ) {s : Console}
    → IsValid s
    → Keeps s (show c (if leb s.num_columns s.x then wrap s else s))
shown-Keeps c {s} v = elim (Bool-cases (leb s.num_columns s.x)) [
  | inl h ↦
      let over : s.num_columns ≤ s.x = ground arith in
      let start : IsValid (record s { x = s.x - s.num_columns; pos = s.pos - s.size_row }) =
        omega arith in
      let wrapped = wrap-Keeps start in
      let (same_x, same_columns) =
        lf_column (record s { x = s.x - s.num_columns; pos = s.pos - s.size_row }) in
      rw h (Keeps-trans wrapped (show-Keeps c wrapped.valid (omega arith)))
  | inr h ↦ let room : s.x < s.num_columns = ground arith in rw h (show-Keeps c v room)
]

left-Keeps :
    {s : Console}
    → IsValid s
    → Keeps s (if s.x == 0 then s else record s { x = s.x - 1; pos = s.pos - 2 })
left-Keeps {s} v = elim (Bool-cases (s.x == 0)) [
  | inl h ↦ rw h (Keeps-refl v)
  | inr h ↦ rw h (back-Keeps v h)
]

plain_char-Keeps : (erase c : ℕ) {s : Console} → IsValid s → Keeps s (plain_char erase c s)
unfolding plain_char
plain_char-Keeps erase c {s} v = branch-Keeps _ _ _ (shown-Keeps c v) (
    branch-Keeps _ _ _ (phase-Keeps escape v) (
      branch-Keeps _ _ _ (lf-Keeps v) (
        branch-Keeps _ _ _ (cr-Keeps v) (
          branch-Keeps _ _ _ (del-Keeps v) (
            branch-Keeps _ _ _ (left-Keeps v) (
              branch-Keeps _ _ _ (tab-Keeps v)
                (branch-Keeps _ _ _ (beep-Keeps v) (Keeps-refl v))))))))

-- A command that sets a parameter and moves the cursor
moved-Keeps :
    (p new_x new_y : ℕ) {s : Console} → IsValid s → Keeps s (gotoxy new_x new_y (set_par 0 p s))
moved-Keeps p new_x new_y v =
    let written = set_par-Keeps 0 p v in
    Keeps-trans written (gotoxy-Keeps new_x new_y written.valid)

move_to-Keeps : {s : Console} → IsValid s → Keeps s (move_to s)
move_to-Keeps {s} v =
    let row = set_par-Keeps 0 (less_one (s.par 0)) v in
    Keeps-trans row (
      let column = set_par-Keeps 1 (less_one (s.par 1)) row.valid in
      Keeps-trans column (gotoxy-Keeps _ _ column.valid))

cursor_command-Keeps : (c : ℕ) {s : Console} → IsValid s → Keeps s (cursor_command c s)
unfolding cursor_command
cursor_command-Keeps c {s} v =
    let q : ℕ = less_one (s.par 0) in
    let p : ℕ = at_least_one (s.par 0) in
    branch-Keeps _ _ _ (moved-Keeps q q s.y v) (
      branch-Keeps _ _ _ (moved-Keeps p s.x (minus s.y p) v) (
        branch-Keeps _ _ _ (moved-Keeps p s.x ((s.y + p) % 2 ^ 32) v) (
          branch-Keeps _ _ _ (moved-Keeps p ((s.x + p) % 2 ^ 32) s.y v) (
            branch-Keeps _ _ _ (moved-Keeps p (minus s.x p) s.y v) (
              branch-Keeps _ _ _ (moved-Keeps p 0 ((s.y + p) % 2 ^ 32) v) (
                branch-Keeps _ _ _ (moved-Keeps p 0 (minus s.y p) v) (
                  branch-Keeps _ _ _ (moved-Keeps q s.x q v)
                    (branch-Keeps _ _ _ (move_to-Keeps v) (Keeps-refl v)))))))))

edit_command-Keeps : (c : ℕ) {s : Console} → IsValid s → Keeps s (edit_command c s)
unfolding edit_command
edit_command-Keeps c {s} v = branch-Keeps _ _ _ (csi_J-Keeps v (s.par 0)) (
    branch-Keeps _ _ _ (csi_K-Keeps v (s.par 0)) (
      branch-Keeps _ _ _
        (repeat-Keeps insert_line (λ t w. insert_line-Keeps w) (clamp s.num_lines (s.par 0)) v)
        (branch-Keeps _ _ _
          (repeat-Keeps delete_line (λ t w. delete_line-Keeps w) (clamp s.num_lines (s.par 0)) v)
          (branch-Keeps _ _ _
            (repeat-Keeps delete_char (λ t w. delete_char-Keeps w) (clamp s.num_columns (s.par 0))
              v)
            (branch-Keeps _ _ _
              (repeat-Keeps insert_char (λ t w. insert_char-Keeps w) (clamp s.num_columns (s.par 0))
                v)
              (branch-Keeps _ _ _ (csi_m-Keeps v) (
                branch-Keeps _ _ _ (set_region-Keeps v) (
                  branch-Keeps _ _ _ (saved-Keeps v)
                    (branch-Keeps _ _ _ (gotoxy-Keeps s.saved_x s.saved_y v) (Keeps-refl v))))))))))

command_char-Keeps : (c : ℕ) {s : Console} → IsValid s → Keeps s (command_char c s)
command_char-Keeps c {s} v =
    let reset = phase-Keeps plain v in
    let moved = Keeps-trans reset (cursor_command-Keeps c reset.valid) in
    Keeps-trans moved (edit_command-Keeps c moved.valid)

count-Keeps : (n : ℕ) {s : Console} → IsValid s → Keeps s (record s { npar = n })
count-Keeps n {s} v = record {
  valid = omega arith;
  same_start = refl;
  same_end = refl;
  same_lines = refl;
  frame = λ a o. refl;
}

number_char-Keeps : (c : ℕ) {s : Console} → IsValid s → Keeps s (number_char c s)
unfolding number_char
number_char-Keeps c {s} v =
    branch-Keeps _ _ _ (count-Keeps (s.npar + 1) v)
      (branch-Keeps _ _ _ (set_par-Keeps s.npar _ v) (command_char-Keeps c v))

start-Keeps :
    (ques : Bool) (par : ℕ → ℕ) {s : Console}
    → IsValid s
    → Keeps s (record s { par = par; npar = 0; state = number; ques = ques })
start-Keeps ques par {s} v = record {
  valid = omega arith;
  same_start = refl;
  same_end = refl;
  same_lines = refl;
  frame = λ a o. refl;
}

bracket_char-Keeps : (c : ℕ) {s : Console} → IsValid s → Keeps s (bracket_char c s)
unfolding bracket_char
bracket_char-Keeps c {s} v =
    let begun = start-Keeps (c == b'?') (λ i. if ltb i npar_max then 0 else s.par i) v in
    branch-Keeps _ _ _ begun (Keeps-trans begun (number_char-Keeps c begun.valid))

-- Any character, in any state of the escape sequences, leaves the cursor on the screen, with `pos`
-- its address, and the screen inside video memory; no word outside video memory is changed.
pub write_char-Keeps : (erase c : ℕ) {s : Console} → IsValid s → Keeps s (write_char erase c s)
unfolding write_char
write_char-Keeps erase c {s} v = go s.state
  where
    go : (p : Phase) → Keeps s (switch p erase c s)
    go plain = plain_char-Keeps erase c v
    go escape = escape_char-Keeps c v
    go bracket = bracket_char-Keeps c v
    go number = number_char-Keeps c v
    go command = command_char-Keeps c v

pub write_chars-Keeps :
    (nr erase : ℕ) (q : Queue) {s : Console} → IsValid s → Keeps s (write_chars nr erase q s).2
unfolding write_chars
write_chars-Keeps zero erase q v = Keeps-refl v
write_chars-Keeps (suc nr) erase q {s} v =
    let first = write_char-Keeps erase (getch q).0 v in
    let rest = Keeps-trans first (write_chars-Keeps nr erase (getch q).1 first.valid) in
    elim (Bool-cases (responds (getch q).0 s)) [
      | inl h ↦ subst (λ (r : Progress). Keeps s r.2) (sym (if_true _ _ h)) first
      | inr h ↦ subst (λ (r : Progress). Keeps s r.2) (sym (if_false _ _ h)) rest
    ]

-- Without a Z in the queue the loop ends.
write_chars-none :
    (nr erase : ℕ) (q : Queue) (s : Console)
    → ((a : ℕ) → q.buf a ≢ b'Z')
    → (write_chars nr erase q s).0 ≡ none
unfolding write_chars
write_chars-none zero erase q s h = refl
write_chars-none (suc nr) erase q s h =
    ap (λ (r : Progress). r.0) (if_false _ _ (quiet (is_escape s.state) (q.buf q.tail) (h q.tail)))
    ∙ write_chars-none nr erase (getch q).1 (write_char erase (getch q).0 s) h
  where
    quiet : (e : Bool) (c : ℕ) → c ≢ b'Z' → (e && c == b'Z') ≡ false
    quiet e c n = ground arith

end_write-Keeps : {s : Console} (r : Progress) → Keeps s r.2 → Keeps s (end_write r).2
end_write-Keeps (none, q, s') k = Keeps-trans k (set_register-Keeps 14 s'.pos k.valid)
end_write-Keeps (some nr, q, s') k = k

end_write-none : (r : Progress) → r.0 ≡ none → (end_write r).0 ≡ none
end_write-none (none, q, s) h = refl
end_write-none (some nr, q, s) h = h

-- `con_write`, whatever the queue holds, leaves the cursor on the screen, with `pos` its address, and
-- the screen inside video memory, and no word outside video memory is changed: where it returns, or
-- where it first calls `copy_to_cooked`. Where the queue's buffer holds no Z, it returns.
pub con_write-Keeps :
    (erase : ℕ) (write_q : Queue) {s : Console}
    → IsValid s
    → Keeps s (con_write erase write_q s).2
      × (((a : ℕ) → write_q.buf a ≢ b'Z') → (con_write erase write_q s).0 ≡ none)
unfolding con_write
con_write-Keeps erase write_q {s} v =
    let r : Progress = write_chars (chars write_q) erase write_q s in
    (
      end_write-Keeps r (write_chars-Keeps (chars write_q) erase write_q v),
      λ h. end_write-none r (write_chars-none (chars write_q) erase write_q s h),
    )

-- Where `ESC` has been read and the cursor stands in neither column 55 nor 56, the character 7 does
-- not save the cursor: nothing but the state of the escape sequence changes.
pub escape_7-ignored :
    (erase : ℕ) (s : Console)
    → s.state ≡ escape
    → s.x ≢ 55
    → s.x ≢ 56
    → write_char erase b'7' s ≡ record s { state = plain }
unfolding write_char escape_char
escape_7-ignored erase s e n55 n56 = ground arith
