-- ===== src/Console/Tests.antt =====
-- kernel/chr_drv/console.c: the console on concrete states.
use my_practice.Base.{
  ℕ, ◌+◌, ◌≤◌, ◌<◌, ◌≡◌, ◌≢◌, refl, none, some, ◌⊎◌, true, false, arith, [], ◌∷◌,
}
use my_practice.Queue.{Queue}
use my_practice.Console.{
  Console, egac, plain, put_all, con_init, con_write, write_char, scroll_up, gotoxy, write_chars,
  plain_char, escape_char, bracket_char, number_char, edit_command, cursor_command,
}
use my_practice.Console.Screen.{IsValid, Keeps}
use my_practice.Console.Write.{con_write-Keeps}
use my_practice.Console.Lines.{place, scroll_up-lines, con_init-IsValid}

abbrev no_chars : Queue
no_chars = record { head = 0; tail = 0; buf = λ i. 0 }

-- The memory before `con_init`
abbrev raw : Console
raw = record {
  video_type = egac;
  num_columns = 0;
  size_row = 0;
  num_lines = 0;
  mem_start = 0;
  mem_end = 0;
  erase_char = 0;
  origin = 0;
  scr_end = 0;
  pos = 0;
  x = 0;
  y = 0;
  top = 0;
  bottom = 0;
  state = plain;
  npar = 0;
  par = λ i. 0;
  ques = false;
  attr = 7;
  saved_x = 0;
  saved_y = 0;
  beepcount = 0;
  word = λ a. 0;
  crtc = λ r. 0;
  read_q = no_chars;
}

-- An EGA screen of 80 columns, with the cursor in line 3
abbrev booted : Console
booted = con_init false true 80 0 3 raw

booted-IsValid : IsValid booted
booted-IsValid =
    con_init-IsValid false true 80 0 3 raw (omega arith) (omega arith) (omega arith) (omega arith)

-- ESC [ 2 ; 5 H A
abbrev typed : Queue
typed = put_all (0x1b ∷ b'[' ∷ b'2' ∷ b';' ∷ b'5' ∷ b'H' ∷ b'A' ∷ []) no_chars

con_write-Keeps_example :
    Keeps booted (con_write 127 typed booted).2
    × (((a : ℕ) → typed.buf a ≢ b'Z') → (con_write 127 typed booted).0 ≡ none)
con_write-Keeps_example = con_write-Keeps 127 typed booted-IsValid

scroll_up-lines_example :
    (booted.top ≤ 2
      → 3 < booted.bottom
      → (scroll_up booted).word (place booted 2 10) ≡ booted.word (place booted 3 10))
    × (3 ≡ booted.bottom → (scroll_up booted).word (place booted 2 10) ≡ booted.erase_char)
    × ((2 < booted.top) ⊎ (booted.bottom ≤ 2)
        → (scroll_up booted).word (place booted 2 10) ≡ booted.word (place booted 2 10))
unfolding con_init gotoxy
scroll_up-lines_example = scroll_up-lines booted-IsValid refl 2 10 (omega arith)

-- The cursor moves to line 1, column 4, and the letter is shown there.
moves_and_shows :
    ((con_write 127 typed booted).2.x ≡ 5)
    × ((con_write 127 typed booted).2.y ≡ 1)
    × ((con_write 127 typed booted).2.word (0xb8000 + 160 + 8) ≡ 0x741)
unfolding con_write write_chars write_char con_init gotoxy plain_char escape_char bracket_char
    number_char edit_command cursor_command
moves_and_shows = (refl, refl, refl)

-- ESC Z A: the call of `copy_to_cooked` comes before the letter.
answers : (con_write 127 (put_all (0x1b ∷ b'Z' ∷ b'A' ∷ []) no_chars) booted).0 ≡ some 1
unfolding con_write write_chars write_char con_init gotoxy plain_char escape_char
answers = refl
