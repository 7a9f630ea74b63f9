-- ===== src/Console.antt =====
-- kernel/chr_drv/console.c: the terminal's escape sequences.
mod Defs
pub mod Video
pub mod Screen
pub mod Scroll
pub mod Edit
pub mod Write
pub mod Lines
mod Tests
unfoldable pub use Defs.*
use my_practice.Base.{
  ℕ, zero, suc, ◌+◌, ◌-◌, ◌*◌, ◌/◌, ◌%◌, ◌^◌, Bool, true, false, ◌&&◌, ◌||◌, Option, none, some,
  ltb, leb, ◌==◌, if◌then◌else◌, update, List, [], ◌∷◌,
}
use my_practice.Queue.{Queue, putch, getch, chars}

-- The characters from the cursor move right: `n` words from `p` on, where `old` comes in first.
pub insert_words : (n p old : ℕ) → (ℕ → ℕ) → ℕ → ℕ
insert_words zero p old w = w
insert_words (suc n) p old w = insert_words n (p + 2) (w p) (update w p old)

pub insert_char : Console → Console
insert_char s = record s { word = insert_words (s.num_columns - s.x) s.pos s.erase_char s.word }

-- `n` words from `p` on move left, and the one after them is erased.
pub delete_words : (n p erase_char : ℕ) → (ℕ → ℕ) → ℕ → ℕ
delete_words zero p erase_char w = update w p erase_char
delete_words (suc n) p erase_char w = delete_words n (p + 2) erase_char (update w p (w (p + 2)))

pub delete_char : Console → Console
delete_char s =
    if leb s.num_columns s.x
    then s
    else record s { word = delete_words (s.num_columns - s.x - 1) s.pos s.erase_char s.word }

-- The region of the lines from the cursor on, for the time of `scroll`.
abbrev pub from_cursor : (Console → Console) → Console → Console
from_cursor scroll s =
    let s' : Console = scroll (record s { top = s.y; bottom = s.num_lines }) in
    record s' { top = s.top; bottom = s.bottom }

pub insert_line : Console → Console
insert_line = from_cursor scrdown

pub delete_line : Console → Console
delete_line = from_cursor scrup

-- A count, at most `limit`; 0 stands for 1.
abbrev pub clamp : (limit nr : ℕ) → ℕ
clamp limit nr = if ltb limit nr then limit else (if nr == 0 then 1 else nr)

-- `while (nr--)`
pub repeat : (nr : ℕ) → (Console → Console) → Console → Console
repeat zero f s = s
repeat (suc nr) f s = repeat nr f (f s)

abbrev pub csi_at : ℕ → Console → Console
csi_at nr s = repeat (clamp s.num_columns nr) insert_char s

abbrev pub csi_L : ℕ → Console → Console
csi_L nr s = repeat (clamp s.num_lines nr) insert_line s

abbrev pub csi_P : ℕ → Console → Console
csi_P nr s = repeat (clamp s.num_columns nr) delete_char s

abbrev pub csi_M : ℕ → Console → Console
csi_M nr s = repeat (clamp s.num_lines nr) delete_line s

abbrev pub save_cur : Console → Console
save_cur s = record s { saved_x = s.x; saved_y = s.y }

abbrev pub restore_cur : Console → Console
restore_cur s = gotoxy s.saved_x s.saved_y s

abbrev pub put_all : List ℕ → Queue → Queue
put_all [] q = q
put_all (c ∷ cs) q = put_all cs (putch c q)

-- RESPONSE
abbrev pub response : List ℕ
response = 0x1b ∷ b'[' ∷ b'?' ∷ b'1' ∷ b';' ∷ b'2' ∷ b'c' ∷ []

-- `respond` up to its call of `copy_to_cooked`
abbrev pub respond : Console → Console
respond s = record s { read_q = put_all response s.read_q }

-- HZ / 8; the port commands have no other effect on this state.
abbrev pub sysbeep : Console → Console
sysbeep s = record s { beepcount = 12 }

-- A column past the last one becomes one of the next line.
abbrev pub wrap : Console → Console
wrap s = lf (record s { x = s.x - s.num_columns; pos = s.pos - s.size_row })

abbrev pub show : ℕ → Console → Console
show c s = record s { word = update s.word s.pos (s.attr * 256 + c); pos = s.pos + 2; x = s.x + 1 }

-- the columns up to the next tab stop
abbrev pub tab_width : ℕ → ℕ
tab_width x = 8 - x % 8

abbrev pub tab : Console → Console
tab s = record s { x = s.x + tab_width s.x; pos = s.pos + tab_width s.x * 2 }

-- `case 0`. A character is a byte; from 128 on it is a negative `char`.
pub plain_char : (erase c : ℕ) → Console → Console
plain_char erase c s =
    if ltb 31 c && ltb c 127
    then show c (if leb s.num_columns s.x then wrap s else s)
    else (if c == 27
        then record s { state = escape }
        else (if c == 10 || (c == 11 || c == 12)
            then lf s
            else (if c == 13
                then cr s
                else (if c == erase && ltb c 128
                    then del s
                    else (if c == 8
                        then (if s.x == 0 then s else record s { x = s.x - 1; pos = s.pos - 2 })
                        else (if c == 9
                            then (let s' : Console = tab s in
                                if ltb s.num_columns s'.x then wrap s' else s')
                            else (if c == 7 then sysbeep s else s)))))))

-- `case 1`. The last two tests are of the column `x`.
pub escape_char : ℕ → Console → Console
escape_char c s =
    let s' : Console = record s { state = plain } in
    if c == b'['
    then record s { state = bracket }
    else (if c == b'E'
        then gotoxy 0 (s'.y + 1) s'
        else (if c == b'M'
            then ri s'
            else (if c == b'D'
                then lf s'
                else (if c == b'Z'
                    then respond s'
                    else (if s'.x == b'7'
                        then save_cur s'
                        else (if s'.x == b'8' then restore_cur s' else s'))))))

-- `par[i]`, where a command counts from 1
abbrev pub less_one : ℕ → ℕ
less_one p = if p == 0 then p else p - 1

abbrev pub at_least_one : ℕ → ℕ
at_least_one p = if p == 0 then 1 else p

-- `a - b` of unsigned numbers
abbrev pub minus : ℕ → ℕ → ℕ
minus a b = (a + 2 ^ 32 - b) % 2 ^ 32

abbrev pub set_par : (i p : ℕ) → Console → Console
set_par i p s = record s { par = update s.par i p }

-- `case 'r'`
abbrev pub set_region : Console → Console
set_region s =
    let first = less_one (s.par 0) in
    let last = (if s.par 1 == 0 then s.num_lines else s.par 1) in
    let s' : Console = set_par 1 last (set_par 0 first s) in
    if ltb first last && leb last s.num_lines then record s' { top = first; bottom = last } else s'

-- The commands that move the cursor, with the parameter that they write back.
abbrev pub move_less : ((p : ℕ) → Console → Console) → Console → Console
move_less go s = let p = less_one (s.par 0) in go p (set_par 0 p s)

abbrev pub move_by : ((p : ℕ) → Console → Console) → Console → Console
move_by go s = let p = at_least_one (s.par 0) in go p (set_par 0 p s)

-- 'H' and 'f'
abbrev pub move_to : Console → Console
move_to s =
    let row = less_one (s.par 0) in
    let column = less_one (s.par 1) in gotoxy column row (set_par 1 column (set_par 0 row s))

abbrev pub is_one_of : ℕ → List ℕ → Bool
is_one_of c [] = false
is_one_of c (d ∷ ds) = c == d || is_one_of c ds

-- The commands of `case 4` that move the cursor.
pub cursor_command : ℕ → Console → Console
cursor_command c s =
    if is_one_of c (b'G' ∷ b'`' ∷ [])
    then move_less (λ p s'. gotoxy p s'.y s') s
    else (if c == b'A'
        then move_by (λ p s'. gotoxy s'.x (minus s'.y p) s') s
        else (if is_one_of c (b'B' ∷ b'e' ∷ [])
            then move_by (λ p s'. gotoxy s'.x ((s'.y + p) % 2 ^ 32) s') s
            else (if is_one_of c (b'C' ∷ b'a' ∷ [])
                then move_by (λ p s'. gotoxy ((s'.x + p) % 2 ^ 32) s'.y s') s
                else (if c == b'D'
                    then move_by (λ p s'. gotoxy (minus s'.x p) s'.y s') s
                    else (if c == b'E'
                        then move_by (λ p s'. gotoxy 0 ((s'.y + p) % 2 ^ 32) s') s
                        else (if c == b'F'
                            then move_by (λ p s'. gotoxy 0 (minus s'.y p) s') s
                            else (if c == b'd'
                                then move_less (λ p s'. gotoxy s'.x p s') s
                                else (if is_one_of c (b'H' ∷ b'f' ∷ [])
                                    then move_to s
                                    else s))))))))

-- The other commands of `case 4`.
pub edit_command : ℕ → Console → Console
edit_command c s =
    if c == b'J'
    then csi_J (s.par 0) s
    else (if c == b'K'
        then csi_K (s.par 0) s
        else (if c == b'L'
            then csi_L (s.par 0) s
            else (if c == b'M'
                then csi_M (s.par 0) s
                else (if c == b'P'
                    then csi_P (s.par 0) s
                    else (if c == b'@'
                        then csi_at (s.par 0) s
                        else (if c == b'm'
                            then csi_m s
                            else (if c == b'r'
                                then set_region s
                                else (if c == b's'
                                    then save_cur s
                                    else (if c == b'u' then restore_cur s else s)))))))))

-- `case 4`: each letter belongs to one of the two groups.
abbrev pub command_char : ℕ → Console → Console
command_char c s = edit_command c (cursor_command c (record s { state = plain }))

-- NPAR
abbrev pub npar_max : ℕ
npar_max = 16

-- `case 3`
pub number_char : ℕ → Console → Console
number_char c s =
    if c == b';' && ltb s.npar (npar_max - 1)
    then record s { npar = s.npar + 1 }
    else (if leb b'0' c && leb c b'9'
        then set_par s.npar ((10 * s.par s.npar + (c - b'0')) % 2 ^ 32) s
        else command_char c s)

-- `case 2`
pub bracket_char : ℕ → Console → Console
bracket_char c s =
    let s' : Console = record s {
      par = λ i. if ltb i npar_max then 0 else s.par i;
      npar = 0;
      state = number;
      ques = c == b'?';
    } in
    if c == b'?' then s' else number_char c s'

abbrev pub switch : Phase → (erase c : ℕ) → Console → Console
switch plain erase c = plain_char erase c
switch escape erase c = escape_char c
switch bracket erase c = bracket_char c
switch number erase c = number_char c
switch command erase c = command_char c

-- The body of the loop of `con_write`.
pub write_char : (erase c : ℕ) → Console → Console
write_char erase c s = switch s.state erase c s

abbrev pub is_escape : Phase → Bool
is_escape escape = true
is_escape _ = false

-- The character makes `con_write` call `respond`, and that `copy_to_cooked`.
abbrev pub responds : (c : ℕ) → Console → Bool
responds c s = is_escape s.state && c == b'Z'

-- What `con_write` has come to: none where the characters are written, or how many are left where
-- `copy_to_cooked` is called, which may write to the console itself; with the queue and the console
-- then
abbrev pub Progress : Type 0
Progress = Option ℕ × Queue × Console

-- The loop: `nr` characters of the queue.
pub write_chars : (nr erase : ℕ) → Queue → Console → Progress
write_chars zero erase q s = (none, q, s)
write_chars (suc nr) erase q s =
    let s' : Console = write_char erase (getch q).0 s in
    let rest : Progress = write_chars nr erase (getch q).1 s' in
    if responds (getch q).0 s then (some nr, (getch q).1, s') else rest

-- The end of `con_write`, behind the loop
abbrev pub end_write : Progress → Progress
end_write (none, q, s) = (none, q, set_cursor s)
end_write (some nr, q, s) = (some nr, q, s)

-- `con_write` of a terminal with the erase character `erase` and the queue `write_q`, up to the first
-- call of `copy_to_cooked`
pub con_write : (erase : ℕ) → Queue → Console → Progress
con_write erase write_q s = end_write (write_chars (chars write_q) erase write_q s)

-- A video card: its type, its memory, and the name that `con_init` shows.
pub record Card : Type 0 where
  pub type : VideoType
  pub start : ℕ
  pub end : ℕ
  pub name : List ℕ

-- The card that `con_init` finds: whether the mode is monochrome, and whether it is an EGA or VGA
-- card.
abbrev pub card : (mono ega : Bool) → Card
card true true = record {
  type = egam;
  start = 0xb0000;
  end = 0xb8000;
  name = b'E' ∷ b'G' ∷ b'A' ∷ b'm' ∷ [];
}
card true false = record {
  type = mda;
  start = 0xb0000;
  end = 0xb2000;
  name = b'*' ∷ b'M' ∷ b'D' ∷ b'A' ∷ [];
}
card false true = record {
  type = egac;
  start = 0xb8000;
  end = 0xbc000;
  name = b'E' ∷ b'G' ∷ b'A' ∷ b'c' ∷ [];
}
card false false = record {
  type = cga;
  start = 0xb8000;
  end = 0xba000;
  name = b'*' ∷ b'C' ∷ b'G' ∷ b'A' ∷ [];
}

-- Characters become the low bytes of the words from `p` on.
pub show_text : List ℕ → (p : ℕ) → (ℕ → ℕ) → ℕ → ℕ
show_text [] p w = w
show_text (c ∷ cs) p w = show_text cs (p + 2) (update w p (w p / 256 * 256 + c))

-- `con_init`, with the columns and the cursor that the BIOS reports.
pub con_init : (mono ega : Bool) (columns orig_x orig_y : ℕ) → Console → Console
con_init mono ega columns orig_x orig_y s =
    let found : Card = card mono ega in
    gotoxy orig_x orig_y (record s {
      video_type = found.type;
      num_columns = columns;
      size_row = columns * 2;
      num_lines = 25;
      mem_start = found.start;
      mem_end = found.end;
      erase_char = 0x0720;
      word = show_text found.name (found.start + columns * 2 - 8) s.word;
      origin = found.start;
      scr_end = found.start + 25 * (columns * 2);
      top = 0;
      bottom = 25;
    })
