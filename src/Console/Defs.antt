-- ===== src/Console/Defs.antt =====
-- kernel/chr_drv/console.c: the state of the console, and the operations on the screen.
use my_practice.Base.{
  ℕ, zero, suc, ◌+◌, ◌-◌, ◌*◌, ◌/◌, ◌%◌, ◌^◌, Bool, true, false, ◌&&◌, ◌||◌, ltb, leb, ◌==◌,
  if◌then◌else◌, update,
}
use my_practice.Queue.{Queue}

-- VIDEO_TYPE_MDA, VIDEO_TYPE_CGA, VIDEO_TYPE_EGAM, VIDEO_TYPE_EGAC
pub data VideoType : Type 0 where
  mda cga egam egac : VideoType

abbrev pub is_ega : VideoType → Bool
is_ega egam = true
is_ega egac = true
is_ega _ = false

-- The values 0 to 4 of `state`.
pub data Phase : Type 0 where
  plain escape bracket number command : Phase

-- The static variables of the file. `word` is the 16-bit word of video memory at each address,
-- `crtc` the registers of the video controller, `read_q` the queue that `respond` fills.
pub record Console : Type 0 where
  pub video_type : VideoType
  pub num_columns : ℕ
  pub size_row : ℕ
  pub num_lines : ℕ
  pub mem_start : ℕ
  pub mem_end : ℕ
  pub erase_char : ℕ
  pub origin : ℕ
  pub scr_end : ℕ
  pub pos : ℕ
  pub x : ℕ
  pub y : ℕ
  pub top : ℕ
  pub bottom : ℕ
  pub state : Phase
  pub npar : ℕ
  pub par : ℕ → ℕ
  pub ques : Bool
  pub attr : ℕ
  pub saved_x : ℕ
  pub saved_y : ℕ
  pub beepcount : ℕ
  pub word : ℕ → ℕ
  pub crtc : ℕ → ℕ
  pub read_q : Queue

-- `rep stosw` upwards and downwards: `n` words of value `v` from `at` on
unfoldable pub fill : (n at v : ℕ) → (ℕ → ℕ) → ℕ → ℕ
fill zero at v w = w
fill (suc n) at v w = fill n (at + 2) v (update w at v)

unfoldable pub fill_down : (n at v : ℕ) → (ℕ → ℕ) → ℕ → ℕ
fill_down zero at v w = w
fill_down (suc n) at v w = fill_down n (at - 2) v (update w at v)

-- `movsl`: two words
abbrev pub movsl : (to from : ℕ) → (ℕ → ℕ) → ℕ → ℕ
movsl to from w = update (update w to (w from)) (to + 2) (w (from + 2))

-- `rep movsl` upwards and downwards
unfoldable pub move : (n to from : ℕ) → (ℕ → ℕ) → ℕ → ℕ
move zero to from w = w
move (suc n) to from w = move n (to + 4) (from + 4) (movsl to from w)

unfoldable pub move_down : (n to from : ℕ) → (ℕ → ℕ) → ℕ → ℕ
move_down zero to from w = w
move_down (suc n) to from w = move_down n (to - 4) (from - 4) (movsl to from w)

-- A new column that is `num_columns` is accepted.
unfoldable pub gotoxy : (new_x new_y : ℕ) → Console → Console
gotoxy new_x new_y s =
    if ltb s.num_columns new_x || leb s.num_lines new_y
    then s
    else record s { x = new_x; y = new_y; pos = s.origin + new_y * s.size_row + new_x * 2 }

-- The high and the low byte of a word's index in video memory, in registers `r` and `r + 1`
abbrev pub set_register : (r address : ℕ) → Console → Console
set_register r address s = record s {
  crtc =
      update (update s.crtc r ((address - s.mem_start) / 2 ^ 9 % 256)) (r + 1)
        ((address - s.mem_start) / 2 % 256);
}

abbrev pub set_origin : Console → Console
set_origin s = set_register 12 s.origin s

abbrev pub set_cursor : Console → Console
set_cursor s = set_register 14 s.pos s

-- the number of `movsl` that move the lines of the region but one
abbrev pub region_longs : Console → ℕ
region_longs s = (s.bottom - s.top - 1) * s.num_columns / 2

-- The region of the lines `top` to `bottom` moves up, and its last line is erased.
unfoldable pub scroll_up : Console → Console
scroll_up s = record s {
  word = fill s.num_columns (s.origin + s.size_row * s.top + region_longs s * 4) s.erase_char (
      move (region_longs s) (s.origin + s.size_row * s.top) (s.origin + s.size_row * (s.top + 1))
        s.word);
}

-- The screen moves up in video memory, or back to its start where the end is reached.
unfoldable pub advance : Console → Console
advance s =
    let origin' = s.origin + s.size_row in
    let scr_end' = s.scr_end + s.size_row in
    let longs = (s.num_lines - 1) * s.num_columns / 2 in
    if ltb s.mem_end scr_end'
    then record s {
      word =
          fill s.num_columns (s.mem_start + longs * 4) s.erase_char
            (move longs s.mem_start origin' s.word);
      scr_end = scr_end' - (origin' - s.mem_start);
      pos = s.pos + s.size_row - (origin' - s.mem_start);
      origin = s.mem_start;
    }
    else record s {
      word = fill s.num_columns (scr_end' - s.size_row) s.erase_char s.word;
      scr_end = scr_end';
      pos = s.pos + s.size_row;
      origin = origin';
    }

unfoldable pub scrup : Console → Console
scrup s =
    if is_ega s.video_type && (s.top == 0 && s.bottom == s.num_lines)
    then set_origin (advance s)
    else scroll_up s

-- The two branches of the source are the same.
unfoldable pub scrdown : Console → Console
scrdown s = record s {
  word =
      fill_down s.num_columns (s.origin + s.size_row * s.bottom - 4 - region_longs s * 4 + 2)
        s.erase_char
        (move_down (region_longs s) (s.origin + s.size_row * s.bottom - 4)
          (s.origin + s.size_row * (s.bottom - 1) - 4) s.word);
}

unfoldable pub lf : Console → Console
lf s =
    if ltb (s.y + 1) s.bottom then record s { y = s.y + 1; pos = s.pos + s.size_row } else scrup s

unfoldable pub ri : Console → Console
ri s = if ltb s.top s.y then record s { y = s.y - 1; pos = s.pos - s.size_row } else scrdown s

unfoldable pub cr : Console → Console
cr s = record s { pos = s.pos - s.x * 2; x = 0 }

unfoldable pub del : Console → Console
del s =
    if s.x == 0
    then s
    else record s { pos = s.pos - 2; x = s.x - 1; word = update s.word (s.pos - 2) s.erase_char }

abbrev pub erase : (count start : ℕ) → Console → Console
erase count start s = record s { word = fill count start s.erase_char s.word }

unfoldable pub csi_J : ℕ → Console → Console
csi_J par s =
    if par == 0
    then erase ((s.scr_end - s.pos) / 2) s.pos s
    else (if par == 1
        then erase ((s.pos - s.origin) / 2) s.origin s
        else (if par == 2 then erase (s.num_columns * s.num_lines) s.origin s else s))

unfoldable pub csi_K : ℕ → Console → Console
csi_K par s =
    if par == 0
    then (if leb s.num_columns s.x then s else erase (s.num_columns - s.x) s.pos s)
    else (if par == 1
        then erase (if ltb s.x s.num_columns then s.x else s.num_columns) (s.pos - s.x * 2) s
        else (if par == 2 then erase s.num_columns (s.pos - s.x * 2) s else s))

-- The attribute that a parameter of `csi_m` chooses.
abbrev pub choose_attr : (par attr : ℕ) → ℕ
choose_attr par attr =
    if par == 0 || par == 27
    then 0x07
    else (if par == 1 || par == 4 then 0x0f else (if par == 7 then 0x70 else attr))

-- the attribute after the first `n` parameters
unfoldable pub attr_after : (n : ℕ) → (ℕ → ℕ) → ℕ → ℕ
attr_after zero par attr = attr
attr_after (suc n) par attr = choose_attr (par n) (attr_after n par attr)

unfoldable pub csi_m : Console → Console
csi_m s = record s { attr = attr_after (s.npar + 1) s.par s.attr }
