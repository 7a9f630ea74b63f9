-- ===== src/Pipe.antt =====
-- fs/pipe.c: reading and writing a pipe, whose bytes lie in one page.
pub mod Bytes
pub mod Fifo
mod Tests
use my_practice.Base.{
  ℕ, zero, suc, ◌+◌, ◌-◌, ◌%◌, Bool, true, false, ltb, ◌==◌, if◌then◌else◌, update, Option, none,
  some, List, [], ◌∷◌, ◌++◌,
}

-- The fields of the inode that a pipe uses: PIPE_HEAD, PIPE_TAIL, the page at `i_size`, and
-- `i_count`, which is 2 as long as there are readers and writers.
pub record Pipe : Type 0 where
  pub head : ℕ
  pub tail : ℕ
  pub page : ℕ → ℕ
  pub count : ℕ

-- PIPE_SIZE
abbrev pub pipe_size : Pipe → ℕ
pipe_size p = (p.head + 4096 - p.tail) % 4096

abbrev pub min : ℕ → ℕ → ℕ
min a b = if ltb b a then b else a

-- `n` bytes of the page from `at` on
pub get_bytes : (n at : ℕ) → (ℕ → ℕ) → List ℕ
get_bytes zero at page = []
get_bytes (suc n) at page = page at ∷ get_bytes n (at + 1) page

-- `n` bytes of `buf`, from `from` on, put into the page from `at` on
pub put_bytes : (n at from : ℕ) (buf : ℕ → ℕ) → (ℕ → ℕ) → ℕ → ℕ
put_bytes zero at from buf page = page
put_bytes (suc n) at from buf page = put_bytes n (at + 1) (from + 1) buf (update page at (buf from))

-- What a call has done when it returns or goes to sleep: the bytes read or the number of bytes
-- written, and the number still to move.
pub data Read : Type 0 where
  done : List ℕ → Pipe → Read
  sleeps : List ℕ → (count : ℕ) → Pipe → Read

pub data Written : Type 0 where
  done : (written : ℕ) → Pipe → Written
  broken : (written : ℕ) → Pipe → Written
  sleeps : (written count : ℕ) → Pipe → Written

-- The number of bytes that one round of `read_pipe` moves
abbrev pub read_chars : (count : ℕ) → Pipe → ℕ
read_chars count p = min (min (4096 - p.tail) count) (pipe_size p)

-- The bytes are read from the tail on, which moves on first.
abbrev pub take_chars : (chars : ℕ) → Pipe → Pipe
take_chars chars p = record p { tail = (p.tail + chars) % 4096 }

-- The loop of `read_pipe`, with `fuel` rounds; `bytes` have been read. Without fuel there is no result.
pub read_pipe : (fuel count : ℕ) → List ℕ → Pipe → Option Read
read_pipe zero count bytes p = none
read_pipe (suc fuel) count bytes p =
    let chars = read_chars count p in
    let rest =
      read_pipe fuel (count - chars) (bytes ++ get_bytes chars p.tail p.page)
        (take_chars chars p) in
    if count == 0
    then some (done bytes p)
    else (if pipe_size p == 0
        then (if p.count == 2 then some (sleeps bytes count p) else some (done bytes p))
        else rest)

-- The room that is left
abbrev pub room : Pipe → ℕ
room p = 4095 - pipe_size p

abbrev pub write_chars : (count : ℕ) → Pipe → ℕ
write_chars count p = min (min (4096 - p.head) count) (room p)

abbrev pub add_chars : (chars from : ℕ) (buf : ℕ → ℕ) → Pipe → Pipe
add_chars chars from buf p = record p {
  head = (p.head + chars) % 4096;
  page = put_bytes chars p.head from buf p.page;
}

-- The loop of `write_pipe`; `written` bytes of `buf` have been written. Without a reader the signal
-- SIGPIPE is sent, which is `broken`.
pub write_pipe : (fuel count written : ℕ) (buf : ℕ → ℕ) → Pipe → Option Written
write_pipe zero count written buf p = none
write_pipe (suc fuel) count written buf p =
    let chars = write_chars count p in
    let rest =
      write_pipe fuel (count - chars) (written + chars) buf (add_chars chars written buf p) in
    if count == 0
    then some (done written p)
    else (if room p == 0
        then (if p.count == 2 then some (sleeps written count p) else some (broken written p))
        else rest)
