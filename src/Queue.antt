-- ===== src/Queue.antt =====
-- include/linux/tty.h: the ring buffers of the terminals.
use my_practice.Base.{ℕ, ◌+◌, ◌-◌, ◌%◌, Bool, ◌==◌, update}

-- TTY_BUF_SIZE
abbrev pub tty_buf_size : ℕ
tty_buf_size = 1024

-- `data` and `proc_list` are not kept: the macros do not use them.
pub record Queue : Type 0 where
  pub head : ℕ
  pub tail : ℕ
  pub buf : ℕ → ℕ

-- INC(a)
abbrev pub inc : ℕ → ℕ
inc a = (a + 1) % tty_buf_size

-- DEC(a)
abbrev pub dec : ℕ → ℕ
dec a = (a + tty_buf_size - 1) % tty_buf_size

abbrev pub is_empty : Queue → Bool
is_empty q = q.head == q.tail

-- `(tail - head - 1) & (TTY_BUF_SIZE - 1)`
abbrev pub left : Queue → ℕ
left q = (q.tail + tty_buf_size - q.head + tty_buf_size - 1) % tty_buf_size

abbrev pub full : Queue → Bool
full q = left q == 0

-- `(head - tail) & (TTY_BUF_SIZE - 1)`
abbrev pub chars : Queue → ℕ
chars q = (q.head + tty_buf_size - q.tail) % tty_buf_size

-- LAST(a)
abbrev pub last : Queue → ℕ
last q = q.buf (dec q.head)

-- GETCH: the character, and the queue without it
abbrev pub getch : Queue → ℕ × Queue
getch q = (q.buf q.tail, record q { tail = inc q.tail })

-- PUTCH
abbrev pub putch : ℕ → Queue → Queue
putch c q = record q { buf = update q.buf q.head c; head = inc q.head }
