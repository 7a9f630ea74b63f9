-- ===== src/Pipe/Fifo.antt =====
-- fs/pipe.c: a pipe is a queue of bytes, which reading takes from its front and writing adds to.
use mathlib.Core.List.{append_assoc, append-nil}
use my_practice.Base.{
  ℕ, zero, suc, ◌+◌, ◌-◌, ◌≤◌, ◌<◌, ◌≡◌, refl, sym, ap, ◌∙◌, ◌≢◌, ◌⊎◌, inl, inr, false, arith, List,
  [], ◌∷◌, ◌++◌, ◌==◌, length, some, Bool-cases,
}
use my_practice.Pipe.{
  Pipe, Read, Written, pipe_size, get_bytes, read_chars, take_chars, read_pipe, room, write_chars,
  add_chars, write_pipe,
}
use my_practice.Pipe.Bytes.{contents, IsValid, take_chars-contents, add_chars-contents}

-- What reading `count` bytes has done so far: `bytes` was read before, and the rest comes from the
-- front of the pipe, in order. It returns with all bytes, or with fewer where the pipe is empty and
-- has no writer; it sleeps where the pipe is empty and has a writer.
abbrev pub WasRead : (bytes : List ℕ) (count : ℕ) (p : Pipe) → Read → Type 0
WasRead bytes count p (Read.done all p') =
    (moved : List ℕ) × (all ≡ bytes ++ moved)
    × (contents p ≡ moved ++ contents p')
    × IsValid p'
    × ((length moved ≡ count) ⊎ ((length moved < count) × (pipe_size p' ≡ 0) × (p'.count ≢ 2)))
WasRead bytes count p (Read.sleeps all left p') =
    (moved : List ℕ) × (all ≡ bytes ++ moved)
    × (contents p ≡ moved ++ contents p')
    × IsValid p'
    × (length moved + left ≡ count)
    × (0 < left)
    × (pipe_size p' ≡ 0)
    × (p'.count ≡ 2)

length-get_bytes : (n at : ℕ) (page : ℕ → ℕ) → length (get_bytes n at page) ≡ n
unfolding get_bytes
length-get_bytes zero at page = refl
length-get_bytes (suc n) at page = ap suc (length-get_bytes n (at + 1) page)

length-append : (xs ys : List ℕ) → length (xs ++ ys) ≡ length xs + length ys
length-append [] ys = omega arith
length-append (x ∷ xs) ys = omega (arith, length-append xs ys)

-- One more round before a call
WasRead-round :
    (front bytes : List ℕ) (n count : ℕ) (p p' : Pipe) (r : Read)
    → length front ≡ n
    → contents p ≡ front ++ contents p'
    → n ≤ count
    → WasRead (bytes ++ front) (count - n) p' r
    → WasRead bytes count p r
WasRead-round front bytes n count p p' (Read.done all q) size e le (moved, is, c, v, out) = (
  front ++ moved,
  is ∙ append_assoc bytes front moved,
  e ∙ ap (λ l. front ++ l) c ∙ sym (append_assoc front moved (contents q)),
  v,
  elim out [
    | inl k ↦ inl (omega (arith, length-append front moved))
    | inr (k, z, w) ↦ inr (omega (arith, length-append front moved), z, w)
  ],
)
WasRead-round front bytes n count p p' (Read.sleeps all left q) size e le
      (moved, is, c, v, k, some_left, z, w) =
    (
      front ++ moved,
      is ∙ append_assoc bytes front moved,
      e ∙ ap (λ l. front ++ l) c ∙ sym (append_assoc front moved (contents q)),
      v,
      omega (arith, length-append front moved),
      some_left,
      z,
      w,
    )

-- What one round moves
record IsRound (count : ℕ) (p : Pipe) (chars : ℕ) : Type 0 where
  some_chars : 1 ≤ chars
  wanted : chars ≤ count
  held : chars ≤ pipe_size p
  fits : p.tail + chars ≤ 4096

read_chars-IsRound :
    (count : ℕ) (p : Pipe)
    → IsValid p
    → (count == 0) ≡ false
    → (pipe_size p == 0) ≡ false
    → IsRound count p (read_chars count p)
read_chars-IsRound count p v nz some_bytes = ground arith

-- With more rounds than bytes wanted, `read_pipe` returns or sleeps.
pub read_pipe-WasRead :
    (fuel count : ℕ) (bytes : List ℕ) (p : Pipe)
    → IsValid p
    → count < fuel
    → (r : Read) × (read_pipe fuel count bytes p ≡ some r) × WasRead bytes count p r
unfolding read_pipe
read_pipe-WasRead zero count bytes p v h = elim h [ ]
read_pipe-WasRead (suc fuel) count bytes p v h = elim (Bool-cases (count == 0)) [
  | inl z ↦
      (Read.done bytes p, rw z refl, ([], sym (append-nil bytes), refl, v, inl (ground arith)))
  | inr nz ↦ elim (Bool-cases (pipe_size p == 0)) [
    | inl empty ↦ elim (Bool-cases (p.count == 2)) [
      | inl w ↦ (
        Read.sleeps bytes count p,
        rw (nz, empty, w) refl,
        (
          [],
          sym (append-nil bytes),
          refl,
          v,
          omega arith,
          ground arith,
          ground arith,
          ground arith,
        ),
      )
      | inr w ↦ (
        Read.done bytes p,
        rw (nz, empty, w) refl,
        ([], sym (append-nil bytes), refl, v, inr (ground arith, ground arith, ground arith)),
      )
    ]
    | inr some_bytes ↦
        let n : ℕ = read_chars count p in
        let round = read_chars-IsRound count p v nz some_bytes in
        let front : List ℕ = get_bytes n p.tail p.page in
        let size = length-get_bytes n p.tail p.page in
        let v' : IsValid (take_chars n p) = omega (arith, v.head) in
        let (r, e, w) =
          read_pipe-WasRead fuel (count - n) (bytes ++ front) (take_chars n p) v'
            (omega (arith, round.some_chars, round.wanted)) in
        (
          r,
          rw (nz, some_bytes) e,
          WasRead-round front bytes n count p (take_chars n p) r size
              (take_chars-contents n p v round.held round.fits) round.wanted w,
        )
  ]
]

-- What writing `count` bytes of `buf` has done so far, after the first `written`: bytes have gone to the
-- end of the pipe, in order. It returns with all bytes, or is broken where the pipe is full and has no
-- reader; it sleeps where the pipe is full and has a reader.
abbrev pub WasWritten : (written count : ℕ) (buf : ℕ → ℕ) (p : Pipe) → Written → Type 0
WasWritten written count buf p (Written.done total p') =
    (total ≡ written + count)
    × (contents p' ≡ contents p ++ get_bytes count written buf)
    × IsValid p'
WasWritten written count buf p (Written.broken total p') =
    (k : ℕ) × (total ≡ written + k)
    × (contents p' ≡ contents p ++ get_bytes k written buf)
    × IsValid p'
    × (k < count)
    × (room p' ≡ 0)
    × (p'.count ≢ 2)
WasWritten written count buf p (Written.sleeps total left p') =
    (k : ℕ) × (total ≡ written + k)
    × (contents p' ≡ contents p ++ get_bytes k written buf)
    × IsValid p'
    × (k + left ≡ count)
    × (0 < left)
    × (room p' ≡ 0)
    × (p'.count ≡ 2)

get_bytes-append :
    (a b from : ℕ) (buf : ℕ → ℕ)
    → get_bytes a from buf ++ get_bytes b (from + a) buf ≡ get_bytes (a + b) from buf
unfolding get_bytes
get_bytes-append zero b from buf =
    ap (λ (x : ℕ). get_bytes b x buf) (omega arith)
    ∙ ap (λ (n : ℕ). get_bytes n from buf) (omega arith)
get_bytes-append (suc a) b from buf =
    let more : suc (a + b) ≡ suc a + b = omega arith in
    let start : from + suc a ≡ from + 1 + a = omega arith in
    ap (λ (x : ℕ). buf from ∷ (get_bytes a (from + 1) buf ++ get_bytes b x buf)) start
    ∙ ap (λ l. buf from ∷ l) (get_bytes-append a b (from + 1) buf)
    ∙ ap (λ (n : ℕ). get_bytes n from buf) more

-- The bytes of a round and those after it
contents-round :
    (a b from : ℕ) (buf : ℕ → ℕ) (p p' q : Pipe)
    → contents p' ≡ contents p ++ get_bytes a from buf
    → contents q ≡ contents p' ++ get_bytes b (from + a) buf
    → contents q ≡ contents p ++ get_bytes (a + b) from buf
contents-round a b from buf p p' q e f =
    f
    ∙ ap (λ l. l ++ get_bytes b (from + a) buf) e
    ∙ append_assoc (contents p) (get_bytes a from buf) (get_bytes b (from + a) buf)
    ∙ ap (λ l. contents p ++ l) (get_bytes-append a b from buf)

WasWritten-round :
    (a written count : ℕ) (buf : ℕ → ℕ) (p p' : Pipe) (r : Written)
    → contents p' ≡ contents p ++ get_bytes a written buf
    → a ≤ count
    → WasWritten (written + a) (count - a) buf p' r
    → WasWritten written count buf p r
WasWritten-round a written count buf p p' (Written.done total q) e le (is, c, v) =
    let all : a + (count - a) ≡ count = omega arith in
    (
      omega arith,
      contents-round a (count - a) written buf p p' q e c
          ∙ ap (λ (n : ℕ). contents p ++ get_bytes n written buf) all,
      v,
    )
WasWritten-round a written count buf p p' (Written.broken total q) e le (k, is, c, v, lt, full, w) =
    (a + k, omega arith, contents-round a k written buf p p' q e c, v, omega arith, full, w)
WasWritten-round a written count buf p p' (Written.sleeps total left q) e le
      (k, is, c, v, n, some_left, full, w) =
    (
      a + k,
      omega arith,
      contents-round a k written buf p p' q e c,
      v,
      omega arith,
      some_left,
      full,
      w,
    )

record IsWriteRound (count : ℕ) (p : Pipe) (chars : ℕ) : Type 0 where
  some_chars : 1 ≤ chars
  wanted : chars ≤ count
  fits_room : chars ≤ room p
  fits : p.head + chars ≤ 4096

write_chars-IsWriteRound :
    (count : ℕ) (p : Pipe)
    → IsValid p
    → (count == 0) ≡ false
    → (room p == 0) ≡ false
    → IsWriteRound count p (write_chars count p)
write_chars-IsWriteRound count p v nz some_room = ground arith

nothing : (from : ℕ) (buf : ℕ → ℕ) (p : Pipe) → contents p ≡ contents p ++ get_bytes 0 from buf
unfolding get_bytes
nothing from buf p = sym (append-nil (contents p))

-- With more rounds than bytes to write, `write_pipe` returns, is broken or sleeps.
pub write_pipe-WasWritten :
    (fuel count written : ℕ) (buf : ℕ → ℕ) (p : Pipe)
    → IsValid p
    → count < fuel
    → (r : Written) × (write_pipe fuel count written buf p ≡ some r)
      × WasWritten written count buf p r
unfolding write_pipe
write_pipe-WasWritten zero count written buf p v h = elim h [ ]
write_pipe-WasWritten (suc fuel) count written buf p v h = elim (Bool-cases (count == 0)) [
  | inl z ↦
      let is_zero : count ≡ 0 = ground arith in
      (
        Written.done written p,
        rw z refl,
        (
          omega arith,
          nothing written buf p
              ∙ ap (λ (n : ℕ). contents p ++ get_bytes n written buf) (sym is_zero),
          v,
        ),
      )
  | inr nz ↦ elim (Bool-cases (room p == 0)) [
    | inl full ↦ elim (Bool-cases (p.count == 2)) [
      | inl w ↦ (
        Written.sleeps written count p,
        rw (nz, full, w) refl,
        (
          0,
          omega arith,
          nothing written buf p,
          v,
          omega arith,
          ground arith,
          ground arith,
          ground arith,
        ),
      )
      | inr w ↦ (
        Written.broken written p,
        rw (nz, full, w) refl,
        (0, omega arith, nothing written buf p, v, ground arith, ground arith, ground arith),
      )
    ]
    | inr some_room ↦
        let n : ℕ = write_chars count p in
        let round = write_chars-IsWriteRound count p v nz some_room in
        let v' : IsValid (add_chars n written buf p) = omega (arith, v.tail) in
        let (r, e, w) =
          write_pipe-WasWritten fuel (count - n) (written + n) buf (add_chars n written buf p) v'
            (omega (arith, round.some_chars, round.wanted)) in
        (
          r,
          rw (nz, some_room) e,
          WasWritten-round n written count buf p (add_chars n written buf p) r
              (add_chars-contents n written buf p v round.fits_room round.fits) round.wanted w,
        )
  ]
]
