-- ===== src/Pipe/Bytes.antt =====
-- fs/pipe.c: the bytes that a pipe holds, in the order in which they are read.
use my_practice.Base.{
  ℕ, zero, suc, ◌+◌, ◌-◌, ◌%◌, ◌≤◌, ◌<◌, ◌≡◌, refl, sym, ap, ◌∙◌, ◌⊎◌, inl, arith, update,
  update_ne, update_self, List, [], ◌∷◌, ◌++◌,
}
use my_practice.Pipe.{Pipe, pipe_size, get_bytes, put_bytes, take_chars, add_chars, room}

-- The `n` bytes from `at` on, around the end of the page
pub ring : (n at : ℕ) → (ℕ → ℕ) → List ℕ
ring zero at page = []
ring (suc n) at page = page at ∷ ring n ((at + 1) % 4096) page

pub contents : Pipe → List ℕ
contents p = ring (pipe_size p) p.tail p.page

-- Both ends lie in the page.
pub record IsValid (p : Pipe) : Type 0 where
  pub head : p.head < 4096
  pub tail : p.tail < 4096

ring-append :
    (a b at : ℕ) (page : ℕ → ℕ)
    → at < 4096
    → ring (a + b) at page ≡ ring a at page ++ ring b ((at + a) % 4096) page
unfolding ring
ring-append zero b at page h =
    ap (λ (n : ℕ). ring n at page) (omega arith) ∙ ap (λ (x : ℕ). ring b x page) (omega arith)
ring-append (suc a) b at page h =
    let more : suc a + b ≡ suc (a + b) = omega arith in
    let round : ((at + 1) % 4096 + a) % 4096 ≡ (at + suc a) % 4096 = omega arith in
    ap (λ (n : ℕ). ring n at page) more
    ∙ ap (λ l. page at ∷ l)
        (ring-append a b ((at + 1) % 4096) page (omega arith)
          ∙ ap (λ (x : ℕ). ring a ((at + 1) % 4096) page ++ ring b x page) round)

ring-get_bytes : (n at : ℕ) (page : ℕ → ℕ) → at + n ≤ 4096 → ring n at page ≡ get_bytes n at page
unfolding ring get_bytes
ring-get_bytes zero at page h = refl
ring-get_bytes (suc zero) at page h = refl
ring-get_bytes (suc (suc n)) at page h =
    let next : (at + 1) % 4096 ≡ at + 1 = omega arith in
    ap (λ l. page at ∷ l)
      (ap (λ (x : ℕ). ring (suc n) x page) next
        ∙ ring-get_bytes (suc n) (at + 1) page (omega arith))

-- One round of reading moves bytes from the front of the contents.
pub take_chars-contents :
    (chars : ℕ) (p : Pipe)
    → IsValid p
    → chars ≤ pipe_size p
    → p.tail + chars ≤ 4096
    → contents p ≡ get_bytes chars p.tail p.page ++ contents (take_chars chars p)
unfolding contents
take_chars-contents chars p v le fits =
    let size : pipe_size p ≡ chars + (pipe_size p - chars) = omega arith in
    let left : pipe_size (take_chars chars p) ≡ pipe_size p - chars =
      omega (arith, v.head, v.tail) in
    ap (λ (n : ℕ). ring n p.tail p.page) size
    ∙ ring-append chars (pipe_size p - chars) p.tail p.page v.tail
    ∙ ap (λ l. l ++ ring (pipe_size p - chars) ((p.tail + chars) % 4096) p.page)
        (ring-get_bytes chars p.tail p.page fits)
    ∙ ap (λ (n : ℕ). get_bytes chars p.tail p.page ++ ring n ((p.tail + chars) % 4096) p.page)
        (sym left)

put_bytes-other :
    (n at from : ℕ) (buf page : ℕ → ℕ) (x : ℕ)
    → (x < at) ⊎ (at + n ≤ x)
    → put_bytes n at from buf page x ≡ page x
unfolding put_bytes
put_bytes-other zero at from buf page x far = refl
put_bytes-other (suc n) at from buf page x far =
    put_bytes-other n (at + 1) (from + 1) buf (update page at (buf from)) x (omega arith)
    ∙ update_ne page at (buf from) x (λ e. omega arith)

get_bytes-put_bytes :
    (n at from : ℕ) (buf page : ℕ → ℕ)
    → get_bytes n at (put_bytes n at from buf page) ≡ get_bytes n from buf
unfolding get_bytes put_bytes
get_bytes-put_bytes zero at from buf page = refl
get_bytes-put_bytes (suc n) at from buf page =
    ap (λ (b : ℕ). b ∷ get_bytes n (at + 1) (put_bytes (suc n) at from buf page))
      (put_bytes-other n (at + 1) (from + 1) buf (update page at (buf from)) at (inl (omega arith))
        ∙ update_self page at (buf from))
    ∙ ap (λ l. buf from ∷ l)
        (get_bytes-put_bytes n (at + 1) (from + 1) buf (update page at (buf from)))

-- Bytes that are put behind a stretch of the ring do not change it.
ring-put_bytes :
    (n chars at h from : ℕ) (buf page : ℕ → ℕ)
    → at < 4096
    → (at + n) % 4096 ≡ h
    → n + chars < 4096
    → h + chars ≤ 4096
    → ring n at (put_bytes chars h from buf page) ≡ ring n at page
unfolding ring
ring-put_bytes zero chars at h from buf page lt e room fits = refl
ring-put_bytes (suc n) chars at h from buf page lt e room fits =
    ap (λ (b : ℕ). b ∷ ring n ((at + 1) % 4096) (put_bytes chars h from buf page))
      (put_bytes-other chars h from buf page at (omega arith))
    ∙ ap (λ l. page at ∷ l)
        (ring-put_bytes n chars ((at + 1) % 4096) h from buf page (omega arith) (omega arith)
          (omega arith) fits)

-- One round of writing moves bytes to the end of the contents.
pub add_chars-contents :
    (chars from : ℕ) (buf : ℕ → ℕ) (p : Pipe)
    → IsValid p
    → chars ≤ room p
    → p.head + chars ≤ 4096
    → contents (add_chars chars from buf p) ≡ contents p ++ get_bytes chars from buf
unfolding contents
add_chars-contents chars from buf p v le fits =
    let page' : ℕ → ℕ = put_bytes chars p.head from buf p.page in
    let size : pipe_size (add_chars chars from buf p) ≡ pipe_size p + chars =
      omega (arith, v.head, v.tail) in
    let end : (p.tail + pipe_size p) % 4096 ≡ p.head = omega (arith, v.head, v.tail) in
    ap (λ (n : ℕ). ring n p.tail page') size
    ∙ ring-append (pipe_size p) chars p.tail page' v.tail
    ∙ ap (λ l. l ++ ring chars ((p.tail + pipe_size p) % 4096) page')
        (ring-put_bytes (pipe_size p) chars p.tail p.head from buf p.page v.tail end (omega arith)
          fits)
    ∙ ap (λ (x : ℕ). ring (pipe_size p) p.tail p.page ++ ring chars x page') end
    ∙ ap (λ l. ring (pipe_size p) p.tail p.page ++ l)
        (ring-get_bytes chars p.head page' fits ∙ get_bytes-put_bytes chars p.head from buf p.page)
