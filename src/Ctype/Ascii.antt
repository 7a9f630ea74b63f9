-- ===== src/Ctype/Ascii.antt =====
-- include/ctype.h: the classes against the ranges of ASCII codes.
use my_practice.Base.{
  ℕ, zero, suc, ◌+◌, ◌-◌, ◌≤◌, ◌<◌, ◌≡◌, refl, sym, ap, ◌∙◌, Bool, true, false, not, ◌||◌, ◌&&◌,
  Option, none, some, ltb, leb, ◌==◌, if◌then◌else◌, arith, List, [], ◌∷◌, length, Bool-cases, inl,
  inr, if_true, if_false,
}
use mathlib.Core.Path.{subst}
use my_practice.Base.Int.{ℤ, pos, negsuc, ◌+ℤ◌}
use my_practice.Ctype.{
  ctype, at, has_any, test, upper, lower, digit, cntrl, punct, space, hex, hard_space, isalnum,
  isalpha, iscntrl, isdigit, isgraph, islower, isprint, ispunct, isspace, isupper, isxdigit,
  tolower, toupper, ctmp, convert,
}

abbrev pub between : (low high c : ℕ) → Bool
between low high c = leb low c && leb c high

abbrev pub is_letter : ℕ → Bool
is_letter c = between 65 90 c || between 97 122 c

abbrev pub is_alnum : ℕ → Bool
is_alnum c = is_letter c || between 48 57 c

-- A code below 128 is converted to `d` where it is a letter of the other case. As a `char`, 255 is
-- -1, which has the entry of EOF, and the codes from 128 to 254 have no entry.
abbrev pub converted : (letter : Bool) → (d c : ℕ) → Option ℤ
converted letter d c =
    if ltb c 128
    then some (pos (if letter then d else c))
    else (if c == 255 then some (negsuc 0) else none)

-- What the tests and the conversions give for the code `c`
pub record IsAscii (c : ℕ) : Type 0 where
  pub alnum : isalnum (pos c) ≡ some (is_alnum c)
  pub alpha : isalpha (pos c) ≡ some (is_letter c)
  pub cntrl : iscntrl (pos c) ≡ some (ltb c 32 || c == 127)
  pub digit : isdigit (pos c) ≡ some (between 48 57 c)
  pub graph : isgraph (pos c) ≡ some (between 33 126 c)
  pub lower : islower (pos c) ≡ some (between 97 122 c)
  pub print : isprint (pos c) ≡ some (between 32 126 c)
  pub punct : ispunct (pos c) ≡ some (between 33 126 c && not (is_alnum c))
  pub space : isspace (pos c) ≡ some (between 9 13 c || c == 32)
  pub upper : isupper (pos c) ≡ some (between 65 90 c)
  pub xdigit : isxdigit (pos c) ≡ some (between 48 57 c || between 65 70 c || between 97 102 c)
  pub to_lower : tolower (pos c) ≡ converted (between 65 90 c) (c + 32) c
  pub to_upper : toupper (pos c) ≡ converted (between 97 122 c) (c - 32) c

abbrev same : Bool → Bool → Bool
same true b = b
same false b = not b

same-eq : (a b : Bool) → same a b ≡ true → a ≡ b
same-eq true true h = refl
same-eq true false h = sym h
same-eq false true h = h
same-eq false false h = refl

abbrev entries_pass : (ℕ → ℕ → Bool) → (i : ℕ) → List ℕ → Bool
entries_pass ok i [] = true
entries_pass ok i (k ∷ ks) = ok i k && entries_pass ok (i + 1) ks

and_first : (a b : Bool) → (a && b) ≡ true → a ≡ true
and_first true b h = refl
and_first false b h = h

and_second : (a b : Bool) → (a && b) ≡ true → b ≡ true
and_second true b h = h
and_second false b h = cc

or_second : (a b : Bool) → a ≡ false → (a || b) ≡ true → b ≡ true
or_second true b e h = cc
or_second false b e h = h

entry_passes :
    (ok : ℕ → ℕ → Bool) (i : ℕ) (ks : List ℕ) (n : ℕ)
    → entries_pass ok i ks ≡ true
    → n < length ks
    → (k : ℕ) × (at ks n ≡ some k) × (ok (i + n) k ≡ true)
entry_passes ok i [] n h b = elim b [ ]
entry_passes ok i (k ∷ ks) zero h b = (
  k,
  refl,
  subst (λ j. ok j k ≡ true) (omega arith) (and_first (ok i k) (entries_pass ok (i + 1) ks) h),
)
entry_passes ok i (k ∷ ks) (suc n) h b =
    let (x, e, p) =
      entry_passes ok (i + 1) ks n (and_second (ok i k) (entries_pass ok (i + 1) ks) h)
        (omega arith) in
    (x, e, subst (λ j. ok j x ≡ true) (omega arith) p)

-- The entries after the first one, of EOF, agree with `g`.
abbrev agrees : (bits : List ℕ) → (ℕ → Bool) → ℕ → ℕ → Bool
agrees bits g i k = i == 0 || same (has_any k bits) (g (i - 1))

length-ctype : length ctype ≡ 257
unfolding ctype
length-ctype = refl

agree :
    (bits : List ℕ) (g : ℕ → Bool) (c : ℕ)
    → entries_pass (agrees bits g) 0 ctype ≡ true
    → c < 256
    → test (pos c) bits ≡ some (g c)
agree bits g c h b =
    let (k, e, p) =
      entry_passes (agrees bits g) 0 ctype (c + 1) h (let l = length-ctype in omega arith) in
    let q : same (has_any k bits) (g c) ≡ true =
      subst (λ j. same (has_any k bits) (g j) ≡ true) (omega arith)
        (or_second ((0 + (c + 1)) == 0) (same (has_any k bits) (g (0 + (c + 1) - 1))) (ground arith)
          p) in
    ap
      (λ (o : Option ℕ). elim o as (λ x. Option Bool) [
        | none ↦ none
        | some k ↦ some (has_any k bits)
      ])
      e
    ∙ ap (λ (x : Bool). some x) (same-eq (has_any k bits) (g c) q)

isupper-between : (c : ℕ) → c < 256 → isupper (pos c) ≡ some (between 65 90 c)
unfolding isupper ctype
isupper-between c h = agree (upper ∷ []) (between 65 90) c refl h

islower-between : (c : ℕ) → c < 256 → islower (pos c) ≡ some (between 97 122 c)
unfolding islower ctype
islower-between c h = agree (lower ∷ []) (between 97 122) c refl h

ctmp_low : (c : ℕ) → c < 128 → ctmp (pos c) ≡ pos c
ctmp_low c h = ground arith

ctmp_high : (c : ℕ) → 128 ≤ c → c < 256 → ctmp (pos c) ≡ negsuc (255 - c)
ctmp_high c l h = ground arith

convert-some :
    (b : Bool) (step : ℤ) (d c : ℕ)
    → (b ≡ true → (pos c +ℤ step) ≡ pos d)
    → convert (some b) step (pos c) ≡ some (pos (if b then d else c))
convert-some true step d c h = ap (λ (z : ℤ). some z) (h refl)
convert-some false step d c h = refl

convert_low :
    (is : ℤ → Option Bool) (b : Bool) (step : ℤ) (d c : ℕ)
    → is (pos c) ≡ some b
    → (b ≡ true → (pos c +ℤ step) ≡ pos d)
    → ltb c 128 ≡ true
    → convert (is (ctmp (pos c))) step (ctmp (pos c)) ≡ converted b d c
convert_low is b step d c e a h =
    ap (λ z. convert (is z) step z) (ctmp_low c (ground arith))
    ∙ ap (λ o. convert o step (pos c)) e
    ∙ convert-some b step d c a
    ∙ sym (if_true (some (pos (if b then d else c))) (if c == 255 then some (negsuc 0) else none) h)

convert_high :
    (is : ℤ → Option Bool) (b : Bool) (step : ℤ) (d c : ℕ)
    → ((n : ℕ) → is (negsuc n) ≡ (if n == 0 then some false else none))
    → c < 256
    → ltb c 128 ≡ false
    → convert (is (ctmp (pos c))) step (ctmp (pos c)) ≡ converted b d c
convert_high is b step d c e l h =
    ap (λ z. convert (is z) step z) (ctmp_high c (ground arith) l)
    ∙ ap (λ o. convert o step (negsuc (255 - c))) (e (255 - c))
    ∙ elim (Bool-cases (c == 255)) [
      | inl k ↦
          let z : ((255 - c) == 0) ≡ true = ground arith in
          let m : 255 - c ≡ 0 = ground arith in
          ap (λ o. convert o step (negsuc (255 - c))) (if_true (some false) none z)
          ∙ ap (λ n. some (negsuc n)) m
          ∙ sym (if_true (some (negsuc 0)) none k)
      | inr k ↦
          let z : ((255 - c) == 0) ≡ false = ground arith in
          ap (λ o. convert o step (negsuc (255 - c))) (if_false (some false) none z)
          ∙ sym (if_false (some (negsuc 0)) none k)
    ]
    ∙ sym
        (if_false (some (pos (if b then d else c))) (if c == 255 then some (negsuc 0) else none) h)

test-negsuc :
    (bits : List ℕ) (n : ℕ)
    → test (negsuc n) bits ≡ (if n == 0 then some (has_any 0 bits) else none)
unfolding ctype
test-negsuc bits n =
    let found : Option ℕ → Option Bool =
      λ o. elim o as (λ x. Option Bool) [ none ↦ none | some k ↦ some (has_any k bits) ] in
    elim (Bool-cases (n == 0)) [
      | inl h ↦ ap found (if_true (some 0) none h) ∙ sym (if_true (some (has_any 0 bits)) none h)
      | inr h ↦ ap found (if_false (some 0) none h) ∙ sym (if_false (some (has_any 0 bits)) none h)
    ]

no_upper : (n : ℕ) → isupper (negsuc n) ≡ (if n == 0 then some false else none)
unfolding isupper
no_upper n = test-negsuc (upper ∷ []) n

no_lower : (n : ℕ) → islower (negsuc n) ≡ (if n == 0 then some false else none)
unfolding islower
no_lower n = test-negsuc (lower ∷ []) n

add_32 : (c : ℕ) → (pos c +ℤ pos 32) ≡ pos (c + 32)
unfolding ◌+ℤ◌
add_32 c = ground arith

sub_32 : (c : ℕ) → between 97 122 c ≡ true → (pos c +ℤ negsuc 31) ≡ pos (c - 32)
unfolding ◌+ℤ◌
sub_32 c h = ground arith

tolower-converted : (c : ℕ) → c < 256 → tolower (pos c) ≡ converted (between 65 90 c) (c + 32) c
unfolding tolower
tolower-converted c h = elim (Bool-cases (ltb c 128)) [
  | inl l ↦
      convert_low isupper (between 65 90 c) (pos 32) (c + 32) c (isupper-between c h)
        (λ e. add_32 c) l
  | inr l ↦ convert_high isupper (between 65 90 c) (pos 32) (c + 32) c no_upper h l
]

toupper-converted : (c : ℕ) → c < 256 → toupper (pos c) ≡ converted (between 97 122 c) (c - 32) c
unfolding toupper
toupper-converted c h = elim (Bool-cases (ltb c 128)) [
  | inl l ↦
      convert_low islower (between 97 122 c) (negsuc 31) (c - 32) c (islower-between c h) (sub_32 c)
        l
  | inr l ↦ convert_high islower (between 97 122 c) (negsuc 31) (c - 32) c no_lower h l
]

-- For each byte, the tests of classes hold for the ranges of ASCII codes, and for no code from 128
-- on; the conversions change the letters of the other case alone, and for the codes from 128 on,
-- which a `char` holds as negative numbers, read before the table, or give -1 for 255.
pub ctype-IsAscii : (c : ℕ) → c < 256 → IsAscii c
unfolding ctype isalnum isalpha iscntrl isdigit isgraph isprint ispunct isspace isxdigit
ctype-IsAscii c h = record {
  alnum = agree (upper ∷ lower ∷ digit ∷ []) is_alnum c refl h;
  alpha = agree (upper ∷ lower ∷ []) is_letter c refl h;
  cntrl = agree (cntrl ∷ []) (λ i. ltb i 32 || i == 127) c refl h;
  digit = agree (digit ∷ []) (between 48 57) c refl h;
  graph = agree (punct ∷ upper ∷ lower ∷ digit ∷ []) (between 33 126) c refl h;
  lower = islower-between c h;
  print = agree (punct ∷ upper ∷ lower ∷ digit ∷ hard_space ∷ []) (between 32 126) c refl h;
  punct = agree (punct ∷ []) (λ i. between 33 126 i && not (is_alnum i)) c refl h;
  space = agree (space ∷ []) (λ i. between 9 13 i || i == 32) c refl h;
  upper = isupper-between c h;
  xdigit =
      agree (digit ∷ hex ∷ []) (λ i. between 48 57 i || between 65 70 i || between 97 102 i) c refl
        h;
  to_lower = tolower-converted c h;
  to_upper = toupper-converted c h;
}
