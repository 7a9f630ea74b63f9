-- ===== src/Ctype.antt =====
-- include/ctype.h and lib/ctype.c: the classes of characters.
pub mod Ascii
mod Tests
use my_practice.Base.{
  ℕ, zero, suc, ◌+◌, ◌-◌, ◌/◌, ◌%◌, Bool, true, false, ◌||◌, Option, none, some, ltb, ◌==◌,
  if◌then◌else◌, List, [], ◌∷◌, ◌++◌,
}
use my_practice.Base.Int.{ℤ, pos, negsuc, ◌+ℤ◌}

-- The bits _U, _L, _D, _C, _P, _S, _X and _SP
abbrev pub upper : ℕ
upper = 1

abbrev pub lower : ℕ
lower = 2

abbrev pub digit : ℕ
digit = 4

abbrev pub cntrl : ℕ
cntrl = 8

abbrev pub punct : ℕ
punct = 16

abbrev pub space : ℕ
space = 32

abbrev pub hex : ℕ
hex = 64

abbrev pub hard_space : ℕ
hard_space = 128

-- `_ctype`; a sum is an `|` of different bits.
pub ctype : List ℕ
ctype =
    (0 ∷ [])
    ++ (cntrl ∷ cntrl ∷ cntrl ∷ cntrl ∷ cntrl ∷ cntrl ∷ cntrl ∷ cntrl ∷ [])
    ++ (cntrl
        ∷ (cntrl + space)
        ∷ (cntrl + space)
        ∷ (cntrl + space)
        ∷ (cntrl + space)
        ∷ (cntrl + space)
        ∷ cntrl
        ∷ cntrl
        ∷ [])
    ++ (cntrl ∷ cntrl ∷ cntrl ∷ cntrl ∷ cntrl ∷ cntrl ∷ cntrl ∷ cntrl ∷ [])
    ++ (cntrl ∷ cntrl ∷ cntrl ∷ cntrl ∷ cntrl ∷ cntrl ∷ cntrl ∷ cntrl ∷ [])
    ++ ((space + hard_space) ∷ punct ∷ punct ∷ punct ∷ punct ∷ punct ∷ punct ∷ punct ∷ [])
    ++ (punct ∷ punct ∷ punct ∷ punct ∷ punct ∷ punct ∷ punct ∷ punct ∷ [])
    ++ (digit ∷ digit ∷ digit ∷ digit ∷ digit ∷ digit ∷ digit ∷ digit ∷ [])
    ++ (digit ∷ digit ∷ punct ∷ punct ∷ punct ∷ punct ∷ punct ∷ punct ∷ [])
    ++ (punct
        ∷ (upper + hex)
        ∷ (upper + hex)
        ∷ (upper + hex)
        ∷ (upper + hex)
        ∷ (upper + hex)
        ∷ (upper + hex)
        ∷ upper
        ∷ [])
    ++ (upper ∷ upper ∷ upper ∷ upper ∷ upper ∷ upper ∷ upper ∷ upper ∷ [])
    ++ (upper ∷ upper ∷ upper ∷ upper ∷ upper ∷ upper ∷ upper ∷ upper ∷ [])
    ++ (upper ∷ upper ∷ upper ∷ punct ∷ punct ∷ punct ∷ punct ∷ punct ∷ [])
    ++ (punct
        ∷ (lower + hex)
        ∷ (lower + hex)
        ∷ (lower + hex)
        ∷ (lower + hex)
        ∷ (lower + hex)
        ∷ (lower + hex)
        ∷ lower
        ∷ [])
    ++ (lower ∷ lower ∷ lower ∷ lower ∷ lower ∷ lower ∷ lower ∷ lower ∷ [])
    ++ (lower ∷ lower ∷ lower ∷ lower ∷ lower ∷ lower ∷ lower ∷ lower ∷ [])
    ++ (lower ∷ lower ∷ lower ∷ punct ∷ punct ∷ punct ∷ punct ∷ cntrl ∷ [])
    ++ (0 ∷ 0 ∷ 0 ∷ 0 ∷ 0 ∷ 0 ∷ 0 ∷ 0 ∷ [])
    ++ (0 ∷ 0 ∷ 0 ∷ 0 ∷ 0 ∷ 0 ∷ 0 ∷ 0 ∷ [])
    ++ (0 ∷ 0 ∷ 0 ∷ 0 ∷ 0 ∷ 0 ∷ 0 ∷ 0 ∷ [])
    ++ (0 ∷ 0 ∷ 0 ∷ 0 ∷ 0 ∷ 0 ∷ 0 ∷ 0 ∷ [])
    ++ (0 ∷ 0 ∷ 0 ∷ 0 ∷ 0 ∷ 0 ∷ 0 ∷ 0 ∷ [])
    ++ (0 ∷ 0 ∷ 0 ∷ 0 ∷ 0 ∷ 0 ∷ 0 ∷ 0 ∷ [])
    ++ (0 ∷ 0 ∷ 0 ∷ 0 ∷ 0 ∷ 0 ∷ 0 ∷ 0 ∷ [])
    ++ (0 ∷ 0 ∷ 0 ∷ 0 ∷ 0 ∷ 0 ∷ 0 ∷ 0 ∷ [])
    ++ (0 ∷ 0 ∷ 0 ∷ 0 ∷ 0 ∷ 0 ∷ 0 ∷ 0 ∷ [])
    ++ (0 ∷ 0 ∷ 0 ∷ 0 ∷ 0 ∷ 0 ∷ 0 ∷ 0 ∷ [])
    ++ (0 ∷ 0 ∷ 0 ∷ 0 ∷ 0 ∷ 0 ∷ 0 ∷ 0 ∷ [])
    ++ (0 ∷ 0 ∷ 0 ∷ 0 ∷ 0 ∷ 0 ∷ 0 ∷ 0 ∷ [])
    ++ (0 ∷ 0 ∷ 0 ∷ 0 ∷ 0 ∷ 0 ∷ 0 ∷ 0 ∷ [])
    ++ (0 ∷ 0 ∷ 0 ∷ 0 ∷ 0 ∷ 0 ∷ 0 ∷ 0 ∷ [])
    ++ (0 ∷ 0 ∷ 0 ∷ 0 ∷ 0 ∷ 0 ∷ 0 ∷ 0 ∷ [])
    ++ (0 ∷ 0 ∷ 0 ∷ 0 ∷ 0 ∷ 0 ∷ 0 ∷ 0 ∷ [])

abbrev pub at : List ℕ → ℕ → Option ℕ
at [] i = none
at (x ∷ xs) zero = some x
at (x ∷ xs) (suc i) = at xs i

-- `(_ctype+1)[c]`, or none where that is not in the table
abbrev pub class : ℤ → Option ℕ
class (pos c) = at ctype (c + 1)
class (negsuc n) = if n == 0 then at ctype 0 else none

abbrev pub has : ℕ → (bit : ℕ) → Bool
has k bit = (k / bit) % 2 == 1

abbrev pub has_any : ℕ → (bits : List ℕ) → Bool
has_any k [] = false
has_any k (b ∷ bits) = has k b || has_any k bits

-- A test of a class's bits, where the character's entry is in the table
abbrev pub test : ℤ → (bits : List ℕ) → Option Bool
test c bits = elim (class c) [ none ↦ none | some k ↦ some (has_any k bits) ]

pub isalnum : ℤ → Option Bool
isalnum c = test c (upper ∷ lower ∷ digit ∷ [])

pub isalpha : ℤ → Option Bool
isalpha c = test c (upper ∷ lower ∷ [])

pub iscntrl : ℤ → Option Bool
iscntrl c = test c (cntrl ∷ [])

pub isdigit : ℤ → Option Bool
isdigit c = test c (digit ∷ [])

pub isgraph : ℤ → Option Bool
isgraph c = test c (punct ∷ upper ∷ lower ∷ digit ∷ [])

pub islower : ℤ → Option Bool
islower c = test c (lower ∷ [])

pub isprint : ℤ → Option Bool
isprint c = test c (punct ∷ upper ∷ lower ∷ digit ∷ hard_space ∷ [])

pub ispunct : ℤ → Option Bool
ispunct c = test c (punct ∷ [])

pub isspace : ℤ → Option Bool
isspace c = test c (space ∷ [])

pub isupper : ℤ → Option Bool
isupper c = test c (upper ∷ [])

pub isxdigit : ℤ → Option Bool
isxdigit c = test c (digit ∷ hex ∷ [])

abbrev pub isascii : ℤ → Bool
isascii (pos c) = ltb c 128
isascii (negsuc n) = false

abbrev pub toascii : ℤ → ℕ
toascii (pos c) = c % 128
toascii (negsuc n) = 127 - n % 128

-- The `char` of a byte, which is signed
abbrev pub char_of_byte : ℕ → ℤ
char_of_byte b = if ltb b 128 then pos b else negsuc (255 - b)

-- What `_ctmp`, a `char`, holds after `_ctmp=c`
abbrev pub ctmp : ℤ → ℤ
ctmp (pos c) = char_of_byte (c % 256)
ctmp (negsuc n) = char_of_byte (255 - n % 256)

-- `t`, with `step` added where the test holds
abbrev pub convert : Option Bool → (step t : ℤ) → Option ℤ
convert none step t = none
convert (some b) step t = some (if b then t +ℤ step else t)

pub tolower : ℤ → Option ℤ
tolower c = convert (isupper (ctmp c)) (pos 32) (ctmp c)

pub toupper : ℤ → Option ℤ
toupper c = convert (islower (ctmp c)) (negsuc 31) (ctmp c)
