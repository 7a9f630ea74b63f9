-- ===== src/Strings/Tests.antt =====
-- include/string.h: concrete strings.
use my_practice.Base.{ℕ, ◌+◌, ◌≤◌, ◌<◌, ◌≡◌, refl, ◌⊎◌, inl, some, ◌==◌, if◌then◌else◌, arith}
use my_practice.Base.Int.{negsuc}
use my_practice.Strings.{Bytes, movsb_down, memmove, strcat, strncat, strcmp}
use my_practice.Strings.Move.{Moved, memmove-Moved}
use my_practice.Strings.Copy.{IsString}
use my_practice.Strings.Append.{strcat-IsString, strncat-twice}

-- "ab" at 10, "c" at 20, and 9 everywhere else
abbrev two_strings : Bytes
two_strings a =
    if a == 10
    then 97
    else if a == 11
    then 98
    else if a == 12
    then 0
    else if a == 20
    then 99
    else if a == 21
    then 0
    else 9

ab-IsString : IsString two_strings 10 2
ab-IsString = record { inside = λ i l. ground arith; ends = refl }

c-IsString : IsString two_strings 20 1
c-IsString = record { inside = λ i l. ground arith; ends = refl }

memmove-Moved_example : Moved 3 10 11 two_strings (memmove 11 10 3 two_strings)
memmove-Moved_example = memmove-Moved 3 10 11 two_strings

overlaps : memmove 11 10 3 two_strings 13 ≡ 0
unfolding memmove movsb_down
overlaps = refl

strcat-IsString_example :
    (m' : Bytes) × (strcat 5 10 20 two_strings ≡ some m')
    × IsString m' 10 3
    × Moved 2 20 12 two_strings m'
strcat-IsString_example =
    strcat-IsString 5 10 20 2 1 two_strings ab-IsString c-IsString (inl (omega arith)) (omega arith)
      (omega arith)

strncat-twice_example :
    (strncat 10 20 5 two_strings 14 ≡ 0)
    × ((i : ℕ) → i ≤ 1 → strncat 10 20 5 two_strings (12 + i) ≡ two_strings (20 + i))
    × ((a : ℕ) → (a < 12) ⊎ (15 ≤ a) → strncat 10 20 5 two_strings a ≡ two_strings a)
strncat-twice_example =
    strncat-twice 10 20 5 2 1 two_strings ab-IsString c-IsString (inl (omega arith)) (omega arith)
      (omega arith)

-- Bytes are signed: 200 is less than 97.
signed_order : strcmp 2 0 1 (λ a. if a == 0 then 200 else 97) ≡ some (negsuc 0)
unfolding strcmp
signed_order = refl
