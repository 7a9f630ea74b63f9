-- ===== src/Ctype/Tests.antt =====
-- include/ctype.h: concrete characters.
use my_practice.Base.{◌≡◌, refl, arith, none, some}
use my_practice.Base.Int.{pos, ◌+ℤ◌}
use my_practice.Ctype.{ctype, isupper, tolower}
use my_practice.Ctype.Ascii.{IsAscii, ctype-IsAscii}

ctype-IsAscii_example : IsAscii 71
ctype-IsAscii_example = ctype-IsAscii 71 (omega arith)

lower_case : tolower (pos 71) ≡ some (pos 103)
unfolding tolower isupper ctype ◌+ℤ◌
lower_case = refl

accented : tolower (pos 200) ≡ none
unfolding tolower isupper ctype
accented = refl
