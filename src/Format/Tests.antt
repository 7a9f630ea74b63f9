-- ===== src/Format/Tests.antt =====
-- kernel/vsprintf.c: concrete numbers.
use my_practice.Base.{ℕ, ◌-◌, ◌^◌, ◌≡◌, refl, true, false, some, arith, List, [], ◌∷◌}
use my_practice.Format.{Flags, fill_tmp, copies, backwards, lay_out, number}
use my_practice.Format.Number.{Printed, number-Printed}

-- `%+06d`
abbrev padded : Flags
padded = record {
  zeropad = true;
  sign = true;
  plus = true;
  space = false;
  left = false;
  special = false;
  small = false;
}

number-Printed_example :
    (out : List ℕ) × (number (2 ^ 32 - 42) 10 6 0 padded ≡ some out)
    × Printed (2 ^ 32 - 42) 10 6 0 padded out
number-Printed_example =
    number-Printed (2 ^ 32 - 42) 10 6 0 padded (omega arith) (omega arith) (omega arith)

-- -00042
minus_42 : number (2 ^ 32 - 42) 10 6 0 padded ≡ some (45 ∷ 48 ∷ 48 ∷ 48 ∷ 52 ∷ 50 ∷ [])
unfolding number lay_out copies backwards fill_tmp
minus_42 = refl
