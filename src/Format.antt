-- ===== src/Format.antt =====
-- kernel/vsprintf.c: the printing of a number.
pub mod Digits
pub mod Parts
pub mod Number
mod Tests
use my_practice.Base.{
  ℕ, zero, suc, ◌+◌, ◌-◌, ◌*◌, ◌/◌, ◌%◌, ◌^◌, Bool, true, false, not, ◌&&◌, ◌||◌, Option, none,
  some, ltb, leb, ◌==◌, if◌then◌else◌, List, [], ◌∷◌, ◌++◌, length,
}

-- The bits ZEROPAD, SIGN, PLUS, SPACE, LEFT, SPECIAL and SMALL
pub record Flags : Type 0 where
  pub zeropad : Bool
  pub sign : Bool
  pub plus : Bool
  pub space : Bool
  pub left : Bool
  pub special : Bool
  pub small : Bool

-- `digits[d]`, for the two strings of 36 characters
abbrev pub digit_char : (small : Bool) → (d : ℕ) → ℕ
digit_char small d = if ltb d 10 then 48 + d else (if small then 87 + d else 55 + d)

-- The loop that fills `tmp`, for a number below 2^32 and with `fuel` rounds
pub fill_tmp : (fuel n base : ℕ) → (small : Bool) → List ℕ
fill_tmp zero n base small = []
fill_tmp (suc fuel) n base small =
    let rest = fill_tmp fuel (n / base) base small in
    if n == 0 then [] else digit_char small (n % base) ∷ rest

-- `tmp` in the order in which it is filled
abbrev pub tmp_of : (n base : ℕ) → (small : Bool) → List ℕ
tmp_of n base small = if n == 0 then 48 ∷ [] else fill_tmp 32 n base small

pub copies : (n c : ℕ) → List ℕ
copies zero c = []
copies (suc n) c = c ∷ copies n c

-- `while(i-->0) *str++ = tmp[i];`
pub backwards : List ℕ → List ℕ → List ℕ
backwards [] out = out
backwards (c ∷ cs) out = backwards cs (c ∷ out)

-- `num`, an int of 32 bits, is negative.
abbrev pub is_negative : Flags → ℕ → Bool
is_negative f num = f.sign && leb (2 ^ 31) num

abbrev pub magnitude : Flags → (num : ℕ) → ℕ
magnitude f num = if is_negative f num then 2 ^ 32 - num else num

-- The sign, as the characters that it gives
abbrev pub sign_of : Flags → (num : ℕ) → List ℕ
sign_of f num =
    if is_negative f num
    then 45 ∷ []
    else if f.plus
    then 43 ∷ []
    else (if f.space then 32 ∷ [] else [])

abbrev pub prefix_of : Flags → (base : ℕ) → List ℕ
prefix_of f base =
    if f.special
    then (if base == 8 then 48 ∷ [] else if base == 16 then 48 ∷ digit_char f.small 33 ∷ [] else [])
    else []

abbrev pub max : ℕ → ℕ → ℕ
max a b = if ltb b a then a else b

-- `size` after it was lowered by the sign, the prefix and the digits
abbrev pub pad_of : (num base size precision : ℕ) → Flags → ℕ
pad_of num base size precision f =
    size
    - length (sign_of f num)
    - length (prefix_of f base)
    - max (length (tmp_of (magnitude f num) base f.small)) precision

-- The loops that write to `str`, where `zero_pad` and `left` are the bits ZEROPAD and LEFT
pub lay_out : (zero_pad left : Bool) → (pad ahead : ℕ) → (sign prefix tmp : List ℕ) → List ℕ
lay_out zero_pad left pad ahead sign prefix tmp =
    (if not zero_pad && not left then copies pad 32 else [])
    ++ sign
    ++ prefix
    ++ (if zero_pad then copies pad 48 else [])
    ++ copies ahead 48
    ++ backwards tmp []
    ++ (if left then copies pad 32 else [])

-- `number`: the characters, or none for NULL. A `size` or `precision` below 0 acts as 0: `size` is
-- only lowered and compared with 0, and `precision` is at least the count of digits. LEFT clears
-- ZEROPAD.
pub number : (num base size precision : ℕ) → Flags → Option (List ℕ)
number num base size precision f =
    let tmp : List ℕ = tmp_of (magnitude f num) base f.small in
    if ltb base 2 || ltb 36 base
    then none
    else some (
        lay_out (f.zeropad && not f.left) f.left (pad_of num base size precision f)
          (max (length tmp) precision - length tmp) (sign_of f num) (prefix_of f base) tmp)
