-- ===== src/Mktime.antt =====
-- kernel/mktime.c: the seconds since 1970 of a broken-down time.
mod Calendar
mod Tests
use my_practice.Base.{
  ℕ, ◌+◌, ◌-◌, ◌*◌, ◌%◌, ◌^◌, List, [], ◌∷◌, Bool, ltb, ◌&&◌, if◌then◌else◌, get_or,
}
use my_practice.Base.Int.{ℤ, pos, negsuc, sub_ℕ, ◌+ℤ◌, ◌-ℤ◌, scale, quot, has_rem}

-- `struct tm`, without the fields that the code does not read. The fields are never negative here.
pub record Tm : Type 0 where
  pub sec : ℕ
  pub min : ℕ
  pub hour : ℕ
  pub mday : ℕ
  pub mon : ℕ
  pub year : ℕ

abbrev pub minute : ℕ
minute = 60

abbrev pub hour : ℕ
hour = 60 * minute

abbrev pub day : ℕ
day = 24 * hour

abbrev pub year : ℕ
year = 365 * day

-- seconds before each month of a leap year
abbrev pub month : List ℕ
month =
    0
    ∷ (day * 31)
    ∷ (day * (31 + 29))
    ∷ (day * (31 + 29 + 31))
    ∷ (day * (31 + 29 + 31 + 30))
    ∷ (day * (31 + 29 + 31 + 30 + 31))
    ∷ (day * (31 + 29 + 31 + 30 + 31 + 30))
    ∷ (day * (31 + 29 + 31 + 30 + 31 + 30 + 31))
    ∷ (day * (31 + 29 + 31 + 30 + 31 + 30 + 31 + 31))
    ∷ (day * (31 + 29 + 31 + 30 + 31 + 30 + 31 + 31 + 30))
    ∷ (day * (31 + 29 + 31 + 30 + 31 + 30 + 31 + 31 + 30 + 31))
    ∷ (day * (31 + 29 + 31 + 30 + 31 + 30 + 31 + 31 + 30 + 31 + 30))
    ∷ []

-- `res += month[tm_mon]`, and a day less after February of a year that is no leap year. An index
-- behind the table, which C leaves undefined, reads 0.
pub add_month : ℕ → ℤ → ℤ → ℤ
add_month mon y res =
    let r = res +ℤ pos (get_or month mon 0) in
    if ltb 1 mon && has_rem (y +ℤ pos 2) 4 then r -ℤ pos day else r

-- The sum that is built up in `res`. Every step of it is modulo 2^32, so that the wrap-around can be
-- taken at the end.
unfoldable pub seconds : Tm → ℤ
seconds tm =
    let y = sub_ℕ tm.year 70 in
    let res = scale year y +ℤ scale day (quot (y +ℤ pos 1) 4) in
    add_month tm.mon y res
    +ℤ scale day (sub_ℕ tm.mday 1)
    +ℤ pos (hour * tm.hour)
    +ℤ pos (minute * tm.min)
    +ℤ pos tm.sec

-- The `long` of 32 bits in two's complement
abbrev pub signed : (r : ℕ) → ℤ
signed r = if ltb r (2 ^ 31) then pos r else negsuc (2 ^ 32 - 1 - r)

-- An integer in a `long`
pub as_long : ℤ → ℤ
as_long (pos n) = signed (n % 2 ^ 32)
as_long (negsuc n) = signed (2 ^ 32 - 1 - n % 2 ^ 32)

pub kernel_mktime : Tm → ℤ
kernel_mktime tm = as_long (seconds tm)
