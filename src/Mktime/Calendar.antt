-- ===== src/Mktime/Calendar.antt =====
-- kernel/mktime.c against a calendar that counts years and months one by one.
use my_practice.Base.{
  ℕ, zero, suc, ◌+◌, ◌-◌, ◌*◌, ◌/◌, ◌%◌, ◌≤◌, ◌<◌, ◌^◌, ◌≡◌, refl, ap, ◌∙◌, Bool, true, false, ◌&&◌,
  ◌||◌, not, arith, ltb, leb, leb→le, ◌==◌, if◌then◌else◌, get_or, if_true, passes_below,
  passes_below-at, ==→eq,
}
use my_practice.Base.Int.{pos, sub_ℕ-pos, +ℤ-pos, -ℤ-pos, scale-pos, quot-pos, has_rem-pos}
use my_practice.Mktime.{
  Tm, minute, hour, day, month, add_month, seconds, signed, as_long, kernel_mktime,
}

-- the Gregorian rule
abbrev pub is_leap : ℕ → Bool
is_leap y = y % 4 == 0 && (not (y % 100 == 0) || y % 400 == 0)

-- the days of the first `n` years from 1970 on
pub year_days : ℕ → ℕ
year_days zero = 0
year_days (suc n) = year_days n + (if is_leap (1970 + n) then 366 else 365)

abbrev pub month_length : Bool → ℕ → ℕ
month_length leap m =
    if m == 1
    then (if leap then 29 else 28)
    else (if (m == 3 || m == 5) || (m == 8 || m == 10) then 30 else 31)

-- the days of the first `m` months of a year
pub month_days : Bool → ℕ → ℕ
month_days leap zero = 0
month_days leap (suc m) = month_days leap m + month_length leap m

-- the days between 1 January 1970 and a date
pub date_days : Tm → ℕ
date_days tm =
    year_days (tm.year - 70) + month_days (is_leap (1900 + tm.year)) tm.mon + (tm.mday - 1)

-- 2100 is the first year that a count by fours gets wrong.
year_days_closed : (n : ℕ) → n ≤ 130 → year_days n ≡ 365 * n + (n + 1) / 4
unfolding year_days
year_days_closed zero h = refl
year_days_closed (suc n) h = ground (arith, year_days_closed n)

month_table_all : passes_below (λ m. get_or month m 0 == day * month_days true m) 12 ≡ true
unfolding month_days passes_below
month_table_all = refl

month_table : (m : ℕ) → m < 12 → get_or month m 0 ≡ day * month_days true m
month_table m h =
    ==→eq _ _
      (passes_below-at (λ m. get_or month m 0 == day * month_days true m) 12 m month_table_all h)

abbrev shift_test : ℕ → Bool
shift_test m = month_days true m == month_days false m + (if ltb 1 m then 1 else 0)

month_shift_all : passes_below shift_test 12 ≡ true
unfolding month_days passes_below
month_shift_all = refl

month_shift : (m : ℕ) → m < 12 → month_days true m ≡ month_days false m + (if ltb 1 m then 1 else 0)
month_shift m h = ==→eq _ _ (passes_below-at shift_test 12 m month_shift_all h)

-- The year 1970 + n is a leap year exactly when four divides n + 2.
leap_rem : (n : ℕ) → n ≤ 129 → is_leap (1970 + n) ≡ ((n + 2) % 4 == 0)
leap_rem n h = ground arith

add_month-days :
    (m n r : ℕ)
    → m < 12
    → n ≤ 129
    → add_month m (pos n) (pos r) ≡ pos (r + day * month_days (is_leap (1970 + n)) m)
unfolding add_month
add_month-days m n r hm hn =
    rw (leap_rem n hn, +ℤ-pos, +ℤ-pos, has_rem-pos)
      (ground (arith, month_table m hm, month_shift m hm, -ℤ-pos (r + get_or month m 0) day))

-- From 1970 to 2099 the sum is the seconds that the calendar puts between 1 January 1970 and the
-- given time.
seconds-date_days :
    (tm : Tm)
    → 70 ≤ tm.year
    → tm.year ≤ 199
    → tm.mon < 12
    → 1 ≤ tm.mday
    → seconds tm ≡ pos (day * date_days tm + hour * tm.hour + minute * tm.min + tm.sec)
unfolding seconds date_days
seconds-date_days tm lo hi hm hd =
    simp
      (
        sub_ℕ-pos tm.year 70 lo,
        sub_ℕ-pos tm.mday 1 hd,
        scale-pos,
        quot-pos,
        +ℤ-pos,
        add_month-days tm.mon (tm.year - 70) _ hm (omega arith),
      )
      (rw same_year (ap pos (omega (arith, year_days_closed (tm.year - 70) (omega arith)))))
  where
    same_year : 1970 + (tm.year - 70) ≡ 1900 + tm.year
    same_year = omega arith

abbrev le_test : Bool → ℕ → Bool
le_test leap m = leb (month_days leap m) 335

month_le_all : (leap : Bool) → passes_below (le_test leap) 12 ≡ true
unfolding month_days passes_below
month_le_all true = refl
month_le_all false = refl

month_days_le : (leap : Bool) (m : ℕ) → m < 12 → month_days leap m ≤ 335
month_days_le leap m h = leb→le _ _ (passes_below-at (le_test leap) 12 m (month_le_all leap) h)

as_long-pos : (n : ℕ) → n < 2 ^ 31 → as_long (pos n) ≡ pos n
unfolding as_long
as_long-pos n h =
    let small : n % 2 ^ 32 ≡ n = omega arith in
    let low : ltb n (2 ^ 31) ≡ true = ground arith in ap signed small ∙ if_true _ _ low

-- From 1970 to 2037, with each field in its calendar range, `kernel_mktime` returns the seconds that
-- the Gregorian calendar, counted year by year and month by month, puts between 1 January 1970 and
-- the given time: the 32-bit `long` does not overflow.
pub kernel_mktime-date_days :
    (tm : Tm)
    → 70 ≤ tm.year
    → tm.year ≤ 137
    → tm.mon < 12
    → 1 ≤ tm.mday
    → tm.mday ≤ 31
    → tm.hour < 24
    → tm.min < 60
    → tm.sec < 60
    → kernel_mktime tm ≡ pos (day * date_days tm + hour * tm.hour + minute * tm.min + tm.sec)
unfolding kernel_mktime date_days
kernel_mktime-date_days tm lo hi hm d1 d2 hh hmin hs =
    ap as_long (seconds-date_days tm lo (omega arith) hm d1)
    ∙ as_long-pos (day * date_days tm + hour * tm.hour + minute * tm.min + tm.sec) (
        omega (
          arith,
          year_days_closed (tm.year - 70) (omega arith),
          month_days_le (is_leap (1900 + tm.year)) tm.mon hm,
        ))
