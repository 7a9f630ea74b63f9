-- ===== src/Mktime/Tests.antt =====
-- Runs of kernel/mktime.c, and its theorems at a leap day.
use my_practice.Base.{◌+◌, ◌*◌, ◌≡◌, refl, arith}
use my_practice.Base.Int.{pos, negsuc, ◌+ℤ◌, ◌-ℤ◌, scale, quot, has_rem}
use my_practice.Mktime.{Tm, minute, hour, day, add_month, seconds, as_long, kernel_mktime}
use my_practice.Mktime.Calendar.{date_days, kernel_mktime-date_days}

-- 29 February 1992, 12:34:56
abbrev leap_day : Tm
leap_day = record { sec = 56; min = 34; hour = 12; mday = 29; mon = 1; year = 92 }

kernel_mktime-leap_day : kernel_mktime leap_day ≡ pos 699366896
unfolding kernel_mktime as_long seconds add_month ◌+ℤ◌ ◌-ℤ◌ scale quot has_rem
kernel_mktime-leap_day = refl

-- A clock that says 05 for 2005 counts as 1905.
kernel_mktime_two_digits :
    kernel_mktime (record { sec = 0; min = 0; hour = 0; mday = 1; mon = 0; year = 5 })
    ≡ negsuc 2051222399
unfolding kernel_mktime as_long seconds add_month ◌+ℤ◌ ◌-ℤ◌ scale quot has_rem
kernel_mktime_two_digits = refl

kernel_mktime-date_days_example :
    kernel_mktime leap_day ≡ pos (day * date_days leap_day + hour * 12 + minute * 34 + 56)
kernel_mktime-date_days_example =
    kernel_mktime-date_days leap_day (omega arith) (omega arith) (omega arith) (omega arith)
      (omega arith) (omega arith) (omega arith) (omega arith)

-- The first second that a `long` does not hold counts as 1901.
kernel_mktime_2038 :
    kernel_mktime (record { sec = 8; min = 14; hour = 3; mday = 19; mon = 0; year = 138 })
    ≡ negsuc 2147483647
unfolding kernel_mktime as_long seconds add_month ◌+ℤ◌ ◌-ℤ◌ scale quot has_rem
kernel_mktime_2038 = refl
