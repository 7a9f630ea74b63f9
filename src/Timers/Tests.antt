-- ===== src/Timers/Tests.antt =====
-- kernel/sched.c: a concrete list of two timers.
use my_practice.Base.{◌≡◌, refl, none, some, ◌==◌, arith, List, [], ◌∷◌, if◌then◌else◌}
use my_practice.Timers.{
  Timers, Added, added, time_requests, free_entry, sift, add_timer, expire, tick,
}
use my_practice.Timers.Sift.{Entry, view}
use my_practice.Timers.Due.{IsList}
use my_practice.Timers.Late.{Late, add_timer-Late}
use my_practice.Timers.Expire.{Expired, count_down, tick-Expired}

-- Entry 2 is due after 1 tick and calls 7, entry 0 after 4 more ones and calls 8.
abbrev two_timers : Timers
two_timers = record {
  jiffies = λ i. if i == 2 then 1 else 4;
  fn = λ i. if i == 2 then some 7 else if i == 0 then some 8 else none;
  next = λ i. if i == 2 then some 0 else none;
  next_timer = some 2;
}

two_timers-IsList : IsList two_timers (2 ∷ 0 ∷ [])
two_timers-IsList = record {
  listed = (refl, (refl, refl));
  distinct = (((λ e. omega arith), tt), (tt, tt));
  in_use = ((λ e. cc), ((λ e. cc), tt));
  bound = omega arith;
}

free_two : free_entry time_requests 0 two_timers.fn ≡ some 1
unfolding free_entry
free_two = refl

add_timer-Late_example :
    (t' : Timers) × (add_timer 3 (some 9) two_timers ≡ added t')
    × (t'.next_timer ≡ some 1)
    × Late 3 (some 9) (view two_timers (2 ∷ 0 ∷ [])) (view t' (1 ∷ 2 ∷ 0 ∷ []))
add_timer-Late_example =
    add_timer-Late 3 9 1 (2 ∷ 0 ∷ []) two_timers two_timers-IsList refl free_two

tick-Expired_example : Expired (count_down (view two_timers (2 ∷ 0 ∷ []))) (tick two_timers)
tick-Expired_example = tick-Expired (2 ∷ 0 ∷ []) two_timers two_timers-IsList

abbrev delays : Added → List Entry
delays Added.ignored = []
delays Added.panic = []
delays (Added.called f) = []
delays (Added.added t) = view t (1 ∷ 2 ∷ 0 ∷ [])

-- The timer of 8 was due after 5 ticks and is now due after 7.
late_by_two :
    delays (add_timer 3 (some 9) two_timers) ≡ (1, some 7) ∷ (2, some 9) ∷ (4, some 8) ∷ []
unfolding add_timer free_entry sift
late_by_two = refl

calls_first : (tick two_timers).0 ≡ 7 ∷ []
unfolding tick expire
calls_first = refl
