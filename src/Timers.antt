-- ===== src/Timers.antt =====
-- kernel/sched.c: the timers that the clock interrupt counts down.
pub mod Sift
pub mod Due
pub mod Late
pub mod Expire
mod Tests
use my_practice.Base.{
  ℕ, zero, suc, ◌+◌, ◌-◌, Bool, true, false, Option, none, some, ltb, leb, ◌==◌, if◌then◌else◌,
  update, List, [], ◌∷◌,
}

-- TIME_REQUESTS
abbrev pub time_requests : ℕ
time_requests = 64

-- `timer_list` by its fields, and `next_timer`. A function is named by a number.
pub record Timers : Type 0 where
  pub jiffies : ℕ → ℕ
  pub fn : ℕ → Option ℕ
  pub next : ℕ → Option ℕ
  pub next_timer : Option ℕ

-- The first free entry from `p` on, of `n`
pub free_entry : (n p : ℕ) → (ℕ → Option ℕ) → Option ℕ
free_entry zero p fn = none
free_entry (suc n) p fn =
    let rest = free_entry n (p + 1) fn in elim (fn p) [ none ↦ some p | some f ↦ rest ]

-- The body of the last loop of `add_timer`, for the entry `p` before `q`
abbrev pub swap : (p q : ℕ) → Timers → Timers
swap p q t = record t {
  jiffies = update (update t.jiffies p (t.jiffies q)) q (t.jiffies p - t.jiffies q);
  fn = update (update t.fn p (t.fn q)) q (t.fn p);
}

-- The loop, with `fuel` rounds
pub sift : (fuel p : ℕ) → Timers → Timers
sift zero p t = t
sift (suc fuel) p t = elim (t.next p) [
  | none ↦ t
  | some q ↦
      let rest = sift fuel q (swap p q t) in if ltb (t.jiffies q) (t.jiffies p) then rest else t
]

-- The new entry at the front of the list
abbrev pub push : (p jiffies f : ℕ) → Timers → Timers
push p jiffies f t = record {
  jiffies = update t.jiffies p jiffies;
  fn = update t.fn p (some f);
  next = update t.next p t.next_timer;
  next_timer = some p;
}

-- What `add_timer` does: it calls the function at once, or adds a timer, or has no entry left.
pub data Added : Type 0 where
  ignored panic : Added
  called : ℕ → Added
  added : Timers → Added

-- A delay that is not positive is 0.
pub add_timer : (jiffies : ℕ) → Option ℕ → Timers → Added
add_timer jiffies none t = ignored
add_timer jiffies (some f) t =
    if jiffies == 0 then called f else elim (free_entry time_requests 0 t.fn) [
      | none ↦ panic
      | some p ↦ added (sift time_requests p (push p jiffies f t))
    ]

-- A call of a timer's function, in front of those after it
abbrev pub fire : Option ℕ → List ℕ → List ℕ
fire none fs = fs
fire (some f) fs = f ∷ fs

-- The loop's test for the first entry `p`, and its body, where `rest` is what the rounds after it do
abbrev pub front : (p : ℕ) → (rest : List ℕ × Timers) → Timers → List ℕ × Timers
front p rest t = if t.jiffies p == 0 then (fire (t.fn p) rest.0, rest.1) else ([], t)

-- The loop of `do_timer`: the functions of the timers that have run down, in order, with what they
-- leave. What the functions do to the timers is not part of it.
pub expire : (fuel : ℕ) → Timers → List ℕ × Timers
expire zero t = ([], t)
expire (suc fuel) t = elim t.next_timer [
  | none ↦ ([], t)
  | some p ↦ front p (expire fuel (record t { fn = update t.fn p none; next_timer = t.next p })) t
]

-- The part of `do_timer` that is about the list
pub tick : Timers → List ℕ × Timers
tick t = elim t.next_timer [
  | none ↦ ([], t)
  | some p ↦ expire time_requests (record t { jiffies = update t.jiffies p (t.jiffies p - 1) })
]
