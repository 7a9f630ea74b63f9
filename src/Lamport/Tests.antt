-- ===== src/Lamport/Tests.antt =====
-- Runs of include/linux/lamport.h, and its theorems at small tables.
use my_practice.Base.{
  ℕ, ◌+◌, ◌≤◌, ◌<◌, ◌≡◌, refl, inr, false, none, some, arith, ◌==◌, if◌then◌else◌,
}
use my_practice.Lamport.{Lamport, nr_tasks, find_task, enter, lock, unlock}
use my_practice.Lamport.Lock.{IsQuiet, lock-unlock, lock-full}

abbrev quiet : Lamport
quiet = record { pid = λ _. 0; choosing = λ _. false; num = λ _. 0 }

quiet-IsQuiet : IsQuiet quiet
quiet-IsQuiet = record { no_num = λ k. refl; no_choice = λ k. refl }

lock-unlock_example :
    (i : ℕ) × (l' : Lamport) × (lock 7 quiet ≡ some l')
    × (l'.pid i ≡ 7)
    × ((k : ℕ) → l'.num k ≡ (if i == k then 1 else 0))
    × IsQuiet (unlock 7 l')
lock-unlock_example = lock-unlock 7 quiet quiet-IsQuiet (5, omega arith, omega arith, inr refl)

-- Entry i belongs to task i + 100.
abbrev crowded : Lamport
crowded = record quiet { pid = λ i. i + 100 }

lock-full_example :
    (l' : Lamport) × (lock 7 crowded ≡ some l')
    × (unlock 7 l' ≡ l')
    × ((p2 k : ℕ) → 1 ≤ k → k < nr_tasks → crowded.pid k ≡ p2 → lock p2 l' ≡ none)
lock-full_example =
    lock-full 7 crowded (record { no_num = λ k. refl; no_choice = λ k. refl })
      (record { others = λ j lo hi e. omega arith; taken = λ j lo hi e. omega arith })

-- The last free entry is taken.
enter-quiet : (enter 7 quiet).0 ≡ 63
unfolding enter find_task
enter-quiet = refl
