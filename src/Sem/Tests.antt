-- ===== src/Sem/Tests.antt =====
-- Runs of kernel/sem.c, and its theorems at small tables.
use my_practice.Base.{
  ℕ, ◌+◌, ◌<◌, ◌^◌, ◌≡◌, refl, ◌≢◌, true, false, some, List, [], ◌∷◌, arith, ◌==◌, if◌then◌else◌,
  get_or,
}
use my_practice.Base.Int.{pos}
use my_practice.Sem.{
  Table, sem_num, empty, inisem, copy_name, kername, same_name, note_null, open_scan, count_up,
  open_at, sem_open, sem_unlink,
}
use my_practice.Sem.Names.{IsValid, Missing, inisem-IsValid}
use my_practice.Sem.Open.{Opened, sem_open-Opened, sem_open-IsValid}
use my_practice.Sem.Roundtrip.{sem_unlink-sem_open, sem_open-empty}

abbrev text : List ℕ → ℕ → ℕ
text bytes i = get_or bytes i 0

-- "ab"
abbrev ab : ℕ → ℕ
ab = text (97 ∷ 98 ∷ [])

-- O_CREAT
abbrev creat : ℕ
creat = 64

abbrev blank : Table
blank = inisem (λ _. empty)

blank-IsValid : IsValid blank
blank-IsValid = inisem-IsValid (λ _. empty)

blank-at : (i : ℕ) → blank i ≡ empty
unfolding inisem
blank-at i = ground arith

kername-ab : kername ab ≡ 97 ∷ 98 ∷ []
unfolding copy_name
kername-ab = refl

kername-ab_ne : kername ab ≢ []
unfolding copy_name
kername-ab_ne e = cc

no_ab : Missing blank (kername ab) 0 sem_num
unfolding copy_name
no_ab j lo hi e = ground (arith, blank-at j)

-- A name of 20 bytes is cut to 19.
kername_cut : kername (λ i. if i == 20 then 0 else 97) ≡ kername (λ i. if i == 19 then 0 else 97)
unfolding copy_name
kername_cut = refl

opened_slot : (sem_open (some ab) creat 3 blank).0 ≡ some 0
unfolding sem_open open_at open_scan note_null same_name copy_name inisem
opened_slot = refl

sem_open-Opened_example : Opened blank (kername ab) true false 3 (sem_open (some ab) creat 3 blank)
sem_open-Opened_example = sem_open-Opened ab creat 3 blank blank-IsValid kername-ab_ne

few_opens : (k : ℕ) → (blank k).cont + 1 < 2 ^ 32
few_opens k = ground (arith, blank-at k)

sem_open-IsValid_example : IsValid (sem_open (some ab) creat 3 blank).1
sem_open-IsValid_example = sem_open-IsValid ab creat 3 blank blank-IsValid kername-ab_ne few_opens

-- The table with one semaphore of value 3.
abbrev one : Table
one = (sem_open (some ab) creat 3 blank).1

sem_unlink-sem_open_example :
    (t2 : Table) × (sem_unlink (some ab) one ≡ (pos 0, t2)) × ((j : ℕ) → t2 j ≡ blank j)
unfolding sem_open open_at open_scan note_null same_name copy_name inisem
sem_unlink-sem_open_example =
    sem_unlink-sem_open ab creat 3 blank blank-IsValid kername-ab_ne no_ab 0 one refl

sem_open-empty_example :
    (k : ℕ) × (sem_open (some (text [])) 0 3 blank ≡ (some k, count_up k blank))
    × ((blank k).sem ≡ 0)
unfolding copy_name inisem
sem_open-empty_example =
    sem_open-empty (text []) 0 3 blank blank-IsValid refl refl 5 (omega arith) refl
