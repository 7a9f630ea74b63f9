-- ===== src/Sem.antt =====
-- kernel/sem.c: named counting semaphores. Here the table of semaphores, and the calls that look it up by name.
pub mod Names
pub mod Open
pub mod Roundtrip
pub mod Wait
mod Tests
use my_practice.Base.{
  ℕ, zero, suc, ◌+◌, ◌-◌, ◌/◌, ◌%◌, ◌^◌, Bool, true, false, not, ◌&&◌, ◌||◌, Option, none, some,
  List, [], ◌∷◌, ltb, ◌==◌, if◌then◌else◌, update,
}
use my_practice.Base.Int.{ℤ, pos, negsuc}

abbrev pub sem_num : ℕ
sem_num = 64

-- A name is the C string that its 20 bytes hold. A task stands for its `task_struct`.
pub record StructSem : Type 0 where
  pub sem : ℕ
  pub name : List ℕ
  pub value : ℕ
  pub wait : Option ℕ
  pub cont : ℕ

abbrev pub Table : Type 0
Table = ℕ → StructSem

abbrev pub empty : StructSem
empty = record { sem = 0; name = []; value = 0; wait = none; cont = 0 }

-- `sys_inisem`
pub inisem : Table → Table
inisem t i = if ltb i sem_num then empty else t i

-- The copy of a name from user space: `n` bytes from the `i`th on, up to the first 0. The byte that
-- would be the 20th is replaced by 0, so a longer name is cut.
pub copy_name : (n i : ℕ) → (ℕ → ℕ) → List ℕ
copy_name zero i name = []
copy_name (suc n) i name =
    let rest = name i ∷ copy_name n (suc i) name in if name i == 0 then [] else rest

abbrev pub kername : (ℕ → ℕ) → List ℕ
kername = copy_name 19 0

-- `strncmp` is 0 on two strings that both end within their 20 bytes.
pub same_name : List ℕ → List ℕ → Bool
same_name [] [] = true
same_name [] (y ∷ ys) = false
same_name (x ∷ xs) [] = false
same_name (x ∷ xs) (y ∷ ys) = x == y && same_name xs ys

-- `oflag & O_CREAT` and `oflag & O_EXCL`
abbrev pub o_creat : ℕ → Bool
o_creat oflag = oflag / 64 % 2 == 1

abbrev pub o_excl : ℕ → Bool
o_excl oflag = oflag / 128 % 2 == 1

-- `if (semarray[i].sem == 0 && inull < 0) inull = i;`
pub note_null : Option ℕ → (sem i : ℕ) → Option ℕ
note_null (some k) sem i = some k
note_null none sem i = if sem == 0 then some i else none

-- The search of `sys_sem_open`, `n` entries from `i` on: the entry with the name, or 64; and
-- `inull`, the first free entry seen before it.
pub open_scan : (n i : ℕ) → Option ℕ → Table → List ℕ → ℕ × Option ℕ
open_scan zero i inull t name = (i, inull)
open_scan (suc n) i inull t name =
    let rest = open_scan n (suc i) (note_null inull (t i).sem i) t name in
    if same_name name (t i).name then (i, inull) else rest

-- `semarray[i].cont++`
abbrev pub count_up : ℕ → Table → Table
count_up i t = update t i (record (t i) { cont = ((t i).cont + 1) % 2 ^ 32 })

-- The entry of a new semaphore.
abbrev pub fresh : (i : ℕ) → List ℕ → ℕ → StructSem
fresh i name value = record { sem = i + 1; name = name; value = value; wait = none; cont = 1 }

-- `sys_sem_open` behind the search. The result is the entry to whose `sem` a pointer is returned, or
-- none for SEM_FAILED.
pub open_at : (creat excl : Bool) → (value : ℕ) → List ℕ → ℕ × Option ℕ → Table → Option ℕ × Table
open_at creat excl value name (i, inull) t =
    if creat && not (ltb i sem_num)
    then elim inull [ none ↦ (none, t) | some k ↦ (some k, update t k (fresh k name value)) ]
    else (if ltb i sem_num && (creat && excl)
        then (none, t)
        else (if ltb i sem_num then (some i, count_up i t) else (none, t)))

pub sem_open : Option (ℕ → ℕ) → (oflag value : ℕ) → Table → Option ℕ × Table
sem_open none oflag value t = (none, t)
sem_open (some name) oflag value t =
    open_at (o_creat oflag) (o_excl oflag) value (kername name)
      (open_scan sem_num 0 none t (kername name)) t

-- The search of `sys_sem_unlink`.
pub find_name : (n i : ℕ) → Table → List ℕ → ℕ
find_name zero i t name = i
find_name (suc n) i t name =
    let rest = find_name n (suc i) t name in if same_name name (t i).name then i else rest

-- `--semarray[i].cont`, an unsigned number, and the end of a semaphore whose count becomes 0.
pub drop_at : ℕ → Table → Table
drop_at i t =
    let left = ((t i).cont + 2 ^ 32 - 1) % 2 ^ 32 in
    update t i (if left == 0 then empty else record (t i) { cont = left })

pub sem_unlink : Option (ℕ → ℕ) → Table → ℤ × Table
sem_unlink none t = (negsuc 0, t)
sem_unlink (some name) t =
    let i = find_name sem_num 0 t (kername name) in
    if ltb i sem_num then (pos 0, drop_at i t) else (negsuc 0, t)
