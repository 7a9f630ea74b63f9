-- ===== src/Sem/Names.antt =====
-- kernel/sem.c: `sys_sem_open` and `sys_sem_unlink` against a map from names to semaphores.
use mathlib.Core.Path.{subst}
use mathlib.Core.Bool.{false≢true}
use native.Mathlib.Decide.{ℕ_discrete}
use my_practice.Base.{
  ℕ, zero, suc, ◌+◌, ◌^◌, ◌≤◌, ◌<◌, ◌≡◌, refl, sym, ap, ◌∙◌, ◌≢◌, ◌⊎◌, inl, inr, true, false,
  lt→ltb, Option, none, some, List, [], ◌∷◌, arith, ◌==◌, update, update_ne, Bool-cases,
}
use my_practice.Sem.{
  StructSem, Table, sem_num, empty, inisem, same_name, note_null, open_scan, find_name,
}

pub same_name→eq : (xs ys : List ℕ) → same_name xs ys ≡ true → xs ≡ ys
unfolding same_name
same_name→eq [] [] h = refl
same_name→eq [] (y ∷ ys) h = cc
same_name→eq (x ∷ xs) [] h = cc
same_name→eq (x ∷ xs) (y ∷ ys) h = ground (arith, same_name→eq xs ys)

pub same_name_refl : (xs : List ℕ) → same_name xs xs ≡ true
unfolding same_name
same_name_refl [] = refl
same_name_refl (x ∷ xs) = ground (arith, same_name_refl xs)

-- An entry is cleared and free, or it is in use under a name, with its number, one more than its
-- index, in `sem`.
pub record EntryIsValid (i : ℕ) (s : StructSem) : Type 0 where
  pub free : s.sem ≡ 0 → s ≡ empty
  pub number : s.sem ≢ 0 → s.sem ≡ i + 1
  pub named : s.sem ≢ 0 → s.name ≢ []
  pub counted : s.sem ≢ 0 → (0 < s.cont) × (s.cont < 2 ^ 32)

-- Two semaphores have different names.
pub record IsValid (t : Table) : Type 0 where
  pub entry : (i : ℕ) → i < sem_num → EntryIsValid i (t i)
  pub distinct :
      (i j : ℕ)
      → i < sem_num
      → j < sem_num
      → (t i).sem ≢ 0
      → (t j).sem ≢ 0
      → (t i).name ≡ (t j).name
      → i ≡ j

pub empty-EntryIsValid : (i : ℕ) → EntryIsValid i empty
empty-EntryIsValid i = record {
  free = λ z. refl;
  number = λ nz. absurd (nz refl);
  named = λ nz. absurd (nz refl);
  counted = λ nz. absurd (nz refl);
}

inisem_at : (t : Table) (i : ℕ) → i < sem_num → inisem t i ≡ empty
unfolding inisem
inisem_at t i lt = rw (lt→ltb i sem_num lt) refl

pub inisem-IsValid : (t : Table) → IsValid (inisem t)
inisem-IsValid t = record {
  entry = λ i lt. subst (EntryIsValid i) (sym (cleared i lt)) (empty-EntryIsValid i);
  distinct = λ i j lt lt' nz. absurd (nz (ap (λ (s : StructSem). s.sem) (cleared i lt)));
}
  where
    cleared : (i : ℕ) → i < sem_num → inisem t i ≡ empty
    cleared i lt = inisem_at t i lt

-- A table stays valid when an entry is replaced by a valid one with a name that no other has.
pub update-IsValid :
    {t : Table} {k : ℕ} {s : StructSem}
    → IsValid t
    → EntryIsValid k s
    → ((j : ℕ) → j < sem_num → k ≢ j → s.sem ≢ 0 → (t j).sem ≢ 0 → (t j).name ≢ s.name)
    → IsValid (update t k s)
update-IsValid {t} {k} {s} v ok clash = record {
  entry = λ i lt. elim (ℕ_discrete k i) [
    | yes e ↦ subst (EntryIsValid i) (sym (at_self i e)) (subst (λ n. EntryIsValid n s) e ok)
    | no ne ↦ subst (EntryIsValid i) (sym (update_ne t k s i ne)) (v.entry i lt)
  ];
  distinct = λ i j hi hj ui uj e. elim (ℕ_discrete k i) [
    | yes ei ↦ elim (ℕ_discrete k j) [
      | yes ej ↦ sym ei ∙ ej
      | no nj ↦ absurd (
          clash j hj nj (rw (at_self i ei) at ui) (rw (update_ne t k s j nj) at uj)
            (sym (rw (at_self i ei, update_ne t k s j nj) at e)))
    ]
    | no ni ↦ elim (ℕ_discrete k j) [
      | yes ej ↦ absurd (
          clash i hi ni (rw (at_self j ej) at uj) (rw (update_ne t k s i ni) at ui)
            (rw (at_self j ej, update_ne t k s i ni) at e))
      | no nj ↦
          v.distinct i j hi hj (rw (update_ne t k s i ni) at ui) (rw (update_ne t k s j nj) at uj)
            (rw (update_ne t k s i ni, update_ne t k s j nj) at e)
    ]
  ];
}
  where
    at_self : (i : ℕ) → k ≡ i → update t k s i ≡ s
    at_self i e = ground arith

-- The searches.
pub open_scan-find_name :
    (n i : ℕ) (z : Option ℕ) (t : Table) (name : List ℕ)
    → (open_scan n i z t name).0 ≡ find_name n i t name
unfolding open_scan find_name
open_scan-find_name zero i z t name = refl
open_scan-find_name (suc n) i z t name =
    ground (arith, open_scan-find_name n (suc i) (note_null z (t i).sem i) t name)

abbrev pub Missing : Table → List ℕ → ℕ → ℕ → Type 0
Missing t name i e = (j : ℕ) → i ≤ j → j < e → (t j).name ≢ name

abbrev pub Named : Table → List ℕ → ℕ → ℕ → ℕ → Type 0
Named t name i e k = (i ≤ k) × (k < e) × ((t k).name ≡ name)

-- A search finds an entry of the name, or ends at 64 if there is none.
pub find_name-cases :
    (n i e : ℕ) (t : Table) (name : List ℕ)
    → i + n ≡ e
    → Named t name i e (find_name n i t name) ⊎ ((find_name n i t name ≡ e) × Missing t name i e)
unfolding find_name
find_name-cases zero i e t name q = inr (omega arith, λ j lo hi. absurd (omega arith))
find_name-cases (suc n) i e t name q = elim (Bool-cases (same_name name (t i).name)) [
  | inl here ↦
      inl (rw here (omega arith), rw here (omega arith), rw here (sym (same_name→eq _ _ here)))
  | inr other ↦ rw other (elim (find_name-cases n (suc i) e t name (omega arith)) [
    | inl f ↦ inl (omega (arith, f.0), f.1, f.2)
    | inr (ends, missing) ↦ inr (
      ends,
      λ j lo hi q. elim (ℕ_discrete i j) [
        | yes same ↦ absurd (
            false≢true (
              sym other
              ∙ ap (same_name name) (ap (λ k. (t k).name) same ∙ q)
              ∙ same_name_refl name))
        | no later ↦ missing j (omega arith) hi q
      ],
    )
  ])
]

pub find_name-Missing :
    (t : Table) (name : List ℕ) → Missing t name 0 sem_num → find_name sem_num 0 t name ≡ sem_num
find_name-Missing t name missing = elim (find_name-cases sem_num 0 sem_num t name refl) [
  | inl f ↦ absurd (missing _ f.0 f.1 f.2)
  | inr (ends, _) ↦ ends
]

-- In a valid table a name that is not empty belongs to one entry, which the search finds.
pub find_name-used :
    (t : Table) (name : List ℕ) (k : ℕ)
    → IsValid t
    → name ≢ []
    → k < sem_num
    → (t k).name ≡ name
    → find_name sem_num 0 t name ≡ k
find_name-used t name k v ne lt own = elim (find_name-cases sem_num 0 sem_num t name refl) [
  | inl f ↦ v.distinct _ k f.1 lt (in_use _ f.1 f.2) (in_use k lt own) (f.2 ∙ sym own)
  | inr (_, missing) ↦ absurd (missing k (omega arith) lt own)
]
  where
    in_use : (i : ℕ) → i < sem_num → (t i).name ≡ name → (t i).sem ≢ 0
    in_use i lt e z = ne (sym e ∙ ap (λ (s : StructSem). s.name) ((v.entry i lt).free z))

abbrev pub Full : Table → ℕ → ℕ → Type 0
Full t i e = (j : ℕ) → i ≤ j → j < e → (t j).sem ≢ 0

open_scan-kept :
    (n i k : ℕ) (t : Table) (name : List ℕ) → (open_scan n i (some k) t name).1 ≡ some k
unfolding open_scan note_null
open_scan-kept zero i k t name = refl
open_scan-kept (suc n) i k t name = ground (arith, open_scan-kept n (suc i) k t name)

-- The free entry that `sys_sem_open` notes where the name is missing.
pub open_scan-null :
    (n i e : ℕ) (t : Table) (name : List ℕ)
    → i + n ≡ e
    → Missing t name i e
    → ((k : ℕ) × ((open_scan n i none t name).1 ≡ some k) × (i ≤ k) × (k < e) × ((t k).sem ≡ 0))
      ⊎ (((open_scan n i none t name).1 ≡ none) × Full t i e)
unfolding open_scan note_null
open_scan-null zero i e t name q missing = inr (refl, λ j lo hi. absurd (omega arith))
open_scan-null (suc n) i e t name q missing = rw other (elim (ℕ_discrete (t i).sem 0) [
  | yes z ↦
      let here : ((t i).sem == 0) ≡ true = ground arith in
      rw here (inl (i, open_scan-kept n (suc i) i t name, omega arith, omega arith, z))
  | no nz ↦
      let here : ((t i).sem == 0) ≡ false = ground arith in
      rw here (elim (open_scan-null n (suc i) e t name (omega arith) rest) [
        | inl (k, e1, lo, hi, z) ↦ inl (k, e1, omega arith, hi, z)
        | inr (e1, full) ↦ inr (
          e1,
          λ j lo hi. elim (ℕ_discrete i j) [
            | yes same ↦ λ z. nz (ap (λ k. (t k).sem) same ∙ z)
            | no later ↦ full j (omega arith) hi
          ],
        )
      ])
])
  where
    rest : Missing t name (suc i) e
    rest j lo hi = missing j (omega arith) hi

    other : same_name name (t i).name ≡ false
    other = elim (Bool-cases (same_name name (t i).name)) [
      | inl same ↦ absurd (missing i (omega arith) (omega arith) (sym (same_name→eq _ _ same)))
      | inr ne ↦ ne
    ]
