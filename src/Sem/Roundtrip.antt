-- ===== src/Sem/Roundtrip.antt =====
-- kernel/sem.c: making a semaphore and unlinking it, and the empty name.
use native.Mathlib.Decide.{ℕ_discrete}
use mathlib.Core.Path.{subst}
use my_practice.Base.{
  ℕ, ◌<◌, ◌≡◌, refl, sym, ap, ◌∙◌, ◌≢◌, inl, inr, false, ◌&&◌, Option, none, some, List, [], arith,
  Bool, lt→ltb, update, update_ne, update_self,
}
use my_practice.Base.Int.{pos}
use my_practice.Sem.{
  StructSem, Table, sem_num, count_up, fresh, sem_open, find_name, drop_at, sem_unlink, kername,
  o_creat, o_excl,
}
use my_practice.Sem.Names.{IsValid, Missing, find_name-cases, find_name-used}
use my_practice.Sem.Open.{
  Opened, again, exists, made, no_room, unknown, sem_open-Opened, made-IsValid, dropped,
  drop_at-dropped, open_found,
}

fst_some : {a b : ℕ} {x y : Table} → ◌≡◌ {A = Option ℕ × Table} (some a, x) (some b, y) → a ≡ b
fst_some e = let h : ◌≡◌ {A = Option ℕ} _ _ = ap (λ (r : Option ℕ × Table). r.0) e in cc

none_ne_some : {b : ℕ} {x y : Table} → ◌≡◌ {A = Option ℕ × Table} (none, x) (some b, y) → ⊥
none_ne_some e = let h : ◌≡◌ {A = Option ℕ} _ _ = ap (λ (r : Option ℕ × Table). r.0) e in cc

-- A successful call for a name that was missing has made a semaphore.
Opened-made :
    {t : Table} {name : List ℕ} {creat excl : Bool} {value : ℕ} {r : Option ℕ × Table}
    → Missing t name 0 sem_num
    → Opened t name creat excl value r
    → (k : ℕ) (t' : Table) → r ≡ (some k, t')
    → (k < sem_num) × ((t k).sem ≡ 0) × (t' ≡ update t k (fresh k name value))
Opened-made missing (again j lt used own q e) k t' h = absurd (missing j (omega arith) lt own)
Opened-made missing (exists j lt own q e) k t' h = absurd (missing j (omega arith) lt own)
Opened-made {t} {name} {value = value} missing (made j m lt z q e) k t' h =
    let same : j ≡ k = fst_some (sym e ∙ h) in
    (
      subst (λ x. x < sem_num) same lt,
      subst (λ x. (t x).sem ≡ 0) same z,
      sym (ap (λ (r : Option ℕ × Table). r.1) (sym e ∙ h))
          ∙ ap (λ x. update t x (fresh x name value)) same,
    )
Opened-made missing (no_room m full q e) k t' h = absurd (none_ne_some (sym e ∙ h))
Opened-made missing (unknown m q e) k t' h = absurd (none_ne_some (sym e ∙ h))

unlink_made :
    (u : ℕ → ℕ) (value k : ℕ) (t : Table)
    → IsValid t
    → kername u ≢ []
    → Missing t (kername u) 0 sem_num
    → k < sem_num
    → (t k).sem ≡ 0
    → (t2 : Table) × (sem_unlink (some u) (update t k (fresh k (kername u) value)) ≡ (pos 0, t2))
      × ((j : ℕ) → t2 j ≡ t j)
unfolding sem_unlink
unlink_made u value k t v ne missing lt z = (
  drop_at k t',
  rw (found, lt→ltb k sem_num lt) refl,
  λ j.
      ap (λ (x : Table). x j) (drop_at-dropped t' k (rw at_k (omega arith)) (rw at_k (omega arith)))
      ∙ back j,
)
  where
    t' : Table
    t' = update t k (fresh k (kername u) value)

    at_k : t' k ≡ fresh k (kername u) value
    at_k = update_self t k (fresh k (kername u) value)

    found : find_name sem_num 0 t' (kername u) ≡ k
    found =
        find_name-used t' (kername u) k (made-IsValid t (kername u) k value v ne missing lt z) ne lt
          (ap (λ (s : StructSem). s.name) at_k)

    back : (j : ℕ) → update t' k (dropped (t' k)) j ≡ t j
    back j = elim (ℕ_discrete k j) [
      | yes e ↦
          subst (λ x. update t' k (dropped (t' k)) x ≡ t x) e
            (update_self t' k (dropped (t' k)) ∙ ap dropped at_k ∙ sym ((v.entry k lt).free z))
      | no e ↦ update_ne t' k (dropped (t' k)) j e ∙ update_ne t k (fresh k (kername u) value) j e
    ]

-- A semaphore that `sys_sem_open` has just made is found by `sys_sem_unlink`, which leaves every
-- entry of the table as it was before both calls.
pub sem_unlink-sem_open :
    (u : ℕ → ℕ) (oflag value : ℕ) (t : Table)
    → IsValid t
    → kername u ≢ []
    → Missing t (kername u) 0 sem_num
    → (k : ℕ) (t' : Table) → sem_open (some u) oflag value t ≡ (some k, t')
    → (t2 : Table) × (sem_unlink (some u) t' ≡ (pos 0, t2)) × ((j : ℕ) → t2 j ≡ t j)
sem_unlink-sem_open u oflag value t v ne missing k t' e =
    let (lt, z, made_t) = Opened-made missing (sem_open-Opened u oflag value t v ne) k t' e in
    subst (λ x. (t2 : Table) × (sem_unlink (some u) x ≡ (pos 0, t2)) × ((j : ℕ) → t2 j ≡ t j))
      (sym made_t) (unlink_made u value k t v ne missing lt z)

-- The empty name is the name of every free entry: while there is one, a call with that name and
-- without O_CREAT and O_EXCL together succeeds with a pointer to a `sem` of 0, that of a free entry.
pub sem_open-empty :
    (u : ℕ → ℕ) (oflag value : ℕ) (t : Table)
    → IsValid t
    → kername u ≡ []
    → (o_creat oflag && o_excl oflag) ≡ false
    → (i : ℕ) → i < sem_num
    → (t i).sem ≡ 0
    → (k : ℕ) × (sem_open (some u) oflag value t ≡ (some k, count_up k t)) × ((t k).sem ≡ 0)
sem_open-empty u oflag value t v blank mode i lt z =
    elim (find_name-cases sem_num 0 sem_num t (kername u) refl) [
      | inl f ↦ (
        find_name sem_num 0 t (kername u),
        open_found u oflag value t _ f.1 refl ∙ rw mode refl,
        elim (ℕ_discrete (t (find_name sem_num 0 t (kername u))).sem 0) [
          | yes free ↦ free
          | no used ↦ absurd ((v.entry _ f.1).named used (f.2 ∙ blank))
        ],
      )
      | inr (_, missing) ↦ absurd (
          missing i (omega arith) lt
            (ap (λ (s : StructSem). s.name) ((v.entry i lt).free z) ∙ sym blank))
    ]
