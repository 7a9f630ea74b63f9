-- ===== src/Sem/Open.antt =====
-- kernel/sem.c: what `sys_sem_open` and `sys_sem_unlink` do to a valid table.
use mathlib.Core.Path.{subst}
use my_practice.Base.{
  ℕ, ◌+◌, ◌-◌, ◌%◌, ◌^◌, ◌<◌, ◌≡◌, refl, sym, ap, ◌∙◌, ◌≢◌, ◌⊎◌, inl, inr, Bool, true, false, ◌&&◌,
  Option, none, some, List, [], arith, lt→ltb, ◌==◌, if◌then◌else◌, update, Bool-cases,
}
use my_practice.Base.Int.{pos, negsuc}
use my_practice.Sem.{
  StructSem, Table, sem_num, empty, open_scan, count_up, fresh, open_at, sem_open, find_name,
  drop_at, sem_unlink, kername, o_creat, o_excl,
}
use my_practice.Sem.Names.{
  IsValid, Missing, Full, find_name-cases, open_scan-find_name, open_scan-null, empty-EntryIsValid,
  update-IsValid,
}

module _ (u : ℕ → ℕ) (oflag value : ℕ) (t : Table) where
  pub open_found :
      (k : ℕ)
      → k < sem_num
      → find_name sem_num 0 t (kername u) ≡ k
      → sem_open (some u) oflag value t
        ≡ (if o_creat oflag && o_excl oflag then (none, t) else (some k, count_up k t))
  unfolding sem_open open_at
  open_found k lt e =
      let at : (open_scan sem_num 0 none t (kername u)).0 ≡ k =
        open_scan-find_name sem_num 0 none t (kername u) ∙ e in
      rw (at, lt→ltb k sem_num lt) (ground arith)

  open_missing :
      (z : Option ℕ)
      → find_name sem_num 0 t (kername u) ≡ sem_num
      → (open_scan sem_num 0 none t (kername u)).1 ≡ z
      → sem_open (some u) oflag value t
        ≡ open_at (o_creat oflag) (o_excl oflag) value (kername u) (sem_num, z) t
  unfolding sem_open
  open_missing z e1 e2 =
      let at : (open_scan sem_num 0 none t (kername u)).0 ≡ sem_num =
        open_scan-find_name sem_num 0 none t (kername u) ∙ e1 in
      ap (λ r. open_at (o_creat oflag) (o_excl oflag) value (kername u) r t) (λ i. (at i, e2 i))

abbrev created : Table → List ℕ → ℕ → Option ℕ → Option ℕ × Table
created t name value none = (none, t)
created t name value (some k) = (some k, update t k (fresh k name value))

creating :
    (excl : Bool) (t : Table) (name : List ℕ) (value : ℕ) (creat : Bool) (z : Option ℕ)
    → creat ≡ true
    → open_at creat excl value name (sem_num, z) t ≡ created t name value z
unfolding open_at
creating excl t name value creat none h = rw h refl
creating excl t name value creat (some k) h = rw h refl

not_creating :
    (excl : Bool) (t : Table) (name : List ℕ) (value : ℕ) (creat : Bool) (z : Option ℕ)
    → creat ≡ false
    → open_at creat excl value name (sem_num, z) t ≡ (none, t)
unfolding open_at
not_creating excl t name value creat z h = rw h refl

-- What `sys_sem_open` does, for a name that is not empty: it opens the semaphore of the name once
-- more, unless O_CREAT and O_EXCL are both set; it makes one in a free entry if there is none and
-- O_CREAT is set; and it fails with the table unchanged in each other case.
pub data Opened (t : Table) (name : List ℕ) (creat excl : Bool) (value : ℕ)
    : Option ℕ × Table → Type 0 where
  again :
      (k : ℕ) {r : Option ℕ × Table}
      → k < sem_num
      → (t k).sem ≢ 0
      → (t k).name ≡ name
      → (creat && excl) ≡ false
      → r ≡ (some k, count_up k t)
      → Opened t name creat excl value r
  exists :
      (k : ℕ) {r : Option ℕ × Table}
      → k < sem_num
      → (t k).name ≡ name
      → (creat && excl) ≡ true
      → r ≡ (none, t)
      → Opened t name creat excl value r
  made :
      (k : ℕ) {r : Option ℕ × Table}
      → Missing t name 0 sem_num
      → k < sem_num
      → (t k).sem ≡ 0
      → creat ≡ true
      → r ≡ (some k, update t k (fresh k name value))
      → Opened t name creat excl value r
  no_room :
      {r : Option ℕ × Table}
      → Missing t name 0 sem_num
      → Full t 0 sem_num
      → creat ≡ true
      → r ≡ (none, t)
      → Opened t name creat excl value r
  unknown :
      {r : Option ℕ × Table}
      → Missing t name 0 sem_num
      → creat ≡ false
      → r ≡ (none, t)
      → Opened t name creat excl value r

in_use :
    {t : Table} {name : List ℕ} (k : ℕ)
    → IsValid t
    → name ≢ []
    → k < sem_num
    → (t k).name ≡ name
    → (t k).sem ≢ 0
in_use k v ne lt e z = ne (sym e ∙ ap (λ (s : StructSem). s.name) ((v.entry k lt).free z))

-- Every call of `sys_sem_open` on a valid table, with a name that is not empty, has one of five
-- outcomes. An entry in use has the name: then the call returns it with its count one up or, with
-- both O_CREAT and O_EXCL, fails. No entry has the name: with O_CREAT the call makes the semaphore in
-- a free entry, or fails where none is free; without O_CREAT it fails. A call that fails changes
-- nothing.
pub sem_open-Opened :
    (u : ℕ → ℕ) (oflag value : ℕ) (t : Table)
    → IsValid t
    → kername u ≢ []
    → Opened t (kername u) (o_creat oflag) (o_excl oflag) value (sem_open (some u) oflag value t)
sem_open-Opened u oflag value t v ne = elim (find_name-cases sem_num 0 sem_num t (kername u) refl) [
  | inl f ↦
      let k : ℕ = find_name sem_num 0 t (kername u) in
      let run = open_found u oflag value t k f.1 refl in
      elim (Bool-cases (o_creat oflag && o_excl oflag)) [
        | inl both ↦ exists k f.1 f.2 both (run ∙ rw both refl)
        | inr not_both ↦ again k f.1 (in_use k v ne f.1 f.2) f.2 not_both (run ∙ rw not_both refl)
      ]
  | inr (ends, missing) ↦ elim (Bool-cases (o_creat oflag)) [
    | inl creat ↦ elim (open_scan-null sem_num 0 sem_num t (kername u) refl missing) [
      | inl (k, e, lo, hi, z) ↦ made k missing hi z creat (
          open_missing u oflag value t (some k) ends e
          ∙ creating (o_excl oflag) t (kername u) value (o_creat oflag) (some k) creat)
      | inr (e, full) ↦ no_room missing full creat (
          open_missing u oflag value t none ends e
          ∙ creating (o_excl oflag) t (kername u) value (o_creat oflag) none creat)
    ]
    | inr no_creat ↦ unknown missing no_creat (
        open_missing u oflag value t _ ends refl
        ∙ not_creating (o_excl oflag) t (kername u) value (o_creat oflag) _ no_creat)
  ]
]

-- A new entry under a name that is missing, in place of a free one.
pub made-IsValid :
    (t : Table) (name : List ℕ) (k value : ℕ)
    → IsValid t
    → name ≢ []
    → Missing t name 0 sem_num
    → k < sem_num
    → (t k).sem ≡ 0
    → IsValid (update t k (fresh k name value))
made-IsValid t name k value v ne missing lt z =
    update-IsValid v
      (record {
        free = λ q. absurd (omega arith);
        number = λ q. refl;
        named = λ q. ne;
        counted = λ q. omega arith;
      })
      (λ j hj other q used e. missing j (omega arith) hj e)

-- An entry whose count changes, to one that is not 0.
recount-IsValid :
    {t : Table} (k c : ℕ)
    → IsValid t
    → k < sem_num
    → (t k).sem ≢ 0
    → 0 < c
    → c < 2 ^ 32
    → IsValid (update t k (record (t k) { cont = c }))
recount-IsValid {t} k c v lt nz lo hi =
    update-IsValid v
      (record {
        free = λ q. absurd (nz q);
        number = λ q. (v.entry k lt).number nz;
        named = λ q. (v.entry k lt).named nz;
        counted = λ q. (lo, hi);
      })
      (λ j hj other q used e. other (v.distinct k j lt hj nz used (sym e)))

-- `sys_sem_open` keeps a table valid, if the name is not empty and no semaphore is open 2^32 - 1
-- times.
pub sem_open-IsValid :
    (u : ℕ → ℕ) (oflag value : ℕ) (t : Table)
    → IsValid t
    → kername u ≢ []
    → ((k : ℕ) → (t k).cont + 1 < 2 ^ 32)
    → IsValid (sem_open (some u) oflag value t).1
sem_open-IsValid u oflag value t v ne small = keep (sem_open-Opened u oflag value t v ne)
  where
    keep :
        {r : Option ℕ × Table}
        → Opened t (kername u) (o_creat oflag) (o_excl oflag) value r
        → IsValid r.1
    keep (again k lt used own q e) =
        subst (λ (r : Option ℕ × Table). IsValid r.1) (sym e)
          (recount-IsValid k (((t k).cont + 1) % 2 ^ 32) v lt used (omega (arith, small k))
            (omega arith))
    keep (exists k lt own q e) = subst (λ (r : Option ℕ × Table). IsValid r.1) (sym e) v
    keep (made k missing lt z q e) =
        subst (λ (r : Option ℕ × Table). IsValid r.1) (sym e)
          (made-IsValid t (kername u) k value v ne missing lt z)
    keep (no_room missing full q e) = subst (λ (r : Option ℕ × Table). IsValid r.1) (sym e) v
    keep (unknown missing q e) = subst (λ (r : Option ℕ × Table). IsValid r.1) (sym e) v

-- The entry that `sys_sem_unlink` leaves.
abbrev pub dropped : StructSem → StructSem
dropped s = if s.cont == 1 then empty else record s { cont = s.cont - 1 }

pub drop_at-dropped :
    (t : Table) (k : ℕ)
    → 0 < (t k).cont
    → (t k).cont < 2 ^ 32
    → drop_at k t ≡ update t k (dropped (t k))
unfolding drop_at
drop_at-dropped t k lo hi =
    let left : ((t k).cont + 2 ^ 32 - 1) % 2 ^ 32 ≡ (t k).cont - 1 = omega arith in
    ap (update t k) (rw left (ground arith))

-- `sys_sem_unlink` with a name that is not empty, on a valid table: it takes one from the count of
-- the semaphore of the name, and clears its entry when the count reaches 0; it fails, with the table
-- unchanged, exactly if there is no such semaphore. The table stays valid.
pub sem_unlink-cases :
    (u : ℕ → ℕ) (t : Table)
    → IsValid t
    → kername u ≢ []
    → ((k : ℕ) × (k < sem_num)
        × ((t k).sem ≢ 0)
        × ((t k).name ≡ kername u)
        × (sem_unlink (some u) t ≡ (pos 0, update t k (dropped (t k))))
        × IsValid (update t k (dropped (t k))))
      ⊎ (Missing t (kername u) 0 sem_num × (sem_unlink (some u) t ≡ (negsuc 0, t)))
unfolding sem_unlink
sem_unlink-cases u t v ne = elim (find_name-cases sem_num 0 sem_num t (kername u) refl) [
  | inl f ↦
      let k : ℕ = find_name sem_num 0 t (kername u) in
      let used : (t k).sem ≢ 0 = in_use k v ne f.1 f.2 in
      let c = (v.entry k f.1).counted used in
      inl (
        k,
        f.1,
        used,
        f.2,
        rw (lt→ltb k sem_num f.1) (ap (λ x. (pos 0, x)) (drop_at-dropped t k c.0 c.1)),
        dropped-IsValid k f.1 used c,
      )
  | inr (ends, missing) ↦ inr (missing, rw ends refl)
]
  where
    dropped-IsValid :
        (k : ℕ)
        → k < sem_num
        → (t k).sem ≢ 0
        → (0 < (t k).cont) × ((t k).cont < 2 ^ 32)
        → IsValid (update t k (dropped (t k)))
    dropped-IsValid k lt used c = elim (Bool-cases ((t k).cont == 1)) [
      | inl last ↦
          rw last (update-IsValid v (empty-EntryIsValid k) (λ j hj other q. absurd (q refl)))
      | inr more ↦
          rw more (recount-IsValid k ((t k).cont - 1) v lt used (ground arith) (ground arith))
    ]
