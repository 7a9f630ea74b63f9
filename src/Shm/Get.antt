-- ===== src/Shm/Get.antt =====
-- mm/shm.c: what `sys_shmget` finds, and the keys of `sys_ftok`.
use native.Mathlib.Nat.{zero-add}
use my_practice.Base.{
  ℕ, zero, suc, ◌+◌, ◌/◌, ◌%◌, ◌^◌, ◌<◌, ◌≡◌, refl, sym, ap, ◌∙◌, ◌≢◌, ◌⊎◌, inl, inr, Bool, true,
  false, ◌||◌, ltb, ◌==◌, if◌then◌else◌, arith, update, Bool-cases, Option, none, some,
}
use my_practice.Memory.{Memory, Run, ok, panic, exit, and_then}
use my_practice.Shm.{
  Table, Got, id, failed, shm_num, page_max, no_key, ipc_creat, scan, allocate, create, shmget,
  file_key,
}

-- The first entry that has the key or is free
scan-first :
    (n i j key : ℕ) (t : Table)
    → j < n
    → ((k : ℕ) → k < j → ((t (i + k)).key ≢ key) × ((t (i + k)).key ≢ no_key))
    → ((t (i + j)).key ≡ key) ⊎ ((t (i + j)).key ≡ no_key)
    → scan n i key t ≡ some (i + j)
unfolding scan
scan-first zero i j key t h before here = elim h [ ]
scan-first (suc n) i zero key t h before here =
    let same : i + 0 ≡ i = omega arith in
    let here' : ((t i).key ≡ key) ⊎ ((t i).key ≡ no_key) = rw same at here in rw same (ground arith)
scan-first (suc n) i (suc j) key t h before here =
    let first : ((t i).key ≢ key) × ((t i).key ≢ no_key) =
      (let b = before 0 (omega arith) in let same : i + 0 ≡ i = omega arith in rw same at b) in
    let shift : (k : ℕ) → i + 1 + k ≡ i + suc k = λ k. omega arith in
    let rest : scan n (i + 1) key t ≡ some (i + 1 + j) =
      scan-first n (i + 1) j key t (omega arith)
        (λ k hk. rw (shift k) (before (suc k) (omega arith))) (rw (shift j) here) in
    let skip : ((t i).key == key || (t i).key == no_key) ≡ false = ground arith in
    rw skip (rest ∙ ap some (shift j))

-- The number that a call returns
abbrev pub id_of : Run (Got × Table) → Option ℕ
id_of (ok (id j, t) m) = some j
id_of _ = none

-- A new segment has the number of the entry that it is made in.
create-id :
    (i key page_num : ℕ) (t : Table) (m : Memory)
    → (id_of (create i key page_num t m) ≡ some i) ⊎ (id_of (create i key page_num t m) ≡ none)
unfolding create
create-id i key page_num t m = from_result (allocate page_num 0 (t i).shmaddr m)
  where
    from_result :
        (r : Run (Bool × (ℕ → ℕ)))
        → (id_of (
              and_then r (λ r m'.
                let (done, a) = r in
                if done
                then ok
                    (
                      id i,
                      update t i (record (t i) {
                        shmaddr = a;
                        page_num = page_num;
                        key = key;
                        nattch = 0;
                      }),
                    )
                    m'
                else ok
                    (failed, update t i (record (t i) { shmaddr = a; page_num = 0; key = no_key }))
                    m'))
            ≡ some i)
          ⊎ (id_of (
                and_then r (λ r m'.
                  let (done, a) = r in
                  if done
                  then ok
                      (
                        id i,
                        update t i (record (t i) {
                          shmaddr = a;
                          page_num = page_num;
                          key = key;
                          nattch = 0;
                        }),
                      )
                      m'
                  else ok
                      (
                        failed,
                        update t i (record (t i) { shmaddr = a; page_num = 0; key = no_key }),
                      )
                      m'))
              ≡ none)
    from_result (ok (true, a) m') = inl refl
    from_result (ok (false, a) m') = inr refl
    from_result panic = inr refl
    from_result (exit m') = inr refl

-- The search of `sys_shmget` stops at a free entry: where the segment with the key lies behind one, the
-- call with IPC_CREAT never returns its number, whatever the size.
pub shmget-shadowed :
    (i j key size shmflg : ℕ) (t : Table) (m : Memory)
    → i < j
    → j < shm_num
    → (t i).key ≡ no_key
    → (t j).key ≡ key
    → key ≢ no_key
    → ((k : ℕ) → k < i → ((t k).key ≢ key) × ((t k).key ≢ no_key))
    → ipc_creat shmflg ≡ true
    → id_of (shmget key size shmflg t m) ≢ some j
unfolding shmget
shmget-shadowed i j key size shmflg t m lt hj free held other before creat =
    let page_num : ℕ = (size + 0xfff) % 2 ^ 32 / 4096 in
    let found : scan shm_num 0 key t ≡ some i =
      scan-first shm_num 0 i key t (omega arith) (λ k h. before' k h) (inr free')
      ∙ ap some (zero-add i) in
    let c = create-id i key page_num t m in
    let no_match : ((t i).key == key) ≡ false = ground arith in
    let is_free : ((t i).key == no_key) ≡ true = ground arith in
    elim (Bool-cases (size == 0)) [
      | inl h ↦ rw h cc
      | inr h ↦ elim (Bool-cases (ltb page_max page_num)) [
        | inl large ↦ rw (h, found, large) cc
        | inr fits ↦ elim (Bool-cases (key == 0)) [
          | inl z ↦ rw (h, found, fits, z, is_free) (other_id c)
          | inr z ↦ rw (h, found, fits, z, creat, no_match, is_free) (other_id c)
        ]
      ]
    ]
  where
    not_same : some i ≡ some j → ⊥
    not_same e = ground arith

    other_id : {o : Option ℕ} → (o ≡ some i) ⊎ (o ≡ none) → o ≢ some j
    other_id (inl e) = λ q. absurd (not_same (sym e ∙ q))
    other_id (inr e) = λ q. cc

    free' : (t (0 + i)).key ≡ no_key
    free' = rw zero-add free

    before' : (k : ℕ) → k < i → ((t (0 + k)).key ≢ key) × ((t (0 + k)).key ≢ no_key)
    before' k h = rw zero-add (before k h)

-- The keys of two files are the same only if both the numbers of their inodes and the identifiers
-- are, for inode numbers of 16 bits and identifiers of 8.
pub file_key-injective :
    (i j p q : ℕ)
    → i < 2 ^ 16
    → j < 2 ^ 16
    → p < 2 ^ 8
    → q < 2 ^ 8
    → file_key i p ≡ file_key j q
    → (i ≡ j) × (p ≡ q)
file_key-injective i j p q hi hj hp hq e = omega arith
