-- ===== src/Shm/Attach/Mapped.antt =====
-- mm/shm.c: the pages that `sys_shmat` maps.
use my_practice.Base.{
  ℕ, zero, suc, ◌+◌, ◌*◌, ◌/◌, ◌%◌, ◌^◌, ◌≤◌, ◌<◌, ◌≡◌, refl, ap, ◌∙◌, ◌≢◌, ◌⊎◌, inl, inr, true,
  false, arith, some,
}
use my_practice.Memory.{Memory, ok, present, dir_entry}
use my_practice.Memory.Paging.{IsPaged, translate, same_page}
use my_practice.Memory.Tables.{Put, put_page-Put}
use my_practice.Shm.Attach.{map_pages}

-- `m'` maps the `n` pages from `address` on to the frames `a i`, `a (i + 1)` and so on, and other pages
-- as `m` does.
pub record Mapped (n i address : ℕ) (a : ℕ → ℕ) (m m' : Memory) : Type 0 where
  pub paged : IsPaged m'
  pub inside :
      (k b : ℕ) → k < n → b < 4096 → translate (address + k * 4096 + b) m' ≡ some (a (i + k) + b)
  pub outside :
      (b : ℕ)
      → b < 2 ^ 32
      → (b < address) ⊎ (address + n * 4096 ≤ b)
      → translate b m' ≡ translate b m

-- There is a page table for each of the `n` pages from `address` on.
abbrev pub HasTables : (n address : ℕ) → Memory → Type 0
HasTables n address m = (k : ℕ) → k < n → present (m.word (dir_entry (address + k * 4096))) ≡ true

Mapped-suc :
    (n i address : ℕ) (a : ℕ → ℕ) {m m1 m2 : Memory}
    → address % 4096 ≡ 0
    → address + suc n * 4096 ≤ 2 ^ 32
    → Put (a i) address m m1
    → Mapped n (i + 1) (address + 4096) a m1 m2
    → Mapped (suc n) i address a m m2
Mapped-suc n i address a {m} {m1} {m2} al hi q r = record {
  paged = r.paged;
  inside = inside;
  outside = λ b hb far. elim far [
    | inl before ↦ r.outside b hb (inl (omega arith)) ∙ q.other b hb (apart b (omega arith))
    | inr after ↦ r.outside b hb (inr (omega arith)) ∙ q.other b hb (apart b (omega arith))
  ];
}
  where
    apart : (b : ℕ) → address / 4096 ≢ b / 4096 → same_page address b ≡ false
    apart b ne = ground arith

    inside :
        (k b : ℕ)
        → k < suc n
        → b < 4096
        → translate (address + k * 4096 + b) m2 ≡ some (a (i + k) + b)
    inside zero b h hb =
        r.outside (address + 0 * 4096 + b) (omega arith) (inl (omega arith))
        ∙ q.self (address + 0 * 4096 + b) (omega arith)
        ∙ ap some (let e : i + 0 ≡ i = omega arith in rw e (omega arith))
    inside (suc k) b h hb =
        ap (λ (x : ℕ). translate x m2) (omega arith)
        ∙ r.inside k b (omega arith) hb
        ∙ ap (λ (x : ℕ). some (a x + b)) (omega arith)

-- The loop of `sys_shmat` maps the pages of a segment one after the other, and changes no other page.
pub map_pages-Mapped :
    (n i address : ℕ) (a : ℕ → ℕ) (m : Memory)
    → IsPaged m
    → address % 4096 ≡ 0
    → address + n * 4096 ≤ 2 ^ 32
    → ((k : ℕ) → a k % 4096 ≡ 0)
    → HasTables n address m
    → (m' : Memory) × (map_pages n i address a m ≡ ok tt m') × Mapped n i address a m m'
unfolding map_pages
map_pages-Mapped zero i address a m p al hi aligned tables = (
  m,
  refl,
  record { paged = p; inside = λ k b h. absurd (omega arith); outside = λ b hb far. refl },
)
map_pages-Mapped (suc n) i address a m p al hi aligned tables =
    let here : present (m.word (dir_entry address)) ≡ true =
      ap (λ (x : ℕ). present (m.word (dir_entry x))) (omega arith) ∙ tables 0 (omega arith) in
    let (m1, e1, q) = put_page-Put (a i) address m p (aligned i) (omega arith) here in
    let still : HasTables n (address + 4096) m1 = λ k h.
      ap present (q.dirs (address + 4096 + k * 4096))
      ∙ ap (λ (x : ℕ). present (m.word (dir_entry x))) (omega arith)
      ∙ tables (suc k) (omega arith) in
    let (m2, e2, r) =
      map_pages-Mapped n (i + 1) (address + 4096) a m1 q.paged (omega arith) (omega arith) aligned
        still in
    (m2, rw e1 e2, Mapped-suc n i address a al hi q r)
