-- ===== src/Strings/Append.antt =====
-- include/string.h: `strcat` and `strncat`.
use my_practice.Base.{
  ℕ, zero, suc, ◌+◌, ◌-◌, ◌^◌, ◌≤◌, ◌<◌, ◌≡◌, refl, sym, ap, ◌∙◌, ◌⊎◌, inl, inr, true, false, some,
  update, update_ne, update_self, arith,
}
use my_practice.Strings.{Bytes, movsb, copy_string, copy_count, strcat, strncat}
use my_practice.Strings.Move.{Moved, Apart, movsb-Moved}
use my_practice.Strings.Copy.{
  IsString, rest-IsString, empty_ends, first_inside, kept-IsString, next-Apart, copy_string-movsb,
  end_of-IsString,
}

side_cases : (k i : ℕ) → (i < k) ⊎ ((j : ℕ) × (i ≡ k + j))
side_cases zero i = inr (i, omega arith)
side_cases (suc k) zero = inl (omega arith)
side_cases (suc k) (suc i) = elim (side_cases k i) [
  | inl l ↦ inl (omega arith)
  | inr (j, e) ↦ inr (j, omega arith)
]

-- With enough rounds, `strcat` leaves at `dest` the string that was there with the one of `src`
-- behind it, where that one is not written over before it is read, and changes no byte beside
-- those behind the first string.
pub strcat-IsString :
    (fuel dest src k l : ℕ) (m : Bytes)
    → IsString m dest k
    → IsString m src l
    → Apart (suc l) src (dest + k)
    → k < 2 ^ 32 - 1
    → l < fuel
    → (m' : Bytes) × (strcat fuel dest src m ≡ some m')
      × IsString m' dest (k + l)
      × Moved (suc l) src (dest + k) m m'
unfolding strcat
strcat-IsString fuel dest src k l m a b p f g =
    let m' : Bytes = movsb (suc l) src (dest + k) m in
    let h : Moved (suc l) src (dest + k) m m' = movsb-Moved (suc l) src (dest + k) m p in
    (
      m',
      ap (λ e. copy_string fuel src e m) (end_of-IsString dest k m a f)
          ∙ copy_string-movsb fuel src (dest + k) l m b p g,
      record {
        inside = λ i c z. elim (side_cases k i) [
          | inl x ↦ a.inside i x (sym (h.others (dest + i) (inl (omega arith))) ∙ z)
          | inr (j, e) ↦
              b.inside j (omega arith) (sym (h.moved j (omega arith)) ∙ ap m' (omega arith) ∙ z)
        ];
        ends = ap m' (omega arith) ∙ h.moved l (omega arith) ∙ b.ends;
      },
      h,
    )

triple_eq :
    {a b c d : ℕ} {m m' : Bytes}
    → a ≡ c
    → m ≡ m'
    → b ≡ d
    → ◌≡◌ {A = ℕ × Bytes × ℕ} (a, m, b) (c, m', d)
triple_eq p q r = cc

-- The loop with a count, for a string that ends before the count
copy_count-short :
    (count src dest k : ℕ) (m : Bytes)
    → IsString m src k
    → Apart (suc k) src dest
    → k < count
    → copy_count count src dest m ≡ (count - k - 1, movsb (suc k) src dest m, dest + k + 1)
unfolding copy_count movsb
copy_count-short zero src dest k m h p l = elim l [ ]
copy_count-short (suc count) src dest zero m h p l =
    let u : Bytes = update m dest (m src) in
    ap
      (λ b. elim b as (λ x. ℕ × Bytes × ℕ) [
        | true ↦ (count, u, dest + 1)
        | false ↦ copy_count count (src + 1) (dest + 1) u
      ])
      (empty_ends m src h)
    ∙ triple_eq (omega arith) refl (omega arith)
copy_count-short (suc count) src dest (suc k) m h p l =
    let u : Bytes = update m dest (m src) in
    ap
      (λ b. elim b as (λ x. ℕ × Bytes × ℕ) [
        | true ↦ (count, u, dest + 1)
        | false ↦ copy_count count (src + 1) (dest + 1) u
      ])
      (first_inside m src k h)
    ∙ copy_count-short count (src + 1) (dest + 1) k u
        (kept-IsString m src dest k (m src) p (rest-IsString m src k h))
        (next-Apart (suc k) src dest p) (omega arith)
    ∙ triple_eq (omega arith) refl (omega arith)

-- For a string that ends before the count, `strncat` appends it with its 0 and changes one byte
-- more, the one behind that 0, to 0.
pub strncat-twice :
    (dest src count k l : ℕ) (m : Bytes)
    → IsString m dest k
    → IsString m src l
    → Apart (suc l) src (dest + k)
    → k < 2 ^ 32 - 1
    → l < count
    → (strncat dest src count m (dest + k + l + 1) ≡ 0)
      × ((i : ℕ) → i ≤ l → strncat dest src count m (dest + k + i) ≡ m (src + i))
      × ((a : ℕ) → (a < dest + k) ⊎ (dest + k + l + 2 ≤ a) → strncat dest src count m a ≡ m a)
unfolding strncat
strncat-twice dest src count k l m a b p f g =
    let w : Bytes = movsb (suc l) src (dest + k) m in
    let h : Moved (suc l) src (dest + k) m w = movsb-Moved (suc l) src (dest + k) m p in
    let z : ℕ = dest + k + l + 1 in
    let e : strncat dest src count m ≡ update w z 0 =
      ap (λ (r : ℕ × Bytes × ℕ). update r.1 r.2 0)
        (ap (λ t. copy_count count src t m) (end_of-IsString dest k m a f)
          ∙ copy_count-short count src (dest + k) l m b p g) in
    (
      ap (λ x. x z) e ∙ update_self w z 0,
      λ i c.
          ap (λ x. x (dest + k + i)) e
          ∙ update_ne w z 0 (dest + k + i) (λ q. absurd (omega arith))
          ∙ h.moved i (omega arith),
      λ x c. ap (λ y. y x) e ∙ elim c [
        | inl n ↦ update_ne w z 0 x (λ q. absurd (omega arith)) ∙ h.others x (inl n)
        | inr n ↦ update_ne w z 0 x (λ q. absurd (omega arith)) ∙ h.others x (inr (omega arith))
      ],
    )
