-- ===== src/Strings/Copy.antt =====
-- include/string.h: the copies of strings.
use my_practice.Base.{
  ℕ, zero, suc, ◌+◌, ◌-◌, ◌^◌, ◌≤◌, ◌<◌, ◌≡◌, ◌≢◌, refl, sym, ap, ◌∙◌, inl, inr, Bool, true, false,
  Option, some, ◌==◌, update, update_ne, arith,
}
use my_practice.Strings.{Bytes, movsb, scasb, copy_string, strcpy, strlen, end_of}
use my_practice.Strings.Move.{Moved, Apart, movsb-Moved}

-- A string of `k` bytes and the byte 0 behind them
pub record IsString (m : Bytes) (s k : ℕ) : Type 0 where
  pub inside : (i : ℕ) → i < k → m (s + i) ≢ 0
  pub ends : m (s + k) ≡ 0

pub rest-IsString : (m : Bytes) (s k : ℕ) → IsString m s (suc k) → IsString m (s + 1) k
rest-IsString m s k h = record {
  inside = λ i l e. h.inside (i + 1) (omega arith) (ap m (omega arith) ∙ e);
  ends = ap m (omega arith) ∙ h.ends;
}

pub empty_ends : (m : Bytes) (s : ℕ) → IsString m s 0 → (m s == 0) ≡ true
empty_ends m s h = let e : m s ≡ 0 = ap m (omega arith) ∙ h.ends in ground arith

pub first_inside : (m : Bytes) (s k : ℕ) → IsString m s (suc k) → (m s == 0) ≡ false
first_inside m s k h =
    let e : m s ≢ 0 = λ q. h.inside 0 (omega arith) (ap m (omega arith) ∙ q) in ground arith

-- The first byte of a copy does not change the rest of the string.
pub kept-IsString :
    (m : Bytes) (src dest k b : ℕ)
    → Apart (suc (suc k)) src dest
    → IsString m (src + 1) k
    → IsString (update m dest b) (src + 1) k
kept-IsString m src dest k b p h = record {
  inside = λ i l e. h.inside i l (sym (same i (omega arith)) ∙ e);
  ends = same k (omega arith) ∙ h.ends;
}
  where
    same : (i : ℕ) → i ≤ k → update m dest b (src + 1 + i) ≡ m (src + 1 + i)
    same i l =
        update_ne m dest b (src + 1 + i)
          (λ q. elim p [ inl x ↦ absurd (omega arith) | inr x ↦ absurd (omega arith) ])

pub next-Apart : (n src dest : ℕ) → Apart (suc n) src dest → Apart n (src + 1) (dest + 1)
next-Apart n src dest (inl x) = inl (omega arith)
next-Apart n src dest (inr x) = inr (omega arith)

pub copy_string-movsb :
    (fuel src dest k : ℕ) (m : Bytes)
    → IsString m src k
    → Apart (suc k) src dest
    → k < fuel
    → copy_string fuel src dest m ≡ some (movsb (suc k) src dest m)
unfolding copy_string movsb
copy_string-movsb zero src dest k m h p l = elim l [ ]
copy_string-movsb (suc fuel) src dest zero m h p l = chosen (m src == 0) (empty_ends m src h)
  where
    chosen :
        (b : Bool)
        → b ≡ true
        → elim b as (λ x. Option Bytes) [
          | true ↦ some (update m dest (m src))
          | false ↦ copy_string fuel (src + 1) (dest + 1) (update m dest (m src))
        ]
          ≡ some (update m dest (m src))
    chosen true e = refl
    chosen false e = cc
copy_string-movsb (suc fuel) src dest (suc k) m h p l =
    let u : Bytes = update m dest (m src) in
    ap
      (λ b. elim b as (λ x. Option Bytes) [
        | true ↦ some u
        | false ↦ copy_string fuel (src + 1) (dest + 1) u
      ])
      (first_inside m src k h)
    ∙ copy_string-movsb fuel (src + 1) (dest + 1) k u
        (kept-IsString m src dest k (m src) p (rest-IsString m src k h))
        (next-Apart (suc k) src dest p) (omega arith)

-- With enough rounds, `strcpy` copies a string and its 0 where the string is not written over
-- before it is read, and changes no other byte.
pub strcpy-Moved :
    (fuel dest src k : ℕ) (m : Bytes)
    → IsString m src k
    → Apart (suc k) src dest
    → k < fuel
    → (m' : Bytes) × (strcpy fuel dest src m ≡ some m') × Moved (suc k) src dest m m'
unfolding strcpy
strcpy-Moved fuel dest src k m h p l = (
  movsb (suc k) src dest m,
  copy_string-movsb fuel src dest k m h p l,
  movsb-Moved (suc k) src dest m p,
)

scasb-IsString :
    (ecx s k : ℕ) (m : Bytes)
    → IsString m s k
    → k < ecx
    → scasb ecx 0 s m ≡ (ecx - k - 1, s + k + 1, true)
unfolding scasb
scasb-IsString zero s k m h l = elim l [ ]
scasb-IsString (suc ecx) s zero m h l =
    ap
      (λ b. elim b as (λ x. ℕ × ℕ × Bool) [
        | true ↦ (ecx, s + 1, true)
        | false ↦ scasb ecx 0 (s + 1) m
      ])
      (empty_ends m s h)
    ∙ triple (omega arith) (omega arith)
  where
    triple : {a b c d : ℕ} → a ≡ c → b ≡ d → ◌≡◌ {A = ℕ × ℕ × Bool} (a, b, true) (c, d, true)
    triple p q = cc
scasb-IsString (suc ecx) s (suc k) m h l =
    ap
      (λ b. elim b as (λ x. ℕ × ℕ × Bool) [
        | true ↦ (ecx, s + 1, true)
        | false ↦ scasb ecx 0 (s + 1) m
      ])
      (first_inside m s k h)
    ∙ scasb-IsString ecx (s + 1) k m (rest-IsString m s k h) (omega arith)
    ∙ triple (omega arith) (omega arith)
  where
    triple : {a b c d : ℕ} → a ≡ c → b ≡ d → ◌≡◌ {A = ℕ × ℕ × Bool} (a, b, true) (c, d, true)
    triple p q = cc

-- `strlen` is the number of bytes before the first 0.
pub strlen-IsString : (s k : ℕ) (m : Bytes) → IsString m s k → k < 2 ^ 32 - 1 → strlen s m ≡ k
unfolding strlen
strlen-IsString s k m h l =
    ap (λ (r : ℕ × ℕ × Bool). 2 ^ 32 - 1 - r.0 - 1) (scasb-IsString (2 ^ 32 - 1) s k m h l)
    ∙ omega arith

pub end_of-IsString : (s k : ℕ) (m : Bytes) → IsString m s k → k < 2 ^ 32 - 1 → end_of s m ≡ s + k
end_of-IsString s k m h l =
    ap (λ (r : ℕ × ℕ × Bool). r.1 - 1) (scasb-IsString (2 ^ 32 - 1) s k m h l) ∙ omega arith
