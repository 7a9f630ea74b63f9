-- ===== src/Format/Digits.antt =====
-- kernel/vsprintf.c: the digits of a number give it back.
use my_practice.Base.{
  ℕ, zero, suc, ◌+◌, ◌-◌, ◌*◌, ◌/◌, ◌%◌, ◌^◌, ◌≤◌, ◌<◌, ◌≡◌, refl, sym, ap, ◌∙◌, inl, inr, Bool,
  true, false, ltb, ◌==◌, ==→eq, if◌then◌else◌, if_true, if_false, Bool-cases, arith, List, [], ◌∷◌,
  ◌++◌, length,
}
use mathlib.Core.Path.{subst}
use native.Mathlib.Nat.{mod-lt, mod-add-div, div-lt_iff_lt-mul}
use native.Mathlib.Numerals.{unary_clauses}
use my_practice.Format.{digit_char, fill_tmp, copies, backwards}

-- The value of a digit in either case
abbrev pub digit_value : ℕ → ℕ
digit_value c = if ltb c 58 then c - 48 else (if ltb c 97 then c - 55 else c - 87)

-- Reading characters, the highest first
unfoldable pub read : (base acc : ℕ) → List ℕ → ℕ
read base acc [] = acc
read base acc (c ∷ cs) = read base (acc * base + digit_value c) cs

-- The value of digits, the lowest first
unfoldable pub value : (base : ℕ) → List ℕ → ℕ
value base [] = 0
value base (c ∷ cs) = digit_value c + base * value base cs

digit_value-digit_char : (small : Bool) (d : ℕ) → d < 36 → digit_value (digit_char small d) ≡ d
digit_value-digit_char true d h = ground arith
digit_value-digit_char false d h = ground arith

pub read-append :
    (base acc : ℕ) (cs ds : List ℕ) → read base acc (cs ++ ds) ≡ read base (read base acc cs) ds
unfolding read
read-append base acc [] ds = refl
read-append base acc (c ∷ cs) ds = read-append base (acc * base + digit_value c) cs ds

pub read-backwards :
    (base : ℕ) (cs ds : List ℕ) → read base 0 (backwards cs ds) ≡ read base (value base cs) ds
unfolding backwards value read
read-backwards base [] ds = refl
read-backwards base (c ∷ cs) ds =
    read-backwards base cs (c ∷ ds) ∙ ap (λ v. read base v ds) (grind arith)

pub read-copies : (base n : ℕ) → read base 0 (copies n 48) ≡ 0
unfolding read copies
read-copies base zero = refl
read-copies base (suc n) = ap (λ v. read base v (copies n 48)) (grind arith) ∙ read-copies base n

pub value-fill_tmp :
    (fuel n base : ℕ) (small : Bool)
    → 2 ≤ base
    → base ≤ 36
    → n < 2 ^ fuel
    → value base (fill_tmp fuel n base small) ≡ n
unfolding value fill_tmp
value-fill_tmp zero n base small lo hi h = omega arith
value-fill_tmp (suc fuel) n base small lo hi h = elim (Bool-cases (n == 0)) [
  | inl e ↦ ap (value base) (if_true [] _ e) ∙ sym (==→eq _ _ e)
  | inr e ↦
      let m : n % base < base = mod-lt n (omega arith) in
      ap (value base)
        (if_false [] (digit_char small (n % base) ∷ fill_tmp fuel (n / base) base small) e)
      ∙ ap2 (digit_value-digit_char small (n % base) (omega arith))
          (value-fill_tmp fuel (n / base) base small lo hi (less fuel n base lo h))
      ∙ mod-add-div n base
]
  where
    ap2 : {a b x y : ℕ} → a ≡ b → x ≡ y → a + base * x ≡ b + base * y
    ap2 p q = cc

    less : (fuel n base : ℕ) → 2 ≤ base → n < 2 ^ suc fuel → n / base < 2 ^ fuel
    less fuel n base lo h =
        let p : 2 ^ suc fuel ≡ 2 * 2 ^ fuel = simp unary_clauses (omega arith) in
        let q : 2 * 2 ^ fuel ≤ 2 ^ fuel * base = grind arith in
        (div-lt_iff_lt-mul (omega arith)).1 (omega arith)

-- No more digits than rounds
pub length-fill_tmp : (fuel n base : ℕ) (small : Bool) → length (fill_tmp fuel n base small) ≤ fuel
unfolding fill_tmp
length-fill_tmp zero n base small = omega arith
length-fill_tmp (suc fuel) n base small = elim (Bool-cases (n == 0)) [
  | inl e ↦
      subst (λ (l : List ℕ). length l ≤ suc fuel)
        (sym (if_true [] (digit_char small (n % base) ∷ fill_tmp fuel (n / base) base small) e))
        (omega arith)
  | inr e ↦
      let h : length (fill_tmp fuel (n / base) base small) ≤ fuel =
        length-fill_tmp fuel (n / base) base small in
      subst (λ (l : List ℕ). length l ≤ suc fuel)
        (sym (if_false [] (digit_char small (n % base) ∷ fill_tmp fuel (n / base) base small) e))
        (omega arith)
]

-- Every character is a digit of the base.
abbrev pub AllDigits : (base : ℕ) → (small : Bool) → List ℕ → Type 0
AllDigits base small [] = Unit {0}
AllDigits base small (c ∷ cs) =
    ((d : ℕ) × (d < base) × (c ≡ digit_char small d)) × AllDigits base small cs

pub AllDigits-append :
    (base : ℕ) (small : Bool) (cs ds : List ℕ)
    → AllDigits base small cs
    → AllDigits base small ds
    → AllDigits base small (cs ++ ds)
AllDigits-append base small [] ds a b = b
AllDigits-append base small (c ∷ cs) ds (h, a) b = (h, AllDigits-append base small cs ds a b)

pub AllDigits-backwards :
    (base : ℕ) (small : Bool) (cs ds : List ℕ)
    → AllDigits base small cs
    → AllDigits base small ds
    → AllDigits base small (backwards cs ds)
unfolding backwards
AllDigits-backwards base small [] ds a b = b
AllDigits-backwards base small (c ∷ cs) ds (h, a) b =
    AllDigits-backwards base small cs (c ∷ ds) a (h, b)

pub AllDigits-copies :
    (base : ℕ) (small : Bool) (n : ℕ) → 1 ≤ base → AllDigits base small (copies n 48)
unfolding copies
AllDigits-copies base small zero h = tt
AllDigits-copies base small (suc n) h = ((0, h, refl), AllDigits-copies base small n h)

pub AllDigits-fill_tmp :
    (fuel n base : ℕ) (small : Bool) → 1 ≤ base → AllDigits base small (fill_tmp fuel n base small)
unfolding fill_tmp
AllDigits-fill_tmp zero n base small h = tt
AllDigits-fill_tmp (suc fuel) n base small h = elim (Bool-cases (n == 0)) [
  | inl e ↦
      subst (AllDigits base small)
        (sym (if_true [] (digit_char small (n % base) ∷ fill_tmp fuel (n / base) base small) e)) tt
  | inr e ↦
      subst (AllDigits base small)
        (sym (if_false [] (digit_char small (n % base) ∷ fill_tmp fuel (n / base) base small) e))
        ((n % base, mod-lt n h, refl), AllDigits-fill_tmp fuel (n / base) base small h)
]
