-- ===== src/Format/Parts.antt =====
-- kernel/vsprintf.c: the parts of what `number` prints.
use my_practice.Base.{
  ℕ, zero, suc, ◌+◌, ◌-◌, ◌*◌, ◌^◌, ◌≤◌, ◌<◌, ◌≡◌, refl, sym, ap, ◌∙◌, inl, inr, Bool, ◌==◌, ==→eq,
  if_true, if_false, Bool-cases, arith, List, [], ◌∷◌, ◌++◌, length,
}
use mathlib.Core.Path.{subst}
use mathlib.Core.List.{append_assoc}
use my_practice.Format.{Flags, fill_tmp, tmp_of, copies, backwards, is_negative, magnitude, max}
use my_practice.Format.Digits.{
  AllDigits, AllDigits-append, AllDigits-backwards, AllDigits-copies, AllDigits-fill_tmp, read,
  value, read-append, read-backwards, read-copies, value-fill_tmp, length-fill_tmp,
}

length-append : (xs ys : List ℕ) → length (xs ++ ys) ≡ length xs + length ys
length-append [] ys = omega arith
length-append (x ∷ xs) ys =
    let e : length (xs ++ ys) ≡ length xs + length ys = length-append xs ys in omega arith

length-copies : (n c : ℕ) → length (copies n c) ≡ n
unfolding copies
length-copies zero c = refl
length-copies (suc n) c = ap suc (length-copies n c)

length-backwards : (cs ds : List ℕ) → length (backwards cs ds) ≡ length cs + length ds
unfolding backwards
length-backwards [] ds = omega arith
length-backwards (c ∷ cs) ds =
    let e : length (backwards cs (c ∷ ds)) ≡ length cs + suc (length ds) =
      length-backwards cs (c ∷ ds) in
    omega arith

read-tmp_of :
    (n base : ℕ) (small : Bool)
    → 2 ≤ base
    → base ≤ 36
    → n < 2 ^ 32
    → value base (tmp_of n base small) ≡ n
unfolding value
read-tmp_of n base small lo hi h = elim (Bool-cases (n == 0)) [
  | inl e ↦ ap (value base) (if_true (48 ∷ []) _ e) ∙ zero_value base ∙ sym (==→eq _ _ e)
  | inr e ↦
      ap (value base) (if_false (48 ∷ []) (fill_tmp 32 n base small) e)
      ∙ value-fill_tmp 32 n base small lo hi h
]
  where
    zero_value : (base : ℕ) → 0 + base * 0 ≡ 0
    zero_value base = omega arith

pub length-tmp_of : (n base : ℕ) (small : Bool) → length (tmp_of n base small) ≤ 36
length-tmp_of n base small = elim (Bool-cases (n == 0)) [
  | inl e ↦
      subst (λ (l : List ℕ). length l ≤ 36) (sym (if_true (48 ∷ []) (fill_tmp 32 n base small) e))
        (omega arith)
  | inr e ↦
      let h : length (fill_tmp 32 n base small) ≤ 32 = length-fill_tmp 32 n base small in
      subst (λ (l : List ℕ). length l ≤ 36) (sym (if_false (48 ∷ []) (fill_tmp 32 n base small) e))
        (omega arith)
]

magnitude-bound : (f : Flags) (num : ℕ) → num < 2 ^ 32 → magnitude f num < 2 ^ 32
magnitude-bound f num h = elim (Bool-cases (is_negative f num)) [
  | inl e ↦
      let l : 2 ^ 31 ≤ num = ground arith in
      subst (λ n. n < 2 ^ 32) (sym (if_true (2 ^ 32 - num) num e)) (omega arith)
  | inr e ↦ subst (λ n. n < 2 ^ 32) (sym (if_false (2 ^ 32 - num) num e)) h
]

-- Zeros before the digits do not change what is read, and count.
read-zeros : (base z : ℕ) (cs : List ℕ) → read base 0 (copies z 48 ++ cs) ≡ read base 0 cs
read-zeros base z cs =
    read-append base 0 (copies z 48) cs ∙ ap (λ v. read base v cs) (read-copies base z)

read_tmp :
    (n base : ℕ) (small : Bool)
    → 2 ≤ base
    → base ≤ 36
    → n < 2 ^ 32
    → read base 0 (backwards (tmp_of n base small) []) ≡ n
unfolding read
read_tmp n base small lo hi h =
    read-backwards base (tmp_of n base small) [] ∙ read-tmp_of n base small lo hi h

pub four_parts : (x z y b t : List ℕ) → x ++ z ++ y ++ b ++ t ≡ x ++ (z ++ y ++ b) ++ t
four_parts x z y b t =
    ap (λ l. l ++ t) (ap (λ l. l ++ b) (append_assoc x z y) ∙ append_assoc x (z ++ y) b)

-- The body with `n` zeros for the size in front
unfoldable pub body_of : (n num base precision : ℕ) → Flags → List ℕ
body_of n num base precision f =
    let tmp : List ℕ = tmp_of (magnitude f num) base f.small in
    copies n 48 ++ copies (max (length tmp) precision - length tmp) 48 ++ backwards tmp []

pub body_of-value :
    (n num base precision : ℕ) (f : Flags)
    → 2 ≤ base
    → base ≤ 36
    → num < 2 ^ 32
    → read base 0 (body_of n num base precision f) ≡ magnitude f num
unfolding body_of
body_of-value n num base precision f lo hi h =
    let tmp : List ℕ = tmp_of (magnitude f num) base f.small in
    let z : ℕ = max (length tmp) precision - length tmp in
    ap (read base 0) (append_assoc (copies n 48) (copies z 48) (backwards tmp []))
    ∙ read-zeros base n (copies z 48 ++ backwards tmp [])
    ∙ read-zeros base z (backwards tmp [])
    ∙ read_tmp (magnitude f num) base f.small lo hi (magnitude-bound f num h)

pub body_of-length :
    (n num base precision : ℕ) (f : Flags)
    → length (body_of n num base precision f)
      ≡ n + max (length (tmp_of (magnitude f num) base f.small)) precision
unfolding body_of
body_of-length n num base precision f =
    let tmp : List ℕ = tmp_of (magnitude f num) base f.small in
    let z : ℕ = max (length tmp) precision - length tmp in
    length-append (copies n 48 ++ copies z 48) (backwards tmp [])
    ∙ ap (λ k. k + length (backwards tmp [])) (length-append (copies n 48) (copies z 48))
    ∙ sum (length (copies n 48)) n (length (copies z 48)) (length tmp) precision
        (length (backwards tmp [])) (length-copies n 48) (length-copies z 48)
        (length-backwards tmp [])
  where
    sum : (a n b l p c : ℕ) → a ≡ n → b ≡ max l p - l → c ≡ l + 0 → a + b + c ≡ n + max l p
    sum a n b l p c x y z = ground arith

pub body_of-AllDigits :
    (n num base precision : ℕ) (f : Flags)
    → 2 ≤ base
    → AllDigits base f.small (body_of n num base precision f)
unfolding body_of
body_of-AllDigits n num base precision f lo =
    let tmp : List ℕ = tmp_of (magnitude f num) base f.small in
    let z : ℕ = max (length tmp) precision - length tmp in
    AllDigits-append base f.small (copies n 48 ++ copies z 48) (backwards tmp [])
      (AllDigits-append base f.small (copies n 48) (copies z 48)
        (AllDigits-copies base f.small n (omega arith))
        (AllDigits-copies base f.small z (omega arith)))
      (AllDigits-backwards base f.small tmp [] (digits (magnitude f num)) tt)
  where
    digits : (n : ℕ) → AllDigits base f.small (tmp_of n base f.small)
    digits n = elim (Bool-cases (n == 0)) [
      | inl e ↦
          subst (AllDigits base f.small) (sym (if_true (48 ∷ []) (fill_tmp 32 n base f.small) e))
            ((0, omega arith, refl), tt)
      | inr e ↦
          subst (AllDigits base f.small) (sym (if_false (48 ∷ []) (fill_tmp 32 n base f.small) e))
            (AllDigits-fill_tmp 32 n base f.small (omega arith))
    ]
