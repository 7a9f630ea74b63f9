-- ===== src/Format/Number.antt =====
-- kernel/vsprintf.c: what `number` prints.
use my_practice.Base.{
  ℕ, ◌+◌, ◌-◌, ◌^◌, ◌≤◌, ◌<◌, ◌≡◌, refl, sym, ap, ◌∙◌, Bool, true, false, not, ◌&&◌, ◌||◌, none,
  some, ltb, if_false, arith, List, [], ◌++◌, length,
}
use mathlib.Core.Path.{subst}
use my_practice.Format.{
  Flags, tmp_of, copies, backwards, magnitude, sign_of, prefix_of, max, pad_of, lay_out, number,
}
use my_practice.Format.Digits.{read, AllDigits}
use my_practice.Format.Parts.{
  length-tmp_of, four_parts, body_of, body_of-value, body_of-length, body_of-AllDigits,
}

-- The digits that are printed without ZEROPAD: those of the number, or the precision where it is more
abbrev pub digit_count : (num base precision : ℕ) → Flags → ℕ
digit_count num base precision f = max (length (tmp_of (magnitude f num) base f.small)) precision

-- Blanks, the sign, the prefix, the digits, and blanks. The digits are digits of the base and are read
-- as the number; all is as long as the size, or as the sign, the prefix and the digits where these are
-- longer. Blanks are in front only without ZEROPAD and LEFT, behind only with LEFT, and there are more
-- digits than needed only with ZEROPAD and without LEFT. At most 36 of them are written to `tmp`.
pub record Printed (num base size precision : ℕ) (f : Flags) (out : List ℕ) : Type 0 where
  pub before : ℕ
  pub after : ℕ
  pub body : List ℕ
  pub all : out ≡ copies before 32 ++ sign_of f num ++ prefix_of f base ++ body ++ copies after 32
  pub digits : AllDigits base f.small body
  pub value : read base 0 body ≡ magnitude f num
  pub width :
      before + length (sign_of f num) + length (prefix_of f base) + length body + after
      ≡ max size
          (length (sign_of f num) + length (prefix_of f base) + digit_count num base precision f)
  pub least : digit_count num base precision f ≤ length body
  pub exact : (f.zeropad && not f.left) ≡ false → length body ≡ digit_count num base precision f
  pub none_before : (f.zeropad || f.left) ≡ true → before ≡ 0
  pub none_after : f.left ≡ false → after ≡ 0
  pub fits : length (tmp_of (magnitude f num) base f.small) ≤ 36

record LaidOut (zero_pad left : Bool) (pad ahead : ℕ) (sign prefix tmp out : List ℕ) : Type 0 where
  before : ℕ
  inner : ℕ
  after : ℕ
  all :
      out
      ≡ copies before 32
        ++ sign
        ++ prefix
        ++ (copies inner 48 ++ copies ahead 48 ++ backwards tmp [])
        ++ copies after 32
  sum : before + inner + after ≡ pad
  front : (zero_pad || left) ≡ true → before ≡ 0
  back : left ≡ false → after ≡ 0
  filled : zero_pad ≡ false → inner ≡ 0

lay_out-LaidOut :
    (zero_pad left : Bool) (pad ahead : ℕ) (sign prefix tmp : List ℕ)
    → (zero_pad && left) ≡ false
    → LaidOut zero_pad left pad ahead sign prefix tmp
        (lay_out zero_pad left pad ahead sign prefix tmp)
unfolding lay_out copies
lay_out-LaidOut true true pad ahead sign prefix tmp h = cc
lay_out-LaidOut true false pad ahead sign prefix tmp h = record {
  before = 0;
  inner = pad;
  after = 0;
  all = four_parts (sign ++ prefix) (copies pad 48) (copies ahead 48) (backwards tmp []) [];
  sum = omega arith;
  front = λ h. refl;
  back = λ h. refl;
  filled = λ h. cc;
}
lay_out-LaidOut false true pad ahead sign prefix tmp h = record {
  before = 0;
  inner = 0;
  after = pad;
  all = four_parts (sign ++ prefix) [] (copies ahead 48) (backwards tmp []) (copies pad 32);
  sum = omega arith;
  front = λ h. refl;
  back = λ h. cc;
  filled = λ h. refl;
}
lay_out-LaidOut false false pad ahead sign prefix tmp h = record {
  before = pad;
  inner = 0;
  after = 0;
  all = four_parts (copies pad 32 ++ sign ++ prefix) [] (copies ahead 48) (backwards tmp []) [];
  sum = omega arith;
  front = λ h. cc;
  back = λ h. refl;
  filled = λ h. refl;
}

-- `number`, for a base from 2 to 36, gives blanks, the sign, the prefix and digits of the base that are
-- read as the number, exactly as long as the size or, where that needs more, as the sign, the prefix
-- and the digits, of which there are at least as many as the precision. Without ZEROPAD, or with LEFT,
-- blanks and not zeros fill up to the size; `tmp` is not overrun.
pub number-Printed :
    (num base size precision : ℕ) (f : Flags)
    → 2 ≤ base
    → base ≤ 36
    → num < 2 ^ 32
    → (out : List ℕ) × (number num base size precision f ≡ some out)
      × Printed num base size precision f out
unfolding number body_of
number-Printed num base size precision f lo hi h =
    let tmp : List ℕ = tmp_of (magnitude f num) base f.small in
    let z : ℕ = max (length tmp) precision - length tmp in
    let pad : ℕ = pad_of num base size precision f in
    let out : List ℕ =
      lay_out (f.zeropad && not f.left) f.left pad z (sign_of f num) (prefix_of f base) tmp in
    let l : LaidOut (f.zeropad && not f.left) f.left pad z (sign_of f num) (prefix_of f base) tmp
        out =
      lay_out-LaidOut (f.zeropad && not f.left) f.left pad z (sign_of f num) (prefix_of f base) tmp
        (apart f.zeropad f.left) in
    let sum : l.before + l.inner + l.after ≡ pad = l.sum in
    let b : length (body_of l.inner num base precision f) ≡ l.inner + max (length tmp) precision =
      body_of-length l.inner num base precision f in
    (
      out,
      if_false none (some out) (good base lo hi),
      record {
        before = l.before;
        after = l.after;
        body = body_of l.inner num base precision f;
        all = l.all;
        value = body_of-value l.inner num base precision f lo hi h;
        digits = body_of-AllDigits l.inner num base precision f lo;
        width =
            subst
              (λ n.
                l.before + length (sign_of f num) + length (prefix_of f base) + n + l.after
                ≡ max size (
                    length (sign_of f num)
                    + length (prefix_of f base)
                    + digit_count num base precision f))
              (sym b)
              (wide size l.before l.inner l.after (length (sign_of f num))
                (length (prefix_of f base)) (max (length tmp) precision) sum);
        least = subst (λ n. digit_count num base precision f ≤ n) (sym b) (omega arith);
        exact = λ h. b ∙ ap (λ n. n + digit_count num base precision f) (l.filled h) ∙ omega arith;
        none_before = λ h. l.front (either f.zeropad f.left h);
        none_after = l.back;
        fits = length-tmp_of (magnitude f num) base f.small;
      },
    )
  where
    apart : (z l : Bool) → ((z && not l) && l) ≡ false
    apart z l = ground arith

    good : (n : ℕ) → 2 ≤ n → n ≤ 36 → (ltb n 2 || ltb 36 n) ≡ false
    good n a b = ground arith

    either : (z l : Bool) → (z || l) ≡ true → ((z && not l) || l) ≡ true
    either z l h = ground arith

    wide :
        (size b i a s p m : ℕ)
        → b + i + a ≡ size - s - p - m
        → b + s + p + (i + m) + a ≡ max size (s + p + m)
    wide size b i a s p m e = ground arith
