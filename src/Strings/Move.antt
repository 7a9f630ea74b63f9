-- ===== src/Strings/Move.antt =====
-- include/string.h: what the moves of bytes leave.
use my_practice.Base.{
  ℕ, zero, suc, ◌+◌, ◌-◌, ◌≤◌, ◌<◌, ◌≡◌, refl, sym, ap, ◌∙◌, ◌⊎◌, inl, inr, ltb, ltb→lt, update,
  update_ne, update_self, arith, Bool-cases, if_true, if_false,
}
use mathlib.Core.Path.{subst}
use my_practice.Strings.{Bytes, movsb, movsb_down, memmove}

-- `n` bytes from `src` are at `dest`, and no other byte is changed.
pub record Moved (n src dest : ℕ) (m m' : Bytes) : Type 0 where
  pub moved : (i : ℕ) → i < n → m' (dest + i) ≡ m (src + i)
  pub others : (a : ℕ) → (a < dest) ⊎ (dest + n ≤ a) → m' a ≡ m a

-- A move upwards does not write what it reads later.
abbrev pub Apart : (n src dest : ℕ) → Type 0
Apart n src dest = (dest ≤ src) ⊎ (src + n ≤ dest)

zero_cases : (i : ℕ) → (i ≡ 0) ⊎ ((j : ℕ) × (i ≡ suc j))
zero_cases zero = inl refl
zero_cases (suc i) = inr (i, refl)

-- The bytes of a move upwards, by its first one and the others
pub first-Moved :
    (n src dest : ℕ) (m m' : Bytes)
    → Apart (suc n) src dest
    → Moved n (src + 1) (dest + 1) (update m dest (m src)) m'
    → Moved (suc n) src dest m m'
first-Moved n src dest m m' p h = record {
  moved = λ i l. elim (zero_cases i) [
    | inl e ↦
        ap (λ k. m' (dest + k)) e
        ∙ h.others (dest + 0) (inl (omega arith))
        ∙ ap (update m dest (m src)) (omega arith)
        ∙ update_self m dest (m src)
        ∙ ap m (omega arith)
    | inr (j, e) ↦
        ap m' (omega arith)
        ∙ h.moved j (omega arith)
        ∙ update_ne m dest (m src) (src + 1 + j)
            (λ q. elim p [ inl x ↦ absurd (omega arith) | inr x ↦ absurd (omega arith) ])
        ∙ ap m (omega arith)
  ];
  others = λ a c. elim c [
    | inl x ↦
        h.others a (inl (omega arith)) ∙ update_ne m dest (m src) a (λ q. absurd (omega arith))
    | inr x ↦
        h.others a (inr (omega arith)) ∙ update_ne m dest (m src) a (λ q. absurd (omega arith))
  ];
}

pub movsb-Moved :
    (n src dest : ℕ) (m : Bytes) → Apart n src dest → Moved n src dest m (movsb n src dest m)
unfolding movsb
movsb-Moved zero src dest m p = record { moved = λ i l. absurd (omega arith); others = λ a c. refl }
movsb-Moved (suc n) src dest m p =
    first-Moved n src dest m (movsb n (src + 1) (dest + 1) (update m dest (m src))) p (
      movsb-Moved n (src + 1) (dest + 1) (update m dest (m src))
        (elim p [ inl x ↦ inl (omega arith) | inr x ↦ inr (omega arith) ]))

last_cases : (n i : ℕ) → i < suc n → (i ≡ n) ⊎ (i < n)
last_cases n i h = ground arith

-- A move downwards, from the last byte of each
movsb_down-Moved :
    (n src dest esi edi : ℕ) (m : Bytes)
    → src ≤ dest
    → esi ≡ src + n - 1
    → edi ≡ dest + n - 1
    → Moved n src dest m (movsb_down n esi edi m)
unfolding movsb_down
movsb_down-Moved zero src dest esi edi m p es ed = record {
  moved = λ i l. absurd (omega arith);
  others = λ a c. refl;
}
movsb_down-Moved (suc n) src dest esi edi m p es ed =
    let u : Bytes = update m edi (m esi) in
    let h : Moved n src dest u (movsb_down n (esi - 1) (edi - 1) u) =
      movsb_down-Moved n src dest (esi - 1) (edi - 1) u p (omega arith) (omega arith) in
    record {
      moved = λ i l. elim (last_cases n i l) [
        | inl e ↦
            ap (movsb_down n (esi - 1) (edi - 1) u) (omega arith)
            ∙ h.others edi (inr (omega arith))
            ∙ update_self m edi (m esi)
            ∙ ap m (omega arith)
        | inr x ↦ h.moved i x ∙ update_ne m edi (m esi) (src + i) (λ q. absurd (omega arith))
      ];
      others = λ a c. elim c [
        | inl x ↦ h.others a (inl x) ∙ update_ne m edi (m esi) a (λ q. absurd (omega arith))
        | inr x ↦
            h.others a (inr (omega arith)) ∙ update_ne m edi (m esi) a (λ q. absurd (omega arith))
      ];
    }

-- `memmove` leaves at `dest` the bytes that were at `src`, and changes no other byte, however the
-- two overlap.
pub memmove-Moved : (n src dest : ℕ) (m : Bytes) → Moved n src dest m (memmove dest src n m)
unfolding memmove
memmove-Moved n src dest m = elim (Bool-cases (ltb dest src)) [
  | inl e ↦
      let l : dest < src = ltb→lt _ _ e in
      subst (Moved n src dest m) (sym (if_true _ _ e))
        (movsb-Moved n src dest m (inl (omega arith)))
  | inr e ↦
      let l : src ≤ dest = ground arith in
      subst (Moved n src dest m) (sym (if_false _ (movsb_down n (src + n - 1) (dest + n - 1) m) e))
        (movsb_down-Moved n src dest (src + n - 1) (dest + n - 1) m l refl refl)
]
