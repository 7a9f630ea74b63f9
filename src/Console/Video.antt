-- ===== src/Console/Video.antt =====
-- kernel/chr_drv/console.c: the loops over video memory write inside a range.
use my_practice.Base.{
  ℕ, zero, suc, ◌+◌, ◌-◌, ◌*◌, ◌/◌, ◌≤◌, ◌<◌, ◌≡◌, refl, ◌∙◌, ◌⊎◌, arith, update, List, [], ◌∷◌,
  update_ne, length,
}
use my_practice.Console.{
  fill, fill_down, movsl, move, move_down, insert_words, delete_words, show_text,
}

-- The word at `a` does not lie between `lo` and `hi`.
abbrev pub Outside : (lo hi a : ℕ) → Type 0
Outside lo hi a = (a < lo) ⊎ (hi < a + 2)

module _ (lo hi a : ℕ) (out : Outside lo hi a) where
  pub update-Outside : (w : ℕ → ℕ) (p v : ℕ) → lo ≤ p → p + 2 ≤ hi → update w p v a ≡ w a
  update-Outside w p v l h = update_ne w p v a (λ e. omega arith)

  pub fill-Outside : (n at v : ℕ) (w : ℕ → ℕ) → lo ≤ at → at + n * 2 ≤ hi → fill n at v w a ≡ w a
  unfolding fill
  fill-Outside zero at v w l h = refl
  fill-Outside (suc n) at v w l h =
      fill-Outside n (at + 2) v (update w at v) (omega arith) (omega arith)
      ∙ update-Outside w at v l (omega arith)

  -- The last of the words is `top`, and they end at `lo`.
  pub fill_down-Outside :
      (n at v : ℕ) (w : ℕ → ℕ) → lo + n * 2 ≤ at + 2 → at + 2 ≤ hi → fill_down n at v w a ≡ w a
  unfolding fill_down
  fill_down-Outside zero at v w l h = refl
  fill_down-Outside (suc zero) at v w l h = update-Outside w at v (omega arith) h
  fill_down-Outside (suc (suc n)) at v w l h =
      fill_down-Outside (suc n) (at - 2) v (update w at v) (omega arith) (omega arith)
      ∙ update-Outside w at v (omega arith) h

  pub movsl-Outside : (to from : ℕ) (w : ℕ → ℕ) → lo ≤ to → to + 4 ≤ hi → movsl to from w a ≡ w a
  movsl-Outside to from w l h =
      update-Outside (update w to (w from)) (to + 2) (w (from + 2)) (omega arith) (omega arith)
      ∙ update-Outside w to (w from) l (omega arith)

  pub move-Outside :
      (n to from : ℕ) (w : ℕ → ℕ) → lo ≤ to → to + n * 4 ≤ hi → move n to from w a ≡ w a
  unfolding move
  move-Outside zero to from w l h = refl
  move-Outside (suc n) to from w l h =
      move-Outside n (to + 4) (from + 4) (movsl to from w) (omega arith) (omega arith)
      ∙ movsl-Outside to from w l (omega arith)

  pub move_down-Outside :
      (n to from : ℕ) (w : ℕ → ℕ)
      → lo + n * 4 ≤ to + 4
      → to + 4 ≤ hi
      → move_down n to from w a ≡ w a
  unfolding move_down
  move_down-Outside zero to from w l h = refl
  move_down-Outside (suc zero) to from w l h = movsl-Outside to from w (omega arith) h
  move_down-Outside (suc (suc n)) to from w l h =
      move_down-Outside (suc n) (to - 4) (from - 4) (movsl to from w) (omega arith) (omega arith)
      ∙ movsl-Outside to from w (omega arith) h

  pub insert_words-Outside :
      (n p old : ℕ) (w : ℕ → ℕ) → lo ≤ p → p + n * 2 ≤ hi → insert_words n p old w a ≡ w a
  unfolding insert_words
  insert_words-Outside zero p old w l h = refl
  insert_words-Outside (suc n) p old w l h =
      insert_words-Outside n (p + 2) (w p) (update w p old) (omega arith) (omega arith)
      ∙ update-Outside w p old l (omega arith)

  pub delete_words-Outside :
      (n p v : ℕ) (w : ℕ → ℕ) → lo ≤ p → p + n * 2 + 2 ≤ hi → delete_words n p v w a ≡ w a
  unfolding delete_words
  delete_words-Outside zero p v w l h = update-Outside w p v l (omega arith)
  delete_words-Outside (suc n) p v w l h =
      delete_words-Outside n (p + 2) v (update w p (w (p + 2))) (omega arith) (omega arith)
      ∙ update-Outside w p (w (p + 2)) l (omega arith)

  pub show_text-Outside :
      (cs : List ℕ) (p : ℕ) (w : ℕ → ℕ) → lo ≤ p → p + length cs * 2 ≤ hi → show_text cs p w a ≡ w a
  unfolding show_text
  show_text-Outside [] p w l h = refl
  show_text-Outside (c ∷ cs) p w l h =
      show_text-Outside cs (p + 2) (update w p (w p / 256 * 256 + c)) (omega arith) (omega arith)
      ∙ update-Outside w p (w p / 256 * 256 + c) l (omega arith)
