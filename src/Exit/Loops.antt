-- ===== src/Exit/Loops.antt =====
-- kernel/exit.c: the loops of `sys_kill` over the slots of tasks.
use my_practice.Base.{
  ℕ, zero, suc, ◌≤◌, ◌<◌, ◌≡◌, ◌≢◌, refl, sym, ap, ◌∙◌, ◌⊎◌, inl, inr, Bool, true, false, not,
  Option, ◌==◌, if◌then◌else◌, arith, Bool-cases, if_true, if_false,
}
use mathlib.Core.Path.{subst}
use my_practice.Exit.{TaskStruct, Slots, each_slot}

-- A body that changes the slot `i` by `g` alone, with an error exactly where `bad` tells of one
pub record OneSlot (g : Option TaskStruct → Option TaskStruct) (bad : Option TaskStruct → Bool)
    (i : ℕ) (t : Slots) (r : ℕ × Slots) : Type 0 where
  pub at : r.1 i ≡ g (t i)
  pub others : (j : ℕ) → i ≢ j → r.1 j ≡ t j
  pub error : (r.0 == 0) ≡ not (bad (t i))

-- The loop does this to every slot from 1 to `n`, and returns `retval` where there was no error.
pub record EachSlot (g : Option TaskStruct → Option TaskStruct) (bad : Option TaskStruct → Bool)
    (n retval : ℕ) (t : Slots) (r : ℕ × Slots) : Type 0 where
  pub at : (j : ℕ) → 1 ≤ j → j ≤ n → r.1 j ≡ g (t j)
  pub others : (j : ℕ) → (j ≡ 0) ⊎ (n < j) → r.1 j ≡ t j
  pub good : ((j : ℕ) → 1 ≤ j → j ≤ n → bad (t j) ≡ false) → r.0 ≡ retval
  pub failed : (j : ℕ) → 1 ≤ j → j ≤ n → bad (t j) ≡ true → r.0 ≢ 0
  pub kept : retval ≢ 0 → r.0 ≢ 0

pub each_slot-EachSlot :
    (g : Option TaskStruct → Option TaskStruct) (bad : Option TaskStruct → Bool)
    (one : ℕ → Slots → ℕ × Slots)
    → ((i : ℕ) (t : Slots) → OneSlot g bad i t (one i t))
    → (n retval : ℕ) (t : Slots) → EachSlot g bad n retval t (each_slot n one retval t)
unfolding each_slot
each_slot-EachSlot g bad one h zero retval t = record {
  at = λ j a b. absurd (omega arith);
  others = λ j c. refl;
  good = λ a. refl;
  failed = λ j a b. absurd (omega arith);
  kept = λ n. n;
}
each_slot-EachSlot g bad one h (suc n) retval t =
    let o : OneSlot g bad (suc n) t (one (suc n) t) = h (suc n) t in
    let r : ℕ × Slots = one (suc n) t in
    let v : ℕ = if r.0 == 0 then retval else r.0 in
    let ih : EachSlot g bad n v r.1 (each_slot n one v r.1) =
      each_slot-EachSlot g bad one h n v r.1 in
    record {
      at = λ j a b. elim (last_cases n j b) [
        | inl e ↦
            subst (λ k. (each_slot n one v r.1).1 k ≡ g (t k)) (sym e)
              (ih.others (suc n) (inr (omega arith)) ∙ o.at)
        | inr l ↦ ih.at j a l ∙ ap g (o.others j (λ e. absurd (omega arith)))
      ];
      others = λ j c.
          ih.others j (elim c [ inl e ↦ inl e | inr l ↦ inr (omega arith) ])
          ∙ o.others j (elim c [ inl e ↦ (λ q. omega arith) | inr l ↦ (λ q. omega arith) ]);
      good = λ a.
          ih.good (λ j x y. ap bad (o.others j (λ e. absurd (omega arith))) ∙ a j x (omega arith))
          ∙ if_true retval r.0 (o.error ∙ ap not (a (suc n) (omega arith) (omega arith)));
      failed = λ j a b e. elim (last_cases n j b) [
        | inl q ↦
            let z : (r.0 == 0) ≡ false = o.error ∙ ap not (ap (λ k. bad (t k)) (sym q) ∙ e) in
            ih.kept (subst (λ x. x ≢ 0) (sym (if_false retval r.0 z)) (ground arith))
        | inr l ↦ ih.failed j a l (ap bad (o.others j (λ q. absurd (omega arith))) ∙ e)
      ];
      kept = λ m. ih.kept (elim (Bool-cases (r.0 == 0)) [
        | inl z ↦ subst (λ x. x ≢ 0) (sym (if_true retval r.0 z)) m
        | inr z ↦ subst (λ x. x ≢ 0) (sym (if_false retval r.0 z)) (ground arith)
      ]);
    }
  where
    last_cases : (n j : ℕ) → j ≤ suc n → (j ≡ suc n) ⊎ (j ≤ n)
    last_cases n j h = ground arith
