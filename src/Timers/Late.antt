-- ===== src/Timers/Late.antt =====
-- kernel/sched.c: when the timers of a list are due, and what `add_timer` changes of it.
use my_practice.Base.{
  ℕ, ◌+◌, ◌-◌, ◌≤◌, ◌<◌, ◌≡◌, refl, sym, ap, ◌∙◌, inl, inr, false, Option, some, ltb, ◌==◌, arith,
  List, [], ◌∷◌, ◌++◌, Bool-cases,
}
use mathlib.Core.Path.{subst}
use my_practice.Timers.{Timers, added, time_requests, free_entry, add_timer}
use my_practice.Timers.Sift.{Entry, view, insert, insert-before, insert-after}
use my_practice.Timers.Due.{IsList, add_timer-Inserted}

-- The ticks after which each entry of a list is due, where the list's first delay starts at `now`
abbrev pub due : (now : ℕ) → List Entry → List Entry
due now [] = []
due now ((j, f) ∷ es) = (now + j, f) ∷ due (now + j) es

abbrev pub total : List Entry → ℕ
total [] = 0
total ((j, f) ∷ es) = j + total es

due-append :
    (now : ℕ) (es fs : List Entry) → due now (es ++ fs) ≡ due now es ++ due (now + total es) fs
due-append now [] fs = ap (λ n. due n fs) (omega arith)
due-append now ((j, f) ∷ es) fs =
    ap (λ l. (now + j, f) ∷ l)
      (due-append (now + j) es fs ∙ ap (λ n. due (now + j) es ++ due n fs) (omega arith))

due_append0 : (es fs : List Entry) → due 0 (es ++ fs) ≡ due 0 es ++ due (total es) fs
due_append0 es fs = due-append 0 es fs ∙ ap (λ n. due 0 es ++ due n fs) (omega arith)

sub_zero : (n : ℕ) → n - 0 ≡ n
sub_zero n = omega arith

-- The first entry behind `now` is due at `j` or later.
abbrev pub NotBefore : (j now : ℕ) → List Entry → Type 0
NotBefore j now [] = Unit {0}
NotBefore j now ((k, g) ∷ es) = j ≤ now + k

-- A list `old` is the entries `before`, which are due before `j`, and `after`, which are not. Those
-- `before` keep their times, the new one is due after `j` ticks, and those `after` count from it and
-- not from the end of `before`.
pub record Late (j : ℕ) (f : Option ℕ) (old new : List Entry) : Type 0 where
  pub before : List Entry
  pub after : List Entry
  pub old_due : due 0 old ≡ due 0 before ++ due (total before) after
  pub new_due : due 0 new ≡ due 0 before ++ (j, f) ∷ due j after
  pub earlier : total before < j
  pub later : NotBefore j (total before) after

record Split (j : ℕ) (f : Option ℕ) (es : List Entry) : Type 0 where
  before : List Entry
  after : List Entry
  old : es ≡ before ++ after
  new : insert j f es ≡ before ++ (j - total before, f) ∷ after
  earlier : total before < j
  later : NotBefore j (total before) after

NotBefore-add :
    (j now k : ℕ) (es : List Entry) → k < j → NotBefore (j - k) now es → NotBefore j (k + now) es
NotBefore-add j now k [] h n = tt
NotBefore-add j now k ((i, g) ∷ es) h n = omega arith

insert-Split : (j : ℕ) (f : Option ℕ) (es : List Entry) → 1 ≤ j → Split j f es
insert-Split j f [] pos_j = record {
  before = [];
  after = [];
  old = refl;
  new = ap (λ n. (n, f) ∷ []) (sym (sub_zero j));
  earlier = omega arith;
  later = tt;
}
insert-Split j f ((k, g) ∷ es) pos_j = elim (Bool-cases (ltb k j)) [
  | inl h ↦
      let le : k < j = ground arith in
      let s : Split (j - k) f es = insert-Split (j - k) f es (omega arith) in
      let e : total s.before < j - k = s.earlier in
      record {
        before = (k, g) ∷ s.before;
        after = s.after;
        old = ap (λ l. (k, g) ∷ l) s.old;
        new =
            insert-after j k f g es h
            ∙ ap (λ l. (k, g) ∷ l) (s.new ∙ ap (λ n. s.before ++ (n, f) ∷ s.after) (omega arith));
        earlier = omega arith;
        later = NotBefore-add j (total s.before) k s.after le s.later;
      }
  | inr h ↦ record {
    before = [];
    after = (k, g) ∷ es;
    old = refl;
    new = insert-before j k f g es h ∙ ap (λ n. (n, f) ∷ (k, g) ∷ es) (sym (sub_zero j));
    earlier = omega arith;
    later = ground arith;
  }
]

insert-Late : (j : ℕ) (f : Option ℕ) (es : List Entry) → 1 ≤ j → Late j f es (insert j f es)
insert-Late j f es pos_j =
    let s : Split j f es = insert-Split j f es pos_j in
    let e : total s.before + (j - total s.before) ≡ j =
      (let le : total s.before < j = s.earlier in omega arith) in
    record {
      before = s.before;
      after = s.after;
      old_due = ap (due 0) s.old ∙ due_append0 s.before s.after;
      new_due =
          ap (due 0) s.new
          ∙ due_append0 s.before ((j - total s.before, f) ∷ s.after)
          ∙ ap (λ n. due 0 s.before ++ (n, f) ∷ due n s.after) e;
      earlier = s.earlier;
      later = s.later;
    }

-- On a list of distinct entries in use, fewer than there are, `add_timer` with a positive delay and
-- a free entry left makes a list in which the new timer is due after its delay, behind exactly the
-- timers due before it, which keep their times, while all that follow count from the new one and not from the one
-- before it, so that they are late by the difference.
pub add_timer-Late :
    (j f p : ℕ) (ps : List ℕ) (t : Timers)
    → IsList t ps
    → (j == 0) ≡ false
    → free_entry time_requests 0 t.fn ≡ some p
    → (t' : Timers) × (add_timer j (some f) t ≡ added t')
      × (t'.next_timer ≡ some p)
      × Late j (some f) (view t ps) (view t' (p ∷ ps))
add_timer-Late j f p ps t h z e =
    let (t', a, i) = add_timer-Inserted j f p ps t h z e in
    (
      t',
      a,
      i.first,
      subst (Late j (some f) (view t ps)) (sym i.view)
          (insert-Late j (some f) (view t ps) (ground arith)),
    )
