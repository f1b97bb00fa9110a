-- ===== src/Sched/Waitq/Reach.antt =====
-- The wait queues that a task can come to have.
use mathlib.Core.Option.{some-injective}
use mathlib.Core.Path.{subst}
use sdx.Prelude.{
  ℕ, refl, sym, ap, Option, none, some, List, [], arith, length, ◌≤◌, ◌≡◌, ◌≢◌, ◌∙◌, ◌∷◌,
}
use sdx.Errno.{Result, ok}
use sdx.Sched.Waitq.{Cell, Heap, Waitq, Child, add, pop}
use sdx.Sched.Waitq.Contents.{
  Entry, entry_of, Holds, after_add, add-after_add, Taken, pop-head, Absent-none,
}

-- A new task has no entries; then children die, with a cell that is not in use, and the task waits.
pub data Reach : Waitq → Type 0 where
  start : (h : Heap) → Reach (record { head = 0; tail = 0; heap = h })
  died :
      (fresh : ℕ) (child : Child) {q q' : Waitq}
      → Reach q
      → fresh ≢ 0
      → q.heap fresh ≡ none
      → add fresh child q ≡ some (ok tt, q')
      → Reach q'
  waited :
      {q q' : Waitq} {found : Option (ℕ × Cell)} → Reach q → pop q ≡ some (found, q') → Reach q'

abbrev pub Few : Waitq → Type 0
Few q = (xs : List (ℕ × Entry)) × Holds q xs × (length xs ≤ 2)

after_add-le : (xs : List (ℕ × Entry)) (x : ℕ × Entry) → length (after_add xs x) ≤ 2
after_add-le [] x = omega arith
after_add-le (_ ∷ _) x = omega arith

Taken-le :
    (xs ys : List (ℕ × Entry)) (found : Option (ℕ × Cell))
    → Taken xs found ys
    → length ys ≤ length xs
Taken-le [] ys found (a, e) = rw e (omega arith)
Taken-le (x ∷ xs) ys found (a, e) = rw e (omega arith)

-- In every reachable state the wait queue holds two entries at most, however many children died.
pub Reach-Few : {q : Waitq} → Reach q → Few q
Reach-Few (start h) = ([], record { chain = refl; tail_is_head = refl }, omega arith)
Reach-Few (died fresh child {q} {q'} r ne unused e) =
    let (xs, holds, few) = Reach-Few r in
    let (t, e', holds') =
      add-after_add fresh child q xs ne (Absent-none q.heap fresh q.head xs unused holds.chain)
        holds in
    let same : t ≡ q' =
      ap (λ (p : Result (Unit {0}) × Waitq). p.1) (some-injective _ _ (sym e' ∙ e)) in
    (
      after_add xs (fresh, entry_of child),
      subst (λ w. Holds w (after_add xs (fresh, entry_of child))) same holds',
      after_add-le xs (fresh, entry_of child),
    )
Reach-Few (waited {q} {q'} {found} r e) =
    let (xs, holds, few) = Reach-Few r in
    let (found', t, ys, e', taken, holds') = pop-head q xs holds in
    let same : t ≡ q' =
      ap (λ (p : Option (ℕ × Cell) × Waitq). p.1) (some-injective _ _ (sym e' ∙ e)) in
    let shorter = Taken-le xs ys found' taken in
    (ys, subst (λ w. Holds w ys) same holds', omega arith)
