-- ===== src/Sched/Waitq/Contents.antt =====
-- What a wait queue holds, and how adding and taking change it.
use sdx.Prelude.{ℕ, refl, Option, none, some, List, [], arith, ◌≡◌, ◌≢◌, ◌∷◌}
use sdx.Errno.{ok}
use sdx.Sched.Waitq.{Cell, Heap, Waitq, Child, status_of, cell_of, write, add, pop}

-- A child's process number and status, as a parent receives them.
abbrev pub Entry : Type 0
Entry = ℕ × ℕ

abbrev pub entry_of : Child → Entry
entry_of c = (c.pid, status_of c)

-- From `p` the pointers lead through the entries of a list of addresses and entries.
abbrev pub Chain : Heap → ℕ → List (ℕ × Entry) → Type 0
Chain h p [] = p ≡ 0
Chain h p ((a, (pid, status)) ∷ rest) =
    (p ≡ a)
    × (a ≢ 0)
    × ((next : ℕ) × (h a ≡ some (record { pid = pid; status = status; next = next }))
        × Chain h next rest)

abbrev pub Absent : ℕ → List (ℕ × Entry) → Type 0
Absent a [] = Unit
Absent a ((b, e) ∷ rest) = (a ≢ b) × Absent a rest

Chain-write :
    (h : Heap) (a : ℕ) (c : Cell) (p : ℕ) (xs : List (ℕ × Entry))
    → Absent a xs
    → Chain h p xs
    → Chain (write h a c) p xs
unfolding write
Chain-write h a c p [] out chain = chain
Chain-write h a c p ((b, e) ∷ rest) (ne, out) (x, y, (next, cell, chain)) =
    (x, y, (next, ground (arith, cell), Chain-write h a c next rest out chain))

-- The queue holds the entries `xs`, and its tail pointer is its head pointer.
pub record Holds (q : Waitq) (xs : List (ℕ × Entry)) : Type 0 where
  pub chain : Chain q.heap q.head xs
  pub tail_is_head : q.tail ≡ q.head

-- What adding makes of a queue: all but its first entry is dropped.
abbrev pub after_add : List (ℕ × Entry) → ℕ × Entry → List (ℕ × Entry)
after_add [] x = x ∷ []
after_add (first ∷ rest) x = first ∷ x ∷ []

-- With a fresh cell, adding to a queue that is empty or has its tail pointer at its head succeeds. It
-- links the child behind the first entry, and the entries behind the first are no longer reached.
pub add-after_add :
    (fresh : ℕ) (child : Child) (q : Waitq) (xs : List (ℕ × Entry))
    → fresh ≢ 0
    → Absent fresh xs
    → Holds q xs
    → (q' : Waitq) × (add fresh child q ≡ some (ok tt, q'))
      × Holds q' (after_add xs (fresh, entry_of child))
unfolding add write
add-after_add fresh child q [] ne out h = (
  record { head = fresh; tail = fresh; heap = write q.heap fresh (cell_of child) },
  ground (arith, h.chain, h.tail_is_head),
  record { chain = (refl, ne, (0, ground arith, refl)); tail_is_head = refl },
)
add-after_add fresh child q ((a, (pid, status)) ∷ rest) ne (out, outs) h =
    let (at_head, not_null, (next, cell, chain)) = h.chain in
    let same = h.tail_is_head in
    let first : Cell = record { pid = pid; status = status; next = fresh } in
    (
      record q { heap = write (write q.heap fresh (cell_of child)) q.tail first },
      ground arith,
      record {
        chain = (at_head, not_null, (fresh, ground arith, (refl, ne, (0, ground arith, refl))));
        tail_is_head = same;
      },
    )

-- `found` is the first of the entries, and `ys` are the others; nothing is found in an empty queue.
abbrev pub Taken : List (ℕ × Entry) → Option (ℕ × Cell) → List (ℕ × Entry) → Type 0
Taken [] found ys = (found ≡ none) × (ys ≡ [])
Taken ((a, e) ∷ rest) found ys =
    ((c : Cell) × (found ≡ some (a, c)) × ((c.pid, c.status) ≡ e)) × (ys ≡ rest)

-- Taking from a queue whose tail pointer is its head finds its first entry, with the child's number
-- and status, and leaves the others in order; an empty queue gives nothing and stays empty.
pub pop-head :
    (q : Waitq) (xs : List (ℕ × Entry))
    → Holds q xs
    → (found : Option (ℕ × Cell)) × (q' : Waitq) × (ys : List (ℕ × Entry)) × (pop q
        ≡ some (found, q'))
      × Taken xs found ys
      × Holds q' ys
unfolding pop
pop-head q [] h = (none, q, [], ground (arith, h.chain), (refl, refl), h)
pop-head q ((a, (pid, status)) ∷ rest) h =
    let (at_head, not_null, (next, cell, chain)) = h.chain in
    let same = h.tail_is_head in
    let first : Cell = record { pid = pid; status = status; next = next } in
    (
      some (q.head, first),
      record q { head = next; tail = next },
      rest,
      ground arith,
      ((first, ground arith, refl), refl),
      record { chain = chain; tail_is_head = refl },
    )

-- A cell that is not in use is not one of the queue's.
pub Absent-none :
    (h : Heap) (a p : ℕ) (xs : List (ℕ × Entry)) → h a ≡ none → Chain h p xs → Absent a xs
Absent-none h a p [] e chain = tt
Absent-none h a p ((b, (pid, status)) ∷ rest) e (x, y, (next, cell, chain)) =
    ((λ same. ground (arith, same)), Absent-none h a next rest e chain)
