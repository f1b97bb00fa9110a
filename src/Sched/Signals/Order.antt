-- ===== src/Sched/Signals/Order.antt =====
-- What the signal queue of a task holds, and how kernel/sched/signal.c changes it.
use sdx.Prelude.{
  ℕ, zero, suc, refl, sym, ap, inl, inr, true, false, some, List, [], arith, ltb, Bool-cases,
  length, get_or, ◌≤◌, ◌<◌, ◌≡◌, ◌≢◌, ◌||◌, ◌∙◌, ◌∷◌, ◌++◌, ◌==◌, if◌then◌else◌,
}
use sdx.Prelude.Int.{pos}
use sdx.Errno.{ok}
use sdx.Sched.Signals.{
  nothing, action_of, terminate, get_handler, Action, task_signal_pop, Cell, Heap, Signals, sig_max,
  write, last_from, add_end, task_signal_add,
}

-- From `p` the pointers lead through the cells of a list of addresses and signals.
abbrev pub Chain : Heap → ℕ → List (ℕ × ℕ) → Type 0
Chain h p [] = p ≡ 0
Chain h p ((a, sig) ∷ rest) =
    (p ≡ a)
    × (a ≢ 0)
    × ((next : ℕ) × (h a ≡ some (record { value = sig; next = next })) × Chain h next rest)

abbrev pub Absent : ℕ → List (ℕ × ℕ) → Type 0
Absent a [] = Unit
Absent a ((b, e) ∷ rest) = (a ≢ b) × Absent a rest

-- No cell stands twice in the list.
abbrev pub Distinct : List (ℕ × ℕ) → Type 0
Distinct [] = Unit
Distinct ((a, e) ∷ rest) = Absent a rest × Distinct rest

abbrev pub QueueIs : Signals → List (ℕ × ℕ) → Type 0
QueueIs s xs = Chain s.heap s.signal xs × Distinct xs

Chain-write :
    (h : Heap) (a : ℕ) (c : Cell) (p : ℕ) (xs : List (ℕ × ℕ))
    → Absent a xs
    → Chain h p xs
    → Chain (write h a c) p xs
unfolding write
Chain-write h a c p [] out chain = chain
Chain-write h a c p ((b, e) ∷ rest) (ne, out) (x, y, (next, cell, chain)) =
    (x, y, (next, ground (arith, cell), Chain-write h a c next rest out chain))

no_fuel : {n : ℕ} → n < 0 → ⊥
no_fuel lt = omega (arith, lt)

-- The last cell, and the list with one more cell linked behind it.
record LastCell (h : Heap) (fuel p fresh sig : ℕ) (xs : List (ℕ × ℕ)) : Type 0 where
  at_cell : ℕ
  cell : Cell
  found : last_from fuel p h ≡ some at_cell
  holds : h at_cell ≡ some cell
  longer : Chain (write h at_cell (record cell { next = fresh })) p (xs ++ ((fresh, sig) ∷ []))
  inside : (b : ℕ) → Absent b xs → b ≢ at_cell

last_from-LastCell :
    (h : Heap) (fuel p fresh sig a e : ℕ) (rest : List (ℕ × ℕ))
    → fresh ≢ 0
    → h fresh ≡ some (record { value = sig; next = 0 })
    → Absent fresh ((a, e) ∷ rest)
    → Chain h p ((a, e) ∷ rest)
    → Distinct ((a, e) ∷ rest)
    → length rest < fuel
    → LastCell h fuel p fresh sig ((a, e) ∷ rest)
unfolding last_from write
last_from-LastCell h zero p fresh sig a e rest ne new out chain distinct lt = elim (no_fuel lt) [ ]
last_from-LastCell h (suc fuel) p fresh sig a e [] ne new out (x, y, (next, cell, end)) distinct
      lt =
    record {
      at_cell = a;
      cell = record { value = e; next = next };
      found = ground (arith, x, cell, end);
      holds = cell;
      longer = (x, y, (fresh, ground arith, (refl, ne, (0, ground (arith, new, out.0), refl))));
      inside = λ b o. o.0;
    }
last_from-LastCell h (suc fuel) p fresh sig a e ((a', e') ∷ rest) ne new out
      (x, y, (next, cell, chain)) distinct lt =
    let r =
      last_from-LastCell h fuel next fresh sig a' e' rest ne new out.1 chain distinct.1
        (omega (arith, lt)) in
    let more : (next == 0) ≡ false = ground (arith, chain.0, chain.1) in
    record {
      at_cell = r.at_cell;
      cell = r.cell;
      found = ground (arith, x, cell, more, r.found);
      holds = r.holds;
      longer = (x, y, (next, ground (arith, cell, r.inside a distinct.0), r.longer));
      inside = λ b o. r.inside b o.1;
    }

Distinct-end :
    (fresh sig : ℕ) (xs : List (ℕ × ℕ))
    → Absent fresh xs
    → Distinct xs
    → Distinct (xs ++ ((fresh, sig) ∷ []))
Distinct-end fresh sig [] out d = (tt, tt)
Distinct-end fresh sig ((a, e) ∷ rest) (ne, out) (o, d) =
    (Absent-end a rest (λ eq. ne (sym eq)) o, Distinct-end fresh sig rest out d)
  where
    Absent-end :
        (a : ℕ) (xs : List (ℕ × ℕ)) → a ≢ fresh → Absent a xs → Absent a (xs ++ ((fresh, sig) ∷ []))
    Absent-end a [] ne out = (ne, tt)
    Absent-end a ((b, e) ∷ rest) ne (x, out) = (x, Absent-end a rest ne out)

-- With a fresh cell and a signal that there is, task_signal_add queues the signal behind the others; the
-- walk of slist_add_end ends within the length of the queue.
pub task_signal_add-QueueIs :
    (fuel fresh sig : ℕ) (s : Signals) (xs : List (ℕ × ℕ))
    → fresh ≢ 0
    → Absent fresh xs
    → QueueIs s xs
    → 1 ≤ sig
    → sig ≤ sig_max
    → length xs ≤ fuel
    → (s' : Signals) × (task_signal_add fuel fresh (pos sig) s ≡ some (ok tt, s'))
      × QueueIs s' (xs ++ ((fresh, sig) ∷ []))
unfolding task_signal_add add_end write
task_signal_add-QueueIs fuel fresh sig s [] ne out (chain, d) low high le = (
  record s { signal = fresh; heap = write s.heap fresh (record { value = sig; next = 0 }) },
  ground (arith, chain, low, high),
  ((refl, ne, (0, ground arith, refl)), (tt, tt)),
)
task_signal_add-QueueIs fuel fresh sig s ((a, e) ∷ rest) ne out (chain, d) low high le =
    let in_range : (ltb sig_max sig || ltb sig 1) ≡ false = ground (arith, low, high) in
    let not_null : (fresh == 0) ≡ false = ground (arith, ne) in
    let queued : (s.signal == 0) ≡ false = ground (arith, chain.0, chain.1) in
    let h = write s.heap fresh (record { value = sig; next = 0 }) in
    let r =
      last_from-LastCell h fuel s.signal fresh sig a e rest ne (ground arith) out
        (Chain-write s.heap fresh _ s.signal ((a, e) ∷ rest) out chain) d (omega (arith, le)) in
    (
      record s { heap = write h r.at_cell (record r.cell { next = fresh }) },
      rw (in_range, not_null, queued) rw r.found rw r.holds refl,
      (r.longer, Distinct-end fresh sig ((a, e) ∷ rest) out d),
    )

-- What handling a signal does: the handler of the task decides for all but the last signal, whose slot
-- behind the array of handlers is the queue of what is left.
abbrev pub handled : Signals → (sig : ℕ) → List (ℕ × ℕ) → Action
handled s sig [] =
    if sig == sig_max then terminate true sig_max else action_of (get_or s.sighand sig 0) sig
handled s sig (x ∷ rest) =
    if sig == sig_max then nothing else action_of (get_or s.sighand sig 0) sig

task_signal_pop-first :
    (s : Signals) (a sig next : ℕ)
    → s.signal ≡ a
    → a ≢ 0
    → s.heap a ≡ some (record { value = sig; next = next })
    → 1 ≤ sig
    → sig ≤ sig_max
    → task_signal_pop s
      ≡ some (
        ok sig,
        action_of (get_handler (record s { signal = next }) sig) sig,
        record s { signal = next },
      )
unfolding task_signal_pop
task_signal_pop-first s a sig next x y cell low high =
    let queued : (s.signal == 0) ≡ false = ground (arith, x, y) in
    let here : s.heap s.signal ≡ some (record { value = sig; next = next }) = rw x cell in
    let in_range : (ltb sig_max sig || ltb sig 1) ≡ false = ground (arith, low, high) in
    rw queued rw here rw in_range refl

handled-action :
    (s : Signals) (sig next : ℕ) (rest : List (ℕ × ℕ))
    → Chain s.heap next rest
    → action_of (get_handler (record s { signal = next }) sig) sig ≡ handled s sig rest
unfolding action_of get_handler
handled-action s sig next [] z = elim (Bool-cases (sig == sig_max)) [
  | inl e ↦ let five : sig ≡ 5 = ground (arith, e) in rw (five, z) refl
  | inr e ↦ rw e refl
]
handled-action s sig next ((b, e') ∷ rest) (q, ne, more) = elim (Bool-cases (sig == sig_max)) [
  | inl e ↦ let some_next : (next == 0) ≡ false = ground (arith, q, ne) in rw (e, some_next) refl
  | inr e ↦ rw e refl
]

-- task_signal_pop takes the oldest signal and leaves the others. SIGSEGV ends the task only where it is
-- the last one of the queue, and is lost where another signal waits behind it, whatever the handlers
-- are; each other signal is left to its handler.
pub task_signal_pop-QueueIs :
    (s : Signals) (a sig : ℕ) (rest : List (ℕ × ℕ))
    → QueueIs s ((a, sig) ∷ rest)
    → 1 ≤ sig
    → sig ≤ sig_max
    → (s' : Signals) × (task_signal_pop s ≡ some (ok sig, handled s sig rest, s'))
      × QueueIs s' rest
      × (s'.sighand ≡ s.sighand)
task_signal_pop-QueueIs s a sig rest ((x, y, (next, cell, chain)), (o, d)) low high = (
  record s { signal = next },
  task_signal_pop-first s a sig next x y cell low high
      ∙ ap (λ (t : Action). some (ok sig, t, record s { signal = next }))
          (handled-action s sig next rest chain),
  (chain, d),
  refl,
)
