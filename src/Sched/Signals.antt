-- ===== src/Sched/Signals.antt =====
-- kernel/sched/signal.c: the signal handlers and the signal queue of a task, with the macro
-- slist_add_end of kernel/inc/util/list.h. The queue is cells on a heap; `none` is a page fault, an
-- access through NULL or a wild pointer, and a walk whose fuel runs out.
pub mod Order
use sdx.Prelude.{
  ℕ, zero, suc, Bool, Option, none, some, List, ltb, get_or, set, ◌&&◌, ◌||◌, ◌==◌, if◌then◌else◌,
}
use sdx.Prelude.Int.{ℤ, pos, negsuc}
use sdx.Errno.{Errno, Result, ok, err}

-- `task_sigset_t`
pub record Cell : Type 0 where
  pub value : ℕ
  pub next : ℕ

abbrev pub Heap : Type 0
Heap = ℕ → Option Cell

unfoldable pub write : Heap → ℕ → Cell → Heap
write h p c a = if a == p then some c else h a

-- The fields `sighand` and `signal` of a task; a handler is an address.
pub record Signals : Type 0 where
  pub sighand : List ℕ
  pub signal : ℕ
  pub heap : Heap

-- SIG_MAX, which is SIGSEGV, and SIGKILL
abbrev pub sig_max : ℕ
sig_max = 5

abbrev pub sigkill : ℕ
sigkill = 4

-- SIG_DFL and SIG_IGN
abbrev pub sig_dfl : ℕ
sig_dfl = 0

abbrev pub sig_ign : ℕ
sig_ign = 1

-- `sighand[i]` for an index that the checks allow. The array has SIG_MAX slots, so that the slot of
-- the last signal is the field `signal` that follows the array.
unfoldable pub get_handler : Signals → ℕ → ℕ
get_handler s i = if i == sig_max then s.signal else get_or s.sighand i 0

unfoldable pub set_handler : Signals → ℕ → ℕ → Signals
set_handler s i hand =
    if i == sig_max then record s { signal = hand } else record s { sighand = set s.sighand i hand }

-- What handling a signal does: nothing, or the default handler of the table `sigdfl` ends the task, with
-- or without a core dump.
pub data Action : Type 0 where
  nothing : Action
  terminate : (dump : Bool) (sig : ℕ) → Action

abbrev pub sigdfl : ℕ → Action
sigdfl sig = terminate (sig == 3 || sig == 5) sig

unfoldable pub task_signal_set : (sig : ℤ) (hand : ℕ) → Signals → Result (Unit {0}) × Signals
task_signal_set (negsuc n) hand s = (err Errno.einval, s)
task_signal_set (pos sig) hand s =
    if ltb sig_max sig
    then (err Errno.einval, s)
    else if hand == sig_ign && sig == sigkill
    then (ok tt, s)
    else (ok tt, set_handler s sig hand)

-- The last cell of the list from a cell on.
unfoldable pub last_from : (fuel p : ℕ) → Heap → Option ℕ
last_from zero p h = none
last_from (suc fuel) p h = elim (h p) [
  | none ↦ none
  | some c ↦ let rest = last_from fuel c.next h in if c.next == 0 then some p else rest
]

-- `slist_add_end`
unfoldable pub add_end : (fuel entry : ℕ) → Signals → Option Signals
add_end fuel entry s =
    if s.signal == 0
    then some (record s { signal = entry })
    else elim (last_from fuel s.signal s.heap) [
      | none ↦ none
      | some p ↦ elim (s.heap p) [
        | none ↦ none
        | some c ↦ some (record s { heap = write s.heap p (record c { next = entry }) })
      ]
    ]

-- `fresh` is what heap_alloc returns; NULL is written to.
unfoldable pub task_signal_add :
    (fuel fresh : ℕ) (sig : ℤ) → Signals → Option (Result (Unit {0}) × Signals)
task_signal_add fuel fresh (negsuc n) s = some (err Errno.einval, s)
task_signal_add fuel fresh (pos sig) s =
    if ltb sig_max sig || ltb sig 1
    then some (err Errno.einval, s)
    else if fresh == 0
    then none
    else elim (add_end fuel fresh
        (record s { heap = write s.heap fresh (record { value = sig; next = 0 }) })) [
          | none ↦ none
          | some s' ↦ some (ok tt, s')
        ]

-- What the handler of a signal leads to; calling a handler of the task is not there yet in the source.
unfoldable pub action_of : (handler sig : ℕ) → Action
action_of handler sig = if handler == sig_dfl then sigdfl sig else nothing

-- The number of the signal, 0 for an empty queue. Freeing the cell leaves the heap model as it is.
unfoldable pub task_signal_pop : Signals → Option (Result ℕ × Action × Signals)
task_signal_pop s = if s.signal == 0 then some (ok 0, nothing, s) else elim (s.heap s.signal) [
  | none ↦ none
  | some c ↦
      let s' = record s { signal = c.next } in
      if ltb sig_max c.value || ltb c.value 1
      then some (err Errno.einval, nothing, s')
      else some (ok c.value, action_of (get_handler s' c.value) c.value, s')
]
