-- ===== src/Sched/Waitq.antt =====
-- kernel/sched/waitq.c: the queue of dead children of a task, as cells on a heap. An address is a
-- number, 0 is NULL, and `none` is a read or write through a pointer that leads nowhere.
pub mod Contents
pub mod Reach
use Prim.Native.Nat.{bit_and, bit_or}
use sdx.Prelude.{ℕ, Option, none, some, ◌*◌, ◌%◌, ◌^◌, ◌||◌, ◌==◌, if◌then◌else◌}
use sdx.Errno.{Errno, Result, ok, err}

-- `task_waitq_t`; the status is the bit pattern of an int32_t.
pub record Cell : Type 0 where
  pub pid : ℕ
  pub status : ℕ
  pub next : ℕ

abbrev pub Heap : Type 0
Heap = ℕ → Option Cell

unfoldable pub write : Heap → ℕ → Cell → Heap
write h p c a = if a == p then some c else h a

-- The pointers `waitq_head` and `waitq_tail` of a task, with the heap.
pub record Waitq : Type 0 where
  pub head : ℕ
  pub tail : ℕ
  pub heap : Heap

-- What task_waitq_add reads of the child; codes are bit patterns of an int32_t.
pub record Child : Type 0 where
  pub pid : ℕ
  pub exit_code : ℕ
  pub term_code : ℕ

-- `exit_code << 8 | term_code & 0xffff`
unfoldable pub status_of : Child → ℕ
status_of c = bit_or (c.exit_code * 256 % 2 ^ 32) (bit_and c.term_code 0xffff)

abbrev pub cell_of : Child → Cell
cell_of c = record { pid = c.pid; status = status_of c; next = 0 }

-- `fresh` is what heap_alloc returns. The tail pointer moves only in an empty queue.
unfoldable pub add : (fresh : ℕ) → Child → Waitq → Option (Result (Unit {0}) × Waitq)
unfolding write
add fresh child q =
    let h = write q.heap fresh (cell_of child) in
    if fresh == 0
    then some (err Errno.enomem, q)
    else if q.head == 0 || q.tail == 0
    then some (ok tt, record { head = fresh; tail = fresh; heap = h })
    else elim (h q.tail) [
      | none ↦ none
      | some last ↦ some (ok tt, record q { heap = write h q.tail (record last { next = fresh }) })
    ]

-- `none` for a bad pointer; `some (none, q)` for an empty queue, else the cell's address and the cell.
unfoldable pub pop : Waitq → Option (Option (ℕ × Cell) × Waitq)
pop q = if q.head == 0 then some (none, q) else elim (q.heap q.head) [
  | none ↦ none
  | some first ↦ some (
    some (q.head, first),
    record q { head = first.next; tail = (if q.head == q.tail then first.next else q.tail) },
  )
]
