-- ===== src/Sched/Tasks/Queue.antt =====
-- The task queue of kernel/sched/sched.c: the macros of kernel/inc/util/list.h that it uses, and the
-- functions that add, remove, find and choose a task. A walk takes fuel; `none` also where it runs out.
pub mod Next
use sdx.Prelude.{
  ℕ, zero, suc, Bool, true, false, not, Option, none, some, ltb, ◌+◌, ◌&&◌, ◌==◌, if◌then◌else◌,
}
use sdx.Sched.Tasks.{State, Task, Sched, ◌>>=◌, load, store, modify}

-- The body of the loop of __sched_queue_add for one task `cur` of the queue.
unfoldable pub link_after : (task cur : ℕ) → Sched → Option Sched
link_after task cur s = do
  s ← modify s task (λ t. record t { prev = cur })
  c ← load s cur
  s ← modify s task (λ t. record t { next = c.next })
  s ← modify s cur (λ t. record t { next = task })
  t ← load s task
  if t.next == 0 then some s else modify s t.next (λ n. record n { prev = task })

-- The loop over the queue from the tail. It does not stop after the task is placed.
unfoldable pub place : (fuel task cur : ℕ) → Sched → Option Sched
place zero task cur s = none
place (suc fuel) task cur s = if cur == 0 then some s else (do
  t ← load s task
  c ← load s cur
  s' ← (if ltb c.prio t.prio then some s else link_after task cur s)
  c' ← load s' cur
  place fuel task c'.prev s')

unfoldable pub queue_add : (fuel task : ℕ) → Sched → Option Sched
queue_add fuel task s =
    if s.head == 0 && s.tail == 0
    then modify (record s { head = task; tail = task }) task (λ t. record t { next = 0; prev = 0 })
    else (do
      s' ← place fuel task s.tail s
      t ← load s' task
      c ← load s' s'.current
      some (if ltb c.prio t.prio then record s' { promoted = task } else s'))

-- The loop of the macro dlist_del over the queue, for an entry that is neither the head nor the tail.
unfoldable pub unlink : (fuel entry cur : ℕ) → Sched → Option Sched
unlink zero entry cur s = none
unlink (suc fuel) entry cur s = if cur == 0 then some s else (do
  c ← load s cur
  (if not (c.next == entry) then unlink fuel entry c.next s else (do
    e ← load s c.next
    s' ← (if e.next == 0 then some s else modify s e.next (λ n. record n { prev = c.prev }))
    modify s' cur (λ t. record t { next = e.next }))))

-- `__sched_queue_del`
unfoldable pub drop_head : (entry : ℕ) → Sched → Option Sched
drop_head entry s =
    if entry == s.head
    then (do
      e ← load s entry
      modify (record s { head = e.next }) e.next (λ t. record t { prev = 0 }))
    else some s

unfoldable pub drop_tail : (fuel entry : ℕ) → Sched → Option Sched
drop_tail fuel entry s =
    if entry == s.tail
    then (do
      e ← load s entry
      modify (record s { tail = e.prev }) e.prev (λ t. record t { next = 0 }))
    else (if s.head == 0 then some s else unlink fuel entry s.head s)

unfoldable pub queue_del : (fuel entry : ℕ) → Sched → Option Sched
queue_del fuel entry s = do s' ← drop_head entry s; drop_tail fuel entry s'

-- The first task from `cur` on with a property: `sched_find` and the search of __sched_queue_clean.
unfoldable pub find : (Task → Bool) → (fuel cur : ℕ) → Sched → Option ℕ
find test zero cur s = none
find test (suc fuel) cur s =
    if cur == 0
    then some 0
    else (do t ← load s cur; if test t then some cur else find test fuel t.next s)

abbrev pub is_dead : State → Bool
is_dead State.dead = true
is_dead _ = false

unfoldable pub sched_find : (fuel pid : ℕ) → Sched → Option ℕ
sched_find fuel pid s = find (λ t. t.pid == pid) fuel s.head s

-- The body of the loop of __sched_queue_next: the next task, and the state without the promotion.
unfoldable pub choose : (cur : ℕ) → Sched → Option (ℕ × Sched)
choose cur s =
    if not (s.promoted == 0)
    then some (s.promoted, record s { promoted = 0 })
    else if cur == 0
    then some (s.head, s)
    else (do t ← load s cur; some ((if t.next == 0 then s.head else t.next), s))

unfoldable pub next_from : (fuel cur : ℕ) → Sched → Option (ℕ × Sched)
next_from zero cur s = none
next_from (suc fuel) cur s = do
  chosen ← choose cur s
  t ← load chosen.1 chosen.0
  (if is_dead t.state then next_from fuel chosen.0 chosen.1 else some chosen)

unfoldable pub queue_next : (fuel : ℕ) → Sched → Option (ℕ × Sched)
queue_next fuel s = next_from fuel s.current s

-- PID_MAX
abbrev pub pid_max : ℕ
pid_max = 0x7fffffff

-- The largest process number on the way from `cur` to the front of the queue.
unfoldable pub largest_pid : (fuel cur largest : ℕ) → Sched → Option ℕ
largest_pid zero cur largest s = none
largest_pid (suc fuel) cur largest s = if cur == 0 then some largest else (do
  t ← load s cur
  largest_pid fuel t.prev (if ltb largest t.pid then t.pid else largest) s)

-- `__sched_pid`
unfoldable pub sched_pid : (fuel : ℕ) → Sched → Option ℕ
sched_pid fuel s = do
  largest ← largest_pid fuel s.tail 0 s
  (if largest == pid_max then none else some (largest + 1))
