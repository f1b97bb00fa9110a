-- ===== src/Sched/Tasks/Queue/Next.antt =====
-- The choice of the next task by __sched_queue_next (kernel/sched/sched.c): with the first task alive
-- the walk ends, and it never chooses a dead task.
use sdx.Prelude.{
  ℕ, zero, suc, refl, inl, inr, true, false, Option, some, arith, Bool-cases, ◌≡◌, ◌∙◌, ◌==◌,
  if◌then◌else◌,
}
use sdx.Sched.Tasks.{Task, Sched, load}
use sdx.Sched.Tasks.Queue.{is_dead, choose, next_from, queue_next}

-- The links `next` from a task to the last of the queue, in at most `n` steps.
pub data ToEnd (s : Sched) : ℕ → ℕ → Type 0 where
  last : {n p : ℕ} → (t : Task) → load s p ≡ some t → t.next ≡ 0 → ToEnd s (suc n) p
  step :
      {n p : ℕ}
      → (t : Task) → load s p ≡ some t
      → (t.next == 0) ≡ false
      → ToEnd s n t.next
      → ToEnd s (suc n) p

-- A task that is not dead.
pub record Alive (s : Sched) (p : ℕ) : Type 0 where
  pub task : Task
  pub found : load s p ≡ some task
  pub not_dead : is_dead task.state ≡ false

-- The call returned a task that is alive, and changed nothing.
pub record NextTask (s : Sched) (r : Option (ℕ × Sched)) : Type 0 where
  pub ptr : ℕ
  pub eq : r ≡ some (ptr, s)
  pub alive : Alive s ptr

next_from-take :
    (n cur p : ℕ) (s s' : Sched) (t : Task)
    → choose cur s ≡ some (p, s')
    → load s' p ≡ some t
    → next_from (suc n) cur s ≡ (if is_dead t.state then next_from n p s' else some (p, s'))
unfolding next_from
next_from-take n cur p s s' t e l = rw (e, l) refl

next_from-Alive :
    (n cur p : ℕ) (s s' : Sched)
    → choose cur s ≡ some (p, s')
    → Alive s' p
    → next_from (suc n) cur s ≡ some (p, s')
next_from-Alive n cur p s s' e a =
    next_from-take n cur p s s' a.task e a.found ∙ rw (a.not_dead) refl

load-nonzero : (s : Sched) (p : ℕ) (t : Task) → load s p ≡ some t → (p == 0) ≡ false
unfolding load
load-nonzero s p t l = elim (Bool-cases (p == 0)) [ inl z ↦ ground arith | inr z ↦ z ]

choose-step :
    (s : Sched) (cur : ℕ) (t : Task)
    → (s.promoted == 0) ≡ true
    → load s cur ≡ some t
    → choose cur s ≡ some ((if t.next == 0 then s.head else t.next), s)
unfolding choose
choose-step s cur t e l = rw (e, load-nonzero s cur t l, l) refl

choose-promoted :
    (s : Sched) (cur : ℕ)
    → (s.promoted == 0) ≡ false
    → choose cur s ≡ some (s.promoted, record s { promoted = 0 })
unfolding choose
choose-promoted s cur e = rw (e) refl

head_of : {s : Sched} {n p : ℕ} → ToEnd s n p → (t : Task) × (load s p ≡ some t)
head_of (ToEnd.last t l _) = (t, l)
head_of (ToEnd.step t l _ _) = (t, l)

next_from-Chosen :
    (s : Sched) (n cur : ℕ)
    → (s.promoted == 0) ≡ true
    → Alive s s.head
    → ToEnd s n cur
    → NextTask s (next_from n cur s)
next_from-Chosen s zero cur e a path = elim path [ ]
next_from-Chosen s (suc n) cur e a (ToEnd.last t l z) = record {
  ptr = s.head;
  eq = next_from-Alive n cur s.head s s (choose-step s cur t e l ∙ rw (z) refl) a;
  alive = a;
}
next_from-Chosen s (suc n) cur e a (ToEnd.step t l z rest) =
    let next = head_of rest in
    let chosen : choose cur s ≡ some (t.next, s) = choose-step s cur t e l ∙ rw (z) refl in
    elim (Bool-cases (is_dead next.0.state)) [
      | inl dead ↦
          let r = next_from-Chosen s n t.next e a rest in
          record {
            ptr = r.ptr;
            eq = next_from-take n cur t.next s s next.0 chosen next.1 ∙ rw (dead) r.eq;
            alive = r.alive;
          }
      | inr alive ↦
          let found : Alive s t.next = record { task = next.0; found = next.1; not_dead = alive } in
          record { ptr = t.next; eq = next_from-Alive n cur t.next s s chosen found; alive = found }
    ]

-- With no promoted task, the first task of the queue alive, and the links from the current task
-- reaching the end in at most `n` steps, __sched_queue_next ends, its choice is a task that is not
-- dead, and the scheduler's state stays as it was.
pub queue_next-Chosen :
    (s : Sched) (n : ℕ)
    → (s.promoted == 0) ≡ true
    → Alive s s.head
    → ToEnd s n s.current
    → NextTask s (queue_next n s)
unfolding queue_next
queue_next-Chosen s n e a path = next_from-Chosen s n s.current e a path

-- A promoted task that is not dead is chosen at once, and the promotion is used up.
pub queue_next-promoted :
    (s : Sched) (n : ℕ)
    → (s.promoted == 0) ≡ false
    → Alive s s.promoted
    → queue_next (suc n) s ≡ some (s.promoted, record s { promoted = 0 })
unfolding queue_next load
queue_next-promoted s n e a =
    next_from-Alive n s.current s.promoted s (record s { promoted = 0 })
      (choose-promoted s s.current e)
      (record { task = a.task; found = a.found; not_dead = a.not_dead })
