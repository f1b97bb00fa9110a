-- ===== src/Sched/Tasks.antt =====
-- The tasks and the state of the scheduler: `task_t` of kernel/inc/sched/task.h and the globals of
-- kernel/sched/sched.c. A task is known by its address, 0 is NULL, and `none` is an access through a
-- pointer that leads to no task, or a kernel panic.
pub mod Queue
pub mod Exit
use sdx.Prelude.{ℕ, Option, none, some, ◌==◌, if◌then◌else◌}
use sdx.Sched.Regs.{Regs}
use sdx.Sched.Waitq.{Waitq}

-- The states of a task; the last stands for every other value of the four bits.
pub data State : Type 0 where
  hold ready save wait dead fork unknown : State

-- The fields of `task_t` that the scheduler uses.
pub record Task : Type 0 where
  pub pid : ℕ
  pub ppid : ℕ
  pub cpid : ℕ
  pub regs : Regs
  pub ticks : ℕ
  pub state : State
  pub prio : ℕ
  pub waitq : Waitq
  pub term_code : ℕ
  pub exit_code : ℕ
  pub next : ℕ
  pub prev : ℕ

abbrev pub Tasks : Type 0
Tasks = ℕ → Option Task

-- `task_head`, `task_tail`, `task_current` and `task_promoted`, with the tasks in memory.
pub record Sched : Type 0 where
  pub head : ℕ
  pub tail : ℕ
  pub current : ℕ
  pub promoted : ℕ
  pub tasks : Tasks

infixl 5 ◌>>=◌
abbrev pub ◌>>=◌ {ℓ κ} : {A : Type ℓ} {B : Type κ} → Option A → (A → Option B) → Option B
none >>= f = none
some a >>= f = f a

-- The task behind a pointer.
unfoldable pub load : Sched → ℕ → Option Task
load s p = if p == 0 then none else s.tasks p

unfoldable pub store : Sched → ℕ → Task → Sched
store s p t = record s { tasks = λ a. if a == p then some t else s.tasks a }

-- An assignment to fields of the task behind a pointer.
unfoldable pub modify : Sched → ℕ → (Task → Task) → Option Sched
unfolding load store
modify s p f = do t ← load s p; some (store s p (f t))
