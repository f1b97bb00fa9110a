-- ===== src/Sched/Regs/Switch.antt =====
-- What a task gets back when it is switched to again.
use sdx.Sched.Regs.{Regs, ImStack, stack_to_regs, regs_to_stack}
use sdx.Prelude.{refl, ◌≡◌}

-- The interrupt stack that a task is resumed with: its own registers, saved when it was interrupted
-- with `mine`, written over the stack `other` of the task that runs before it.
abbrev pub resumed : Regs → ImStack → ImStack → ImStack
resumed regs mine other = regs_to_stack (stack_to_regs regs mine) other

-- A resumed task has every register as it was when it was interrupted, except r10: that is what the
-- task that ran before it has in r10. The vector and the error code are those of the interrupt.
pub resumed-registers :
    (regs : Regs) (mine other : ImStack)
    → resumed regs mine other
      ≡ record mine { r10 = other.r10; vector = other.vector; error = other.error }
unfolding stack_to_regs regs_to_stack
resumed-registers regs mine other = refl
