-- ===== src/Sched/Regs.antt =====
-- The registers of a task and the interrupt stack: kernel/inc/sched/task.h and
-- kernel/inc/core/im.h. A register is a number below 2^64.
pub mod Switch
use sdx.Prelude.{ℕ}

-- `task_regs_t`
pub record Regs : Type 0 where
  pub r15 : ℕ
  pub r14 : ℕ
  pub r13 : ℕ
  pub r12 : ℕ
  pub r11 : ℕ
  pub r10 : ℕ
  pub r9 : ℕ
  pub r8 : ℕ
  pub rdi : ℕ
  pub rsi : ℕ
  pub rbp : ℕ
  pub rdx : ℕ
  pub rcx : ℕ
  pub rbx : ℕ
  pub rax : ℕ
  pub rip : ℕ
  pub cs : ℕ
  pub ss : ℕ
  pub rflags : ℕ
  pub rsp : ℕ

-- `im_stack_t`
pub record ImStack : Type 0 where
  pub r15 : ℕ
  pub r14 : ℕ
  pub r13 : ℕ
  pub r12 : ℕ
  pub r11 : ℕ
  pub r10 : ℕ
  pub r9 : ℕ
  pub r8 : ℕ
  pub rdi : ℕ
  pub rsi : ℕ
  pub rbp : ℕ
  pub rdx : ℕ
  pub rcx : ℕ
  pub rbx : ℕ
  pub rax : ℕ
  pub vector : ℕ
  pub error : ℕ
  pub rip : ℕ
  pub cs : ℕ
  pub rflags : ℕ
  pub rsp : ℕ
  pub ss : ℕ

-- `__stack_to_regs`: the assignments of the macro; `r10` is not one of them.
unfoldable pub stack_to_regs : Regs → ImStack → Regs
stack_to_regs regs stack = record regs {
  r15 = stack.r15;
  r14 = stack.r14;
  r13 = stack.r13;
  r12 = stack.r12;
  r11 = stack.r11;
  r9 = stack.r9;
  r8 = stack.r8;
  rdi = stack.rdi;
  rsi = stack.rsi;
  rbp = stack.rbp;
  rsp = stack.rsp;
  rdx = stack.rdx;
  rcx = stack.rcx;
  rbx = stack.rbx;
  rax = stack.rax;
  rip = stack.rip;
  rflags = stack.rflags;
  cs = stack.cs;
  ss = stack.ss;
}

-- `__regs_to_stack`, with the same registers.
unfoldable pub regs_to_stack : Regs → ImStack → ImStack
regs_to_stack regs stack = record stack {
  r15 = regs.r15;
  r14 = regs.r14;
  r13 = regs.r13;
  r12 = regs.r12;
  r11 = regs.r11;
  r9 = regs.r9;
  r8 = regs.r8;
  rdi = regs.rdi;
  rsi = regs.rsi;
  rbp = regs.rbp;
  rsp = regs.rsp;
  rdx = regs.rdx;
  rcx = regs.rcx;
  rbx = regs.rbx;
  rax = regs.rax;
  rip = regs.rip;
  rflags = regs.rflags;
  cs = regs.cs;
  ss = regs.ss;
}
