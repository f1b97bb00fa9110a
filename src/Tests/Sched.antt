-- ===== src/Tests/Sched.antt =====
-- kernel/sched and the file calls of kernel/syscall at concrete inputs.
use sdx.Prelude.{
  ℕ, suc, refl, true, false, Option, none, some, [], arith, replicate, ◌≡◌, ◌∷◌, ◌==◌,
  if◌then◌else◌,
}
use sdx.Prelude.Int.{pos, negsuc}
use sdx.Errno.{Result, ok}
use sdx.Sched.Regs.{Regs, ImStack}
use sdx.Sched.Regs.Switch.{resumed, resumed-registers}
use sdx.Sched.Waitq.{Waitq, Child, add, cell_of, write}
use sdx.Sched.Waitq.Contents.{entry_of, Holds, after_add, add-after_add}
use sdx.Sched.Waitq.Reach.{Reach}
use sdx.Sched.Files.{
  File, Files, next_from, reset_last, free_from, open_at, Vfs, fd_next, sys_open, sys_close,
}
use sdx.Sched.Files.Next.{IsValid, start_of, Chosen, fd_next-Chosen}
use sdx.Sched.Files.Calls.{Opened, sys_open-Opened, sys_close-sys_open, sys_open-after_close_zero}
use sdx.Sched.Tasks.{State, Task, Sched, load}
use sdx.Sched.Tasks.Queue.{queue_next}
use sdx.Sched.Tasks.Queue.Next.{Alive, ToEnd, NextTask, queue_next-Chosen}

abbrev pub no_regs : Regs
no_regs = record {
  r15 = 0;
  r14 = 0;
  r13 = 0;
  r12 = 0;
  r11 = 0;
  r10 = 7;
  r9 = 0;
  r8 = 0;
  rdi = 0;
  rsi = 0;
  rbp = 0;
  rdx = 0;
  rcx = 0;
  rbx = 0;
  rax = 0;
  rip = 0;
  cs = 0;
  ss = 0;
  rflags = 0;
  rsp = 0;
}

-- Three children that die one after the other.
abbrev child : ℕ → Child
child n = record { pid = n; exit_code = 1; term_code = 0 }

abbrev one_dead : Waitq
one_dead = record { head = 10; tail = 10; heap = write (λ a. none) 10 (cell_of (child 2)) }

one_dead-Holds : Holds one_dead ((10, entry_of (child 2)) ∷ [])
unfolding write
one_dead-Holds = record { chain = (refl, omega arith, (0, refl, refl)); tail_is_head = refl }

add-after_add_example :
    (q' : Waitq) × (add 20 (child 3) one_dead ≡ some (ok tt, q'))
    × Holds q' (after_add ((10, entry_of (child 2)) ∷ []) (20, entry_of (child 3)))
add-after_add_example =
    add-after_add 20 (child 3) one_dead ((10, entry_of (child 2)) ∷ []) (omega arith)
      ((λ e. ground (arith, e)), tt) one_dead-Holds

abbrev pub no_dead : Waitq
no_dead = record { head = 0; tail = 0; heap = λ a. none }

one_dead-Reach : Reach one_dead
unfolding add write
one_dead-Reach =
    Reach.died 10 (child 2) {q = no_dead} (Reach.start (λ a. none)) (omega arith) refl refl

-- A file system in which every path opens to the node of its own number, and a read gives the bytes
-- that were asked for.
abbrev flat : Vfs
flat = record {
  State = ℕ;
  open_node = λ path s. (ok tt, some path, suc s);
  close_node = λ ptr s. (ok tt, suc s);
  read_node = λ ptr offset size s. (pos size, s);
  write_node = λ ptr offset size s. (pos size, s);
  is_directory = λ ptr s. false;
}

abbrev opened_file : File
opened_file = record { node = 5; flags = 0; offset = 0 }

abbrev no_files : Files
no_files = record { fd_last = pos 0; slots = replicate 32 none }

abbrev one_file : Files
one_file = record { fd_last = pos 0; slots = some opened_file ∷ replicate 31 none }

no_files-IsValid : IsValid no_files 0
no_files-IsValid = record { full = refl; last_is = refl }

one_file-IsValid : IsValid one_file 0
one_file-IsValid = record { full = refl; last_is = refl }

fd_next-Chosen_example :
    (r : Result ℕ) × (fd_next one_file ≡ some (r, record one_file { fd_last = pos (start_of 0) }))
    × Chosen one_file 0 r
fd_next-Chosen_example = fd_next-Chosen one_file 0 one_file-IsValid

sys_open-Opened_example :
    (out : Result ℕ × Files × ℕ) × (sys_open flat 5 0 true no_files 0 ≡ some out)
    × Opened flat no_files (some 5) 0 1 out
sys_open-Opened_example = sys_open-Opened flat 5 0 no_files 0 0 no_files-IsValid refl

open_run : sys_open flat 5 0 true no_files 0 ≡ some (ok 0, one_file, 1)
unfolding sys_open fd_next next_from reset_last free_from open_at
open_run = refl

sys_close-sys_open_example :
    (t'' : Files) × (s'' : ℕ) × (sys_close flat (pos 0) one_file 1 ≡ some (ok tt, t'', s''))
    × (t''.slots ≡ no_files.slots)
sys_close-sys_open_example =
    sys_close-sys_open flat 5 0 0 0 no_files one_file 0 1 no_files-IsValid refl open_run refl

sys_open-after_close_zero_example :
    (t' : Files) × (s' : ℕ) × (sys_close flat (pos 0) one_file 1 ≡ some (ok tt, t', s'))
    × (t'.fd_last ≡ negsuc 0)
    × (sys_open flat 6 0 true t' s' ≡ none)
sys_open-after_close_zero_example =
    sys_open-after_close_zero flat 6 0 true one_file opened_file 1 refl refl refl (λ s. refl)

abbrev stack : (r10 rip : ℕ) → ImStack
stack r10 rip = record {
  r15 = 0;
  r14 = 0;
  r13 = 0;
  r12 = 0;
  r11 = 0;
  r10 = r10;
  r9 = 0;
  r8 = 0;
  rdi = 0;
  rsi = 0;
  rbp = 0;
  rdx = 0;
  rcx = 0;
  rbx = 0;
  rax = 0;
  vector = 32;
  error = 0;
  rip = rip;
  cs = 0;
  rflags = 0;
  rsp = 0;
  ss = 0;
}

resumed-registers_example : resumed no_regs (stack 1 100) (stack 2 200) ≡ stack 2 100
resumed-registers_example = resumed-registers no_regs (stack 1 100) (stack 2 200)

abbrev pub task : (pid : ℕ) → State → (next prev : ℕ) → Task
task n state next prev = record {
  pid = n;
  ppid = 1;
  cpid = 0;
  regs = no_regs;
  ticks = 20;
  state = state;
  prio = 1;
  waitq = no_dead;
  term_code = 0;
  exit_code = 0;
  next = next;
  prev = prev;
}

-- The first task, one that is dead, and one that is ready.
abbrev pub tasks : ℕ → Option Task
tasks a =
    if a == 10
    then some (task 1 State.ready 20 0)
    else if a == 20
    then some (task 2 State.dead 30 10)
    else if a == 30
    then some (task 3 State.ready 0 20)
    else none

abbrev sched : (promoted : ℕ) → Sched
sched promoted = record { head = 10; tail = 30; current = 10; promoted = promoted; tasks = tasks }

first-Alive : Alive (sched 0) 10
unfolding load
first-Alive = record { task = task 1 State.ready 20 0; found = refl; not_dead = refl }

links : ToEnd (sched 0) 3 10
unfolding load
links = ToEnd.step (task 1 State.ready 20 0) refl refl (
    ToEnd.step (task 2 State.dead 30 10) refl refl (ToEnd.last (task 3 State.ready 0 20) refl refl))

queue_next-Chosen_example : NextTask (sched 0) (queue_next 3 (sched 0))
queue_next-Chosen_example = queue_next-Chosen (sched 0) 3 refl first-Alive links

third-Alive : Alive (sched 30) 30
unfolding load
third-Alive = record { task = task 3 State.ready 0 20; found = refl; not_dead = refl }
