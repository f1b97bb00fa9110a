-- ===== src/Tests/Tasks.antt =====
-- kernel/sched/signal.c and the end of a task at concrete inputs.
use sdx.Prelude.{ℕ, refl, Option, none, some, [], arith, replicate, ◌≡◌, ◌∷◌, ◌==◌, if◌then◌else◌}
use sdx.Prelude.Int.{pos}
use sdx.Errno.{ok}
use sdx.Sched.Tasks.{State, Sched}
use sdx.Sched.Tasks.Exit.{sched_exit, adopt_in, elem, ended, Listed, sched_exit-adopts}
use sdx.Sched.Signals.{Cell, Signals, task_signal_add, task_signal_pop}
use sdx.Sched.Signals.Order.{QueueIs, handled, task_signal_add-QueueIs, task_signal_pop-QueueIs}
use sdx.Tests.Sched.{task, tasks}

-- SIGSEGV, and SIGHUP behind it.
abbrev cells : ℕ → Option Cell
cells a =
    if a == 8
    then some (record { value = 5; next = 16 })
    else if a == 16
    then some (record { value = 1; next = 0 })
    else none

abbrev two_signals : Signals
two_signals = record { sighand = replicate 5 0; signal = 8; heap = cells }

two_signals-QueueIs : QueueIs two_signals ((8, 5) ∷ (16, 1) ∷ [])
two_signals-QueueIs = (
  (refl, omega arith, (16, refl, (refl, omega arith, (0, refl, refl)))),
  ((omega arith, tt), (tt, tt)),
)

task_signal_add-QueueIs_example :
    (s' : Signals) × (task_signal_add 4 24 (pos 2) two_signals ≡ some (ok tt, s'))
    × QueueIs s' ((8, 5) ∷ (16, 1) ∷ (24, 2) ∷ [])
task_signal_add-QueueIs_example =
    task_signal_add-QueueIs 4 24 2 two_signals ((8, 5) ∷ (16, 1) ∷ []) (omega arith)
      (omega arith, (omega arith, tt)) two_signals-QueueIs (omega arith) (omega arith) (omega arith)

task_signal_pop-QueueIs_example :
    (s' : Signals) × (task_signal_pop two_signals
      ≡ some (ok 5, handled two_signals 5 ((16, 1) ∷ []), s'))
    × QueueIs s' ((16, 1) ∷ [])
    × (s'.sighand ≡ replicate 5 0)
task_signal_pop-QueueIs_example =
    task_signal_pop-QueueIs two_signals 8 5 ((16, 1) ∷ []) two_signals-QueueIs (omega arith)
      (omega arith)

-- The third task runs.
abbrev third : Sched
third = record { head = 10; tail = 30; current = 30; promoted = 0; tasks = tasks }

third-Listed : Listed third 10 (10 ∷ 20 ∷ 30 ∷ [])
third-Listed = (
  refl,
  omega arith,
  (
    task 1 State.ready 20 0,
    refl,
    (
      refl,
      omega arith,
      (task 2 State.dead 30 10, refl, (refl, omega arith, (task 3 State.ready 0 20, refl, refl))),
    ),
  ),
)

sched_exit-adopts_example :
    (s' : Sched) × (sched_exit 4 7 third ≡ some (ok tt, s'))
    × ((q : ℕ)
        → s'.tasks q
          ≡ adopt_in 3
              (elem q (10 ∷ 20 ∷ 30 ∷ []))
              (if q == 30 then some (ended 7 (task 3 State.ready 0 20)) else tasks q))
sched_exit-adopts_example =
    sched_exit-adopts 4 7 third (task 3 State.ready 0 20) (10 ∷ 20 ∷ 30 ∷ []) third-Listed
      (omega arith) (omega arith) (omega arith) refl
