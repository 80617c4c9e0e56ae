-- ===== src/Examples/Boots.antt =====
-- The theorems on the start of the task manager, for a build with room for three tasks of which two
-- are there, under the round robin scheduler.
use sentry_kernel.Base.{
  ℕ, suc, ◌+◌, ◌-◌, ◌<◌, ◌≡◌, refl, true, false, some, List, [], ◌∷◌, arith, length, get_elem?, ret,
  Result, success,
}
use sentry_kernel.KTypes.{okay}
use sentry_kernel.Task.{TaskMeta, Task}
use sentry_kernel.Sched.Rrmq.{Context, init}
use sentry_kernel.Sched.Rrmq.Lawful.{policy}
use sentry_kernel.Boot.{manager_ready, Target, Ctx, idle_meta}
use sentry_kernel.Boot.Automaton.{task_init}
use sentry_kernel.Boot.Round.{HasRoom}
use sentry_kernel.Boot.Filled.{tasks_of}
use sentry_kernel.Boot.Booted.{IsBooted}
use sentry_kernel.Boot.Ready.{task_init_lem}
use sentry_kernel.Boot.Rrmq.{HoldsFirst, HasJob, rrmq-HasRoom, init-HoldsFirst}
use sentry_kernel.Examples.{meta_of}
use sentry_kernel.Examples.Maps.{limits}

abbrev board : Target (ℕ × ℕ)
board = record {
  max_tasks = 3;
  task_magic = 0xdeadcafe;
  area_len = 16;
  wordsize = 32;
  initialize_sp = λ rerun top pc got. top - 64;
  zero_entry = (0, 0);
  sidle = 0x8001000;
  eidle = 0x8001100;
  idle_svcexchange = 0x20001000;
}

abbrev app : ℕ → TaskMeta
app label = record (meta_of label 3) { magic = 0xdeadcafe }

-- The second task is not started by itself; the last cell is not used.
abbrev build : List TaskMeta
build = app 1 ∷ record (app 2) { start_auto = false } ∷ meta_of 3 3 ∷ []

abbrev draw : ℕ → Result ℕ
draw n = success (1000 + n)

task_init_lem_example :
    (x : Ctx Context (ℕ × ℕ)) × (task_init (policy 3) board limits draw build (init 3)
      ≡ ret (okay, x))
    × (x.state ≡ manager_ready)
    × IsBooted (tasks_of board build) x.tasks
    × ((i : ℕ) (m : TaskMeta) (t : Task)
        → suc i < length (tasks_of board build)
        → get_elem? (tasks_of board build) i ≡ some m
        → m.start_auto ≡ true
        → get_elem? x.tasks.cells i ≡ some t
        → HasJob t.handle x.sched)
task_init_lem_example =
    task_init_lem (policy 3) board limits draw (HoldsFirst 3) HasJob build (init 3) (rrmq-HasRoom 3)
      (λ n. (1000 + n, refl)) (omega arith) (omega arith) refl (init-HoldsFirst 3)

-- Idle is the third of three tasks.
tasks_of-build :
    tasks_of board build ≡ app 1 ∷ record (app 2) { start_auto = false } ∷ idle_meta board ∷ []
unfolding tasks_of
tasks_of-build = refl

rrmq-HasRoom_example : HasRoom (policy 3) 3 (HoldsFirst 3) HasJob
rrmq-HasRoom_example = rrmq-HasRoom 3
