-- ===== src/Examples.antt =====
-- A small system to run the model on: two user tasks and idle, scheduled by `sched_rrmq`.
pub mod Tasks
pub mod Schedulers
pub mod Kernels
pub mod Maps
pub mod Boots
pub mod Sorts
pub mod Queries
pub mod Waits
pub mod Streams
pub mod Queues
use sentry_kernel.Base.{
  ℕ, ◌+◌, ◌≡◌, refl, inl, inr, true, some, List, [], ◌∷◌, arith, replicate, ret,
}
use sentry_kernel.KTypes.{secure_false, JobState, ready, ok}
use sentry_kernel.Task.{TaskMeta, Task, TaskTable, index_of, get_from_handle, get_idle}
use sentry_kernel.Sched.Rrmq.{
  Job, Jobset, primary_set, secondary_set, Context, zero_job, zero_jobset,
}
use sentry_kernel.Sched.Rrmq.Jobsets.{count_active, occurrences}
use sentry_kernel.Sched.Rrmq.Room.{IsUser}
use sentry_kernel.Sched.Rrmq.Add.{JobsetIsValid}
use sentry_kernel.Sched.Rrmq.Invariant.{other, IsValid}

abbrev pub meta_of : ℕ → ℕ → TaskMeta
meta_of label priority = record {
  magic = 0;
  label = label;
  priority = priority;
  quantum = 10;
  capabilities = 0xffff;
  start_auto = true;
  num_devs = 0;
  devs = [];
  s_text = 0x8000000;
  text_size = 1000;
  rodata_size = 24;
  s_got = 0;
  got_size = 0;
  data_size = 16;
  bss_size = 8;
  heap_size = 0;
  stack_size = 512;
  entrypoint_offset = 1;
  s_svcexchange = 0x20000000;
}

abbrev pub task_of : ℕ → ℕ → JobState → List ℕ → Task
task_of handle priority state ipcs = record {
  metadata = some (meta_of handle priority);
  handle = handle;
  sp = 100 + handle;
  ipcs = ipcs;
  sigs = replicate 3 0;
  ints = replicate 16 7;
  ints_head = 2;
  ints_bottom = 0;
  dmas = replicate 16 (5, 1);
  dmas_head = 1;
  dmas_bottom = 15;
  state = state;
  returncode = 0;
  sysretassigned = secure_false;
  sysreturn = ok;
  svcexchange = replicate 16 170;
}

-- Handles with identifiers 0, 1 and 2.
abbrev pub first_handle : ℕ
first_handle = 1

abbrev pub second_handle : ℕ
second_handle = 1048578

abbrev pub last_handle : ℕ
last_handle = 2097155

-- The second task has sent an IPC to the first one.
abbrev pub first_task : Task
first_task = task_of first_handle 3 ready (0 ∷ 5 ∷ 0 ∷ [])

abbrev pub second_task : Task
second_task = task_of second_handle 4 ready (0 ∷ 0 ∷ 0 ∷ [])

abbrev pub last_task : Task
last_task = task_of last_handle 0 ready (0 ∷ 0 ∷ 0 ∷ [])

abbrev pub three_tasks : TaskTable
three_tasks = record { cells = first_task ∷ second_task ∷ last_task ∷ []; numtask = 3 }

pub first_found : get_from_handle three_tasks first_handle ≡ some first_task
unfolding get_from_handle index_of
first_found = refl

pub second_found : get_from_handle three_tasks second_handle ≡ some second_task
unfolding get_from_handle index_of
second_found = refl

pub last_is_idle : get_idle three_tasks ≡ ret last_handle
unfolding get_idle
last_is_idle = refl

pub first-IsUser : IsUser three_tasks first_handle
unfolding index_of
first-IsUser = (first_task, meta_of first_handle 3, first_found, refl, omega arith)

pub second-IsUser : IsUser three_tasks second_handle
unfolding index_of
second-IsUser = (second_task, meta_of second_handle 4, second_found, refl, omega arith)

abbrev pub first_job : Job
first_job = record { handler = first_handle; priority = 3; quantum = 10; active = true }

-- The first task runs; the second one is not scheduled.
abbrev pub one_job : Jobset
one_job = record { num_jobs = 1; joblist = first_job ∷ zero_job ∷ [] }

abbrev pub running : Context
running = record {
  primary = one_job;
  secondary = zero_jobset 2;
  active_jobset = primary_set;
  backed_jobset = secondary_set;
  current_job = some (primary_set, 0);
}

pub one_job-IsValid : JobsetIsValid 2 three_tasks one_job
unfolding count_active occurrences
one_job-IsValid = record {
  storage = refl;
  counted = refl;
  unique = λ t. ground arith;
  users = (inr first-IsUser, (inl refl, tt));
}

pub no_job-IsValid : JobsetIsValid 2 three_tasks (zero_jobset 2)
unfolding count_active occurrences
no_job-IsValid = record {
  storage = refl;
  counted = refl;
  unique = λ t. ground arith;
  users = (inl refl, (inl refl, tt));
}

pub running-IsValid : IsValid 2 three_tasks running
unfolding other
running-IsValid = record {
  sets = record {
    valid = elim [ primary_set ↦ one_job-IsValid | secondary_set ↦ no_job-IsValid ];
    opposite = refl;
  };
  current = (refl, first_job, refl, refl);
}
