-- ===== src/Sched/Rrmq.antt =====
-- The round robin multi-queue scheduler: kernel/src/sched/sched_rrmq.c. `max_tasks` is
-- CONFIG_MAX_TASKS, the length of a job list; a pointer to a job set is one of two names, and a
-- pointer to a job is the name of its set with its index. `uint32_t` counters wrap.
pub mod Jobsets
pub mod Room
pub mod Add
pub mod Select
pub mod Invariant
pub mod Schedule
pub mod Retire
pub mod Elect
pub mod Lawful
pub mod Refresh
use sentry_kernel.Base.{
  ℕ, suc, ◌+◌, ◌-◌, ◌%◌, ◌^◌, Bool, true, false, ◌&&◌, Option, none, some, List, [], ◌∷◌, ltb, ◌==◌,
  if◌then◌else◌, get_elem?, set, replicate, Run, ret, panic, fault, ◌>>=◌, success, failure,
}
use sentry_kernel.KTypes.{
  Kstatus, okay, error_invparam, error_badstate, JobState, ready, kernel_shorter_kbuffers_config,
  kernel_invalid_manager_response,
}
use sentry_kernel.Task.{TaskMeta, TaskTable, get_sp, get_state, get_metadata, get_idle}
use mathlib.Core.List.{map}
use mathlib.Core.Option

-- `task_rrmq_state_t`
pub record Job : Type 0 where
  pub handler : ℕ
  pub priority : ℕ
  pub quantum : ℕ
  pub active : Bool

-- `task_rrmq_jobset_t`
pub record Jobset : Type 0 where
  pub num_jobs : ℕ
  pub joblist : List Job

-- The address of a job set.
pub data JobsetName : Type 0 where
  primary_set secondary_set : JobsetName

-- `sched_rrmq_context_t`
pub record Context : Type 0 where
  pub primary : Jobset
  pub secondary : Jobset
  pub active_jobset : JobsetName
  pub backed_jobset : JobsetName
  pub current_job : Option (JobsetName × ℕ)

abbrev pub jobset_at : Context → JobsetName → Jobset
jobset_at c primary_set = c.primary
jobset_at c secondary_set = c.secondary

abbrev pub set_jobset : Context → JobsetName → Jobset → Context
set_jobset c primary_set s = record c { primary = s }
set_jobset c secondary_set s = record c { secondary = s }

abbrev pub job_at : Context → JobsetName × ℕ → Option Job
job_at c (name, i) = get_elem? (jobset_at c name).joblist i

abbrev pub set_job : Context → JobsetName × ℕ → Job → Context
set_job c (name, i) j =
    set_jobset c name (record (jobset_at c name) { joblist = set (jobset_at c name).joblist i j })

abbrev pub swap_to : JobsetName → Context → Context
swap_to primary_set c = record c { active_jobset = secondary_set; backed_jobset = primary_set }
swap_to secondary_set c = record c { active_jobset = primary_set; backed_jobset = secondary_set }

-- `sched_swap_tables`
unfoldable pub swap_tables : Context → Context
swap_tables c = swap_to c.active_jobset c

abbrev pub zero_job : Job
zero_job = record { handler = 0; priority = 0; quantum = 0; active = false }

abbrev pub zero_jobset : ℕ → Jobset
zero_jobset max_tasks = record { num_jobs = 0; joblist = replicate max_tasks zero_job }

-- `sched_rrmq_init`
unfoldable pub init : ℕ → Context
init max_tasks = record {
  primary = zero_jobset max_tasks;
  secondary = zero_jobset max_tasks;
  active_jobset = primary_set;
  backed_jobset = secondary_set;
  current_job = none;
}

-- `sched_rrmq_not_in_jobset`, the loop over the job list.
unfoldable pub not_in_jobset : ℕ → List Job → Kstatus
not_in_jobset t [] = okay
not_in_jobset t (j ∷ js) = if j.active && j.handler == t then error_badstate else not_in_jobset t js

-- The first empty cell; the code keeps cell 0 when it finds none.
unfoldable pub empty_cell : List Job → Option ℕ
empty_cell [] = none
empty_cell (j ∷ js) = if j.active then Option.map suc (empty_cell js) else some 0

abbrev pub empty_or_zero : Option ℕ → ℕ
empty_or_zero none = 0
empty_or_zero (some i) = i

-- The store of a job into the cell that was chosen. The metadata is dereferenced.
abbrev pub place : ℕ → Option TaskMeta → Jobset → Run (Kstatus × Jobset)
place t none s = fault
place t (some m) s = ret (
  okay,
  record {
    num_jobs = (s.num_jobs + 1) % 2 ^ 32;
    joblist =
        set s.joblist (empty_or_zero (empty_cell s.joblist))
          (record { handler = t; priority = m.priority; quantum = m.quantum; active = true });
  },
)

abbrev pub place_checked :
    ℕ → Option TaskMeta → JobState → Kstatus → Jobset → Run (Kstatus × Jobset)
place_checked t m ready okay s = place t m s
place_checked t m ready e s = ret (e, s)
place_checked t m _ e s = ret (error_invparam, s)

-- `sched_rrmq_add_to_jobset`
unfoldable pub add_to_jobset : ℕ → TaskTable → ℕ → Jobset → Run (Kstatus × Jobset)
add_to_jobset max_tasks tab t s =
    if ltb max_tasks s.num_jobs
    then panic kernel_shorter_kbuffers_config
    else elim (get_metadata tab t) [
      | failure e ↦ ret (e, s)
      | success m ↦ elim (get_state tab t) [
        | failure e ↦ ret (e, s)
        | success state ↦ place_checked t m state (not_in_jobset t s.joblist) s
      ]
    ]

-- `sched_rrmq_schedule`
unfoldable pub schedule : ℕ → TaskTable → ℕ → Context → Run (Kstatus × Context)
schedule max_tasks tab t c = do
  (status, s) ← add_to_jobset max_tasks tab t (jobset_at c c.active_jobset)
  ret (status, set_jobset c c.active_jobset s)

-- One round of the selection loop, at an active job: a first one, or one of higher priority, is taken.
abbrev pub better : ℕ × Job → Option (ℕ × Job) → Option (ℕ × Job)
better (i, j) none = some (i, j)
better (i, j) (some (k, n)) = if ltb n.priority j.priority then some (i, j) else some (k, n)

-- The selection loop over the jobs from index `i` on.
unfoldable pub select : ℕ → List Job → Option (ℕ × Job) → Option (ℕ × Job)
select i [] next = next
select i (j ∷ js) next = select (i + 1) js (if j.active then better (i, j) next else next)

-- What is left of `sched_rrmq_elect` from the label `elect` on; `idle` is the default.
abbrev pub elected : ℕ → Context → Option (ℕ × Job) → ℕ × Context
elected idle c none = (idle, record c { current_job = none })
elected idle c (some (i, j)) = (j.handler, record c { current_job = some (c.active_jobset, i) })

unfoldable pub elect_from : ℕ → Context → ℕ × Context
elect_from idle c =
    if (jobset_at c c.active_jobset).num_jobs == 0
    then (idle, record c { current_job = none })
    else elected idle c (select 0 (jobset_at c c.active_jobset).joblist none)

unfoldable pub swap_if_empty : Context → Context
swap_if_empty c = if (jobset_at c c.active_jobset).num_jobs == 0 then swap_tables c else c

-- The current job leaves its cell, and one job is counted off the active set.
abbrev pub deactivate : Context → JobsetName × ℕ → Option Job → Run Context
deactivate c p none = fault
deactivate c p (some j) =
    let c' = set_job c p (record j { active = false }) in
    let s = jobset_at c' c'.active_jobset in
    ret
      (set_jobset c' c'.active_jobset (record s { num_jobs = (s.num_jobs + 2 ^ 32 - 1) % 2 ^ 32 }))

-- A job that is still ready goes to the backed set; the status of that is not looked at.
abbrev pub requeue : ℕ → TaskTable → ℕ → JobState → Context → Run Context
requeue max_tasks tab t ready c = do
  (_, s) ← add_to_jobset max_tasks tab t (jobset_at c c.backed_jobset)
  ret (set_jobset c c.backed_jobset s)
requeue max_tasks tab t _ c = ret c

unfoldable pub retire : ℕ → TaskTable → JobsetName × ℕ → Option Job → Context → Run Context
retire max_tasks tab p none c = fault
retire max_tasks tab p (some j) c = elim (get_state tab j.handler) [
  | failure _ ↦ panic kernel_invalid_manager_response
  | success state ↦ do c' ← requeue max_tasks tab j.handler state c; deactivate c' p (job_at c' p)
]

-- `sched_rrmq_elect`: the handle that is elected and the new context.
unfoldable pub elect : ℕ → TaskTable → Context → Run (ℕ × Context)
elect max_tasks tab c = do
  idle ← get_idle tab
  c' ← elim c.current_job [ none ↦ ret c | some p ↦ retire max_tasks tab p (job_at c p) c ]
  ret (elect_from idle (swap_if_empty c'))

-- `sched_rrmq_get_current`
unfoldable pub get_current : TaskTable → Context → Run ℕ
get_current tab c = do
  idle ← get_idle tab
  elim c.current_job [
    | none ↦ ret idle
    | some p ↦ elim (job_at c p) [ none ↦ fault | some j ↦ ret j.handler ]
  ]

abbrev pub refresh_job :
    ℕ → TaskTable → ℕ → Context → JobsetName × ℕ → Option Job → Run (ℕ × Context)
refresh_job max_tasks tab frame c p none = fault
refresh_job max_tasks tab frame c p (some j) =
    let left = (j.quantum + 2 ^ 32 - 1) % 2 ^ 32 in
    let c' = set_job c p (record j { quantum = left }) in
    if left == 0
    then (do
      (t, c'') ← elect max_tasks tab c'
      elim (get_sp tab t) [
        | failure _ ↦ panic kernel_invalid_manager_response
        | success sp ↦ ret (sp, c'')
      ])
    else ret (frame, c')

-- `sched_rrmq_refresh`: the stack frame to resume, one tick later.
unfoldable pub refresh : ℕ → TaskTable → ℕ → Context → Run (ℕ × Context)
refresh max_tasks tab frame c = elim c.current_job [
  | none ↦ ret (frame, c)
  | some p ↦ refresh_job max_tasks tab frame c p (job_at c p)
]
