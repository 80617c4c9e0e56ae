-- ===== src/Examples/Schedulers.antt =====
-- The theorems on the schedulers at concrete contexts.
use sentry_kernel.Base.{
  ℕ, suc, ◌+◌, ◌-◌, ◌^◌, ◌≤◌, ◌<◌, ◌≡◌, refl, ◌≢◌, ◌⊎◌, true, none, some, [], ◌∷◌, arith, ◌==◌,
  get_elem?, Run, ret, ◌>>=◌, success,
}
use sentry_kernel.KTypes.{Kstatus, okay, ready}
use sentry_kernel.Task.{index_of, get_from_handle, get_sp, get_state, get_metadata, get_idle}
use sentry_kernel.Sched.Policy.{IsLawful}
use sentry_kernel.Sched.Rrmq.Jobsets.{count_if, count_active, occurrences}
use sentry_kernel.Sched.Rrmq.Select.{IsElected, select_lem}
use sentry_kernel.Sched.Rrmq.Invariant.{other, IsValid}
use sentry_kernel.Sched.Rrmq.Retire.{jobs_of}
use sentry_kernel.Sched.Rrmq.Schedule.{schedule_lem}
use sentry_kernel.Sched.Rrmq.Elect.{IsElection, JobsAfter, elect_lem}
use sentry_kernel.Sched.Rrmq.Lawful.{policy, IsWell, policy-IsLawful}
use sentry_kernel.Sched.Rrmq.Refresh.{charged, refresh_lem}
use sentry_kernel.Sched.Rrmq.{
  Job, primary_set, Context, jobset_at, swap_tables, not_in_jobset, empty_cell, add_to_jobset,
  schedule, select, elect_from, swap_if_empty, retire, elect, refresh,
}
use sentry_kernel.Examples.{
  second_handle, last_handle, three_tasks, last_is_idle, second-IsUser, first_job, one_job, running,
  running-IsValid,
}

abbrev small_enough : 2 < 2 ^ 32
small_enough = omega arith

abbrev three_fit : three_tasks.numtask ≤ suc 2
three_fit = omega arith

abbrev second_job : Job
second_job = record { handler = second_handle; priority = 4; quantum = 10; active = true }

elect_lem_example :
    (t : ℕ) × (c' : Context) × (elect 2 three_tasks running ≡ ret (t, c'))
    × IsElection 2 three_tasks last_handle t c'
    × JobsAfter three_tasks running (some (primary_set, 0)) c'
elect_lem_example =
    elect_lem 2 three_tasks three_fit small_enough last_handle running last_is_idle running-IsValid

schedule_lem_example :
    (status : Kstatus) × (c' : Context) × (schedule 2 three_tasks second_handle running
      ≡ ret (status, c'))
    × IsValid 2 three_tasks c'
    × (c'.current_job ≡ running.current_job)
    × (c'.active_jobset ≡ primary_set)
    × (jobset_at c' (other primary_set) ≡ jobset_at running (other primary_set))
    × (((status ≡ okay)
          × (get_state three_tasks second_handle ≡ success ready)
          × (occurrences second_handle one_job.joblist ≡ 0)
          × ((h : ℕ)
              → occurrences h (jobset_at c' primary_set).joblist
                ≡ occurrences h one_job.joblist + count_if (second_handle == h)))
        ⊎ ((status ≢ okay)
            × (c' ≡ running)
            × ((get_state three_tasks second_handle ≢ success ready)
                ⊎ (0 < occurrences second_handle one_job.joblist))))
schedule_lem_example =
    schedule_lem 2 three_tasks three_fit small_enough second_handle running running-IsValid
      second-IsUser

select_lem_example :
    ((count_active (first_job ∷ second_job ∷ []) ≡ 0)
      × (select 0 (first_job ∷ second_job ∷ []) none ≡ none))
    ⊎ ((m : ℕ) × (j : Job) × (0 < count_active (first_job ∷ second_job ∷ []))
        × (select 0 (first_job ∷ second_job ∷ []) none ≡ some (0 + m, j))
        × IsElected (first_job ∷ second_job ∷ []) m j)
select_lem_example = select_lem 0 (first_job ∷ second_job ∷ [])

second_absent : occurrences second_handle one_job.joblist ≡ 0
unfolding occurrences
second_absent = refl

policy-IsLawful_example : IsLawful (policy 2) (IsWell 2)
policy-IsLawful_example = policy-IsLawful 2 small_enough

last_known : get_from_handle three_tasks last_handle ≢ none
unfolding get_from_handle index_of
last_known e = cc

refresh_lem_example :
    ((1 < first_job.quantum)
      × ((c' : Context) × (refresh 2 three_tasks 55 running ≡ ret (55, c'))
          × IsValid 2 three_tasks c'
          × (c'.current_job ≡ running.current_job)
          × ((h : ℕ) → jobs_of h c' ≡ jobs_of h running)
          × (get_elem? (jobset_at c' primary_set).joblist 0
              ≡ some (record first_job { quantum = 10 - 1 }))
          × (c' ≡ charged 2 three_tasks running 0 first_job)))
    ⊎ ((first_job.quantum ≡ 1)
        × ((t : ℕ) × (sp : ℕ) × (c' : Context) × (refresh 2 three_tasks 55 running ≡ ret (sp, c'))
            × (get_sp three_tasks t ≡ success sp)
            × IsElection 2 three_tasks last_handle t c'
            × (elect 2 three_tasks (charged 2 three_tasks running 0 first_job) ≡ ret (t, c'))
            × JobsAfter three_tasks
                (charged 2 three_tasks running 0 first_job)
                running.current_job
                c'
            × ((h : ℕ)
                → jobs_of h (charged 2 three_tasks running 0 first_job) ≡ jobs_of h running)))
refresh_lem_example =
    refresh_lem 2 three_tasks three_fit small_enough 55 last_handle 0 running first_job last_is_idle
      last_known running-IsValid refl refl refl (omega arith) (omega arith)

-- The running task is preempted by the one of higher priority that was scheduled meanwhile.
two_jobs : Run (Kstatus × Context)
two_jobs = schedule 2 three_tasks second_handle running

test_preemption :
    (two_jobs >>= λ (_, c). elect 2 three_tasks c >>= λ (t, _). ret t) ≡ ret second_handle
unfolding two_jobs schedule elect add_to_jobset not_in_jobset empty_cell elect_from swap_if_empty
    select retire get_state get_metadata get_idle get_from_handle index_of swap_tables
test_preemption = refl
