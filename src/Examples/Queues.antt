-- ===== src/Examples/Queues.antt =====
-- The theorems on the FIFO scheduler and the delay queues at concrete contexts.
use sentry_kernel.Base.{
  ℕ, ◌<◌, ◌≡◌, refl, ◌⊎◌, inl, Bool, true, false, some, [], ◌∷◌, ◌++◌, arith, length, ret,
}
use sentry_kernel.KTypes.{okay, error_busy, error_noent, security_invstate}
use sentry_kernel.Sched.Fifo.{Context, idle_handle, schedule, elect, get_current}
use sentry_kernel.Sched.Fifo.Queue.{contents, IsRing, fifo_schedule_lem, fifo_elect_lem}
use sentry_kernel.Delay.{TaskDelayState, DelayedJobset, is_free, is_job, disarm, add_job, del_job}
use sentry_kernel.Delay.Cells.{armed, NoneOf, Inserted, AtFirst}
use sentry_kernel.Delay.Slots.{IsArmedFor, add_job_lem, del_job_lem}

-- Three places, with the tasks 7 and 8 in the last one and the first one.
abbrev two_queued : Context
two_queued = record {
  tasks_queue = 8 ∷ 0 ∷ 7 ∷ [];
  next_task = 2;
  end_of_queue = 1;
  empty = false;
  current = 9;
}

two_queued-IsRing : IsRing 3 two_queued
two_queued-IsRing = record {
  storage = refl;
  next_inside = omega arith;
  end_inside = omega arith;
  closed = inl refl;
}

fifo_schedule_lem_example :
    ((length (contents 3 two_queued) < 3)
      × ((c' : Context) × (schedule 3 5 two_queued ≡ (okay, c'))
          × IsRing 3 c'
          × (contents 3 c' ≡ contents 3 two_queued ++ some 5 ∷ [])
          × (get_current c' ≡ 9)))
    ⊎ ((length (contents 3 two_queued) ≡ 3)
        × (schedule 3 5 two_queued ≡ (security_invstate, two_queued)))
fifo_schedule_lem_example = fifo_schedule_lem 3 5 two_queued two_queued-IsRing

fifo_elect_lem_example :
    ((contents 3 two_queued ≡ []) × (elect 3 two_queued ≡ ret (idle_handle, two_queued)))
    ⊎ ((t : ℕ) × (c' : Context) × (elect 3 two_queued ≡ ret (t, c'))
        × IsRing 3 c'
        × (contents 3 two_queued ≡ some t ∷ contents 3 c')
        × (get_current c' ≡ t))
fifo_elect_lem_example = fifo_elect_lem 3 two_queued two_queued-IsRing

abbrev delay_of : ℕ → ℕ → Bool → TaskDelayState
delay_of job ms on = record {
  handler = job;
  signal = 0;
  wait_time_ms = ms;
  remaining_time_ms = ms;
  periodic = false;
  active = on;
}

abbrev one_delay : DelayedJobset
one_delay = record {
  joblist = delay_of 4 100 true ∷ delay_of 5 20 false ∷ [];
  evlist = delay_of 4 50 false ∷ delay_of 6 30 true ∷ [];
}

add_job_lem_example :
    ((d : TaskDelayState) × (c' : DelayedJobset) × (add_job 9 10 one_delay ≡ (okay, c'))
      × (c'.evlist ≡ one_delay.evlist)
      × IsArmedFor 9 10 d
      × Inserted d (armed one_delay.joblist) (armed c'.joblist)
      × AtFirst is_free d one_delay.joblist c'.joblist)
    ⊎ ((add_job 9 10 one_delay ≡ (error_busy, one_delay))
        × (armed one_delay.joblist ≡ one_delay.joblist))
add_job_lem_example = add_job_lem 9 10 one_delay

del_job_lem_example :
    ((d : TaskDelayState) × (c' : DelayedJobset) × (del_job 4 one_delay ≡ (okay, c'))
      × (d.handler ≡ 4)
      × (c'.evlist ≡ one_delay.evlist)
      × Inserted d (armed c'.joblist) (armed one_delay.joblist)
      × AtFirst (is_job 4) (disarm d) one_delay.joblist c'.joblist)
    ⊎ ((del_job 4 one_delay ≡ (error_noent, one_delay)) × NoneOf (is_job 4) one_delay.joblist)
del_job_lem_example = del_job_lem 4 one_delay
