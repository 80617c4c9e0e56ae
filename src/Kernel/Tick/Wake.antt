-- ===== src/Kernel/Tick/Wake.antt =====
-- The ticker at the end of a task's delay, with any lawful scheduler.
use sentry_kernel.Base.{ℕ, ◌≡◌, refl, sym, ap, subst, ◌≢◌, true, none, ret, >>=-ret, success}
use sentry_kernel.KTypes.{JobState, ready, timeout}
use sentry_kernel.Task.{TaskTable, get_from_handle, get_state, set_state}
use sentry_kernel.Task.Agree.{Agree-trans, set_state-Agree, set_sysreturn-Agree}
use sentry_kernel.Delay.{TaskDelayState, DelayedJobset, update, disarm}
use sentry_kernel.Delay.Cells.{length-update}
use sentry_kernel.Sched.Policy.{Policy, IsLawful}
use sentry_kernel.Sched.Rrmq.Room.{IsUser}
use sentry_kernel.Sched.Rrmq.Lawful.{IsUser-stable}
use sentry_kernel.Kernel.{Kernel, put_state, put_sysreturn, sched_schedule}
use sentry_kernel.Kernel.Valid.{
  Rescheduled, KernelIsValid, tasks-IsValid, delays-IsValid, sched_schedule-IsValid,
}
use sentry_kernel.Kernel.Tick.{may_wake, put_job, expire_job}
use sentry_kernel.Syscalls.Suspend.{Suspended, put_both-Suspended}

module _ {S : Type 0} (p : Policy S) (IsWell : TaskTable → S → Type 0) (lawful : IsLawful p IsWell)
    (tick_ms max_tasks : ℕ) where
  expire_job-run :
      (i : ℕ) (d : TaskDelayState) (k k' : Kernel S) (s : JobState)
      → get_state k.tasks d.handler ≡ success s
      → may_wake s ≡ true
      → sched_schedule p d.handler (put_sysreturn d.handler timeout (put_state d.handler ready k))
        ≡ ret k'
      → expire_job p tick_ms i d k ≡ ret (put_job disarm i k')
  unfolding expire_job
  expire_job-run i d k k' s st wakes run = rw (expire_job, st, wakes) (>>=-ret _ run)

  -- When the delay of a user task is over that sleeps or waits, on a well-formed kernel, the ticker
  -- neither panics nor faults: the task is ready with STATUS_TIMEOUT, its delay is disarmed and no
  -- other one is touched, no other task changes its state, the scheduler is called for the task once it
  -- is ready, and the kernel stays well formed.
  pub expire_job_lem :
      (idle i : ℕ) (d : TaskDelayState) (k : Kernel S) (s : JobState)
      → KernelIsValid p IsWell lawful max_tasks idle k
      → IsUser k.tasks d.handler
      → get_state k.tasks d.handler ≡ success s
      → may_wake s ≡ true
      → (k' : Kernel S) × (expire_job p tick_ms i d k ≡ ret k')
        × KernelIsValid p IsWell lawful max_tasks idle k'
        × Suspended d.handler ready timeout k.tasks k'.tasks
        × (k'.delays.joblist ≡ update disarm i k.delays.joblist)
        × (k'.delays.evlist ≡ k.delays.evlist)
        × Rescheduled p d.handler k'.tasks k.sched k'.sched
  expire_job_lem idle i d k s v user st wakes =
      let h = d.handler in
      let there : get_from_handle k.tasks h ≢ none = rw user.2 (λ e. cc) in
      let k1 = put_sysreturn h timeout (put_state h ready k) in
      let agree =
        Agree-trans k.tasks (set_state k.tasks h ready).1 k1.tasks (set_state-Agree k.tasks h ready)
          (set_sysreturn-Agree (set_state k.tasks h ready).1 h timeout) in
      let (k2, run, v2, (same, delays), called) =
        sched_schedule-IsValid p IsWell lawful max_tasks idle k1 h
          (tasks-IsValid p IsWell lawful max_tasks idle k k1.tasks v agree)
          (IsUser-stable k.tasks k1.tasks agree.numtask agree.metadata h user) in
      (
        put_job disarm i k2,
        expire_job-run i d k k2 s st wakes run,
        delays-IsValid p IsWell lawful max_tasks idle k2 _ v2
            (length-update disarm i k2.delays.joblist) refl,
        rw same (put_both-Suspended k h ready timeout there),
        ap (λ (c : DelayedJobset). update disarm i c.joblist) delays,
        ap (λ (c : DelayedJobset). c.evlist) delays,
        subst (λ tab. Rescheduled p h tab k.sched k2.sched) (sym same) called,
      )
