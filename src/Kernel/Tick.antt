-- ===== src/Kernel/Tick.antt =====
-- `mgr_time_delay_tick` of kernel/src/managers/time/delay.c.
pub mod Rounds
pub mod Sleep
pub mod Wake
use sentry_kernel.Base.{
  ℕ, zero, suc, ◌+◌, ◌-◌, Bool, true, false, none, some, List, ltb, if◌then◌else◌, get_elem?, Run,
  ret, panic, fault, ◌>>=◌, success, failure,
}
use sentry_kernel.KTypes.{
  JobState, ready, sleeping, sleeping_deep, waitforevent, kernel_invalid_manager_state, timeout,
}
use sentry_kernel.Task.{get_state}
use sentry_kernel.Delay.{TaskDelayState, update, disarm}
use sentry_kernel.Sched.Policy.{Policy}
use sentry_kernel.Kernel.{Kernel, put_state, put_sysreturn, sched_schedule, push_sig_event}

abbrev pub may_wake : JobState → Bool
may_wake sleeping = true
may_wake sleeping_deep = true
may_wake waitforevent = true
may_wake _ = false

module _ {S : Type 0} where
  -- A write to the cell `i` of one of the two arrays.
  abbrev pub put_job : (TaskDelayState → TaskDelayState) → ℕ → Kernel S → Kernel S
  put_job f i k = record k { delays = record k.delays { joblist = update f i k.delays.joblist } }

  abbrev pub put_event : (TaskDelayState → TaskDelayState) → ℕ → Kernel S → Kernel S
  put_event f i k = record k { delays = record k.delays { evlist = update f i k.delays.evlist } }

abbrev pub leave : ℕ → TaskDelayState → TaskDelayState
leave ms d = record d { remaining_time_ms = ms }

-- `tick_ms` is JIFFIES_TO_MSEC(1).
module _ {S : Type 0} (p : Policy S) (tick_ms : ℕ) where
  -- The delay of a task is over. The state is read uninitialised when the task is unknown.
  unfoldable pub expire_job : ℕ → TaskDelayState → Kernel S → Run (Kernel S)
  expire_job i d k = elim (get_state k.tasks d.handler) [
    | failure _ ↦ fault
    | success state ↦
        if may_wake state
        then (do
          k' ←
              sched_schedule p d.handler
                (put_sysreturn d.handler timeout (put_state d.handler ready k))
          ret (put_job disarm i k'))
        else panic kernel_invalid_manager_state
  ]

  -- The delay of a signal is over; the status of the push is not looked at.
  unfoldable pub expire_event : ℕ → TaskDelayState → Kernel S → Run (Kernel S)
  expire_event i d k = do
    (_, k') ← push_sig_event p d.signal d.handler d.handler k
    ret (if d.periodic then put_event (leave d.wait_time_ms) i k' else put_event disarm i k')

  -- A round of either loop, at the cell `i` that holds `d`: `modify` writes to the array, `expire` is
  -- what happens when the delay is over.
  abbrev pub count :
      ((TaskDelayState → TaskDelayState) → ℕ → Kernel S → Kernel S)
      → (ℕ → TaskDelayState → Kernel S → Run (Kernel S))
      → ℕ
      → Kernel S
      → TaskDelayState
      → Run (Kernel S)
  count modify expire i k d =
      if d.active
      then (if ltb tick_ms d.remaining_time_ms
          then ret (modify (leave (d.remaining_time_ms - tick_ms)) i k)
          else expire i d (modify (leave 0) i k))
      else ret k

  -- The rounds `i`, …, `i + n - 1` of a loop over an array.
  unfoldable pub rounds :
      (Kernel S → List TaskDelayState)
      → (ℕ → Kernel S → TaskDelayState → Run (Kernel S))
      → ℕ
      → ℕ
      → Kernel S
      → Run (Kernel S)
  rounds cells round i zero k = ret k
  rounds cells round i (suc n) k = do
    k' ← elim (get_elem? (cells k) i) [ none ↦ fault | some d ↦ round i k d ]
    rounds cells round (i + 1) n k'

  -- `mgr_time_delay_tick`
  unfoldable pub tick : ℕ → Kernel S → Run (Kernel S)
  tick max_tasks k = do
    k' ← rounds (λ k. k.delays.joblist) (count put_job expire_job) 0 max_tasks k
    rounds (λ k. k.delays.evlist) (count put_event expire_event) 0 max_tasks k'
