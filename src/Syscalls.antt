-- ===== src/Syscalls.antt =====
-- The system calls that suspend or wake tasks: kernel/src/syscalls, sysgate_sleep.c, sysgate_exit.c,
-- sysgate_yield.c, sysgate_send_signal.c and sysgate_alarm.c, as built without
-- CONFIG_BUILD_TARGET_AUTOTEST. A gate returns the stack frame of the task to resume.
pub mod Ipc
pub mod Sharing
pub mod Suspend
pub mod Leave
pub mod Start
pub mod Signal
pub mod Alarm
pub mod Map
pub mod Wait
pub mod Query
pub mod Dma
use sentry_kernel.Base.{
  ℕ, true, false, ◌||◌, ltb, ◌==◌, if◌then◌else◌, Run, ret, panic, ◌>>=◌, success, failure,
}
use sentry_kernel.KTypes.{
  Kstatus, okay, error_busy, error_invparam, JobState, ready, sleeping, sleeping_deep, aborting,
  finished, waitforevent, kernel_invalid_manager_response, Status, ok, invalid, no_entity, busy,
  intr, non_sense,
}
use sentry_kernel.Task.{TaskTable, get_state, set_state, set_jobreturn}
use sentry_kernel.Delay.{DelayedJobset, add_job, del_job, add_signal, del_signal}
use sentry_kernel.Sched.Policy.{Policy}
use sentry_kernel.Kernel.{
  Kernel, Gate, put_state, put_sysreturn, sched_schedule, push_sig_event, elect_next,
}

module _ {S : Type 0} where
  -- The current task stays, with the return value of its system call.
  abbrev pub answer : ℕ → ℕ → Status → Kernel S → Gate S
  answer frame t s k = ret (frame, put_sysreturn t s k)

  -- A write to the task table where its failure panics.
  abbrev pub or_panic : Kernel S → Kstatus × TaskTable → Run (Kernel S)
  or_panic k (okay, tab) = ret (record k { tasks = tab })
  or_panic k (_, tab) = panic kernel_invalid_manager_response

module _ {S : Type 0} (p : Policy S) where
  -- The delay is armed: the task sleeps, and its return value is set by who wakes it.
  abbrev pub fall_asleep : ℕ → JobState → Kstatus × DelayedJobset → ℕ → Kernel S → Gate S
  fall_asleep t s (okay, delays) frame k = do
    k' ← or_panic (record k { delays = delays }) (set_state k.tasks t s)
    elect_next p (put_sysreturn t non_sense k')
  fall_asleep t s (_, delays) frame k = answer frame t busy (record k { delays = delays })

  -- `gate_sleep`; SLEEP_MODE_DEEP is 1.
  unfoldable pub gate_sleep : ℕ → ℕ → ℕ → Kernel S → Gate S
  gate_sleep frame duration_ms sleep_mode k = do
    t ← p.current k.tasks k.sched
    if ltb 1 sleep_mode
        then answer frame t invalid k
        else fall_asleep t (if sleep_mode == 1 then sleeping_deep else sleeping)
            (add_job t duration_ms k.delays) frame k

  -- `gate_exit`
  unfoldable pub gate_exit : ℕ → Kernel S → Gate S
  gate_exit result k = do
    t ← p.current k.tasks k.sched
    k1 ← or_panic k (set_jobreturn k.tasks t result)
    k2 ← or_panic k1 (set_state k1.tasks t (if result == 0 then finished else aborting))
    elect_next p (put_sysreturn t non_sense k2)

  -- `gate_yield`
  unfoldable pub gate_yield : Kernel S → Gate S
  gate_yield k = do
    t ← p.current k.tasks k.sched
    (frame, k') ← elect_next p k
    answer frame t ok k'

  -- What a sender does to a target that sleeps or waits: its delay is dropped, its system call is
  -- interrupted and it is made eligible.
  abbrev pub interrupt : ℕ → Kernel S → Run (Kernel S)
  interrupt target k = sched_schedule p target (
      put_state target ready
        (put_sysreturn target intr (record k { delays = (del_job target k.delays).1 })))

  abbrev pub interrupt_sleeper : ℕ → JobState → Kernel S → Run (Kernel S)
  interrupt_sleeper target sleeping k = interrupt target k
  interrupt_sleeper target waitforevent k = interrupt target k
  interrupt_sleeper target _ k = ret k

  -- The end of `gate_send_signal`, from the status of the push on.
  abbrev pub signal_pushed : ℕ → ℕ → ℕ → JobState → Kstatus × Kernel S → Gate S
  signal_pushed frame t target dest_state (error_invparam, k) = answer frame t invalid k
  signal_pushed frame t target dest_state (error_busy, k) = answer frame t busy k
  signal_pushed frame t target dest_state (_, k) = do
    k' ← interrupt_sleeper target dest_state k
    answer frame t ok k'

  -- `gate_send_signal`; SIGNAL_ABORT is 1 and SIGNAL_USR2 is 12.
  unfoldable pub gate_send_signal : ℕ → ℕ → ℕ → Kernel S → Gate S
  gate_send_signal frame target signal k = do
    t ← p.current k.tasks k.sched
    if (t == target) || ltb signal 1 || ltb 12 signal
        then answer frame t invalid k
        else elim (get_state k.tasks target) [
          | failure _ ↦ answer frame t invalid k
          | success dest_state ↦ do
            pushed ← push_sig_event p signal t target k
            signal_pushed frame t target dest_state pushed
        ]

  abbrev pub alarm_armed : ℕ → ℕ → Status → Kstatus × DelayedJobset → Kernel S → Gate S
  alarm_armed frame t bad (okay, delays) k = answer frame t ok (record k { delays = delays })
  alarm_armed frame t bad (_, delays) k = answer frame t bad (record k { delays = delays })

  -- `gate_alarm`; SIGNAL_ALARM is 2, the flags are O_ALRM_START, O_ALRM_START_PERIODIC and
  -- O_ALRM_STOP.
  unfoldable pub gate_alarm : ℕ → ℕ → ℕ → ℕ → Kernel S → Gate S
  gate_alarm max_tasks frame delay_ms flag k = do
    t ← p.current k.tasks k.sched
    if flag == 0
        then alarm_armed frame t busy (add_signal t delay_ms 2 false k.delays) k
        else if flag == 1
        then alarm_armed frame t busy (add_signal t delay_ms 2 true k.delays) k
        else if flag == 2
        then (do
          deleted ← del_signal max_tasks t delay_ms k.delays
          alarm_armed frame t no_entity deleted k)
        else answer frame t invalid k
