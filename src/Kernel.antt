-- ===== src/Kernel.antt =====
-- The state that the system calls and the ticker work on, and the task manager functions that call
-- the scheduler: `mgr_task_push_sig_event` of kernel/src/managers/task/task_core.c.
pub mod Tick
pub mod Valid
pub mod Signals
pub mod Ipc
use sentry_kernel.Base.{
  ℕ, Option, none, some, ◌==◌, if◌then◌else◌, get_elem?, set, Run, ret, panic, fault, ◌>>=◌,
  success, failure,
}
use sentry_kernel.KTypes.{
  Kstatus, okay, error_busy, error_invparam, JobState, ready, waitforevent,
  kernel_invalid_manager_response, Status,
}
use sentry_kernel.Task.{
  Task, TaskTable, index_of, get_from_handle, write, get_sp, set_state, set_sysreturn,
}
use sentry_kernel.Delay.{DelayedJobset}
use sentry_kernel.Shm.{ShmTable}
use sentry_kernel.Sched.Policy.{Policy}

pub record Kernel (S : Type 0) : Type 0 where
  pub tasks : TaskTable
  pub sched : S
  pub delays : DelayedJobset
  pub shms : ShmTable

-- What a system call hands back: the stack frame to resume.
abbrev pub Gate : Type 0 → Type 0
Gate S = Run (ℕ × Kernel S)

module _ {S : Type 0} where
  -- The calls whose status the callers do not look at.
  abbrev pub put_state : ℕ → JobState → Kernel S → Kernel S
  put_state h s k = record k { tasks = (set_state k.tasks h s).1 }

  abbrev pub put_sysreturn : ℕ → Status → Kernel S → Kernel S
  put_sysreturn h s k = record k { tasks = (set_sysreturn k.tasks h s).1 }

module _ {S : Type 0} (p : Policy S) where
  abbrev pub sched_schedule : ℕ → Kernel S → Run (Kernel S)
  sched_schedule h k = do (_, s) ← p.schedule k.tasks h k.sched; ret (record k { sched = s })

  -- The part of `mgr_task_push_sig_event` behind the store.
  abbrev pub wake_waiting : ℕ → JobState → Kernel S → Run (Kernel S)
  wake_waiting dest waitforevent k = sched_schedule dest (put_state dest ready k)
  wake_waiting dest _ k = ret k

  abbrev pub store_signal : ℕ → ℕ → ℕ → Task → Kernel S → Option ℕ → Run (Kstatus × Kernel S)
  store_signal signal source dest t k none = fault
  store_signal signal source dest t k (some old) =
      if old == 0
      then (do
        k' ← wake_waiting dest t.state (record k {
          tasks =
              (write (λ t. record t { sigs = set t.sigs (index_of source) signal }) k.tasks dest
                (some t)).1;
        })
        ret (okay, k'))
      else ret (error_busy, k)

  -- `mgr_task_push_sig_event`
  unfoldable pub push_sig_event : ℕ → ℕ → ℕ → Kernel S → Run (Kstatus × Kernel S)
  push_sig_event signal source dest k = elim (get_from_handle k.tasks dest) [
    | none ↦ ret (error_invparam, k)
    | some t ↦ store_signal signal source dest t k (get_elem? t.sigs (index_of source))
  ]

  -- `sched_elect`, then `mgr_task_get_sp`.
  unfoldable pub elect_next : Kernel S → Gate S
  elect_next k = do
    (next, s) ← p.elect k.tasks k.sched
    elim (get_sp k.tasks next) [
      | failure _ ↦ panic kernel_invalid_manager_response
      | success sp ↦ ret (sp, record k { sched = s })
    ]
