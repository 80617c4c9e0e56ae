-- ===== src/Kernel/Ipc.antt =====
-- `mgr_task_load_ipc_event` of kernel/src/managers/task/task_core.c, with `mgr_mm_map_svcexchange` of
-- kernel/src/managers/memory/memory_mpu.c. `mpu` is what the MPU driver reports when it loads the
-- region of the exchange area of a task. Where a task loads an IPC of its own, the two areas of the
-- copy may overlap; the model copies from the start on.
pub mod Delivery
use sentry_kernel.Base.{
  ℕ, Option, none, some, if◌then◌else◌, get_elem?, set, take, Run, ret, fault, ◌>>=◌, success,
  failure,
}
use sentry_kernel.KTypes.{
  SecureBool, secure_true, secure_false, Kstatus, okay, error_invparam, error_noent, is_okay, ready,
  ok,
}
use sentry_kernel.Task.{TaskMeta, Task, TaskTable, get_from_handle, write, get_metadata}
use sentry_kernel.Task.Events.{first_byte}
use sentry_kernel.Task.Exchange.{event_bytes, event_type_ipc, put_exchange}
use sentry_kernel.Sched.Policy.{Policy}
use sentry_kernel.Kernel.{Kernel, put_state, put_sysreturn, sched_schedule}

-- `mgr_mm_map_svcexchange`: before the memory manager is configured the status stays the initial one.
unfoldable pub map_svcexchange : (ℕ → Kstatus) → SecureBool → TaskTable → ℕ → Kstatus
map_svcexchange mpu secure_false tab h = error_invparam
map_svcexchange mpu secure_true tab h = elim (get_metadata tab h) [
  | failure _ ↦ error_invparam
  | success _ ↦ mpu h
]

module _ {S : Type 0} (p : Policy S) (mpu : ℕ → Kstatus) where
  -- The copy and what follows, for an IPC of `len` bytes in slot `idx`.
  abbrev pub copy_ipc : ℕ → ℕ → ℕ → Task → Kernel S → Run (Kstatus × Kernel S)
  copy_ipc context idx len source k =
      let tab =
        put_exchange context
          (event_bytes event_type_ipc len source.handle (take len source.svcexchange)) k.tasks in
      sched_schedule p source.handle
        (put_state source.handle ready (put_sysreturn source.handle ok (record k { tasks = tab })))
      >>= λ k'. ret (
        okay,
        record k' {
          tasks =
              (write (λ t. record t { ipcs = set t.ipcs idx 0 }) k'.tasks context
                (get_from_handle k'.tasks context)).1;
        },
      )

  -- Both exchange areas are found through the metadata.
  abbrev pub deliver :
      ℕ → ℕ → ℕ → Task → Kernel S → Option TaskMeta → Option TaskMeta → Run (Kstatus × Kernel S)
  deliver context idx len source k none to = fault
  deliver context idx len source k (some _) none = fault
  deliver context idx len source k (some _) (some _) =
      let mapped = map_svcexchange mpu k.shms.configured k.tasks source.handle in
      if is_okay mapped then copy_ipc context idx len source k else ret (mapped, k)

  abbrev pub from_slot : ℕ → Task → Kernel S → Option (ℕ × ℕ) → Run (Kstatus × Kernel S)
  from_slot context current k none = ret (error_noent, k)
  from_slot context current k (some (idx, len)) = elim (get_elem? k.tasks.cells idx) [
    | none ↦ fault
    | some source ↦ deliver context idx len source k source.metadata current.metadata
  ]

  -- `mgr_task_load_ipc_event`; the slots are read as `uint8_t`.
  unfoldable pub load_ipc_event : ℕ → Kernel S → Run (Kstatus × Kernel S)
  load_ipc_event context k = elim (get_from_handle k.tasks context) [
    | none ↦ ret (error_invparam, k)
    | some current ↦ first_byte current.ipcs 0 k.tasks.numtask >>= from_slot context current k
  ]
