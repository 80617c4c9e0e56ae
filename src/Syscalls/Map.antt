-- ===== src/Syscalls/Map.antt =====
-- gate_map_shm and gate_unmap_shm of kernel/src/syscalls/sysgate_map.c.
pub mod Roundtrip
use sentry_kernel.Base.{ℕ, if◌then◌else◌, Run, ret, panic, ◌>>=◌, Result, success, failure}
use sentry_kernel.KTypes.{
  SecureBool, secure_true, secure_false, Kstatus, okay, error_invparam, error_badstate,
  error_denied, is_okay, kernel_invalid_manager_response, Status, ok, invalid, denied, no_entity,
  busy, already_mapped,
}
use sentry_kernel.Shm.{ShmUser, tsk_none, ShmTable, get_task_type, is_mapped_by}
use sentry_kernel.Mapping.{Mpu, Layouts, map_shm, unmap_shm}
use sentry_kernel.Sched.Policy.{Policy}
use sentry_kernel.Kernel.{Kernel, put_sysreturn}

-- What these gates hand back: the frame, the kernel and the layouts of the tasks.
abbrev pub MapGate : Type 0 → Type 0 → Type 0
MapGate S R = Run (ℕ × (Kernel S × Layouts R))

module _ {S R : Type 0} where
  abbrev pub map_answer : ℕ → ℕ → Status → Kernel S → Layouts R → MapGate S R
  map_answer frame t sysret k ls = ret (frame, (put_sysreturn t sysret k, ls))

-- The answer to a status of `mgr_mm_map_shm`.
abbrev pub map_status : Kstatus → Status
map_status okay = ok
map_status error_invparam = no_entity
map_status error_badstate = already_mapped
map_status error_denied = denied
map_status _ = busy

module _ {S R : Type 0} (mpu : Mpu R) where
  abbrev pub map_mapped : ℕ → ℕ → Kernel S → Kstatus × (ShmTable × Layouts R) → MapGate S R
  map_mapped frame t k (status, (s, ls)) =
      map_answer frame t (map_status status) (record k { shms = s }) ls

  -- `gate_map_shm`, for the role of the caller.
  abbrev pub map_with : ℕ → ℕ → ℕ → Kernel S → Layouts R → Result ShmUser → MapGate S R
  map_with frame t shm k ls (failure _) = map_answer frame t invalid k ls
  map_with frame t shm k ls (success tsk_none) = map_answer frame t invalid k ls
  map_with frame t shm k ls (success _) = map_mapped frame t k (map_shm mpu k.tasks t shm ls k.shms)

  abbrev pub unmapped_shm : ℕ → ℕ → Kernel S → Kstatus × (ShmTable × Layouts R) → MapGate S R
  unmapped_shm frame t k (status, (s, ls)) =
      if is_okay status
      then map_answer frame t ok (record k { shms = s }) ls
      else panic kernel_invalid_manager_response

  abbrev pub unmap_mapped : ℕ → ℕ → ℕ → Kernel S → Layouts R → Result SecureBool → MapGate S R
  unmap_mapped frame t shm k ls (failure _) = panic kernel_invalid_manager_response
  unmap_mapped frame t shm k ls (success secure_false) = map_answer frame t invalid k ls
  unmap_mapped frame t shm k ls (success secure_true) =
      unmap_shm mpu k.tasks t shm ls k.shms >>= unmapped_shm frame t k

  -- `gate_unmap_shm`, for the role of the caller.
  abbrev pub unmap_with : ℕ → ℕ → ℕ → Kernel S → Layouts R → Result ShmUser → MapGate S R
  unmap_with frame t shm k ls (failure _) = map_answer frame t invalid k ls
  unmap_with frame t shm k ls (success tsk_none) = map_answer frame t invalid k ls
  unmap_with frame t shm k ls (success user) =
      unmap_mapped frame t shm k ls (is_mapped_by k.shms shm user)

module _ {S R : Type 0} (p : Policy S) (mpu : Mpu R) where
  unfoldable pub gate_map_shm : ℕ → ℕ → Kernel S → Layouts R → MapGate S R
  gate_map_shm frame shm k ls = do
    t ← p.current k.tasks k.sched
    map_with mpu frame t shm k ls (get_task_type k.shms shm t)

  unfoldable pub gate_unmap_shm : ℕ → ℕ → Kernel S → Layouts R → MapGate S R
  gate_unmap_shm frame shm k ls = do
    t ← p.current k.tasks k.sched
    unmap_with mpu frame t shm k ls (get_task_type k.shms shm t)
