-- ===== src/Syscalls/Query.antt =====
-- The gates that tell a task a handle or what a shared memory is: gate_get_prochandle,
-- gate_get_shmhandle and gate_shm_get_infos of kernel/src/syscalls. The answer goes to the exchange
-- area of the caller.
pub mod Infos
use sentry_kernel.Base.{
  ℕ, ◌+◌, Option, none, some, List, ◌++◌, ◌==◌, if◌then◌else◌, panic, fault, ◌>>=◌, Result, success,
  failure,
}
use sentry_kernel.KTypes.{
  SecureBool, secure_true, secure_false, kernel_invalid_manager_response, configuration_mismatch,
  ok, invalid,
}
use sentry_kernel.Task.{TaskMeta, get_metadata, get_handle}
use sentry_kernel.Task.Exchange.{word_bytes, put_exchange}
use sentry_kernel.Shm.{
  ShmUser, tsk_none, ShmTable, get_task_type, get_baseaddr, get_size, get_label, is_mappable_by,
  is_writeable_by, get_shm_handle,
}
use sentry_kernel.Sched.Policy.{Policy}
use sentry_kernel.Kernel.{Kernel, Gate}
use sentry_kernel.Syscalls.{answer}

-- SHM_PERMISSION_MAP and SHM_PERMISSION_WRITE, for the two tests of the gate.
abbrev pub perms_of : SecureBool → SecureBool → ℕ
perms_of can_map can_write =
    elim can_map [ secure_true ↦ 1 | secure_false ↦ 0 ]
    + elim can_write [ secure_true ↦ 4 | secure_false ↦ 0 ]

-- `shm_infos_t` in memory.
abbrev pub info_bytes : ℕ → ℕ → ℕ → ℕ → ℕ → List ℕ
info_bytes handle label base len perms =
    word_bytes handle ++ word_bytes label ++ word_bytes base ++ word_bytes len ++ word_bytes perms

-- A question to a manager, after the ones before have been answered.
abbrev pub then_ask {ℓ κ} : {A : Type ℓ} {B : Type κ} → Result A → (A → Result B) → Result B
then_ask (failure e) f = failure e
then_ask (success a) f = f a

-- The questions of `gate_shm_get_infos` behind the role of the caller.
abbrev pub collect_infos : ShmTable → ℕ → ShmUser → Result (List ℕ)
collect_infos s shm user = then_ask (get_label s shm) (λ label.
    then_ask (get_baseaddr s shm) (λ base. then_ask (get_size s shm) (λ len.
      then_ask (is_mappable_by s shm user) (λ can_map.
        then_ask (is_writeable_by s shm user)
          (λ can_write. success (info_bytes shm label base len (perms_of can_map can_write)))))))

module _ {S : Type 0} where
  -- The end of the gates. The metadata is dereferenced.
  abbrev pub tell : ℕ → ℕ → List ℕ → Kernel S → Result (Option TaskMeta) → Gate S
  tell frame t bytes k (failure _) = panic kernel_invalid_manager_response
  tell frame t bytes k (success none) = fault
  tell frame t bytes k (success (some _)) =
      answer frame t ok (record k { tasks = put_exchange t bytes k.tasks })

  abbrev pub tell_infos : ℕ → ℕ → Kernel S → Result (List ℕ) → Gate S
  tell_infos frame t k (failure _) = answer frame t invalid k
  tell_infos frame t k (success bytes) = tell frame t bytes k (get_metadata k.tasks t)

  abbrev pub infos_as : ℕ → ℕ → ℕ → Kernel S → Result ShmUser → Gate S
  infos_as frame t shm k (failure _) = answer frame t invalid k
  infos_as frame t shm k (success tsk_none) = answer frame t invalid k
  infos_as frame t shm k (success user) = tell_infos frame t k (collect_infos k.shms shm user)

  abbrev pub shmhandle_as : ℕ → ℕ → ℕ → Kernel S → Result ShmUser → Gate S
  shmhandle_as frame t shm k (failure _) = answer frame t invalid k
  shmhandle_as frame t shm k (success tsk_none) = answer frame t invalid k
  shmhandle_as frame t shm k (success _) = tell frame t (word_bytes shm) k (get_metadata k.tasks t)

  -- Here a task without metadata or without an exchange area is a wrong configuration.
  abbrev pub proc_told : ℕ → ℕ → ℕ → Kernel S → Result (Option TaskMeta) → Gate S
  proc_told frame t job k (failure _) = panic kernel_invalid_manager_response
  proc_told frame t job k (success none) = panic configuration_mismatch
  proc_told frame t job k (success (some m)) =
      if m.s_svcexchange == 0
      then panic configuration_mismatch
      else answer frame t ok (record k { tasks = put_exchange t (word_bytes job) k.tasks })

module _ {S : Type 0} (p : Policy S) where
  unfoldable pub gate_shm_get_infos : ℕ → ℕ → Kernel S → Gate S
  gate_shm_get_infos frame shm k =
      p.current k.tasks k.sched >>= λ t. infos_as frame t shm k (get_task_type k.shms shm t)

  unfoldable pub gate_get_shmhandle : ℕ → ℕ → Kernel S → Gate S
  gate_get_shmhandle frame shmid k = p.current k.tasks k.sched >>= λ t.
      elim (get_shm_handle k.shms shmid) [
        | failure _ ↦ answer frame t invalid k
        | success shm ↦ shmhandle_as frame t shm k (get_task_type k.shms shm t)
      ]

  unfoldable pub gate_get_prochandle : ℕ → ℕ → Kernel S → Gate S
  gate_get_prochandle frame job_label k = p.current k.tasks k.sched >>= λ t.
      get_handle k.tasks job_label >>= λ r. elim r [
        | failure _ ↦ answer frame t invalid k
        | success job ↦ proc_told frame t job k (get_metadata k.tasks t)
      ]
