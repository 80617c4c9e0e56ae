-- ===== src/Syscalls/Sharing.antt =====
-- kernel/src/syscalls/sysgate_shm_set_creds.c.
pub mod Credentials
use sentry_kernel.Base.{ℕ, ◌/◌, ◌%◌, ◌^◌, ◌==◌, if◌then◌else◌, ◌>>=◌, Result, success, failure}
use sentry_kernel.KTypes.{SecureBool, secure_true, secure_false, ok, invalid, denied, busy}
use sentry_kernel.Task.{handle_exists}
use sentry_kernel.Shm.{
  ShmConfig, ShmUser, tsk_owner, tsk_user, tsk_none, ShmTable, get_task_type, declare_user,
  is_mapped_by, configure,
}
use sentry_kernel.Sched.Policy.{Policy}
use sentry_kernel.Kernel.{Kernel, Gate}
use sentry_kernel.Syscalls.{answer}

-- Whether bit `i` of a word is set.
abbrev pub bit : ℕ → ℕ → SecureBool
bit i word = if word / 2 ^ i % 2 == 1 then secure_true else secure_false

-- SHM_PERMISSION_MAP is bit 0, SHM_PERMISSION_WRITE bit 2 and SHM_PERMISSION_TRANSFER bit 3.
abbrev pub config_of : ℕ → ShmConfig
config_of perms = record { mappable = bit 0 perms; rw = bit 2 perms; transferable = bit 3 perms }

-- The assignments of `gate_shm_setcreds`, by the owner; their status is not looked at.
abbrev pub grant : ℕ → ℕ → ℕ → ShmConfig → ShmTable → ShmTable
grant shm current target config s =
    if target == current
    then (configure s shm tsk_owner config).1
    else (configure (declare_user s shm target).1 shm tsk_user config).1

-- `is_mapped` is initialised to true, and stays so when the query fails.
abbrev pub or_true : Result SecureBool → SecureBool
or_true (failure _) = secure_true
or_true (success b) = b

module _ {S : Type 0} where
  -- The part of `gate_shm_setcreds` behind the test of the target, by the role of the caller.
  abbrev pub set_creds_as : ℕ → ℕ → ℕ → ℕ → ℕ → Kernel S → ShmUser → Gate S
  set_creds_as frame t shm target perms k tsk_none = answer frame t invalid k
  set_creds_as frame t shm target perms k tsk_user = answer frame t denied k
  set_creds_as frame t shm target perms k tsk_owner =
      elim (or_true (is_mapped_by k.shms shm tsk_owner)) [
        | secure_true ↦ answer frame t busy k
        | secure_false ↦
            answer frame t ok (record k { shms = grant shm t target (config_of perms) k.shms })
      ]

module _ {S : Type 0} (p : Policy S) where
  -- `gate_shm_setcreds`
  unfoldable pub gate_shm_setcreds : ℕ → ℕ → ℕ → ℕ → Kernel S → Gate S
  gate_shm_setcreds frame shm target perms k = do
    t ← p.current k.tasks k.sched
    elim (get_task_type k.shms shm t) [
      | failure _ ↦ answer frame t invalid k
      | success role ↦ elim (handle_exists k.tasks target) [
        | secure_false ↦ answer frame t invalid k
        | secure_true ↦ set_creds_as frame t shm target perms k role
      ]
    ]
