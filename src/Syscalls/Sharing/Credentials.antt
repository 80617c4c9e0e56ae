-- ===== src/Syscalls/Sharing/Credentials.antt =====
-- `gate_shm_setcreds`: who may set credentials, and what is granted.
use sentry_kernel.Base.{ℕ, ◌≡◌, ◌≢◌, ◌⊎◌, ◌==◌, if◌then◌else◌, ret, success}
use sentry_kernel.KTypes.{secure_true, secure_false, Status, ok}
use sentry_kernel.Task.{handle_exists}
use sentry_kernel.Shm.{ShmUser, tsk_owner, tsk_user, tsk_none, ShmInfo, ShmTable, lookup}
use sentry_kernel.Sched.Policy.{Policy}
use sentry_kernel.Kernel.{Kernel, Gate, put_sysreturn}
use sentry_kernel.Syscalls.Sharing.{config_of}

-- The entry after a grant. The user's mapping flag is what it was, also when the user is another.
abbrev pub granted : ℕ → ℕ → ℕ → ShmInfo → ShmInfo
granted current target perms info =
    if target == current
    then record info { owner = record info.owner { config = config_of perms } }
    else record info {
      user = record { config = config_of perms; is_mapped = info.user.is_mapped; task = target };
      is_shared = secure_true;
    }

-- The caller owns the shared memory, has not mapped it, and its entry alone is rewritten.
pub record Granted (shm current target perms : ℕ) (s s' : ShmTable) : Type 0 where
  pub info : ShmInfo
  pub known : lookup s shm ≡ success info
  pub owned : info.owner.task ≡ current
  pub unmapped : info.owner.is_mapped ≡ secure_false
  pub entry : lookup s' shm ≡ success (granted current target perms info)
  pub others : (h : ℕ) → h ≢ shm → lookup s' h ≡ lookup s h

role_in : ShmInfo → ℕ → ShmUser
role_in info task =
    if info.owner.task == task
    then tsk_owner
    else if info.user.task == task
    then tsk_user
    else tsk_none

module _ {S : Type 0} where
  -- What a call by `t` may end in.
  abbrev pub CredsOutcome : ℕ → ℕ → ℕ → ℕ → ℕ → Kernel S → Gate S → Type 0
  CredsOutcome frame t shm target perms k run =
      (st : Status) × (s' : ShmTable) × (run
        ≡ ret (frame, put_sysreturn t st (record k { shms = s' })))
      × (((st ≡ ok)
            × (handle_exists k.tasks target ≡ secure_true)
            × Granted shm t target perms k.shms s')
          ⊎ ((st ≢ ok) × (s' ≡ k.shms)))
