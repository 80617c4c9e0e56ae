-- ===== src/KTypes.antt =====
-- The kernel's generic enumerations: kernel/include/sentry/ktypes.h, job.h,
-- arch/asm-generic/panic.h, and the syscall status of uapi/include/uapi/types.h.

use mathlib.Core.Logic.{◌⊎◌, inl, inr}
use mathlib.Core.Path.{◌≡◌, refl}
use mathlib.Core.Bool.{Bool, true, false}

-- `secure_bool_t`: an enumeration of two far bit patterns; the code compares it by name only.
pub data SecureBool : Type 0 where
  secure_true secure_false : SecureBool

pub SecureBool-cases : (b : SecureBool) → (b ≡ secure_true) ⊎ (b ≡ secure_false)
SecureBool-cases secure_true = inl refl
SecureBool-cases secure_false = inr refl

pub data Kstatus : Type 0 where
  okay error_busy error_invparam error_badstate error_unknown error_badclk : Kstatus
  error_badentropy error_notready error_noent error_memfail error_denied : Kstatus
  security_invstate security_corruption security_lockdown : Kstatus
  security_fipscompliance security_integrity : Kstatus

-- The test `status != K_STATUS_OKAY`, negated.
abbrev pub is_okay : Kstatus → Bool
is_okay okay = true
is_okay _ = false

pub data JobState : Type 0 where
  notstarted ready sleeping sleeping_deep fault_state security_state : JobState
  aborting finished ipc_send_blocked waitforevent : JobState

pub JobState-discrete : Discrete JobState
JobState-discrete = hlevel

pub data PanicEvent : Type 0 where
  user_hardfault kernel_hardfault user_busfault kernel_busfault : PanicEvent
  user_usagefault kernel_usagefault user_memaccess kernel_memaccess : PanicEvent
  kernel_invalid_userspace_input kernel_shorter_kbuffers_config : PanicEvent
  kernel_invalid_manager_state kernel_invalid_manager_response kernel_timeout : PanicEvent
  kernel_bad_cfi_calculation hardware_invalid_state : PanicEvent
  hardware_unexpected_modification configuration_mismatch unexpected_branch_exec : PanicEvent

-- What a syscall returns to its caller.
pub data Status : Type 0 where
  ok invalid denied no_entity busy already_mapped critical timeout : Status
  again intr deadlk non_sense : Status
