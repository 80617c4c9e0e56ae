-- ===== src/Security.antt =====
-- The capabilities of tasks: kernel/src/managers/security/security.c.
use sentry_kernel.Base.{
  ℕ, Option, none, some, ◌==◌, if◌then◌else◌, Run, ret, fault, Result, success, failure,
}
use sentry_kernel.KTypes.{SecureBool, secure_true, secure_false, Kstatus, error_invparam}
use sentry_kernel.Task.{TaskMeta, TaskTable, get_metadata}
use Prim.Native.Nat.{bit_and}

-- CAP_DEV_MASK: bits 0 to 11, and CAP_SYS_MASK: bits 12 to 15.
abbrev pub cap_dev_mask : ℕ
cap_dev_mask = 0xfff

abbrev pub cap_sys_mask : ℕ
cap_sys_mask = 0xf000

-- `mgr_security_get_capa`: the out parameter is set, the status stays the initial one.
abbrev pub capa_of : Option TaskMeta → Run (Kstatus × Option ℕ)
capa_of none = fault
capa_of (some m) = ret (error_invparam, some m.capabilities)

unfoldable pub get_capa : TaskTable → ℕ → Run (Kstatus × Option ℕ)
get_capa tab t = elim (get_metadata tab t) [
  | failure _ ↦ ret (error_invparam, none)
  | success m ↦ capa_of m
]

-- Whether the capabilities meet a mask. Metadata that is NULL is dereferenced.
abbrev pub meets : ℕ → Option TaskMeta → Run SecureBool
meets mask none = fault
meets mask (some m) = ret (if bit_and m.capabilities mask == 0 then secure_false else secure_true)

abbrev pub has_mask : ℕ → Result (Option TaskMeta) → Run SecureBool
has_mask mask (failure _) = ret secure_false
has_mask mask (success m) = meets mask m

-- `mgr_security_has_dev_capa`
unfoldable pub has_dev_capa : TaskTable → ℕ → Run SecureBool
has_dev_capa tab t = has_mask cap_dev_mask (get_metadata tab t)

-- `mgr_security_has_sys_capa`
unfoldable pub has_sys_capa : TaskTable → ℕ → Run SecureBool
has_sys_capa tab t = has_mask cap_sys_mask (get_metadata tab t)

-- `mgr_security_has_capa`
unfoldable pub has_capa : TaskTable → ℕ → ℕ → Run SecureBool
has_capa tab t capa = has_mask capa (get_metadata tab t)

-- `mgr_security_has_oneof_capas`
unfoldable pub has_oneof_capas : TaskTable → ℕ → ℕ → Run SecureBool
has_oneof_capas tab t capas = has_mask capas (get_metadata tab t)
