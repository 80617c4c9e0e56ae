-- ===== src/Shm.antt =====
-- Shared memories: kernel/src/managers/memory/memory_shm.c, with the types of
-- kernel/include/sentry/managers/memory.h and memory_shm-dt.h.in. The descriptions that the build
-- generates from the device tree are an argument of `init`; an out parameter is a `Result`.
pub mod Flags
pub mod Access
use sentry_kernel.Base.{
  ℕ, ◌+◌, ◌%◌, ◌^◌, none, some, List, [], ◌∷◌, ◌==◌, if◌then◌else◌, get_elem?, set, Run, ret, panic,
  fault, ◌>>=◌, Result, success, failure,
}
use sentry_kernel.KTypes.{
  SecureBool, secure_true, secure_false, Kstatus, okay, error_invparam, error_badstate,
  configuration_mismatch,
}
use sentry_kernel.Handle.{shmh_to_kshmh, kshmh_to_shmh}
use sentry_kernel.Task.{TaskTable, get_handle}

-- `shm_meta_t`
pub record ShmMeta : Type 0 where
  pub baseaddr : ℕ
  pub size : ℕ
  pub is_dma_pool : SecureBool
  pub is_mappable : SecureBool
  pub shm_label : ℕ
  pub owner_label : ℕ

-- `shm_config_t`
pub record ShmConfig : Type 0 where
  pub mappable : SecureBool
  pub rw : SecureBool
  pub transferable : SecureBool

-- `shm_user_t`
pub data ShmUser : Type 0 where
  tsk_owner tsk_user tsk_none : ShmUser

-- `shm_user_state_t`
pub record ShmUserState : Type 0 where
  pub config : ShmConfig
  pub is_mapped : SecureBool
  pub task : ℕ

-- `shm_info_t`; the field `is_mapped`, which nothing reads or writes, is left out.
pub record ShmInfo : Type 0 where
  pub handle : ℕ
  pub meta : ShmMeta
  pub is_shared : SecureBool
  pub owner : ShmUserState
  pub user : ShmUserState

-- `shm_table`, and whether the memory manager is configured (`mgr_mm_configured`).
pub record ShmTable : Type 0 where
  pub infos : List ShmInfo
  pub configured : SecureBool

abbrev pub id_of : ℕ → ℕ
id_of h = (shmh_to_kshmh h).id

abbrev pub no_access : ShmConfig
no_access = record { mappable = secure_false; rw = secure_false; transferable = secure_false }

-- The entry `id` that `mgr_mm_shm_init` makes, for a random number and the owner's handle.
abbrev pub fresh_info : ℕ → ℕ → ShmMeta → ℕ → ShmInfo
fresh_info id entropy meta owner =
    let free : ShmUserState = record {
      config = no_access;
      is_mapped = secure_false;
      task = owner;
    } in
    record {
      handle = kshmh_to_shmh (record { id = id; rng = entropy % 2 ^ 24 });
      meta = meta;
      is_shared = secure_false;
      owner = free;
      user = free;
    }

-- The part of a round of `mgr_mm_shm_init` that needs the owner's handle, then the rounds that are left.
abbrev pub add_info :
    ℕ → ℕ → ShmMeta → Run (Kstatus × List ShmInfo) → Result ℕ → Run (Kstatus × List ShmInfo)
add_info id rng m rest (failure _) = panic configuration_mismatch
add_info id rng m rest (success t) =
    rest >>= λ (status, infos). ret (status, fresh_info id rng m t ∷ infos)

-- A round, from the random number on; `old` are the cells from entry `id` on before it.
abbrev pub init_info :
    TaskTable
    → ℕ
    → ShmMeta
    → List ShmInfo
    → Run (Kstatus × List ShmInfo)
    → Result ℕ
    → Run (Kstatus × List ShmInfo)
init_info tab id m old rest (failure e) = ret (e, old)
init_info tab id m old rest (success rng) = get_handle tab m.owner_label >>= add_info id rng m rest

-- The loop of `mgr_mm_shm_init` from entry `id` on; the random number generator gives `entropy id`.
-- The table is a static array: entries that were made stay when a later one fails, and the cells
-- behind are what they were before the call.
unfoldable pub init_infos :
    (ℕ → Result ℕ) → TaskTable → ℕ → List ShmMeta → List ShmInfo → Run (Kstatus × List ShmInfo)
init_infos entropy tab id [] old = ret (okay, old)
init_infos entropy tab id (m ∷ ms) [] = fault
init_infos entropy tab id (m ∷ ms) (o ∷ old) =
    init_info tab id m (o ∷ old) (init_infos entropy tab (id + 1) ms old) (entropy id)

-- The guards that all functions on a handle share.
unfoldable pub lookup : ShmTable → ℕ → Result ShmInfo
lookup s shm = elim s.configured [
  | secure_false ↦ failure error_badstate
  | secure_true ↦ elim (get_elem? s.infos (id_of shm)) [
    | none ↦ failure error_invparam
    | some info ↦ if info.handle == shm then success info else failure error_invparam
  ]
]

abbrev pub ask {ℓ} : {A : Type ℓ} → (ShmInfo → Result A) → Result ShmInfo → Result A
ask f (failure e) = failure e
ask f (success info) = f info

-- An assignment to the entry that a handle names, with the status that is returned then.
abbrev pub assign :
    Kstatus → (ShmInfo → ShmInfo) → ShmTable → ℕ → Result ShmInfo → Kstatus × ShmTable
assign status f s shm (failure e) = (e, s)
assign status f s shm (success info) =
    (status, record s { infos = set s.infos (id_of shm) (f info) })

-- `mgr_mm_shm_get_task_type`
unfoldable pub get_task_type : ShmTable → ℕ → ℕ → Result ShmUser
get_task_type s shm task =
    ask
      (λ info. success (
        if info.owner.task == task
        then tsk_owner
        else if info.user.task == task
        then tsk_user
        else tsk_none))
      (lookup s shm)

abbrev pub with_user : ℕ → ShmInfo → ShmInfo
with_user task info = record info {
  user = record info.user { task = task };
  is_shared = if task == info.owner.task then secure_false else secure_true;
}

-- `mgr_mm_shm_declare_user`: on success the status is still the initial K_ERROR_INVPARAM.
unfoldable pub declare_user : ShmTable → ℕ → ℕ → Kstatus × ShmTable
declare_user s shm task = assign error_invparam (with_user task) s shm (lookup s shm)

-- `mgr_mm_shm_get_baseaddr`
unfoldable pub get_baseaddr : ShmTable → ℕ → Result ℕ
get_baseaddr s shm = ask (λ info. success info.meta.baseaddr) (lookup s shm)

-- `mgr_mm_shm_get_size`
unfoldable pub get_size : ShmTable → ℕ → Result ℕ
get_size s shm = ask (λ info. success info.meta.size) (lookup s shm)

-- `mgr_mm_shm_get_label`
unfoldable pub get_label : ShmTable → ℕ → Result ℕ
get_label s shm = ask (λ info. success info.meta.shm_label) (lookup s shm)

-- The entry of the requester, owner or anybody else.
abbrev pub mappable_entry : ShmUser → ShmInfo → SecureBool
mappable_entry tsk_owner info = info.owner.config.mappable
mappable_entry _ info = info.user.config.mappable

-- `mgr_mm_shm_is_mappable_by`
unfoldable pub is_mappable_by : ShmTable → ℕ → ShmUser → Result SecureBool
is_mappable_by s shm tsk =
    ask
      (λ info. success (elim info.meta.is_mappable [
        | secure_false ↦ secure_false
        | secure_true ↦ mappable_entry tsk info
      ]))
      (lookup s shm)

-- `mgr_mm_shm_is_owned_by`
unfoldable pub is_owned_by : ShmTable → ℕ → ℕ → Result SecureBool
is_owned_by s shm taskh =
    ask (λ info. success (if info.owner.task == taskh then secure_true else secure_false))
      (lookup s shm)

-- A field of the accessor's entry; neither owner nor user is an invalid parameter.
abbrev pub entry_of {ℓ} : {A : Type ℓ} → (ShmUserState → A) → ShmUser → ShmInfo → Result A
entry_of f tsk_owner info = success (f info.owner)
entry_of f tsk_user info = success (f info.user)
entry_of f tsk_none info = failure error_invparam

-- `mgr_mm_shm_is_writeable_by`
unfoldable pub is_writeable_by : ShmTable → ℕ → ShmUser → Result SecureBool
is_writeable_by s shm accessor = ask (entry_of (λ e. e.config.rw) accessor) (lookup s shm)

-- `mgr_mm_shm_is_used_by`
unfoldable pub is_used_by : ShmTable → ℕ → ℕ → Result SecureBool
is_used_by s shm taskh =
    ask (λ info. success (if info.user.task == taskh then secure_true else secure_false))
      (lookup s shm)

-- `mgr_mm_shm_is_shared`
unfoldable pub is_shared : ShmTable → ℕ → Result SecureBool
is_shared s shm = ask (λ info. success info.is_shared) (lookup s shm)

-- `mgr_mm_shm_is_mapped_by`
unfoldable pub is_mapped_by : ShmTable → ℕ → ShmUser → Result SecureBool
is_mapped_by s shm accessor = ask (entry_of (λ e. e.is_mapped) accessor) (lookup s shm)

-- An assignment to the accessor's entry.
abbrev pub assign_entry :
    (ShmUserState → ShmUserState) → ShmUser → ShmTable → ℕ → Result ShmInfo → Kstatus × ShmTable
assign_entry f tsk_owner s shm r =
    assign okay (λ info. record info { owner = f info.owner }) s shm r
assign_entry f tsk_user s shm r = assign okay (λ info. record info { user = f info.user }) s shm r
assign_entry f tsk_none s shm (failure e) = (e, s)
assign_entry f tsk_none s shm (success _) = (error_invparam, s)

-- `mgr_mm_shm_set_mapflag`
unfoldable pub set_mapflag : ShmTable → ℕ → ShmUser → SecureBool → Kstatus × ShmTable
set_mapflag s shm accessor mapflag =
    assign_entry (λ e. record e { is_mapped = mapflag }) accessor s shm (lookup s shm)

abbrev pub find_shm : ℕ → List ShmInfo → Result ℕ
find_shm label [] = failure error_invparam
find_shm label (info ∷ infos) =
    let rest = find_shm label infos in
    if info.meta.shm_label == label then success info.handle else rest

-- `mgr_mm_shm_get_handle`
unfoldable pub get_shm_handle : ShmTable → ℕ → Result ℕ
get_shm_handle s shm_id = elim s.configured [
  | secure_false ↦ failure error_badstate
  | secure_true ↦ find_shm shm_id s.infos
]

-- `mgr_mm_shm_get_meta`
unfoldable pub get_meta : ShmTable → ℕ → Result ShmMeta
get_meta s shm = ask (λ info. success info.meta) (lookup s shm)

-- `mgr_mm_shm_configure`
unfoldable pub configure : ShmTable → ℕ → ShmUser → ShmConfig → Kstatus × ShmTable
configure s shm target config =
    assign_entry (λ e. record e { config = config }) target s shm (lookup s shm)
