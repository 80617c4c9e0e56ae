-- ===== src/Mapping.antt =====
-- The memory layout of tasks: kernel/src/managers/memory/memory_mpu.c, with
-- kernel/include/sentry/managers/memory.h, the searches of
-- kernel/include/sentry/arch/asm-cortex-m/mpu.h, and the functions on `layout` of
-- kernel/src/managers/task/task_core.c. The entries of a layout are those of the MPU: their type `R`
-- and the functions of mpu_pmsa_v7.h and mpu_pmsa_v8.h are an interface, `Mpu`. The field `layout` of
-- the tasks is a list of its own, with one layout for each cell of the table.
pub mod Slots
pub mod Shared
pub mod Unmap
pub mod Collide
pub mod Sizes
use sentry_kernel.Base.{
  ℕ, zero, suc, ◌+◌, ◌-◌, ◌%◌, Bool, true, false, Option, none, some, List, [], ◌∷◌, leb, ◌==◌,
  if◌then◌else◌, get_elem?, set, Run, ret, panic, fault, ◌>>=◌, Result, success, failure,
}
use sentry_kernel.KTypes.{
  SecureBool, secure_true, secure_false, Kstatus, okay, error_busy, error_invparam, error_badstate,
  error_noent, error_denied, is_okay, kernel_invalid_manager_response, hardware_invalid_state,
}
use sentry_kernel.Task.{TaskTable, index_of, get_from_handle}
use sentry_kernel.Shm.{
  ShmMeta, ShmUser, tsk_none, ShmTable, get_task_type, is_mappable_by, is_writeable_by,
  is_mapped_by, set_mapflag, get_meta,
}

-- The values of `access_perm` and `access_attrs` that the manager uses.
pub data AccessPerm : Type 0 where
  perm_priv perm_priv_ro perm_full perm_ro : AccessPerm

pub data AccessAttrs : Type 0 where
  attrs_normal_nocache attrs_device : AccessAttrs

-- `struct mpu_region_desc`
pub record RegionDesc : Type 0 where
  pub id : ℕ
  pub addr : ℕ
  pub size : ℕ
  pub access_perm : AccessPerm
  pub mask : ℕ
  pub access_attrs : AccessAttrs
  pub noexec : Bool
  pub shareable : Bool

-- The functions of the two MPU headers, CONFIG_NUM_MPU_REGIONS and MPU_FASTLOAD_ALIGNED.
pub record Mpu (R : Type 0) : Type 0 where
  pub num_regions : ℕ
  pub fastload_aligned : Bool
  pub unmapped : ℕ → R
  pub forge : RegionDesc → R
  pub is_free : R → Bool
  pub base_address : R → ℕ
  pub size_to_region : ℕ → ℕ

abbrev pub task_first_region_number : ℕ
task_first_region_number = 2

abbrev pub Layouts : Type 0 → Type 0
Layouts R = List (List R)

module _ {R : Type 0} where
  -- `mgr_task_get_layout_from_handle`
  unfoldable pub get_layout_from_handle : TaskTable → Layouts R → ℕ → Result (List R)
  get_layout_from_handle tab ls h = elim (get_from_handle tab h) [
    | none ↦ failure error_invparam
    | some _ ↦ elim (get_elem? ls (index_of h)) [
      | none ↦ failure error_invparam
      | some layout ↦ success layout
    ]
  ]

  -- A write to an entry of the layout of the task behind a handle.
  abbrev pub put_entry : ℕ → ℕ → R → Layouts R → Layouts R
  put_entry h i r ls = elim (get_elem? ls (index_of h)) [
    | none ↦ ls
    | some layout ↦ set ls (index_of h) (set layout i r)
  ]

module _ {R : Type 0} (mpu : Mpu R) where
  -- TASK_MAX_RESSOURCES_NUM
  abbrev pub max_resources : ℕ
  max_resources = mpu.num_regions - task_first_region_number

  -- `mgr_mm_region_to_layout_id`; the difference is a `uint8_t`.
  unfoldable pub region_to_layout_id : ℕ → Run ℕ
  region_to_layout_id region_id =
      if leb mpu.num_regions region_id
      then panic hardware_invalid_state
      else ret ((region_id + 256 - task_first_region_number) % 256)

  -- `mgr_mm_forge_empty_table`, from entry `i` on.
  abbrev pub empty_from : ℕ → ℕ → List R
  empty_from i zero = []
  empty_from i (suc n) = mpu.unmapped i ∷ empty_from (i + 1) n

  unfoldable pub forge_empty_table : List R
  forge_empty_table = empty_from 0 max_resources

  -- The loop of `mpu_get_free_id`.
  abbrev pub free_from : ℕ → List R → Option ℕ
  free_from i [] = none
  free_from i (r ∷ rs) = let rest = free_from (i + 1) rs in if mpu.is_free r then some i else rest

  -- The loop of `mpu_get_id_from_address`, which returns a region number.
  abbrev pub address_from : ℕ → ℕ → List R → Option ℕ
  address_from addr i [] = none
  address_from addr i (r ∷ rs) =
      let rest = address_from addr (i + 1) rs in
      if mpu.base_address r == addr then some (i + task_first_region_number) else rest

  -- `mgr_task_add_resource`
  unfoldable pub add_resource : TaskTable → Layouts R → ℕ → ℕ → R → Kstatus × Layouts R
  add_resource tab ls h resource_id r = elim (get_from_handle tab h) [
    | none ↦ (error_invparam, ls)
    | some _ ↦
        if leb max_resources resource_id
        then (error_invparam, ls)
        else (okay, put_entry h resource_id r ls)
  ]

  -- `mgr_task_remove_resource`, which does not look at its bound: past the end of the layout it
  -- writes to other fields.
  unfoldable pub remove_resource : TaskTable → Layouts R → ℕ → ℕ → Run (Kstatus × Layouts R)
  remove_resource tab ls h resource_id = elim (get_from_handle tab h) [
    | none ↦ ret (error_invparam, ls)
    | some _ ↦
        if leb max_resources resource_id
        then fault
        else ret (okay, put_entry h resource_id (mpu.unmapped resource_id) ls)
  ]

  -- What `mgr_mm_map_shm` makes of a free entry; `can_write` is whether the task may write.
  abbrev pub shm_region : ℕ → ShmMeta → SecureBool → RegionDesc
  shm_region id m can_write = record {
    id = id;
    addr = m.baseaddr;
    size = mpu.size_to_region m.size;
    access_perm = elim can_write [ secure_true ↦ perm_full | secure_false ↦ perm_ro ];
    mask = 0;
    access_attrs = attrs_normal_nocache;
    noexec = true;
    shareable = false;
  }

  -- `mpu_cfg.id`: without MPU_FASTLOAD_ALIGNED it is made a region number.
  abbrev pub region_id : ℕ → ℕ
  region_id i = if mpu.fastload_aligned then i else i + 2

  -- The end of `mgr_mm_map_shm`: the entry is written at `mpu_cfg.id`, and the flag is set.
  abbrev pub add_region :
      TaskTable
      → ℕ
      → ℕ
      → ShmUser
      → ShmMeta
      → ℕ
      → Layouts R
      → ShmTable
      → SecureBool
      → Kstatus × (ShmTable × Layouts R)
  add_region tab tsk shm user m i ls s can_write =
      let (status, ls') =
        add_resource tab ls tsk (region_id i) (mpu.forge (shm_region (region_id i) m can_write)) in
      if is_okay status
      then (let (flagged, s') = set_mapflag s shm user secure_true in (flagged, (s', ls')))
      else (error_busy, (s, ls'))

  -- The part from the layout of the task on.
  abbrev pub map_in :
      TaskTable
      → ℕ
      → ℕ
      → ShmUser
      → ShmMeta
      → Layouts R
      → ShmTable
      → Result (List R)
      → Kstatus × (ShmTable × Layouts R)
  map_in tab tsk shm user m ls s (failure e) = (e, (s, ls))
  map_in tab tsk shm user m ls s (success layout) = elim (free_from 0 layout) [
    | none ↦ (error_busy, (s, ls))
    | some i ↦ elim (is_writeable_by s shm user) [
      | failure e ↦ (e, (s, ls))
      | success can_write ↦ add_region tab tsk shm user m i ls s can_write
    ]
  ]

  -- The part that knows the role of the task. One that is neither owner nor user leaves with the
  -- status of the last call.
  abbrev pub map_as :
      TaskTable
      → ℕ
      → ℕ
      → ShmMeta
      → Layouts R
      → ShmTable
      → ShmUser
      → Kstatus × (ShmTable × Layouts R)
  map_as tab tsk shm m ls s tsk_none = (okay, (s, ls))
  map_as tab tsk shm m ls s user = elim (is_mapped_by s shm user) [
    | failure _ ↦ (error_badstate, (s, ls))
    | success secure_true ↦ (error_badstate, (s, ls))
    | success secure_false ↦ map_in tab tsk shm user m ls s (get_layout_from_handle tab ls tsk)
  ]

  -- `mgr_mm_map_shm`
  unfoldable pub map_shm :
      TaskTable → ℕ → ℕ → Layouts R → ShmTable → Kstatus × (ShmTable × Layouts R)
  map_shm tab tsk shm ls s = elim (get_meta s shm) [
    | failure e ↦ (e, (s, ls))
    | success m ↦ elim (get_task_type s shm tsk) [
      | failure e ↦ (e, (s, ls))
      | success user ↦ elim (is_mappable_by s shm user) [
        | failure e ↦ (e, (s, ls))
        | success secure_false ↦ (error_denied, (s, ls))
        | success secure_true ↦ map_as tab tsk shm m ls s user
      ]
    ]
  ]

  -- The end of `mgr_mm_unmap_shm`, for the region number that was found.
  abbrev pub unmap_as :
      TaskTable
      → ℕ
      → ℕ
      → ℕ
      → Layouts R
      → ShmTable
      → ShmUser
      → Run (Kstatus × (ShmTable × Layouts R))
  unmap_as tab tsk shm region ls s tsk_none = panic kernel_invalid_manager_response
  unmap_as tab tsk shm region ls s user = do
    id ← region_to_layout_id region
    (_, ls') ← remove_resource tab ls tsk id
    ret (let (flagged, s') = set_mapflag s shm user secure_false in (flagged, (s', ls')))

  -- A role that cannot be told is not set in C.
  abbrev pub unmap_region :
      TaskTable → ℕ → ℕ → Layouts R → ShmTable → Option ℕ → Run (Kstatus × (ShmTable × Layouts R))
  unmap_region tab tsk shm ls s none = ret (error_noent, (s, ls))
  unmap_region tab tsk shm ls s (some region) = elim (get_task_type s shm tsk) [
    | failure _ ↦ fault
    | success user ↦ unmap_as tab tsk shm region ls s user
  ]

  -- `mgr_mm_unmap_shm`
  unfoldable pub unmap_shm :
      TaskTable → ℕ → ℕ → Layouts R → ShmTable → Run (Kstatus × (ShmTable × Layouts R))
  unmap_shm tab tsk shm ls s = elim (get_meta s shm) [
    | failure e ↦ ret (e, (s, ls))
    | success m ↦ elim (get_layout_from_handle tab ls tsk) [
      | failure e ↦ ret (e, (s, ls))
      | success layout ↦ unmap_region tab tsk shm ls s (address_from m.baseaddr 0 layout)
    ]
  ]
