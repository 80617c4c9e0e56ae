-- ===== src/Task.antt =====
-- The task table and its accessors: kernel/src/managers/task/task_core.c and task_core.h, the number
-- of tasks and the metadata fields that the kernel reads (task_init.c, task_metadata.h.in).
-- A pointer to a task is its index in the table, an out parameter is a `Result`; the NULL guards on
-- out parameters have no counterpart, since every caller passes the address of a local. The memory
-- layout of a task stands in `Mapping`; `num_ressources`, which nothing reads, is left out.
pub mod Accessors
pub mod Agree
pub mod Events
pub mod Exchange
use sentry_kernel.Base.{
  ℕ, ◌-◌, Bool, true, false, Option, none, some, List, [], ◌∷◌, ltb, leb, ◌==◌, if◌then◌else◌,
  get_elem?, set, take, Run, ret, fault, ◌>>=◌, Result, success, failure,
}
use sentry_kernel.KTypes.{
  SecureBool, secure_true, secure_false, Kstatus, okay, error_invparam, error_badstate, error_noent,
  security_corruption, JobState, Status,
}
use sentry_kernel.Handle.{taskh_to_ktaskh}

pub record TaskMeta : Type 0 where
  pub magic : ℕ
  pub label : ℕ
  pub priority : ℕ
  pub quantum : ℕ
  pub capabilities : ℕ
  pub start_auto : Bool  -- flags.start_mode == JOB_FLAG_START_AUTO
  pub num_devs : ℕ
  pub devs : List ℕ
  pub s_text : ℕ
  pub text_size : ℕ
  pub rodata_size : ℕ
  pub s_got : ℕ
  pub got_size : ℕ
  pub data_size : ℕ
  pub bss_size : ℕ
  pub heap_size : ℕ
  pub stack_size : ℕ
  pub entrypoint_offset : ℕ
  pub s_svcexchange : ℕ

-- `task_t`, the handle as its 32-bit word. `svcexchange` is the user memory at the address
-- `metadata->s_svcexchange`, byte by byte.
pub record Task : Type 0 where
  pub metadata : Option TaskMeta
  pub handle : ℕ
  pub sp : ℕ
  pub ipcs : List ℕ
  pub sigs : List ℕ
  pub ints : List ℕ
  pub ints_head : ℕ
  pub ints_bottom : ℕ
  pub dmas : List (ℕ × ℕ)
  pub dmas_head : ℕ
  pub dmas_bottom : ℕ
  pub state : JobState
  pub returncode : ℕ
  pub sysretassigned : SecureBool
  pub sysreturn : Status
  pub svcexchange : List ℕ

-- `task_table` and `ctx.numtask`.
pub record TaskTable : Type 0 where
  pub cells : List Task
  pub numtask : ℕ

unfoldable pub index_of : ℕ → ℕ
index_of h = (taskh_to_ktaskh h).id

abbrev pub match_cell : ℕ → Option Task → Option Task
match_cell h none = none
match_cell h (some t) = if t.handle == h then some t else none

-- The identifier is tested against the number of tasks, then the whole words are compared.
unfoldable pub get_from_handle : TaskTable → ℕ → Option Task
get_from_handle tab h =
    if leb tab.numtask (index_of h) then none else match_cell h (get_elem? tab.cells (index_of h))

unfoldable pub handle_exists : TaskTable → ℕ → SecureBool
handle_exists tab h = elim (get_from_handle tab h) [ none ↦ secure_false | some _ ↦ secure_true ]

-- The value of a field behind a handle.
abbrev pub read {ℓ} : {A : Type ℓ} → (Task → A) → Option Task → Result A
read f none = failure error_invparam
read f (some t) = success (f t)

-- An assignment through the pointer that `get_from_handle` returned for `h`.
abbrev pub write : (Task → Task) → TaskTable → ℕ → Option Task → Kstatus × TaskTable
write f tab h none = (error_invparam, tab)
write f tab h (some t) = (okay, record tab { cells = set tab.cells (index_of h) (f t) })

unfoldable pub get_sp : TaskTable → ℕ → Result ℕ
get_sp tab h = read (λ t. t.sp) (get_from_handle tab h)

unfoldable pub get_state : TaskTable → ℕ → Result JobState
get_state tab h = read (λ t. t.state) (get_from_handle tab h)

unfoldable pub get_metadata : TaskTable → ℕ → Result (Option TaskMeta)
get_metadata tab h = read (λ t. t.metadata) (get_from_handle tab h)

-- A NULL frame, address 0, is refused.
unfoldable pub set_sp : TaskTable → ℕ → ℕ → Kstatus × TaskTable
set_sp tab h newsp =
    if newsp == 0
    then (error_invparam, tab)
    else write (λ t. record t { sp = newsp }) tab h (get_from_handle tab h)

unfoldable pub set_state : TaskTable → ℕ → JobState → Kstatus × TaskTable
set_state tab h s = write (λ t. record t { state = s }) tab h (get_from_handle tab h)

unfoldable pub set_jobreturn : TaskTable → ℕ → ℕ → Kstatus × TaskTable
set_jobreturn tab h code = write (λ t. record t { returncode = code }) tab h (get_from_handle tab h)

unfoldable pub set_sysreturn : TaskTable → ℕ → Status → Kstatus × TaskTable
set_sysreturn tab h s =
    write (λ t. record t { sysreturn = s; sysretassigned = secure_true }) tab h
      (get_from_handle tab h)

abbrev pub assigned_sysreturn : Task → SecureBool → Result Status
assigned_sysreturn t secure_false = failure error_badstate
assigned_sysreturn t secure_true = success t.sysreturn

unfoldable pub get_sysreturn : TaskTable → ℕ → Result Status
get_sysreturn tab h = elim (get_from_handle tab h) [
  | none ↦ failure error_invparam
  | some t ↦ assigned_sysreturn t t.sysretassigned
]

-- On success the status stays what it was set to at the start, K_ERROR_INVPARAM.
abbrev pub clear_assigned : TaskTable → ℕ → Task → SecureBool → Kstatus × TaskTable
clear_assigned tab h t secure_false = (error_badstate, tab)
clear_assigned tab h t secure_true = (
  error_invparam,
  record tab { cells = set tab.cells (index_of h) (record t { sysretassigned = secure_false }) },
)

unfoldable pub clear_sysreturn : TaskTable → ℕ → Kstatus × TaskTable
clear_sysreturn tab h = elim (get_from_handle tab h) [
  | none ↦ (error_invparam, tab)
  | some t ↦ clear_assigned tab h t t.sysretassigned
]

-- The last task of the table is idle; an empty table would be read at index -1.
unfoldable pub get_idle : TaskTable → Run ℕ
get_idle tab = elim (if tab.numtask == 0 then none else get_elem? tab.cells (tab.numtask - 1)) [
  | none ↦ fault
  | some t ↦ ret t.handle
]

abbrev pub idle_task_label : ℕ
idle_task_label = 0xcafe

abbrev pub metadata_label : Option TaskMeta → Run ℕ
metadata_label none = fault
metadata_label (some m) = ret m.label

-- The handle is not checked here: an unknown one is dereferenced as NULL.
unfoldable pub is_idletask : TaskTable → ℕ → Run SecureBool
is_idletask tab h = elim (get_from_handle tab h) [
  | none ↦ fault
  | some t ↦ do
    l ← metadata_label t.metadata
    ret (if l == idle_task_label then secure_true else secure_false)
]

-- The loop of `mgr_task_get_handle` over the tasks in the table.
abbrev pub find_label : ℕ → List Task → Run (Result ℕ)
find_label label [] = ret (failure error_invparam)
find_label label (t ∷ ts) =
    let rest = find_label label ts in
    metadata_label t.metadata >>= λ l. if l == label then ret (success t.handle) else rest

unfoldable pub get_handle : TaskTable → ℕ → Run (Result ℕ)
get_handle tab label = find_label label (take tab.numtask tab.cells)

-- The two loops of `mgr_task_get_device_owner`; `max_dev` is CONFIG_MAX_DEV_PER_TASK.
abbrev pub has_device : ℕ → List ℕ → Bool
has_device d [] = false
has_device d (x ∷ xs) = if x == d then true else has_device d xs

abbrev pub find_owner : ℕ → ℕ → List Task → Result ℕ
find_owner max_dev d [] = failure error_noent
find_owner max_dev d (t ∷ ts) =
    let rest = find_owner max_dev d ts in
    elim t.metadata [
      | none ↦ failure security_corruption
      | some m ↦
          if has_device d (take (if ltb max_dev m.num_devs then max_dev else m.num_devs) m.devs)
          then success t.handle
          else rest
    ]

unfoldable pub get_device_owner : ℕ → TaskTable → ℕ → Result ℕ
get_device_owner max_dev tab d = find_owner max_dev d (take tab.numtask tab.cells)
