-- ===== src/Boot.antt =====
-- The initialisation of the task table: kernel/src/managers/task/task_init.c and task_idle.c, with
-- task_set_job_layout and the region sizes of task_core.c and mgr_mm_forge_ressource of
-- kernel/src/managers/memory/memory_mpu.c, as built without CONFIG_BUILD_TARGET_AUTOTEST.
-- `ctx.numtask` is the field of the table. The entropy source gives `entropy n` for the task of cell
-- `n`; what the target and the build decide is a record, `Target`. Of the memory that is copied or
-- cleared the model has the exchange areas.
pub mod Fresh
pub mod Automaton
pub mod Round
pub mod Filled
pub mod Booted
pub mod Ready
pub mod Rrmq
use sentry_kernel.Base.{
  ℕ, ◌+◌, ◌-◌, ◌*◌, ◌/◌, ◌%◌, ◌^◌, true, false, none, some, [], ◌==◌, if◌then◌else◌, get_elem?, set,
  replicate, Run, ret, fault, ◌>>=◌, success, failure,
}
use sentry_kernel.KTypes.{
  SecureBool, secure_false, Kstatus, okay, error_invparam, error_noent, security_integrity,
  notstarted, ok,
}
use sentry_kernel.Task.{TaskMeta, Task, TaskTable, get_metadata, idle_task_label}
use sentry_kernel.Task.Events.{queue_depth}
use sentry_kernel.Mapping.{
  perm_full, perm_ro, attrs_normal_nocache, RegionDesc, Mpu, Layouts, get_layout_from_handle,
  add_resource,
}

-- `task_mgr_state_t`
pub data TaskMgrState : Type 0 where
  boot discover_sanitation check_meta_integrity check_tsk_integrity : TaskMgrState
  init_localinfo tsk_map tsk_schedule finalize manager_ready : TaskMgrState
  error_security error_runtime : TaskMgrState

-- CONFIG_MAX_TASKS, CONFIG_TASK_MAGIC, CONFIG_SVC_EXCHANGE_AREA_LEN, __WORDSIZE,
-- mgr_task_initialize_sp, an entry of a layout that is all zeros, and the addresses of idle.
pub record Target (R : Type 0) : Type 0 where
  pub max_tasks : ℕ
  pub task_magic : ℕ
  pub area_len : ℕ
  pub wordsize : ℕ
  pub initialize_sp : ℕ → ℕ → ℕ → ℕ → ℕ
  pub zero_entry : R
  pub sidle : ℕ
  pub eidle : ℕ
  pub idle_svcexchange : ℕ

-- `struct task_mgr_ctx`, the task table and its layouts, and the scheduler.
pub record Ctx (S R : Type 0) : Type 0 where
  pub state : TaskMgrState
  pub userspace_spawned : SecureBool
  pub status : Kstatus
  pub tasks : TaskTable
  pub layouts : Layouts R
  pub sched : S

-- ROUND_UP of kernel/include/sentry/zlib/math.h
abbrev pub round_up : ℕ → ℕ → ℕ
round_up n m = (n + m - 1) / m * m

module _ {R : Type 0} (c : Target R) where
  -- `mgr_task_get_data_region_size`
  unfoldable pub get_data_region_size : TaskMeta → ℕ
  get_data_region_size m =
      c.area_len
      + round_up m.got_size c.wordsize
      + round_up m.data_size c.wordsize
      + round_up m.bss_size c.wordsize
      + round_up m.heap_size c.wordsize
      + round_up m.stack_size c.wordsize

  -- `mgr_task_get_text_region_size`
  unfoldable pub get_text_region_size : TaskMeta → ℕ
  get_text_region_size m = round_up m.text_size c.wordsize + m.rodata_size

  -- `task_idle_init`; what it does not set is 0.
  abbrev pub idle_meta : TaskMeta
  idle_meta = record {
    magic = c.task_magic;
    label = idle_task_label;
    priority = 0;
    quantum = 0;
    capabilities = 0;
    start_auto = false;
    num_devs = 0;
    devs = [];
    s_text = c.sidle;
    text_size = c.eidle - c.sidle;
    rodata_size = 0;
    s_got = 0;
    got_size = 0;
    data_size = 4;
    bss_size = 0;
    heap_size = 0;
    stack_size = 256;
    entrypoint_offset = 1;
    s_svcexchange = c.idle_svcexchange;
  }

  -- The address of the initial stack, in 32 bits.
  abbrev pub stack_top : TaskMeta → ℕ
  stack_top m = (m.s_svcexchange + get_data_region_size m + 2 ^ 32 - c.wordsize) % 2 ^ 32

  -- A cell of the table after the `memset` of `mgr_task_init`. A boolean that is 0 is neither of the
  -- two values; it is not read before it is set.
  abbrev pub zero_task : Task
  zero_task = record {
    metadata = none;
    handle = 0;
    sp = 0;
    ipcs = replicate c.max_tasks 0;
    sigs = replicate c.max_tasks 0;
    ints = replicate queue_depth 0;
    ints_head = 0;
    ints_bottom = 0;
    dmas = replicate queue_depth (0, 0);
    dmas_head = 0;
    dmas_bottom = 0;
    state = notstarted;
    returncode = 0;
    sysretassigned = secure_false;
    sysreturn = ok;
    svcexchange = [];
  }

module _ {R : Type 0} (c : Target R) (mpu : Mpu R) where
  -- The two regions of `mgr_mm_forge_ressource`: text is read-only and executable, data is neither.
  abbrev pub text_region : TaskMeta → RegionDesc
  text_region m = record {
    id = 2;
    addr = m.s_text;
    size = mpu.size_to_region (get_text_region_size c m);
    access_perm = perm_ro;
    mask = 0;
    access_attrs = attrs_normal_nocache;
    noexec = false;
    shareable = false;
  }

  abbrev pub data_region : TaskMeta → RegionDesc
  data_region m = record {
    id = 3;
    addr = m.s_svcexchange;
    size = mpu.size_to_region (get_data_region_size c m);
    access_perm = perm_full;
    mask = 0;
    access_attrs = attrs_normal_nocache;
    noexec = true;
    shareable = false;
  }

  -- `mgr_mm_forge_ressource`, then `mgr_task_add_resource`; the statuses are not looked at. A handle
  -- that is not found makes both fail.
  abbrev pub forge_and_add :
      (TaskMeta → RegionDesc) → ℕ → TaskTable → Layouts R → ℕ → Run (Layouts R)
  forge_and_add region layout_id tab ls h = elim (get_metadata tab h) [
    | failure _ ↦ ret ls
    | success none ↦ fault
    | success (some m) ↦ ret (add_resource mpu tab ls h layout_id (mpu.forge (region m))).1
  ]

  abbrev pub forge_both : TaskTable → Layouts R → ℕ → Run (Layouts R)
  forge_both tab ls h =
      forge_and_add text_region 0 tab ls h >>= λ ls'. forge_and_add data_region 1 tab ls' h

module _ {S R : Type 0} (c : Target R) where
  -- A write through a pointer to a cell of the table.
  abbrev pub put_cell : ℕ → Task → Ctx S R → Ctx S R
  put_cell i t x = record x { tasks = record x.tasks { cells = set x.tasks.cells i t } }

  -- `task_set_job_layout`, for the task of a cell: the exchange area is cleared.
  abbrev pub set_job_layout : ℕ → Ctx S R → Run (Kstatus × Ctx S R)
  set_job_layout i x = elim (get_elem? x.tasks.cells i) [
    | none ↦ fault
    | some t ↦ elim (get_layout_from_handle x.tasks x.layouts t.handle) [
      | failure _ ↦ ret (error_invparam, x)
      | success _ ↦ ret (okay, put_cell i (record t { svcexchange = replicate c.area_len 0 }) x)
    ]
  ]

  -- `task_init_discover_sanitation`
  abbrev pub discover : TaskMeta → Ctx S R → TaskMgrState → Kstatus × Ctx S R
  discover m x discover_sanitation =
      if m.magic == c.task_magic
      then (okay, record x { state = check_meta_integrity })
      else (error_noent, record x { state = finalize })
  discover m x _ = (security_integrity, record x { state = error_security })

  -- `task_init_check_meta_integrity`
  abbrev pub check_meta : Ctx S R → TaskMgrState → Kstatus × Ctx S R
  check_meta x check_meta_integrity = (okay, record x { state = check_tsk_integrity })
  check_meta x _ = (security_integrity, record x { state = error_security })

  -- `task_init_check_tsk_integrity`
  abbrev pub check_tsk : Ctx S R → TaskMgrState → Kstatus × Ctx S R
  check_tsk x check_tsk_integrity = (okay, record x { state = init_localinfo })
  check_tsk x _ = (security_integrity, record x { state = error_security })
