-- ===== src/Boot/Automaton.antt =====
-- The steps of the automaton of mgr_task_init, and its loop: kernel/src/managers/task/task_init.c.
-- What a cell becomes, for a random number and a stack.
use sentry_kernel.Base.{
  ℕ, ◌+◌, Bool, true, false, Option, none, some, List, [], ◌∷◌, ◌==◌, if◌then◌else◌, get_elem?, set,
  replicate, Run, ret, panic, fault, ◌>>=◌, Result, success, failure,
}
use sentry_kernel.KTypes.{
  SecureBool, secure_true, secure_false, Kstatus, okay, error_noent, security_corruption,
  security_integrity, is_okay, ready, kernel_invalid_manager_response,
}
use sentry_kernel.Handle.{ktaskh_to_taskh}
use sentry_kernel.Task.{TaskMeta, Task, TaskTable}
use sentry_kernel.Mapping.{Mpu, max_resources, forge_empty_table}
use sentry_kernel.Sched.Policy.{Policy}
use sentry_kernel.Boot.{
  TaskMgrState, discover_sanitation, init_localinfo, tsk_map, tsk_schedule, finalize, manager_ready,
  error_security, error_runtime, Target, Ctx, idle_meta, stack_top, zero_task, forge_both, put_cell,
  set_job_layout, discover, check_meta, check_tsk,
}

abbrev pub local_task : TaskMeta → ℕ → ℕ → ℕ → Task → Task
local_task m cell entropy sp t = record t {
  metadata = some m;
  handle = ktaskh_to_taskh (record { rerun = entropy; id = cell; family = 0 });
  sp = sp;
  state = ready;
  sysretassigned = secure_false;
}

module _ {S R : Type 0} (c : Target R) (mpu : Mpu R) (entropy : ℕ → Result ℕ) where
  -- What `task_init_initiate_localinfo` and `task_init_add_idle` do alike: the cell behind the last
  -- task is filled and counted, and its layout forged.
  abbrev pub fill_cell : Task → TaskMgrState → Ctx S R → Run (Ctx S R)
  fill_cell t next x =
      let n = x.tasks.numtask in
      let tab : TaskTable = record { cells = set x.tasks.cells n t; numtask = n + 1 } in
      forge_both c mpu tab (set x.layouts n (forge_empty_table mpu)) t.handle >>= λ ls.
      ret (record x { state = next; tasks = tab; layouts = ls })

  -- The status of the entropy source is left in `ctx.status`.
  abbrev pub local_in : TaskMeta → ℕ → Ctx S R → Task → Result ℕ → Run (Kstatus × Ctx S R)
  local_in m n x t (failure e) =
      ret (
        security_integrity,
        put_cell c n (record t { metadata = some m }) (record x { status = e }),
      )
  local_in m n x t (success rerun) =
      fill_cell
        (record (local_task m n rerun
          (c.initialize_sp 0 (stack_top c m) (m.s_text + m.entrypoint_offset) m.s_got) t) {
            returncode = 0;
          })
        tsk_map (record x { status = okay })
      >>= λ x'. ret (okay, x')

  -- `task_init_initiate_localinfo`
  abbrev pub initiate_localinfo : TaskMeta → Ctx S R → TaskMgrState → Run (Kstatus × Ctx S R)
  initiate_localinfo m x init_localinfo =
      if x.tasks.numtask == c.max_tasks + 1
      then ret (security_integrity, record x { state = error_security })
      else elim (get_elem? x.tasks.cells x.tasks.numtask) [
        | none ↦ fault
        | some t ↦ local_in m x.tasks.numtask x t (entropy x.tasks.numtask)
      ]
  initiate_localinfo m x _ = ret (security_integrity, record x { state = error_security })

  -- `task_init_map`, for the task of cell `i`.
  abbrev pub init_map : ℕ → Ctx S R → TaskMgrState → Run (Kstatus × Ctx S R)
  init_map i x tsk_map = set_job_layout c i x >>= λ (status, x').
      if is_okay status then ret (okay, record x' { state = tsk_schedule }) else ret (status, x')
  init_map i x _ = ret (security_corruption, record x { state = error_security })

  -- `task_idle_init` has run; `task_init_add_idle`. Here the stack is the address itself.
  abbrev pub idle_in : Ctx S R → Task → Result ℕ → Run (Kstatus × Ctx S R)
  idle_in x t (failure e) = ret (e, record x { status = e })
  idle_in x t (success rerun) =
      fill_cell (local_task (idle_meta c) x.tasks.numtask rerun (stack_top c (idle_meta c)) t)
        finalize x
      >>= λ x'. set_job_layout c x.tasks.numtask x' >>= λ (status, x'').
          ret (status, record x'' { status = status })

  abbrev pub add_idle : Ctx S R → TaskMgrState → Run (Kstatus × Ctx S R)
  add_idle x finalize = elim (get_elem? x.tasks.cells x.tasks.numtask) [
    | none ↦ fault
    | some t ↦ idle_in x t (entropy x.tasks.numtask)
  ]
  add_idle x _ = ret (security_integrity, record x { status = security_integrity })

  -- `task_init_finalize`
  abbrev pub init_finalize : Ctx S R → TaskMgrState → Run (Kstatus × Ctx S R)
  init_finalize x finalize = add_idle x x.state >>= λ (status, x').
      if is_okay status
      then ret (okay, record x' { status = okay; state = manager_ready })
      else panic kernel_invalid_manager_response
  init_finalize x _ = ret (security_integrity, record x { status = security_integrity })

module _ {S R : Type 0} (p : Policy S) (c : Target R) (mpu : Mpu R) (entropy : ℕ → Result ℕ) where
  -- The next state of `task_init_schedule`.
  abbrev pub next_cell : Ctx S R → Ctx S R
  next_cell x = record x {
    state = if x.tasks.numtask == c.max_tasks then finalize else discover_sanitation;
  }

  abbrev pub scheduled_at_boot : Ctx S R → Kstatus × S → Run (Kstatus × Ctx S R)
  scheduled_at_boot x (status, s) =
      if is_okay status
      then ret (okay, next_cell (record x { sched = s }))
      else ret (status, record x { sched = s; state = error_runtime })

  abbrev pub start_at_boot : Ctx S R → ℕ → Option TaskMeta → Run (Kstatus × Ctx S R)
  start_at_boot x h none = fault
  start_at_boot x h (some m) =
      if m.start_auto
      then (p.schedule x.tasks h x.sched >>= scheduled_at_boot x)
      else ret (okay, next_cell x)

  -- `task_init_schedule`; in another state the status stays K_STATUS_OKAY.
  abbrev pub init_schedule : ℕ → Ctx S R → TaskMgrState → Run (Kstatus × Ctx S R)
  init_schedule i x tsk_schedule = elim (get_elem? x.tasks.cells i) [
    | none ↦ fault
    | some t ↦ start_at_boot x t.handle t.metadata
  ]
  init_schedule i x _ = ret (okay, record x { state = error_security })

  -- One step of the loop of `mgr_task_init`: its status is kept, and one that is not K_STATUS_OKAY
  -- ends the round.
  abbrev pub and_then :
      (Ctx S R → TaskMgrState → Run (Kstatus × Ctx S R))
      → Kstatus × Ctx S R
      → Run (Kstatus × Ctx S R)
  and_then step (status, x) =
      let x' = record x { status = status } in
      if is_okay status then step x' x'.state else ret (status, x')

  -- A round of the loop behind `task_init_discover_sanitation`, with the status of that. The pointer to
  -- the new task is that of the cell it is given.
  unfoldable pub init_round : TaskMeta → Kstatus × Ctx S R → Run (Kstatus × Ctx S R)
  init_round m (found, x) =
      ret (found, x)
      >>= and_then (λ y s. ret (check_meta c y s))
      >>= and_then (λ y s. ret (check_tsk c y s))
      >>= and_then (λ y s. initiate_localinfo c mpu entropy m y s)
      >>= and_then (λ y s. init_map c mpu entropy x.tasks.numtask y s)
      >>= and_then (λ y s. init_schedule x.tasks.numtask y s)

  -- The end of `mgr_task_init`.
  abbrev pub init_end : Ctx S R → Run (Kstatus × Ctx S R)
  init_end x = init_finalize c mpu entropy x x.state >>= λ (status, x').
      ret (status, record x' { status = status })

  abbrev pub is_noent : Kstatus → Bool
  is_noent error_noent = true
  is_noent _ = false

  -- The loop: the first cell without the magic value ends it, any other failure ends the function.
  unfoldable pub init_cells : List TaskMeta → Ctx S R → Run (Kstatus × Ctx S R)
  init_cells [] x = init_end x
  init_cells (m ∷ ms) x =
      let found = discover c m x x.state in
      if is_noent found.0
      then init_end (record found.1 { status = found.0 })
      else (init_round m found >>= λ (status, y).
          if is_okay status
          then init_cells ms (record y { status = okay })
          else ret (status, record y { status = status }))

  -- `mgr_task_init`, for the table of metadata of the build, which has CONFIG_MAX_TASKS cells.
  unfoldable pub task_init : List TaskMeta → S → Run (Kstatus × Ctx S R)
  task_init metas s = init_cells metas (record {
    state = discover_sanitation;
    userspace_spawned = secure_false;
    status = okay;
    tasks = record { cells = replicate (c.max_tasks + 1) (zero_task c); numtask = 0 };
    layouts = replicate (c.max_tasks + 1) (replicate (max_resources mpu) c.zero_entry);
    sched = s;
  })

module _ {S R : Type 0} where
  -- `mgr_task_get_num`
  abbrev pub get_num : Ctx S R → ℕ
  get_num x = x.tasks.numtask

  -- `mgr_task_set_userspace_spawned`
  abbrev pub set_userspace_spawned : Ctx S R → Ctx S R
  set_userspace_spawned x = record x { userspace_spawned = secure_true }

  -- `mgr_task_is_userspace_spawned`
  abbrev pub is_userspace_spawned : Ctx S R → SecureBool
  is_userspace_spawned x = x.userspace_spawned
