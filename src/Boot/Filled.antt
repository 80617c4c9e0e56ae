-- ===== src/Boot/Filled.antt =====
-- The end of `mgr_task_init`, and what is wanted of the table: kernel/src/managers/task/task_init.c.
use sentry_kernel.Base.{
  ℕ, zero, suc, ◌+◌, ◌^◌, ◌<◌, ◌≡◌, refl, ap, ◌∙◌, subst, Option, some, List, [], ◌∷◌, arith, ◌==◌,
  if◌then◌else◌, length, get_elem?, set, replicate, get_elem?-set_self, get_elem?-lt, set-set, ret,
  >>=-ret, Result, success,
}
use sentry_kernel.KTypes.{okay, ready}
use sentry_kernel.Task.{TaskMeta, Task, TaskTable, index_of}
use sentry_kernel.Mapping.{Mpu, Layouts}
use sentry_kernel.Boot.{finalize, manager_ready, Target, Ctx, idle_meta, stack_top}
use sentry_kernel.Boot.Automaton.{local_task, idle_in, add_idle, init_finalize}
use sentry_kernel.Boot.Fresh.{found_fresh, fresh_index, set_job_layout-returns, fill_cell-returns}

-- The cell of idle.
abbrev pub idle_task : {R : Type 0} → Target R → ℕ → ℕ → Task → Task
idle_task c n rerun t = record (local_task (idle_meta c) n rerun (stack_top c (idle_meta c)) t) {
  svcexchange = replicate c.area_len 0;
}

module _ {S R : Type 0} (c : Target R) (mpu : Mpu R) (entropy : ℕ → Result ℕ) where
  -- The context after `task_init_finalize`.
  abbrev pub ended : ℕ → Task → Layouts R → Ctx S R → Ctx S R
  ended rerun t ls x = record x {
    state = manager_ready;
    status = okay;
    tasks = record {
      cells = set x.tasks.cells x.tasks.numtask (idle_task c x.tasks.numtask rerun t);
      numtask = x.tasks.numtask + 1;
    };
    layouts = ls;
  }

  idle_in-returns :
      (x : Ctx S R) (t : Task) (rerun : ℕ)
      → x.tasks.numtask < 2 ^ 8
      → x.tasks.numtask < length x.layouts
      → x.tasks.numtask < length x.tasks.cells
      → (ls : Layouts R) × (idle_in c mpu entropy x t (success rerun)
          ≡ ret (okay, record (ended rerun t ls x) { state = finalize }))
  idle_in-returns x t rerun small b here =
      let n = x.tasks.numtask in
      let t1 = local_task (idle_meta c) n rerun (stack_top c (idle_meta c)) t in
      let t2 = idle_task c n rerun t in
      let own = fresh_index rerun n small in
      let (ls, fills, l) =
        fill_cell-returns c mpu entropy t1 (idle_meta c) finalize x refl own here in
      let x1 : Ctx S R = record x {
        state = finalize;
        tasks = record { cells = set x.tasks.cells n t1; numtask = n + 1 };
        layouts = ls;
      } in
      (
        ls,
        >>=-ret _ fills
            ∙ >>=-ret _ (
                set_job_layout-returns c n x1 t1 (get_elem?-set_self x.tasks.cells n t1 here)
                  (found_fresh x.tasks.cells n t1 here own) (omega (arith, own, l, b)))
            ∙ ap
                (λ cells. ret (
                  okay,
                  record x1 { status = okay; tasks = record { cells = cells; numtask = n + 1 } },
                ))
                (set-set x.tasks.cells n t1 t2),
      )

  pub init_finalize-returns :
      (x : Ctx S R) (t : Task) (rerun : ℕ)
      → x.tasks.numtask < 2 ^ 8
      → x.tasks.numtask < length x.layouts
      → get_elem? x.tasks.cells x.tasks.numtask ≡ some t
      → entropy x.tasks.numtask ≡ success rerun
      → x.state ≡ finalize
      → (ls : Layouts R) × (init_finalize c mpu entropy x x.state ≡ ret (okay, ended rerun t ls x))
  init_finalize-returns x t rerun small b f e st =
      let x1 : Ctx S R = record x { state = finalize } in
      let (ls, idles) =
        idle_in-returns x1 t rerun small b (get_elem?-lt x.tasks.cells x.tasks.numtask f) in
      let added : add_idle c mpu entropy x1 finalize
          ≡ ret (okay, record (ended rerun t ls x) { state = finalize }) =
        rw (add_idle, f, e) idles in
      (ls, ap (λ y. init_finalize c mpu entropy (record x { state = y }) y) st ∙ >>=-ret _ added)

module _ {R : Type 0} (c : Target R) where
  -- The tasks of a table of metadata: those before the first cell without the magic value, then idle.
  unfoldable pub tasks_of : List TaskMeta → List TaskMeta
  tasks_of [] = idle_meta c ∷ []
  tasks_of (m ∷ ms) = if m.magic == c.task_magic then m ∷ tasks_of ms else idle_meta c ∷ []

-- A cell that holds the task of the metadata `m`, with a handle that leads to it, and that is ready.
pub record IsTaskOf (i : ℕ) (m : TaskMeta) (t : Task) : Type 0 where
  pub described : t.metadata ≡ some m
  pub own_cell : index_of t.handle ≡ i
  pub runnable : t.state ≡ ready

-- Cell `i` holds the task of `m`.
abbrev pub Holds : TaskTable → TaskMeta → ℕ → Type 0
Holds tab m i = (t : Task) × (get_elem? tab.cells i ≡ some t) × IsTaskOf i m t

-- The cells from `n` on hold the tasks of `ms`.
abbrev pub Placed : ℕ → List TaskMeta → TaskTable → Type 0
Placed n ms tab = (i : ℕ) (m : TaskMeta) → get_elem? ms i ≡ some m → Holds tab m (n + i)

-- One task more in front.
pub Placed-cons :
    (n : ℕ) (m : TaskMeta) (ms : List TaskMeta) (tab : TaskTable)
    → Holds tab m n
    → Placed (n + 1) ms tab
    → Placed n (m ∷ ms) tab
Placed-cons n m ms tab held placed zero m' e =
    let both : ◌≡◌ {A = Option TaskMeta} (some m) (some m') = e in
    let same : m ≡ m' = cc both in
    let here : n ≡ n + 0 = omega arith in
    subst (λ i. Holds tab m' i) here (subst (λ y. Holds tab y n) same held)
Placed-cons n m ms tab held placed (suc i) m' e =
    let there : n + 1 + i ≡ n + suc i = omega arith in
    subst (λ j. Holds tab m' j) there (placed i m' e)
