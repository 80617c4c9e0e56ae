-- ===== src/Boot/Ready.antt =====
-- `mgr_task_init` of kernel/src/managers/task/task_init.c, from its loop to the table it leaves.
use sentry_kernel.Base.{
  ℕ, zero, suc, ◌+◌, ◌^◌, ◌<◌, ◌≡◌, refl, sym, ap, ◌∙◌, subst, inl, inr, true, false, some, List,
  [], ◌∷◌, arith, ◌==◌, if◌then◌else◌, if_true, if_false, Bool-cases, length, get_elem?, replicate,
  length-set, length-replicate, get_elem?-set_self, get_elem?-set_ne, get_elem?_of_lt, Run, ret,
  ◌>>=◌, >>=-ret, Result, success,
}
use sentry_kernel.KTypes.{secure_false, Kstatus, okay, error_noent, is_okay}
use sentry_kernel.Task.{TaskMeta, Task}
use sentry_kernel.Mapping.{Mpu, Layouts, max_resources}
use sentry_kernel.Boot.{
  discover_sanitation, check_meta_integrity, finalize, manager_ready, Target, Ctx, idle_meta,
  zero_task, discover,
}
use sentry_kernel.Boot.Automaton.{init_round, init_end, is_noent, init_cells, task_init}
use sentry_kernel.Boot.Round.{HasRoom, next_ctx, init_round-returns}
use sentry_kernel.Boot.Fresh.{fresh_index, booted}
use sentry_kernel.Boot.Filled.{
  idle_task, ended, init_finalize-returns, tasks_of, Placed, Placed-cons,
}
use sentry_kernel.Boot.Booted.{IsBooted, Placed-IsBooted}
use sentry_kernel.Sched.Policy.{Policy}

module _ {S R : Type 0} (p : Policy S) (c : Target R) (mpu : Mpu R) (entropy : ℕ → Result ℕ)
    (Fits Queued : ℕ → S → Type 0) (room : HasRoom p c.max_tasks Fits Queued)
    (works : (n : ℕ) → (rerun : ℕ) × (entropy n ≡ success rerun))
    (small : c.max_tasks < 2 ^ 8) where
  -- The context between two rounds, when `left` cells of metadata are not read yet.
  record Between (left : ℕ) (x : Ctx S R) : Type 0 where
    count : x.tasks.numtask + left ≡ c.max_tasks
    cells_all : length x.tasks.cells ≡ c.max_tasks + 1
    layouts_all : length x.layouts ≡ c.max_tasks + 1
    fits : Fits x.tasks.numtask x.sched
    next : x.state ≡ (if left == 0 then finalize else discover_sanitation)
    last : x.status ≡ okay

  -- The tasks of the list that are to be started wait for their turn, but for the last one, idle; `n` is
  -- the cell of the first one.
  abbrev AreQueued : ℕ → List TaskMeta → Ctx S R → Type 0
  AreQueued n ms y =
      (i : ℕ) (m : TaskMeta) (t : Task)
      → suc i < length ms
      → get_elem? ms i ≡ some m
      → m.start_auto ≡ true
      → get_elem? y.tasks.cells (n + i) ≡ some t
      → Queued t.handle y.sched

  -- What is wanted of the rest of the loop.
  Ends : Ctx S R → List TaskMeta → Run (Kstatus × Ctx S R) → Type 0
  Ends x ms r =
      (y : Ctx S R) × (r ≡ ret (okay, y))
      × (y.state ≡ manager_ready)
      × (y.tasks.numtask ≡ x.tasks.numtask + length ms)
      × Placed x.tasks.numtask ms y.tasks
      × ((j : ℕ) → j < x.tasks.numtask → get_elem? y.tasks.cells j ≡ get_elem? x.tasks.cells j)
      × ((h : ℕ) → Queued h x.sched → Queued h y.sched)
      × AreQueued x.tasks.numtask ms y

  init_end-Ends :
      (x : Ctx S R)
      → x.tasks.numtask < c.max_tasks + 1
      → length x.tasks.cells ≡ c.max_tasks + 1
      → length x.layouts ≡ c.max_tasks + 1
      → x.state ≡ finalize
      → Ends x (idle_meta c ∷ []) (init_end p c mpu entropy x)
  unfolding Ends
  init_end-Ends x n cells layouts st =
      let (rerun, e) = works x.tasks.numtask in
      let (t, f) = get_elem?_of_lt x.tasks.cells x.tasks.numtask (omega arith) in
      let (ls, ends) =
        init_finalize-returns c mpu entropy x t rerun (omega arith) (omega arith) f e st in
      let y = ended c mpu entropy rerun t ls x in
      (
        y,
        >>=-ret _ ends,
        refl,
        refl,
        Placed-cons x.tasks.numtask (idle_meta c) [] y.tasks
            (
              idle_task c x.tasks.numtask rerun t,
              get_elem?-set_self x.tasks.cells x.tasks.numtask _ (omega arith),
              record {
                described = refl;
                own_cell = fresh_index rerun x.tasks.numtask (omega arith);
                runnable = refl;
              },
            )
            (λ i m none_left. absurd (ground arith)),
        (λ j lt. get_elem?-set_ne x.tasks.cells x.tasks.numtask j _ (λ eq. omega arith)),
        (λ h queued. queued),
        λ i m t inside _ _ _. absurd (omega arith),
      )

  AreQueued-cons :
      (n : ℕ) (m : TaskMeta) (ms : List TaskMeta) (y : Ctx S R) (u : Task)
      → get_elem? y.tasks.cells n ≡ some u
      → (m.start_auto ≡ true → Queued u.handle y.sched)
      → AreQueued (n + 1) ms y
      → AreQueued n (m ∷ ms) y
  AreQueued-cons n m ms y u here first rest zero k t inside at on cell =
      let same : m ≡ k = cc at in
      let there : some u ≡ some t =
        sym here ∙ subst (λ j. get_elem? y.tasks.cells j ≡ some t) (omega arith) cell in
      let own : u ≡ t = cc there in
      subst (λ t. Queued t.handle y.sched) own
        (first (subst (λ m. m.start_auto ≡ true) (sym same) on))
  AreQueued-cons n m ms y u here first rest (suc i) k t inside at on cell =
      rest i k t (omega arith) at on
        (subst (λ j. get_elem? y.tasks.cells j ≡ some t) (omega arith) cell)

  -- Only the run and the list have to be rewritten.
  Ends-subst :
      (x : Ctx S R) {ms ms' : List TaskMeta} {r r' : Run (Kstatus × Ctx S R)}
      → ms' ≡ ms
      → r' ≡ r
      → Ends x ms r
      → Ends x ms' r'
  Ends-subst x {ms = ms} {r' = r'} e f ends =
      subst (λ y. Ends x y r') (sym e) (subst (λ y. Ends x ms y) (sym f) ends)

  -- The context behind a round is between two rounds.
  next-Between :
      (m : TaskMeta) (rerun left : ℕ) (t : Task) (ls : Layouts R) (s : S) (x : Ctx S R)
      → Between (suc left) x
      → length ls ≡ length x.layouts
      → Fits (x.tasks.numtask + 1) s
      → Between left (next_ctx p c mpu entropy m rerun t ls s x)
  next-Between m rerun left t ls s x b l fits = record {
    count = omega (arith, b.count);
    cells_all = length-set x.tasks.cells x.tasks.numtask _ ∙ b.cells_all;
    layouts_all = l ∙ b.layouts_all;
    fits = fits;
    next = elim (Bool-cases (left == 0)) [
      | inl e ↦
          let test : (x.tasks.numtask + 1 == c.max_tasks) ≡ true = ground (arith, b.count) in
          if_true _ _ test ∙ sym (if_true _ _ e)
      | inr e ↦
          let test : (x.tasks.numtask + 1 == c.max_tasks) ≡ false = ground (arith, b.count) in
          if_false _ _ test ∙ sym (if_false _ _ e)
    ];
    last = refl;
  }

  -- The loop behind a round.
  abbrev loop_rest : List TaskMeta → Kstatus × Ctx S R → Run (Kstatus × Ctx S R)
  loop_rest ms (status, y) =
      if is_okay status
      then init_cells p c mpu entropy ms (record y { status = okay })
      else ret (status, record y { status = status })

  abbrev looked : TaskMeta → List TaskMeta → Kstatus × Ctx S R → Run (Kstatus × Ctx S R)
  looked m ms found =
      if is_noent p c mpu entropy found.0
      then init_end p c mpu entropy (record found.1 { status = found.0 })
      else (init_round p c mpu entropy m found >>= loop_rest ms)

  -- What a cell of metadata with the magic value does, and one without.
  on_task :
      (m : TaskMeta) (ms : List TaskMeta) (x : Ctx S R)
      → x.state ≡ discover_sanitation
      → (m.magic == c.task_magic) ≡ true
      → init_cells p c mpu entropy (m ∷ ms) x ≡ (
          init_round p c mpu entropy m (okay, record x { state = check_meta_integrity })
          >>= loop_rest ms)
  unfolding init_cells
  on_task m ms x st e =
      ap (λ y. looked m ms (discover c m x y)) st ∙ ap (looked m ms) (if_true _ _ e)

  on_end :
      (m : TaskMeta) (ms : List TaskMeta) (x : Ctx S R)
      → x.state ≡ discover_sanitation
      → (m.magic == c.task_magic) ≡ false
      → init_cells p c mpu entropy (m ∷ ms) x
        ≡ init_end p c mpu entropy (record x { state = finalize; status = error_noent })
  unfolding init_cells
  on_end m ms x st e =
      ap (λ y. looked m ms (discover c m x y)) st ∙ ap (looked m ms) (if_false _ _ e)

  init_cells-Ends :
      (ms : List TaskMeta) (x : Ctx S R)
      → Between (length ms) x
      → Ends x (tasks_of c ms) (init_cells p c mpu entropy ms x)
  unfolding Ends tasks_of init_cells
  init_cells-Ends [] x b = init_end-Ends x (omega (arith, b.count)) b.cells_all b.layouts_all b.next
  init_cells-Ends (m ∷ ms) x b =
      let more : (suc (length ms) == 0) ≡ false = ground arith in
      let st : x.state ≡ discover_sanitation = b.next ∙ if_false _ _ more in
      elim (Bool-cases (m.magic == c.task_magic)) [
        | inl e ↦
            let (rerun, draws) = works x.tasks.numtask in
            let (t, f) =
              get_elem?_of_lt x.tasks.cells x.tasks.numtask (omega (arith, b.count, b.cells_all)) in
            let (ls, s, round, l, fits, queued, stays) =
              init_round-returns p c mpu entropy Fits Queued room m x t rerun
                (omega (arith, b.count)) (omega (arith, b.count))
                (omega (arith, b.count, b.layouts_all)) f draws b.fits in
            let x1 = next_ctx p c mpu entropy m rerun t ls s x in
            let (y, loop, r, n, placed, kept, still, started) =
              init_cells-Ends ms x1 (next-Between m rerun (length ms) t ls s x b l fits) in
            let here : get_elem? y.tasks.cells x.tasks.numtask
                ≡ some (booted c m x.tasks.numtask rerun t) =
              kept x.tasks.numtask (omega arith)
              ∙ get_elem?-set_self x.tasks.cells x.tasks.numtask _
                  (omega (arith, b.count, b.cells_all)) in
            Ends-subst x (if_true _ _ e) (on_task m ms x st e ∙ >>=-ret _ round) (
              y,
              loop,
              r,
              omega (arith, n),
              Placed-cons x.tasks.numtask m (tasks_of c ms) y.tasks
                  (
                    booted c m x.tasks.numtask rerun t,
                    here,
                    record {
                      described = refl;
                      own_cell = fresh_index rerun x.tasks.numtask (omega (arith, b.count));
                      runnable = refl;
                    },
                  )
                  placed,
              (λ j lt.
                  kept j (omega arith)
                  ∙ get_elem?-set_ne x.tasks.cells x.tasks.numtask j _ (λ eq. omega arith)),
              (λ h waits. still h (stays h waits)),
              AreQueued-cons x.tasks.numtask m (tasks_of c ms) y
                  (booted c m x.tasks.numtask rerun t) here (λ on. still _ (queued on)) started,
            )
        | inr e ↦ Ends-subst x (if_false _ _ e) (on_end m ms x st e) (
            init_end-Ends (record x { state = finalize; status = error_noent })
              (omega (arith, b.count)) b.cells_all b.layouts_all refl)
      ]

-- With a scheduler that has room, an entropy source that always gives a number, and metadata for at
-- least one and at most 255 cells, `mgr_task_init` returns K_STATUS_OKAY in the state of a manager that
-- is ready. The table then has one task for each entry of metadata before the first one without the
-- magic value, and idle behind them: each in its cell, found by its handle, with its metadata and
-- ready; and the handle that mgr_task_get_idle gives is that of the last cell. The tasks before idle
-- that are marked to be started wait for their turn in the scheduler.
pub task_init_lem :
    {S R : Type 0} (p : Policy S) (c : Target R) (mpu : Mpu R) (entropy : ℕ → Result ℕ)
    (Fits Queued : ℕ → S → Type 0) (metas : List TaskMeta) (s : S)
    → HasRoom p c.max_tasks Fits Queued
    → ((n : ℕ) → (rerun : ℕ) × (entropy n ≡ success rerun))
    → 0 < c.max_tasks
    → c.max_tasks < 2 ^ 8
    → length metas ≡ c.max_tasks
    → Fits 0 s
    → (x : Ctx S R) × (task_init p c mpu entropy metas s ≡ ret (okay, x))
      × (x.state ≡ manager_ready)
      × IsBooted (tasks_of c metas) x.tasks
      × ((i : ℕ) (m : TaskMeta) (t : Task)
          → suc i < length (tasks_of c metas)
          → get_elem? (tasks_of c metas) i ≡ some m
          → m.start_auto ≡ true
          → get_elem? x.tasks.cells i ≡ some t
          → Queued t.handle x.sched)
unfolding task_init Ends
task_init_lem {S} {R} p c mpu entropy Fits Queued metas s room works some_tasks small all fits =
    let x : Ctx S R = record {
      state = discover_sanitation;
      userspace_spawned = secure_false;
      status = okay;
      tasks = record { cells = replicate (c.max_tasks + 1) (zero_task c); numtask = 0 };
      layouts = replicate (c.max_tasks + 1) (replicate (max_resources mpu) c.zero_entry);
      sched = s;
    } in
    let test : (length metas == 0) ≡ false = ground arith in
    let (y, run, r, count, placed, _, _, started) =
      init_cells-Ends p c mpu entropy Fits Queued room works small metas x (record {
        count = omega arith;
        cells_all = length-replicate (c.max_tasks + 1) (zero_task c);
        layouts_all =
            length-replicate (c.max_tasks + 1) (replicate (max_resources mpu) c.zero_entry);
        fits = fits;
        next = sym (if_false _ _ test);
        last = refl;
      }) in
    (
      y,
      run,
      r,
      Placed-IsBooted c metas y.tasks count placed,
      λ i m t inside at on cell.
          let from_0 : 0 + i ≡ i = omega arith in
          started i m t inside at on
            (subst (λ j. get_elem? y.tasks.cells j ≡ some t) (sym from_0) cell),
    )
