-- ===== src/Boot/Round.antt =====
-- A round of the loop of `mgr_task_init` that fills a cell: kernel/src/managers/task/task_init.c.
use sentry_kernel.Base.{
  ℕ, ◌+◌, ◌^◌, ◌<◌, ◌≡◌, refl, ap, ◌∙◌, inl, inr, true, false, none, some, arith, ◌==◌, if_true,
  if_false, Bool-cases, length, get_elem?, set, get_elem?-set_self, get_elem?-lt, set-set, Run, ret,
  fault, ◌>>=◌, >>=-ret, Result, success,
}
use sentry_kernel.KTypes.{Kstatus, okay, ready}
use sentry_kernel.Task.{TaskMeta, Task, TaskTable, index_of, get_from_handle}
use sentry_kernel.Mapping.{Mpu, Layouts}
use sentry_kernel.Sched.Policy.{Policy}
use sentry_kernel.Boot.{check_meta_integrity, init_localinfo, tsk_map, tsk_schedule, Target, Ctx}
use sentry_kernel.Boot.Automaton.{
  initiate_localinfo, init_map, next_cell, start_at_boot, init_schedule, and_then, init_round,
}
use sentry_kernel.Boot.Fresh.{
  found_fresh, fresh_index, set_job_layout-returns, new_task, booted, fill_cell-returns,
}

module _ {S R : Type 0} (c : Target R) (mpu : Mpu R) (entropy : ℕ → Result ℕ) where
  initiate_localinfo-returns :
      (m : TaskMeta) (x : Ctx S R) (t : Task) (rerun : ℕ)
      → x.tasks.numtask < 2 ^ 8
      → x.tasks.numtask < c.max_tasks + 1
      → get_elem? x.tasks.cells x.tasks.numtask ≡ some t
      → entropy x.tasks.numtask ≡ success rerun
      → (ls : Layouts R) × (initiate_localinfo c mpu entropy m x init_localinfo
          ≡ ret (
            okay,
            record x {
              state = tsk_map;
              status = okay;
              tasks = record {
                cells = set x.tasks.cells x.tasks.numtask (new_task c m x.tasks.numtask rerun t);
                numtask = x.tasks.numtask + 1;
              };
              layouts = ls;
            },
          ))
        × (length ls ≡ length x.layouts)
  initiate_localinfo-returns m x t rerun small h f e =
      let n = x.tasks.numtask in
      let test : (n == c.max_tasks + 1) ≡ false = ground arith in
      let (ls, fills, l) =
        fill_cell-returns c mpu entropy (new_task c m n rerun t) m tsk_map
          (record x { status = okay }) refl (fresh_index rerun n small)
          (get_elem?-lt x.tasks.cells n f) in
      (ls, if_false _ _ test ∙ rw (f, e) (>>=-ret _ fills), l)

-- A scheduler with room for the tasks of the table: with `Fits n` it has been given tasks of the first
-- `n` cells only, and takes the task of the next cell when that is ready. `Queued h` says that the task
-- `h` waits for its turn: the task that is taken does then, and so do all that did before.
pub record HasRoom {S : Type 0} (p : Policy S) (max_tasks : ℕ) (Fits : ℕ → S → Type 0)
    (Queued : ℕ → S → Type 0) : Type 0 where
  pub takes :
      (n : ℕ) (tab : TaskTable) (t : Task) (m : TaskMeta) (s : S)
      → n < max_tasks
      → Fits n s
      → get_from_handle tab t.handle ≡ some t
      → index_of t.handle ≡ n
      → t.metadata ≡ some m
      → t.state ≡ ready
      → (s' : S) × (p.schedule tab t.handle s ≡ ret (okay, s'))
        × Fits (n + 1) s'
        × Queued t.handle s'
        × ((h : ℕ) → Queued h s → Queued h s')
  pub passes : (n : ℕ) (s : S) → Fits n s → Fits (n + 1) s

module _ {S R : Type 0} (p : Policy S) (c : Target R) (mpu : Mpu R) (entropy : ℕ → Result ℕ) where
  start-returns :
      (Fits Queued : ℕ → S → Type 0)
      → HasRoom p c.max_tasks Fits Queued
      → (n : ℕ) (x : Ctx S R) (t : Task) (m : TaskMeta) → n < c.max_tasks
      → Fits n x.sched
      → get_from_handle x.tasks t.handle ≡ some t
      → index_of t.handle ≡ n
      → t.metadata ≡ some m
      → t.state ≡ ready
      → (s : S) × (start_at_boot p c mpu entropy x t.handle (some m)
          ≡ ret (okay, next_cell p c mpu entropy (record x { sched = s })))
        × Fits (n + 1) s
        × (m.start_auto ≡ true → Queued t.handle s)
        × ((h : ℕ) → Queued h x.sched → Queued h s)
  start-returns Fits Queued room n x t m h fits f own e r = elim (Bool-cases m.start_auto) [
    | inl auto ↦
        let (s, takes, fits', queued, stays) = room.takes n x.tasks t m x.sched h fits f own e r in
        (s, if_true _ _ auto ∙ >>=-ret _ takes, fits', (λ _. queued), stays)
    | inr auto ↦ (
      x.sched,
      if_false _ _ auto,
      room.passes n x.sched fits,
      (λ on. absurd cc),
      λ h queued. queued,
    )
  ]

  -- The context after the round.
  abbrev pub next_ctx : TaskMeta → ℕ → Task → Layouts R → S → Ctx S R → Ctx S R
  next_ctx m rerun t ls s x = next_cell p c mpu entropy (record x {
    status = okay;
    tasks = record {
      cells = set x.tasks.cells x.tasks.numtask (booted c m x.tasks.numtask rerun t);
      numtask = x.tasks.numtask + 1;
    };
    layouts = ls;
    sched = s;
  })

  pub init_round-returns :
      (Fits Queued : ℕ → S → Type 0)
      → HasRoom p c.max_tasks Fits Queued
      → (m : TaskMeta) (x : Ctx S R) (t : Task) (rerun : ℕ) → x.tasks.numtask < 2 ^ 8
      → x.tasks.numtask < c.max_tasks
      → x.tasks.numtask < length x.layouts
      → get_elem? x.tasks.cells x.tasks.numtask ≡ some t
      → entropy x.tasks.numtask ≡ success rerun
      → Fits x.tasks.numtask x.sched
      → (ls : Layouts R) × (s : S) × (init_round p c mpu entropy m
            (okay, record x { state = check_meta_integrity })
          ≡ ret (okay, next_ctx m rerun t ls s x))
        × (length ls ≡ length x.layouts)
        × Fits (x.tasks.numtask + 1) s
        × (m.start_auto ≡ true → Queued (booted c m x.tasks.numtask rerun t).handle s)
        × ((h : ℕ) → Queued h x.sched → Queued h s)
  unfolding init_round
  init_round-returns Fits Queued room m x t rerun small h b f e fits =
      let n = x.tasks.numtask in
      let t1 = new_task c m n rerun t in
      let t2 = booted c m n rerun t in
      let here = get_elem?-lt x.tasks.cells n f in
      let (ls, init, l) =
        initiate_localinfo-returns c mpu entropy m
          (record x { state = init_localinfo; status = okay }) t rerun small (omega arith) f e in
      let x1 : Ctx S R = record x {
        state = tsk_map;
        status = okay;
        tasks = record { cells = set x.tasks.cells n t1; numtask = n + 1 };
        layouts = ls;
      } in
      let x2 : Ctx S R = record x {
        state = tsk_schedule;
        status = okay;
        tasks = record { cells = set x.tasks.cells n t2; numtask = n + 1 };
        layouts = ls;
      } in
      let own = fresh_index rerun n small in
      let laid : init_map c mpu entropy n x1 tsk_map ≡ ret (okay, x2) =
        >>=-ret _ (
          set_job_layout-returns c n x1 t1 (get_elem?-set_self x.tasks.cells n t1 here)
            (found_fresh x.tasks.cells n t1 here own) (omega (arith, own, l, b)))
        ∙ ap (λ cells. ret (okay, record x2 { tasks = record x2.tasks { cells = cells } }))
            (set-set x.tasks.cells n t1 t2) in
      let (s, starts, fits', queued, stays) =
        start-returns Fits Queued room n x2 t2 m h fits (found_fresh x.tasks.cells n t2 here own)
          own refl refl in
      (
        ls,
        s,
        ap
              (λ r.
                (r >>= and_then p c mpu entropy (λ y st. init_map c mpu entropy n y st))
                >>= and_then p c mpu entropy (λ y st. init_schedule p c mpu entropy n y st))
              init
            ∙ ap
                (λ r. r >>= and_then p c mpu entropy (λ y st. init_schedule p c mpu entropy n y st))
                laid
            ∙ ap
                (λ cell. elim cell as (λ _. Run (Kstatus × Ctx S R)) [
                  | none ↦ fault
                  | some t' ↦ start_at_boot p c mpu entropy x2 t'.handle t'.metadata
                ])
                (get_elem?-set_self x.tasks.cells n t2 here)
            ∙ starts,
        l,
        fits',
        queued,
        stays,
      )
