-- ===== src/Boot/Rrmq.antt =====
-- The round robin scheduler at the start: kernel/src/sched/sched_rrmq.c, called by
-- task_init_schedule of kernel/src/managers/task/task_init.c.
use sentry_kernel.Base.{
  ℕ, zero, suc, ◌+◌, ◌%◌, ◌^◌, ◌≤◌, ◌<◌, ◌≡◌, refl, sym, ap, ◌∙◌, subst, ◌⊎◌, inl, inr, false, some,
  List, [], ◌∷◌, arith, ltb, ◌==◌, if_false, length, set, replicate, length-set, length-replicate,
  ret, >>=-ret, success,
}
use sentry_kernel.KTypes.{okay, ready}
use sentry_kernel.Task.{
  TaskMeta, Task, TaskTable, index_of, get_from_handle, read, get_state, get_metadata,
}
use sentry_kernel.Sched.Rrmq.{
  Job, Jobset, Context, jobset_at, set_jobset, zero_job, init, not_in_jobset, empty_cell,
  empty_or_zero, add_to_jobset, schedule,
}
use sentry_kernel.Sched.Rrmq.Add.{job_of}
use sentry_kernel.Sched.Rrmq.Jobsets.{
  count_if, count_active, occurrences, count_active-set, occurrences-set, empty_cell_lem,
}
use sentry_kernel.Sched.Rrmq.Invariant.{jobset_at-set_self, set_jobset_fields}
use sentry_kernel.Sched.Rrmq.Lawful.{policy}
use sentry_kernel.Boot.Round.{HasRoom}
use sentry_kernel.Boot.Fresh.{get_metadata_of}

-- Every active job of a list is of one of the first `n` cells.
abbrev AllBelow : ℕ → List Job → Type 0
AllBelow n [] = Unit
AllBelow n (j ∷ js) = ((j.active ≡ false) ⊎ (index_of j.handler < n)) × AllBelow n js

AllBelow-le : (n m : ℕ) (js : List Job) → n ≤ m → AllBelow n js → AllBelow m js
AllBelow-le n m [] h b = tt
AllBelow-le n m (j ∷ js) h b =
    ((elim b.0 [ inl off ↦ inl off | inr lt ↦ inr (omega arith) ]), AllBelow-le n m js h b.1)

AllBelow-set :
    (n i : ℕ) (j : Job) (js : List Job)
    → index_of j.handler < n
    → AllBelow n js
    → AllBelow n (set js i j)
AllBelow-set n i j [] h b = tt
AllBelow-set n zero j (k ∷ js) h b = (inr h, b.1)
AllBelow-set n (suc i) j (k ∷ js) h b = (b.0, AllBelow-set n i j js h b.1)

AllBelow-replicate : (n k : ℕ) → AllBelow n (replicate k zero_job)
AllBelow-replicate n zero = tt
AllBelow-replicate n (suc k) = (inl refl, AllBelow-replicate n k)

-- A task of a later cell has no job yet.
AllBelow-not_in_jobset :
    (t : ℕ) (js : List Job) → AllBelow (index_of t) js → not_in_jobset t js ≡ okay
unfolding not_in_jobset
AllBelow-not_in_jobset t [] b = refl
AllBelow-not_in_jobset t (j ∷ js) b =
    ground (arith, b.0, ap index_of {x = j.handler} {y = t}, AllBelow-not_in_jobset t js b.1)

-- A job set with room that holds jobs of the first `n` cells only, at most `n`.
pub record RoomAfter (max_tasks n : ℕ) (s : Jobset) : Type 0 where
  few : s.num_jobs ≤ n
  below : AllBelow n s.joblist
  storage : length s.joblist ≡ max_tasks
  actives : count_active s.joblist ≤ n

-- The active job set is such a set.
pub record HoldsFirst (max_tasks n : ℕ) (c : Context) : Type 0 where
  pub active : RoomAfter max_tasks n (jobset_at c c.active_jobset)

-- The task `h` has an active job in the set of the current time slot.
pub record HasJob (h : ℕ) (c : Context) : Type 0 where
  pub held : 0 < occurrences h (jobset_at c c.active_jobset).joblist

get_state_of :
    (tab : TaskTable) (t : Task)
    → get_from_handle tab t.handle ≡ some t
    → t.state ≡ ready
    → get_state tab t.handle ≡ success ready
unfolding get_state
get_state_of tab t f r = ap (read (λ t'. t'.state)) f ∙ ap success r

stored_active :
    (c : Context) (s : Jobset)
    → jobset_at (set_jobset c c.active_jobset s) (set_jobset c c.active_jobset s).active_jobset ≡ s
stored_active c s =
    ap (jobset_at (set_jobset c c.active_jobset s)) (set_jobset_fields c c.active_jobset s).0
    ∙ jobset_at-set_self c c.active_jobset s

-- The job of a task of the next cell goes to a free cell: the task then has a job, and no other task
-- loses one.
placed :
    (max_tasks n : ℕ) (t : Task) (m : TaskMeta) (s : Jobset)
    → n < max_tasks
    → RoomAfter max_tasks n s
    → index_of t.handle ≡ n
    → RoomAfter max_tasks (n + 1) (record {
      num_jobs = (s.num_jobs + 1) % 2 ^ 32;
      joblist = set s.joblist (empty_or_zero (empty_cell s.joblist)) (job_of t.handle m);
    })
      × ((h : ℕ)
          → occurrences h (set s.joblist (empty_or_zero (empty_cell s.joblist)) (job_of t.handle m))
            ≡ occurrences h s.joblist + count_if (t.handle == h))
placed max_tasks n t m s lt r own = elim (empty_cell_lem s.joblist) [
  | inl (full, _) ↦ absurd (omega (arith, full, r.storage, r.actives, lt))
  | inr (i, free, at, cell, idle) ↦ rw at (
    record {
      few = omega (arith, r.few);
      below =
          AllBelow-set (n + 1) i (job_of t.handle m) s.joblist (omega (arith, own))
            (AllBelow-le n (n + 1) s.joblist (omega arith) r.below);
      storage = length-set s.joblist i (job_of t.handle m) ∙ r.storage;
      actives =
          ground
            (arith, count_active-set s.joblist i free (job_of t.handle m) cell, idle, r.actives);
    },
    λ h. ground (arith, occurrences-set h s.joblist i free (job_of t.handle m) cell, idle),
  )
]

added :
    (max_tasks n : ℕ) (tab : TaskTable) (t : Task) (m : TaskMeta) (s : Jobset)
    → n < max_tasks
    → RoomAfter max_tasks n s
    → get_from_handle tab t.handle ≡ some t
    → index_of t.handle ≡ n
    → t.metadata ≡ some m
    → t.state ≡ ready
    → (s' : Jobset) × (add_to_jobset max_tasks tab t.handle s ≡ ret (okay, s'))
      × RoomAfter max_tasks (n + 1) s'
      × ((h : ℕ) → occurrences h s'.joblist ≡ occurrences h s.joblist + count_if (t.handle == h))
unfolding add_to_jobset
added max_tasks n tab t m s lt r f own e st =
    let test : ltb max_tasks s.num_jobs ≡ false = ground (arith, r.few, lt) in
    let known : get_metadata tab t.handle ≡ success (some m) =
      get_metadata_of tab t.handle t m f e in
    let state : get_state tab t.handle ≡ success ready = get_state_of tab t f st in
    let fresh : not_in_jobset t.handle s.joblist ≡ okay =
      AllBelow-not_in_jobset t.handle s.joblist
        (subst (λ k. AllBelow k s.joblist) (sym own) r.below) in
    let (after, counts) = placed max_tasks n t m s lt r own in
    (
      record {
        num_jobs = (s.num_jobs + 1) % 2 ^ 32;
        joblist = set s.joblist (empty_or_zero (empty_cell s.joblist)) (job_of t.handle m);
      },
      if_false _ _ test ∙ rw (known, state, fresh) refl,
      after,
      counts,
    )

-- `sched_rrmq` has room for the tasks of a table that fits CONFIG_MAX_TASKS: when only tasks of earlier
-- cells have been scheduled since the start, scheduling a ready task of the next cell returns
-- K_STATUS_OKAY; that task then has a job in the current time slot, and no task that had one loses it.
pub rrmq-HasRoom :
    (max_tasks : ℕ) → HasRoom (policy max_tasks) max_tasks (HoldsFirst max_tasks) HasJob
unfolding schedule
rrmq-HasRoom max_tasks = record {
  takes = λ n tab t m c lt fits f own e r.
      let (s, adds, after, counts) =
        added max_tasks n tab t m (jobset_at c c.active_jobset) lt fits.active f own e r in
      let there = stored_active c s in
      (
        set_jobset c c.active_jobset s,
        >>=-ret _ adds,
        record { active = subst (RoomAfter max_tasks (n + 1)) (sym there) after },
        record { held = rw there (ground (arith, counts t.handle)) },
        λ h has. record { held = rw there (omega (arith, counts h, has.held)) },
      );
  passes = λ n c fits. record {
    active = record {
      few = omega (arith, fits.active.few);
      below = AllBelow-le n (n + 1) _ (omega arith) fits.active.below;
      storage = fits.active.storage;
      actives = omega (arith, fits.active.actives);
    };
  };
}

none_active : (k : ℕ) → count_active (replicate k zero_job) ≡ 0
unfolding count_active
none_active zero = refl
none_active (suc k) = omega (arith, none_active k)

-- The context of `sched_rrmq_init` has no job.
pub init-HoldsFirst : (max_tasks : ℕ) → HoldsFirst max_tasks 0 (init max_tasks)
unfolding init
init-HoldsFirst max_tasks = record {
  active = record {
    few = omega arith;
    below = AllBelow-replicate 0 max_tasks;
    storage = length-replicate max_tasks zero_job;
    actives = omega (arith, none_active max_tasks);
  };
}
