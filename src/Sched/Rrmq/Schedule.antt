-- ===== src/Sched/Rrmq/Schedule.antt =====
-- `sched_rrmq_schedule` on a valid context.
use sentry_kernel.Base.{
  ℕ, suc, ◌+◌, ◌^◌, ◌≤◌, ◌<◌, ◌≡◌, refl, sym, ◌∙◌, ◌≢◌, ◌⊎◌, inl, inr, true, Option, none, some,
  arith, ◌==◌, get_elem?, get_elem?-set_ne, Run, ret, success,
}
use sentry_kernel.KTypes.{Kstatus, okay, error_invparam, error_badstate, ready}
use sentry_kernel.Task.{TaskTable, get_state}
use sentry_kernel.Sched.Rrmq.{
  Job, Jobset, JobsetName, Context, jobset_at, set_jobset, add_to_jobset, schedule,
}
use sentry_kernel.Sched.Rrmq.Jobsets.{count_if, occurrences, occurrences-set}
use sentry_kernel.Sched.Rrmq.Room.{IsUser}
use sentry_kernel.Sched.Rrmq.Add.{
  JobsetIsValid, job_of, AddOutcome, not_ready, present, added, add_to_jobset_lem,
}
use sentry_kernel.Sched.Rrmq.Invariant.{
  other, other-ne, jobset_at-set_self, jobset_at-set_other, set_jobset_fields, set_jobset_same,
  CurrentIsActive, IsValid, set_jobset-SetsAreValid,
}

-- What adding a user task to a well-formed set did to it.
pub record AddResult (max_tasks : ℕ) (tab : TaskTable) (t : ℕ) (s : Jobset)
    (r : Run (Kstatus × Jobset)) : Type 0 where
  pub status : Kstatus
  pub after : Jobset
  pub returns : r ≡ ret (status, after)
  pub valid : JobsetIsValid max_tasks tab after
  -- Active jobs stay where they are.
  pub kept :
      (k : ℕ) (j : Job)
      → get_elem? s.joblist k ≡ some j
      → j.active ≡ true
      → get_elem? after.joblist k ≡ some j
  pub effect :
      ((status ≡ okay)
        × (get_state tab t ≡ success ready)
        × (occurrences t s.joblist ≡ 0)
        × ((h : ℕ) → occurrences h after.joblist ≡ occurrences h s.joblist + count_if (t == h)))
      ⊎ ((status ≢ okay)
          × (after ≡ s)
          × ((get_state tab t ≢ success ready) ⊎ (0 < occurrences t s.joblist)))

module _ (max_tasks : ℕ) (tab : TaskTable) (sized : tab.numtask ≤ suc max_tasks)
    (small : max_tasks < 2 ^ 32) where
  add_result :
      (t : ℕ) (s : Jobset) (r : Run (Kstatus × Jobset))
      → JobsetIsValid max_tasks tab s
      → AddOutcome max_tasks tab sized small t s r
      → AddResult max_tasks tab t s r
  add_result t s r v (not_ready ne e) = record {
    status = error_invparam;
    after = s;
    returns = e;
    valid = v;
    kept = λ k j g a. g;
    effect = inr (λ h. cc, refl, inl ne);
  }
  add_result t s r v (present is_ready there e) = record {
    status = error_badstate;
    after = s;
    returns = e;
    valid = v;
    kept = λ k j g a. g;
    effect = inr (λ h. cc, refl, inr there);
  }
  add_result t s r v (added is_ready out m i s' free meta cell idle e v' re) = record {
    status = okay;
    after = s';
    returns = re;
    valid = v';
    kept = λ k j g a. rw e (get_elem?-set_ne s.joblist i k (job_of t m) (λ same. ground arith) ∙ g);
    effect = inl (
      refl,
      is_ready,
      out,
      λ h. rw e (ground (arith, occurrences-set h s.joblist i free (job_of t m) cell, idle)),
    );
  }

  pub add_to_jobset-AddResult :
      (t : ℕ) (s : Jobset)
      → JobsetIsValid max_tasks tab s
      → IsUser tab t
      → AddResult max_tasks tab t s (add_to_jobset max_tasks tab t s)
  add_to_jobset-AddResult t s v user =
      add_result t s _ v (add_to_jobset_lem max_tasks tab sized small t s v user)

  -- The current job survives a store to the active set that keeps active jobs in place.
  pub CurrentIsActive-set :
      (c : Context) (s : Jobset) (p : Option (JobsetName × ℕ))
      → ((k : ℕ) (j : Job)
          → get_elem? (jobset_at c c.active_jobset).joblist k ≡ some j
          → j.active ≡ true
          → get_elem? s.joblist k ≡ some j)
      → CurrentIsActive c p
      → CurrentIsActive (set_jobset c c.active_jobset s) p
  CurrentIsActive-set c s none keep h = tt
  CurrentIsActive-set c s (some (n, i)) keep (same, j, g, a) =
      let (act, _, _) = set_jobset_fields c c.active_jobset s in
      (same ∙ sym act, j, rw (act, jobset_at-set_self c c.active_jobset s) (keep i j g a), a)

  -- Scheduling a user task on a valid context never panics or faults and keeps the context valid, the
  -- current job and the backed set. It succeeds exactly when the task is ready and has no active job
  -- in the active set; it then adds one such job there and no other. When it fails nothing changes.
  pub schedule_lem :
      (t : ℕ) (c : Context)
      → IsValid max_tasks tab c
      → IsUser tab t
      → (status : Kstatus) × (c' : Context) × (schedule max_tasks tab t c ≡ ret (status, c'))
        × IsValid max_tasks tab c'
        × (c'.current_job ≡ c.current_job)
        × (c'.active_jobset ≡ c.active_jobset)
        × (jobset_at c' (other c.active_jobset) ≡ jobset_at c (other c.active_jobset))
        × (((status ≡ okay)
              × (get_state tab t ≡ success ready)
              × (occurrences t (jobset_at c c.active_jobset).joblist ≡ 0)
              × ((h : ℕ)
                  → occurrences h (jobset_at c' c.active_jobset).joblist
                    ≡ occurrences h (jobset_at c c.active_jobset).joblist + count_if (t == h)))
            ⊎ ((status ≢ okay)
                × (c' ≡ c)
                × ((get_state tab t ≢ success ready)
                    ⊎ (0 < occurrences t (jobset_at c c.active_jobset).joblist))))
  unfolding schedule
  schedule_lem t c v user =
      let n = c.active_jobset in
      let r = add_to_jobset-AddResult t (jobset_at c n) (v.sets.valid n) user in
      let (act, back, cur) = set_jobset_fields c n r.after in
      let self = jobset_at-set_self c n r.after in
      (
        r.status,
        set_jobset c n r.after,
        rw r.returns,
        record {
          sets = set_jobset-SetsAreValid max_tasks tab c n r.after v.sets r.valid;
          current = rw cur (CurrentIsActive-set c r.after c.current_job r.kept v.current);
        },
        cur,
        act,
        jobset_at-set_other c n (other n) r.after (λ e. other-ne n (sym e)),
        (elim r.effect [
          | inl (o, is_ready, out, count) ↦ inl (o, is_ready, out, λ h. rw self (count h))
          | inr (bad, same, why) ↦ inr (bad, rw same (set_jobset_same c n), why)
        ]),
      )
