-- ===== src/Sched/Rrmq/Retire.antt =====
-- The first half of `sched_rrmq_elect`: the current job leaves the active set, and one that is still
-- ready goes to the backed set.
use sentry_kernel.Base.{
  ℕ, suc, ◌+◌, ◌-◌, ◌%◌, ◌^◌, ◌≤◌, ◌<◌, ◌≡◌, refl, sym, ap, ◌∙◌, ◌≢◌, ◌⊎◌, inl, inr, true, false,
  some, arith, ◌==◌, if◌then◌else◌, get_elem?, set, length-set, ret, success,
}
use sentry_kernel.KTypes.{JobState, notstarted, ready}
use sentry_kernel.Task.{TaskTable, get_state}
use sentry_kernel.Sched.Rrmq.{
  Job, Jobset, JobsetName, primary_set, secondary_set, Context, jobset_at, set_jobset, job_at,
  deactivate, requeue, retire,
}
use sentry_kernel.Sched.Rrmq.Jobsets.{
  count_if, occurrences, count_active-le-length, count_active-set, occurrences-set,
}
use sentry_kernel.Sched.Rrmq.Room.{IsUser, AllUsers-get}
use sentry_kernel.Sched.Rrmq.Add.{JobsetIsValid, AllUsers-set}
use sentry_kernel.Sched.Rrmq.Invariant.{
  other, other-ne, jobset_at-set_self, jobset_at-set_other, set_jobset_fields, set_jobset_same,
  SetsAreValid, set_jobset-SetsAreValid,
}
use sentry_kernel.Sched.Rrmq.Schedule.{add_to_jobset-AddResult}
use native.Mathlib.Nat.{add_comm}

-- The active jobs of a task in both sets.
unfoldable pub jobs_of : ℕ → Context → ℕ
jobs_of h c = occurrences h c.primary.joblist + occurrences h c.secondary.joblist

pub jobs_of_at :
    (h : ℕ) (c : Context) (n : JobsetName)
    → jobs_of h c
      ≡ occurrences h (jobset_at c n).joblist + occurrences h (jobset_at c (other n)).joblist
unfolding jobs_of other
jobs_of_at h c primary_set = refl
jobs_of_at h c secondary_set = add_comm _ _

deactivated : Jobset → ℕ → Job → Jobset
deactivated s i j = record {
  num_jobs = (s.num_jobs + 2 ^ 32 - 1) % 2 ^ 32;
  joblist = set s.joblist i (record j { active = false });
}

deactivate_lem :
    (c : Context) (n : JobsetName) (i : ℕ) (j : Job)
    → c.active_jobset ≡ n
    → deactivate c (n, i) (some j) ≡ ret (set_jobset c n (deactivated (jobset_at c n) i j))
unfolding deactivated
deactivate_lem c primary_set i j e = rw e
deactivate_lem c secondary_set i j e = rw e

module _ (max_tasks : ℕ) (tab : TaskTable) (sized : tab.numtask ≤ suc max_tasks)
    (small : max_tasks < 2 ^ 32) where
  deactivated-IsValid :
      (s : Jobset) (i : ℕ) (j : Job)
      → JobsetIsValid max_tasks tab s
      → get_elem? s.joblist i ≡ some j
      → j.active ≡ true
      → JobsetIsValid max_tasks tab (deactivated s i j)
        × ((h : ℕ)
            → occurrences h (deactivated s i j).joblist + count_if (j.handler == h)
              ≡ occurrences h s.joblist)
  unfolding deactivated
  deactivated-IsValid s i j v g a =
      let gone = record j { active = false } in
      let balance = λ (h : ℕ). occurrences-set h s.joblist i j gone g in
      (
        record {
          storage = length-set s.joblist i gone ∙ v.storage;
          counted = ground (
            arith,
            v,
            count_active-set s.joblist i j gone g,
            a,
            count_active-le-length s.joblist,
          );
          unique = λ h. ground (arith, balance h, v.unique h);
          users = AllUsers-set tab s.joblist i gone v.users (inl refl);
        },
        λ h. ground (arith, balance h, a),
      )

  -- What becomes of the backed set: the task, if ready, has exactly one active job there.
  requeue_lem :
      (t : ℕ) (state : JobState) (c : Context)
      → SetsAreValid max_tasks tab c
      → IsUser tab t
      → get_state tab t ≡ success state
      → (s : Jobset) × (requeue max_tasks tab t state c ≡ ret (set_jobset c c.backed_jobset s))
        × JobsetIsValid max_tasks tab s
        × (((state ≡ ready)
              × ((h : ℕ)
                  → occurrences h s.joblist
                    ≡ (if t == h then 1 else occurrences h (jobset_at c c.backed_jobset).joblist)))
            ⊎ ((state ≢ ready) × (s ≡ jobset_at c c.backed_jobset)))
  requeue_lem t ready c v user st =
      let s = jobset_at c c.backed_jobset in
      let r =
        add_to_jobset-AddResult max_tasks tab sized small t s (v.valid c.backed_jobset) user in
      (
        r.after,
        rw r.returns,
        r.valid,
        inl (
          refl,
          elim r.effect [
            | inl (_, _, out, count) ↦ λ h.
                ground
                  (arith, count h, out, ap (λ (x : ℕ). occurrences x s.joblist) {x = t} {y = h})
            | inr (_, same, inl blocked) ↦ absurd (blocked st)
            | inr (_, same, inr there) ↦ λ h. rw same (
                ground (
                  arith,
                  there,
                  (v.valid c.backed_jobset).unique t,
                  ap (λ (x : ℕ). occurrences x s.joblist) {x = t} {y = h},
                ))
          ],
        ),
      )
  requeue_lem t notstarted c v user st = (
    jobset_at c c.backed_jobset,
    rw set_jobset_same,
    v.valid c.backed_jobset,
    inr (λ e. cc, refl),
  )
  requeue_lem t _ c v user st = (
    jobset_at c c.backed_jobset,
    rw set_jobset_same,
    v.valid c.backed_jobset,
    inr (λ e. cc, refl),
  )

  -- The context behind the label `elect` of the source, `h` being the task that left the active set.
  pub record Retired (c c' : Context) (h : ℕ) : Type 0 where
    pub sets : SetsAreValid max_tasks tab c'
    pub same_active : c'.active_jobset ≡ c.active_jobset
    pub others : (k : ℕ) → k ≢ h → jobs_of k c' ≡ jobs_of k c
    pub fate :
        ((get_state tab h ≡ success ready) × (jobs_of h c' ≡ 1))
        ⊎ ((get_state tab h ≢ success ready) × (jobs_of h c' + 1 ≡ jobs_of h c))

  abbrev Requeued : ℕ → JobState → Jobset → Jobset → Type 0
  Requeued t state old s =
      ((state ≡ ready)
        × ((h : ℕ) → occurrences h s.joblist ≡ (if t == h then 1 else occurrences h old.joblist)))
      ⊎ ((state ≢ ready) × (s ≡ old))

  module _ (c : Context) (i : ℕ) (j : Job) (s : Jobset) (v : SetsAreValid max_tasks tab c)
      (g : get_elem? (jobset_at c c.active_jobset).joblist i ≡ some j) (a : j.active ≡ true) where
    -- The backed set is stored, then the job is taken out of the active set.
    backed_stored : Context
    backed_stored = set_jobset c c.backed_jobset s

    retired : Context
    retired =
        set_jobset backed_stored c.active_jobset (deactivated (jobset_at c c.active_jobset) i j)

    stored_active : jobset_at backed_stored c.active_jobset ≡ jobset_at c c.active_jobset
    unfolding backed_stored
    stored_active =
        jobset_at-set_other c c.backed_jobset c.active_jobset s
          (λ b. other-ne c.active_jobset (sym v.opposite ∙ b))

    retired_active :
        jobset_at retired c.active_jobset ≡ deactivated (jobset_at c c.active_jobset) i j
    unfolding retired
    retired_active = jobset_at-set_self backed_stored c.active_jobset _

    retired_backed : jobset_at retired (other c.active_jobset) ≡ s
    unfolding retired backed_stored
    retired_backed =
        jobset_at-set_other backed_stored c.active_jobset (other c.active_jobset) _
          (λ b. other-ne c.active_jobset (sym b))
        ∙ rw (← v.opposite) (jobset_at-set_self c c.backed_jobset s)

    retired_count :
        (h : ℕ)
        → jobs_of h retired + count_if (j.handler == h)
          ≡ occurrences h (jobset_at c c.active_jobset).joblist + occurrences h s.joblist
    retired_count h =
        let (_, balance) = deactivated-IsValid _ i j (v.valid c.active_jobset) g a in
        rw (jobs_of_at h retired c.active_jobset, retired_active, retired_backed)
          (omega (arith, balance h))

    deactivate_stored :
        deactivate backed_stored (c.active_jobset, i) (job_at backed_stored (c.active_jobset, i))
        ≡ ret retired
    unfolding retired
    deactivate_stored =
        rw (stored_active, g)
          (deactivate_lem backed_stored c.active_jobset i j
              (unfold backed_stored in (set_jobset_fields c c.backed_jobset s).0)
            ∙ rw stored_active)

    retired-Retired :
        (state : JobState)
        → JobsetIsValid max_tasks tab s
        → get_state tab j.handler ≡ success state
        → Requeued j.handler state (jobset_at c c.backed_jobset) s
        → Retired c retired j.handler
    unfolding retired
    retired-Retired state w st effect = record {
      sets =
          set_jobset-SetsAreValid max_tasks tab backed_stored c.active_jobset _
            (unfold backed_stored in set_jobset-SetsAreValid max_tasks tab c c.backed_jobset s v w)
            (deactivated-IsValid _ i j (v.valid c.active_jobset) g a).0;
      same_active =
          (set_jobset_fields backed_stored c.active_jobset _).0
          ∙ unfold backed_stored in (set_jobset_fields c c.backed_jobset s).0;
      others = λ k ne. elim effect [
        | inl (_, count) ↦ ground (arith, ne, retired_count k, before k, count k)
        | inr (_, same) ↦ ground (
          arith,
          ne,
          retired_count k,
          before k,
          ap (λ (x : Jobset). occurrences k x.joblist) same,
        )
      ];
      fate = elim effect [
        | inl (is_ready, count) ↦ inl (
          st ∙ ap success is_ready,
          ground (arith, retired_count j.handler, count j.handler, present_once),
        )
        | inr (blocked, same) ↦ inr (
          λ h. blocked (ground (arith, st, h)),
          ground (
            arith,
            retired_count j.handler,
            before j.handler,
            ap (λ (x : Jobset). occurrences j.handler x.joblist) same,
          ),
        )
      ];
    }
      where
        before :
            (h : ℕ)
            → jobs_of h c
              ≡ occurrences h (jobset_at c c.active_jobset).joblist
                + occurrences h (jobset_at c c.backed_jobset).joblist
        before h = rw (jobs_of_at h c c.active_jobset, v.opposite)

        present_once : occurrences j.handler (jobset_at c c.active_jobset).joblist ≡ 1
        present_once =
            let (_, balance) = deactivated-IsValid _ i j (v.valid c.active_jobset) g a in
            ground (arith, balance j.handler, (v.valid c.active_jobset).unique j.handler)

  retire_step :
      (c c1 : Context) (p : JobsetName × ℕ) (j : Job) (state : JobState)
      → get_state tab j.handler ≡ success state
      → requeue max_tasks tab j.handler state c ≡ ret c1
      → retire max_tasks tab p (some j) c ≡ deactivate c1 p (job_at c1 p)
  unfolding retire
  retire_step c c1 p j state st step = rw (st, retire) (rw step)

  pub retire_lem :
      (c : Context) (i : ℕ) (j : Job)
      → SetsAreValid max_tasks tab c
      → get_elem? (jobset_at c c.active_jobset).joblist i ≡ some j
      → j.active ≡ true
      → (c' : Context) × (retire max_tasks tab (c.active_jobset, i) (some j) c ≡ ret c')
        × Retired c c' j.handler
  unfolding get_state
  retire_lem c i j v g a =
      let user = AllUsers-get tab _ i j (v.valid c.active_jobset).users g a in
      let (t0, m, f, e, inside) = user in
      let st : get_state tab j.handler ≡ success t0.state = ground (arith, f) in
      let (s, step, w, effect) = requeue_lem j.handler t0.state c v user st in
      (
        retired c i j s v g a,
        retire_step c _ (c.active_jobset, i) j t0.state st step
            ∙ unfold backed_stored in deactivate_stored c i j s v g a,
        retired-Retired c i j s v g a t0.state w st effect,
      )
