-- ===== src/Sched/Rrmq/Refresh.antt =====
-- `sched_rrmq_refresh` on a valid context.
use sentry_kernel.Base.{
  ℕ, suc, ◌+◌, ◌-◌, ◌%◌, ◌^◌, ◌≤◌, ◌<◌, ◌≡◌, refl, sym, ap, ◌∙◌, subst, ◌≢◌, ◌⊎◌, inl, inr, true,
  false, Option, none, some, arith, ◌==◌, if_true, if_false, Option-cases, get_elem?, set,
  length-set, get_elem?-set_self, get_elem?-lt, ret, >>=-ret, success,
}
use sentry_kernel.Task.{TaskTable, get_from_handle, get_sp, get_idle}
use sentry_kernel.Sched.Rrmq.{
  Job, Jobset, JobsetName, Context, jobset_at, job_at, set_job, elect, refresh_job, refresh,
}
use sentry_kernel.Sched.Rrmq.Jobsets.{occurrences, count_active-set, occurrences-set}
use sentry_kernel.Sched.Rrmq.Room.{AllUsers-get}
use sentry_kernel.Sched.Rrmq.Add.{JobsetIsValid, AllUsers-set}
use sentry_kernel.Sched.Rrmq.Invariant.{
  other, other-ne, jobset_at-set_self, jobset_at-set_other, set_jobset_fields, CurrentIsActive,
  IsValid, set_jobset-SetsAreValid,
}
use sentry_kernel.Sched.Rrmq.Retire.{jobs_of, jobs_of_at}
use sentry_kernel.Sched.Rrmq.Elect.{IsElection, JobsAfter, elect_lem}
use native.Mathlib.Decide.{dec_lt}

module _ (max_tasks : ℕ) (tab : TaskTable) where
  -- A job that keeps its task and its activity.
  touched-IsValid :
      (s : Jobset) (i : ℕ) (j j' : Job)
      → JobsetIsValid max_tasks tab s
      → get_elem? s.joblist i ≡ some j
      → j.active ≡ true
      → j'.handler ≡ j.handler
      → j'.active ≡ j.active
      → JobsetIsValid max_tasks tab (record s { joblist = set s.joblist i j' })
        × ((h : ℕ) → occurrences h (set s.joblist i j') ≡ occurrences h s.joblist)
  touched-IsValid s i j j' v cell on same act =
      let count : (h : ℕ) → occurrences h (set s.joblist i j') ≡ occurrences h s.joblist =
        λ h. ground (arith, occurrences-set h s.joblist i j j' cell, same, act) in
      (
        record {
          storage = length-set s.joblist i j' ∙ v.storage;
          counted = ground (arith, count_active-set s.joblist i j j' cell, act, v.counted);
          unique = λ h. omega (arith, count h, v.unique h);
          users =
              AllUsers-set tab s.joblist i j' v.users
                (inr (rw same (AllUsers-get tab s.joblist i j v.users cell on)));
        },
        count,
      )

  -- The context after a tick that the current job was charged for.
  abbrev pub charged : Context → ℕ → Job → Context
  charged c i j = set_job c (c.active_jobset, i) (record j { quantum = j.quantum - 1 })

  charged-IsValid :
      (c : Context) (i : ℕ) (j : Job)
      → IsValid max_tasks tab c
      → c.current_job ≡ some (c.active_jobset, i)
      → get_elem? (jobset_at c c.active_jobset).joblist i ≡ some j
      → j.active ≡ true
      → IsValid max_tasks tab (charged c i j)
        × ((charged c i j).current_job ≡ c.current_job)
        × ((h : ℕ) → jobs_of h (charged c i j) ≡ jobs_of h c)
        × (get_elem? (jobset_at (charged c i j) c.active_jobset).joblist i
            ≡ some (record j { quantum = j.quantum - 1 }))
  charged-IsValid c i j v cur cell on =
      let n = c.active_jobset in
      let j' = record j { quantum = j.quantum - 1 } in
      let s = jobset_at c n in
      let (w, count) = touched-IsValid s i j j' (v.sets.valid n) cell on refl refl in
      let s' : Jobset = record s { joblist = set s.joblist i j' } in
      let (act, back, same) = set_jobset_fields c n s' in
      let self = jobset_at-set_self c n s' in
      let away = jobset_at-set_other c n (other n) s' (λ e. other-ne n (sym e)) in
      let read : get_elem? (set s.joblist i j') i ≡ some j' =
        get_elem?-set_self s.joblist i j' (get_elem?-lt s.joblist i cell) in
      (
        record {
          sets = set_jobset-SetsAreValid max_tasks tab c n s' v.sets w;
          current =
              subst (CurrentIsActive (charged c i j)) (sym (same ∙ cur))
                (sym act, j', rw (act, self) read, on);
        },
        same,
        (λ h.
            jobs_of_at h (charged c i j) n
            ∙ rw (self, away, count h) refl
            ∙ sym (jobs_of_at h c n)),
        rw self read,
      )

  refresh_current :
      (frame : ℕ) (c : Context) (p : JobsetName × ℕ) (j : Job)
      → c.current_job ≡ some p
      → job_at c p ≡ some j
      → refresh max_tasks tab frame c ≡ refresh_job max_tasks tab frame c p (some j)
  unfolding refresh
  refresh_current frame c p j cur cell =
      ap
        (λ (o : Option (JobsetName × ℕ)). elim o [
          | none ↦ ret (frame, c)
          | some p ↦ refresh_job max_tasks tab frame c p (job_at c p)
        ])
        cur
      ∙ ap (refresh_job max_tasks tab frame c p) cell

  -- The context that `refresh_job` stores, for a quantum that is a word and not 0.
  refresh_stored :
      (c : Context) (i : ℕ) (j : Job)
      → 0 < j.quantum
      → j.quantum < 2 ^ 32
      → set_job c (c.active_jobset, i) (record j { quantum = (j.quantum + 2 ^ 32 - 1) % 2 ^ 32 })
        ≡ charged c i j
  refresh_stored c i j low high =
      ap (λ q. set_job c (c.active_jobset, i) (record j { quantum = q })) (omega arith)

module _ (max_tasks : ℕ) (tab : TaskTable) (sized : tab.numtask ≤ suc max_tasks)
    (small : max_tasks < 2 ^ 32) where
  elected_known :
      (idle t : ℕ) (c : Context)
      → get_from_handle tab idle ≢ none
      → IsElection max_tasks tab idle t c
      → (sp : ℕ) × (get_sp tab t ≡ success sp)
  unfolding get_sp
  elected_known idle t c known el =
      let there : get_from_handle tab t ≢ none = elim el.choice [
        | inl choice ↦ rw choice.0 known
        | inr (k, j, same, cur, chosen) ↦
            let user =
              AllUsers-get tab _ k j (el.valid.sets.valid c.active_jobset).users chosen.cell
                chosen.active in
            rw (same, user.2) (λ e. cc)
      ] in
      elim (Option-cases (get_from_handle tab t)) [
        | inl nothing ↦ absurd (there nothing)
        | inr (task, found) ↦ (task.sp, rw found refl)
      ]

  -- A tick of the scheduler on a valid context whose current job has a quantum that is a word and not
  -- 0. While more than one tick is left, the task goes on with one less and nothing else of the context
  -- changes. At the last one an election is held by `sched_rrmq_elect` on the context that differs only
  -- in that the quantum is 0, so no task but the one that was running loses a job, and the frame of the
  -- elected task is resumed.
  pub refresh_lem :
      (frame idle i : ℕ) (c : Context) (j : Job)
      → get_idle tab ≡ ret idle
      → get_from_handle tab idle ≢ none
      → IsValid max_tasks tab c
      → c.current_job ≡ some (c.active_jobset, i)
      → get_elem? (jobset_at c c.active_jobset).joblist i ≡ some j
      → j.active ≡ true
      → 0 < j.quantum
      → j.quantum < 2 ^ 32
      → ((1 < j.quantum)
          × ((c' : Context) × (refresh max_tasks tab frame c ≡ ret (frame, c'))
              × IsValid max_tasks tab c'
              × (c'.current_job ≡ c.current_job)
              × ((h : ℕ) → jobs_of h c' ≡ jobs_of h c)
              × (get_elem? (jobset_at c' c.active_jobset).joblist i
                  ≡ some (record j { quantum = j.quantum - 1 }))
              × (c' ≡ charged max_tasks tab c i j)))
        ⊎ ((j.quantum ≡ 1)
            × ((t : ℕ) × (sp : ℕ) × (c' : Context) × (refresh max_tasks tab frame c ≡ ret (sp, c'))
                × (get_sp tab t ≡ success sp)
                × IsElection max_tasks tab idle t c'
                × (elect max_tasks tab (charged max_tasks tab c i j) ≡ ret (t, c'))
                × JobsAfter tab (charged max_tasks tab c i j) c.current_job c'
                × ((h : ℕ) → jobs_of h (charged max_tasks tab c i j) ≡ jobs_of h c)))
  refresh_lem frame idle i c j idle_last known v cur cell on low high =
      let (w, same, jobs, left) = charged-IsValid max_tasks tab c i j v cur cell on in
      let stored = refresh_stored max_tasks tab c i j low high in
      elim (dec_lt 1 j.quantum) [
        | yes more ↦
            let test : ((j.quantum + 2 ^ 32 - 1) % 2 ^ 32 == 0) ≡ false = ground arith in
            inl (
              more,
              (
                charged max_tasks tab c i j,
                refresh_current max_tasks tab frame c (c.active_jobset, i) j cur cell
                    ∙ if_false _ _ test
                    ∙ ap (λ c. ret (frame, c)) stored,
                w,
                same,
                jobs,
                left,
                refl,
              ),
            )
        | no last ↦
            let test : ((j.quantum + 2 ^ 32 - 1) % 2 ^ 32 == 0) ≡ true = ground arith in
            let (t, c', step, el, after) =
              elect_lem max_tasks tab sized small idle (charged max_tasks tab c i j) idle_last w in
            let (sp, there) = elected_known idle t c' known el in
            inr (
              omega arith,
              (
                t,
                sp,
                c',
                refresh_current max_tasks tab frame c (c.active_jobset, i) j cur cell
                    ∙ if_true _ _ test
                    ∙ (>>=-ret _ (ap (elect max_tasks tab) stored ∙ step) ∙ rw there refl),
                there,
                el,
                step,
                subst (λ q. JobsAfter tab (charged max_tasks tab c i j) q c') same after,
                jobs,
              ),
            )
      ]
