-- ===== src/Sched/Rrmq/Elect.antt =====
-- `sched_rrmq_elect` on a valid context: what is elected, and the jobs before and after.
use sentry_kernel.Base.{
  ℕ, suc, ◌+◌, ◌^◌, ◌≤◌, ◌<◌, ◌≡◌, refl, sym, ap, ◌∙◌, ◌≢◌, ◌⊎◌, inl, inr, Option, none, some,
  arith, get_elem?, ret, success,
}
use sentry_kernel.KTypes.{ready}
use sentry_kernel.Task.{TaskTable, get_state, get_idle}
use sentry_kernel.Sched.Rrmq.{
  Job, JobsetName, primary_set, secondary_set, Context, jobset_at, job_at, swap_to, swap_tables,
  elect_from, swap_if_empty, retire, elect,
}
use sentry_kernel.Sched.Rrmq.Jobsets.{occurrences-le-count_active}
use sentry_kernel.Sched.Rrmq.Select.{IsElected, select_lem}
use sentry_kernel.Sched.Rrmq.Invariant.{other, SetsAreValid, CurrentIsActive, IsValid}
use sentry_kernel.Sched.Rrmq.Retire.{jobs_of, retire_lem}
use native.Mathlib.Decide.{ℕ_discrete}

-- What an election hands back: a valid context, and either idle, when no set has a job left, or the
-- first active job of the highest priority of the active set, which becomes the current job.
pub record IsElection (max_tasks : ℕ) (tab : TaskTable) (idle t : ℕ) (c : Context) : Type 0 where
  pub valid : IsValid max_tasks tab c
  pub choice :
      ((t ≡ idle) × (c.current_job ≡ none) × ((h : ℕ) → jobs_of h c ≡ 0))
      ⊎ ((k : ℕ) × (j : Job) × (t ≡ j.handler)
          × (c.current_job ≡ some (c.active_jobset, k))
          × IsElected (jobset_at c c.active_jobset).joblist k j)

abbrev SameSets : Context → Context → Type 0
SameSets c c' = (c'.primary ≡ c.primary) × (c'.secondary ≡ c.secondary)

swapped :
    (c : Context) (n : JobsetName)
    → c.active_jobset ≡ n
    → swap_tables c ≡ record c { active_jobset = other n; backed_jobset = n }
unfolding swap_tables other
swapped c primary_set e = rw (e, swap_to)
swapped c secondary_set e = rw (e, swap_to)

other-other : (n : JobsetName) → other (other n) ≡ n
unfolding other
other-other primary_set = refl
other-other secondary_set = refl

both_empty :
    (c : Context) (n : JobsetName)
    → (jobset_at c n).num_jobs ≡ 0
    → (jobset_at c (other n)).num_jobs ≡ 0
    → (c.primary.num_jobs ≡ 0) × (c.secondary.num_jobs ≡ 0)
unfolding other
both_empty c primary_set a b = (a, b)
both_empty c secondary_set a b = (b, a)

jobset_at-slots :
    (c : Context) (n m k : JobsetName) (p : Option (JobsetName × ℕ))
    → jobset_at (record c { active_jobset = n; backed_jobset = m; current_job = p }) k
      ≡ jobset_at c k
jobset_at-slots c n m primary_set p = refl
jobset_at-slots c n m secondary_set p = refl

module _ (max_tasks : ℕ) (tab : TaskTable) where
  with_slots :
      (c : Context) (n m : JobsetName) (p : Option (JobsetName × ℕ))
      → SetsAreValid max_tasks tab c
      → m ≡ other n
      → SetsAreValid max_tasks tab
          (record c { active_jobset = n; backed_jobset = m; current_job = p })
  with_slots c n m p v e = record {
    valid = elim [ primary_set ↦ v.valid primary_set | secondary_set ↦ v.valid secondary_set ];
    opposite = e;
  }

  swap_if_empty_lem :
      (c : Context)
      → SetsAreValid max_tasks tab c
      → SetsAreValid max_tasks tab (swap_if_empty c)
        × SameSets c (swap_if_empty c)
        × (((jobset_at (swap_if_empty c) (swap_if_empty c).active_jobset).num_jobs ≢ 0)
            ⊎ ((c.primary.num_jobs ≡ 0) × (c.secondary.num_jobs ≡ 0)))
  unfolding swap_if_empty
  swap_if_empty_lem c v = elim (ℕ_discrete (jobset_at c c.active_jobset).num_jobs 0) [
    | no left ↦ let same : swap_if_empty c ≡ c = ground arith in rw same (v, (refl, refl), inl left)
    | yes z ↦
        let n = c.active_jobset in
        let c' = record c { active_jobset = other n; backed_jobset = n } in
        let same : swap_if_empty c ≡ c' = ground (arith, swapped c n refl) in
        rw same (
          with_slots c (other n) n c.current_job v (sym (other-other n)),
          (refl, refl),
          (elim (ℕ_discrete (jobset_at c (other n)).num_jobs 0) [
            | yes z' ↦ inr (both_empty c n z z')
            | no left ↦ inl (rw (jobset_at-slots c (other n) n (other n) c.current_job) left)
          ]),
        )
  ]

  none_left :
      (c : Context)
      → SetsAreValid max_tasks tab c
      → (c.primary.num_jobs ≡ 0) × (c.secondary.num_jobs ≡ 0)
      → (h : ℕ) → jobs_of h c ≡ 0
  unfolding jobs_of
  none_left c v z h = omega (
    arith,
    (v.valid primary_set).counted,
    (v.valid secondary_set).counted,
    occurrences-le-count_active h c.primary.joblist,
    occurrences-le-count_active h c.secondary.joblist,
  )

  elect_from_lem :
      (idle : ℕ) (c : Context)
      → SetsAreValid max_tasks tab c
      → ((jobset_at c c.active_jobset).num_jobs ≢ 0)
        ⊎ ((c.primary.num_jobs ≡ 0) × (c.secondary.num_jobs ≡ 0))
      → IsElection max_tasks tab idle (elect_from idle c).0 (elect_from idle c).1
        × SameSets c (elect_from idle c).1
  unfolding elect_from
  elect_from_lem idle c v h = elim (ℕ_discrete (jobset_at c c.active_jobset).num_jobs 0) [
    | yes z ↦
        let all_empty : (c.primary.num_jobs ≡ 0) × (c.secondary.num_jobs ≡ 0) = elim h [
          | inl left ↦ absurd (left z)
          | inr e ↦ e
        ] in
        let c' = record c { current_job = none } in
        let same : elect_from idle c ≡ (idle, c') = ground arith in
        rw same (
          record {
            valid = record {
              sets = with_slots c c.active_jobset c.backed_jobset none v v.opposite;
              current = tt;
            };
            choice = inl (refl, refl, unfold jobs_of in none_left c v all_empty);
          },
          (refl, refl),
        )
    | no left ↦ elim (select_lem 0 (jobset_at c c.active_jobset).joblist) [
      | inl (z, _) ↦ absurd (left ((v.valid c.active_jobset).counted ∙ z))
      | inr (m, j, _, e, el) ↦
          let p : Option (JobsetName × ℕ) = some (c.active_jobset, m) in
          let c' = record c { current_job = p } in
          let at : 0 + m ≡ m = omega arith in
          let same : elect_from idle c ≡ (j.handler, c') = ground (arith, e, at, left) in
          let list = jobset_at-slots c c.active_jobset c.backed_jobset c.active_jobset p in
          rw same (
            record {
              valid = record {
                sets = with_slots c c.active_jobset c.backed_jobset p v v.opposite;
                current = (refl, j, rw list el.cell, el.active);
              };
              choice = inr (m, j, refl, refl, rw list el);
            },
            (refl, refl),
          )
    ]
  ]

-- How the jobs of the tasks differ after an election: those of the task that was running are gone,
-- but for one in the next time slot if it is ready, and every other task keeps its own.
abbrev pub JobsAfter : TaskTable → Context → Option (JobsetName × ℕ) → Context → Type 0
JobsAfter tab c none c' = (h : ℕ) → jobs_of h c' ≡ jobs_of h c
JobsAfter tab c (some (n, i)) c' =
    (j : Job) × (get_elem? (jobset_at c n).joblist i ≡ some j)
    × ((h : ℕ) → (h ≡ j.handler) ⊎ (jobs_of h c' ≡ jobs_of h c))
    × (((get_state tab j.handler ≡ success ready) × (jobs_of j.handler c' ≡ 1))
        ⊎ ((get_state tab j.handler ≢ success ready)
            × (jobs_of j.handler c' + 1 ≡ jobs_of j.handler c)))

module _ (max_tasks : ℕ) (tab : TaskTable) (sized : tab.numtask ≤ suc max_tasks)
    (small : max_tasks < 2 ^ 32) where
  finish :
      (idle : ℕ) (c : Context)
      → SetsAreValid max_tasks tab c
      → (t : ℕ) × (c' : Context) × (elect_from idle (swap_if_empty c) ≡ (t, c'))
        × IsElection max_tasks tab idle t c'
        × ((h : ℕ) → jobs_of h c' ≡ jobs_of h c)
  unfolding jobs_of
  finish idle c v =
      let (v', (p, s), h) = swap_if_empty_lem max_tasks tab c v in
      let h' : ((jobset_at (swap_if_empty c) (swap_if_empty c).active_jobset).num_jobs ≢ 0)
          ⊎ (((swap_if_empty c).primary.num_jobs ≡ 0)
              × ((swap_if_empty c).secondary.num_jobs ≡ 0)) =
        elim h [ inl left ↦ inl left | inr (a, b) ↦ inr (rw p a, rw s b) ] in
      let (el, (p', s')) = elect_from_lem max_tasks tab idle (swap_if_empty c) v' h' in
      let r = elect_from idle (swap_if_empty c) in (r.0, r.1, refl, el, λ k. rw (p', s', p, s))

  elect_step :
      (idle : ℕ) (c c2 : Context) (p : JobsetName × ℕ)
      → get_idle tab ≡ ret idle
      → c.current_job ≡ some p
      → retire max_tasks tab p (job_at c p) c ≡ ret c2
      → elect max_tasks tab c ≡ ret (elect_from idle (swap_if_empty c2))
  unfolding elect
  elect_step idle c c2 p e cur step = rw (e, cur, step) refl

  elect_from_current :
      (idle : ℕ) (c : Context) (p : Option (JobsetName × ℕ))
      → get_idle tab ≡ ret idle
      → SetsAreValid max_tasks tab c
      → c.current_job ≡ p
      → CurrentIsActive c p
      → (t : ℕ) × (c' : Context) × (elect max_tasks tab c ≡ ret (t, c'))
        × IsElection max_tasks tab idle t c'
        × JobsAfter tab c p c'
  unfolding elect
  elect_from_current idle c none e v cur h =
      let (t, c', r, el, same) = finish idle c v in (t, c', rw (e, cur) (ap ret r), el, same)
  elect_from_current idle c (some (n, i)) e v cur (at, j, g, a) =
      let (c2, step, gone) = retire_lem max_tasks tab sized small c i j v g a in
      let (t, c', r, el, same) = finish idle c2 gone.sets in
      let read : job_at c (n, i) ≡ some j = rw at g in
      (
        t,
        c',
        elect_step idle c c2 (n, i) e cur (rw (read, at) step) ∙ ap ret r,
        el,
        (
          j,
          rw at g,
          (λ h. elim (ℕ_discrete h j.handler) [
            | yes e ↦ inl e
            | no ne ↦ inr (same h ∙ gone.others h ne)
          ]),
          (elim gone.fate [
            | inl (a, b) ↦ inl (a, same j.handler ∙ b)
            | inr (a, b) ↦ inr (a, rw (same j.handler) b)
          ]),
        ),
      )

  -- On a valid context an election neither panics nor faults. It returns idle only when no task has an
  -- active job left, otherwise the first job of the highest priority in the active set, and it loses
  -- no job of the tasks that were not running; a running task that is still ready keeps exactly one.
  pub elect_lem :
      (idle : ℕ) (c : Context)
      → get_idle tab ≡ ret idle
      → IsValid max_tasks tab c
      → (t : ℕ) × (c' : Context) × (elect max_tasks tab c ≡ ret (t, c'))
        × IsElection max_tasks tab idle t c'
        × JobsAfter tab c c.current_job c'
  elect_lem idle c e v = elect_from_current idle c c.current_job e v.sets refl v.current
