-- ===== src/Sched/Rrmq/Add.antt =====
-- `sched_rrmq_add_to_jobset` on a well-formed job set: what it adds and what it refuses.
use sentry_kernel.Base.{
  ℕ, zero, suc, ◌^◌, ◌≤◌, ◌<◌, ◌≡◌, refl, ap, ◌∙◌, ◌≢◌, ◌⊎◌, inl, inr, true, false, Option, some,
  List, [], ◌∷◌, arith, length, get_elem?, set, length-set, Run, ret, success,
}
use sentry_kernel.KTypes.{
  Kstatus, okay, error_invparam, error_badstate, JobState, notstarted, ready, JobState-discrete,
}
use sentry_kernel.Task.{TaskMeta, Task, TaskTable, get_from_handle, get_state, get_metadata}
use sentry_kernel.Sched.Rrmq.{Job, Jobset, not_in_jobset, place_checked, add_to_jobset}
use sentry_kernel.Sched.Rrmq.Jobsets.{
  count_active, occurrences, count_active-le-length, count_active-set, occurrences-set,
  not_in_jobset_lem, empty_cell_lem,
}
use sentry_kernel.Sched.Rrmq.Room.{IsUser, AllUsers, IsUnique, count_active_lacking}

-- A job set whose counter is right, which runs user tasks, none twice.
pub record JobsetIsValid (max_tasks : ℕ) (tab : TaskTable) (s : Jobset) : Type 0 where
  pub storage : length s.joblist ≡ max_tasks
  pub counted : s.num_jobs ≡ count_active s.joblist
  pub unique : IsUnique s.joblist
  pub users : AllUsers tab s.joblist

-- The job that is forged for a task.
abbrev pub job_of : ℕ → TaskMeta → Job
job_of t m = record { handler = t; priority = m.priority; quantum = m.quantum; active = true }

pub AllUsers-set :
    (tab : TaskTable) (js : List Job) (i : ℕ) (j : Job)
    → AllUsers tab js
    → (j.active ≡ false) ⊎ IsUser tab j.handler
    → AllUsers tab (set js i j)
AllUsers-set tab [] i j u h = tt
AllUsers-set tab (k ∷ js) zero j u h = (h, u.1)
AllUsers-set tab (k ∷ js) (suc i) j u h = (u.0, AllUsers-set tab js i j u.1 h)

place_checked_blocked :
    (t : ℕ) (m : Option TaskMeta) (state : JobState) (e : Kstatus) (s : Jobset)
    → state ≢ ready
    → place_checked t m state e s ≡ ret (error_invparam, s)
place_checked_blocked t m ready e s ne = absurd (ne refl)
place_checked_blocked t m notstarted e s ne = refl
place_checked_blocked t m _ e s ne = refl

module _ (max_tasks : ℕ) (tab : TaskTable) (sized : tab.numtask ≤ suc max_tasks)
    (small : max_tasks < 2 ^ 32) where
  -- The three ways in which a user task is added to a well-formed job set.
  pub data AddOutcome (t : ℕ) (s : Jobset) (r : Run (Kstatus × Jobset)) : Type 0 where
    not_ready : get_state tab t ≢ success ready → r ≡ ret (error_invparam, s) → AddOutcome t s r
    present :
        get_state tab t ≡ success ready
        → 0 < occurrences t s.joblist
        → r ≡ ret (error_badstate, s)
        → AddOutcome t s r
    added :
        get_state tab t ≡ success ready
        → occurrences t s.joblist ≡ 0
        → (m : TaskMeta) (i : ℕ) (s' : Jobset) (free : Job) → get_metadata tab t ≡ success (some m)
        → get_elem? s.joblist i ≡ some free
        → free.active ≡ false
        → s' ≡ record { num_jobs = suc s.num_jobs; joblist = set s.joblist i (job_of t m) }
        → JobsetIsValid max_tasks tab s'
        → r ≡ ret (okay, s')
        → AddOutcome t s r

  place_IsValid :
      (t i : ℕ) (m : TaskMeta) (s : Jobset) (free : Job)
      → JobsetIsValid max_tasks tab s
      → IsUser tab t
      → occurrences t s.joblist ≡ 0
      → get_elem? s.joblist i ≡ some free
      → free.active ≡ false
      → JobsetIsValid max_tasks tab
          (record { num_jobs = suc s.num_jobs; joblist = set s.joblist i (job_of t m) })
  place_IsValid t i m s free v user out cell idle = record {
    storage = length-set s.joblist i (job_of t m) ∙ v.storage;
    counted = ground (arith, count_active-set s.joblist i free (job_of t m) cell, idle, v.counted);
    unique = λ k. ground (
      arith,
      occurrences-set k s.joblist i free (job_of t m) cell,
      idle,
      v.unique k,
      ap (λ (x : ℕ). occurrences x s.joblist) {x = t} {y = k},
      out,
    );
    users = AllUsers-set tab s.joblist i (job_of t m) v.users (inr user);
  }

  add_step :
      (t : ℕ) (s : Jobset) (t0 : Task) (m : TaskMeta)
      → JobsetIsValid max_tasks tab s
      → get_from_handle tab t ≡ some t0
      → t0.metadata ≡ some m
      → add_to_jobset max_tasks tab t s
        ≡ place_checked t (some m) t0.state (not_in_jobset t s.joblist) s
  unfolding add_to_jobset get_state get_metadata
  add_step t s t0 m v f e =
      let within : s.num_jobs ≤ max_tasks = omega (arith, v, count_active-le-length s.joblist) in
      ground (arith, f, e, within)

  -- A user task is added exactly when it is ready and not yet in the set; it then takes a free cell.
  pub add_to_jobset_lem :
      (t : ℕ) (s : Jobset)
      → JobsetIsValid max_tasks tab s
      → IsUser tab t
      → AddOutcome t s (add_to_jobset max_tasks tab t s)
  unfolding get_state get_metadata
  add_to_jobset_lem t s v user =
      let (t0, m, f, e, inside) = user in
      let step = add_step t s t0 m v f e in
      elim (JobState-discrete t0.state ready) [
        | no ne ↦
            not_ready (λ h. ne (ground (arith, f, h)))
              (step ∙ place_checked_blocked t (some m) t0.state _ s ne)
        | yes is_ready ↦ elim (not_in_jobset_lem t s.joblist) [
          | inr (there, n) ↦ present (ground (arith, f, is_ready)) there (step ∙ rw (is_ready, n))
          | inl (out, n) ↦ elim (empty_cell_lem s.joblist) [
            | inl (full, _) ↦
                absurd
                  (omega (arith, v, count_active_lacking tab s.joblist t v.users v.unique user out))
            | inr (i, free, at, cell, idle) ↦
                added (ground (arith, f, is_ready)) out m i _ free (ground (arith, f, e)) cell idle
                  refl (place_IsValid t i m s free v user out cell idle)
                  (step
                    ∙ rw (is_ready, n, at)
                        (ground (
                          arith,
                          v,
                          count_active_lacking tab s.joblist t v.users v.unique user out,
                        )))
          ]
        ]
      ]
