-- ===== src/Sched/Rrmq/Lawful.antt =====
-- `sched_rrmq` as an instance of the interface of Sched/Policy.
use sentry_kernel.Base.{
  ℕ, suc, ◌^◌, ◌≤◌, ◌<◌, ◌≡◌, refl, sym, ◌∙◌, subst, ◌⊎◌, inl, inr, Option, none, some, List, [],
  ◌∷◌, arith, Option-cases, ret, success,
}
use sentry_kernel.KTypes.{Kstatus, ready}
use sentry_kernel.Task.{
  TaskMeta, Task, TaskTable, get_from_handle, get_state, get_metadata, get_idle,
}
use sentry_kernel.Task.Accessors.{Keeps}
use sentry_kernel.Sched.Policy.{Policy, IsLawful}
use sentry_kernel.Sched.Rrmq.{
  Job, JobsetName, Context, jobset_at, job_at, schedule, elect, get_current,
}
use sentry_kernel.Sched.Rrmq.Room.{IsUser, AllUsers, AllUsers-get}
use sentry_kernel.Sched.Rrmq.Invariant.{SetsAreValid, CurrentIsActive, IsValid}
use sentry_kernel.Sched.Rrmq.Schedule.{schedule_lem}
use sentry_kernel.Sched.Rrmq.Elect.{JobsAfter, elect_lem}
use sentry_kernel.Sched.Rrmq.Jobsets.{occurrences}
use sentry_kernel.Sched.Rrmq.Retire.{jobs_of, jobs_of_at}

abbrev pub policy : ℕ → Policy Context
policy max_tasks = record {
  schedule = schedule max_tasks;
  elect = elect max_tasks;
  current = get_current;
}

abbrev pub IsWell : ℕ → TaskTable → Context → Type 0
IsWell max_tasks tab c = IsValid max_tasks tab c × (tab.numtask ≤ suc max_tasks)

get_metadata-found :
    (tab : TaskTable) (h : ℕ) (m : TaskMeta)
    → get_metadata tab h ≡ success (some m)
    → (t : Task) × (get_from_handle tab h ≡ some t) × (t.metadata ≡ some m)
unfolding get_metadata
get_metadata-found tab h m e = elim (Option-cases (get_from_handle tab h)) [
  | inl nothing ↦ absurd (ground (arith, nothing))
  | inr (t, f) ↦ (t, f, ground (arith, f))
]

module _ (tab tab' : TaskTable) (n : tab'.numtask ≡ tab.numtask)
    (keeps : Keeps get_metadata tab tab') where
  pub IsUser-stable : (h : ℕ) → IsUser tab h → IsUser tab' h
  unfolding get_metadata
  IsUser-stable h (t, m, f, e, inside) =
      let seen : get_metadata tab' h ≡ success (some m) = keeps h ∙ ground (arith, f, e) in
      let (t', f', e') = get_metadata-found tab' h m seen in (t', m, f', e', rw n inside)

  AllUsers-stable : (js : List Job) → AllUsers tab js → AllUsers tab' js
  AllUsers-stable [] u = tt
  AllUsers-stable (j ∷ js) (u, us) = (
    (elim u [ inl off ↦ inl off | inr user ↦ inr (IsUser-stable j.handler user) ]),
    AllUsers-stable js us,
  )

  IsValid-stable :
      (max_tasks : ℕ) (c : Context) → IsValid max_tasks tab c → IsValid max_tasks tab' c
  IsValid-stable max_tasks c v = record {
    sets = record {
      valid = λ k.
          let w = v.sets.valid k in
          record {
            storage = w.storage;
            counted = w.counted;
            unique = w.unique;
            users = AllUsers-stable (jobset_at c k).joblist w.users;
          };
      opposite = v.sets.opposite;
    };
    current = v.current;
  }

-- The current job of a valid context is idle or a user task.
current_of :
    (max_tasks : ℕ) (tab : TaskTable) (idle : ℕ) (c : Context) (o : Option (JobsetName × ℕ))
    → get_idle tab ≡ ret idle
    → SetsAreValid max_tasks tab c
    → c.current_job ≡ o
    → CurrentIsActive c o
    → (t : ℕ) × (get_current tab c ≡ ret t) × ((t ≡ idle) ⊎ IsUser tab t)
unfolding get_current
current_of max_tasks tab idle c none e v cur h = (idle, rw (e, cur) refl, inl refl)
current_of max_tasks tab idle c (some (n, i)) e v cur (at, j, g, a) =
    let there : job_at c (n, i) ≡ some j = rw at g in
    (
      j.handler,
      rw (e, cur, there) refl,
      inr (AllUsers-get tab _ i j (v.valid c.active_jobset).users g a),
    )

module _ (max_tasks : ℕ) (tab : TaskTable) (sized : tab.numtask ≤ suc max_tasks)
    (small : max_tasks < 2 ^ 32) where
  -- A ready user task has a job once it has been scheduled, whatever the status is.
  scheduled-jobs :
      (t : ℕ) (c c1 : Context) (status : Kstatus)
      → IsValid max_tasks tab c
      → IsUser tab t
      → get_state tab t ≡ success ready
      → schedule max_tasks tab t c ≡ ret (status, c1)
      → IsValid max_tasks tab c1 × (0 < jobs_of t c1)
  scheduled-jobs t c c1 status v user is_ready run =
      let (st, c', r, v', cur, act, back, effect) =
        schedule_lem max_tasks tab sized small t c v user in
      let same : c' ≡ c1 = cc in
      let count = jobs_of_at t c' c.active_jobset in
      let held : 0 < occurrences t (jobset_at c' c.active_jobset).joblist = elim effect [
        | inl (good, there, out, adds) ↦ ground (arith, adds t)
        | inr (bad, kept, inl blocked) ↦ absurd (blocked is_ready)
        | inr (bad, kept, inr there) ↦ rw kept there
      ] in
      subst (λ c. IsValid max_tasks tab c × (0 < jobs_of t c)) same (v', omega (arith, count, held))

  -- A ready task that has a job keeps one in an election.
  kept_job :
      (t : ℕ) (c c' : Context) (p : Option (JobsetName × ℕ))
      → get_state tab t ≡ success ready
      → 0 < jobs_of t c
      → JobsAfter tab c p c'
      → 0 < jobs_of t c'
  kept_job t c c' none is_ready has after = omega (arith, has, after t)
  kept_job t c c' (some (n, i)) is_ready has (j, cell, others, fate) = elim (others t) [
    | inr same ↦ omega (arith, has, same)
    | inl own ↦ elim fate [
      | inl (there, one) ↦ subst (λ h. 0 < jobs_of h c') (sym own) (omega (arith, one))
      | inr (gone, _) ↦ absurd (gone (subst (λ h. get_state tab h ≡ success ready) own is_ready))
    ]
  ]

  rrmq_serves :
      (idle t u : ℕ) (c c1 c2 : Context) (status : Kstatus)
      → get_idle tab ≡ ret idle
      → IsValid max_tasks tab c
      → IsUser tab t
      → get_state tab t ≡ success ready
      → schedule max_tasks tab t c ≡ ret (status, c1)
      → elect max_tasks tab c1 ≡ ret (u, c2)
      → IsUser tab u
  rrmq_serves idle t u c c1 c2 status e v user is_ready run next =
      let (v1, has) = scheduled-jobs t c c1 status v user is_ready run in
      let (u', c', r, el, after) = elect_lem max_tasks tab sized small idle c1 e v1 in
      let same : u' ≡ u = cc in
      let left = kept_job t c1 c' c1.current_job is_ready has after in
      elim el.choice [
        | inl (_, _, nothing) ↦ absurd (omega (arith, left, nothing t))
        | inr (k, j, named, cur, chosen) ↦ subst (IsUser tab) (sym named ∙ same) (
            AllUsers-get tab _ k j (el.valid.sets.valid c'.active_jobset).users chosen.cell
              chosen.active)
      ]

-- `sched_rrmq` is a lawful scheduler, for a table that fits CONFIG_MAX_TASKS: scheduling a user task
-- returns and keeps the job sets well formed, and when that task is ready the next election names a
-- user task, not idle; an election and the query of the current job always return and name idle or a
-- user task, and the election keeps the job sets well formed; well-formedness does not depend on the
-- tasks' states.
pub policy-IsLawful :
    (max_tasks : ℕ) → max_tasks < 2 ^ 32 → IsLawful (policy max_tasks) (IsWell max_tasks)
policy-IsLawful max_tasks small = record {
  stable =
      λ tab tab' c n keeps (v, sized). (IsValid-stable tab tab' n keeps max_tasks c v, rw n sized);
  schedules = λ tab t c (v, sized) user.
      let r = schedule_lem max_tasks tab sized small t c v user in (r.0, r.1, r.2, (r.3, sized));
  elects = λ tab idle c e (v, sized).
      let (t, c', r, el, after) = elect_lem max_tasks tab sized small idle c e v in
      (
        t,
        c',
        r,
        (el.valid, sized),
        (elim el.choice [
          | inl choice ↦ inl choice.0
          | inr (k, j, same, cur, chosen) ↦ inr (
              rw same (
                AllUsers-get tab _ k j (el.valid.sets.valid c'.active_jobset).users chosen.cell
                  chosen.active))
        ]),
      );
  serves = λ tab idle t u c c1 c2 status e (v, sized) user is_ready run next.
      rrmq_serves max_tasks tab sized small idle t u c c1 c2 status e v user is_ready run next;
  currents = λ tab idle c e (v, sized).
      current_of max_tasks tab idle c c.current_job e v.sets refl v.current;
}
