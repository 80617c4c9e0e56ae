-- ===== src/Kernel/Valid.antt =====
-- Well-formed kernel states, and the steps the system calls are made of. The scheduler is any
-- lawful one.
use sentry_kernel.Base.{
  ℕ, ◌≡◌, refl, ◌∙◌, ◌≢◌, ◌⊎◌, inl, inr, none, Option-cases, length, ret, >>=-ret, success,
}
use sentry_kernel.KTypes.{Kstatus, JobState, Status}
use sentry_kernel.Task.{TaskTable, get_from_handle, get_sp, get_idle}
use sentry_kernel.Task.Agree.{Agree, Agree-there, set_state-Agree, set_sysreturn-Agree}
use sentry_kernel.Delay.{DelayedJobset}
use sentry_kernel.Sched.Policy.{Policy, IsLawful}
use sentry_kernel.Sched.Rrmq.Room.{IsUser}
use sentry_kernel.Kernel.{Kernel, put_state, put_sysreturn, sched_schedule, elect_next}

-- The scheduler is called for task `h`, on the tasks `tab`: its state goes from `s` to `s'`.
abbrev pub Rescheduled : {S : Type 0} → Policy S → ℕ → TaskTable → S → S → Type 0
Rescheduled p h tab s s' = (status : Kstatus) × (p.schedule tab h s ≡ ret (status, s'))

-- An election is held on the tasks `tab`, and `frame` is that of the elected task.
abbrev pub Elected : {S : Type 0} → Policy S → TaskTable → S → S → ℕ → Type 0
Elected p tab s s' frame =
    (next : ℕ) × (p.elect tab s ≡ ret (next, s')) × (get_sp tab next ≡ success frame)

module _ {S : Type 0} (p : Policy S) (IsWell : TaskTable → S → Type 0) (lawful : IsLawful p IsWell)
    (max_tasks : ℕ) where
  -- `idle` is the handle of the idle task.
  pub record KernelIsValid (idle : ℕ) (k : Kernel S) : Type 0 where
    pub well : IsWell k.tasks k.sched
    pub idle_last : get_idle k.tasks ≡ ret idle
    pub idle_known : get_from_handle k.tasks idle ≢ none
    pub jobs_storage : length k.delays.joblist ≡ max_tasks
    pub events_storage : length k.delays.evlist ≡ max_tasks

  pub tasks-IsValid :
      (idle : ℕ) (k : Kernel S) (tab : TaskTable)
      → KernelIsValid idle k
      → Agree k.tasks tab
      → KernelIsValid idle (record k { tasks = tab })
  tasks-IsValid idle k tab v a = record {
    well = lawful.stable k.tasks tab k.sched a.numtask a.metadata v.well;
    idle_last = a.idle ∙ v.idle_last;
    idle_known = Agree-there k.tasks tab idle a v.idle_known;
    jobs_storage = v.jobs_storage;
    events_storage = v.events_storage;
  }

  pub put_state-IsValid :
      (idle : ℕ) (k : Kernel S) (h : ℕ) (s : JobState)
      → KernelIsValid idle k
      → KernelIsValid idle (put_state h s k)
  put_state-IsValid idle k h s v = tasks-IsValid idle k _ v (set_state-Agree k.tasks h s)

  pub put_sysreturn-IsValid :
      (idle : ℕ) (k : Kernel S) (h : ℕ) (s : Status)
      → KernelIsValid idle k
      → KernelIsValid idle (put_sysreturn h s k)
  put_sysreturn-IsValid idle k h s v = tasks-IsValid idle k _ v (set_sysreturn-Agree k.tasks h s)

  pub delays-IsValid :
      (idle : ℕ) (k : Kernel S) (d : DelayedJobset)
      → KernelIsValid idle k
      → length d.joblist ≡ length k.delays.joblist
      → length d.evlist ≡ length k.delays.evlist
      → KernelIsValid idle (record k { delays = d })
  delays-IsValid idle k d v j e = record {
    well = v.well;
    idle_last = v.idle_last;
    idle_known = v.idle_known;
    jobs_storage = j ∙ v.jobs_storage;
    events_storage = e ∙ v.events_storage;
  }

  -- Only the scheduler's context differs.
  abbrev pub SchedOnly : Kernel S → Kernel S → Type 0
  SchedOnly k k' = (k'.tasks ≡ k.tasks) × (k'.delays ≡ k.delays)

  pub sched_schedule-IsValid :
      (idle : ℕ) (k : Kernel S) (h : ℕ)
      → KernelIsValid idle k
      → IsUser k.tasks h
      → (k' : Kernel S) × (sched_schedule p h k ≡ ret k')
        × KernelIsValid idle k'
        × SchedOnly k k'
        × Rescheduled p h k.tasks k.sched k'.sched
  sched_schedule-IsValid idle k h v user =
      let (status, s, r, w) = lawful.schedules k.tasks h k.sched v.well user in
      (
        record k { sched = s },
        rw r refl,
        record {
          well = w;
          idle_last = v.idle_last;
          idle_known = v.idle_known;
          jobs_storage = v.jobs_storage;
          events_storage = v.events_storage;
        },
        (refl, refl),
        (status, r),
      )

  elect_next_step :
      (k : Kernel S) (t sp : ℕ) (s : S)
      → p.elect k.tasks k.sched ≡ ret (t, s)
      → get_sp k.tasks t ≡ success sp
      → elect_next p k ≡ ret (sp, record k { sched = s })
  unfolding elect_next
  elect_next_step k t sp s r e = >>=-ret _ r ∙ rw e refl

  -- The frame that an election leads to belongs to the elected task, idle or a user task.
  pub elect_next-IsValid :
      (idle : ℕ) (k : Kernel S)
      → KernelIsValid idle k
      → (frame : ℕ) × (k' : Kernel S) × (elect_next p k ≡ ret (frame, k'))
        × KernelIsValid idle k'
        × SchedOnly k k'
        × ((t : ℕ) × ((t ≡ idle) ⊎ IsUser k.tasks t)
            × (get_sp k.tasks t ≡ success frame)
            × (p.elect k.tasks k.sched ≡ ret (t, k'.sched)))
        × Elected p k.tasks k.sched k'.sched frame
  unfolding get_sp
  elect_next-IsValid idle k v =
      let (t, s, r, w, kind) = lawful.elects k.tasks idle k.sched v.idle_last v.well in
      let there : get_from_handle k.tasks t ≢ none = elim kind [
        | inl e ↦ rw e v.idle_known
        | inr user ↦ rw user.2 (λ e. cc)
      ] in
      elim (Option-cases (get_from_handle k.tasks t)) [
        | inl nothing ↦ absurd (there nothing)
        | inr (task, found) ↦ (
          task.sp,
          record k { sched = s },
          elect_next_step k t task.sp s r (rw found refl),
          record {
            well = w;
            idle_last = v.idle_last;
            idle_known = v.idle_known;
            jobs_storage = v.jobs_storage;
            events_storage = v.events_storage;
          },
          (refl, refl),
          (t, kind, rw found refl, r),
          (t, r, rw found refl),
        )
      ]
