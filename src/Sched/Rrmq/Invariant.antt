-- ===== src/Sched/Rrmq/Invariant.antt =====
-- The scheduler context of sched_rrmq.c: its invariant.
use sentry_kernel.Base.{
  ℕ, zero, suc, ◌≡◌, refl, sym, ◌≢◌, inl, true, Option, none, some, arith, get_elem?, replicate,
  length-replicate,
}
use sentry_kernel.Task.{TaskTable}
use sentry_kernel.Sched.Rrmq.{
  Job, Jobset, JobsetName, primary_set, secondary_set, Context, jobset_at, set_jobset, zero_job,
  zero_jobset, init,
}
use sentry_kernel.Sched.Rrmq.Jobsets.{count_active, occurrences}
use sentry_kernel.Sched.Rrmq.Room.{AllUsers}
use sentry_kernel.Sched.Rrmq.Add.{JobsetIsValid}

unfoldable pub other : JobsetName → JobsetName
other primary_set = secondary_set
other secondary_set = primary_set

pub other-ne : (n : JobsetName) → other n ≢ n
unfolding other
other-ne primary_set e = cc
other-ne secondary_set e = cc

pub jobset_at-set_self :
    (c : Context) (n : JobsetName) (s : Jobset) → jobset_at (set_jobset c n s) n ≡ s
jobset_at-set_self c primary_set s = refl
jobset_at-set_self c secondary_set s = refl

pub jobset_at-set_other :
    (c : Context) (n m : JobsetName) (s : Jobset)
    → n ≢ m
    → jobset_at (set_jobset c n s) m ≡ jobset_at c m
jobset_at-set_other c primary_set primary_set s ne = absurd (ne refl)
jobset_at-set_other c primary_set secondary_set s ne = refl
jobset_at-set_other c secondary_set primary_set s ne = refl
jobset_at-set_other c secondary_set secondary_set s ne = absurd (ne refl)

-- A store to a job set leaves the other fields of the context alone.
pub set_jobset_fields :
    (c : Context) (n : JobsetName) (s : Jobset)
    → ((set_jobset c n s).active_jobset ≡ c.active_jobset)
      × ((set_jobset c n s).backed_jobset ≡ c.backed_jobset)
      × ((set_jobset c n s).current_job ≡ c.current_job)
set_jobset_fields c primary_set s = (refl, refl, refl)
set_jobset_fields c secondary_set s = (refl, refl, refl)

-- Storing the set that is there changes nothing.
pub set_jobset_same : (c : Context) (n : JobsetName) → set_jobset c n (jobset_at c n) ≡ c
set_jobset_same c primary_set = refl
set_jobset_same c secondary_set = refl

-- The two job sets are well formed, and the backed set is not the active one.
pub record SetsAreValid (max_tasks : ℕ) (tab : TaskTable) (c : Context) : Type 0 where
  pub valid : (n : JobsetName) → JobsetIsValid max_tasks tab (jobset_at c n)
  pub opposite : c.backed_jobset ≡ other c.active_jobset

-- The current job, if there is one, is an active job of the active set.
abbrev pub CurrentIsActive : Context → Option (JobsetName × ℕ) → Type 0
CurrentIsActive c none = Unit
CurrentIsActive c (some (n, i)) =
    (n ≡ c.active_jobset)
    × (j : Job) × (get_elem? (jobset_at c c.active_jobset).joblist i ≡ some j)
    × (j.active ≡ true)

pub record IsValid (max_tasks : ℕ) (tab : TaskTable) (c : Context) : Type 0 where
  pub sets : SetsAreValid max_tasks tab c
  pub current : CurrentIsActive c c.current_job

module _ (max_tasks : ℕ) (tab : TaskTable) where
  pub set_jobset-SetsAreValid :
      (c : Context) (n : JobsetName) (s : Jobset)
      → SetsAreValid max_tasks tab c
      → JobsetIsValid max_tasks tab s
      → SetsAreValid max_tasks tab (set_jobset c n s)
  set_jobset-SetsAreValid c primary_set s v w = record {
    valid = elim [ primary_set ↦ w | secondary_set ↦ v.valid secondary_set ];
    opposite = v.opposite;
  }
  set_jobset-SetsAreValid c secondary_set s v w = record {
    valid = elim [ primary_set ↦ v.valid primary_set | secondary_set ↦ w ];
    opposite = v.opposite;
  }

  empty-AllUsers : (n : ℕ) → AllUsers tab (replicate n zero_job)
  empty-AllUsers zero = tt
  empty-AllUsers (suc n) = (inl refl, empty-AllUsers n)

  empty_counts :
      (t n : ℕ)
      → (count_active (replicate n zero_job) ≡ 0) × (occurrences t (replicate n zero_job) ≡ 0)
  unfolding count_active occurrences
  empty_counts t zero = (refl, refl)
  empty_counts t (suc n) = ground (arith, empty_counts t n)

  zero_jobset-IsValid : JobsetIsValid max_tasks tab (zero_jobset max_tasks)
  zero_jobset-IsValid = record {
    storage = length-replicate max_tasks zero_job;
    counted = sym (empty_counts 0 max_tasks).0;
    unique = λ t. omega (arith, (empty_counts t max_tasks).1);
    users = empty-AllUsers max_tasks;
  }

  -- The context of `sched_rrmq_init` is valid.
  pub init-IsValid : IsValid max_tasks tab (init max_tasks)
  unfolding init other
  init-IsValid = record {
    sets = record {
      valid = elim [ primary_set ↦ zero_jobset-IsValid | secondary_set ↦ zero_jobset-IsValid ];
      opposite = refl;
    };
    current = tt;
  }
