-- ===== src/Sched/Policy.antt =====
-- What the kernel needs of a scheduler: kernel/include/sentry/sched.h, whose functions are weak
-- aliases of those of the scheduler that is built in. `S` is the scheduler's context.
use sentry_kernel.Base.{ℕ, ◌≡◌, ◌⊎◌, Run, ret, success}
use sentry_kernel.KTypes.{Kstatus, ready}
use sentry_kernel.Task.{TaskTable, get_state, get_metadata, get_idle}
use sentry_kernel.Task.Accessors.{Keeps}
use sentry_kernel.Sched.Rrmq.Room.{IsUser}

pub record Policy (S : Type 0) : Type 0 where
  pub schedule : TaskTable → ℕ → S → Run (Kstatus × S)
  pub elect : TaskTable → S → Run (ℕ × S)
  pub current : TaskTable → S → Run ℕ

-- What it promises, on the contexts that are well formed for a task table.
pub record IsLawful {S : Type 0} (p : Policy S) (IsWell : TaskTable → S → Type 0) : Type 1 where
  -- Only the metadata of tasks matters, not their state.
  pub stable :
      (tab tab' : TaskTable) (s : S)
      → tab'.numtask ≡ tab.numtask
      → Keeps get_metadata tab tab'
      → IsWell tab s
      → IsWell tab' s
  -- A user task can be scheduled, and the scheduler's state stays well formed.
  pub schedules :
      (tab : TaskTable) (t : ℕ) (s : S)
      → IsWell tab s
      → IsUser tab t
      → (status : Kstatus) × (s' : S) × (p.schedule tab t s ≡ ret (status, s')) × IsWell tab s'
  -- An election returns, whatever the state of the tasks.
  pub elects :
      (tab : TaskTable) (idle : ℕ) (s : S)
      → get_idle tab ≡ ret idle
      → IsWell tab s
      → (t : ℕ) × (s' : S) × (p.elect tab s ≡ ret (t, s'))
        × IsWell tab s'
        × ((t ≡ idle) ⊎ IsUser tab t)
  -- A ready user task that has been scheduled is not left behind by the idle task: the next election
  -- names a user task.
  pub serves :
      (tab : TaskTable) (idle t u : ℕ) (s s1 s2 : S) (status : Kstatus)
      → get_idle tab ≡ ret idle
      → IsWell tab s
      → IsUser tab t
      → get_state tab t ≡ success ready
      → p.schedule tab t s ≡ ret (status, s1)
      → p.elect tab s1 ≡ ret (u, s2)
      → IsUser tab u
  -- The current job is idle or a user task.
  pub currents :
      (tab : TaskTable) (idle : ℕ) (s : S)
      → get_idle tab ≡ ret idle
      → IsWell tab s
      → (t : ℕ) × (p.current tab s ≡ ret t) × ((t ≡ idle) ⊎ IsUser tab t)
