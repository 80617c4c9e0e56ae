-- ===== src/Delay.antt =====
-- The delay queues: kernel/src/managers/time/delay.c, less its ticker, which stands in Kernel/Tick.
-- The loops count with a `uint8_t`: the model is right for arrays of at most 255 cells.
pub mod Cells
pub mod Slots
use sentry_kernel.Base.{
  ℕ, zero, suc, ◌+◌, Bool, true, false, not, ◌&&◌, Option, none, some, List, [], ◌∷◌, ◌==◌,
  if◌then◌else◌, replicate, Run, ret, fault, ◌>>=◌,
}
use sentry_kernel.KTypes.{Kstatus, okay, error_busy, error_noent}

-- `task_delay_state_t`
pub record TaskDelayState : Type 0 where
  pub handler : ℕ
  pub signal : ℕ
  pub wait_time_ms : ℕ
  pub remaining_time_ms : ℕ
  pub periodic : Bool
  pub active : Bool

-- `delayed_jobset_t`
pub record DelayedJobset : Type 0 where
  pub joblist : List TaskDelayState
  pub evlist : List TaskDelayState

abbrev pub zero_delay : TaskDelayState
zero_delay = record {
  handler = 0;
  signal = 0;
  wait_time_ms = 0;
  remaining_time_ms = 0;
  periodic = false;
  active = false;
}

-- `mgr_time_delay_flush`, for the two lengths CONFIG_MAX_TASKS and CONFIG_MAX_DELAYED_EVENTS.
unfoldable pub flush : ℕ → ℕ → DelayedJobset
flush max_tasks max_events = record {
  joblist = replicate max_tasks zero_delay;
  evlist = replicate max_events zero_delay;
}

-- The first cell from index `i` on that passes a test.
unfoldable pub first_slot : (TaskDelayState → Bool) → ℕ → List TaskDelayState → Option ℕ
first_slot test i [] = none
first_slot test i (d ∷ ds) = if test d then some i else first_slot test (i + 1) ds

-- The first of the cells `i`, `i + 1`, …, `i + n - 1` that passes a test, where a cell may lie past
-- the end of the array.
unfoldable pub first_slot_within :
    (TaskDelayState → Bool) → ℕ → ℕ → List TaskDelayState → Run (Option ℕ)
first_slot_within test i zero ds = ret none
first_slot_within test i (suc n) [] = fault
first_slot_within test i (suc n) (d ∷ ds) =
    if test d then ret (some i) else first_slot_within test (i + 1) n ds

abbrev pub is_free : TaskDelayState → Bool
is_free d = not d.active

abbrev pub is_job : ℕ → TaskDelayState → Bool
is_job job d = d.active && (d.handler == job)

abbrev pub is_signal : ℕ → ℕ → TaskDelayState → Bool
is_signal job delay_ms d = d.active && (d.handler == job) && (d.wait_time_ms == delay_ms)

-- A write to the cell `i` of an array.
abbrev pub update :
    (TaskDelayState → TaskDelayState) → ℕ → List TaskDelayState → List TaskDelayState
update f i [] = []
update f zero (d ∷ ds) = f d ∷ ds
update f (suc i) (d ∷ ds) = d ∷ update f i ds

abbrev pub arm_job : ℕ → ℕ → TaskDelayState → TaskDelayState
arm_job job delay_ms d = record d {
  handler = job;
  wait_time_ms = delay_ms;
  remaining_time_ms = delay_ms;
  active = true;
}

abbrev pub arm_signal : ℕ → ℕ → ℕ → Bool → TaskDelayState → TaskDelayState
arm_signal job delay_ms sig periodic d = record {
  handler = job;
  signal = sig;
  wait_time_ms = delay_ms;
  remaining_time_ms = delay_ms;
  periodic = periodic;
  active = true;
}

abbrev pub disarm : TaskDelayState → TaskDelayState
disarm d = record d { active = false }

-- `mgr_time_delay_add_job`
unfoldable pub add_job : ℕ → ℕ → DelayedJobset → Kstatus × DelayedJobset
add_job job delay_ms c = elim (first_slot is_free 0 c.joblist) [
  | none ↦ (error_busy, c)
  | some i ↦ (okay, record c { joblist = update (arm_job job delay_ms) i c.joblist })
]

-- `mgr_time_delay_del_job`
unfoldable pub del_job : ℕ → DelayedJobset → Kstatus × DelayedJobset
del_job job c = elim (first_slot (is_job job) 0 c.joblist) [
  | none ↦ (error_noent, c)
  | some i ↦ (okay, record c { joblist = update disarm i c.joblist })
]

-- `mgr_time_delay_add_signal`
unfoldable pub add_signal : ℕ → ℕ → ℕ → Bool → DelayedJobset → Kstatus × DelayedJobset
add_signal job delay_ms sig periodic c = elim (first_slot is_free 0 c.evlist) [
  | none ↦ (error_busy, c)
  | some i ↦ (okay, record c { evlist = update (arm_signal job delay_ms sig periodic) i c.evlist })
]

-- `mgr_time_delay_del_signal`: the bound of its loop is CONFIG_MAX_TASKS.
unfoldable pub del_signal : ℕ → ℕ → ℕ → DelayedJobset → Run (Kstatus × DelayedJobset)
del_signal max_tasks job delay_ms c = do
  slot ← first_slot_within (is_signal job delay_ms) 0 max_tasks c.evlist
  elim slot [
    | none ↦ ret (error_noent, c)
    | some i ↦ ret (okay, record c { evlist = update disarm i c.evlist })
  ]
