-- ===== src/Delay/Slots.antt =====
-- `mgr_time_delay_add_job`, `del_job`, `add_signal` and `del_signal` against the list of the armed
-- delays.
use sentry_kernel.Base.{ℕ, ◌≡◌, refl, sym, ◌⊎◌, inl, inr, Bool, true, arith, length, ret}
use sentry_kernel.Delay.{
  TaskDelayState, DelayedJobset, is_free, is_job, is_signal, update, arm_job, arm_signal, disarm,
  add_job, del_job, add_signal, del_signal,
}
use sentry_kernel.Delay.Cells.{
  armed, NoneOf, Inserted, AtFirst, Found-AtFirst, first_slot_start, first_slot_within_lem, full,
  arm-Found, disarm-Found,
}
use sentry_kernel.KTypes.{okay, error_busy, error_noent}

is_job_lem :
    (job : ℕ) (d : TaskDelayState) → is_job job d ≡ true → (d.active ≡ true) × (d.handler ≡ job)
is_job_lem job d h = ground arith

is_signal_lem :
    (job delay_ms : ℕ) (d : TaskDelayState)
    → is_signal job delay_ms d ≡ true
    → (d.active ≡ true) × (d.handler ≡ job) × (d.wait_time_ms ≡ delay_ms)
is_signal_lem job delay_ms d h = ground arith

-- A delay of `delay_ms` that was just armed for a task.
pub record IsArmedFor (job delay_ms : ℕ) (d : TaskDelayState) : Type 0 where
  pub handler : d.handler ≡ job
  pub wait_time : d.wait_time_ms ≡ delay_ms
  pub remaining_time : d.remaining_time_ms ≡ delay_ms
  pub active : d.active ≡ true

-- A delayed job takes the first free cell, the other cells are kept, and it is one more armed job;
-- with no free cell nothing changes and the status is K_ERROR_BUSY. The delayed signals are left alone.
pub add_job_lem :
    (job delay_ms : ℕ) (c : DelayedJobset)
    → ((d : TaskDelayState) × (c' : DelayedJobset) × (add_job job delay_ms c ≡ (okay, c'))
        × (c'.evlist ≡ c.evlist)
        × IsArmedFor job delay_ms d
        × Inserted d (armed c.joblist) (armed c'.joblist)
        × AtFirst is_free d c.joblist c'.joblist)
      ⊎ ((add_job job delay_ms c ≡ (error_busy, c)) × (armed c.joblist ≡ c.joblist))
unfolding add_job
add_job_lem job delay_ms c = elim (first_slot_start is_free (arm_job job delay_ms) c.joblist) [
  | inl (s, nowhere) ↦ inr (rw (add_job, s) refl, full c.joblist nowhere)
  | inr (m, s, found) ↦ inl (
    arm_job job delay_ms found.cell,
    record c { joblist = update (arm_job job delay_ms) m c.joblist },
    rw (add_job, s) refl,
    refl,
    record { handler = refl; wait_time = refl; remaining_time = refl; active = refl },
    arm-Found (arm_job job delay_ms) c.joblist m found refl,
    Found-AtFirst is_free (arm_job job delay_ms) c.joblist m found,
  )
]

-- Deleting a delayed job disarms the first one of that task, the other cells and the delayed signals are
-- kept; with none of that task armed nothing changes and the status is K_ERROR_NOENT.
pub del_job_lem :
    (job : ℕ) (c : DelayedJobset)
    → ((d : TaskDelayState) × (c' : DelayedJobset) × (del_job job c ≡ (okay, c'))
        × (d.handler ≡ job)
        × (c'.evlist ≡ c.evlist)
        × Inserted d (armed c'.joblist) (armed c.joblist)
        × AtFirst (is_job job) (disarm d) c.joblist c'.joblist)
      ⊎ ((del_job job c ≡ (error_noent, c)) × NoneOf (is_job job) c.joblist)
unfolding del_job
del_job_lem job c = elim (first_slot_start (is_job job) disarm c.joblist) [
  | inl (s, nowhere) ↦ inr (rw (del_job, s) refl, nowhere)
  | inr (m, s, found) ↦
      let (a, e) = is_job_lem job found.cell found.passes in
      inl (
        found.cell,
        record c { joblist = update disarm m c.joblist },
        rw (del_job, s) refl,
        e,
        refl,
        disarm-Found (is_job job) c.joblist m found a,
        Found-AtFirst (is_job job) disarm c.joblist m found,
      )
]

-- Deleting a delayed signal does the same with the task and the delay it was armed with, when the
-- array has exactly CONFIG_MAX_TASKS cells.
pub del_signal_lem :
    (max_tasks job delay_ms : ℕ) (c : DelayedJobset)
    → length c.evlist ≡ max_tasks
    → ((d : TaskDelayState) × (c' : DelayedJobset) × (del_signal max_tasks job delay_ms c
          ≡ ret (okay, c'))
        × (d.handler ≡ job)
        × (d.wait_time_ms ≡ delay_ms)
        × (c'.joblist ≡ c.joblist)
        × Inserted d (armed c'.evlist) (armed c.evlist))
      ⊎ ((del_signal max_tasks job delay_ms c ≡ ret (error_noent, c))
          × NoneOf (is_signal job delay_ms) c.evlist)
unfolding del_signal
del_signal_lem max_tasks job delay_ms c e =
    let within = first_slot_within_lem (is_signal job delay_ms) disarm 0 c.evlist in
    elim (first_slot_start (is_signal job delay_ms) disarm c.evlist) [
      | inl (s, nowhere) ↦ inr (rw (sym e, within, s) refl, nowhere)
      | inr (m, s, found) ↦
          let (a, h, w) = is_signal_lem job delay_ms found.cell found.passes in
          inl (
            found.cell,
            record c { evlist = update disarm m c.evlist },
            rw (sym e, within, s) refl,
            h,
            w,
            refl,
            disarm-Found (is_signal job delay_ms) c.evlist m found a,
          )
    ]

-- A delayed signal takes the first free cell and is one more armed signal, with its number and its
-- periodicity; with no free cell nothing changes and the status is K_ERROR_BUSY. The delayed jobs are
-- left alone.
pub add_signal_lem :
    (job delay_ms sig : ℕ) (periodic : Bool) (c : DelayedJobset)
    → ((d : TaskDelayState) × (c' : DelayedJobset) × (add_signal job delay_ms sig periodic c
          ≡ (okay, c'))
        × (c'.joblist ≡ c.joblist)
        × IsArmedFor job delay_ms d
        × (d.signal ≡ sig)
        × (d.periodic ≡ periodic)
        × Inserted d (armed c.evlist) (armed c'.evlist))
      ⊎ ((add_signal job delay_ms sig periodic c ≡ (error_busy, c)) × (armed c.evlist ≡ c.evlist))
unfolding add_signal
add_signal_lem job delay_ms sig periodic c =
    let f = arm_signal job delay_ms sig periodic in
    elim (first_slot_start is_free f c.evlist) [
      | inl (s, nowhere) ↦ inr (rw (add_signal, s) refl, full c.evlist nowhere)
      | inr (m, s, found) ↦ inl (
        f found.cell,
        record c { evlist = update f m c.evlist },
        rw (add_signal, s) refl,
        refl,
        record { handler = refl; wait_time = refl; remaining_time = refl; active = refl },
        refl,
        refl,
        arm-Found f c.evlist m found refl,
      )
    ]
