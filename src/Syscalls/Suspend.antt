-- ===== src/Syscalls/Suspend.antt =====
-- Suspending the current task, and `gate_sleep`, on a well-formed kernel, with any lawful scheduler.
use sentry_kernel.Base.{
  ℕ, ◌≤◌, ◌<◌, ◌≡◌, refl, sym, ap, ◌∙◌, subst, ◌≢◌, ◌⊎◌, inl, inr, false, none, arith, ltb, ◌==◌,
  if◌then◌else◌, Option-cases, length, ret, ◌>>=◌, >>=-ret, success,
}
use sentry_kernel.KTypes.{
  Kstatus, okay, JobState, sleeping, sleeping_deep, Status, invalid, busy, non_sense,
}
use sentry_kernel.Task.{TaskTable, get_from_handle, get_state, set_state, get_sysreturn}
use sentry_kernel.Task.Accessors.{set_state_lem, sysreturn_protocol}
use sentry_kernel.Task.Agree.{Agree-there, set_state-Agree}
use sentry_kernel.Delay.{TaskDelayState, DelayedJobset, first_slot, is_free, arm_job, add_job}
use sentry_kernel.Delay.Cells.{armed, Inserted, length-update}
use sentry_kernel.Delay.Slots.{IsArmedFor, add_job_lem}
use sentry_kernel.Sched.Policy.{Policy, IsLawful}
use sentry_kernel.Kernel.{Kernel, put_state, put_sysreturn, elect_next}
use sentry_kernel.Kernel.Valid.{
  Elected, KernelIsValid, put_state-IsValid, put_sysreturn-IsValid, delays-IsValid,
  elect_next-IsValid,
}
use sentry_kernel.Syscalls.{or_panic, gate_sleep}
use native.Mathlib.Decide.{dec_lt}

pub add_job-lengths :
    (job ms : ℕ) (c : DelayedJobset)
    → (length (add_job job ms c).1.joblist ≡ length c.joblist)
      × (length (add_job job ms c).1.evlist ≡ length c.evlist)
unfolding add_job
add_job-lengths job ms c = elim (Option-cases (first_slot is_free 0 c.joblist)) [
  | inl e ↦ rw (add_job, e) (refl, refl)
  | inr (i, e) ↦ rw (add_job, e) (length-update (arm_job job ms) i c.joblist, refl)
]

-- Task `t` is in state `s` with the return value `r`; the state of every other task is kept.
pub record Suspended (t : ℕ) (s : JobState) (r : Status) (tab tab' : TaskTable) : Type 0 where
  pub state : get_state tab' t ≡ success s
  pub others : (h : ℕ) → h ≢ t → get_state tab' h ≡ get_state tab h
  pub sysreturn : get_sysreturn tab' t ≡ success r

module _ {S : Type 0} where
  pub or_panic-okay :
      (k : Kernel S) (w : Kstatus × TaskTable)
      → w.0 ≡ okay
      → or_panic k w ≡ ret (record k { tasks = w.1 })
  or_panic-okay k (status, tab) e = rw e refl

  pub put_both-Suspended :
      (k : Kernel S) (t : ℕ) (s : JobState) (r : Status)
      → get_from_handle k.tasks t ≢ none
      → Suspended t s r k.tasks (put_sysreturn t r (put_state t s k)).tasks
  put_both-Suspended k t s r there =
      let (o, st, _, _, _) = set_state_lem k.tasks t s there in
      let tab = (set_state k.tasks t s).1 in
      let (o', seen, keep, _, _, _) =
        sysreturn_protocol tab t r
          (Agree-there k.tasks tab t (set_state-Agree k.tasks t s) there) in
      record {
        state = keep t ∙ st t ∙ ground arith;
        others = λ h ne. keep h ∙ st h ∙ ground (arith, ne);
        sysreturn = seen t ∙ ground arith;
      }

module _ {S : Type 0} (p : Policy S) (IsWell : TaskTable → S → Type 0) (lawful : IsLawful p IsWell)
    (max_tasks : ℕ) where
  pub current_known :
      (idle : ℕ) (k : Kernel S)
      → KernelIsValid p IsWell lawful max_tasks idle k
      → (t : ℕ) × (p.current k.tasks k.sched ≡ ret t) × (get_from_handle k.tasks t ≢ none)
  current_known idle k v =
      let (t, r, kind) = lawful.currents k.tasks idle k.sched v.idle_last v.well in
      (t, r, (elim kind [ inl e ↦ rw e v.idle_known | inr user ↦ rw user.2 (λ e. cc) ]))

  pub suspend_lem :
      (idle : ℕ) (k : Kernel S) (t : ℕ) (s : JobState) (r : Status)
      → KernelIsValid p IsWell lawful max_tasks idle k
      → get_from_handle k.tasks t ≢ none
      → (sp : ℕ) × (k' : Kernel S) × ((or_panic k (set_state k.tasks t s) >>= λ k1.
            elect_next p (put_sysreturn t r k1))
          ≡ ret (sp, k'))
        × KernelIsValid p IsWell lawful max_tasks idle k'
        × Suspended t s r k.tasks k'.tasks
        × (k'.delays ≡ k.delays)
        × Elected p k'.tasks k.sched k'.sched sp
        × (k'.tasks ≡ (put_sysreturn t r (put_state t s k)).tasks)
  suspend_lem idle k t s r v there =
      let o = (set_state_lem k.tasks t s there).0 in
      let w =
        put_sysreturn-IsValid p IsWell lawful max_tasks idle (put_state t s k) t r
          (put_state-IsValid p IsWell lawful max_tasks idle k t s v) in
      let (sp, k', step, v', (same, delays), _, el) =
        elect_next-IsValid p IsWell lawful max_tasks idle _ w in
      (
        sp,
        k',
        >>=-ret _ (or_panic-okay k _ o) ∙ step,
        v',
        rw same (put_both-Suspended k t s r there),
        delays,
        subst (λ tab. Elected p tab k.sched k'.sched sp) (sym same) el,
        same,
      )

  gate_sleep-armed :
      (frame ms mode t : ℕ) (k : Kernel S) (c' : DelayedJobset)
      → p.current k.tasks k.sched ≡ ret t
      → mode ≤ 1
      → add_job t ms k.delays ≡ (okay, c')
      → gate_sleep p frame ms mode k ≡ (
          or_panic
            (record k { delays = c' })
            (set_state k.tasks t (if mode == 1 then sleeping_deep else sleeping))
          >>= λ k1. elect_next p (put_sysreturn t non_sense k1))
  unfolding gate_sleep
  gate_sleep-armed frame ms mode t k c' r small e =
      let test : ltb 1 mode ≡ false = ground arith in >>=-ret _ r ∙ rw (test, e) refl

  -- On a well-formed kernel `gate_sleep` never panics, and does one of three things. A mode other
  -- than shallow and deep is refused and only the return value is set; with a full delay queue the
  -- caller goes on with STATUS_BUSY; otherwise the caller alone changes its state, to the one of the
  -- mode, its delay is armed, its return value is a placeholder, the kernel stays well formed, and an
  -- election is held on the tasks after that and the frame of the elected task is resumed.
  pub gate_sleep_lem :
      (idle frame ms mode : ℕ) (k : Kernel S)
      → KernelIsValid p IsWell lawful max_tasks idle k
      → (t : ℕ) × (p.current k.tasks k.sched ≡ ret t)
        × (((1 < mode) × (gate_sleep p frame ms mode k ≡ ret (frame, put_sysreturn t invalid k)))
            ⊎ ((mode ≤ 1)
                × (armed k.delays.joblist ≡ k.delays.joblist)
                × (gate_sleep p frame ms mode k ≡ ret (frame, put_sysreturn t busy k)))
            ⊎ ((mode ≤ 1)
                × ((sp : ℕ) × (k' : Kernel S) × (d : TaskDelayState) × (gate_sleep p frame ms mode k
                      ≡ ret (sp, k'))
                    × KernelIsValid p IsWell lawful max_tasks idle k'
                    × Suspended t
                        (if mode == 1 then sleeping_deep else sleeping)
                        non_sense
                        k.tasks
                        k'.tasks
                    × (k'.delays.evlist ≡ k.delays.evlist)
                    × IsArmedFor t ms d
                    × Inserted d (armed k.delays.joblist) (armed k'.delays.joblist)
                    × Elected p k'.tasks k.sched k'.sched sp)))
  unfolding gate_sleep
  gate_sleep_lem idle frame ms mode k v =
      let (t, r, there) = current_known idle k v in
      (
        t,
        r,
        elim (dec_lt 1 mode) [
          | yes bad ↦ inl (bad, >>=-ret _ r ∙ ground arith)
          | no n ↦ inr (elim (add_job_lem t ms k.delays) [
            | inr (e, all_armed) ↦ inl (omega arith, all_armed, >>=-ret _ r ∙ ground (arith, e))
            | inl (d, c', e, events, is_armed, inserted, _) ↦
                let lengths = add_job-lengths t ms k.delays in
                let w =
                  delays-IsValid p IsWell lawful max_tasks idle k c' v
                    (ap (λ (x : Kstatus × DelayedJobset). length x.1.joblist) (sym e) ∙ lengths.0)
                    (ap length events) in
                let (sp, k', step, v', after, delays, el, _) =
                  suspend_lem idle (record k { delays = c' }) t
                    (if mode == 1 then sleeping_deep else sleeping) non_sense w there in
                inr (
                  omega arith,
                  (
                    sp,
                    k',
                    d,
                    gate_sleep-armed frame ms mode t k c' r (omega arith) e ∙ step,
                    v',
                    after,
                    rw delays events,
                    is_armed,
                    rw delays inserted,
                    el,
                  ),
                )
          ])
        ],
      )
