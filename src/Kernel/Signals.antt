-- ===== src/Kernel/Signals.antt =====
-- `mgr_task_push_sig_event` on a well-formed kernel, with any lawful scheduler.
use sentry_kernel.Base.{
  ℕ, ◌≡◌, refl, sym, ap, ◌∙◌, subst, ◌≢◌, ◌⊎◌, inl, inr, true, false, some, arith, ◌==◌, if_true,
  if_false, get_elem?, set, ret, >>=-ret,
}
use sentry_kernel.KTypes.{okay, error_busy, JobState, ready, waitforevent, JobState-discrete}
use sentry_kernel.Task.{Task, TaskTable, index_of, get_from_handle, write, set_state}
use sentry_kernel.Task.Accessors.{get_from_handle-set}
use sentry_kernel.Task.Agree.{Agree, Agree-trans, write_agrees, set_state-Agree}
use sentry_kernel.Sched.Policy.{Policy, IsLawful}
use sentry_kernel.Sched.Rrmq.Room.{IsUser}
use sentry_kernel.Sched.Rrmq.Lawful.{IsUser-stable}
use sentry_kernel.Kernel.{
  Kernel, put_state, sched_schedule, wake_waiting, store_signal, push_sig_event,
}
use sentry_kernel.Kernel.Valid.{
  Rescheduled, KernelIsValid, tasks-IsValid, put_state-IsValid, sched_schedule-IsValid,
}
use native.Mathlib.Decide.{ℕ_discrete}

module _ {S : Type 0} (p : Policy S) where
  wake_waiting_other :
      (dest : ℕ) (s : JobState) (k : Kernel S) → s ≢ waitforevent → wake_waiting p dest s k ≡ ret k
  wake_waiting_other dest waitforevent k ne = absurd (ne refl)
  wake_waiting_other dest ready k ne = refl
  wake_waiting_other dest _ k ne = refl

-- What the target is after a signal was pushed in the slot of `source`.
pub record Signalled (signal source : ℕ) (t u : Task) : Type 0 where
  pub sigs : u.sigs ≡ set t.sigs (index_of source) signal
  pub state :
      ((t.state ≡ waitforevent) × (u.state ≡ ready))
      ⊎ ((t.state ≢ waitforevent) × (u.state ≡ t.state))
  pub handle : u.handle ≡ t.handle
  pub metadata : u.metadata ≡ t.metadata

module _ {S : Type 0} (p : Policy S) (IsWell : TaskTable → S → Type 0) (lawful : IsLawful p IsWell)
    (max_tasks : ℕ) where
  -- A user task that is made ready and scheduled.
  pub ready_lem :
      (idle dest : ℕ) (t : Task) (k : Kernel S)
      → KernelIsValid p IsWell lawful max_tasks idle k
      → IsUser k.tasks dest
      → get_from_handle k.tasks dest ≡ some t
      → (k' : Kernel S) × (sched_schedule p dest (put_state dest ready k) ≡ ret k')
        × KernelIsValid p IsWell lawful max_tasks idle k'
        × (get_from_handle k'.tasks dest ≡ some (record t { state = ready }))
        × ((h : ℕ) → h ≢ dest → get_from_handle k'.tasks h ≡ get_from_handle k.tasks h)
        × (k'.delays ≡ k.delays)
        × Agree k.tasks k'.tasks
        × Rescheduled p dest k'.tasks k.sched k'.sched
  ready_lem idle dest t k v user f =
      let u = record t { state = ready } in
      let put : (set_state k.tasks dest ready).1
          ≡ record k.tasks { cells = set k.tasks.cells (index_of dest) u } =
        unfold set_state in rw f refl in
      let seen = λ (h : ℕ). get_from_handle-set k.tasks dest h t u f refl in
      let agree = set_state-Agree k.tasks dest ready in
      let (k', run, w, (same, delays), called) =
        sched_schedule-IsValid p IsWell lawful max_tasks idle (put_state dest ready k) dest
          (put_state-IsValid p IsWell lawful max_tasks idle k dest ready v)
          (IsUser-stable k.tasks (set_state k.tasks dest ready).1 agree.numtask agree.metadata dest
            user) in
      (
        k',
        run,
        w,
        rw (same, put) (ground (arith, seen dest)),
        (λ h apart. rw (same, put) (ground (arith, seen h, apart))),
        delays,
        rw same agree,
        subst (λ tab. Rescheduled p dest tab k.sched k'.sched) (sym same) called,
      )

  -- Pushing a signal to a user task, on a well-formed kernel, returns. When the slot of the source
  -- holds a signal already the status is K_ERROR_BUSY and nothing changes; otherwise the signal is in
  -- the slot, a target in WAITFOREVENT is ready and the scheduler is called for it, any other keeps its
  -- state and the scheduler its context, no other task is touched, the delays are left alone and the
  -- kernel stays well formed.
  pub push_sig_event_lem :
      (idle signal source dest old : ℕ) (t : Task) (k : Kernel S)
      → KernelIsValid p IsWell lawful max_tasks idle k
      → IsUser k.tasks dest
      → get_from_handle k.tasks dest ≡ some t
      → get_elem? t.sigs (index_of source) ≡ some old
      → ((old ≢ 0) × (push_sig_event p signal source dest k ≡ ret (error_busy, k)))
        ⊎ ((old ≡ 0)
            × ((k' : Kernel S) × (u : Task) × (push_sig_event p signal source dest k
                  ≡ ret (okay, k'))
                × KernelIsValid p IsWell lawful max_tasks idle k'
                × (get_from_handle k'.tasks dest ≡ some u)
                × Signalled signal source t u
                × ((h : ℕ) → h ≢ dest → get_from_handle k'.tasks h ≡ get_from_handle k.tasks h)
                × (k'.delays ≡ k.delays)
                × Agree k.tasks k'.tasks
                × (((t.state ≢ waitforevent) × (k'.sched ≡ k.sched))
                    ⊎ ((t.state ≡ waitforevent) × Rescheduled p dest k'.tasks k.sched k'.sched))))
  unfolding push_sig_event
  push_sig_event_lem idle signal source dest old t k v user f slot =
      let t1 = record t { sigs = set t.sigs (index_of source) signal } in
      let tab1 : TaskTable = record k.tasks { cells = set k.tasks.cells (index_of dest) t1 } in
      let k1 = record k { tasks = tab1 } in
      let seen = λ (h : ℕ). get_from_handle-set k.tasks dest h t t1 f refl in
      let agree : Agree k.tasks tab1 =
        subst
          (λ o.
            Agree k.tasks
              (write (λ t. record t { sigs = set t.sigs (index_of source) signal }) k.tasks dest
                o).1)
          f
          (write_agrees k.tasks dest (λ t. record t { sigs = set t.sigs (index_of source) signal })
            (λ t. (refl, refl))) in
      let v1 = tasks-IsValid p IsWell lawful max_tasks idle k tab1 v agree in
      let start : push_sig_event p signal source dest k
          ≡ store_signal p signal source dest t k (some old) =
        rw (push_sig_event, f, slot) refl in
      elim (ℕ_discrete old 0) [
        | no ne ↦
            let test : (old == 0) ≡ false = ground (arith, ne) in
            inl (ne, start ∙ if_false _ _ test)
        | yes z ↦
            let test : (old == 0) ≡ true = ground arith in
            elim (JobState-discrete t.state waitforevent) [
              | no ne ↦ inr (
                z,
                (
                  k1,
                  t1,
                  start ∙ if_true _ _ test ∙ >>=-ret _ (wake_waiting_other p dest t.state k1 ne),
                  v1,
                  ground (arith, seen dest),
                  record { sigs = refl; state = inr (ne, refl); handle = refl; metadata = refl },
                  (λ h apart. ground (arith, seen h, apart)),
                  refl,
                  agree,
                  inl (ne, refl),
                ),
              )
              | yes waits ↦
                  let user1 = IsUser-stable k.tasks tab1 agree.numtask agree.metadata dest user in
                  let (k2, run, v2, found, others, delays, same, called) =
                    ready_lem idle dest t1 k1 v1 user1 (ground (arith, seen dest)) in
                  inr (
                    z,
                    (
                      k2,
                      record t1 { state = ready },
                      start
                          ∙ if_true _ _ test
                          ∙ >>=-ret _ (ap (λ st. wake_waiting p dest st k1) waits ∙ run),
                      v2,
                      found,
                      record {
                        sigs = refl;
                        state = inl (waits, refl);
                        handle = refl;
                        metadata = refl;
                      },
                      (λ h apart. others h apart ∙ ground (arith, seen h, apart)),
                      delays,
                      Agree-trans k.tasks tab1 k2.tasks agree same,
                      inr (waits, called),
                    ),
                  )
            ]
      ]
