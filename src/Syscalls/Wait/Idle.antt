-- ===== src/Syscalls/Wait/Idle.antt =====
-- `gate_waitforevent` when nothing that the caller asks for is pending.
use sentry_kernel.Base.{
  ℕ, ◌^◌, ◌≤◌, ◌<◌, ◌≡◌, refl, sym, ap, ◌∙◌, subst, ◌≢◌, ◌⊎◌, inl, inr, Bool, true, false, ◌&&◌,
  none, arith, ltb, ◌==◌, if◌then◌else◌, if_true, if_false, ==_iff, Bool-cases, Option-cases, ret,
  >>=-ret, Result, success, failure,
}
use sentry_kernel.KTypes.{Kstatus, error_noent, waitforevent, again, non_sense}
use sentry_kernel.Task.{TaskTable, get_from_handle, get_sp}
use sentry_kernel.Task.Events.{load_int_event, load_dma_event, load_sig_event}
use sentry_kernel.Task.Exchange.{event_type_ipc, event_type_signal, event_type_irq, event_type_dma}
use sentry_kernel.Delay.{TaskDelayState, DelayedJobset, add_job}
use sentry_kernel.Delay.Cells.{armed, Inserted}
use sentry_kernel.Delay.Slots.{IsArmedFor, add_job_lem}
use sentry_kernel.Sched.Policy.{Policy, IsLawful}
use sentry_kernel.Kernel.{Kernel, put_state, put_sysreturn}
use sentry_kernel.Kernel.Valid.{
  Elected, KernelIsValid, put_state-IsValid, put_sysreturn-IsValid, delays-IsValid,
}
use sentry_kernel.Kernel.Ipc.{load_ipc_event}
use sentry_kernel.Syscalls.Suspend.{add_job-lengths, Suspended, put_both-Suspended, current_known}
use sentry_kernel.Syscalls.Wait.{
  asks, elect_or_stay, wait_for, wait_ipc, wait_dma, wait_irq, gate_waitforevent,
}
use native.Mathlib.Decide.{ℕ_discrete}

-- No event that the mask asks for is pending for `t`: its load reports K_ERROR_NOENT.
pub record NothingPending {S : Type 0} (p : Policy S) (mpu : ℕ → Kstatus) (mask t : ℕ)
    (k : Kernel S) : Type 0 where
  pub no_signal :
      asks mask event_type_signal ≡ true
      → load_sig_event k.tasks t ≡ ret (failure error_noent, k.tasks)
  pub no_irq :
      asks mask event_type_irq ≡ true
      → load_int_event k.tasks t ≡ ret (failure error_noent, k.tasks)
  pub no_dma :
      asks mask event_type_dma ≡ true
      → load_dma_event k.tasks t ≡ ret (failure error_noent, k.tasks)
  pub no_ipc : asks mask event_type_ipc ≡ true → load_ipc_event p mpu t k ≡ ret (error_noent, k)

either {ℓ} :
    {A : Type ℓ} (b : Bool) (x y z : A) → (b ≡ true → x ≡ z) → y ≡ z → (if b then x else y) ≡ z
either true x y z p q = p refl
either false x y z p q = q

-- One delayed job more, or none where all cells are armed.
abbrev pub Armed : ℕ → ℕ → DelayedJobset → DelayedJobset → Type 0
Armed t delay c c' =
    (c'.evlist ≡ c.evlist)
    × (((d : TaskDelayState) × IsArmedFor t delay d
          × Inserted d (armed c.joblist) (armed c'.joblist))
        ⊎ ((armed c.joblist ≡ c.joblist) × (c'.joblist ≡ c.joblist)))

-- The delays after a wait, for a timeout that is the pattern of an `int32_t`.
abbrev pub IsDelayed : ℕ → ℕ → DelayedJobset → DelayedJobset → Type 0
IsDelayed t delay c c' =
    ((0 < delay) × (delay < 2 ^ 31) × Armed t delay c c')
    ⊎ (((delay ≡ 0) ⊎ (2 ^ 31 ≤ delay)) × (c' ≡ c))

positive : (d : ℕ) → (ltb 0 d && ltb d (2 ^ 31)) ≡ true → (0 < d) × (d < 2 ^ 31)
positive d e = ground (arith, e)

negative : (d : ℕ) → (ltb 0 d && ltb d (2 ^ 31)) ≡ false → (d ≡ 0) ⊎ (2 ^ 31 ≤ d)
negative d e = ground (arith, e)

get_sp_known :
    (tab : TaskTable) (t : ℕ)
    → get_from_handle tab t ≢ none
    → (sp : ℕ) × (get_sp tab t ≡ success sp)
unfolding get_sp
get_sp_known tab t there = elim (Option-cases (get_from_handle tab t)) [
  | inl nothing ↦ absurd (there nothing)
  | inr (task, found) ↦ (task.sp, rw found refl)
]

module _ {S : Type 0} (p : Policy S) (mpu : ℕ → Kstatus) (devh_of : ℕ → Result ℕ) where
  -- With no such event pending the four checks fall through, whatever the mask is.
  falls_through :
      (frame mask delay t : ℕ) (k : Kernel S)
      → p.current k.tasks k.sched ≡ ret t
      → NothingPending p mpu mask t k
      → gate_waitforevent p mpu devh_of frame mask delay k ≡ wait_for p frame t delay k
  unfolding gate_waitforevent
  falls_through frame mask delay t k cur n =
      let ipc : wait_ipc p mpu devh_of frame mask delay t k ≡ wait_for p frame t delay k =
        either (asks mask event_type_ipc) _ _ _ (λ a. >>=-ret _ (n.no_ipc a)) refl in
      let dma : wait_dma p mpu devh_of frame mask delay t k ≡ wait_for p frame t delay k =
        either (asks mask event_type_dma) _ _ _ (λ a. >>=-ret _ (n.no_dma a) ∙ ipc) ipc in
      let irq : wait_irq p mpu devh_of frame mask delay t k ≡ wait_for p frame t delay k =
        either (asks mask event_type_irq) _ _ _ (λ a. >>=-ret _ (n.no_irq a) ∙ dma) dma in
      >>=-ret _ cur
      ∙ either (asks mask event_type_signal) _ _ _ (λ a. >>=-ret _ (n.no_signal a) ∙ irq) irq

  -- The delays after the gate: a job is armed for a positive timeout, if there is room.
  abbrev pub waiting_delays : ℕ → ℕ → Kernel S → DelayedJobset
  waiting_delays t delay k =
      if ltb 0 delay && ltb delay (2 ^ 31) then (add_job t delay k.delays).1 else k.delays

module _ {S : Type 0} (p : Policy S) (mpu : ℕ → Kstatus) (devh_of : ℕ → Result ℕ) where
  waiting_delays-IsDelayed :
      (t delay : ℕ) (k : Kernel S)
      → IsDelayed t delay k.delays (waiting_delays p mpu devh_of t delay k)
  waiting_delays-IsDelayed t delay k = elim (Bool-cases (ltb 0 delay && ltb delay (2 ^ 31))) [
    | inr e ↦ inr (negative delay e, if_false _ _ e)
    | inl e ↦ inl (
      (positive delay e).0,
      (positive delay e).1,
      subst (Armed t delay k.delays) (sym (if_true _ _ e)) (elim (add_job_lem t delay k.delays) [
        | inl (d, c', r, events, is_armed, inserted, _) ↦
            let same : (add_job t delay k.delays).1 ≡ c' =
              ap (λ (q : Kstatus × DelayedJobset). q.1) r in
            subst (Armed t delay k.delays) (sym same) (events, inl (d, is_armed, inserted))
        | inr (r, all) ↦
            let same : (add_job t delay k.delays).1 ≡ k.delays =
              ap (λ (q : Kstatus × DelayedJobset). q.1) r in
            subst (Armed t delay k.delays) (sym same) (refl, inr (all, refl))
      ]),
    )
  ]

module _ {S : Type 0} (p : Policy S) (IsWell : TaskTable → S → Type 0) (lawful : IsLawful p IsWell)
    (max_tasks : ℕ) (mpu : ℕ → Kstatus) (devh_of : ℕ → Result ℕ) where
  with_delays :
      (b : Bool) (k : Kernel S) (c : DelayedJobset)
      → (if b then record k { delays = c } else k) ≡ record k { delays = if b then c else k.delays }
  with_delays true k c = refl
  with_delays false k c = refl

  with_delays-IsValid :
      (idle : ℕ) (b : Bool) (t delay : ℕ) (k : Kernel S)
      → KernelIsValid p IsWell lawful max_tasks idle k
      → KernelIsValid p IsWell lawful max_tasks idle
          (record k { delays = if b then (add_job t delay k.delays).1 else k.delays })
  with_delays-IsValid idle true t delay k v =
      let lengths = add_job-lengths t delay k.delays in
      delays-IsValid p IsWell lawful max_tasks idle k (add_job t delay k.delays).1 v lengths.0
        lengths.1
  with_delays-IsValid idle false t delay k v = v

  elect_or_stay-IsValid :
      (idle frame : ℕ) (k : Kernel S)
      → KernelIsValid p IsWell lawful max_tasks idle k
      → (sp : ℕ) × (k' : Kernel S) × (elect_or_stay p frame k ≡ ret (sp, k'))
        × KernelIsValid p IsWell lawful max_tasks idle k'
        × (k'.tasks ≡ k.tasks)
        × (k'.delays ≡ k.delays)
        × Elected p k.tasks k.sched k'.sched sp
  elect_or_stay-IsValid idle frame k v =
      let (t, s, r, w, kind) = lawful.elects k.tasks idle k.sched v.idle_last v.well in
      let there : get_from_handle k.tasks t ≢ none = elim kind [
        | inl e ↦ rw e v.idle_known
        | inr user ↦ rw user.2 (λ e. cc)
      ] in
      let (sp, reads) = get_sp_known k.tasks t there in
      (
        sp,
        record k { sched = s },
        >>=-ret _ r
            ∙ ap
                (λ (q : Result ℕ).
                  ret (elim q [ failure _ ↦ frame | success sp ↦ sp ], record k { sched = s }))
                reads,
        record {
          well = w;
          idle_last = v.idle_last;
          idle_known = v.idle_known;
          jobs_storage = v.jobs_storage;
          events_storage = v.events_storage;
        },
        refl,
        refl,
        (t, r, reads),
      )

  -- On a well-formed kernel, with any lawful scheduler and any mask, `gate_waitforevent` returns when
  -- no event that the mask asks for is pending for the caller. With the timeout -1 the caller goes on
  -- with STATUS_AGAIN and nothing else changes. Otherwise the caller alone changes its state, to
  -- WAITFOREVENT, with a placeholder as its return value, an election is held on the tasks after that
  -- and the frame of the elected task is resumed, and the kernel stays well formed. A positive timeout
  -- arms one delayed job of the caller with it, or finds the delay queue full; with 0 and the other
  -- negative ones the delays are left alone, as are the delayed signals always.
  pub gate_waitforevent_lem :
      (idle frame mask delay t : ℕ) (k : Kernel S)
      → KernelIsValid p IsWell lawful max_tasks idle k
      → p.current k.tasks k.sched ≡ ret t
      → NothingPending p mpu mask t k
      → ((delay ≡ 0xffffffff)
          × (gate_waitforevent p mpu devh_of frame mask delay k
              ≡ ret (frame, put_sysreturn t again k)))
        ⊎ ((delay ≢ 0xffffffff)
            × ((sp : ℕ) × (k' : Kernel S) × (gate_waitforevent p mpu devh_of frame mask delay k
                  ≡ ret (sp, k'))
                × KernelIsValid p IsWell lawful max_tasks idle k'
                × Suspended t waitforevent non_sense k.tasks k'.tasks
                × IsDelayed t delay k.delays k'.delays
                × Elected p k'.tasks k.sched k'.sched sp))
  gate_waitforevent_lem idle frame mask delay t k v cur n = elim (ℕ_discrete delay 0xffffffff) [
    | yes e ↦ inl (
      e,
      falls_through p mpu devh_of frame mask delay t k cur n
          ∙ if_true _ _ ((==_iff delay 0xffffffff).1 e),
    )
    | no ne ↦
        let test : (delay == 0xffffffff) ≡ false = ground (arith, ne) in
        let b = ltb 0 delay && ltb delay (2 ^ 31) in
        let k1 : Kernel S = record k { delays = waiting_delays p mpu devh_of t delay k } in
        let v1 = with_delays-IsValid idle b t delay k v in
        let v3 =
          put_sysreturn-IsValid p IsWell lawful max_tasks idle (put_state t waitforevent k1) t
            non_sense (put_state-IsValid p IsWell lawful max_tasks idle k1 t waitforevent v1) in
        let (sp, k', run, v', tasks, delays, el) =
          elect_or_stay-IsValid idle frame (put_sysreturn t non_sense (put_state t waitforevent k1))
            v3 in
        let (t', cur', there') = current_known p IsWell lawful max_tasks idle k v in
        let same : t' ≡ t = cc in
        let there = subst (λ t. get_from_handle k.tasks t ≢ none) same there' in
        inr (
          ne,
          (
            sp,
            k',
            falls_through p mpu devh_of frame mask delay t k cur n
                ∙ if_false _ _ test
                ∙ ap
                    (λ k.
                      elect_or_stay p frame
                        (put_sysreturn t non_sense (put_state t waitforevent k)))
                    (with_delays b k (add_job t delay k.delays).1)
                ∙ run,
            v',
            rw tasks (put_both-Suspended k1 t waitforevent non_sense there),
            subst (IsDelayed t delay k.delays) (sym delays)
                (waiting_delays-IsDelayed p mpu devh_of t delay k),
            subst (λ tab. Elected p tab k.sched k'.sched sp) (sym tasks) el,
          ),
        )
  ]
