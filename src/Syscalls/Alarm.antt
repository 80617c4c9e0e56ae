-- ===== src/Syscalls/Alarm.antt =====
-- `gate_alarm`, with any scheduler.
use sentry_kernel.Base.{
  ℕ, ◌≤◌, ◌<◌, ◌≡◌, refl, sym, ◌∙◌, subst, inl, inr, Bool, true, false, arith, ◌==◌, if_true,
  if_false, length, ret, ◌>>=◌, >>=-ret,
}
use sentry_kernel.KTypes.{Status, ok, invalid, no_entity, busy}
use sentry_kernel.Delay.{TaskDelayState, DelayedJobset, is_signal, add_signal, del_signal}
use sentry_kernel.Delay.Cells.{armed, NoneOf, Inserted, full}
use sentry_kernel.Delay.Slots.{IsArmedFor, del_signal_lem, add_signal_lem}
use sentry_kernel.Sched.Policy.{Policy}
use sentry_kernel.Kernel.{Kernel, Gate, put_sysreturn}
use sentry_kernel.Syscalls.{alarm_armed, gate_alarm}
use native.Mathlib.Decide.{ℕ_discrete}

-- What a call may do to the delayed signals, with the status of each case.
pub data AlarmEffect (t ms flag : ℕ) (c c' : DelayedJobset) : Status → Type 0 where
  alarm_set :
      (d : TaskDelayState)
      → flag ≤ 1
      → IsArmedFor t ms d
      → d.signal ≡ 2
      → d.periodic ≡ (flag == 1)
      → Inserted d (armed c.evlist) (armed c'.evlist)
      → AlarmEffect t ms flag c c' ok
  no_room : flag ≤ 1 → armed c.evlist ≡ c.evlist → c' ≡ c → AlarmEffect t ms flag c c' busy
  alarm_stopped :
      (d : TaskDelayState)
      → flag ≡ 2
      → d.handler ≡ t
      → d.wait_time_ms ≡ ms
      → Inserted d (armed c'.evlist) (armed c.evlist)
      → AlarmEffect t ms flag c c' ok
  no_such_alarm :
      flag ≡ 2 → NoneOf (is_signal t ms) c.evlist → c' ≡ c → AlarmEffect t ms flag c c' no_entity
  bad_flag : 2 < flag → c' ≡ c → AlarmEffect t ms flag c c' invalid

module _ {S : Type 0} (p : Policy S) where
  -- The result of a call by `t`.
  abbrev pub AlarmOutcome : ℕ → ℕ → ℕ → ℕ → Kernel S → Gate S → Type 0
  AlarmOutcome frame t ms flag k run =
      (st : Status) × (c' : DelayedJobset) × (run
        ≡ ret (frame, put_sysreturn t st (record k { delays = c' })))
      × (c'.joblist ≡ k.delays.joblist)
      × AlarmEffect t ms flag k.delays c' st

  start_lem :
      (frame t ms flag : ℕ) (periodic : Bool) (k : Kernel S)
      → flag ≤ 1
      → periodic ≡ (flag == 1)
      → AlarmOutcome frame t ms flag k
          (alarm_armed p frame t busy (add_signal t ms 2 periodic k.delays) k)
  start_lem frame t ms flag periodic k low e = elim (add_signal_lem t ms 2 periodic k.delays) [
    | inl (d, c', a, jobs, is_armed, sig, per, inserted) ↦
        (ok, c', rw a refl, jobs, alarm_set d low is_armed sig (per ∙ e) inserted)
    | inr (a, full) ↦ (busy, k.delays, rw a refl, refl, no_room low full refl)
  ]

  stop_lem :
      (max_tasks frame t ms flag : ℕ) (k : Kernel S)
      → flag ≡ 2
      → length k.delays.evlist ≡ max_tasks
      → AlarmOutcome frame t ms flag k (
          del_signal max_tasks t ms k.delays >>= λ deleted.
          alarm_armed p frame t no_entity deleted k)
  stop_lem max_tasks frame t ms flag k e size = elim (del_signal_lem max_tasks t ms k.delays size) [
    | inl (d, c', a, h, w, jobs, inserted) ↦
        (ok, c', >>=-ret _ a, jobs, alarm_stopped d e h w inserted)
    | inr (a, nowhere) ↦ (no_entity, k.delays, >>=-ret _ a, refl, no_such_alarm e nowhere refl)
  ]

  -- `gate_alarm` returns to the caller on every flag: it arms one more signal SIGNAL_ALARM for the
  -- caller, periodic or not, or has no room for it; it stops one alarm of the caller with that delay,
  -- or finds none; or it refuses the flag. The delayed jobs are left alone.
  pub gate_alarm_lem :
      (max_tasks frame ms flag t : ℕ) (k : Kernel S)
      → p.current k.tasks k.sched ≡ ret t
      → length k.delays.evlist ≡ max_tasks
      → AlarmOutcome frame t ms flag k (gate_alarm p max_tasks frame ms flag k)
  unfolding gate_alarm
  gate_alarm_lem max_tasks frame ms flag t k cur size = elim (ℕ_discrete flag 0) [
    | yes is0 ↦
        let e0 : (flag == 0) ≡ true = ground arith in
        subst (AlarmOutcome frame t ms flag k) (sym (>>=-ret _ cur ∙ if_true _ _ e0))
          (start_lem frame t ms flag false k (omega arith) (ground arith))
    | no not0 ↦
        let e0 : (flag == 0) ≡ false = ground (arith, not0) in
        elim (ℕ_discrete flag 1) [
          | yes is1 ↦
              let e1 : (flag == 1) ≡ true = ground arith in
              subst (AlarmOutcome frame t ms flag k)
                (sym (>>=-ret _ cur ∙ if_false _ _ e0 ∙ if_true _ _ e1))
                (start_lem frame t ms flag true k (omega arith) (ground arith))
          | no not1 ↦
              let e1 : (flag == 1) ≡ false = ground (arith, not1) in
              elim (ℕ_discrete flag 2) [
                | yes is2 ↦
                    let e2 : (flag == 2) ≡ true = ground arith in
                    subst (AlarmOutcome frame t ms flag k)
                      (sym (>>=-ret _ cur ∙ if_false _ _ e0 ∙ if_false _ _ e1 ∙ if_true _ _ e2))
                      (stop_lem max_tasks frame t ms flag k is2 size)
                | no not2 ↦
                    let e2 : (flag == 2) ≡ false = ground (arith, not2) in
                    (
                      invalid,
                      k.delays,
                      >>=-ret _ cur ∙ if_false _ _ e0 ∙ if_false _ _ e1 ∙ if_false _ _ e2,
                      refl,
                      bad_flag (omega (arith, not0, not1, not2)) refl,
                    )
              ]
        ]
  ]
