-- ===== src/Syscalls/Leave.antt =====
-- `gate_exit` and `gate_yield` on a well-formed kernel, with any lawful scheduler.
use sentry_kernel.Base.{
  ℕ, ◌≡◌, refl, ap, ◌∙◌, ◌≢◌, ◌⊎◌, inl, inr, none, some, arith, ◌==◌, if◌then◌else◌, if_true,
  ==_iff, Option-cases, ret, ◌>>=◌, >>=-ret, success,
}
use sentry_kernel.KTypes.{secure_true, okay, JobState, aborting, finished, Status, ok, non_sense}
use sentry_kernel.Task.{
  Task, TaskTable, get_from_handle, write, get_sp, get_state, set_state, set_jobreturn,
  set_sysreturn, get_sysreturn,
}
use sentry_kernel.Task.Accessors.{get_from_handle-set, Keeps, sysreturn_protocol}
use sentry_kernel.Task.Agree.{Agree-there, set_jobreturn-Agree}
use sentry_kernel.Sched.Policy.{Policy, IsLawful}
use sentry_kernel.Sched.Rrmq.Room.{IsUser}
use sentry_kernel.Kernel.{Kernel, put_sysreturn, elect_next}
use sentry_kernel.Kernel.Valid.{
  Elected, KernelIsValid, tasks-IsValid, put_sysreturn-IsValid, elect_next-IsValid,
}
use sentry_kernel.Syscalls.{or_panic, gate_exit, gate_yield}
use sentry_kernel.Syscalls.Suspend.{Suspended, or_panic-okay, current_known, suspend_lem}

set_jobreturn-known :
    (tab : TaskTable) (h code : ℕ)
    → get_from_handle tab h ≢ none
    → ((set_jobreturn tab h code).0 ≡ okay) × Keeps get_state tab (set_jobreturn tab h code).1
unfolding set_jobreturn get_state
set_jobreturn-known tab h code there = elim (Option-cases (get_from_handle tab h)) [
  | inl n ↦ absurd (there n)
  | inr (t, e) ↦ rw e (
    refl,
    λ k. ground (arith, e, get_from_handle-set tab h k t (record t { returncode = code }) e refl),
  )
]

-- A write through a handle, read back.
write_self :
    (f : Task → Task) (tab : TaskTable) (h : ℕ) (t : Task)
    → get_from_handle tab h ≡ some t
    → (f t).handle ≡ t.handle
    → get_from_handle (write f tab h (get_from_handle tab h)).1 h ≡ some (f t)
write_self f tab h t e same =
    ap (λ o. get_from_handle (write f tab h o).1 h) e
    ∙ get_from_handle-set tab h h t (f t) e same
    ∙ if_true _ _ ((==_iff h h).1 refl)

-- The return code survives what `gate_exit` writes behind it.
jobreturn-kept :
    (tab : TaskTable) (h code : ℕ) (s : JobState) (r : Status)
    → get_from_handle tab h ≢ none
    → (t : Task) × (get_from_handle
          (set_sysreturn (set_state (set_jobreturn tab h code).1 h s).1 h r).1
          h
        ≡ some t)
      × (t.returncode ≡ code)
unfolding set_jobreturn set_state set_sysreturn
jobreturn-kept tab h code s r there = elim (Option-cases (get_from_handle tab h)) [
  | inl n ↦ absurd (there n)
  | inr (t, e) ↦
      let t1 = record t { returncode = code } in
      let t2 = record t1 { state = s } in
      let e1 = write_self (λ t. record t { returncode = code }) tab h t e refl in
      let e2 = write_self (λ t. record t { state = s }) (set_jobreturn tab h code).1 h t1 e1 refl in
      (
        record t2 { sysreturn = r; sysretassigned = secure_true },
        write_self (λ t. record t { sysreturn = r; sysretassigned = secure_true })
            (set_state (set_jobreturn tab h code).1 h s).1 h t2 e2 refl,
        refl,
      )
]

module _ {S : Type 0} (p : Policy S) (IsWell : TaskTable → S → Type 0) (lawful : IsLawful p IsWell)
    (max_tasks : ℕ) where
  gate_exit-run :
      (result t : ℕ) (k : Kernel S)
      → p.current k.tasks k.sched ≡ ret t
      → (set_jobreturn k.tasks t result).0 ≡ okay
      → gate_exit p result k ≡ (
          or_panic
            (record k { tasks = (set_jobreturn k.tasks t result).1 })
            (set_state
              (set_jobreturn k.tasks t result).1
              t
              (if result == 0 then finished else aborting))
          >>= λ k1. elect_next p (put_sysreturn t non_sense k1))
  unfolding gate_exit
  gate_exit-run result t k r e = >>=-ret _ r ∙ >>=-ret _ (or_panic-okay k _ e)

  -- On a well-formed kernel `gate_exit` never panics: the caller is finished, or aborting when its
  -- code is not 0, keeps its code, and its return value is the placeholder STATUS_NON_SENSE; no other
  -- task changes its state, the delays are left alone, and the kernel stays well formed. An election
  -- is held on the tasks after that, and the frame of the elected task is resumed.
  pub gate_exit_lem :
      (idle result : ℕ) (k : Kernel S)
      → KernelIsValid p IsWell lawful max_tasks idle k
      → (t : ℕ) × (sp : ℕ) × (k' : Kernel S) × (p.current k.tasks k.sched ≡ ret t)
        × (gate_exit p result k ≡ ret (sp, k'))
        × KernelIsValid p IsWell lawful max_tasks idle k'
        × Suspended t (if result == 0 then finished else aborting) non_sense k.tasks k'.tasks
        × (k'.delays ≡ k.delays)
        × Elected p k'.tasks k.sched k'.sched sp
        × ((u : Task) × (get_from_handle k'.tasks t ≡ some u) × (u.returncode ≡ result))
  gate_exit_lem idle result k v =
      let (t, r, there) = current_known p IsWell lawful max_tasks idle k v in
      let (o, keep) = set_jobreturn-known k.tasks t result there in
      let agree = set_jobreturn-Agree k.tasks t result in
      let tab = (set_jobreturn k.tasks t result).1 in
      let (sp, k', step, v', after, delays, el, same) =
        suspend_lem p IsWell lawful max_tasks idle (record k { tasks = tab }) t
          (if result == 0 then finished else aborting) non_sense
          (tasks-IsValid p IsWell lawful max_tasks idle k tab v agree)
          (Agree-there k.tasks tab t agree there) in
      (
        t,
        sp,
        k',
        r,
        gate_exit-run result t k r o ∙ step,
        v',
        record {
          state = after.state;
          others = λ h ne. after.others h ne ∙ keep h;
          sysreturn = after.sysreturn;
        },
        delays,
        el,
        rw same (
            jobreturn-kept k.tasks t result (if result == 0 then finished else aborting) non_sense
              there),
      )

  -- On a well-formed kernel `gate_yield` never panics: an election is held, and the frame of the
  -- elected task, idle or a user task, is resumed; the caller's return value is STATUS_OK, no task
  -- changes its state, the delays are left alone, and the kernel stays well formed.
  pub gate_yield_lem :
      (idle : ℕ) (k : Kernel S)
      → KernelIsValid p IsWell lawful max_tasks idle k
      → (t : ℕ) × (sp : ℕ) × (k' : Kernel S) × (p.current k.tasks k.sched ≡ ret t)
        × (gate_yield p k ≡ ret (sp, k'))
        × KernelIsValid p IsWell lawful max_tasks idle k'
        × (get_sysreturn k'.tasks t ≡ success ok)
        × Keeps get_state k.tasks k'.tasks
        × (k'.delays ≡ k.delays)
        × ((next : ℕ) × ((next ≡ idle) ⊎ IsUser k.tasks next)
            × (get_sp k.tasks next ≡ success sp)
            × (p.elect k.tasks k.sched ≡ ret (next, k'.sched)))
  unfolding gate_yield
  gate_yield_lem idle k v =
      let (t, r, there) = current_known p IsWell lawful max_tasks idle k v in
      let (sp, k1, step, w, (same, delays), next, _) =
        elect_next-IsValid p IsWell lawful max_tasks idle k v in
      let (o, seen, keep, _, _, _) = sysreturn_protocol k1.tasks t ok (rw same there) in
      (
        t,
        sp,
        put_sysreturn t ok k1,
        r,
        >>=-ret _ r ∙ >>=-ret _ step,
        put_sysreturn-IsValid p IsWell lawful max_tasks idle k1 t ok w,
        seen t ∙ ground arith,
        (λ h. keep h ∙ ap (λ tab. get_state tab h) same),
        delays,
        next,
      )
