-- ===== src/Syscalls/Signal.antt =====
-- `gate_send_signal` on a well-formed kernel, with any lawful scheduler.
use sentry_kernel.Base.{
  ℕ, ◌≤◌, ◌≡◌, refl, ap, ◌∙◌, subst, ◌≢◌, ◌⊎◌, inl, inr, false, ◌||◌, some, arith, ltb, ◌==◌,
  if_false, Option-cases, length, get_elem?, set, ret, >>=-ret,
}
use sentry_kernel.KTypes.{
  secure_true, Kstatus, JobState, ready, sleeping, waitforevent, JobState-discrete, ok, busy, intr,
}
use sentry_kernel.Task.{Task, TaskTable, index_of, get_from_handle, get_state, set_sysreturn}
use sentry_kernel.Task.Accessors.{get_from_handle-set}
use sentry_kernel.Task.Agree.{Agree, Agree-refl, Agree-trans, set_sysreturn-Agree}
use sentry_kernel.Delay.{DelayedJobset, first_slot, is_job, disarm, del_job}
use sentry_kernel.Delay.Cells.{full, length-update}
use sentry_kernel.Sched.Policy.{Policy, IsLawful}
use sentry_kernel.Sched.Rrmq.Room.{IsUser}
use sentry_kernel.Sched.Rrmq.Lawful.{IsUser-stable}
use sentry_kernel.Kernel.{Kernel, put_sysreturn, push_sig_event}
use sentry_kernel.Kernel.Valid.{Rescheduled, KernelIsValid, put_sysreturn-IsValid, delays-IsValid}
use sentry_kernel.Kernel.Signals.{ready_lem, push_sig_event_lem}
use sentry_kernel.Syscalls.{interrupt, interrupt_sleeper, signal_pushed, gate_send_signal}

del_job-lengths :
    (job : ℕ) (c : DelayedJobset)
    → (length (del_job job c).1.joblist ≡ length c.joblist)
      × (length (del_job job c).1.evlist ≡ length c.evlist)
unfolding del_job
del_job-lengths job c = elim (Option-cases (first_slot (is_job job) 0 c.joblist)) [
  | inl e ↦ rw (del_job, e) (refl, refl)
  | inr (i, e) ↦ rw (del_job, e) (length-update disarm i c.joblist, refl)
]

-- The target after a signal from another task: the signal is in its slot, and it is interrupted when
-- it slept or waited, else it is as it was.
pub record Notified (signal source : ℕ) (t u : Task) : Type 0 where
  pub sigs : u.sigs ≡ set t.sigs (index_of source) signal
  pub effect :
      (((t.state ≡ sleeping) ⊎ (t.state ≡ waitforevent)) × (u.state ≡ ready) × (u.sysreturn ≡ intr))
      ⊎ ((t.state ≢ sleeping) × (t.state ≢ waitforevent) × (u.state ≡ t.state))

module _ {S : Type 0} (p : Policy S) where
  -- What a signal to `target` in state `s` does to delays and scheduler: one that slept or waited is
  -- taken off the delay queue and given to the scheduler, one that waited already at the push.
  abbrev pub IsInterrupted : ℕ → JobState → Kernel S → Kernel S → Type 0
  IsInterrupted target s k k' =
      ((s ≡ sleeping)
        × (k'.delays ≡ (del_job target k.delays).1)
        × Rescheduled p target k'.tasks k.sched k'.sched)
      ⊎ ((s ≡ waitforevent)
          × (k'.delays ≡ (del_job target k.delays).1)
          × ((tab : TaskTable) × (s1 : S) × Rescheduled p target tab k.sched s1
              × Rescheduled p target k'.tasks s1 k'.sched))
      ⊎ ((s ≢ sleeping) × (s ≢ waitforevent) × (k'.delays ≡ k.delays) × (k'.sched ≡ k.sched))

module _ {S : Type 0} (p : Policy S) (IsWell : TaskTable → S → Type 0) (lawful : IsLawful p IsWell)
    (max_tasks : ℕ) where
  interrupt_lem :
      (idle target : ℕ) (t : Task) (k : Kernel S)
      → KernelIsValid p IsWell lawful max_tasks idle k
      → IsUser k.tasks target
      → get_from_handle k.tasks target ≡ some t
      → (k' : Kernel S) × (u : Task) × (interrupt p target k ≡ ret k')
        × KernelIsValid p IsWell lawful max_tasks idle k'
        × (get_from_handle k'.tasks target ≡ some u)
        × (u.sigs ≡ t.sigs)
        × (u.state ≡ ready)
        × (u.sysreturn ≡ intr)
        × Agree k.tasks k'.tasks
        × ((h : ℕ) → h ≢ target → get_from_handle k'.tasks h ≡ get_from_handle k.tasks h)
        × (k'.delays ≡ (del_job target k.delays).1)
        × Rescheduled p target k'.tasks k.sched k'.sched
  interrupt_lem idle target t k v user f =
      let t1 = record t { sysreturn = intr; sysretassigned = secure_true } in
      let put : (set_sysreturn k.tasks target intr).1
          ≡ record k.tasks { cells = set k.tasks.cells (index_of target) t1 } =
        unfold set_sysreturn in rw f refl in
      let seen = λ (h : ℕ). get_from_handle-set k.tasks target h t t1 f refl in
      let agree = set_sysreturn-Agree k.tasks target intr in
      let kd = record k { delays = (del_job target k.delays).1 } in
      let lengths = del_job-lengths target k.delays in
      let vd =
        delays-IsValid p IsWell lawful max_tasks idle k (del_job target k.delays).1 v lengths.0
          lengths.1 in
      let v1 = put_sysreturn-IsValid p IsWell lawful max_tasks idle kd target intr vd in
      let (k', run, w, found, others, delays, same, called) =
        ready_lem p IsWell lawful max_tasks idle target t1 (put_sysreturn target intr kd) v1
          (IsUser-stable k.tasks (set_sysreturn k.tasks target intr).1 agree.numtask agree.metadata
            target user)
          (rw put (ground (arith, seen target))) in
      (
        k',
        record t1 { state = ready },
        run,
        w,
        found,
        refl,
        refl,
        refl,
        Agree-trans k.tasks (set_sysreturn k.tasks target intr).1 k'.tasks agree same,
        (λ h apart. others h apart ∙ rw put (ground (arith, seen h, apart))),
        delays,
        called,
      )

  interrupt_sleeper_other :
      (target : ℕ) (s : JobState) (k : Kernel S)
      → s ≢ sleeping
      → s ≢ waitforevent
      → interrupt_sleeper p target s k ≡ ret k
  interrupt_sleeper_other target sleeping k a b = absurd (a refl)
  interrupt_sleeper_other target waitforevent k a b = absurd (b refl)
  interrupt_sleeper_other target ready k a b = refl
  interrupt_sleeper_other target _ k a b = refl

  -- The signal is stored in `k1`, where the target is `t1`; `s` is its state before that.
  interrupt_sleeper_lem :
      (idle target : ℕ) (s : JobState) (t1 : Task) (k1 : Kernel S)
      → KernelIsValid p IsWell lawful max_tasks idle k1
      → IsUser k1.tasks target
      → get_from_handle k1.tasks target ≡ some t1
      → (k' : Kernel S) × (u : Task) × (interrupt_sleeper p target s k1 ≡ ret k')
        × KernelIsValid p IsWell lawful max_tasks idle k'
        × (get_from_handle k'.tasks target ≡ some u)
        × (u.sigs ≡ t1.sigs)
        × Agree k1.tasks k'.tasks
        × ((h : ℕ) → h ≢ target → get_from_handle k'.tasks h ≡ get_from_handle k1.tasks h)
        × ((((s ≡ sleeping) ⊎ (s ≡ waitforevent))
              × (u.state ≡ ready)
              × (u.sysreturn ≡ intr)
              × (k'.delays ≡ (del_job target k1.delays).1)
              × Rescheduled p target k'.tasks k1.sched k'.sched)
            ⊎ ((s ≢ sleeping)
                × (s ≢ waitforevent)
                × (u ≡ t1)
                × (k'.delays ≡ k1.delays)
                × (k'.sched ≡ k1.sched)))
  interrupt_sleeper_lem idle target s t1 k1 v user f =
      let (k', u, run, w, found, sigs, st, sr, same, others, delays, called) =
        interrupt_lem idle target t1 k1 v user f in
      elim (JobState-discrete s sleeping) [
        | yes e ↦ (
          k',
          u,
          ap (λ s. interrupt_sleeper p target s k1) e ∙ run,
          w,
          found,
          sigs,
          same,
          others,
          inl (inl e, st, sr, delays, called),
        )
        | no a ↦ elim (JobState-discrete s waitforevent) [
          | yes e ↦ (
            k',
            u,
            ap (λ s. interrupt_sleeper p target s k1) e ∙ run,
            w,
            found,
            sigs,
            same,
            others,
            inl (inr e, st, sr, delays, called),
          )
          | no b ↦ (
            k1,
            t1,
            interrupt_sleeper_other target s k1 a b,
            v,
            f,
            refl,
            Agree-refl k1.tasks,
            (λ h apart. refl),
            inr (a, b, refl, refl, refl),
          )
        ]
      ]

  interrupted :
      (target : ℕ) (s : JobState) (k k1 k' : Kernel S) (u t1 : Task)
      → k1.delays ≡ k.delays
      → ((s ≢ waitforevent) × (k1.sched ≡ k.sched))
        ⊎ ((s ≡ waitforevent) × Rescheduled p target k1.tasks k.sched k1.sched)
      → (((s ≡ sleeping) ⊎ (s ≡ waitforevent))
          × (u.state ≡ ready)
          × (u.sysreturn ≡ intr)
          × (k'.delays ≡ (del_job target k1.delays).1)
          × Rescheduled p target k'.tasks k1.sched k'.sched)
        ⊎ ((s ≢ sleeping)
            × (s ≢ waitforevent)
            × (u ≡ t1)
            × (k'.delays ≡ k1.delays)
            × (k'.sched ≡ k1.sched))
      → IsInterrupted p target s k k'
  interrupted target s k k1 k' u t1 same (inl (ne, sched)) (inl (inl e, _, _, delays, called)) =
      inl (
        e,
        delays ∙ ap (λ c. (del_job target c).1) same,
        subst (λ s. Rescheduled p target k'.tasks s k'.sched) sched called,
      )
  interrupted target s k k1 k' u t1 same (inl (ne, sched)) (inl (inr e, _, _, _, _)) = absurd (ne e)
  interrupted target s k k1 k' u t1 same (inl (ne, sched)) (inr (a, b, _, delays, kept)) =
      inr (inr (a, b, delays ∙ same, kept ∙ sched))
  interrupted target s k k1 k' u t1 same (inr (e, first)) (inl (_, _, _, delays, called)) =
      inr
        (inl (e, delays ∙ ap (λ c. (del_job target c).1) same, (k1.tasks, k1.sched, first, called)))
  interrupted target s k k1 k' u t1 same (inr (e, first)) (inr (_, b, _, _, _)) = absurd (b e)

  gate_send_signal-run :
      (frame target signal t : ℕ) (t0 : Task) (k : Kernel S) (r : Kstatus × Kernel S)
      → p.current k.tasks k.sched ≡ ret t
      → t ≢ target
      → 1 ≤ signal
      → signal ≤ 12
      → get_from_handle k.tasks target ≡ some t0
      → push_sig_event p signal t target k ≡ ret r
      → gate_send_signal p frame target signal k ≡ signal_pushed p frame t target t0.state r
  unfolding gate_send_signal get_state
  gate_send_signal-run frame target signal t t0 k r cur apart low high f push =
      let test : (t == target) || ltb signal 1 || ltb 12 signal ≡ false = ground (arith, apart) in
      >>=-ret _ cur ∙ if_false _ _ test ∙ rw (f, push) refl

  -- On a well-formed kernel `gate_send_signal` with a signal in range, from a task to another one that
  -- is a user task, returns to the caller. When the target has not yet taken the caller's last signal
  -- the answer is STATUS_BUSY and nothing else changes; otherwise it is STATUS_OK, the signal is in
  -- the caller's slot of the target, a target that slept or waited is ready with STATUS_INTR, its
  -- delayed job is deleted and the scheduler is called for it, while for any other target delays and
  -- scheduler are left alone; no third task is touched by this, and the kernel stays well formed.
  pub gate_send_signal_lem :
      (idle frame target signal t old : ℕ) (t0 : Task) (k : Kernel S)
      → KernelIsValid p IsWell lawful max_tasks idle k
      → p.current k.tasks k.sched ≡ ret t
      → t ≢ target
      → 1 ≤ signal
      → signal ≤ 12
      → IsUser k.tasks target
      → get_from_handle k.tasks target ≡ some t0
      → get_elem? t0.sigs (index_of t) ≡ some old
      → ((old ≢ 0)
          × (gate_send_signal p frame target signal k ≡ ret (frame, put_sysreturn t busy k)))
        ⊎ ((old ≡ 0)
            × ((k' : Kernel S) × (u : Task) × (gate_send_signal p frame target signal k
                  ≡ ret (frame, put_sysreturn t ok k'))
                × KernelIsValid p IsWell lawful max_tasks idle (put_sysreturn t ok k')
                × (get_from_handle k'.tasks target ≡ some u)
                × Notified signal t t0 u
                × ((h : ℕ) → h ≢ target → get_from_handle k'.tasks h ≡ get_from_handle k.tasks h)
                × IsInterrupted p target t0.state k k'))
  gate_send_signal_lem idle frame target signal t old t0 k v cur apart low high user f slot =
      let run = λ (r : Kstatus × Kernel S).
        gate_send_signal-run frame target signal t t0 k r cur apart low high f in
      elim (push_sig_event_lem p IsWell lawful max_tasks idle signal t target old t0 k v user f
        slot) [
          | inl (full, push) ↦ inl (full, run _ push)
          | inr (z, (k1, t1, push, v1, f1, sig, others1, delays1, agree, called1)) ↦
              let user1 = IsUser-stable k.tasks k1.tasks agree.numtask agree.metadata target user in
              let (k', u, step, w, found, sigs, same, others, effect) =
                interrupt_sleeper_lem idle target t0.state t1 k1 v1 user1 f1 in
              inr (
                z,
                (
                  k',
                  u,
                  run _ push ∙ >>=-ret _ step,
                  put_sysreturn-IsValid p IsWell lawful max_tasks idle k' t ok w,
                  found,
                  record {
                    sigs = sigs ∙ sig.sigs;
                    effect = elim effect [
                      | inl (which, st, sr, _, _) ↦ inl (which, st, sr)
                      | inr (a, b, e, _, _) ↦ inr (
                        a,
                        b,
                        (elim sig.state [
                          | inl (waits, _) ↦ absurd (b waits)
                          | inr (_, st) ↦ ap (λ (x : Task). x.state) e ∙ st
                        ]),
                      )
                    ];
                  },
                  (λ h far. others h far ∙ others1 h far),
                  interrupted target t0.state k k1 k' u t1 delays1 called1 effect,
                ),
              )
        ]
