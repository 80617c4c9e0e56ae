-- ===== src/Syscalls/Ipc/Deadlock.antt =====
-- The answer of `ipc_generates_deadlock` and the chains of pending IPCs.
use sentry_kernel.Base.{
  ℕ, zero, suc, ◌+◌, ◌≤◌, ◌≡◌, refl, sym, ap, ◌∙◌, ◌≢◌, ◌⊎◌, inl, inr, Option, none, some, List, [],
  ◌∷◌, arith, get_elem?, ret, >>=-eq-ret,
}
use sentry_kernel.KTypes.{SecureBool, secure_true, secure_false}
use sentry_kernel.Task.{Task, TaskTable, get_from_handle}
use sentry_kernel.Syscalls.Ipc.{deadlock_loop, out_of_fuel, ipc_generates_deadlock}
use sentry_kernel.Syscalls.Ipc.Chains.{IsPending, Chain, sent_directly, sent_through, NothingIn}
use sentry_kernel.Syscalls.Ipc.Steps.{popped, reached, pushed, step_lem}
use native.Mathlib.Decide.{ℕ_discrete, dec_lt}

module _ (max_tasks : ℕ) (tab : TaskTable) (target : ℕ) where
  abbrev FrameIsFree : ℕ × ℕ → Type 0
  FrameIsFree (peer, idx) =
      (i q : ℕ) → idx ≤ i → IsPending tab peer q i → (q ≢ target) × (¬ Chain tab target q)

  abbrev AllFree : List (ℕ × ℕ) → Type 0
  AllFree [] = Unit
  AllFree (f ∷ fs) = FrameIsFree f × AllFree fs

  -- Nothing is pending before the slot where an iteration stops.
  pending-behind :
      (owner q i idx stop : ℕ) (t : Task) (pending : IsPending tab owner q i)
      → get_from_handle tab owner ≡ some t
      → NothingIn t.ipcs idx stop
      → idx ≤ i
      → stop ≤ i
  pending-behind owner q i idx stop t pending f none_in low = elim (dec_lt i stop) [
    | no n ↦ omega arith
    | yes before ↦
        let same : t ≡ pending.task = cc in
        let e : some 0 ≡ some pending.len =
          sym (none_in i low before) ∙ ap (λ (t : Task). get_elem? t.ipcs i) same ∙ pending.slot in
        let len_zero : 0 ≡ pending.len = cc in absurd (omega (arith, len_zero, pending.sent))
  ]

  same_source :
      (owner q q' i j : ℕ) → IsPending tab owner q i → IsPending tab owner q' j → i ≡ j → q ≡ q'
  same_source owner q q' i j a b e =
      let at : get_elem? tab.cells i ≡ some b.peer = ap (get_elem? tab.cells) e ∙ b.cell in
      let same : a.peer ≡ b.peer = cc in sym a.from ∙ ap (λ (t : Task). t.handle) same ∙ b.from

  no-Chain : (q : ℕ) → FrameIsFree (q, 0) → ¬ Chain tab target q
  no-Chain q free (sent_directly i pending) = (free i target (omega arith) pending).0 refl
  no-Chain q free (sent_through via i pending chain) = (free i via (omega arith) pending).1 chain

  -- When the loop answers no, the frames of its stack lead nowhere.
  deadlock_loop-free :
      (fuel : ℕ) (stack : List (ℕ × ℕ))
      → deadlock_loop fuel max_tasks tab target stack ≡ ret (some secure_false)
      → AllFree stack
  deadlock_loop-free zero stack r = absurd (unfold deadlock_loop in cc)
  deadlock_loop-free (suc fuel) [] r = tt
  deadlock_loop-free (suc fuel) ((peer, idx) ∷ rest) r =
      elim (step_lem max_tasks tab target fuel peer idx rest (some secure_false) r) [
        | popped t f none_in r' ↦ (
          (λ i q low pending.
              let behind = pending-behind peer q i idx tab.numtask t pending f none_in low in
              absurd (omega (arith, behind, pending.inside))),
          deadlock_loop-free fuel rest r',
        )
        | reached _ _ e ↦ absurd (cc)
        | pushed i q pending low none_in ne room r' ↦
            let (free, (later, others)) =
              deadlock_loop-free fuel ((q, 0) ∷ (peer, i + 1) ∷ rest) r' in
            (
              (λ j q' from other.
                  let behind =
                    pending-behind peer q' j idx i pending.task other pending.found none_in from in
                  elim (ℕ_discrete i j) [
                    | no apart ↦ later j q' (omega (arith, behind)) other
                    | yes same ↦
                        let e : q ≡ q' = same_source peer q q' i j pending other same in
                        rw (sym e) (ne, no-Chain q free)
                  ]),
              others,
            )
      ]

  -- Every frame of the stack passes a chain on to `current`.
  abbrev AllLead : ℕ → List (ℕ × ℕ) → Type 0
  AllLead current [] = Unit
  AllLead current ((peer, _) ∷ fs) =
      (Chain tab target peer → Chain tab target current) × AllLead current fs

  -- When the loop answers yes, a chain leads to `current`.
  deadlock_loop-Chain :
      (fuel current : ℕ) (stack : List (ℕ × ℕ))
      → AllLead current stack
      → deadlock_loop fuel max_tasks tab target stack ≡ ret (some secure_true)
      → Chain tab target current
  deadlock_loop-Chain zero current stack lead r = absurd (unfold deadlock_loop in cc)
  deadlock_loop-Chain (suc fuel) current [] lead r = absurd (unfold deadlock_loop in cc)
  deadlock_loop-Chain (suc fuel) current ((peer, idx) ∷ rest) (first, others) r =
      elim (step_lem max_tasks tab target fuel peer idx rest (some secure_true) r) [
        | popped _ _ _ r' ↦ deadlock_loop-Chain fuel current rest others r'
        | reached i pending _ ↦ first (sent_directly i pending)
        | pushed i q pending _ _ _ _ r' ↦
            deadlock_loop-Chain fuel current ((q, 0) ∷ (peer, i + 1) ∷ rest)
              ((λ chain. first (sent_through q i pending chain)), (first, others)) r'
      ]

  out_of_fuel-ret : (r : Option SecureBool) (b : SecureBool) → out_of_fuel r ≡ ret b → r ≡ some b
  out_of_fuel-ret none b h = cc
  out_of_fuel-ret (some c) b h = cc

  -- An answer of `ipc_generates_deadlock` is right: yes, and a chain of pending IPCs leads from the
  -- target to the caller, directly or through other tasks; or no, and there is no such chain.
  pub ipc_generates_deadlock_lem :
      (current : ℕ) (answer : SecureBool)
      → ipc_generates_deadlock max_tasks tab current target ≡ ret answer
      → ((answer ≡ secure_true) × Chain tab target current)
        ⊎ ((answer ≡ secure_false) × (¬ Chain tab target current))
  unfolding ipc_generates_deadlock
  ipc_generates_deadlock_lem current secure_true h =
      let (r, run, e) = >>=-eq-ret _ out_of_fuel h in
      let run' = run ∙ ap ret (out_of_fuel-ret r secure_true e) in
      inl (refl, deadlock_loop-Chain _ current ((current, 0) ∷ []) ((λ chain. chain), tt) run')
  ipc_generates_deadlock_lem current secure_false h =
      let (r, run, e) = >>=-eq-ret _ out_of_fuel h in
      let run' = run ∙ ap ret (out_of_fuel-ret r secure_false e) in
      inr (refl, no-Chain current (deadlock_loop-free _ ((current, 0) ∷ []) run').0)
