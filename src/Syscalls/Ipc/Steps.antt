-- ===== src/Syscalls/Ipc/Steps.antt =====
-- One iteration of the loop of `ipc_generates_deadlock`.
use sentry_kernel.Base.{
  ℕ, suc, ◌+◌, ◌≤◌, ◌<◌, ◌≡◌, sym, ◌∙◌, subst, ◌≢◌, Option, some, List, ◌∷◌, arith, length, ret,
  >>=-ret, >>=-eq-ret, Result, success, failure,
}
use sentry_kernel.KTypes.{SecureBool, secure_true}
use sentry_kernel.Task.{Task, TaskTable, get_from_handle}
use sentry_kernel.Task.Events.{local_ipc_iterate}
use sentry_kernel.Syscalls.Ipc.{deadlock_loop}
use sentry_kernel.Syscalls.Ipc.Chains.{
  IsPending, NothingIn, Iterated, exhausted, found_at, local_ipc_iterate_lem,
}
use native.Mathlib.Decide.{ℕ_discrete, dec_lt}

module _ (max_tasks : ℕ) (tab : TaskTable) (target : ℕ) where
  -- What one iteration does with the frame on top.
  pub data Step (fuel peer idx : ℕ) (rest : List (ℕ × ℕ)) (b : Option SecureBool) : Type 0 where
    popped :
        (task : Task)
        → get_from_handle tab peer ≡ some task
        → NothingIn task.ipcs idx tab.numtask
        → deadlock_loop fuel max_tasks tab target rest ≡ ret b
        → Step fuel peer idx rest b
    reached :
        (i : ℕ) → IsPending tab peer target i → b ≡ some secure_true → Step fuel peer idx rest b
    pushed :
        (i q : ℕ) (pending : IsPending tab peer q i)
        → idx ≤ i
        → NothingIn pending.task.ipcs idx i
        → q ≢ target
        → 1 + length rest < max_tasks
        → deadlock_loop fuel max_tasks tab target ((q, 0) ∷ (peer, i + 1) ∷ rest) ≡ ret b
        → Step fuel peer idx rest b

  step_of :
      (fuel peer idx : ℕ) (rest : List (ℕ × ℕ)) (b : Option SecureBool) (found : Result (ℕ × ℕ))
      → Iterated tab peer idx found
      → local_ipc_iterate tab peer idx ≡ ret found
      → deadlock_loop (suc fuel) max_tasks tab target ((peer, idx) ∷ rest) ≡ ret b
      → Step fuel peer idx rest b
  unfolding deadlock_loop
  step_of fuel peer idx rest b (failure _) (exhausted status task f none_in) r h =
      popped task f none_in (sym (>>=-ret _ r) ∙ h)
  step_of fuel peer idx rest b (success _) (found_at i q pending low none_in) r h =
      let h' = sym (>>=-ret _ r) ∙ h in
      elim (ℕ_discrete q target) [
        | yes e ↦ reached i (subst (λ q. IsPending tab peer q i) e pending) (ground (arith, e, h'))
        | no ne ↦ elim (dec_lt (1 + length rest) max_tasks) [
          | yes room ↦ pushed i q pending low none_in ne room (ground (arith, ne, room, h'))
          | no full ↦ absurd (ground (arith, ne, full, h'))
        ]
      ]

  pub step_lem :
      (fuel peer idx : ℕ) (rest : List (ℕ × ℕ)) (b : Option SecureBool)
      → deadlock_loop (suc fuel) max_tasks tab target ((peer, idx) ∷ rest) ≡ ret b
      → Step fuel peer idx rest b
  unfolding deadlock_loop
  step_lem fuel peer idx rest b h =
      let (found, r, _) = >>=-eq-ret (local_ipc_iterate tab peer idx) _ h in
      step_of fuel peer idx rest b found (local_ipc_iterate_lem tab peer idx found r) r h
