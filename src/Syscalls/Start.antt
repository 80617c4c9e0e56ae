-- ===== src/Syscalls/Start.antt =====
-- kernel/src/syscalls/sysgate_start.c.
use sentry_kernel.Base.{
  ℕ, ◌≡◌, refl, ◌∙◌, ◌≢◌, ◌⊎◌, inl, inr, true, false, some, arith, ◌==◌, ret, panic, ◌>>=◌, >>=-ret,
  Result, success, failure,
}
use sentry_kernel.KTypes.{
  secure_true, secure_false, Kstatus, okay, kernel_invalid_manager_response, ok, invalid, denied,
}
use sentry_kernel.Task.{TaskMeta, get_metadata, get_handle}
use sentry_kernel.Sched.Policy.{Policy}
use sentry_kernel.Kernel.{Kernel, Gate, put_sysreturn}
use sentry_kernel.Syscalls.{answer}
use sentry_kernel.Security.{has_capa}
use native.Mathlib.Decide.{ℕ_discrete}
use Prim.Native.Nat.{bit_and}

module _ {S : Type 0} (p : Policy S) where
  -- The end of `gate_start`: the status of the scheduling.
  abbrev pub started : ℕ → ℕ → Kernel S → Kstatus × S → Gate S
  started frame t k (okay, s) = answer frame t ok (record k { sched = s })
  started frame t k (_, s) = panic kernel_invalid_manager_response

  abbrev pub start_target : ℕ → ℕ → Kernel S → Result ℕ → Gate S
  start_target frame t k (failure _) = answer frame t invalid k
  start_target frame t k (success h) = p.schedule k.tasks h k.sched >>= started frame t k

  -- `gate_start`; `procstart` is CAP_SYS_PROCSTART.
  unfoldable pub gate_start : ℕ → ℕ → ℕ → Kernel S → Gate S
  gate_start procstart frame target_label k = do
    t ← p.current k.tasks k.sched
    allowed ← has_capa k.tasks t procstart
    elim allowed [
      | secure_false ↦ answer frame t denied k
      | secure_true ↦ get_handle k.tasks target_label >>= start_target frame t k
    ]

  -- `gate_start` by a task with metadata `m`: without the capability it is refused and nothing but its
  -- return value changes; with it, an unknown label is refused in the same way, and for a known one the
  -- scheduler's answer decides: the task is started and the caller told so, or the kernel panics.
  pub gate_start_lem :
      (procstart frame label t : ℕ) (m : TaskMeta) (r : Result ℕ) (k : Kernel S)
      → p.current k.tasks k.sched ≡ ret t
      → get_metadata k.tasks t ≡ success (some m)
      → get_handle k.tasks label ≡ ret r
      → ((bit_and m.capabilities procstart ≡ 0)
          × (gate_start procstart frame label k ≡ ret (frame, put_sysreturn t denied k)))
        ⊎ ((bit_and m.capabilities procstart ≢ 0)
            × (gate_start procstart frame label k ≡ start_target frame t k r))
  unfolding gate_start has_capa
  gate_start_lem procstart frame label t m r k cur meta find =
      elim (ℕ_discrete (bit_and m.capabilities procstart) 0) [
        | yes z ↦
            let test : (bit_and m.capabilities procstart == 0) ≡ true = ground arith in
            inl (z, >>=-ret _ cur ∙ rw (meta, test) refl)
        | no ne ↦
            let test : (bit_and m.capabilities procstart == 0) ≡ false = ground (arith, ne) in
            inr (ne, >>=-ret _ cur ∙ rw (meta, test, find) refl)
      ]
