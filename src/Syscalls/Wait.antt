-- ===== src/Syscalls/Wait.antt =====
-- kernel/src/syscalls/sysgate_waitforevent.c, as built with CONFIG_HAS_GPDMA. The timeout is an
-- `int32_t`, given as its 32-bit pattern; `devh_of` is mgr_device_get_devh_from_interrupt.
pub mod Idle
use sentry_kernel.Base.{
  ℕ, ◌%◌, ◌^◌, Bool, not, ◌&&◌, Option, none, some, List, [], ◌∷◌, ltb, ◌==◌, if◌then◌else◌, ret,
  panic, fault, ◌>>=◌, Result, success, failure,
}
use sentry_kernel.KTypes.{
  Kstatus, is_okay, waitforevent, kernel_invalid_manager_response, ok, again, non_sense,
}
use sentry_kernel.Task.{TaskMeta, TaskTable, get_sp, get_metadata}
use sentry_kernel.Task.Events.{load_int_event, load_dma_event, load_sig_event}
use sentry_kernel.Task.Exchange.{
  word_bytes, event_bytes, event_type_ipc, event_type_signal, event_type_irq, event_type_dma,
  put_exchange,
}
use sentry_kernel.Delay.{add_job}
use sentry_kernel.Sched.Policy.{Policy}
use sentry_kernel.Kernel.{Kernel, Gate, put_state, put_sysreturn}
use sentry_kernel.Kernel.Ipc.{load_ipc_event}
use sentry_kernel.Syscalls.{answer}
use Prim.Native.Nat.{bit_and}

-- The test `mask & EVENT_TYPE_...`.
abbrev pub asks : ℕ → ℕ → Bool
asks mask event_type = not (bit_and mask event_type == 0)

module _ {S : Type 0} where
  -- The three `gate_waitforevent_populate_...`: an event in the exchange area of the current task,
  -- which goes on with STATUS_OK.
  abbrev pub populated : ℕ → ℕ → List ℕ → Kernel S → Result (Option TaskMeta) → Gate S
  populated frame t bytes k (failure _) = panic kernel_invalid_manager_response
  populated frame t bytes k (success none) = fault
  populated frame t bytes k (success (some _)) =
      answer frame t ok (record k { tasks = put_exchange t bytes k.tasks })

  abbrev pub populate : ℕ → ℕ → List ℕ → Kernel S → Gate S
  populate frame t bytes k = populated frame t bytes k (get_metadata k.tasks t)

  abbrev pub signal_loaded :
      ℕ → ℕ → (Kernel S → Gate S) → Kernel S → Result (ℕ × ℕ) × TaskTable → Gate S
  signal_loaded frame t rest k (failure _, tab) = rest (record k { tasks = tab })
  signal_loaded frame t rest k (success (sig, source), tab) =
      populate frame t (event_bytes event_type_signal 4 source (word_bytes sig))
        (record k { tasks = tab })

  -- A device that is not found leaves the handle unset.
  abbrev pub irq_loaded :
      (ℕ → Result ℕ) → ℕ → ℕ → (Kernel S → Gate S) → Kernel S → Result ℕ × TaskTable → Gate S
  irq_loaded devh_of frame t rest k (failure _, tab) = rest (record k { tasks = tab })
  irq_loaded devh_of frame t rest k (success irqn, tab) = elim (devh_of irqn) [
    | failure _ ↦ fault
    | success devh ↦
        populate frame t (event_bytes event_type_irq 4 devh (word_bytes irqn))
          (record k { tasks = tab })
  ]

  abbrev pub dma_loaded :
      ℕ → ℕ → (Kernel S → Gate S) → Kernel S → Result (ℕ × ℕ) × TaskTable → Gate S
  dma_loaded frame t rest k (failure _, tab) = rest (record k { tasks = tab })
  dma_loaded frame t rest k (success (dmah, event), tab) =
      populate frame t (event_bytes event_type_dma 1 dmah (event % 256 ∷ []))
        (record k { tasks = tab })

  abbrev pub ipc_loaded : ℕ → ℕ → (Kernel S → Gate S) → Kstatus × Kernel S → Gate S
  ipc_loaded frame t rest (status, k) = if is_okay status then answer frame t ok k else rest k

module _ {S : Type 0} (p : Policy S) where
  -- `sched_elect`, then `mgr_task_get_sp`, whose failure leaves the frame of the caller.
  abbrev pub elect_or_stay : ℕ → Kernel S → Gate S
  elect_or_stay frame k = do
    (next, s) ← p.elect k.tasks k.sched
    ret (elim (get_sp k.tasks next) [ failure _ ↦ frame | success sp ↦ sp ], record k { sched = s })

  -- No event: the end of `gate_waitforevent`. The status of the delay is not looked at.
  abbrev pub wait_for : ℕ → ℕ → ℕ → Kernel S → Gate S
  wait_for frame t delay k =
      if delay == 0xffffffff
      then answer frame t again k
      else elect_or_stay frame (
          put_sysreturn t non_sense (
            put_state t waitforevent (
              if ltb 0 delay && ltb delay (2 ^ 31)
              then record k { delays = (add_job t delay k.delays).1 }
              else k)))

module _ {S : Type 0} (p : Policy S) (mpu : ℕ → Kstatus) (devh_of : ℕ → Result ℕ) where
  -- The four checks, in the order of the code.
  abbrev pub wait_ipc : ℕ → ℕ → ℕ → ℕ → Kernel S → Gate S
  wait_ipc frame mask delay t k =
      if asks mask event_type_ipc
      then (load_ipc_event p mpu t k >>= ipc_loaded frame t (wait_for p frame t delay))
      else wait_for p frame t delay k

  abbrev pub wait_dma : ℕ → ℕ → ℕ → ℕ → Kernel S → Gate S
  wait_dma frame mask delay t k =
      if asks mask event_type_dma
      then (load_dma_event k.tasks t >>= dma_loaded frame t (wait_ipc frame mask delay t) k)
      else wait_ipc frame mask delay t k

  abbrev pub wait_irq : ℕ → ℕ → ℕ → ℕ → Kernel S → Gate S
  wait_irq frame mask delay t k =
      if asks mask event_type_irq
      then (load_int_event k.tasks t >>= irq_loaded devh_of frame t (wait_dma frame mask delay t) k)
      else wait_dma frame mask delay t k

  abbrev pub wait_signal : ℕ → ℕ → ℕ → ℕ → Kernel S → Gate S
  wait_signal frame mask delay t k =
      if asks mask event_type_signal
      then (load_sig_event k.tasks t >>= signal_loaded frame t (wait_irq frame mask delay t) k)
      else wait_irq frame mask delay t k

  -- `gate_waitforevent`
  unfoldable pub gate_waitforevent : ℕ → ℕ → ℕ → Kernel S → Gate S
  gate_waitforevent frame mask delay k = do
    t ← p.current k.tasks k.sched
    wait_signal frame mask delay t k
