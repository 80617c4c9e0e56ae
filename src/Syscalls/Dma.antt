-- ===== src/Syscalls/Dma.antt =====
-- The system calls on DMA streams: kernel/src/syscalls, sysgate_dma_assign.c, sysgate_dma_unassign.c,
-- sysgate_dma_start.c, sysgate_dma_suspend.c, sysgate_dma_resume.c, sysgate_dma_get_info.c and
-- sysgate_get_dmahandle.c, as built with CONFIG_HAS_GPDMA. The bit of CAP_DEV_DMA is an argument.
pub mod Gates
use sentry_kernel.Base.{
  ℕ, List, ◌==◌, if◌then◌else◌, Run, ret, panic, ◌>>=◌, Result, success, failure,
}
use sentry_kernel.KTypes.{
  SecureBool, secure_true, secure_false, Kstatus, is_okay, kernel_invalid_manager_response, Status,
  ok, invalid, denied, no_entity,
}
use sentry_kernel.Task.{get_metadata}
use sentry_kernel.Task.Exchange.{word_bytes, put_exchange}
use sentry_kernel.Dma.{StreamCfg, Gpdma, Dma, get_info, get_handle_of, get_owner}
use sentry_kernel.Dma.Calls.{
  stream_assign, stream_unassign, stream_start, stream_suspend, stream_resume,
}
use sentry_kernel.Sched.Policy.{Policy}
use sentry_kernel.Kernel.{Kernel, put_sysreturn}
use sentry_kernel.Security.{has_capa}

-- What a gate on streams hands back: the frame, the kernel and the DMA manager.
abbrev pub DmaGate : Type 0 → Type 0 → Type 0
DmaGate S H = Run (ℕ × (Kernel S × Dma H))

-- What a caller gets without the capability, and with it.
abbrev pub by_capability {ℓ} : {A : Type ℓ} → A → A → SecureBool → A
by_capability refused act secure_false = refused
by_capability refused act secure_true = act

module _ {S H : Type 0} where
  -- The label `end` of the gates: the return value is set, over one that was set before.
  abbrev pub leave_with : ℕ → ℕ → Status → Kernel S → Dma H → DmaGate S H
  leave_with frame t sysret k d = ret (frame, (put_sysreturn t sysret k, d))

  -- The three guards that the gates share, then `act`. A caller without the capability is set
  -- STATUS_DENIED, which the label then replaces by what `sysret` was at the start.
  abbrev pub guarded : ℕ → ℕ → ℕ → ℕ → Kernel S → Dma H → DmaGate S H → Result ℕ → DmaGate S H
  guarded cap_dev_dma frame t dmah k d act (failure _) = leave_with frame t invalid k d
  guarded cap_dev_dma frame t dmah k d act (success owner) =
      if owner == t
      then (has_capa k.tasks t cap_dev_dma
          >>= by_capability (leave_with frame t no_entity (put_sysreturn t denied k) d) act)
      else leave_with frame t denied k d

  -- A call of the DMA manager, by its status.
  abbrev pub called : ℕ → ℕ → Kernel S → Kstatus × Dma H → DmaGate S H
  called frame t k (status, d) = leave_with frame t (if is_okay status then ok else invalid) k d

  abbrev pub stream_gate :
      (ℕ → Dma H → Run (Kstatus × Dma H)) → Policy S → ℕ → ℕ → ℕ → Kernel S → Dma H → DmaGate S H
  stream_gate act p cap_dev_dma frame dmah k d = do
    t ← p.current k.tasks k.sched
    guarded cap_dev_dma frame t dmah k d (act dmah d >>= called frame t k) (get_owner d dmah)

module _ {S H : Type 0} (p : Policy S) (g : Gpdma H) (cap_dev_dma : ℕ) where
  unfoldable pub gate_dma_assign : ℕ → ℕ → Kernel S → Dma H → DmaGate S H
  gate_dma_assign = stream_gate (stream_assign g) p cap_dev_dma

  unfoldable pub gate_dma_unassign : ℕ → ℕ → Kernel S → Dma H → DmaGate S H
  gate_dma_unassign = stream_gate (stream_unassign g) p cap_dev_dma

  unfoldable pub gate_dma_start : ℕ → ℕ → Kernel S → Dma H → DmaGate S H
  gate_dma_start = stream_gate (stream_start g) p cap_dev_dma

  unfoldable pub gate_dma_suspend : ℕ → ℕ → Kernel S → Dma H → DmaGate S H
  gate_dma_suspend = stream_gate (stream_suspend g) p cap_dev_dma

  unfoldable pub gate_dma_resume : ℕ → ℕ → Kernel S → Dma H → DmaGate S H
  gate_dma_resume = stream_gate (stream_resume g) p cap_dev_dma

module _ {S H : Type 0} (p : Policy S) (cap_dev_dma : ℕ) where
  -- The copy of `gate_dma_getinfo`; `image` is the layout of the structure in memory.
  abbrev pub copy_info :
      (StreamCfg → List ℕ) → ℕ → ℕ → Kernel S → Dma H → Result StreamCfg → DmaGate S H
  copy_info image frame t k d (failure _) = leave_with frame t invalid k d
  copy_info image frame t k d (success cfg) =
      leave_with frame t ok (record k { tasks = put_exchange t (image cfg) k.tasks }) d

  unfoldable pub gate_dma_getinfo : (StreamCfg → List ℕ) → ℕ → ℕ → Kernel S → Dma H → DmaGate S H
  gate_dma_getinfo image frame dmah k d = do
    t ← p.current k.tasks k.sched
    elim (get_metadata k.tasks t) [
      | failure _ ↦ panic kernel_invalid_manager_response
      | success _ ↦
          guarded cap_dev_dma frame t dmah k d (copy_info image frame t k d (get_info d dmah))
            (get_owner d dmah)
    ]

  -- `gate_get_dmahandle` behind the search for the owner.
  abbrev pub hand_over : ℕ → ℕ → ℕ → Kernel S → Dma H → Result ℕ → DmaGate S H
  hand_over frame t dmah k d (failure _) = leave_with frame t invalid k d
  hand_over frame t dmah k d (success owner) =
      has_capa k.tasks t cap_dev_dma
      >>= by_capability (leave_with frame t denied k d) (
          if owner == t
          then elim (get_metadata k.tasks t) [
            | failure _ ↦ panic kernel_invalid_manager_response
            | success _ ↦
                leave_with frame t ok
                  (record k { tasks = put_exchange t (word_bytes dmah) k.tasks }) d
          ]
          else leave_with frame t invalid k d)

  unfoldable pub gate_get_dmahandle : ℕ → ℕ → Kernel S → Dma H → DmaGate S H
  gate_get_dmahandle frame streamlabel k d = do
    t ← p.current k.tasks k.sched
    elim (get_handle_of d streamlabel) [
      | failure _ ↦ leave_with frame t invalid k d
      | success dmah ↦ hand_over frame t dmah k d (get_owner d dmah)
    ]
