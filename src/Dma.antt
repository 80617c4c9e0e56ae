-- ===== src/Dma.antt =====
-- The DMA manager: kernel/src/managers/dma/dma.c and dma.h, with the types of uapi/include/uapi/dma.h.
-- The controller driver and the interrupt controller are an interface, `Gpdma`, over a hardware
-- state `H` of their own. The stream descriptions that the build generates from the device tree
-- are an argument of `init_streams`, and so are the cells before the call: those that a failed
-- initialisation does not reach stay. The compile-time variant without CONFIG_HAS_GPDMA is left out.
pub mod Calls
pub mod Automaton
pub mod Lookup
pub mod Release
use sentry_kernel.Base.{
  ℕ, ◌+◌, ◌*◌, ◌/◌, ◌%◌, ◌^◌, Bool, Option, none, some, List, [], ◌∷◌, ◌==◌, if◌then◌else◌,
  get_elem?, set, Run, ret, panic, fault, ◌>>=◌, Result, success, failure,
}
use sentry_kernel.KTypes.{
  Kstatus, okay, error_invparam, error_badstate, error_noent, is_okay, hardware_invalid_state,
  configuration_mismatch,
}
use sentry_kernel.Task.{TaskTable, get_handle}

pub record Kdmah : Type 0 where
  pub reserved : ℕ
  pub streamid : ℕ
  pub family : ℕ

abbrev pub dmah_to_kdmah : ℕ → Kdmah
dmah_to_kdmah h = record {
  reserved = h % 2 ^ 21;
  streamid = h / 2 ^ 21 % 2 ^ 8;
  family = h / 2 ^ 29 % 2 ^ 3;
}

abbrev pub kdmah_to_dmah : Kdmah → ℕ
kdmah_to_dmah k = k.reserved % 2 ^ 21 + k.streamid % 2 ^ 8 * 2 ^ 21 + k.family % 2 ^ 3 * 2 ^ 29

-- `gpdma_chan_status_t`, and the two values of its state that the manager tests.
pub record ChanStatus : Type 0 where
  pub state : ℕ
  pub half_reached : ℕ
  pub completed : ℕ

abbrev pub gpdma_state_idle : ℕ
gpdma_state_idle = 1

abbrev pub gpdma_state_suspended : ℕ
gpdma_state_suspended = 4

-- `gpdma_stream_cfg_t`
pub record StreamCfg : Type 0 where
  pub channel : ℕ
  pub stream : ℕ
  pub controller : ℕ
  pub transfer_type : ℕ
  pub source : ℕ
  pub dest : ℕ
  pub transfer_len : ℕ
  pub circular_source : Bool
  pub circular_dest : Bool
  pub interrupts : ℕ
  pub is_triggered : Bool
  pub trigger : ℕ
  pub priority : ℕ
  pub transfer_mode : ℕ
  pub src_beat_len : ℕ
  pub dest_beat_len : ℕ

-- `dma_meta_t`
pub record DmaMeta : Type 0 where
  pub label : ℕ
  pub owner : ℕ
  pub config : StreamCfg

-- `dma_stream_state_t`
pub data StreamState : Type 0 where
  unset assigned started suspended : StreamState

-- `dma_stream_config_t`
pub record StreamConfig : Type 0 where
  pub meta : DmaMeta
  pub handle : ℕ
  pub owner : ℕ
  pub state : StreamState
  pub status : ChanStatus

-- What the manager calls: kernel/include/bsp/drivers/dma/gpdma.h, and `mgr_interrupt_enable_irq`.
pub record Gpdma (H : Type 0) : Type 0 where
  pub probe : ℕ → H → Kstatus × H
  pub configure : StreamCfg → H → Kstatus × H
  pub enable : StreamCfg → H → Kstatus × H
  pub suspend : StreamCfg → H → Kstatus × H
  pub resume : StreamCfg → H → Kstatus × H
  pub reset : StreamCfg → H → Kstatus × H
  pub get_status : StreamCfg → H → Result ChanStatus
  pub clear_status : StreamCfg → H → H
  pub get_interrupt : StreamCfg → Result ℕ
  pub enable_irq : ℕ → H → H

-- `stream_config`, and the hardware.
pub record Dma (H : Type 0) : Type 0 where
  pub streams : List StreamConfig
  pub hw : H

-- The cell that `mgr_dma_init` makes.
abbrev pub fresh_stream : ℕ → ℕ → DmaMeta → ℕ → StreamConfig
fresh_stream streamid seed m owner = record {
  meta = m;
  handle = kdmah_to_dmah (record { reserved = seed; streamid = streamid; family = 2 });
  owner = owner;
  state = unset;
  status = record { state = gpdma_state_idle; half_reached = 0; completed = 0 };
}

-- The loop of `mgr_dma_get_config`, from cell `i` on: a pointer is an index, with what it points to.
abbrev pub find_config : ℕ → ℕ → List StreamConfig → Option (ℕ × StreamConfig)
find_config dmah i [] = none
find_config dmah i (s ∷ ss) =
    let rest = find_config dmah (i + 1) ss in if s.handle == dmah then some (i, s) else rest

-- The loop of `mgr_dma_get_handle`.
abbrev pub find_label : ℕ → List StreamConfig → Result ℕ
find_label label [] = failure error_invparam
find_label label (s ∷ ss) =
    let rest = find_label label ss in if s.meta.label == label then success s.handle else rest

-- The cell that a handle names by its stream identifier.
abbrev pub match_stream : ℕ → Option StreamConfig → Option StreamConfig
match_stream d none = none
match_stream d (some s) = if s.handle == d then some s else none

module _ {H : Type 0} where
  -- `mgr_dma_get_config`
  unfoldable pub get_config : Dma H → ℕ → Option (ℕ × StreamConfig)
  get_config d dmah = find_config dmah 0 d.streams

  -- `mgr_dma_get_info`
  unfoldable pub get_info : Dma H → ℕ → Result StreamCfg
  get_info d dmah = elim (find_config dmah 0 d.streams) [
    | none ↦ failure error_invparam
    | some (_, s) ↦ success s.meta.config
  ]

  -- `mgr_dma_get_handle`
  unfoldable pub get_handle_of : Dma H → ℕ → Result ℕ
  get_handle_of d label = find_label label d.streams

  -- `mgr_dma_get_owner`
  unfoldable pub get_owner : Dma H → ℕ → Result ℕ
  get_owner d dmah = elim (match_stream dmah (get_elem? d.streams (dmah_to_kdmah dmah).streamid)) [
    | none ↦ failure error_invparam
    | some s ↦ success s.owner
  ]

  -- `mgr_dma_get_status`, which copies the state of the stream, not that of the channel.
  unfoldable pub get_status : Dma H → ℕ → Result StreamState
  get_status d dmah = elim (match_stream dmah (get_elem? d.streams (dmah_to_kdmah dmah).streamid)) [
    | none ↦ failure error_invparam
    | some s ↦ success s.state
  ]

  -- A write of the cell that `mgr_dma_get_config` pointed to.
  abbrev pub put_stream : ℕ → StreamConfig → H → Dma H → Dma H
  put_stream i s hw d = record { streams = set d.streams i s; hw = hw }

module _ {H : Type 0} (g : Gpdma H) where
  -- A round of `mgr_dma_init`, from the probe of the controller on; `old` are the cells behind.
  abbrev pub probed :
      StreamConfig
      → List StreamConfig
      → (H → Run (Kstatus × Dma H))
      → Kstatus × H
      → Run (Kstatus × Dma H)
  probed s old rest (status, hw) =
      if is_okay status
      then (do (end, d) ← rest hw; ret (end, record d { streams = s ∷ d.streams }))
      else ret (error_badstate, record { streams = s ∷ old; hw = hw })

  -- A round from the handle of the owner on, and from the random number on.
  abbrev pub owned_by :
      ℕ
      → ℕ
      → DmaMeta
      → List StreamConfig
      → (H → Run (Kstatus × Dma H))
      → H
      → Result ℕ
      → Run (Kstatus × Dma H)
  owned_by streamid seed m old rest hw (failure _) = panic configuration_mismatch
  owned_by streamid seed m old rest hw (success owner) =
      probed (fresh_stream streamid seed m owner) old rest (g.probe m.config.controller hw)

  abbrev pub init_stream :
      TaskTable
      → ℕ
      → DmaMeta
      → List StreamConfig
      → (H → Run (Kstatus × Dma H))
      → H
      → Result ℕ
      → Run (Kstatus × Dma H)
  init_stream tab streamid m old rest hw (failure _) = panic hardware_invalid_state
  init_stream tab streamid m old rest hw (success seed) =
      get_handle tab m.owner >>= owned_by streamid seed m old rest hw

  -- The loop of `mgr_dma_init` from cell `streamid` on; the entropy source gives `entropy streamid`.
  -- `stream_config` is a static array: the cells that are not reached stay as they were.
  unfoldable pub init_streams :
      (ℕ → Result ℕ) → TaskTable → ℕ → List DmaMeta → List StreamConfig → H → Run (Kstatus × Dma H)
  init_streams entropy tab streamid [] old hw = ret (okay, record { streams = old; hw = hw })
  init_streams entropy tab streamid (m ∷ ms) [] hw = fault
  init_streams entropy tab streamid (m ∷ ms) (o ∷ old) hw =
      init_stream tab streamid m old (init_streams entropy tab (streamid + 1) ms old) hw
        (entropy streamid)

  -- The loop of `mgr_dma_get_dmah_from_interrupt`.
  unfoldable pub dmah_from_interrupt : ℕ → List StreamConfig → Run (Result ℕ)
  dmah_from_interrupt irq [] = ret (failure error_noent)
  dmah_from_interrupt irq (s ∷ ss) =
      let rest = dmah_from_interrupt irq ss in
      elim (g.get_interrupt s.meta.config) [
        | failure _ ↦ panic configuration_mismatch
        | success n ↦ if n == irq then ret (success s.handle) else rest
      ]
