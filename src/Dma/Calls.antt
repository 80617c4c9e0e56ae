-- ===== src/Dma/Calls.antt =====
-- The calls on a stream and the events of its channel: kernel/src/managers/dma/dma.c.
use sentry_kernel.Base.{
  ℕ, not, ◌&&◌, none, some, ◌==◌, if◌then◌else◌, Run, ret, fault, success, failure,
}
use sentry_kernel.KTypes.{Kstatus, okay, error_invparam, error_badstate, is_okay}
use sentry_kernel.Dma.{
  ChanStatus, gpdma_state_idle, gpdma_state_suspended, StreamState, unset, assigned, started,
  suspended, StreamConfig, Gpdma, Dma, get_config, put_stream,
}

module _ {H : Type 0} (g : Gpdma H) where
  -- `mgr_dma_stream_assign` behind the search. An interrupt number that the driver does not give is
  -- read all the same.
  abbrev pub configured : ℕ → StreamConfig → Dma H → Kstatus × H → Run (Kstatus × Dma H)
  configured i s d (status, hw) =
      if is_okay status
      then elim (g.get_interrupt s.meta.config) [
        | failure _ ↦ fault
        | success irq ↦
            ret (okay, put_stream i (record s { state = assigned }) (g.enable_irq irq hw) d)
      ]
      else ret (status, record d { hw = hw })

  abbrev pub assign_in : ℕ → StreamConfig → Dma H → StreamState → Run (Kstatus × Dma H)
  assign_in i s d unset = configured i s d (g.configure s.meta.config d.hw)
  assign_in i s d _ = ret (error_badstate, d)

  unfoldable pub stream_assign : ℕ → Dma H → Run (Kstatus × Dma H)
  stream_assign dmah d = elim (get_config d dmah) [
    | none ↦ ret (error_invparam, d)
    | some (i, s) ↦ assign_in i s d s.state
  ]

  -- `mgr_dma_stream_unassign`
  abbrev pub unassign_in : ℕ → StreamConfig → Dma H → StreamState → Run (Kstatus × Dma H)
  unassign_in i s d assigned = ret (okay, put_stream i (record s { state = unset }) d.hw d)
  unassign_in i s d suspended =
      let (status, hw) = g.reset s.meta.config d.hw in
      if is_okay status
      then ret (okay, put_stream i (record s { state = unset }) hw d)
      else ret (error_badstate, record d { hw = hw })
  unassign_in i s d _ = ret (error_badstate, d)

  unfoldable pub stream_unassign : ℕ → Dma H → Run (Kstatus × Dma H)
  stream_unassign dmah d = elim (get_config d dmah) [
    | none ↦ ret (error_invparam, d)
    | some (i, s) ↦ unassign_in i s d s.state
  ]

  -- `mgr_dma_stream_start`: the stream is started even if the driver reports a failure.
  abbrev pub start_from : ℕ → StreamConfig → Dma H → Run (Kstatus × Dma H)
  start_from i s d =
      let (status, hw) = g.enable s.meta.config d.hw in
      ret (status, put_stream i (record s { state = started }) hw d)

  abbrev pub start_in : ℕ → StreamConfig → Dma H → StreamState → Run (Kstatus × Dma H)
  start_in i s d assigned = start_from i s d
  start_in i s d suspended = start_from i s d
  start_in i s d _ = ret (error_badstate, d)

  unfoldable pub stream_start : ℕ → Dma H → Run (Kstatus × Dma H)
  stream_start dmah d = elim (get_config d dmah) [
    | none ↦ ret (error_invparam, d)
    | some (i, s) ↦ start_in i s d s.state
  ]

  -- The end of `mgr_dma_stream_suspend` and `mgr_dma_stream_resume`.
  abbrev pub driven : ℕ → StreamConfig → StreamState → Dma H → Kstatus × H → Run (Kstatus × Dma H)
  driven i s next d (status, hw) =
      if is_okay status
      then ret (status, put_stream i (record s { state = next }) hw d)
      else ret (status, record d { hw = hw })

  abbrev pub suspend_in : ℕ → StreamConfig → Dma H → StreamState → Run (Kstatus × Dma H)
  suspend_in i s d started = driven i s suspended d (g.suspend s.meta.config d.hw)
  suspend_in i s d _ = ret (error_badstate, d)

  unfoldable pub stream_suspend : ℕ → Dma H → Run (Kstatus × Dma H)
  stream_suspend dmah d = elim (get_config d dmah) [
    | none ↦ ret (error_invparam, d)
    | some (i, s) ↦ suspend_in i s d s.state
  ]

  abbrev pub resume_in : ℕ → StreamConfig → Dma H → StreamState → Run (Kstatus × Dma H)
  resume_in i s d suspended = driven i s started d (g.resume s.meta.config d.hw)
  resume_in i s d _ = ret (error_badstate, d)

  unfoldable pub stream_resume : ℕ → Dma H → Run (Kstatus × Dma H)
  stream_resume dmah d = elim (get_config d dmah) [
    | none ↦ ret (error_invparam, d)
    | some (i, s) ↦ resume_in i s d s.state
  ]

  -- The update of the state automaton by `mgr_dma_treat_chan_event`: two tests, one after the other.
  abbrev pub after_event : ChanStatus → StreamState → StreamState
  after_event st old =
      let next =
        if not (st.completed == 0) && st.state == gpdma_state_idle then assigned else old in
      if st.state == gpdma_state_suspended then suspended else next

  unfoldable pub treat_chan_event : ℕ → Dma H → Run (Kstatus × Dma H)
  treat_chan_event dmah d = elim (get_config d dmah) [
    | none ↦ ret (error_invparam, d)
    | some (i, s) ↦ elim (g.get_status s.meta.config d.hw) [
      | failure _ ↦ ret (error_invparam, d)
      | success st ↦ ret (
        okay,
        put_stream i (record s { status = st; state = after_event st s.state })
            (g.clear_status s.meta.config d.hw) d,
      )
    ]
  ]
