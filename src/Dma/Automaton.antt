-- ===== src/Dma/Automaton.antt =====
-- The states of a DMA stream, and what the calls of kernel/src/managers/dma/dma.c do to them.
use sentry_kernel.Base.{
  ℕ, ◌≡◌, refl, sym, ◌∙◌, subst, ◌⊎◌, inl, inr, true, false, Option, none, some, if◌then◌else◌,
  if_true, if_false, Bool-cases, Option-cases, set, Run, ret, success,
}
use sentry_kernel.KTypes.{Kstatus, okay, error_invparam, error_badstate, is_okay}
use sentry_kernel.Dma.{
  StreamCfg, StreamState, unset, assigned, started, suspended, StreamConfig, Gpdma, Dma, get_config,
  put_stream,
}
use sentry_kernel.Dma.Calls.{
  assign_in, stream_assign, unassign_in, stream_unassign, start_from, start_in, stream_start,
  suspend_in, stream_suspend, resume_in, stream_resume,
}

-- The calls of `mgr_dma_stream_...`.
pub data Call : Type 0 where
  assign unassign start suspend resume : Call

-- The diagram of the states.
abbrev pub target : Call → StreamState → Option StreamState
target assign unset = some assigned
target unassign assigned = some unset
target unassign suspended = some unset
target start assigned = some started
target start suspended = some started
target suspend started = some suspended
target resume suspended = some started
target _ _ = none

module _ {H : Type 0} (g : Gpdma H) where
  abbrev pub call : Call → ℕ → Dma H → Run (Kstatus × Dma H)
  call assign = stream_assign g
  call unassign = stream_unassign g
  call start = stream_start g
  call suspend = stream_suspend g
  call resume = stream_resume g

  -- The driver function that a call goes through, where there is one.
  abbrev pub driver : Call → StreamState → StreamCfg → H → Kstatus × H
  driver assign unset = g.configure
  driver unassign suspended = g.reset
  driver start _ = g.enable
  driver suspend _ = g.suspend
  driver resume _ = g.resume
  driver _ _ = λ _ hw. (okay, hw)

  -- How a call ends, by what it found.
  pub data Outcome (c : Call) (dmah : ℕ) (d : Dma H) (status : Kstatus) (d' : Dma H) : Type 0 where
    unknown :
        get_config d dmah ≡ none → status ≡ error_invparam → d' ≡ d → Outcome c dmah d status d'
    refused :
        (i : ℕ) (s : StreamConfig)
        → get_config d dmah ≡ some (i, s)
        → target c s.state ≡ none
        → status ≡ error_badstate
        → d' ≡ d
        → Outcome c dmah d status d'
    failed :
        (i : ℕ) (s : StreamConfig) (next : StreamState)
        → get_config d dmah ≡ some (i, s)
        → target c s.state ≡ some next
        → is_okay (driver c s.state s.meta.config d.hw).0 ≡ false
        → is_okay status ≡ false
        → d'.streams ≡ d.streams
        → Outcome c dmah d status d'
    moved :
        (i : ℕ) (s : StreamConfig) (next : StreamState)
        → get_config d dmah ≡ some (i, s)
        → target c s.state ≡ some next
        → (is_okay (driver c s.state s.meta.config d.hw).0 ≡ true) ⊎ (c ≡ start)
        → is_okay status ≡ is_okay (driver c s.state s.meta.config d.hw).0
        → d'.streams ≡ set d.streams i (record s { state = next })
        → Outcome c dmah d status d'

  abbrev pub Ends : Call → ℕ → Dma H → Type 0
  Ends c dmah d =
      (status : Kstatus) × (d' : Dma H) × (call c dmah d ≡ ret (status, d'))
      × Outcome c dmah d status d'

module _ {H : Type 0} (g : Gpdma H) (dmah : ℕ) (d : Dma H) where
  unknown-Ends : (c : Call) → get_config d dmah ≡ none → Ends g c dmah d
  unfolding stream_assign stream_unassign stream_start stream_suspend stream_resume
  unknown-Ends assign e = (error_invparam, d, rw (e, stream_assign), unknown e refl refl)
  unknown-Ends unassign e = (error_invparam, d, rw (e, stream_unassign), unknown e refl refl)
  unknown-Ends start e = (error_invparam, d, rw (e, stream_start), unknown e refl refl)
  unknown-Ends suspend e = (error_invparam, d, rw (e, stream_suspend), unknown e refl refl)
  unknown-Ends resume e = (error_invparam, d, rw (e, stream_resume), unknown e refl refl)

  -- What a call does to the cell that was found, by its state.
  abbrev pub call_in : Call → ℕ → StreamConfig → StreamState → Run (Kstatus × Dma H)
  call_in assign i s st = assign_in g i s d st
  call_in unassign i s st = unassign_in g i s d st
  call_in start i s st = start_in g i s d st
  call_in suspend i s st = suspend_in g i s d st
  call_in resume i s st = resume_in g i s d st

  pub call-found :
      (c : Call) (i : ℕ) (s : StreamConfig)
      → get_config d dmah ≡ some (i, s)
      → call g c dmah d ≡ call_in c i s s.state
  unfolding stream_assign stream_unassign stream_start stream_suspend stream_resume
  call-found assign i s e = rw (e, stream_assign)
  call-found unassign i s e = rw (e, stream_unassign)
  call-found start i s e = rw (e, stream_start)
  call-found suspend i s e = rw (e, stream_suspend)
  call-found resume i s e = rw (e, stream_resume)

  module _ (i : ℕ) (s : StreamConfig) (found : get_config d dmah ≡ some (i, s)) where
    abbrev EndsIn : Call → StreamState → Type 0
    EndsIn c st =
        (status : Kstatus) × (d' : Dma H) × (call_in c i s st ≡ ret (status, d'))
        × Outcome g c dmah d status d'

    -- A call that asks the driver first.
    driven_ends :
        (c : Call) (st next : StreamState)
        → s.state ≡ st
        → target c st ≡ some next
        → (m : Run (Kstatus × Dma H)) (bad : Kstatus) (good : Kstatus) (hw' : H)
        → m ≡ (
            if is_okay (driver g c st s.meta.config d.hw).0
            then ret (good, put_stream i (record s { state = next }) hw' d)
            else ret (bad, record d { hw = (driver g c st s.meta.config d.hw).1 }))
        → (is_okay (driver g c st s.meta.config d.hw).0 ≡ false → is_okay bad ≡ false)
        → (is_okay (driver g c st s.meta.config d.hw).0 ≡ true → is_okay good ≡ true)
        → (status : Kstatus) × (d' : Dma H) × (m ≡ ret (status, d')) × Outcome g c dmah d status d'
    driven_ends c st next e t m bad good hw' run worse better =
        elim (Bool-cases (is_okay (driver g c st s.meta.config d.hw).0)) [
          | inl good_driver ↦ (
            good,
            put_stream i (record s { state = next }) hw' d,
            run ∙ if_true _ _ good_driver,
            moved i s next found (rw e t) (inl (rw e good_driver))
                (rw e (better good_driver ∙ sym good_driver)) refl,
          )
          | inr bad_driver ↦ (
            bad,
            record d { hw = (driver g c st s.meta.config d.hw).1 },
            run ∙ if_false _ _ bad_driver,
            failed i s next found (rw e t) (rw e bad_driver) (worse bad_driver) refl,
          )
        ]

    refused_ends :
        (c : Call) (st : StreamState)
        → s.state ≡ st
        → target c st ≡ none
        → call_in c i s st ≡ ret (error_badstate, d)
        → EndsIn c st
    refused_ends c st e t run = (error_badstate, d, run, refused i s found (rw e t) refl refl)

    start_ends :
        (st : StreamState)
        → s.state ≡ st
        → target start st ≡ some started
        → call_in start i s st ≡ start_from g i s d
        → EndsIn start st
    start_ends st e t run =
        let (status, hw) = g.enable s.meta.config d.hw in
        (
          status,
          put_stream i (record s { state = started }) hw d,
          run,
          moved i s started found (rw e t) (inr refl) refl refl,
        )

    call_in_ends :
        (irq : ℕ) × (g.get_interrupt s.meta.config ≡ success irq)
        → (c : Call) (st : StreamState) → s.state ≡ st
        → EndsIn c st
    call_in_ends wired assign unset e =
        let (irq, f) = wired in
        driven_ends assign unset assigned e refl _ _ okay
          (g.enable_irq irq (g.configure s.meta.config d.hw).1) (rw f refl) (λ x. x) (λ _. refl)
    call_in_ends wired unassign suspended e =
        driven_ends unassign suspended unset e refl _ error_badstate okay
          (g.reset s.meta.config d.hw).1 refl (λ _. refl) (λ _. refl)
    call_in_ends wired unassign assigned e = (
      okay,
      put_stream i (record s { state = unset }) d.hw d,
      refl,
      moved i s unset found (rw e refl) (inl (rw e refl)) (rw e refl) refl,
    )
    call_in_ends wired start assigned e = start_ends assigned e refl refl
    call_in_ends wired start suspended e = start_ends suspended e refl refl
    call_in_ends wired suspend started e =
        driven_ends suspend started suspended e refl _ _ _ (g.suspend s.meta.config d.hw).1 refl
          (λ x. x) (λ x. x)
    call_in_ends wired resume suspended e =
        driven_ends resume suspended started e refl _ _ _ (g.resume s.meta.config d.hw).1 refl
          (λ x. x) (λ x. x)
    call_in_ends wired c st e = refused_ends c st e refl refl

-- The driver knows the interrupt of the stream behind a handle.
abbrev pub Wired : {H : Type 0} → Gpdma H → Dma H → ℕ → Type 0
Wired g d dmah =
    (i : ℕ) (s : StreamConfig)
    → get_config d dmah ≡ some (i, s)
    → (irq : ℕ) × (g.get_interrupt s.meta.config ≡ success irq)

-- Every call on a stream returns, if the driver knows the interrupt of the stream. For a handle that
-- no stream has it reports K_ERROR_INVPARAM, in a state that the diagram has no edge from it reports
-- K_ERROR_BADSTATE, and nothing changes. Along an edge the stream behind the handle takes the next
-- state, and no other field or stream changes, if the driver succeeds or the call is a start; if it
-- fails in another call no stream changes. The call succeeds there exactly when the driver does.
pub stream_call_lem :
    {H : Type 0} (g : Gpdma H) (c : Call) (dmah : ℕ) (d : Dma H) → Wired g d dmah → Ends g c dmah d
stream_call_lem {H} g c dmah d wired = elim (Option-cases (get_config d dmah)) [
  | inl e ↦ unknown-Ends g dmah d c e
  | inr ((i, s), e) ↦
      subst
        (λ m.
          (status : Kstatus) × (d' : Dma H) × (m ≡ ret (status, d')) × Outcome g c dmah d status d')
        (sym (call-found g dmah d c i s e))
        (call_in_ends g dmah d i s e (wired i s e) c s.state refl)
]
