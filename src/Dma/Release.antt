-- ===== src/Dma/Release.antt =====
-- Giving a DMA stream back: sequences of the calls of kernel/src/managers/dma/dma.c.
use sentry_kernel.Base.{
  ℕ, ◌+◌, ◌≡◌, refl, sym, ap, ◌∙◌, subst, ◌≢◌, true, none, some, List, [], ◌∷◌, arith, if_true,
  get_elem?, set, get_elem?-set_ne, Run, ret, ◌>>=◌, >>=-ret,
}
use sentry_kernel.KTypes.{is_okay}
use sentry_kernel.Dma.{
  StreamCfg, StreamState, unset, assigned, started, suspended, StreamConfig, Gpdma, Dma,
  find_config, get_config, put_stream,
}
use sentry_kernel.Dma.Automaton.{Call, unassign, suspend, target, call, call_in, call-found}
use sentry_kernel.Dma.Lookup.{find_config-set}

-- What the driver does, where `Runs` and `Halts` say of a hardware state that the channel of a stream
-- runs, that it is suspended: a channel that runs can be suspended and is suspended then, and one that
-- is suspended can be reset. In other states both may be refused, as stm32u5-gpdma.c does.
pub record Works {H : Type 0} (g : Gpdma H) (Runs Halts : StreamCfg → H → Type 0) : Type 0 where
  pub suspends :
      (cfg : StreamCfg) (hw : H)
      → Runs cfg hw
      → (is_okay (g.suspend cfg hw).0 ≡ true) × Halts cfg (g.suspend cfg hw).1
  pub resets : (cfg : StreamCfg) (hw : H) → Halts cfg hw → is_okay (g.reset cfg hw).0 ≡ true

-- The channel is in the state that the manager has recorded for the stream.
abbrev pub InStep :
    {H : Type 0}
    → (StreamCfg → H → Type 0)
    → (StreamCfg → H → Type 0)
    → StreamCfg
    → H
    → StreamState
    → Type 0
InStep Runs Halts cfg hw unset = Unit
InStep Runs Halts cfg hw assigned = Unit
InStep Runs Halts cfg hw started = Runs cfg hw
InStep Runs Halts cfg hw suspended = Halts cfg hw

-- The calls that give a stream back.
abbrev pub release_plan : StreamState → List Call
release_plan unset = []
release_plan assigned = unassign ∷ []
release_plan started = suspend ∷ unassign ∷ []
release_plan suspended = unassign ∷ []

abbrev pub run_calls : {H : Type 0} → Gpdma H → ℕ → List Call → Dma H → Run (Dma H)
run_calls g dmah [] d = ret d
run_calls g dmah (c ∷ cs) d = do (_, d') ← call g c dmah d; run_calls g dmah cs d'

-- The stream behind the handle is unset, and no other cell has changed.
abbrev pub Released : {H : Type 0} → ℕ → ℕ → Dma H → StreamConfig → Dma H → Type 0
Released dmah i d s d' =
    (get_config d' dmah ≡ some (i, record s { state = unset }))
    × ((j : ℕ) → i ≢ j → get_elem? d'.streams j ≡ get_elem? d.streams j)

module _ {H : Type 0} (g : Gpdma H) (Runs Halts : StreamCfg → H → Type 0) (w : Works g Runs Halts)
    (dmah i : ℕ) where
  abbrev Releases : Dma H → StreamConfig → List Call → Type 0
  Releases d s plan = (d' : Dma H) × (run_calls g dmah plan d ≡ ret d') × Released dmah i d s d'

  get_config-put :
      (d : Dma H) (s s' : StreamConfig) (hw : H)
      → get_config d dmah ≡ some (i, s)
      → s'.handle ≡ s.handle
      → get_config (put_stream i s' hw d) dmah ≡ some (i, s')
  unfolding get_config
  get_config-put d s s' hw e same =
      let here : 0 + i ≡ i = omega arith in
      subst (λ n. find_config dmah 0 (set d.streams i s') ≡ some (n, s')) here
        (find_config-set dmah 0 d.streams s s' i
          (subst (λ n. find_config dmah 0 d.streams ≡ some (n, s)) (sym here) e) same)

  put_unset :
      (d : Dma H) (s : StreamConfig) (hw : H)
      → get_config d dmah ≡ some (i, s)
      → Released dmah i d s (put_stream i (record s { state = unset }) hw d)
  put_unset d s hw e = (
    get_config-put d s (record s { state = unset }) hw e refl,
    λ j n. get_elem?-set_ne d.streams i j (record s { state = unset }) n,
  )

  run_unassign :
      (d : Dma H) (s : StreamConfig) (st : StreamState)
      → s.state ≡ st
      → target unassign st ≢ none
      → InStep Runs Halts s.meta.config d.hw st
      → get_config d dmah ≡ some (i, s)
      → Releases d s (unassign ∷ [])
  run_unassign d s assigned st t step e = (
    put_stream i (record s { state = unset }) d.hw d,
    >>=-ret _ (call-found g dmah d unassign i s e ∙ ap (call_in g dmah d unassign i s) st),
    put_unset d s d.hw e,
  )
  run_unassign d s suspended st t step e =
      let hw = (g.reset s.meta.config d.hw).1 in
      (
        put_stream i (record s { state = unset }) hw d,
        >>=-ret _ (
            call-found g dmah d unassign i s e
            ∙ ap (call_in g dmah d unassign i s) st
            ∙ if_true _ _ (w.resets s.meta.config d.hw step)),
        put_unset d s hw e,
      )
  run_unassign d s unset st t step e = absurd (t refl)
  run_unassign d s started st t step e = absurd (t refl)

  run_release :
      (d : Dma H) (s : StreamConfig) (st : StreamState)
      → s.state ≡ st
      → InStep Runs Halts s.meta.config d.hw st
      → get_config d dmah ≡ some (i, s)
      → Releases d s (release_plan st)
  run_release d s unset st step e =
      (d, refl, (e ∙ ap (λ q. some (i, record s { state = q })) st, λ j n. refl))
  run_release d s assigned st step e = run_unassign d s assigned st (λ n. cc) step e
  run_release d s suspended st step e = run_unassign d s suspended st (λ n. cc) step e
  run_release d s started st step e =
      let s1 = record s { state = suspended } in
      let hw = (g.suspend s.meta.config d.hw).1 in
      let (good, halted) = w.suspends s.meta.config d.hw step in
      let d1 = put_stream i s1 hw d in
      let (d', run, (found, others)) =
        run_unassign d1 s1 suspended refl (λ n. cc) halted (get_config-put d s s1 hw e refl) in
      (
        d',
        >>=-ret _ (
              call-found g dmah d suspend i s e
              ∙ ap (call_in g dmah d suspend i s) st
              ∙ if_true _ _ good)
            ∙ run,
        (found, λ j n. others j n ∙ get_elem?-set_ne d.streams i j s1 n),
      )

-- With a driver that suspends a channel that runs and resets one that is suspended, and a channel in
-- the state that is recorded for its stream, a stream in any state is brought back to unset by at most
-- two calls, a suspension if it runs and an unassignment if it is assigned: then the handle finds the
-- same stream, unset, with its other fields as before, and no other cell has changed.
pub release_lem :
    {H : Type 0} (g : Gpdma H) (Runs Halts : StreamCfg → H → Type 0) (dmah i : ℕ) (d : Dma H)
    (s : StreamConfig)
    → Works g Runs Halts
    → InStep Runs Halts s.meta.config d.hw s.state
    → get_config d dmah ≡ some (i, s)
    → (d' : Dma H) × (run_calls g dmah (release_plan s.state) d ≡ ret d') × Released dmah i d s d'
release_lem g Runs Halts dmah i d s w step found =
    run_release g Runs Halts w dmah i d s s.state refl step found
