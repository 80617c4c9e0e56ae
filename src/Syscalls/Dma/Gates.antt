-- ===== src/Syscalls/Dma/Gates.antt =====
-- Who may drive a DMA stream, and what a gate then does: the five gates of kernel/src/syscalls that
-- call the DMA manager.
use sentry_kernel.Base.{
  ℕ, ◌≡◌, refl, sym, ap, ◌∙◌, subst, ◌≢◌, true, false, none, some, arith, ◌==◌, if◌then◌else◌,
  if_true, if_false, ==_iff, ret, ◌>>=◌, >>=-ret, Result, success, failure,
}
use sentry_kernel.KTypes.{
  secure_true, secure_false, Kstatus, is_okay, Status, ok, invalid, denied, no_entity,
}
use sentry_kernel.Task.{TaskMeta, get_from_handle, get_state, get_metadata, get_sysreturn}
use sentry_kernel.Task.Accessors.{Keeps, sysreturn_protocol}
use sentry_kernel.Task.Agree.{Agree-there, set_sysreturn-Agree}
use sentry_kernel.Dma.{Gpdma, Dma, get_owner}
use sentry_kernel.Dma.Automaton.{
  Call, assign, unassign, start, suspend, resume, call, Outcome, Ends, Wired, stream_call_lem,
}
use sentry_kernel.Sched.Policy.{Policy}
use sentry_kernel.Kernel.{Kernel, put_sysreturn}
use sentry_kernel.Security.{has_capa}
use sentry_kernel.Syscalls.Dma.{
  DmaGate, leave_with, guarded, called, stream_gate, gate_dma_assign, gate_dma_unassign,
  gate_dma_start, gate_dma_suspend, gate_dma_resume,
}
use native.Mathlib.Decide.{ℕ_discrete}
use Prim.Native.Nat.{bit_and}

-- The gate of each call.
abbrev pub gate_of :
    {S H : Type 0} → Call → Policy S → Gpdma H → ℕ → ℕ → ℕ → Kernel S → Dma H → DmaGate S H
gate_of assign p g cap = gate_dma_assign p g cap
gate_of unassign p g cap = gate_dma_unassign p g cap
gate_of start p g cap = gate_dma_start p g cap
gate_of suspend p g cap = gate_dma_suspend p g cap
gate_of resume p g cap = gate_dma_resume p g cap

-- How a gate ends, for a caller `t` with the capabilities `caps`, its answer and the streams.
pub data Verdict {H : Type 0} (g : Gpdma H) (c : Call) (cap caps t dmah : ℕ) (d : Dma H)
    (sysret : Status) (d' : Dma H) : Type 0 where
  no_stream :
      (e : Kstatus)
      → get_owner d dmah ≡ failure e
      → sysret ≡ invalid
      → d' ≡ d
      → Verdict g c cap caps t dmah d sysret d'
  not_owner :
      (owner : ℕ)
      → get_owner d dmah ≡ success owner
      → owner ≢ t
      → sysret ≡ denied
      → d' ≡ d
      → Verdict g c cap caps t dmah d sysret d'
  incapable :
      get_owner d dmah ≡ success t
      → bit_and caps cap ≡ 0
      → sysret ≡ no_entity
      → d' ≡ d
      → Verdict g c cap caps t dmah d sysret d'
  driven :
      (status : Kstatus)
      → get_owner d dmah ≡ success t
      → bit_and caps cap ≢ 0
      → sysret ≡ (if is_okay status then ok else invalid)
      → call g c dmah d ≡ ret (status, d')
      → Outcome g c dmah d status d'
      → Verdict g c cap caps t dmah d sysret d'

module _ {S H : Type 0} (p : Policy S) (g : Gpdma H) (cap frame t dmah : ℕ) (m : TaskMeta)
    (k : Kernel S) (d : Dma H) where
  -- The gate returns to the caller, which reads its answer back; no task changes its state.
  abbrev pub Answers : (Status → Dma H → Type 0) → DmaGate S H → Type 0
  Answers P gate =
      (sysret : Status) × (k' : Kernel S) × (d' : Dma H) × (gate ≡ ret (frame, (k', d')))
      × (get_sysreturn k'.tasks t ≡ success sysret)
      × Keeps get_state k.tasks k'.tasks
      × (k'.sched ≡ k.sched)
      × (k'.delays ≡ k.delays)
      × (k'.shms ≡ k.shms)
      × P sysret d'

  gate-stream_gate :
      (c : Call) → gate_of c p g cap frame dmah k d ≡ stream_gate (call g c) p cap frame dmah k d
  unfolding gate_dma_assign gate_dma_unassign gate_dma_start gate_dma_suspend gate_dma_resume
  gate-stream_gate assign = refl
  gate-stream_gate unassign = refl
  gate-stream_gate start = refl
  gate-stream_gate suspend = refl
  gate-stream_gate resume = refl

  leave-Answers :
      (P : Status → Dma H → Type 0) (s : Status) (d' : Dma H)
      → get_from_handle k.tasks t ≢ none
      → P s d'
      → Answers P (leave_with frame t s k d')
  leave-Answers P s d' there q =
      let (_, reads, keeps, _, _, _) = sysreturn_protocol k.tasks t s there in
      (s, put_sysreturn t s k, d', refl, reads t ∙ if_true _ _ same, keeps, refl, refl, refl, q)
    where
      same : (t == t) ≡ true
      same = (==_iff t t).1 refl

  has_capa-lacking :
      get_metadata k.tasks t ≡ success (some m)
      → bit_and m.capabilities cap ≡ 0
      → has_capa k.tasks t cap ≡ ret secure_false
  unfolding has_capa
  has_capa-lacking meta z = rw meta (ground arith)

  has_capa-given :
      get_metadata k.tasks t ≡ success (some m)
      → bit_and m.capabilities cap ≢ 0
      → has_capa k.tasks t cap ≡ ret secure_true
  unfolding has_capa
  has_capa-given meta nz = rw meta (ground arith)

  there_of : get_metadata k.tasks t ≡ success (some m) → get_from_handle k.tasks t ≢ none
  unfolding get_metadata
  there_of meta e = ground arith

  incapable-Answers :
      (P : Status → Dma H → Type 0)
      → get_from_handle k.tasks t ≢ none
      → P no_entity d
      → Answers P (leave_with frame t no_entity (put_sysreturn t denied k) d)
  incapable-Answers P there q =
      let k1 = put_sysreturn t denied k in
      let (_, _, keeps1, _, _, _) = sysreturn_protocol k.tasks t denied there in
      let (_, reads, keeps, _, _, _) =
        sysreturn_protocol k1.tasks t no_entity
          (Agree-there k.tasks k1.tasks t (set_sysreturn-Agree k.tasks t denied) there) in
      (
        no_entity,
        put_sysreturn t no_entity k1,
        d,
        refl,
        reads t ∙ if_true _ _ ((==_iff t t).1 refl),
        (λ h. keeps h ∙ keeps1 h),
        refl,
        refl,
        refl,
        q,
      )

  -- The guards, for a caller with metadata `m`.
  guarded-Answers :
      (c : Call) (r : Result ℕ)
      → get_metadata k.tasks t ≡ success (some m)
      → Ends g c dmah d
      → get_owner d dmah ≡ r
      → Answers
          (Verdict g c cap m.capabilities t dmah d)
          (guarded cap frame t dmah k d (call g c dmah d >>= called frame t k) r)
  guarded-Answers c (failure e) meta ends own =
      leave-Answers _ invalid d (there_of meta) (no_stream e own refl refl)
  guarded-Answers c (success owner) meta (status, d', run, outcome) own =
      elim (ℕ_discrete owner t) [
        | no other ↦
            let test : (owner == t) ≡ false = ground arith in
            subst (Answers (Verdict g c cap m.capabilities t dmah d)) (sym (if_false _ _ test))
              (leave-Answers _ denied d (there_of meta) (not_owner owner own other refl refl))
        | yes mine ↦
            let own' : get_owner d dmah ≡ success t = own ∙ ap success mine in
            let pass = if_true _ _ ((==_iff owner t).1 mine) in
            elim (ℕ_discrete (bit_and m.capabilities cap) 0) [
              | yes z ↦
                  subst (Answers (Verdict g c cap m.capabilities t dmah d))
                    (sym (pass ∙ >>=-ret _ (has_capa-lacking meta z)))
                    (incapable-Answers _ (there_of meta) (incapable own' z refl refl))
              | no nz ↦
                  subst (Answers (Verdict g c cap m.capabilities t dmah d))
                    (sym (pass ∙ >>=-ret _ (has_capa-given meta nz) ∙ >>=-ret _ run))
                    (leave-Answers _ _ d' (there_of meta) (driven status own' nz refl run outcome))
            ]
      ]

-- A gate on a DMA stream, called by a task with metadata where the driver knows the interrupt of the
-- stream, returns the frame of the caller, which reads the answer back; no task changes its state, and
-- scheduler, delays and shared memories are left alone. It answers STATUS_INVALID for a handle of no
-- stream, STATUS_DENIED to a caller that is not the owner, STATUS_NO_ENTITY to an owner without the
-- capability, and then no stream changes. The capable owner gets the call of the DMA manager, which
-- ends along the diagram of the stream states, and STATUS_OK if its status is K_STATUS_OKAY,
-- STATUS_INVALID if not.
pub gate_dma_lem :
    {S H : Type 0} (p : Policy S) (g : Gpdma H) (c : Call) (cap frame t dmah : ℕ) (m : TaskMeta)
    (k : Kernel S) (d : Dma H)
    → p.current k.tasks k.sched ≡ ret t
    → get_metadata k.tasks t ≡ success (some m)
    → Wired g d dmah
    → Answers p g cap frame t dmah m k d
        (Verdict g c cap m.capabilities t dmah d)
        (gate_of c p g cap frame dmah k d)
gate_dma_lem p g c cap frame t dmah m k d cur meta wired =
    subst (Answers p g cap frame t dmah m k d (Verdict g c cap m.capabilities t dmah d))
      (sym (gate-stream_gate p g cap frame t dmah m k d c ∙ >>=-ret _ cur))
      (guarded-Answers p g cap frame t dmah m k d c (get_owner d dmah) meta
        (stream_call_lem g c dmah d wired) refl)
