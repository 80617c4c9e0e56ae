-- ===== src/Dma/Lookup.antt =====
-- How handles name DMA streams, and what follows over several calls: mgr_dma_init, mgr_dma_get_config,
-- mgr_dma_get_owner.
use sentry_kernel.Base.{
  ℕ, zero, suc, ◌+◌, ◌^◌, ◌≤◌, ◌<◌, ◌≡◌, sym, ap, ◌∙◌, subst, inl, inr, Option, some, List, [], ◌∷◌,
  arith, if_true, if_false, Bool-cases, length, get_elem?, set, Run, ret, >>=-eq-ret, Result,
  success, failure,
}
use sentry_kernel.KTypes.{Kstatus, okay, error_badstate, is_okay}
use sentry_kernel.Task.{TaskTable, get_handle}
use sentry_kernel.Dma.{
  dmah_to_kdmah, DmaMeta, StreamConfig, Gpdma, Dma, fresh_stream, find_config, get_config,
  get_owner, probed, owned_by, init_stream, init_streams,
}
use native.Mathlib.Decide.{ℕ_discrete}

-- The cell at `i` carries `i` in its handle.
abbrev pub StreamsAreNamed : ℕ → List StreamConfig → Type 0
StreamsAreNamed i [] = Unit
StreamsAreNamed i (s ∷ ss) = ((dmah_to_kdmah s.handle).streamid ≡ i) × StreamsAreNamed (i + 1) ss

fresh_stream-named :
    (i seed owner : ℕ) (m : DmaMeta)
    → i < 2 ^ 8
    → (dmah_to_kdmah (fresh_stream i seed m owner).handle).streamid ≡ i
fresh_stream-named i seed owner m h = omega arith

-- A stream that the search finds from cell `i` on stands in its cell and carries the handle.
find_config-cell :
    (dmah i : ℕ) (ss : List StreamConfig) {j : ℕ} {s : StreamConfig}
    → find_config dmah i ss ≡ some (j, s)
    → (k : ℕ) × (j ≡ i + k) × (get_elem? ss k ≡ some s) × (s.handle ≡ dmah)
find_config-cell dmah i [] e = absurd (ground arith)
find_config-cell dmah i (x ∷ xs) {j} {s} e = elim (ℕ_discrete x.handle dmah) [
  | yes same ↦
      let here : ◌≡◌ {A = Option (ℕ × StreamConfig)} (some (i, x)) (some (j, s)) = ground arith in
      (0, ground arith, ground arith, ground arith)
  | no other ↦
      let (k, a, b, c) = find_config-cell dmah (i + 1) xs {j = j} {s = s} (ground arith) in
      (suc k, omega arith, b, c)
]

StreamsAreNamed-get :
    (i : ℕ) (ss : List StreamConfig) (k : ℕ) {s : StreamConfig}
    → StreamsAreNamed i ss
    → get_elem? ss k ≡ some s
    → (dmah_to_kdmah s.handle).streamid ≡ i + k
StreamsAreNamed-get i [] k named e = absurd (ground arith)
StreamsAreNamed-get i (x ∷ xs) zero (name, named) e = ground arith
StreamsAreNamed-get i (x ∷ xs) (suc k) {s} (name, named) e =
    StreamsAreNamed-get (i + 1) xs k {s = s} named e ∙ omega arith

-- The first stream with the handle is found again after a write that keeps the handle.
pub find_config-set :
    (dmah i : ℕ) (ss : List StreamConfig) (s s' : StreamConfig) (k : ℕ)
    → find_config dmah i ss ≡ some (i + k, s)
    → s'.handle ≡ s.handle
    → find_config dmah i (set ss k s') ≡ some (i + k, s')
find_config-set dmah i [] s s' k e same = absurd (ground arith)
find_config-set dmah i (x ∷ xs) s s' zero e same = elim (ℕ_discrete x.handle dmah) [
  | yes here ↦ ground arith
  | no other ↦
      let (k, a, b, c) = find_config-cell dmah (i + 1) xs {j = i + 0} {s = s} (ground arith) in
      absurd (omega arith)
]
find_config-set dmah i (x ∷ xs) s s' (suc k) e same = elim (ℕ_discrete x.handle dmah) [
  | yes here ↦ absurd (ground arith)
  | no other ↦
      let up : i + suc k ≡ i + 1 + k = omega arith in
      let ih =
        find_config-set dmah (i + 1) xs s s' k
          (subst (λ n. find_config dmah (i + 1) xs ≡ some (n, s)) up (ground arith)) same in
      ground (arith, ih)
]

-- Where every handle carries the index of its cell, `mgr_dma_get_owner`, which goes by the
-- identifier, and `mgr_dma_get_config`, which searches, find the same stream.
pub owner-config :
    {H : Type 0} (d : Dma H) (dmah i : ℕ) (s : StreamConfig)
    → StreamsAreNamed 0 d.streams
    → get_config d dmah ≡ some (i, s)
    → get_owner d dmah ≡ success s.owner
unfolding get_config get_owner
owner-config d dmah i s named e =
    let (k, a, b, c) = find_config-cell dmah 0 d.streams {j = i} {s = s} e in
    let at : (dmah_to_kdmah s.handle).streamid ≡ k =
      StreamsAreNamed-get 0 d.streams k {s = s} named b ∙ omega arith in
    ground (
      arith,
      ap (λ h. get_elem? d.streams (dmah_to_kdmah h).streamid) c,
      ap (get_elem? d.streams) at,
    )

module _ {H : Type 0} (g : Gpdma H) where
  probed-named :
      (i : ℕ) (s : StreamConfig) (old : List StreamConfig) (rest : H → Run (Kstatus × Dma H))
      (probe : Kstatus × H) {d : Dma H}
      → (dmah_to_kdmah s.handle).streamid ≡ i
      → ((hw : H) (d : Dma H) → rest hw ≡ ret (okay, d) → StreamsAreNamed (i + 1) d.streams)
      → probed g s old rest probe ≡ ret (okay, d)
      → StreamsAreNamed i d.streams
  probed-named i s old rest (st, hw) {d} name ih r = elim (Bool-cases (is_okay st)) [
    | inl good ↦
        let ((end, d1), a, b) =
          >>=-eq-ret (rest hw) (λ q. ret (q.0, record q.1 { streams = s ∷ q.1.streams }))
            (sym (if_true _ _ good) ∙ r) in
        let e : ◌≡◌ {A = Dma H} (record d1 { streams = s ∷ d1.streams }) d = cc in
        let finished : end ≡ okay = cc in
        let done : rest hw ≡ ret (okay, d1) = cc in
        subst (λ (d : Dma H). StreamsAreNamed i d.streams) e (name, ih hw d1 done)
    | inr bad ↦ let reported : error_badstate ≡ okay = cc (sym (if_false _ _ bad) ∙ r) in absurd cc
  ]

  owned_by-named :
      (i seed : ℕ) (m : DmaMeta) (old : List StreamConfig) (rest : H → Run (Kstatus × Dma H))
      (hw : H) (owner : Result ℕ) {d : Dma H}
      → i < 2 ^ 8
      → ((hw : H) (d : Dma H) → rest hw ≡ ret (okay, d) → StreamsAreNamed (i + 1) d.streams)
      → owned_by g i seed m old rest hw owner ≡ ret (okay, d)
      → StreamsAreNamed i d.streams
  owned_by-named i seed m old rest hw (failure _) h ih r = absurd cc
  owned_by-named i seed m old rest hw (success owner) {d} h ih r =
      probed-named i (fresh_stream i seed m owner) old rest (g.probe m.config.controller hw) {d = d}
        (fresh_stream-named i seed owner m h) ih r

  init_stream-named :
      (tab : TaskTable) (i : ℕ) (m : DmaMeta) (old : List StreamConfig)
      (rest : H → Run (Kstatus × Dma H)) (hw : H) (seed : Result ℕ) {d : Dma H}
      → i < 2 ^ 8
      → ((hw : H) (d : Dma H) → rest hw ≡ ret (okay, d) → StreamsAreNamed (i + 1) d.streams)
      → init_stream g tab i m old rest hw seed ≡ ret (okay, d)
      → StreamsAreNamed i d.streams
  init_stream-named tab i m old rest hw (failure _) h ih r = absurd cc
  init_stream-named tab i m old rest hw (success seed) {d} h ih r =
      let (found, a, b) = >>=-eq-ret (get_handle tab m.owner) (owned_by g i seed m old rest hw) r in
      owned_by-named i seed m old rest hw found {d = d} h ih b

  -- The streams of a successful mgr_dma_init carry the index of their cell, for at most 256 streams
  -- and a cell for each.
  pub init_streams-named :
      (entropy : ℕ → Result ℕ) (tab : TaskTable) (i : ℕ) (ms : List DmaMeta)
      (old : List StreamConfig) (hw : H) {d : Dma H}
      → i + length ms ≤ 2 ^ 8
      → length old ≡ length ms
      → init_streams g entropy tab i ms old hw ≡ ret (okay, d)
      → StreamsAreNamed i d.streams
  unfolding init_streams
  init_streams-named entropy tab i [] [] hw {d} h len r =
      let e : ◌≡◌ {A = Dma H} (record { streams = []; hw = hw }) d = cc in
      subst (λ (d : Dma H). StreamsAreNamed i d.streams) e tt
  init_streams-named entropy tab i [] (o ∷ old) hw {d} h len r = absurd (omega arith)
  init_streams-named entropy tab i (m ∷ ms) [] hw {d} h len r = absurd (omega arith)
  init_streams-named entropy tab i (m ∷ ms) (o ∷ old) hw {d} h len r =
      init_stream-named tab i m old _ hw (entropy i) {d = d} (omega arith)
        (λ hw' d' e.
          init_streams-named entropy tab (i + 1) ms old hw' {d = d'} (omega arith) (omega arith) e)
        r

-- When mgr_dma_init returns K_STATUS_OKAY, for at most 256 streams and a cell for each, whatever the
-- cells were before, mgr_dma_get_owner knows the owner of every stream that mgr_dma_get_config finds.
pub init_streams-owner :
    {H : Type 0} (g : Gpdma H) (entropy : ℕ → Result ℕ) (tab : TaskTable) (ms : List DmaMeta)
    (old : List StreamConfig) (hw : H) (d : Dma H) (dmah i : ℕ) (s : StreamConfig)
    → length ms ≤ 2 ^ 8
    → length old ≡ length ms
    → init_streams g entropy tab 0 ms old hw ≡ ret (okay, d)
    → get_config d dmah ≡ some (i, s)
    → get_owner d dmah ≡ success s.owner
init_streams-owner g entropy tab ms old hw d dmah i s few cells made found =
    owner-config d dmah i s
      (init_streams-named g entropy tab 0 ms old hw {d = d} (omega arith) cells made) found
