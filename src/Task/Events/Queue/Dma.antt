-- ===== src/Task/Events/Queue/Dma.antt =====
-- DMA events of a task: `mgr_task_push_dma_event` and `mgr_task_load_dma_event` of task_core.c.
use sentry_kernel.Base.{
  ℕ, ◌+◌, ◌-◌, ◌%◌, ◌<◌, ◌≡◌, refl, ◌∙◌, ◌⊎◌, inl, inr, Option, some, List, [], ◌∷◌, ◌++◌, arith,
  length, set, length-set, get_elem?_of_lt, ret, panic, success, failure,
}
use sentry_kernel.KTypes.{okay, error_noent, kernel_shorter_kbuffers_config}
use sentry_kernel.Task.{Task, TaskTable, index_of, get_from_handle}
use sentry_kernel.Task.Accessors.{get_from_handle-set}
use sentry_kernel.Task.Events.{queue_depth, push_dma_event, load_dma_event}
use sentry_kernel.Task.Events.Queue.{
  pending, IsQueue, length-pending, pending-push, pending-pop, pending-nil,
}
use native.Mathlib.Decide.{ℕ_discrete}

-- The DMA events of a task that are pending, oldest first.
abbrev pub dma_pending : Task → List (Option (ℕ × ℕ))
dma_pending t = pending t.dmas t.dmas_head t.dmas_bottom

abbrev pub DmaIsQueue : Task → Type 0
DmaIsQueue t = IsQueue t.dmas t.dmas_head t.dmas_bottom

-- A push either finds 15 events pending at its target, and the kernel panics, or finds fewer, and the
-- event goes to the end of the queue, which stays well formed.
pub push_dma_event_lem :
    (tab : TaskTable) (h stream event : ℕ) (t : Task)
    → get_from_handle tab h ≡ some t
    → DmaIsQueue t
    → ((length (dma_pending t) ≡ 15)
        × (push_dma_event tab h stream event ≡ panic kernel_shorter_kbuffers_config))
      ⊎ ((length (dma_pending t) < 15)
          × (tab' : TaskTable) × (u : Task) × (push_dma_event tab h stream event ≡ ret (okay, tab'))
          × (get_from_handle tab' h ≡ some u)
          × (dma_pending u ≡ dma_pending t ++ some (stream, event) ∷ [])
          × DmaIsQueue u)
unfolding push_dma_event
push_dma_event_lem tab h stream event t e q =
    elim (ℕ_discrete ((t.dmas_head + 1) % queue_depth) t.dmas_bottom) [
      | yes full ↦ inl (omega (arith, q, count), ground (arith, e, full))
      | no room ↦
          let u = record t {
            dmas = set t.dmas t.dmas_head (stream, event);
            dmas_head = (t.dmas_head + 1) % queue_depth;
          } in
          inr (
            omega (arith, q, count),
            record tab { cells = set tab.cells (index_of h) u },
            u,
            ground (arith, e, room),
            ground (arith, get_from_handle-set tab h h t u e refl),
            pending-push t.dmas t.dmas_head t.dmas_bottom (stream, event) q room,
            record {
              storage = length-set t.dmas t.dmas_head (stream, event) ∙ q.storage;
              head_in = omega arith;
              bottom_in = q.bottom_in;
            },
          )
    ]
  where
    count : length (dma_pending t) ≡ (t.dmas_head + queue_depth - t.dmas_bottom) % queue_depth
    count = length-pending t.dmas t.dmas_head t.dmas_bottom

-- Loading takes the oldest pending event away and leaves a well formed queue; with no event pending
-- it reports K_ERROR_NOENT and changes nothing.
pub load_dma_event_lem :
    (tab : TaskTable) (h : ℕ) (t : Task)
    → get_from_handle tab h ≡ some t
    → DmaIsQueue t
    → ((dma_pending t ≡ []) × (load_dma_event tab h ≡ ret (failure error_noent, tab)))
      ⊎ ((event : ℕ × ℕ) × (rest : List (Option (ℕ × ℕ))) × (tab' : TaskTable) × (u : Task)
          × (dma_pending t ≡ some event ∷ rest)
          × (load_dma_event tab h ≡ ret (success event, tab'))
          × (get_from_handle tab' h ≡ some u)
          × (dma_pending u ≡ rest)
          × DmaIsQueue u)
unfolding load_dma_event
load_dma_event_lem tab h t e q = elim (ℕ_discrete t.dmas_head t.dmas_bottom) [
  | yes empty ↦
      inl (rw empty (pending-nil t.dmas t.dmas_bottom q.bottom_in), ground (arith, e, empty))
  | no left ↦
      let (event, there) = get_elem?_of_lt t.dmas t.dmas_bottom (omega (arith, q)) in
      let u = record t { dmas_bottom = (t.dmas_bottom + 1) % queue_depth } in
      inr (
        event,
        pending t.dmas t.dmas_head ((t.dmas_bottom + 1) % queue_depth),
        record tab { cells = set tab.cells (index_of h) u },
        u,
        pending-pop t.dmas t.dmas_head t.dmas_bottom q left ∙ rw there,
        ground (arith, e, there, left),
        ground (arith, get_from_handle-set tab h h t u e refl),
        refl,
        record { storage = q.storage; head_in = q.head_in; bottom_in = omega arith },
      )
]
