-- ===== src/Task/Events/Queue/Interrupts.antt =====
-- Interrupt events of a task: `mgr_task_push_int_event` and `mgr_task_load_int_event` of task_core.c.
use sentry_kernel.Base.{
  ℕ, ◌+◌, ◌-◌, ◌%◌, ◌<◌, ◌≡◌, refl, ◌∙◌, ◌⊎◌, inl, inr, Option, some, List, [], ◌∷◌, ◌++◌, arith,
  length, set, length-set, get_elem?_of_lt, ret, panic, success, failure,
}
use sentry_kernel.KTypes.{okay, error_noent, kernel_shorter_kbuffers_config}
use sentry_kernel.Task.{Task, TaskTable, index_of, get_from_handle}
use sentry_kernel.Task.Accessors.{get_from_handle-set}
use sentry_kernel.Task.Events.{queue_depth, push_int_event, load_int_event}
use sentry_kernel.Task.Events.Queue.{
  pending, IsQueue, length-pending, pending-push, pending-pop, pending-nil, pending-set_bottom,
}
use native.Mathlib.Decide.{ℕ_discrete}

-- The interrupts of a task that are pending, oldest first.
abbrev pub int_pending : Task → List (Option ℕ)
int_pending t = pending t.ints t.ints_head t.ints_bottom

abbrev pub IntIsQueue : Task → Type 0
IntIsQueue t = IsQueue t.ints t.ints_head t.ints_bottom

-- A push either finds 15 interrupts pending at its target, and the kernel panics, or finds fewer, and
-- the interrupt goes to the end of the queue, which stays well formed.
pub push_int_event_lem :
    (tab : TaskTable) (irqn h : ℕ) (t : Task)
    → get_from_handle tab h ≡ some t
    → IntIsQueue t
    → ((length (int_pending t) ≡ 15)
        × (push_int_event tab irqn h ≡ panic kernel_shorter_kbuffers_config))
      ⊎ ((length (int_pending t) < 15)
          × (tab' : TaskTable) × (u : Task) × (push_int_event tab irqn h ≡ ret (okay, tab'))
          × (get_from_handle tab' h ≡ some u)
          × (int_pending u ≡ int_pending t ++ some irqn ∷ [])
          × IntIsQueue u)
unfolding push_int_event
push_int_event_lem tab irqn h t e q =
    elim (ℕ_discrete ((t.ints_head + 1) % queue_depth) t.ints_bottom) [
      | yes full ↦ inl (omega (arith, q, count), ground (arith, e, full))
      | no room ↦
          let u = record t {
            ints = set t.ints t.ints_head irqn;
            ints_head = (t.ints_head + 1) % queue_depth;
          } in
          inr (
            omega (arith, q, count),
            record tab { cells = set tab.cells (index_of h) u },
            u,
            ground (arith, e, room),
            ground (arith, get_from_handle-set tab h h t u e refl),
            pending-push t.ints t.ints_head t.ints_bottom irqn q room,
            record {
              storage = length-set t.ints t.ints_head irqn ∙ q.storage;
              head_in = omega arith;
              bottom_in = q.bottom_in;
            },
          )
    ]
  where
    count : length (int_pending t) ≡ (t.ints_head + queue_depth - t.ints_bottom) % queue_depth
    count = length-pending t.ints t.ints_head t.ints_bottom

-- What the load leaves of a queue that had `rest` behind its oldest event: the next event is zeroed.
abbrev pub zero_first : List (Option ℕ) → List (Option ℕ)
zero_first [] = []
zero_first (x ∷ xs) = some 0 ∷ xs

zeroed :
    (buf : List ℕ) (head bottom : ℕ)
    → IsQueue buf head bottom
    → pending (set buf bottom 0) head bottom ≡ zero_first (pending buf head bottom)
zeroed buf head bottom q = elim (ℕ_discrete head bottom) [
  | yes empty ↦
      rw (
        empty,
        pending-nil (set buf bottom 0) bottom q.bottom_in,
        pending-nil buf bottom q.bottom_in,
      )
  | no left ↦ rw (pending-set_bottom buf head bottom 0 q left, pending-pop buf head bottom q left)
]

-- Loading takes the oldest pending interrupt away and overwrites the number of the one behind it with
-- 0; with no interrupt pending it reports K_ERROR_NOENT and changes nothing.
pub load_int_event_lem :
    (tab : TaskTable) (h : ℕ) (t : Task)
    → get_from_handle tab h ≡ some t
    → IntIsQueue t
    → ((int_pending t ≡ []) × (load_int_event tab h ≡ ret (failure error_noent, tab)))
      ⊎ ((irqn : ℕ) × (rest : List (Option ℕ)) × (tab' : TaskTable) × (u : Task) × (int_pending t
            ≡ some irqn ∷ rest)
          × (load_int_event tab h ≡ ret (success irqn, tab'))
          × (get_from_handle tab' h ≡ some u)
          × (int_pending u ≡ zero_first rest)
          × IntIsQueue u)
unfolding load_int_event
load_int_event_lem tab h t e q = elim (ℕ_discrete t.ints_head t.ints_bottom) [
  | yes empty ↦
      inl (rw empty (pending-nil t.ints t.ints_bottom q.bottom_in), ground (arith, e, empty))
  | no left ↦
      let (irqn, there) = get_elem?_of_lt t.ints t.ints_bottom (omega (arith, q)) in
      let bottom = (t.ints_bottom + 1) % queue_depth in
      let u = record t { ints = set t.ints bottom 0; ints_bottom = bottom } in
      inr (
        irqn,
        pending t.ints t.ints_head bottom,
        record tab { cells = set tab.cells (index_of h) u },
        u,
        pending-pop t.ints t.ints_head t.ints_bottom q left ∙ rw there,
        ground (arith, e, there, left),
        ground (arith, get_from_handle-set tab h h t u e refl),
        zeroed t.ints t.ints_head bottom
            (record { storage = q.storage; head_in = q.head_in; bottom_in = omega arith }),
        record {
          storage = length-set t.ints bottom 0 ∙ q.storage;
          head_in = q.head_in;
          bottom_in = omega arith;
        },
      )
]

-- The defect: whenever two interrupts are pending, loading twice returns the first one and then 0,
-- whatever the number of the second was.
pub load_int_event_loses :
    (tab : TaskTable) (h irqn : ℕ) (next : Option ℕ) (rest : List (Option ℕ)) (t : Task)
    → get_from_handle tab h ≡ some t
    → IntIsQueue t
    → int_pending t ≡ some irqn ∷ next ∷ rest
    → (tab' : TaskTable) × (tab'' : TaskTable) × (load_int_event tab h ≡ ret (success irqn, tab'))
      × (load_int_event tab' h ≡ ret (success 0, tab''))
load_int_event_loses tab h irqn next rest t e q two = elim (load_int_event_lem tab h t e q) [
  | inl (none_left, _) ↦ ground arith
  | inr (i, r, tab', u, p, l, f, z, q') ↦ elim (load_int_event_lem tab' h u f q') [
    | inl (none_left, _) ↦ ground arith
    | inr (i', r', tab'', u', p', l', f', z', q'') ↦ (tab', tab'', ground arith, ground arith)
  ]
]
