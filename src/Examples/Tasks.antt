-- ===== src/Examples/Tasks.antt =====
-- The theorems on handles, tasks and their event queues at concrete values.
use sentry_kernel.Base.{
  ℕ, ◌<◌, ◌≡◌, refl, sym, ◌∙◌, ◌≢◌, ◌⊎◌, Option, none, some, List, [], ◌∷◌, ◌++◌, arith, length,
  ret, panic, success, failure,
}
use sentry_kernel.KTypes.{
  okay, error_badstate, error_noent, kernel_shorter_kbuffers_config, timeout,
}
use sentry_kernel.Task.{
  Task, TaskTable, get_from_handle, get_sp, get_state, set_sysreturn, get_sysreturn,
  clear_sysreturn,
}
use sentry_kernel.Task.Accessors.{Stores, Keeps, sysreturn_protocol}
use sentry_kernel.Task.Events.{push_int_event, load_int_event, push_dma_event, load_dma_event}
use sentry_kernel.Task.Events.Queue.{pending}
use sentry_kernel.Task.Events.Queue.Dma.{
  dma_pending, DmaIsQueue, push_dma_event_lem, load_dma_event_lem,
}
use sentry_kernel.Task.Events.Queue.Interrupts.{
  int_pending, IntIsQueue, push_int_event_lem, zero_first, load_int_event_lem,
}
use sentry_kernel.Base.Ring.{slots}
use sentry_kernel.Examples.{first_handle, first_task, three_tasks, first_found}

first_there : get_from_handle three_tasks first_handle ≢ none
first_there e = absurd (let h = sym first_found ∙ e in cc)

sysreturn_protocol_example :
    let assign = set_sysreturn three_tasks first_handle timeout in
    let clear = clear_sysreturn assign.1 first_handle in
    (assign.0 ≡ okay)
    × Stores get_sysreturn three_tasks first_handle timeout assign.1
    × Keeps get_state three_tasks assign.1
    × Keeps get_sp three_tasks assign.1
    × (get_sysreturn clear.1 first_handle ≡ failure error_badstate)
    × ((clear_sysreturn clear.1 first_handle).0 ≡ error_badstate)
sysreturn_protocol_example = sysreturn_protocol three_tasks first_handle timeout first_there

ints_IsQueue : IntIsQueue first_task
ints_IsQueue = record { storage = refl; head_in = omega arith; bottom_in = omega arith }

dmas_IsQueue : DmaIsQueue first_task
dmas_IsQueue = record { storage = refl; head_in = omega arith; bottom_in = omega arith }

push_int_event_lem_example :
    ((length (int_pending first_task) ≡ 15)
      × (push_int_event three_tasks 42 first_handle ≡ panic kernel_shorter_kbuffers_config))
    ⊎ ((length (int_pending first_task) < 15)
        × (tab' : TaskTable) × (u : Task) × (push_int_event three_tasks 42 first_handle
            ≡ ret (okay, tab'))
        × (get_from_handle tab' first_handle ≡ some u)
        × (int_pending u ≡ int_pending first_task ++ some 42 ∷ [])
        × IntIsQueue u)
push_int_event_lem_example =
    push_int_event_lem three_tasks 42 first_handle first_task first_found ints_IsQueue

load_int_event_lem_example :
    ((int_pending first_task ≡ [])
      × (load_int_event three_tasks first_handle ≡ ret (failure error_noent, three_tasks)))
    ⊎ ((irqn : ℕ) × (rest : List (Option ℕ)) × (tab' : TaskTable) × (u : Task) × (int_pending
            first_task
          ≡ some irqn ∷ rest)
        × (load_int_event three_tasks first_handle ≡ ret (success irqn, tab'))
        × (get_from_handle tab' first_handle ≡ some u)
        × (int_pending u ≡ zero_first rest)
        × IntIsQueue u)
load_int_event_lem_example =
    load_int_event_lem three_tasks first_handle first_task first_found ints_IsQueue

two_pending : int_pending first_task ≡ some 7 ∷ some 7 ∷ []
unfolding pending slots
two_pending = refl

push_dma_event_lem_example :
    ((length (dma_pending first_task) ≡ 15)
      × (push_dma_event three_tasks first_handle 3 2 ≡ panic kernel_shorter_kbuffers_config))
    ⊎ ((length (dma_pending first_task) < 15)
        × (tab' : TaskTable) × (u : Task) × (push_dma_event three_tasks first_handle 3 2
            ≡ ret (okay, tab'))
        × (get_from_handle tab' first_handle ≡ some u)
        × (dma_pending u ≡ dma_pending first_task ++ some (3, 2) ∷ [])
        × DmaIsQueue u)
push_dma_event_lem_example =
    push_dma_event_lem three_tasks first_handle 3 2 first_task first_found dmas_IsQueue

load_dma_event_lem_example :
    ((dma_pending first_task ≡ [])
      × (load_dma_event three_tasks first_handle ≡ ret (failure error_noent, three_tasks)))
    ⊎ ((event : ℕ × ℕ) × (rest : List (Option (ℕ × ℕ))) × (tab' : TaskTable) × (u : Task)
        × (dma_pending first_task ≡ some event ∷ rest)
        × (load_dma_event three_tasks first_handle ≡ ret (success event, tab'))
        × (get_from_handle tab' first_handle ≡ some u)
        × (dma_pending u ≡ rest)
        × DmaIsQueue u)
load_dma_event_lem_example =
    load_dma_event_lem three_tasks first_handle first_task first_found dmas_IsQueue
