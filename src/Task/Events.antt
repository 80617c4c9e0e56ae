-- ===== src/Task/Events.antt =====
-- The event slots and queues of a task: the functions of task_core.c that push and load interrupts,
-- DMA events, IPCs and signals, as far as they touch the task table only. A queue holds at most
-- TASK_EVENT_QUEUE_DEPTH - 1 events; its head and bottom are `uint8_t` below that depth.
pub mod Queue
use sentry_kernel.Base.{
  ℕ, zero, suc, ◌+◌, ◌-◌, ◌%◌, Option, none, some, List, ltb, ◌==◌, if◌then◌else◌, length,
  get_elem?, set, Run, ret, panic, fault, ◌>>=◌, Result, success, failure,
}
use sentry_kernel.KTypes.{
  Kstatus, error_invparam, error_noent, kernel_shorter_kbuffers_config,
  kernel_invalid_manager_response,
}
use sentry_kernel.Task.{TaskTable, index_of, get_from_handle, write}

-- TASK_EVENT_QUEUE_DEPTH
abbrev pub queue_depth : ℕ
queue_depth = 16

-- An unknown task is dereferenced as NULL, a full queue panics.
unfoldable pub push_int_event : TaskTable → ℕ → ℕ → Run (Kstatus × TaskTable)
push_int_event tab irqn dest = elim (get_from_handle tab dest) [
  | none ↦ fault
  | some t ↦
      if (t.ints_head + 1) % queue_depth == t.ints_bottom
      then panic kernel_shorter_kbuffers_config
      else ret (
          write
            (λ _. record t {
              ints = set t.ints t.ints_head irqn;
              ints_head = (t.ints_head + 1) % queue_depth;
            })
            tab dest (some t))
]

-- The slot that is cleared is the one that `ints_bottom` names after its increment.
unfoldable pub load_int_event : TaskTable → ℕ → Run (Result ℕ × TaskTable)
load_int_event tab context = elim (get_from_handle tab context) [
  | none ↦ fault
  | some t ↦
      if t.ints_head == t.ints_bottom
      then ret (failure error_noent, tab)
      else elim (get_elem? t.ints t.ints_bottom) [
        | none ↦ fault
        | some irqn ↦
            let bottom = (t.ints_bottom + 1) % queue_depth in
            ret (
              success irqn,
              (write (λ _. record t { ints = set t.ints bottom 0; ints_bottom = bottom }) tab
                  context (some t)).1,
            )
      ]
]

unfoldable pub push_dma_event : TaskTable → ℕ → ℕ → ℕ → Run (Kstatus × TaskTable)
push_dma_event tab target dma_stream dma_event = elim (get_from_handle tab target) [
  | none ↦ panic kernel_invalid_manager_response
  | some t ↦
      if (t.dmas_head + 1) % queue_depth == t.dmas_bottom
      then panic kernel_shorter_kbuffers_config
      else ret (
          write
            (λ _. record t {
              dmas = set t.dmas t.dmas_head (dma_stream, dma_event);
              dmas_head = (t.dmas_head + 1) % queue_depth;
            })
            tab target (some t))
]

unfoldable pub load_dma_event : TaskTable → ℕ → Run (Result (ℕ × ℕ) × TaskTable)
load_dma_event tab context = elim (get_from_handle tab context) [
  | none ↦ fault
  | some t ↦
      if t.dmas_head == t.dmas_bottom
      then ret (failure error_noent, tab)
      else elim (get_elem? t.dmas t.dmas_bottom) [
        | none ↦ fault
        | some event ↦ ret (
          success event,
          (write (λ _. record t { dmas_bottom = (t.dmas_bottom + 1) % queue_depth }) tab context
              (some t)).1,
        )
      ]
]

-- The sender's identifier picks the slot. A slot past the end of `ipcs` is written out of bounds.
unfoldable pub push_ipc_event : TaskTable → ℕ → ℕ → ℕ → Run (Kstatus × TaskTable)
push_ipc_event tab len source dest = elim (get_from_handle tab dest) [
  | none ↦ ret (error_invparam, tab)
  | some t ↦
      if ltb (index_of source) (length t.ipcs)
      then ret (write (λ _. record t { ipcs = set t.ipcs (index_of source) len }) tab dest (some t))
      else fault
]

-- The first slot from `idx` on with a pending IPC; `n` slots are left to look at. The slot's length
-- is read as a whole word.
abbrev pub first_pending : List ℕ → ℕ → ℕ → Run (Option ℕ)
first_pending ipcs idx zero = ret none
first_pending ipcs idx (suc n) =
    let rest = first_pending ipcs (idx + 1) n in
    elim (get_elem? ipcs idx) [
      | none ↦ fault
      | some len ↦ if ltb 0 len then ret (some idx) else rest
    ]

-- The peer that has emitted an IPC to `owner`, and the slot to continue from. An unknown owner is
-- dereferenced as NULL in the first round; no caller passes one with no round left.
unfoldable pub local_ipc_iterate : TaskTable → ℕ → ℕ → Run (Result (ℕ × ℕ))
local_ipc_iterate tab owner idx = elim (get_from_handle tab owner) [
  | none ↦ fault
  | some current ↦ do
    slot ← first_pending current.ipcs idx (tab.numtask - idx)
    elim slot [
      | none ↦ ret (failure error_noent)
      | some i ↦ elim (get_elem? tab.cells i) [
        | none ↦ fault
        | some peer ↦ ret (success (peer.handle, i + 1))
      ]
    ]
]

-- The first slot with a value that is not 0 as a `uint8_t`.
abbrev pub first_byte : List ℕ → ℕ → ℕ → Run (Option (ℕ × ℕ))
first_byte slots idx zero = ret none
first_byte slots idx (suc n) =
    let rest = first_byte slots (idx + 1) n in
    elim (get_elem? slots idx) [
      | none ↦ fault
      | some v ↦ if ltb 0 (v % 256) then ret (some (idx, v % 256)) else rest
    ]

-- The signal and its emitter; the slot is cleared.
unfoldable pub load_sig_event : TaskTable → ℕ → Run (Result (ℕ × ℕ) × TaskTable)
load_sig_event tab context = elim (get_from_handle tab context) [
  | none ↦ ret (failure error_invparam, tab)
  | some current ↦ do
    slot ← first_byte current.sigs 0 tab.numtask
    elim slot [
      | none ↦ ret (failure error_noent, tab)
      | some (i, signal) ↦ elim (get_elem? tab.cells i) [
        | none ↦ fault
        | some source ↦ ret (
          success (signal, source.handle),
          (write (λ _. record current { sigs = set current.sigs i 0 }) tab context
              (some current)).1,
        )
      ]
    ]
]
