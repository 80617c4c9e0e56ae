-- ===== src/Syscalls/Ipc.antt =====
-- kernel/src/syscalls/sysgate_send_ipc.c, as built without CONFIG_BUILD_TARGET_AUTOTEST.
pub mod Steps
pub mod Ends
pub mod Deadlock
pub mod Chains
use sentry_kernel.Base.{
  ℕ, zero, suc, ◌+◌, ◌-◌, true, false, Option, none, some, List, [], ◌∷◌, ltb, leb, ◌==◌, length,
  Run, ret, panic, fault, ◌>>=◌, success, failure,
}
use sentry_kernel.KTypes.{
  SecureBool, secure_true, secure_false, Kstatus, okay, ipc_send_blocked,
  kernel_invalid_manager_response, invalid, busy, deadlk, non_sense,
}
use sentry_kernel.Task.{TaskTable, handle_exists, get_state}
use sentry_kernel.Task.Events.{push_ipc_event, local_ipc_iterate}
use sentry_kernel.Sched.Policy.{Policy}
use sentry_kernel.Kernel.{Kernel, Gate, put_state, put_sysreturn, elect_next}
use sentry_kernel.Syscalls.{answer, interrupt_sleeper}

-- The iterations that a frame may take: `later` bounds those of one frame above it, `left` slots are
-- still to be looked at.
abbrev pub frame_cost : ℕ → ℕ → ℕ
frame_cost later zero = 1
frame_cost later (suc left) = 1 + later + frame_cost later left

-- A frame with room for `room` more above it, which has looked at `idx` of `numtask` slots.
abbrev pub cost : ℕ → ℕ → ℕ → ℕ
cost numtask zero idx = 1
cost numtask (suc room) idx = frame_cost (cost numtask room 0) (numtask - idx)

-- The loop of `ipc_generates_deadlock` on its stack, the top first; `none` when the fuel runs out.
unfoldable pub deadlock_loop : ℕ → ℕ → TaskTable → ℕ → List (ℕ × ℕ) → Run (Option SecureBool)
deadlock_loop zero max_tasks tab target stack = ret none
deadlock_loop (suc fuel) max_tasks tab target [] = ret (some secure_false)
deadlock_loop (suc fuel) max_tasks tab target ((peer, idx) ∷ rest) = do
  found ← local_ipc_iterate tab peer idx
  elim found [
    | failure _ ↦ deadlock_loop fuel max_tasks tab target rest
    | success next ↦ elim (next.0 == target) [
      | true ↦ ret (some secure_true)
      | false ↦ elim (leb max_tasks (1 + length rest)) [
        | true ↦ panic kernel_invalid_manager_response
        | false ↦ deadlock_loop fuel max_tasks tab target ((next.0, 0) ∷ (peer, next.1) ∷ rest)
      ]
    ]
  ]

abbrev pub out_of_fuel : Option SecureBool → Run SecureBool
out_of_fuel none = fault
out_of_fuel (some b) = ret b

-- `ipc_generates_deadlock`
unfoldable pub ipc_generates_deadlock : ℕ → TaskTable → ℕ → ℕ → Run SecureBool
ipc_generates_deadlock max_tasks tab current target = do
  r ←
      deadlock_loop (1 + cost tab.numtask (max_tasks - 1) 0) max_tasks tab target
        ((current, 0) ∷ [])
  out_of_fuel r

module _ {S : Type 0} (p : Policy S) where
  -- The end of `gate_send_ipc`, once the event is pushed: the caller is blocked, a target that sleeps
  -- or waits is made eligible, and a task is elected.
  abbrev pub block_sender : ℕ → ℕ → Kernel S → Gate S
  block_sender t target k =
      let k' = put_sysreturn t non_sense (put_state t ipc_send_blocked k) in
      elim (get_state k'.tasks target) [
        | failure _ ↦ fault
        | success dest_state ↦ do k'' ← interrupt_sleeper p target dest_state k'; elect_next p k''
      ]

  abbrev pub ipc_pushed : ℕ → ℕ → ℕ → Kernel S → Kstatus × TaskTable → Gate S
  ipc_pushed frame t target k (okay, tab) = elim (t == target) [
    | true ↦ answer frame t invalid (record k { tasks = tab })
    | false ↦ block_sender t target (record k { tasks = tab })
  ]
  ipc_pushed frame t target k (_, tab) = answer frame t busy (record k { tasks = tab })

  -- `gate_send_ipc`; `area_len` is CONFIG_SVC_EXCHANGE_AREA_LEN, the header of an event takes 8 bytes.
  unfoldable pub gate_send_ipc : ℕ → ℕ → ℕ → ℕ → ℕ → Kernel S → Gate S
  gate_send_ipc max_tasks area_len frame target len k = do
    t ← p.current k.tasks k.sched
    elim (ltb (area_len - 8) len) [
      | true ↦ answer frame t invalid k
      | false ↦ do
        deadlock ← ipc_generates_deadlock max_tasks k.tasks t target
        elim deadlock [
          | secure_true ↦ answer frame t deadlk k
          | secure_false ↦ elim (handle_exists k.tasks target) [
            | secure_false ↦ answer frame t invalid k
            | secure_true ↦ do
              pushed ← push_ipc_event k.tasks len t target
              ipc_pushed frame t target k pushed
          ]
        ]
    ]
