-- ===== src/Task/Events/Queue.antt =====
-- The circular event queues of a task, head exclusive: what is pending, and how the stores of the
-- push and load functions change it.
pub mod Dma
pub mod Interrupts
use sentry_kernel.Base.{
  ℕ, suc, ◌+◌, ◌-◌, ◌%◌, ◌<◌, ◌≡◌, ◌≢◌, Option, some, List, [], ◌∷◌, ◌++◌, arith, length, get_elem?,
  set, get_elem?-set_self,
}
use sentry_kernel.Base.Ring.{slots, slots-set, slots-snoc, length-slots}
use sentry_kernel.Task.Events.{queue_depth}

module _ {ℓ} {A : Type ℓ} where
  -- The events between bottom and head, oldest first.
  unfoldable pub pending : List A → ℕ → ℕ → List (Option A)
  pending buf head bottom =
      slots queue_depth buf bottom ((head + queue_depth - bottom) % queue_depth)

  pub record IsQueue (buf : List A) (head bottom : ℕ) : Type ℓ where
    pub storage : length buf ≡ queue_depth
    pub head_in : head < queue_depth
    pub bottom_in : bottom < queue_depth

  -- The number of pending events is the distance from bottom to head.
  pub length-pending :
      (buf : List A) (head bottom : ℕ)
      → length (pending buf head bottom) ≡ (head + queue_depth - bottom) % queue_depth
  unfolding pending
  length-pending buf head bottom = length-slots queue_depth buf bottom _

  pub pending-push :
      (buf : List A) (head bottom : ℕ) (v : A)
      → IsQueue buf head bottom
      → (head + 1) % queue_depth ≢ bottom
      → pending (set buf head v) ((head + 1) % queue_depth) bottom
        ≡ pending buf head bottom ++ some v ∷ []
  unfolding pending
  pending-push buf head bottom v q room =
      let n = (head + queue_depth - bottom) % queue_depth in
      let longer : ((head + 1) % queue_depth + queue_depth - bottom) % queue_depth ≡ suc n =
        omega arith in
      let end : head ≡ (bottom + n) % queue_depth = omega arith in
      rw (
        longer,
        slots-snoc queue_depth (set buf head v) bottom n q.bottom_in,
        slots-set queue_depth buf v bottom head n n q.bottom_in (omega arith) (omega arith) end,
        ← end,
        get_elem?-set_self buf head v (omega arith),
      )

  pub pending-pop :
      (buf : List A) (head bottom : ℕ)
      → IsQueue buf head bottom
      → head ≢ bottom
      → pending buf head bottom
        ≡ get_elem? buf bottom ∷ pending buf head ((bottom + 1) % queue_depth)
  unfolding pending slots
  pending-pop buf head bottom q some_left =
      let n = (head + queue_depth - (bottom + 1) % queue_depth) % queue_depth in
      let longer : (head + queue_depth - bottom) % queue_depth ≡ suc n = omega arith in rw longer

  pub pending-nil : (buf : List A) (i : ℕ) → i < queue_depth → pending buf i i ≡ []
  unfolding pending slots
  pending-nil buf i h =
      let none_left : (i + queue_depth - i) % queue_depth ≡ 0 = omega arith in rw none_left

  -- A write to the oldest slot changes only the oldest event.
  pub pending-set_bottom :
      (buf : List A) (head bottom : ℕ) (v : A)
      → IsQueue buf head bottom
      → head ≢ bottom
      → pending (set buf bottom v) head bottom
        ≡ some v ∷ pending buf head ((bottom + 1) % queue_depth)
  unfolding pending slots
  pending-set_bottom buf head bottom v q left =
      let n = (head + queue_depth - (bottom + 1) % queue_depth) % queue_depth in
      let longer : (head + queue_depth - bottom) % queue_depth ≡ suc n = omega arith in
      rw (
        longer,
        get_elem?-set_self buf bottom v (omega arith),
        slots-set queue_depth buf v ((bottom + 1) % queue_depth) bottom n 15 (omega arith)
            (omega arith) (omega arith) (omega arith),
      )
