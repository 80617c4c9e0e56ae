-- ===== src/Sched/Fifo.antt =====
-- The FIFO scheduler: kernel/src/sched/sched_fifo.c. The capacity is CONFIG_MAX_TASKS. The source
-- writes task handles as structures; here they are the words of their bit fields.
pub mod Queue
use sentry_kernel.Base.{
  ℕ, ◌+◌, ◌%◌, Bool, true, false, not, ◌&&◌, none, some, List, ◌==◌, if◌then◌else◌, get_elem?, set,
  replicate, Run, ret, fault,
}
use sentry_kernel.KTypes.{Kstatus, okay, security_invstate}
use sentry_kernel.Handle.{ktaskh_to_taskh}

-- `sched_fifo_context_t`
pub record Context : Type 0 where
  pub tasks_queue : List ℕ
  pub next_task : ℕ
  pub end_of_queue : ℕ
  pub empty : Bool
  pub current : ℕ

-- The handle that stands for idle: SCHED_IDLE_TASK_LABEL in the identifier, HANDLE_TASKID is 0.
abbrev pub idle_handle : ℕ
idle_handle = ktaskh_to_taskh (record { rerun = 0; id = 0xcafe; family = 0 })

-- `sched_fifo_init`, on the static context, which is all zeros.
abbrev pub init : ℕ → Context
init max_tasks = record {
  tasks_queue = replicate max_tasks 0;
  next_task = 0;
  end_of_queue = 0;
  empty = true;
  current = idle_handle;
}

-- `sched_fifo_enqueue_task`
unfoldable pub enqueue : ℕ → ℕ → Context → Kstatus × Context
enqueue max_tasks t c =
    if (c.next_task == c.end_of_queue) && not c.empty then (security_invstate, c) else (
      okay,
      record c {
        tasks_queue = set c.tasks_queue c.end_of_queue t;
        end_of_queue = (c.end_of_queue + 1) % max_tasks;
        empty = false;
      },
    )

-- The part of `sched_fifo_dequeue_task` that takes the next task `t` out.
abbrev pub take_next : ℕ → Context → ℕ → Context
take_next max_tasks c t =
    let next = (c.next_task + 1) % max_tasks in
    record c {
      next_task = next;
      empty = if next == c.end_of_queue then true else c.empty;
      current = t;
    }

-- `sched_fifo_dequeue_task`
unfoldable pub dequeue : ℕ → Context → Run (ℕ × Context)
dequeue max_tasks c =
    if c.empty
    then ret (idle_handle, record c { current = idle_handle })
    else elim (get_elem? c.tasks_queue c.next_task) [
      | none ↦ fault
      | some t ↦ ret (t, take_next max_tasks c t)
    ]

-- `sched_fifo_schedule`
abbrev pub schedule : ℕ → ℕ → Context → Kstatus × Context
schedule max_tasks t c = enqueue max_tasks t c

-- `sched_fifo_elect`: with an empty queue, `current` is left as it is.
unfoldable pub elect : ℕ → Context → Run (ℕ × Context)
elect max_tasks c = if c.empty then ret (idle_handle, c) else dequeue max_tasks c

-- `sched_fifo_get_current`
abbrev pub get_current : Context → ℕ
get_current c = c.current
