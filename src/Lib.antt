-- ===== src/Lib.antt =====
-- A verification library for the Sentry kernel (kernel/): the task table and its event queues, the
-- schedulers, the delay queues and their ticker, the shared memory table and its mapping, the DMA
-- streams, the capability queries, the start of the task manager, and the system calls that put tasks to
-- sleep, wake them, deliver events, or share memory.
--
-- How the parts interact. The task table (kernel/src/managers/task/task_core.c) holds the state, the
-- pending events and the system call return value of each task, found by opaque handles. A scheduler
-- (kernel/src/sched) keeps the handles of the tasks that can run and reads state and metadata from the
-- table. The delay manager (kernel/src/managers/time/delay.c) holds the tasks that sleep and the
-- signals that are due later; its ticker changes the table and calls the scheduler. A system call
-- (kernel/src/syscalls) asks the scheduler for the current task, changes table, delays or shared
-- memories, and returns the stack frame of the task to resume.
--
-- Files:
-- - Base, KTypes: shared names, C arrays as lists, rings, the outcome of a C function (Run: it returns,
--   it calls panic, or it makes an undefined access), out parameters (Result), and the enumerations of
--   ktypes.h, job.h, panic.h and uapi/types.h.
-- - Handle: task and shared memory handles as bit fields.
-- - Task, with Accessors and Agree: the table, mgr_task_get_... and mgr_task_set_..., one function each.
-- - Task.Events, with Queue: interrupt and DMA queues, IPC and signal slots.
-- - Sched.Rrmq: sched_rrmq.c, one function each; the children hold its invariant.
-- - Sched.Fifo, with Queue: sched_fifo.c.
-- - Sched.Policy: what the kernel needs of any scheduler, as operations and laws; Sched.Rrmq.Lawful
--   fills it.
-- - Delay, with Cells and Slots: the delay queues. Kernel: the state of the whole kernel and
--   mgr_task_push_sig_event; Kernel.Tick: mgr_time_delay_tick; Kernel.Valid: well-formed states.
-- - Shm, with Access and Flags: memory_shm.c. Security: security.c.
-- - Syscalls: gate_sleep, gate_exit, gate_yield, gate_send_signal, gate_alarm, with their proofs in
--   Suspend, Leave, Signal and Alarm; Syscalls.Ipc: gate_send_ipc and the deadlock check;
--   Syscalls.Sharing: gate_shm_setcreds; Syscalls.Start: gate_start.
-- - Task.Exchange, Kernel.Ipc with Delivery: the exchange areas and mgr_task_load_ipc_event of
--   kernel/src/managers/task/task_core.c; Syscalls.Wait with Idle: gate_waitforevent.
-- - Dma, with Calls: kernel/src/managers/dma/dma.c, with proofs in Automaton, Lookup and Release;
--   Syscalls.Dma with Gates: the gates on DMA streams.
-- - Mapping, with Slots, Shared, Unmap, Collide and Sizes: the layouts of tasks, mgr_mm_map_shm and
--   mgr_mm_unmap_shm of kernel/src/managers/memory/memory_mpu.c; Syscalls.Map with Roundtrip:
--   gate_map_shm and gate_unmap_shm.
-- - Boot, with Automaton: task_init.c and task_idle.c of kernel/src/managers/task. Fresh is a new task,
--   Round a round of the loop, Filled its end, Booted what the table promises, Ready the whole; Rrmq: the
--   first calls of the scheduler.
-- - Syscalls.Query with Infos: gate_get_prochandle, gate_get_shmhandle and gate_shm_get_infos.
-- - Zlib, with Sort: bubble_sort of kernel/include/sentry/zlib/sort.h.
-- - Examples: a small system on which the theorems and some tests are run.
--
-- Conventions. A machine word is a natural number, with its wrap-around written out where the code can
-- reach it. A pointer to a task, a job or a shared memory is its index; a write through it replaces the
-- cell. CONFIG_MAX_TASKS, JIFFIES_TO_MSEC(1), the capability bit of start and the size of the exchange
-- area are arguments. Loops over an array recur on the array or on the number of rounds. The loop of the
-- deadlock check runs on fuel: a push pays for the frame that is pushed, and the fuel given is the
-- cost of the first frame (Syscalls.Ipc.Ends). Loop counters of type uint8_t are taken to be wide
-- enough, which holds for CONFIG_MAX_TASKS below 256. The
-- CONFIG_BUILD_TARGET_AUTOTEST variants are left out.
--
-- The drivers and the hardware are records of functions: Gpdma for the DMA driver, Mpu for the MPU, whose
-- headers stand on CMSIS, and functions for the entropy source and for the load of a region. The layouts
-- of the tasks are a list beside the task table, one layout for each cell. An exchange area is a list of
-- bytes. A timeout is its 32-bit pattern.
--
-- Not modelled: the device, interrupt, clock and log managers, the mapping of devices and the regions of
-- the kernel, drivers, assembly, the user-space bindings and the tests.
pub mod Base
pub mod KTypes
pub mod Handle
pub mod Task
pub mod Sched
pub mod Delay
pub mod Dma
pub mod Security
pub mod Shm
pub mod Mapping
pub mod Kernel
pub mod Boot
pub mod Syscalls
pub mod Examples
pub mod Zlib
