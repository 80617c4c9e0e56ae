-- ===== src/Examples/Waits.antt =====
-- The theorems on waiting for events and on the delivery of an IPC at a concrete kernel state.
use sentry_kernel.Base.{ℕ, ◌≡◌, refl, ◌≢◌, ◌⊎◌, arith, ret, Result, failure}
use sentry_kernel.KTypes.{Kstatus, okay, error_noent, waitforevent, again, non_sense}
use sentry_kernel.Task.{index_of, get_from_handle}
use sentry_kernel.Task.Events.{load_sig_event}
use sentry_kernel.Sched.Rrmq.{Context}
use sentry_kernel.Sched.Rrmq.Lawful.{IsWell, policy-IsLawful}
use sentry_kernel.Kernel.{Kernel, put_sysreturn}
use sentry_kernel.Kernel.Ipc.{load_ipc_event}
use sentry_kernel.Kernel.Ipc.Delivery.{Delivered, load_ipc_event_lem}
use sentry_kernel.Syscalls.Suspend.{Suspended}
use sentry_kernel.Syscalls.Wait.{gate_waitforevent}
use sentry_kernel.Syscalls.Wait.Idle.{NothingPending, IsDelayed, gate_waitforevent_lem}
use sentry_kernel.Examples.{
  meta_of, first_handle, second_handle, last_handle, first_task, second_task, first_found,
  second_found, second-IsUser, running,
}
use sentry_kernel.Examples.Kernels.{
  two_slots, rrmq, small_kernel, KernelIsFine, small_kernel-IsValid, current_is_first,
}
use sentry_kernel.Kernel.Valid.{Elected}

abbrev mapped : ℕ → Kstatus
mapped _ = okay

abbrev no_device : ℕ → Result ℕ
no_device _ = failure error_noent

-- The IPC of five bytes that the second task has sent to the first one.
load_ipc_event_lem_example :
    Delivered rrmq
      (IsWell 2)
      (policy-IsLawful 2 two_slots)
      2
      mapped
      last_handle
      first_handle
      1
      5
      first_task
      second_task
      small_kernel
      (load_ipc_event rrmq mapped first_handle small_kernel)
load_ipc_event_lem_example =
    load_ipc_event_lem rrmq (IsWell 2) (policy-IsLawful 2 two_slots) 2 mapped last_handle
      first_handle 1 5 first_task second_task (meta_of second_handle 4) (meta_of first_handle 3)
      small_kernel small_kernel-IsValid first_found refl refl second_found (omega arith)
      second-IsUser refl refl refl refl

nothing_signalled : NothingPending rrmq mapped 2 first_handle small_kernel
unfolding load_sig_event get_from_handle index_of
nothing_signalled = record {
  no_signal = λ _. refl;
  no_irq = λ e. cc;
  no_dma = λ e. cc;
  no_ipc = λ e. cc;
}

gate_waitforevent_lem_example :
    ((◌≡◌ {A = ℕ} 7 0xffffffff)
      × (gate_waitforevent rrmq mapped no_device 55 2 7 small_kernel
          ≡ ret (55, put_sysreturn first_handle again small_kernel)))
    ⊎ ((◌≢◌ {A = ℕ} 7 0xffffffff)
        × ((sp : ℕ) × (k' : Kernel Context) × (gate_waitforevent rrmq mapped no_device 55 2 7
                small_kernel
              ≡ ret (sp, k'))
            × KernelIsFine k'
            × Suspended first_handle waitforevent non_sense small_kernel.tasks k'.tasks
            × IsDelayed first_handle 7 small_kernel.delays k'.delays
            × Elected rrmq k'.tasks running k'.sched sp))
gate_waitforevent_lem_example =
    gate_waitforevent_lem rrmq (IsWell 2) (policy-IsLawful 2 two_slots) 2 mapped no_device
      last_handle 55 2 7 first_handle small_kernel small_kernel-IsValid current_is_first
      nothing_signalled
