-- ===== src/Examples/Kernels.antt =====
-- The theorems on the ticker, the system calls and shared memories at a concrete kernel state.
use sentry_kernel.Base.{
  ℕ, ◌+◌, ◌-◌, ◌*◌, ◌^◌, ◌≤◌, ◌<◌, ◌≡◌, refl, ◌≢◌, ◌⊎◌, inl, inr, none, some, [], ◌∷◌, arith,
  get_elem?, ret, success,
}
use sentry_kernel.KTypes.{
  secure_true, secure_false, okay, error_busy, ready, sleeping, sleeping_deep, aborting,
  waitforevent, ok, invalid, busy, timeout, non_sense,
}
use sentry_kernel.Task.{
  Task, TaskTable, index_of, get_from_handle, get_sp, get_state, set_state, get_sysreturn, get_idle,
  get_handle,
}
use sentry_kernel.Task.Accessors.{Keeps}
use sentry_kernel.Task.Agree.{Agree, set_state-Agree}
use sentry_kernel.Task.Events.{local_ipc_iterate}
use sentry_kernel.Sched.Policy.{Policy}
use sentry_kernel.Sched.Rrmq.Room.{IsUser}
use sentry_kernel.Sched.Rrmq.Lawful.{policy, IsWell, IsUser-stable, policy-IsLawful}
use sentry_kernel.Sched.Rrmq.{Context, get_current}
use sentry_kernel.Delay.{TaskDelayState, zero_delay, update, arm_job, disarm}
use sentry_kernel.Delay.Cells.{armed, Inserted}
use sentry_kernel.Delay.Slots.{IsArmedFor}
use sentry_kernel.Shm.{
  ShmMeta, tsk_user, ShmUserState, ShmTable, no_access, fresh_info, init_infos, declare_user,
  set_mapflag, configure,
}
use sentry_kernel.Shm.Access.{EntriesAreValid, shm_invariant, init_infos-valid}
use sentry_kernel.Kernel.{Kernel, put_sysreturn, push_sig_event}
use sentry_kernel.Kernel.Signals.{Signalled, push_sig_event_lem}
use sentry_kernel.Kernel.Valid.{Rescheduled, Elected, KernelIsValid, tasks-IsValid}
use sentry_kernel.Kernel.Tick.{expire_job}
use sentry_kernel.Kernel.Tick.Sleep.{elapse_all, ticks, no_early_wake}
use sentry_kernel.Kernel.Tick.Wake.{expire_job_lem}
use sentry_kernel.Syscalls.{gate_sleep, gate_exit, gate_yield, gate_send_signal, gate_alarm}
use sentry_kernel.Syscalls.Suspend.{Suspended, gate_sleep_lem}
use sentry_kernel.Syscalls.Signal.{Notified, IsInterrupted, gate_send_signal_lem}
use sentry_kernel.Syscalls.Leave.{gate_exit_lem, gate_yield_lem}
use sentry_kernel.Syscalls.Alarm.{AlarmOutcome, gate_alarm_lem}
use sentry_kernel.Syscalls.Ipc.{cost, deadlock_loop, ipc_generates_deadlock}
use sentry_kernel.Syscalls.Ipc.Chains.{Chain}
use sentry_kernel.Syscalls.Ipc.Ends.{ipc_generates_deadlock-ends}
use sentry_kernel.Syscalls.Ipc.Deadlock.{ipc_generates_deadlock_lem}
use sentry_kernel.Examples.{
  task_of, first_handle, second_handle, last_handle, first_task, second_task, last_task,
  three_tasks, second_found, last_is_idle, second-IsUser, running, running-IsValid,
}

abbrev pub two_slots : 2 < 2 ^ 32
two_slots = omega arith

abbrev pub rrmq : Policy Context
rrmq = policy 2

abbrev pub shm_entry : ShmUserState
shm_entry = record {
  config = record { mappable = secure_true; rw = secure_true; transferable = secure_false };
  is_mapped = secure_false;
  task = first_handle;
}

-- One shared memory, of the first task.
abbrev pub one_shm : ShmTable
one_shm = record {
  infos =
      record {
        handle = 256;
        meta = record {
          baseaddr = 4096;
          size = 512;
          is_dma_pool = secure_false;
          is_mappable = secure_true;
          shm_label = 11;
          owner_label = 1;
        };
        is_shared = secure_false;
        owner = shm_entry;
        user = shm_entry;
      }
      ∷ [];
  configured = secure_true;
}

-- The second task has 100 ms to sleep.
abbrev pub small_kernel : Kernel Context
small_kernel = record {
  tasks = three_tasks;
  sched = running;
  delays = record {
    joblist = arm_job second_handle 100 zero_delay ∷ zero_delay ∷ [];
    evlist = zero_delay ∷ zero_delay ∷ [];
  };
  shms = one_shm;
}

abbrev pub KernelIsFine : Kernel Context → Type 0
KernelIsFine k = KernelIsValid rrmq (IsWell 2) (policy-IsLawful 2 two_slots) 2 last_handle k

last_known : get_from_handle three_tasks last_handle ≢ none
unfolding get_from_handle index_of
last_known e = cc

pub small_kernel-IsValid : KernelIsFine small_kernel
small_kernel-IsValid = record {
  well = (running-IsValid, omega arith);
  idle_last = last_is_idle;
  idle_known = last_known;
  jobs_storage = refl;
  events_storage = refl;
}

pub current_is_first : rrmq.current three_tasks running ≡ ret first_handle
unfolding get_current get_idle
current_is_first = refl

no_early_wake_example :
    ticks rrmq 1 2 99 small_kernel
    ≡ ret (record small_kernel { delays = elapse_all (1 * 99) small_kernel.delays })
no_early_wake_example =
    no_early_wake rrmq 1 2 99 small_kernel refl refl (inr (omega arith), (inl refl, tt))
      (inl refl, (inl refl, tt))

gate_sleep_lem_example :
    (t : ℕ) × (rrmq.current three_tasks running ≡ ret t)
    × (((1 < 1)
          × (gate_sleep rrmq 55 20 1 small_kernel ≡ ret (55, put_sysreturn t invalid small_kernel)))
        ⊎ ((1 ≤ 1)
            × (armed small_kernel.delays.joblist ≡ small_kernel.delays.joblist)
            × (gate_sleep rrmq 55 20 1 small_kernel ≡ ret (55, put_sysreturn t busy small_kernel)))
        ⊎ ((1 ≤ 1)
            × ((sp : ℕ) × (k' : Kernel Context) × (d : TaskDelayState) × (gate_sleep rrmq 55 20 1
                    small_kernel
                  ≡ ret (sp, k'))
                × KernelIsFine k'
                × Suspended t sleeping_deep non_sense three_tasks k'.tasks
                × (k'.delays.evlist ≡ small_kernel.delays.evlist)
                × IsArmedFor t 20 d
                × Inserted d (armed small_kernel.delays.joblist) (armed k'.delays.joblist)
                × Elected rrmq k'.tasks running k'.sched sp)))
gate_sleep_lem_example =
    gate_sleep_lem rrmq (IsWell 2) (policy-IsLawful 2 two_slots) 2 last_handle 55 20 1 small_kernel
      small_kernel-IsValid

gate_exit_lem_example :
    (t : ℕ) × (sp : ℕ) × (k' : Kernel Context) × (rrmq.current three_tasks running ≡ ret t)
    × (gate_exit rrmq 4 small_kernel ≡ ret (sp, k'))
    × KernelIsFine k'
    × Suspended t aborting non_sense three_tasks k'.tasks
    × (k'.delays ≡ small_kernel.delays)
    × Elected rrmq k'.tasks running k'.sched sp
    × ((u : Task) × (get_from_handle k'.tasks t ≡ some u) × (u.returncode ≡ 4))
gate_exit_lem_example =
    gate_exit_lem rrmq (IsWell 2) (policy-IsLawful 2 two_slots) 2 last_handle 4 small_kernel
      small_kernel-IsValid

gate_yield_lem_example :
    (t : ℕ) × (sp : ℕ) × (k' : Kernel Context) × (rrmq.current three_tasks running ≡ ret t)
    × (gate_yield rrmq small_kernel ≡ ret (sp, k'))
    × KernelIsFine k'
    × (get_sysreturn k'.tasks t ≡ success ok)
    × Keeps get_state three_tasks k'.tasks
    × (k'.delays ≡ small_kernel.delays)
    × ((next : ℕ) × ((next ≡ last_handle) ⊎ IsUser three_tasks next)
        × (get_sp three_tasks next ≡ success sp)
        × (rrmq.elect three_tasks running ≡ ret (next, k'.sched)))
gate_yield_lem_example =
    gate_yield_lem rrmq (IsWell 2) (policy-IsLawful 2 two_slots) 2 last_handle small_kernel
      small_kernel-IsValid

one_shm-valid : EntriesAreValid 0 one_shm.infos
one_shm-valid = (record { named = refl; shared = inr (refl, refl) }, tt)

shm_invariant_example :
    EntriesAreValid 0 (declare_user one_shm 256 second_handle).1.infos
    × EntriesAreValid 0 (set_mapflag one_shm 256 tsk_user secure_true).1.infos
    × EntriesAreValid 0 (configure one_shm 256 tsk_user no_access).1.infos
shm_invariant_example =
    shm_invariant one_shm 256 second_handle tsk_user secure_true no_access one_shm-valid

abbrev one_meta : ShmMeta
one_meta = record {
  baseaddr = 4096;
  size = 512;
  is_dma_pool = secure_false;
  is_mappable = secure_true;
  shm_label = 11;
  owner_label = first_handle;
}

init_one :
    init_infos (λ id. success 9) three_tasks 0 (one_meta ∷ []) (fresh_info 5 5 one_meta 0 ∷ [])
    ≡ ret (okay, fresh_info 0 9 one_meta first_handle ∷ [])
unfolding init_infos get_handle
init_one = refl

init_infos-valid_example : EntriesAreValid 0 (fresh_info 0 9 one_meta first_handle ∷ [])
init_infos-valid_example =
    init_infos-valid (λ id. success 9) three_tasks 0 (one_meta ∷ [])
      (fresh_info 5 5 one_meta 0 ∷ []) (fresh_info 0 9 one_meta first_handle ∷ []) (omega arith)
      refl (λ n e failed. absurd cc) init_one

-- The second task has sent an IPC to the first one: the first may not send one back.
deadlock_found : ipc_generates_deadlock 2 three_tasks first_handle second_handle ≡ ret secure_true
unfolding ipc_generates_deadlock deadlock_loop local_ipc_iterate get_from_handle index_of
deadlock_found = refl

ipc_generates_deadlock_lem_example :
    ((secure_true ≡ secure_true) × Chain three_tasks second_handle first_handle)
    ⊎ ((secure_true ≡ secure_false) × (¬ Chain three_tasks second_handle first_handle))
ipc_generates_deadlock_lem_example =
    ipc_generates_deadlock_lem 2 three_tasks second_handle first_handle secure_true deadlock_found

ipc_generates_deadlock-ends_example :
    deadlock_loop (1 + cost 3 (2 - 1) 0) 2 three_tasks second_handle ((first_handle, 0) ∷ [])
    ≢ ret none
ipc_generates_deadlock-ends_example =
    ipc_generates_deadlock-ends 2 three_tasks second_handle first_handle

gate_alarm_lem_example :
    AlarmOutcome rrmq 55 first_handle 30 1 small_kernel (gate_alarm rrmq 2 55 30 1 small_kernel)
gate_alarm_lem_example =
    gate_alarm_lem rrmq 2 55 30 1 first_handle small_kernel current_is_first refl

-- The second task sleeps, and its delay is over.
abbrev sleeping_tasks : TaskTable
sleeping_tasks = record {
  cells = first_task ∷ task_of second_handle 4 sleeping (0 ∷ 0 ∷ 0 ∷ []) ∷ last_task ∷ [];
  numtask = 3;
}

abbrev sleeping_kernel : Kernel Context
sleeping_kernel = record small_kernel { tasks = sleeping_tasks }

asleep-Agree : Agree three_tasks sleeping_tasks
asleep-Agree =
    unfold set_state get_from_handle index_of in set_state-Agree three_tasks second_handle sleeping

sleeping_kernel-IsValid : KernelIsFine sleeping_kernel
sleeping_kernel-IsValid =
    tasks-IsValid rrmq (IsWell 2) (policy-IsLawful 2 two_slots) 2 last_handle small_kernel
      sleeping_tasks small_kernel-IsValid asleep-Agree

second_asleep : get_state sleeping_tasks second_handle ≡ success sleeping
unfolding get_state get_from_handle index_of
second_asleep = refl

abbrev second_delay : TaskDelayState
second_delay = arm_job second_handle 100 zero_delay

expire_job_lem_example :
    (k' : Kernel Context) × (expire_job rrmq 1 0 second_delay sleeping_kernel ≡ ret k')
    × KernelIsFine k'
    × Suspended second_handle ready timeout sleeping_tasks k'.tasks
    × (k'.delays.joblist ≡ update disarm 0 sleeping_kernel.delays.joblist)
    × (k'.delays.evlist ≡ sleeping_kernel.delays.evlist)
    × Rescheduled rrmq second_handle k'.tasks running k'.sched
expire_job_lem_example =
    expire_job_lem rrmq (IsWell 2) (policy-IsLawful 2 two_slots) 1 2 last_handle 0 second_delay
      sleeping_kernel sleeping sleeping_kernel-IsValid
      (IsUser-stable three_tasks sleeping_tasks asleep-Agree.numtask asleep-Agree.metadata
        second_handle second-IsUser)
      second_asleep refl

abbrev no_signal : ℕ
no_signal = 0

first_slot_free : get_elem? second_task.sigs (index_of first_handle) ≡ some no_signal
unfolding index_of
first_slot_free = refl

push_sig_event_lem_example :
    ((no_signal ≢ 0)
      × (push_sig_event rrmq 4 first_handle second_handle small_kernel
          ≡ ret (error_busy, small_kernel)))
    ⊎ ((no_signal ≡ 0)
        × ((k' : Kernel Context) × (u : Task) × (push_sig_event rrmq 4 first_handle second_handle
                small_kernel
              ≡ ret (okay, k'))
            × KernelIsFine k'
            × (get_from_handle k'.tasks second_handle ≡ some u)
            × Signalled 4 first_handle second_task u
            × ((h : ℕ)
                → h ≢ second_handle
                → get_from_handle k'.tasks h ≡ get_from_handle three_tasks h)
            × (k'.delays ≡ small_kernel.delays)
            × Agree three_tasks k'.tasks
            × (((second_task.state ≢ waitforevent) × (k'.sched ≡ running))
                ⊎ ((second_task.state ≡ waitforevent)
                    × Rescheduled rrmq second_handle k'.tasks running k'.sched))))
push_sig_event_lem_example =
    push_sig_event_lem rrmq (IsWell 2) (policy-IsLawful 2 two_slots) 2 last_handle 4 first_handle
      second_handle no_signal second_task small_kernel small_kernel-IsValid second-IsUser
      second_found first_slot_free

first_apart : first_handle ≢ second_handle
first_apart = omega arith

gate_send_signal_lem_example :
    ((no_signal ≢ 0)
      × (gate_send_signal rrmq 55 second_handle 4 small_kernel
          ≡ ret (55, put_sysreturn first_handle busy small_kernel)))
    ⊎ ((no_signal ≡ 0)
        × ((k' : Kernel Context) × (u : Task) × (gate_send_signal rrmq 55 second_handle 4
                small_kernel
              ≡ ret (55, put_sysreturn first_handle ok k'))
            × KernelIsFine (put_sysreturn first_handle ok k')
            × (get_from_handle k'.tasks second_handle ≡ some u)
            × Notified 4 first_handle second_task u
            × ((h : ℕ)
                → h ≢ second_handle
                → get_from_handle k'.tasks h ≡ get_from_handle three_tasks h)
            × IsInterrupted rrmq second_handle second_task.state small_kernel k'))
gate_send_signal_lem_example =
    gate_send_signal_lem rrmq (IsWell 2) (policy-IsLawful 2 two_slots) 2 last_handle 55
      second_handle 4 first_handle no_signal second_task small_kernel small_kernel-IsValid
      current_is_first first_apart (omega arith) (omega arith) second-IsUser second_found
      first_slot_free
