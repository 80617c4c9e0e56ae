-- ===== src/Kernel/Ipc/Delivery.antt =====
-- What `mgr_task_load_ipc_event` does to the receiver and the sender of an IPC, on a well-formed
-- kernel and with any lawful scheduler.
use sentry_kernel.Base.{
  ℕ, ◌≡◌, refl, sym, ap, ◌∙◌, subst, ◌≢◌, true, false, some, List, arith, ◌==◌, if◌then◌else◌,
  if_true, if_false, ==_iff, get_elem?, set, take, Run, ret, >>=-ret,
}
use sentry_kernel.KTypes.{
  SecureBool, secure_true, secure_false, Kstatus, okay, is_okay, ready, Status, ok,
}
use sentry_kernel.Task.{
  TaskMeta, Task, TaskTable, get_from_handle, write, get_metadata, set_sysreturn,
}
use sentry_kernel.Task.Accessors.{get_from_handle-set}
use sentry_kernel.Task.Agree.{Agree, Agree-trans, write_agrees, set_sysreturn-Agree}
use sentry_kernel.Task.Events.{first_byte}
use sentry_kernel.Task.Exchange.{
  overwrite, event_bytes, event_type_ipc, put_exchange, put_exchange-Agree,
}
use sentry_kernel.Sched.Policy.{Policy, IsLawful}
use sentry_kernel.Sched.Rrmq.Room.{IsUser}
use sentry_kernel.Sched.Rrmq.Lawful.{IsUser-stable}
use sentry_kernel.Kernel.{Kernel, put_sysreturn}
use sentry_kernel.Kernel.Valid.{Rescheduled, KernelIsValid, tasks-IsValid, put_sysreturn-IsValid}
use sentry_kernel.Kernel.Signals.{ready_lem}
use sentry_kernel.Kernel.Ipc.{map_svcexchange, copy_ipc, deliver, from_slot, load_ipc_event}

-- The receiver has the event in its exchange area and its slot is free again.
abbrev pub received : ℕ → ℕ → Task → Task → Task
received idx len source t = record t {
  ipcs = set t.ipcs idx 0;
  svcexchange =
      overwrite (event_bytes event_type_ipc len source.handle (take len source.svcexchange))
        t.svcexchange;
}

-- The sender is ready, its system call answered.
abbrev pub relieved : Task → Task
relieved s = record s { state = ready; sysreturn = ok; sysretassigned = secure_true }

-- A write through a handle, as the readers of all handles see it.
write_seen :
    (tab : TaskTable) (h : ℕ) (t : Task) (f : Task → Task)
    → get_from_handle tab h ≡ some t
    → (f t).handle ≡ t.handle
    → (k : ℕ)
    → get_from_handle (write f tab h (get_from_handle tab h)).1 k
      ≡ (if h == k then some (f t) else get_from_handle tab k)
write_seen tab h t f e same k =
    ap (λ o. get_from_handle (write f tab h o).1 k) e ∙ get_from_handle-set tab h k t (f t) e same

ne→== : (a b : ℕ) → a ≢ b → (a == b) ≡ false
ne→== a b n = ground arith

put_exchange-seen :
    (h : ℕ) (bytes : List ℕ) (tab : TaskTable) (t : Task)
    → get_from_handle tab h ≡ some t
    → (k : ℕ)
    → get_from_handle (put_exchange h bytes tab) k ≡ (
        if h == k
        then some (record t { svcexchange = overwrite bytes t.svcexchange })
        else get_from_handle tab k)
unfolding put_exchange
put_exchange-seen h bytes tab t e k =
    write_seen tab h t (λ t. record t { svcexchange = overwrite bytes t.svcexchange }) e refl k

set_sysreturn-seen :
    (tab : TaskTable) (h : ℕ) (t : Task) (s : Status)
    → get_from_handle tab h ≡ some t
    → (k : ℕ)
    → get_from_handle (set_sysreturn tab h s).1 k ≡ (
        if h == k
        then some (record t { sysreturn = s; sysretassigned = secure_true })
        else get_from_handle tab k)
unfolding set_sysreturn
set_sysreturn-seen tab h t s e k =
    write_seen tab h t (λ t. record t { sysreturn = s; sysretassigned = secure_true }) e refl k

module _ {S : Type 0} (p : Policy S) (IsWell : TaskTable → S → Type 0) (lawful : IsLawful p IsWell)
    (max_tasks : ℕ) (mpu : ℕ → Kstatus) where
  abbrev pub Delivered : ℕ → ℕ → ℕ → ℕ → Task → Task → Kernel S → Run (Kstatus × Kernel S) → Type 0
  Delivered idle context idx len current source k r =
      (k' : Kernel S) × (r ≡ ret (okay, k'))
      × KernelIsValid p IsWell lawful max_tasks idle k'
      × (get_from_handle k'.tasks context ≡ some (received idx len source current))
      × (get_from_handle k'.tasks source.handle ≡ some (relieved source))
      × ((h : ℕ)
          → h ≢ context
          → h ≢ source.handle
          → get_from_handle k'.tasks h ≡ get_from_handle k.tasks h)
      × (k'.delays ≡ k.delays)
      × ((tab : TaskTable) × (get_from_handle tab source.handle ≡ some (relieved source))
          × Agree k.tasks tab
          × Rescheduled p source.handle tab k.sched k'.sched)

  copy_ipc-delivers :
      (idle context idx len : ℕ) (current source : Task) (k : Kernel S)
      → KernelIsValid p IsWell lawful max_tasks idle k
      → get_from_handle k.tasks context ≡ some current
      → get_from_handle k.tasks source.handle ≡ some source
      → source.handle ≢ context
      → IsUser k.tasks source.handle
      → Delivered idle context idx len current source k (copy_ipc p mpu context idx len source k)
  copy_ipc-delivers idle context idx len current source k v cur src apart user =
      let bytes = event_bytes event_type_ipc len source.handle (take len source.svcexchange) in
      let tab1 = put_exchange context bytes k.tasks in
      let k1 : Kernel S = record k { tasks = tab1 } in
      let a1 = put_exchange-Agree context bytes k.tasks in
      let v1 = tasks-IsValid p IsWell lawful max_tasks idle k tab1 v a1 in
      let k2 = put_sysreturn source.handle ok k1 in
      let a2 = set_sysreturn-Agree tab1 source.handle ok in
      let v2 = put_sysreturn-IsValid p IsWell lawful max_tasks idle k1 source.handle ok v1 in
      let t1 = record current { svcexchange = overwrite bytes current.svcexchange } in
      let t2 = record source { sysreturn = ok; sysretassigned = secure_true } in
      let seen1 = λ (h : ℕ). put_exchange-seen context bytes k.tasks current cur h in
      let src1 : get_from_handle tab1 source.handle ≡ some source =
        seen1 source.handle
        ∙ if_false _ _ (ne→== context source.handle (λ e. apart (sym e)))
        ∙ src in
      let seen2 = λ (h : ℕ). set_sysreturn-seen tab1 source.handle source ok src1 h in
      let src2 : get_from_handle k2.tasks source.handle ≡ some t2 =
        seen2 source.handle ∙ if_true _ _ ((==_iff source.handle source.handle).1 refl) in
      let user2 =
        IsUser-stable tab1 k2.tasks a2.numtask a2.metadata source.handle
          (IsUser-stable k.tasks tab1 a1.numtask a1.metadata source.handle user) in
      let (k3, run, v3, src3, others3, delays3, a3, called) =
        ready_lem p IsWell lawful max_tasks idle source.handle t2 k2 v2 user2 src2 in
      let free = λ (t : Task). record t { ipcs = set t.ipcs idx 0 } in
      let tab4 = (write free k3.tasks context (get_from_handle k3.tasks context)).1 in
      let cur3 : get_from_handle k3.tasks context ≡ some t1 =
        others3 context (λ e. apart (sym e))
        ∙ seen2 context
        ∙ if_false _ _ (ne→== source.handle context apart)
        ∙ seen1 context
        ∙ if_true _ _ ((==_iff context context).1 refl) in
      let seen4 = λ (h : ℕ). write_seen k3.tasks context t1 free cur3 refl h in
      (
        record k3 { tasks = tab4 },
        >>=-ret _ run,
        tasks-IsValid p IsWell lawful max_tasks idle k3 tab4 v3
            (write_agrees k3.tasks context free (λ t. (refl, refl))),
        seen4 context ∙ if_true _ _ ((==_iff context context).1 refl),
        seen4 source.handle
            ∙ if_false _ _ (ne→== context source.handle (λ e. apart (sym e)))
            ∙ src3,
        (λ h far farther.
            seen4 h
            ∙ if_false _ _ (ne→== context h (λ e. far (sym e)))
            ∙ others3 h farther
            ∙ seen2 h
            ∙ if_false _ _ (ne→== source.handle h (λ e. farther (sym e)))
            ∙ seen1 h
            ∙ if_false _ _ (ne→== context h (λ e. far (sym e)))),
        delays3,
        (
          k3.tasks,
          src3,
          Agree-trans k.tasks tab1 k3.tasks a1 (Agree-trans tab1 k2.tasks k3.tasks a2 a3),
          called,
        ),
      )

  load_ipc_event-deliver :
      (context idx len : ℕ) (current source : Task) (k : Kernel S)
      → get_from_handle k.tasks context ≡ some current
      → first_byte current.ipcs 0 k.tasks.numtask ≡ ret (some (idx, len))
      → get_elem? k.tasks.cells idx ≡ some source
      → load_ipc_event p mpu context k
        ≡ deliver p mpu context idx len source k source.metadata current.metadata
  unfolding load_ipc_event
  load_ipc_event-deliver context idx len current source k cur slot cell =
      rw (cur, load_ipc_event) (>>=-ret _ slot ∙ rw (cell, from_slot) refl)

  map_svcexchange_lem :
      (k : Kernel S) (source : Task) (b : SecureBool)
      → get_from_handle k.tasks source.handle ≡ some source
      → b ≡ secure_true
      → map_svcexchange mpu b k.tasks source.handle ≡ mpu source.handle
  unfolding map_svcexchange get_metadata
  map_svcexchange_lem k source secure_true src conf = rw (src, map_svcexchange, get_metadata) refl
  map_svcexchange_lem k source secure_false src conf = absurd cc

  -- Loading an IPC of another task, on a well-formed kernel and with any lawful scheduler, returns
  -- K_STATUS_OKAY where the sender is a user task whose exchange area can be mapped: the receiver has
  -- the event in its exchange area, with the bytes of the sender's area behind the header, and the
  -- slot is free again; the sender is ready with STATUS_OK, and the scheduler is called for it when it is;
  -- no other task changes, the delays are left alone, and the kernel stays well formed.
  pub load_ipc_event_lem :
      (idle context idx len : ℕ) (current source : Task) (from to : TaskMeta) (k : Kernel S)
      → KernelIsValid p IsWell lawful max_tasks idle k
      → get_from_handle k.tasks context ≡ some current
      → first_byte current.ipcs 0 k.tasks.numtask ≡ ret (some (idx, len))
      → get_elem? k.tasks.cells idx ≡ some source
      → get_from_handle k.tasks source.handle ≡ some source
      → source.handle ≢ context
      → IsUser k.tasks source.handle
      → source.metadata ≡ some from
      → current.metadata ≡ some to
      → k.shms.configured ≡ secure_true
      → mpu source.handle ≡ okay
      → Delivered idle context idx len current source k (load_ipc_event p mpu context k)
  load_ipc_event_lem idle context idx len current source from to k v cur slot cell src apart user mf
        mt conf mapped =
      let good : is_okay (map_svcexchange mpu k.shms.configured k.tasks source.handle) ≡ true =
        ap is_okay (map_svcexchange_lem k source k.shms.configured src conf ∙ mapped) in
      subst (Delivered idle context idx len current source k)
        (sym (
          load_ipc_event-deliver context idx len current source k cur slot cell
          ∙ ap (λ a. deliver p mpu context idx len source k a current.metadata) mf
          ∙ ap (λ b. deliver p mpu context idx len source k (some from) b) mt
          ∙ if_true _ _ good))
        (copy_ipc-delivers idle context idx len current source k v cur src apart user)
