-- ===== src/Syscalls/Map/Roundtrip.antt =====
-- gate_map_shm, then gate_unmap_shm by the same task.
use sentry_kernel.Base.{
  ℕ, ◌%◌, ◌≡◌, refl, ap, ◌∙◌, ◌≢◌, List, if_true, ==_iff, length, set, ret, ◌>>=◌, >>=-ret, success,
}
use sentry_kernel.KTypes.{SecureBool, secure_true, Kstatus, okay, ok}
use sentry_kernel.Task.{TaskTable, index_of, get_sysreturn}
use sentry_kernel.Task.Accessors.{sysreturn_protocol}
use sentry_kernel.Task.Agree.{Agree, Agree-refl, Agree-there, set_sysreturn-Agree}
use sentry_kernel.Shm.{ShmMeta, ShmUser, tsk_owner, tsk_user, tsk_none, ShmTable, is_mapped_by}
use sentry_kernel.Mapping.{Mpu, Layouts, max_resources, shm_region, map_shm, unmap_shm}
use sentry_kernel.Mapping.Slots.{Avoids}
use sentry_kernel.Mapping.Shared.{MayMap}
use sentry_kernel.Mapping.Unmap.{IsAligned, unmap_shm-map_shm}
use sentry_kernel.Sched.Policy.{Policy}
use sentry_kernel.Kernel.{Kernel, put_sysreturn}
use sentry_kernel.Syscalls.Map.{
  map_status, map_mapped, map_with, unmapped_shm, unmap_mapped, unmap_with, gate_map_shm,
  gate_unmap_shm,
}

module _ {S R : Type 0} (p : Policy S) (mpu : Mpu R) (tsk shm : ℕ) (user : ShmUser) (m : ShmMeta)
    (layout : List R) (i : ℕ) (can_write : SecureBool) where
  map_with-user :
      (frame : ℕ) (k : Kernel S) (ls : Layouts R) (u : ShmUser)
      → u ≢ tsk_none
      → map_with mpu frame tsk shm k ls (success u)
        ≡ map_mapped mpu frame tsk k (map_shm mpu k.tasks tsk shm ls k.shms)
  map_with-user frame k ls tsk_owner n = refl
  map_with-user frame k ls tsk_user n = refl
  map_with-user frame k ls tsk_none n = absurd (n refl)

  unmap_with-user :
      (frame : ℕ) (k : Kernel S) (ls : Layouts R) (u : ShmUser)
      → u ≢ tsk_none
      → is_mapped_by k.shms shm u ≡ success secure_true
      → unmap_with mpu frame tsk shm k ls (success u)
        ≡ (unmap_shm mpu k.tasks tsk shm ls k.shms >>= unmapped_shm mpu frame tsk k)
  unmap_with-user frame k ls tsk_owner n e = ap (unmap_mapped mpu frame tsk shm k ls) e
  unmap_with-user frame k ls tsk_user n e = ap (unmap_mapped mpu frame tsk shm k ls) e
  unmap_with-user frame k ls tsk_none n e = absurd (n refl)

  map_answers :
      (frame : ℕ) (k : Kernel S) (ls : Layouts R)
      → p.current k.tasks k.sched ≡ ret tsk
      → MayMap mpu k.tasks tsk shm user m layout i can_write ls k.shms
      → (r : Kstatus × (ShmTable × Layouts R)) → r.0 ≡ okay
      → map_shm mpu k.tasks tsk shm ls k.shms ≡ r
      → gate_map_shm p mpu frame shm k ls
        ≡ ret (frame, (put_sysreturn tsk ok (record k { shms = r.1.0 }), r.1.1))
  unfolding gate_map_shm
  map_answers frame k ls cur c r good run =
      >>=-ret _ cur
      ∙ ap (map_with mpu frame tsk shm k ls) c.role
      ∙ map_with-user frame k ls user c.has_role
      ∙ ap (map_mapped mpu frame tsk k) run
      ∙ ap (λ s. ret (frame, (put_sysreturn tsk (map_status s) (record k { shms = r.1.0 }), r.1.1)))
          good

  -- A task that may map a shared memory maps it, and unmaps it: both gates return its frame, with
  -- STATUS_OK as its return value, and then the shared memories and the layouts of all tasks are what
  -- they were before, on an MPU of the kind of PMSAv8, for an address that is a multiple of 32 and that
  -- no other entry of the task's layout has. In between, the layout of the task has the region of the
  -- shared memory, writeable exactly with the permission.
  pub gate_unmap_shm-gate_map_shm :
      (frame : ℕ) (k : Kernel S) (ls : Layouts R)
      → IsAligned mpu
      → ((tab : TaskTable) → Agree k.tasks tab → p.current tab k.sched ≡ ret tsk)
      → MayMap mpu k.tasks tsk shm user m layout i can_write ls k.shms
      → length layout ≡ max_resources mpu
      → m.baseaddr % 32 ≡ 0
      → Avoids mpu m.baseaddr layout
      → (k1 : Kernel S) × (ls1 : Layouts R) × (k2 : Kernel S) × (gate_map_shm p mpu frame shm k ls
          ≡ ret (frame, (k1, ls1)))
        × (ls1 ≡ set ls (index_of tsk) (set layout i (mpu.forge (shm_region mpu i m can_write))))
        × (get_sysreturn k1.tasks tsk ≡ success ok)
        × (gate_unmap_shm p mpu frame shm k1 ls1 ≡ ret (frame, (k2, ls)))
        × (k2.shms ≡ k.shms)
        × (get_sysreturn k2.tasks tsk ≡ success ok)
  unfolding gate_unmap_shm
  gate_unmap_shm-gate_map_shm frame k ls v8 cur c full even alone =
      let r = map_shm mpu k.tasks tsk shm ls k.shms in
      let k0 : Kernel S = record k { shms = r.1.0 } in
      let k1 = put_sysreturn tsk ok k0 in
      let a1 = set_sysreturn-Agree k.tasks tsk ok in
      let there1 = Agree-there k.tasks k1.tasks tsk a1 c.in_table in
      let (good, role, flag, where_, back) =
        unmap_shm-map_shm mpu k.tasks k1.tasks tsk shm user m layout i can_write ls k.shms v8 c full
          even alone there1 in
      let k2 = put_sysreturn tsk ok (record k1 { shms = k.shms }) in
      let (_, reads1, _, _, _, _) = sysreturn_protocol k.tasks tsk ok c.in_table in
      let (_, reads2, _, _, _, _) = sysreturn_protocol k1.tasks tsk ok there1 in
      (
        k1,
        r.1.1,
        k2,
        map_answers frame k ls (cur k.tasks (Agree-refl k.tasks)) c r good refl,
        where_,
        reads1 tsk ∙ if_true _ _ ((==_iff tsk tsk).1 refl),
        >>=-ret _ (cur k1.tasks a1)
            ∙ ap (unmap_with mpu frame tsk shm k1 r.1.1) role
            ∙ unmap_with-user frame k1 r.1.1 user c.has_role flag
            ∙ >>=-ret _ back,
        refl,
        reads2 tsk ∙ if_true _ _ ((==_iff tsk tsk).1 refl),
      )
