-- ===== src/Syscalls/Query/Infos.antt =====
-- `gate_shm_get_infos`: who is told what.
use sentry_kernel.Base.{
  ℕ, ◌≡◌, refl, ap, ◌∙◌, ◌≢◌, ◌⊎◌, inl, inr, some, List, arith, ◌==◌, if_true, if_false, Bool-cases,
  ret, >>=-ret, success, failure, Result-cases,
}
use sentry_kernel.KTypes.{secure_true, secure_false, Kstatus, ok, invalid}
use sentry_kernel.Task.{TaskMeta, get_metadata}
use sentry_kernel.Task.Exchange.{put_exchange}
use sentry_kernel.Shm.{
  ShmConfig, ShmUser, tsk_owner, tsk_user, tsk_none, ShmInfo, ShmTable, lookup, ask, get_task_type,
  get_baseaddr, get_size, get_label, is_mappable_by, is_writeable_by,
}
use sentry_kernel.Sched.Policy.{Policy}
use sentry_kernel.Kernel.{Kernel, put_sysreturn}
use sentry_kernel.Syscalls.Query.{
  perms_of, info_bytes, collect_infos, tell, tell_infos, infos_as, gate_shm_get_infos,
}

-- The part that a task has in a shared memory.
pub data HasRole (t : ℕ) (info : ShmInfo) : ShmUser → Type 0 where
  as_owner : info.owner.task ≡ t → HasRole t info tsk_owner
  as_user : info.owner.task ≢ t → info.user.task ≡ t → HasRole t info tsk_user

-- The credentials of a part.
abbrev pub credentials : ShmUser → ShmInfo → ShmConfig
credentials tsk_owner info = info.owner.config
credentials _ info = info.user.config

-- What a task in a part is told: a memory that is not mappable is mappable by nobody.
abbrev pub told : ℕ → ShmUser → ShmInfo → List ℕ
told shm role info = info_bytes shm info.meta.shm_label info.meta.baseaddr info.meta.size (
    perms_of
      (elim info.meta.is_mappable [
        | secure_false ↦ secure_false
        | secure_true ↦ (credentials role info).mappable
      ])
      (credentials role info).rw)

collect_infos-told :
    (s : ShmTable) (shm t : ℕ) (role : ShmUser) (info : ShmInfo)
    → lookup s shm ≡ success info
    → HasRole t info role
    → collect_infos s shm role ≡ success (told shm role info)
unfolding get_label get_baseaddr get_size is_mappable_by is_writeable_by
collect_infos-told s shm t role info e (as_owner o) = rw e refl
collect_infos-told s shm t role info e (as_user n u) = rw e refl

-- The caller has no part in the shared memory, or the handle names none.
abbrev pub IsStranger : ShmTable → ℕ → ℕ → Type 0
IsStranger s shm t =
    ((e : Kstatus) × (lookup s shm ≡ failure e))
    ⊎ ((info : ShmInfo) × (lookup s shm ≡ success info)
        × (info.owner.task ≢ t)
        × (info.user.task ≢ t))

-- What `mgr_mm_shm_get_task_type` answers.
get_task_type-cases :
    (s : ShmTable) (shm t : ℕ)
    → (IsStranger s shm t
        × (((e : Kstatus) × (get_task_type s shm t ≡ failure e))
            ⊎ (get_task_type s shm t ≡ success tsk_none)))
      ⊎ ((info : ShmInfo) × (role : ShmUser) × (lookup s shm ≡ success info)
          × HasRole t info role
          × (get_task_type s shm t ≡ success role))
unfolding get_task_type
get_task_type-cases s shm t = elim (Result-cases (lookup s shm)) [
  | inl (e, f) ↦ inl (inl (e, f), inl (e, ap (ask _) f))
  | inr (info, f) ↦ elim (Bool-cases (info.owner.task == t)) [
    | inl o ↦ inr (
      info,
      tsk_owner,
      f,
      as_owner (ground (arith, o)),
      ap (ask _) f ∙ ap success (if_true _ _ o),
    )
    | inr other ↦ elim (Bool-cases (info.user.task == t)) [
      | inl u ↦ inr (
        info,
        tsk_user,
        f,
        as_user (λ o. ground (arith, other, o)) (ground (arith, u)),
        ap (ask _) f ∙ ap success (if_false _ _ other ∙ if_true _ _ u),
      )
      | inr nu ↦ inl (
        inr (info, f, (λ o. ground (arith, other, o)), (λ u. ground (arith, nu, u))),
        inr (ap (ask _) f ∙ ap success (if_false _ _ other ∙ if_false _ _ nu)),
      )
    ]
  ]
]

infos_as-asked :
    {S : Type 0} (frame shm t : ℕ) (role : ShmUser) (info : ShmInfo) (k : Kernel S)
    → HasRole t info role
    → infos_as frame t shm k (success role) ≡ tell_infos frame t k (collect_infos k.shms shm role)
infos_as-asked frame shm t role info k (as_owner o) = refl
infos_as-asked frame shm t role info k (as_user n u) = refl

infos_as-told :
    {S : Type 0} (frame shm t : ℕ) (role : ShmUser) (info : ShmInfo) (m : TaskMeta) (k : Kernel S)
    → lookup k.shms shm ≡ success info
    → HasRole t info role
    → get_metadata k.tasks t ≡ success (some m)
    → infos_as frame t shm k (success role)
      ≡ ret (
        frame,
        put_sysreturn t ok (record k { tasks = put_exchange t (told shm role info) k.tasks }),
      )
infos_as-told frame shm t role info m k f has meta =
    let collected = collect_infos-told k.shms shm t role info f has in
    infos_as-asked frame shm t role info k has
    ∙ ap (tell_infos frame t k) collected
    ∙ ap (tell frame t (told shm role info) k) meta

-- `gate_shm_get_infos`, called by a task with metadata, returns to it. The owner and the user of a
-- shared memory are answered STATUS_OK and find in their exchange area its handle, label, base address
-- and size and their own permissions; nothing else changes. Any other task, or one with a handle of no
-- shared memory, is answered STATUS_INVALID, and no exchange area is written.
pub gate_shm_get_infos_lem :
    {S : Type 0} (p : Policy S) (frame shm t : ℕ) (m : TaskMeta) (k : Kernel S)
    → p.current k.tasks k.sched ≡ ret t
    → get_metadata k.tasks t ≡ success (some m)
    → (IsStranger k.shms shm t
        × (gate_shm_get_infos p frame shm k ≡ ret (frame, put_sysreturn t invalid k)))
      ⊎ ((info : ShmInfo) × (role : ShmUser) × (lookup k.shms shm ≡ success info)
          × HasRole t info role
          × (gate_shm_get_infos p frame shm k
              ≡ ret (
                frame,
                put_sysreturn t ok
                    (record k { tasks = put_exchange t (told shm role info) k.tasks }),
              )))
unfolding gate_shm_get_infos
gate_shm_get_infos_lem p frame shm t m k cur meta = elim (get_task_type-cases k.shms shm t) [
  | inl (stranger, inl (e, r)) ↦ inl (stranger, >>=-ret _ cur ∙ ap (infos_as frame t shm k) r)
  | inl (stranger, inr r) ↦ inl (stranger, >>=-ret _ cur ∙ ap (infos_as frame t shm k) r)
  | inr (info, role, f, has, r) ↦ inr (
    info,
    role,
    f,
    has,
    >>=-ret _ cur
        ∙ ap (infos_as frame t shm k) r
        ∙ infos_as-told frame shm t role info m k f has meta,
  )
]
