-- ===== src/Mapping/Shared.antt =====
-- Mapping a shared memory and unmapping it again: mgr_mm_map_shm and mgr_mm_unmap_shm of
-- kernel/src/managers/memory/memory_mpu.c.
use sentry_kernel.Base.{
  ℕ, ◌<◌, ◌≡◌, refl, ap, ◌∙◌, ◌≢◌, inl, inr, false, none, some, List, arith, leb, Option-cases,
  get_elem?, set, success, Result-cases,
}
use sentry_kernel.KTypes.{SecureBool, secure_true, secure_false, okay}
use sentry_kernel.Task.{TaskTable, index_of, get_from_handle}
use sentry_kernel.Shm.{
  ShmMeta, ShmUser, tsk_owner, tsk_user, tsk_none, ShmInfo, ShmTable, lookup, get_task_type,
  is_mappable_by, is_writeable_by, is_mapped_by, set_mapflag, get_meta,
}
use sentry_kernel.Mapping.{
  Mpu, Layouts, get_layout_from_handle, put_entry, max_resources, free_from, add_resource,
  shm_region, region_id, add_region, map_in, map_as, map_shm,
}

-- A task may map a shared memory, as `user`, and has an entry for it.
pub record MayMap {R : Type 0} (mpu : Mpu R) (tab : TaskTable) (tsk shm : ℕ) (user : ShmUser)
    (m : ShmMeta) (layout : List R) (i : ℕ) (can_write : SecureBool) (ls : Layouts R) (s : ShmTable)
    : Type 0 where
  pub described : get_meta s shm ≡ success m
  pub role : get_task_type s shm tsk ≡ success user
  pub has_role : user ≢ tsk_none
  pub mappable : is_mappable_by s shm user ≡ success secure_true
  pub not_mapped : is_mapped_by s shm user ≡ success secure_false
  pub writeable : is_writeable_by s shm user ≡ success can_write
  pub in_table : get_from_handle tab tsk ≢ none
  pub has_layout : get_elem? ls (index_of tsk) ≡ some layout
  pub free : free_from mpu 0 layout ≡ some i

module _ {R : Type 0} (mpu : Mpu R) (tab : TaskTable) (tsk shm : ℕ) (user : ShmUser) (m : ShmMeta)
    (layout : List R) (i : ℕ) (can_write : SecureBool) (ls : Layouts R) (s : ShmTable) where
  -- The entry that is written, and the layouts and the table afterwards.
  abbrev pub entry_for : R
  entry_for = mpu.forge (shm_region mpu (region_id mpu i) m can_write)

  abbrev pub mapped_layouts : Layouts R
  mapped_layouts = set ls (index_of tsk) (set layout (region_id mpu i) entry_for)

  map_as-region :
      (u : ShmUser)
      → u ≢ tsk_none
      → is_mapped_by s shm u ≡ success secure_false
      → is_writeable_by s shm u ≡ success can_write
      → get_layout_from_handle tab ls tsk ≡ success layout
      → free_from mpu 0 layout ≡ some i
      → map_as mpu tab tsk shm m ls s u ≡ add_region mpu tab tsk shm u m i ls s can_write
  map_as-region tsk_none n a b c d = absurd (n refl)
  map_as-region tsk_owner n a b c d = rw (a, map_as, c, map_in, d, b) refl
  map_as-region tsk_user n a b c d = rw (a, map_as, c, map_in, d, b) refl

  pub get_layout-found :
      get_from_handle tab tsk ≢ none
      → get_elem? ls (index_of tsk) ≡ some layout
      → get_layout_from_handle tab ls tsk ≡ success layout
  unfolding get_layout_from_handle
  get_layout-found there e = elim (Option-cases (get_from_handle tab tsk)) [
    | inl nothing ↦ absurd (there nothing)
    | inr (t, f) ↦ rw (f, get_layout_from_handle, e) refl
  ]

  add_resource-fits :
      (j : ℕ) (r : R)
      → get_from_handle tab tsk ≢ none
      → get_elem? ls (index_of tsk) ≡ some layout
      → j < max_resources mpu
      → add_resource mpu tab ls tsk j r ≡ (okay, set ls (index_of tsk) (set layout j r))
  unfolding add_resource
  add_resource-fits j r there e h = elim (Option-cases (get_from_handle tab tsk)) [
    | inl nothing ↦ absurd (there nothing)
    | inr (t, f) ↦
        let test : leb (max_resources mpu) j ≡ false = ground arith in
        rw (f, add_resource, test, put_entry, e) refl
  ]

  flagged :
      (u : ShmUser) (flag : SecureBool)
      → u ≢ tsk_none
      → (info : ShmInfo) → lookup s shm ≡ success info
      → (set_mapflag s shm u flag).0 ≡ okay
  unfolding set_mapflag
  flagged tsk_owner flag n info f = rw (set_mapflag, f) refl
  flagged tsk_user flag n info f = rw (set_mapflag, f) refl
  flagged tsk_none flag n info f = absurd (n refl)

  set_mapflag-okay :
      (u : ShmUser) (flag : SecureBool)
      → u ≢ tsk_none
      → get_meta s shm ≡ success m
      → (set_mapflag s shm u flag).0 ≡ okay
  unfolding set_mapflag get_meta
  set_mapflag-okay u flag n e = elim (Result-cases (lookup s shm)) [
    | inl (x, f) ↦ absurd (ground (arith, f))
    | inr (info, f) ↦ flagged u flag n info f
  ]

  pub map_shm_steps :
      MayMap mpu tab tsk shm user m layout i can_write ls s
      → region_id mpu i < max_resources mpu
      → map_shm mpu tab tsk shm ls s
        ≡ (okay, ((set_mapflag s shm user secure_true).1, mapped_layouts))
  unfolding map_shm
  map_shm_steps c fits =
      rw (map_shm, c.described, c.role, c.mappable)
        (map_as-region user c.has_role c.not_mapped c.writeable
            (get_layout-found c.in_table c.has_layout) c.free
          ∙ rw (add_resource-fits (region_id mpu i) entry_for c.in_table c.has_layout fits) (
              ap (λ x. (x, ((set_mapflag s shm user secure_true).1, mapped_layouts)))
                (set_mapflag-okay user secure_true c.has_role c.described)))
