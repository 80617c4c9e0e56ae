-- ===== src/Mapping/Unmap.antt =====
-- mgr_mm_unmap_shm after mgr_mm_map_shm, on an MPU of the kind of PMSAv8.
use sentry_kernel.Base.{
  ℕ, ◌+◌, ◌%◌, ◌≤◌, ◌<◌, ◌≡◌, refl, sym, ap, ◌∙◌, subst, ◌≢◌, inl, inr, true, false, none, some,
  List, arith, leb, if_true, Option-cases, length, get_elem?, set, get_elem?-set_self, get_elem?-lt,
  set-set, set-get_elem?, ret, >>=-ret, success,
}
use sentry_kernel.KTypes.{SecureBool, secure_true, secure_false, Kstatus, okay}
use sentry_kernel.Task.{TaskTable, index_of, get_from_handle}
use sentry_kernel.Shm.{
  ShmMeta, ShmUser, tsk_owner, tsk_user, tsk_none, ShmInfo, ShmTable, lookup, get_task_type,
  is_mapped_by, set_mapflag, get_meta,
}
use sentry_kernel.Shm.Flags.{
  set_mapflag-info, get_meta-flagged, get_task_type-flagged, is_mapped_by-flagged, set_mapflag_back,
  described_entry,
}
use sentry_kernel.Mapping.{
  RegionDesc, Mpu, Layouts, get_layout_from_handle, put_entry, max_resources, region_to_layout_id,
  address_from, remove_resource, shm_region, region_id, map_shm, unmap_as, unmap_region, unmap_shm,
}
use sentry_kernel.Mapping.Slots.{free_from_lem, Avoids, address_from-set}
use sentry_kernel.Mapping.Shared.{MayMap, get_layout-found, map_shm_steps}

-- What the manager needs of the entries: mpu_pmsa_v8.h makes an entry free by clearing it, and reads
-- the address of a region back that starts at a multiple of 32.
pub record IsAligned {R : Type 0} (mpu : Mpu R) : Type 0 where
  pub aligned : mpu.fastload_aligned ≡ true
  pub free_is_unmapped : (i : ℕ) (r : R) → mpu.is_free r ≡ true → mpu.unmapped i ≡ r
  pub forged_address : (d : RegionDesc) → d.addr % 32 ≡ 0 → mpu.base_address (mpu.forge d) ≡ d.addr
  pub few_regions : mpu.num_regions ≤ 256

module _ {R : Type 0} (mpu : Mpu R) (tab : TaskTable) (tsk shm : ℕ) (user : ShmUser) (m : ShmMeta)
    (layout : List R) (i : ℕ) (can_write : SecureBool) (ls : Layouts R) (s : ShmTable) where
  unmap_as-user :
      (id : ℕ) (u : ShmUser) (ls1 ls2 : Layouts R) (s1 s2 : ShmTable) (region : ℕ)
      → u ≢ tsk_none
      → region_to_layout_id mpu region ≡ ret id
      → remove_resource mpu tab ls1 tsk id ≡ ret (okay, ls2)
      → set_mapflag s1 shm u secure_false ≡ (okay, s2)
      → unmap_as mpu tab tsk shm region ls1 s1 u ≡ ret (okay, (s2, ls2))
  unmap_as-user id tsk_none ls1 ls2 s1 s2 region n a b c = absurd (n refl)
  unmap_as-user id tsk_owner ls1 ls2 s1 s2 region n a b c =
      >>=-ret _ a ∙ >>=-ret _ b ∙ ap (λ (q : Kstatus × ShmTable). ret (q.0, (q.1, ls2))) c
  unmap_as-user id tsk_user ls1 ls2 s1 s2 region n a b c =
      >>=-ret _ a ∙ >>=-ret _ b ∙ ap (λ (q : Kstatus × ShmTable). ret (q.0, (q.1, ls2))) c

  remove_resource-fits :
      (j : ℕ) (lay : List R) (ls1 : Layouts R)
      → get_from_handle tab tsk ≢ none
      → get_elem? ls1 (index_of tsk) ≡ some lay
      → j < max_resources mpu
      → remove_resource mpu tab ls1 tsk j
        ≡ ret (okay, set ls1 (index_of tsk) (set lay j (mpu.unmapped j)))
  unfolding remove_resource
  remove_resource-fits j lay ls1 there e h = elim (Option-cases (get_from_handle tab tsk)) [
    | inl nothing ↦ absurd (there nothing)
    | inr (t, f) ↦
        let test : leb (max_resources mpu) j ≡ false = ground arith in
        rw (f, remove_resource, test, put_entry, e) refl
  ]

  region_to_layout_id-back :
      (j : ℕ)
      → mpu.num_regions ≤ 256
      → j < max_resources mpu
      → region_to_layout_id mpu (j + 2) ≡ ret j
  unfolding region_to_layout_id
  region_to_layout_id-back j few h = ground arith

module _ {R : Type 0} (mpu : Mpu R) (tab tab' : TaskTable) (tsk shm : ℕ) (user : ShmUser)
    (m : ShmMeta) (layout : List R) (i : ℕ) (can_write : SecureBool) (ls : Layouts R)
    (s : ShmTable) where
  abbrev new_entry : R
  new_entry = mpu.forge (shm_region mpu i m can_write)

  abbrev new_layouts : Layouts R
  new_layouts = set ls (index_of tsk) (set layout i new_entry)

  map_shm-aligned :
      mpu.fastload_aligned ≡ true
      → MayMap mpu tab tsk shm user m layout i can_write ls s
      → i < max_resources mpu
      → map_shm mpu tab tsk shm ls s ≡ (okay, ((set_mapflag s shm user secure_true).1, new_layouts))
  map_shm-aligned v8 c h =
      let same : region_id mpu i ≡ i = if_true i (i + 2) v8 in
      map_shm_steps mpu tab tsk shm user m layout i can_write ls s c
        (subst (λ j. j < max_resources mpu) (sym same) h)
      ∙ ap
          (λ j. (
            okay,
            (
              (set_mapflag s shm user secure_true).1,
              set ls (index_of tsk) (set layout j (mpu.forge (shm_region mpu j m can_write))),
            ),
          ))
          same

  -- The layouts are the old ones again.
  layouts_back :
      (r : R)
      → get_elem? ls (index_of tsk) ≡ some layout
      → get_elem? layout i ≡ some r
      → mpu.unmapped i ≡ r
      → set new_layouts (index_of tsk) (set (set layout i new_entry) i (mpu.unmapped i)) ≡ ls
  layouts_back r e f u =
      set-set ls (index_of tsk) (set layout i new_entry) _
      ∙ ap (set ls (index_of tsk)) (
          set-set layout i new_entry (mpu.unmapped i)
          ∙ ap (set layout i) u
          ∙ set-get_elem? layout i f)
      ∙ set-get_elem? ls (index_of tsk) e

  unmap_steps :
      (info : ShmInfo) (r : R)
      → IsAligned mpu
      → MayMap mpu tab tsk shm user m layout i can_write ls s
      → lookup s shm ≡ success info
      → get_elem? layout i ≡ some r
      → mpu.is_free r ≡ true
      → length layout ≡ max_resources mpu
      → m.baseaddr % 32 ≡ 0
      → Avoids mpu m.baseaddr layout
      → get_from_handle tab' tsk ≢ none
      → unmap_shm mpu tab' tsk shm new_layouts (set_mapflag s shm user secure_true).1
        ≡ ret (okay, (s, ls))
  unfolding unmap_shm
  unmap_steps info r v8 c found cell empty full even alone there =
      let s1 = (set_mapflag s shm user secure_true).1 in
      let i_small : i < max_resources mpu = omega (arith, get_elem?-lt layout i cell) in
      let flag =
        ap (λ (q : Kstatus × ShmTable). q.1)
          (set_mapflag-info s shm info found user secure_true c.has_role) in
      let meta1 : get_meta s1 shm ≡ success m =
        ap (λ x. get_meta x shm) flag
        ∙ get_meta-flagged s shm info found user secure_true
        ∙ c.described in
      let role1 : get_task_type s1 shm tsk ≡ success user =
        ap (λ x. get_task_type x shm tsk) flag
        ∙ get_task_type-flagged s shm info found user secure_true tsk
        ∙ c.role in
      let cell1 : get_elem? new_layouts (index_of tsk) ≡ some (set layout i new_entry) =
        get_elem?-set_self ls (index_of tsk) (set layout i new_entry)
          (get_elem?-lt ls (index_of tsk) c.has_layout) in
      let layout1 : get_layout_from_handle tab' new_layouts tsk ≡ success (set layout i new_entry) =
        get_layout-found mpu tab' tsk shm user m (set layout i new_entry) i can_write new_layouts s
          there cell1 in
      let addr1 : address_from mpu m.baseaddr 0 (set layout i new_entry) ≡ some (i + 2) =
        address_from-set mpu m.baseaddr 0 layout i new_entry alone (omega arith)
          (v8.forged_address (shm_region mpu i m can_write) even)
        ∙ ap some (omega arith) in
      rw (unmap_shm, meta1, layout1)
        (ap (unmap_region mpu tab' tsk shm new_layouts s1) addr1
          ∙ rw (unmap_region, role1)
              (unmap_as-user mpu tab' tsk shm user m layout i can_write ls s i user new_layouts _ s1
                  s (i + 2) c.has_role
                  (region_to_layout_id-back mpu tab' tsk shm user m layout i can_write ls s i
                    v8.few_regions i_small)
                  (remove_resource-fits mpu tab' tsk shm user m layout i can_write ls s i
                    (set layout i new_entry) new_layouts there cell1 i_small)
                  (set_mapflag_back s shm info user found c.has_role c.not_mapped)
                ∙ ap (λ x. ret (okay, (s, x)))
                    (layouts_back r c.has_layout cell (v8.free_is_unmapped i r empty))))

  -- On an MPU of the kind of PMSAv8, a shared memory that a task may map, as owner or user, is mapped in
  -- the first free entry of its layout, which must be as long as the MPU has regions for a task: the
  -- region has the address, a multiple of 32, and the size of the shared memory, is never executable,
  -- and is writeable exactly with the permission; the role of the task stays, its flag is set and
  -- K_STATUS_OKAY returned. Unmapping it then, while the task is known, gives back the very table and
  -- the very layouts that there were before, if no other entry of the task's layout has that address.
  pub unmap_shm-map_shm :
      IsAligned mpu
      → MayMap mpu tab tsk shm user m layout i can_write ls s
      → length layout ≡ max_resources mpu
      → m.baseaddr % 32 ≡ 0
      → Avoids mpu m.baseaddr layout
      → get_from_handle tab' tsk ≢ none
      → let mapped = map_shm mpu tab tsk shm ls s in
        (mapped.0 ≡ okay)
        × (get_task_type mapped.1.0 shm tsk ≡ success user)
        × (is_mapped_by mapped.1.0 shm user ≡ success secure_true)
        × (mapped.1.1
            ≡ set ls (index_of tsk) (set layout i (mpu.forge (shm_region mpu i m can_write))))
        × (unmap_shm mpu tab' tsk shm mapped.1.1 mapped.1.0 ≡ ret (okay, (s, ls)))
  unmap_shm-map_shm v8 c full even alone there =
      let (info, found) = described_entry s shm m c.described in
      let (n, at, r, cell', empty) = free_from_lem mpu 0 layout {i = i} c.free in
      let cell : get_elem? layout i ≡ some r = ap (get_elem? layout) (omega arith) ∙ cell' in
      let run = map_shm-aligned v8.aligned c (omega (arith, get_elem?-lt layout i cell)) in
      let flag =
        ap (λ (q : Kstatus × ShmTable). q.1)
          (set_mapflag-info s shm info found user secure_true c.has_role) in
      (
        ap (λ (q : Kstatus × (ShmTable × Layouts R)). q.0) run,
        ap (λ (q : Kstatus × (ShmTable × Layouts R)). get_task_type q.1.0 shm tsk) run
            ∙ ap (λ x. get_task_type x shm tsk) flag
            ∙ get_task_type-flagged s shm info found user secure_true tsk
            ∙ c.role,
        ap (λ (q : Kstatus × (ShmTable × Layouts R)). is_mapped_by q.1.0 shm user) run
            ∙ ap (λ x. is_mapped_by x shm user) flag
            ∙ is_mapped_by-flagged s shm info found user secure_true c.has_role,
        ap (λ (q : Kstatus × (ShmTable × Layouts R)). q.1.1) run,
        ap (λ (q : Kstatus × (ShmTable × Layouts R)). unmap_shm mpu tab' tsk shm q.1.1 q.1.0) run
            ∙ unmap_steps info r v8 c found cell empty full even alone there,
      )
