-- ===== src/Mapping/Collide.antt =====
-- mgr_mm_map_shm on an MPU of the kind of PMSAv7, where the index of the free entry is made a region
-- number before it is used as the index of the entry to write.
use sentry_kernel.Base.{
  ℕ, ◌+◌, ◌<◌, ◌≡◌, sym, ap, ◌∙◌, subst, ◌≢◌, false, Option, some, List, arith, ◌==◌, if_false, set,
  set-set, success,
}
use sentry_kernel.KTypes.{SecureBool, secure_true, Kstatus, okay}
use sentry_kernel.Task.{TaskTable, index_of}
use sentry_kernel.Shm.{
  ShmMeta, ShmUser, tsk_none, ShmInfo, ShmTable, id_of, lookup, ask, entry_of, is_mapped_by,
  set_mapflag,
}
use sentry_kernel.Shm.Flags.{
  flag_info, flag_info-handle, set_mapflag-info, is_mapped_by-flagged, described_entry,
}
use sentry_kernel.Shm.Access.{lookup-assign}
use sentry_kernel.Mapping.{Mpu, Layouts, max_resources, free_from, shm_region, region_id, map_shm}
use sentry_kernel.Mapping.Slots.{free_from-set}
use sentry_kernel.Mapping.Shared.{MayMap, map_shm_steps}

-- A write to the flag of one shared memory is not seen by another.
is_mapped_by-other :
    (s : ShmTable) (shm h : ℕ) (u v : ShmUser) (b : SecureBool) (info : ShmInfo)
    → lookup s shm ≡ success info
    → u ≢ tsk_none
    → h ≢ shm
    → is_mapped_by (set_mapflag s shm u b).1 h v ≡ is_mapped_by s h v
unfolding is_mapped_by
is_mapped_by-other s shm h u v b info found n apart =
    let test : (h == shm) ≡ false = ground (arith, apart) in
    let same : lookup (record s { infos = set s.infos (id_of shm) (flag_info u b info) }) h
        ≡ lookup s h =
      lookup-assign okay (flag_info u b) s shm h info found (flag_info-handle u b info)
      ∙ if_false _ _ test in
    ap (λ (q : Kstatus × ShmTable). ask (entry_of (λ e. e.is_mapped) v) (lookup q.1 h))
      (set_mapflag-info s shm info found u b n)
    ∙ ap (ask (entry_of (λ e. e.is_mapped) v)) same

module _ {R : Type 0} (mpu : Mpu R) (v7 : mpu.fastload_aligned ≡ false) (tab : TaskTable)
    (tsk shm : ℕ) (user : ShmUser) (m : ShmMeta) (layout : List R) (i : ℕ) (can_write : SecureBool)
    (ls : Layouts R) (s : ShmTable) (c : MayMap mpu tab tsk shm user m layout i can_write ls s)
    (fits : i + 2 < max_resources mpu) where
  abbrev misplaced : R
  misplaced = mpu.forge (shm_region mpu (i + 2) m can_write)

  map_shm-misplaced : map_shm mpu tab tsk shm ls s ≡ (
    okay,
    ((set_mapflag s shm user secure_true).1, set ls (index_of tsk) (set layout (i + 2) misplaced)),
  )
  map_shm-misplaced =
      let off : region_id mpu i ≡ i + 2 = if_false i (i + 2) v7 in
      map_shm_steps mpu tab tsk shm user m layout i can_write ls s c
        (subst (λ k. k < max_resources mpu) (sym off) fits)
      ∙ ap
          (λ k. (
            okay,
            (
              (set_mapflag s shm user secure_true).1,
              set ls (index_of tsk) (set layout k (mpu.forge (shm_region mpu k m can_write))),
            ),
          ))
          off

-- Where the MPU loads regions by the number in the entry, the entry that a mapping finds free stays
-- free, and the one that is written is two behind it. So when a task maps a second shared memory, both
-- times with K_STATUS_OKAY, the layouts are those of the second mapping alone: the region of the first
-- is gone, and the first shared memory is still marked as mapped by the task.
pub map_shm_collides :
    {R : Type 0} (mpu : Mpu R) (tab : TaskTable) (tsk a b : ℕ) (u v : ShmUser) (m n : ShmMeta)
    (layout : List R) (i j : ℕ) (x y : SecureBool) (ls : Layouts R) (s : ShmTable)
    → mpu.fastload_aligned ≡ false
    → MayMap mpu tab tsk a u m layout i x ls s
    → i + 2 < max_resources mpu
    → a ≢ b
    → let first = map_shm mpu tab tsk a ls s in
      let second = map_shm mpu tab tsk b first.1.1 first.1.0 in
      MayMap mpu tab tsk b v n
        (set layout (i + 2) (mpu.forge (shm_region mpu (i + 2) m x)))
        j
        y
        first.1.1
        first.1.0
      → (first.0 ≡ okay)
        × (second.0 ≡ okay)
        × (j ≡ i)
        × (second.1.1
            ≡ set ls (index_of tsk) (set layout (i + 2) (mpu.forge (shm_region mpu (i + 2) n y))))
        × (is_mapped_by second.1.0 a u ≡ success secure_true)
map_shm_collides {R} mpu tab tsk a b u v m n layout i j x y ls s v7 c fits apart d =
    let e1 = mpu.forge (shm_region mpu (i + 2) m x) in
    let first_run = map_shm-misplaced mpu v7 tab tsk a u m layout i x ls s c fits in
    let first = map_shm mpu tab tsk a ls s in
    let here : 0 + i ≡ i = omega arith in
    let still : free_from mpu 0 (set layout (i + 2) e1) ≡ some i =
      free_from-set mpu 0 layout i (i + 2) e1 (c.free ∙ ap some (sym here)) (omega arith)
      ∙ ap some here in
    let both : ◌≡◌ {A = Option ℕ} (some j) (some i) = sym d.free ∙ still in
    let same : j ≡ i = cc both in
    let second_run =
      map_shm-misplaced mpu v7 tab tsk b v n (set layout (i + 2) e1) j y first.1.1 first.1.0 d
        (omega (arith, same)) in
    let (info_a, found_a) = described_entry s a m c.described in
    let (info_b, found_b) = described_entry first.1.0 b n d.described in
    let layouts : first.1.1 ≡ set ls (index_of tsk) (set layout (i + 2) e1) =
      ap (λ (q : Kstatus × (ShmTable × Layouts R)). q.1.1) first_run in
    (
      ap (λ (q : Kstatus × (ShmTable × Layouts R)). q.0) first_run,
      ap (λ (q : Kstatus × (ShmTable × Layouts R)). q.0) second_run,
      same,
      ap (λ (q : Kstatus × (ShmTable × Layouts R)). q.1.1) second_run
          ∙ ap
              (λ k.
                set first.1.1 (index_of tsk)
                  (set (set layout (i + 2) e1) (k + 2) (mpu.forge (shm_region mpu (k + 2) n y))))
              same
          ∙ ap
              (λ l.
                set l (index_of tsk)
                  (set (set layout (i + 2) e1) (i + 2) (mpu.forge (shm_region mpu (i + 2) n y))))
              layouts
          ∙ set-set ls (index_of tsk) (set layout (i + 2) e1) _
          ∙ ap (set ls (index_of tsk))
              (set-set layout (i + 2) e1 (mpu.forge (shm_region mpu (i + 2) n y))),
      ap (λ (q : Kstatus × (ShmTable × Layouts R)). is_mapped_by q.1.0 a u) second_run
          ∙ is_mapped_by-other first.1.0 b a v u secure_true info_b found_b d.has_role apart
          ∙ ap (λ (q : Kstatus × (ShmTable × Layouts R)). is_mapped_by q.1.0 a u) first_run
          ∙ ap (λ (q : Kstatus × ShmTable). is_mapped_by q.1 a u)
              (set_mapflag-info s a info_a found_a u secure_true c.has_role)
          ∙ is_mapped_by-flagged s a info_a found_a u secure_true c.has_role,
    )
