-- ===== src/Examples/Maps.antt =====
-- The theorems on mapping at two MPUs with eight regions: one like PMSAv8, whose entry is a base
-- address and a limit, and one like PMSAv7, which also keeps the region number.
use sentry_kernel.Base.{
  ℕ, ◌+◌, ◌*◌, ◌/◌, ◌≡◌, refl, ◌∙◌, true, false, ◌&&◌, List, [], ◌∷◌, ◌++◌, arith, ◌==◌, set, ret,
  >>=-ret, success,
}
use sentry_kernel.KTypes.{secure_true, secure_false, Kstatus, okay, ok}
use sentry_kernel.Task.{TaskTable, index_of, get_from_handle, get_sysreturn}
use sentry_kernel.Task.Agree.{Agree}
use sentry_kernel.Shm.{
  ShmMeta, tsk_owner, ShmTable, lookup, get_task_type, is_mappable_by, is_writeable_by,
  is_mapped_by, set_mapflag, get_meta,
}
use sentry_kernel.Mapping.{Mpu, Layouts, get_layout_from_handle, add_resource, shm_region, map_shm}
use sentry_kernel.Mapping.Shared.{MayMap}
use sentry_kernel.Mapping.Unmap.{IsAligned}
use sentry_kernel.Mapping.Collide.{map_shm_collides}
use sentry_kernel.Sched.Rrmq.{Context, get_current}
use sentry_kernel.Kernel.{Kernel}
use sentry_kernel.Syscalls.Map.{gate_map_shm, gate_unmap_shm}
use sentry_kernel.Syscalls.Map.Roundtrip.{gate_unmap_shm-gate_map_shm}
use sentry_kernel.Examples.{first_handle, three_tasks, last_is_idle, running}
use sentry_kernel.Examples.Kernels.{rrmq, shm_entry, one_shm, small_kernel}
use sentry_kernel.Mapping.Sizes.{convert_size_to_region, IsRegionSize, convert_size_to_region_lem}

abbrev pub limits : Mpu (ℕ × ℕ)
limits = record {
  num_regions = 8;
  fastload_aligned = true;
  unmapped = λ _. (0, 0);
  forge = λ d. (d.addr, d.size + 1);
  is_free = λ r. r.0 == 0 && r.1 == 0;
  base_address = λ r. r.0;
  size_to_region = λ n. n;
}

abbrev numbered : Mpu (ℕ × ℕ)
numbered = record {
  num_regions = 8;
  fastload_aligned = false;
  unmapped = λ i. (i, 0);
  forge = λ d. (d.addr + d.id, d.size + 1);
  is_free = λ r. r.1 == 0;
  base_address = λ r. r.0 / 32 * 32;
  size_to_region = λ n. n;
}

limits_free : (i : ℕ) (r : ℕ × ℕ) → (r.0 == 0 && r.1 == 0) ≡ true → ◌≡◌ {A = ℕ × ℕ} (0, 0) r
limits_free i (a, b) e = ground arith

limits-IsAligned : IsAligned limits
limits-IsAligned = record {
  aligned = refl;
  free_is_unmapped = limits_free;
  forged_address = λ d h. refl;
  few_regions = omega arith;
}

-- Text and data of the first task are mapped, four entries are free.
abbrev first_layout : List (ℕ × ℕ)
first_layout = (0x8000, 32) ∷ (0x9000, 32) ∷ (0, 0) ∷ (0, 0) ∷ (0, 0) ∷ (0, 0) ∷ []

abbrev layouts : Layouts (ℕ × ℕ)
layouts = first_layout ∷ first_layout ∷ first_layout ∷ []

abbrev meta_at : ℕ → ShmMeta
meta_at baseaddr = record {
  baseaddr = baseaddr;
  size = 512;
  is_dma_pool = secure_false;
  is_mappable = secure_true;
  shm_label = 11;
  owner_label = 1;
}

first-MayMap :
    MayMap limits three_tasks first_handle 256 tsk_owner
      (meta_at 4096)
      first_layout
      2
      secure_true
      layouts
      one_shm
unfolding get_meta lookup get_task_type is_mappable_by is_mapped_by is_writeable_by get_from_handle
    index_of
first-MayMap = record {
  described = refl;
  role = refl;
  has_role = λ e. cc;
  mappable = refl;
  not_mapped = refl;
  writeable = refl;
  in_table = λ e. cc;
  has_layout = refl;
  free = refl;
}

-- Whatever return values the tasks have, the first one is the current task.
first_stays :
    (tab : TaskTable) → Agree three_tasks tab → rrmq.current tab running ≡ ret first_handle
unfolding get_current
first_stays tab a = >>=-ret _ (a.idle ∙ last_is_idle)

gate_unmap_shm-gate_map_shm_example :
    (k1 : Kernel Context) × (ls1 : Layouts (ℕ × ℕ)) × (k2 : Kernel Context) × (gate_map_shm rrmq
        limits 55 256 small_kernel layouts
      ≡ ret (55, (k1, ls1)))
    × (ls1
        ≡ set layouts
            (index_of first_handle)
            (set first_layout 2 (limits.forge (shm_region limits 2 (meta_at 4096) secure_true))))
    × (get_sysreturn k1.tasks first_handle ≡ success ok)
    × (gate_unmap_shm rrmq limits 55 256 k1 ls1 ≡ ret (55, (k2, layouts)))
    × (k2.shms ≡ one_shm)
    × (get_sysreturn k2.tasks first_handle ≡ success ok)
gate_unmap_shm-gate_map_shm_example =
    gate_unmap_shm-gate_map_shm rrmq limits first_handle 256 tsk_owner (meta_at 4096) first_layout 2
      secure_true 55 small_kernel layouts limits-IsAligned first_stays first-MayMap refl refl
      (omega arith)

-- A second shared memory of the first task.
abbrev two_shms : ShmTable
two_shms = record one_shm {
  infos =
      one_shm.infos
      ++ record {
        handle = 513;
        meta = meta_at 8192;
        is_shared = secure_false;
        owner = shm_entry;
        user = shm_entry;
      }
        ∷ [];
}

MayMap-first :
    MayMap numbered three_tasks first_handle 256 tsk_owner
      (meta_at 4096)
      first_layout
      2
      secure_true
      layouts
      two_shms
unfolding get_meta lookup get_task_type is_mappable_by is_mapped_by is_writeable_by get_from_handle
    index_of
MayMap-first = record {
  described = refl;
  role = refl;
  has_role = λ e. cc;
  mappable = refl;
  not_mapped = refl;
  writeable = refl;
  in_table = λ e. cc;
  has_layout = refl;
  free = refl;
}

abbrev after_first : Kstatus × (ShmTable × Layouts (ℕ × ℕ))
after_first = map_shm numbered three_tasks first_handle 256 layouts two_shms

MayMap-second :
    MayMap numbered three_tasks first_handle 513 tsk_owner
      (meta_at 8192)
      (set first_layout 4 (4100, 513))
      2
      secure_true
      after_first.1.1
      after_first.1.0
unfolding get_meta lookup get_task_type is_mappable_by is_mapped_by is_writeable_by get_from_handle
    index_of map_shm get_layout_from_handle add_resource set_mapflag
MayMap-second = record {
  described = refl;
  role = refl;
  has_role = λ e. cc;
  mappable = refl;
  not_mapped = refl;
  writeable = refl;
  in_table = λ e. cc;
  has_layout = refl;
  free = refl;
}

map_shm_collides_example :
    let second = map_shm numbered three_tasks first_handle 513 after_first.1.1 after_first.1.0 in
    (after_first.0 ≡ okay)
    × (second.0 ≡ okay)
    × (◌≡◌ {A = ℕ} 2 2)
    × (second.1.1 ≡ set layouts (index_of first_handle) (set first_layout 4 (8196, 513)))
    × (is_mapped_by second.1.0 256 tsk_owner ≡ success secure_true)
map_shm_collides_example =
    map_shm_collides numbered three_tasks first_handle 256 513 tsk_owner tsk_owner (meta_at 4096)
      (meta_at 8192) first_layout 2 2 secure_true secure_true layouts two_shms refl MayMap-first
      (omega arith) (omega arith) MayMap-second

convert_size_to_region_lem_example : IsRegionSize 100 (convert_size_to_region 100)
convert_size_to_region_lem_example = convert_size_to_region_lem 100 (omega arith)

region_for_100 : convert_size_to_region 100 ≡ 128
unfolding convert_size_to_region
region_for_100 = refl
