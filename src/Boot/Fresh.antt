-- ===== src/Boot/Fresh.antt =====
-- A task that is put behind the last one: found, with a layout that is forged and an exchange area that
-- is cleared. kernel/src/managers/task/task_init.c, with task_set_job_layout of task_core.c.
use sentry_kernel.Base.{
  ℕ, ◌+◌, ◌^◌, ◌<◌, ◌≡◌, refl, ap, ◌∙◌, inl, inr, some, List, arith, Option-cases, length,
  get_elem?, set, replicate, length-set, get_elem?-set_self, get_elem?_of_lt, ret, >>=-ret, Result,
  success,
}
use sentry_kernel.KTypes.{okay}
use sentry_kernel.Handle.{ktaskh_to_taskh}
use sentry_kernel.Task.{TaskMeta, Task, TaskTable, index_of, get_from_handle, read, get_metadata}
use sentry_kernel.Mapping.{
  RegionDesc, Mpu, Layouts, get_layout_from_handle, put_entry, forge_empty_table, add_resource,
}
use sentry_kernel.Boot.{
  TaskMgrState, Target, Ctx, stack_top, text_region, data_region, forge_and_add, forge_both,
  put_cell, set_job_layout,
}
use sentry_kernel.Boot.Automaton.{local_task, fill_cell}

-- A task that is put in the last cell of a table is found by its handle.
pub found_fresh :
    (cells : List Task) (n : ℕ) (t : Task)
    → n < length cells
    → index_of t.handle ≡ n
    → get_from_handle (record { cells = set cells n t; numtask = n + 1 }) t.handle ≡ some t
unfolding get_from_handle
found_fresh cells n t h e =
    ground (arith, ap (get_elem? (set cells n t)) e, get_elem?-set_self cells n t h)

-- The handle of cell `n` carries `n`.
pub fresh_index :
    (rerun n : ℕ)
    → n < 2 ^ 8
    → index_of (ktaskh_to_taskh (record { rerun = rerun; id = n; family = 0 })) ≡ n
unfolding index_of
fresh_index rerun n h = omega arith

length-put_entry :
    {R : Type 0} (h i : ℕ) (r : R) (ls : Layouts R) → length (put_entry h i r ls) ≡ length ls
length-put_entry h i r ls = elim (Option-cases (get_elem? ls (index_of h))) [
  | inl e ↦ rw (put_entry, e) refl
  | inr (layout, e) ↦ rw (put_entry, e) (length-set ls (index_of h) (set layout i r))
]

length-add_resource :
    {R : Type 0} (mpu : Mpu R) (tab : TaskTable) (ls : Layouts R) (h i : ℕ) (r : R)
    → length (add_resource mpu tab ls h i r).1 ≡ length ls
unfolding add_resource
length-add_resource mpu tab ls h i r = ground (arith, length-put_entry h i r ls)

pub get_metadata_of :
    (tab : TaskTable) (h : ℕ) (t : Task) (m : TaskMeta)
    → get_from_handle tab h ≡ some t
    → t.metadata ≡ some m
    → get_metadata tab h ≡ success (some m)
unfolding get_metadata
get_metadata_of tab h t m f e = ap (read (λ t'. t'.metadata)) f ∙ ap success e

-- A known task has its layout.
pub layout_found :
    {R : Type 0} (tab : TaskTable) (ls : Layouts R) (h : ℕ) (t : Task)
    → get_from_handle tab h ≡ some t
    → index_of h < length ls
    → (layout : List R) × (get_layout_from_handle tab ls h ≡ success layout)
unfolding get_layout_from_handle
layout_found tab ls h t f b =
    let (layout, e) = get_elem?_of_lt ls (index_of h) b in
    (layout, rw (get_layout_from_handle, f, e) refl)

module _ {R : Type 0} (c : Target R) (mpu : Mpu R) where
  forge_and_add-returns :
      (region : TaskMeta → RegionDesc) (i : ℕ) (tab : TaskTable) (ls : Layouts R) (h : ℕ) (t : Task)
      (m : TaskMeta)
      → get_from_handle tab h ≡ some t
      → t.metadata ≡ some m
      → (ls' : Layouts R) × (forge_and_add c mpu region i tab ls h ≡ ret ls')
        × (length ls' ≡ length ls)
  forge_and_add-returns region i tab ls h t m f e =
      let known : get_metadata tab h ≡ success (some m) = get_metadata_of tab h t m f e in
      (
        (add_resource mpu tab ls h i (mpu.forge (region m))).1,
        rw (forge_and_add, known) refl,
        length-add_resource mpu tab ls h i (mpu.forge (region m)),
      )

  pub forge_both-returns :
      (tab : TaskTable) (ls : Layouts R) (h : ℕ) (t : Task) (m : TaskMeta)
      → get_from_handle tab h ≡ some t
      → t.metadata ≡ some m
      → (ls' : Layouts R) × (forge_both c mpu tab ls h ≡ ret ls') × (length ls' ≡ length ls)
  forge_both-returns tab ls h t m f e =
      let (ls1, first, l1) = forge_and_add-returns (text_region c mpu) 0 tab ls h t m f e in
      let (ls2, second, l2) = forge_and_add-returns (data_region c mpu) 1 tab ls1 h t m f e in
      (
        ls2,
        >>=-ret (λ ls'. forge_and_add c mpu (data_region c mpu) 1 tab ls' h) first ∙ second,
        l2 ∙ l1,
      )

pub set_job_layout-returns :
    {S R : Type 0} (c : Target R) (i : ℕ) (x : Ctx S R) (t : Task)
    → get_elem? x.tasks.cells i ≡ some t
    → get_from_handle x.tasks t.handle ≡ some t
    → index_of t.handle < length x.layouts
    → set_job_layout c i x
      ≡ ret (okay, put_cell c i (record t { svcexchange = replicate c.area_len 0 }) x)
set_job_layout-returns c i x t f g b =
    let (layout, e) = layout_found x.tasks x.layouts t.handle t g b in
    rw (set_job_layout, f, e) refl

-- A cell as `task_init_initiate_localinfo` fills it.
abbrev pub new_task : {R : Type 0} → Target R → TaskMeta → ℕ → ℕ → Task → Task
new_task c m n rerun t =
    record (local_task m n rerun
      (c.initialize_sp 0 (stack_top c m) (m.s_text + m.entrypoint_offset) m.s_got) t) {
        returncode = 0;
      }

-- The cell at the end of the round.
abbrev pub booted : {R : Type 0} → Target R → TaskMeta → ℕ → ℕ → Task → Task
booted c m n rerun t = record (new_task c m n rerun t) { svcexchange = replicate c.area_len 0 }

module _ {S R : Type 0} (c : Target R) (mpu : Mpu R) (entropy : ℕ → Result ℕ) where
  -- The cell behind the last task is filled, and the table has a layout for it.
  pub fill_cell-returns :
      (t : Task) (m : TaskMeta) (next : TaskMgrState) (x : Ctx S R)
      → t.metadata ≡ some m
      → index_of t.handle ≡ x.tasks.numtask
      → x.tasks.numtask < length x.tasks.cells
      → (ls : Layouts R) × (fill_cell c mpu entropy t next x
          ≡ ret (record x {
            state = next;
            tasks = record {
              cells = set x.tasks.cells x.tasks.numtask t;
              numtask = x.tasks.numtask + 1;
            };
            layouts = ls;
          }))
        × (length ls ≡ length x.layouts)
  fill_cell-returns t m next x e h b =
      let n = x.tasks.numtask in
      let tab : TaskTable = record { cells = set x.tasks.cells n t; numtask = n + 1 } in
      let ls0 = set x.layouts n (forge_empty_table mpu) in
      let (ls, forges, l) =
        forge_both-returns c mpu tab ls0 t.handle t m (found_fresh x.tasks.cells n t b h) e in
      (ls, >>=-ret _ forges, l ∙ length-set x.layouts n (forge_empty_table mpu))
