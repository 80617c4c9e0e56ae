-- ===== src/Boot/Booted.antt =====
-- The task table after a start: kernel/src/managers/task/task_init.c and task_core.c.
use sentry_kernel.Base.{
  ℕ, suc, ◌+◌, ◌-◌, ◌<◌, ◌≡◌, refl, sym, ap, ◌∙◌, subst, inl, inr, false, Option, none, some, List,
  [], ◌∷◌, arith, ◌==◌, if_true, if_false, Bool-cases, length, get_elem?, get_elem?-lt, Run, ret,
  fault,
}
use sentry_kernel.Task.{TaskMeta, Task, TaskTable, index_of, get_from_handle, get_idle}
use sentry_kernel.Boot.{Target, idle_meta}
use sentry_kernel.Boot.Filled.{tasks_of, IsTaskOf, Holds, Placed}

-- The last task of the list is idle.
last_idle :
    {R : Type 0} (c : Target R) (ms : List TaskMeta)
    → (n : ℕ) × (length (tasks_of c ms) ≡ n + 1)
      × (get_elem? (tasks_of c ms) n ≡ some (idle_meta c))
unfolding tasks_of
last_idle c [] = (0, refl, refl)
last_idle c (m ∷ ms) = elim (Bool-cases (m.magic == c.task_magic)) [
  | inl e ↦
      let (n, l, i) = last_idle c ms in
      (
        suc n,
        ap length (if_true _ _ e) ∙ omega (arith, l),
        ap (λ ts. get_elem? ts (suc n)) (if_true _ _ e) ∙ i,
      )
  | inr e ↦ (0, ap length (if_false _ _ e), ap (λ ts. get_elem? ts 0) (if_false _ _ e))
]

-- A task in its cell is found by its handle.
held-found :
    (tab : TaskTable) (m : TaskMeta) (i : ℕ) (t : Task)
    → i < tab.numtask
    → get_elem? tab.cells i ≡ some t
    → IsTaskOf i m t
    → get_from_handle tab t.handle ≡ some t
unfolding get_from_handle
held-found tab m i t h f is = ground (arith, ap (get_elem? tab.cells) is.own_cell, is.own_cell, f)

-- The table that the tasks `ms` are in: each in its cell, where its handle finds it, with its metadata,
-- and ready; the last one is what `mgr_task_get_idle` gives.
pub record IsBooted (ms : List TaskMeta) (tab : TaskTable) : Type 0 where
  pub counted : tab.numtask ≡ length ms
  pub each :
      (i : ℕ) (m : TaskMeta)
      → get_elem? ms i ≡ some m
      → (t : Task) × (get_elem? tab.cells i ≡ some t)
        × IsTaskOf i m t
        × (get_from_handle tab t.handle ≡ some t)
  pub idle_known :
      (h : ℕ) × (n : ℕ) × (get_idle tab ≡ ret h) × (n + 1 ≡ length ms) × (index_of h ≡ n)

get_idle_of :
    (tab : TaskTable) (n : ℕ) (t : Task)
    → tab.numtask ≡ n + 1
    → get_elem? tab.cells n ≡ some t
    → get_idle tab ≡ ret t.handle
unfolding get_idle
get_idle_of tab n t count f =
    let test : (tab.numtask == 0) ≡ false = ground (arith, count) in
    let last : tab.numtask - 1 ≡ n = omega (arith, count) in
    let cell : Option Task → Run ℕ = λ r. elim r [ none ↦ fault | some t' ↦ ret t'.handle ] in
    ap cell (if_false _ _ test ∙ ap (get_elem? tab.cells) last ∙ f)

pub Placed-IsBooted :
    {R : Type 0} (c : Target R) (ms : List TaskMeta) (tab : TaskTable)
    → tab.numtask ≡ 0 + length (tasks_of c ms)
    → Placed 0 (tasks_of c ms) tab
    → IsBooted (tasks_of c ms) tab
Placed-IsBooted c ms tab count placed =
    let held : (i : ℕ) (m : TaskMeta) → get_elem? (tasks_of c ms) i ≡ some m → Holds tab m i =
      λ i m e.
        (let from_0 : 0 + i ≡ i = omega arith in subst (Holds tab m) from_0 (placed i m e)) in
    let (n, l, last) = last_idle c ms in
    let (idle, here, is) = held n (idle_meta c) last in
    record {
      counted = omega (arith, count);
      each = λ i m e.
          let (t, f, own) = held i m e in
          (
            t,
            f,
            own,
            held-found tab m i t (omega (arith, count, get_elem?-lt (tasks_of c ms) i e)) f own,
          );
      idle_known = (
        idle.handle,
        n,
        get_idle_of tab n idle (omega (arith, count, l)) here,
        sym l,
        is.own_cell,
      );
    }
