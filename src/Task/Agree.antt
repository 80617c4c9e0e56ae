-- ===== src/Task/Agree.antt =====
-- Writes to the task table that keep every task's handle and metadata.
use sentry_kernel.Base.{
  ℕ, ◌-◌, ◌≡◌, refl, ap, ◌∙◌, ◌≢◌, ◌↔◌, inl, inr, Option, none, some, List, arith, ◌==◌,
  if◌then◌else◌, Option-cases, get_elem?, set, get_elem?-set_self, get_elem?-set_ne, get_elem?-lt,
  Run, ret, fault, failure,
}
use sentry_kernel.KTypes.{error_invparam, JobState, Status}
use sentry_kernel.Task.{
  Task, TaskTable, index_of, get_from_handle, write, get_metadata, set_state, set_jobreturn,
  set_sysreturn, get_idle,
}
use sentry_kernel.Task.Accessors.{get_from_handle-cell, get_from_handle-set, Keeps}
use native.Mathlib.Decide.{ℕ_discrete}
use mathlib.Core.Option

-- The two tables hold the same tasks, which differ in their state at most.
pub record Agree (tab tab' : TaskTable) : Type 0 where
  pub numtask : tab'.numtask ≡ tab.numtask
  pub metadata : Keeps get_metadata tab tab'
  pub idle : get_idle tab' ≡ get_idle tab

pub Agree-refl : (tab : TaskTable) → Agree tab tab
Agree-refl tab = record { numtask = refl; metadata = λ k. refl; idle = refl }

pub Agree-trans : (a b c : TaskTable) → Agree a b → Agree b c → Agree a c
Agree-trans a b c p q = record {
  numtask = q.numtask ∙ p.numtask;
  metadata = λ k. q.metadata k ∙ p.metadata k;
  idle = q.idle ∙ p.idle;
}

get_metadata-there :
    (tab : TaskTable) (h : ℕ)
    → (get_from_handle tab h ≢ none) ↔ (get_metadata tab h ≢ failure error_invparam)
unfolding get_metadata
get_metadata-there tab h = elim (Option-cases (get_from_handle tab h)) [
  | inl e ↦ ground (arith, e)
  | inr (t, e) ↦ ground (arith, e)
]

-- A task that one table knows is known to the other.
pub Agree-there :
    (tab tab' : TaskTable) (h : ℕ)
    → Agree tab tab'
    → get_from_handle tab h ≢ none
    → get_from_handle tab' h ≢ none
Agree-there tab tab' h a there =
    (get_metadata-there tab' h).1 (rw (a.metadata h) ((get_metadata-there tab h).0 there))

handle_at-set :
    (cells : List Task) (i j : ℕ) (t u : Task)
    → get_elem? cells i ≡ some t
    → u.handle ≡ t.handle
    → Option.map (λ (x : Task). x.handle) (get_elem? (set cells i u) j)
      ≡ Option.map (λ (x : Task). x.handle) (get_elem? cells j)
handle_at-set cells i j t u e same = elim (ℕ_discrete i j) [
  | yes s ↦ ground (
    arith,
    ap (get_elem? (set cells i u)) s,
    ap (get_elem? cells) s,
    get_elem?-set_self cells i u (get_elem?-lt cells i e),
  )
  | no n ↦ ap (Option.map (λ (x : Task). x.handle)) (get_elem?-set_ne cells i j u n)
]

idle_of : Option ℕ → Run ℕ
idle_of none = fault
idle_of (some h) = ret h

get_idle-handles :
    (tab : TaskTable)
    → get_idle tab ≡ (
        if tab.numtask == 0
        then fault
        else idle_of (Option.map (λ (x : Task). x.handle) (get_elem? tab.cells (tab.numtask - 1))))
unfolding get_idle idle_of
get_idle-handles tab = elim (Option-cases (get_elem? tab.cells (tab.numtask - 1))) [
  | inl e ↦ ground (arith, e)
  | inr (t, e) ↦ ground (arith, e)
]

-- A store through a handle that keeps the task's handle and metadata.
pub write_agrees :
    (tab : TaskTable) (h : ℕ) (f : Task → Task)
    → ((t : Task) → ((f t).handle ≡ t.handle) × ((f t).metadata ≡ t.metadata))
    → Agree tab (write f tab h (get_from_handle tab h)).1
unfolding get_metadata
write_agrees tab h f keeps = elim (Option-cases (get_from_handle tab h)) [
  | inl e ↦ rw e (Agree-refl tab)
  | inr (t, e) ↦
      let (cell, word, inside) = get_from_handle-cell tab h e in
      let (same, meta) = keeps t in
      rw e (record {
        numtask = refl;
        metadata = λ k. ground (arith, e, meta, get_from_handle-set tab h k t (f t) e same);
        idle =
            rw
              (
                get_idle-handles (record tab { cells = set tab.cells (index_of h) (f t) }),
                get_idle-handles tab,
                handle_at-set tab.cells (index_of h) (tab.numtask - 1) t (f t) cell same,
              )
              refl;
      })
]

pub set_state-Agree : (tab : TaskTable) (h : ℕ) (s : JobState) → Agree tab (set_state tab h s).1
unfolding set_state
set_state-Agree tab h s = write_agrees tab h _ (λ t. (refl, refl))

pub set_sysreturn-Agree :
    (tab : TaskTable) (h : ℕ) (s : Status) → Agree tab (set_sysreturn tab h s).1
unfolding set_sysreturn
set_sysreturn-Agree tab h s = write_agrees tab h _ (λ t. (refl, refl))

pub set_jobreturn-Agree : (tab : TaskTable) (h code : ℕ) → Agree tab (set_jobreturn tab h code).1
unfolding set_jobreturn
set_jobreturn-Agree tab h code = write_agrees tab h _ (λ t. (refl, refl))
