-- ===== src/Task/Accessors.antt =====
-- What the accessors of task_core.c read and write: one task, found by its whole handle.
use sentry_kernel.Base.{
  ℕ, ◌<◌, ◌≡◌, refl, ap, ◌≢◌, inl, inr, none, some, arith, ◌==◌, if◌then◌else◌, Option-cases,
  get_elem?, set, get_elem?-set_self, get_elem?-set_ne, get_elem?-lt, Result, success, failure,
}
use sentry_kernel.KTypes.{
  secure_true, secure_false, okay, error_invparam, error_badstate, JobState, Status,
}
use sentry_kernel.Task.{
  Task, TaskTable, index_of, match_cell, get_from_handle, get_sp, get_state, get_metadata,
  set_state, set_sysreturn, get_sysreturn, clear_sysreturn,
}
use native.Mathlib.Decide.{ℕ_discrete}

-- A handle that is found names the cell at its index, with the very same word.
pub get_from_handle-cell :
    (tab : TaskTable) (h : ℕ) {t : Task}
    → get_from_handle tab h ≡ some t
    → (get_elem? tab.cells (index_of h) ≡ some t) × (t.handle ≡ h) × (index_of h < tab.numtask)
unfolding get_from_handle
get_from_handle-cell tab h e = elim (Option-cases (get_elem? tab.cells (index_of h))) [
  | inl n ↦ ground arith
  | inr (u, s) ↦ ground arith
]

match_cell-ne : (h : ℕ) (t : Task) → t.handle ≢ h → match_cell h (some t) ≡ none
match_cell-ne h t n = ground arith

-- An update of the cell behind `h` is seen through `h` and through no other handle.
pub get_from_handle-set :
    (tab : TaskTable) (h k : ℕ) (t u : Task)
    → get_from_handle tab h ≡ some t
    → u.handle ≡ t.handle
    → get_from_handle (record tab { cells = set tab.cells (index_of h) u }) k
      ≡ (if h == k then some u else get_from_handle tab k)
unfolding get_from_handle
get_from_handle-set tab h k t u e same =
    let (cell, word, inside) = get_from_handle-cell tab h e in
    elim (ℕ_discrete (index_of h) (index_of k)) [
      | yes i ↦ ground (
        arith,
        ap (get_elem? (set tab.cells (index_of h) u)) i,
        ap (get_elem? tab.cells) i,
        get_elem?-set_self tab.cells (index_of h) u (get_elem?-lt tab.cells (index_of h) cell),
      )
      | no n ↦ ground (arith, get_elem?-set_ne tab.cells (index_of h) (index_of k) u n)
    ]

-- What `set_state` and `set_sysreturn` write is what the readers of every task see afterwards: the
-- new value behind `h`, the old one behind any other handle, and no other field changes.
abbrev pub Stores {ℓ} :
    {A : Type ℓ} → (TaskTable → ℕ → Result A) → TaskTable → ℕ → A → TaskTable → Type ℓ
Stores get tab h a tab' = (k : ℕ) → get tab' k ≡ (if h == k then success a else get tab k)

abbrev pub Keeps {ℓ} : {A : Type ℓ} → (TaskTable → ℕ → Result A) → TaskTable → TaskTable → Type ℓ
Keeps get tab tab' = (k : ℕ) → get tab' k ≡ get tab k

pub set_state_lem :
    (tab : TaskTable) (h : ℕ) (s : JobState)
    → get_from_handle tab h ≢ none
    → ((set_state tab h s).0 ≡ okay)
      × Stores get_state tab h s (set_state tab h s).1
      × Keeps get_sp tab (set_state tab h s).1
      × Keeps get_metadata tab (set_state tab h s).1
      × Keeps get_sysreturn tab (set_state tab h s).1
unfolding set_state get_state get_sp get_metadata get_sysreturn
set_state_lem tab h s there = elim (Option-cases (get_from_handle tab h)) [
  | inl n ↦ absurd (there n)
  | inr (t, e) ↦
      let seen = λ (k : ℕ). get_from_handle-set tab h k t (record t { state = s }) e refl in
      rw e (
        refl,
        λ k. ground (arith, e, seen k),
        λ k. ground (arith, e, seen k),
        λ k. ground (arith, e, seen k),
        λ k. ground (arith, e, seen k),
      )
]

-- The table after a write of `u` behind `h`.
abbrev put_task : TaskTable → ℕ → Task → TaskTable
put_task tab h u = record tab { cells = set tab.cells (index_of h) u }

get_from_handle-put_self :
    (tab : TaskTable) (h : ℕ) (t u : Task)
    → get_from_handle tab h ≡ some t
    → u.handle ≡ t.handle
    → get_from_handle (put_task tab h u) h ≡ some u
get_from_handle-put_self tab h t u e same = ground (arith, get_from_handle-set tab h h t u e same)

clear_sysreturn-found :
    (tab : TaskTable) (h : ℕ) (t : Task)
    → get_from_handle tab h ≡ some t
    → t.sysretassigned ≡ secure_true
    → clear_sysreturn tab h
      ≡ (error_invparam, put_task tab h (record t { sysretassigned = secure_false }))
unfolding clear_sysreturn
clear_sysreturn-found tab h t e a = ground arith

unassigned_lem :
    (tab : TaskTable) (h : ℕ) (t : Task)
    → get_from_handle tab h ≡ some t
    → t.sysretassigned ≡ secure_false
    → (get_sysreturn tab h ≡ failure error_badstate) × ((clear_sysreturn tab h).0 ≡ error_badstate)
unfolding clear_sysreturn get_sysreturn
unassigned_lem tab h t e a = ground arith

-- The return value of a syscall: once set it is what the readers see, and no state, stack or other
-- return value changes. Clearing it then leaves the slot unassigned: reading it and clearing it
-- again are both K_ERROR_BADSTATE.
pub sysreturn_protocol :
    (tab : TaskTable) (h : ℕ) (s : Status)
    → get_from_handle tab h ≢ none
    → let assign = set_sysreturn tab h s in
      let clear = clear_sysreturn assign.1 h in
      (assign.0 ≡ okay)
      × Stores get_sysreturn tab h s assign.1
      × Keeps get_state tab assign.1
      × Keeps get_sp tab assign.1
      × (get_sysreturn clear.1 h ≡ failure error_badstate)
      × ((clear_sysreturn clear.1 h).0 ≡ error_badstate)
unfolding set_sysreturn get_state get_sp
sysreturn_protocol tab h s there = elim (Option-cases (get_from_handle tab h)) [
  | inl n ↦ absurd (there n)
  | inr (t, e) ↦
      let u = record t { sysreturn = s; sysretassigned = secure_true } in
      let seen = λ (k : ℕ). get_from_handle-set tab h k t u e refl in
      let u_found = get_from_handle-put_self tab h t u e refl in
      let end =
        unassigned_lem _ h _
          (get_from_handle-put_self (put_task tab h u) h u
            (record u { sysretassigned = secure_false }) u_found refl)
          refl in
      rw (e, clear_sysreturn-found (put_task tab h u) h u u_found refl)
        (
          refl,
          λ k. unfold get_sysreturn in ground (arith, e, seen k),
          λ k. ground (arith, e, seen k),
          λ k. ground (arith, e, seen k),
          end.0,
          end.1,
        )
]
