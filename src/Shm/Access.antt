-- ===== src/Shm/Access.antt =====
-- What the functions on shared memory handles read and write: the entry that a handle names, and no
-- other; and the invariant of the table.
use sentry_kernel.Base.{
  ℕ, zero, suc, ◌+◌, ◌^◌, ◌≤◌, ◌<◌, ◌≡◌, refl, ap, subst, ◌≢◌, ◌⊎◌, inl, inr, some, List, [], ◌∷◌,
  arith, ◌==◌, if◌then◌else◌, Option-cases, length, get_elem?, set, get_elem?-set_self,
  get_elem?-set_ne, get_elem?-lt, Run, ret, >>=-eq-ret, Result, success, failure, Result-cases,
}
use sentry_kernel.KTypes.{SecureBool, secure_true, secure_false, Kstatus, okay, error_invparam}
use sentry_kernel.Task.{TaskTable, get_handle}
use sentry_kernel.Shm.{
  ShmMeta, ShmConfig, ShmUser, tsk_owner, tsk_user, tsk_none, ShmUserState, ShmInfo, ShmTable,
  id_of, fresh_info, add_info, init_info, init_infos, lookup, assign, with_user, declare_user,
  assign_entry, set_mapflag, configure,
}
use native.Mathlib.Decide.{ℕ_discrete}

-- A handle that is accepted names the entry at its identifier, with the very same word.
pub lookup-entry :
    (s : ShmTable) (shm : ℕ) {info : ShmInfo}
    → lookup s shm ≡ success info
    → (get_elem? s.infos (id_of shm) ≡ some info) × (info.handle ≡ shm)
unfolding lookup
lookup-entry s shm e = elim (Option-cases (get_elem? s.infos (id_of shm))) [
  | inl nothing ↦ ground (arith, nothing)
  | inr (info, found) ↦ ground (arith, found)
]

-- An assignment to an entry is seen through its handle and through no other.
pub lookup-assign :
    (status : Kstatus) (f : ShmInfo → ShmInfo) (s : ShmTable) (shm h : ℕ) (info : ShmInfo)
    → lookup s shm ≡ success info
    → (f info).handle ≡ info.handle
    → lookup (assign status f s shm (success info)).1 h
      ≡ (if h == shm then success (f info) else lookup s h)
unfolding lookup
lookup-assign status f s shm h info e same =
    let (cell, word) = lookup-entry s shm (unfold lookup in e) in
    elim (ℕ_discrete (id_of shm) (id_of h)) [
      | yes i ↦ ground (
        arith,
        ap (get_elem? (set s.infos (id_of shm) (f info))) i,
        ap (get_elem? s.infos) i,
        get_elem?-set_self s.infos (id_of shm) (f info) (get_elem?-lt s.infos (id_of shm) cell),
      )
      | no n ↦ ground (arith, get_elem?-set_ne s.infos (id_of shm) (id_of h) (f info) n)
    ]

-- The entry at `id`: its handle carries `id`, and the flag says whether the user is not the owner.
pub record EntryIsValid (id : ℕ) (info : ShmInfo) : Type 0 where
  pub named : id_of info.handle ≡ id
  pub shared :
      ((info.is_shared ≡ secure_true) × (info.user.task ≢ info.owner.task))
      ⊎ ((info.is_shared ≡ secure_false) × (info.user.task ≡ info.owner.task))

abbrev pub EntriesAreValid : ℕ → List ShmInfo → Type 0
EntriesAreValid id [] = Unit
EntriesAreValid id (info ∷ infos) = EntryIsValid id info × EntriesAreValid (id + 1) infos

EntriesAreValid-set :
    (id : ℕ) (infos : List ShmInfo) (i : ℕ) (info : ShmInfo)
    → EntriesAreValid id infos
    → EntryIsValid (id + i) info
    → EntriesAreValid id (set infos i info)
EntriesAreValid-set id [] i info v w = tt
EntriesAreValid-set id (x ∷ xs) zero info (v, vs) w =
    (subst (λ id. EntryIsValid id info) (omega arith) w, vs)
EntriesAreValid-set id (x ∷ xs) (suc i) info (v, vs) w = (
  v,
  EntriesAreValid-set (id + 1) xs i info vs (subst (λ id. EntryIsValid id info) (omega arith) w),
)

EntriesAreValid-get :
    (id : ℕ) (infos : List ShmInfo) (i : ℕ) (info : ShmInfo)
    → EntriesAreValid id infos
    → get_elem? infos i ≡ some info
    → EntryIsValid (id + i) info
EntriesAreValid-get id [] i info v e = absurd (ground arith)
EntriesAreValid-get id (x ∷ xs) zero info (v, vs) e =
    let same : x ≡ info = cc in
    subst (EntryIsValid (id + 0)) same (subst (λ id. EntryIsValid id x) (omega arith) v)
EntriesAreValid-get id (x ∷ xs) (suc i) info (v, vs) e =
    subst (λ id. EntryIsValid id info) (omega arith) (EntriesAreValid-get (id + 1) xs i info vs e)

-- An assignment that keeps the entry valid keeps the table valid.
assign-IsValid :
    (status : Kstatus) (f : ShmInfo → ShmInfo) (s : ShmTable) (shm : ℕ)
    → ((id : ℕ) (info : ShmInfo) → EntryIsValid id info → EntryIsValid id (f info))
    → EntriesAreValid 0 s.infos
    → EntriesAreValid 0 (assign status f s shm (lookup s shm)).1.infos
assign-IsValid status f s shm keeps v = elim (Result-cases (lookup s shm)) [
  | inl (e, r) ↦ rw r v
  | inr (info, r) ↦
      let old = EntriesAreValid-get 0 s.infos (id_of shm) info v (lookup-entry s shm r).0 in
      rw r (EntriesAreValid-set 0 s.infos (id_of shm) (f info) v (keeps _ info old))
]

with_user-IsValid :
    (task id : ℕ) (info : ShmInfo) → EntryIsValid id info → EntryIsValid id (with_user task info)
with_user-IsValid task id info v = record {
  named = v.named;
  shared = elim (ℕ_discrete task info.owner.task) [
    | yes e ↦ inr (ground arith)
    | no n ↦ inl (ground arith)
  ];
}

assign_entry-IsValid :
    (f : ShmUserState → ShmUserState) (who : ShmUser) (s : ShmTable) (shm : ℕ)
    → ((e : ShmUserState) → (f e).task ≡ e.task)
    → EntriesAreValid 0 s.infos
    → EntriesAreValid 0 (assign_entry f who s shm (lookup s shm)).1.infos
assign_entry-IsValid f tsk_owner s shm same v =
    assign-IsValid okay _ s shm
      (λ id info w. record { named = w.named; shared = rw (same info.owner) w.shared }) v
assign_entry-IsValid f tsk_user s shm same v =
    assign-IsValid okay _ s shm
      (λ id info w. record { named = w.named; shared = rw (same info.user) w.shared }) v
assign_entry-IsValid f tsk_none s shm same v = elim (Result-cases (lookup s shm)) [
  | inl (e, r) ↦ rw r v
  | inr (info, r) ↦ rw r v
]

-- Every function that writes to the table keeps it valid, whatever handle, task or role it is
-- called with: each handle carries the index of its entry, and the sharing flag is set exactly for
-- the entries whose user is not their owner.
pub shm_invariant :
    (s : ShmTable) (shm task : ℕ) (who : ShmUser) (flag : SecureBool) (config : ShmConfig)
    → EntriesAreValid 0 s.infos
    → EntriesAreValid 0 (declare_user s shm task).1.infos
      × EntriesAreValid 0 (set_mapflag s shm who flag).1.infos
      × EntriesAreValid 0 (configure s shm who config).1.infos
unfolding declare_user set_mapflag configure
shm_invariant s shm task who flag config v = (
  assign-IsValid error_invparam _ s shm (with_user-IsValid task) v,
  assign_entry-IsValid _ who s shm (λ e. refl) v,
  assign_entry-IsValid _ who s shm (λ e. refl) v,
)

fresh_info-IsValid :
    (id rng t : ℕ) (m : ShmMeta) → id < 2 ^ 8 → EntryIsValid id (fresh_info id rng m t)
fresh_info-IsValid id rng t m h = record { named = omega arith; shared = inr (refl, refl) }

add_info-valid :
    (id rng : ℕ) (m : ShmMeta) (rest : Run (Kstatus × List ShmInfo)) (owner : Result ℕ)
    (infos : List ShmInfo)
    → id < 2 ^ 8
    → ((more : List ShmInfo) → rest ≡ ret (okay, more) → EntriesAreValid (id + 1) more)
    → add_info id rng m rest owner ≡ ret (okay, infos)
    → EntriesAreValid id infos
add_info-valid id rng m rest (failure _) infos h ih r = absurd cc
add_info-valid id rng m rest (success t) infos h ih r =
    let ((st, more), a, b) = >>=-eq-ret rest _ r in
    let e : fresh_info id rng m t ∷ more ≡ infos = cc in
    let good : st ≡ okay = cc in
    let done : rest ≡ ret (okay, more) = cc in
    subst (EntriesAreValid id) e (fresh_info-IsValid id rng t m h, ih more done)

init_info-valid :
    (tab : TaskTable) (id : ℕ) (m : ShmMeta) (old : List ShmInfo)
    (rest : Run (Kstatus × List ShmInfo)) (rng : Result ℕ) (infos : List ShmInfo)
    → id < 2 ^ 8
    → ((e : Kstatus) → rng ≡ failure e → e ≢ okay)
    → ((more : List ShmInfo) → rest ≡ ret (okay, more) → EntriesAreValid (id + 1) more)
    → init_info tab id m old rest rng ≡ ret (okay, infos)
    → EntriesAreValid id infos
init_info-valid tab id m old rest (failure e) infos h fails ih r =
    let reported : e ≡ okay = cc in absurd (fails e refl reported)
init_info-valid tab id m old rest (success rng) infos h fails ih r =
    let (owner, a, b) = >>=-eq-ret (get_handle tab m.owner_label) (add_info id rng m rest) r in
    add_info-valid id rng m rest owner infos h ih b

-- When `mgr_mm_shm_init` returns K_STATUS_OKAY, for at most 256 shared memories, a table with a cell
-- for each of them and a generator that does not report K_STATUS_OKAY when it fails, the table is
-- valid, whatever its cells were before and whatever the random numbers are.
pub init_infos-valid :
    (entropy : ℕ → Result ℕ) (tab : TaskTable) (id : ℕ) (metas : List ShmMeta)
    (old infos : List ShmInfo)
    → id + length metas ≤ 2 ^ 8
    → length old ≡ length metas
    → ((n : ℕ) (e : Kstatus) → entropy n ≡ failure e → e ≢ okay)
    → init_infos entropy tab id metas old ≡ ret (okay, infos)
    → EntriesAreValid id infos
unfolding init_infos
init_infos-valid entropy tab id [] [] infos h len fails r =
    let e : [] ≡ infos = cc in subst (EntriesAreValid id) e tt
init_infos-valid entropy tab id [] (o ∷ old) infos h len fails r = absurd (omega arith)
init_infos-valid entropy tab id (m ∷ ms) [] infos h len fails r = absurd (omega arith)
init_infos-valid entropy tab id (m ∷ ms) (o ∷ old) infos h len fails r =
    init_info-valid tab id m (o ∷ old) (init_infos entropy tab (id + 1) ms old) (entropy id) infos
      (omega arith) (fails id)
      (λ more e.
        init_infos-valid entropy tab (id + 1) ms old more (omega arith) (omega arith) fails e)
      r
