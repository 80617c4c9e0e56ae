-- ===== src/Shm/Flags.antt =====
-- The mapping flag of a shared memory, set and set back: mgr_mm_shm_set_mapflag of
-- kernel/src/managers/memory/memory_shm.c.
-- The entry of a shared memory with the mapping flag of one of its users set.
use sentry_kernel.Base.{
  ℕ, ◌≡◌, refl, ap, ◌∙◌, ◌≢◌, inl, inr, arith, if_true, ==_iff, set, set-set, set-get_elem?,
  success, Result-cases,
}
use sentry_kernel.KTypes.{SecureBool, secure_true, secure_false, okay}
use sentry_kernel.Shm.{
  ShmMeta, ShmUser, tsk_owner, tsk_user, tsk_none, ShmInfo, ShmTable, id_of, lookup, get_task_type,
  is_mapped_by, set_mapflag, get_meta,
}
use sentry_kernel.Shm.Access.{lookup-entry, lookup-assign}

abbrev pub flag_info : ShmUser → SecureBool → ShmInfo → ShmInfo
flag_info tsk_owner b info = record info { owner = record info.owner { is_mapped = b } }
flag_info tsk_user b info = record info { user = record info.user { is_mapped = b } }
flag_info tsk_none b info = info

pub flag_info-handle :
    (u : ShmUser) (b : SecureBool) (info : ShmInfo) → (flag_info u b info).handle ≡ info.handle
flag_info-handle tsk_owner b info = refl
flag_info-handle tsk_user b info = refl
flag_info-handle tsk_none b info = refl

module _ (s : ShmTable) (shm : ℕ) (info : ShmInfo) (found : lookup s shm ≡ success info) where
  pub set_mapflag-info :
      (u : ShmUser) (b : SecureBool)
      → u ≢ tsk_none
      → set_mapflag s shm u b
        ≡ (okay, record s { infos = set s.infos (id_of shm) (flag_info u b info) })
  unfolding set_mapflag
  set_mapflag-info tsk_owner b n = rw (set_mapflag, found) refl
  set_mapflag-info tsk_user b n = rw (set_mapflag, found) refl
  set_mapflag-info tsk_none b n = absurd (n refl)

  pub lookup-flagged :
      (u : ShmUser) (b : SecureBool)
      → lookup (record s { infos = set s.infos (id_of shm) (flag_info u b info) }) shm
        ≡ success (flag_info u b info)
  lookup-flagged u b =
      lookup-assign okay (flag_info u b) s shm shm info found (flag_info-handle u b info)
      ∙ if_true _ _ ((==_iff shm shm).1 refl)

  pub get_meta-flagged :
      (u : ShmUser) (b : SecureBool)
      → get_meta (record s { infos = set s.infos (id_of shm) (flag_info u b info) }) shm
        ≡ get_meta s shm
  unfolding get_meta
  get_meta-flagged tsk_owner b = rw (get_meta, lookup-flagged tsk_owner b, found) refl
  get_meta-flagged tsk_user b = rw (get_meta, lookup-flagged tsk_user b, found) refl
  get_meta-flagged tsk_none b = rw (get_meta, lookup-flagged tsk_none b, found) refl

  pub get_task_type-flagged :
      (u : ShmUser) (b : SecureBool) (tsk : ℕ)
      → get_task_type (record s { infos = set s.infos (id_of shm) (flag_info u b info) }) shm tsk
        ≡ get_task_type s shm tsk
  unfolding get_task_type
  get_task_type-flagged tsk_owner b tsk = rw (get_task_type, lookup-flagged tsk_owner b, found) refl
  get_task_type-flagged tsk_user b tsk = rw (get_task_type, lookup-flagged tsk_user b, found) refl
  get_task_type-flagged tsk_none b tsk = rw (get_task_type, lookup-flagged tsk_none b, found) refl

  pub is_mapped_by-flagged :
      (u : ShmUser) (b : SecureBool)
      → u ≢ tsk_none
      → is_mapped_by (record s { infos = set s.infos (id_of shm) (flag_info u b info) }) shm u
        ≡ success b
  unfolding is_mapped_by
  is_mapped_by-flagged tsk_owner b n = rw (is_mapped_by, lookup-flagged tsk_owner b) refl
  is_mapped_by-flagged tsk_user b n = rw (is_mapped_by, lookup-flagged tsk_user b) refl
  is_mapped_by-flagged tsk_none b n = absurd (n refl)

  -- Setting the flag and clearing it again is nothing, if it was clear.
  flag_twice :
      (u : ShmUser)
      → u ≢ tsk_none
      → is_mapped_by s shm u ≡ success secure_false
      → flag_info u secure_false (flag_info u secure_true info) ≡ info
  unfolding is_mapped_by
  flag_twice tsk_owner n e = ground (arith, found)
  flag_twice tsk_user n e = ground (arith, found)
  flag_twice tsk_none n e = absurd (n refl)

pub set_mapflag_back :
    (s : ShmTable) (shm : ℕ) (info : ShmInfo) (u : ShmUser)
    → lookup s shm ≡ success info
    → u ≢ tsk_none
    → is_mapped_by s shm u ≡ success secure_false
    → set_mapflag (set_mapflag s shm u secure_true).1 shm u secure_false ≡ (okay, s)
set_mapflag_back s shm info u found n clear =
    let on = flag_info u secure_true info in
    let s1 : ShmTable = record s { infos = set s.infos (id_of shm) on } in
    let again : set_mapflag s1 shm u secure_false ≡ (
      okay,
      record s {
        infos = set (set s.infos (id_of shm) on) (id_of shm) (flag_info u secure_false on);
      },
    ) =
      set_mapflag-info s1 shm on (lookup-flagged s shm info found u secure_true) u secure_false n in
    let old : set s.infos (id_of shm) (flag_info u secure_false on) ≡ s.infos =
      ap (set s.infos (id_of shm)) (flag_twice s shm info found u n clear)
      ∙ set-get_elem? s.infos (id_of shm) (lookup-entry s shm found).0 in
    ap (λ q. set_mapflag q.1 shm u secure_false) (set_mapflag-info s shm info found u secure_true n)
    ∙ again
    ∙ ap (λ x. (okay, record s { infos = x }))
        (set-set s.infos (id_of shm) on (flag_info u secure_false on) ∙ old)

pub described_entry :
    (s : ShmTable) (shm : ℕ) (m : ShmMeta)
    → get_meta s shm ≡ success m
    → (info : ShmInfo) × (lookup s shm ≡ success info)
unfolding get_meta
described_entry s shm m e = elim (Result-cases (lookup s shm)) [
  | inl (x, f) ↦ absurd (ground (arith, f))
  | inr found ↦ found
]
