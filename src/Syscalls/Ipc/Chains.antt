-- ===== src/Syscalls/Ipc/Chains.antt =====
-- What `mgr_task_local_ipc_iterate` finds, and the chains of pending IPCs.
use sentry_kernel.Base.{
  ℕ, zero, suc, ◌+◌, ◌-◌, ◌≤◌, ◌<◌, ◌≡◌, refl, sym, ap, ◌∙◌, subst, inl, inr, Option, none, some,
  List, arith, Option-cases, get_elem?, Run, ret, fault, ◌>>=◌, >>=-eq-ret, Result, success,
  failure,
}
use sentry_kernel.KTypes.{Kstatus, error_noent}
use sentry_kernel.Task.{Task, TaskTable, get_from_handle}
use sentry_kernel.Task.Events.{first_pending, local_ipc_iterate}
use native.Mathlib.Decide.{ℕ_discrete, dec_lt}
use mathlib.Core.Path.{fun_ext}

-- The task behind `owner` has a pending IPC in slot `i`, from the task in cell `i`.
pub record IsPending (tab : TaskTable) (owner source i : ℕ) : Type 0 where
  pub task : Task
  pub len : ℕ
  pub peer : Task
  pub found : get_from_handle tab owner ≡ some task
  pub slot : get_elem? task.ipcs i ≡ some len
  pub sent : 0 < len
  pub cell : get_elem? tab.cells i ≡ some peer
  pub from : peer.handle ≡ source
  pub inside : i < tab.numtask

-- A chain of pending IPCs that leads from `target` to `owner`: `target` has sent one to `owner`, or to
-- a task that is on such a chain.
pub data Chain (tab : TaskTable) (target : ℕ) : ℕ → Type 0 where
  sent_directly : {owner : ℕ} (i : ℕ) → IsPending tab owner target i → Chain tab target owner
  sent_through :
      {owner : ℕ} (via i : ℕ)
      → IsPending tab owner via i
      → Chain tab target via
      → Chain tab target owner

-- The slots from `a` up to `b` hold no pending IPC.
abbrev pub NothingIn : List ℕ → ℕ → ℕ → Type 0
NothingIn ipcs a b = (j : ℕ) → a ≤ j → j < b → get_elem? ipcs j ≡ some 0

data FirstPending (ipcs : List ℕ) (idx n : ℕ) : Option ℕ → Type 0 where
  nothing_pending : NothingIn ipcs idx (idx + n) → FirstPending ipcs idx n none
  first_at :
      (i len : ℕ)
      → idx ≤ i
      → i < idx + n
      → get_elem? ipcs i ≡ some len
      → 0 < len
      → NothingIn ipcs idx i
      → FirstPending ipcs idx n (some i)

NothingIn-step :
    (ipcs : List ℕ) (a b : ℕ)
    → get_elem? ipcs a ≡ some 0
    → NothingIn ipcs (a + 1) b
    → NothingIn ipcs a b
NothingIn-step ipcs a b e rest j low high = elim (ℕ_discrete a j) [
  | yes same ↦ subst (λ j. get_elem? ipcs j ≡ some 0) same e
  | no ne ↦ rest j (omega arith) high
]

FirstPending-later :
    (ipcs : List ℕ) (idx n : ℕ) (r : Option ℕ)
    → get_elem? ipcs idx ≡ some 0
    → FirstPending ipcs (idx + 1) n r
    → FirstPending ipcs idx (suc n) r
FirstPending-later ipcs idx n none e (nothing_pending none_in) =
    nothing_pending
      (NothingIn-step ipcs idx (idx + suc n) e (λ j low high. none_in j low (omega arith)))
FirstPending-later ipcs idx n (some _) e (first_at i len low high at pos none_in) =
    first_at i len (omega arith) (omega arith) at pos (NothingIn-step ipcs idx i e none_in)

first_pending_lem :
    (ipcs : List ℕ) (idx n : ℕ) (r : Option ℕ)
    → first_pending ipcs idx n ≡ ret r
    → FirstPending ipcs idx n r
first_pending_lem ipcs idx zero r h =
    subst (FirstPending ipcs idx 0) (ground arith)
      (nothing_pending (λ j low high. absurd (omega arith)))
first_pending_lem ipcs idx (suc n) r h = elim (Option-cases (get_elem? ipcs idx)) [
  | inl past ↦ absurd (ground (arith, past))
  | inr (len, e) ↦ elim (dec_lt 0 len) [
    | yes pos ↦
        subst (FirstPending ipcs idx (suc n)) (ground (arith, e))
          (first_at idx len (omega arith) (omega arith) e pos (λ j low high. absurd (omega arith)))
    | no n0 ↦
        let zero_len : len ≡ 0 = omega arith in
        FirstPending-later ipcs idx n r (e ∙ ap some zero_len)
          (first_pending_lem ipcs (idx + 1) n r (ground (arith, e)))
  ]
]

-- What an iteration over the slots of `owner` from `idx` on returns.
pub data Iterated (tab : TaskTable) (owner idx : ℕ) : Result (ℕ × ℕ) → Type 0 where
  exhausted :
      (status : Kstatus) (task : Task)
      → get_from_handle tab owner ≡ some task
      → NothingIn task.ipcs idx tab.numtask
      → Iterated tab owner idx (failure status)
  found_at :
      (i source : ℕ) (pending : IsPending tab owner source i)
      → idx ≤ i
      → NothingIn pending.task.ipcs idx i
      → Iterated tab owner idx (success (source, i + 1))

-- What `local_ipc_iterate` does with the slot it finds.
report : TaskTable → Option ℕ → Run (Result (ℕ × ℕ))
report tab none = ret (failure error_noent)
report tab (some i) = elim (get_elem? tab.cells i) [
  | none ↦ fault
  | some peer ↦ ret (success (peer.handle, i + 1))
]

iterate-report :
    (tab : TaskTable) (owner idx : ℕ) (t : Task)
    → get_from_handle tab owner ≡ some t
    → local_ipc_iterate tab owner idx
      ≡ (first_pending t.ipcs idx (tab.numtask - idx) >>= report tab)
unfolding local_ipc_iterate
iterate-report tab owner idx t f =
    rw (local_ipc_iterate, f)
      (ap
        (λ (g : Option ℕ → Run (Result (ℕ × ℕ))).
          first_pending t.ipcs idx (tab.numtask - idx) >>= g)
        (fun_ext (unfold report in elim [ none ↦ refl | some i ↦ refl ])))

report_lem :
    (tab : TaskTable) (owner idx : ℕ) (t : Task) (slot : Option ℕ) (r : Result (ℕ × ℕ))
    → get_from_handle tab owner ≡ some t
    → FirstPending t.ipcs idx (tab.numtask - idx) slot
    → report tab slot ≡ ret r
    → Iterated tab owner idx r
unfolding report
report_lem tab owner idx t none r f (nothing_pending none_in) h =
    subst (Iterated tab owner idx) (ground arith)
      (exhausted error_noent t f (λ j low high. none_in j low (omega arith)))
report_lem tab owner idx t (some _) r f (first_at i len low high at pos none_in) h =
    elim (Option-cases (get_elem? tab.cells i)) [
      | inl past ↦ absurd (ground (arith, past))
      | inr (peer, e) ↦
          let pending : IsPending tab owner peer.handle i = record {
            task = t;
            len = len;
            peer = peer;
            found = f;
            slot = at;
            sent = pos;
            cell = e;
            from = refl;
            inside = omega arith;
          } in
          subst (Iterated tab owner idx) (ground (arith, e))
            (found_at i peer.handle pending low none_in)
    ]

pub local_ipc_iterate_lem :
    (tab : TaskTable) (owner idx : ℕ) (r : Result (ℕ × ℕ))
    → local_ipc_iterate tab owner idx ≡ ret r
    → Iterated tab owner idx r
unfolding local_ipc_iterate
local_ipc_iterate_lem tab owner idx r h = elim (Option-cases (get_from_handle tab owner)) [
  | inl nothing ↦ absurd (ground (arith, nothing))
  | inr (t, f) ↦
      let (slot, a, b) = >>=-eq-ret _ (report tab) (sym (iterate-report tab owner idx t f) ∙ h) in
      report_lem tab owner idx t slot r f (first_pending_lem t.ipcs idx (tab.numtask - idx) slot a)
        b
]
