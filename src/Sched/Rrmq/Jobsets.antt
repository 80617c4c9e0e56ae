-- ===== src/Sched/Rrmq/Jobsets.antt =====
-- Counting in a job list of sched_rrmq.c: the active jobs, and the active jobs of one task. The loops
-- of the scheduler described by these counts.
use sentry_kernel.Base.{
  ℕ, zero, suc, ◌+◌, ◌≤◌, ◌<◌, ◌≡◌, refl, ◌⊎◌, inl, inr, Bool, true, false, ◌&&◌, none, some, List,
  [], ◌∷◌, arith, ◌==◌, Bool-cases, length, get_elem?, set,
}
use sentry_kernel.KTypes.{okay, error_badstate}
use sentry_kernel.Sched.Rrmq.{Job, not_in_jobset, empty_cell}

abbrev pub count_if : Bool → ℕ
count_if true = 1
count_if false = 0

unfoldable pub count_active : List Job → ℕ
count_active [] = 0
count_active (j ∷ js) = count_if j.active + count_active js

-- How many active jobs run the task `t`.
unfoldable pub occurrences : ℕ → List Job → ℕ
occurrences t [] = 0
occurrences t (j ∷ js) = count_if (j.active && j.handler == t) + occurrences t js

pub count_active-le-length : (js : List Job) → count_active js ≤ length js
unfolding count_active
count_active-le-length [] = omega arith
count_active-le-length (j ∷ js) = ground (arith, count_active-le-length js)

pub occurrences-le-count_active : (t : ℕ) (js : List Job) → occurrences t js ≤ count_active js
unfolding count_active occurrences
occurrences-le-count_active t [] = omega arith
occurrences-le-count_active t (j ∷ js) = ground (arith, occurrences-le-count_active t js)

-- A store into a cell exchanges what the cell contributes.
pub count_active-set :
    (js : List Job) (i : ℕ) (old new : Job)
    → get_elem? js i ≡ some old
    → count_active (set js i new) + count_if old.active ≡ count_active js + count_if new.active
unfolding count_active
count_active-set [] i old new e = ground arith
count_active-set (j ∷ js) zero old new e = ground arith
count_active-set (j ∷ js) (suc i) old new e = omega (arith, count_active-set js i old new e)

pub occurrences-set :
    (t : ℕ) (js : List Job) (i : ℕ) (old new : Job)
    → get_elem? js i ≡ some old
    → occurrences t (set js i new) + count_if (old.active && old.handler == t)
      ≡ occurrences t js + count_if (new.active && new.handler == t)
unfolding occurrences
occurrences-set t [] i old new e = ground arith
occurrences-set t (j ∷ js) zero old new e = ground arith
occurrences-set t (j ∷ js) (suc i) old new e = omega (arith, occurrences-set t js i old new e)

-- The membership loop answers by the number of occurrences.
pub not_in_jobset_lem :
    (t : ℕ) (js : List Job)
    → ((occurrences t js ≡ 0) × (not_in_jobset t js ≡ okay))
      ⊎ ((0 < occurrences t js) × (not_in_jobset t js ≡ error_badstate))
unfolding occurrences not_in_jobset
not_in_jobset_lem t [] = inl (refl, refl)
not_in_jobset_lem t (j ∷ js) = ground (arith, not_in_jobset_lem t js)

-- The search for an empty cell finds one unless every cell is active.
pub empty_cell_lem :
    (js : List Job)
    → ((count_active js ≡ length js) × (empty_cell js ≡ none))
      ⊎ ((i : ℕ) × (j : Job) × (empty_cell js ≡ some i)
          × (get_elem? js i ≡ some j)
          × (j.active ≡ false))
unfolding count_active empty_cell
empty_cell_lem [] = inl (refl, refl)
empty_cell_lem (j ∷ js) = elim (Bool-cases j.active) [
  | inl taken ↦ elim (empty_cell_lem js) [
    | inl (full, e) ↦ inl (ground arith, ground arith)
    | inr (i, k, e, g, idle) ↦ inr (suc i, k, ground arith, g, idle)
  ]
  | inr idle ↦ inr (0, j, ground arith, refl, idle)
]
