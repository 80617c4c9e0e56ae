-- ===== src/Sched/Rrmq/Room.antt =====
-- Counting the active jobs of a job set against the user tasks of the table, idle excluded.
use sentry_kernel.Base.{
  ℕ, zero, suc, ◌+◌, ◌-◌, ◌≤◌, ◌<◌, ◌≡◌, refl, sym, ap, subst, ◌⊎◌, inl, inr, Bool, true, false,
  ◌&&◌, none, some, List, [], ◌∷◌, arith, ◌==◌, Option-cases, get_elem?,
}
use sentry_kernel.Task.{TaskMeta, Task, TaskTable, index_of, get_from_handle}
use sentry_kernel.Task.Accessors.{get_from_handle-cell}
use sentry_kernel.Sched.Rrmq.{Job}
use sentry_kernel.Sched.Rrmq.Jobsets.{count_if, count_active, occurrences}
use native.Mathlib.Decide.{ℕ_discrete}

-- A task of the table that is not the last one, idle, and has metadata.
abbrev pub IsUser : TaskTable → ℕ → Type 0
IsUser tab h =
    (t : Task) × (m : TaskMeta) × (get_from_handle tab h ≡ some t)
    × (t.metadata ≡ some m)
    × (suc (index_of h) < tab.numtask)

-- Every active job of a list runs a user task.
abbrev pub AllUsers : TaskTable → List Job → Type 0
AllUsers tab [] = Unit
AllUsers tab (j ∷ js) = ((j.active ≡ false) ⊎ IsUser tab j.handler) × AllUsers tab js

-- No task has two active jobs in a list.
abbrev pub IsUnique : List Job → Type 0
IsUnique js = (t : ℕ) → occurrences t js ≤ 1

-- The active jobs whose handle has index `k`.
at_index : ℕ → List Job → ℕ
at_index k [] = 0
at_index k (j ∷ js) = count_if (j.active && index_of j.handler == k) + at_index k js

sum_below : ℕ → (ℕ → ℕ) → ℕ
sum_below zero f = 0
sum_below (suc n) f = f n + sum_below n f

sum_below-add : (n : ℕ) (f g : ℕ → ℕ) → sum_below n (λ k. f k + g k) ≡ sum_below n f + sum_below n g
unfolding sum_below
sum_below-add zero f g = refl
sum_below-add (suc n) f g = omega (arith, sum_below-add n f g)

sum_below_zero : (n : ℕ) (f : ℕ → ℕ) → ((k : ℕ) → k < n → f k ≡ 0) → sum_below n f ≡ 0
unfolding sum_below
sum_below_zero zero f h = refl
sum_below_zero (suc n) f h =
    omega (arith, h n (omega arith), sum_below_zero n f (λ k p. h k (omega arith)))

sum_below_single :
    (n i : ℕ) (b : Bool)
    → (b ≡ false) ⊎ (i < n)
    → sum_below n (λ k. count_if (b && i == k)) ≡ count_if b
unfolding sum_below
sum_below_single n i false h = sum_below_zero n _ (λ k p. refl)
sum_below_single n i true (inl h) = cc
sum_below_single zero i true (inr h) = elim h [ ]
sum_below_single (suc n) i true (inr h) = elim (ℕ_discrete i n) [
  | yes e ↦
      ground (arith, e, sum_below_zero n (λ k. count_if (true && i == k)) (λ k p. ground arith))
  | no ne ↦ ground (arith, sum_below_single n i true (inr (omega arith)))
]

sum_below-le : (n : ℕ) (f : ℕ → ℕ) → ((k : ℕ) → f k ≤ 1) → sum_below n f ≤ n
unfolding sum_below
sum_below-le zero f h = omega arith
sum_below-le (suc n) f h = omega (arith, h n, sum_below-le n f h)

sum_below-lt : (n i : ℕ) (f : ℕ → ℕ) → ((k : ℕ) → f k ≤ 1) → i < n → f i ≡ 0 → sum_below n f < n
unfolding sum_below
sum_below-lt zero i f h hi z = elim hi [ ]
sum_below-lt (suc n) i f h hi z = elim (ℕ_discrete i n) [
  | yes e ↦ omega (arith, ap f e, sum_below-le n f h)
  | no ne ↦ omega (arith, h n, sum_below-lt n i f h (omega arith) z)
]

module _ (tab : TaskTable) where
  count_active-sum :
      (n : ℕ) (js : List Job)
      → tab.numtask ≤ suc n
      → AllUsers tab js
      → count_active js ≡ sum_below n (λ k. at_index k js)
  unfolding count_active at_index
  count_active-sum n [] h u = sym (sum_below_zero n _ (λ k p. refl))
  count_active-sum n (j ∷ js) h u =
      let one : (j.active ≡ false) ⊎ (index_of j.handler < n) = ground (arith, u.0) in
      omega (
        arith,
        sum_below-add n (λ k. count_if (j.active && index_of j.handler == k)) (λ k. at_index k js),
        sum_below_single n (index_of j.handler) j.active one,
        count_active-sum n js h u.1,
      )

  at_index-le :
      (t0 : Task) (k : ℕ) (js : List Job)
      → get_elem? tab.cells k ≡ some t0
      → AllUsers tab js
      → at_index k js ≤ occurrences t0.handle js
  unfolding at_index occurrences
  at_index-le t0 k [] e u = omega arith
  at_index-le t0 k (j ∷ js) e u = elim u.0 [
    | inl idle ↦ ground (arith, idle, at_index-le t0 k js e u.1)
    | inr (t, m, f, _, _) ↦ ground (
      arith,
      get_from_handle-cell tab j.handler f,
      ap (get_elem? tab.cells) {x = index_of j.handler} {y = k},
      at_index-le t0 k js e u.1,
    )
  ]

  at_index-none :
      (k : ℕ) (js : List Job) → get_elem? tab.cells k ≡ none → AllUsers tab js → at_index k js ≡ 0
  unfolding at_index
  at_index-none k [] e u = refl
  at_index-none k (j ∷ js) e u = elim u.0 [
    | inl idle ↦ ground (arith, idle, at_index-none k js e u.1)
    | inr (t, m, f, _, _) ↦ ground (
      arith,
      get_from_handle-cell tab j.handler f,
      ap (get_elem? tab.cells) {x = index_of j.handler} {y = k},
      at_index-none k js e u.1,
    )
  ]

  at_index-le_one : (js : List Job) (k : ℕ) → AllUsers tab js → IsUnique js → at_index k js ≤ 1
  at_index-le_one js k u unique = elim (Option-cases (get_elem? tab.cells k)) [
    | inl e ↦ omega (arith, at_index-none k js e u)
    | inr (t0, e) ↦ omega (arith, at_index-le t0 k js e u, unique t0.handle)
  ]

  at_index-absent :
      (js : List Job) (t : ℕ)
      → AllUsers tab js
      → IsUser tab t
      → occurrences t js ≡ 0
      → at_index (index_of t) js ≡ 0
  at_index-absent js t u (t0, m, f, _, _) out =
      let (cell, word, _) = get_from_handle-cell tab t f in
      let same : occurrences t0.handle js ≡ 0 = rw word out in
      omega (arith, at_index-le t0 (index_of t) js cell u, same)

  -- A list of active jobs of distinct user tasks that lacks the user task `t` has fewer active jobs
  -- than there are user tasks.
  pub count_active_lacking :
      (js : List Job) (t : ℕ)
      → AllUsers tab js
      → IsUnique js
      → IsUser tab t
      → occurrences t js ≡ 0
      → suc (count_active js) < tab.numtask
  count_active_lacking js t u unique user out =
      let n = tab.numtask - 1 in
      let inside : suc (index_of t) < tab.numtask = user.4 in
      omega (
        arith,
        count_active-sum n js (omega arith) u,
        sum_below-lt n (index_of t) (λ k. at_index k js) (λ k. at_index-le_one js k u unique)
            (omega arith) (at_index-absent js t u user out),
      )

  pub AllUsers-get :
      (js : List Job) (i : ℕ) (j : Job)
      → AllUsers tab js
      → get_elem? js i ≡ some j
      → j.active ≡ true
      → IsUser tab j.handler
  AllUsers-get [] i j u e a = absurd (ground arith)
  AllUsers-get (k ∷ js) zero j u e a = elim u.0 [
    | inl idle ↦ absurd (ground arith)
    | inr user ↦ let same : k ≡ j = cc in subst (λ (x : Job). IsUser tab x.handler) same user
  ]
  AllUsers-get (k ∷ js) (suc i) j u e a = AllUsers-get js i j u.1 e a
