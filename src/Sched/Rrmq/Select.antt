-- ===== src/Sched/Rrmq/Select.antt =====
-- The selection loop of `sched_rrmq_elect`, and what it is to select.
use sentry_kernel.Base.{
  ℕ, zero, suc, ◌+◌, ◌≤◌, ◌<◌, ◌≡◌, refl, ◌∙◌, ◌⊎◌, inl, inr, true, false, ◌&&◌, none, some, List,
  [], ◌∷◌, arith, ltb, Bool-cases, get_elem?,
}
use sentry_kernel.Sched.Rrmq.{Job, select}
use sentry_kernel.Sched.Rrmq.Jobsets.{count_active}
use native.Mathlib.Nat.{add-zero}

-- No active job of the list has a priority above `p`.
abbrev pub Bounded : ℕ → List Job → Type 0
Bounded p [] = Unit
Bounded p (j ∷ js) = ((j.active ≡ false) ⊎ (j.priority ≤ p)) × Bounded p js

-- Every active job of the list, up to index `k`, has a priority below `p`.
abbrev pub BelowBefore : ℕ → ℕ → List Job → Type 0
BelowBefore p zero js = Unit
BelowBefore p (suc k) [] = Unit
BelowBefore p (suc k) (j ∷ js) = ((j.active ≡ false) ⊎ (j.priority < p)) × BelowBefore p k js

-- The job `j` at index `k` is active, no active job has a higher priority, and none before it has the
-- same.
pub record IsElected (js : List Job) (k : ℕ) (j : Job) : Type 0 where
  pub cell : get_elem? js k ≡ some j
  pub active : j.active ≡ true
  pub highest : Bounded j.priority js
  pub first : BelowBefore j.priority k js

Bounded-mono : (p q : ℕ) (js : List Job) → p ≤ q → Bounded p js → Bounded q js
Bounded-mono p q [] h b = tt
Bounded-mono p q (j ∷ js) h b = (ground (arith, b.0), Bounded-mono p q js h b.1)

IsElected-head :
    (j : Job) (js : List Job) → j.active ≡ true → Bounded j.priority js → IsElected (j ∷ js) 0 j
IsElected-head j js a b = record {
  cell = refl;
  active = a;
  highest = (inr (omega arith), b);
  first = tt;
}

IsElected-cons :
    (j : Job) (js : List Job) (m : ℕ) (best : Job)
    → IsElected js m best
    → (j.active ≡ false) ⊎ (j.priority < best.priority)
    → IsElected (j ∷ js) (suc m) best
IsElected-cons j js m best el h = record {
  cell = el.cell;
  active = el.active;
  highest = (ground (arith, h), el.highest);
  first = (h, el.first);
}

-- With a candidate in hand: it is kept, when no active job beats it, or the elected job of the list
-- replaces it.
select-some :
    (i k : ℕ) (n : Job) (js : List Job)
    → ((select i js (some (k, n)) ≡ some (k, n)) × Bounded n.priority js)
      ⊎ ((m : ℕ) × (j : Job) × (select i js (some (k, n)) ≡ some (i + m, j))
          × (n.priority < j.priority)
          × IsElected js m j)
unfolding select
select-some i k n [] = inl (refl, tt)
select-some i k n (j ∷ js) = elim (Bool-cases (j.active && ltb n.priority j.priority)) [
  | inl beats ↦
      let step : select i (j ∷ js) (some (k, n)) ≡ select (i + 1) js (some (i, j)) = ground arith in
      elim (select-some (i + 1) i j js) [
        | inl (e, b) ↦
            inr (0, j, step ∙ e ∙ rw add-zero, ground arith, IsElected-head j js (ground arith) b)
        | inr (m, j', e, lt, el) ↦
            inr (
              suc m,
              j',
              step ∙ e ∙ ground arith,
              ground arith,
              IsElected-cons j js m j' el (inr lt),
            )
      ]
  | inr beaten ↦
      let step : select i (j ∷ js) (some (k, n)) ≡ select (i + 1) js (some (k, n)) = ground arith in
      elim (select-some (i + 1) k n js) [
        | inl (e, b) ↦ inl (step ∙ e, (ground arith, b))
        | inr (m, j', e, lt, el) ↦
            inr (suc m, j', step ∙ e ∙ ground arith, lt, IsElected-cons j js m j' el (ground arith))
      ]
]

-- The selection loop over a whole job list finds the elected job, and finds none exactly when no job
-- is active.
pub select_lem :
    (i : ℕ) (js : List Job)
    → ((count_active js ≡ 0) × (select i js none ≡ none))
      ⊎ ((m : ℕ) × (j : Job) × (0 < count_active js)
          × (select i js none ≡ some (i + m, j))
          × IsElected js m j)
unfolding select count_active
select_lem i [] = inl (refl, refl)
select_lem i (j ∷ js) = elim (Bool-cases j.active) [
  | inl taken ↦
      let step : select i (j ∷ js) none ≡ select (i + 1) js (some (i, j)) = ground arith in
      elim (select-some (i + 1) i j js) [
        | inl (e, b) ↦ inr (0, j, ground arith, step ∙ e ∙ rw add-zero, IsElected-head j js taken b)
        | inr (m, j', e, lt, el) ↦
            inr (
              suc m,
              j',
              ground arith,
              step ∙ e ∙ ground arith,
              IsElected-cons j js m j' el (inr lt),
            )
      ]
  | inr idle ↦
      let step : select i (j ∷ js) none ≡ select (i + 1) js none = ground arith in
      elim (select_lem (i + 1) js) [
        | inl (z, e) ↦ inl (ground arith, step ∙ e)
        | inr (m, j', pos, e, el) ↦ inr (
          suc m,
          j',
          ground arith,
          step ∙ e ∙ ground arith,
          IsElected-cons j js m j' el (inl idle),
        )
      ]
]
