-- ===== src/Delay/Cells.antt =====
-- The cells of a delay array: searching for one, and the list of the armed delays, in the order of
-- their cells.
-- The armed delays of an array.
use sentry_kernel.Base.{
  ℕ, zero, suc, ◌+◌, ◌≡◌, refl, ap, ◌∙◌, ◌⊎◌, inl, inr, Bool, true, false, not, none, some, List,
  [], ◌∷◌, ◌++◌, arith, if◌then◌else◌, Bool-cases, length, ret,
}
use sentry_kernel.Delay.{TaskDelayState, first_slot, first_slot_within, is_free, update, disarm}

unfoldable pub armed : List TaskDelayState → List TaskDelayState
armed [] = []
armed (d ∷ ds) = if d.active then d ∷ armed ds else armed ds

-- No cell passes the test.
abbrev pub NoneOf : (TaskDelayState → Bool) → List TaskDelayState → Type 0
NoneOf test [] = Unit
NoneOf test (d ∷ ds) = (test d ≡ false) × NoneOf test ds

-- `ys` is `xs` with `x` at one more place.
abbrev pub Inserted : TaskDelayState → List TaskDelayState → List TaskDelayState → Type 0
Inserted x xs ys =
    (a : List TaskDelayState) × (b : List TaskDelayState) × (xs ≡ a ++ b) × (ys ≡ a ++ x ∷ b)

-- A search finds the cell `d`, the first of `ds` that passes; `update f` at the index found changes
-- that cell alone.
pub record Found (test : TaskDelayState → Bool) (f : TaskDelayState → TaskDelayState)
    (ds : List TaskDelayState) (m : ℕ) : Type 0 where
  pub before : List TaskDelayState
  pub cell : TaskDelayState
  pub behind : List TaskDelayState
  pub split : ds ≡ before ++ cell ∷ behind
  pub passes : test cell ≡ true
  pub first : NoneOf test before
  pub updated : update f m ds ≡ before ++ f cell ∷ behind

-- The first cell of `ds` that passes the test is `d` in `es`, and every other cell is the same.
abbrev pub AtFirst :
    (TaskDelayState → Bool) → TaskDelayState → List TaskDelayState → List TaskDelayState → Type 0
AtFirst test d ds es =
    (before : List TaskDelayState) × (cell : TaskDelayState) × (behind : List TaskDelayState) × (ds
      ≡ before ++ cell ∷ behind)
    × NoneOf test before
    × (test cell ≡ true)
    × (es ≡ before ++ d ∷ behind)

pub Found-AtFirst :
    (test : TaskDelayState → Bool) (f : TaskDelayState → TaskDelayState) (ds : List TaskDelayState)
    (m : ℕ) (found : Found test f ds m)
    → AtFirst test (f found.cell) ds (update f m ds)
Found-AtFirst test f ds m found =
    (found.before, found.cell, found.behind, found.split, found.first, found.passes, found.updated)

module _ (test : TaskDelayState → Bool) (f : TaskDelayState → TaskDelayState) where
  Found-here :
      (d : TaskDelayState) (ds : List TaskDelayState) → test d ≡ true → Found test f (d ∷ ds) 0
  Found-here d ds e = record {
    before = [];
    cell = d;
    behind = ds;
    split = refl;
    passes = e;
    first = tt;
    updated = refl;
  }

  Found-later :
      (d : TaskDelayState) (ds : List TaskDelayState) (m : ℕ)
      → test d ≡ false
      → Found test f ds m
      → Found test f (d ∷ ds) (suc m)
  Found-later d ds m e found = record {
    before = d ∷ found.before;
    cell = found.cell;
    behind = found.behind;
    split = ap (◌∷◌ d) found.split;
    passes = found.passes;
    first = (e, found.first);
    updated = ap (◌∷◌ d) found.updated;
  }

  first_slot_lem :
      (i : ℕ) (ds : List TaskDelayState)
      → ((first_slot test i ds ≡ none) × NoneOf test ds)
        ⊎ ((m : ℕ) × (first_slot test i ds ≡ some (i + m)) × Found test f ds m)
  unfolding first_slot
  first_slot_lem i [] = inl (refl, tt)
  first_slot_lem i (d ∷ ds) = elim (Bool-cases (test d)) [
    | inl e ↦ inr (0, rw e (ap some (omega arith)), Found-here d ds e)
    | inr e ↦ elim (first_slot_lem (i + 1) ds) [
      | inl (s, nowhere) ↦ inl (rw e s, (e, nowhere))
      | inr (m, s, found) ↦
          inr (suc m, rw (e, s) (ap some (omega arith)), Found-later d ds m e found)
    ]
  ]

  pub first_slot_start :
      (ds : List TaskDelayState)
      → ((first_slot test 0 ds ≡ none) × NoneOf test ds)
        ⊎ ((m : ℕ) × (first_slot test 0 ds ≡ some m) × Found test f ds m)
  first_slot_start ds = elim (first_slot_lem 0 ds) [
    | inl nowhere ↦ inl nowhere
    | inr (m, s, found) ↦ inr (m, s ∙ ap some (omega arith), found)
  ]

  pub first_slot_within_lem :
      (i : ℕ) (ds : List TaskDelayState)
      → first_slot_within test i (length ds) ds ≡ ret (first_slot test i ds)
  unfolding first_slot first_slot_within
  first_slot_within_lem i [] = refl
  first_slot_within_lem i (d ∷ ds) = elim (Bool-cases (test d)) [
    | inl e ↦ rw e refl
    | inr e ↦ rw (e, first_slot_within_lem (i + 1) ds) refl
  ]

armed-append : (a b : List TaskDelayState) → armed (a ++ b) ≡ armed a ++ armed b
unfolding armed
armed-append [] b = refl
armed-append (d ∷ ds) b = elim (Bool-cases d.active) [
  | inl e ↦ rw (e, armed-append ds b) refl
  | inr e ↦ rw (e, armed-append ds b) refl
]

armed_on :
    (d : TaskDelayState) (ds : List TaskDelayState)
    → d.active ≡ true
    → armed (d ∷ ds) ≡ d ∷ armed ds
unfolding armed
armed_on d ds e = rw e refl

armed_off :
    (d : TaskDelayState) (ds : List TaskDelayState) → d.active ≡ false → armed (d ∷ ds) ≡ armed ds
unfolding armed
armed_off d ds e = rw e refl

not-false : (b : Bool) → not b ≡ true → b ≡ false
not-false true h = cc
not-false false h = refl

not-true : (b : Bool) → not b ≡ false → b ≡ true
not-true true h = refl
not-true false h = cc

pub full : (ds : List TaskDelayState) → NoneOf is_free ds → armed ds ≡ ds
unfolding armed
full [] h = refl
full (d ∷ ds) (e, h) = rw (not-true d.active e, full ds h) refl

-- Arming a cell that was free adds it to the armed ones; disarming one takes it away.
pub arm-Found :
    (f : TaskDelayState → TaskDelayState) (ds : List TaskDelayState) (m : ℕ)
    (found : Found is_free f ds m)
    → (f found.cell).active ≡ true
    → Inserted (f found.cell) (armed ds) (armed (update f m ds))
arm-Found f ds m found e = (
  armed found.before,
  armed found.behind,
  ap armed found.split
      ∙ armed-append found.before (found.cell ∷ found.behind)
      ∙ ap (λ ds. armed found.before ++ ds)
          (armed_off found.cell found.behind (not-false _ found.passes)),
  ap armed found.updated
      ∙ armed-append found.before (f found.cell ∷ found.behind)
      ∙ ap (λ ds. armed found.before ++ ds) (armed_on (f found.cell) found.behind e),
)

pub disarm-Found :
    (test : TaskDelayState → Bool) (ds : List TaskDelayState) (m : ℕ)
    (found : Found test disarm ds m)
    → found.cell.active ≡ true
    → Inserted found.cell (armed (update disarm m ds)) (armed ds)
disarm-Found test ds m found e = (
  armed found.before,
  armed found.behind,
  ap armed found.updated
      ∙ armed-append found.before (disarm found.cell ∷ found.behind)
      ∙ ap (λ ds. armed found.before ++ ds) (armed_off (disarm found.cell) found.behind refl),
  ap armed found.split
      ∙ armed-append found.before (found.cell ∷ found.behind)
      ∙ ap (λ ds. armed found.before ++ ds) (armed_on found.cell found.behind e),
)

pub length-update :
    (f : TaskDelayState → TaskDelayState) (i : ℕ) (ds : List TaskDelayState)
    → length (update f i ds) ≡ length ds
length-update f i [] = refl
length-update f zero (d ∷ ds) = refl
length-update f (suc i) (d ∷ ds) = ap suc (length-update f i ds)
