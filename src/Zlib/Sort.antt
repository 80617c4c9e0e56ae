-- ===== src/Zlib/Sort.antt =====
-- `bubble_sort` of kernel/include/sentry/zlib/sort.h sorts.
use sentry_kernel.Base.{
  ℕ, zero, suc, ◌<◌, ◌≡◌, refl, sym, subst, inl, inr, Bool, true, false, ◌||◌, some, List, [], ◌∷◌,
  arith, ltb, ◌==◌, if_true, if_false, Bool-cases, length,
}
use sentry_kernel.KTypes.{okay}
use sentry_kernel.Zlib.{in_order, bubble, bubble_rounds, bubble_sort}
use mathlib.Core.List.{Perm}
use mathlib.Core.List.Perm

-- What a comparison function has to be: one that tells which of two cells is bigger in one way only,
-- and transitively.
pub record IsOrder {ℓ} {A : Type ℓ} (bigger : A → A → Bool) : Type ℓ where
  pub one_way : (a b : A) → bigger a b ≡ true → bigger b a ≡ false
  pub chained : (a b c : A) → bigger a b ≡ false → bigger b c ≡ false → bigger a c ≡ false

module _ {ℓ} {A : Type ℓ} (bigger : A → A → Bool) where
  -- A value that is not bigger than any cell from position `k` on.
  abbrev Below : ℕ → A → List A → Type 0
  Below k a [] = Unit
  Below zero a (b ∷ xs) = (bigger a b ≡ false) × Below zero a xs
  Below (suc k) a (b ∷ xs) = Below k a xs

  -- From position `k` on the cells are in order, and none before is bigger than one of them.
  abbrev Settled : ℕ → List A → Type 0
  Settled k [] = Unit
  Settled zero (a ∷ xs) = Below 0 a xs × Settled zero xs
  Settled (suc k) (a ∷ xs) = Below k a xs × Settled k xs

  -- No cell is bigger than a later one.
  abbrev pub IsSorted : List A → Type 0
  IsSorted = Settled 0

  Below-end : (a : A) (xs : List A) → Below (length xs) a xs
  Below-end a [] = tt
  Below-end a (b ∷ xs) = Below-end a xs

  Settled-end : (xs : List A) → Settled (length xs) xs
  Settled-end [] = tt
  Settled-end (a ∷ xs) = (Below-end a xs, Settled-end xs)

  -- The two outcomes of a test of the inner loop.
  either_order {κ} :
      (P : A × A → Type κ) (a b : A)
      → (bigger a b ≡ true → P (b, a))
      → (bigger a b ≡ false → P (a, b))
      → P (in_order bigger a b)
  either_order P a b swapped kept = elim (Bool-cases (bigger a b)) [
    | inl e ↦ subst P (sym (if_true _ _ e)) (swapped e)
    | inr e ↦ subst P (sym (if_false _ _ e)) (kept e)
  ]

  module _ (order : IsOrder bigger) where
    -- The second cell of the two is bounded by what bounds the first one before the test.
    in_order-later : (x a b : A) → bigger x a ≡ false → bigger x (in_order bigger a b).1 ≡ false
    in_order-later x a b le =
        either_order (λ r. bigger x r.1 ≡ false) a b (λ _. le) (order.chained x a b le)

    in_order-first : (a b : A) → bigger (in_order bigger a b).0 (in_order bigger a b).1 ≡ false
    in_order-first a b = either_order (λ r. bigger r.0 r.1 ≡ false) a b (order.one_way a b) (λ e. e)

    -- A bound of the rest and of the first cell is one after the inner loop, too.
    Below-bubble :
        (k : ℕ) (x y : A) (xs : List A)
        → bigger x y ≡ false
        → Below k x xs
        → Below k x (bubble bigger k (y ∷ xs))
    unfolding bubble
    Below-bubble zero x y xs le b = (le, b)
    Below-bubble (suc k) x y [] le b = tt
    Below-bubble (suc k) x y (c ∷ xs) le b =
        Below-bubble k x (in_order bigger y c).1 xs (in_order-later x y c le) b

    -- The inner loop settles one position more.
    Settled-bubble :
        (k : ℕ) (a : A) (xs : List A)
        → Below k a xs
        → Settled k xs
        → Settled k (bubble bigger k (a ∷ xs))
    unfolding bubble
    Settled-bubble zero a xs b s = (b, s)
    Settled-bubble (suc k) a [] b s = (tt, tt)
    Settled-bubble (suc k) a (c ∷ xs) b s =
        let r = in_order bigger a c in
        let both : Below k r.0 xs × Below k r.1 xs =
          either_order (λ r. Below k r.0 xs × Below k r.1 xs) a c (λ _. (s.0, b)) (λ _. (b, s.0)) in
        (Below-bubble k r.0 r.1 xs (in_order-first a c) both.0, Settled-bubble k r.1 xs both.1 s.1)

    bubble_none : (k : ℕ) → bubble bigger k [] ≡ []
    unfolding bubble
    bubble_none zero = refl
    bubble_none (suc k) = refl

    bubble_rounds-IsSorted :
        (k : ℕ) (xs : List A) → Settled k xs → IsSorted (bubble_rounds bigger k xs)
    unfolding bubble_rounds
    bubble_rounds-IsSorted zero xs s = s
    bubble_rounds-IsSorted (suc k) [] s =
        bubble_rounds-IsSorted k (bubble bigger k []) (subst (Settled k) (sym (bubble_none k)) tt)
    bubble_rounds-IsSorted (suc k) (a ∷ xs) s =
        bubble_rounds-IsSorted k (bubble bigger k (a ∷ xs)) (Settled-bubble k a xs s.0 s.1)

  Perm-bubble : (k : ℕ) (xs : List A) → Perm (bubble bigger k xs) xs
  unfolding bubble
  Perm-bubble zero xs = Perm.refl xs
  Perm-bubble (suc k) [] = Perm.refl []
  Perm-bubble (suc k) (a ∷ []) = Perm.refl (a ∷ [])
  Perm-bubble (suc k) (a ∷ b ∷ xs) =
      let r = in_order bigger a b in
      let here : Perm (r.0 ∷ r.1 ∷ xs) (a ∷ b ∷ xs) =
        either_order (λ r. Perm (r.0 ∷ r.1 ∷ xs) (a ∷ b ∷ xs)) a b (λ _. Perm.swap a b xs)
          (λ _. Perm.refl (a ∷ b ∷ xs)) in
      Perm.trans (Perm.cons r.0 (Perm-bubble k (r.1 ∷ xs))) here

  Perm-bubble_rounds : (k : ℕ) (xs : List A) → Perm (bubble_rounds bigger k xs) xs
  unfolding bubble_rounds
  Perm-bubble_rounds zero xs = Perm.refl xs
  Perm-bubble_rounds (suc k) xs =
      Perm.trans (Perm-bubble_rounds k (bubble bigger k xs)) (Perm-bubble k xs)

  short-IsSorted : (xs : List A) → length xs < 2 → IsSorted xs
  short-IsSorted [] h = tt
  short-IsSorted (a ∷ []) h = (tt, tt)
  short-IsSorted (a ∷ b ∷ xs) h = absurd (omega arith)

-- With a comparison function that is an order and cells that are not empty, `bubble_sort` returns
-- K_STATUS_OKAY, and the table then holds the same cells, with no cell bigger than a later one.
pub bubble_sort_lem {ℓ} :
    {A : Type ℓ} (bigger : A → A → Bool) (cell_size : ℕ) (xs : List A)
    → IsOrder bigger
    → 0 < cell_size
    → (ys : List A) × (bubble_sort (some xs) cell_size (some bigger) ≡ (okay, some ys))
      × IsSorted bigger ys
      × Perm ys xs
unfolding bubble_sort
bubble_sort_lem bigger cell_size xs order full =
    let sized : (cell_size == 0) ≡ false = ground arith in
    elim (Bool-cases (ltb (length xs) 2)) [
      | inl e ↦
          let test : (ltb (length xs) 2 || cell_size == 0) ≡ true = ground (arith, e, sized) in
          (xs, if_true _ _ test, short-IsSorted bigger xs (ground (arith, e)), Perm.refl xs)
      | inr e ↦
          let test : (ltb (length xs) 2 || cell_size == 0) ≡ false = ground (arith, e, sized) in
          (
            bubble_rounds bigger (length xs) xs,
            if_false _ _ test,
            bubble_rounds-IsSorted bigger order (length xs) xs (Settled-end bigger xs),
            Perm-bubble_rounds bigger (length xs) xs,
          )
    ]
