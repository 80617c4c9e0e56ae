-- ===== src/Zlib.antt =====
-- The kernel's C library: bubble_sort of kernel/include/sentry/zlib/sort.h. A table is a list of cells,
-- and `bigger a b` is that the comparison function returns a positive value; a swap function, the given
-- one or generic_swap, exchanges the two cells.
pub mod Sort
use sentry_kernel.Base.{
  ℕ, zero, suc, Bool, ◌||◌, Option, none, some, List, ◌∷◌, ltb, ◌==◌, if◌then◌else◌, length,
}
use sentry_kernel.KTypes.{Kstatus, okay, error_invparam}

module _ {ℓ} {A : Type ℓ} (bigger : A → A → Bool) where
  -- Two neighbours after the test of the inner loop.
  abbrev pub in_order : A → A → A × A
  in_order a b = if bigger a b then (b, a) else (a, b)

  -- The inner loop, with `n` tests left, from the cell the list starts with on.
  unfoldable pub bubble : ℕ → List A → List A
  bubble (suc n) (a ∷ b ∷ xs) = let cells = in_order a b in cells.0 ∷ bubble n (cells.1 ∷ xs)
  bubble _ xs = xs

  -- The outer loop with `k` rounds left: the round with index len - k does k - 1 tests.
  unfoldable pub bubble_rounds : ℕ → List A → List A
  bubble_rounds zero xs = xs
  bubble_rounds (suc k) xs = bubble_rounds k (bubble k xs)

-- `bubble_sort`; a table or a comparison function may be NULL.
unfoldable pub bubble_sort {ℓ} :
    {A : Type ℓ} → Option (List A) → ℕ → Option (A → A → Bool) → Kstatus × Option (List A)
bubble_sort none cell_size cmp = (error_invparam, none)
bubble_sort (some xs) cell_size none = (error_invparam, some xs)
bubble_sort (some xs) cell_size (some bigger) =
    if ltb (length xs) 2 || cell_size == 0
    then (okay, some xs)
    else (okay, some (bubble_rounds bigger (length xs) xs))
