-- ===== src/Examples/Sorts.antt =====
-- `bubble_sort` on numbers, and on pairs of which it compares the first part only.
use sentry_kernel.Base.{ℕ, ◌≡◌, refl, Bool, some, List, [], ◌∷◌, arith, ltb}
use sentry_kernel.KTypes.{okay}
use sentry_kernel.Zlib.{bubble, bubble_rounds, bubble_sort}
use sentry_kernel.Zlib.Sort.{IsOrder, IsSorted, bubble_sort_lem}
use mathlib.Core.List.{Perm}

abbrev above : ℕ → ℕ → Bool
above a b = ltb b a

above-IsOrder : IsOrder above
above-IsOrder = record { one_way = λ a b h. ground arith; chained = λ a b c h k. ground arith }

bubble_sort_lem_example :
    (ys : List ℕ) × (bubble_sort (some (5 ∷ 1 ∷ 4 ∷ 1 ∷ [])) 4 (some above) ≡ (okay, some ys))
    × IsSorted above ys
    × Perm ys (5 ∷ 1 ∷ 4 ∷ 1 ∷ [])
bubble_sort_lem_example = bubble_sort_lem above 4 (5 ∷ 1 ∷ 4 ∷ 1 ∷ []) above-IsOrder (omega arith)

-- Cells that compare equal keep their order.
sorted_pairs :
    bubble_sort (some ((2, 7) ∷ (1, 8) ∷ (2, 9) ∷ [])) 8 (some (λ (a b : ℕ × ℕ). above a.0 b.0))
    ≡ (okay, some ((1, 8) ∷ (2, 7) ∷ (2, 9) ∷ []))
unfolding bubble_sort bubble_rounds bubble
sorted_pairs = refl
