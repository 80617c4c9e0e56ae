-- ===== src/Base/Ring.antt =====
-- Circular arrays: the occupied slots of an array of `d` cells, from an index on.
use sentry_kernel.Base.{
  ℕ, zero, suc, ◌+◌, ◌-◌, ◌%◌, ◌≤◌, ◌<◌, ◌≡◌, refl, sym, ap, ◌∙◌, ◌≢◌, Option, List, [], ◌∷◌, ◌++◌,
  arith, length, get_elem?, set, get_elem?-set_ne,
}
use native.Mathlib.Decide.{dec_lt}
use native.Mathlib.Nat.{add-zero, mod-eq_of_lt, mod-add-mod, mod-eq-sub-mod}

module _ {ℓ} {A : Type ℓ} (d : ℕ) where
  -- The `n` slots from index `i` on, going round; `none` is a slot past the end of the array.
  unfoldable pub slots : List A → ℕ → ℕ → List (Option A)
  slots buf i zero = []
  slots buf i (suc n) = get_elem? buf i ∷ slots buf ((i + 1) % d) n

-- A shorter way than the whole round does not lead back.
pub offset-ne : (d i k : ℕ) → i < d → 0 < k → k < d → (i + k) % d ≢ i
offset-ne d i k hi hk hd = elim (dec_lt (i + k) d) [
  | yes small ↦ omega (arith, mod-eq_of_lt {n = i + k} {m = d} small)
  | no big ↦ omega (
    arith,
    mod-eq-sub-mod {n = i + k} {m = d} (omega arith),
    mod-eq_of_lt {n = i + k - d} {m = d} (omega arith),
  )
]

offset-step : (d i n : ℕ) → ((i + 1) % d + n) % d ≡ (i + suc n) % d
offset-step d i n = rw mod-add-mod (ap (λ t. t % d) (omega arith))

module _ {ℓ} {A : Type ℓ} (d : ℕ) where
  -- A write past the occupied slots, before the round is complete, leaves them alone.
  pub slots-set :
      (buf : List A) (v : A) (i j n m : ℕ)
      → i < d
      → n ≤ m
      → m < d
      → j ≡ (i + m) % d
      → slots d (set buf j v) i n ≡ slots d buf i n
  unfolding slots
  slots-set buf v i j zero m hi hn hm e = refl
  slots-set buf v i j (suc n) zero hi hn hm e = absurd (omega arith)
  slots-set buf v i j (suc n) (suc m) hi hn hm e = rw (
    get_elem?-set_ne buf j i v (rw e (offset-ne d i (suc m) hi (omega arith) hm)),
    slots-set buf v ((i + 1) % d) j n m (omega arith) (omega arith) (omega arith)
        (e ∙ sym (offset-step d i m)),
  )

  -- The slots from `i` on with the one behind them.
  pub slots-snoc :
      (buf : List A) (i n : ℕ)
      → i < d
      → slots d buf i (suc n) ≡ slots d buf i n ++ get_elem? buf ((i + n) % d) ∷ []
  unfolding slots
  slots-snoc buf i zero hi = rw (add-zero, mod-eq_of_lt hi)
  slots-snoc buf i (suc n) hi =
      ap (◌∷◌ (get_elem? buf i))
        (slots-snoc buf ((i + 1) % d) n (omega arith) ∙ rw (offset-step d i n))

  pub length-slots : (buf : List A) (i n : ℕ) → length (slots d buf i n) ≡ n
  unfolding slots
  length-slots buf i zero = refl
  length-slots buf i (suc n) = ap suc (length-slots buf ((i + 1) % d) n)
