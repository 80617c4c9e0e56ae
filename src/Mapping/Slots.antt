-- ===== src/Mapping/Slots.antt =====
-- The searches in a layout: which entry `mgr_mm_map_shm` takes, and which one `mgr_mm_unmap_shm`
-- finds again.
use sentry_kernel.Base.{
  ℕ, zero, suc, ◌+◌, ◌<◌, ◌≡◌, refl, sym, ap, ◌∙◌, ◌≢◌, inl, inr, true, false, Option, some, List,
  [], ◌∷◌, arith, ◌==◌, if_true, if_false, ==_iff, Bool-cases, length, get_elem?, set,
}
use sentry_kernel.Mapping.{Mpu, free_from, address_from}

module _ {R : Type 0} (mpu : Mpu R) where
  -- An entry that is found free is free, and is the first such.
  pub free_from_lem :
      (k : ℕ) (rs : List R) {i : ℕ}
      → free_from mpu k rs ≡ some i
      → (n : ℕ) × (i ≡ k + n) × (r : R) × (get_elem? rs n ≡ some r) × (mpu.is_free r ≡ true)
  free_from_lem k [] e = absurd (ground arith)
  free_from_lem k (r ∷ rs) {i} e = elim (Bool-cases (mpu.is_free r)) [
    | inl free ↦ (0, ground arith, r, refl, free)
    | inr busy ↦
        let (n, a, q, b, c) = free_from_lem (k + 1) rs {i = i} (sym (if_false _ _ busy) ∙ e) in
        (suc n, omega arith, q, b, c)
  ]

  -- No entry starts at the address.
  abbrev pub Avoids : ℕ → List R → Type 0
  Avoids addr [] = Unit
  Avoids addr (r ∷ rs) = (mpu.base_address r ≢ addr) × Avoids addr rs

  -- A region that is written in a layout without its address is found at its entry.
  pub address_from-set :
      (addr k : ℕ) (rs : List R) (n : ℕ) (r : R)
      → Avoids addr rs
      → n < length rs
      → mpu.base_address r ≡ addr
      → address_from mpu addr k (set rs n r) ≡ some (k + n + 2)
  address_from-set addr k [] n r a h e = absurd (omega arith)
  address_from-set addr k (x ∷ xs) zero r a h e =
      if_true _ _ ((==_iff _ _).1 e) ∙ ap some (omega arith)
  address_from-set addr k (x ∷ xs) (suc n) r a h e =
      let test : (mpu.base_address x == addr) ≡ false = ground (arith, a.0) in
      if_false _ _ test
      ∙ address_from-set addr (k + 1) xs n r a.1 (omega arith) e
      ∙ ap some (omega arith)

  -- Writing elsewhere leaves the first free entry where it is.
  pub free_from-set :
      (k : ℕ) (rs : List R) (n j : ℕ) (r : R)
      → free_from mpu k rs ≡ some (k + n)
      → n < j
      → free_from mpu k (set rs j r) ≡ some (k + n)
  free_from-set k [] n j r e h = absurd (ground arith)
  free_from-set k (x ∷ xs) zero zero r e h = absurd (omega arith)
  free_from-set k (x ∷ xs) (suc n) zero r e h = absurd (omega arith)
  free_from-set k (x ∷ xs) zero (suc j) r e h = elim (Bool-cases (mpu.is_free x)) [
    | inl free ↦ if_true _ _ free ∙ ap some (omega arith)
    | inr busy ↦
        let (m, a, _, _, _) = free_from_lem (k + 1) xs {i = k + 0} (sym (if_false _ _ busy) ∙ e) in
        absurd (omega arith)
  ]
  free_from-set k (x ∷ xs) (suc n) (suc j) r e h = elim (Bool-cases (mpu.is_free x)) [
    | inl free ↦
        let same : ◌≡◌ {A = Option ℕ} (some k) (some (k + suc n)) = sym (if_true _ _ free) ∙ e in
        absurd (ground arith)
    | inr busy ↦
        let up : k + suc n ≡ k + 1 + n = omega arith in
        if_false _ _ busy
        ∙ free_from-set (k + 1) xs n j r (sym (if_false _ _ busy) ∙ e ∙ ap some up) (omega arith)
        ∙ ap some (sym up)
  ]
