-- ===== src/Mapping/Sizes.antt =====
-- The size of a region on PMSAv8: mpu_convert_size_to_region of
-- kernel/include/sentry/arch/asm-cortex-m/mpu.h with __mpu_region_align_size of mpu_pmsa_v8.h and
-- ROUND_UP_POW2 of kernel/include/sentry/zlib/math.h, on 32-bit words.
use sentry_kernel.Base.{
  ℕ, zero, suc, ◌+◌, ◌-◌, ◌*◌, ◌/◌, ◌%◌, ◌^◌, ◌≤◌, ◌<◌, ◌≡◌, refl, sym, ap, ◌∙◌, subst, ◌⊎◌, inl,
  inr, arith, ltb, if◌then◌else◌, if_true, if_false, Bool-cases,
}
use Prim.Native.Nat.{digits, bit_or-bitwise, bit_or, max}
use native.Mathlib.Decide.{dec_le}

-- ROUND_UP_POW2
abbrev pub round_up_pow2 : ℕ → ℕ → ℕ
round_up_pow2 n p = (bit_or ((n + 2 ^ 32 - 1) % 2 ^ 32) (p - 1) + 1) % 2 ^ 32

-- `__mpu_region_align_size`; `__mpu_size_to_region` returns its argument.
abbrev pub region_align_size : ℕ → ℕ
region_align_size size = round_up_pow2 size 32

-- `mpu_convert_size_to_region`
unfoldable pub convert_size_to_region : ℕ → ℕ
convert_size_to_region size = region_align_size (if ltb size 32 then 32 else size)

abbrev or_digits : ℕ → ℕ → ℕ → ℕ
or_digits n a b = digits (λ b. b) max n a b

or_zeros : (n a : ℕ) → a ≤ n → or_digits n a 0 ≡ a
or_zeros zero zero h = refl
or_zeros (suc n) zero h = refl
or_zeros (suc n) (suc a) h = omega (arith, or_zeros n (suc a / 2) (omega arith))
or_zeros zero (suc a) h = absurd (omega arith)

-- A mask with one more digit.
or_ones :
    (c : ℕ) (f : ℕ → ℕ)
    → ((n a : ℕ) → a ≤ n → or_digits n a c ≡ f a)
    → (n a : ℕ) → a ≤ n
    → or_digits n a (c * 2 + 1) ≡ f (a / 2) * 2 + 1
or_ones c f r zero zero h = omega (arith, r 0 0 h)
or_ones c f r (suc n) zero h = omega (arith, r 0 0 (omega arith))
or_ones c f r zero (suc a) h = absurd (omega arith)
or_ones c f r (suc n) (suc a) h =
    let half : (c * 2 + 1) / 2 ≡ c = omega arith in
    let rest : or_digits n (suc a / 2) ((c * 2 + 1) / 2) ≡ f (suc a / 2) =
      ap (or_digits n (suc a / 2)) half ∙ r n (suc a / 2) (omega arith) in
    omega (arith, rest)

-- The mask of an alignment to 32.
or_31 : (a : ℕ) → bit_or a 31 ≡ a / 32 * 32 + 31
or_31 a =
    let f1 = λ (x : ℕ). x / 2 * 2 + 1 in
    let f2 = λ (x : ℕ). f1 (x / 2) * 2 + 1 in
    let f3 = λ (x : ℕ). f2 (x / 2) * 2 + 1 in
    let f4 = λ (x : ℕ). f3 (x / 2) * 2 + 1 in
    let digits_31 =
      or_ones 15 f4 (or_ones 7 f3 (or_ones 3 f2 (or_ones 1 f1 (or_ones 0 (λ x. x) or_zeros)))) a a
        (omega arith) in
    omega (arith, bit_or-bitwise a 31, digits_31)

-- The sizes `r` that a region for `size` bytes may have.
abbrev pub IsRegionSize : ℕ → ℕ → Type 0
IsRegionSize size r =
    ((size ≤ 2 ^ 32 - 32) × (r % 32 ≡ 0) × (size ≤ r) × (32 ≤ r) × ((r ≡ 32) ⊎ (r < size + 32)))
    ⊎ ((2 ^ 32 - 32 < size) × (r ≡ 0))

aligned-IsRegionSize :
    (size : ℕ)
    → 32 ≤ size
    → size < 2 ^ 32
    → IsRegionSize size (((size + 2 ^ 32 - 1) % 2 ^ 32 / 32 * 32 + 31 + 1) % 2 ^ 32)
aligned-IsRegionSize size low h =
    let wraps : (size + 2 ^ 32 - 1) % 2 ^ 32 ≡ size - 1 = omega arith in
    rw wraps (elim (dec_le size (2 ^ 32 - 32)) [
      | yes small ↦ inl (small, omega arith, omega arith, omega arith, inr (omega arith))
      | no large ↦ inr (omega arith, omega arith)
    ])

-- A region on PMSAv8 holds the size that is asked for, in whole blocks of 32 bytes, at least one, and
-- wastes less than a block; but a size of more than 2^32 - 32 wraps to a region of size 0.
pub convert_size_to_region_lem :
    (size : ℕ) → size < 2 ^ 32 → IsRegionSize size (convert_size_to_region size)
unfolding convert_size_to_region
convert_size_to_region_lem size h = elim (Bool-cases (ltb size 32)) [
  | inl e ↦
      subst (IsRegionSize size) (sym (ap region_align_size (if_true _ _ e)))
        (inl (ground (arith, e), refl, ground (arith, e), omega arith, inl refl))
  | inr e ↦
      subst (IsRegionSize size)
        (sym (
          ap region_align_size (if_false _ _ e)
          ∙ ap (λ x. (x + 1) % 2 ^ 32) (or_31 ((size + 2 ^ 32 - 1) % 2 ^ 32))))
        (aligned-IsRegionSize size (ground (arith, e)) h)
]
