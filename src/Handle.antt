-- ===== src/Handle.antt =====
-- Opaque handles seen as bit fields: `ktaskh_t` and its conversions
-- (kernel/src/managers/task/task_core.h), `kshmh_t` and its conversions
-- (kernel/src/managers/memory/memory.h). A handle is the `uint32_t` itself; bit fields are laid out
-- from the least significant bit, as GCC does on the Arm targets.
use sentry_kernel.Base.{ℕ, ◌+◌, ◌*◌, ◌/◌, ◌%◌, ◌^◌, ◌<◌, ◌≡◌, arith}

-- The fields of a task handle: 20, 8 and 3 bits.
pub record Ktaskh : Type 0 where
  pub rerun : ℕ
  pub id : ℕ
  pub family : ℕ

-- `taskh_to_ktaskh`: the union read back as bit fields.
abbrev pub taskh_to_ktaskh : ℕ → Ktaskh
taskh_to_ktaskh h = record {
  rerun = h % 2 ^ 20;
  id = h / 2 ^ 20 % 2 ^ 8;
  family = h / 2 ^ 28 % 2 ^ 3;
}

-- `ktaskh_to_taskh`, the padding bit being 0. A store to a bit field keeps its low bits.
abbrev pub ktaskh_to_taskh : Ktaskh → ℕ
ktaskh_to_taskh k = k.rerun % 2 ^ 20 + k.id % 2 ^ 8 * 2 ^ 20 + k.family % 2 ^ 3 * 2 ^ 28

-- The fields of a shared memory handle: 8 and 24 bits.
pub record Kshmh : Type 0 where
  pub id : ℕ
  pub rng : ℕ

abbrev pub shmh_to_kshmh : ℕ → Kshmh
shmh_to_kshmh h = record { id = h % 2 ^ 8; rng = h / 2 ^ 8 % 2 ^ 24 }

abbrev pub kshmh_to_shmh : Kshmh → ℕ
kshmh_to_shmh k = k.id % 2 ^ 8 + k.rng % 2 ^ 24 * 2 ^ 8

-- A task handle that is forged from fields in range reads back as those fields, and as a word it is
-- below 2 ^ 31; a shared memory handle reads back as its fields and is a 32-bit word.
pub handle_roundtrip :
    (k : Ktaskh) (s : Kshmh)
    → k.rerun < 2 ^ 20
    → k.id < 2 ^ 8
    → k.family < 2 ^ 3
    → s.id < 2 ^ 8
    → s.rng < 2 ^ 24
    → (taskh_to_ktaskh (ktaskh_to_taskh k) ≡ k)
      × (ktaskh_to_taskh k < 2 ^ 31)
      × (shmh_to_kshmh (kshmh_to_shmh s) ≡ s)
      × (kshmh_to_shmh s < 2 ^ 32)
handle_roundtrip k s a b c d e = ground arith

-- Every shared memory handle is the word that its fields forge: no two handles share both fields.
pub kshmh_to_shmh-shmh_to_kshmh : (h : ℕ) → h < 2 ^ 32 → kshmh_to_shmh (shmh_to_kshmh h) ≡ h
kshmh_to_shmh-shmh_to_kshmh h p = omega arith
