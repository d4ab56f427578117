-- ===== src/Fc.antt =====
-- The part of the `fc` library (a git submodule) that the chain's arithmetic calls: checked 64-bit
-- shares (`fc::safe<int64_t>`) and 128-bit unsigned numbers (`fc::uint128`). The model takes both
-- as a parameter, with the behaviour that they document where the code relies on it.
pub mod Native
pub mod Time
use bitshares_toolkit.Common.{ℕ, ◌+◌, ◌-◌, ◌*◌, ◌/◌, ◌^◌, ◌≤◌, ◌<◌, ◌≡◌, Option, some}
use bitshares_toolkit.Common.Int.{ℤ, pos, negsuc, ◌+ℤ◌, ◌-ℤ◌, ◌≤ℤ◌, neg_ℤ}

abbrev pub int64_max : ℤ
int64_max = pos (2 ^ 63 - 1)

abbrev pub int64_min : ℤ
int64_min = negsuc (2 ^ 63 - 1)

abbrev pub IsInt64 : ℤ → Type 0
IsInt64 a = (int64_min ≤ℤ a) × (a ≤ℤ int64_max)

pub record Fc : Type 0 where
  -- `safe<int64_t>` sums, differences, products and negation; `none` is the exception on overflow.
  pub safe_add : ℤ → ℤ → Option ℤ
  pub safe_sub : ℤ → ℤ → Option ℤ
  pub safe_mul : ℤ → ℤ → Option ℤ
  pub safe_neg : ℤ → Option ℤ
  pub safe_mul_fits : (a b : ℕ) → a * b < 2 ^ 63 → safe_mul (pos a) (pos b) ≡ some (pos (a * b))
  pub safe_neg_fits : (a : ℤ) → IsInt64 (neg_ℤ a) → safe_neg a ≡ some (neg_ℤ a)
  pub safe_neg_exact : (a c : ℤ) → safe_neg a ≡ some c → c ≡ neg_ℤ a
  pub safe_add_fits : (a b : ℤ) → IsInt64 (a +ℤ b) → safe_add a b ≡ some (a +ℤ b)
  pub safe_add_exact : (a b c : ℤ) → safe_add a b ≡ some c → c ≡ a +ℤ b
  pub safe_sub_fits : (a b : ℤ) → IsInt64 (a -ℤ b) → safe_sub a b ≡ some (a -ℤ b)
  pub safe_sub_exact : (a b c : ℤ) → safe_sub a b ≡ some c → c ≡ a -ℤ b
  -- `uint128( int64_t )`, `+`, `-`, `*`, `/` and `to_uint64`.
  pub to_uint128 : ℤ → ℕ
  pub add128 : ℕ → ℕ → ℕ
  pub sub128 : ℕ → ℕ → ℕ
  pub mul128 : ℕ → ℕ → ℕ
  pub div128 : ℕ → ℕ → ℕ
  pub to_uint64 : ℕ → ℕ
  pub to_uint128_pos : (n : ℕ) → n < 2 ^ 63 → to_uint128 (pos n) ≡ n
  pub add128_fits : (a b : ℕ) → a + b < 2 ^ 128 → add128 a b ≡ a + b
  pub sub128_fits : (a b : ℕ) → b ≤ a → a < 2 ^ 128 → sub128 a b ≡ a - b
  pub mul128_fits : (a b : ℕ) → a * b < 2 ^ 128 → mul128 a b ≡ a * b
  pub div128_lem : (a b : ℕ) → 0 < b → a < 2 ^ 128 → div128 a b ≡ a / b
  pub to_uint64_fits : (n : ℕ) → n < 2 ^ 64 → to_uint64 n ≡ n
