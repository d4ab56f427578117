-- ===== src/Fc/Native.antt =====
-- An instance of `Fc`: the checked and the 128-bit operations as exact arithmetic.
use bitshares_toolkit.Common.{
  ℕ, ◌+◌, ◌-◌, ◌*◌, ◌/◌, ◌%◌, ◌^◌, ◌<◌, ◌≡◌, refl, Option, some, none, arith, ◌&&◌, if◌then◌else◌,
}
use bitshares_toolkit.Common.Int.{ℤ, pos, pos_part, neg_part, neg_ℤ, sub_ℕ, ◌+ℤ◌, ◌-ℤ◌, leb_ℤ}
use bitshares_toolkit.Fc.{Fc, IsInt64, int64_min, int64_max}

-- A value that overflows `int64_t` is an exception.
abbrev checked : ℤ → Option ℤ
checked a = if leb_ℤ int64_min a && leb_ℤ a int64_max then some a else none

abbrev times : ℤ → ℤ → ℤ
times a b =
    sub_ℕ (pos_part a * pos_part b + neg_part a * neg_part b)
      (pos_part a * neg_part b + neg_part a * pos_part b)

abbrev wrap128 : ℕ → ℕ
wrap128 n = n % 2 ^ 128

pub checked_fits : (a : ℤ) → IsInt64 a → checked a ≡ some a
checked_fits a h = ground arith

pub checked_exact : (a c : ℤ) → checked a ≡ some c → c ≡ a
checked_exact a c h = ground arith

pub times_fits : (a b : ℕ) → a * b < 2 ^ 63 → checked (times (pos a) (pos b)) ≡ some (pos (a * b))
times_fits a b h = ground arith

pub div_fits : (a b : ℕ) → 0 < b → a < 2 ^ 128 → a / b ≡ a / b
div_fits a b h k = refl

abbrev pub native_fc : Fc
native_fc = record {
  safe_add = λ a b. checked (a +ℤ b);
  safe_sub = λ a b. checked (a -ℤ b);
  safe_mul = λ a b. checked (times a b);
  safe_neg = λ a. checked (neg_ℤ a);
  safe_mul_fits = times_fits;
  safe_neg_fits = λ a. checked_fits (neg_ℤ a);
  safe_neg_exact = λ a. checked_exact (neg_ℤ a);
  safe_add_fits = λ a b. checked_fits (a +ℤ b);
  safe_add_exact = λ a b. checked_exact (a +ℤ b);
  safe_sub_fits = λ a b. checked_fits (a -ℤ b);
  safe_sub_exact = λ a b. checked_exact (a -ℤ b);
  to_uint128 = λ x. pos_part x;
  add128 = λ a b. wrap128 (a + b);
  sub128 = λ a b. a - b;
  mul128 = λ a b. wrap128 (a * b);
  div128 = λ a b. a / b;
  to_uint64 = λ n. n % 2 ^ 64;
  to_uint128_pos = λ n h. refl;
  add128_fits = λ a b h. omega arith;
  sub128_fits = λ a b h k. refl;
  mul128_fits = λ a b h. omega arith;
  div128_lem = div_fits;
  to_uint64_fits = λ n h. omega arith;
}
