-- ===== src/Fc/Time.antt =====
-- What the models use of the times of the fc library. A `time_point_sec` is its number of seconds, a
-- `uint32_t`.
use bitshares_toolkit.Common.{ℕ, ◌+◌, ◌^◌, ◌<◌, ◌≡◌, refl}
use bitshares_toolkit.Common.Int.{ℤ, pos, ◌-ℤ◌}

pub record FcTime : Type 0 where
  -- `a + n` of a time and a number of seconds; nothing is assumed where it does not fit
  pub plus : ℕ → ℕ → ℕ
  pub plus_fits : (a n : ℕ) → a + n < 2 ^ 32 → plus a n ≡ a + n
  -- `(a - b).to_seconds()`
  pub seconds_between : ℕ → ℕ → ℤ
  pub seconds_between_lem :
      (a b : ℕ) → a < 2 ^ 32 → b < 2 ^ 32 → seconds_between a b ≡ pos a -ℤ pos b

pub plain_fits : (a n : ℕ) → a + n < 2 ^ 32 → a + n ≡ a + n
plain_fits a n h = refl

pub plain_between : (a b : ℕ) → a < 2 ^ 32 → b < 2 ^ 32 → pos a -ℤ pos b ≡ pos a -ℤ pos b
plain_between a b h k = refl

abbrev pub native_time : FcTime
native_time = record {
  plus = λ a n. a + n;
  plus_fits = plain_fits;
  seconds_between = λ a b. pos a -ℤ pos b;
  seconds_between_lem = plain_between;
}
