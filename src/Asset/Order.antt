-- ===== src/Asset/Order.antt =====
-- The comparisons of prices in asset.cpp.
use native.Mathlib.Nat.{mul-le-mul, mul-lt-mul_of_pos_left, lt_of_mul-lt-mul_left}
use bitshares_toolkit.Common.{
  ℕ, ◌-◌, ◌*◌, ◌^◌, ◌≤◌, ◌<◌, ◌≡◌, ◌↔◌, ◌⊎◌, ◌&&◌, true, false, not, arith, ◌==◌,
}
use bitshares_toolkit.Common.Int.{ℤ, pos, negsuc, pos_part, neg_part, ◌≤ℤ◌}
use bitshares_toolkit.Fc.{Fc, int64_max}
use bitshares_toolkit.Asset.{Price, product, price_lt, price_le, price_eq, is_null}

-- A `share_type` that is not negative.
abbrev pub IsAmount : ℤ → Type 0
IsAmount x = (pos 0 ≤ℤ x) × (x ≤ℤ int64_max)

-- A `share_type` that is positive.
abbrev pub IsPositive : ℤ → Type 0
IsPositive x = (pos 1 ≤ℤ x) × (x ≤ℤ int64_max)

pub product_bound : (a b : ℕ) → a < 2 ^ 63 → b < 2 ^ 63 → a * b < 2 ^ 126
product_bound a b h k =
    let m : a * b ≤ (2 ^ 63 - 1) * (2 ^ 63 - 1) =
      mul-le-mul {n₁ = a} {m₁ = b} {n₂ = 2 ^ 63 - 1} {m₂ = 2 ^ 63 - 1} (omega arith)
        (omega arith) in
    omega arith

pub IsAmount-bound : (x : ℤ) → IsAmount x → (pos_part x < 2 ^ 63) × (neg_part x ≡ 0)
IsAmount-bound (pos n) h = omega arith
IsAmount-bound (negsuc n) h = absurd (omega arith)

pub IsPositive-IsAmount : (x : ℤ) → IsPositive x → IsAmount x
IsPositive-IsAmount x h = omega arith

-- Transitivity of the comparison of fractions p/q < r/s < t/u by their cross products.
cross_trans : (p q r s t u : ℕ) → 0 < q → 0 < u → s * p < q * r → u * r < s * t → u * p < q * t
cross_trans p q r s t u hq hu h k =
    let left : u * (s * p) < u * (q * r) = mul-lt-mul_of_pos_left h hu in
    let right : q * (u * r) < q * (s * t) = mul-lt-mul_of_pos_left k hq in
    lt_of_mul-lt-mul_left s (omega arith)

module _ (fc : Fc) where
  pub to_uint128_lem : (x : ℤ) → IsAmount x → fc.to_uint128 x ≡ pos_part x
  to_uint128_lem (pos n) h = fc.to_uint128_pos n (omega arith)
  to_uint128_lem (negsuc n) h = absurd (omega arith)

  pub product_lem : (x y : ℤ) → IsAmount x → IsAmount y → product fc x y ≡ pos_part x * pos_part y
  product_lem x y h k = cc (
    to_uint128_lem x h,
    to_uint128_lem y k,
    fc.mul128_fits (pos_part x) (pos_part y) (
        omega (
          arith,
          product_bound (pos_part x) (pos_part y) (IsAmount-bound x h).0 (IsAmount-bound y k).0,
        )),
  )

  -- For any two prices, `a < b` holds exactly when `b <= a` does not, so `>=` is the converse of
  -- `<=` and `>` of `<`.
  pub price_lt-eq-not-price_le : (a b : Price) → price_lt fc a b ≡ not (price_le fc b a)
  unfolding price_lt price_le
  price_lt-eq-not-price_le a b = ground arith

-- Both amounts of a price are positive.
pub record IsMarketPrice (p : Price) : Type 0 where
  pub base_positive : IsPositive p.base.amount
  pub quote_positive : IsPositive p.quote.amount

-- The order of prices of an ordered pair of markets, as fractions base / quote.
abbrev pub Cross : Price → Price → Type 0
Cross a b =
    pos_part b.quote.amount * pos_part a.base.amount
    < pos_part a.quote.amount * pos_part b.base.amount

abbrev pub Below : Price → Price → Type 0
Below a b =
    (a.base.asset_id < b.base.asset_id)
    ⊎ ((a.base.asset_id ≡ b.base.asset_id)
        × ((a.quote.asset_id < b.quote.asset_id)
            ⊎ ((a.quote.asset_id ≡ b.quote.asset_id) × Cross a b)))

Below-trans :
    (a b c : Price) → IsMarketPrice a → IsMarketPrice c → Below a b → Below b c → Below a c
Below-trans a b c ha hc h k = ground (
  arith,
  cross_trans (pos_part a.base.amount) (pos_part a.quote.amount) (pos_part b.base.amount)
      (pos_part b.quote.amount) (pos_part c.base.amount) (pos_part c.quote.amount),
)

module _ (fc : Fc) where
  -- Among prices with positive amounts, `<` is the order by market and then by the exact fraction
  -- base / quote.
  pub price_lt_iff :
      (a b : Price) → IsMarketPrice a → IsMarketPrice b → (price_lt fc a b ≡ true) ↔ Below a b
  unfolding price_lt
  price_lt_iff a b ha hb = ground (
    arith,
    product_lem fc b.quote.amount a.base.amount,
    product_lem fc a.quote.amount b.base.amount,
  )

  -- `<` is transitive among prices with positive amounts.
  pub price_lt_trans :
      (a b c : Price)
      → IsMarketPrice a
      → IsMarketPrice b
      → IsMarketPrice c
      → price_lt fc a b ≡ true
      → price_lt fc b c ≡ true
      → price_lt fc a c ≡ true
  price_lt_trans a b c ha hb hc h k =
      (price_lt_iff a c ha hc).1
        (Below-trans a b c ha hc ((price_lt_iff a b ha hb).0 h) ((price_lt_iff b c hb hc).0 k))

  -- `==` is not symmetric: it holds of any two prices of which the first has the smaller base asset
  -- id, and not of the same two the other way round.
  pub price_eq_asymmetric :
      (a b : Price)
      → a.base.asset_id < b.base.asset_id
      → (price_eq fc a b ≡ true) × (price_eq fc b a ≡ false)
  unfolding price_eq
  price_eq_asymmetric a b h = ground arith

  -- With amounts that are not negative, `is_null` holds exactly of the prices between the core asset
  -- and itself, whatever the amounts are.
  pub is_null_lem :
      (p : Price)
      → IsAmount p.base.amount
      → IsAmount p.quote.amount
      → is_null fc p ≡ (p.base.asset_id == 0) && (p.quote.asset_id == 0)
  unfolding is_null price_eq
  is_null_lem p hb hq = ground (
    arith,
    product_lem fc p.quote.amount (pos 0) hq (omega arith),
    product_lem fc (pos 0) p.base.amount (omega arith) hb,
  )
