-- ===== src/Asset/Exchange.antt =====
-- `asset * price` and `price::call_price` of asset.cpp.
use native.Mathlib.Nat.{div-mul-le_self, lt-div-mul-add, le_trans, le_of_mul-le-mul_right}
use bitshares_toolkit.Common.{
  ℕ, ◌+◌, ◌*◌, ◌/◌, ◌≤◌, ◌<◌, ◌≡◌, sym, ◌∙◌, ◌≢◌, ◌⊎◌, Option, some, none, arith, leb,
  if◌then◌else◌,
}
use bitshares_toolkit.Common.Int.{ℤ, pos, pos_part, ◌≤ℤ◌}
use bitshares_toolkit.Fc.{Fc}
use bitshares_toolkit.Asset.{Asset, Price, product, scale, exchange, max_share_supply}
use bitshares_toolkit.Asset.Order.{
  IsAmount, IsAmount-bound, IsPositive, IsPositive-IsAmount, IsMarketPrice, product_bound,
  product_lem, to_uint128_lem,
}

-- `amount * num / den` rounded down, where it does not exceed the supply.
abbrev pub scaled : ℕ → ℕ → ℕ → ℕ → Option Asset
scaled amount num den id =
    let result = amount * num / den in
    if leb result max_share_supply
    then some (record { amount = pos result; asset_id = id })
    else none

module _ (fc : Fc) where
  quotient_lem :
      (amount num den : ℤ)
      → IsAmount amount
      → IsAmount num
      → IsPositive den
      → fc.div128 (product fc amount num) (fc.to_uint128 den)
        ≡ pos_part amount * pos_part num / pos_part den
  quotient_lem amount num den ha hn hd = cc (
    product_lem fc amount num ha hn,
    to_uint128_lem fc den (omega arith),
    fc.div128_lem (pos_part amount * pos_part num) (pos_part den) (omega arith) (
        omega (
          arith,
          product_bound (pos_part amount) (pos_part num) (IsAmount-bound amount ha).0
              (IsAmount-bound num hn).0,
        )),
  )

  pub scale-eq-scaled :
      (amount num den : ℤ) (id : ℕ)
      → IsAmount amount
      → IsAmount num
      → IsPositive den
      → scale fc amount num den id ≡ scaled (pos_part amount) (pos_part num) (pos_part den) id
  unfolding scale
  scale-eq-scaled amount num den id ha hn hd = ground (
    arith,
    quotient_lem amount num den ha hn hd,
    fc.to_uint64_fits (pos_part amount * pos_part num / pos_part den),
  )

-- `b` is what `a` buys at the rate `num / den`, rounded down, in the asset `id`.
abbrev pub Buys : Asset → Asset → ℤ → ℤ → ℕ → Type 0
Buys a b num den id =
    (b.asset_id ≡ id)
    × (pos_part b.amount * pos_part den ≤ pos_part a.amount * pos_part num)
    × (pos_part a.amount * pos_part num < pos_part b.amount * pos_part den + pos_part den)

-- `a` is in one of the assets of `p`, and `b` is what it buys in the other.
abbrev pub Converts : Asset → Price → Asset → Type 0
Converts a p b =
    ((a.asset_id ≡ p.base.asset_id) × Buys a b p.quote.amount p.base.amount p.quote.asset_id)
    ⊎ ((a.asset_id ≡ p.quote.asset_id) × Buys a b p.base.amount p.quote.amount p.base.asset_id)

abbrev WithinSupply : Asset → Type 0
WithinSupply b = (pos 0 ≤ℤ b.amount) × (b.amount ≤ℤ pos max_share_supply)

scaled-Buys :
    (a b : Asset) (num den : ℤ) (id : ℕ)
    → 0 < pos_part den
    → scaled (pos_part a.amount) (pos_part num) (pos_part den) id ≡ some b
    → Buys a b num den id × WithinSupply b
scaled-Buys a b num den id h e = ground (
  arith,
  div-mul-le_self (pos_part a.amount * pos_part num) (pos_part den),
  lt-div-mul-add {a = pos_part a.amount * pos_part num} {b = pos_part den} h,
)

back_le :
    (a b c : Asset) (num den : ℤ)
    → IsPositive num
    → pos_part b.amount * pos_part den ≤ pos_part a.amount * pos_part num
    → pos_part c.amount * pos_part num ≤ pos_part b.amount * pos_part den
    → pos_part c.amount ≤ pos_part a.amount
back_le a b c num den h p q =
    le_of_mul-le-mul_right {m = pos_part c.amount} {n = pos_part a.amount} {k = pos_part num}
      (le_trans q p) (omega arith)

module _ (fc : Fc) where
  scale-Buys :
      (a b : Asset) (num den : ℤ) (id : ℕ)
      → IsAmount a.amount
      → IsPositive num
      → IsPositive den
      → scale fc a.amount num den id ≡ some b
      → Buys a b num den id × WithinSupply b
  scale-Buys a b num den id ha hn hd e =
      scaled-Buys a b num den id (omega arith)
        (sym (scale-eq-scaled fc a.amount num den id ha (IsPositive-IsAmount num hn) hd) ∙ e)

  -- A successful `a * p`, with `a` not negative and both amounts of `p` positive, sells `a` at the
  -- rate of the price in the direction that the asset of `a` selects, rounds down by less than one
  -- unit, and gives an amount between 0 and the maximum share supply.
  pub exchange_rounds_down :
      (a b : Asset) (p : Price)
      → IsAmount a.amount
      → IsMarketPrice p
      → exchange fc a p ≡ some b
      → Converts a p b × (pos 0 ≤ℤ b.amount) × (b.amount ≤ℤ pos max_share_supply)
  unfolding exchange
  exchange_rounds_down a b p ha hp e = ground (
    arith,
    scale-Buys a b p.quote.amount p.base.amount p.quote.asset_id ha hp.quote_positive
        hp.base_positive,
    scale-Buys a b p.base.amount p.quote.amount p.base.asset_id ha hp.base_positive
        hp.quote_positive,
  )

  -- Converting there and back at a price between two different assets never yields more than was
  -- put in, and ends in the asset that it began with.
  pub exchange_round_trip :
      (a b c : Asset) (p : Price)
      → IsAmount a.amount
      → IsMarketPrice p
      → p.base.asset_id ≢ p.quote.asset_id
      → exchange fc a p ≡ some b
      → exchange fc b p ≡ some c
      → (c.asset_id ≡ a.asset_id) × (c.amount ≤ℤ a.amount)
  exchange_round_trip a b c p ha hp ne e e' =
      let (there, low, high) = exchange_rounds_down a b p ha hp e in
      let (back, low', high') = exchange_rounds_down b c p (omega arith) hp e' in
      ground (
        arith,
        back_le a b c p.quote.amount p.base.amount hp.quote_positive,
        back_le a b c p.base.amount p.quote.amount hp.base_positive,
        IsAmount-bound a.amount ha,
        IsAmount-bound c.amount (omega arith),
      )
