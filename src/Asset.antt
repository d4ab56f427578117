-- ===== src/Asset.antt =====
-- libraries/chain/asset.cpp and include/bts/chain/asset.hpp: assets, prices and price feeds.
-- Amounts are the values of `share_type`, ids the instances of `asset_id_type`. The C `assert`s on
-- `double`s in the comparisons are absent from a release build and from the model.
pub mod Order
pub mod Exchange
pub mod CallPrice
pub mod Feed
mod Examples
use bitshares_toolkit.Common.{
  ℕ, ◌-◌, ◌≡◌, Bool, true, false, not, ◌&&◌, ◌||◌, Option, some, ltb, leb, ◌==◌, if◌then◌else◌,
  ◌>>=◌, ◌>>◌, fc_assert, fc_assert_if,
}
use bitshares_toolkit.Common.Int.{ℤ, pos, ◌-ℤ◌, ltb_ℤ, leb_ℤ, eqb_ℤ}
use bitshares_toolkit.Fc.{Fc}

pub record Asset : Type 0 where
  pub amount : ℤ
  pub asset_id : ℕ

pub record Price : Type 0 where
  pub base : Asset
  pub quote : Asset

-- BTS_MAX_SHARE_SUPPLY
abbrev pub max_share_supply : ℕ
max_share_supply = 1000000000000

unfoldable pub asset_eq : Asset → Asset → Bool
asset_eq a b = (a.asset_id == b.asset_id) && eqb_ℤ a.amount b.amount

unfoldable pub asset_lt : Asset → Asset → Bool
asset_lt a b = ltb a.asset_id b.asset_id || ((a.asset_id == b.asset_id) && ltb_ℤ a.amount b.amount)

unfoldable pub asset_le : Asset → Asset → Bool
asset_le a b = ltb a.asset_id b.asset_id || ((a.asset_id == b.asset_id) && leb_ℤ a.amount b.amount)

unfoldable pub asset_ge : Asset → Asset → Option Bool
asset_ge a b = do fc_assert (a.asset_id == b.asset_id); some (leb_ℤ b.amount a.amount)

unfoldable pub asset_gt : Asset → Asset → Option Bool
asset_gt a b = do fc_assert (a.asset_id == b.asset_id); some (ltb_ℤ b.amount a.amount)

-- `~p`
abbrev pub flip : Price → Price
flip p = record { base = p.quote; quote = p.base }

abbrev pub default_asset : Asset
default_asset = record { amount = pos 0; asset_id = 0 }

abbrev pub default_price : Price
default_price = record { base = default_asset; quote = default_asset }

-- `base / quote`
unfoldable pub make_price : Asset → Asset → Option Price
make_price base quote = do
  fc_assert (not (base.asset_id == quote.asset_id))
  some (record { base = base; quote = quote })

unfoldable pub price_max : ℕ → ℕ → Option Price
unfolding make_price
price_max base quote =
    make_price (record { amount = pos max_share_supply; asset_id = base })
      (record { amount = pos 1; asset_id = quote })

unfoldable pub price_min : ℕ → ℕ → Option Price
unfolding make_price
price_min base quote =
    make_price (record { amount = pos 1; asset_id = base })
      (record { amount = pos max_share_supply; asset_id = quote })

unfoldable pub price_validate : Price → Option (Unit {0})
price_validate p = do
  fc_assert (ltb_ℤ (pos 0) p.base.amount)
  fc_assert (ltb_ℤ (pos 0) p.quote.amount)
  fc_assert (not (p.base.asset_id == p.quote.asset_id))

module _ (fc : Fc) where
  unfoldable pub asset_add : Asset → Asset → Option Asset
  asset_add a b = do
    fc_assert (a.asset_id == b.asset_id)
    v ← fc.safe_add a.amount b.amount
    some (record { amount = v; asset_id = a.asset_id })

  unfoldable pub asset_sub : Asset → Asset → Option Asset
  asset_sub a b = do
    fc_assert (a.asset_id == b.asset_id)
    v ← fc.safe_sub a.amount b.amount
    some (record { amount = v; asset_id = a.asset_id })

  -- `fc::uint128(x.value) * y.value`
  abbrev pub product : ℤ → ℤ → ℕ
  product x y = fc.mul128 (fc.to_uint128 x) (fc.to_uint128 y)

  unfoldable pub price_lt : Price → Price → Bool
  price_lt a b =
      if ltb a.base.asset_id b.base.asset_id
      then true
      else if ltb b.base.asset_id a.base.asset_id
      then false
      else if ltb a.quote.asset_id b.quote.asset_id
      then true
      else if ltb b.quote.asset_id a.quote.asset_id
      then false
      else ltb (product b.quote.amount a.base.amount) (product a.quote.amount b.base.amount)

  unfoldable pub price_le : Price → Price → Bool
  price_le a b =
      if ltb a.base.asset_id b.base.asset_id
      then true
      else if ltb b.base.asset_id a.base.asset_id
      then false
      else if ltb a.quote.asset_id b.quote.asset_id
      then true
      else if ltb b.quote.asset_id a.quote.asset_id
      then false
      else leb (product b.quote.amount a.base.amount) (product a.quote.amount b.base.amount)

  unfoldable pub price_eq : Price → Price → Bool
  price_eq a b =
      if ltb a.base.asset_id b.base.asset_id
      then true
      else if ltb b.base.asset_id a.base.asset_id
      then false
      else if ltb a.quote.asset_id b.quote.asset_id
      then true
      else if ltb b.quote.asset_id a.quote.asset_id
      then false
      else product a.quote.amount b.base.amount == product b.quote.amount a.base.amount

  unfoldable pub price_ne : Price → Price → Bool
  unfolding price_eq
  price_ne a b = not (price_eq a b)

  unfoldable pub price_ge : Price → Price → Bool
  price_ge a b = not (price_lt a b)

  unfoldable pub price_gt : Price → Price → Bool
  price_gt a b = not (price_le a b)

  unfoldable pub is_null : Price → Bool
  is_null p = price_eq p default_price

  -- One side of `asset * price`: `amount * num / den` in the asset `id`.
  unfoldable pub scale : ℤ → ℤ → ℤ → ℕ → Option Asset
  scale amount num den id = do
    fc_assert (ltb_ℤ (pos 0) den)
    let result = fc.div128 (product amount num) (fc.to_uint128 den)
    fc_assert (leb result max_share_supply)
    some (record { amount = pos (fc.to_uint64 result); asset_id = id })

  -- `a * b`
  unfoldable pub exchange : Asset → Price → Option Asset
  exchange a b =
      if a.asset_id == b.base.asset_id
      then scale a.amount b.quote.amount b.base.amount b.quote.asset_id
      else if a.asset_id == b.quote.asset_id
      then scale a.amount b.base.amount b.quote.amount b.base.asset_id
      else Option.none

  -- `collateral_ratio` is a `uint16_t`, which the difference promotes to `int`.
  unfoldable pub call_price : Asset → Asset → ℕ → Option Price
  unfolding make_price
  call_price debt collateral collateral_ratio = do
    let tmp =
        fc.mul128 (fc.to_uint128 collateral.amount)
          (fc.to_uint128 (pos collateral_ratio -ℤ pos 1000))
    let tmp = fc.div128 tmp 1000
    fc_assert (leb tmp max_share_supply)
    make_price (record { amount = pos (fc.to_uint64 tmp); asset_id = collateral.asset_id }) debt

pub record PriceFeed : Type 0 where
  pub call_limit : Price
  pub short_limit : Price
  pub settlement_price : Price
  pub max_margin_period_sec : ℕ
  pub required_initial_collateral : ℕ
  pub required_maintenance_collateral : ℕ

-- `==` of two Booleans
abbrev pub same : Bool → Bool → Bool
same true b = b
same false b = not b

-- `if( !p.is_null() ) p.validate();`
unfoldable pub validate_unless_null : Fc → Price → Option (Unit {0})
validate_unless_null fc p = if is_null fc p then some tt else price_validate p

unfoldable pub feed_validate : Fc → PriceFeed → Option (Unit {0})
feed_validate fc f = do
  validate_unless_null fc f.call_limit
  validate_unless_null fc f.short_limit
  validate_unless_null fc f.settlement_price
  fc_assert (same (is_null fc f.call_limit) (is_null fc f.short_limit))
  fc_assert (f.call_limit.base.asset_id == f.short_limit.quote.asset_id)
  fc_assert (f.call_limit.quote.asset_id == f.short_limit.base.asset_id)
  fc_assert (ltb 0 f.max_margin_period_sec)
  fc_assert (ltb f.required_maintenance_collateral f.required_initial_collateral)
  fc_assert (leb 1000 f.required_maintenance_collateral)
  fc_assert (is_null fc f.call_limit || price_lt fc f.call_limit (flip f.short_limit))
