-- ===== src/Asset/Feed.antt =====
-- `price_feed::validate` of asset.cpp.
use bitshares_toolkit.Common.{◌≤◌, ◌<◌, ◌≡◌, true, false, some, arith}
use bitshares_toolkit.Common.Int.{◌≤ℤ◌}
use bitshares_toolkit.Fc.{Fc, int64_max}
use bitshares_toolkit.Asset.{
  Price, PriceFeed, flip, price_lt, is_null, price_validate, validate_unless_null, feed_validate,
}
use bitshares_toolkit.Asset.Order.{IsMarketPrice, Below, Cross, price_lt_iff}

-- The amounts of a price are values of `int64_t`.
pub record Fits (p : Price) : Type 0 where
  pub base_fits : p.base.amount ≤ℤ int64_max
  pub quote_fits : p.quote.amount ≤ℤ int64_max

price_validate-IsMarketPrice : (p : Price) → Fits p → price_validate p ≡ some tt → IsMarketPrice p
unfolding price_validate
price_validate-IsMarketPrice p h e = ground arith

-- What validation guarantees of a feed that sets its limits.
pub record IsCoherent (f : PriceFeed) : Type 0 where
  pub call_positive : IsMarketPrice f.call_limit
  pub short_positive : IsMarketPrice f.short_limit
  pub same_collateral : f.call_limit.base.asset_id ≡ f.short_limit.quote.asset_id
  pub same_debt : f.call_limit.quote.asset_id ≡ f.short_limit.base.asset_id
  pub call_below_short : Cross f.call_limit (flip f.short_limit)
  pub maintenance_low : 1000 ≤ f.required_maintenance_collateral
  pub maintenance_below_initial : f.required_maintenance_collateral < f.required_initial_collateral

Below-Cross :
    (a b : Price)
    → a.base.asset_id ≡ b.base.asset_id
    → a.quote.asset_id ≡ b.quote.asset_id
    → Below a b
    → Cross a b
Below-Cross a b h k c = ground arith

module _ (fc : Fc) where
  validated :
      (f : PriceFeed)
      → feed_validate fc f ≡ some tt
      → is_null fc f.call_limit ≡ false
      → (price_validate f.call_limit ≡ some tt)
        × (price_validate f.short_limit ≡ some tt)
        × (f.call_limit.base.asset_id ≡ f.short_limit.quote.asset_id)
        × (f.call_limit.quote.asset_id ≡ f.short_limit.base.asset_id)
        × (price_lt fc f.call_limit (flip f.short_limit) ≡ true)
        × (1000 ≤ f.required_maintenance_collateral)
        × (f.required_maintenance_collateral < f.required_initial_collateral)
  unfolding feed_validate validate_unless_null
  validated f h n = ground arith

  -- A feed that passes validation with a call limit set has positive limits over the same two
  -- assets, in opposite directions; its call limit lies strictly below its inverted short limit as
  -- an exact fraction; and 1000 is at most the maintenance ratio, which is below the initial one.
  pub feed_validate-IsCoherent :
      (f : PriceFeed)
      → Fits f.call_limit
      → Fits f.short_limit
      → feed_validate fc f ≡ some tt
      → is_null fc f.call_limit ≡ false
      → IsCoherent f
  feed_validate-IsCoherent f hc hs e n =
      let (call, short, bases, quotes, less, low, below) = validated f e n in
      let call' = price_validate-IsMarketPrice f.call_limit hc call in
      let short' = price_validate-IsMarketPrice f.short_limit hs short in
      let flipped : IsMarketPrice (flip f.short_limit) = record {
        base_positive = short'.quote_positive;
        quote_positive = short'.base_positive;
      } in
      record {
        call_positive = call';
        short_positive = short';
        same_collateral = bases;
        same_debt = quotes;
        call_below_short =
            Below-Cross f.call_limit (flip f.short_limit) bases quotes
              ((price_lt_iff fc f.call_limit (flip f.short_limit) call' flipped).0 less);
        maintenance_low = low;
        maintenance_below_initial = below;
      }
