-- ===== src/Asset/Examples.antt =====
-- Runs of asset.cpp on concrete assets, and the theorems at these inputs.
use bitshares_toolkit.Common.{ℕ, ◌≡◌, refl, some, none, arith}
use bitshares_toolkit.Common.Int.{pos, ◌≤ℤ◌}
use bitshares_toolkit.Fc.Native.{native_fc}
use bitshares_toolkit.Asset.{
  Asset, Price, PriceFeed, max_share_supply, exchange, scale, default_price,
}
use bitshares_toolkit.Asset.Exchange.{Converts, exchange_rounds_down}

abbrev core : ℕ → Asset
core n = record { amount = pos n; asset_id = 0 }

abbrev usd : ℕ → Asset
usd n = record { amount = pos n; asset_id = 1 }

abbrev rate : ℕ → ℕ → Price
rate n m = record { base = core n; quote = usd m }

abbrev reversed : ℕ → ℕ → Price
reversed n m = record { base = usd n; quote = core m }

exchange-core : exchange native_fc (core 130) (rate 1000 20) ≡ some (usd 2)
unfolding exchange scale
exchange-core = refl

exchange-too_much : exchange native_fc (core 2000000000000) (rate 1 1) ≡ none
unfolding exchange scale
exchange-too_much = refl

abbrev core_core : Price
core_core = record { base = core 7; quote = core 9 }

exchange_rounds_down_example :
    Converts (core 130) (rate 1000 20) (usd 2) × (pos 0 ≤ℤ pos 2) × (pos 2 ≤ℤ pos max_share_supply)
unfolding exchange scale
exchange_rounds_down_example =
    exchange_rounds_down native_fc (core 130) (usd 2) (rate 1000 20) (omega arith) (omega arith)
      refl

abbrev feed : PriceFeed
feed = record {
  call_limit = rate 1000 20;
  short_limit = reversed 20 2000;
  settlement_price = default_price;
  max_margin_period_sec = 86400;
  required_initial_collateral = 2000;
  required_maintenance_collateral = 1750;
}
