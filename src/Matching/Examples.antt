-- ===== src/Matching/Examples.antt =====
-- Tests of the matching and the conditions of its theorems at concrete inputs: 100 of the asset 1 for 50 of
-- the core asset against 30 of the core asset for 60 of the asset 1, with a market fee of 5 %.
use bitshares_toolkit.Common.{
  ℕ, ◌+◌, ◌*◌, ◌==◌, not, ◌≡◌, ◌≢◌, refl, subst, some, [], ◌∷◌, if◌then◌else◌, eq_of_some, arith,
}
use bitshares_toolkit.Common.Int.{pos, ◌+ℤ◌, ◌-ℤ◌}
use bitshares_toolkit.Common.Maps.{IsMap, contains}
use bitshares_toolkit.Fc.Native.{native_fc}
use bitshares_toolkit.Asset.{
  Asset, price_validate, asset_eq, asset_le, asset_sub, asset_ge, scale, exchange,
}
use bitshares_toolkit.Operations.Options.{AssetOptions, options_validate}
use bitshares_toolkit.Transfers.{adjust_balance}
use bitshares_toolkit.Matching.{
  LimitOrder, Market, put, bit, calculate_market_fee, pay_market_fees, release_core, pay_order,
  sweep_order, reduce_order, settle_order, close_order, fill_order, trade, match_orders,
}
use bitshares_toolkit.Matching.Payments.{HasValidOptions}
use bitshares_toolkit.Matching.Holdings.{holdings}
use bitshares_toolkit.Matching.Conservation.{match_orders_conserves}
use bitshares_toolkit.Matching.Counts.{Counts}
use bitshares_toolkit.Matching.Results.{match_orders_result}

abbrev pub of_core : ℕ → Asset
of_core n = record { amount = pos n; asset_id = 0 }

abbrev pub of_usd : ℕ → Asset
of_usd n = record { amount = pos n; asset_id = 1 }

abbrev pub options : AssetOptions
options = record {
  max_supply = pos 1000000;
  market_fee_percent = 500;
  max_market_fee = pos 1000;
  min_market_fee = pos 1;
  issuer_permissions = 1;
  flags = 1;
  core_exchange_rate = record { base = of_core 1; quote = of_usd 2 };
  whitelist_authorities = [];
  blacklist_authorities = [];
  whitelist_markets = [];
  blacklist_markets = [];
}

options_valid : options_validate options ≡ some tt
unfolding options_validate price_validate
options_valid = refl

abbrev pub usd : LimitOrder
usd = record {
  expiration = 90;
  seller = 3;
  for_sale = pos 100;
  sell_price = record { base = of_usd 100; quote = of_core 50 };
}

abbrev pub core : LimitOrder
core = record {
  expiration = 80;
  seller = 4;
  for_sale = pos 30;
  sell_price = record { base = of_core 30; quote = of_usd 60 };
}

abbrev pub market : Market
market = record {
  orders = (7, usd) ∷ (8, core) ∷ [];
  balances = record { owner = 4; asset_type = 1; balance = pos 10 } ∷ [];
  core_in_orders = λ a. if a == 4 then pos 30 else pos 0;
  accumulated_fees = λ x. pos 0;
  applied = [];
  assets = λ i. some options;
}

pub market-HasValidOptions : HasValidOptions market
market-HasValidOptions i o h =
    subst (λ p. options_validate p ≡ some tt) (eq_of_some h) options_valid

abbrev bits : ℕ
bits = 2

abbrev after : Market
after = record {
  orders = (7, record usd { for_sale = pos 40 }) ∷ [];
  balances =
      record { owner = 3; asset_type = 0; balance = pos 29 }
      ∷ record { owner = 4; asset_type = 1; balance = pos 67 }
      ∷ [];
  core_in_orders = put market.core_in_orders 4 (pos 0);
  accumulated_fees = put (put market.accumulated_fees 0 (pos 1)) 1 (pos 3);
  applied =
      record {
        order_id = 8;
        account_id = 4;
        pays = of_core 30;
        receives = of_usd 60;
        fee = of_usd 3;
      }
      ∷ record {
        order_id = 7;
        account_id = 3;
        pays = of_usd 60;
        receives = of_core 30;
        fee = of_core 1;
      }
      ∷ [];
  assets = market.assets;
}

matched : match_orders native_fc 7 8 core.sell_price market ≡ some (after, bits)
unfolding match_orders fill_order trade settle_order pay_market_fees calculate_market_fee pay_order
    release_core close_order reduce_order sweep_order asset_eq exchange scale asset_le asset_sub
    adjust_balance ◌+ℤ◌ ◌-ℤ◌ asset_ge
matched = refl

counted : Counts 4 market
unfolding ◌+ℤ◌
counted = refl

distinct : IsMap market.orders
distinct = (refl, (refl, tt))

abbrev ids : ℕ × ℕ
ids = (7, 8)

not_same : ids.0 ≢ ids.1
not_same = omega arith

match_orders_conserves_example : holdings 1 after ≡ holdings 1 market
match_orders_conserves_example =
    match_orders_conserves native_fc 1 7 8 usd core core.sell_price market (after, bits)
      market-HasValidOptions not_same refl refl refl refl matched

match_orders_result_example :
    (bits ≡ bit (not (contains 7 after.orders)) + 2 * bit (not (contains 8 after.orders)))
    × (bits ≢ 0)
match_orders_result_example =
    match_orders_result native_fc 7 8 usd core core.sell_price market (after, bits)
      market-HasValidOptions distinct not_same refl refl refl refl matched
