-- ===== src/LimitOrders/Examples.antt =====
-- Tests of the evaluators and the conditions of their theorems at concrete inputs: an order that sells 100 of the
-- asset 1 for 50 of the core asset, against an old one of 30 of the core asset for 60 of the asset 1.
use bitshares_toolkit.Common.{
  ℕ, ◌==◌, ◌≡◌, true, false, refl, subst, sym, some, none, [], ◌∷◌, if◌then◌else◌, eq_of_some,
}
use bitshares_toolkit.Common.Int.{pos, ◌+ℤ◌, ◌-ℤ◌}
use bitshares_toolkit.Common.Maps.{find}
use bitshares_toolkit.Fc.Native.{native_fc}
use bitshares_toolkit.Asset.{
  Asset, Price, price_validate, make_price, price_max, price_gt, price_le, asset_eq, asset_le,
  asset_sub, asset_ge, scale, exchange,
}
use bitshares_toolkit.Operations.Options.{has_any, market_issued, AssetOptions, options_validate}
use bitshares_toolkit.Operations.Market.{LimitOrderCreateOperation, LimitOrderCancelOperation}
use bitshares_toolkit.Transfers.{get_balance, is_authorized_asset, adjust_balance}
use bitshares_toolkit.Matching.{
  LimitOrder, Market, put, calculate_market_fee, pay_market_fees, release_core, pay_order,
  cancel_order, sweep_order, reduce_order, settle_order, close_order, fill_order, trade,
  match_orders,
}
use bitshares_toolkit.Matching.Holdings.{holdings, add_zero}
use bitshares_toolkit.Matching.Payments.{HasValidOptions}
use bitshares_toolkit.LimitOrders.{
  limit_order_create_evaluate, by_price, range, match_range, lock_core, place_order, candidates,
  match_new, limit_order_create_apply, limit_order_cancel_evaluate, limit_order_cancel_apply,
}
use bitshares_toolkit.LimitOrders.Loops.{Uncrossed}
use bitshares_toolkit.LimitOrders.Creation.{limit_order_create_uncrosses}
use bitshares_toolkit.LimitOrders.Steps.{IsMarket}
use bitshares_toolkit.LimitOrders.Reachable.{Reach, started, placed, withdrawn, Reach-IsMarket}

abbrev of_core : ℕ → Asset
of_core n = record { amount = pos n; asset_id = 0 }

abbrev of_usd : ℕ → Asset
of_usd n = record { amount = pos n; asset_id = 1 }

abbrev options : AssetOptions
options = record {
  max_supply = pos 1000000;
  market_fee_percent = 500;
  max_market_fee = pos 1000;
  min_market_fee = pos 1;
  issuer_permissions = 1;
  flags = 1;
  core_exchange_rate = record { base = of_core 1; quote = of_usd 2 };
  whitelist_authorities = [];
  blacklist_authorities = [];
  whitelist_markets = [];
  blacklist_markets = [];
}

options_valid : options_validate options ≡ some tt
unfolding options_validate price_validate
options_valid = refl

abbrev old : LimitOrder
old = record {
  expiration = 80;
  seller = 4;
  for_sale = pos 30;
  sell_price = record { base = of_core 30; quote = of_usd 60 };
}

abbrev market : Market
market = record {
  orders = (8, old) ∷ [];
  balances =
      record { owner = 3; asset_type = 1; balance = pos 120 }
      ∷ record { owner = 4; asset_type = 1; balance = pos 10 }
      ∷ [];
  core_in_orders = λ a. if a == 4 then pos 30 else pos 0;
  accumulated_fees = λ x. pos 0;
  applied = [];
  assets = λ i. some options;
}

abbrev sells : LimitOrderCreateOperation
sells = record {
  fee = of_core 1;
  seller = 3;
  amount_to_sell = of_usd 100;
  min_to_receive = of_core 50;
  expiration = 90;
  fill_or_kill = false;
}

abbrev rest : LimitOrder
rest = record {
  expiration = 90;
  seller = 3;
  for_sale = pos 40;
  sell_price = record { base = of_usd 100; quote = of_core 50 };
}

abbrev after : Market
after = record {
  orders = (9, rest) ∷ [];
  balances =
      record { owner = 3; asset_type = 0; balance = pos 29 }
      ∷ record { owner = 3; asset_type = 1; balance = pos 20 }
      ∷ record { owner = 4; asset_type = 1; balance = pos 67 }
      ∷ [];
  core_in_orders = put market.core_in_orders 4 (pos 0);
  accumulated_fees = put (put market.accumulated_fees 0 (pos 1)) 1 (pos 3);
  applied =
      record {
        order_id = 8;
        account_id = 4;
        pays = of_core 30;
        receives = of_usd 60;
        fee = of_usd 3;
      }
      ∷ record {
        order_id = 9;
        account_id = 3;
        pays = of_usd 60;
        receives = of_core 30;
        fee = of_core 1;
      }
      ∷ [];
  assets = market.assets;
}

abbrev highest : Price
highest = record { base = of_core 1000000000000; quote = of_usd 1 }

created : limit_order_create_apply native_fc 9 sells market ≡ some after
unfolding limit_order_create_apply make_price place_order lock_core match_new candidates price_max
    by_price range price_gt price_le match_range match_orders fill_order trade settle_order
    pay_market_fees calculate_market_fee pay_order release_core close_order reduce_order sweep_order
    asset_eq exchange scale asset_le asset_sub adjust_balance ◌+ℤ◌ ◌-ℤ◌ asset_ge
created = refl

highest_is : price_max 0 1 ≡ some highest
unfolding price_max make_price
highest_is = refl

market-HasValidOptions : HasValidOptions market
market-HasValidOptions i o h =
    subst (λ p. options_validate p ≡ some tt) (eq_of_some h) options_valid

market-IsMarket : IsMarket market
market-IsMarket = (
  market-HasValidOptions,
  λ i o h. subst (λ p. has_any p.flags market_issued ≡ false) (eq_of_some h) refl,
  (refl, tt),
  λ a. sym (add_zero (if a == 4 then pos 30 else pos 0)),
)

limit_order_create_uncrosses_example :
    (false ≡ true → find 9 after.orders ≡ none)
    × Uncrossed native_fc 9 highest (record { base = of_core 50; quote = of_usd 100 }) after
limit_order_create_uncrosses_example =
    limit_order_create_uncrosses native_fc 9 sells highest market after market-IsMarket refl
      highest_is created

abbrev withdraws : LimitOrderCancelOperation
withdraws = record { order = 9; fee_paying_account = 3; fee = of_core 1 }

abbrev at_last : Market
at_last = record after {
  orders = [];
  balances =
      record { owner = 3; asset_type = 0; balance = pos 29 }
      ∷ record { owner = 3; asset_type = 1; balance = pos 60 }
      ∷ record { owner = 4; asset_type = 1; balance = pos 67 }
      ∷ [];
}

cancelled : limit_order_cancel_apply native_fc withdraws after ≡ some (at_last, of_usd 40)
unfolding limit_order_cancel_apply cancel_order release_core adjust_balance asset_ge ◌+ℤ◌
cancelled = refl

both_steps : Reach native_fc market at_last
both_steps =
    withdrawn after at_last withdraws (of_usd 40) (placed market after 9 sells started refl created)
      cancelled

Reach-IsMarket_example : IsMarket at_last × ((x : ℕ) → holdings x at_last ≡ holdings x market)
Reach-IsMarket_example = Reach-IsMarket native_fc market at_last market-IsMarket both_steps

-- The seller may place the order: the checks before it hold.
seller_may :
    limit_order_create_evaluate 70
      (record { id = 3; whitelisting_accounts = []; blacklisting_accounts = [] })
      (record {
        id = 1;
        issuer = 7;
        flags = 1;
        whitelist_authorities = [];
        blacklist_authorities = [];
      })
      (record {
        id = 0;
        issuer = 7;
        flags = 0;
        whitelist_authorities = [];
        blacklist_authorities = [];
      })
      (record { whitelist_markets = 0 ∷ []; blacklist_markets = 5 ∷ [] })
      sells
      market.balances
    ≡ some tt
unfolding limit_order_create_evaluate asset_ge get_balance is_authorized_asset
seller_may = refl

refund_seen : limit_order_cancel_evaluate withdraws after ≡ some (of_usd 40)
unfolding limit_order_cancel_evaluate
refund_seen = refl
