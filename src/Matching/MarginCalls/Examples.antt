-- ===== src/Matching/MarginCalls/Examples.antt =====
-- A test of a margin call and the conditions of its theorem at concrete inputs: the call order of the
-- tests of debts against a limit order that sells 30 of the asset 1 for 40 of the core asset.
use bitshares_toolkit.Common.{◌≡◌, refl, false, true, some, [], ◌∷◌, arith}
use bitshares_toolkit.Common.Int.{pos, ◌+ℤ◌, ◌-ℤ◌}
use bitshares_toolkit.Fc.Native.{native_fc}
use bitshares_toolkit.Asset.{
  asset_eq, asset_ge, asset_gt, asset_sub, scale, exchange, price_le, price_gt, price_validate,
}
use bitshares_toolkit.Transfers.{adjust_balance}
use bitshares_toolkit.Matching.{
  LimitOrder, put, calculate_market_fee, pay_market_fees, release_core, pay_order, settle_order,
  close_order, fill_order,
}
use bitshares_toolkit.Matching.Examples.{of_core, of_usd, market, market-HasValidOptions}
use bitshares_toolkit.Matching.Debts.{close_call, reduce_call, return_collateral, fill_call}
use bitshares_toolkit.Matching.Debts.Examples.{call, debts}
use bitshares_toolkit.Matching.Shorts.{ShortMarket}
use bitshares_toolkit.Matching.Shorts.Filling.{all_with_shorts}
use bitshares_toolkit.Matching.MarginCalls.{
  limit_offer, traded, call_trade, fill_offer, call_fills, cover_call, call_round,
}
use bitshares_toolkit.Matching.MarginCalls.Kept.{IsBackedBy}
use bitshares_toolkit.Matching.MarginCalls.Backing.{call_round_keeps_backing}

abbrev cheap : LimitOrder
cheap = record {
  expiration = 90;
  seller = 3;
  for_sale = pos 30;
  sell_price = record { base = of_usd 30; quote = of_core 40 };
}

abbrev called : ShortMarket
called = record {
  debts = record debts { market = record debts.market { orders = (9, cheap) ∷ [] } };
  shorts = [];
  next_call_id = 12;
  prediction_markets = λ x. some false;
}

abbrev after_call : ShortMarket
after_call = record called {
  debts = record debts {
    market = record debts.market {
      orders = [];
      balances = record { owner = 3; asset_type = 0; balance = pos 38 } ∷ market.balances;
      core_in_orders = put debts.market.core_in_orders 4 (pos 90);
      accumulated_fees = put market.accumulated_fees 0 (pos 2);
      applied =
          record {
            order_id = 9;
            account_id = 3;
            pays = of_usd 30;
            receives = of_core 40;
            fee = of_core 2;
          }
          ∷ record {
            order_id = 11;
            account_id = 4;
            pays = of_core 40;
            receives = of_usd 30;
            fee = of_core 0;
          }
          ∷ [];
    };
    calls = (11, record call { debt = pos 30; collateral = pos 60 }) ∷ [];
    current_supply = put debts.current_supply 1 (pos 100);
  };
}

called-round :
    call_round native_fc 11 (some (limit_offer 9 cheap)) called
    ≡ some (traded after_call true false)
unfolding call_round cover_call call_trade call_fills fill_offer fill_call reduce_call close_call
    return_collateral fill_order settle_order pay_market_fees calculate_market_fee pay_order
    release_core close_order asset_eq asset_ge asset_gt asset_sub exchange scale price_validate
    price_gt price_le adjust_balance ◌+ℤ◌ ◌-ℤ◌
called-round = refl

called-IsBackedBy : IsBackedBy 0 1 called.debts.calls
called-IsBackedBy id c found same = ground (arith, found)

call_round_keeps_backing_example :
    all_with_shorts 0 after_call +ℤ called.debts.current_supply 0
    ≡ all_with_shorts 0 called +ℤ after_call.debts.current_supply 0
call_round_keeps_backing_example =
    call_round_keeps_backing native_fc 0 11 call (limit_offer 9 cheap) called after_call true false
      market-HasValidOptions (refl, tt) refl refl refl called-IsBackedBy called-round
