-- ===== src/Matching/Shorts/Examples.antt =====
-- A test of short orders and the conditions of their theorem at concrete inputs: a short order of 40 of
-- the asset 1 with 20 of the core asset as collateral against 30 of the core asset.
use bitshares_toolkit.Common.{◌==◌, ◌≡◌, refl, false, some, [], ◌∷◌, if◌then◌else◌}
use bitshares_toolkit.Common.Int.{pos, ◌+ℤ◌, ◌-ℤ◌}
use bitshares_toolkit.Fc.Native.{native_fc}
use bitshares_toolkit.Asset.{
  Price, asset_eq, asset_le, asset_ge, asset_sub, scale, exchange, call_price, make_price,
  price_max,
}
use bitshares_toolkit.Transfers.{adjust_balance}
use bitshares_toolkit.Matching.{
  put, calculate_market_fee, pay_market_fees, release_core, pay_order, settle_order, close_order,
  reduce_order, sweep_order, fill_order, trade,
}
use bitshares_toolkit.Matching.Examples.{of_core, of_usd, core, market, market-HasValidOptions}
use bitshares_toolkit.Matching.Debts.{update_call_price}
use bitshares_toolkit.Matching.Shorts.{
  ShortOrder, ShortMarket, seller_to_collateral, lend, close_short, issue, fill_short, match_short,
}
use bitshares_toolkit.Matching.Shorts.Filling.{all_with_shorts}
use bitshares_toolkit.Matching.Shorts.Backing.{match_short_keeps_backing}

abbrev short : ShortOrder
short = record {
  expiration = 90;
  seller = 6;
  for_sale = pos 40;
  available_collateral = pos 20;
  sell_price = record { base = of_usd 40; quote = of_core 20 };
  call_price = record { base = of_core 40; quote = of_usd 40 };
  initial_collateral_ratio = 2000;
  maintenance_collateral_ratio = 1750;
}

abbrev opening : ShortMarket
opening = record {
  debts = record {
    market = record market {
      orders = (8, core) ∷ [];
      core_in_orders = λ a. if a == 4 then pos 30 else if a == 6 then pos 20 else pos 0;
    };
    calls = [];
    settlements = [];
    current_supply = λ x. if x == 1 then pos 200 else pos 1000;
  };
  shorts = (31, short) ∷ [];
  next_call_id = 12;
  prediction_markets = λ x. some false;
}

abbrev two_for_one : Price
two_for_one = record { base = of_usd 2; quote = of_core 1 }

abbrev after : ShortMarket
after = record {
  debts = record {
    market = record market {
      orders = (8, record core { for_sale = pos 10 }) ∷ [];
      balances = record { owner = 4; asset_type = 1; balance = pos 48 } ∷ [];
      core_in_orders = put (put opening.debts.market.core_in_orders 4 (pos 10)) 6 (pos 39);
      accumulated_fees = put (put market.accumulated_fees 1 (pos 2)) 0 (pos 1);
      applied =
          record {
            order_id = 31;
            account_id = 6;
            pays = of_usd 40;
            receives = of_core 20;
            fee = of_core 1;
          }
          ∷ record {
            order_id = 8;
            account_id = 4;
            pays = of_core 20;
            receives = of_usd 40;
            fee = of_usd 2;
          }
          ∷ [];
    };
    calls =
        (
          12,
          record {
            borrower = 6;
            collateral = pos 39;
            debt = pos 40;
            call_price = record { base = of_core 29; quote = of_usd 40 };
            maintenance_collateral_ratio = 1750;
          },
        )
        ∷ [];
    settlements = [];
    current_supply = put opening.debts.current_supply 1 (pos 240);
  };
  shorts = [];
  next_call_id = 13;
  prediction_markets = λ x. some false;
}

opening-match_short : match_short native_fc 8 31 two_for_one opening ≡ some (after, 2)
unfolding match_short fill_order trade settle_order pay_market_fees calculate_market_fee pay_order
    release_core close_order reduce_order sweep_order fill_short seller_to_collateral issue lend
    update_call_price close_short asset_eq asset_le asset_ge asset_sub exchange scale call_price
    make_price price_max adjust_balance ◌+ℤ◌ ◌-ℤ◌
opening-match_short = refl

match_short_keeps_backing_example :
    all_with_shorts 1 after +ℤ opening.debts.current_supply 1
    ≡ all_with_shorts 1 opening +ℤ after.debts.current_supply 1
match_short_keeps_backing_example =
    match_short_keeps_backing native_fc 1 8 31 core short two_for_one opening (after, 2)
      market-HasValidOptions tt refl refl refl refl refl refl (λ id call k. cc) opening-match_short
