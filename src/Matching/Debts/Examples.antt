-- ===== src/Matching/Debts/Examples.antt =====
-- Tests of call orders and forced settlements and the conditions of their theorems at concrete inputs:
-- a call order with a debt of 60 of the asset 1 and 100 of the core asset as collateral, and a forced
-- settlement of 20 of the asset 1.
use bitshares_toolkit.Common.{
  ◌≢◌, arith, ℕ, ◌==◌, ◌≡◌, refl, false, Option, some, none, [], ◌∷◌, if◌then◌else◌, inr,
}
use bitshares_toolkit.Common.Int.{pos, negsuc, ◌+ℤ◌, ◌-ℤ◌}
use bitshares_toolkit.Fc.Native.{native_fc}
use bitshares_toolkit.Asset.{
  Asset, Price, PriceFeed, price_lt, asset_lt, asset_ge, asset_add, asset_sub, scale, exchange,
  call_price, make_price,
}
use bitshares_toolkit.Operations.Market.{CallOrderUpdateOperation}
use bitshares_toolkit.Transfers.{get_balance, adjust_balance}
use bitshares_toolkit.Matching.{put, calculate_market_fee, pay_market_fees, release_core}
use bitshares_toolkit.Matching.Examples.{of_core, of_usd, market, market-HasValidOptions}
use bitshares_toolkit.Matching.Debts.{
  CallOrder, ForceSettlement, Debts, update_call_price, close_call, reduce_call, release_freed,
  return_collateral, fill_call, reduce_settlement, fill_settlement, match_settlement,
}
use bitshares_toolkit.Matching.Debts.Collateral.{all_of}
use bitshares_toolkit.Matching.Debts.Backing.{match_settlement_keeps_backing}
use bitshares_toolkit.Matching.Debts.Settling.{settle_step, settle_loop}
use bitshares_toolkit.Matching.Debts.Terminating.{settle_loop_ends}
use bitshares_toolkit.Matching.Debts.Updates.{
  CallBitasset, check_terms, check_rest, call_update_evaluate, take_collateral, change_call,
  change_debt, pay_debt, call_update_apply,
}
use bitshares_toolkit.Matching.Debts.Credits.{OnlyDebited}
use bitshares_toolkit.Matching.Debts.Withdrawn.{update_keeps_backing, withdrawn_collateral_is_lost}

abbrev pub call : CallOrder
call = record {
  borrower = 4;
  collateral = pos 100;
  debt = pos 60;
  call_price = record { base = of_core 75; quote = of_usd 60 };
  maintenance_collateral_ratio = 1750;
}

abbrev forced : ForceSettlement
forced = record { owner = 5; balance = of_usd 20; settlement_date = 90 }

abbrev pub debts : Debts
debts = record {
  market = record market { core_in_orders = λ a. if a == 4 then pos 130 else pos 0 };
  calls = (11, call) ∷ [];
  settlements = (21, forced) ∷ [];
  current_supply = λ x. if x == 1 then pos 130 else pos 1000;
}

-- At 2 of the asset 1 for 1 of the core asset, with at most 15 to settle: 7 of the core asset are
-- paid, of which the market takes 1.
abbrev half : Price
half = record { base = of_usd 2; quote = of_core 1 }

abbrev matched : Debts
matched = record {
  market = record market {
    core_in_orders = put debts.market.core_in_orders 4 (pos 123);
    accumulated_fees = put market.accumulated_fees 0 (pos 1);
    balances = record { owner = 5; asset_type = 0; balance = pos 6 } ∷ market.balances;
    applied =
        record {
          order_id = 21;
          account_id = 5;
          pays = of_usd 15;
          receives = of_core 7;
          fee = of_core 1;
        }
        ∷ record {
          order_id = 11;
          account_id = 4;
          pays = of_core 7;
          receives = of_usd 15;
          fee = of_core 0;
        }
        ∷ [];
  };
  calls = (11, record call { debt = pos 45; collateral = pos 93 }) ∷ [];
  settlements = (21, record forced { balance = of_usd 5 }) ∷ [];
  current_supply = put debts.current_supply 1 (pos 115);
}

debts-match_settlement :
    match_settlement native_fc 11 21 half (of_usd 15) debts ≡ some (matched, of_usd 15)
unfolding match_settlement fill_call fill_settlement reduce_call close_call return_collateral
    release_freed release_core reduce_settlement pay_market_fees calculate_market_fee adjust_balance
    asset_sub asset_lt exchange scale ◌+ℤ◌ ◌-ℤ◌
debts-match_settlement = refl

match_settlement_keeps_backing_example :
    all_of 1 matched +ℤ debts.current_supply 1 ≡ all_of 1 debts +ℤ matched.current_supply 1
match_settlement_keeps_backing_example =
    match_settlement_keeps_backing native_fc 1 11 21 call forced half (of_usd 15) debts
      (matched, of_usd 15) market-HasValidOptions refl refl refl refl refl refl
      debts-match_settlement

abbrev feed : PriceFeed
feed = record {
  call_limit = record { base = of_core 1; quote = of_usd 1 };
  short_limit = record { base = of_usd 1; quote = of_core 1 };
  settlement_price = half;
  max_margin_period_sec = 3600;
  required_initial_collateral = 2000;
  required_maintenance_collateral = 1750;
}

abbrev bitassets : ℕ → Option CallBitasset
bitassets i = some (record {
  short_backing_asset = 0;
  options = record {
    feed_lifetime_sec = 3600;
    force_settlement_delay_sec = 3600;
    force_settlement_offset_percent = 0;
    maximum_force_settlement_volume = 2000;
    short_backing_asset = 0;
    prediction_market = false;
  };
  current_feed = feed;
})

-- Covers 10 of the debt.
abbrev cover : Asset → CallOrderUpdateOperation
cover collateral = record {
  funding_account = 4;
  fee = of_core 0;
  collateral_to_add = collateral;
  amount_to_cover = of_usd 10;
  maintenance_collateral_ratio = 0;
}

abbrev minus_20 : Asset
minus_20 = record { amount = negsuc 19; asset_id = 0 }

abbrev updated : ℕ → ℕ → ℕ → Debts
updated collateral base count = record {
  market = record market {
    balances = record { owner = 4; asset_type = 1; balance = pos 0 } ∷ [];
    core_in_orders = put debts.market.core_in_orders 4 (pos count);
  };
  calls =
      (
        11,
        record call {
          debt = pos 50;
          collateral = pos collateral;
          call_price = record { base = of_core base; quote = of_usd 50 };
        },
      )
      ∷ [];
  settlements = (21, forced) ∷ [];
  current_supply = put debts.current_supply 1 (pos 120);
}

cover_checked :
    call_update_evaluate native_fc bitassets (cover (of_core 0)) debts ≡ some (11, call, false)
unfolding call_update_evaluate check_terms check_rest get_balance asset_ge asset_lt asset_add
    asset_sub call_price make_price exchange scale ◌+ℤ◌ ◌-ℤ◌
cover_checked = refl

cover_applied :
    call_update_apply native_fc (cover (of_core 0)) (11, call, false) debts
    ≡ some (updated 100 75 130)
unfolding update_call_price call_update_apply pay_debt change_debt change_call take_collateral
    adjust_balance asset_ge call_price make_price ◌+ℤ◌ ◌-ℤ◌
cover_applied = refl

withdrawal_checked :
    call_update_evaluate native_fc bitassets (cover minus_20) debts ≡ some (11, call, false)
unfolding call_update_evaluate check_terms check_rest get_balance asset_ge asset_lt asset_add
    asset_sub call_price make_price exchange scale ◌+ℤ◌ ◌-ℤ◌
withdrawal_checked = refl

withdrawal_applied :
    call_update_apply native_fc (cover minus_20) (11, call, false) debts ≡ some (updated 80 60 110)
unfolding update_call_price call_update_apply pay_debt change_debt change_call take_collateral
    adjust_balance asset_ge call_price make_price ◌+ℤ◌ ◌-ℤ◌
withdrawal_applied = refl

update_keeps_backing_example :
    all_of 0 (updated 100 75 130) +ℤ debts.current_supply 0
    ≡ all_of 0 debts +ℤ (updated 100 75 130).current_supply 0
update_keeps_backing_example =
    update_keeps_backing native_fc 0 bitassets (cover (of_core 0)) 11 call false debts
      (updated 100 75 130) (refl, tt) (inr refl) cover_checked cover_applied

withdrawn_collateral_is_lost_example :
    (all_of 0 (updated 80 60 110) +ℤ debts.current_supply 0
      ≡ (all_of 0 debts +ℤ (updated 80 60 110).current_supply 0) +ℤ negsuc 19)
    × OnlyDebited (cover minus_20) debts (updated 80 60 110)
withdrawn_collateral_is_lost_example =
    withdrawn_collateral_is_lost native_fc 0 bitassets (cover minus_20) 11 call debts
      (updated 80 60 110) (refl, tt) refl withdrawal_checked withdrawal_applied

abbrev least : Price
least = record { base = of_core 1; quote = of_usd 1000000000000000 }

debts-settle_loop :
    settle_loop native_fc least 21 half (of_usd 15) 2 debts (of_usd 0)
    ≡ some (some (matched, of_usd 15))
unfolding settle_loop settle_step price_lt match_settlement fill_call fill_settlement reduce_call
    close_call return_collateral release_freed release_core reduce_settlement pay_market_fees
    calculate_market_fee adjust_balance asset_add asset_sub asset_lt exchange scale ◌+ℤ◌ ◌-ℤ◌
debts-settle_loop = refl

settle_loop_ends_example : settle_loop native_fc least 21 half (of_usd 15) 2 debts (of_usd 0) ≢ none
settle_loop_ends_example =
    settle_loop_ends native_fc least 21 half (of_usd 15) 2 debts (of_usd 0) (refl, tt) (refl, tt)
      (omega arith)
