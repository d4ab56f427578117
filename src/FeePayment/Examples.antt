-- ===== src/FeePayment/Examples.antt =====
-- A fee of 500 in the asset 2, worth 1000 in core, that the account 3 pays.
use bitshares_toolkit.Common.{◌≡◌, ◌≢◌, refl, true, false, some, none, []}
use bitshares_toolkit.Common.Int.{pos, ◌+ℤ◌, ◌-ℤ◌}
use bitshares_toolkit.Fc.Native.{native_fc}
use bitshares_toolkit.Asset.{Asset, scale, exchange}
use bitshares_toolkit.Operations.Options.{ChainParameters}
use bitshares_toolkit.Payments.{bulk_discount_percent, bulk_cashback, split_total, fee_shares}
use bitshares_toolkit.Matching.{put}
use bitshares_toolkit.VestingLedger.{Ledger, new_cashback, deposit_cashback}
use bitshares_toolkit.VestingLedger.Amounts.{held}
use bitshares_toolkit.FeePayment.{Treasury, prepare_fee, exchange_with_pool, distribute, pay_fee}
use bitshares_toolkit.FeePayment.FreeIds.{NextIsFree}
use bitshares_toolkit.FeePayment.Distribution.{pay_fee_distributes}

-- A discount of up to 50 percent between 100 and 300, 20 percent burned, 30 percent to the witnesses.
abbrev parameters : ChainParameters
parameters = record {
  current_fees = λ i. 0;
  witness_pay_percent_of_accumulated = 0;
  block_interval = 5;
  maintenance_interval = 10;
  maximum_transaction_size = 1024;
  maximum_block_size = 5120;
  maximum_undo_history = 1024;
  maximum_time_until_expiration = 100;
  maximum_proposal_lifetime = 1000;
  genesis_proposal_review_period = 100;
  maximum_asset_whitelist_authorities = 10;
  maximum_asset_feed_publishers = 10;
  maximum_witness_count = 10;
  maximum_committee_count = 10;
  maximum_authority_membership = 10;
  burn_percent_of_fee = 2000;
  witness_percent_of_fee = 3000;
  cashback_vesting_period_seconds = 1000;
  max_bulk_discount_percent_of_fee = 5000;
  bulk_discount_threshold_min = pos 100;
  bulk_discount_threshold_max = pos 300;
  count_non_prime_votes = true;
  allow_non_prime_whitelists = false;
  witness_pay_per_block = pos 0;
  worker_budget_per_day = pos 0;
}

abbrev ledger : Ledger
ledger = record {
  vestings = [];
  next_vesting = 5;
  balances = [];
  cashback_vb = λ a. none;
  is_account = λ a. true;
  assets = λ i. none;
  head_block_time = 60;
  cashback_vesting_period_seconds = 1000;
}

abbrev treasury : Treasury
treasury = record {
  ledger = ledger;
  accumulated_fees = λ i. pos 7;
  fee_pool = λ i. pos 5000;
  lifetime_fees_paid = λ a. pos 200;
  core_exchange_rate = λ i. some (record {
    base = record { amount = pos 2; asset_id = 0 };
    quote = record { amount = pos 1; asset_id = 2 };
  });
  referrer = λ a. 9;
  is_prime = λ a. true;
  parameters = parameters;
}

abbrev fee : Asset
fee = record { amount = pos 500; asset_id = 2 }

prepared : prepare_fee native_fc 3 fee treasury ≡ some 1000
unfolding prepare_fee exchange scale
prepared = refl

abbrev after : Treasury
after = record treasury {
  ledger = new_cashback 3 (pos 250) (new_cashback 9 (pos 375) ledger);
  accumulated_fees = put (put treasury.accumulated_fees 2 (pos 507)) 0 (pos 382);
  fee_pool = put treasury.fee_pool 2 (pos 4000);
  lifetime_fees_paid = put treasury.lifetime_fees_paid 3 (pos 950);
}

paid : pay_fee native_fc 3 fee 1000 treasury ≡ some after
unfolding pay_fee fee_shares bulk_cashback bulk_discount_percent split_total exchange_with_pool
    distribute deposit_cashback ◌+ℤ◌ ◌-ℤ◌
paid = refl

ledger-NextIsFree : NextIsFree ledger
ledger-NextIsFree k h = refl

pay_fee_distributes_example :
    (held 0 after.ledger +ℤ after.accumulated_fees 0
      ≡ (held 0 ledger +ℤ treasury.accumulated_fees 0) +ℤ pos 1000)
    × (fee.asset_id ≡ 0 → after.fee_pool ≡ treasury.fee_pool)
    × (fee.asset_id ≢ 0
        → (after.accumulated_fees 2 ≡ treasury.accumulated_fees 2 +ℤ pos 500)
          × (after.fee_pool 2 ≡ treasury.fee_pool 2 -ℤ pos 1000))
pay_fee_distributes_example =
    pay_fee_distributes native_fc 3 fee 1000 treasury after ledger-NextIsFree paid
