-- ===== src/Payments/Examples.antt =====
-- A fee divided at concrete values.
use bitshares_toolkit.Common.{false, ◌+◌, ◌-◌, ◌*◌, ◌/◌, ◌≤◌, ◌≡◌, true, some, arith}
use bitshares_toolkit.Common.Int.{pos}
use bitshares_toolkit.Operations.Options.{ChainParameters}
use bitshares_toolkit.Payments.{FeeShares, fee_shares}
use bitshares_toolkit.Payments.Shares.{fee_shares-sum}

-- A discount of up to 50 percent between 100 and 300, 20 percent burned, 30 percent to the witnesses.
abbrev parameters : ChainParameters
parameters = record {
  current_fees = λ i. 0;
  witness_pay_percent_of_accumulated = 0;
  block_interval = 5;
  maintenance_interval = 10;
  maximum_transaction_size = 1024;
  maximum_block_size = 5120;
  maximum_undo_history = 1024;
  maximum_time_until_expiration = 100;
  maximum_proposal_lifetime = 1000;
  genesis_proposal_review_period = 100;
  maximum_asset_whitelist_authorities = 10;
  maximum_asset_feed_publishers = 10;
  maximum_witness_count = 10;
  maximum_committee_count = 10;
  maximum_authority_membership = 10;
  burn_percent_of_fee = 2000;
  witness_percent_of_fee = 3000;
  cashback_vesting_period_seconds = 0;
  max_bulk_discount_percent_of_fee = 5000;
  bulk_discount_threshold_min = pos 100;
  bulk_discount_threshold_max = pos 300;
  count_non_prime_votes = true;
  allow_non_prime_whitelists = false;
  witness_pay_per_block = pos 0;
  worker_budget_per_day = pos 0;
}

fee_shares-sum_example :
    (s : FeeShares) × (fee_shares parameters true (pos 200) 1000 ≡ some s)
    × (s.referral + s.cashback + s.accumulated + s.burned ≡ 1000)
    × (s.cashback ≤ 1000 * 5000 / 10000)
    × (s.accumulated ≡ (1000 - s.cashback) * 3000 / 10000)
    × (s.burned ≡ (1000 - s.cashback) * 2000 / 10000)
fee_shares-sum_example =
    fee_shares-sum parameters true (pos 200) 1000 (omega arith) (omega arith) (omega arith)
      (omega arith) (omega arith)
