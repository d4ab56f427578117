-- ===== src/Operations/Examples.antt =====
-- Operations at concrete values, with the theorems of the modules applied to them.
use bitshares_toolkit.Common.{◌+◌, ◌*◌, ◌^◌, ◌≡◌, refl, true, false, some, none, [], ◌∷◌, arith}
use bitshares_toolkit.Common.Int.{pos, negsuc, ◌+ℤ◌}
use bitshares_toolkit.Fc.Native.{native_fc}
use bitshares_toolkit.Asset.{Price}
use bitshares_toolkit.Names.{
  is_valid_name, is_valid_symbol, scan_name, is_lower, is_digit, is_slash, is_dot_or_dash,
  starts_label, count_dots, is_upper,
}
use bitshares_toolkit.Operations.{
  BalanceAccumulator, AuthSets, void_result, adjust, adjust_neg, FeeSchedule,
}
use bitshares_toolkit.Operations.Options.{Authority, ChainParameters}
use bitshares_toolkit.Operations.Accounts.{AccountCreateOperation}
use bitshares_toolkit.Operations.Assets.{AssetCreateOperation}
use bitshares_toolkit.Operations.Market.{TransferOperation, transfer_validate}
use bitshares_toolkit.Operations.Permissions.{CustomOperation, WithdrawPermissionClaimOperation}
use bitshares_toolkit.Operations.Fees.{asset_create_fee}
use bitshares_toolkit.Operations.Union.{
  Operation, transfer, withdraw_permission_claim, proposal_create, no_ops, op_and, fee_payer,
}
use bitshares_toolkit.Operations.RequiredAuth.{required_auth}
use bitshares_toolkit.Operations.Validate.{validate}
use bitshares_toolkit.Operations.BalanceDelta.{balance_delta}
use bitshares_toolkit.Operations.Validation.{FeesChecked, validate-FeesChecked}
use bitshares_toolkit.Operations.Authorities.{Requires, fee_payer_required}
use bitshares_toolkit.Operations.Costs.{asset_create_fee_lem}

abbrev no_auths : AuthSets
no_auths = record { active = []; owner = [] }

-- Account 5 sends 100 of asset 1 to account 6, for a fee of 7.
abbrev payment : TransferOperation
payment = record {
  fee = record { amount = pos 7; asset_id = 0 };
  from = 5;
  to = 6;
  amount = record { amount = pos 100; asset_id = 1 };
  memo = none;
}

-- A proposal to do so, whose own fee is negative.
abbrev proposal : Operation
proposal =
    proposal_create
      (record {
        fee_paying_account = 9;
        fee = record { amount = negsuc 4; asset_id = 0 };
        expiration_time = 1000;
        review_period_seconds = none;
      })
      (op_and (transfer payment) no_ops)

proposal_valid : validate native_fc proposal ≡ some tt
unfolding validate transfer_validate
proposal_valid = refl

validate-FeesChecked_example : FeesChecked proposal
validate-FeesChecked_example = validate-FeesChecked native_fc proposal proposal_valid

fee_payer_required_example : Requires (fee_payer proposal) (required_auth proposal no_auths)
fee_payer_required_example = fee_payer_required proposal no_auths refl

abbrev note : CustomOperation
note = record {
  fee = record { amount = pos 1; asset_id = 0 };
  payer = 4;
  required_auths = 8 ∷ [];
  id = 0;
  bytes = [];
}

abbrev after_payment : BalanceAccumulator
after_payment =
    record { account = 5; asset_id = 0; balance = negsuc 6 }
    ∷ record { account = 5; asset_id = 1; balance = negsuc 99 }
    ∷ record { account = 6; asset_id = 1; balance = pos 100 }
    ∷ []

payment_delta : balance_delta native_fc (transfer payment) void_result [] ≡ some after_payment
unfolding balance_delta adjust adjust_neg ◌+ℤ◌
payment_delta = refl

abbrev claim : WithdrawPermissionClaimOperation
claim = record {
  fee = record { amount = pos 7; asset_id = 0 };
  withdraw_permission = 0;
  withdraw_from_account = 5;
  withdraw_to_account = 6;
  amount_to_withdraw = record { amount = pos 100; asset_id = 1 };
  memo = none;
}

abbrev after_claim : BalanceAccumulator
after_claim =
    record { account = 6; asset_id = 0; balance = negsuc 6 }
    ∷ record { account = 6; asset_id = 1; balance = pos 100 }
    ∷ record { account = 5; asset_id = 1; balance = negsuc 99 }
    ∷ []

claim_delta :
    balance_delta native_fc (withdraw_permission_claim claim) void_result [] ≡ some after_claim
unfolding balance_delta adjust adjust_neg ◌+ℤ◌
claim_delta = refl

abbrev nobody : Authority
nobody = record { weight_threshold = 1; auths = [] }

-- "abc"
abbrev registration : AccountCreateOperation
registration = record {
  fee = record { amount = pos 7; asset_id = 0 };
  registrar = 5;
  referrer = 5;
  referrer_percent = 0;
  name = 97 ∷ 98 ∷ 99 ∷ [];
  owner = nobody;
  active = nobody;
  voting_account = 0;
  memo_key = 0;
  num_witness = 0;
  num_committee = 0;
  vote = [];
}

abbrev fees : FeeSchedule
fees = λ f. 100 + f

registration_valid : is_valid_name registration.name ≡ true
unfolding is_valid_name scan_name is_lower is_digit is_slash is_dot_or_dash starts_label
registration_valid = refl

abbrev some_price : Price
some_price = record {
  base = record { amount = pos 1; asset_id = 0 };
  quote = record { amount = pos 1; asset_id = 1 };
}

-- "ABC"
abbrev new_asset : AssetCreateOperation
new_asset = record {
  fee = record { amount = pos 7; asset_id = 0 };
  issuer = 5;
  symbol = 65 ∷ 66 ∷ 67 ∷ [];
  precision = 2;
  common_options = record {
    max_supply = pos 1000;
    market_fee_percent = 0;
    max_market_fee = pos 0;
    min_market_fee = pos 0;
    issuer_permissions = 0;
    flags = 0;
    core_exchange_rate = some_price;
    whitelist_authorities = [];
    blacklist_authorities = [];
    whitelist_markets = [];
    blacklist_markets = [];
  };
  bitasset_options = none;
}

symbol_valid : is_valid_symbol new_asset.symbol ≡ true
unfolding is_valid_symbol count_dots is_upper
symbol_valid = refl

asset_create_fee_lem_example : asset_create_fee native_fc fees new_asset ≡ some (pos (116 * 30 ^ 4))
asset_create_fee_lem_example =
    asset_create_fee_lem native_fc fees new_asset symbol_valid (omega arith)

-- A review period longer than the life of a proposal.
abbrev parameters : ChainParameters
parameters = record {
  current_fees = fees;
  witness_pay_percent_of_accumulated = 0;
  block_interval = 5;
  maintenance_interval = 10;
  maximum_transaction_size = 1024;
  maximum_block_size = 5120;
  maximum_undo_history = 1024;
  maximum_time_until_expiration = 100;
  maximum_proposal_lifetime = 1000;
  genesis_proposal_review_period = 2000;
  maximum_asset_whitelist_authorities = 10;
  maximum_asset_feed_publishers = 10;
  maximum_witness_count = 10;
  maximum_committee_count = 10;
  maximum_authority_membership = 10;
  burn_percent_of_fee = 0;
  witness_percent_of_fee = 0;
  cashback_vesting_period_seconds = 0;
  max_bulk_discount_percent_of_fee = 0;
  bulk_discount_threshold_min = pos 1;
  bulk_discount_threshold_max = pos 1;
  count_non_prime_votes = true;
  allow_non_prime_whitelists = false;
  witness_pay_per_block = pos 0;
  worker_budget_per_day = pos 0;
}
