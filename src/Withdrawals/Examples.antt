-- ===== src/Withdrawals/Examples.antt =====
-- Claims at concrete values.
use bitshares_toolkit.Common.{ℕ, ◌+◌, ◌-◌, ◌≤◌, ◌<◌, ◌≡◌, refl, none, some, [], ◌∷◌, arith}
use bitshares_toolkit.Common.Int.{pos, ◌≤ℤ◌, ◌-ℤ◌}
use bitshares_toolkit.Common.Maps.{find}
use bitshares_toolkit.Fc.Native.{native_fc}
use bitshares_toolkit.Fc.Time.{native_time}
use bitshares_toolkit.Asset.{Asset, asset_ge, asset_le}
use bitshares_toolkit.Operations.Permissions.{WithdrawPermissionClaimOperation}
use bitshares_toolkit.Transfers.{AssetObject, get_balance}
use bitshares_toolkit.Transfers.Balances.{amount_of}
use bitshares_toolkit.Transfers.Moves.{Moves}
use bitshares_toolkit.Withdrawals.{
  Permit, Chain, available_this_period, claim_evaluate, claim_apply,
}
use bitshares_toolkit.Withdrawals.Limits.{claim_keeps_limit, claim_ignores_limit}

-- Account 20 may take 100 of asset 3 from account 10 in each hour; 40 have been taken.
abbrev permit : Permit
permit = record {
  withdraw_from_account = 10;
  authorized_account = 20;
  withdrawal_limit = record { amount = pos 100; asset_id = 3 };
  withdrawal_period_sec = 3600;
  next_period_start_time = 10000;
  expiration = 100000;
  claimed_this_period = pos 40;
}

abbrev plain : ℕ → AssetObject
plain id = record {
  id = id;
  issuer = 7;
  flags = 0;
  whitelist_authorities = [];
  blacklist_authorities = [];
}

abbrev chain : Chain
chain = record {
  permits = (5, permit) ∷ [];
  next_permit = 6;
  balances =
      record { owner = 10; asset_type = 3; balance = pos 70 }
      ∷ record { owner = 10; asset_type = 0; balance = pos 900 }
      ∷ [];
  accounts = λ id. none;
  assets = λ id. some (plain id);
  head_block_time = 12000;
  block_interval = 5;
}

abbrev claim : Asset → WithdrawPermissionClaimOperation
claim amount = record {
  fee = record { amount = pos 1; asset_id = 0 };
  withdraw_permission = 5;
  withdraw_from_account = 10;
  withdraw_to_account = 20;
  amount_to_withdraw = amount;
  memo = none;
}

abbrev sixty : Asset
sixty = record { amount = pos 60; asset_id = 3 }

-- More than the limit, of the core asset
abbrev core : Asset
core = record { amount = pos 900; asset_id = 0 }

sixty-accepted : claim_evaluate native_fc native_time (claim sixty) chain ≡ some tt
unfolding claim_evaluate available_this_period asset_ge asset_le get_balance ◌-ℤ◌
sixty-accepted = refl

before-claim : (amount_of chain.balances 10 3 ≡ pos 70) × (amount_of chain.balances 20 3 ≡ pos 0)
unfolding get_balance
before-claim = (refl, refl)

claim_keeps_limit_example :
    (d' : Chain) × (p' : Permit) × (total : ℕ) × (claim_apply native_fc native_time
        (claim sixty)
        chain
      ≡ some d')
    × Moves chain.balances d'.balances 10 20 3 (pos (70 - 60)) (pos (0 + 60))
    × (find 5 d'.permits ≡ some p')
    × (p'.claimed_this_period ≡ pos total)
    × (total ≤ 100)
    × (12000 < 10000 + 3600 → (total ≡ 40 + 60) × (p'.next_period_start_time ≡ 10000))
    × (10000 + 3600 ≤ 12000 → total ≡ 60)
    × (p'.next_period_start_time ≤ 12000)
    × (12000 < p'.next_period_start_time + 3600)
claim_keeps_limit_example =
    claim_keeps_limit native_fc native_time chain (claim sixty) permit 100 40 60 70 0 refl refl
      (omega arith) (omega arith) refl refl (omega arith) (omega arith) (omega arith) (omega arith)
      (omega arith) (omega arith) before-claim.0 before-claim.1 (omega arith) (omega arith)
      sixty-accepted

left_now : available_this_period native_fc native_time permit 12000 ≡ some sixty
unfolding available_this_period ◌-ℤ◌
left_now = refl

core-covered : pos 900 ≤ℤ amount_of chain.balances 10 0
unfolding get_balance
core-covered = omega arith

claim_ignores_limit_example : claim_evaluate native_fc native_time (claim core) chain ≡ some tt
claim_ignores_limit_example =
    claim_ignores_limit native_fc native_time chain (claim core) permit (plain 0) sixty refl
      (omega arith) refl refl left_now (omega arith) core-covered refl refl refl
