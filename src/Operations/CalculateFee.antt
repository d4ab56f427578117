-- ===== src/Operations/CalculateFee.antt =====
-- `calculate_fee` of every operation. libraries/chain: operations.hpp.
use bitshares_toolkit.Common.{Option, some}
use bitshares_toolkit.Common.Int.{ℤ, pos}
use bitshares_toolkit.Fc.{Fc}
use bitshares_toolkit.Operations.{FeeSchedule, fee_at}
use bitshares_toolkit.Operations.Fees.{
  account_create_fee, account_update_fee, asset_create_fee, memo_fee, file_write_fee, custom_fee,
}
use bitshares_toolkit.Operations.Union.{
  Operation, transfer, limit_order_create, short_order_create, limit_order_cancel,
  short_order_cancel, call_order_update, key_create, account_create, account_update,
  account_whitelist, account_transfer, asset_create, asset_update, asset_update_bitasset,
  asset_update_feed_producers, asset_issue, asset_burn, asset_fund_fee_pool, asset_settle,
  asset_global_settle, asset_publish_feed, delegate_create, witness_create, witness_withdraw_pay,
  proposal_create, proposal_update, proposal_delete, withdraw_permission_create,
  withdraw_permission_update, withdraw_permission_claim, withdraw_permission_delete, fill_order,
  global_parameters_update, file_write, vesting_balance_create, vesting_balance_withdraw,
  bond_create_offer, bond_cancel_offer, bond_accept_offer, bond_claim_collateral, worker_create,
  custom,
}

unfoldable pub calculate_fee : Fc → FeeSchedule → Operation → Option ℤ
calculate_fee fc k (transfer o) = memo_fee fc k o.memo
calculate_fee fc k (limit_order_create _) = fee_at k 13
calculate_fee fc k (short_order_create _) = fee_at k 14
calculate_fee fc k (limit_order_cancel _) = fee_at k 13
calculate_fee fc k (short_order_cancel _) = fee_at k 14
calculate_fee fc k (call_order_update _) = fee_at k 14
calculate_fee fc k (key_create _) = fee_at k 0
calculate_fee fc k (account_create o) = account_create_fee k o
calculate_fee fc k (account_update o) = account_update_fee k o
calculate_fee fc k (account_whitelist _) = fee_at k 9
calculate_fee fc k (account_transfer _) = fee_at k 12
calculate_fee fc k (asset_create o) = asset_create_fee fc k o
calculate_fee fc k (asset_update _) = fee_at k 17
calculate_fee fc k (asset_update_bitasset _) = fee_at k 17
calculate_fee fc k (asset_update_feed_producers _) = fee_at k 17
calculate_fee fc k (asset_issue _) = fee_at k 18
calculate_fee fc k (asset_burn _) = fee_at k 18
calculate_fee fc k (asset_fund_fee_pool _) = fee_at k 19
calculate_fee fc k (asset_settle _) = fee_at k 20
calculate_fee fc k (asset_global_settle _) = fee_at k 35
calculate_fee fc k (asset_publish_feed _) = fee_at k 15
calculate_fee fc k (delegate_create _) = fee_at k 10
calculate_fee fc k (witness_create _) = fee_at k 10
calculate_fee fc k (witness_withdraw_pay _) = fee_at k 11
calculate_fee fc k (proposal_create _ _) = some (pos 0)
calculate_fee fc k (proposal_update _) = some (pos 0)
calculate_fee fc k (proposal_delete _) = some (pos 0)
calculate_fee fc k (withdraw_permission_create _) = fee_at k 27
calculate_fee fc k (withdraw_permission_update _) = fee_at k 27
calculate_fee fc k (withdraw_permission_claim o) = memo_fee fc k o.memo
calculate_fee fc k (withdraw_permission_delete _) = fee_at k 27
calculate_fee fc k (fill_order _) = some (pos 0)
calculate_fee fc k (global_parameters_update _) = fee_at k 25
calculate_fee fc k (file_write o) = file_write_fee k o
calculate_fee fc k (vesting_balance_create _) = fee_at k 33
calculate_fee fc k (vesting_balance_withdraw _) = fee_at k 34
calculate_fee fc k (bond_create_offer _) = fee_at k 28
calculate_fee fc k (bond_cancel_offer _) = fee_at k 29
calculate_fee fc k (bond_accept_offer _) = fee_at k 30
calculate_fee fc k (bond_claim_collateral _) = fee_at k 31
calculate_fee fc k (worker_create _) = fee_at k 36
calculate_fee fc k (custom o) = custom_fee k o
