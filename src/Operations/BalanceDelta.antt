-- ===== src/Operations/BalanceDelta.antt =====
-- `get_balance_delta` of every operation. libraries/chain: operations.hpp.
use bitshares_toolkit.Common.{Option, ◌==◌, if◌then◌else◌, ◌>>=◌}
use bitshares_toolkit.Fc.{Fc}
use bitshares_toolkit.Operations.{
  core, OperationResult, get_asset, BalanceAccumulator, adjust, adjust_neg,
}
use bitshares_toolkit.Operations.Union.{
  Operation, transfer, limit_order_create, short_order_create, limit_order_cancel,
  short_order_cancel, call_order_update, key_create, account_create, account_update,
  account_whitelist, account_transfer, asset_create, asset_update, asset_update_bitasset,
  asset_update_feed_producers, asset_issue, asset_burn, asset_fund_fee_pool, asset_settle,
  asset_global_settle, asset_publish_feed, delegate_create, witness_create, witness_withdraw_pay,
  proposal_create, proposal_update, proposal_delete, withdraw_permission_create,
  withdraw_permission_update, withdraw_permission_claim, withdraw_permission_delete, fill_order,
  global_parameters_update, file_write, vesting_balance_create, vesting_balance_withdraw,
  bond_create_offer, bond_cancel_offer, bond_accept_offer, bond_claim_collateral, worker_create,
  custom,
}

unfoldable pub balance_delta :
    Fc → Operation → OperationResult → BalanceAccumulator → Option BalanceAccumulator
balance_delta fc (transfer o) _ acc = do
  acc1 ← adjust_neg fc o.from o.fee acc
  acc2 ← adjust_neg fc o.from o.amount acc1
  adjust fc o.to o.amount acc2
balance_delta fc (limit_order_create o) _ acc = do
  acc1 ← adjust_neg fc o.seller o.fee acc
  adjust_neg fc o.seller o.amount_to_sell acc1
balance_delta fc (short_order_create o) _ acc = do
  acc1 ← adjust_neg fc o.seller o.fee acc
  adjust_neg fc o.seller o.collateral acc1
balance_delta fc (limit_order_cancel o) result acc = do
  acc1 ← adjust_neg fc o.fee_paying_account o.fee acc
  refund ← get_asset result
  adjust fc o.fee_paying_account refund acc1
balance_delta fc (short_order_cancel o) result acc = do
  acc1 ← adjust_neg fc o.fee_paying_account o.fee acc
  refund ← get_asset result
  adjust fc o.fee_paying_account refund acc1
balance_delta fc (call_order_update o) _ acc = do
  acc1 ← adjust_neg fc o.funding_account o.fee acc
  acc2 ← adjust_neg fc o.funding_account o.collateral_to_add acc1
  adjust_neg fc o.funding_account o.amount_to_cover acc2
balance_delta fc (key_create o) _ acc = adjust_neg fc o.fee_paying_account o.fee acc
balance_delta fc (account_create o) _ acc = adjust_neg fc o.registrar o.fee acc
balance_delta fc (account_update o) _ acc = adjust_neg fc o.account o.fee acc
balance_delta fc (account_whitelist o) _ acc = adjust_neg fc o.authorizing_account o.fee acc
balance_delta fc (account_transfer o) _ acc = adjust_neg fc o.account_id o.fee acc
balance_delta fc (asset_create o) _ acc = adjust_neg fc o.issuer o.fee acc
balance_delta fc (asset_update o) _ acc = adjust_neg fc o.issuer o.fee acc
balance_delta fc (asset_update_bitasset o) _ acc = adjust_neg fc o.issuer o.fee acc
balance_delta fc (asset_update_feed_producers o) _ acc = adjust_neg fc o.issuer o.fee acc
balance_delta fc (asset_issue o) _ acc = do
  acc1 ← adjust_neg fc o.issuer o.fee acc
  adjust fc o.issue_to_account o.asset_to_issue acc1
balance_delta fc (asset_burn o) _ acc = do
  acc1 ← adjust_neg fc o.payer o.fee acc
  adjust_neg fc o.payer o.amount_to_burn acc1
balance_delta fc (asset_fund_fee_pool o) _ acc = do
  acc1 ← adjust_neg fc o.from_account o.fee acc
  adjust_neg fc o.from_account (core o.amount) acc1
balance_delta fc (asset_settle o) _ acc = do
  acc1 ← adjust_neg fc o.account o.fee acc
  adjust_neg fc o.account o.amount acc1
balance_delta fc (asset_global_settle o) _ acc = adjust_neg fc o.issuer o.fee acc
balance_delta fc (asset_publish_feed o) _ acc = adjust_neg fc o.publisher o.fee acc
balance_delta fc (delegate_create o) _ acc = adjust_neg fc o.delegate_account o.fee acc
balance_delta fc (witness_create o) _ acc = adjust_neg fc o.witness_account o.fee acc
balance_delta fc (witness_withdraw_pay o) _ acc = do
  acc1 ← adjust_neg fc o.to_account o.fee acc
  adjust fc o.to_account (core o.amount) acc1
balance_delta fc (proposal_create o _) _ acc = adjust_neg fc o.fee_paying_account o.fee acc
balance_delta fc (proposal_update o) _ acc = adjust_neg fc o.fee_paying_account o.fee acc
balance_delta fc (proposal_delete o) _ acc = adjust_neg fc o.fee_paying_account o.fee acc
balance_delta fc (withdraw_permission_create o) _ acc =
    adjust_neg fc o.withdraw_from_account o.fee acc
balance_delta fc (withdraw_permission_update o) _ acc =
    adjust_neg fc o.withdraw_from_account o.fee acc
balance_delta fc (withdraw_permission_claim o) _ acc = do
  acc1 ← adjust_neg fc o.withdraw_to_account o.fee acc
  acc2 ← adjust fc o.withdraw_to_account o.amount_to_withdraw acc1
  adjust_neg fc o.withdraw_from_account o.amount_to_withdraw acc2
balance_delta fc (withdraw_permission_delete o) _ acc =
    adjust_neg fc o.withdraw_from_account o.fee acc
balance_delta fc (fill_order o) _ acc = adjust fc o.account_id o.receives acc
balance_delta fc (global_parameters_update o) _ acc = adjust_neg fc 0 o.fee acc
balance_delta fc (file_write o) _ acc = adjust_neg fc o.payer o.fee acc
balance_delta fc (vesting_balance_create o) _ acc = do
  acc1 ← adjust_neg fc o.creator o.fee acc
  adjust_neg fc o.creator o.amount acc1
balance_delta fc (vesting_balance_withdraw o) _ acc = do
  acc1 ← adjust_neg fc o.owner o.fee acc
  adjust fc o.owner o.amount acc1
balance_delta fc (bond_create_offer o) _ acc = do
  acc1 ← adjust_neg fc o.creator o.fee acc
  adjust_neg fc o.creator o.amount acc1
balance_delta fc (bond_cancel_offer o) _ acc = do
  acc1 ← adjust_neg fc o.creator o.fee acc
  adjust fc o.creator o.refund acc1
balance_delta fc (bond_accept_offer o) _ acc = do
  acc1 ← adjust_neg fc o.claimer o.fee acc
  acc2 ←
      adjust_neg fc o.claimer
        (if o.claimer == o.lender then o.amount_borrowed else o.amount_collateral) acc1
  adjust fc o.borrower o.amount_borrowed acc2
balance_delta fc (bond_claim_collateral o) _ acc = do
  acc1 ← adjust_neg fc o.claimer o.fee acc
  acc2 ← adjust_neg fc o.claimer o.payoff_amount acc1
  acc3 ← adjust fc o.claimer o.collateral_claimed acc2
  adjust fc o.lender o.payoff_amount acc3
balance_delta fc (worker_create o) _ acc = adjust_neg fc o.owner o.fee acc
balance_delta fc (custom o) _ acc = adjust_neg fc o.payer o.fee acc
