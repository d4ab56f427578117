-- ===== src/Operations/Validate.antt =====
-- `validate` of every operation, with the proposed ones of a proposal. libraries/chain: operations.hpp.
use bitshares_toolkit.Common.{Option, some, ◌>>◌, fc_assert}
use bitshares_toolkit.Fc.{Fc}
use bitshares_toolkit.Operations.Accounts.{
  key_create_validate, account_create_validate, account_whitelist_validate, account_update_validate,
  delegate_create_validate, account_transfer_validate, witness_create_validate,
  witness_withdraw_pay_validate,
}
use bitshares_toolkit.Operations.Assets.{
  asset_create_validate, asset_global_settle_validate, asset_settle_validate,
  asset_fund_fee_pool_validate, asset_update_validate, asset_update_bitasset_validate,
  asset_update_feed_producers_validate, asset_publish_feed_validate, asset_issue_validate,
  asset_burn_validate,
}
use bitshares_toolkit.Operations.Market.{
  transfer_validate, limit_order_create_validate, limit_order_cancel_validate,
  short_order_create_validate, short_order_cancel_validate, call_order_update_validate,
  fill_order_validate,
}
use bitshares_toolkit.Operations.Permissions.{
  withdraw_permission_create_validate, withdraw_permission_update_validate,
  withdraw_permission_claim_validate, withdraw_permission_delete_validate, file_write_validate,
  custom_validate,
}
use bitshares_toolkit.Operations.Lending.{
  bond_create_offer_validate, bond_cancel_offer_validate, bond_accept_offer_validate,
  bond_claim_collateral_validate, vesting_balance_create_validate,
  vesting_balance_withdraw_validate, worker_create_validate,
}
use bitshares_toolkit.Operations.Governance.{
  global_parameters_update_validate, proposal_update_validate, proposal_delete_validate,
}
use bitshares_toolkit.Operations.Union.{
  Operation, Operations, has_ops, transfer, limit_order_create, short_order_create,
  limit_order_cancel, short_order_cancel, call_order_update, key_create, account_create,
  account_update, account_whitelist, account_transfer, asset_create, asset_update,
  asset_update_bitasset, asset_update_feed_producers, asset_issue, asset_burn, asset_fund_fee_pool,
  asset_settle, asset_global_settle, asset_publish_feed, delegate_create, witness_create,
  witness_withdraw_pay, proposal_create, proposal_update, proposal_delete,
  withdraw_permission_create, withdraw_permission_update, withdraw_permission_claim,
  withdraw_permission_delete, fill_order, global_parameters_update, file_write,
  vesting_balance_create, vesting_balance_withdraw, bond_create_offer, bond_cancel_offer,
  bond_accept_offer, bond_claim_collateral, worker_create, custom, no_ops, op_and,
}

unfoldable mutual
  pub validate : Fc → Operation → Option (Unit {0})
  validate fc (transfer o) = transfer_validate o
  validate fc (limit_order_create o) = limit_order_create_validate o
  validate fc (short_order_create o) = short_order_create_validate o
  validate fc (limit_order_cancel o) = limit_order_cancel_validate o
  validate fc (short_order_cancel o) = short_order_cancel_validate o
  validate fc (call_order_update o) = call_order_update_validate o
  validate fc (key_create o) = key_create_validate o
  validate fc (account_create o) = account_create_validate o
  validate fc (account_update o) = account_update_validate o
  validate fc (account_whitelist o) = account_whitelist_validate o
  validate fc (account_transfer o) = account_transfer_validate o
  validate fc (asset_create o) = asset_create_validate fc o
  validate fc (asset_update o) = asset_update_validate fc o
  validate fc (asset_update_bitasset o) = asset_update_bitasset_validate o
  validate fc (asset_update_feed_producers o) = asset_update_feed_producers_validate o
  validate fc (asset_issue o) = asset_issue_validate o
  validate fc (asset_burn o) = asset_burn_validate o
  validate fc (asset_fund_fee_pool o) = asset_fund_fee_pool_validate o
  validate fc (asset_settle o) = asset_settle_validate o
  validate fc (asset_global_settle o) = asset_global_settle_validate o
  validate fc (asset_publish_feed o) = asset_publish_feed_validate fc o
  validate fc (delegate_create o) = delegate_create_validate o
  validate fc (witness_create o) = witness_create_validate o
  validate fc (witness_withdraw_pay o) = witness_withdraw_pay_validate o
  validate fc (proposal_create _ ops) = do fc_assert (has_ops ops); validate_all fc ops
  validate fc (proposal_update o) = proposal_update_validate o
  validate fc (proposal_delete o) = proposal_delete_validate o
  validate fc (withdraw_permission_create o) = withdraw_permission_create_validate o
  validate fc (withdraw_permission_update o) = withdraw_permission_update_validate o
  validate fc (withdraw_permission_claim o) = withdraw_permission_claim_validate o
  validate fc (withdraw_permission_delete o) = withdraw_permission_delete_validate o
  validate fc (fill_order o) = fill_order_validate o
  validate fc (global_parameters_update o) = global_parameters_update_validate o
  validate fc (file_write o) = file_write_validate o
  validate fc (vesting_balance_create o) = vesting_balance_create_validate o
  validate fc (vesting_balance_withdraw o) = vesting_balance_withdraw_validate o
  validate fc (bond_create_offer o) = bond_create_offer_validate fc o
  validate fc (bond_cancel_offer o) = bond_cancel_offer_validate o
  validate fc (bond_accept_offer o) = bond_accept_offer_validate o
  validate fc (bond_claim_collateral o) = bond_claim_collateral_validate o
  validate fc (worker_create o) = worker_create_validate o
  validate fc (custom o) = custom_validate o

  pub validate_all : Fc → Operations → Option (Unit {0})
  validate_all fc no_ops = some tt
  validate_all fc (op_and o ops) = do validate fc o; validate_all fc ops
