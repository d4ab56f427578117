-- ===== src/Operations/RequiredAuth.antt =====
-- `get_required_auth` of every operation. libraries/chain: operations.hpp.
use bitshares_toolkit.Common.{◌∷◌}
use bitshares_toolkit.Operations.{AuthSets}
use bitshares_toolkit.Operations.Accounts.{account_update_auth}
use bitshares_toolkit.Operations.Permissions.{custom_auth}
use bitshares_toolkit.Operations.Governance.{proposal_update_auth, proposal_delete_auth}
use bitshares_toolkit.Operations.Union.{
  Operation, transfer, limit_order_create, short_order_create, limit_order_cancel,
  short_order_cancel, call_order_update, key_create, account_create, account_update,
  account_whitelist, account_transfer, asset_create, asset_update, asset_update_bitasset,
  asset_update_feed_producers, asset_issue, asset_burn, asset_fund_fee_pool, asset_settle,
  asset_global_settle, asset_publish_feed, delegate_create, witness_create, witness_withdraw_pay,
  proposal_create, proposal_update, proposal_delete, withdraw_permission_create,
  withdraw_permission_update, withdraw_permission_claim, withdraw_permission_delete, fill_order,
  global_parameters_update, file_write, vesting_balance_create, vesting_balance_withdraw,
  bond_create_offer, bond_cancel_offer, bond_accept_offer, bond_claim_collateral, worker_create,
  custom,
}

unfoldable pub required_auth : Operation → AuthSets → AuthSets
required_auth (transfer o) sets = record sets { active = o.from ∷ sets.active }
required_auth (limit_order_create o) sets = record sets { active = o.seller ∷ sets.active }
required_auth (short_order_create o) sets = record sets { active = o.seller ∷ sets.active }
required_auth (limit_order_cancel o) sets = record sets {
  active = o.fee_paying_account ∷ sets.active;
}
required_auth (short_order_cancel o) sets = record sets {
  active = o.fee_paying_account ∷ sets.active;
}
required_auth (call_order_update o) sets = record sets { active = o.funding_account ∷ sets.active }
required_auth (key_create o) sets = record sets { active = o.fee_paying_account ∷ sets.active }
required_auth (account_create o) sets = record sets { active = o.registrar ∷ sets.active }
required_auth (account_update o) sets = account_update_auth o sets
required_auth (account_whitelist o) sets = record sets {
  active = o.authorizing_account ∷ sets.active;
}
required_auth (account_transfer o) sets = record sets { active = o.account_id ∷ sets.active }
required_auth (asset_create o) sets = record sets { active = o.issuer ∷ sets.active }
required_auth (asset_update o) sets = record sets { active = o.issuer ∷ sets.active }
required_auth (asset_update_bitasset o) sets = record sets { active = o.issuer ∷ sets.active }
required_auth (asset_update_feed_producers o) sets = record sets { active = o.issuer ∷ sets.active }
required_auth (asset_issue o) sets = record sets { active = o.issuer ∷ sets.active }
required_auth (asset_burn o) sets = record sets { active = o.payer ∷ sets.active }
required_auth (asset_fund_fee_pool o) sets = record sets { active = o.from_account ∷ sets.active }
required_auth (asset_settle o) sets = record sets { active = o.account ∷ sets.active }
required_auth (asset_global_settle o) sets = record sets { active = o.issuer ∷ sets.active }
required_auth (asset_publish_feed o) sets = record sets { active = o.publisher ∷ sets.active }
required_auth (delegate_create o) sets = record sets { active = o.delegate_account ∷ sets.active }
required_auth (witness_create o) sets = record sets { active = o.witness_account ∷ sets.active }
required_auth (witness_withdraw_pay o) sets = record sets { active = o.to_account ∷ sets.active }
required_auth (proposal_create o _) sets = record sets {
  active = o.fee_paying_account ∷ sets.active;
}
required_auth (proposal_update o) sets = proposal_update_auth o sets
required_auth (proposal_delete o) sets = proposal_delete_auth o sets
required_auth (withdraw_permission_create o) sets = record sets {
  active = o.withdraw_from_account ∷ sets.active;
}
required_auth (withdraw_permission_update o) sets = record sets {
  active = o.withdraw_from_account ∷ sets.active;
}
required_auth (withdraw_permission_claim o) sets = record sets {
  active = o.withdraw_to_account ∷ sets.active;
}
required_auth (withdraw_permission_delete o) sets = record sets {
  active = o.withdraw_from_account ∷ sets.active;
}
required_auth (fill_order o) sets = record sets { active = o.account_id ∷ sets.active }
required_auth (global_parameters_update _) sets = record sets { active = 0 ∷ sets.active }
required_auth (file_write o) sets = record sets { active = o.payer ∷ sets.active }
required_auth (vesting_balance_create o) sets = record sets { active = o.creator ∷ sets.active }
required_auth (vesting_balance_withdraw o) sets = record sets { active = o.owner ∷ sets.active }
required_auth (bond_create_offer o) sets = record sets { active = o.creator ∷ sets.active }
required_auth (bond_cancel_offer o) sets = record sets { active = o.creator ∷ sets.active }
required_auth (bond_accept_offer o) sets = record sets { active = o.claimer ∷ sets.active }
required_auth (bond_claim_collateral o) sets = record sets { active = o.claimer ∷ sets.active }
required_auth (worker_create o) sets = record sets { active = o.owner ∷ sets.active }
required_auth (custom o) sets = custom_auth o sets
