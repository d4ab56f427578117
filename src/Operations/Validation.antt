-- ===== src/Operations/Validation.antt =====
-- What `validate` has checked of the fee of an operation, proposed operations included.
use bitshares_toolkit.Common.{
  ◌≡◌, refl, Bool, true, false, Option, some, arith, ◌>>=◌, fc_assert, >>=-eq-some,
}
use bitshares_toolkit.Common.Int.{ℤ, pos, ◌≤ℤ◌}
use bitshares_toolkit.Fc.{Fc}
use bitshares_toolkit.Operations.{nonneg, positive}
use bitshares_toolkit.Operations.Accounts.{
  key_create_validate, account_create_validate, account_whitelist_validate, account_update_validate,
  delegate_create_validate, account_transfer_validate, witness_create_validate,
  witness_withdraw_pay_validate,
}
use bitshares_toolkit.Operations.Assets.{
  asset_create_validate, asset_global_settle_validate, asset_settle_validate,
  asset_fund_fee_pool_validate, asset_update_validate, asset_update_bitasset_validate,
  asset_update_feed_producers_validate, asset_publish_feed_validate, asset_issue_validate,
  asset_burn_validate,
}
use bitshares_toolkit.Operations.Market.{
  transfer_validate, limit_order_create_validate, limit_order_cancel_validate,
  short_order_create_validate, short_order_cancel_validate, call_order_update_validate,
  fill_order_validate,
}
use bitshares_toolkit.Operations.Permissions.{
  withdraw_permission_create_validate, withdraw_permission_update_validate,
  withdraw_permission_claim_validate, withdraw_permission_delete_validate, custom_validate,
}
use bitshares_toolkit.Operations.Lending.{
  bond_create_offer_validate, bond_cancel_offer_validate, bond_accept_offer_validate,
  bond_claim_collateral_validate, vesting_balance_create_validate,
  vesting_balance_withdraw_validate, worker_create_validate,
}
use bitshares_toolkit.Operations.Governance.{
  global_parameters_update_validate, proposal_update_validate, proposal_delete_validate,
}
use bitshares_toolkit.Operations.Union.{
  Operation, Operations, no_ops, op_and, has_ops, fee_of, transfer, limit_order_create,
  short_order_create, limit_order_cancel, short_order_cancel, call_order_update, key_create,
  account_create, account_update, account_whitelist, account_transfer, asset_create, asset_update,
  asset_update_bitasset, asset_update_feed_producers, asset_issue, asset_burn, asset_fund_fee_pool,
  asset_settle, asset_global_settle, asset_publish_feed, delegate_create, witness_create,
  witness_withdraw_pay, proposal_create, proposal_update, proposal_delete,
  withdraw_permission_create, withdraw_permission_update, withdraw_permission_claim,
  withdraw_permission_delete, fill_order, global_parameters_update, file_write,
  vesting_balance_create, vesting_balance_withdraw, bond_create_offer, bond_cancel_offer,
  bond_accept_offer, bond_claim_collateral, worker_create, custom,
}
use bitshares_toolkit.Operations.Validate.{validate, validate_all}

-- The fee is not negative, but for a proposal and for a file, of which `validate` does not check it;
-- of a proposal the proposed operations count, to any depth.
mutual
  pub FeesChecked : Operation → Type 0
  FeesChecked (proposal_create _ ops) = AllFeesChecked ops
  FeesChecked (file_write _) = Unit
  FeesChecked op = pos 0 ≤ℤ (fee_of op).amount

  pub AllFeesChecked : Operations → Type 0
  AllFeesChecked no_ops = Unit
  AllFeesChecked (op_and o ops) = FeesChecked o × AllFeesChecked ops

asserted :
    (b : Bool) (k : Unit {0} → Option (Unit {0}))
    → (fc_assert b >>= k) ≡ some tt
    → (b ≡ true) × (k tt ≡ some tt)
asserted true k h = (refl, h)
asserted false k h = cc

first_nonneg :
    (a : ℤ) (k : Unit {0} → Option (Unit {0})) → (fc_assert (nonneg a) >>= k) ≡ some tt → pos 0 ≤ℤ a
first_nonneg a k h = let (b, _) = asserted (nonneg a) k h in ground (arith, b)

first_positive :
    (a : ℤ) (k : Unit {0} → Option (Unit {0}))
    → (fc_assert (positive a) >>= k) ≡ some tt
    → pos 0 ≤ℤ a
first_positive a k h = let (b, _) = asserted (positive a) k h in ground (arith, b)

only_nonneg : (a : ℤ) → fc_assert (nonneg a) ≡ some tt → pos 0 ≤ℤ a
only_nonneg a h = ground arith

only_positive : (a : ℤ) → fc_assert (positive a) ≡ some tt → pos 0 ≤ℤ a
only_positive a h = ground arith

mutual
  unfolding fee_of FeesChecked validate transfer_validate limit_order_create_validate
      short_order_create_validate limit_order_cancel_validate short_order_cancel_validate
      call_order_update_validate key_create_validate account_create_validate account_update_validate
      account_whitelist_validate account_transfer_validate asset_create_validate
      asset_update_validate asset_update_bitasset_validate asset_update_feed_producers_validate
      asset_issue_validate asset_burn_validate asset_fund_fee_pool_validate asset_settle_validate
      asset_global_settle_validate asset_publish_feed_validate delegate_create_validate
      witness_create_validate witness_withdraw_pay_validate proposal_update_validate
      proposal_delete_validate withdraw_permission_create_validate
      withdraw_permission_update_validate withdraw_permission_claim_validate
      withdraw_permission_delete_validate fill_order_validate global_parameters_update_validate
      vesting_balance_create_validate vesting_balance_withdraw_validate bond_create_offer_validate
      bond_cancel_offer_validate bond_accept_offer_validate bond_claim_collateral_validate
      worker_create_validate custom_validate

  checked : (fc : Fc) (op : Operation) → validate fc op ≡ some tt → FeesChecked op
  checked fc (transfer o) h = first_nonneg o.fee.amount _ h
  checked fc (limit_order_create o) h = ground arith
  checked fc (short_order_create o) h = first_nonneg o.fee.amount _ h
  checked fc (limit_order_cancel o) h = only_nonneg o.fee.amount h
  checked fc (short_order_cancel o) h = only_nonneg o.fee.amount h
  checked fc (call_order_update o) h = first_nonneg o.fee.amount _ h
  checked fc (key_create o) h = first_nonneg o.fee.amount _ h
  checked fc (account_create o) h = first_nonneg o.fee.amount _ h
  checked fc (account_update o) h = first_nonneg o.fee.amount _ h
  checked fc (account_whitelist o) h = first_nonneg o.fee.amount _ h
  checked fc (account_transfer o) h = only_nonneg o.fee.amount h
  checked fc (asset_create o) h = first_nonneg o.fee.amount _ h
  checked fc (asset_update o) h = first_nonneg o.fee.amount _ h
  checked fc (asset_update_bitasset o) h = first_nonneg o.fee.amount _ h
  checked fc (asset_update_feed_producers o) h = only_nonneg o.fee.amount h
  checked fc (asset_issue o) h = first_nonneg o.fee.amount _ h
  checked fc (asset_burn o) h = first_nonneg o.fee.amount _ h
  checked fc (asset_fund_fee_pool o) h = first_nonneg o.fee.amount _ h
  checked fc (asset_settle o) h = first_nonneg o.fee.amount _ h
  checked fc (asset_global_settle o) h = first_nonneg o.fee.amount _ h
  checked fc (asset_publish_feed o) h = first_nonneg o.fee.amount _ h
  checked fc (delegate_create o) h = only_nonneg o.fee.amount h
  checked fc (witness_create o) h = only_nonneg o.fee.amount h
  checked fc (witness_withdraw_pay o) h = first_nonneg o.fee.amount _ h
  checked fc (proposal_create o ops) h = checked_all fc ops (asserted (has_ops ops) _ h).1
  checked fc (proposal_update o) h = first_nonneg o.fee.amount _ h
  checked fc (proposal_delete o) h = only_nonneg o.fee.amount h
  checked fc (withdraw_permission_create o) h = first_nonneg o.fee.amount _ h
  checked fc (withdraw_permission_update o) h = ground arith
  checked fc (withdraw_permission_claim o) h = ground arith
  checked fc (withdraw_permission_delete o) h = first_nonneg o.fee.amount _ h
  checked fc (fill_order _) h = cc
  checked fc (global_parameters_update o) h = first_nonneg o.fee.amount _ h
  checked fc (file_write _) h = tt
  checked fc (vesting_balance_create o) h = first_nonneg o.fee.amount _ h
  checked fc (vesting_balance_withdraw o) h = first_nonneg o.fee.amount _ h
  checked fc (bond_create_offer o) h = first_nonneg o.fee.amount _ h
  checked fc (bond_cancel_offer o) h = first_positive o.fee.amount _ h
  checked fc (bond_accept_offer o) h = first_positive o.fee.amount _ h
  checked fc (bond_claim_collateral o) h = first_positive o.fee.amount _ h
  checked fc (worker_create o) h = first_nonneg o.fee.amount _ h
  checked fc (custom o) h = only_positive o.fee.amount h

  checked_all : (fc : Fc) (ops : Operations) → validate_all fc ops ≡ some tt → AllFeesChecked ops
  checked_all fc no_ops h = tt
  checked_all fc (op_and o ops) h =
      let (_, first, rest) = >>=-eq-some (validate fc o) (λ _. validate_all fc ops) h in
      (checked fc o first, checked_all fc ops rest)

-- A validated operation, and every operation that a validated proposal proposes to any depth, has a
-- fee that is not negative, unless it is a proposal or writes a file: their own fee is not checked.
pub validate-FeesChecked : (fc : Fc) (op : Operation) → validate fc op ≡ some tt → FeesChecked op
validate-FeesChecked fc op h = checked fc op h
