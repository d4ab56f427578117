-- ===== src/Operations/Union.antt =====
-- The discriminated union of the operations (operations.hpp), with `fee_payer` and the fee.
use bitshares_toolkit.Common.{ℕ, Bool, true, false, Option}
use bitshares_toolkit.Asset.{Asset}
use bitshares_toolkit.Operations.Accounts.{
  KeyCreateOperation, AccountCreateOperation, AccountWhitelistOperation, AccountUpdateOperation,
  DelegateCreateOperation, AccountTransferOperation, WitnessCreateOperation,
  WitnessWithdrawPayOperation,
}
use bitshares_toolkit.Operations.Assets.{
  AssetCreateOperation, AssetGlobalSettleOperation, AssetSettleOperation, AssetFundFeePoolOperation,
  AssetUpdateOperation, AssetUpdateBitassetOperation, AssetUpdateFeedProducersOperation,
  AssetPublishFeedOperation, AssetIssueOperation, AssetBurnOperation,
}
use bitshares_toolkit.Operations.Market.{
  TransferOperation, LimitOrderCreateOperation, LimitOrderCancelOperation,
  ShortOrderCreateOperation, ShortOrderCancelOperation, CallOrderUpdateOperation,
  FillOrderOperation,
}
use bitshares_toolkit.Operations.Permissions.{
  WithdrawPermissionCreateOperation, WithdrawPermissionUpdateOperation,
  WithdrawPermissionClaimOperation, WithdrawPermissionDeleteOperation, FileWriteOperation,
  CustomOperation,
}
use bitshares_toolkit.Operations.Lending.{
  BondCreateOfferOperation, BondCancelOfferOperation, BondAcceptOfferOperation,
  BondClaimCollateralOperation, VestingBalanceCreateOperation, VestingBalanceWithdrawOperation,
  WorkerCreateOperation,
}
use bitshares_toolkit.Operations.Governance.{
  GlobalParametersUpdateOperation, ProposalUpdateOperation, ProposalDeleteOperation,
}

pub record ProposalCreateOperation : Type 0 where
  pub fee_paying_account : ℕ
  pub fee : Asset
  pub expiration_time : ℕ
  pub review_period_seconds : Option ℕ

-- The constructors are the struct names without `_operation`; the `proposed_ops` of a proposal stand
-- beside its other members, and `op_wrapper` adds nothing to an operation.
mutual
  pub data Operation : Type 0 where
    transfer : TransferOperation → Operation
    limit_order_create : LimitOrderCreateOperation → Operation
    short_order_create : ShortOrderCreateOperation → Operation
    limit_order_cancel : LimitOrderCancelOperation → Operation
    short_order_cancel : ShortOrderCancelOperation → Operation
    call_order_update : CallOrderUpdateOperation → Operation
    key_create : KeyCreateOperation → Operation
    account_create : AccountCreateOperation → Operation
    account_update : AccountUpdateOperation → Operation
    account_whitelist : AccountWhitelistOperation → Operation
    account_transfer : AccountTransferOperation → Operation
    asset_create : AssetCreateOperation → Operation
    asset_update : AssetUpdateOperation → Operation
    asset_update_bitasset : AssetUpdateBitassetOperation → Operation
    asset_update_feed_producers : AssetUpdateFeedProducersOperation → Operation
    asset_issue : AssetIssueOperation → Operation
    asset_burn : AssetBurnOperation → Operation
    asset_fund_fee_pool : AssetFundFeePoolOperation → Operation
    asset_settle : AssetSettleOperation → Operation
    asset_global_settle : AssetGlobalSettleOperation → Operation
    asset_publish_feed : AssetPublishFeedOperation → Operation
    delegate_create : DelegateCreateOperation → Operation
    witness_create : WitnessCreateOperation → Operation
    witness_withdraw_pay : WitnessWithdrawPayOperation → Operation
    proposal_create : ProposalCreateOperation → Operations → Operation
    proposal_update : ProposalUpdateOperation → Operation
    proposal_delete : ProposalDeleteOperation → Operation
    withdraw_permission_create : WithdrawPermissionCreateOperation → Operation
    withdraw_permission_update : WithdrawPermissionUpdateOperation → Operation
    withdraw_permission_claim : WithdrawPermissionClaimOperation → Operation
    withdraw_permission_delete : WithdrawPermissionDeleteOperation → Operation
    fill_order : FillOrderOperation → Operation
    global_parameters_update : GlobalParametersUpdateOperation → Operation
    file_write : FileWriteOperation → Operation
    vesting_balance_create : VestingBalanceCreateOperation → Operation
    vesting_balance_withdraw : VestingBalanceWithdrawOperation → Operation
    bond_create_offer : BondCreateOfferOperation → Operation
    bond_cancel_offer : BondCancelOfferOperation → Operation
    bond_accept_offer : BondAcceptOfferOperation → Operation
    bond_claim_collateral : BondClaimCollateralOperation → Operation
    worker_create : WorkerCreateOperation → Operation
    custom : CustomOperation → Operation

  pub data Operations : Type 0 where
    no_ops : Operations
    op_and : Operation → Operations → Operations

-- `!proposed_ops.empty()`
abbrev pub has_ops : Operations → Bool
has_ops no_ops = false
has_ops (op_and o ops) = true

unfoldable pub fee_payer : Operation → ℕ
fee_payer (transfer o) = o.from
fee_payer (limit_order_create o) = o.seller
fee_payer (short_order_create o) = o.seller
fee_payer (limit_order_cancel o) = o.fee_paying_account
fee_payer (short_order_cancel o) = o.fee_paying_account
fee_payer (call_order_update o) = o.funding_account
fee_payer (key_create o) = o.fee_paying_account
fee_payer (account_create o) = o.registrar
fee_payer (account_update o) = o.account
fee_payer (account_whitelist o) = o.authorizing_account
fee_payer (account_transfer o) = o.account_id
fee_payer (asset_create o) = o.issuer
fee_payer (asset_update o) = o.issuer
fee_payer (asset_update_bitasset o) = o.issuer
fee_payer (asset_update_feed_producers o) = o.issuer
fee_payer (asset_issue o) = o.issuer
fee_payer (asset_burn o) = o.payer
fee_payer (asset_fund_fee_pool o) = o.from_account
fee_payer (asset_settle o) = o.account
fee_payer (asset_global_settle o) = o.issuer
fee_payer (asset_publish_feed o) = o.publisher
fee_payer (delegate_create o) = o.delegate_account
fee_payer (witness_create o) = o.witness_account
fee_payer (witness_withdraw_pay o) = o.to_account
fee_payer (proposal_create o _) = o.fee_paying_account
fee_payer (proposal_update o) = o.fee_paying_account
fee_payer (proposal_delete o) = o.fee_paying_account
fee_payer (withdraw_permission_create o) = o.withdraw_from_account
fee_payer (withdraw_permission_update o) = o.withdraw_from_account
fee_payer (withdraw_permission_claim o) = o.withdraw_to_account
fee_payer (withdraw_permission_delete o) = o.withdraw_from_account
fee_payer (fill_order o) = o.account_id
fee_payer (global_parameters_update _) = 0
fee_payer (file_write o) = o.payer
fee_payer (vesting_balance_create o) = o.creator
fee_payer (vesting_balance_withdraw o) = o.owner
fee_payer (bond_create_offer o) = o.creator
fee_payer (bond_cancel_offer o) = o.creator
fee_payer (bond_accept_offer o) = o.claimer
fee_payer (bond_claim_collateral o) = o.claimer
fee_payer (worker_create o) = o.owner
fee_payer (custom o) = o.payer

-- The member `fee` of every operation.
unfoldable pub fee_of : Operation → Asset
fee_of (transfer o) = o.fee
fee_of (limit_order_create o) = o.fee
fee_of (short_order_create o) = o.fee
fee_of (limit_order_cancel o) = o.fee
fee_of (short_order_cancel o) = o.fee
fee_of (call_order_update o) = o.fee
fee_of (key_create o) = o.fee
fee_of (account_create o) = o.fee
fee_of (account_update o) = o.fee
fee_of (account_whitelist o) = o.fee
fee_of (account_transfer o) = o.fee
fee_of (asset_create o) = o.fee
fee_of (asset_update o) = o.fee
fee_of (asset_update_bitasset o) = o.fee
fee_of (asset_update_feed_producers o) = o.fee
fee_of (asset_issue o) = o.fee
fee_of (asset_burn o) = o.fee
fee_of (asset_fund_fee_pool o) = o.fee
fee_of (asset_settle o) = o.fee
fee_of (asset_global_settle o) = o.fee
fee_of (asset_publish_feed o) = o.fee
fee_of (delegate_create o) = o.fee
fee_of (witness_create o) = o.fee
fee_of (witness_withdraw_pay o) = o.fee
fee_of (proposal_create o _) = o.fee
fee_of (proposal_update o) = o.fee
fee_of (proposal_delete o) = o.fee
fee_of (withdraw_permission_create o) = o.fee
fee_of (withdraw_permission_update o) = o.fee
fee_of (withdraw_permission_claim o) = o.fee
fee_of (withdraw_permission_delete o) = o.fee
fee_of (fill_order o) = o.fee
fee_of (global_parameters_update o) = o.fee
fee_of (file_write o) = o.fee
fee_of (vesting_balance_create o) = o.fee
fee_of (vesting_balance_withdraw o) = o.fee
fee_of (bond_create_offer o) = o.fee
fee_of (bond_cancel_offer o) = o.fee
fee_of (bond_accept_offer o) = o.fee
fee_of (bond_claim_collateral o) = o.fee
fee_of (worker_create o) = o.fee
fee_of (custom o) = o.fee
