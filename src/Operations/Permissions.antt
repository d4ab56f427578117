-- ===== src/Operations/Permissions.antt =====
-- Withdrawal permissions, files and custom operations, with `validate`: libraries/chain, operations.hpp and
-- operations.cpp.
use bitshares_toolkit.Common.{
  ℕ, ◌+◌, ◌*◌, not, Option, List, ltb, leb, ◌==◌, ◌>>◌, fc_assert, length,
}
use bitshares_toolkit.Asset.{Asset}
use bitshares_toolkit.Operations.{nonneg, positive, MemoData, AuthSets, insert_all}

pub record WithdrawPermissionCreateOperation : Type 0 where
  pub fee : Asset
  pub withdraw_from_account : ℕ
  pub authorized_account : ℕ
  pub withdrawal_limit : Asset
  pub withdrawal_period_sec : ℕ
  pub periods_until_expiration : ℕ
  pub period_start_time : ℕ

unfoldable pub withdraw_permission_create_validate :
    WithdrawPermissionCreateOperation → Option (Unit {0})
withdraw_permission_create_validate op = do
  fc_assert (nonneg op.fee.amount)
  fc_assert (not (op.withdraw_from_account == op.authorized_account))
  fc_assert (positive op.withdrawal_limit.amount)
  fc_assert (ltb 0 op.withdrawal_period_sec)
  fc_assert (ltb 0 op.periods_until_expiration)

pub record WithdrawPermissionUpdateOperation : Type 0 where
  pub fee : Asset
  pub withdraw_from_account : ℕ
  pub authorized_account : ℕ
  pub permission_to_update : ℕ
  pub withdrawal_limit : Asset
  pub withdrawal_period_sec : ℕ
  pub period_start_time : ℕ
  pub periods_until_expiration : ℕ

unfoldable pub withdraw_permission_update_validate :
    WithdrawPermissionUpdateOperation → Option (Unit {0})
withdraw_permission_update_validate op = do
  fc_assert (positive op.withdrawal_limit.amount)
  fc_assert (nonneg op.fee.amount)
  fc_assert (ltb 0 op.withdrawal_period_sec)
  fc_assert (not (op.withdraw_from_account == op.authorized_account))
  fc_assert (ltb 0 op.periods_until_expiration)

pub record WithdrawPermissionClaimOperation : Type 0 where
  pub fee : Asset
  pub withdraw_permission : ℕ
  pub withdraw_from_account : ℕ
  pub withdraw_to_account : ℕ
  pub amount_to_withdraw : Asset
  pub memo : Option MemoData

unfoldable pub withdraw_permission_claim_validate :
    WithdrawPermissionClaimOperation → Option (Unit {0})
withdraw_permission_claim_validate op = do
  fc_assert (not (op.withdraw_to_account == op.withdraw_from_account))
  fc_assert (positive op.amount_to_withdraw.amount)
  fc_assert (nonneg op.fee.amount)

pub record WithdrawPermissionDeleteOperation : Type 0 where
  pub fee : Asset
  pub withdraw_from_account : ℕ
  pub authorized_account : ℕ
  pub withdrawal_permission : ℕ

unfoldable pub withdraw_permission_delete_validate :
    WithdrawPermissionDeleteOperation → Option (Unit {0})
withdraw_permission_delete_validate op = do
  fc_assert (nonneg op.fee.amount)
  fc_assert (not (op.withdraw_from_account == op.authorized_account))

pub record FileWriteOperation : Type 0 where
  pub fee : Asset
  pub payer : ℕ
  pub file_id : ℕ
  pub owner : ℕ
  pub group : ℕ
  pub flags : ℕ
  pub offset : ℕ
  pub bytes : List ℕ
  pub lease_seconds : ℕ
  pub file_size : ℕ
  pub precondition_checksum : Option ℕ

unfoldable pub file_write_validate : FileWriteOperation → Option (Unit {0})
file_write_validate op = do
  fc_assert (leb (op.offset + length op.bytes) op.file_size)
  fc_assert (leb op.flags 47)
  fc_assert (ltb 0 op.file_size)
  fc_assert (ltb op.lease_seconds (60 * 60 * 24 * 365 * 10))

pub record CustomOperation : Type 0 where
  pub fee : Asset
  pub payer : ℕ
  pub required_auths : List ℕ
  pub id : ℕ
  pub bytes : List ℕ

unfoldable pub custom_validate : CustomOperation → Option (Unit {0})
custom_validate op = do fc_assert (positive op.fee.amount)

unfoldable pub custom_auth : CustomOperation → AuthSets → AuthSets
custom_auth op sets = record sets { active = insert_all op.required_auths sets.active }
