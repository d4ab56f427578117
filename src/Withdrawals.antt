-- ===== src/Withdrawals.antt =====
-- Withdrawal permissions: include/bts/chain/withdraw_permission_object.hpp and the evaluators of
-- withdraw_permission_evaluator.cpp, libraries/chain. A failed assertion, an object that is not there and
-- an overflow are `none`.
pub mod Claims
pub mod Limits
mod Examples
use bitshares_toolkit.Common.{
  ℕ, suc, ◌+◌, ◌-◌, ◌*◌, ◌/◌, ◌%◌, ◌^◌, ◌==◌, Bool, ◌||◌, Option, none, some, List, ltb, leb,
  if◌then◌else◌, ◌>>=◌, ◌>>◌, fc_assert, fc_assert_if,
}
use bitshares_toolkit.Common.Int.{ℤ, pos, negsuc, pos_part, neg_part, neg_ℤ, sub_ℕ, ltb_ℤ, eqb_ℤ}
use bitshares_toolkit.Common.Maps.{Map, find, insert, erase}
use bitshares_toolkit.Fc.{Fc}
use bitshares_toolkit.Fc.Time.{FcTime}
use bitshares_toolkit.Asset.{Asset, asset_ge, asset_le}
use bitshares_toolkit.Operations.{is_set}
use bitshares_toolkit.Operations.Options.{has_any, white_list, transfer_restricted}
use bitshares_toolkit.Operations.Permissions.{
  WithdrawPermissionCreateOperation, WithdrawPermissionUpdateOperation,
  WithdrawPermissionClaimOperation, WithdrawPermissionDeleteOperation,
}
use bitshares_toolkit.Transfers.{
  AccountBalance, Party, AssetObject, get_balance, is_authorized_asset, transfer_apply,
}

pub record Permit : Type 0 where
  pub withdraw_from_account : ℕ
  pub authorized_account : ℕ
  pub withdrawal_limit : Asset
  pub withdrawal_period_sec : ℕ
  pub next_period_start_time : ℕ
  pub expiration : ℕ
  pub claimed_this_period : ℤ

-- The part of the database that the evaluators read and change: the permissions by their id
pub record Chain : Type 0 where
  pub permits : Map Permit
  pub next_permit : ℕ
  pub balances : List AccountBalance
  pub accounts : ℕ → Option Party
  pub assets : ℕ → Option AssetObject
  pub head_block_time : ℕ
  pub block_interval : ℕ

abbrev pub claimable : Permit → Bool
claimable p = ltb_ℤ p.claimed_this_period p.withdrawal_limit.amount

unfoldable pub available_this_period : Fc → FcTime → Permit → ℕ → Option Asset
available_this_period fc time p now =
    if ltb (time.plus p.next_period_start_time p.withdrawal_period_sec) now
    then some p.withdrawal_limit
    else if claimable p
    then (do
      left ← fc.safe_sub p.withdrawal_limit.amount p.claimed_this_period
      some (record { amount = left; asset_id = p.withdrawal_limit.asset_id }))
    else some (record { amount = pos 0; asset_id = p.withdrawal_limit.asset_id })

-- The end of the last period; the product is a `uint32_t`.
abbrev pub end_of_periods : FcTime → ℕ → ℕ → ℕ → ℕ
end_of_periods time start periods seconds = time.plus start (periods * seconds % 2 ^ 32)

unfoldable pub create_evaluate : FcTime → WithdrawPermissionCreateOperation → Chain → Option ℕ
create_evaluate time op d = do
  fc_assert (is_set (d.accounts op.withdraw_from_account))
  fc_assert (is_set (d.accounts op.authorized_account))
  fc_assert (is_set (d.assets op.withdrawal_limit.asset_id))
  fc_assert (ltb d.head_block_time op.period_start_time)
  fc_assert (
      ltb d.head_block_time (
        end_of_periods time op.period_start_time op.periods_until_expiration
          op.withdrawal_period_sec))
  fc_assert (leb d.block_interval op.withdrawal_period_sec)
  some d.next_permit

unfoldable pub create_apply : FcTime → WithdrawPermissionCreateOperation → Chain → Chain
create_apply time op d = record d {
  permits =
      insert d.next_permit
        (record {
          withdraw_from_account = op.withdraw_from_account;
          authorized_account = op.authorized_account;
          withdrawal_limit = op.withdrawal_limit;
          withdrawal_period_sec = op.withdrawal_period_sec;
          next_period_start_time = op.period_start_time;
          expiration =
              end_of_periods time op.period_start_time op.periods_until_expiration
                op.withdrawal_period_sec;
          claimed_this_period = pos 0;
        })
        d.permits;
  next_permit = d.next_permit + 1;
}

-- The rest of the claim's checks, on the asset that is withdrawn: the account that the code calls
-- `from` is the one that the amount is paid to.
abbrev pub asset_checks :
    Permit → WithdrawPermissionClaimOperation → Chain → AssetObject → Option (Unit {0})
asset_checks p op d asset = do
  fc_assert_if (has_any asset.flags transfer_restricted)
      ((asset.issuer == p.authorized_account) || (asset.issuer == p.withdraw_from_account))
  if has_any asset.flags white_list
      then (do
        from ← d.accounts op.withdraw_to_account
        to ← d.accounts p.authorized_account
        fc_assert (is_authorized_asset to asset)
        fc_assert (is_authorized_asset from asset))
      else some tt

abbrev pub claim_checks :
    Fc → FcTime → Permit → WithdrawPermissionClaimOperation → Chain → Option (Unit {0})
claim_checks fc time p op d = do
  fc_assert (ltb d.head_block_time p.expiration)
  fc_assert (p.authorized_account == op.withdraw_to_account)
  fc_assert (p.withdraw_from_account == op.withdraw_from_account)
  available ← available_this_period fc time p d.head_block_time
  fc_assert (asset_le op.amount_to_withdraw available)
  enough ←
      asset_ge (get_balance d.balances op.withdraw_from_account op.amount_to_withdraw.asset_id)
        op.amount_to_withdraw
  fc_assert enough
  asset ← d.assets op.amount_to_withdraw.asset_id
  asset_checks p op d asset

unfoldable pub claim_evaluate :
    Fc → FcTime → WithdrawPermissionClaimOperation → Chain → Option (Unit {0})
claim_evaluate fc time op d = do
  p ← find op.withdraw_permission d.permits
  claim_checks fc time p op d

-- Signed division, towards zero; a division by zero has no value.
abbrev pub quotient : ℤ → ℕ → Option ℤ
quotient a n = if n == 0 then none else some (sub_ℕ (pos_part a / n) (neg_part a / n))

-- The value as a `uint32_t`
abbrev pub to_uint32 : ℤ → ℕ
to_uint32 (pos n) = n % 2 ^ 32
to_uint32 (negsuc n) = 2 ^ 32 - 1 - n % 2 ^ 32

abbrev pub times : ℤ → ℕ → ℤ
times a n = sub_ℕ (pos_part a * n) (neg_part a * n)

-- The change of the permission by a claim
unfoldable pub claim_permit : Fc → FcTime → ℕ → ℤ → Permit → Option Permit
claim_permit fc time now amount p = do
  periods ← quotient (time.seconds_between now p.next_period_start_time) p.withdrawal_period_sec
  claimed ←
      (if eqb_ℤ periods (pos 0) then fc.safe_add p.claimed_this_period amount else some amount)
  some (record p {
    next_period_start_time =
        time.plus p.next_period_start_time (to_uint32 (times periods p.withdrawal_period_sec));
    claimed_this_period = claimed;
  })

unfoldable pub claim_apply : Fc → FcTime → WithdrawPermissionClaimOperation → Chain → Option Chain
claim_apply fc time op d = do
  p ← find op.withdraw_permission d.permits
  p' ← claim_permit fc time d.head_block_time op.amount_to_withdraw.amount p
  balances ←
      transfer_apply fc op.withdraw_from_account op.withdraw_to_account op.amount_to_withdraw
        d.balances
  some (record d { permits = insert op.withdraw_permission p' d.permits; balances = balances })

unfoldable pub update_evaluate :
    FcTime → WithdrawPermissionUpdateOperation → Chain → Option (Unit {0})
update_evaluate time op d = do
  p ← find op.permission_to_update d.permits
  fc_assert (p.authorized_account == op.authorized_account)
  fc_assert (p.withdraw_from_account == op.withdraw_from_account)
  fc_assert (is_set (d.assets op.withdrawal_limit.asset_id))
  fc_assert (leb d.head_block_time op.period_start_time)
  fc_assert (
      ltb d.head_block_time (
        end_of_periods time op.period_start_time op.periods_until_expiration
          op.withdrawal_period_sec))
  fc_assert (leb d.block_interval op.withdrawal_period_sec)

unfoldable pub update_apply : FcTime → WithdrawPermissionUpdateOperation → Chain → Option Chain
update_apply time op d = do
  p ← find op.permission_to_update d.permits
  some (record d {
    permits =
        insert op.permission_to_update
          (record p {
            next_period_start_time = op.period_start_time;
            expiration =
                end_of_periods time op.period_start_time op.periods_until_expiration
                  op.withdrawal_period_sec;
            withdrawal_limit = op.withdrawal_limit;
            withdrawal_period_sec = op.withdrawal_period_sec;
          })
          d.permits;
  })

unfoldable pub delete_evaluate : WithdrawPermissionDeleteOperation → Chain → Option (Unit {0})
delete_evaluate op d = do
  p ← find op.withdrawal_permission d.permits
  fc_assert (p.authorized_account == op.authorized_account)
  fc_assert (p.withdraw_from_account == op.withdraw_from_account)

unfoldable pub delete_apply : WithdrawPermissionDeleteOperation → Chain → Option Chain
delete_apply op d = do
  _ ← find op.withdrawal_permission d.permits
  some (record d { permits = erase op.withdrawal_permission d.permits })
