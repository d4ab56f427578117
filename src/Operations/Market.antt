-- ===== src/Operations/Market.antt =====
-- Transfers and orders, with `validate`: libraries/chain, operations.hpp and
-- operations.cpp.
use bitshares_toolkit.Common.{
  ℕ, Bool, false, ◌||◌, not, Option, ltb, leb, ◌==◌, ◌>>◌, fc_assert, fc_assert_if,
}
use bitshares_toolkit.Common.Int.{pos, leb_ℤ, eqb_ℤ}
use bitshares_toolkit.Asset.{Asset}
use bitshares_toolkit.Operations.{nonneg, positive, MemoData}

pub record TransferOperation : Type 0 where
  pub fee : Asset
  pub from : ℕ
  pub to : ℕ
  pub amount : Asset
  pub memo : Option MemoData

unfoldable pub transfer_validate : TransferOperation → Option (Unit {0})
transfer_validate op = do
  fc_assert (nonneg op.fee.amount)
  fc_assert (not (op.from == op.to))
  fc_assert (positive op.amount.amount)

pub record LimitOrderCreateOperation : Type 0 where
  pub fee : Asset
  pub seller : ℕ
  pub amount_to_sell : Asset
  pub min_to_receive : Asset
  pub expiration : ℕ
  pub fill_or_kill : Bool

unfoldable pub limit_order_create_validate : LimitOrderCreateOperation → Option (Unit {0})
limit_order_create_validate op = do
  fc_assert (not (op.amount_to_sell.asset_id == op.min_to_receive.asset_id))
  fc_assert (nonneg op.fee.amount)
  fc_assert (positive op.amount_to_sell.amount)
  fc_assert (positive op.min_to_receive.amount)

pub record LimitOrderCancelOperation : Type 0 where
  pub order : ℕ
  pub fee_paying_account : ℕ
  pub fee : Asset

unfoldable pub limit_order_cancel_validate : LimitOrderCancelOperation → Option (Unit {0})
limit_order_cancel_validate op = do fc_assert (nonneg op.fee.amount)

pub record ShortOrderCreateOperation : Type 0 where
  pub seller : ℕ
  pub amount_to_sell : Asset
  pub fee : Asset
  pub collateral : Asset
  pub initial_collateral_ratio : ℕ
  pub maintenance_collateral_ratio : ℕ
  pub expiration : ℕ

unfoldable pub short_order_create_validate : ShortOrderCreateOperation → Option (Unit {0})
short_order_create_validate op = do
  fc_assert (nonneg op.fee.amount)
  fc_assert (leb 1001 op.initial_collateral_ratio)
  fc_assert (ltb op.maintenance_collateral_ratio op.initial_collateral_ratio)
  fc_assert (leb op.initial_collateral_ratio 32000)

pub record ShortOrderCancelOperation : Type 0 where
  pub order : ℕ
  pub fee_paying_account : ℕ
  pub fee : Asset

unfoldable pub short_order_cancel_validate : ShortOrderCancelOperation → Option (Unit {0})
short_order_cancel_validate op = do fc_assert (nonneg op.fee.amount)

pub record CallOrderUpdateOperation : Type 0 where
  pub funding_account : ℕ
  pub fee : Asset
  pub collateral_to_add : Asset
  pub amount_to_cover : Asset
  pub maintenance_collateral_ratio : ℕ

unfoldable pub call_order_update_validate : CallOrderUpdateOperation → Option (Unit {0})
call_order_update_validate op = do
  fc_assert (nonneg op.fee.amount)
  fc_assert (
      positive op.collateral_to_add.amount
      || positive op.amount_to_cover.amount
      || ltb 0 op.maintenance_collateral_ratio)
  fc_assert_if (eqb_ℤ op.amount_to_cover.amount (pos 0)) (nonneg op.collateral_to_add.amount)
  fc_assert_if (leb_ℤ op.collateral_to_add.amount (pos 0)) (positive op.amount_to_cover.amount)
  fc_assert (nonneg op.amount_to_cover.amount)
  fc_assert (not (op.amount_to_cover.asset_id == op.collateral_to_add.asset_id))
  fc_assert (op.maintenance_collateral_ratio == 0 || leb 1000 op.maintenance_collateral_ratio)

pub record FillOrderOperation : Type 0 where
  pub order_id : ℕ
  pub account_id : ℕ
  pub pays : Asset
  pub receives : Asset
  pub fee : Asset

unfoldable pub fill_order_validate : FillOrderOperation → Option (Unit {0})
fill_order_validate op = do fc_assert (false)
