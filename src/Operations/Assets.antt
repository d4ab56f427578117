-- ===== src/Operations/Assets.antt =====
-- The operations on assets, with `validate`: libraries/chain, operations.hpp and
-- operations.cpp.
use bitshares_toolkit.Common.{
  ℕ, ◌+◌, ◌*◌, true, not, Option, some, none, List, leb, ◌==◌, ◌>>=◌, ◌>>◌, fc_assert, fc_assert_if,
}
use bitshares_toolkit.Common.Int.{ℤ, pos, leb_ℤ}
use bitshares_toolkit.Fc.{Fc}
use bitshares_toolkit.Asset.{Asset, Price, PriceFeed, exchange, feed_validate, same}
use bitshares_toolkit.Names.{is_valid_symbol}
use bitshares_toolkit.Operations.{nonneg, positive, is_set, MemoData}
use bitshares_toolkit.Operations.Options.{
  AssetOptions, options_validate, BitassetOptions, bitasset_validate, has_any, market_issued,
  disable_force_settle, global_settle,
}

-- `BTS_BLOCKCHAIN_MAX_SHARES`
abbrev max_shares : ℕ
max_shares = 1000 * 1000 * 1000 * 1000 * 1000

pub record AssetCreateOperation : Type 0 where
  pub fee : Asset
  pub issuer : ℕ
  pub symbol : List ℕ
  pub precision : ℕ
  pub common_options : AssetOptions
  pub bitasset_options : Option BitassetOptions

unfoldable pub asset_create_validate : Fc → AssetCreateOperation → Option (Unit {0})
asset_create_validate fc op = do
  fc_assert (nonneg op.fee.amount)
  fc_assert (is_valid_symbol op.symbol)
  options_validate op.common_options
  fc_assert_if (has_any op.common_options.flags (disable_force_settle + global_settle))
      (has_any op.common_options.flags market_issued)
  fc_assert (same (is_set op.bitasset_options) (has_any op.common_options.flags market_issued))
  elim op.bitasset_options [ none ↦ some tt | some b ↦ bitasset_validate b ]
  dummy ← exchange fc (record { amount = pos 1; asset_id = 0 }) op.common_options.core_exchange_rate
  fc_assert (dummy.asset_id == 1)
  fc_assert (leb op.precision 12)

pub record AssetGlobalSettleOperation : Type 0 where
  pub fee : Asset
  pub issuer : ℕ
  pub asset_to_settle : ℕ
  pub settle_price : Price

unfoldable pub asset_global_settle_validate : AssetGlobalSettleOperation → Option (Unit {0})
asset_global_settle_validate op = do
  fc_assert (nonneg op.fee.amount)
  fc_assert (op.asset_to_settle == op.settle_price.base.asset_id)

pub record AssetSettleOperation : Type 0 where
  pub fee : Asset
  pub account : ℕ
  pub amount : Asset

unfoldable pub asset_settle_validate : AssetSettleOperation → Option (Unit {0})
asset_settle_validate op = do fc_assert (nonneg op.fee.amount); fc_assert (nonneg op.amount.amount)

pub record AssetFundFeePoolOperation : Type 0 where
  pub fee : Asset
  pub from_account : ℕ
  pub asset_id : ℕ
  pub amount : ℤ

unfoldable pub asset_fund_fee_pool_validate : AssetFundFeePoolOperation → Option (Unit {0})
asset_fund_fee_pool_validate op = do
  fc_assert (nonneg op.fee.amount)
  fc_assert (op.fee.asset_id == 0)
  fc_assert (positive op.amount)

pub record AssetUpdateOperation : Type 0 where
  pub fee : Asset
  pub issuer : ℕ
  pub asset_to_update : ℕ
  pub new_issuer : Option ℕ
  pub new_options : AssetOptions

unfoldable pub asset_update_validate : Fc → AssetUpdateOperation → Option (Unit {0})
asset_update_validate fc op = do
  fc_assert (nonneg op.fee.amount)
  fc_assert (elim op.new_issuer [ none ↦ true | some i ↦ not (op.issuer == i) ])
  options_validate op.new_options
  dummy ←
      exchange fc (record { amount = pos 1; asset_id = op.asset_to_update })
        op.new_options.core_exchange_rate
  fc_assert (dummy.asset_id == 0)

pub record AssetUpdateBitassetOperation : Type 0 where
  pub fee : Asset
  pub issuer : ℕ
  pub asset_to_update : ℕ
  pub new_options : BitassetOptions

unfoldable pub asset_update_bitasset_validate : AssetUpdateBitassetOperation → Option (Unit {0})
asset_update_bitasset_validate op = do
  fc_assert (nonneg op.fee.amount)
  bitasset_validate op.new_options

pub record AssetUpdateFeedProducersOperation : Type 0 where
  pub fee : Asset
  pub issuer : ℕ
  pub asset_to_update : ℕ
  pub new_feed_producers : List ℕ

unfoldable pub asset_update_feed_producers_validate :
    AssetUpdateFeedProducersOperation → Option (Unit {0})
asset_update_feed_producers_validate op = do fc_assert (nonneg op.fee.amount)

pub record AssetPublishFeedOperation : Type 0 where
  pub fee : Asset
  pub publisher : ℕ
  pub asset_id : ℕ
  pub feed : PriceFeed

unfoldable pub asset_publish_feed_validate : Fc → AssetPublishFeedOperation → Option (Unit {0})
asset_publish_feed_validate fc op = do fc_assert (nonneg op.fee.amount); feed_validate fc op.feed

pub record AssetIssueOperation : Type 0 where
  pub fee : Asset
  pub issuer : ℕ
  pub asset_to_issue : Asset
  pub issue_to_account : ℕ
  pub memo : Option MemoData

unfoldable pub asset_issue_validate : AssetIssueOperation → Option (Unit {0})
asset_issue_validate op = do
  fc_assert (nonneg op.fee.amount)
  fc_assert (leb_ℤ op.asset_to_issue.amount (pos max_shares))
  fc_assert (positive op.asset_to_issue.amount)
  fc_assert (not (op.asset_to_issue.asset_id == 0))

pub record AssetBurnOperation : Type 0 where
  pub fee : Asset
  pub payer : ℕ
  pub amount_to_burn : Asset

unfoldable pub asset_burn_validate : AssetBurnOperation → Option (Unit {0})
asset_burn_validate op = do
  fc_assert (nonneg op.fee.amount)
  fc_assert (leb_ℤ op.amount_to_burn.amount (pos max_shares))
  fc_assert (positive op.amount_to_burn.amount)
