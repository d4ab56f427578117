-- ===== src/FeePayment.antt =====
-- `prepare_fee` and `pay_fee` of libraries/chain/evaluator.cpp, with the objects that they change. A failed
-- assertion, an object that is not there and an overflow are `none`.
pub mod FreeIds
pub mod Distribution
mod Examples
use bitshares_toolkit.Common.{
  ℕ, ◌+◌, ◌-◌, ◌==◌, Bool, Option, none, some, if◌then◌else◌, ◌>>=◌, ◌>>◌, fc_assert,
}
use bitshares_toolkit.Common.Int.{ℤ, pos, pos_part, leb_ℤ}
use bitshares_toolkit.Fc.{Fc}
use bitshares_toolkit.Asset.{Asset, Price, exchange}
use bitshares_toolkit.Operations.Options.{ChainParameters}
use bitshares_toolkit.Payments.{FeeShares, fee_shares}
use bitshares_toolkit.Matching.{put}
use bitshares_toolkit.VestingLedger.{Ledger, deposit_cashback}

-- What the code reads and changes: the vesting balances; `accumulated_fees` and `fee_pool` of the dynamic data of
-- each asset; `lifetime_fees_paid` of each account. The rest does not change.
pub record Treasury : Type 0 where
  pub ledger : Ledger
  pub accumulated_fees : ℕ → ℤ
  pub fee_pool : ℕ → ℤ
  pub lifetime_fees_paid : ℕ → ℤ
  pub core_exchange_rate : ℕ → Option Price
  pub referrer : ℕ → ℕ
  pub is_prime : ℕ → Bool
  pub parameters : ChainParameters

-- The fee in the core asset, which is not negative
unfoldable pub prepare_fee : Fc → ℕ → Asset → Treasury → Option ℕ
prepare_fee fc account fee t = do
  fc_assert (leb_ℤ (pos 0) fee.amount)
  fc_assert (t.ledger.is_account account)
  rate ← t.core_exchange_rate fee.asset_id
  if fee.asset_id == 0 then some (pos_part fee.amount) else (do
    fee_from_pool ← exchange fc fee rate
    fc_assert (fee_from_pool.asset_id == 0)
    fc_assert (leb_ℤ fee_from_pool.amount (t.fee_pool fee.asset_id))
    some (pos_part fee_from_pool.amount))

-- A fee in another asset is exchanged with the pool of that asset.
unfoldable pub exchange_with_pool : Fc → Asset → ℕ → Treasury → Option Treasury
exchange_with_pool fc fee core t = if fee.asset_id == 0 then some t else (do
  accumulated ← fc.safe_add (t.accumulated_fees fee.asset_id) fee.amount
  pool ← fc.safe_sub (t.fee_pool fee.asset_id) (pos core)
  some (record t {
    accumulated_fees = put t.accumulated_fees fee.asset_id accumulated;
    fee_pool = put t.fee_pool fee.asset_id pool;
  }))

-- The shares of the fee, each to the object that takes it
unfoldable pub distribute : Fc → ℕ → ℕ → FeeShares → Treasury → Option Treasury
distribute fc account core shares t = do
  kept ← fc.safe_add (pos shares.accumulated) (pos shares.burned)
  accumulated ← fc.safe_add (t.accumulated_fees 0) kept
  paid ← fc.safe_add (t.lifetime_fees_paid account) (pos (core - shares.cashback))
  referred ← deposit_cashback fc (t.referrer account) (pos shares.referral) t.ledger
  ledger ← deposit_cashback fc account (pos shares.cashback) referred
  some (record t {
    accumulated_fees = put t.accumulated_fees 0 accumulated;
    lifetime_fees_paid = put t.lifetime_fees_paid account paid;
    ledger = ledger;
  })

unfoldable pub pay_fee : Fc → ℕ → Asset → ℕ → Treasury → Option Treasury
pay_fee fc account fee core t = do
  shares ← fee_shares t.parameters (t.is_prime account) (t.lifetime_fees_paid account) core
  t' ← exchange_with_pool fc fee core t
  distribute fc account core shares t'
