-- ===== src/Operations/Lending.antt =====
-- Bonds, vesting balances and workers, with `validate`: libraries/chain, operations.hpp and
-- operations.cpp.
use bitshares_toolkit.Common.{
  ℕ, ◌*◌, Bool, ◌||◌, not, Option, ltb, leb, ◌==◌, ◌>>=◌, ◌>>◌, fc_assert,
}
use bitshares_toolkit.Common.Int.{ℤ, pos, ltb_ℤ}
use bitshares_toolkit.Fc.{Fc}
use bitshares_toolkit.Asset.{Asset, Price, exchange, make_price, price_validate}
use bitshares_toolkit.Operations.{nonneg, positive}

-- `BTS_BLOCKCHAIN_MAX_SHARES`
abbrev max_shares : ℕ
max_shares = 1000 * 1000 * 1000 * 1000 * 1000

pub record BondCreateOfferOperation : Type 0 where
  pub fee : Asset
  pub creator : ℕ
  pub offer_to_borrow : Bool
  pub amount : Asset
  pub min_match : ℤ
  pub collateral_rate : Price
  pub min_loan_period_sec : ℕ
  pub loan_period_sec : ℕ
  pub interest_apr : ℕ

unfoldable pub bond_create_offer_validate : Fc → BondCreateOfferOperation → Option (Unit {0})
bond_create_offer_validate fc op = do
  fc_assert (nonneg op.fee.amount)
  fc_assert (positive op.amount.amount)
  price_validate op.collateral_rate
  collateral ← exchange fc op.amount op.collateral_rate
  fc_assert (positive collateral.amount)
  fc_assert (ltb 0 op.min_loan_period_sec)
  fc_assert (leb op.min_loan_period_sec op.loan_period_sec)
  fc_assert (leb op.interest_apr 10000)

pub record BondCancelOfferOperation : Type 0 where
  pub fee : Asset
  pub creator : ℕ
  pub offer_id : ℕ
  pub refund : Asset

unfoldable pub bond_cancel_offer_validate : BondCancelOfferOperation → Option (Unit {0})
bond_cancel_offer_validate op = do
  fc_assert (positive op.fee.amount)
  fc_assert (positive op.refund.amount)

pub record BondAcceptOfferOperation : Type 0 where
  pub fee : Asset
  pub claimer : ℕ
  pub lender : ℕ
  pub borrower : ℕ
  pub offer_id : ℕ
  pub amount_borrowed : Asset
  pub amount_collateral : Asset

unfoldable pub bond_accept_offer_validate : BondAcceptOfferOperation → Option (Unit {0})
bond_accept_offer_validate op = do
  fc_assert (positive op.fee.amount)
  rate ← make_price op.amount_collateral op.amount_borrowed
  price_validate rate
  fc_assert (op.claimer == op.borrower || op.claimer == op.lender)
  fc_assert (not (op.borrower == op.lender))

pub record BondClaimCollateralOperation : Type 0 where
  pub fee : Asset
  pub claimer : ℕ
  pub lender : ℕ
  pub bond_id : ℕ
  pub payoff_amount : Asset
  pub collateral_claimed : Asset

unfoldable pub bond_claim_collateral_validate : BondClaimCollateralOperation → Option (Unit {0})
bond_claim_collateral_validate op = do
  fc_assert (positive op.fee.amount)
  fc_assert (nonneg op.payoff_amount.amount)
  fc_assert (nonneg op.collateral_claimed.amount)
  fc_assert (not (op.payoff_amount.asset_id == op.collateral_claimed.asset_id))

pub record VestingBalanceCreateOperation : Type 0 where
  pub fee : Asset
  pub creator : ℕ
  pub owner : ℕ
  pub amount : Asset
  pub vesting_seconds : ℕ

unfoldable pub vesting_balance_create_validate : VestingBalanceCreateOperation → Option (Unit {0})
vesting_balance_create_validate op = do
  fc_assert (nonneg op.fee.amount)
  fc_assert (positive op.amount.amount)
  fc_assert (ltb 0 op.vesting_seconds)

pub record VestingBalanceWithdrawOperation : Type 0 where
  pub fee : Asset
  pub vesting_balance : ℕ
  pub owner : ℕ
  pub amount : Asset

unfoldable pub vesting_balance_withdraw_validate :
    VestingBalanceWithdrawOperation → Option (Unit {0})
vesting_balance_withdraw_validate op = do
  fc_assert (nonneg op.fee.amount)
  fc_assert (positive op.amount.amount)

pub record WorkerCreateOperation : Type 0 where
  pub fee : Asset
  pub owner : ℕ
  pub work_begin_date : ℕ
  pub work_end_date : ℕ
  pub daily_pay : ℤ
  pub initializer : ℕ

unfoldable pub worker_create_validate : WorkerCreateOperation → Option (Unit {0})
worker_create_validate op = do
  fc_assert (nonneg op.fee.amount)
  fc_assert (ltb op.work_begin_date op.work_end_date)
  fc_assert (positive op.daily_pay)
  fc_assert (ltb_ℤ op.daily_pay (pos max_shares))
