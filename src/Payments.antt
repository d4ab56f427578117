-- ===== src/Payments.antt =====
-- How a fee is divided: the amounts that `generic_evaluator::pay_fee` of libraries/chain/evaluator.cpp
-- computes. The fee in core is a number, since `prepare_fee` has checked that it is not negative. The C
-- `assert`s are those of a debug build. A signed product or difference outside `int64_t` has no defined
-- value, and is `none`.
pub mod Shares
mod Examples
use bitshares_toolkit.Common.{
  ℕ, ◌+◌, ◌-◌, ◌*◌, ◌/◌, ◌%◌, ◌^◌, ◌==◌, Bool, ◌&&◌, Option, some, ltb, leb, if◌then◌else◌, ◌>>=◌,
  ◌>>◌, fc_assert,
}
use bitshares_toolkit.Common.Int.{ℤ, pos_part, ◌-ℤ◌, ltb_ℤ}
use bitshares_toolkit.Operations.Options.{ChainParameters}

abbrev pub int64 : ℕ → Option ℕ
int64 n = do fc_assert (ltb n (2 ^ 63)); some n

-- The percentage for an account that has paid more than the lower threshold. In the last branch
-- the lower threshold is below the upper one, so the differences are positive.
unfoldable pub bulk_discount_percent : ChainParameters → ℤ → Option ℕ
bulk_discount_percent p paid =
    let span = pos_part (p.bulk_discount_threshold_max -ℤ p.bulk_discount_threshold_min) in
    if ltb_ℤ p.bulk_discount_threshold_max paid
    then some p.max_bulk_discount_percent_of_fee
    else if span == 0
    then some 0
    else do
      above ← int64 (pos_part (paid -ℤ p.bulk_discount_threshold_min))
      product ← int64 (p.max_bulk_discount_percent_of_fee * above)
      some (product / span)

-- `core_fee_subtotal.amount.value * bulk_discount_percent` is a `uint64_t`.
abbrev pub discounted : ℕ → ℕ → Option ℕ
discounted fee percent = do
  fc_assert (leb percent 10000)
  fc_assert (leb (fee * percent % 2 ^ 64 / 10000) fee)
  some (fee * percent % 2 ^ 64 / 10000)

unfoldable pub bulk_cashback : ChainParameters → Bool → ℤ → ℕ → Option ℕ
bulk_cashback p is_prime paid fee =
    if ltb_ℤ p.bulk_discount_threshold_min paid && is_prime
    then (do percent ← bulk_discount_percent p paid; discounted fee percent)
    else some 0

pub record FeeShares : Type 0 where
  pub cashback : ℕ
  pub accumulated : ℕ
  pub burned : ℕ
  pub referral : ℕ

-- The rest of the fee, `core_fee_total`.
unfoldable pub split_total : ChainParameters → ℕ → ℕ → Option FeeShares
split_total p cashback total = do
  witness ← int64 (total * p.witness_percent_of_fee)
  burn ← int64 (total * p.burn_percent_of_fee)
  fc_assert (leb (witness / 10000 + burn / 10000) total)
  some (record {
    cashback = cashback;
    accumulated = witness / 10000;
    burned = burn / 10000;
    referral = total - witness / 10000 - burn / 10000;
  })

unfoldable pub fee_shares : ChainParameters → Bool → ℤ → ℕ → Option FeeShares
fee_shares p is_prime paid fee = do
  cashback ← bulk_cashback p is_prime paid fee
  shares ← split_total p cashback (fee - cashback)
  fc_assert (shares.referral + shares.cashback + shares.accumulated + shares.burned == fee)
  some shares
