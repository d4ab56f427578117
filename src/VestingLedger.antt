-- ===== src/VestingLedger.antt =====
-- The evaluators of libraries/chain/vesting_balance_evaluator.cpp and `deposit_cashback` of database.cpp, on the
-- vesting balances and the account balances. A failed assertion, an object that is not there and an
-- overflow are `none`.
pub mod Amounts
pub mod Creation
mod Examples
use bitshares_toolkit.Common.{
  ℕ, ◌+◌, ◌==◌, Bool, true, false, not, Option, none, some, List, if◌then◌else◌, ◌>>=◌, ◌>>◌,
  fc_assert,
}
use bitshares_toolkit.Common.Int.{ℤ, pos, ltb_ℤ, eqb_ℤ}
use bitshares_toolkit.Common.Maps.{Map, find, insert}
use bitshares_toolkit.Fc.{Fc}
use bitshares_toolkit.Asset.{Asset, asset_ge}
use bitshares_toolkit.Operations.{negate}
use bitshares_toolkit.Operations.Options.{has_any, transfer_restricted, market_issued}
use bitshares_toolkit.Operations.Lending.{
  VestingBalanceCreateOperation, VestingBalanceWithdrawOperation,
}
use bitshares_toolkit.Transfers.{AccountBalance, AssetObject, get_balance, adjust_balance}
use bitshares_toolkit.Vesting.{
  Policy, linear, cdd, VestingBalance, is_withdraw_allowed, deposit, withdraw,
}

-- What the code reads and changes: the vesting balances by id, the account balances, and `cashback_vb` of each
-- account; the accounts that there are and the assets do not change.
pub record Ledger : Type 0 where
  pub vestings : Map VestingBalance
  pub next_vesting : ℕ
  pub balances : List AccountBalance
  pub cashback_vb : ℕ → Option ℕ
  pub is_account : ℕ → Bool
  pub assets : ℕ → Option AssetObject
  pub head_block_time : ℕ
  pub cashback_vesting_period_seconds : ℕ

-- `vesting_balance_create_evaluator::do_evaluate`
unfoldable pub vesting_create_evaluate : VestingBalanceCreateOperation → Ledger → Option (Unit {0})
vesting_create_evaluate op d = do
  fc_assert (d.is_account op.creator)
  fc_assert (d.is_account op.owner)
  fc_assert (ltb_ℤ (pos 0) op.amount.amount)
  enough ← asset_ge (get_balance d.balances op.creator op.amount.asset_id) op.amount
  fc_assert enough
  asset ← d.assets op.amount.asset_id
  fc_assert (not (has_any asset.flags transfer_restricted))
  fc_assert (not (has_any asset.flags market_issued))

abbrev pub fresh_vesting : ℕ → Asset → ℕ → ℕ → VestingBalance
fresh_vesting owner balance vesting_seconds now = record {
  owner = owner;
  balance = balance;
  policy =
      cdd
        (record { vesting_seconds = vesting_seconds; coin_seconds_earned = 0; last_update = now });
}

-- `create< vesting_balance_object >`
abbrev pub add_vesting : VestingBalance → Ledger → Ledger
add_vesting v d = record d {
  vestings = insert d.next_vesting v d.vestings;
  next_vesting = d.next_vesting + 1;
}

-- `vesting_balance_create_evaluator::do_apply`, with the check of the balance that follows the debit
unfoldable pub vesting_create_apply :
    Fc → VestingBalanceCreateOperation → Ledger → Option (Ledger × ℕ)
vesting_create_apply fc op d = do
  debit ← negate fc op.amount
  balances ← adjust_balance fc op.creator debit d.balances
  enough ← asset_ge (get_balance balances op.creator op.amount.asset_id) op.amount
  fc_assert enough
  some (
    record (add_vesting (fresh_vesting op.owner op.amount op.vesting_seconds d.head_block_time) d) {
      balances = balances;
    },
    d.next_vesting,
  )

-- `vesting_balance_withdraw_evaluator::do_evaluate`
unfoldable pub vesting_withdraw_evaluate :
    Fc → VestingBalanceWithdrawOperation → Ledger → Option (Unit {0})
vesting_withdraw_evaluate fc op d = do
  v ← find op.vesting_balance d.vestings
  fc_assert (op.owner == v.owner)
  allowed ← is_withdraw_allowed fc v d.head_block_time op.amount
  fc_assert allowed
  fc_assert (d.is_account op.owner)

-- `vesting_balance_withdraw_evaluator::do_apply`
unfoldable pub vesting_withdraw_apply :
    Fc → VestingBalanceWithdrawOperation → Ledger → Option Ledger
vesting_withdraw_apply fc op d = do
  v ← find op.vesting_balance d.vestings
  v' ← withdraw fc v d.head_block_time op.amount
  balances ← adjust_balance fc op.owner op.amount d.balances
  some (record d { vestings = insert op.vesting_balance v' d.vestings; balances = balances })

abbrev pub in_core : ℤ → Asset
in_core amount = record { amount = amount; asset_id = 0 }

-- The policy is of coin days and has the maturity that the chain asks for.
abbrev pub is_current : ℕ → Policy → Bool
is_current seconds (linear p) = false
is_current seconds (cdd p) = p.vesting_seconds == seconds

abbrev pub new_cashback : ℕ → ℤ → Ledger → Ledger
new_cashback account amount d =
    record (add_vesting
      (fresh_vesting account (in_core amount) d.cashback_vesting_period_seconds d.head_block_time)
      d) { cashback_vb = λ j. if j == account then some d.next_vesting else d.cashback_vb j }

-- The two ways on: a balance is there that takes the deposit, or a new one is made.
abbrev pub deposit_in : Fc → ℕ → ℤ → Ledger → Option ℕ → Option Ledger
deposit_in fc account amount d none = some (new_cashback account amount d)
deposit_in fc account amount d (some id) = do
  v ← find id d.vestings
  if is_current d.cashback_vesting_period_seconds v.policy
      then (do
        v' ← deposit fc v d.head_block_time (in_core amount)
        some (record d { vestings = insert id v' d.vestings }))
      else some (new_cashback account amount d)

unfoldable pub deposit_cashback : Fc → ℕ → ℤ → Ledger → Option Ledger
deposit_cashback fc account amount d =
    if eqb_ℤ amount (pos 0) then some d else deposit_in fc account amount d (d.cashback_vb account)
