-- ===== src/Vesting/Examples.antt =====
-- Runs of the vesting policies, and the theorems at these inputs.
use bitshares_toolkit.Common.{ℕ, ◌+◌, ◌*◌, ◌≡◌, refl, true, some, arith}
use bitshares_toolkit.Common.Int.{pos, ◌<ℤ◌, ◌+ℤ◌, ◌-ℤ◌}
use bitshares_toolkit.Fc.Native.{native_fc}
use bitshares_toolkit.Asset.{Asset, asset_le}
use bitshares_toolkit.Vesting.{
  LinearPolicy, CddPolicy, cdd, linear, VestingBalance, compute_coin_seconds_earned, cdd_allowed,
  withdraw_allowed, is_withdraw_allowed, withdraw,
}
use bitshares_toolkit.Vesting.Coindays.{IsValid, earned}
use bitshares_toolkit.Vesting.Balances.{IsVesting, withdraw-IsVesting}
use bitshares_toolkit.Vesting.Linear.{linear_overdraws}

abbrev shares : ℕ → Asset
shares n = record { amount = pos n; asset_id = 0 }

abbrev coindays : CddPolicy
coindays = record { vesting_seconds = 100; coin_seconds_earned = 0; last_update = 1000 }

abbrev pension : VestingBalance
pension = record { owner = 7; balance = shares 500; policy = cdd coindays }

coindays-IsValid : IsValid coindays (pos 500) 1040
coindays-IsValid = omega arith

pension-IsVesting : IsVesting pension coindays 1040
pension-IsVesting = record { by_policy = refl; valid = coindays-IsValid }

half_vested : is_withdraw_allowed native_fc pension 1040 (shares 200) ≡ some true
unfolding is_withdraw_allowed withdraw_allowed cdd_allowed compute_coin_seconds_earned asset_le ◌-ℤ◌
half_vested = refl

withdraw-IsVesting_example :
    (w : VestingBalance) × (q : CddPolicy) × (withdraw native_fc pension 1040 (shares 200) ≡ some w)
    × IsVesting w q 1040
    × (w.balance.amount +ℤ pos 200 ≡ pos 500)
    × (q.coin_seconds_earned + 200 * 100 ≡ earned coindays (pos 500) 1040)
withdraw-IsVesting_example =
    withdraw-IsVesting native_fc pension coindays 1040 (shares 200) pension-IsVesting (omega arith)
      refl half_vested

abbrev schedule : LinearPolicy
schedule = record {
  vesting_seconds = 100;
  begin_date = 1000;
  begin_balance = pos 500;
  total_withdrawn = pos 0;
}

abbrev trust : VestingBalance
trust = record { owner = 7; balance = shares 500; policy = linear schedule }

linear_overdraws_example :
    (is_withdraw_allowed native_fc trust 1300 (shares 1500) ≡ some true)
    × ((w : VestingBalance) × (withdraw native_fc trust 1300 (shares 1500) ≡ some w)
        × (w.balance.amount <ℤ pos 0))
linear_overdraws_example =
    linear_overdraws native_fc trust schedule 1300 (shares 1500) refl (omega arith) refl refl refl
      (omega arith) (omega arith) (omega arith)
