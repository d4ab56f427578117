-- ===== src/Vesting.antt =====
-- libraries/chain/vesting_balance_object.cpp and its header: balances that become available over
-- time. Times are the seconds of `time_point_sec`. The C `assert`s, absent from a release build, are
-- absent from the model.
pub mod Coindays
pub mod Balances
pub mod Linear
mod Examples
use bitshares_toolkit.Common.{
  ℕ, ◌-◌, min, Bool, true, false, ◌&&◌, Option, some, none, ltb, leb, ◌==◌, if◌then◌else◌, ◌>>=◌,
  ◌>>◌, fc_assert,
}
use bitshares_toolkit.Common.Int.{ℤ, pos, ◌-ℤ◌, leb_ℤ}
use bitshares_toolkit.Fc.{Fc}
use bitshares_toolkit.Asset.{Asset, max_share_supply, asset_le, asset_add, asset_sub}

pub record Context : Type 0 where
  pub balance : Asset
  pub now : ℕ
  pub amount : Asset

pub record LinearPolicy : Type 0 where
  pub vesting_seconds : ℕ
  pub begin_date : ℕ
  pub begin_balance : ℤ
  pub total_withdrawn : ℤ

pub record CddPolicy : Type 0 where
  pub vesting_seconds : ℕ
  pub coin_seconds_earned : ℕ
  pub last_update : ℕ

pub data Policy : Type 0 where
  linear : LinearPolicy → Policy
  cdd : CddPolicy → Policy

pub record VestingBalance : Type 0 where
  pub owner : ℕ
  pub balance : Asset
  pub policy : Policy

abbrev pub context : VestingBalance → ℕ → Asset → Context
context v now amount = record { balance = v.balance; now = now; amount = amount }

module _ (fc : Fc) where
  -- `a.amount + b.amount` is a checked sum, computed only if both amounts pass.
  unfoldable pub sum_below_max_shares : Asset → Asset → Option Bool
  sum_below_max_shares a b =
      if leb_ℤ a.amount (pos max_share_supply) && leb_ℤ b.amount (pos max_share_supply)
      then (do s ← fc.safe_add a.amount b.amount; some (leb_ℤ s (pos max_share_supply)))
      else some false

  unfoldable pub linear_allowed : LinearPolicy → Context → Option Asset
  linear_allowed p ctx =
      if leb ctx.now p.begin_date
      then some (record { amount = pos 0; asset_id = ctx.balance.asset_id })
      else if p.vesting_seconds == 0
      then some ctx.balance
      else let elapsed = ctx.now - p.begin_date in
        let total =
          fc.div128 (fc.mul128 (fc.to_uint128 p.begin_balance) elapsed) p.vesting_seconds in
        if leb total (fc.to_uint128 p.total_withdrawn)
        then some (record { amount = pos 0; asset_id = ctx.balance.asset_id })
        else (do
          let rest = fc.sub128 total (fc.to_uint128 p.total_withdrawn)
          fc_assert (leb rest max_share_supply)
          some (record { amount = pos (fc.to_uint64 rest); asset_id = ctx.balance.asset_id }))

  unfoldable pub linear_on_withdraw : LinearPolicy → Context → Option LinearPolicy
  linear_on_withdraw p ctx = do
    t ← fc.safe_add p.total_withdrawn ctx.amount.amount
    some (record p { total_withdrawn = t })

  unfoldable pub compute_coin_seconds_earned : CddPolicy → Context → ℕ
  compute_coin_seconds_earned p ctx =
      let delta_coin_seconds =
        fc.mul128 (fc.to_uint128 ctx.balance.amount)
          (fc.to_uint128 (pos ctx.now -ℤ pos p.last_update)) in
      let cap = fc.mul128 (fc.to_uint128 ctx.balance.amount) p.vesting_seconds in
      min (fc.add128 p.coin_seconds_earned delta_coin_seconds) cap

  unfoldable pub update_coin_seconds_earned : CddPolicy → Context → CddPolicy
  update_coin_seconds_earned p ctx = record p {
    coin_seconds_earned = compute_coin_seconds_earned p ctx;
    last_update = ctx.now;
  }

  unfoldable pub cdd_allowed : CddPolicy → Context → Asset
  cdd_allowed p ctx = record {
    amount = pos (fc.to_uint64 (fc.div128 (compute_coin_seconds_earned p ctx) p.vesting_seconds));
    asset_id = ctx.balance.asset_id;
  }

  unfoldable pub cdd_on_withdraw : CddPolicy → Context → CddPolicy
  cdd_on_withdraw p ctx =
      let q = update_coin_seconds_earned p ctx in
      record q {
        coin_seconds_earned =
            fc.sub128 q.coin_seconds_earned
              (fc.mul128 (fc.to_uint128 ctx.amount.amount) q.vesting_seconds);
      }

  -- `is_deposit_allowed` of both policies.
  unfoldable pub deposit_allowed : Context → Option Bool
  deposit_allowed ctx =
      if ctx.amount.asset_id == ctx.balance.asset_id
      then sum_below_max_shares ctx.amount ctx.balance
      else some false

  unfoldable pub withdraw_allowed : Policy → Context → Option Bool
  withdraw_allowed (linear p) ctx = do a ← linear_allowed p ctx; some (asset_le ctx.amount a)
  withdraw_allowed (cdd p) ctx = some (asset_le ctx.amount (cdd_allowed p ctx))

  unfoldable pub on_deposit : Policy → Context → Policy
  on_deposit (linear p) ctx = linear p
  on_deposit (cdd p) ctx = cdd (update_coin_seconds_earned p ctx)

  unfoldable pub on_withdraw : Policy → Context → Option Policy
  on_withdraw (linear p) ctx = do q ← linear_on_withdraw p ctx; some (linear q)
  on_withdraw (cdd p) ctx = some (cdd (cdd_on_withdraw p ctx))

  unfoldable pub is_deposit_allowed : VestingBalance → ℕ → Asset → Option Bool
  is_deposit_allowed v now amount = deposit_allowed (context v now amount)

  unfoldable pub is_withdraw_allowed : VestingBalance → ℕ → Asset → Option Bool
  is_withdraw_allowed v now amount = withdraw_allowed v.policy (context v now amount)

  unfoldable pub deposit : VestingBalance → ℕ → Asset → Option VestingBalance
  deposit v now amount = do
    let p = on_deposit v.policy (context v now amount)
    b ← asset_add fc v.balance amount
    some (record v { balance = b; policy = p })

  unfoldable pub withdraw : VestingBalance → ℕ → Asset → Option VestingBalance
  withdraw v now amount = do
    p ← on_withdraw v.policy (context v now amount)
    b ← asset_sub fc v.balance amount
    some (record v { balance = b; policy = p })
