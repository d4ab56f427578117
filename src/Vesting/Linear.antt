-- ===== src/Vesting/Linear.antt =====
-- The linear policy of vesting_balance_object.cpp.
use native.Mathlib.Nat.{div-le_self}
use bitshares_toolkit.Common.{
  Option-cases, inl, inr, ℕ, ◌+◌, ◌-◌, ◌*◌, ◌/◌, ◌^◌, ◌≤◌, ◌<◌, ◌≡◌, true, some, none, arith, leb,
  if◌then◌else◌,
}
use bitshares_toolkit.Common.Int.{ℤ, pos, pos_part, ◌-ℤ◌, ◌+ℤ◌, ◌≤ℤ◌, ◌<ℤ◌}
use bitshares_toolkit.Fc.{Fc, int64_max, IsInt64}
use bitshares_toolkit.Asset.{Asset, max_share_supply, asset_le, asset_sub}
use bitshares_toolkit.Asset.Order.{IsAmount, IsAmount-bound, to_uint128_lem}
use bitshares_toolkit.Vesting.{
  Context, LinearPolicy, VestingBalance, linear, linear_allowed, linear_on_withdraw, on_withdraw,
  context, withdraw_allowed, withdraw, is_withdraw_allowed,
}
use bitshares_toolkit.Vesting.Coindays.{scaled_bound, scaled_lem}

-- A policy with shares in range, after its start.
pub record IsRunning (p : LinearPolicy) (now : ℕ) : Type 0 where
  pub begin_amount : IsAmount p.begin_balance
  pub withdrawn_amount : IsAmount p.total_withdrawn
  pub period_positive : 0 < p.vesting_seconds
  pub now_fits : now < 2 ^ 32
  pub begun : p.begin_date < now

-- The vested share of the initial balance.
abbrev pub vested : LinearPolicy → ℕ → ℕ
vested p now = pos_part p.begin_balance * (now - p.begin_date) / p.vesting_seconds

-- What is left of the vested share.
abbrev pub available : LinearPolicy → ℕ → ℕ
available p now = vested p now - pos_part p.total_withdrawn

sum_parts : (x y : ℤ) → IsAmount x → IsAmount y → pos_part (x +ℤ y) ≡ pos_part x + pos_part y
unfolding ◌+ℤ◌
sum_parts x y h k = ground arith

overdraft_bounds :
    (x y t : ℤ)
    → IsAmount x
    → t ≡ pos 0
    → x <ℤ y
    → y ≤ℤ int64_max
    → IsInt64 (t +ℤ y) × IsInt64 (x -ℤ y) × (x -ℤ y <ℤ pos 0)
unfolding ◌+ℤ◌ ◌-ℤ◌
overdraft_bounds x y t h fresh over fits = ground arith

module _ (fc : Fc) where
  vested_lem :
      (p : LinearPolicy) (now : ℕ)
      → IsRunning p now
      → fc.div128 (fc.mul128 (fc.to_uint128 p.begin_balance) (now - p.begin_date)) p.vesting_seconds
        ≡ vested p now
  vested_lem p now r = cc (
    scaled_lem fc p.begin_balance (now - p.begin_date) r.begin_amount (omega (arith, r.now_fits)),
    fc.div128_lem (pos_part p.begin_balance * (now - p.begin_date)) p.vesting_seconds
        r.period_positive
        (omega (
          arith,
          scaled_bound (pos_part p.begin_balance) (now - p.begin_date)
              (IsAmount-bound p.begin_balance r.begin_amount).0 (omega (arith, r.now_fits)),
        )),
  )

  -- A running linear policy allows exactly the vested share less what has been withdrawn, in the
  -- asset of the balance, and throws if that exceeds the maximum share supply.
  pub linear_allowed_lem :
      (p : LinearPolicy) (ctx : Context)
      → IsRunning p ctx.now
      → linear_allowed fc p ctx ≡ (
          if leb (available p ctx.now) max_share_supply
          then some (record { amount = pos (available p ctx.now); asset_id = ctx.balance.asset_id })
          else none)
  unfolding linear_allowed
  linear_allowed_lem p ctx r = ground (
    arith,
    vested_lem p ctx.now r,
    to_uint128_lem fc p.total_withdrawn r.withdrawn_amount,
    fc.sub128_fits (vested p ctx.now) (pos_part p.total_withdrawn),
    fc.to_uint64_fits (available p ctx.now),
    scaled_bound (pos_part p.begin_balance) (ctx.now - p.begin_date)
        (IsAmount-bound p.begin_balance r.begin_amount).0 (omega (arith, r.now_fits)),
    div-le_self (pos_part p.begin_balance * (ctx.now - p.begin_date)) p.vesting_seconds,
  )

  linear_limit :
      (p : LinearPolicy) (ctx : Context)
      → IsRunning p ctx.now
      → IsAmount ctx.amount.amount
      → ctx.amount.asset_id ≡ ctx.balance.asset_id
      → withdraw_allowed fc (linear p) ctx ≡ some true
      → pos_part ctx.amount.amount ≤ available p ctx.now
  unfolding withdraw_allowed asset_le
  linear_limit p ctx r h same e =
      ground (arith, linear_allowed_lem p ctx r, IsAmount-bound ctx.amount.amount h)

  -- Withdrawals of a running linear policy stay within its schedule: where the total withdrawn was
  -- within the vested share before, an allowed withdrawal that goes through leaves a policy with the
  -- same schedule whose total is the old one plus the amount, and still within the vested share.
  pub linear_on_schedule :
      (p q : LinearPolicy) (ctx : Context)
      → IsRunning p ctx.now
      → IsAmount ctx.amount.amount
      → ctx.amount.asset_id ≡ ctx.balance.asset_id
      → pos_part p.total_withdrawn ≤ vested p ctx.now
      → withdraw_allowed fc (linear p) ctx ≡ some true
      → linear_on_withdraw fc p ctx ≡ some q
      → (q ≡ record p { total_withdrawn = p.total_withdrawn +ℤ ctx.amount.amount })
        × (pos_part q.total_withdrawn ≤ vested p ctx.now)
  unfolding linear_on_withdraw
  linear_on_schedule p q ctx r h same within e s =
      elim (Option-cases (fc.safe_add p.total_withdrawn ctx.amount.amount)) [
        | inl thrown ↦ ground arith
        | inr (t, sum) ↦ ground (
          arith,
          sum,
          fc.safe_add_exact p.total_withdrawn ctx.amount.amount t sum,
          linear_limit p ctx r h same e,
          IsAmount-bound ctx.amount.amount h,
          IsAmount-bound p.total_withdrawn r.withdrawn_amount,
          sum_parts p.total_withdrawn ctx.amount.amount r.withdrawn_amount h,
        )
      ]

  overdraft_allowed :
      (p : LinearPolicy) (ctx : Context)
      → IsRunning p ctx.now
      → p.total_withdrawn ≡ pos 0
      → ctx.amount.asset_id ≡ ctx.balance.asset_id
      → ctx.amount.amount ≤ℤ pos (vested p ctx.now)
      → vested p ctx.now ≤ max_share_supply
      → withdraw_allowed fc (linear p) ctx ≡ some true
  unfolding withdraw_allowed asset_le
  overdraft_allowed p ctx r fresh same within fits = ground (arith, linear_allowed_lem p ctx r)

  -- The linear policy overdraws: from a balance of exactly the initial balance, with nothing withdrawn,
  -- any amount in its asset above the balance but within the vested share, which goes on growing after the
  -- period is over, is allowed, and withdrawing it leaves a negative balance. The vested share is at most
  -- the maximum share supply, and the policy is running: it has begun, its period is not 0, the time fits
  -- a `uint32_t` and its initial balance is not negative and below 2^63.
  pub linear_overdraws :
      (v : VestingBalance) (p : LinearPolicy) (now : ℕ) (amount : Asset)
      → v.policy ≡ linear p
      → IsRunning p now
      → p.total_withdrawn ≡ pos 0
      → v.balance.amount ≡ p.begin_balance
      → amount.asset_id ≡ v.balance.asset_id
      → v.balance.amount <ℤ amount.amount
      → amount.amount ≤ℤ pos (vested p now)
      → vested p now ≤ max_share_supply
      → (is_withdraw_allowed fc v now amount ≡ some true)
        × ((w : VestingBalance) × (withdraw fc v now amount ≡ some w) × (w.balance.amount <ℤ pos 0))
  unfolding withdraw_allowed is_withdraw_allowed withdraw on_withdraw linear_on_withdraw asset_le
      asset_sub
  linear_overdraws v p now amount by run fresh full same over within fits =
      let ctx = context v now amount in
      let total = p.total_withdrawn +ℤ amount.amount in
      let allowed = overdraft_allowed p ctx run fresh same within fits in
      let bounds =
        overdraft_bounds v.balance.amount amount.amount p.total_withdrawn (rw full run.begin_amount)
          fresh over (omega arith) in
      let paid : on_withdraw fc v.policy ctx
          ≡ some (linear (record p { total_withdrawn = total })) =
        rw (by, fc.safe_add_fits p.total_withdrawn amount.amount bounds.0) in
      (
        rw by allowed,
        (
          record v {
            balance = record {
              amount = v.balance.amount -ℤ amount.amount;
              asset_id = v.balance.asset_id;
            };
            policy = linear (record p { total_withdrawn = total });
          },
          rw (paid, fc.safe_sub_fits v.balance.amount amount.amount bounds.1)
              (ground (arith, same)),
          bounds.2,
        ),
      )
