-- ===== src/Vesting/Coindays.antt =====
-- The coin-days-destroyed policy of vesting_balance_object.cpp: what it allows to withdraw.
use native.Mathlib.Nat.{
  mul-le-mul, div-le_of_le-mul, mul_comm, mul-le-mul_right, le_trans, div-mul-le_self,
}
use bitshares_toolkit.Common.{
  ap, ℕ, ◌+◌, ◌-◌, ◌*◌, ◌/◌, ◌^◌, ◌≤◌, ◌<◌, ◌≡◌, refl, min, true, some, arith,
}
use bitshares_toolkit.Common.Int.{ℤ, pos, pos_part, ◌-ℤ◌, ◌≤ℤ◌}
use bitshares_toolkit.Fc.{Fc}
use bitshares_toolkit.Asset.{asset_le}
use bitshares_toolkit.Asset.Order.{IsAmount, IsAmount-bound, to_uint128_lem}
use bitshares_toolkit.Vesting.{
  Context, CddPolicy, cdd, compute_coin_seconds_earned, cdd_allowed, withdraw_allowed,
}

-- A policy over a balance at a time: periods and times are `uint32_t`, time has not gone back, and
-- the coin-seconds on record are at most those of a fully vested balance.
pub record IsValid (p : CddPolicy) (balance : ℤ) (now : ℕ) : Type 0 where
  pub balance_amount : IsAmount balance
  pub period_positive : 0 < p.vesting_seconds
  pub period_fits : p.vesting_seconds < 2 ^ 32
  pub now_fits : now < 2 ^ 32
  pub updated_before : p.last_update ≤ now
  pub earned_capped : p.coin_seconds_earned ≤ pos_part balance * p.vesting_seconds

-- Coin-seconds in exact arithmetic.
abbrev pub earned : CddPolicy → ℤ → ℕ → ℕ
earned p balance now =
    min (p.coin_seconds_earned + pos_part balance * (now - p.last_update))
      (pos_part balance * p.vesting_seconds)

pub scaled_bound : (a b : ℕ) → a < 2 ^ 63 → b < 2 ^ 32 → a * b < 2 ^ 96
scaled_bound a b h k =
    let m : a * b ≤ (2 ^ 63 - 1) * (2 ^ 32 - 1) =
      mul-le-mul {n₁ = a} {m₁ = b} {n₂ = 2 ^ 63 - 1} {m₂ = 2 ^ 32 - 1} (omega arith)
        (omega arith) in
    omega arith

elapsed_lem : (now last : ℕ) → last ≤ now → pos now -ℤ pos last ≡ pos (now - last)
unfolding ◌-ℤ◌
elapsed_lem now last h = ground arith

module _ (fc : Fc) where
  pub scaled_lem :
      (x : ℤ) (n : ℕ) → IsAmount x → n < 2 ^ 32 → fc.mul128 (fc.to_uint128 x) n ≡ pos_part x * n
  scaled_lem x n h k = cc (
    to_uint128_lem fc x h,
    fc.mul128_fits (pos_part x) n
        (omega (arith, scaled_bound (pos_part x) n (IsAmount-bound x h).0 k)),
  )

  pub delta_lem :
      (x : ℤ) (now last : ℕ)
      → IsAmount x
      → last ≤ now
      → now < 2 ^ 32
      → fc.mul128 (fc.to_uint128 x) (fc.to_uint128 (pos now -ℤ pos last))
        ≡ pos_part x * (now - last)
  delta_lem x now last h le k = cc (
    ap fc.to_uint128 (elapsed_lem now last le),
    fc.to_uint128_pos (now - last) (omega arith),
    scaled_lem x (now - last) h (omega arith),
  )

  pub compute-eq-earned :
      (p : CddPolicy) (ctx : Context)
      → IsValid p ctx.balance.amount ctx.now
      → compute_coin_seconds_earned fc p ctx ≡ earned p ctx.balance.amount ctx.now
  unfolding compute_coin_seconds_earned
  compute-eq-earned p ctx v =
      let x = ctx.balance.amount in
      let low = (IsAmount-bound x v.balance_amount).0 in
      cc (
        delta_lem x ctx.now p.last_update v.balance_amount v.updated_before v.now_fits,
        scaled_lem x p.vesting_seconds v.balance_amount v.period_fits,
        fc.add128_fits p.coin_seconds_earned (pos_part x * (ctx.now - p.last_update)) (
            omega (
              arith,
              v.earned_capped,
              scaled_bound (pos_part x) p.vesting_seconds low v.period_fits,
              scaled_bound (pos_part x) (ctx.now - p.last_update) low (omega arith),
            )),
      )

  pub allowed-le :
      (p : CddPolicy) (balance : ℤ) (now : ℕ)
      → IsValid p balance now
      → earned p balance now / p.vesting_seconds ≤ pos_part balance
  allowed-le p balance now v =
      div-le_of_le-mul p.vesting_seconds
        (omega (arith, mul_comm (pos_part balance) p.vesting_seconds))

  pub cdd_allowed_lem :
      (p : CddPolicy) (ctx : Context)
      → IsValid p ctx.balance.amount ctx.now
      → (cdd_allowed fc p ctx).amount
        ≡ pos (earned p ctx.balance.amount ctx.now / p.vesting_seconds)
  unfolding cdd_allowed
  cdd_allowed_lem p ctx v =
      let x = ctx.balance.amount in
      let low = (IsAmount-bound x v.balance_amount).0 in
      cc (
        compute-eq-earned p ctx v,
        fc.div128_lem (earned p x ctx.now) p.vesting_seconds v.period_positive
            (omega (arith, scaled_bound (pos_part x) p.vesting_seconds low v.period_fits)),
        fc.to_uint64_fits (earned p x ctx.now / p.vesting_seconds)
            (omega (arith, allowed-le p x ctx.now v)),
      )

  allowed_asset :
      (p : CddPolicy) (ctx : Context) → (cdd_allowed fc p ctx).asset_id ≡ ctx.balance.asset_id
  unfolding cdd_allowed
  allowed_asset p ctx = refl

  allowed-le_earned :
      (p : CddPolicy) (ctx : Context)
      → IsValid p ctx.balance.amount ctx.now
      → ctx.amount.asset_id ≡ ctx.balance.asset_id
      → withdraw_allowed fc (cdd p) ctx ≡ some true
      → IsAmount ctx.amount.amount
      → pos_part ctx.amount.amount ≤ earned p ctx.balance.amount ctx.now / p.vesting_seconds
  unfolding withdraw_allowed asset_le
  allowed-le_earned p ctx v same e h =
      ground
        (arith, cdd_allowed_lem p ctx v, allowed_asset p ctx, IsAmount-bound ctx.amount.amount h)

  -- Whatever amount a valid coin-days policy allows to withdraw in the asset of the balance is covered
  -- by the balance, and the coin-seconds that it costs have been earned: the asserts of
  -- `is_withdraw_allowed` and of `on_withdraw` hold.
  pub withdraw_allowed_covered :
      (p : CddPolicy) (ctx : Context)
      → IsValid p ctx.balance.amount ctx.now
      → IsAmount ctx.amount.amount
      → ctx.amount.asset_id ≡ ctx.balance.asset_id
      → withdraw_allowed fc (cdd p) ctx ≡ some true
      → (ctx.amount.amount ≤ℤ ctx.balance.amount)
        × (fc.mul128 (fc.to_uint128 ctx.amount.amount) p.vesting_seconds
            ≤ compute_coin_seconds_earned fc p ctx)
  withdraw_allowed_covered p ctx v h same e =
      let x = ctx.balance.amount in
      let n = pos_part ctx.amount.amount in
      let le = allowed-le_earned p ctx v same e h in
      let cost : n * p.vesting_seconds
          ≤ earned p x ctx.now / p.vesting_seconds * p.vesting_seconds =
        mul-le-mul_right {m = n} {n = earned p x ctx.now / p.vesting_seconds} p.vesting_seconds
          le in
      let exact : earned p x ctx.now / p.vesting_seconds * p.vesting_seconds ≤ earned p x ctx.now =
        div-mul-le_self (earned p x ctx.now) p.vesting_seconds in
      (
        omega (
          arith,
          le,
          allowed-le p x ctx.now v,
          IsAmount-bound ctx.amount.amount h,
          IsAmount-bound x v.balance_amount,
        ),
        rw
            (
              compute-eq-earned p ctx v,
              scaled_lem ctx.amount.amount p.vesting_seconds h v.period_fits,
            )
            (le_trans cost exact),
      )
