-- ===== src/Vesting/Balances.antt =====
-- Deposits to and withdrawals from a balance under the coin-days policy.
use native.Mathlib.Nat.{add-mul, mul-le-mul_right}
use bitshares_toolkit.Common.{
  Option-cases, inl, inr, ap, ◌∙◌, sym, ℕ, ◌+◌, ◌-◌, ◌*◌, ◌≤◌, ◌≡◌, refl, true, some, arith,
}
use bitshares_toolkit.Common.Int.{ℤ, pos, pos_part, ◌-ℤ◌, ◌+ℤ◌, ◌≤ℤ◌}
use bitshares_toolkit.Fc.{Fc}
use bitshares_toolkit.Asset.{Asset, max_share_supply, asset_add, asset_sub}
use bitshares_toolkit.Asset.Order.{IsAmount, IsAmount-bound}
use bitshares_toolkit.Vesting.{
  Context, CddPolicy, VestingBalance, cdd, compute_coin_seconds_earned, update_coin_seconds_earned,
  cdd_on_withdraw, on_deposit, on_withdraw, withdraw_allowed, deposit, withdraw, context,
  is_withdraw_allowed, is_deposit_allowed, deposit_allowed, sum_below_max_shares,
}
use bitshares_toolkit.Vesting.Coindays.{
  IsValid, earned, scaled_bound, scaled_lem, compute-eq-earned, withdraw_allowed_covered,
}

rest_capped : (e b n v : ℕ) → e ≤ b * v → n ≤ b → e - n * v ≤ (b - n) * v
rest_capped e b n v h k =
    let split : b * v ≡ (b - n) * v + n * v =
      (let q : b ≡ b - n + n = omega arith in ap (λ (t : ℕ). t * v) q ∙ add-mul (b - n) n v) in
    omega arith

difference_lem :
    (x y : ℤ)
    → IsAmount x
    → IsAmount y
    → y ≤ℤ x
    → IsAmount (x -ℤ y) × (pos_part (x -ℤ y) ≡ pos_part x - pos_part y) × (x -ℤ y +ℤ y ≡ x)
unfolding ◌-ℤ◌ ◌+ℤ◌
difference_lem x y h k le = ground arith

sum_bound :
    (x y : ℤ)
    → IsAmount x
    → IsAmount y
    → y +ℤ x ≤ℤ pos max_share_supply
    → IsAmount (x +ℤ y) × (pos_part x ≤ pos_part (x +ℤ y))
unfolding ◌+ℤ◌
sum_bound x y h k le = ground arith

-- A balance under a valid coin-days policy.
pub record IsVesting (v : VestingBalance) (p : CddPolicy) (now : ℕ) : Type 0 where
  pub by_policy : v.policy ≡ cdd p
  pub valid : IsValid p v.balance.amount now

-- The policy after a withdrawal.
abbrev pub spent : CddPolicy → ℤ → ℕ → ℤ → CddPolicy
spent p balance now amount = record p {
  coin_seconds_earned = earned p balance now - pos_part amount * p.vesting_seconds;
  last_update = now;
}

module _ (fc : Fc) where
  cdd_on_withdraw_lem :
      (p : CddPolicy) (ctx : Context)
      → IsValid p ctx.balance.amount ctx.now
      → IsAmount ctx.amount.amount
      → fc.mul128 (fc.to_uint128 ctx.amount.amount) p.vesting_seconds
        ≤ compute_coin_seconds_earned fc p ctx
      → cdd_on_withdraw fc p ctx ≡ spent p ctx.balance.amount ctx.now ctx.amount.amount
  unfolding cdd_on_withdraw update_coin_seconds_earned
  cdd_on_withdraw_lem p ctx v h le =
      let x = ctx.balance.amount in
      let low = (IsAmount-bound x v.balance_amount).0 in
      cc (
        compute-eq-earned fc p ctx v,
        scaled_lem fc ctx.amount.amount p.vesting_seconds h v.period_fits,
        fc.sub128_fits (compute_coin_seconds_earned fc p ctx)
            (fc.mul128 (fc.to_uint128 ctx.amount.amount) p.vesting_seconds) le
            (omega (
              arith,
              compute-eq-earned fc p ctx v,
              scaled_bound (pos_part x) p.vesting_seconds low v.period_fits,
            )),
      )

  asset_sub_lem :
      (a b : Asset)
      → a.asset_id ≡ b.asset_id
      → IsAmount (a.amount -ℤ b.amount)
      → asset_sub fc a b ≡ some (record { amount = a.amount -ℤ b.amount; asset_id = a.asset_id })
  unfolding asset_sub
  asset_sub_lem a b same h = ground (arith, fc.safe_sub_fits a.amount b.amount (omega arith))

  asset_add_lem :
      (a b : Asset)
      → a.asset_id ≡ b.asset_id
      → IsAmount (a.amount +ℤ b.amount)
      → asset_add fc a b ≡ some (record { amount = a.amount +ℤ b.amount; asset_id = a.asset_id })
  unfolding asset_add
  asset_add_lem a b same h = ground (arith, fc.safe_add_fits a.amount b.amount (omega arith))

  spent-IsValid :
      (p : CddPolicy) (x amount : ℤ) (now : ℕ)
      → IsValid p x now
      → IsAmount amount
      → amount ≤ℤ x
      → IsValid (spent p x now amount) (x -ℤ amount) now
  spent-IsValid p x amount now v h le =
      let (kept, rest, _) = difference_lem x amount v.balance_amount h le in
      record {
        balance_amount = kept;
        period_positive = v.period_positive;
        period_fits = v.period_fits;
        now_fits = v.now_fits;
        updated_before = omega arith;
        earned_capped = rw rest (
            rest_capped (earned p x now) (pos_part x) (pos_part amount) p.vesting_seconds
              (omega arith)
              (omega (arith, IsAmount-bound x v.balance_amount, IsAmount-bound amount h)));
      }

  -- From a balance under a valid coin-days policy, a withdrawal in its asset that is allowed, of an amount
  -- that is not negative and below 2^63, succeeds: it takes exactly the amount from the balance and its
  -- cost from the coin-seconds earned, and leaves a valid policy. A coin-days policy is valid if the
  -- balance is not negative and below 2^63, the period is not 0, period and present time fit a `uint32_t`,
  -- the last update is not in the future, and the coin-seconds on record are at most those that the
  -- balance earns in a full period.
  pub withdraw-IsVesting :
      (v : VestingBalance) (p : CddPolicy) (now : ℕ) (amount : Asset)
      → IsVesting v p now
      → IsAmount amount.amount
      → amount.asset_id ≡ v.balance.asset_id
      → is_withdraw_allowed fc v now amount ≡ some true
      → (w : VestingBalance) × (q : CddPolicy) × (withdraw fc v now amount ≡ some w)
        × IsVesting w q now
        × (w.balance.amount +ℤ amount.amount ≡ v.balance.amount)
        × (q.coin_seconds_earned + pos_part amount.amount * p.vesting_seconds
            ≡ earned p v.balance.amount now)
  unfolding is_withdraw_allowed withdraw on_withdraw
  withdraw-IsVesting v p now amount iv h same e =
      let x = v.balance.amount in
      let ctx = context v now amount in
      let q = spent p x now amount.amount in
      let e' : withdraw_allowed fc (cdd p) ctx ≡ some true = rw (← iv.by_policy) e in
      let (covered, cost) = withdraw_allowed_covered fc p ctx iv.valid h same e' in
      let (kept, rest, back) = difference_lem x amount.amount iv.valid.balance_amount h covered in
      let paid : on_withdraw fc v.policy ctx ≡ some (cdd q) =
        rw iv.by_policy
          (ap (λ (r : CddPolicy). some (cdd r)) (cdd_on_withdraw_lem p ctx iv.valid h cost)) in
      let taken = asset_sub_lem v.balance amount (sym same) kept in
      (
        record v {
          balance = record { amount = x -ℤ amount.amount; asset_id = v.balance.asset_id };
          policy = cdd q;
        },
        q,
        rw (paid, taken),
        record { by_policy = refl; valid = spent-IsValid p x amount.amount now iv.valid h covered },
        back,
        omega (
          arith,
          cost,
          compute-eq-earned fc p ctx iv.valid,
          scaled_lem fc amount.amount p.vesting_seconds h iv.valid.period_fits,
        ),
      )

  deposit_allowed_lem :
      (ctx : Context)
      → deposit_allowed fc ctx ≡ some true
      → (ctx.amount.asset_id ≡ ctx.balance.asset_id)
        × (ctx.amount.amount +ℤ ctx.balance.amount ≤ℤ pos max_share_supply)
  unfolding deposit_allowed sum_below_max_shares
  deposit_allowed_lem ctx e =
      elim (Option-cases (fc.safe_add ctx.amount.amount ctx.balance.amount)) [
        | inl thrown ↦ ground arith
        | inr (s, sum) ↦
            ground (arith, sum, fc.safe_add_exact ctx.amount.amount ctx.balance.amount s sum)
      ]

  updated-IsValid :
      (p : CddPolicy) (ctx : Context)
      → IsValid p ctx.balance.amount ctx.now
      → IsAmount (ctx.balance.amount +ℤ ctx.amount.amount)
        × (pos_part ctx.balance.amount ≤ pos_part (ctx.balance.amount +ℤ ctx.amount.amount))
      → IsValid
          (update_coin_seconds_earned fc p ctx)
          (ctx.balance.amount +ℤ ctx.amount.amount)
          ctx.now
  unfolding update_coin_seconds_earned
  updated-IsValid p ctx v (fits, grows) =
      let x = ctx.balance.amount in
      record {
        balance_amount = fits;
        period_positive = v.period_positive;
        period_fits = v.period_fits;
        now_fits = v.now_fits;
        updated_before = omega arith;
        earned_capped = omega (
          arith,
          compute-eq-earned fc p ctx v,
          mul-le-mul_right {m = pos_part x} {n = pos_part (x +ℤ ctx.amount.amount)}
              p.vesting_seconds grows,
        );
      }

  -- A deposit of an allowed amount succeeds, adds exactly the amount to the balance, brings the
  -- coin-seconds up to date, and leaves a valid policy.
  pub deposit-IsVesting :
      (v : VestingBalance) (p : CddPolicy) (now : ℕ) (amount : Asset)
      → IsVesting v p now
      → IsAmount amount.amount
      → is_deposit_allowed fc v now amount ≡ some true
      → (w : VestingBalance) × (q : CddPolicy) × (deposit fc v now amount ≡ some w)
        × IsVesting w q now
        × (w.balance.amount ≡ v.balance.amount +ℤ amount.amount)
        × (q.coin_seconds_earned ≡ earned p v.balance.amount now)
  unfolding deposit on_deposit is_deposit_allowed update_coin_seconds_earned
  deposit-IsVesting v p now amount iv h e =
      let x = v.balance.amount in
      let ctx = context v now amount in
      let q = update_coin_seconds_earned fc p ctx in
      let exact = compute-eq-earned fc p ctx iv.valid in
      let (same, below) = deposit_allowed_lem ctx e in
      let bounded = sum_bound x amount.amount iv.valid.balance_amount h below in
      let added = asset_add_lem v.balance amount (sym same) bounded.0 in
      let kept : on_deposit fc v.policy ctx ≡ cdd q = rw iv.by_policy in
      (
        record v {
          balance = record { amount = x +ℤ amount.amount; asset_id = v.balance.asset_id };
          policy = cdd q;
        },
        q,
        rw (kept, added),
        record { by_policy = refl; valid = updated-IsValid p ctx iv.valid bounded },
        refl,
        exact,
      )
