-- ===== src/Matching/Payments.antt =====
-- What the payments of a filled order do to the whole amount of an asset.
use bitshares_toolkit.Common.{
  ℕ, ◌==◌, ◌≡◌, refl, sym, ap, subst, ◌∙◌, some, ◌>>=◌, Bool-cases, inl, inr, >>=-eq-some,
  eq_of_some, ==_iff, fc_assert,
}
use bitshares_toolkit.Common.Int.{ℤ, pos, eq_of_parts, ltb_ℤ, ◌+ℤ◌, ◌-ℤ◌, int_laws}
use bitshares_toolkit.Fc.{Fc}
use bitshares_toolkit.Asset.{Asset, asset_sub}
use bitshares_toolkit.Operations.Options.{AssetOptions, options_validate}
use bitshares_toolkit.Transfers.{adjust_balance}
use bitshares_toolkit.Matching.{
  LimitOrder, Market, put, calculate_market_fee, pay_market_fees, release_core, pay_order,
  settle_order,
}
use bitshares_toolkit.Matching.Holdings.{
  at, in_balances, in_orders, holdings, adjust_balance-sum, at_sum, at_zero, add_zero,
}
use bitshares_toolkit.Matching.Fees.{calculate_market_fee-NonNegative, not_positive}

-- The options of every asset have passed `validate`.
abbrev pub HasValidOptions : Market → Type 0
HasValidOptions m = (i : ℕ) (o : AssetOptions) → m.assets i ≡ some o → options_validate o ≡ some tt

-- The orders and the options are those of before.
abbrev pub Pays : Market → Market → Type 0
Pays m m' = (m'.orders ≡ m.orders) × (m'.assets ≡ m.assets)

add_under : (b o f f' d : ℤ) → f' ≡ f +ℤ d → (b +ℤ o) +ℤ f' ≡ ((b +ℤ o) +ℤ f) +ℤ d
add_under b o f f' d e =
    rw e (eq_of_parts ((b +ℤ o) +ℤ (f +ℤ d)) (((b +ℤ o) +ℤ f) +ℤ d) (omega int_laws))

pub add_first : (b b' o f d : ℤ) → b' ≡ b +ℤ d → (b' +ℤ o) +ℤ f ≡ ((b +ℤ o) +ℤ f) +ℤ d
add_first b b' o f d e =
    rw e (eq_of_parts (((b +ℤ d) +ℤ o) +ℤ f) (((b +ℤ o) +ℤ f) +ℤ d) (omega int_laws))

pub put_sum : (x k : ℕ) (f : ℕ → ℤ) (v d : ℤ) → v ≡ f k +ℤ d → put f k v x ≡ f x +ℤ at x k d
put_sum x k f v d e = elim (Bool-cases (x == k)) [
  | inl here ↦ rw (here, subst (λ y. f y ≡ f k) (sym ((==_iff x k).0 here)) refl) e
  | inr other ↦ rw other (sym (add_zero (f x)))
]

pub release_core-Pays :
    (fc : Fc) (account : ℕ) (pays : Asset) (m m' : Market)
    → release_core fc account pays m ≡ some m'
    → (m'.balances ≡ m.balances) × (m'.accumulated_fees ≡ m.accumulated_fees) × Pays m m'
unfolding release_core
release_core-Pays fc account pays m m' h = elim (Bool-cases (pays.asset_id == 0)) [
  | inl core ↦
      let step : (fc.safe_sub (m.core_in_orders account) pays.amount >>= λ rest.
      some (record m { core_in_orders = put m.core_in_orders account rest }))
          ≡ some m' =
        sym (rw core refl) ∙ h in
      let (rest, exact, e) =
        >>=-eq-some (fc.safe_sub (m.core_in_orders account) pays.amount) _ step in
      rw (sym (eq_of_some e)) (refl, refl, (refl, refl))
  | inr other ↦
      let same : some m ≡ some m' = sym (rw other refl) ∙ h in
      rw (sym (eq_of_some same)) (refl, refl, (refl, refl))
]

pub pay_order-sum :
    (fc : Fc) (x receiver : ℕ) (receives pays : Asset) (m m' : Market)
    → pay_order fc receiver receives pays m ≡ some m'
    → (holdings x m' ≡ holdings x m +ℤ at x receives.asset_id receives.amount) × Pays m m'
unfolding pay_order
pay_order-sum fc x receiver receives pays m m' h =
    let (m1, released, h1) = >>=-eq-some (release_core fc receiver pays m) _ h in
    let (balances, adjusted, e) =
      >>=-eq-some (adjust_balance fc receiver receives m1.balances) _ h1 in
    let (balances_same, fees_same, (orders_same, assets_same)) =
      release_core-Pays fc receiver pays m m1 released in
    let sum = adjust_balance-sum fc x receiver receives m1.balances balances adjusted in
    rw (sym (eq_of_some e)) (
      rw (orders_same, ap (λ f. f x) fees_same)
          (add_first (in_balances x m.balances) (in_balances x balances) (in_orders x m.orders)
            (m.accumulated_fees x) (at x receives.asset_id receives.amount)
            (sum
              ∙ ap (λ bs. in_balances x bs +ℤ at x receives.asset_id receives.amount)
                  balances_same)),
      (orders_same, assets_same),
    )

pub pay_market_fees-sum :
    (fc : Fc) (x : ℕ) (o : AssetOptions) (receives : Asset) (m : Market) (paid : Market × Asset)
    → options_validate o ≡ some tt
    → pay_market_fees fc o receives m ≡ some paid
    → (paid.1.asset_id ≡ receives.asset_id)
      × (holdings x paid.0 ≡ holdings x m +ℤ at x receives.asset_id paid.1.amount)
      × Pays m paid.0
unfolding pay_market_fees
pay_market_fees-sum fc x o receives m paid valid h =
    let fee = calculate_market_fee fc o receives.amount in
    let fees : Asset = record { amount = fee; asset_id = receives.asset_id } in
    elim (Bool-cases (ltb_ℤ (pos 0) fee)) [
      | inl charged ↦
          let step : (fc.safe_add (m.accumulated_fees receives.asset_id) fee >>= λ sum.
          some (record m { accumulated_fees = put m.accumulated_fees receives.asset_id sum }, fees))
              ≡ some paid =
            sym (rw charged refl) ∙ h in
          let (sum, exact, e) =
            >>=-eq-some (fc.safe_add (m.accumulated_fees receives.asset_id) fee) _ step in
          rw (sym (eq_of_some e)) (
            refl,
            add_under (in_balances x m.balances) (in_orders x m.orders) (m.accumulated_fees x)
                (put m.accumulated_fees receives.asset_id sum x) (at x receives.asset_id fee)
                (put_sum x receives.asset_id m.accumulated_fees sum fee
                  (fc.safe_add_exact _ _ _ exact)),
            (refl, refl),
          )
      | inr free ↦
          let same : some (m, fees) ≡ some paid = sym (rw free refl) ∙ h in
          let zero =
            not_positive fee free (calculate_market_fee-NonNegative fc o receives.amount valid) in
          rw (sym (eq_of_some same)) (
            refl,
            rw (zero, at_zero x receives.asset_id, add_zero (holdings x m)) refl,
            (refl, refl),
          )
    ]

pub asset_sub-exact :
    (fc : Fc) (a b c : Asset)
    → asset_sub fc a b ≡ some c
    → (c.asset_id ≡ a.asset_id) × (c.amount ≡ a.amount -ℤ b.amount)
unfolding asset_sub
asset_sub-exact fc a b c h =
    let (u, same, h1) = >>=-eq-some (fc_assert (a.asset_id == b.asset_id)) _ h in
    let (v, exact, e) = >>=-eq-some (fc.safe_sub a.amount b.amount) _ h1 in
    rw (sym (eq_of_some e)) (refl, fc.safe_sub_exact a.amount b.amount v exact)

assoc : (a b c : ℤ) → (a +ℤ b) +ℤ c ≡ a +ℤ (b +ℤ c)
assoc a b c = eq_of_parts ((a +ℤ b) +ℤ c) (a +ℤ (b +ℤ c)) (omega int_laws)

with_rest : (a b : ℤ) → a +ℤ (b -ℤ a) ≡ b
with_rest a b = eq_of_parts (a +ℤ (b -ℤ a)) b (omega int_laws)

-- The fee and the net amount are together what the trade gives.
pub fee_and_net :
    (x asset : ℕ) (h fee gross net : ℤ)
    → net ≡ gross -ℤ fee
    → (h +ℤ at x asset fee) +ℤ at x asset net ≡ h +ℤ at x asset gross
fee_and_net x asset h fee gross net e =
    rw
      (
        e,
        assoc h (at x asset fee) (at x asset (gross -ℤ fee)),
        sym (at_sum x asset fee (gross -ℤ fee)),
        with_rest fee gross,
      )
      refl

-- Paying for a trade adds what the order receives, fee included.
pub settle_order-sum :
    (fc : Fc) (x id : ℕ) (o : LimitOrder) (pays receives : Asset) (m m' : Market)
    → HasValidOptions m
    → settle_order fc id o pays receives m ≡ some m'
    → (holdings x m' ≡ holdings x m +ℤ at x receives.asset_id receives.amount) × Pays m m'
unfolding settle_order
settle_order-sum fc x id o pays receives m m' valid h =
    let (options, known, h1) = >>=-eq-some (m.assets receives.asset_id) _ h in
    let (paid, charged, h2) = >>=-eq-some (pay_market_fees fc options receives m) _ h1 in
    let (net, less, h3) = >>=-eq-some (asset_sub fc receives paid.1) _ h2 in
    let (m1, done, e) = >>=-eq-some (pay_order fc o.seller net pays paid.0) _ h3 in
    let (fee_id, fee_sum, (orders_same, assets_same)) =
      pay_market_fees-sum fc x options receives m paid (valid receives.asset_id options known)
        charged in
    let (net_id, net_amount) = asset_sub-exact fc receives paid.1 net less in
    let (net_sum, (orders_same', assets_same')) =
      pay_order-sum fc x o.seller net pays paid.0 m1 done in
    rw (sym (eq_of_some e)) (
      net_sum
          ∙ rw (fee_sum, net_id)
              (fee_and_net x receives.asset_id (holdings x m) paid.1.amount receives.amount
                net.amount net_amount),
      (orders_same' ∙ orders_same, assets_same' ∙ assets_same),
    )
