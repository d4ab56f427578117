-- ===== src/Matching/Releases.antt =====
-- How the payments of a filled order change `total_core_in_orders`.
use bitshares_toolkit.Common.{
  ℕ, ◌==◌, ◌≡◌, refl, sym, ap, subst, ◌∙◌, Bool, true, false, some, if◌then◌else◌, ◌>>=◌, arith,
  Bool-cases, inl, inr, >>=-eq-some, eq_of_some, ==_iff,
}
use bitshares_toolkit.Common.Int.{ℤ, pos, ltb_ℤ, ◌+ℤ◌, ◌-ℤ◌}
use bitshares_toolkit.Fc.{Fc}
use bitshares_toolkit.Asset.{Asset, asset_sub}
use bitshares_toolkit.Operations.Options.{AssetOptions}
use bitshares_toolkit.Transfers.{adjust_balance}
use bitshares_toolkit.Matching.{
  LimitOrder, Market, put, calculate_market_fee, pay_market_fees, release_core, pay_order,
  settle_order,
}
use bitshares_toolkit.Matching.Holdings.{at, at_zero, add_zero}
use bitshares_toolkit.Matching.Payments.{release_core-Pays}
use bitshares_toolkit.Matching.Fills.{less_sold}

-- What an order of the account `a` holds of the core asset
abbrev pub core_of : ℕ → LimitOrder → ℤ
core_of a o = at a o.seller (at 0 o.sell_price.base.asset_id o.for_sale)

released :
    (a account : ℕ) (f : ℕ → ℤ) (d v : ℤ)
    → v ≡ f account -ℤ d
    → put f account v a +ℤ at a account d ≡ f a
released a account f d v e = elim (Bool-cases (a == account)) [
  | inl here ↦
      rw (here, subst (λ y. f y ≡ f account) (sym ((==_iff a account).0 here)) refl)
        (less_sold (f account) d v e)
  | inr other ↦ rw other (add_zero (f a))
]

pub core_test :
    (asset : ℕ) (d : ℤ) (b : Bool) → (asset == 0) ≡ b → at 0 asset d ≡ (if b then d else pos 0)
core_test asset d b h = ground (arith, h)

pub release_core-count :
    (fc : Fc) (a account : ℕ) (pays : Asset) (m m' : Market)
    → release_core fc account pays m ≡ some m'
    → m'.core_in_orders a +ℤ at a account (at 0 pays.asset_id pays.amount) ≡ m.core_in_orders a
unfolding release_core
release_core-count fc a account pays m m' h = elim (Bool-cases (pays.asset_id == 0)) [
  | inl core ↦
      let step : (fc.safe_sub (m.core_in_orders account) pays.amount >>= λ rest.
      some (record m { core_in_orders = put m.core_in_orders account rest }))
          ≡ some m' =
        sym (rw core refl) ∙ h in
      let (rest, exact, e) =
        >>=-eq-some (fc.safe_sub (m.core_in_orders account) pays.amount) _ step in
      rw (sym (eq_of_some e), core_test pays.asset_id pays.amount true core)
        (released a account m.core_in_orders pays.amount rest (fc.safe_sub_exact _ _ _ exact))
  | inr other ↦
      let same : some m ≡ some m' = sym (rw other refl) ∙ h in
      rw (sym (eq_of_some same), core_test pays.asset_id pays.amount false other, at_zero a account)
        (add_zero (m.core_in_orders a))
]

pay_order-count :
    (fc : Fc) (a account : ℕ) (receives pays : Asset) (m m' : Market)
    → pay_order fc account receives pays m ≡ some m'
    → (m'.core_in_orders a +ℤ at a account (at 0 pays.asset_id pays.amount) ≡ m.core_in_orders a)
      × (m'.orders ≡ m.orders)
unfolding pay_order
pay_order-count fc a account receives pays m m' h =
    let (m1, freed, h1) = >>=-eq-some (release_core fc account pays m) _ h in
    let (balances, adjusted, e) =
      >>=-eq-some (adjust_balance fc account receives m1.balances) _ h1 in
    let (_, _, (orders_same, _)) = release_core-Pays fc account pays m m1 freed in
    rw (sym (eq_of_some e)) (release_core-count fc a account pays m m1 freed, orders_same)

pay_market_fees-count :
    (fc : Fc) (o : AssetOptions) (receives : Asset) (m : Market) (paid : Market × Asset)
    → pay_market_fees fc o receives m ≡ some paid
    → (paid.0.core_in_orders ≡ m.core_in_orders) × (paid.0.orders ≡ m.orders)
unfolding pay_market_fees
pay_market_fees-count fc o receives m paid h =
    let fee = calculate_market_fee fc o receives.amount in
    let fees : Asset = record { amount = fee; asset_id = receives.asset_id } in
    elim (Bool-cases (ltb_ℤ (pos 0) fee)) [
      | inl charged ↦
          let step : (fc.safe_add (m.accumulated_fees receives.asset_id) fee >>= λ sum.
          some (record m { accumulated_fees = put m.accumulated_fees receives.asset_id sum }, fees))
              ≡ some paid =
            sym (rw charged refl) ∙ h in
          let (sum, exact, e) =
            >>=-eq-some (fc.safe_add (m.accumulated_fees receives.asset_id) fee) _ step in
          rw (sym (eq_of_some e)) (refl, refl)
      | inr free ↦
          let same : some (m, fees) ≡ some paid = sym (rw free refl) ∙ h in
          rw (sym (eq_of_some same)) (refl, refl)
    ]

pub settle_order-count :
    (fc : Fc) (a id : ℕ) (o : LimitOrder) (pays receives : Asset) (m m' : Market)
    → settle_order fc id o pays receives m ≡ some m'
    → (m'.core_in_orders a +ℤ at a o.seller (at 0 pays.asset_id pays.amount) ≡ m.core_in_orders a)
      × (m'.orders ≡ m.orders)
unfolding settle_order
settle_order-count fc a id o pays receives m m' h =
    let (options, known, h1) = >>=-eq-some (m.assets receives.asset_id) _ h in
    let (paid, charged, h2) = >>=-eq-some (pay_market_fees fc options receives m) _ h1 in
    let (net, less, h3) = >>=-eq-some (asset_sub fc receives paid.1) _ h2 in
    let (m1, done, e) = >>=-eq-some (pay_order fc o.seller net pays paid.0) _ h3 in
    let (count_same, orders_same) = pay_market_fees-count fc options receives m paid charged in
    let (freed, orders_same') = pay_order-count fc a o.seller net pays paid.0 m1 done in
    rw (sym (eq_of_some e)) (freed ∙ ap (λ f. f a) count_same, orders_same' ∙ orders_same)
