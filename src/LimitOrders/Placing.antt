-- ===== src/LimitOrders/Placing.antt =====
-- Placing a new order: what its seller pays is what the order holds.
use bitshares_toolkit.Common.{
  ℕ, ◌==◌, ◌≡◌, refl, sym, ap, ◌∙◌, true, false, some, none, ◌>>=◌, Bool-cases, inl, inr,
  >>=-eq-some, eq_of_some,
}
use bitshares_toolkit.Common.Int.{ℤ, pos, eq_of_parts, neg_ℤ, parts_of_sum, ◌+ℤ◌, int_laws}
use bitshares_toolkit.Common.Maps.{find, insert}
use bitshares_toolkit.Fc.{Fc}
use bitshares_toolkit.Asset.{Asset, Price}
use bitshares_toolkit.Operations.{negate}
use bitshares_toolkit.Operations.Market.{LimitOrderCreateOperation}
use bitshares_toolkit.Transfers.{adjust_balance}
use bitshares_toolkit.Matching.{Market, put}
use bitshares_toolkit.Matching.Holdings.{
  insert_new-sum, neg_back, at, in_balances, in_order, in_orders, total, holdings, at_zero,
  add_zero, adjust_balance-sum,
}
use bitshares_toolkit.Matching.Payments.{put_sum}
use bitshares_toolkit.Matching.Counts.{Counts}
use bitshares_toolkit.Matching.Releases.{core_of, core_test}
use bitshares_toolkit.LimitOrders.{lock_core, new_order, place_order}
use bitshares_toolkit.LimitOrders.Steps.{Sound}

-- The orders, the fees and the options stay, and the count rises by what the order holds of the core asset.
lock_core-count :
    (fc : Fc) (account : ℕ) (sells : Asset) (m m' : Market)
    → lock_core fc account sells m ≡ some m'
    → ((a : ℕ)
        → m'.core_in_orders a
          ≡ m.core_in_orders a +ℤ at a account (at 0 sells.asset_id sells.amount))
      × (m'.balances ≡ m.balances)
      × (m'.orders ≡ m.orders)
      × (m'.accumulated_fees ≡ m.accumulated_fees)
      × (m'.assets ≡ m.assets)
unfolding lock_core
lock_core-count fc account sells m m' h = elim (Bool-cases (sells.asset_id == 0)) [
  | inl core ↦
      let step : (fc.safe_add (m.core_in_orders account) sells.amount >>= λ sum.
      some (record m { core_in_orders = put m.core_in_orders account sum }))
          ≡ some m' =
        sym (rw core refl) ∙ h in
      let (sum, exact, e) =
        >>=-eq-some (fc.safe_add (m.core_in_orders account) sells.amount) _ step in
      rw (sym (eq_of_some e), core_test sells.asset_id sells.amount true core)
        (
          λ a. put_sum a account m.core_in_orders sum sells.amount (fc.safe_add_exact _ _ _ exact),
          refl,
          refl,
          refl,
          refl,
        )
  | inr other ↦
      let same : some m ≡ some m' = sym (rw other refl) ∙ h in
      rw (sym (eq_of_some same), core_test sells.asset_id sells.amount false other)
        (λ a. rw (at_zero a account) (sym (add_zero (m.core_in_orders a))), refl, refl, refl, refl)
]

pub negate-exact :
    (fc : Fc) (a b : Asset)
    → negate fc a ≡ some b
    → (b.asset_id ≡ a.asset_id) × (b.amount ≡ neg_ℤ a.amount)
negate-exact fc a b h =
    let (v, exact, e) = >>=-eq-some (fc.safe_neg a.amount) _ h in
    rw (sym (eq_of_some e)) (refl, fc.safe_neg_exact a.amount v exact)

pub at_neg : (x asset : ℕ) (v : ℤ) → at x asset (neg_ℤ v) ≡ neg_ℤ (at x asset v)
at_neg x asset v = elim (Bool-cases (x == asset)) [
  | inl here ↦ rw here refl
  | inr other ↦ rw other refl
]

paid : (b o f d d' : ℤ) → d' +ℤ d ≡ pos 0 → ((b +ℤ d') +ℤ (o +ℤ d)) +ℤ f ≡ (b +ℤ o) +ℤ f
paid b o f d d' e =
    let parts = parts_of_sum d' d e in
    eq_of_parts (((b +ℤ d') +ℤ (o +ℤ d)) +ℤ f) ((b +ℤ o) +ℤ f) (omega int_laws)

pub place_order-Sound :
    (fc : Fc) (id : ℕ) (op : LimitOrderCreateOperation) (p : Price) (m m' : Market)
    → find id m.orders ≡ none
    → p.base.asset_id ≡ op.amount_to_sell.asset_id
    → place_order fc id op p m ≡ some m'
    → Sound m m' × (m'.orders ≡ insert id (new_order op p) m.orders) × (m'.assets ≡ m.assets)
unfolding place_order
place_order-Sound fc id op p m m' absent ids h =
    let (m1, locked, h1) = >>=-eq-some (lock_core fc op.seller op.amount_to_sell m) _ h in
    let (debit, negated, h2) = >>=-eq-some (negate fc op.amount_to_sell) _ h1 in
    let (balances, adjusted, e) =
      >>=-eq-some (adjust_balance fc op.seller debit m1.balances) _ h2 in
    let (count, balances_same, orders_same, fees_same, assets_same) =
      lock_core-count fc op.seller op.amount_to_sell m m1 locked in
    let (debit_id, debit_amount) = negate-exact fc op.amount_to_sell debit negated in
    let p_sum : (x : ℕ)
        → in_order x (new_order op p) ≡ at x op.amount_to_sell.asset_id op.amount_to_sell.amount =
      λ x. ap (λ i. at x i op.amount_to_sell.amount) ids in
    let debit_sum : (x : ℕ)
        → at x debit.asset_id debit.amount +ℤ in_order x (new_order op p) ≡ pos 0 =
      λ x.
        rw
          (
            debit_id,
            debit_amount,
            p_sum x,
            at_neg x op.amount_to_sell.asset_id op.amount_to_sell.amount,
          )
          (neg_back (at x op.amount_to_sell.asset_id op.amount_to_sell.amount)) in
    let held : (x : ℕ)
        → (in_balances x balances +ℤ in_orders x (insert id (new_order op p) m1.orders))
            +ℤ m1.accumulated_fees x
          ≡ holdings x m =
      λ x.
        rw
          (
            adjust_balance-sum fc x op.seller debit m1.balances balances adjusted,
            balances_same,
            orders_same,
            ap (λ f. f x) fees_same,
            insert_new-sum (in_order x) id (new_order op p) m.orders absent,
          )
          (paid (in_balances x m.balances) (in_orders x m.orders) (m.accumulated_fees x)
            (in_order x (new_order op p)) (at x debit.asset_id debit.amount) (debit_sum x)) in
    let counted : (a : ℕ)
        → Counts a m
        → m1.core_in_orders a ≡ total (core_of a) (insert id (new_order op p) m1.orders) =
      λ a right.
        count a
        ∙ rw
            (
              right,
              orders_same,
              insert_new-sum (core_of a) id (new_order op p) m.orders absent,
              ids,
            )
            refl in
    rw (sym (eq_of_some e))
      ((held, counted), ap (insert id (new_order op p)) orders_same, assets_same)
