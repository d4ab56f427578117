-- ===== src/Matching/Debts/UpdateSums.antt =====
-- What the parts of an update of a call order do to all of an asset and to its supply.
use bitshares_toolkit.Common.{
  ℕ, ◌==◌, ◌≡◌, refl, sym, ap, ◌∙◌, Option, some, List, ◌>>=◌, leb, Bool-cases, inl, inr,
  >>=-eq-some, eq_of_some, if◌then◌else◌, fc_assert, not,
}
use bitshares_toolkit.Common.Int.{ℤ, pos, neg_ℤ, ltb_ℤ, ◌+ℤ◌, ◌-ℤ◌}
use bitshares_toolkit.Common.Maps.{find, insert, erase}
use bitshares_toolkit.Fc.{Fc}
use bitshares_toolkit.Asset.{Asset, Price, max_share_supply, make_price, call_price}
use bitshares_toolkit.Operations.{negate}
use bitshares_toolkit.Operations.Market.{CallOrderUpdateOperation}
use bitshares_toolkit.Transfers.{AccountBalance, adjust_balance}
use bitshares_toolkit.Matching.{Market, put}
use bitshares_toolkit.Matching.Holdings.{
  at, total, in_balances, in_orders, holdings, adjust_balance-sum, insert-sum, erase-sum, at_sum,
  at_zero, add_zero, neg_back,
}
use bitshares_toolkit.Matching.Payments.{Pays}
use bitshares_toolkit.LimitOrders.Placing.{negate-exact, at_neg}
use bitshares_toolkit.Matching.Debts.{CallOrder, Debts, get_collateral, get_debt, update_call_price}
use bitshares_toolkit.Matching.Debts.Collateral.{in_call, in_settlement, all_of, less_supply}
use bitshares_toolkit.Matching.Debts.Amounts.{taken_back, spent, given_back, drawn, grown}
use bitshares_toolkit.Matching.Debts.Updates.{
  ratio_or, count_core, close_debt, take_collateral, change_call, change_debt, pay_debt,
}

call_price-base :
    (fc : Fc) (debt collateral : Asset) (ratio : ℕ) (p : Price)
    → call_price fc debt collateral ratio ≡ some p
    → p.base.asset_id ≡ collateral.asset_id
unfolding call_price make_price
call_price-base fc debt collateral ratio p h =
    let tmp =
      fc.div128
        (fc.mul128 (fc.to_uint128 collateral.amount) (fc.to_uint128 (pos ratio -ℤ pos 1000)))
        1000 in
    let (_, _, h1) = >>=-eq-some (fc_assert (leb tmp max_share_supply)) _ h in
    let (_, _, e) = >>=-eq-some (fc_assert (not (collateral.asset_id == debt.asset_id))) _ h1 in
    rw (sym (eq_of_some e)) refl

-- A new call price leaves the collateral as it is.
pub update_call_price-collateral :
    (fc : Fc) (x : ℕ) (o o' : CallOrder)
    → update_call_price fc o ≡ some o'
    → in_call x o' ≡ in_call x o
unfolding update_call_price
update_call_price-collateral fc x o o' h =
    let (price, priced, e) =
      >>=-eq-some (call_price fc (get_debt o) (get_collateral o) o.maintenance_collateral_ratio) _
        h in
    rw (sym (eq_of_some e)) (
      ap (λ i. at x i o.collateral)
        (call_price-base fc (get_debt o) (get_collateral o) o.maintenance_collateral_ratio price
          priced))

-- A balance from which an asset is taken
debited :
    (fc : Fc) (x account : ℕ) (a debit : Asset) (bs bs' : List AccountBalance)
    → negate fc a ≡ some debit
    → adjust_balance fc account debit bs ≡ some bs'
    → in_balances x bs' +ℤ at x a.asset_id a.amount ≡ in_balances x bs
debited fc x account a debit bs bs' negated adjusted =
    let (debit_id, debit_amount) = negate-exact fc a debit negated in
    rw
      (
        adjust_balance-sum fc x account debit bs bs' adjusted,
        debit_id,
        debit_amount,
        at_neg x a.asset_id a.amount,
      )
      (taken_back (in_balances x bs) (neg_ℤ (at x a.asset_id a.amount)) (at x a.asset_id a.amount)
        (neg_back (at x a.asset_id a.amount)))

pub pay_debt-sum :
    (fc : Fc) (x : ℕ) (op : CallOrderUpdateOperation) (d d' : Debts)
    → pay_debt fc op d ≡ some d'
    → (all_of x d' +ℤ at x op.amount_to_cover.asset_id op.amount_to_cover.amount ≡ all_of x d)
      × (d'.current_supply x +ℤ at x op.amount_to_cover.asset_id op.amount_to_cover.amount
          ≡ d.current_supply x)
      × (d'.calls ≡ d.calls)
unfolding pay_debt
pay_debt-sum fc x op d d' h =
    let (debit, negated, h1) = >>=-eq-some (negate fc op.amount_to_cover) _ h in
    let (balances, adjusted, h2) =
      >>=-eq-some (adjust_balance fc op.funding_account debit d.market.balances) _ h1 in
    let (supply, less, e) =
      >>=-eq-some
        (fc.safe_sub (d.current_supply op.amount_to_cover.asset_id) op.amount_to_cover.amount) _
        h2 in
    rw (sym (eq_of_some e)) (
      spent (in_balances x d.market.balances) (in_balances x balances) (in_orders x d.market.orders)
          (d.market.accumulated_fees x) (total (in_call x) d.calls)
          (total (in_settlement x) d.settlements)
          (at x op.amount_to_cover.asset_id op.amount_to_cover.amount)
          (debited fc x op.funding_account op.amount_to_cover debit d.market.balances balances
            negated adjusted),
      less_supply x op.amount_to_cover.asset_id d.current_supply supply op.amount_to_cover.amount
          (fc.safe_sub_exact _ _ _ less),
      refl,
    )

pub count_core-holdings :
    (x account : ℕ) (change : ℤ → ℤ → Option ℤ) (a : Asset) (m m' : Market)
    → count_core change account a m ≡ some m'
    → (holdings x m' ≡ holdings x m) × Pays m m'
count_core-holdings x account change a m m' h = elim (Bool-cases (a.asset_id == 0)) [
  | inl core ↦
      let step : (change (m.core_in_orders account) a.amount >>= λ count.
      some (record m { core_in_orders = put m.core_in_orders account count }))
          ≡ some m' =
        sym (rw core refl) ∙ h in
      let (count, _, e) = >>=-eq-some (change (m.core_in_orders account) a.amount) _ step in
      rw (sym (eq_of_some e)) (refl, (refl, refl))
  | inr other ↦
      let same : some m ≡ some m' = sym (rw other refl) ∙ h in
      rw (sym (eq_of_some same)) (refl, (refl, refl))
]

-- A closed call order gives back all its collateral.
pub close_debt-sum :
    (fc : Fc) (x account id : ℕ) (call : CallOrder) (d d' : Debts)
    → find id d.calls ≡ some call
    → close_debt fc account id call d ≡ some d'
    → (all_of x d' ≡ all_of x d) × (d'.current_supply ≡ d.current_supply)
unfolding close_debt
close_debt-sum fc x account id call d d' found h =
    let (balances, adjusted, h1) =
      >>=-eq-some (adjust_balance fc account (get_collateral call) d.market.balances) _ h in
    let m1 : Market = record d.market { balances = balances } in
    let (m, counted, e) =
      >>=-eq-some (count_core fc.safe_sub account (get_collateral call) m1) _ h1 in
    rw (sym (eq_of_some e)) (
      rw
          (
            (count_core-holdings x account fc.safe_sub (get_collateral call) m1 m counted).0,
            adjust_balance-sum fc x account (get_collateral call) d.market.balances balances
                adjusted,
          )
          (given_back (in_balances x d.market.balances) (in_orders x d.market.orders)
            (d.market.accumulated_fees x) (total (in_call x) (erase id d.calls))
            (total (in_call x) d.calls) (total (in_settlement x) d.settlements) (in_call x call)
            (erase-sum (in_call x) id call d.calls found)),
      refl,
    )

-- What the account pays for an amount of collateral: nothing unless it is positive
abbrev pub taken : Asset → ℤ
taken a = if ltb_ℤ (pos 0) a.amount then a.amount else pos 0

take_collateral-sum :
    (fc : Fc) (x account : ℕ) (a : Asset) (m m' : Market)
    → take_collateral fc account a m ≡ some m'
    → holdings x m' +ℤ at x a.asset_id (taken a) ≡ holdings x m
unfolding take_collateral
take_collateral-sum fc x account a m m' h = elim (Bool-cases (ltb_ℤ (pos 0) a.amount)) [
  | inl positive ↦
      let step : (negate fc a >>= λ debit.
      adjust_balance fc account debit m.balances >>= λ balances.
      some (record m { balances = balances }))
          ≡ some m' =
        sym (rw positive refl) ∙ h in
      let (debit, negated, h1) = >>=-eq-some (negate fc a) _ step in
      let (balances, adjusted, e) = >>=-eq-some (adjust_balance fc account debit m.balances) _ h1 in
      let less = debited fc x account a debit m.balances balances negated adjusted in
      rw (sym (eq_of_some e), positive)
        (drawn (in_balances x m.balances) (in_balances x balances) (in_orders x m.orders)
          (m.accumulated_fees x) (at x a.asset_id a.amount) less)
  | inr other ↦
      let same : some m ≡ some m' = sym (rw other refl) ∙ h in
      rw (sym (eq_of_some same), other, at_zero x a.asset_id) (add_zero (holdings x m))
]

change_call-sum :
    (fc : Fc) (x : ℕ) (call o : CallOrder) (op : CallOrderUpdateOperation)
    → op.collateral_to_add.asset_id ≡ call.call_price.base.asset_id
    → change_call fc call op ≡ some o
    → in_call x o ≡ in_call x call +ℤ at x op.collateral_to_add.asset_id op.collateral_to_add.amount
unfolding change_call
change_call-sum fc x call o op ids h =
    let (debt, _, h1) = >>=-eq-some (fc.safe_sub call.debt op.amount_to_cover.amount) _ h in
    let (collateral, exact, h2) =
      >>=-eq-some (fc.safe_add call.collateral op.collateral_to_add.amount) _ h1 in
    let ratio = ratio_or op.maintenance_collateral_ratio call in
    let o' : CallOrder = record call {
      debt = debt;
      collateral = collateral;
      maintenance_collateral_ratio = ratio;
    } in
    update_call_price-collateral fc x o' o h2
    ∙ ap (at x call.call_price.base.asset_id) (fc.safe_add_exact _ _ _ exact)
    ∙ at_sum x call.call_price.base.asset_id call.collateral op.collateral_to_add.amount
    ∙ ap (λ i. in_call x call +ℤ at x i op.collateral_to_add.amount) (sym ids)

-- The collateral grows by what is added, and the balances fall by what is taken for it.
pub change_debt-sum :
    (fc : Fc) (x : ℕ) (op : CallOrderUpdateOperation) (id : ℕ) (call : CallOrder) (d d' : Debts)
    → find id d.calls ≡ some call
    → op.collateral_to_add.asset_id ≡ call.call_price.base.asset_id
    → change_debt fc op id call d ≡ some d'
    → (all_of x d' +ℤ at x op.collateral_to_add.asset_id (taken op.collateral_to_add)
        ≡ all_of x d +ℤ at x op.collateral_to_add.asset_id op.collateral_to_add.amount)
      × (d'.current_supply ≡ d.current_supply)
unfolding change_debt
change_debt-sum fc x op id call d d' found ids h =
    let (o, changed, h1) = >>=-eq-some (change_call fc call op) _ h in
    let (m, drawn_from, h2) =
      >>=-eq-some (take_collateral fc op.funding_account op.collateral_to_add d.market) _ h1 in
    let (m', counted, e) =
      >>=-eq-some (count_core fc.safe_add op.funding_account op.collateral_to_add m) _ h2 in
    rw (sym (eq_of_some e)) (
      rw
          ((count_core-holdings x op.funding_account fc.safe_add op.collateral_to_add m m'
            counted).0)
          (grown (holdings x d.market) (holdings x m) (total (in_call x) d.calls)
            (total (in_call x) (insert id o d.calls)) (total (in_settlement x) d.settlements)
            (in_call x call) (in_call x o)
            (at x op.collateral_to_add.asset_id op.collateral_to_add.amount)
            (at x op.collateral_to_add.asset_id (taken op.collateral_to_add))
            (take_collateral-sum fc x op.funding_account op.collateral_to_add d.market m drawn_from)
            (insert-sum (in_call x) id call o d.calls found)
            (change_call-sum fc x call o op ids changed)),
      refl,
    )
