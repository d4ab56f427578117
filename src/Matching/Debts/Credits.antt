-- ===== src/Matching/Debts/Credits.antt =====
-- What `call_order_update_evaluator::do_apply` does to the balances of accounts when an order stays open.
use bitshares_toolkit.Common.{
  ℕ, ◌==◌, ◌≡◌, refl, sym, ap, ◌∙◌, true, false, Option, some, ◌>>=◌, Bool-cases, inl, inr,
  >>=-eq-some, eq_of_some, arith,
}
use bitshares_toolkit.Common.Int.{ℤ, pos, neg_ℤ, ltb_ℤ, ◌+ℤ◌}
use bitshares_toolkit.Fc.{Fc}
use bitshares_toolkit.Asset.{Asset}
use bitshares_toolkit.Operations.{negate}
use bitshares_toolkit.Operations.Market.{CallOrderUpdateOperation}
use bitshares_toolkit.Transfers.{adjust_balance}
use bitshares_toolkit.Transfers.Balances.{amount_of, Sets}
use bitshares_toolkit.Transfers.Adjusting.{adjust_balance-Sets}
use bitshares_toolkit.LimitOrders.Placing.{negate-exact}
use bitshares_toolkit.Matching.{Market, put}
use bitshares_toolkit.Matching.Debts.{CallOrder, Debts}
use bitshares_toolkit.Matching.Debts.Updates.{
  count_core, take_collateral, change_call, change_debt, pay_debt, call_update_apply,
}

count_core-balances :
    (account : ℕ) (change : ℤ → ℤ → Option ℤ) (a : Asset) (m m' : Market)
    → count_core change account a m ≡ some m'
    → m'.balances ≡ m.balances
count_core-balances account change a m m' h = elim (Bool-cases (a.asset_id == 0)) [
  | inl core ↦
      let step : (change (m.core_in_orders account) a.amount >>= λ count.
      some (record m { core_in_orders = put m.core_in_orders account count }))
          ≡ some m' =
        sym (rw core refl) ∙ h in
      let (count, _, e) = >>=-eq-some (change (m.core_in_orders account) a.amount) _ step in
      rw (sym (eq_of_some e)) refl
  | inr other ↦
      let same : some m ≡ some m' = sym (rw other refl) ∙ h in rw (sym (eq_of_some same)) refl
]

-- Collateral that is not positive is not taken from the account, nor given to it.
untaken :
    (fc : Fc) (account : ℕ) (a : Asset) (m m' : Market)
    → ltb_ℤ a.amount (pos 0) ≡ true
    → take_collateral fc account a m ≡ some m'
    → m ≡ m'
unfolding take_collateral
untaken fc account a m m' out h =
    let low : ltb_ℤ (pos 0) a.amount ≡ false = ground (arith, out) in
    eq_of_some (sym (rw low refl) ∙ h)

change_debt-balances :
    (fc : Fc) (op : CallOrderUpdateOperation) (id : ℕ) (call : CallOrder) (d d' : Debts)
    → ltb_ℤ op.collateral_to_add.amount (pos 0) ≡ true
    → change_debt fc op id call d ≡ some d'
    → d'.market.balances ≡ d.market.balances
unfolding change_debt
change_debt-balances fc op id call d d' out h =
    let (o, _, h1) = >>=-eq-some (change_call fc call op) _ h in
    let (m, drawn, h2) =
      >>=-eq-some (take_collateral fc op.funding_account op.collateral_to_add d.market) _ h1 in
    let (m', counted, e) =
      >>=-eq-some (count_core fc.safe_add op.funding_account op.collateral_to_add m) _ h2 in
    rw (sym (eq_of_some e)) (
      count_core-balances op.funding_account fc.safe_add op.collateral_to_add m m' counted
      ∙ ap (λ (w : Market). w.balances)
          (sym (untaken fc op.funding_account op.collateral_to_add d.market m out drawn)))

-- The account pays what it covers, and no other balance changes.
abbrev pub OnlyDebited : CallOrderUpdateOperation → Debts → Debts → Type 0
OnlyDebited op d d' =
    Sets d.market.balances d'.market.balances op.funding_account op.amount_to_cover.asset_id (
      amount_of d.market.balances op.funding_account op.amount_to_cover.asset_id
      +ℤ neg_ℤ op.amount_to_cover.amount)

pay_debt-OnlyDebited :
    (fc : Fc) (op : CallOrderUpdateOperation) (d d' : Debts)
    → pay_debt fc op d ≡ some d'
    → OnlyDebited op d d'
unfolding pay_debt
pay_debt-OnlyDebited fc op d d' h =
    let (debit, negated, h1) = >>=-eq-some (negate fc op.amount_to_cover) _ h in
    let (balances, adjusted, h2) =
      >>=-eq-some (adjust_balance fc op.funding_account debit d.market.balances) _ h1 in
    let (supply, _, e) =
      >>=-eq-some
        (fc.safe_sub (d.current_supply op.amount_to_cover.asset_id) op.amount_to_cover.amount) _
        h2 in
    let (id, amount) = negate-exact fc op.amount_to_cover debit negated in
    rw (sym (eq_of_some e), sym id, sym amount)
      (adjust_balance-Sets fc op.funding_account debit d.market.balances balances adjusted)

-- Without collateral that is added, an update that leaves the order open only debits what is covered.
pub call_update_apply-OnlyDebited :
    (fc : Fc) (op : CallOrderUpdateOperation) (id : ℕ) (call : CallOrder) (d d' : Debts)
    → ltb_ℤ op.collateral_to_add.amount (pos 0) ≡ true
    → call_update_apply fc op (id, call, false) d ≡ some d'
    → OnlyDebited op d d'
unfolding call_update_apply
call_update_apply-OnlyDebited fc op id call d d' out h =
    let (paid, debt_paid, h1) = >>=-eq-some (pay_debt fc op d) _ h in
    rw (change_debt-balances fc op id call paid d' out h1)
      (pay_debt-OnlyDebited fc op d paid debt_paid)
