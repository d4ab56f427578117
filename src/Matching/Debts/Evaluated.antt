-- ===== src/Matching/Debts/Evaluated.antt =====
-- What the checks of `call_order_update_evaluator::do_evaluate` give.
use bitshares_toolkit.Common.{
  ℕ, ◌==◌, ◌≡◌, refl, sym, ap, subst, ◌∙◌, Bool, true, false, Option, some, [], ◌∷◌, arith,
  Bool-cases, inl, inr, >>=-eq-some, eq_of_some, if◌then◌else◌, fc_assert,
}
use bitshares_toolkit.Common.Int.{ltb_ℤ, leb_ℤ, eqb_ℤ}
use bitshares_toolkit.Common.Maps.{Map, find, IsMap}
use bitshares_toolkit.Fc.{Fc}
use bitshares_toolkit.Asset.{asset_ge, asset_lt, asset_add, asset_sub, exchange, call_price}
use bitshares_toolkit.Operations.{negate}
use bitshares_toolkit.Operations.Market.{CallOrderUpdateOperation}
use bitshares_toolkit.Transfers.{get_balance}
use bitshares_toolkit.Matching.Debts.{CallOrder, Debts, get_collateral, get_debt, debt_type}
use bitshares_toolkit.Matching.Debts.Updates.{
  CallBitasset, find_call, ratio_or, check_terms, check_rest, check_closing, call_update_evaluate,
}

pub find_call-found :
    (account debt id : ℕ) (call : CallOrder) (calls : Map CallOrder)
    → IsMap calls
    → find_call account debt calls ≡ some (id, call)
    → find id calls ≡ some call
find_call-found account debt id call [] h e = cc
find_call-found account debt id call (c ∷ calls) h e =
    ground (arith, find_call-found account debt id call calls h.1)

check_rest-asset :
    (fc : Fc) (call : CallOrder) (op : CallOrderUpdateOperation) (closing : Bool)
    → check_rest fc call op ≡ some closing
    → (op.collateral_to_add.asset_id ≡ call.call_price.base.asset_id) × (closing ≡ false)
unfolding check_rest asset_add
check_rest-asset fc call op closing h =
    let (debt, _, h1) = >>=-eq-some (asset_sub fc (get_debt call) op.amount_to_cover) _ h in
    let (collateral, added, h2) =
      >>=-eq-some (asset_add fc (get_collateral call) op.collateral_to_add) _ h1 in
    let (price, _, h3) =
      >>=-eq-some (call_price fc debt collateral (ratio_or op.maintenance_collateral_ratio call)) _
        h2 in
    let (needed, _, h4) = >>=-eq-some (exchange fc debt price) _ h3 in
    let (_, _, h5) = >>=-eq-some (fc_assert (asset_lt needed (get_collateral call))) _ h4 in
    let (_, _, e) = >>=-eq-some (fc_assert (asset_lt op.amount_to_cover (get_debt call))) _ h5 in
    let (_, same, _) =
      >>=-eq-some (fc_assert (call.call_price.base.asset_id == op.collateral_to_add.asset_id)) _
        added in
    (ground (arith, same), sym (eq_of_some e))

check_closing-closes :
    (fc : Fc) (call : CallOrder) (op : CallOrderUpdateOperation) (closing : Bool)
    → check_closing fc call op ≡ some closing
    → closing ≡ true
unfolding check_closing
check_closing-closes fc call op closing h =
    let (debit, _, h1) = >>=-eq-some (negate fc (get_collateral call)) _ h in
    let (_, _, e) = >>=-eq-some (fc_assert (eqb_ℤ op.collateral_to_add.amount debit.amount)) _ h1 in
    sym (eq_of_some e)

-- The last check: an update that does not close the order has collateral of the order's asset.
check_kind-asset :
    (fc : Fc) (call : CallOrder) (op : CallOrderUpdateOperation)
    → (if ltb_ℤ op.amount_to_cover.amount call.debt
        then check_rest fc call op
        else check_closing fc call op)
      ≡ some false
    → op.collateral_to_add.asset_id ≡ call.call_price.base.asset_id
check_kind-asset fc call op h = elim (Bool-cases (ltb_ℤ op.amount_to_cover.amount call.debt)) [
  | inl part ↦
      let rest : check_rest fc call op ≡ some false = sym (rw part refl) ∙ h in
      (check_rest-asset fc call op false rest).0
  | inr whole ↦
      let last : check_closing fc call op ≡ some false = sym (rw whole refl) ∙ h in
      let wrong : false ≡ true = check_closing-closes fc call op false last in cc
]

pub call_update_evaluate-found :
    (fc : Fc) (bitassets : ℕ → Option CallBitasset) (op : CallOrderUpdateOperation) (d : Debts)
    (id : ℕ) (call : CallOrder) (closing : Bool)
    → IsMap d.calls
    → call_update_evaluate fc bitassets op d ≡ some (id, call, closing)
    → (find id d.calls ≡ some call)
      × (closing ≡ false → op.collateral_to_add.asset_id ≡ call.call_price.base.asset_id)
unfolding call_update_evaluate
call_update_evaluate-found fc bitassets op d id call closing distinct h =
    let (b, _, h1) = >>=-eq-some (bitassets op.amount_to_cover.asset_id) _ h in
    let (_, _, h2) =
      >>=-eq-some (fc_assert (op.collateral_to_add.asset_id == b.short_backing_asset)) _ h1 in
    let (_, _, h3) = >>=-eq-some (check_terms fc b op) _ h2 in
    let (covered, _, h4) =
      >>=-eq-some
        (asset_ge (get_balance d.market.balances op.funding_account op.amount_to_cover.asset_id)
          op.amount_to_cover)
        _ h3 in
    let (_, _, h5) = >>=-eq-some (fc_assert covered) _ h4 in
    let (backed, _, h6) =
      >>=-eq-some
        (asset_ge (get_balance d.market.balances op.funding_account b.short_backing_asset)
          op.collateral_to_add)
        _ h5 in
    let (_, _, h7) = >>=-eq-some (fc_assert backed) _ h6 in
    let (c, at_account, h8) =
      >>=-eq-some (find_call op.funding_account op.amount_to_cover.asset_id d.calls) _ h7 in
    let (_, _, h9) = >>=-eq-some (fc_assert (op.amount_to_cover.asset_id == debt_type c.1)) _ h8 in
    let (_, _, h10) = >>=-eq-some (fc_assert (leb_ℤ op.amount_to_cover.amount c.1.debt)) _ h9 in
    let (kind, checked, e) =
      >>=-eq-some
        (if ltb_ℤ op.amount_to_cover.amount c.1.debt
          then check_rest fc c.1 op
          else check_closing fc c.1 op)
        _ h10 in
    let same = eq_of_some e in
    (
      subst (λ (q : ℕ × CallOrder × Bool). find q.0 d.calls ≡ some q.1) same
          (find_call-found op.funding_account op.amount_to_cover.asset_id c.0 c.1 d.calls distinct
            at_account),
      λ open_still.
          subst
            (λ (q : ℕ × CallOrder × Bool).
              op.collateral_to_add.asset_id ≡ q.1.call_price.base.asset_id)
            same
            (check_kind-asset fc c.1 op
              (checked ∙ ap some (ap (λ (q : ℕ × CallOrder × Bool). q.2) same ∙ open_still))),
    )
