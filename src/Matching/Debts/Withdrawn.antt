-- ===== src/Matching/Debts/Withdrawn.antt =====
-- The update of a call order by `call_order_update_evaluator`: what it keeps and what it loses.
use bitshares_toolkit.Common.{
  ℕ, ◌≡◌, refl, sym, ap, ◌∙◌, Bool, true, false, Option, some, arith, inl, inr, ◌⊎◌, >>=-eq-some,
}
use bitshares_toolkit.Common.Int.{pos, eq_of_parts, ltb_ℤ, ◌+ℤ◌}
use bitshares_toolkit.Common.Maps.{find, IsMap}
use bitshares_toolkit.Fc.{Fc}
use bitshares_toolkit.Asset.{Asset}
use bitshares_toolkit.Operations.Market.{CallOrderUpdateOperation}
use bitshares_toolkit.Matching.Holdings.{at, at_zero, add_zero}
use bitshares_toolkit.Matching.Debts.{CallOrder, Debts}
use bitshares_toolkit.Matching.Debts.Collateral.{all_of}
use bitshares_toolkit.Matching.Debts.Credits.{OnlyDebited, call_update_apply-OnlyDebited}
use bitshares_toolkit.Matching.Debts.Amounts.{backed_still, changed_backing, cancel_end}
use bitshares_toolkit.Matching.Debts.Evaluated.{call_update_evaluate-found}
use bitshares_toolkit.Matching.Debts.Updates.{
  CallBitasset, call_update_evaluate, pay_debt, call_update_apply,
}
use bitshares_toolkit.Matching.Debts.UpdateSums.{
  taken, pay_debt-sum, close_debt-sum, change_debt-sum,
}

-- All of an asset after an update that does not close the order, with what is taken for the collateral
call_update_apply-changes :
    (fc : Fc) (x : ℕ) (op : CallOrderUpdateOperation) (id : ℕ) (call : CallOrder) (d d' : Debts)
    → find id d.calls ≡ some call
    → op.collateral_to_add.asset_id ≡ call.call_price.base.asset_id
    → call_update_apply fc op (id, call, false) d ≡ some d'
    → (all_of x d' +ℤ d.current_supply x)
        +ℤ at x op.collateral_to_add.asset_id (taken op.collateral_to_add)
      ≡ (all_of x d +ℤ d'.current_supply x)
        +ℤ at x op.collateral_to_add.asset_id op.collateral_to_add.amount
unfolding call_update_apply
call_update_apply-changes fc x op id call d d' found ids h =
    let (paid, debt_paid, h1) = >>=-eq-some (pay_debt fc op d) _ h in
    let (all, supply, kept) = pay_debt-sum fc x op d paid debt_paid in
    let (moved, same_supply) =
      change_debt-sum fc x op id call paid d' (ap (find id) kept ∙ found) ids h1 in
    rw same_supply (
      changed_backing (all_of x d) (all_of x d') (all_of x paid) (d.current_supply x)
        (paid.current_supply x) (at x op.amount_to_cover.asset_id op.amount_to_cover.amount)
        (at x op.collateral_to_add.asset_id (taken op.collateral_to_add))
        (at x op.collateral_to_add.asset_id op.collateral_to_add.amount) all supply moved)

taken_all : (a : Asset) → ltb_ℤ a.amount (pos 0) ≡ false → taken a ≡ a.amount
taken_all a h = ground (arith, eq_of_parts (pos 0) a.amount)

taken_none : (a : Asset) → ltb_ℤ a.amount (pos 0) ≡ true → taken a ≡ pos 0
taken_none a h = ground (arith, h)

-- If the ids of call orders are distinct, an update of a call order that passes its evaluation and is
-- applied, and that closes the order or takes no collateral out of it, changes the amount of an asset
-- that the balances, the orders, the fees, the collateral and the settlements hold together exactly as
-- it changes the asset's supply.
pub update_keeps_backing :
    (fc : Fc) (x : ℕ) (bitassets : ℕ → Option CallBitasset) (op : CallOrderUpdateOperation) (id : ℕ)
    (call : CallOrder) (closing : Bool) (d d' : Debts)
    → IsMap d.calls
    → (closing ≡ true) ⊎ (ltb_ℤ op.collateral_to_add.amount (pos 0) ≡ false)
    → call_update_evaluate fc bitassets op d ≡ some (id, call, closing)
    → call_update_apply fc op (id, call, closing) d ≡ some d'
    → all_of x d' +ℤ d.current_supply x ≡ all_of x d +ℤ d'.current_supply x
unfolding call_update_apply
update_keeps_backing fc x bitassets op id call true d d' distinct kind e h =
    let (found, _) = call_update_evaluate-found fc bitassets op d id call true distinct e in
    let (paid, debt_paid, h1) = >>=-eq-some (pay_debt fc op d) _ h in
    let (all, supply, kept) = pay_debt-sum fc x op d paid debt_paid in
    let (same, same_supply) =
      close_debt-sum fc x op.funding_account id call paid d' (ap (find id) kept ∙ found) h1 in
    rw same_supply (
      backed_still (all_of x d) (all_of x d') (all_of x paid) (d.current_supply x)
        (paid.current_supply x) (at x op.amount_to_cover.asset_id op.amount_to_cover.amount) all
        supply same)
update_keeps_backing fc x bitassets op id call false d d' distinct (inl wrong) e h = cc
update_keeps_backing fc x bitassets op id call false d d' distinct (inr added) e h =
    let (found, ids) = call_update_evaluate-found fc bitassets op d id call false distinct e in
    let moved = call_update_apply-changes fc x op id call d d' found (ids refl) h in
    let add = at x op.collateral_to_add.asset_id op.collateral_to_add.amount in
    cancel_end (all_of x d' +ℤ d.current_supply x) (all_of x d +ℤ d'.current_supply x) add (
      ap (λ v. (all_of x d' +ℤ d.current_supply x) +ℤ at x op.collateral_to_add.asset_id v)
        (sym (taken_all op.collateral_to_add added))
      ∙ moved)

-- If the ids of call orders are distinct, an update that covers a part of the debt and takes collateral
-- out of the order, which its evaluation lets pass, loses that collateral when it is applied: beside
-- the change of the supply, the balances, the orders, the fees, the collateral and the settlements
-- hold together less by exactly what was taken out. The funding account pays what it covers, and no other
-- balance changes, so that nobody receives the collateral.
pub withdrawn_collateral_is_lost :
    (fc : Fc) (x : ℕ) (bitassets : ℕ → Option CallBitasset) (op : CallOrderUpdateOperation) (id : ℕ)
    (call : CallOrder) (d d' : Debts)
    → IsMap d.calls
    → ltb_ℤ op.collateral_to_add.amount (pos 0) ≡ true
    → call_update_evaluate fc bitassets op d ≡ some (id, call, false)
    → call_update_apply fc op (id, call, false) d ≡ some d'
    → (all_of x d' +ℤ d.current_supply x
        ≡ (all_of x d +ℤ d'.current_supply x)
          +ℤ at x op.collateral_to_add.asset_id op.collateral_to_add.amount)
      × OnlyDebited op d d'
withdrawn_collateral_is_lost fc x bitassets op id call d d' distinct out e h =
    let (found, ids) = call_update_evaluate-found fc bitassets op d id call false distinct e in
    let moved = call_update_apply-changes fc x op id call d d' found (ids refl) h in
    let nothing : at x op.collateral_to_add.asset_id (taken op.collateral_to_add) ≡ pos 0 =
      ap (at x op.collateral_to_add.asset_id) (taken_none op.collateral_to_add out)
      ∙ at_zero x op.collateral_to_add.asset_id in
    (
      sym (add_zero (all_of x d' +ℤ d.current_supply x))
          ∙ ap (λ v. (all_of x d' +ℤ d.current_supply x) +ℤ v) (sym nothing)
          ∙ moved,
      call_update_apply-OnlyDebited fc op id call d d' out h,
    )
