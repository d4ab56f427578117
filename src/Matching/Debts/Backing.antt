-- ===== src/Matching/Debts/Backing.antt =====
-- What matching a call order with a forced settlement does to all of an asset and to its supply.
use bitshares_toolkit.Common.{
  ℕ, ◌≡◌, refl, sym, ap, ◌∙◌, Bool, some, ◌>>=◌, >>=-eq-some, eq_of_some,
}
use bitshares_toolkit.Common.Int.{ℤ, eq_of_parts, parts_of_sum, ◌+ℤ◌, int_laws}
use bitshares_toolkit.Common.Maps.{find}
use bitshares_toolkit.Fc.{Fc}
use bitshares_toolkit.Asset.{Asset, Price, exchange}
use bitshares_toolkit.Matching.Holdings.{at}
use bitshares_toolkit.Matching.Payments.{HasValidOptions}
use bitshares_toolkit.Matching.Trades.{exchanged_base}
use bitshares_toolkit.Matching.Debts.{
  CallOrder, ForceSettlement, Debts, get_debt, debt_type, asset_min, fill_call, fill_settlement,
  match_settlement,
}
use bitshares_toolkit.Matching.Debts.Collateral.{all_of, fill_call-sum}
use bitshares_toolkit.Matching.Debts.Settlements.{
  asset_min-id, asset_min-bound, fill_settlement-sum,
}

backed :
    (a0 a1 a2 s0 s1 paid settled : ℤ)
    → a1 +ℤ paid ≡ a0
    → a2 +ℤ settled ≡ a1 +ℤ paid
    → s1 +ℤ settled ≡ s0
    → a2 +ℤ s0 ≡ a0 +ℤ s1
backed a0 a1 a2 s0 s1 paid settled first second supply =
    let all_parts = parts_of_sum a2 settled (second ∙ first) in
    let supply_parts = parts_of_sum s1 settled supply in
    eq_of_parts (a2 +ℤ s0) (a0 +ℤ s1) (omega int_laws)

-- What is settled, in the asset of the debt
abbrev pub settled_amount : CallOrder → ForceSettlement → Asset → Asset
settled_amount call settle max_settlement =
    asset_min (asset_min settle.balance max_settlement) (get_debt call)

-- The two fills of a match, in order
pub match_settlement-fills :
    (fc : Fc) (call_id settle_id : ℕ) (call : CallOrder) (settle : ForceSettlement)
    (match_price : Price) (max_settlement : Asset) (d : Debts) (r : Debts × Asset)
    → find call_id d.calls ≡ some call
    → find settle_id d.settlements ≡ some settle
    → match_settlement fc call_id settle_id match_price max_settlement d ≡ some r
    → let settled = settled_amount call settle max_settlement in
      (pays : Asset) × (first : Debts × Bool) × (second : Debts × Bool) × (exchange fc settled
          match_price
        ≡ some pays)
      × (fill_call fc call_id pays settled d ≡ some first)
      × (fill_settlement fc settle_id settled pays first.0 ≡ some second)
      × (r ≡ (second.0, settled))
unfolding match_settlement
match_settlement-fills fc call_id settle_id call settle match_price max_settlement d r call_found
      settle_found h =
    let settled = settled_amount call settle max_settlement in
    let step : (exchange fc settled match_price >>= λ pays.
    fill_call fc call_id pays settled d >>= λ first.
    fill_settlement fc settle_id settled pays first.0 >>= λ second. some (second.0, settled))
        ≡ some r =
      sym (rw (call_found, settle_found) refl) ∙ h in
    let (pays, exchanged, h1) = >>=-eq-some (exchange fc settled match_price) _ step in
    let (first, called, h2) = >>=-eq-some (fill_call fc call_id pays settled d) _ h1 in
    let (second, closed, e) =
      >>=-eq-some (fill_settlement fc settle_id settled pays first.0) _ h2 in
    (pays, first, second, exchanged, called, closed, sym (eq_of_some e))

-- If the options of every asset are valid, the settlement and its maximum are in the asset of the debt
-- and the price is of that asset in the one of the collateral, then a match of a call order and a
-- forced settlement that returns changes the amount of an asset that the balances, the orders, the
-- fees, the collateral and the settlements hold together exactly as it changes the asset's supply.
pub match_settlement_keeps_backing :
    (fc : Fc) (x call_id settle_id : ℕ) (call : CallOrder) (settle : ForceSettlement)
    (match_price : Price) (max_settlement : Asset) (d : Debts) (r : Debts × Asset)
    → HasValidOptions d.market
    → find call_id d.calls ≡ some call
    → find settle_id d.settlements ≡ some settle
    → settle.balance.asset_id ≡ debt_type call
    → max_settlement.asset_id ≡ debt_type call
    → match_price.base.asset_id ≡ debt_type call
    → match_price.quote.asset_id ≡ call.call_price.base.asset_id
    → match_settlement fc call_id settle_id match_price max_settlement d ≡ some r
    → all_of x r.0 +ℤ d.current_supply x ≡ all_of x d +ℤ r.0.current_supply x
match_settlement_keeps_backing fc x call_id settle_id call settle match_price max_settlement d r
      valid call_found settle_found settles max_asset base quote h =
    let settled = settled_amount call settle max_settlement in
    let (pays, first, second, exchanged, called, closed, e) =
      match_settlement-fills fc call_id settle_id call settle match_price max_settlement d r
        call_found settle_found h in
    let sale_id : (asset_min settle.balance max_settlement).asset_id ≡ settle.balance.asset_id =
      asset_min-id settle.balance max_settlement (max_asset ∙ sym settles) in
    let settled_id : settled.asset_id ≡ settle.balance.asset_id =
      asset_min-id (asset_min settle.balance max_settlement) (get_debt call)
        (sym (sale_id ∙ settles))
      ∙ sale_id in
    let pays_id =
      exchanged_base fc settled match_price pays (base ∙ sym (settled_id ∙ settles)) exchanged
      ∙ quote in
    let (call_sum, supply, kept, assets_same, _) =
      fill_call-sum fc x call_id call pays settled d first call_found pays_id called in
    let valid' : HasValidOptions first.0.market =
      λ i o known. valid i o (sym (ap (λ f. f i) assets_same) ∙ known) in
    let (settle_sum, supply_same, _, _) =
      fill_settlement-sum fc x settle_id settle settled pays first.0 second valid'
        (ap (find settle_id) kept ∙ settle_found) settled_id
        (asset_min-bound settle.balance max_settlement (get_debt call)) closed in
    rw (e, supply_same)
      (backed (all_of x d) (all_of x first.0) (all_of x second.0) (d.current_supply x)
        (first.0.current_supply x) (at x pays.asset_id pays.amount)
        (at x settled.asset_id settled.amount) call_sum settle_sum supply)
