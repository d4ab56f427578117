-- ===== src/Matching/Shorts/Lending.antt =====
-- What the new debt of a filled short order adds to the collateral of call orders.
use bitshares_toolkit.Common.{
  ℕ, ◌==◌, ◌≡◌, refl, sym, ap, ◌∙◌, not, Option, none, some, arith, >>=-eq-some, eq_of_some,
  fc_assert,
}
use bitshares_toolkit.Common.Int.{ℤ, ◌+ℤ◌}
use bitshares_toolkit.Common.Maps.{Map, find, contains, insert}
use bitshares_toolkit.Fc.{Fc}
use bitshares_toolkit.Asset.{Asset, Price, price_max, make_price}
use bitshares_toolkit.Matching.Holdings.{at, total, insert-sum, insert_new-sum, at_sum, raised}
use bitshares_toolkit.Matching.Debts.{CallOrder, update_call_price}
use bitshares_toolkit.Matching.Debts.Collateral.{in_call}
use bitshares_toolkit.Matching.Debts.UpdateSums.{update_call_price-collateral}
use bitshares_toolkit.Matching.Shorts.{ShortOrder, lend}

price_max-base :
    (base quote : ℕ) (p : Price) → price_max base quote ≡ some p → p.base.asset_id ≡ base
unfolding price_max make_price
price_max-base base quote p h =
    let (_, _, e) = >>=-eq-some (fc_assert (not (base == quote))) _ h in
    rw (sym (eq_of_some e)) refl

absent_of_test :
    (id : ℕ) (calls : Map CallOrder) (u : Unit {0})
    → fc_assert (not (contains id calls)) ≡ some u
    → find id calls ≡ none
absent_of_test id calls u h = ground arith

-- The collateral grows by the amount, in the asset of the collateral.
pub lend-sum :
    (fc : Fc) (x : ℕ) (o : ShortOrder) (pays : Asset) (asset : ℕ) (amount : ℤ) (next_id : ℕ)
    (calls : Map CallOrder) (found : Option (ℕ × CallOrder)) (r : Map CallOrder × ℕ)
    → ((id : ℕ) (call : CallOrder)
        → found ≡ some (id, call)
        → (find id calls ≡ some call) × (call.call_price.base.asset_id ≡ asset))
    → lend fc o pays asset amount next_id calls found ≡ some r
    → total (in_call x) r.0 ≡ total (in_call x) calls +ℤ at x asset amount
unfolding lend
lend-sum fc x o pays asset amount next_id calls none r known h =
    let (price, priced, h1) = >>=-eq-some (price_max asset pays.asset_id) _ h in
    let o' : CallOrder = record {
      borrower = o.seller;
      collateral = amount;
      debt = pays.amount;
      call_price = price;
      maintenance_collateral_ratio = o.maintenance_collateral_ratio;
    } in
    let (c, changed, h2) = >>=-eq-some (update_call_price fc o') _ h1 in
    let (u, absent, e) = >>=-eq-some (fc_assert (not (contains next_id calls))) _ h2 in
    let weight : in_call x c ≡ at x asset amount =
      update_call_price-collateral fc x o' c changed
      ∙ ap (λ i. at x i amount) (price_max-base asset pays.asset_id price priced) in
    rw (sym (eq_of_some e)) (
      insert_new-sum (in_call x) next_id c calls (absent_of_test next_id calls u absent)
      ∙ ap (λ v. total (in_call x) calls +ℤ v) weight)
lend-sum fc x o pays asset amount next_id calls (some (id, call)) r known h =
    let (debt, _, h1) = >>=-eq-some (fc.safe_add call.debt pays.amount) _ h in
    let (collateral, exact, h2) = >>=-eq-some (fc.safe_add call.collateral amount) _ h1 in
    let o' : CallOrder = record call {
      debt = debt;
      collateral = collateral;
      maintenance_collateral_ratio = o.maintenance_collateral_ratio;
    } in
    let (c, changed, e) = >>=-eq-some (update_call_price fc o') _ h2 in
    let (found, same_asset) = known id call refl in
    let weight : in_call x c ≡ in_call x call +ℤ at x asset amount =
      update_call_price-collateral fc x o' c changed
      ∙ ap (at x call.call_price.base.asset_id) (fc.safe_add_exact _ _ _ exact)
      ∙ at_sum x call.call_price.base.asset_id call.collateral amount
      ∙ ap (λ i. in_call x call +ℤ at x i amount) same_asset in
    rw (sym (eq_of_some e)) (
      raised (total (in_call x) calls) (total (in_call x) (insert id c calls)) (in_call x call)
        (in_call x c) (at x asset amount) (insert-sum (in_call x) id call c calls found) weight)
