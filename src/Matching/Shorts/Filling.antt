-- ===== src/Matching/Shorts/Filling.antt =====
-- What filling a short order does to all of an asset and to its supply.
use bitshares_toolkit.Common.{
  ℕ, ◌≡◌, refl, sym, ap, ◌∙◌, Bool, true, false, some, >>=-eq-some, eq_of_some, inl, inr,
  Bool-cases,
}
use bitshares_toolkit.Common.Int.{ℤ, eq_of_parts, parts_of_sum, ◌+ℤ◌, int_laws}
use bitshares_toolkit.Common.Maps.{Map, find, IsMap}
use bitshares_toolkit.Fc.{Fc}
use bitshares_toolkit.Asset.{Asset, asset_eq, asset_sub, exchange}
use bitshares_toolkit.Matching.{pay_market_fees}
use bitshares_toolkit.Matching.Holdings.{at, total, holdings}
use bitshares_toolkit.Matching.Payments.{
  HasValidOptions, pay_market_fees-sum, asset_sub-exact, fee_and_net,
}
use bitshares_toolkit.Matching.Trades.{exchanged_base}
use bitshares_toolkit.Matching.Debts.{CallOrder}
use bitshares_toolkit.Matching.Debts.Collateral.{in_call, in_settlement, all_of}
use bitshares_toolkit.Matching.Debts.Updates.{find_call}
use bitshares_toolkit.Matching.Shorts.{
  ShortOrder, ShortMarket, short_collateral, short_for_sale, seller_to_collateral, close_short,
  issue, fill_short,
}
use bitshares_toolkit.Matching.Shorts.Parts.{in_short, close_short-sum, issue-sum}

-- All of the asset `x`, with the collateral of short orders
abbrev pub all_with_shorts : ℕ → ShortMarket → ℤ
all_with_shorts x w = all_of x w.debts +ℤ total (in_short x) w.shorts

-- The call order of an account for a debt has its collateral in this asset.
abbrev pub HasCollateralIn : ℕ → ℕ → ℕ → Map CallOrder → Type 0
HasCollateralIn asset account debt calls =
    (id : ℕ) (call : CallOrder)
    → find_call account debt calls ≡ some (id, call)
    → call.call_price.base.asset_id ≡ asset

seller_part-Given :
    (fc : Fc) (o : ShortOrder) (pays receives part : Asset)
    → pays.asset_id ≡ o.sell_price.base.asset_id
    → seller_to_collateral fc false o pays receives ≡ some part
    → (part.asset_id ≡ o.sell_price.quote.asset_id)
      × (asset_eq pays (short_for_sale o) ≡ true → part.amount ≡ o.available_collateral)
unfolding seller_to_collateral
seller_part-Given fc o pays receives part ids h =
    elim (Bool-cases (asset_eq pays (short_for_sale o))) [
      | inl filled ↦
          let same : some (short_collateral o) ≡ some part = sym (rw filled refl) ∙ h in
          rw (sym (eq_of_some same)) (refl, λ _. refl)
      | inr partly ↦
          let exchanged : exchange fc pays o.sell_price ≡ some part = sym (rw partly refl) ∙ h in
          (
            exchanged_base fc pays o.sell_price part (sym ids) exchanged,
            λ filled. let wrong : true ≡ false = sym filled ∙ partly in cc,
          )
    ]

lent_sum :
    (h0 h1 h2 sh sh' c c' s a net fee gross : ℤ)
    → h1 ≡ h0 +ℤ fee
    → (h2 +ℤ sh') +ℤ a ≡ h1 +ℤ sh
    → c' ≡ c +ℤ (a +ℤ net)
    → (h0 +ℤ fee) +ℤ net ≡ h0 +ℤ gross
    → ((h2 +ℤ c') +ℤ s) +ℤ sh' ≡ (((h0 +ℤ c) +ℤ s) +ℤ sh) +ℤ gross
lent_sum h0 h1 h2 sh sh' c c' s a net fee gross charged given lent split =
    let charged_parts = parts_of_sum h0 fee (sym charged) in
    let given_parts = parts_of_sum (h2 +ℤ sh') a given in
    let lent_parts = parts_of_sum c (a +ℤ net) (sym lent) in
    let split_parts = parts_of_sum (h0 +ℤ fee) net split in
    eq_of_parts (((h2 +ℤ c') +ℤ s) +ℤ sh') ((((h0 +ℤ c) +ℤ s) +ℤ sh) +ℤ gross) (omega int_laws)

-- What a short order receives stays in the market, and what it pays is new supply.
pub fill_short-sum :
    (fc : Fc) (x id : ℕ) (o : ShortOrder) (pays receives : Asset) (w : ShortMarket)
    (r : ShortMarket × Bool)
    → HasValidOptions w.debts.market
    → IsMap w.debts.calls
    → find id w.shorts ≡ some o
    → w.prediction_markets pays.asset_id ≡ some false
    → pays.asset_id ≡ o.sell_price.base.asset_id
    → receives.asset_id ≡ o.sell_price.quote.asset_id
    → HasCollateralIn receives.asset_id o.seller pays.asset_id w.debts.calls
    → fill_short fc id pays receives w ≡ some r
    → (all_with_shorts x r.0 ≡ all_with_shorts x w +ℤ at x receives.asset_id receives.amount)
      × (r.0.debts.current_supply x ≡ w.debts.current_supply x +ℤ at x pays.asset_id pays.amount)
unfolding fill_short
fill_short-sum fc x id o pays receives w r valid distinct found real base quote collateral h =
    let (o1, found', h0) = >>=-eq-some (find id w.shorts) _ h in
    let same : o ≡ o1 = eq_of_some (sym found ∙ found') in
    let (options, known, h1) = >>=-eq-some (w.debts.market.assets receives.asset_id) _ h0 in
    let (paid, charged, h2) =
      >>=-eq-some (pay_market_fees fc options receives w.debts.market) _ h1 in
    let (prediction, predicted, h3) = >>=-eq-some (w.prediction_markets pays.asset_id) _ h2 in
    let (part, given, h4) =
      >>=-eq-some (seller_to_collateral fc prediction o1 pays receives) _ h3 in
    let (net, less, h5) = >>=-eq-some (asset_sub fc receives paid.1) _ h4 in
    let (issued, lent, h6) = >>=-eq-some (issue fc o1 pays receives part net w paid.0) _ h5 in
    let (closed, closing, e) =
      >>=-eq-some (close_short fc id o1 pays part issued.0 w.shorts) _ h6 in
    let not_predicted : prediction ≡ false = eq_of_some (sym predicted ∙ real) in
    let (part_id, part_whole) =
      seller_part-Given fc o1 pays receives part
        (base ∙ ap (λ (s : ShortOrder). s.sell_price.base.asset_id) same)
        (ap (λ b. seller_to_collateral fc b o1 pays receives) (sym not_predicted) ∙ given) in
    let same_id : part.asset_id ≡ receives.asset_id =
      part_id ∙ ap (λ (s : ShortOrder). s.sell_price.quote.asset_id) (sym same) ∙ sym quote in
    let (_, fee_sum, _) =
      pay_market_fees-sum fc x options receives w.debts.market paid
        (valid receives.asset_id options known) charged in
    let (_, net_amount) = asset_sub-exact fc receives paid.1 net less in
    let (held, _, supply, debts) =
      issue-sum fc x o1 pays receives part net w paid.0 issued distinct
        (λ i call k.
          collateral i call
            (ap (λ (s : ShortOrder). find_call s.seller pays.asset_id w.debts.calls) same ∙ k)
          ∙ sym same_id)
        lent in
    let (left, _) =
      close_short-sum fc x id o1 pays part issued.0 w.shorts closed found' part_id part_whole
        closing in
    rw (sym (eq_of_some e)) (
      lent_sum (holdings x w.debts.market) (holdings x issued.0) (holdings x closed.0)
          (total (in_short x) w.shorts) (total (in_short x) closed.1)
          (total (in_call x) w.debts.calls) (total (in_call x) issued.2)
          (total (in_settlement x) w.debts.settlements) (at x part.asset_id part.amount)
          (at x receives.asset_id net.amount) (at x receives.asset_id paid.1.amount)
          (at x receives.asset_id receives.amount) (held ∙ fee_sum) left
          (debts
            ∙ ap
                (λ i.
                  total (in_call x) w.debts.calls
                  +ℤ (at x part.asset_id part.amount +ℤ at x i net.amount))
                same_id)
          (fee_and_net x receives.asset_id (holdings x w.debts.market) paid.1.amount receives.amount
            net.amount net_amount),
      supply,
    )
