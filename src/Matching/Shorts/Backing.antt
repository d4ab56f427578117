-- ===== src/Matching/Shorts/Backing.antt =====
-- What matching a limit order with a short order does to all of an asset and to its supply.
use bitshares_toolkit.Common.{
  ℕ, ◌+◌, ◌*◌, ◌≡◌, refl, sym, ap, ◌∙◌, false, some, ◌>>=◌, >>=-eq-some, eq_of_some,
}
use bitshares_toolkit.Common.Int.{ℤ, eq_of_parts, parts_of_sum, ◌+ℤ◌, int_laws}
use bitshares_toolkit.Common.Maps.{find, IsMap}
use bitshares_toolkit.Fc.{Fc}
use bitshares_toolkit.Asset.{Price}
use bitshares_toolkit.Matching.{LimitOrder, bit, amount_for_sale, fill_order, trade}
use bitshares_toolkit.Matching.Holdings.{at, total, holdings}
use bitshares_toolkit.Matching.Payments.{HasValidOptions}
use bitshares_toolkit.Matching.Trades.{trade_assets}
use bitshares_toolkit.Matching.Fills.{fill_order-sum}
use bitshares_toolkit.Matching.Debts.Collateral.{in_call, in_settlement}
use bitshares_toolkit.Matching.Debts.Updates.{find_call}
use bitshares_toolkit.Matching.Shorts.{
  ShortOrder, ShortMarket, short_for_sale, fill_short, match_short,
}
use bitshares_toolkit.Matching.Shorts.Parts.{in_short}
use bitshares_toolkit.Matching.Shorts.Filling.{all_with_shorts, HasCollateralIn, fill_short-sum}

matched_sum :
    (a a1 a2 s s' paid lent : ℤ)
    → a1 +ℤ paid ≡ a +ℤ lent
    → a2 ≡ a1 +ℤ paid
    → s' ≡ s +ℤ lent
    → a2 +ℤ s ≡ a +ℤ s'
matched_sum a a1 a2 s s' paid lent first second supply =
    rw (second, first, supply) (eq_of_parts ((a +ℤ lent) +ℤ s) (a +ℤ (s +ℤ lent)) (omega int_laws))

held_under :
    (h h1 c s sh paid lent : ℤ)
    → h1 +ℤ paid ≡ h +ℤ lent
    → (((h1 +ℤ c) +ℤ s) +ℤ sh) +ℤ paid ≡ (((h +ℤ c) +ℤ s) +ℤ sh) +ℤ lent
held_under h h1 c s sh paid lent e =
    let parts = parts_of_sum h1 paid e in
    eq_of_parts ((((h1 +ℤ c) +ℤ s) +ℤ sh) +ℤ paid) ((((h +ℤ c) +ℤ s) +ℤ sh) +ℤ lent)
      (omega int_laws)

-- If the options of every asset are valid, the ids of call orders are distinct, the short order is not
-- of a prediction market, the price is between the two assets that are sold, the short order's
-- collateral is of the asset that the limit order sells and so is that of a call order that the
-- short's account has for this debt, then a match of the two that returns changes the amount of an
-- asset that the balances, the orders of each kind, the fees, the collateral and the settlements hold
-- together exactly as it changes the asset's supply.
pub match_short_keeps_backing :
    (fc : Fc) (x usd_id core_id : ℕ) (usd : LimitOrder) (core : ShortOrder) (match_price : Price)
    (w : ShortMarket) (r : ShortMarket × ℕ)
    → HasValidOptions w.debts.market
    → IsMap w.debts.calls
    → find usd_id w.debts.market.orders ≡ some usd
    → find core_id w.shorts ≡ some core
    → w.prediction_markets core.sell_price.base.asset_id ≡ some false
    → match_price.base.asset_id ≡ core.sell_price.base.asset_id
    → match_price.quote.asset_id ≡ usd.sell_price.base.asset_id
    → core.sell_price.quote.asset_id ≡ usd.sell_price.base.asset_id
    → HasCollateralIn usd.sell_price.base.asset_id core.seller core.sell_price.base.asset_id
        w.debts.calls
    → match_short fc usd_id core_id match_price w ≡ some r
    → all_with_shorts x r.0 +ℤ w.debts.current_supply x
      ≡ all_with_shorts x w +ℤ r.0.debts.current_supply x
unfolding match_short
match_short_keeps_backing fc x usd_id core_id usd core match_price w r valid distinct usd_found
      core_found real base quote backing collateral h =
    let step : (trade fc (amount_for_sale usd) (short_for_sale core) match_price >>= λ receives.
    fill_order fc usd_id receives.1 receives.0 w.debts.market >>= λ first.
    fill_short fc core_id receives.0 receives.1
      (record w { debts = record w.debts { market = first.0 } })
    >>= λ second. some (second.0, bit first.1 + 2 * bit second.1))
        ≡ some r =
      sym (rw (usd_found, core_found) refl) ∙ h in
    let (receives, traded, h1) =
      >>=-eq-some (trade fc (amount_for_sale usd) (short_for_sale core) match_price) _ step in
    let (first, usd_filled, h2) =
      >>=-eq-some (fill_order fc usd_id receives.1 receives.0 w.debts.market) _ h1 in
    let w1 : ShortMarket = record w { debts = record w.debts { market = first.0 } } in
    let (second, core_filled, e) =
      >>=-eq-some (fill_short fc core_id receives.0 receives.1 w1) _ h2 in
    let (core_asset, usd_asset) =
      trade_assets fc (amount_for_sale usd) (short_for_sale core) match_price receives base quote
        traded in
    let (limit_sum, (assets_same, _)) =
      fill_order-sum fc x usd_id usd receives.1 receives.0 w.debts.market first valid usd_found
        usd_asset usd_filled in
    let valid' : HasValidOptions first.0 =
      λ i o known. valid i o (sym (ap (λ f. f i) assets_same) ∙ known) in
    let backed : HasCollateralIn receives.1.asset_id core.seller receives.0.asset_id w.debts.calls =
      λ i call k.
        collateral i call (ap (λ a. find_call core.seller a w.debts.calls) (sym core_asset) ∙ k)
        ∙ sym usd_asset in
    let (short_sum, supply) =
      fill_short-sum fc x core_id core receives.0 receives.1 w1 second valid' distinct core_found
        (ap w.prediction_markets core_asset ∙ real) core_asset (usd_asset ∙ sym backing) backed
        core_filled in
    rw (sym (eq_of_some e)) (
      matched_sum (all_with_shorts x w) (all_with_shorts x w1) (all_with_shorts x second.0)
        (w.debts.current_supply x) (second.0.debts.current_supply x)
        (at x receives.1.asset_id receives.1.amount) (at x receives.0.asset_id receives.0.amount)
        (held_under (holdings x w.debts.market) (holdings x first.0)
          (total (in_call x) w.debts.calls) (total (in_settlement x) w.debts.settlements)
          (total (in_short x) w.shorts) (at x receives.1.asset_id receives.1.amount)
          (at x receives.0.asset_id receives.0.amount) limit_sum)
        short_sum supply)
