-- ===== src/Matching/Conservation.antt =====
-- What matching two orders does to the whole amount of an asset.
use bitshares_toolkit.Common.{
  ℕ, ◌+◌, ◌*◌, ◌≡◌, ◌≢◌, refl, sym, ap, ◌∙◌, Bool, some, ◌>>=◌, >>=-eq-some, eq_of_some,
}
use bitshares_toolkit.Common.Int.{ℤ, eq_of_parts, parts_of_sum, ◌+ℤ◌, int_laws}
use bitshares_toolkit.Common.Maps.{find}
use bitshares_toolkit.Fc.{Fc}
use bitshares_toolkit.Asset.{Asset, Price}
use bitshares_toolkit.Matching.{
  LimitOrder, Market, amount_for_sale, fill_order, trade, match_orders, bit,
}
use bitshares_toolkit.Matching.Holdings.{at, holdings}
use bitshares_toolkit.Matching.Payments.{HasValidOptions}
use bitshares_toolkit.Matching.Trades.{trade_assets}
use bitshares_toolkit.Matching.Fills.{Frames, fill_order-sum}

balanced : (h0 h1 h2 a b : ℤ) → h1 +ℤ b ≡ h0 +ℤ a → h2 +ℤ a ≡ h1 +ℤ b → h2 ≡ h0
balanced h0 h1 h2 a b first second =
    let parts = parts_of_sum h2 a (second ∙ first) in eq_of_parts h2 h0 (omega int_laws)

-- The two fills of a match, in order
pub match_fills :
    (fc : Fc) (usd_id core_id : ℕ) (usd core : LimitOrder) (match_price : Price) (m : Market)
    (r : Market × ℕ)
    → HasValidOptions m
    → usd_id ≢ core_id
    → find usd_id m.orders ≡ some usd
    → find core_id m.orders ≡ some core
    → match_price.base.asset_id ≡ core.sell_price.base.asset_id
    → match_price.quote.asset_id ≡ usd.sell_price.base.asset_id
    → match_orders fc usd_id core_id match_price m ≡ some r
    → (receives : Asset × Asset) × (first : Market × Bool) × (second : Market × Bool) × (trade fc
          (amount_for_sale usd)
          (amount_for_sale core)
          match_price
        ≡ some receives)
      × ((receives.0.asset_id ≡ core.sell_price.base.asset_id)
          × (receives.1.asset_id ≡ usd.sell_price.base.asset_id))
      × (fill_order fc usd_id receives.1 receives.0 m ≡ some first)
      × Frames usd_id m first.0
      × (find core_id first.0.orders ≡ some core)
      × (fill_order fc core_id receives.0 receives.1 first.0 ≡ some second)
      × (r ≡ (second.0, bit first.1 + 2 * bit second.1))
unfolding match_orders
match_fills fc usd_id core_id usd core match_price m r valid distinct usd_found core_found base
      quote h =
    let step : (trade fc (amount_for_sale usd) (amount_for_sale core) match_price >>= λ receives.
    fill_order fc usd_id receives.1 receives.0 m >>= λ first.
    fill_order fc core_id receives.0 receives.1 first.0 >>= λ second.
    some (second.0, bit first.1 + 2 * bit second.1))
        ≡ some r =
      sym (rw (usd_found, core_found) refl) ∙ h in
    let (receives, traded, h1) =
      >>=-eq-some (trade fc (amount_for_sale usd) (amount_for_sale core) match_price) _ step in
    let (first, usd_filled, h2) = >>=-eq-some (fill_order fc usd_id receives.1 receives.0 m) _ h1 in
    let (second, core_filled, e) =
      >>=-eq-some (fill_order fc core_id receives.0 receives.1 first.0) _ h2 in
    let assets =
      trade_assets fc (amount_for_sale usd) (amount_for_sale core) match_price receives base quote
        traded in
    let (_, framed) =
      fill_order-sum fc 0 usd_id usd receives.1 receives.0 m first valid usd_found assets.1
        usd_filled in
    (
      receives,
      first,
      second,
      traded,
      assets,
      usd_filled,
      framed,
      framed.1 core_id (λ same. distinct (sym same)) ∙ core_found,
      core_filled,
      sym (eq_of_some e),
    )

-- If the options of every asset are valid, the two ids differ and the price is between the assets that the two
-- orders sell, then a match that returns changes for no asset the amount that the account balances, the
-- orders and the accumulated market fees hold together.
pub match_orders_conserves :
    (fc : Fc) (x usd_id core_id : ℕ) (usd core : LimitOrder) (match_price : Price) (m : Market)
    (r : Market × ℕ)
    → HasValidOptions m
    → usd_id ≢ core_id
    → find usd_id m.orders ≡ some usd
    → find core_id m.orders ≡ some core
    → match_price.base.asset_id ≡ core.sell_price.base.asset_id
    → match_price.quote.asset_id ≡ usd.sell_price.base.asset_id
    → match_orders fc usd_id core_id match_price m ≡ some r
    → holdings x r.0 ≡ holdings x m
match_orders_conserves fc x usd_id core_id usd core match_price m r valid distinct usd_found
      core_found base quote h =
    let (
      receives,
      first,
      second,
      _,
      (core_asset, usd_asset),
      usd_filled,
      framed,
      core_found',
      core_filled,
      e,
    ) =
      match_fills fc usd_id core_id usd core match_price m r valid distinct usd_found core_found
        base quote h in
    let (first_sum, _) =
      fill_order-sum fc x usd_id usd receives.1 receives.0 m first valid usd_found usd_asset
        usd_filled in
    let valid' : HasValidOptions first.0 =
      λ i o known. valid i o (sym (ap (λ f. f i) framed.0) ∙ known) in
    let (second_sum, _) =
      fill_order-sum fc x core_id core receives.0 receives.1 first.0 second valid' core_found'
        core_asset core_filled in
    rw e (
      balanced (holdings x m) (holdings x first.0) (holdings x second.0)
        (at x receives.0.asset_id receives.0.amount) (at x receives.1.asset_id receives.1.amount)
        first_sum second_sum)
