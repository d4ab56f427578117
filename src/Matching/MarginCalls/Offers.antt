-- ===== src/Matching/MarginCalls/Offers.antt =====
-- What the trade of an offer does to all of an asset and to its supply.
use bitshares_toolkit.Common.{
  ℕ, ◌==◌, ◌≡◌, refl, sym, ap, ◌∙◌, Bool, true, false, some, ◌>>=◌, arith, >>=-eq-some, eq_of_some,
  inl, inr, Bool-cases, fc_assert,
}
use bitshares_toolkit.Common.Int.{ℤ, eq_of_parts, parts_of_sum, ◌+ℤ◌, int_laws}
use bitshares_toolkit.Common.Maps.{find, IsMap}
use bitshares_toolkit.Fc.{Fc}
use bitshares_toolkit.Asset.{Asset, Price, asset_eq, asset_ge, exchange}
use bitshares_toolkit.Matching.{fill_order}
use bitshares_toolkit.Matching.Holdings.{at, total, holdings}
use bitshares_toolkit.Matching.Payments.{HasValidOptions}
use bitshares_toolkit.Matching.Fills.{fill_order-sum}
use bitshares_toolkit.Matching.Debts.Collateral.{in_call, in_settlement}
use bitshares_toolkit.Matching.Debts.Evaluated.{find_call-found}
use bitshares_toolkit.Matching.Shorts.{ShortMarket, fill_short}
use bitshares_toolkit.Matching.Shorts.Parts.{in_short}
use bitshares_toolkit.Matching.Shorts.Filling.{all_with_shorts, fill_short-sum}
use bitshares_toolkit.Matching.MarginCalls.{
  Offer, limit_offer, short_offer, offer_price, call_trade, fill_offer,
}
use bitshares_toolkit.Matching.MarginCalls.Kept.{IsBackedBy, find_call-debt}

-- The order of the offer is in the database, and not of a prediction market if it is short.
abbrev pub IsOffer : Offer → ShortMarket → Type 0
IsOffer (limit_offer id o) w = find id w.debts.market.orders ≡ some o
IsOffer (short_offer id o) w =
    (find id w.shorts ≡ some o) × (w.prediction_markets o.sell_price.base.asset_id ≡ some false)

-- The call order receives what it needs or what is for sale, and pays its worth.
pub call_trade-Priced :
    (fc : Fc) (usd_to_buy usd_for_sale : Asset) (match_price : Price)
    (r : Asset × Asset × Bool × Bool)
    → call_trade fc usd_to_buy usd_for_sale match_price ≡ some r
    → (r.0.asset_id ≡ usd_to_buy.asset_id)
      × (usd_for_sale.asset_id ≡ usd_to_buy.asset_id)
      × (exchange fc r.0 match_price ≡ some r.1)
unfolding call_trade asset_ge
call_trade-Priced fc usd_to_buy usd_for_sale match_price r h =
    let (more, compared, h1) = >>=-eq-some (asset_ge usd_to_buy usd_for_sale) _ h in
    let (_, asserted, _) =
      >>=-eq-some (fc_assert (usd_to_buy.asset_id == usd_for_sale.asset_id)) _ compared in
    let same : usd_for_sale.asset_id ≡ usd_to_buy.asset_id = ground (arith, asserted) in
    elim (Bool-cases more) [
      | inl enough ↦
          let step : (exchange fc usd_for_sale match_price >>= λ pays.
          some (usd_for_sale, pays, true, asset_eq usd_to_buy usd_for_sale))
              ≡ some r =
            sym (rw enough refl) ∙ h1 in
          let (pays, exchanged, e) = >>=-eq-some (exchange fc usd_for_sale match_price) _ step in
          rw (sym (eq_of_some e)) (same, same, exchanged)
      | inr less ↦
          let step : (exchange fc usd_to_buy match_price >>= λ pays.
          some (usd_to_buy, pays, false, true))
              ≡ some r =
            sym (rw less refl) ∙ h1 in
          let (pays, exchanged, e) = >>=-eq-some (exchange fc usd_to_buy match_price) _ step in
          rw (sym (eq_of_some e)) (refl, same, exchanged)
    ]

moved_under :
    (h h1 c s sh paid got : ℤ)
    → h1 +ℤ paid ≡ h +ℤ got
    → (((h1 +ℤ c) +ℤ s) +ℤ sh) +ℤ paid ≡ (((h +ℤ c) +ℤ s) +ℤ sh) +ℤ got
moved_under h h1 c s sh paid got e =
    let parts = parts_of_sum h1 paid e in
    eq_of_parts ((((h1 +ℤ c) +ℤ s) +ℤ sh) +ℤ paid) ((((h +ℤ c) +ℤ s) +ℤ sh) +ℤ got) (omega int_laws)

issued_under :
    (a a1 s s1 paid got : ℤ) → a1 ≡ a +ℤ got → s1 ≡ s +ℤ paid → (a1 +ℤ s) +ℤ paid ≡ (a +ℤ s1) +ℤ got
issued_under a a1 s s1 paid got e f =
    rw (e, f) (eq_of_parts (((a +ℤ got) +ℤ s) +ℤ paid) ((a +ℤ (s +ℤ paid)) +ℤ got) (omega int_laws))

fixed_supply : (a a1 s paid got : ℤ) → a1 +ℤ paid ≡ a +ℤ got → (a1 +ℤ s) +ℤ paid ≡ (a +ℤ s) +ℤ got
fixed_supply a a1 s paid got e =
    let parts = parts_of_sum a1 paid e in
    eq_of_parts ((a1 +ℤ s) +ℤ paid) ((a +ℤ s) +ℤ got) (omega int_laws)

-- What an offer receives stays, and what it pays leaves it or is new supply.
pub fill_offer-sum :
    (fc : Fc) (x : ℕ) (offer : Offer) (pays receives : Asset) (w w' : ShortMarket)
    → HasValidOptions w.debts.market
    → IsMap w.debts.calls
    → IsOffer offer w
    → pays.asset_id ≡ (offer_price offer).base.asset_id
    → receives.asset_id ≡ (offer_price offer).quote.asset_id
    → IsBackedBy receives.asset_id pays.asset_id w.debts.calls
    → fill_offer fc offer pays receives w ≡ some w'
    → (all_with_shorts x w' +ℤ w.debts.current_supply x) +ℤ at x pays.asset_id pays.amount
      ≡ (all_with_shorts x w +ℤ w'.debts.current_supply x) +ℤ at x receives.asset_id receives.amount
unfolding fill_offer
fill_offer-sum fc x (limit_offer id o) pays receives w w' valid distinct found base quote backed h =
    let (filled, done, e) = >>=-eq-some (fill_order fc id pays receives w.debts.market) _ h in
    let (sum, _) =
      fill_order-sum fc x id o pays receives w.debts.market filled valid found base done in
    rw (sym (eq_of_some e)) (
      fixed_supply (all_with_shorts x w)
        (all_with_shorts x (record w { debts = record w.debts { market = filled.0 } }))
        (w.debts.current_supply x) (at x pays.asset_id pays.amount)
        (at x receives.asset_id receives.amount)
        (moved_under (holdings x w.debts.market) (holdings x filled.0)
          (total (in_call x) w.debts.calls) (total (in_settlement x) w.debts.settlements)
          (total (in_short x) w.shorts) (at x pays.asset_id pays.amount)
          (at x receives.asset_id receives.amount) sum))
fill_offer-sum fc x (short_offer id o) pays receives w w' valid distinct (found, real) base quote
      backed h =
    let (filled, done, e) = >>=-eq-some (fill_short fc id pays receives w) _ h in
    let (sum, supply) =
      fill_short-sum fc x id o pays receives w filled valid distinct found
        (ap w.prediction_markets base ∙ real) base quote
        (λ i call k.
          backed i call (find_call-found o.seller pays.asset_id i call w.debts.calls distinct k)
            (find_call-debt o.seller pays.asset_id i call w.debts.calls k))
        done in
    rw (sym (eq_of_some e)) (
      issued_under (all_with_shorts x w) (all_with_shorts x filled.0) (w.debts.current_supply x)
        (filled.0.debts.current_supply x) (at x pays.asset_id pays.amount)
        (at x receives.asset_id receives.amount) sum supply)
