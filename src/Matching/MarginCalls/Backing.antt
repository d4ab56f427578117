-- ===== src/Matching/MarginCalls/Backing.antt =====
-- What a round of margin calls does to all of an asset and to its supply.
use bitshares_toolkit.Common.{
  ℕ, ◌≡◌, refl, sym, ap, subst, ◌∙◌, Bool, some, ◌>>=◌, >>=-eq-some, eq_of_some, if◌then◌else◌, inl,
  inr, Bool-cases,
}
use bitshares_toolkit.Common.Int.{ℤ, eq_of_parts, parts_of_sum, ◌+ℤ◌, int_laws}
use bitshares_toolkit.Common.Maps.{find, IsMap}
use bitshares_toolkit.Fc.{Fc}
use bitshares_toolkit.Asset.{
  Asset, Price, asset_gt, exchange, flip, make_price, price_gt, price_validate,
}
use bitshares_toolkit.Matching.Holdings.{at, total}
use bitshares_toolkit.Matching.Payments.{HasValidOptions}
use bitshares_toolkit.Matching.Trades.{exchanged_base}
use bitshares_toolkit.Matching.Debts.{
  CallOrder, Debts, get_collateral, get_debt, debt_type, fill_call,
}
use bitshares_toolkit.Matching.Debts.Collateral.{all_of, fill_call-sum}
use bitshares_toolkit.Matching.Shorts.{ShortMarket}
use bitshares_toolkit.Matching.Shorts.Parts.{in_short}
use bitshares_toolkit.Matching.Shorts.Filling.{all_with_shorts}
use bitshares_toolkit.Matching.MarginCalls.{
  Offer, limit_offer, short_offer, offer_price, offer_for_sale, over, black_swan, traded,
  call_trade, fill_offer, call_fills, cover_call, call_round,
}
use bitshares_toolkit.Matching.MarginCalls.Kept.{IsBackedBy, fill_call-keeps}
use bitshares_toolkit.Matching.MarginCalls.Offers.{IsOffer, call_trade-Priced, fill_offer-sum}

round_sum :
    (a0 a1 a2 s0 s1 s2 sh pays receives : ℤ)
    → a1 +ℤ pays ≡ a0
    → s1 +ℤ receives ≡ s0
    → (a2 +ℤ s1) +ℤ receives ≡ ((a1 +ℤ sh) +ℤ s2) +ℤ pays
    → a2 +ℤ s0 ≡ (a0 +ℤ sh) +ℤ s2
round_sum a0 a1 a2 s0 s1 s2 sh pays receives first supply second =
    let first_parts = parts_of_sum a1 pays first in
    let supply_parts = parts_of_sum s1 receives supply in
    let second_parts = parts_of_sum (a2 +ℤ s1) receives second in
    eq_of_parts (a2 +ℤ s0) ((a0 +ℤ sh) +ℤ s2) (omega int_laws)

same_market : {w w' : ShortMarket} {a a' b b' : Bool} → traded w a b ≡ traded w' a' b' → w ≡ w'
same_market h = cc

moved_offer :
    (offer : Offer) (w : ShortMarket) (d : Debts)
    → d.market.orders ≡ w.debts.market.orders
    → IsOffer offer w
    → IsOffer offer (record w { debts = d })
moved_offer (limit_offer id o) w d same h = ap (find id) same ∙ h
moved_offer (short_offer id o) w d same h = h

call_fills-sum :
    (fc : Fc) (x call_id : ℕ) (call : CallOrder) (offer : Offer) (t : Asset × Asset × Bool × Bool)
    (w w' : ShortMarket) (filled_order filled_call : Bool)
    → HasValidOptions w.debts.market
    → IsMap w.debts.calls
    → find call_id w.debts.calls ≡ some call
    → IsOffer offer w
    → t.0.asset_id ≡ (offer_price offer).base.asset_id
    → t.1.asset_id ≡ (offer_price offer).quote.asset_id
    → t.1.asset_id ≡ call.call_price.base.asset_id
    → IsBackedBy t.1.asset_id t.0.asset_id w.debts.calls
    → call_fills fc call_id offer t w ≡ some (traded w' filled_order filled_call)
    → all_with_shorts x w' +ℤ w.debts.current_supply x
      ≡ all_with_shorts x w +ℤ w'.debts.current_supply x
unfolding call_fills
call_fills-sum fc x call_id call offer t w w' filled_order filled_call valid distinct found offered
      base quote collateral backed h =
    let (first, called, h1) = >>=-eq-some (fill_call fc call_id t.1 t.0 w.debts) _ h in
    let w1 : ShortMarket = record w { debts = first.0 } in
    let (w2, offer_filled, e) = >>=-eq-some (fill_offer fc offer t.0 t.1 w1) _ h1 in
    let same : w2 ≡ w' = same_market (eq_of_some e) in
    let (call_sum, supply, _, assets_same, orders_same) =
      fill_call-sum fc x call_id call t.1 t.0 w.debts first found collateral called in
    let (distinct', backed') =
      fill_call-keeps fc t.1.asset_id t.0.asset_id call_id t.1 t.0 w.debts first distinct backed
        called in
    let valid' : HasValidOptions first.0.market =
      λ i o known. valid i o (sym (ap (λ f. f i) assets_same) ∙ known) in
    let offer_sum =
      fill_offer-sum fc x offer t.0 t.1 w1 w2 valid' distinct'
        (moved_offer offer w first.0 orders_same offered) base quote backed' offer_filled in
    subst
      (λ (v : ShortMarket).
        all_with_shorts x v +ℤ w.debts.current_supply x
        ≡ all_with_shorts x w +ℤ v.debts.current_supply x)
      same
      (round_sum (all_of x w.debts) (all_of x first.0) (all_with_shorts x w2)
        (w.debts.current_supply x) (first.0.current_supply x) (w2.debts.current_supply x)
        (total (in_short x) w.shorts) (at x t.1.asset_id t.1.amount) (at x t.0.asset_id t.0.amount)
        call_sum supply offer_sum)

sale_asset : (offer : Offer) → (offer_for_sale offer).asset_id ≡ (offer_price offer).base.asset_id
sale_asset (limit_offer id o) = refl
sale_asset (short_offer id o) = refl

no_swan : {p : Price} {w : ShortMarket} {a b : Bool} → some (black_swan p) ≡ some (traded w a b) → ⊥
no_swan h = cc

not_over : {w : ShortMarket} {a b : Bool} → some over ≡ some (traded w a b) → ⊥
not_over h = cc

cover_call-sum :
    (fc : Fc) (x call_id : ℕ) (call : CallOrder) (offer : Offer) (w w' : ShortMarket)
    (filled_order filled_call : Bool)
    → HasValidOptions w.debts.market
    → IsMap w.debts.calls
    → find call_id w.debts.calls ≡ some call
    → IsOffer offer w
    → (offer_price offer).quote.asset_id ≡ call.call_price.base.asset_id
    → IsBackedBy call.call_price.base.asset_id (debt_type call) w.debts.calls
    → cover_call fc call_id call offer w ≡ some (traded w' filled_order filled_call)
    → all_with_shorts x w' +ℤ w.debts.current_supply x
      ≡ all_with_shorts x w +ℤ w'.debts.current_supply x
unfolding cover_call
cover_call-sum fc x call_id call offer w w' filled_order filled_call valid distinct found offered
      quote backed h =
    let (needed, _, h1) = >>=-eq-some (exchange fc (get_debt call) (offer_price offer)) _ h in
    let (too_much, _, h2) = >>=-eq-some (asset_gt needed (get_collateral call)) _ h1 in
    elim (Bool-cases too_much) [
      | inl swan ↦
          let step : (make_price (get_debt call) (get_collateral call) >>= λ p. some (black_swan p))
              ≡ some (traded w' filled_order filled_call) =
            sym (rw swan refl) ∙ h2 in
          let (p, _, e) = >>=-eq-some (make_price (get_debt call) (get_collateral call)) _ step in
          absurd (no_swan e)
      | inr enough ↦
          let step : (call_trade fc (get_debt call) (offer_for_sale offer) (offer_price offer)
                >>= λ trade. call_fills fc call_id offer trade w)
              ≡ some (traded w' filled_order filled_call) =
            sym (rw enough refl) ∙ h2 in
          let (trade, priced, h3) =
            >>=-eq-some (call_trade fc (get_debt call) (offer_for_sale offer) (offer_price offer)) _
              step in
          let (debt_id, sale_id, exchanged) =
            call_trade-Priced fc (get_debt call) (offer_for_sale offer) (offer_price offer) trade
              priced in
          let base : trade.0.asset_id ≡ (offer_price offer).base.asset_id =
            debt_id ∙ sym sale_id ∙ sale_asset offer in
          let paid : trade.1.asset_id ≡ (offer_price offer).quote.asset_id =
            exchanged_base fc trade.0 (offer_price offer) trade.1 (sym base) exchanged in
          let backed' : IsBackedBy trade.1.asset_id trade.0.asset_id w.debts.calls =
            λ i c k t. backed i c k (t ∙ debt_id) ∙ sym (paid ∙ quote) in
          call_fills-sum fc x call_id call offer trade w w' filled_order filled_call valid distinct
            found offered base paid (paid ∙ quote) backed' h3
    ]

-- If the options of every asset are valid, the ids of call orders are distinct, the offer is an order
-- of the database, not of a prediction market, that asks for the asset of the call order's collateral,
-- and every call order for the same debt has its collateral in that asset, then a round of the margin
-- calls that trades changes the amount of an asset that the balances, the orders of each kind, the
-- fees, the collateral and the settlements hold together exactly as it changes the asset's supply.
pub call_round_keeps_backing :
    (fc : Fc) (x call_id : ℕ) (call : CallOrder) (offer : Offer) (w w' : ShortMarket)
    (filled_order filled_call : Bool)
    → HasValidOptions w.debts.market
    → IsMap w.debts.calls
    → find call_id w.debts.calls ≡ some call
    → IsOffer offer w
    → (offer_price offer).quote.asset_id ≡ call.call_price.base.asset_id
    → IsBackedBy call.call_price.base.asset_id (debt_type call) w.debts.calls
    → call_round fc call_id (some offer) w ≡ some (traded w' filled_order filled_call)
    → all_with_shorts x w' +ℤ w.debts.current_supply x
      ≡ all_with_shorts x w +ℤ w'.debts.current_supply x
unfolding call_round
call_round_keeps_backing fc x call_id call offer w w' filled_order filled_call valid distinct found
      offered quote backed h =
    let (_, _, h1) = >>=-eq-some (price_validate (offer_price offer)) _ h in
    let step : (if price_gt fc (offer_price offer) (flip call.call_price)
          then some over
          else cover_call fc call_id call offer w)
        ≡ some (traded w' filled_order filled_call) =
      sym (rw found refl) ∙ h1 in
    elim (Bool-cases (price_gt fc (offer_price offer) (flip call.call_price))) [
      | inl above ↦
          let ended : some over ≡ some (traded w' filled_order filled_call) =
            sym (rw above refl) ∙ step in
          absurd (not_over ended)
      | inr below ↦
          let covered : cover_call fc call_id call offer w
              ≡ some (traded w' filled_order filled_call) =
            sym (rw below refl) ∙ step in
          cover_call-sum fc x call_id call offer w w' filled_order filled_call valid distinct found
            offered quote backed covered
    ]
