-- ===== src/Matching/Trades.antt =====
-- The assets of what two matched orders receive.
use bitshares_toolkit.Common.{
  ℕ, ◌==◌, ◌≡◌, refl, sym, ◌∙◌, true, some, leb, ◌>>=◌, Bool-cases, inl, inr, >>=-eq-some,
  eq_of_some, ==_iff, fc_assert,
}
use bitshares_toolkit.Common.Int.{ℤ, pos, ltb_ℤ}
use bitshares_toolkit.Fc.{Fc}
use bitshares_toolkit.Asset.{Asset, Price, asset_le, max_share_supply, product, scale, exchange}
use bitshares_toolkit.Matching.{trade}

scale-asset :
    (fc : Fc) (amount by per : ℤ) (asset : ℕ) (r : Asset)
    → scale fc amount by per asset ≡ some r
    → r.asset_id ≡ asset
unfolding scale
scale-asset fc amount by per asset r h =
    let result = fc.div128 (product fc amount by) (fc.to_uint128 per) in
    let (_, _, h1) = >>=-eq-some (fc_assert (ltb_ℤ (pos 0) per)) _ h in
    let (_, _, e) = >>=-eq-some (fc_assert (leb result max_share_supply)) _ h1 in
    rw (sym (eq_of_some e)) refl

pub exchanged_base :
    (fc : Fc) (a : Asset) (p : Price) (r : Asset)
    → p.base.asset_id ≡ a.asset_id
    → exchange fc a p ≡ some r
    → r.asset_id ≡ p.quote.asset_id
unfolding exchange
exchanged_base fc a p r same h =
    let test : (a.asset_id == p.base.asset_id) ≡ true =
      (==_iff a.asset_id p.base.asset_id).1 (sym same) in
    scale-asset fc a.amount p.quote.amount p.base.amount p.quote.asset_id r (sym (rw test refl) ∙ h)

pub exchanged_quote :
    (fc : Fc) (a : Asset) (p : Price) (r : Asset)
    → p.quote.asset_id ≡ a.asset_id
    → exchange fc a p ≡ some r
    → r.asset_id ≡ p.base.asset_id
unfolding exchange
exchanged_quote fc a p r same h = elim (Bool-cases (a.asset_id == p.base.asset_id)) [
  | inl base ↦
      scale-asset fc a.amount p.quote.amount p.base.amount p.quote.asset_id r
        (sym (rw base refl) ∙ h)
      ∙ same
      ∙ (==_iff a.asset_id p.base.asset_id).0 base
  | inr other ↦
      let test : (a.asset_id == p.quote.asset_id) ≡ true =
        (==_iff a.asset_id p.quote.asset_id).1 (sym same) in
      scale-asset fc a.amount p.base.amount p.quote.amount p.base.asset_id r
        (sym (rw (other, test) refl) ∙ h)
]

-- The assets of a trade: `(what usd receives, what core receives)`
pub trade_assets :
    (fc : Fc) (usd core : Asset) (p : Price) (r : Asset × Asset)
    → p.base.asset_id ≡ core.asset_id
    → p.quote.asset_id ≡ usd.asset_id
    → trade fc usd core p ≡ some r
    → (r.0.asset_id ≡ core.asset_id) × (r.1.asset_id ≡ usd.asset_id)
unfolding trade
trade_assets fc usd core p r base quote h =
    let (worth, valued, h1) = >>=-eq-some (exchange fc core p) _ h in
    elim (Bool-cases (asset_le usd worth)) [
      | inl small ↦
          let step : (exchange fc usd p >>= λ usd_receives. some (usd_receives, usd)) ≡ some r =
            sym (rw small refl) ∙ h1 in
          let (usd_receives, given, e) = >>=-eq-some (exchange fc usd p) _ step in
          rw (sym (eq_of_some e)) (exchanged_quote fc usd p usd_receives quote given ∙ base, refl)
      | inr large ↦
          let same : some (core, worth) ≡ some r = sym (rw large refl) ∙ h1 in
          rw (sym (eq_of_some same)) (refl, exchanged_base fc core p worth base valued ∙ quote)
    ]
