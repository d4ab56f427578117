-- ===== src/LimitOrders/Loops.antt =====
-- The search of the market for a new order, from the index to the check of `fill_or_kill`.
use bitshares_toolkit.Common.{
  ℕ, ◌==◌, ◌≡◌, ◌≢◌, ◌⊎◌, refl, sym, ap, subst, ◌∙◌, Bool, true, false, not, ◌&&◌, ◌||◌, Option,
  some, none, arith, inl, inr, >>=-eq-some, eq_of_some, fc_assert,
}
use bitshares_toolkit.Common.Int.{pos}
use bitshares_toolkit.Common.Maps.{Map, IsMap, find, contains}
use bitshares_toolkit.Fc.{Fc}
use bitshares_toolkit.Asset.{Asset, Price, flip, make_price, price_gt, price_max, max_share_supply}
use bitshares_toolkit.Matching.{LimitOrder, Market}
use bitshares_toolkit.Matching.Payments.{HasValidOptions}
use bitshares_toolkit.Matching.Fees.{asserted}
use bitshares_toolkit.LimitOrders.{by_price, range, candidates, match_range, match_new}
use bitshares_toolkit.LimitOrders.Ranges.{SameMarket, range-find, range-misses, no_entry}
use bitshares_toolkit.LimitOrders.Index.{by_price-find}
use bitshares_toolkit.LimitOrders.Steps.{Sound, none_of_test}
use bitshares_toolkit.LimitOrders.Uncrossing.{Cleared, match_range-Outcome}

false_of_not : (b : Bool) → not b ≡ true → b ≡ false
false_of_not b h = ground (arith, h)

pub made_price :
    (a b : Asset) (p : Price)
    → make_price a b ≡ some p
    → (p ≡ record { base = a; quote = b }) × ((a.asset_id == b.asset_id) ≡ false)
unfolding make_price
made_price a b p h =
    let (u, checked, e) = >>=-eq-some (fc_assert (not (a.asset_id == b.asset_id))) _ h in
    (
      sym (eq_of_some e),
      false_of_not (a.asset_id == b.asset_id) (asserted (not (a.asset_id == b.asset_id)) u checked),
    )

highest-SameMarket :
    (p high : Price) → price_max p.base.asset_id p.quote.asset_id ≡ some high → SameMarket high p
unfolding price_max
highest-SameMarket p high h =
    let (made, _) =
      made_price (record { amount = pos max_share_supply; asset_id = p.base.asset_id })
        (record { amount = pos 1; asset_id = p.quote.asset_id }) high h in
    rw made (refl, refl)

-- The order `o` crosses a new one whose price, turned around, is `low`.
abbrev pub Crosses : Fc → Price → Price → LimitOrder → Type 0
Crosses fc high low o =
    (price_gt fc o.sell_price high ≡ false) × (price_gt fc low o.sell_price ≡ false)

abbrev pub Uncrossed : Fc → ℕ → Price → Price → Market → Type 0
Uncrossed fc id high low m =
    (find id m.orders ≡ none)
    ⊎ ((k : ℕ) (o : LimitOrder)
        → find k m.orders ≡ some o
        → k ≢ id
        → (price_gt fc o.sell_price high ≡ true) ⊎ (price_gt fc low o.sell_price ≡ true))

one_fails : (a b : Bool) → not a && not b ≡ false → (a ≡ true) ⊎ (b ≡ true)
one_fails a b h = ground (arith, h)

none_unless :
    {V : Type 0} (k : ℕ) (m : Map V) (found : Option V)
    → find k m ≡ found
    → ((v : V) → find k m ≡ some v → Path (Option V) none (some v))
    → find k m ≡ none
none_unless k m none e h = e
none_unless k m (some v) e h = e ∙ sym (h v e)

match_new-parts :
    (fc : Fc) (id : ℕ) (fill_or_kill : Bool) (low : Price) (m m' : Market)
    → match_new fc id fill_or_kill low m ≡ some m'
    → (high : Price) × (price_max low.base.asset_id low.quote.asset_id ≡ some high)
      × (match_range fc id (range fc high low (by_price fc m.orders)) m ≡ some m')
      × ((not fill_or_kill || not (contains id m'.orders)) ≡ true)
unfolding match_new candidates
match_new-parts fc id fill_or_kill low m m' h =
    let (olds, listed, h1) = >>=-eq-some (candidates fc low m.orders) _ h in
    let (m2, matched, h2) = >>=-eq-some (match_range fc id olds m) _ h1 in
    let (u, checked, e) =
      >>=-eq-some (fc_assert (not fill_or_kill || not (contains id m2.orders))) _ h2 in
    let (high, highest, same) =
      >>=-eq-some (price_max low.base.asset_id low.quote.asset_id) _ listed in
    let same_market : m2 ≡ m' = eq_of_some e in
    (
      high,
      highest,
      ap (λ es. match_range fc id es m) (eq_of_some same) ∙ matched ∙ ap some same_market,
      subst (λ s. (not fill_or_kill || not (contains id (Market.orders s))) ≡ true) same_market
          (asserted (not fill_or_kill || not (contains id m2.orders)) u checked),
    )

entry_or_not :
    (fc : Fc) (id : ℕ) (high low : Price) (index : Map LimitOrder) (m m' : Market) (k : ℕ)
    (o : LimitOrder) (entry : Option LimitOrder)
    → ((j : ℕ) → find j index ≡ find j m.orders)
    → Cleared (range fc high low index) m'
    → (find k (range fc high low index) ≡ none → find k m'.orders ≡ find k m.orders)
    → find k m'.orders ≡ some o
    → find k (range fc high low index) ≡ entry
    → (price_gt fc o.sell_price high ≡ true) ⊎ (price_gt fc low o.sell_price ≡ true)
entry_or_not fc id high low index m m' k o none same cleared stays found e =
    one_fails (price_gt fc o.sell_price high) (price_gt fc low o.sell_price)
      (range-misses fc high low index k o (same k ∙ sym (stays e) ∙ found) e)
entry_or_not fc id high low index m m' k o (some v) same cleared stays found e =
    no_entry o (sym (cleared k v e) ∙ found)

killed :
    (fill_or_kill there : Bool)
    → fill_or_kill ≡ true
    → not fill_or_kill || not there ≡ true
    → there ≡ false
killed fill_or_kill there h k = ground (arith, h, k)

-- The loop for a new order `n` that is in the market and sells another asset than it buys
pub match_new-Uncrossed :
    (fc : Fc) (id : ℕ) (fill_or_kill : Bool) (n : LimitOrder) (m m' : Market)
    → HasValidOptions m
    → IsMap m.orders
    → find id m.orders ≡ some n
    → n.sell_price.base.asset_id ≢ n.sell_price.quote.asset_id
    → match_new fc id fill_or_kill (flip n.sell_price) m ≡ some m'
    → Sound m m'
      × (m'.assets ≡ m.assets)
      × IsMap m'.orders
      × (fill_or_kill ≡ true → find id m'.orders ≡ none)
      × ((high : Price)
          → price_max n.sell_price.quote.asset_id n.sell_price.base.asset_id ≡ some high
          → Uncrossed fc id high (flip n.sell_price) m')
match_new-Uncrossed fc id fill_or_kill n m m' valid unique found distinct h =
    let low = flip n.sell_price in
    let (high, highest, matched, checked) = match_new-parts fc id fill_or_kill low m m' h in
    let (index_same, unique_index) = by_price-find fc m.orders unique in
    let olds = range fc high low (by_price fc m.orders) in
    let (misses, finds, unique_range) =
      range-find fc high low (by_price fc m.orders) (highest-SameMarket low high highest)
        unique_index in
    let not_itself : find id olds ≡ none = none_unless id olds (find id olds) refl (λ o entry.
      let (in_index, market) = finds id o entry in
      let itself : some o ≡ some n = sym in_index ∙ index_same id ∙ found in
      absurd
        (distinct (ap (λ n'. n'.sell_price.base.asset_id) (sym (eq_of_some itself)) ∙ market.0))) in
    let (sound, assets_same, unique', left, others) =
      match_range-Outcome fc id olds n m m' valid unique unique_range not_itself
        (λ k o entry. sym (index_same k) ∙ (finds k o entry).0) (λ k o entry. (finds k o entry).1.1)
        found matched in
    (
      sound,
      assets_same,
      unique',
      λ kill.
          none_of_test id m'.orders (find id m'.orders) refl
            (killed fill_or_kill (contains id m'.orders) kill checked),
      λ high' highest'.
          subst (λ bound. Uncrossed fc id bound low m') (eq_of_some (sym highest ∙ highest'))
            (elim left [
              | inl gone ↦ inl gone
              | inr cleared ↦ inr (λ k o there other.
                  entry_or_not fc id high low (by_price fc m.orders) m m' k o (find k olds)
                    index_same cleared (others k other) there refl)
            ]),
    )
