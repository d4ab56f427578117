-- ===== src/Matching/Results.antt =====
-- The bit field that `match` returns.
use bitshares_toolkit.Common.{
  ℕ, ◌+◌, ◌*◌, ◌≡◌, ◌≢◌, ◌⊎◌, refl, sym, ap, subst, ◌∙◌, Bool, true, false, not, some, none, ◌>>=◌,
  arith, Bool-cases, inl, inr, >>=-eq-some, eq_of_some,
}
use bitshares_toolkit.Common.Int.{pos, eqb_ℤ}
use bitshares_toolkit.Common.Maps.{
  Map, IsMap, find, contains, insert, erase, find-erase, erase-IsMap, insert-IsMap,
}
use bitshares_toolkit.Fc.{Fc}
use bitshares_toolkit.Asset.{Asset, Price, asset_eq, asset_le, exchange}
use bitshares_toolkit.Transfers.{adjust_balance}
use bitshares_toolkit.Matching.{
  LimitOrder, Market, amount_for_sale, amount_to_receive, release_core, cancel_order, sweep_order,
  reduce_order, settle_order, close_order, fill_order, trade, match_orders, bit,
}
use bitshares_toolkit.Matching.Payments.{HasValidOptions, release_core-Pays, settle_order-sum}
use bitshares_toolkit.Matching.Fills.{found_again, fill_order-sum}
use bitshares_toolkit.Matching.Conservation.{match_fills}

-- The order is there just when `gone` is false, and ids stay distinct.
abbrev pub Tells : ℕ → Market × Bool → Type 0
Tells id r = (contains id r.0.orders ≡ not r.1) × IsMap r.0.orders

contains_of_find :
    {V : Type 0} (id : ℕ) (v : V) (m : Map V) → find id m ≡ some v → contains id m ≡ true
contains_of_find id v m h = rw (h, contains) refl

pub erased_gone : {V : Type 0} (id : ℕ) (m : Map V) → IsMap m → contains id (erase id m) ≡ false
erased_gone id m h =
    let gone : find id (erase id m) ≡ none = find-erase id id m h ∙ ground arith in
    rw (gone, contains) refl

pub cancel_order-Tells :
    (fc : Fc) (id : ℕ) (o : LimitOrder) (m m' : Market)
    → IsMap m.orders
    → cancel_order fc id o m ≡ some m'
    → Tells id (m', true)
unfolding cancel_order
cancel_order-Tells fc id o m m' unique h =
    let (m1, freed, h1) = >>=-eq-some (release_core fc o.seller (amount_for_sale o) m) _ h in
    let (balances, adjusted, e) =
      >>=-eq-some (adjust_balance fc o.seller (amount_for_sale o) m1.balances) _ h1 in
    let (_, _, (orders_same, _)) = release_core-Pays fc o.seller (amount_for_sale o) m m1 freed in
    rw (sym (eq_of_some e), orders_same)
      (erased_gone id m.orders unique, erase-IsMap id m.orders unique)

sweep_order-Tells :
    (fc : Fc) (id : ℕ) (o : LimitOrder) (m : Market) (r : Market × Bool)
    → IsMap m.orders
    → find id m.orders ≡ some o
    → sweep_order fc id o m ≡ some r
    → Tells id r
unfolding sweep_order
sweep_order-Tells fc id o m r unique found h =
    let (worth, valued, h1) = >>=-eq-some (amount_to_receive fc o) _ h in
    elim (Bool-cases (eqb_ℤ worth.amount (pos 0))) [
      | inl worthless ↦
          let step : (cancel_order fc id o m >>= λ m'. some (m', true)) ≡ some r =
            sym (rw worthless refl) ∙ h1 in
          let (m', gone, e) = >>=-eq-some (cancel_order fc id o m) _ step in
          rw (sym (eq_of_some e)) (cancel_order-Tells fc id o m m' unique gone)
      | inr kept ↦
          let same : some (m, false) ≡ some r = sym (rw kept refl) ∙ h1 in
          rw (sym (eq_of_some same)) (contains_of_find id o m.orders found, unique)
    ]

reduce_order-Tells :
    (fc : Fc) (id : ℕ) (o : LimitOrder) (pays : Asset) (m : Market) (r : Market × Bool)
    → IsMap m.orders
    → reduce_order fc id o pays m ≡ some r
    → Tells id r
unfolding reduce_order
reduce_order-Tells fc id o pays m r unique h =
    let (left, exact, swept) = >>=-eq-some (fc.safe_sub o.for_sale pays.amount) _ h in
    let o' : LimitOrder = record o { for_sale = left } in
    let m1 : Market = record m { orders = insert id o' m.orders } in
    sweep_order-Tells fc id o' m1 r (insert-IsMap id o' m.orders unique)
      (found_again id o' m.orders) swept

close_order-Tells :
    (fc : Fc) (id : ℕ) (o : LimitOrder) (pays : Asset) (m : Market) (r : Market × Bool)
    → IsMap m.orders
    → close_order fc id o pays m ≡ some r
    → Tells id r × (asset_eq pays (amount_for_sale o) ≡ true → r.1 ≡ true)
unfolding close_order
close_order-Tells fc id o pays m r unique h =
    elim (Bool-cases (asset_eq pays (amount_for_sale o))) [
      | inl whole ↦
          let same : some (record m { orders = erase id m.orders }, true) ≡ some r =
            sym (rw whole refl) ∙ h in
          rw (sym (eq_of_some same))
            ((erased_gone id m.orders unique, erase-IsMap id m.orders unique), λ e. refl)
      | inr partly ↦
          let reduced : reduce_order fc id o pays m ≡ some r = sym (rw partly refl) ∙ h in
          (reduce_order-Tells fc id o pays m r unique reduced, λ whole. cc)
    ]

-- A fill says whether the order is gone, and an order that pays all that it sells is gone.
pub fill_order-Tells :
    (fc : Fc) (id : ℕ) (o : LimitOrder) (pays receives : Asset) (m : Market) (r : Market × Bool)
    → HasValidOptions m
    → IsMap m.orders
    → find id m.orders ≡ some o
    → fill_order fc id pays receives m ≡ some r
    → Tells id r × (asset_eq pays (amount_for_sale o) ≡ true → r.1 ≡ true)
unfolding fill_order
fill_order-Tells fc id o pays receives m r valid unique found h =
    let step : (settle_order fc id o pays receives m >>= close_order fc id o pays) ≡ some r =
      sym (rw found refl) ∙ h in
    let (m1, settled, h1) = >>=-eq-some (settle_order fc id o pays receives m) _ step in
    let (_, (orders_same, _)) = settle_order-sum fc 0 id o pays receives m m1 valid settled in
    close_order-Tells fc id o pays m1 r (subst IsMap (sym orders_same) unique) h1

asset_eq_refl : (a : Asset) → asset_eq a a ≡ true
unfolding asset_eq
asset_eq_refl a = ground arith

-- One side of the trade gives all that it sells.
trade-whole :
    (fc : Fc) (usd core : Asset) (p : Price) (r : Asset × Asset)
    → trade fc usd core p ≡ some r
    → (asset_eq r.1 usd ≡ true) ⊎ (asset_eq r.0 core ≡ true)
unfolding trade
trade-whole fc usd core p r h =
    let (worth, valued, h1) = >>=-eq-some (exchange fc core p) _ h in
    elim (Bool-cases (asset_le usd worth)) [
      | inl small ↦
          let step : (exchange fc usd p >>= λ usd_receives. some (usd_receives, usd)) ≡ some r =
            sym (rw small refl) ∙ h1 in
          let (usd_receives, given, e) = >>=-eq-some (exchange fc usd p) _ step in
          inl (subst (λ t. asset_eq t.1 usd ≡ true) (eq_of_some e) (asset_eq_refl usd))
      | inr large ↦
          let same : some (core, worth) ≡ some r = sym (rw large refl) ∙ h1 in
          inr (subst (λ t. asset_eq t.0 core ≡ true) (eq_of_some same) (asset_eq_refl core))
    ]

bits_tell :
    (a b x y : Bool)
    → x ≡ not a
    → y ≡ not b
    → (a ≡ true) ⊎ (b ≡ true)
    → (bit a + 2 * bit b ≡ bit (not x) + 2 * bit (not y)) × (bit a + 2 * bit b ≢ 0)
bits_tell a b x y h k one = ground (arith, h, k, one)

-- If the options of every asset are valid, the ids of orders are distinct and the price is between the assets
-- that the two orders sell, then a match that returns gives 1 for the first order removed plus 2 for the
-- second one removed, and not 0: one of the two is removed.
pub match_orders_result :
    (fc : Fc) (usd_id core_id : ℕ) (usd core : LimitOrder) (match_price : Price) (m : Market)
    (r : Market × ℕ)
    → HasValidOptions m
    → IsMap m.orders
    → usd_id ≢ core_id
    → find usd_id m.orders ≡ some usd
    → find core_id m.orders ≡ some core
    → match_price.base.asset_id ≡ core.sell_price.base.asset_id
    → match_price.quote.asset_id ≡ usd.sell_price.base.asset_id
    → match_orders fc usd_id core_id match_price m ≡ some r
    → (r.1 ≡ bit (not (contains usd_id r.0.orders)) + 2 * bit (not (contains core_id r.0.orders)))
      × (r.1 ≢ 0)
match_orders_result fc usd_id core_id usd core match_price m r valid unique distinct usd_found
      core_found base quote h =
    let (
      receives,
      first,
      second,
      traded,
      (core_asset, usd_asset),
      usd_filled,
      framed,
      core_found',
      core_filled,
      e,
    ) =
      match_fills fc usd_id core_id usd core match_price m r valid distinct usd_found core_found
        base quote h in
    let valid' : HasValidOptions first.0 =
      λ i o known. valid i o (sym (ap (λ f. f i) framed.0) ∙ known) in
    let ((usd_told, unique'), usd_whole) =
      fill_order-Tells fc usd_id usd receives.1 receives.0 m first valid unique usd_found
        usd_filled in
    let ((core_told, _), core_whole) =
      fill_order-Tells fc core_id core receives.0 receives.1 first.0 second valid' unique'
        core_found' core_filled in
    let (_, (_, others)) =
      fill_order-sum fc 0 core_id core receives.0 receives.1 first.0 second valid' core_found'
        core_asset core_filled in
    let usd_left =
      ap (λ found. elim found [ none ↦ false | some _ ↦ true ]) (others usd_id distinct)
      ∙ usd_told in
    let some_whole : (first.1 ≡ true) ⊎ (second.1 ≡ true) =
      elim (trade-whole fc (amount_for_sale usd) (amount_for_sale core) match_price receives
        traded) [ inl whole ↦ inl (usd_whole whole) | inr whole ↦ inr (core_whole whole) ] in
    rw e (
      bits_tell first.1 second.1 (contains usd_id second.0.orders)
        (contains core_id second.0.orders) usd_left core_told some_whole)
