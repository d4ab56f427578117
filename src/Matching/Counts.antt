-- ===== src/Matching/Counts.antt =====
-- `total_core_in_orders` counts what an account sells in the core asset, through a match.
use bitshares_toolkit.Common.{
  ℕ, ◌≡◌, ◌≢◌, refl, sym, ap, ◌∙◌, Bool, true, false, some, ◌>>=◌, Bool-cases, inl, inr,
  >>=-eq-some, eq_of_some,
}
use bitshares_toolkit.Common.Int.{ℤ, pos, eq_of_parts, parts_of_sum, eqb_ℤ, ◌+ℤ◌, int_laws}
use bitshares_toolkit.Common.Maps.{find, insert, erase}
use bitshares_toolkit.Fc.{Fc}
use bitshares_toolkit.Asset.{Asset, Price, asset_eq}
use bitshares_toolkit.Transfers.{adjust_balance}
use bitshares_toolkit.Matching.{
  LimitOrder, Market, amount_for_sale, amount_to_receive, release_core, cancel_order, sweep_order,
  reduce_order, settle_order, close_order, fill_order, match_orders,
}
use bitshares_toolkit.Matching.Holdings.{at, total, insert-sum, erase-sum, at_sum, add_zero}
use bitshares_toolkit.Matching.Payments.{HasValidOptions, release_core-Pays}
use bitshares_toolkit.Matching.Fills.{given_up, found_again, whole_of_test, less_sold}
use bitshares_toolkit.Matching.Conservation.{match_fills}
use bitshares_toolkit.Matching.Releases.{core_of, release_core-count, settle_order-count}

abbrev pub Counts : ℕ → Market → Type 0
Counts a m = m.core_in_orders a ≡ total (core_of a) m.orders

-- The count and the orders of `a` have changed by the same amount, but for `d`.
abbrev pub Follows : ℕ → ℤ → Market → Market → Type 0
Follows a d m m' =
    (total (core_of a) m'.orders +ℤ m.core_in_orders a) +ℤ d
    ≡ m'.core_in_orders a +ℤ total (core_of a) m.orders

cancelled : (c c' t t' d : ℤ) → c' +ℤ d ≡ c → t' +ℤ d ≡ t → (t' +ℤ c) +ℤ pos 0 ≡ c' +ℤ t
cancelled c c' t t' d e f =
    rw (sym e, sym f) (eq_of_parts ((t' +ℤ (c' +ℤ d)) +ℤ pos 0) (c' +ℤ (t' +ℤ d)) (omega int_laws))

pub cancel_order-Follows :
    (fc : Fc) (a id : ℕ) (o : LimitOrder) (m m' : Market)
    → find id m.orders ≡ some o
    → cancel_order fc id o m ≡ some m'
    → Follows a (pos 0) m m'
unfolding cancel_order
cancel_order-Follows fc a id o m m' found h =
    let (m1, freed, h1) = >>=-eq-some (release_core fc o.seller (amount_for_sale o) m) _ h in
    let (balances, adjusted, e) =
      >>=-eq-some (adjust_balance fc o.seller (amount_for_sale o) m1.balances) _ h1 in
    let (_, _, (orders_same, _)) = release_core-Pays fc o.seller (amount_for_sale o) m m1 freed in
    rw (sym (eq_of_some e), orders_same)
      (cancelled (m.core_in_orders a) (m1.core_in_orders a) (total (core_of a) m.orders)
        (total (core_of a) (erase id m.orders)) (core_of a o)
        (release_core-count fc a o.seller (amount_for_sale o) m m1 freed)
        (erase-sum (core_of a) id o m.orders found))

follows_same : (t c : ℤ) → (t +ℤ c) +ℤ pos 0 ≡ c +ℤ t
follows_same t c = eq_of_parts ((t +ℤ c) +ℤ pos 0) (c +ℤ t) (omega int_laws)

sweep_order-Follows :
    (fc : Fc) (a id : ℕ) (o : LimitOrder) (m : Market) (r : Market × Bool)
    → find id m.orders ≡ some o
    → sweep_order fc id o m ≡ some r
    → Follows a (pos 0) m r.0
unfolding sweep_order
sweep_order-Follows fc a id o m r found h =
    let (worth, valued, h1) = >>=-eq-some (amount_to_receive fc o) _ h in
    elim (Bool-cases (eqb_ℤ worth.amount (pos 0))) [
      | inl worthless ↦
          let step : (cancel_order fc id o m >>= λ m'. some (m', true)) ≡ some r =
            sym (rw worthless refl) ∙ h1 in
          let (m', gone, e) = >>=-eq-some (cancel_order fc id o m) _ step in
          rw (sym (eq_of_some e)) (cancel_order-Follows fc a id o m m' found gone)
      | inr kept ↦
          let same : some (m, false) ≡ some r = sym (rw kept refl) ∙ h1 in
          rw (sym (eq_of_some same))
            (follows_same (total (core_of a) m.orders) (m.core_in_orders a))
    ]

sold_first :
    (t t1 t' c c' d : ℤ) → t1 +ℤ d ≡ t → (t' +ℤ c) +ℤ pos 0 ≡ c' +ℤ t1 → (t' +ℤ c) +ℤ d ≡ c' +ℤ t
sold_first t t1 t' c c' d e f =
    let parts = parts_of_sum t' c (sym (add_zero (t' +ℤ c)) ∙ f) in
    rw (sym e) (eq_of_parts ((t' +ℤ c) +ℤ d) (c' +ℤ (t1 +ℤ d)) (omega int_laws))

at_twice :
    (a seller asset : ℕ) (u v : ℤ)
    → at a seller (at 0 asset (u +ℤ v)) ≡ at a seller (at 0 asset u) +ℤ at a seller (at 0 asset v)
at_twice a seller asset u v =
    ap (at a seller) (at_sum 0 asset u v) ∙ at_sum a seller (at 0 asset u) (at 0 asset v)

reduce_order-Follows :
    (fc : Fc) (a id : ℕ) (o : LimitOrder) (pays : Asset) (m : Market) (r : Market × Bool)
    → find id m.orders ≡ some o
    → pays.asset_id ≡ o.sell_price.base.asset_id
    → reduce_order fc id o pays m ≡ some r
    → Follows a (at a o.seller (at 0 pays.asset_id pays.amount)) m r.0
unfolding reduce_order
reduce_order-Follows fc a id o pays m r found ids h =
    let (left, exact, swept) = >>=-eq-some (fc.safe_sub o.for_sale pays.amount) _ h in
    let o' : LimitOrder = record o { for_sale = left } in
    let m1 : Market = record m { orders = insert id o' m.orders } in
    let d = at a o.seller (at 0 pays.asset_id pays.amount) in
    let less : core_of a o' +ℤ d ≡ core_of a o = rw ids (
      sym (at_twice a o.seller o.sell_price.base.asset_id left pays.amount)
      ∙ ap (λ v. at a o.seller (at 0 o.sell_price.base.asset_id v))
          (less_sold o.for_sale pays.amount left (fc.safe_sub_exact _ _ _ exact))) in
    let orders_sum =
      given_up (total (core_of a) m1.orders) (total (core_of a) m.orders) (core_of a o)
        (core_of a o') d (insert-sum (core_of a) id o o' m.orders found) less in
    sold_first (total (core_of a) m.orders) (total (core_of a) m1.orders)
      (total (core_of a) r.0.orders) (m.core_in_orders a) (r.0.core_in_orders a) d orders_sum
      (sweep_order-Follows fc a id o' m1 r (found_again id o' m.orders) swept)

erased : (t t' c d : ℤ) → t' +ℤ d ≡ t → (t' +ℤ c) +ℤ d ≡ c +ℤ t
erased t t' c d e = rw (sym e) (eq_of_parts ((t' +ℤ c) +ℤ d) (c +ℤ (t' +ℤ d)) (omega int_laws))

close_order-Follows :
    (fc : Fc) (a id : ℕ) (o : LimitOrder) (pays : Asset) (m : Market) (r : Market × Bool)
    → find id m.orders ≡ some o
    → pays.asset_id ≡ o.sell_price.base.asset_id
    → close_order fc id o pays m ≡ some r
    → Follows a (at a o.seller (at 0 pays.asset_id pays.amount)) m r.0
unfolding close_order
close_order-Follows fc a id o pays m r found ids h =
    elim (Bool-cases (asset_eq pays (amount_for_sale o))) [
      | inl whole ↦
          let same : some (record m { orders = erase id m.orders }, true) ≡ some r =
            sym (rw whole refl) ∙ h in
          let paid : at a o.seller (at 0 pays.asset_id pays.amount) ≡ core_of a o =
            rw (ids, whole_of_test pays o.sell_price.base.asset_id o.for_sale whole) refl in
          rw (sym (eq_of_some same), paid)
            (erased (total (core_of a) m.orders) (total (core_of a) (erase id m.orders))
              (m.core_in_orders a) (core_of a o) (erase-sum (core_of a) id o m.orders found))
      | inr partly ↦
          let reduced : reduce_order fc id o pays m ≡ some r = sym (rw partly refl) ∙ h in
          reduce_order-Follows fc a id o pays m r found ids reduced
    ]

kept_count : (t t' c c1 c' d : ℤ) → c1 +ℤ d ≡ c → (t' +ℤ c1) +ℤ d ≡ c' +ℤ t → c ≡ t → c' ≡ t'
kept_count t t' c c1 c' d e f g =
    let parts = parts_of_sum (t' +ℤ c1) d f in
    let parts' = parts_of_sum c1 d (e ∙ g) in eq_of_parts c' t' (omega int_laws)

-- Filling an order keeps every count right.
pub fill_order-Counts :
    (fc : Fc) (a id : ℕ) (o : LimitOrder) (pays receives : Asset) (m : Market) (r : Market × Bool)
    → find id m.orders ≡ some o
    → pays.asset_id ≡ o.sell_price.base.asset_id
    → fill_order fc id pays receives m ≡ some r
    → Counts a m
    → Counts a r.0
unfolding fill_order
fill_order-Counts fc a id o pays receives m r found ids h counts =
    let step : (settle_order fc id o pays receives m >>= close_order fc id o pays) ≡ some r =
      sym (rw found refl) ∙ h in
    let (m1, settled, h1) = >>=-eq-some (settle_order fc id o pays receives m) _ step in
    let (freed, orders_same) = settle_order-count fc a id o pays receives m m1 settled in
    let follows =
      close_order-Follows fc a id o pays m1 r (ap (find id) orders_same ∙ found) ids h1 in
    kept_count (total (core_of a) m1.orders) (total (core_of a) r.0.orders) (m.core_in_orders a)
      (m1.core_in_orders a) (r.0.core_in_orders a) (at a o.seller (at 0 pays.asset_id pays.amount))
      freed follows (counts ∙ ap (total (core_of a)) (sym orders_same))

-- If the options of every asset are valid, the two ids differ, the price is between the assets that the two
-- orders sell, and `total_core_in_orders` of the account `a` is the sum of the core asset that its orders
-- hold, then this is still so after a match that returns.
pub match_orders-Counts :
    (fc : Fc) (a usd_id core_id : ℕ) (usd core : LimitOrder) (match_price : Price) (m : Market)
    (r : Market × ℕ)
    → HasValidOptions m
    → usd_id ≢ core_id
    → find usd_id m.orders ≡ some usd
    → find core_id m.orders ≡ some core
    → match_price.base.asset_id ≡ core.sell_price.base.asset_id
    → match_price.quote.asset_id ≡ usd.sell_price.base.asset_id
    → match_orders fc usd_id core_id match_price m ≡ some r
    → Counts a m
    → Counts a r.0
match_orders-Counts fc a usd_id core_id usd core match_price m r valid distinct usd_found core_found
      base quote h counts =
    let (
      receives,
      first,
      second,
      _,
      (core_asset, usd_asset),
      usd_filled,
      _,
      core_found',
      core_filled,
      e,
    ) =
      match_fills fc usd_id core_id usd core match_price m r valid distinct usd_found core_found
        base quote h in
    let first_counts =
      fill_order-Counts fc a usd_id usd receives.1 receives.0 m first usd_found usd_asset usd_filled
        counts in
    rw e (
      fill_order-Counts fc a core_id core receives.0 receives.1 first.0 second core_found'
        core_asset core_filled first_counts)
