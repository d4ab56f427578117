-- ===== src/Matching/Fills.antt =====
-- What filling an order does to the whole amount of an asset.
use bitshares_toolkit.Common.{
  ℕ, ◌≡◌, ◌≢◌, refl, sym, ap, ◌∙◌, Bool, true, false, some, ◌>>=◌, arith, Bool-cases, inl, inr,
  >>=-eq-some, eq_of_some,
}
use bitshares_toolkit.Common.Int.{ℤ, pos, eq_of_parts, parts_of_sum, eqb_ℤ, ◌+ℤ◌, ◌-ℤ◌, int_laws}
use bitshares_toolkit.Common.Maps.{Map, find, insert, erase, find-insert, find-erase_ne}
use bitshares_toolkit.Fc.{Fc}
use bitshares_toolkit.Asset.{Asset, asset_eq}
use bitshares_toolkit.Transfers.{adjust_balance}
use bitshares_toolkit.Matching.{
  LimitOrder, Market, amount_for_sale, amount_to_receive, release_core, cancel_order, sweep_order,
  reduce_order, settle_order, close_order, fill_order,
}
use bitshares_toolkit.Matching.Holdings.{
  at, in_balances, in_order, in_orders, holdings, adjust_balance-sum, insert-sum, erase-sum, at_sum,
}
use bitshares_toolkit.Matching.Payments.{HasValidOptions, release_core-Pays, settle_order-sum}

-- The orders but for one, and the options, are those of before.
abbrev pub Frames : ℕ → Market → Market → Type 0
Frames id m m' = (m'.assets ≡ m.assets) × ((j : ℕ) → j ≢ id → find j m'.orders ≡ find j m.orders)

erased_sum : (b e o f d : ℤ) → e +ℤ d ≡ o → ((b +ℤ e) +ℤ f) +ℤ d ≡ (b +ℤ o) +ℤ f
erased_sum b e o f d h =
    rw (sym h) (eq_of_parts (((b +ℤ e) +ℤ f) +ℤ d) ((b +ℤ (e +ℤ d)) +ℤ f) (omega int_laws))

refunded_sum : (b e o f d : ℤ) → e +ℤ d ≡ o → ((b +ℤ d) +ℤ e) +ℤ f ≡ (b +ℤ o) +ℤ f
refunded_sum b e o f d h =
    rw (sym h) (eq_of_parts (((b +ℤ d) +ℤ e) +ℤ f) ((b +ℤ (e +ℤ d)) +ℤ f) (omega int_laws))

-- A cancelled order gives back all that it holds.
pub cancel_order-sum :
    (fc : Fc) (x id : ℕ) (o : LimitOrder) (m m' : Market)
    → find id m.orders ≡ some o
    → cancel_order fc id o m ≡ some m'
    → (holdings x m' ≡ holdings x m) × Frames id m m'
unfolding cancel_order
cancel_order-sum fc x id o m m' found h =
    let (m1, released, h1) = >>=-eq-some (release_core fc o.seller (amount_for_sale o) m) _ h in
    let (balances, adjusted, e) =
      >>=-eq-some (adjust_balance fc o.seller (amount_for_sale o) m1.balances) _ h1 in
    let (balances_same, fees_same, (orders_same, assets_same)) =
      release_core-Pays fc o.seller (amount_for_sale o) m m1 released in
    let sum =
      adjust_balance-sum fc x o.seller (amount_for_sale o) m1.balances balances adjusted
      ∙ ap (λ bs. in_balances x bs +ℤ in_order x o) balances_same in
    rw (sym (eq_of_some e)) (
      rw (sum, orders_same, ap (λ f. f x) fees_same)
          (refunded_sum (in_balances x m.balances) (in_orders x (erase id m.orders))
            (in_orders x m.orders) (m.accumulated_fees x) (in_order x o)
            (erase-sum (in_order x) id o m.orders found)),
      (assets_same, λ j other. rw orders_same (find-erase_ne j id m.orders other)),
    )

pub given_up : (i o a left d : ℤ) → i +ℤ a ≡ o +ℤ left → left +ℤ d ≡ a → i +ℤ d ≡ o
given_up i o a left d h e =
    let parts = parts_of_sum i a h in
    let parts' = parts_of_sum left d e in eq_of_parts (i +ℤ d) o (omega int_laws)

pub less_sold : (whole part left : ℤ) → left ≡ whole -ℤ part → left +ℤ part ≡ whole
less_sold whole part left e = rw e (eq_of_parts ((whole -ℤ part) +ℤ part) whole (omega int_laws))

pub sold :
    (x asset : ℕ) (whole part left : ℤ)
    → left ≡ whole -ℤ part
    → at x asset left +ℤ at x asset part ≡ at x asset whole
sold x asset whole part left e =
    sym (at_sum x asset left part) ∙ ap (at x asset) (less_sold whole part left e)

sweep_order-sum :
    (fc : Fc) (x id : ℕ) (o : LimitOrder) (m : Market) (r : Market × Bool)
    → find id m.orders ≡ some o
    → sweep_order fc id o m ≡ some r
    → (holdings x r.0 ≡ holdings x m) × Frames id m r.0
unfolding sweep_order
sweep_order-sum fc x id o m r found h =
    let (worth, valued, h1) = >>=-eq-some (amount_to_receive fc o) _ h in
    elim (Bool-cases (eqb_ℤ worth.amount (pos 0))) [
      | inl worthless ↦
          let step : (cancel_order fc id o m >>= λ m'. some (m', true)) ≡ some r =
            sym (rw worthless refl) ∙ h1 in
          let (m', cancelled, e) = >>=-eq-some (cancel_order fc id o m) _ step in
          rw (sym (eq_of_some e)) (cancel_order-sum fc x id o m m' found cancelled)
      | inr kept ↦
          let same : some (m, false) ≡ some r = sym (rw kept refl) ∙ h1 in
          rw (sym (eq_of_some same)) (refl, (refl, λ j other. refl))
    ]

pub found_again : {V : Type 0} (id : ℕ) (v : V) (m : Map V) → find id (insert id v m) ≡ some v
found_again id v m = find-insert id id v m ∙ ground arith

pub others_found :
    {V : Type 0} (j id : ℕ) (v : V) (m : Map V) → j ≢ id → find j (insert id v m) ≡ find j m
others_found j id v m other = find-insert j id v m ∙ ground (arith, other)

-- The order and the balances hold `pays` less than before.
reduce_order-sum :
    (fc : Fc) (x id : ℕ) (o : LimitOrder) (pays : Asset) (m : Market) (r : Market × Bool)
    → find id m.orders ≡ some o
    → pays.asset_id ≡ o.sell_price.base.asset_id
    → reduce_order fc id o pays m ≡ some r
    → (holdings x r.0 +ℤ at x pays.asset_id pays.amount ≡ holdings x m) × Frames id m r.0
unfolding reduce_order
reduce_order-sum fc x id o pays m r found ids h =
    let (left, exact, swept) = >>=-eq-some (fc.safe_sub o.for_sale pays.amount) _ h in
    let o' : LimitOrder = record o { for_sale = left } in
    let m1 : Market = record m { orders = insert id o' m.orders } in
    let less : in_order x o' +ℤ at x pays.asset_id pays.amount ≡ in_order x o = rw ids (
      sold x o.sell_price.base.asset_id o.for_sale pays.amount left
        (fc.safe_sub_exact _ _ _ exact)) in
    let orders_sum =
      given_up (in_orders x m1.orders) (in_orders x m.orders) (in_order x o) (in_order x o')
        (at x pays.asset_id pays.amount) (insert-sum (in_order x) id o o' m.orders found) less in
    let reduced : holdings x m1 +ℤ at x pays.asset_id pays.amount ≡ holdings x m =
      erased_sum (in_balances x m.balances) (in_orders x m1.orders) (in_orders x m.orders)
        (m.accumulated_fees x) (at x pays.asset_id pays.amount) orders_sum in
    let (same, (assets_same, others)) =
      sweep_order-sum fc x id o' m1 r (found_again id o' m.orders) swept in
    (
      ap (λ s. s +ℤ at x pays.asset_id pays.amount) same ∙ reduced,
      (assets_same, λ j other. others j other ∙ others_found j id o' m.orders other),
    )

pub whole_of_test :
    (pays : Asset) (asset : ℕ) (v : ℤ)
    → asset_eq pays (record { amount = v; asset_id = asset }) ≡ true
    → pays.amount ≡ v
unfolding asset_eq
whole_of_test pays asset v h = ground (arith, eq_of_parts pays.amount v)

close_order-sum :
    (fc : Fc) (x id : ℕ) (o : LimitOrder) (pays : Asset) (m : Market) (r : Market × Bool)
    → find id m.orders ≡ some o
    → pays.asset_id ≡ o.sell_price.base.asset_id
    → close_order fc id o pays m ≡ some r
    → (holdings x r.0 +ℤ at x pays.asset_id pays.amount ≡ holdings x m) × Frames id m r.0
unfolding close_order
close_order-sum fc x id o pays m r found ids h =
    elim (Bool-cases (asset_eq pays (amount_for_sale o))) [
      | inl whole ↦
          let same : some (record m { orders = erase id m.orders }, true) ≡ some r =
            sym (rw whole refl) ∙ h in
          let paid : at x pays.asset_id pays.amount ≡ in_order x o =
            rw (ids, whole_of_test pays o.sell_price.base.asset_id o.for_sale whole) refl in
          rw (sym (eq_of_some same), paid)
            (
              erased_sum (in_balances x m.balances) (in_orders x (erase id m.orders))
                  (in_orders x m.orders) (m.accumulated_fees x) (in_order x o)
                  (erase-sum (in_order x) id o m.orders found),
              (refl, λ j other. find-erase_ne j id m.orders other),
            )
      | inr partly ↦
          let reduced : reduce_order fc id o pays m ≡ some r = sym (rw partly refl) ∙ h in
          reduce_order-sum fc x id o pays m r found ids reduced
    ]

-- Filling an order moves what it pays out of the market and what it receives into it.
pub fill_order-sum :
    (fc : Fc) (x id : ℕ) (o : LimitOrder) (pays receives : Asset) (m : Market) (r : Market × Bool)
    → HasValidOptions m
    → find id m.orders ≡ some o
    → pays.asset_id ≡ o.sell_price.base.asset_id
    → fill_order fc id pays receives m ≡ some r
    → (holdings x r.0 +ℤ at x pays.asset_id pays.amount
        ≡ holdings x m +ℤ at x receives.asset_id receives.amount)
      × Frames id m r.0
unfolding fill_order
fill_order-sum fc x id o pays receives m r valid found ids h =
    let step : (settle_order fc id o pays receives m >>= close_order fc id o pays) ≡ some r =
      sym (rw found refl) ∙ h in
    let (m1, settled, h1) = >>=-eq-some (settle_order fc id o pays receives m) _ step in
    let (sum, (orders_same, assets_same)) =
      settle_order-sum fc x id o pays receives m m1 valid settled in
    let (closed, (assets_same', others)) =
      close_order-sum fc x id o pays m1 r (ap (find id) orders_same ∙ found) ids h1 in
    (
      closed ∙ sum,
      (assets_same' ∙ assets_same, λ j other. others j other ∙ ap (find j) orders_same),
    )
