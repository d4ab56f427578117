-- ===== src/Matching/Remainders.antt =====
-- What a fill leaves of an order keeps its price.
use bitshares_toolkit.Common.{
  ℕ, ◌≡◌, refl, sym, ap, subst, ◌∙◌, Bool, true, false, some, ◌>>=◌, Bool-cases, inl, inr,
  >>=-eq-some, eq_of_some,
}
use bitshares_toolkit.Common.Int.{pos, eqb_ℤ}
use bitshares_toolkit.Common.Maps.{IsMap, find, contains, insert, erase, insert-IsMap}
use bitshares_toolkit.Fc.{Fc}
use bitshares_toolkit.Asset.{Asset, asset_eq}
use bitshares_toolkit.Matching.{
  LimitOrder, Market, amount_for_sale, amount_to_receive, cancel_order, sweep_order, reduce_order,
  settle_order, close_order, fill_order,
}
use bitshares_toolkit.Matching.Payments.{HasValidOptions, settle_order-sum}
use bitshares_toolkit.Matching.Fills.{found_again}
use bitshares_toolkit.Matching.Results.{cancel_order-Tells, erased_gone}

-- The order with the id, if it is there, has the price of `o`.
abbrev pub KeepsPrice : ℕ → LimitOrder → Market → Type 0
KeepsPrice id o m = (o' : LimitOrder) → find id m.orders ≡ some o' → o'.sell_price ≡ o.sell_price

pub absurd_test : {P : Type 0} (b : Bool) → b ≡ false → b ≡ true → P
absurd_test b h k = cc

gone-KeepsPrice :
    (id : ℕ) (o : LimitOrder) (m : Market) → contains id m.orders ≡ false → KeepsPrice id o m
gone-KeepsPrice id o m gone o' found =
    let there : contains id m.orders ≡ true = rw (found, contains) refl in
    absurd_test (contains id m.orders) gone there

kept-KeepsPrice :
    (id : ℕ) (o : LimitOrder) (m : Market) → find id m.orders ≡ some o → KeepsPrice id o m
kept-KeepsPrice id o m kept o' found = ap LimitOrder.sell_price (eq_of_some (sym found ∙ kept))

sweep_order-KeepsPrice :
    (fc : Fc) (id : ℕ) (o : LimitOrder) (m : Market) (r : Market × Bool)
    → IsMap m.orders
    → find id m.orders ≡ some o
    → sweep_order fc id o m ≡ some r
    → KeepsPrice id o r.0
unfolding sweep_order
sweep_order-KeepsPrice fc id o m r unique found h =
    let (worth, valued, h1) = >>=-eq-some (amount_to_receive fc o) _ h in
    elim (Bool-cases (eqb_ℤ worth.amount (pos 0))) [
      | inl worthless ↦
          let step : (cancel_order fc id o m >>= λ m'. some (m', true)) ≡ some r =
            sym (rw worthless refl) ∙ h1 in
          let (m', gone, e) = >>=-eq-some (cancel_order fc id o m) _ step in
          rw (sym (eq_of_some e))
            (gone-KeepsPrice id o m' (cancel_order-Tells fc id o m m' unique gone).0)
      | inr kept ↦
          let same : some (m, false) ≡ some r = sym (rw kept refl) ∙ h1 in
          rw (sym (eq_of_some same)) (kept-KeepsPrice id o m found)
    ]

reduce_order-KeepsPrice :
    (fc : Fc) (id : ℕ) (o : LimitOrder) (pays : Asset) (m : Market) (r : Market × Bool)
    → IsMap m.orders
    → reduce_order fc id o pays m ≡ some r
    → KeepsPrice id o r.0
unfolding reduce_order
reduce_order-KeepsPrice fc id o pays m r unique h =
    let (left, exact, swept) = >>=-eq-some (fc.safe_sub o.for_sale pays.amount) _ h in
    let o' : LimitOrder = record o { for_sale = left } in
    let m1 : Market = record m { orders = insert id o' m.orders } in
    sweep_order-KeepsPrice fc id o' m1 r (insert-IsMap id o' m.orders unique)
      (found_again id o' m.orders) swept

close_order-KeepsPrice :
    (fc : Fc) (id : ℕ) (o : LimitOrder) (pays : Asset) (m : Market) (r : Market × Bool)
    → IsMap m.orders
    → close_order fc id o pays m ≡ some r
    → KeepsPrice id o r.0
unfolding close_order
close_order-KeepsPrice fc id o pays m r unique h =
    elim (Bool-cases (asset_eq pays (amount_for_sale o))) [
      | inl whole ↦
          let same : some (record m { orders = erase id m.orders }, true) ≡ some r =
            sym (rw whole refl) ∙ h in
          rw (sym (eq_of_some same)) (
            gone-KeepsPrice id o (record m { orders = erase id m.orders })
              (erased_gone id m.orders unique))
      | inr partly ↦
          let reduced : reduce_order fc id o pays m ≡ some r = sym (rw partly refl) ∙ h in
          reduce_order-KeepsPrice fc id o pays m r unique reduced
    ]

pub fill_order-KeepsPrice :
    (fc : Fc) (id : ℕ) (o : LimitOrder) (pays receives : Asset) (m : Market) (r : Market × Bool)
    → HasValidOptions m
    → IsMap m.orders
    → find id m.orders ≡ some o
    → fill_order fc id pays receives m ≡ some r
    → KeepsPrice id o r.0
unfolding fill_order
fill_order-KeepsPrice fc id o pays receives m r valid unique found h =
    let step : (settle_order fc id o pays receives m >>= close_order fc id o pays) ≡ some r =
      sym (rw found refl) ∙ h in
    let (m1, settled, h1) = >>=-eq-some (settle_order fc id o pays receives m) _ step in
    let (_, (orders_same, _)) = settle_order-sum fc 0 id o pays receives m m1 valid settled in
    close_order-KeepsPrice fc id o pays m1 r (subst IsMap (sym orders_same) unique) h1
