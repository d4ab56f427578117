-- ===== src/LimitOrders/Creation.antt =====
-- The creation of a limit order as a whole.
use bitshares_toolkit.Common.{
  ℕ, ◌==◌, ◌≡◌, ◌≢◌, sym, ap, subst, ◌∙◌, true, false, some, none, arith, >>=-eq-some,
}
use bitshares_toolkit.Common.Maps.{IsMap, find, insert-IsMap}
use bitshares_toolkit.Fc.{Fc}
use bitshares_toolkit.Asset.{Asset, Price, flip, make_price, price_max}
use bitshares_toolkit.Operations.Market.{LimitOrderCreateOperation}
use bitshares_toolkit.Matching.{Market}
use bitshares_toolkit.Matching.Payments.{HasValidOptions}
use bitshares_toolkit.Matching.Fills.{found_again}
use bitshares_toolkit.LimitOrders.{new_order, place_order, limit_order_create_apply}
use bitshares_toolkit.LimitOrders.Steps.{Sound, IsMarket, same-HasValidOptions}
use bitshares_toolkit.LimitOrders.Placing.{place_order-Sound}
use bitshares_toolkit.LimitOrders.Loops.{Uncrossed, made_price, match_new-Uncrossed}

not_equal : (i j : ℕ) → (i == j) ≡ false → i ≢ j
not_equal i j h = ground (arith, h)

differ :
    {a b : Asset} {p : Price}
    → p ≡ record { base = a; quote = b }
    → (a.asset_id == b.asset_id) ≡ false
    → p.base.asset_id ≢ p.quote.asset_id
differ {a} {b} {p} e h = rw e (not_equal a.asset_id b.asset_id h)

pub limit_order_create-Outcome :
    (fc : Fc) (id : ℕ) (op : LimitOrderCreateOperation) (m m' : Market)
    → HasValidOptions m
    → IsMap m.orders
    → find id m.orders ≡ none
    → limit_order_create_apply fc id op m ≡ some m'
    → Sound m m'
      × (m'.assets ≡ m.assets)
      × IsMap m'.orders
      × (op.fill_or_kill ≡ true → find id m'.orders ≡ none)
      × ((high : Price)
          → price_max op.min_to_receive.asset_id op.amount_to_sell.asset_id ≡ some high
          → Uncrossed fc id high
              (record { base = op.min_to_receive; quote = op.amount_to_sell })
              m')
unfolding limit_order_create_apply
limit_order_create-Outcome fc id op m m' valid unique absent h =
    let (p, priced, h1) = >>=-eq-some (make_price op.amount_to_sell op.min_to_receive) _ h in
    let (m1, placed, matched) = >>=-eq-some (place_order fc id op p m) _ h1 in
    let (p_is, distinct) = made_price op.amount_to_sell op.min_to_receive p priced in
    let ((held, counted), orders_now, assets_now) =
      place_order-Sound fc id op p m m1 absent (ap (λ q. q.base.asset_id) p_is) placed in
    let unique1 : IsMap m1.orders =
      subst IsMap (sym orders_now) (insert-IsMap id (new_order op p) m.orders unique) in
    let valid1 = same-HasValidOptions m m1 assets_now valid in
    let found1 : find id m1.orders ≡ some (new_order op p) =
      ap (find id) orders_now ∙ found_again id (new_order op p) m.orders in
    let ((held', counted'), assets_same, unique', kill, uncrossed) =
      match_new-Uncrossed fc id op.fill_or_kill (new_order op p) m1 m' valid1 unique1 found1
        (differ p_is distinct) matched in
    (
      (λ x. held' x ∙ held x, λ a right. counted' a (counted a right)),
      assets_same ∙ assets_now,
      unique',
      kill,
      λ high highest.
          subst (λ q. Uncrossed fc id high (flip q) m') p_is (uncrossed high (rw p_is highest)),
    )

-- In a market whose options are valid, without market issued assets, with distinct ids and with the right
-- `total_core_in_orders`: if no order has the new id and the creation of a limit order returns, then the new
-- order is gone if it is to be filled or killed; and it is gone, or every other order that is left is out of
-- its range: its price is above the highest one of the market or below the price of the new order, turned
-- around.
pub limit_order_create_uncrosses :
    (fc : Fc) (id : ℕ) (op : LimitOrderCreateOperation) (high : Price) (m m' : Market)
    → IsMarket m
    → find id m.orders ≡ none
    → price_max op.min_to_receive.asset_id op.amount_to_sell.asset_id ≡ some high
    → limit_order_create_apply fc id op m ≡ some m'
    → (op.fill_or_kill ≡ true → find id m'.orders ≡ none)
      × Uncrossed fc id high (record { base = op.min_to_receive; quote = op.amount_to_sell }) m'
limit_order_create_uncrosses fc id op high m m' (valid, _, unique, _) absent highest h =
    let (_, _, _, kill, uncrossed) =
      limit_order_create-Outcome fc id op m m' valid unique absent h in
    (kill, uncrossed high highest)
