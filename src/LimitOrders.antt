-- ===== src/LimitOrders.antt =====
-- The evaluators of libraries/chain/limit_order_evaluator.cpp and the index by_price of
-- limit_order_object.hpp, for assets that are not market issued: `check_call_orders` returns at once for
-- them, and no short order is matched. A failed assertion and an overflow are `none`.
pub mod Index
pub mod Ranges
pub mod Steps
pub mod Uncrossing
pub mod Placing
pub mod Loops
pub mod Creation
pub mod Reachable
mod Examples
use bitshares_toolkit.Common.{
  ℕ, ◌==◌, ltb, leb, Bool, true, false, not, ◌&&◌, ◌||◌, Option, none, some, List, [], ◌∷◌,
  if◌then◌else◌, ◌>>=◌, ◌>>◌, fc_assert, fc_assert_if,
}
use bitshares_toolkit.Common.Maps.{Map, find, contains, insert}
use bitshares_toolkit.Fc.{Fc}
use bitshares_toolkit.Asset.{Asset, Price, flip, make_price, price_gt, price_max, asset_ge}
use bitshares_toolkit.Operations.{negate, member}
use bitshares_toolkit.Operations.Options.{has_any, white_list}
use bitshares_toolkit.Operations.Market.{LimitOrderCreateOperation, LimitOrderCancelOperation}
use bitshares_toolkit.Transfers.{
  AccountBalance, Party, AssetObject, get_balance, is_authorized_asset, adjust_balance,
}
use bitshares_toolkit.Matching.{
  LimitOrder, Market, put, amount_for_sale, cancel_order, match_orders,
}

-- The markets that the options of an asset allow and those that they forbid
pub record Markets : Type 0 where
  pub whitelist_markets : List ℕ
  pub blacklist_markets : List ℕ

abbrev pub some_listed : List ℕ → Bool
some_listed [] = false
some_listed (i ∷ is) = true

-- `limit_order_create_evaluator::do_evaluate`, with the objects that it looks up
unfoldable pub limit_order_create_evaluate :
    ℕ
    → Party
    → AssetObject
    → AssetObject
    → Markets
    → LimitOrderCreateOperation
    → List AccountBalance
    → Option (Unit {0})
limit_order_create_evaluate head_block_time seller sell receive markets op bs = do
  fc_assert (leb head_block_time op.expiration)
  fc_assert_if (some_listed markets.whitelist_markets) (member receive.id markets.whitelist_markets)
  fc_assert_if (some_listed markets.blacklist_markets)
      (not (member receive.id markets.blacklist_markets))
  fc_assert_if (has_any sell.flags white_list) (is_authorized_asset seller sell)
  fc_assert_if (has_any receive.flags white_list) (is_authorized_asset seller receive)
  enough ← asset_ge (get_balance bs seller.id sell.id) op.amount_to_sell
  fc_assert enough

-- The order of the index by_price: the higher price first, then the lower id
abbrev pub before : Fc → ℕ × LimitOrder → ℕ × LimitOrder → Bool
before fc a b =
    if price_gt fc a.1.sell_price b.1.sell_price
    then true
    else if price_gt fc b.1.sell_price a.1.sell_price
    then false
    else ltb a.0 b.0

abbrev pub place : Fc → ℕ × LimitOrder → Map LimitOrder → Map LimitOrder
place fc e [] = e ∷ []
place fc e (d ∷ m) = let rest = place fc e m in if before fc d e then d ∷ rest else e ∷ d ∷ m

unfoldable pub by_price : Fc → Map LimitOrder → Map LimitOrder
by_price fc [] = []
by_price fc (e ∷ m) = place fc e (by_price fc m)

-- From `lower_bound( high )` to `upper_bound( low )`: the orders of the index that do not come before
-- `high` and that `low` does not come before
unfoldable pub range : Fc → Price → Price → Map LimitOrder → Map LimitOrder
range fc high low [] = []
range fc high low (e ∷ m) =
    let rest = range fc high low m in
    if not (price_gt fc e.1.sell_price high) && not (price_gt fc low e.1.sell_price)
    then e ∷ rest
    else rest

-- The loop over the old orders, which ends when the new one is gone
unfoldable pub match_range : Fc → ℕ → Map LimitOrder → Market → Option Market
match_range fc id [] m = some m
match_range fc id (old ∷ olds) m = do
  r ← match_orders fc id old.0 old.1.sell_price m
  let rest = match_range fc id olds r.0
  if not (r.1 == 2) then some r.0 else rest

-- `if( op.amount_to_sell.asset_id == asset_id_type() ) bal.total_core_in_orders += …`
unfoldable pub lock_core : Fc → ℕ → Asset → Market → Option Market
lock_core fc account sells m =
    if sells.asset_id == 0
    then (do
      sum ← fc.safe_add (m.core_in_orders account) sells.amount
      some (record m { core_in_orders = put m.core_in_orders account sum }))
    else some m

abbrev pub new_order : LimitOrderCreateOperation → Price → LimitOrder
new_order op p = record {
  expiration = op.expiration;
  seller = op.seller;
  for_sale = op.amount_to_sell.amount;
  sell_price = p;
}

-- The new order with the id `id`, paid for by the seller, at the price `p`
unfoldable pub place_order : Fc → ℕ → LimitOrderCreateOperation → Price → Market → Option Market
place_order fc id op p m = do
  m' ← lock_core fc op.seller op.amount_to_sell m
  debit ← negate fc op.amount_to_sell
  balances ← adjust_balance fc op.seller debit m'.balances
  some (record m' { balances = balances; orders = insert id (new_order op p) m'.orders })

-- The orders that the new one may be matched with, the best price first: `max_price` is `~op.get_price()`.
unfoldable pub candidates : Fc → Price → Map LimitOrder → Option (Map LimitOrder)
candidates fc max_price orders = do
  high ← price_max max_price.base.asset_id max_price.quote.asset_id
  some (range fc high max_price (by_price fc orders))

-- What follows the creation of the order, with the check of `fill_or_kill`
unfoldable pub match_new : Fc → ℕ → Bool → Price → Market → Option Market
match_new fc id fill_or_kill max_price m = do
  olds ← candidates fc max_price m.orders
  m' ← match_range fc id olds m
  fc_assert (not fill_or_kill || not (contains id m'.orders))
  some m'

-- `limit_order_create_evaluator::do_apply`, with the id of the object that it creates
unfoldable pub limit_order_create_apply :
    Fc → ℕ → LimitOrderCreateOperation → Market → Option Market
limit_order_create_apply fc id op m = do
  p ← make_price op.amount_to_sell op.min_to_receive
  m' ← place_order fc id op p m
  match_new fc id op.fill_or_kill (flip p) m'

-- `limit_order_cancel_evaluator`: what is refunded, and the order gone
unfoldable pub limit_order_cancel_evaluate : LimitOrderCancelOperation → Market → Option Asset
limit_order_cancel_evaluate op m = do
  o ← find op.order m.orders
  fc_assert (o.seller == op.fee_paying_account)
  some (amount_for_sale o)

unfoldable pub limit_order_cancel_apply :
    Fc → LimitOrderCancelOperation → Market → Option (Market × Asset)
limit_order_cancel_apply fc op m = do
  o ← find op.order m.orders
  m' ← cancel_order fc op.order o m
  some (m', amount_for_sale o)
