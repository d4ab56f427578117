-- ===== src/Matching/MarginCalls.antt =====
-- One round of the loop of `check_call_orders` of libraries/chain/database.cpp: the call order that is
-- first in line against the better one of the first limit order and the first short order.
pub mod Kept
pub mod Offers
pub mod Backing
mod Examples
use bitshares_toolkit.Common.{ℕ, Bool, true, false, Option, none, some, if◌then◌else◌, ◌>>=◌, ◌>>◌}
use bitshares_toolkit.Common.Maps.{find}
use bitshares_toolkit.Fc.{Fc}
use bitshares_toolkit.Asset.{
  Asset, Price, asset_eq, asset_ge, asset_gt, exchange, flip, make_price, price_lt, price_gt,
  price_validate,
}
use bitshares_toolkit.Matching.{LimitOrder, amount_for_sale, fill_order}
use bitshares_toolkit.Matching.Debts.{CallOrder, get_collateral, get_debt, fill_call}
use bitshares_toolkit.Matching.Shorts.{ShortOrder, ShortMarket, short_for_sale, fill_short}

-- The order that a call order is matched with, by its id
pub data Offer : Type 0 where
  limit_offer : ℕ → LimitOrder → Offer
  short_offer : ℕ → ShortOrder → Offer

abbrev pub offer_price : Offer → Price
offer_price (limit_offer id o) = o.sell_price
offer_price (short_offer id o) = o.sell_price

abbrev pub offer_for_sale : Offer → Asset
offer_for_sale (limit_offer id o) = amount_for_sale o
offer_for_sale (short_offer id o) = short_for_sale o

-- A limit order goes first unless the short order has the higher price.
unfoldable pub pick_offer : Fc → Option (ℕ × LimitOrder) → Option (ℕ × ShortOrder) → Option Offer
pick_offer fc none none = none
pick_offer fc none (some s) = some (short_offer s.0 s.1)
pick_offer fc (some l) none = some (limit_offer l.0 l.1)
pick_offer fc (some l) (some s) =
    if price_lt fc l.1.sell_price s.1.sell_price
    then some (short_offer s.0 s.1)
    else some (limit_offer l.0 l.1)

-- What a round does: it ends the loop, it settles the asset globally at a price, or it trades, with
-- whether an order and whether the call order was filled.
pub data Round : Type 0 where
  over : Round
  black_swan : Price → Round
  traded : ShortMarket → Bool → Bool → Round

-- What the call order receives and pays, with the two flags
unfoldable pub call_trade : Fc → Asset → Asset → Price → Option (Asset × Asset × Bool × Bool)
call_trade fc usd_to_buy usd_for_sale match_price = do
  more ← asset_ge usd_to_buy usd_for_sale
  if more
      then (do
        order_receives ← exchange fc usd_for_sale match_price
        some (usd_for_sale, order_receives, true, asset_eq usd_to_buy usd_for_sale))
      else (do
        order_receives ← exchange fc usd_to_buy match_price
        some (usd_to_buy, order_receives, false, true))

unfoldable pub fill_offer : Fc → Offer → Asset → Asset → ShortMarket → Option ShortMarket
fill_offer fc (limit_offer id o) pays receives w = do
  filled ← fill_order fc id pays receives w.debts.market
  some (record w { debts = record w.debts { market = filled.0 } })
fill_offer fc (short_offer id o) pays receives w = do
  filled ← fill_short fc id pays receives w
  some filled.0

-- The two fills of a round
unfoldable pub call_fills :
    Fc → ℕ → Offer → Asset × Asset × Bool × Bool → ShortMarket → Option Round
call_fills fc call_id offer (call_receives, call_pays, filled_order, filled_call) w = do
  first ← fill_call fc call_id call_pays call_receives w.debts
  w' ← fill_offer fc offer call_receives call_pays (record w { debts = first.0 })
  some (traded w' filled_order filled_call)

-- The trade of a call order, or the black swan if its collateral does not cover the debt at the price
unfoldable pub cover_call : Fc → ℕ → CallOrder → Offer → ShortMarket → Option Round
cover_call fc call_id call offer w = do
  needed ← exchange fc (get_debt call) (offer_price offer)
  too_much ← asset_gt needed (get_collateral call)
  if too_much
      then (do p ← make_price (get_debt call) (get_collateral call); some (black_swan p))
      else (do
        trade ← call_trade fc (get_debt call) (offer_for_sale offer) (offer_price offer)
        call_fills fc call_id offer trade w)

unfoldable pub call_round : Fc → ℕ → Option Offer → ShortMarket → Option Round
call_round fc call_id none w = some over
call_round fc call_id (some offer) w = do
  price_validate (offer_price offer)
  call ← find call_id w.debts.calls
  if price_gt fc (offer_price offer) (flip call.call_price)
      then some over
      else cover_call fc call_id call offer w
