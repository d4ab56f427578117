-- ===== src/Matching.antt =====
-- The matching of limit orders: `calculate_market_fee`, `pay_market_fees`, `pay_order`, `cancel_order`,
-- `fill_order` and `match` of libraries/chain/database.cpp on the objects of limit_order_object.hpp, as in
-- a release build, without the `assert`s. An object that is not there, a failed check of fc and an
-- overflow are `none`.
pub mod Holdings
pub mod Conservation
pub mod Fills
pub mod Trades
pub mod Counts
pub mod Results
pub mod Remainders
pub mod Fees
pub mod Payments
pub mod Releases
pub mod Debts
pub mod Shorts
pub mod MarginCalls
mod Examples
use bitshares_toolkit.Common.{
  ℕ, ◌+◌, ◌*◌, ◌==◌, Bool, true, false, not, Option, none, some, List, [], ◌∷◌, if◌then◌else◌,
  ◌>>=◌, ◌>>◌,
}
use bitshares_toolkit.Common.Int.{ℤ, pos, ltb_ℤ, eqb_ℤ}
use bitshares_toolkit.Common.Maps.{Map, find, insert, erase}
use bitshares_toolkit.Fc.{Fc}
use bitshares_toolkit.Asset.{Asset, Price, asset_eq, asset_le, asset_sub, exchange}
use bitshares_toolkit.Operations.Options.{has_any, AssetOptions}
use bitshares_toolkit.Operations.Market.{FillOrderOperation}
use bitshares_toolkit.Transfers.{AccountBalance, adjust_balance}

pub record LimitOrder : Type 0 where
  pub expiration : ℕ
  pub seller : ℕ
  pub for_sale : ℤ
  pub sell_price : Price

abbrev pub amount_for_sale : LimitOrder → Asset
amount_for_sale o = record { amount = o.for_sale; asset_id = o.sell_price.base.asset_id }

abbrev pub amount_to_receive : Fc → LimitOrder → Option Asset
amount_to_receive fc o = exchange fc (amount_for_sale o) o.sell_price

-- What the matching reads and changes: the orders by id, the balances, `total_core_in_orders` of each
-- account's statistics, `accumulated_fees` of each asset's dynamic data, and the applied virtual operations,
-- newest first. The options of assets do not change.
pub record Market : Type 0 where
  pub orders : Map LimitOrder
  pub balances : List AccountBalance
  pub core_in_orders : ℕ → ℤ
  pub accumulated_fees : ℕ → ℤ
  pub applied : List FillOrderOperation
  pub assets : ℕ → Option AssetOptions

abbrev pub put : (ℕ → ℤ) → ℕ → ℤ → ℕ → ℤ
put f k v j = if j == k then v else f j

abbrev pub charge_market_fee : ℕ
charge_market_fee = 1

abbrev pub percent_fee : Fc → AssetOptions → ℤ → ℤ
percent_fee fc o amount =
    pos (fc.to_uint64 (fc.div128 (fc.mul128 (fc.to_uint128 amount) o.market_fee_percent) 10000))

-- The amount of the fee, which is in the asset of the trade
unfoldable pub calculate_market_fee : Fc → AssetOptions → ℤ → ℤ
calculate_market_fee fc o amount =
    if not (has_any o.flags charge_market_fee)
    then pos 0
    else if o.market_fee_percent == 0
    then o.min_market_fee
    else if ltb_ℤ o.max_market_fee (percent_fee fc o amount)
    then o.max_market_fee
    else if ltb_ℤ (percent_fee fc o amount) o.min_market_fee
    then o.min_market_fee
    else percent_fee fc o amount

-- The market and the fees that it took
unfoldable pub pay_market_fees : Fc → AssetOptions → Asset → Market → Option (Market × Asset)
pay_market_fees fc o receives m =
    let fee = calculate_market_fee fc o receives.amount in
    let issuer_fees : Asset = record { amount = fee; asset_id = receives.asset_id } in
    if ltb_ℤ (pos 0) fee
    then (do
      sum ← fc.safe_add (m.accumulated_fees receives.asset_id) fee
      some (
        record m { accumulated_fees = put m.accumulated_fees receives.asset_id sum },
        issuer_fees,
      ))
    else some (m, issuer_fees)

-- `if( pays.asset_id == asset_id_type() ) b.total_core_in_orders -= pays.amount;`
unfoldable pub release_core : Fc → ℕ → Asset → Market → Option Market
release_core fc account pays m =
    if pays.asset_id == 0
    then (do
      rest ← fc.safe_sub (m.core_in_orders account) pays.amount
      some (record m { core_in_orders = put m.core_in_orders account rest }))
    else some m

unfoldable pub pay_order : Fc → ℕ → Asset → Asset → Market → Option Market
pay_order fc receiver receives pays m = do
  m' ← release_core fc receiver pays m
  balances ← adjust_balance fc receiver receives m'.balances
  some (record m' { balances = balances })

-- `cancel_order` of the order with the id; no virtual operation is made.
unfoldable pub cancel_order : Fc → ℕ → LimitOrder → Market → Option Market
cancel_order fc id o m = do
  m' ← release_core fc o.seller (amount_for_sale o) m
  balances ← adjust_balance fc o.seller (amount_for_sale o) m'.balances
  some (record m' { balances = balances; orders = erase id m'.orders })

-- An order that was not filled is refunded if what it still sells is worth nothing at its price.
unfoldable pub sweep_order : Fc → ℕ → LimitOrder → Market → Option (Market × Bool)
sweep_order fc id o m = do
  worth ← amount_to_receive fc o
  if eqb_ℤ worth.amount (pos 0)
      then (do m' ← cancel_order fc id o m; some (m', true))
      else some (m, false)

unfoldable pub reduce_order : Fc → ℕ → LimitOrder → Asset → Market → Option (Market × Bool)
reduce_order fc id o pays m = do
  left ← fc.safe_sub o.for_sale pays.amount
  let o' = record o { for_sale = left }
  sweep_order fc id o' (record m { orders = insert id o' m.orders })

-- The payments of `fill_order`, with its virtual operation
unfoldable pub settle_order : Fc → ℕ → LimitOrder → Asset → Asset → Market → Option Market
settle_order fc id o pays receives m = do
  options ← m.assets receives.asset_id
  paid ← pay_market_fees fc options receives m
  net ← asset_sub fc receives paid.1
  m' ← pay_order fc o.seller net pays paid.0
  some (record m' {
    applied =
        record {
          order_id = id;
          account_id = o.seller;
          pays = pays;
          receives = receives;
          fee = paid.1;
        }
        ∷ m'.applied;
  })

-- The order is gone when it has paid all that it sells; `true` says that it is gone.
unfoldable pub close_order : Fc → ℕ → LimitOrder → Asset → Market → Option (Market × Bool)
close_order fc id o pays m =
    if asset_eq pays (amount_for_sale o)
    then some (record m { orders = erase id m.orders }, true)
    else reduce_order fc id o pays m

unfoldable pub fill_order : Fc → ℕ → Asset → Asset → Market → Option (Market × Bool)
fill_order fc id pays receives m = do
  o ← find id m.orders
  m' ← settle_order fc id o pays receives m
  close_order fc id o pays m'

-- What the order that sells `usd` receives, and what the other one receives
unfoldable pub trade : Fc → Asset → Asset → Price → Option (Asset × Asset)
trade fc usd_for_sale core_for_sale match_price = do
  worth ← exchange fc core_for_sale match_price
  if asset_le usd_for_sale worth
      then (do
        usd_receives ← exchange fc usd_for_sale match_price
        some (usd_receives, usd_for_sale))
      else some (core_for_sale, worth)

abbrev pub bit : Bool → ℕ
bit true = 1
bit false = 0

-- `match` of two limit orders, and the bit field that it returns
unfoldable pub match_orders : Fc → ℕ → ℕ → Price → Market → Option (Market × ℕ)
match_orders fc usd_id core_id match_price m = do
  usd ← find usd_id m.orders
  core ← find core_id m.orders
  receives ← trade fc (amount_for_sale usd) (amount_for_sale core) match_price
  first ← fill_order fc usd_id receives.1 receives.0 m
  second ← fill_order fc core_id receives.0 receives.1 first.0
  some (second.0, bit first.1 + 2 * bit second.1)
