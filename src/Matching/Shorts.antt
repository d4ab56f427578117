-- ===== src/Matching/Shorts.antt =====
-- Short orders: `short_order_object` of libraries/chain/include/bts/chain/short_order_object.hpp, and of
-- libraries/chain/database.cpp the `fill_order` of a short order and the `match` of a limit order with
-- one, as in a release build, without the `assert`s.
pub mod Lending
pub mod Parts
pub mod Filling
pub mod Backing
mod Examples
use bitshares_toolkit.Common.{
  ℕ, ◌+◌, ◌*◌, ◌==◌, Bool, true, false, not, Option, none, some, ◌∷◌, if◌then◌else◌, ◌>>=◌, ◌>>◌,
  fc_assert,
}
use bitshares_toolkit.Common.Int.{ℤ, pos, eqb_ℤ}
use bitshares_toolkit.Common.Maps.{Map, find, contains, insert, erase}
use bitshares_toolkit.Fc.{Fc}
use bitshares_toolkit.Asset.{Asset, Price, asset_eq, asset_sub, exchange, price_max}
use bitshares_toolkit.Transfers.{adjust_balance}
use bitshares_toolkit.Matching.{
  Market, LimitOrder, put, bit, amount_for_sale, pay_market_fees, fill_order, trade,
}
use bitshares_toolkit.Matching.Debts.{CallOrder, Debts, update_call_price}
use bitshares_toolkit.Matching.Debts.Updates.{find_call, count_core}

pub record ShortOrder : Type 0 where
  pub expiration : ℕ
  pub seller : ℕ
  pub for_sale : ℤ
  pub available_collateral : ℤ
  pub sell_price : Price
  pub call_price : Price
  pub initial_collateral_ratio : ℕ
  pub maintenance_collateral_ratio : ℕ

abbrev pub short_collateral : ShortOrder → Asset
short_collateral o = record {
  amount = o.available_collateral;
  asset_id = o.sell_price.quote.asset_id;
}

abbrev pub short_for_sale : ShortOrder → Asset
short_for_sale o = record { amount = o.for_sale; asset_id = o.sell_price.base.asset_id }

-- The debts with the short orders, the next id of a call order, and for each market issued asset
-- whether it is a prediction market.
pub record ShortMarket : Type 0 where
  pub debts : Debts
  pub shorts : Map ShortOrder
  pub next_call_id : ℕ
  pub prediction_markets : ℕ → Option Bool

-- `seller_to_collateral`; in a prediction market a number becomes an amount of the core asset.
unfoldable pub seller_to_collateral : Fc → Bool → ShortOrder → Asset → Asset → Option Asset
seller_to_collateral fc prediction o pays receives =
    if prediction
    then (do
      amount ← fc.safe_sub pays.amount receives.amount
      some (record { amount = amount; asset_id = 0 }))
    else if asset_eq pays (short_for_sale o)
    then some (short_collateral o)
    else exchange fc pays o.sell_price

-- The call order of the seller, by the id that it has or gets
unfoldable pub lend :
    Fc
    → ShortOrder
    → Asset
    → ℕ
    → ℤ
    → ℕ
    → Map CallOrder
    → Option (ℕ × CallOrder)
    → Option (Map CallOrder × ℕ)
lend fc o pays collateral_asset amount next_id calls none = do
  price ← price_max collateral_asset pays.asset_id
  c ← update_call_price fc (record {
    borrower = o.seller;
    collateral = amount;
    debt = pays.amount;
    call_price = price;
    maintenance_collateral_ratio = o.maintenance_collateral_ratio;
  })
  fc_assert (not (contains next_id calls))
  some (insert next_id c calls, next_id + 1)
lend fc o pays collateral_asset amount next_id calls (some (id, call)) = do
  debt ← fc.safe_add call.debt pays.amount
  collateral ← fc.safe_add call.collateral amount
  c ← update_call_price fc (record call {
    debt = debt;
    collateral = collateral;
    maintenance_collateral_ratio = o.maintenance_collateral_ratio;
  })
  some (insert id c calls, next_id)

-- A short order that was not filled is refunded if what it still sells is worth nothing at its price.
unfoldable pub sweep_short :
    Fc → ℕ → ShortOrder → Market → Map ShortOrder → Option (Market × Map ShortOrder × Bool)
sweep_short fc id o m shorts = do
  worth ← exchange fc (short_for_sale o) o.sell_price
  if eqb_ℤ worth.amount (pos 0)
      then (do
        balances ← adjust_balance fc o.seller (short_collateral o) m.balances
        m' ← count_core fc.safe_sub o.seller (short_collateral o) (record m { balances = balances })
        some (m', erase id shorts, true))
      else some (m, shorts, false)

unfoldable pub close_short :
    Fc
    → ℕ
    → ShortOrder
    → Asset
    → Asset
    → Market
    → Map ShortOrder
    → Option (Market × Map ShortOrder × Bool)
close_short fc id o pays collateral m shorts =
    if asset_eq pays (short_for_sale o) then some (m, erase id shorts, true) else (do
      for_sale ← fc.safe_sub o.for_sale pays.amount
      available ← fc.safe_sub o.available_collateral collateral.amount
      let o' = record o { for_sale = for_sale; available_collateral = available }
      sweep_short fc id o' m (insert id o' shorts))

-- The new supply and the call order that backs it, in `fill_order` of a short order
unfoldable pub issue :
    Fc
    → ShortOrder
    → Asset
    → Asset
    → Asset
    → Asset
    → ShortMarket
    → Market
    → Option (Market × (ℕ → ℤ) × Map CallOrder × ℕ)
issue fc o pays receives seller_part buyer_part w m = do
  m' ← count_core fc.safe_add o.seller (record buyer_part { asset_id = receives.asset_id }) m
  supply ← fc.safe_add (w.debts.current_supply pays.asset_id) pays.amount
  amount ← fc.safe_add seller_part.amount buyer_part.amount
  (calls, next_id) ←
      lend fc o pays seller_part.asset_id amount w.next_call_id w.debts.calls
        (find_call o.seller pays.asset_id w.debts.calls)
  some (m', put w.debts.current_supply pays.asset_id supply, calls, next_id)

unfoldable pub fill_short : Fc → ℕ → Asset → Asset → ShortMarket → Option (ShortMarket × Bool)
fill_short fc id pays receives w = do
  o ← find id w.shorts
  options ← w.debts.market.assets receives.asset_id
  (m, fee) ← pay_market_fees fc options receives w.debts.market
  prediction ← w.prediction_markets pays.asset_id
  seller_part ← seller_to_collateral fc prediction o pays receives
  buyer_part ← asset_sub fc receives fee
  (m1, supply, calls, next_id) ← issue fc o pays receives seller_part buyer_part w m
  (m2, shorts, filled) ← close_short fc id o pays seller_part m1 w.shorts
  some (
    record w {
      debts = record w.debts {
        market = record m2 {
          applied =
              record {
                order_id = id;
                account_id = o.seller;
                pays = pays;
                receives = receives;
                fee = fee;
              }
              ∷ m2.applied;
        };
        calls = calls;
        current_supply = supply;
      };
      shorts = shorts;
      next_call_id = next_id;
    },
    filled,
  )

-- `match` of a limit order and a short order, and the bit field that it returns
unfoldable pub match_short : Fc → ℕ → ℕ → Price → ShortMarket → Option (ShortMarket × ℕ)
match_short fc usd_id core_id match_price w = do
  usd ← find usd_id w.debts.market.orders
  core ← find core_id w.shorts
  receives ← trade fc (amount_for_sale usd) (short_for_sale core) match_price
  first ← fill_order fc usd_id receives.1 receives.0 w.debts.market
  second ←
      fill_short fc core_id receives.0 receives.1
        (record w { debts = record w.debts { market = first.0 } })
  some (second.0, bit first.1 + 2 * bit second.1)
