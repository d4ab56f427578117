-- ===== src/Matching/Debts.antt =====
-- Call orders and forced settlements: `call_order_object` and `force_settlement_object` of
-- libraries/chain/include/bts/chain/short_order_object.hpp, and of libraries/chain/database.cpp the
-- `fill_order` and the `match` of the two, as in a release build, without the `assert`s. Where the code
-- reads an object that it has just removed, the model reads what the object was.
pub mod Collateral
pub mod Settlements
pub mod Backing
pub mod Endings
pub mod Settling
pub mod Rounds
pub mod Terminating
pub mod Updates
pub mod Amounts
pub mod Evaluated
pub mod UpdateSums
pub mod Credits
pub mod Withdrawn
pub mod Examples
use bitshares_toolkit.Common.{
  ℕ, ◌==◌, Bool, true, false, Option, none, some, ◌∷◌, if◌then◌else◌, ◌>>=◌, ◌>>◌,
}
use bitshares_toolkit.Common.Int.{ℤ, pos, ltb_ℤ, eqb_ℤ}
use bitshares_toolkit.Common.Maps.{Map, find, insert, erase}
use bitshares_toolkit.Fc.{Fc}
use bitshares_toolkit.Asset.{Asset, Price, asset_lt, asset_sub, exchange, call_price}
use bitshares_toolkit.Transfers.{adjust_balance}
use bitshares_toolkit.Matching.{Market, put, pay_market_fees, release_core}

pub record CallOrder : Type 0 where
  pub borrower : ℕ
  pub collateral : ℤ
  pub debt : ℤ
  pub call_price : Price
  pub maintenance_collateral_ratio : ℕ

abbrev pub get_collateral : CallOrder → Asset
get_collateral o = record { amount = o.collateral; asset_id = o.call_price.base.asset_id }

abbrev pub debt_type : CallOrder → ℕ
debt_type o = o.call_price.quote.asset_id

abbrev pub get_debt : CallOrder → Asset
get_debt o = record { amount = o.debt; asset_id = debt_type o }

unfoldable pub update_call_price : Fc → CallOrder → Option CallOrder
update_call_price fc o = do
  price ← call_price fc (get_debt o) (get_collateral o) o.maintenance_collateral_ratio
  some (record o { call_price = price })

pub record ForceSettlement : Type 0 where
  pub owner : ℕ
  pub balance : Asset
  pub settlement_date : ℕ

-- The market with the call orders, the forced settlements, and `current_supply` of each asset's
-- dynamic data.
pub record Debts : Type 0 where
  pub market : Market
  pub calls : Map CallOrder
  pub settlements : Map ForceSettlement
  pub current_supply : ℕ → ℤ

-- `std::min` of two assets
abbrev pub asset_min : Asset → Asset → Asset
asset_min a b = if asset_lt b a then b else a

-- An order without debt frees its collateral.
unfoldable pub close_call : CallOrder → CallOrder × Option Asset
close_call o =
    if eqb_ℤ o.debt (pos 0)
    then (record o { collateral = pos 0 }, some (get_collateral o))
    else (o, none)

-- The change of the order, and the collateral that it frees
unfoldable pub reduce_call : Fc → CallOrder → Asset → Asset → Option (CallOrder × Option Asset)
reduce_call fc o pays receives = do
  debt ← fc.safe_sub o.debt receives.amount
  collateral ← fc.safe_sub o.collateral pays.amount
  some (close_call (record o { debt = debt; collateral = collateral }))

-- `if( collateral_freed && collateral_freed->amount > 0 ) b.total_core_in_orders -= …;`
unfoldable pub release_freed : Fc → ℕ → Asset → Market → Option Market
release_freed fc account freed m =
    if ltb_ℤ (pos 0) freed.amount
    then (do
      rest ← fc.safe_sub (m.core_in_orders account) freed.amount
      some (record m { core_in_orders = put m.core_in_orders account rest }))
    else some m

-- The freed collateral goes back to the borrower.
unfoldable pub return_collateral : Fc → ℕ → Option Asset → Market → Option Market
return_collateral fc account none m = some m
return_collateral fc account (some freed) m = do
  balances ← adjust_balance fc account freed m.balances
  release_freed fc account freed (record m { balances = balances })

abbrev pub is_valid : Option Asset → Bool
is_valid none = false
is_valid (some freed) = true

abbrev pub keep_call : ℕ → CallOrder → Option Asset → Map CallOrder → Map CallOrder
keep_call id o none calls = insert id o calls
keep_call id o (some freed) calls = erase id calls

unfoldable pub fill_call : Fc → ℕ → Asset → Asset → Debts → Option (Debts × Bool)
fill_call fc id pays receives d = do
  o ← find id d.calls
  (o', freed) ← reduce_call fc o pays receives
  supply ← fc.safe_sub (d.current_supply receives.asset_id) receives.amount
  m ← return_collateral fc o.borrower freed d.market
  m' ← release_core fc o.borrower pays m
  some (
    record d {
      market = record m' {
        applied =
            record {
              order_id = id;
              account_id = o.borrower;
              pays = pays;
              receives = receives;
              fee = record { amount = pos 0; asset_id = pays.asset_id };
            }
            ∷ m'.applied;
      };
      calls = keep_call id o' freed d.calls;
      current_supply = put d.current_supply receives.asset_id supply;
    },
    is_valid freed,
  )

-- `true` says that the settlement is removed.
unfoldable pub reduce_settlement :
    Fc → ℕ → ForceSettlement → Asset → Map ForceSettlement → Option (Map ForceSettlement × Bool)
reduce_settlement fc id s pays settlements =
    if asset_lt pays s.balance
    then (do
      balance ← asset_sub fc s.balance pays
      some (insert id (record s { balance = balance }) settlements, false))
    else some (erase id settlements, true)

unfoldable pub fill_settlement : Fc → ℕ → Asset → Asset → Debts → Option (Debts × Bool)
fill_settlement fc id pays receives d = do
  s ← find id d.settlements
  options ← d.market.assets receives.asset_id
  (m, fee) ← pay_market_fees fc options receives d.market
  (settlements, filled) ← reduce_settlement fc id s pays d.settlements
  net ← asset_sub fc receives fee
  balances ← adjust_balance fc s.owner net m.balances
  some (
    record d {
      market = record m {
        balances = balances;
        applied =
            record {
              order_id = id;
              account_id = s.owner;
              pays = pays;
              receives = receives;
              fee = fee;
            }
            ∷ m.applied;
      };
      settlements = settlements;
    },
    filled,
  )

-- `match` of a call order and a forced settlement, with the amount that is settled
unfoldable pub match_settlement : Fc → ℕ → ℕ → Price → Asset → Debts → Option (Debts × Asset)
match_settlement fc call_id settle_id match_price max_settlement d = do
  call ← find call_id d.calls
  settle ← find settle_id d.settlements
  let settle_for_sale = asset_min settle.balance max_settlement
  let call_receives = asset_min settle_for_sale (get_debt call)
  call_pays ← exchange fc call_receives match_price
  first ← fill_call fc call_id call_pays call_receives d
  second ← fill_settlement fc settle_id call_receives call_pays first.0
  some (second.0, call_receives)
