-- ===== src/Matching/Debts/Updates.antt =====
-- `call_order_update_evaluator` of libraries/chain/short_order_evaluator.cpp: an account covers a part
-- of the debt of its call order, or all of it, and changes the collateral. A `none` is a failed check
-- or an overflow.
use bitshares_toolkit.Common.{
  ℕ, ◌==◌, ltb, Bool, true, false, ◌&&◌, ◌||◌, Option, none, some, [], ◌∷◌, if◌then◌else◌, ◌>>=◌,
  ◌>>◌, fc_assert,
}
use bitshares_toolkit.Common.Int.{ℤ, pos, ltb_ℤ, leb_ℤ, eqb_ℤ}
use bitshares_toolkit.Common.Maps.{Map, insert, erase}
use bitshares_toolkit.Fc.{Fc}
use bitshares_toolkit.Asset.{
  Asset, PriceFeed, asset_lt, asset_ge, asset_add, asset_sub, exchange, call_price,
}
use bitshares_toolkit.Operations.{negate}
use bitshares_toolkit.Operations.Options.{BitassetOptions}
use bitshares_toolkit.Operations.Market.{CallOrderUpdateOperation}
use bitshares_toolkit.Transfers.{get_balance, adjust_balance}
use bitshares_toolkit.Matching.{Market, put}
use bitshares_toolkit.Matching.Debts.{
  CallOrder, Debts, get_collateral, get_debt, debt_type, update_call_price,
}

-- The fields of `asset_bitasset_data_object` that the evaluator reads
pub record CallBitasset : Type 0 where
  pub short_backing_asset : ℕ
  pub options : BitassetOptions
  pub current_feed : PriceFeed

-- `find` in the index by_account
abbrev pub find_call : ℕ → ℕ → Map CallOrder → Option (ℕ × CallOrder)
find_call account debt [] = none
find_call account debt (e ∷ calls) =
    let rest = find_call account debt calls in
    if (account == e.1.borrower) && (debt == debt_type e.1) then some e else rest

abbrev pub ratio_or : ℕ → CallOrder → ℕ
ratio_or ratio call = if ratio == 0 then call.maintenance_collateral_ratio else ratio

-- The checks of the collateral and the ratio, in a prediction market and in another one
unfoldable pub check_terms : Fc → CallBitasset → CallOrderUpdateOperation → Option (Unit {0})
check_terms fc b op =
    if b.options.prediction_market
    then (do
      fc_assert (leb_ℤ op.collateral_to_add.amount (pos 0))
      taken ← negate fc op.collateral_to_add
      fc_assert (eqb_ℤ taken.amount op.amount_to_cover.amount)
      fc_assert (op.maintenance_collateral_ratio == 0))
    else fc_assert (
        (op.maintenance_collateral_ratio == 0)
        || ltb b.current_feed.required_maintenance_collateral op.maintenance_collateral_ratio)

-- The order that is left must not be called at once.
unfoldable pub check_rest : Fc → CallOrder → CallOrderUpdateOperation → Option Bool
check_rest fc call op = do
  debt ← asset_sub fc (get_debt call) op.amount_to_cover
  collateral ← asset_add fc (get_collateral call) op.collateral_to_add
  price ← call_price fc debt collateral (ratio_or op.maintenance_collateral_ratio call)
  needed ← exchange fc debt price
  fc_assert (asset_lt needed (get_collateral call))
  fc_assert (asset_lt op.amount_to_cover (get_debt call))
  some false

-- All the collateral is taken back with the last of the debt.
unfoldable pub check_closing : Fc → CallOrder → CallOrderUpdateOperation → Option Bool
check_closing fc call op = do
  taken ← negate fc (get_collateral call)
  fc_assert (eqb_ℤ op.collateral_to_add.amount taken.amount)
  some true

-- The order that is updated, and whether it is closed. `bitassets` has the data of the assets that
-- are market issued.
unfoldable pub call_update_evaluate :
    Fc
    → (ℕ → Option CallBitasset)
    → CallOrderUpdateOperation
    → Debts
    → Option (ℕ × CallOrder × Bool)
call_update_evaluate fc bitassets op d = do
  b ← bitassets op.amount_to_cover.asset_id
  fc_assert (op.collateral_to_add.asset_id == b.short_backing_asset)
  check_terms fc b op
  covered ←
      asset_ge (get_balance d.market.balances op.funding_account op.amount_to_cover.asset_id)
        op.amount_to_cover
  fc_assert covered
  backed ←
      asset_ge (get_balance d.market.balances op.funding_account b.short_backing_asset)
        op.collateral_to_add
  fc_assert backed
  (id, call) ← find_call op.funding_account op.amount_to_cover.asset_id d.calls
  fc_assert (op.amount_to_cover.asset_id == debt_type call)
  fc_assert (leb_ℤ op.amount_to_cover.amount call.debt)
  closing ←
      if ltb_ℤ op.amount_to_cover.amount call.debt
      then check_rest fc call op
      else check_closing fc call op
  some (id, call, closing)

-- `total_core_in_orders` of the account changes by `change`, if the collateral is the core asset.
abbrev pub count_core : (ℤ → ℤ → Option ℤ) → ℕ → Asset → Market → Option Market
count_core change account collateral m =
    if collateral.asset_id == 0
    then (do
      count ← change (m.core_in_orders account) collateral.amount
      some (record m { core_in_orders = put m.core_in_orders account count }))
    else some m

unfoldable pub close_debt : Fc → ℕ → ℕ → CallOrder → Debts → Option Debts
close_debt fc account id call d = do
  balances ← adjust_balance fc account (get_collateral call) d.market.balances
  m ← count_core fc.safe_sub account (get_collateral call) (record d.market { balances = balances })
  some (record d { market = m; calls = erase id d.calls })

-- `if( o.collateral_to_add.amount > 0 ) d.adjust_balance( …, -o.collateral_to_add );`
unfoldable pub take_collateral : Fc → ℕ → Asset → Market → Option Market
take_collateral fc account collateral m =
    if ltb_ℤ (pos 0) collateral.amount
    then (do
      debit ← negate fc collateral
      balances ← adjust_balance fc account debit m.balances
      some (record m { balances = balances }))
    else some m

unfoldable pub change_call : Fc → CallOrder → CallOrderUpdateOperation → Option CallOrder
change_call fc call op = do
  debt ← fc.safe_sub call.debt op.amount_to_cover.amount
  collateral ← fc.safe_add call.collateral op.collateral_to_add.amount
  update_call_price fc (record call {
    debt = debt;
    collateral = collateral;
    maintenance_collateral_ratio = ratio_or op.maintenance_collateral_ratio call;
  })

unfoldable pub change_debt : Fc → CallOrderUpdateOperation → ℕ → CallOrder → Debts → Option Debts
change_debt fc op id call d = do
  o ← change_call fc call op
  m ← take_collateral fc op.funding_account op.collateral_to_add d.market
  m' ← count_core fc.safe_add op.funding_account op.collateral_to_add m
  some (record d { market = m'; calls = insert id o d.calls })

-- The debt is paid and taken out of the supply.
unfoldable pub pay_debt : Fc → CallOrderUpdateOperation → Debts → Option Debts
pay_debt fc op d = do
  debit ← negate fc op.amount_to_cover
  balances ← adjust_balance fc op.funding_account debit d.market.balances
  supply ← fc.safe_sub (d.current_supply op.amount_to_cover.asset_id) op.amount_to_cover.amount
  some (record d {
    market = record d.market { balances = balances };
    current_supply = put d.current_supply op.amount_to_cover.asset_id supply;
  })

unfoldable pub call_update_apply :
    Fc → CallOrderUpdateOperation → ℕ × CallOrder × Bool → Debts → Option Debts
call_update_apply fc op (id, call, closing) d = do
  paid ← pay_debt fc op d
  if closing then close_debt fc op.funding_account id call paid else change_debt fc op id call paid
