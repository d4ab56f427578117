-- ===== src/Matching/Debts/Settling.antt =====
-- The loop over one forced settlement in `clear_expired_orders` of libraries/chain/database.cpp: it is
-- matched with the least collateralized call order until it is done or the maximum is reached.
use bitshares_toolkit.Common.{
  ℕ, zero, suc, ltb, Bool, ◌&&◌, ◌||◌, not, Option, none, some, [], ◌∷◌, if◌then◌else◌, ◌>>=◌,
}
use bitshares_toolkit.Common.Maps.{Map, contains}
use bitshares_toolkit.Fc.{Fc}
use bitshares_toolkit.Asset.{Asset, Price, asset_lt, asset_add, asset_sub, price_lt}
use bitshares_toolkit.Matching.Debts.{CallOrder, Debts, get_collateral, get_debt, match_settlement}

-- `collateralization()`, without its check that the two assets differ
abbrev pub collateralization : CallOrder → Price
collateralization o = record { base = get_collateral o; quote = get_debt o }

-- The order of the index by_collateral: by collateralization, then by id
abbrev pub before_call : Fc → ℕ × CallOrder → ℕ × CallOrder → Bool
before_call fc a b =
    price_lt fc (collateralization a.1) (collateralization b.1)
    || (not (price_lt fc (collateralization b.1) (collateralization a.1)) && ltb a.0 b.0)

abbrev pub first_call : Fc → ℕ × CallOrder → Option (ℕ × CallOrder) → Option (ℕ × CallOrder)
first_call fc a none = some a
first_call fc a (some b) = if before_call fc a b then some a else some b

-- `call_index.lower_bound( price )`
abbrev pub lower_bound : Fc → Price → Map CallOrder → Option (ℕ × CallOrder)
lower_bound fc least [] = none
lower_bound fc least (e ∷ calls) =
    let rest = lower_bound fc least calls in
    if price_lt fc (collateralization e.1) least then rest else first_call fc e rest

-- One round: the debts and what has been settled
unfoldable pub settle_step : Fc → Price → ℕ → Price → Asset → Debts → Asset → Option (Debts × Asset)
settle_step fc least id settlement_price max_volume d settled = do
  call ← lower_bound fc least d.calls
  max_settlement ← asset_sub fc max_volume settled
  matched ← match_settlement fc call.0 id settlement_price max_settlement d
  more ← asset_add fc settled matched.1
  some (matched.0, more)

-- The condition of the loop
abbrev pub goes_on : ℕ → Asset → Debts → Asset → Bool
goes_on id max_volume d settled = asset_lt settled max_volume && contains id d.settlements

-- The rounds on fuel; `some none` is a round that throws, and `none` says that the fuel is used up.
unfoldable pub settle_loop :
    Fc → Price → ℕ → Price → Asset → ℕ → Debts → Asset → Option (Option (Debts × Asset))
settle_loop fc least id settlement_price max_volume zero d settled =
    if goes_on id max_volume d settled then none else some (some (d, settled))
settle_loop fc least id settlement_price max_volume (suc fuel) d settled =
    if goes_on id max_volume d settled
    then elim (settle_step fc least id settlement_price max_volume d settled) [
      | none ↦ some none
      | some r ↦ settle_loop fc least id settlement_price max_volume fuel r.0 r.1
    ]
    else some (some (d, settled))
