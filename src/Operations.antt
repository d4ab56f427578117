-- ===== src/Operations.antt =====
-- What the operations of libraries/chain/operations.hpp and operations.cpp share: results, the
-- balance accumulator, the sets of required authorities, and the fee schedule of types.hpp. An
-- account, an asset or another object is the number of its instance.
pub mod Options
pub mod Accounts
pub mod Assets
pub mod Market
pub mod Permissions
pub mod Lending
pub mod Governance
pub mod Fees
pub mod Union
pub mod RequiredAuth
pub mod Validate
pub mod CalculateFee
pub mod BalanceDelta
pub mod Validation
pub mod Authorities
pub mod Deltas
pub mod Costs
pub mod Parameters
mod Examples
use bitshares_toolkit.Common.{
  ℕ, ◌+◌, ◌*◌, ◌/◌, ◌%◌, ◌^◌, Bool, true, false, ◌&&◌, ◌||◌, not, Option, some, none, List, [], ◌∷◌,
  ltb, ◌==◌, if◌then◌else◌, ◌>>=◌, ◌>>◌, fc_assert,
}
use bitshares_toolkit.Common.Int.{ℤ, pos, ltb_ℤ, leb_ℤ}
use bitshares_toolkit.Common.Maps.{Map}
use bitshares_toolkit.Fc.{Fc}
use bitshares_toolkit.Asset.{Asset}

abbrev pub nonneg : ℤ → Bool
nonneg a = leb_ℤ (pos 0) a

abbrev pub positive : ℤ → Bool
positive a = ltb_ℤ (pos 0) a

-- An amount of the core asset, as a share amount converts to one.
abbrev pub core : ℤ → Asset
core a = record { amount = a; asset_id = 0 }

-- `optional::valid`
abbrev pub is_set {ℓ} : {A : Type ℓ} → Option A → Bool
is_set none = false
is_set (some _) = true

abbrev pub is_empty : List ℕ → Bool
is_empty [] = true
is_empty (x ∷ s) = false

abbrev pub member : ℕ → List ℕ → Bool
member x [] = false
member x (y ∷ s) = x == y || member x s

-- The loop that looks for each element of `s` in `t`.
abbrev pub disjoint : List ℕ → List ℕ → Bool
disjoint [] t = true
disjoint (x ∷ s) t = not (member x t) && disjoint s t

-- `operation_result`
pub data OperationResult : Type 0 where
  void_result : OperationResult
  object_result : ℕ → OperationResult
  asset_result : Asset → OperationResult

-- `result.get<asset>()`
abbrev pub get_asset : OperationResult → Option Asset
get_asset (asset_result a) = some a
get_asset void_result = none
get_asset (object_result _) = none

-- One entry of the `flat_map` of a `balance_accumulator`.
pub record BalanceEntry : Type 0 where
  pub account : ℕ
  pub asset_id : ℕ
  pub balance : ℤ

abbrev pub BalanceAccumulator : Type 0
BalanceAccumulator = List BalanceEntry

-- `balance_accumulator::adjust`; a missing entry is made with the amount 0.
unfoldable pub adjust : Fc → ℕ → Asset → BalanceAccumulator → Option BalanceAccumulator
adjust fc account delta [] = do
  v ← fc.safe_add (pos 0) delta.amount
  some (record { account = account; asset_id = delta.asset_id; balance = v } ∷ [])
adjust fc account delta (e ∷ acc) =
    let rest = adjust fc account delta acc in
    if account == e.account && delta.asset_id == e.asset_id
    then (do v ← fc.safe_add e.balance delta.amount; some (record e { balance = v } ∷ acc))
    else (do r ← rest; some (e ∷ r))

-- `-a` of an asset
abbrev pub negate : Fc → Asset → Option Asset
negate fc a = do v ← fc.safe_neg a.amount; some (record a { amount = v })

-- `acc.adjust( account, -delta )`
unfoldable pub adjust_neg : Fc → ℕ → Asset → BalanceAccumulator → Option BalanceAccumulator
unfolding adjust
adjust_neg fc account delta acc = do d ← negate fc delta; adjust fc account d acc

-- The two sets that `get_required_auth` fills, each by its members.
pub record AuthSets : Type 0 where
  pub active : List ℕ
  pub owner : List ℕ

-- `for( auto id : ids ) set.insert( id );`
abbrev pub insert_all : List ℕ → List ℕ → List ℕ
insert_all [] set = set
insert_all (x ∷ ids) set = insert_all ids (x ∷ set)

-- `uint32_t` fees, one for each `fee_type` by its number.
abbrev pub FeeSchedule : Type 0
FeeSchedule = ℕ → ℕ

abbrev pub fee_type_count : ℕ
fee_type_count = 38

-- `fee_schedule_type::at`
unfoldable pub fee_at : FeeSchedule → ℕ → Option ℤ
fee_at k f = do fc_assert (ltb f fee_type_count); some (pos (k f))

pub record MemoData : Type 0 where
  pub from : ℕ
  pub to : ℕ
  pub nonce : ℕ
  pub message : List ℕ
