-- ===== src/Transfers.antt =====
-- Account balances, `get_balance` and `adjust_balance` of libraries/chain/database.cpp, and the transfer
-- evaluator of libraries/chain/transfer_evaluator.cpp. The objects that an evaluator looks up are
-- arguments; a failed assertion and an overflow are `none`.
pub mod Adjusting
pub mod Balances
pub mod Checks
pub mod Moves
mod Examples
use bitshares_toolkit.Common.{
  ℕ, ◌==◌, Bool, true, false, ◌&&◌, ◌||◌, not, Option, none, some, List, [], ◌∷◌, if◌then◌else◌,
  ◌>>=◌, ◌>>◌, fc_assert, fc_assert_if,
}
use bitshares_toolkit.Common.Int.{ℤ, pos, ltb_ℤ, eqb_ℤ}
use bitshares_toolkit.Fc.{Fc}
use bitshares_toolkit.Asset.{Asset, asset_ge}
use bitshares_toolkit.Operations.{negate, member}
use bitshares_toolkit.Operations.Options.{has_any, white_list, transfer_restricted}

pub record AccountBalance : Type 0 where
  pub owner : ℕ
  pub asset_type : ℕ
  pub balance : ℤ

abbrev pub has_key : ℕ → ℕ → AccountBalance → Bool
has_key account asset b = (account == b.owner) && (asset == b.asset_type)

-- `index.find( make_tuple( owner, asset_id ) )` of the index by_balance
abbrev pub find_balance : ℕ → ℕ → List AccountBalance → Option ℤ
find_balance owner asset [] = none
find_balance owner asset (b ∷ bs) =
    let rest = find_balance owner asset bs in if has_key owner asset b then some b.balance else rest

unfoldable pub get_balance : List AccountBalance → ℕ → ℕ → Asset
get_balance bs owner asset = elim (find_balance owner asset bs) [
  | none ↦ record { amount = pos 0; asset_id = asset }
  | some balance ↦ record { amount = balance; asset_id = asset }
]

-- `modify` of the balance object with the key
abbrev pub set_balance : ℕ → ℕ → ℤ → List AccountBalance → List AccountBalance
set_balance owner asset v [] = []
set_balance owner asset v (b ∷ bs) =
    let rest = set_balance owner asset v bs in
    if has_key owner asset b then record b { balance = v } ∷ bs else b ∷ rest

-- `delta.amount > 0 || itr->get_balance() >= -delta`
abbrev pub covers : Fc → ℤ → Asset → Option Bool
covers fc balance delta = if ltb_ℤ (pos 0) delta.amount then some true else do
  cost ← negate fc delta
  asset_ge (record { amount = balance; asset_id = delta.asset_id }) cost

-- The two arms: no balance object, and one with this balance.
abbrev pub adjust_found :
    Fc → ℕ → Asset → List AccountBalance → Option ℤ → Option (List AccountBalance)
adjust_found fc account delta bs none = do
  fc_assert (ltb_ℤ (pos 0) delta.amount)
  some (record { owner = account; asset_type = delta.asset_id; balance = delta.amount } ∷ bs)
adjust_found fc account delta bs (some balance) = do
  enough ← covers fc balance delta
  fc_assert enough
  sum ← fc.safe_add balance delta.amount
  some (set_balance account delta.asset_id sum bs)

unfoldable pub adjust_balance : Fc → ℕ → Asset → List AccountBalance → Option (List AccountBalance)
adjust_balance fc account delta bs =
    if eqb_ℤ delta.amount (pos 0)
    then some bs
    else adjust_found fc account delta bs (find_balance account delta.asset_id bs)

-- What the evaluator reads of an `account_object` and of an `asset_object`.
pub record Party : Type 0 where
  pub id : ℕ
  pub whitelisting_accounts : List ℕ
  pub blacklisting_accounts : List ℕ

pub record AssetObject : Type 0 where
  pub id : ℕ
  pub issuer : ℕ
  pub flags : ℕ
  pub whitelist_authorities : List ℕ
  pub blacklist_authorities : List ℕ

-- One of the accounts is in the set: a loop of `is_authorized_asset`.
abbrev pub any_member : List ℕ → List ℕ → Bool
any_member [] set = false
any_member (id ∷ ids) set = member id set || any_member ids set

unfoldable pub is_authorized_asset : Party → AssetObject → Bool
is_authorized_asset account asset =
    if any_member account.blacklisting_accounts asset.blacklist_authorities
    then false
    else any_member account.whitelisting_accounts asset.whitelist_authorities

-- `transfer_evaluator::do_evaluate`; the second check of the whitelist reads the asset that is
-- transferred, as the code does.
unfoldable pub transfer_evaluate :
    Party → Party → AssetObject → AssetObject → Asset → List AccountBalance → Option (Unit {0})
transfer_evaluate from to asset fee_asset amount bs = do
  fc_assert_if (has_any asset.flags white_list) (is_authorized_asset to asset)
  fc_assert_if (has_any asset.flags white_list) (is_authorized_asset from asset)
  fc_assert_if (has_any fee_asset.flags white_list) (is_authorized_asset from asset)
  fc_assert_if (has_any asset.flags transfer_restricted)
      ((from.id == asset.issuer) || (to.id == asset.issuer))
  enough ← asset_ge (get_balance bs from.id asset.id) amount
  fc_assert enough

-- `transfer_evaluator::do_apply`
unfoldable pub transfer_apply :
    Fc → ℕ → ℕ → Asset → List AccountBalance → Option (List AccountBalance)
transfer_apply fc from to amount bs = do
  debit ← negate fc amount
  debited ← adjust_balance fc from debit bs
  adjust_balance fc to amount debited
