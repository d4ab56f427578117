-- ===== src/Transfers/Checks.antt =====
-- What the evaluation of a transfer has checked.
use bitshares_toolkit.Common.{
  Bool, ◌>>=◌, ◌>>◌, ◌||◌, fc_assert, fc_assert_if, ℕ, ◌==◌, ◌≡◌, sym, ◌∙◌, true, Option, none,
  some, List, arith, ◌⊎◌,
}
use bitshares_toolkit.Common.Int.{◌≤ℤ◌}
use bitshares_toolkit.Asset.{Asset, asset_ge}
use bitshares_toolkit.Transfers.{
  AccountBalance, get_balance, Party, AssetObject, transfer_evaluate, is_authorized_asset,
}
use bitshares_toolkit.Operations.Options.{has_any, white_list, transfer_restricted}
use bitshares_toolkit.Transfers.Balances.{amount_of}

-- The checks, for any outcome of their tests.
checks-hold :
    (w f r to_listed from_listed party : Bool) (covered : Option Bool)
    → (do
      fc_assert_if w to_listed
      fc_assert_if w from_listed
      fc_assert_if f from_listed
      fc_assert_if r party
      enough ← covered
      fc_assert enough)
      ≡ some tt
    → (w ≡ true → (to_listed ≡ true) × (from_listed ≡ true))
      × (r ≡ true → party ≡ true)
      × (covered ≡ some true)
checks-hold w f r to_listed from_listed party none h = ground (arith, h)
checks-hold w f r to_listed from_listed party (some b) h = ground (arith, h)

pub get_balance-asset_id : (bs : List AccountBalance) (o x : ℕ) → (get_balance bs o x).asset_id ≡ x
unfolding get_balance
get_balance-asset_id bs o x = ground arith

pub asset_ge-true :
    (a b : Asset) → asset_ge a b ≡ some true → (a.asset_id ≡ b.asset_id) × (b.amount ≤ℤ a.amount)
unfolding asset_ge
asset_ge-true a b h = ground (arith, h)

either_equal : (a b c : ℕ) → ((a == c) || (b == c)) ≡ true → (a ≡ c) ⊎ (b ≡ c)
either_equal a b c h = ground (arith, h)

-- An accepted transfer of an asset with a whitelist has both parties authorized, one of a restricted
-- asset has the issuer for a party, the amount is in the asset that was looked up, and it is at most
-- the balance of the sender.
pub transfer_evaluate-Allowed :
    (from to : Party) (asset fee_asset : AssetObject) (amount : Asset) (bs : List AccountBalance)
    → transfer_evaluate from to asset fee_asset amount bs ≡ some tt
    → (has_any asset.flags white_list ≡ true
        → (is_authorized_asset to asset ≡ true) × (is_authorized_asset from asset ≡ true))
      × (has_any asset.flags transfer_restricted ≡ true
          → (from.id ≡ asset.issuer) ⊎ (to.id ≡ asset.issuer))
      × (asset.id ≡ amount.asset_id)
      × (amount.amount ≤ℤ amount_of bs from.id asset.id)
unfolding transfer_evaluate
transfer_evaluate-Allowed from to asset fee_asset amount bs h =
    let (listed, party, covered) =
      checks-hold (has_any asset.flags white_list) (has_any fee_asset.flags white_list)
        (has_any asset.flags transfer_restricted) (is_authorized_asset to asset)
        (is_authorized_asset from asset) ((from.id == asset.issuer) || (to.id == asset.issuer))
        (asset_ge (get_balance bs from.id asset.id) amount) h in
    let (same, low) = asset_ge-true (get_balance bs from.id asset.id) amount covered in
    (
      listed,
      λ restricted. either_equal from.id to.id asset.issuer (party restricted),
      sym (get_balance-asset_id bs from.id asset.id) ∙ same,
      low,
    )
