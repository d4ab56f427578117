-- ===== src/Transfers/Examples.antt =====
-- Transfers at concrete values.
use bitshares_toolkit.Common.{
  ℕ, ◌+◌, ◌-◌, ◌==◌, ◌≡◌, refl, ◌&&◌, some, List, [], ◌∷◌, arith, if◌then◌else◌,
}
use bitshares_toolkit.Common.Int.{pos}
use bitshares_toolkit.Fc.Native.{native_fc}
use bitshares_toolkit.Asset.{asset_ge}
use bitshares_toolkit.Transfers.{
  AccountBalance, Party, AssetObject, get_balance, is_authorized_asset, transfer_evaluate,
  transfer_apply,
}
use bitshares_toolkit.Transfers.Balances.{amount_of}
use bitshares_toolkit.Transfers.Moves.{transfer_moves}

-- Account 11 is whitelisted by account 5; asset 3 consults that list and must pass the issuer.
abbrev alice : Party
alice = record { id = 11; whitelisting_accounts = 5 ∷ []; blacklisting_accounts = [] }

abbrev issuer_7 : Party
issuer_7 = record { id = 7; whitelisting_accounts = 4 ∷ 5 ∷ []; blacklisting_accounts = 9 ∷ [] }

abbrev asset_3 : AssetObject
asset_3 = record {
  id = 3;
  issuer = 7;
  flags = 18;
  whitelist_authorities = 5 ∷ [];
  blacklist_authorities = 6 ∷ [];
}

abbrev core : AssetObject
core = record {
  id = 0;
  issuer = 1;
  flags = 0;
  whitelist_authorities = [];
  blacklist_authorities = [];
}

abbrev balances : List AccountBalance
balances =
    record { owner = 11; asset_type = 0; balance = pos 900 }
    ∷ record { owner = 11; asset_type = 3; balance = pos 50 }
    ∷ []

alice_pays :
    transfer_evaluate alice issuer_7 asset_3 core
      (record { amount = pos 20; asset_id = 3 })
      balances
    ≡ some tt
unfolding transfer_evaluate asset_ge get_balance is_authorized_asset
alice_pays = refl

alice_has : amount_of balances 11 3 ≡ pos 50
unfolding get_balance
alice_has = refl

issuer_has : amount_of balances 7 3 ≡ pos 0
unfolding get_balance
issuer_has = refl

transfer_moves_example :
    (after : List AccountBalance) × (transfer_apply native_fc 11 7
        (record { amount = pos 20; asset_id = 3 })
        balances
      ≡ some after)
    × ((o i : ℕ)
        → amount_of after o i ≡ (
            if (o == 11) && (i == 3)
            then pos (50 - 20)
            else if (o == 7) && (i == 3)
            then pos (0 + 20)
            else amount_of balances o i))
transfer_moves_example =
    transfer_moves native_fc alice issuer_7 asset_3 core 20 50 0 balances (omega arith)
      (omega arith) (omega arith) (omega arith) alice_has issuer_has alice_pays
