-- ===== src/VestingLedger/Examples.antt =====
-- Tests of the evaluators and the conditions of their theorems at concrete inputs.
use bitshares_toolkit.Common.{ℕ, ◌≡◌, refl, true, some, none, [], ◌∷◌, arith}
use bitshares_toolkit.Common.Int.{pos, ◌+ℤ◌}
use bitshares_toolkit.Fc.Native.{native_fc}
use bitshares_toolkit.Asset.{asset_ge}
use bitshares_toolkit.Operations.Lending.{VestingBalanceCreateOperation}
use bitshares_toolkit.Transfers.{AssetObject, get_balance, adjust_balance}
use bitshares_toolkit.VestingLedger.{
  Ledger, fresh_vesting, add_vesting, vesting_create_evaluate, vesting_create_apply, in_core,
  new_cashback, deposit_cashback,
}
use bitshares_toolkit.VestingLedger.Amounts.{held, created, Step_conserves}
use bitshares_toolkit.VestingLedger.Creation.{create_needs_twice}

abbrev plain : AssetObject
plain = record {
  id = 0;
  issuer = 7;
  flags = 0;
  whitelist_authorities = [];
  blacklist_authorities = [];
}

-- The account 3 has an amount of the core asset, and no cashback.
abbrev with : ℕ → Ledger
with n = record {
  vestings = [];
  next_vesting = 5;
  balances = record { owner = 3; asset_type = 0; balance = pos n } ∷ [];
  cashback_vb = λ a. none;
  is_account = λ a. true;
  assets = λ i. some plain;
  head_block_time = 60;
  cashback_vesting_period_seconds = 1000;
}

abbrev hundred : VestingBalanceCreateOperation
hundred = record {
  fee = in_core (pos 1);
  creator = 3;
  owner = 4;
  amount = in_core (pos 100);
  vesting_seconds = 500;
}

abbrev after : Ledger
after = record (add_vesting (fresh_vesting 4 (in_core (pos 100)) 500 60) (with 250)) {
  balances = record { owner = 3; asset_type = 0; balance = pos 150 } ∷ [];
}

made : vesting_create_apply native_fc hundred (with 250) ≡ some (after, 5)
unfolding vesting_create_apply adjust_balance get_balance asset_ge ◌+ℤ◌
made = refl

Step_conserves_example : held 0 after ≡ held 0 (with 250)
Step_conserves_example =
    Step_conserves native_fc 0 (with 250) after (created (with 250) after hundred 5 refl made)

evaluated : vesting_create_evaluate hundred (with 150) ≡ some tt
unfolding vesting_create_evaluate get_balance asset_ge
evaluated = refl

owned : (get_balance (with 150).balances 3 0).amount ≡ pos 150
unfolding get_balance
owned = refl

create_needs_twice_example : vesting_create_apply native_fc hundred (with 150) ≡ none
create_needs_twice_example =
    create_needs_twice native_fc hundred 0 100 150 (with 150) refl evaluated owned (omega arith)
      (omega arith)

given : deposit_cashback native_fc 3 (pos 20) (with 150) ≡ some (new_cashback 3 (pos 20) (with 150))
unfolding deposit_cashback
given = refl
