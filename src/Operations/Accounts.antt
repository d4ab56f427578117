-- ===== src/Operations/Accounts.antt =====
-- The operations on keys, accounts, delegates and witnesses, with `validate`: libraries/chain, operations.hpp and
-- operations.cpp.
use bitshares_toolkit.Common.{
  ℕ, ◌+◌, Bool, ◌||◌, not, Option, List, ◌∷◌, ltb, leb, ◌==◌, if◌then◌else◌, ◌>>◌, fc_assert,
  fc_assert_if, length,
}
use bitshares_toolkit.Common.Int.{ℤ}
use bitshares_toolkit.Asset.{Asset}
use bitshares_toolkit.Names.{slash, is_valid_name}
use bitshares_toolkit.Operations.{nonneg, is_set, member, AuthSets}
use bitshares_toolkit.Operations.Options.{Authority, KeyData, key_is_set}

-- `name.find( '/' ) != string::npos`
abbrev pub has_slash : List ℕ → Bool
has_slash s = member slash s

pub record KeyCreateOperation : Type 0 where
  pub fee : Asset
  pub fee_paying_account : ℕ
  pub key_data : KeyData

unfoldable pub key_create_validate : KeyCreateOperation → Option (Unit {0})
key_create_validate op = do fc_assert (nonneg op.fee.amount); fc_assert (key_is_set op.key_data)

pub record AccountCreateOperation : Type 0 where
  pub fee : Asset
  pub registrar : ℕ
  pub referrer : ℕ
  pub referrer_percent : ℕ
  pub name : List ℕ
  pub owner : Authority
  pub active : Authority
  pub voting_account : ℕ
  pub memo_key : ℕ
  pub num_witness : ℕ
  pub num_committee : ℕ
  pub vote : List ℕ

unfoldable pub account_create_validate : AccountCreateOperation → Option (Unit {0})
account_create_validate op = do
  fc_assert (nonneg op.fee.amount)
  fc_assert (is_valid_name op.name)
  fc_assert (leb 0 op.referrer_percent)
  fc_assert (leb op.referrer_percent 100)
  fc_assert (ltb 0 (length op.owner.auths))
  fc_assert_if (has_slash op.name) (op.owner.weight_threshold == 1)
  fc_assert_if (has_slash op.name) (length op.owner.auths == 1)
  fc_assert (leb op.num_witness (op.num_witness + op.num_committee))
  fc_assert (leb (op.num_witness + op.num_committee) (length op.vote))

pub record AccountWhitelistOperation : Type 0 where
  pub fee : Asset
  pub authorizing_account : ℕ
  pub account_to_list : ℕ
  pub new_listing : ℕ

unfoldable pub account_whitelist_validate : AccountWhitelistOperation → Option (Unit {0})
account_whitelist_validate op = do
  fc_assert (nonneg op.fee.amount)
  fc_assert (ltb op.new_listing 4)

pub record AccountUpdateOperation : Type 0 where
  pub fee : Asset
  pub account : ℕ
  pub owner : Option Authority
  pub active : Option Authority
  pub voting_account : Option ℕ
  pub memo_key : Option ℕ
  pub vote : Option (List ℕ)
  pub num_witness : ℕ
  pub num_committee : ℕ
  pub upgrade_to_prime : Bool

unfoldable pub account_update_validate : AccountUpdateOperation → Option (Unit {0})
account_update_validate op = do
  fc_assert (nonneg op.fee.amount)
  fc_assert (not (op.account == 0))
  fc_assert (
      is_set op.owner
      || is_set op.active
      || is_set op.voting_account
      || is_set op.memo_key
      || is_set op.vote
      || op.upgrade_to_prime)

pub record DelegateCreateOperation : Type 0 where
  pub fee : Asset
  pub delegate_account : ℕ

unfoldable pub delegate_create_validate : DelegateCreateOperation → Option (Unit {0})
delegate_create_validate op = do fc_assert (nonneg op.fee.amount)

pub record AccountTransferOperation : Type 0 where
  pub fee : Asset
  pub account_id : ℕ
  pub new_owner : ℕ

unfoldable pub account_transfer_validate : AccountTransferOperation → Option (Unit {0})
account_transfer_validate op = do fc_assert (nonneg op.fee.amount)

pub record WitnessCreateOperation : Type 0 where
  pub fee : Asset
  pub witness_account : ℕ
  pub block_signing_key : ℕ
  pub initial_secret : ℕ

unfoldable pub witness_create_validate : WitnessCreateOperation → Option (Unit {0})
witness_create_validate op = do fc_assert (nonneg op.fee.amount)

pub record WitnessWithdrawPayOperation : Type 0 where
  pub fee : Asset
  pub to_account : ℕ
  pub from_witness : ℕ
  pub amount : ℤ

unfoldable pub witness_withdraw_pay_validate : WitnessWithdrawPayOperation → Option (Unit {0})
witness_withdraw_pay_validate op = do fc_assert (nonneg op.fee.amount); fc_assert (nonneg op.amount)

unfoldable pub account_update_auth : AccountUpdateOperation → AuthSets → AuthSets
account_update_auth op sets =
    if is_set op.owner || is_set op.active
    then record sets { owner = op.account ∷ sets.owner }
    else record sets { active = op.account ∷ sets.active }
