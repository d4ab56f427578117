-- ===== src/Operations/Governance.antt =====
-- The operations on global parameters and on existing proposals, with `validate`: libraries/chain, operations.hpp and
-- operations.cpp.
use bitshares_toolkit.Common.{ℕ, Bool, ◌&&◌, not, Option, List, ◌∷◌, if◌then◌else◌, ◌>>◌, fc_assert}
use bitshares_toolkit.Asset.{Asset}
use bitshares_toolkit.Operations.{nonneg, is_empty, disjoint, AuthSets, insert_all}
use bitshares_toolkit.Operations.Options.{ChainParameters, parameters_validate}

pub record GlobalParametersUpdateOperation : Type 0 where
  pub fee : Asset
  pub new_parameters : ChainParameters

unfoldable pub global_parameters_update_validate :
    GlobalParametersUpdateOperation → Option (Unit {0})
global_parameters_update_validate op = do
  fc_assert (nonneg op.fee.amount)
  parameters_validate op.new_parameters

pub record ProposalUpdateOperation : Type 0 where
  pub fee_paying_account : ℕ
  pub fee : Asset
  pub proposal : ℕ
  pub active_approvals_to_add : List ℕ
  pub active_approvals_to_remove : List ℕ
  pub owner_approvals_to_add : List ℕ
  pub owner_approvals_to_remove : List ℕ
  pub key_approvals_to_add : List ℕ
  pub key_approvals_to_remove : List ℕ

unfoldable pub proposal_update_validate : ProposalUpdateOperation → Option (Unit {0})
proposal_update_validate op = do
  fc_assert (nonneg op.fee.amount)
  fc_assert (
      not (
        is_empty op.active_approvals_to_add
        && is_empty op.active_approvals_to_remove
        && is_empty op.owner_approvals_to_add
        && is_empty op.owner_approvals_to_remove
        && is_empty op.key_approvals_to_add
        && is_empty op.key_approvals_to_remove))
  fc_assert (disjoint op.active_approvals_to_add op.active_approvals_to_remove)
  fc_assert (disjoint op.owner_approvals_to_add op.owner_approvals_to_remove)
  fc_assert (disjoint op.key_approvals_to_add op.key_approvals_to_remove)

pub record ProposalDeleteOperation : Type 0 where
  pub fee_paying_account : ℕ
  pub using_owner_authority : Bool
  pub fee : Asset
  pub proposal : ℕ

unfoldable pub proposal_delete_validate : ProposalDeleteOperation → Option (Unit {0})
proposal_delete_validate op = do fc_assert (nonneg op.fee.amount)

unfoldable pub proposal_update_auth : ProposalUpdateOperation → AuthSets → AuthSets
proposal_update_auth op sets = record {
  active =
      insert_all op.active_approvals_to_remove
        (insert_all op.active_approvals_to_add (op.fee_paying_account ∷ sets.active));
  owner = insert_all op.owner_approvals_to_remove (insert_all op.owner_approvals_to_add sets.owner);
}

unfoldable pub proposal_delete_auth : ProposalDeleteOperation → AuthSets → AuthSets
proposal_delete_auth op sets =
    if op.using_owner_authority
    then record sets { owner = op.fee_paying_account ∷ sets.owner }
    else record sets { active = op.fee_paying_account ∷ sets.active }
