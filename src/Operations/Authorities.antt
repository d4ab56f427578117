-- ===== src/Operations/Authorities.antt =====
-- The fee payer among the required authorities, which `operation_get_required_auths` asserts in
-- debug builds.
use bitshares_toolkit.Common.{ℕ, ◌≡◌, refl, Bool, true, false, ◌||◌, List, [], ◌∷◌, arith}
use bitshares_toolkit.Operations.{AuthSets, member, insert_all}
use bitshares_toolkit.Operations.Accounts.{account_update_auth, AccountUpdateOperation}
use bitshares_toolkit.Operations.Governance.{
  proposal_update_auth, proposal_delete_auth, ProposalUpdateOperation, ProposalDeleteOperation,
}
use bitshares_toolkit.Operations.Permissions.{custom_auth, CustomOperation}
use bitshares_toolkit.Operations.Union.{
  Operation, fee_payer, transfer, limit_order_create, short_order_create, limit_order_cancel,
  short_order_cancel, call_order_update, key_create, account_create, account_update,
  account_whitelist, account_transfer, asset_create, asset_update, asset_update_bitasset,
  asset_update_feed_producers, asset_issue, asset_burn, asset_fund_fee_pool, asset_settle,
  asset_global_settle, asset_publish_feed, delegate_create, witness_create, witness_withdraw_pay,
  proposal_create, proposal_update, proposal_delete, withdraw_permission_create,
  withdraw_permission_update, withdraw_permission_claim, withdraw_permission_delete, fill_order,
  global_parameters_update, file_write, vesting_balance_create, vesting_balance_withdraw,
  bond_create_offer, bond_cancel_offer, bond_accept_offer, bond_claim_collateral, worker_create,
  custom,
}
use bitshares_toolkit.Operations.RequiredAuth.{required_auth}

abbrev pub Requires : ℕ → AuthSets → Type 0
Requires a sets = (member a sets.active || member a sets.owner) ≡ true

abbrev pub is_custom : Operation → Bool
is_custom (custom o) = true
is_custom _ = false

member-head : (x : ℕ) (s : List ℕ) → member x (x ∷ s) ≡ true
member-head x s = ground arith

member-insert_all :
    (x : ℕ) (ids s : List ℕ) → member x (insert_all ids s) ≡ (member x ids || member x s)
member-insert_all x [] s = refl
member-insert_all x (y ∷ ids) s = ground (arith, member-insert_all x ids (y ∷ s))

head_required : (a : ℕ) (sets : AuthSets) → Requires a (record sets { active = a ∷ sets.active })
head_required a sets = ground arith

account_update_auth-payer :
    (o : AccountUpdateOperation) (sets : AuthSets) → Requires o.account (account_update_auth o sets)
unfolding account_update_auth
account_update_auth-payer o sets = ground arith

proposal_update_auth-payer :
    (o : ProposalUpdateOperation) (sets : AuthSets)
    → Requires o.fee_paying_account (proposal_update_auth o sets)
unfolding proposal_update_auth
proposal_update_auth-payer o sets = ground (
  arith,
  member-insert_all o.fee_paying_account o.active_approvals_to_remove
      (insert_all o.active_approvals_to_add (o.fee_paying_account ∷ sets.active)),
  member-insert_all o.fee_paying_account o.active_approvals_to_add
      (o.fee_paying_account ∷ sets.active),
  member-head o.fee_paying_account sets.active,
)

proposal_delete_auth-payer :
    (o : ProposalDeleteOperation) (sets : AuthSets)
    → Requires o.fee_paying_account (proposal_delete_auth o sets)
unfolding proposal_delete_auth
proposal_delete_auth-payer o sets = ground arith

-- Of every operation but a custom one, the account that pays the fee is among the accounts whose active
-- or owner authority the operation requires, whatever the sets held before.
pub fee_payer_required :
    (op : Operation) (sets : AuthSets)
    → is_custom op ≡ false
    → Requires (fee_payer op) (required_auth op sets)
unfolding fee_payer required_auth
fee_payer_required (transfer o) sets h = head_required o.from sets
fee_payer_required (limit_order_create o) sets h = head_required o.seller sets
fee_payer_required (short_order_create o) sets h = head_required o.seller sets
fee_payer_required (limit_order_cancel o) sets h = head_required o.fee_paying_account sets
fee_payer_required (short_order_cancel o) sets h = head_required o.fee_paying_account sets
fee_payer_required (call_order_update o) sets h = head_required o.funding_account sets
fee_payer_required (key_create o) sets h = head_required o.fee_paying_account sets
fee_payer_required (account_create o) sets h = head_required o.registrar sets
fee_payer_required (account_update o) sets h = account_update_auth-payer o sets
fee_payer_required (account_whitelist o) sets h = head_required o.authorizing_account sets
fee_payer_required (account_transfer o) sets h = head_required o.account_id sets
fee_payer_required (asset_create o) sets h = head_required o.issuer sets
fee_payer_required (asset_update o) sets h = head_required o.issuer sets
fee_payer_required (asset_update_bitasset o) sets h = head_required o.issuer sets
fee_payer_required (asset_update_feed_producers o) sets h = head_required o.issuer sets
fee_payer_required (asset_issue o) sets h = head_required o.issuer sets
fee_payer_required (asset_burn o) sets h = head_required o.payer sets
fee_payer_required (asset_fund_fee_pool o) sets h = head_required o.from_account sets
fee_payer_required (asset_settle o) sets h = head_required o.account sets
fee_payer_required (asset_global_settle o) sets h = head_required o.issuer sets
fee_payer_required (asset_publish_feed o) sets h = head_required o.publisher sets
fee_payer_required (delegate_create o) sets h = head_required o.delegate_account sets
fee_payer_required (witness_create o) sets h = head_required o.witness_account sets
fee_payer_required (witness_withdraw_pay o) sets h = head_required o.to_account sets
fee_payer_required (proposal_create o _) sets h = head_required o.fee_paying_account sets
fee_payer_required (proposal_update o) sets h = proposal_update_auth-payer o sets
fee_payer_required (proposal_delete o) sets h = proposal_delete_auth-payer o sets
fee_payer_required (withdraw_permission_create o) sets h =
    head_required o.withdraw_from_account sets
fee_payer_required (withdraw_permission_update o) sets h =
    head_required o.withdraw_from_account sets
fee_payer_required (withdraw_permission_claim o) sets h = head_required o.withdraw_to_account sets
fee_payer_required (withdraw_permission_delete o) sets h =
    head_required o.withdraw_from_account sets
fee_payer_required (fill_order o) sets h = head_required o.account_id sets
fee_payer_required (global_parameters_update _) sets h = head_required 0 sets
fee_payer_required (file_write o) sets h = head_required o.payer sets
fee_payer_required (vesting_balance_create o) sets h = head_required o.creator sets
fee_payer_required (vesting_balance_withdraw o) sets h = head_required o.owner sets
fee_payer_required (bond_create_offer o) sets h = head_required o.creator sets
fee_payer_required (bond_cancel_offer o) sets h = head_required o.creator sets
fee_payer_required (bond_accept_offer o) sets h = head_required o.claimer sets
fee_payer_required (bond_claim_collateral o) sets h = head_required o.claimer sets
fee_payer_required (worker_create o) sets h = head_required o.owner sets
fee_payer_required (custom o) sets h = cc

-- A custom operation whose required accounts do not include its payer requires no authority of the
-- payer, who is charged the fee.
pub custom_payer_charged :
    (o : CustomOperation)
    → member o.payer o.required_auths ≡ false
    → member
        (fee_payer (custom o))
        (required_auth (custom o) (record { active = []; owner = [] })).active
      ≡ false
unfolding fee_payer required_auth custom_auth
custom_payer_charged o h = ground (arith, member-insert_all o.payer o.required_auths [])
