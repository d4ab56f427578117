-- ===== src/Authority/Examples.antt =====
-- An account whose authority names another account and a key, checked against a signature.
use bitshares_toolkit.Common.{
  ℕ, ◌≡◌, refl, ◌==◌, true, false, Option, some, none, [], ◌∷◌, if◌then◌else◌, arith,
}
use bitshares_toolkit.Operations.Options.{Authority}
use bitshares_toolkit.Authority.{
  active, key, AccountObject, AuthItem, account_item, key_item, EvaluationState, ApprovedBy,
  max_sig_check_depth, check_authority, check_account, check_auths, check_item, settle, is_approved,
  signed_by,
}
use bitshares_toolkit.Authority.Completeness.{Accepts, signed_keys_suffice}
use bitshares_toolkit.Authority.Soundness.{Supports, check_authority_sound}

-- Account 2 with the key 3; account 1 with account 2 and the key 3, both required.
abbrev by_key : Authority
by_key = record { weight_threshold = 1; auths = (3, 1) ∷ [] }

abbrev by_both : Authority
by_both = record { weight_threshold = 2; auths = (2, 1) ∷ (3, 1) ∷ [] }

abbrev friend : AccountObject
friend = record { id = 2; owner = by_key; active = by_key }

abbrev alice : AccountObject
alice = record { id = 1; owner = by_both; active = by_both }

abbrev objects : ℕ → Option AuthItem
objects = λ id.
    if id == 1
    then some (account_item alice)
    else if id == 2
    then some (account_item friend)
    else if id == 3
    then some key_item
    else none

abbrev signed_trx : EvaluationState
signed_trx = record {
  get_object = objects;
  signatures = 3 ∷ [];
  skip_authority_check = false;
  is_proposed_trx = false;
}

objects_consistent : (id : ℕ) (a : AccountObject) → objects id ≡ some (account_item a) → a.id ≡ id
objects_consistent id a h = ground arith

abbrev approvals : ApprovedBy
approvals = (1, active) ∷ (3, key) ∷ (2, active) ∷ (2, active) ∷ (3, key) ∷ []

alice_approves :
    check_authority signed_trx active max_sig_check_depth alice [] ≡ some (true, approvals)
unfolding check_authority check_account check_auths check_item settle is_approved signed_by
alice_approves = refl

check_authority_sound_example : Supports signed_trx active 1
check_authority_sound_example =
    check_authority_sound signed_trx active objects_consistent refl max_sig_check_depth alice
      approvals refl alice_approves

signed_keys_suffice_example :
    Accepts signed_trx active (check_authority signed_trx active 0 friend [])
unfolding signed_by
signed_keys_suffice_example =
    signed_keys_suffice signed_trx active 0 friend by_key [] refl refl (refl, tt) (omega arith)
      (omega arith) (omega arith)
