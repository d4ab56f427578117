-- ===== src/Authority.antt =====
-- `check_authority` of libraries/chain/transaction_evaluation_state.cpp: whether the signatures of a
-- transaction satisfy an authority of an account, whose entries may be accounts themselves, to the
-- depth `BTS_MAX_SIG_CHECK_DEPTH`. The argument `depth` counts down here: at zero the source has
-- reached the maximum.
pub mod Soundness
pub mod Completeness
mod Examples
use bitshares_toolkit.Common.{
  ℕ, zero, suc, ◌+◌, ◌%◌, ◌^◌, ◌==◌, Bool, true, false, ◌&&◌, ◌||◌, not, Option, some, none, List,
  [], ◌∷◌, leb, if◌then◌else◌, ◌>>=◌, ◌>>◌, fc_assert,
}
use bitshares_toolkit.Operations.{member}
use bitshares_toolkit.Operations.Options.{Authority}

-- `BTS_MAX_SIG_CHECK_DEPTH`
abbrev pub max_sig_check_depth : ℕ
max_sig_check_depth = 2

-- `authority::classification`
pub data Classification : Type 0 where
  owner : Classification
  active : Classification
  key : Classification

abbrev pub same_class : Classification → Classification → Bool
same_class owner owner = true
same_class active active = true
same_class key key = true
same_class _ _ = false

pub record AccountObject : Type 0 where
  pub id : ℕ
  pub owner : Authority
  pub active : Authority

-- What `_db->get_object` finds, by the type of the object.
pub data AuthItem : Type 0 where
  account_item : AccountObject → AuthItem
  key_item : AuthItem
  other_item : AuthItem

-- The members of `transaction_evaluation_state` that the check reads.
pub record EvaluationState : Type 0 where
  pub get_object : ℕ → Option AuthItem
  pub signatures : List ℕ
  pub skip_authority_check : Bool
  pub is_proposed_trx : Bool

-- `approved_by`
abbrev pub ApprovedBy : Type 0
ApprovedBy = List (ℕ × Classification)

unfoldable pub is_approved : ℕ → Classification → ApprovedBy → Bool
is_approved id c [] = false
is_approved id c (e ∷ s) = (id == e.0 && same_class c e.1) || is_approved id c s

unfoldable pub signed_by : EvaluationState → ℕ → Bool
signed_by st id = member id st.signatures

-- The `switch` on `auth_class`; its default throws.
abbrev pub authority_of : AccountObject → Classification → Option Authority
authority_of a owner = some a.owner
authority_of a active = some a.active
authority_of a key = none

-- `++total_weight` on a `uint32_t`
abbrev pub add_weight : ℕ → ℕ → ℕ
add_weight total w = (total + w) % 2 ^ 32

-- A nested call, and nothing at the maximum depth.
abbrev pub Nested : Type 0
Nested = Option (AccountObject → ApprovedBy → Option (Bool × ApprovedBy))

abbrev pub Result : Type 0
Result = Option (Bool × ApprovedBy)

-- The end of a round: enough weight approves the account, else the loop goes on.
unfoldable pub settle : Bool → ℕ × Classification → ApprovedBy → Result → Result
settle true account approved rest = some (true, account ∷ approved)
settle false account approved rest = rest

module _ (st : EvaluationState) (c : Classification) where
  -- One entry that is not yet approved, by the type of its object; `go_on` ends the round with the
  -- new weight and approvals.
  unfoldable pub check_item :
      Nested → ℕ × ℕ → ℕ → ApprovedBy → (ℕ → ApprovedBy → Result) → AuthItem → Result
  check_item none auth total approved go_on (account_item a) = some (false, approved)
  check_item (some check) auth total approved go_on (account_item a) = do
    (approves, now_approved) ← check a approved
    if approves
        then go_on (add_weight total auth.1) ((a.id, c) ∷ now_approved)
        else go_on total now_approved
  check_item nested auth total approved go_on key_item =
      if signed_by st auth.0
      then go_on (add_weight total auth.1) ((auth.0, key) ∷ approved)
      else go_on total approved
  check_item nested auth total approved go_on other_item = none

  -- The loop over `au->auths`, with the weight so far.
  unfoldable pub check_auths : Nested → ℕ → ℕ → List (ℕ × ℕ) → ℕ → ApprovedBy → Result
  check_auths nested account threshold [] total approved = some (false, approved)
  check_auths nested account threshold (auth ∷ auths) total approved =
      let go_on : ℕ → ApprovedBy → Result = λ t s.
        settle (leb threshold t) (account, c) s (check_auths nested account threshold auths t s) in
      if is_approved auth.0 c approved
      then go_on (add_weight total auth.1) approved
      else st.get_object auth.0 >>= check_item nested auth total approved go_on

  -- One call, given the nested ones.
  unfoldable pub check_account : Nested → AccountObject → ApprovedBy → Option (Bool × ApprovedBy)
  check_account nested account approved =
      if st.skip_authority_check || is_approved account.id c approved
      then some (true, approved)
      else (do
        fc_assert (not (account.id % 2 ^ 48 == 0) || st.is_proposed_trx)
        au ← authority_of account c
        check_auths nested account.id au.weight_threshold au.auths 0 approved)

  unfoldable pub check_authority : ℕ → AccountObject → ApprovedBy → Option (Bool × ApprovedBy)
  check_authority zero account approved = check_account none account approved
  check_authority (suc depth) account approved =
      check_account (some (check_authority depth)) account approved
