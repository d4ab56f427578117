-- ===== src/VestingLedger/Amounts.antt =====
-- What the account balances and the vesting balances hold together.
use bitshares_toolkit.Common.{
  ℕ, ◌==◌, ◌≡◌, refl, sym, ap, ◌∙◌, Option, some, none, ◌>>=◌, Bool-cases, inl, inr, >>=-eq-some,
  eq_of_some, ==_iff, fc_assert,
}
use bitshares_toolkit.Common.Int.{ℤ, pos, eq_of_parts, parts_of_sum, eqb_ℤ, ◌+ℤ◌, int_laws}
use bitshares_toolkit.Common.Maps.{find, insert}
use bitshares_toolkit.Fc.{Fc}
use bitshares_toolkit.Asset.{Asset, asset_ge, asset_add, asset_sub}
use bitshares_toolkit.Operations.{negate}
use bitshares_toolkit.Operations.Lending.{
  VestingBalanceCreateOperation, VestingBalanceWithdrawOperation,
}
use bitshares_toolkit.Transfers.{get_balance, adjust_balance}
use bitshares_toolkit.Vesting.{VestingBalance, context, on_withdraw, deposit, withdraw}
use bitshares_toolkit.Matching.Holdings.{
  at, in_balances, total, insert-sum, insert_new-sum, adjust_balance-sum, at_sum, at_zero, add_zero,
  neg_back, zero_of_test,
}
use bitshares_toolkit.Matching.Fees.{asserted}
use bitshares_toolkit.Matching.Fills.{given_up, less_sold}
use bitshares_toolkit.LimitOrders.Placing.{negate-exact, at_neg}
use bitshares_toolkit.VestingLedger.{
  Ledger, fresh_vesting, vesting_create_apply, vesting_withdraw_apply, in_core, is_current,
  new_cashback, deposit_in, deposit_cashback,
}

abbrev pub in_vesting : ℕ → VestingBalance → ℤ
in_vesting x v = at x v.balance.asset_id v.balance.amount

abbrev pub held : ℕ → Ledger → ℤ
held x d = in_balances x d.balances +ℤ total (in_vesting x) d.vestings

withdraw-exact :
    (fc : Fc) (x : ℕ) (v v' : VestingBalance) (now : ℕ) (amount : Asset)
    → withdraw fc v now amount ≡ some v'
    → in_vesting x v' +ℤ at x amount.asset_id amount.amount ≡ in_vesting x v
unfolding withdraw asset_sub
withdraw-exact fc x v v' now amount h =
    let (p, moved, h1) = >>=-eq-some (on_withdraw fc v.policy (context v now amount)) _ h in
    let (b, less, e) = >>=-eq-some (asset_sub fc v.balance amount) _ h1 in
    let (u, checked, h2) = >>=-eq-some (fc_assert (v.balance.asset_id == amount.asset_id)) _ less in
    let (rest, exact, e') = >>=-eq-some (fc.safe_sub v.balance.amount amount.amount) _ h2 in
    let same =
      (==_iff v.balance.asset_id amount.asset_id).0
        (asserted (v.balance.asset_id == amount.asset_id) u checked) in
    rw (sym (eq_of_some e), sym (eq_of_some e'), sym same)
      (sym (at_sum x v.balance.asset_id rest amount.amount)
        ∙ ap (at x v.balance.asset_id)
            (less_sold v.balance.amount amount.amount rest (fc.safe_sub_exact _ _ _ exact)))

deposit-exact :
    (fc : Fc) (x : ℕ) (v v' : VestingBalance) (now : ℕ) (amount : Asset)
    → deposit fc v now amount ≡ some v'
    → in_vesting x v' ≡ in_vesting x v +ℤ at x amount.asset_id amount.amount
unfolding deposit asset_add
deposit-exact fc x v v' now amount h =
    let (b, more, e) = >>=-eq-some (asset_add fc v.balance amount) _ h in
    let (u, checked, h2) = >>=-eq-some (fc_assert (v.balance.asset_id == amount.asset_id)) _ more in
    let (sum, exact, e') = >>=-eq-some (fc.safe_add v.balance.amount amount.amount) _ h2 in
    let same =
      (==_iff v.balance.asset_id amount.asset_id).0
        (asserted (v.balance.asset_id == amount.asset_id) u checked) in
    rw (sym (eq_of_some e), sym (eq_of_some e'), sym same)
      (ap (at x v.balance.asset_id) (fc.safe_add_exact _ _ _ exact)
        ∙ at_sum x v.balance.asset_id v.balance.amount amount.amount)

moved_out : (b t t' d : ℤ) → t' +ℤ d ≡ t → (b +ℤ d) +ℤ t' ≡ b +ℤ t
moved_out b t t' d e = rw (sym e) (eq_of_parts ((b +ℤ d) +ℤ t') (b +ℤ (t' +ℤ d)) (omega int_laws))

moved_in : (b t d d' : ℤ) → d' +ℤ d ≡ pos 0 → (b +ℤ d') +ℤ (t +ℤ d) ≡ b +ℤ t
moved_in b t d d' e =
    let parts = parts_of_sum d' d e in eq_of_parts ((b +ℤ d') +ℤ (t +ℤ d)) (b +ℤ t) (omega int_laws)

grown : (b t t' v v' d : ℤ) → t' +ℤ v ≡ t +ℤ v' → v' ≡ v +ℤ d → b +ℤ t' ≡ (b +ℤ t) +ℤ d
grown b t t' v v' d h e =
    let parts = parts_of_sum t' v (h ∙ ap (λ z. t +ℤ z) e) in
    eq_of_parts (b +ℤ t') ((b +ℤ t) +ℤ d) (omega int_laws)

grown_new : (b t d : ℤ) → b +ℤ (t +ℤ d) ≡ (b +ℤ t) +ℤ d
grown_new b t d = eq_of_parts (b +ℤ (t +ℤ d)) ((b +ℤ t) +ℤ d) (omega int_laws)

-- A vesting balance is created, with an id that none has, or withdrawn from.
pub data Step (fc : Fc) : Ledger → Ledger → Type 0 where
  created :
      (d d' : Ledger) (op : VestingBalanceCreateOperation) (id : ℕ)
      → find d.next_vesting d.vestings ≡ none
      → vesting_create_apply fc op d ≡ some (d', id)
      → Step fc d d'
  withdrawn :
      (d d' : Ledger) (op : VestingBalanceWithdrawOperation)
      → vesting_withdraw_apply fc op d ≡ some d'
      → Step fc d d'

create-held :
    (fc : Fc) (x : ℕ) (op : VestingBalanceCreateOperation) (d : Ledger) (r : Ledger × ℕ)
    → find d.next_vesting d.vestings ≡ none
    → vesting_create_apply fc op d ≡ some r
    → held x r.0 ≡ held x d
unfolding vesting_create_apply
create-held fc x op d r absent h =
    let (debit, negated, h1) = >>=-eq-some (negate fc op.amount) _ h in
    let (balances, adjusted, h2) =
      >>=-eq-some (adjust_balance fc op.creator debit d.balances) _ h1 in
    let (enough, compared, h3) =
      >>=-eq-some (asset_ge (get_balance balances op.creator op.amount.asset_id) op.amount) _ h2 in
    let (u, checked, e) = >>=-eq-some (fc_assert enough) _ h3 in
    let (debit_id, debit_amount) = negate-exact fc op.amount debit negated in
    let cancels : at x debit.asset_id debit.amount +ℤ at x op.amount.asset_id op.amount.amount
        ≡ pos 0 =
      rw (debit_id, debit_amount, at_neg x op.amount.asset_id op.amount.amount)
        (neg_back (at x op.amount.asset_id op.amount.amount)) in
    let v = fresh_vesting op.owner op.amount op.vesting_seconds d.head_block_time in
    rw
      (
        sym (eq_of_some e),
        adjust_balance-sum fc x op.creator debit d.balances balances adjusted,
        insert_new-sum (in_vesting x) d.next_vesting v d.vestings absent,
      )
      (moved_in (in_balances x d.balances) (total (in_vesting x) d.vestings)
        (at x op.amount.asset_id op.amount.amount) (at x debit.asset_id debit.amount) cancels)

withdraw-held :
    (fc : Fc) (x : ℕ) (op : VestingBalanceWithdrawOperation) (d d' : Ledger)
    → vesting_withdraw_apply fc op d ≡ some d'
    → held x d' ≡ held x d
unfolding vesting_withdraw_apply
withdraw-held fc x op d d' h =
    let (v, found, h1) = >>=-eq-some (find op.vesting_balance d.vestings) _ h in
    let (v', taken, h2) = >>=-eq-some (withdraw fc v d.head_block_time op.amount) _ h1 in
    let (balances, adjusted, e) =
      >>=-eq-some (adjust_balance fc op.owner op.amount d.balances) _ h2 in
    let left =
      given_up (total (in_vesting x) (insert op.vesting_balance v' d.vestings))
        (total (in_vesting x) d.vestings) (in_vesting x v) (in_vesting x v')
        (at x op.amount.asset_id op.amount.amount)
        (insert-sum (in_vesting x) op.vesting_balance v v' d.vestings found)
        (withdraw-exact fc x v v' d.head_block_time op.amount taken) in
    rw (sym (eq_of_some e), adjust_balance-sum fc x op.owner op.amount d.balances balances adjusted)
      (moved_out (in_balances x d.balances) (total (in_vesting x) d.vestings)
        (total (in_vesting x) (insert op.vesting_balance v' d.vestings))
        (at x op.amount.asset_id op.amount.amount) left)

-- A creation of a vesting balance, with an id that none has, and a withdrawal that return change for no asset the amount
-- that the account balances and the vesting balances hold together.
pub Step_conserves : (fc : Fc) (x : ℕ) (d d' : Ledger) → Step fc d d' → held x d' ≡ held x d
Step_conserves fc x d d' (created e e' op id absent h) = create-held fc x op d (d', id) absent h
Step_conserves fc x d d' (withdrawn e e' op h) = withdraw-held fc x op d d' h

new_cashback-held :
    (x account : ℕ) (amount : ℤ) (d : Ledger)
    → find d.next_vesting d.vestings ≡ none
    → held x (new_cashback account amount d) ≡ held x d +ℤ at x 0 amount
new_cashback-held x account amount d absent =
    let v =
      fresh_vesting account (in_core amount) d.cashback_vesting_period_seconds d.head_block_time in
    rw (insert_new-sum (in_vesting x) d.next_vesting v d.vestings absent)
      (grown_new (in_balances x d.balances) (total (in_vesting x) d.vestings) (at x 0 amount))

deposit_in-held :
    (fc : Fc) (x account : ℕ) (amount : ℤ) (d d' : Ledger) (cashback : Option ℕ)
    → find d.next_vesting d.vestings ≡ none
    → deposit_in fc account amount d cashback ≡ some d'
    → held x d' ≡ held x d +ℤ at x 0 amount
deposit_in-held fc x account amount d d' none absent h =
    rw (sym (eq_of_some h)) (new_cashback-held x account amount d absent)
deposit_in-held fc x account amount d d' (some id) absent h =
    let (v, found, h1) = >>=-eq-some (find id d.vestings) _ h in
    elim (Bool-cases (is_current d.cashback_vesting_period_seconds v.policy)) [
      | inl current ↦
          let step : (deposit fc v d.head_block_time (in_core amount) >>= λ v'.
          some (record d { vestings = insert id v' d.vestings }))
              ≡ some d' =
            sym (rw current refl) ∙ h1 in
          let (v', added, e) =
            >>=-eq-some (deposit fc v d.head_block_time (in_core amount)) _ step in
          rw (sym (eq_of_some e)) (
            grown (in_balances x d.balances) (total (in_vesting x) d.vestings)
              (total (in_vesting x) (insert id v' d.vestings)) (in_vesting x v) (in_vesting x v')
              (at x 0 amount) (insert-sum (in_vesting x) id v v' d.vestings found)
              (deposit-exact fc x v v' d.head_block_time (in_core amount) added))
      | inr other ↦
          let made : some (new_cashback account amount d) ≡ some d' = sym (rw other refl) ∙ h1 in
          rw (sym (eq_of_some made)) (new_cashback-held x account amount d absent)
    ]

-- If no vesting balance has the next id and a deposit of cashback returns, then the account balances and the vesting
-- balances hold together the amount more of the core asset, and what they did of every other asset.
pub deposit_cashback_adds :
    (fc : Fc) (x account : ℕ) (amount : ℤ) (d d' : Ledger)
    → find d.next_vesting d.vestings ≡ none
    → deposit_cashback fc account amount d ≡ some d'
    → held x d' ≡ held x d +ℤ at x 0 amount
unfolding deposit_cashback
deposit_cashback_adds fc x account amount d d' absent h = elim (Bool-cases (eqb_ℤ amount (pos 0))) [
  | inl zero ↦
      let same : some d ≡ some d' = sym (rw zero refl) ∙ h in
      rw (sym (eq_of_some same), zero_of_test amount zero, at_zero x 0, add_zero (held x d)) refl
  | inr moved ↦
      let step : deposit_in fc account amount d (d.cashback_vb account) ≡ some d' =
        sym (rw moved refl) ∙ h in
      deposit_in-held fc x account amount d d' (d.cashback_vb account) absent step
]
