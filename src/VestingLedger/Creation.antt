-- ===== src/VestingLedger/Creation.antt =====
-- The check of the balance that follows the debit of a new vesting balance.
use bitshares_toolkit.Common.{
  ℕ, ◌-◌, ◌*◌, ◌^◌, ◌==◌, ◌≤◌, ◌<◌, ◌≡◌, refl, sym, ap, ◌∙◌, Option, some, none, arith, eq_of_some,
  Bool, >>=-eq-some, fc_assert, true,
}
use bitshares_toolkit.Common.Int.{pos, neg_ℤ, leb_ℤ, ltb_ℤ}
use bitshares_toolkit.Fc.{Fc}
use bitshares_toolkit.Asset.{Asset, asset_ge}
use bitshares_toolkit.Operations.{negate}
use bitshares_toolkit.Operations.Lending.{VestingBalanceCreateOperation}
use bitshares_toolkit.Transfers.{get_balance, adjust_balance}
use bitshares_toolkit.Transfers.Balances.{amount_of, debit_found, found_of_amount, neg_fits}
use bitshares_toolkit.Matching.Fees.{asserted}
use bitshares_toolkit.VestingLedger.{Ledger, vesting_create_evaluate, vesting_create_apply}

ge_amounts :
    (a b : Asset) (enough : Bool)
    → asset_ge a b ≡ some enough
    → enough ≡ true
    → leb_ℤ b.amount a.amount ≡ true
unfolding asset_ge
ge_amounts a b enough h yes_it_is =
    let (u, same, e) = >>=-eq-some (fc_assert (a.asset_id == b.asset_id)) _ h in
    eq_of_some e ∙ yes_it_is

half_left : (n x : ℕ) → x < 2 * n → leb_ℤ (pos n) (pos (x - n)) ≡ true → 0 < n → n ≤ x → ⊥
half_left n x short h positive enough = ground (arith, short, h, positive, enough)

create_returned :
    (fc : Fc) (op : VestingBalanceCreateOperation) (asset n x : ℕ) (d : Ledger) (r : Ledger × ℕ)
    → op.amount ≡ record { amount = pos n; asset_id = asset }
    → 0 < n
    → n ≤ x
    → x < 2 ^ 63
    → amount_of d.balances op.creator asset ≡ pos x
    → vesting_create_apply fc op d ≡ some r
    → leb_ℤ (pos n) (pos (x - n)) ≡ true
unfolding vesting_create_apply
create_returned fc op asset n x d r amount_is positive enough fits owned h =
    let found =
      found_of_amount d.balances op.creator asset x (omega (arith, positive, enough)) owned in
    let (after, adjusted, sets) =
      debit_found fc op.creator asset n x d.balances positive enough fits found in
    let negated : negate fc (record { amount = pos n; asset_id = asset })
        ≡ some (record { amount = neg_ℤ (pos n); asset_id = asset }) =
      rw (fc.safe_neg_fits (pos n) (neg_fits n (omega (arith, enough, fits)))) refl in
    let left : amount_of after op.creator asset ≡ pos (x - n) =
      sets op.creator asset ∙ ground arith in
    let (debit, negated', h1) = >>=-eq-some (negate fc op.amount) _ h in
    let (balances, adjusted', h2) =
      >>=-eq-some (adjust_balance fc op.creator debit d.balances) _ h1 in
    let (enough', compared, h3) =
      >>=-eq-some (asset_ge (get_balance balances op.creator op.amount.asset_id) op.amount) _ h2 in
    let (u, checked, _) = >>=-eq-some (fc_assert enough') _ h3 in
    let debit_is : debit ≡ record { amount = neg_ℤ (pos n); asset_id = asset } =
      eq_of_some (sym negated' ∙ ap (negate fc) amount_is ∙ negated) in
    let balances_are : balances ≡ after =
      eq_of_some
        (sym adjusted' ∙ ap (λ b. adjust_balance fc op.creator b d.balances) debit_is ∙ adjusted) in
    let test =
      ge_amounts (get_balance balances op.creator op.amount.asset_id) op.amount enough' compared
        (asserted enough' u checked) in
    let low : (get_balance balances op.creator op.amount.asset_id).amount ≡ pos (x - n) =
      ap (λ bs. amount_of bs op.creator op.amount.asset_id) balances_are
      ∙ ap (λ a. amount_of after op.creator a.asset_id) amount_is
      ∙ left in
    sym (ap (λ a. leb_ℤ a.amount (pos (x - n))) amount_is)
    ∙ sym (ap (leb_ℤ op.amount.amount) low)
    ∙ test

none_of : {A : Type 0} (m : Option A) → ((a : A) → m ≡ some a → ⊥) → m ≡ none
none_of none h = refl
none_of (some a) h = absurd (h a refl)

leb_pos : (n x : ℕ) → leb_ℤ (pos n) (pos x) ≡ true → n ≤ x
leb_pos n x h = ground (arith, h)

ltb_pos : (n : ℕ) → ltb_ℤ (pos 0) (pos n) ≡ true → 0 < n
ltb_pos n h = ground (arith, h)

evaluated_amounts :
    (op : VestingBalanceCreateOperation) (asset n x : ℕ) (d : Ledger)
    → op.amount ≡ record { amount = pos n; asset_id = asset }
    → vesting_create_evaluate op d ≡ some tt
    → amount_of d.balances op.creator asset ≡ pos x
    → (0 < n) × (n ≤ x)
unfolding vesting_create_evaluate
evaluated_amounts op asset n x d amount_is h owned =
    let (_, _, h1) = >>=-eq-some (fc_assert (d.is_account op.creator)) _ h in
    let (_, _, h2) = >>=-eq-some (fc_assert (d.is_account op.owner)) _ h1 in
    let (u, positive, h3) = >>=-eq-some (fc_assert (ltb_ℤ (pos 0) op.amount.amount)) _ h2 in
    let (enough, compared, h4) =
      >>=-eq-some (asset_ge (get_balance d.balances op.creator op.amount.asset_id) op.amount) _
        h3 in
    let (v, checked, _) = >>=-eq-some (fc_assert enough) _ h4 in
    let test =
      ge_amounts (get_balance d.balances op.creator op.amount.asset_id) op.amount enough compared
        (asserted enough v checked) in
    let owned' : (get_balance d.balances op.creator op.amount.asset_id).amount ≡ pos x =
      ap (λ a. amount_of d.balances op.creator a.asset_id) amount_is ∙ owned in
    (
      ltb_pos n (
          ap (λ a. ltb_ℤ (pos 0) a.amount) (sym amount_is)
          ∙ asserted (ltb_ℤ (pos 0) op.amount.amount) u positive),
      leb_pos n x (
          ap (λ a. leb_ℤ a.amount (pos x)) (sym amount_is)
          ∙ sym (ap (leb_ℤ op.amount.amount) owned')
          ∙ test),
    )

-- If the checks of the evaluation hold for an amount that is positive, and the balance of the creator is less than
-- twice the amount, then the application fails, since it checks the balance again after the debit.
pub create_needs_twice :
    (fc : Fc) (op : VestingBalanceCreateOperation) (asset n x : ℕ) (d : Ledger)
    → op.amount ≡ record { amount = pos n; asset_id = asset }
    → vesting_create_evaluate op d ≡ some tt
    → amount_of d.balances op.creator asset ≡ pos x
    → x < 2 * n
    → x < 2 ^ 63
    → vesting_create_apply fc op d ≡ none
create_needs_twice fc op asset n x d amount_is evaluated owned short fits =
    let (positive, enough) = evaluated_amounts op asset n x d amount_is evaluated owned in
    none_of (vesting_create_apply fc op d) (λ r h.
      half_left n x short
        (create_returned fc op asset n x d r amount_is positive enough fits owned h) positive
        enough)
