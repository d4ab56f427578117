-- ===== src/FeePayment/FreeIds.antt =====
-- The ids of vesting balances that are still free after a deposit of cashback.
use bitshares_toolkit.Common.{
  ℕ, ◌+◌, ◌==◌, ◌≤◌, ◌≡◌, refl, sym, ap, subst, ◌∙◌, false, Option, some, none, ◌>>=◌, arith,
  Bool-cases, inl, inr, >>=-eq-some, eq_of_some, ==_iff,
}
use bitshares_toolkit.Common.Int.{ℤ, pos, eqb_ℤ}
use bitshares_toolkit.Common.Maps.{Map, find, insert, find-insert}
use bitshares_toolkit.Fc.{Fc}
use bitshares_toolkit.Vesting.{deposit}
use bitshares_toolkit.VestingLedger.{
  Ledger, in_core, is_current, new_cashback, deposit_in, deposit_cashback,
}
use bitshares_toolkit.LimitOrders.Ranges.{no_entry}

-- No vesting balance has the next id or a later one.
abbrev pub NextIsFree : Ledger → Type 0
NextIsFree d = (k : ℕ) → d.next_vesting ≤ k → find k d.vestings ≡ none

free_after : (k next id : ℕ) → next + 1 ≤ k → (k == next) ≡ false
free_after k next id h = ground (arith, h)

new_cashback-NextIsFree :
    (account : ℕ) (amount : ℤ) (d : Ledger)
    → NextIsFree d
    → NextIsFree (new_cashback account amount d)
new_cashback-NextIsFree account amount d free k h =
    find-insert k d.next_vesting _ d.vestings
    ∙ rw (free_after k d.next_vesting 0 h) (free k (omega (arith, h)))

insert-absent :
    {V : Type 0} (k id : ℕ) (v w : V) (m : Map V)
    → find id m ≡ some v
    → find k m ≡ none
    → find k (insert id w m) ≡ none
insert-absent k id v w m found absent = elim (Bool-cases (k == id)) [
  | inl same ↦
      let here : find k m ≡ some v = ap (λ j. find j m) ((==_iff k id).0 same) ∙ found in
      no_entry v (sym absent ∙ here)
  | inr other ↦ find-insert k id w m ∙ rw other absent
]

deposit_in-NextIsFree :
    (fc : Fc) (account : ℕ) (amount : ℤ) (d d' : Ledger) (cashback : Option ℕ)
    → NextIsFree d
    → deposit_in fc account amount d cashback ≡ some d'
    → NextIsFree d'
deposit_in-NextIsFree fc account amount d d' none free h =
    subst NextIsFree (eq_of_some h) (new_cashback-NextIsFree account amount d free)
deposit_in-NextIsFree fc account amount d d' (some id) free h =
    let (v, found, h1) = >>=-eq-some (find id d.vestings) _ h in
    elim (Bool-cases (is_current d.cashback_vesting_period_seconds v.policy)) [
      | inl current ↦
          let step : (deposit fc v d.head_block_time (in_core amount) >>= λ v'.
          some (record d { vestings = insert id v' d.vestings }))
              ≡ some d' =
            sym (rw current refl) ∙ h1 in
          let (v', added, e) =
            >>=-eq-some (deposit fc v d.head_block_time (in_core amount)) _ step in
          subst NextIsFree (eq_of_some e)
            (λ k low. insert-absent k id v v' d.vestings found (free k low))
      | inr other ↦
          let made : some (new_cashback account amount d) ≡ some d' = sym (rw other refl) ∙ h1 in
          subst NextIsFree (eq_of_some made) (new_cashback-NextIsFree account amount d free)
    ]

pub deposit_cashback-NextIsFree :
    (fc : Fc) (account : ℕ) (amount : ℤ) (d d' : Ledger)
    → NextIsFree d
    → deposit_cashback fc account amount d ≡ some d'
    → NextIsFree d'
unfolding deposit_cashback
deposit_cashback-NextIsFree fc account amount d d' free h =
    elim (Bool-cases (eqb_ℤ amount (pos 0))) [
      | inl zero ↦
          let same : some d ≡ some d' = sym (rw zero refl) ∙ h in
          subst NextIsFree (eq_of_some same) free
      | inr moved ↦
          let step : deposit_in fc account amount d (d.cashback_vb account) ≡ some d' =
            sym (rw moved refl) ∙ h in
          deposit_in-NextIsFree fc account amount d d' (d.cashback_vb account) free step
    ]
