-- ===== src/Operations/Deltas.antt =====
-- What an operation adds to the accounts together, in each asset.
use bitshares_toolkit.Common.{
  ℕ, ◌≡◌, refl, sym, ap, ◌∙◌, ◌&&◌, some, [], ◌∷◌, ◌==◌, if◌then◌else◌, arith, ◌>>=◌, >>=-eq-some,
  Bool-cases, inl, inr, eq_of_some, ◌+◌,
}
use bitshares_toolkit.Common.Int.{ℤ, pos, pos_part, neg_part, ◌+ℤ◌, neg_ℤ, int_laws, eq_of_parts}
use bitshares_toolkit.Fc.{Fc}
use bitshares_toolkit.Asset.{Asset}
use bitshares_toolkit.Operations.{
  BalanceEntry, BalanceAccumulator, OperationResult, adjust, adjust_neg, negate,
}
use bitshares_toolkit.Operations.Market.{TransferOperation}
use bitshares_toolkit.Operations.Permissions.{WithdrawPermissionClaimOperation}
use bitshares_toolkit.Operations.Union.{transfer, withdraw_permission_claim}
use bitshares_toolkit.Operations.BalanceDelta.{balance_delta}

-- The amount `x` in the asset `id` as an amount of the asset `a`.
abbrev pub in_asset : ℕ → ℕ → ℤ → ℤ
in_asset a id x = if id == a then x else pos 0

-- The sum of the entries of one asset.
abbrev pub total : ℕ → BalanceAccumulator → ℤ
total a [] = pos 0
total a (e ∷ acc) = in_asset a e.asset_id e.balance +ℤ total a acc

+ℤ_zero : (x : ℤ) → x +ℤ pos 0 ≡ x
+ℤ_zero x = eq_of_parts _ _ (omega int_laws)

zero_+ℤ : (x : ℤ) → pos 0 +ℤ x ≡ x
zero_+ℤ x = eq_of_parts _ _ (omega int_laws)

+ℤ_comm : (x y : ℤ) → x +ℤ y ≡ y +ℤ x
+ℤ_comm x y = eq_of_parts _ _ (omega (int_laws))

+ℤ_swap : (x y z : ℤ) → (x +ℤ y) +ℤ z ≡ (x +ℤ z) +ℤ y
+ℤ_swap x y z = eq_of_parts _ _ (omega (int_laws))

+ℤ_assoc : (x y z : ℤ) → (x +ℤ y) +ℤ z ≡ x +ℤ (y +ℤ z)
+ℤ_assoc x y z = eq_of_parts _ _ (omega (int_laws))

neg_parts : (y : ℤ) → pos_part (neg_ℤ y) + pos_part y ≡ neg_part (neg_ℤ y) + neg_part y
neg_parts y = ground arith

cancel : (x n y : ℤ) → pos_part n + pos_part y ≡ neg_part n + neg_part y → (x +ℤ n) +ℤ y ≡ x
cancel x n y h = eq_of_parts _ _ (omega (int_laws, h))

cancel_neg : (x y : ℤ) → (x +ℤ neg_ℤ y) +ℤ y ≡ x
cancel_neg x y = cancel x (neg_ℤ y) y (neg_parts y)

module _ (fc : Fc) (a account : ℕ) (delta : Asset) where
  adjust_here :
      (e : BalanceEntry) (acc : BalanceAccumulator) (v : ℤ)
      → delta.asset_id ≡ e.asset_id
      → v ≡ e.balance +ℤ delta.amount
      → total a (record e { balance = v } ∷ acc)
        ≡ total a (e ∷ acc) +ℤ in_asset a delta.asset_id delta.amount
  adjust_here e acc v same sum = elim (Bool-cases (e.asset_id == a)) [
    | inl is ↦ rw (same, is, sum) (+ℤ_swap e.balance delta.amount (total a acc))
    | inr other ↦ rw (same, other) (sym (+ℤ_zero (pos 0 +ℤ total a acc)))
  ]

  adjust-total :
      (acc acc' : BalanceAccumulator)
      → adjust fc account delta acc ≡ some acc'
      → total a acc' ≡ total a acc +ℤ in_asset a delta.asset_id delta.amount
  unfolding adjust
  adjust-total [] acc' h =
      let (v, added, made) = >>=-eq-some (fc.safe_add (pos 0) delta.amount) _ h in
      let sum = fc.safe_add_exact (pos 0) delta.amount v added ∙ zero_+ℤ delta.amount in
      ap (total a) (sym (eq_of_some made))
      ∙ ap (λ w. in_asset a delta.asset_id w +ℤ pos 0) sum
      ∙ +ℤ_comm (in_asset a delta.asset_id delta.amount) (pos 0)
  adjust-total (e ∷ acc) acc' h =
      elim (Bool-cases (account == e.account && delta.asset_id == e.asset_id)) [
        | inl found ↦
            let step : adjust fc account delta (e ∷ acc) ≡ (
                fc.safe_add e.balance delta.amount >>= λ v. some (record e { balance = v } ∷ acc)) =
              rw found refl in
            let (v, added, made) =
              >>=-eq-some (fc.safe_add e.balance delta.amount) _ (sym step ∙ h) in
            let sum = fc.safe_add_exact e.balance delta.amount v added in
            ap (total a) (sym (eq_of_some made)) ∙ adjust_here e acc v (ground (arith, found)) sum
        | inr other ↦
            let step : adjust fc account delta (e ∷ acc)
                ≡ (adjust fc account delta acc >>= λ r. some (e ∷ r)) =
              rw other refl in
            let (r, rest, made) = >>=-eq-some (adjust fc account delta acc) _ (sym step ∙ h) in
            let x = in_asset a e.asset_id e.balance in
            ap (total a) (sym (eq_of_some made))
            ∙ ap (λ t. x +ℤ t) (adjust-total acc r rest)
            ∙ sym (+ℤ_assoc x (total a acc) (in_asset a delta.asset_id delta.amount))
      ]

adjust_neg-total :
    (fc : Fc) (a account : ℕ) (delta : Asset) (acc acc' : BalanceAccumulator)
    → adjust_neg fc account delta acc ≡ some acc'
    → total a acc' ≡ total a acc +ℤ in_asset a delta.asset_id (neg_ℤ delta.amount)
unfolding adjust_neg
adjust_neg-total fc a account delta acc acc' h =
    let (d, negated, rest) = >>=-eq-some (negate fc delta) _ h in
    let (v, exact, made) = >>=-eq-some (fc.safe_neg delta.amount) _ negated in
    adjust-total fc a account d acc acc' rest
    ∙ ap (λ (e : Asset). total a acc +ℤ in_asset a e.asset_id e.amount) (sym (eq_of_some made))
    ∙ ap (λ w. total a acc +ℤ in_asset a delta.asset_id w) (fc.safe_neg_exact delta.amount v exact)

in_asset-cancel : (a id : ℕ) (x y : ℤ) → (x +ℤ in_asset a id (neg_ℤ y)) +ℤ in_asset a id y ≡ x
in_asset-cancel a id x y = elim (Bool-cases (id == a)) [
  | inl is ↦ rw is (cancel_neg x y)
  | inr other ↦ rw other (+ℤ_zero (x +ℤ pos 0) ∙ +ℤ_zero x)
]

module _ (fc : Fc) (a : ℕ) (acc acc' : BalanceAccumulator) (result : OperationResult) where
  -- A transfer, where its balance changes can be computed, takes its fee out of the accounts together,
  -- and nothing else: what the sender loses the recipient gains.
  pub transfer_conserves :
      (o : TransferOperation)
      → balance_delta fc (transfer o) result acc ≡ some acc'
      → total a acc' ≡ total a acc +ℤ in_asset a o.fee.asset_id (neg_ℤ o.fee.amount)
  unfolding balance_delta
  transfer_conserves o h =
      let (acc1, paid, h1) = >>=-eq-some (adjust_neg fc o.from o.fee acc) _ h in
      let (acc2, sent, got) = >>=-eq-some (adjust_neg fc o.from o.amount acc1) _ h1 in
      adjust-total fc a o.to o.amount acc2 acc' got
      ∙ ap (λ x. x +ℤ in_asset a o.amount.asset_id o.amount.amount)
          (adjust_neg-total fc a o.from o.amount acc1 acc2 sent)
      ∙ in_asset-cancel a o.amount.asset_id (total a acc1) o.amount.amount
      ∙ adjust_neg-total fc a o.from o.fee acc acc1 paid

  -- Claiming a withdrawal permission, where the balance changes can be computed, takes its fee out of
  -- the accounts together, and nothing else: the amount moves from one account to the other.
  pub claim_conserves :
      (o : WithdrawPermissionClaimOperation)
      → balance_delta fc (withdraw_permission_claim o) result acc ≡ some acc'
      → total a acc' ≡ total a acc +ℤ in_asset a o.fee.asset_id (neg_ℤ o.fee.amount)
  unfolding balance_delta
  claim_conserves o h =
      let to = o.withdraw_to_account in
      let moved = o.amount_to_withdraw in
      let (acc1, paid, h1) = >>=-eq-some (adjust_neg fc to o.fee acc) _ h in
      let (acc2, got, sent) = >>=-eq-some (adjust fc to moved acc1) _ h1 in
      adjust_neg-total fc a o.withdraw_from_account moved acc2 acc' sent
      ∙ ap (λ x. x +ℤ in_asset a moved.asset_id (neg_ℤ moved.amount))
          (adjust-total fc a to moved acc1 acc2 got)
      ∙ +ℤ_swap (total a acc1) (in_asset a moved.asset_id moved.amount)
          (in_asset a moved.asset_id (neg_ℤ moved.amount))
      ∙ in_asset-cancel a moved.asset_id (total a acc1) moved.amount
      ∙ adjust_neg-total fc a to o.fee acc acc1 paid
