-- ===== src/Transfers/Moves.antt =====
-- What a transfer does to the balances.
use bitshares_toolkit.Common.{
  ℕ, ◌+◌, ◌-◌, ◌^◌, ◌==◌, ◌≤◌, ◌<◌, ◌≡◌, ◌≢◌, refl, subst, ◌∙◌, ◌&&◌, some, List, arith,
  if◌then◌else◌,
}
use bitshares_toolkit.Common.Int.{ℤ, pos, neg_ℤ, ◌≤ℤ◌}
use bitshares_toolkit.Fc.{Fc}
use bitshares_toolkit.Transfers.{
  AccountBalance, find_balance, transfer_apply, Party, AssetObject, transfer_evaluate,
}
use bitshares_toolkit.Transfers.Balances.{
  amount_of, neg_fits, credit_found, debit_found, found_of_amount,
}
use bitshares_toolkit.Transfers.Checks.{transfer_evaluate-Allowed}

other_unchanged : (a b i : ℕ) (u v : ℤ) → a ≢ b → (if (b == a) && (i == i) then u else v) ≡ v
other_unchanged a b i u v h = ground (arith, h)

-- Two replacements at different owners, in either order.
two_replaced :
    (o i a b x : ℕ) (u v w m : ℤ)
    → a ≢ b
    → m ≡ (if (o == a) && (i == x) then u else w)
    → (if (o == b) && (i == x) then v else m)
      ≡ (if (o == a) && (i == x) then u else if (o == b) && (i == x) then v else w)
two_replaced o i a b x u v w m h e = ground (arith, h, e)

-- The amount goes from one account to the other, and no other balance changes.
abbrev pub Moves : List AccountBalance → List AccountBalance → ℕ → ℕ → ℕ → ℤ → ℤ → Type 0
Moves before after from to asset u v =
    (o i : ℕ)
    → amount_of after o i ≡ (
        if (o == from) && (i == asset)
        then u
        else if (o == to) && (i == asset)
        then v
        else amount_of before o i)

pub transfer_apply-Moves :
    (fc : Fc) (from to asset n x y : ℕ) (bs : List AccountBalance)
    → from ≢ to
    → 0 < n
    → n ≤ x
    → x < 2 ^ 63
    → y + n < 2 ^ 63
    → amount_of bs from asset ≡ pos x
    → amount_of bs to asset ≡ pos y
    → (after : List AccountBalance) × (transfer_apply fc from to
          (record { amount = pos n; asset_id = asset })
          bs
        ≡ some after)
      × Moves bs after from to asset (pos (x - n)) (pos (y + n))
unfolding transfer_apply
transfer_apply-Moves fc from to asset n x y bs apart positive low small fits hx hy =
    let negated : fc.safe_neg (pos n) ≡ some (neg_ℤ (pos n)) =
      fc.safe_neg_fits (pos n) (neg_fits n (omega (arith, fits))) in
    let (middle, debited, left) =
      debit_found fc from asset n x bs positive low small
        (found_of_amount bs from asset x (omega (arith, low, positive)) hx) in
    let kept : amount_of middle to asset ≡ pos y =
      left to asset
      ∙ other_unchanged from to asset (pos (x - n)) (amount_of bs to asset) apart
      ∙ hy in
    let (after, credited, gained) =
      credit_found fc to asset n y middle (find_balance to asset middle) refl positive fits kept in
    (
      after,
      rw (negated, debited) credited,
      λ o i.
          gained o i
          ∙ two_replaced o i from to asset (pos (x - n)) (pos (y + n)) (amount_of bs o i)
              (amount_of middle o i) apart (left o i),
    )

-- For two different accounts, a positive amount and balances that stay below 2^63, a transfer that is
-- accepted is applied without an error: the amount moves from the sender to the recipient, whether or
-- not the recipient had a balance object, and every other balance is unchanged.
pub transfer_moves :
    (fc : Fc) (from to : Party) (asset fee_asset : AssetObject) (n x y : ℕ)
    (bs : List AccountBalance)
    → from.id ≢ to.id
    → 0 < n
    → x < 2 ^ 63
    → y + n < 2 ^ 63
    → amount_of bs from.id asset.id ≡ pos x
    → amount_of bs to.id asset.id ≡ pos y
    → transfer_evaluate from to asset fee_asset (record { amount = pos n; asset_id = asset.id }) bs
      ≡ some tt
    → (after : List AccountBalance) × (transfer_apply fc from.id to.id
          (record { amount = pos n; asset_id = asset.id })
          bs
        ≡ some after)
      × ((o i : ℕ)
          → amount_of after o i ≡ (
              if (o == from.id) && (i == asset.id)
              then pos (x - n)
              else if (o == to.id) && (i == asset.id)
              then pos (y + n)
              else amount_of bs o i))
transfer_moves fc from to asset fee_asset n x y bs apart positive small fits hx hy allowed =
    let (_, _, _, enough) =
      transfer_evaluate-Allowed from to asset fee_asset
        (record { amount = pos n; asset_id = asset.id }) bs allowed in
    let covered : pos n ≤ℤ pos x = subst (λ z. pos n ≤ℤ z) hx enough in
    transfer_apply-Moves fc from.id to.id asset.id n x y bs apart positive (omega (arith, covered))
      small fits hx hy
