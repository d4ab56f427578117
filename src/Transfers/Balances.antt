-- ===== src/Transfers/Balances.antt =====
-- What one adjustment does to the balances.
use bitshares_toolkit.Common.{
  ℕ, ◌+◌, ◌-◌, ◌^◌, ◌==◌, ◌≤◌, ◌<◌, ◌≡◌, refl, ap, subst, sym, ◌∙◌, true, false, ◌&&◌, Option, none,
  some, List, [], ◌∷◌, arith, if◌then◌else◌,
}
use bitshares_toolkit.Common.Int.{ℤ, pos, ◌+ℤ◌, neg_ℤ, eqb_ℤ, ltb_ℤ}
use bitshares_toolkit.Fc.{Fc, IsInt64}
use bitshares_toolkit.Asset.{asset_ge}
use bitshares_toolkit.Transfers.{
  AccountBalance, find_balance, get_balance, set_balance, covers, adjust_balance,
}

-- A modified balance is read back at its key, and every other one is unchanged.
find_balance-set_balance :
    (o x owner asset : ℕ) (old v : ℤ) (bs : List AccountBalance)
    → find_balance owner asset bs ≡ some old
    → find_balance o x (set_balance owner asset v bs)
      ≡ (if (o == owner) && (x == asset) then some v else find_balance o x bs)
find_balance-set_balance o x owner asset old v [] h = ground arith
find_balance-set_balance o x owner asset old v (b ∷ bs) h =
    ground (arith, find_balance-set_balance o x owner asset old v bs)

abbrev pub amount_of : List AccountBalance → ℕ → ℕ → ℤ
amount_of bs o x = (get_balance bs o x).amount

-- `after` is `before` with the balance of one key replaced.
abbrev pub Sets : List AccountBalance → List AccountBalance → ℕ → ℕ → ℤ → Type 0
Sets before after owner asset v =
    (o x : ℕ)
    → amount_of after o x ≡ (if (o == owner) && (x == asset) then v else amount_of before o x)

pub amount_of-found :
    (bs : List AccountBalance) (o x : ℕ) (v : ℤ)
    → find_balance o x bs ≡ some v
    → amount_of bs o x ≡ v
unfolding get_balance
amount_of-found bs o x v h = ground (arith, h)

pub amount_of-missing :
    (bs : List AccountBalance) (o x : ℕ) → find_balance o x bs ≡ none → amount_of bs o x ≡ pos 0
unfolding get_balance
amount_of-missing bs o x h = ground (arith, h)

pub set_balance-Sets :
    (bs : List AccountBalance) (owner asset : ℕ) (old v : ℤ)
    → find_balance owner asset bs ≡ some old
    → Sets bs (set_balance owner asset v bs) owner asset v
unfolding get_balance
set_balance-Sets bs owner asset old v h o x =
    ground (arith, find_balance-set_balance o x owner asset old v bs h)

pub new-Sets :
    (bs : List AccountBalance) (owner asset : ℕ) (v : ℤ)
    → Sets bs (record { owner = owner; asset_type = asset; balance = v } ∷ bs) owner asset v
unfolding get_balance
new-Sets bs owner asset v o x = ground arith

plus_pos : (a b : ℕ) → pos a +ℤ pos b ≡ pos (a + b)
unfolding ◌+ℤ◌
plus_pos a b = ground arith

minus_pos : (a b : ℕ) → b ≤ a → pos a +ℤ neg_ℤ (pos b) ≡ pos (a - b)
unfolding ◌+ℤ◌
minus_pos a b h = ground (arith, h)

pub neg_fits : (n : ℕ) → n < 2 ^ 63 → IsInt64 (neg_ℤ (pos n))
neg_fits n h = ground (arith, h)

fits_of_pos : (z : ℤ) (n : ℕ) → z ≡ pos n → n < 2 ^ 63 → IsInt64 z
fits_of_pos z n e h = ground (arith, e, h)

module _ (fc : Fc) where
  -- An existing balance, with what is left.
  adjust_some :
      (owner asset y m : ℕ) (d : ℤ) (bs : List AccountBalance)
      → eqb_ℤ d (pos 0) ≡ false
      → find_balance owner asset bs ≡ some (pos y)
      → covers fc (pos y) (record { amount = d; asset_id = asset }) ≡ some true
      → pos y +ℤ d ≡ pos m
      → m < 2 ^ 63
      → adjust_balance fc owner (record { amount = d; asset_id = asset }) bs
        ≡ some (set_balance owner asset (pos m) bs)
  unfolding adjust_balance
  adjust_some owner asset y m d bs moved found enough sum fits =
      let added : fc.safe_add (pos y) d ≡ some (pos m) =
        fc.safe_add_fits (pos y) d (fits_of_pos (pos y +ℤ d) m sum fits) ∙ ap some sum in
      rw (moved, found, enough, added) refl

  neg_neg : (n : ℕ) → neg_ℤ (neg_ℤ (pos n)) ≡ pos n
  neg_neg n = ground arith

  covers_credit :
      (balance : ℤ) (asset n : ℕ)
      → 0 < n
      → covers fc balance (record { amount = pos n; asset_id = asset }) ≡ some true
  covers_credit balance asset n h = ground (arith, h)

  covers_debit :
      (y asset n : ℕ)
      → 0 < n
      → n ≤ y
      → y < 2 ^ 63
      → covers fc (pos y) (record { amount = neg_ℤ (pos n); asset_id = asset }) ≡ some true
  unfolding asset_ge
  covers_debit y asset n positive h fits =
      let negated : fc.safe_neg (neg_ℤ (pos n)) ≡ some (pos n) =
        fc.safe_neg_fits (neg_ℤ (pos n))
          (fits_of_pos (neg_ℤ (neg_ℤ (pos n))) n (neg_neg n) (omega (arith, h, fits)))
        ∙ ap some (neg_neg n) in
      let low : ltb_ℤ (pos 0) (neg_ℤ (pos n)) ≡ false = ground (arith, positive) in
      rw (low, negated) (ground (arith, h))

  adjust_none :
      (owner asset n : ℕ) (bs : List AccountBalance)
      → find_balance owner asset bs ≡ none
      → 0 < n
      → adjust_balance fc owner (record { amount = pos n; asset_id = asset }) bs
        ≡ some (record { owner = owner; asset_type = asset; balance = pos n } ∷ bs)
  unfolding adjust_balance
  adjust_none owner asset n bs found positive = rw found (ground (arith, positive))

  pub credit_found :
      (owner asset n y : ℕ) (bs : List AccountBalance) (found : Option ℤ)
      → find_balance owner asset bs ≡ found
      → 0 < n
      → y + n < 2 ^ 63
      → amount_of bs owner asset ≡ pos y
      → (after : List AccountBalance) × (adjust_balance fc owner
            (record { amount = pos n; asset_id = asset })
            bs
          ≡ some after)
        × Sets bs after owner asset (pos (y + n))
  unfolding get_balance adjust_balance
  credit_found owner asset n y bs none found positive fits h =
      let zero : pos 0 ≡ pos y = sym (amount_of-missing bs owner asset found) ∙ h in
      let whole : n ≡ y + n = ground (arith, zero) in
      (
        record { owner = owner; asset_type = asset; balance = pos n } ∷ bs,
        adjust_none owner asset n bs found positive,
        subst
            (λ k.
              Sets bs (record { owner = owner; asset_type = asset; balance = pos n } ∷ bs) owner
                asset (pos k))
            whole (new-Sets bs owner asset (pos n)),
      )
  credit_found owner asset n y bs (some v) found positive fits h =
      let same : v ≡ pos y = sym (amount_of-found bs owner asset v found) ∙ h in
      let found' = found ∙ ap some same in
      (
        set_balance owner asset (pos (y + n)) bs,
        adjust_some owner asset y (y + n) (pos n) bs (ground (arith, positive)) found'
            (covers_credit (pos y) asset n positive) (plus_pos y n) fits,
        set_balance-Sets bs owner asset (pos y) (pos (y + n)) found',
      )

  pub debit_found :
      (owner asset n y : ℕ) (bs : List AccountBalance)
      → 0 < n
      → n ≤ y
      → y < 2 ^ 63
      → find_balance owner asset bs ≡ some (pos y)
      → (after : List AccountBalance) × (adjust_balance fc owner
            (record { amount = neg_ℤ (pos n); asset_id = asset })
            bs
          ≡ some after)
        × Sets bs after owner asset (pos (y - n))
  debit_found owner asset n y bs positive enough fits found = (
    set_balance owner asset (pos (y - n)) bs,
    adjust_some owner asset y (y - n) (neg_ℤ (pos n)) bs (ground (arith, positive)) found
        (covers_debit y asset n positive enough fits) (minus_pos y n enough) (omega (arith, fits)),
    set_balance-Sets bs owner asset (pos y) (pos (y - n)) found,
  )

-- A balance that is not zero is in the index.
pub found_of_amount :
    (bs : List AccountBalance) (o i x : ℕ)
    → 0 < x
    → amount_of bs o i ≡ pos x
    → find_balance o i bs ≡ some (pos x)
unfolding get_balance
found_of_amount bs o i x positive h = ground (arith, positive, h)
