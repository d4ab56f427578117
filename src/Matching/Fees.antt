-- ===== src/Matching/Fees.antt =====
-- The amount of a market fee is not negative when the options of the asset are valid.
use bitshares_toolkit.Common.{
  ℕ, ◌==◌, ◌≡◌, refl, Bool, true, false, leb, not, ◌&&◌, some, if◌then◌else◌, arith, >>=-eq-some,
  fc_assert,
}
use bitshares_toolkit.Common.Int.{ℤ, pos, ltb_ℤ, leb_ℤ}
use bitshares_toolkit.Fc.{Fc}
use bitshares_toolkit.Operations.{positive, nonneg}
use bitshares_toolkit.Asset.{max_share_supply}
use bitshares_toolkit.Operations.Options.{has_any, AssetOptions, options_validate}
use bitshares_toolkit.Matching.{percent_fee, charge_market_fee, calculate_market_fee}

abbrev pub NonNegative : ℤ → Type 0
NonNegative a = leb_ℤ (pos 0) a ≡ true

pub asserted : (b : Bool) (u : Unit {0}) → fc_assert b ≡ some u → b ≡ true
asserted true u h = refl
asserted false u h = cc

first_of : (a b : Bool) → a && b ≡ true → a ≡ true
first_of true b h = refl
first_of false b h = cc

fees_of_options :
    (o : AssetOptions)
    → options_validate o ≡ some tt
    → NonNegative o.max_market_fee × NonNegative o.min_market_fee
unfolding options_validate
fees_of_options o h =
    let (_, _, after_positive) = >>=-eq-some (fc_assert (positive o.max_supply)) _ h in
    let (_, _, after_supply) =
      >>=-eq-some (fc_assert (leb_ℤ o.max_supply (pos max_share_supply))) _ after_positive in
    let (_, _, after_percent) =
      >>=-eq-some (fc_assert (leb o.market_fee_percent 10000)) _ after_supply in
    let (u, highest, after_max) =
      >>=-eq-some
        (fc_assert (nonneg o.max_market_fee && leb_ℤ o.max_market_fee (pos max_share_supply))) _
        after_percent in
    let (v, lowest, _) =
      >>=-eq-some
        (fc_assert (nonneg o.min_market_fee && leb_ℤ o.min_market_fee (pos max_share_supply))) _
        after_max in
    (
      first_of (nonneg o.max_market_fee) (leb_ℤ o.max_market_fee (pos max_share_supply))
          (asserted _ u highest),
      first_of (nonneg o.min_market_fee) (leb_ℤ o.min_market_fee (pos max_share_supply))
          (asserted _ v lowest),
    )

choice-NonNegative :
    (b c d e : Bool) (n : ℕ) (low high : ℤ)
    → NonNegative low
    → NonNegative high
    → NonNegative
        (if b then pos 0 else if c then low else if d then high else if e then low else pos n)
choice-NonNegative b c d e n low high h k = ground (arith, h, k)

pub calculate_market_fee-NonNegative :
    (fc : Fc) (o : AssetOptions) (amount : ℤ)
    → options_validate o ≡ some tt
    → NonNegative (calculate_market_fee fc o amount)
unfolding calculate_market_fee
calculate_market_fee-NonNegative fc o amount h =
    let (highest, lowest) = fees_of_options o h in
    choice-NonNegative (not (has_any o.flags charge_market_fee)) (o.market_fee_percent == 0)
      (ltb_ℤ o.max_market_fee (percent_fee fc o amount))
      (ltb_ℤ (percent_fee fc o amount) o.min_market_fee)
      (fc.to_uint64 (fc.div128 (fc.mul128 (fc.to_uint128 amount) o.market_fee_percent) 10000))
      o.min_market_fee o.max_market_fee lowest highest

pub not_positive : (d : ℤ) → ltb_ℤ (pos 0) d ≡ false → NonNegative d → d ≡ pos 0
not_positive d h k = ground (arith, h, k)
