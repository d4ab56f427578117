-- ===== src/Asset/CallPrice.antt =====
-- `price::call_price` of asset.cpp: the price at which a margin position is called.
use native.Mathlib.Nat.{mul-le-mul_left, div-mul-le_self, le-div_iff_mul-le, le_trans}
use bitshares_toolkit.Common.{
  ℕ, ◌-◌, ◌*◌, ◌/◌, ◌^◌, ◌≤◌, ◌<◌, ◌≡◌, true, some, none, arith, leb, if◌then◌else◌,
}
use bitshares_toolkit.Common.Int.{pos, pos_part, ◌-ℤ◌}
use bitshares_toolkit.Fc.{Fc}
use bitshares_toolkit.Asset.{
  Asset, Price, product, price_le, make_price, call_price, max_share_supply,
}
use bitshares_toolkit.Asset.Order.{
  IsAmount, IsAmount-bound, IsPositive, IsPositive-IsAmount, product_bound, product_lem,
}

div_mono : (k a b : ℕ) → 0 < k → a ≤ b → a / k ≤ b / k
div_mono k a b h p =
    (le-div_iff_mul-le {k = k} {x = a / k} {y = b} h).1 (le_trans (div-mul-le_self a k) p)

-- The collateral's part of the call price.
abbrev pub called : Asset → ℕ → ℕ
called collateral ratio = pos_part collateral.amount * (ratio - 1000) / 1000

ratio_lem : (ratio : ℕ) → 1000 ≤ ratio → pos ratio -ℤ pos 1000 ≡ pos (ratio - 1000)
unfolding ◌-ℤ◌
ratio_lem ratio h = ground arith

module _ (fc : Fc) where
  called_lem :
      (collateral : Asset) (ratio : ℕ)
      → IsAmount collateral.amount
      → 1000 ≤ ratio
      → ratio < 2 ^ 16
      → fc.div128 (product fc collateral.amount (pos ratio -ℤ pos 1000)) 1000
        ≡ called collateral ratio
  called_lem collateral ratio hc low high = rw (ratio_lem ratio low) (
      cc (
        product_lem fc collateral.amount (pos (ratio - 1000)) hc (omega arith),
        fc.div128_lem (pos_part collateral.amount * (ratio - 1000)) 1000 (omega arith) (
            omega (
              arith,
              product_bound (pos_part collateral.amount) (ratio - 1000)
                  (IsAmount-bound collateral.amount hc).0 (omega arith),
            )),
      ))

  -- `call_price` in exact arithmetic.
  pub call_price_lem :
      (debt collateral : Asset) (ratio : ℕ)
      → IsAmount collateral.amount
      → 1000 ≤ ratio
      → ratio < 2 ^ 16
      → call_price fc debt collateral ratio ≡ (
          if leb (called collateral ratio) max_share_supply
          then make_price
              (record { amount = pos (called collateral ratio); asset_id = collateral.asset_id })
              debt
          else none)
  unfolding call_price
  call_price_lem debt collateral ratio hc low high =
      ground (
        arith,
        called_lem collateral ratio hc low high,
        fc.to_uint64_fits (called collateral ratio),
      )

  -- For a position whose collateral is not negative and whose debt is positive, a higher collateral
  -- ratio (both from 1000 up) never lowers the call price.
  pub call_price_mono :
      (debt collateral : Asset) (low high : ℕ) (p q : Price)
      → IsAmount collateral.amount
      → IsPositive debt.amount
      → 1000 ≤ low
      → low ≤ high
      → high < 2 ^ 16
      → call_price fc debt collateral low ≡ some p
      → call_price fc debt collateral high ≡ some q
      → price_le fc p q ≡ true
  unfolding price_le make_price
  call_price_mono debt collateral low high p q hc hd h1 h2 h3 e e' = ground (
    arith,
    call_price_lem debt collateral low hc h1 (omega arith),
    call_price_lem debt collateral high hc (omega arith) h3,
    product_lem fc debt.amount (pos (called collateral low)) (IsPositive-IsAmount debt.amount hd),
    product_lem fc debt.amount (pos (called collateral high)) (IsPositive-IsAmount debt.amount hd),
    mul-le-mul_left {m = called collateral low} {n = called collateral high} (pos_part debt.amount)
        (div_mono 1000 (pos_part collateral.amount * (low - 1000))
          (pos_part collateral.amount * (high - 1000)) (omega arith)
          (mul-le-mul_left {m = low - 1000} {n = high - 1000} (pos_part collateral.amount)
            (omega arith))),
  )
