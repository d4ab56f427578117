-- ===== src/Settlement/Volume.antt =====
-- The volume against one formula for every percentage.
use native.Mathlib.Nat.{mul-le-mul_left}
use bitshares_toolkit.Common.{
  ℕ, ◌+◌, ◌*◌, ◌/◌, ◌^◌, ◌==◌, ◌≤◌, ◌<◌, ◌≡◌, ap, ◌∙◌, Bool-cases, inl, inr, ==_iff, some, arith,
}
use bitshares_toolkit.Common.Int.{pos, ◌+ℤ◌}
use bitshares_toolkit.Fc.{Fc, IsInt64}
use bitshares_toolkit.Settlement.{hundred_percent, max_force_settlement_volume}

plus_pos : (a b : ℕ) → pos a +ℤ pos b ≡ pos (a + b)
unfolding ◌+ℤ◌
plus_pos a b = ground arith

fits_of_pos : (a b : ℕ) → a + b < 2 ^ 63 → IsInt64 (pos a +ℤ pos b)
unfolding ◌+ℤ◌
fits_of_pos a b h = ground arith

-- The computed branch.
some_share :
    (fc : Fc) (percent sum : ℕ)
    → sum < 2 ^ 63
    → sum * percent < 2 ^ 128
    → sum * percent / hundred_percent ≤ sum
    → fc.to_uint64 (fc.div128 (fc.mul128 (fc.to_uint128 (pos sum)) percent) hundred_percent)
      ≡ sum * percent / hundred_percent
some_share fc percent sum fits small most =
    ap (λ n. fc.to_uint64 (fc.div128 (fc.mul128 n percent) hundred_percent))
      (fc.to_uint128_pos sum fits)
    ∙ ap (λ n. fc.to_uint64 (fc.div128 n hundred_percent)) (fc.mul128_fits sum percent small)
    ∙ ap fc.to_uint64 (fc.div128_lem (sum * percent) hundred_percent (omega arith) small)
    ∙ fc.to_uint64_fits (sum * percent / hundred_percent) (omega (arith, most, fits))

-- For a supply and a settled volume that are not negative and whose sum is a share amount, the volume
-- is the given percentage of the sum, rounded down, and at most the sum: nothing at zero percent,
-- all at a hundred, where the code takes short cuts, and the same formula between.
pub max_force_settlement_volume_lem :
    (fc : Fc) (percent settled supply : ℕ)
    → percent ≤ hundred_percent
    → supply + settled < 2 ^ 63
    → (max_force_settlement_volume fc
          (record { maximum_force_settlement_volume = percent; force_settled_volume = pos settled })
          (pos supply)
        ≡ some (pos ((supply + settled) * percent / hundred_percent)))
      × ((supply + settled) * percent / hundred_percent ≤ supply + settled)
unfolding max_force_settlement_volume
max_force_settlement_volume_lem fc percent settled supply h fits =
    let sum = supply + settled in
    let share = mul-le-mul_left sum h in
    let small : sum * percent < 2 ^ 128 = omega (arith, share, fits) in
    let most : sum * percent / 10000 ≤ sum = omega (arith, share) in
    (
      elim (Bool-cases (percent == 0)) [
        | inl nothing ↦ rw nothing (
            let z : percent ≡ 0 = (==_iff _ _).0 nothing in
            let zero : 0 ≡ sum * percent / 10000 =
              let product : sum * percent ≡ sum * 0 = ap (λ n. sum * n) z in
              omega (arith, product) in
            ap (λ n. some (pos n)) zero)
        | inr positive ↦ elim (Bool-cases (percent == hundred_percent)) [
          | inl all ↦
              rw (positive, all)
                (fc.safe_add_fits (pos supply) (pos settled) (fits_of_pos supply settled fits)
                  ∙ ap some (
                      plus_pos supply settled
                      ∙ ap pos (
                          let whole : percent ≡ 10000 = (==_iff _ _).0 all in
                          let product : sum * percent ≡ sum * 10000 = ap (λ n. sum * n) whole in
                          omega (arith, product))))
          | inr some_part ↦
              rw (positive, some_part)
                (ap
                    (λ z. some (
                      pos (
                        fc.to_uint64
                          (fc.div128 (fc.mul128 (fc.to_uint128 z) percent) hundred_percent))))
                    (plus_pos supply settled)
                  ∙ ap (λ n. some (pos n)) (some_share fc percent sum fits small most))
        ]
      ],
      most,
    )
