-- ===== src/Payments/Shares.antt =====
-- The shares of a fee add up.
use native.Mathlib.Nat.{mul-add, mul_comm, mul-le-mul_left, div-le_of_le-mul}
use bitshares_toolkit.Common.{
  ℕ, ◌+◌, ◌-◌, ◌*◌, ◌/◌, ◌%◌, ◌^◌, ◌==◌, ◌≤◌, ◌<◌, ◌≡◌, Bool, true, false, some, le→leb, ap, subst,
  sym, ◌∙◌, ltb→lt, ◌&&◌, arith, refl, Bool-cases, inl, inr,
}
use bitshares_toolkit.Common.Int.{ℤ, pos, ◌<ℤ◌, pos_part, ◌-ℤ◌, ltb_ℤ, ◌≤ℤ◌}
use bitshares_toolkit.Operations.Options.{ChainParameters}
use bitshares_toolkit.Payments.{
  int64, bulk_discount_percent, discounted, bulk_cashback, FeeShares, split_total, fee_shares,
}

int64_fits : (n : ℕ) → n < 2 ^ 63 → int64 n ≡ some n
int64_fits n h = ground (arith, h)

discounted_lem :
    (fee percent : ℕ)
    → percent ≤ 10000
    → fee * 10000 < 2 ^ 63
    → (discounted fee percent ≡ some (fee * percent / 10000)) × (fee * percent / 10000 ≤ fee)
discounted_lem fee percent h fits =
    let share = mul-le-mul_left fee h in
    let whole : fee * percent % 2 ^ 64 ≡ fee * percent = omega (arith, share, fits) in
    let low : fee * percent / 10000 ≤ fee = omega (arith, share) in
    (rw whole (ground (arith, h, low)), low)

split_total_lem :
    (p : ChainParameters) (cashback total : ℕ)
    → p.burn_percent_of_fee + p.witness_percent_of_fee ≤ 10000
    → total * 10000 < 2 ^ 63
    → (s : FeeShares) × (split_total p cashback total ≡ some s)
      × (s.cashback ≡ cashback)
      × (s.accumulated ≡ total * p.witness_percent_of_fee / 10000)
      × (s.burned ≡ total * p.burn_percent_of_fee / 10000)
      × (s.referral + s.accumulated + s.burned ≡ total)
unfolding split_total
split_total_lem p cashback total h fits =
    let share = mul-le-mul_left total h in
    let parts : total * (p.burn_percent_of_fee + p.witness_percent_of_fee)
        ≡ total * p.burn_percent_of_fee + total * p.witness_percent_of_fee =
      mul-add total p.burn_percent_of_fee p.witness_percent_of_fee in
    let burn : total * p.burn_percent_of_fee < 2 ^ 63 = omega (arith, share, parts, fits) in
    let witness : total * p.witness_percent_of_fee < 2 ^ 63 = omega (arith, share, parts, fits) in
    let low : total * p.witness_percent_of_fee / 10000 + total * p.burn_percent_of_fee / 10000
        ≤ total =
      omega (arith, share, parts) in
    (
      record {
        cashback = cashback;
        accumulated = total * p.witness_percent_of_fee / 10000;
        burned = total * p.burn_percent_of_fee / 10000;
        referral =
            total
            - total * p.witness_percent_of_fee / 10000
            - total * p.burn_percent_of_fee / 10000;
      },
      rw
          (
            int64_fits (total * p.witness_percent_of_fee) witness,
            int64_fits (total * p.burn_percent_of_fee) burn,
            le→leb
                (total * p.witness_percent_of_fee / 10000 + total * p.burn_percent_of_fee / 10000)
                total low,
          )
          refl,
      refl,
      refl,
      refl,
      omega (arith, low),
    )

-- The differences between a lower threshold, the paid fees above it and an upper threshold.
spans :
    (low high paid : ℤ)
    → low <ℤ paid
    → pos 0 ≤ℤ low
    → ltb_ℤ high paid ≡ false
    → (0 < pos_part (high -ℤ low))
      × (pos_part (paid -ℤ low) ≤ pos_part (high -ℤ low))
      × (pos_part (high -ℤ low) ≤ pos_part high)
unfolding ◌-ℤ◌
spans low high paid over positive within = ground (arith, over, positive, within)

-- A percentage that grows linearly with `above` and is whole at `span`.
between :
    (most above span : ℕ)
    → 0 < span
    → above ≤ span
    → most ≤ 10000
    → span * 10000 < 2 ^ 63
    → (most * above < 2 ^ 63) × (most * above / span ≤ most)
between most above span positive inside h fits =
    let up : most * above ≤ most * span = mul-le-mul_left most inside in
    let bound : span * most ≤ span * 10000 = mul-le-mul_left span h in
    let turn : most * span ≡ span * most = mul_comm most span in
    (
      omega (arith, up, bound, turn, fits),
      div-le_of_le-mul span (subst (λ z. most * above ≤ z) turn up),
    )

-- The percentage, computed between the two thresholds.
percent_lem :
    (p : ChainParameters) (paid : ℤ)
    → p.bulk_discount_threshold_min <ℤ paid
    → pos 0 ≤ℤ p.bulk_discount_threshold_min
    → p.max_bulk_discount_percent_of_fee ≤ 10000
    → pos_part p.bulk_discount_threshold_max * 10000 < 2 ^ 63
    → (percent : ℕ) × (bulk_discount_percent p paid ≡ some percent)
      × (percent ≤ p.max_bulk_discount_percent_of_fee)
unfolding bulk_discount_percent
percent_lem p paid over low h fits = elim (Bool-cases (ltb_ℤ p.bulk_discount_threshold_max paid)) [
  | inl above ↦ (p.max_bulk_discount_percent_of_fee, rw above refl, omega arith)
  | inr within ↦
      let (positive, inside, below) =
        spans p.bulk_discount_threshold_min p.bulk_discount_threshold_max paid over low within in
      let span = pos_part (p.bulk_discount_threshold_max -ℤ p.bulk_discount_threshold_min) in
      let above = pos_part (paid -ℤ p.bulk_discount_threshold_min) in
      let (product, part) =
        between p.max_bulk_discount_percent_of_fee above span positive inside h
          (omega (arith, below, fits)) in
      let apart : (span == 0) ≡ false = ground (arith, positive) in
      (
        p.max_bulk_discount_percent_of_fee * above / span,
        rw
            (
              within,
              apart,
              int64_fits above (omega (arith, inside, below, fits)),
              int64_fits (p.max_bulk_discount_percent_of_fee * above) product,
            )
            refl,
        part,
      )
]

both : (a b : Bool) → (a && b) ≡ true → a ≡ true
both a b h = ground (arith, h)

-- The cashback is at most the given part of the fee.
cashback_lem :
    (p : ChainParameters) (is_prime : Bool) (paid : ℤ) (fee : ℕ)
    → pos 0 ≤ℤ p.bulk_discount_threshold_min
    → p.max_bulk_discount_percent_of_fee ≤ 10000
    → pos_part p.bulk_discount_threshold_max * 10000 < 2 ^ 63
    → fee * 10000 < 2 ^ 63
    → (cashback : ℕ) × (bulk_cashback p is_prime paid fee ≡ some cashback)
      × (cashback ≤ fee * p.max_bulk_discount_percent_of_fee / 10000)
unfolding bulk_cashback
cashback_lem p is_prime paid fee low h high fits =
    elim (Bool-cases (ltb_ℤ p.bulk_discount_threshold_min paid && is_prime)) [
      | inl discount ↦
          let over = ltb→lt _ _ (both _ _ discount) in
          let (percent, computed, most) = percent_lem p paid over low h high in
          let (run, _) = discounted_lem fee percent (omega (arith, most, h)) fits in
          let share = mul-le-mul_left fee most in
          (fee * percent / 10000, rw (discount, computed) run, omega (arith, share))
      | inr full ↦ (0, rw full refl, omega arith)
    ]

-- With a lower threshold that is not negative, a discount of at most a hundred percent, burned and witness parts of
-- together at most a hundred percent, as the parameters' validation requires, and a fee and an upper
-- threshold whose product with 10000 is below 2^63, a fee is divided without an overflow or a failed
-- assert. The shares add up to the fee, the cashback is at most the greatest discount of the fee, and the
-- witnesses' and the burned share are their percentages of what the cashback leaves, rounded down.
pub fee_shares-sum :
    (p : ChainParameters) (is_prime : Bool) (paid : ℤ) (fee : ℕ)
    → pos 0 ≤ℤ p.bulk_discount_threshold_min
    → p.max_bulk_discount_percent_of_fee ≤ 10000
    → p.burn_percent_of_fee + p.witness_percent_of_fee ≤ 10000
    → pos_part p.bulk_discount_threshold_max * 10000 < 2 ^ 63
    → fee * 10000 < 2 ^ 63
    → (s : FeeShares) × (fee_shares p is_prime paid fee ≡ some s)
      × (s.referral + s.cashback + s.accumulated + s.burned ≡ fee)
      × (s.cashback ≤ fee * p.max_bulk_discount_percent_of_fee / 10000)
      × (s.accumulated ≡ (fee - s.cashback) * p.witness_percent_of_fee / 10000)
      × (s.burned ≡ (fee - s.cashback) * p.burn_percent_of_fee / 10000)
unfolding fee_shares
fee_shares-sum p is_prime paid fee low h percents high fits =
    let (cashback, first, most) = cashback_lem p is_prime paid fee low h high fits in
    let share = mul-le-mul_left fee h in
    let (s, second, kept, witness, burn, sum) =
      split_total_lem p cashback (fee - cashback) percents (omega (arith, fits)) in
    let all : s.referral + s.cashback + s.accumulated + s.burned ≡ fee =
      omega (arith, sum, kept, most, share) in
    (
      s,
      rw (first, second) (ground (arith, all)),
      all,
      subst (λ c. c ≤ fee * p.max_bulk_discount_percent_of_fee / 10000) (sym kept) most,
      witness ∙ ap (λ c. (fee - c) * p.witness_percent_of_fee / 10000) (sym kept),
      burn ∙ ap (λ c. (fee - c) * p.burn_percent_of_fee / 10000) (sym kept),
    )
