-- ===== src/Withdrawals/Claims.antt =====
-- What a claim may take.
use native.Mathlib.Nat.{div-mul-le_self}
use bitshares_toolkit.Common.{
  ℕ, ◌+◌, ◌-◌, ◌*◌, ◌/◌, ◌^◌, ◌==◌, ◌≤◌, ◌<◌, ◌≡◌, refl, ap, ◌∙◌, Bool, true, false, Option, none,
  some, if◌then◌else◌, ◌>>=◌, ◌>>◌, fc_assert, arith, Bool-cases, inl, inr,
}
use bitshares_toolkit.Common.Int.{pos, eqb_ℤ, ◌-ℤ◌, ◌+ℤ◌, ◌≤ℤ◌}
use bitshares_toolkit.Fc.{Fc}
use bitshares_toolkit.Fc.Time.{FcTime}
use bitshares_toolkit.Asset.{Asset, asset_le}
use bitshares_toolkit.Withdrawals.{
  Permit, available_this_period, quotient, to_uint32, times, claim_permit,
}

-- The checks of a claim, for any outcome of their tests
pub checks-hold :
    (a b c : Bool) (available : Option Asset) (within : Asset → Bool) (enough : Option Bool)
    (rest : Option (Unit {0}))
    → (do
      fc_assert a
      fc_assert b
      fc_assert c
      x ← available
      fc_assert (within x)
      covered ← enough
      fc_assert covered
      rest)
      ≡ some tt
    → (x : Asset) × (available ≡ some x) × (within x ≡ true) × (enough ≡ some true)
checks-hold a b c none within enough rest h = ground (arith, h)
checks-hold a b c (some x) within none rest h = ground (arith, h)
checks-hold a b c (some x) within (some e) rest h = (x, refl, ground (arith, h), ground (arith, h))

-- In the asset of the limit, the order of assets is the order of amounts.
pub asset_le-same :
    (a b : Asset) → a.asset_id ≡ b.asset_id → asset_le a b ≡ true → a.amount ≤ℤ b.amount
unfolding asset_le
asset_le-same a b h e = ground (arith, h, e)

-- The whole periods between two times, as a quotient
quotient_lem :
    (time : FcTime) (now start period : ℕ)
    → 0 < period
    → start ≤ now
    → now < 2 ^ 32
    → quotient (time.seconds_between now start) period ≡ some (pos ((now - start) / period))
unfolding ◌-ℤ◌
quotient_lem time now start period positive order small =
    let apart : (period == 0) ≡ false = ground (arith, positive) in
    let between : time.seconds_between now start ≡ pos (now - start) =
      time.seconds_between_lem now start small (omega (arith, order, small))
      ∙ ground (arith, order) in
    rw (between, apart) (ground arith)

to_uint32-times : (k n : ℕ) → k * n < 2 ^ 32 → to_uint32 (times (pos k) n) ≡ k * n
to_uint32-times k n h = ground (arith, h)

module _ (fc : Fc) (time : FcTime) where
  pub available_bound :
      (p : Permit) (now l c : ℕ) (a : Asset)
      → p.withdrawal_limit.amount ≡ pos l
      → p.claimed_this_period ≡ pos c
      → c ≤ l
      → l < 2 ^ 63
      → p.next_period_start_time + p.withdrawal_period_sec < 2 ^ 32
      → available_this_period fc time p now ≡ some a
      → (a.asset_id ≡ p.withdrawal_limit.asset_id)
        × (a.amount ≤ℤ pos l)
        × (now ≤ p.next_period_start_time + p.withdrawal_period_sec → a.amount ≤ℤ pos (l - c))
  unfolding available_this_period ◌-ℤ◌
  available_bound p now l c a hl hc order small fits h =
      let left : fc.safe_sub p.withdrawal_limit.amount p.claimed_this_period ≡ some (pos (l - c)) =
        ap (λ z. fc.safe_sub z p.claimed_this_period) hl
        ∙ ap (fc.safe_sub (pos l)) hc
        ∙ fc.safe_sub_fits (pos l) (pos c) (ground (arith, order, small))
        ∙ ground (arith, order) in
      ground (
        arith,
        h,
        hl,
        left,
        order,
        time.plus_fits p.next_period_start_time p.withdrawal_period_sec fits,
      )

  -- The permission after a claim of `n`
  pub claim_permit_lem :
      (p : Permit) (now c n : ℕ)
      → p.claimed_this_period ≡ pos c
      → c + n < 2 ^ 63
      → 0 < p.withdrawal_period_sec
      → p.next_period_start_time ≤ now
      → now < 2 ^ 32
      → let k = (now - p.next_period_start_time) / p.withdrawal_period_sec in
        claim_permit fc time now (pos n) p
        ≡ some (record p {
          next_period_start_time = p.next_period_start_time + k * p.withdrawal_period_sec;
          claimed_this_period = if k == 0 then pos (c + n) else pos n;
        })
  unfolding claim_permit ◌+ℤ◌
  claim_permit_lem p now c n hc fits positive order small =
      let start = p.next_period_start_time in
      let period = p.withdrawal_period_sec in
      let k = (now - start) / period in
      let whole : k * period ≤ now - start = div-mul-le_self (now - start) period in
      let advanced : time.plus start (to_uint32 (times (pos k) period)) ≡ start + k * period =
        ap (time.plus start) (to_uint32-times k period (omega (arith, whole, order, small)))
        ∙ time.plus_fits start (k * period) (omega (arith, whole, order, small)) in
      let added : fc.safe_add p.claimed_this_period (pos n) ≡ some (pos (c + n)) =
        ap (λ z. fc.safe_add z (pos n)) hc
        ∙ fc.safe_add_fits (pos c) (pos n) (ground (arith, fits))
        ∙ ground arith in
      let split = quotient_lem time now start period positive order small in
      rw split (elim (Bool-cases (k == 0)) [
        | inl none_over ↦
            let zero : eqb_ℤ (pos k) (pos 0) ≡ true = ground (arith, none_over) in
            rw (zero, added, advanced, none_over) refl
        | inr over ↦
            let some_over : eqb_ℤ (pos k) (pos 0) ≡ false = ground (arith, over) in
            rw (some_over, advanced, over) refl
      ])
