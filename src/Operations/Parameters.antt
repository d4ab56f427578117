-- ===== src/Operations/Parameters.antt =====
-- The check of the genesis review period in `chain_parameters::validate`.
use bitshares_toolkit.Common.{◌+◌, ◌-◌, ◌^◌, ◌≤◌, ◌<◌, ◌≡◌, ◌↔◌, true, arith, ltb→lt, lt→ltb}
use bitshares_toolkit.Operations.Options.{ChainParameters, review_fits}

-- With a review period of at most the proposal lifetime (both `uint32_t`), the check passes exactly if
-- the time between them is longer than a block interval; with a longer review period, which it
-- means to reject, the difference wraps and it passes, unless the excess is within a block interval
-- of 2^32.
pub review_fits_lem :
    (p : ChainParameters)
    → p.maximum_proposal_lifetime < 2 ^ 32
    → p.genesis_proposal_review_period < 2 ^ 32
    → (p.genesis_proposal_review_period ≤ p.maximum_proposal_lifetime
        → (review_fits p ≡ true)
          ↔ (p.block_interval < p.maximum_proposal_lifetime - p.genesis_proposal_review_period))
      × (p.maximum_proposal_lifetime < p.genesis_proposal_review_period
          → p.genesis_proposal_review_period - p.maximum_proposal_lifetime + p.block_interval
            < 2 ^ 32
          → review_fits p ≡ true)
unfolding review_fits
review_fits_lem p h k = (
  λ le.
      (λ e. omega (arith, ltb→lt _ _ e, h, k, le), λ lt. lt→ltb _ _ (omega (arith, lt, h, k, le))),
  λ lt far. lt→ltb _ _ (omega (arith, lt, far, h, k)),
)
