-- ===== src/FeePayment/Distribution.antt =====
-- What a paid fee adds to the objects that take it.
use bitshares_toolkit.Common.{
  ℕ, ◌+◌, ◌-◌, ◌==◌, ◌≡◌, ◌≢◌, refl, sym, ap, subst, ◌∙◌, Bool, false, some, if◌then◌else◌, ◌>>=◌,
  arith, Bool-cases, inl, inr, >>=-eq-some, eq_of_some, ==_iff, fc_assert,
}
use bitshares_toolkit.Common.Int.{ℤ, pos, eq_of_parts, parts_of_sum, ◌+ℤ◌, ◌-ℤ◌, int_laws}
use bitshares_toolkit.Fc.{Fc}
use bitshares_toolkit.Asset.{Asset}
use bitshares_toolkit.Operations.Options.{ChainParameters}
use bitshares_toolkit.Payments.{FeeShares, fee_shares, bulk_cashback, split_total}
use bitshares_toolkit.Matching.{put}
use bitshares_toolkit.Matching.Fees.{asserted}
use bitshares_toolkit.VestingLedger.{deposit_cashback}
use bitshares_toolkit.VestingLedger.Amounts.{held, deposit_cashback_adds}
use bitshares_toolkit.FeePayment.{Treasury, exchange_with_pool, distribute, pay_fee}
use bitshares_toolkit.FeePayment.FreeIds.{NextIsFree, deposit_cashback-NextIsFree}

shares_total :
    (p : ChainParameters) (is_prime : Bool) (paid : ℤ) (fee : ℕ) (s : FeeShares)
    → fee_shares p is_prime paid fee ≡ some s
    → s.referral + s.cashback + s.accumulated + s.burned ≡ fee
unfolding fee_shares
shares_total p is_prime paid fee s h =
    let (cashback, first, h1) = >>=-eq-some (bulk_cashback p is_prime paid fee) _ h in
    let (shares, second, h2) = >>=-eq-some (split_total p cashback (fee - cashback)) _ h1 in
    let (u, checked, e) =
      >>=-eq-some
        (fc_assert (shares.referral + shares.cashback + shares.accumulated + shares.burned == fee))
        _ h2 in
    let total =
      (==_iff (shares.referral + shares.cashback + shares.accumulated + shares.burned) fee).0 (
        asserted (shares.referral + shares.cashback + shares.accumulated + shares.burned == fee) u
          checked) in
    subst (λ s'. s'.referral + s'.cashback + s'.accumulated + s'.burned ≡ fee) (eq_of_some e) total

all_shares :
    (h h1 h2 a a' k : ℤ) (r c w b core : ℕ)
    → h1 ≡ h +ℤ pos r
    → h2 ≡ h1 +ℤ pos c
    → k ≡ pos w +ℤ pos b
    → a' ≡ a +ℤ k
    → r + c + w + b ≡ core
    → h2 +ℤ a' ≡ (h +ℤ a) +ℤ pos core
all_shares h h1 h2 a a' k r c w b core e1 e2 e3 e4 sum =
    let p1 = parts_of_sum h (pos r) (sym e1) in
    let p2 = parts_of_sum h1 (pos c) (sym e2) in
    let p3 = parts_of_sum (pos w) (pos b) (sym e3) in
    let p4 = parts_of_sum a k (sym e4) in
    eq_of_parts (h2 +ℤ a') ((h +ℤ a) +ℤ pos core) (omega int_laws)

put_other : (x k : ℕ) (f : ℕ → ℤ) (v : ℤ) → x ≢ k → put f k v x ≡ f x
put_other x k f v h = ground (arith, h)

put_same : (k : ℕ) (f : ℕ → ℤ) (v : ℤ) → put f k v k ≡ v
put_same k f v = ground arith

distribute-sum :
    (fc : Fc) (account core : ℕ) (s : FeeShares) (t t' : Treasury)
    → NextIsFree t.ledger
    → s.referral + s.cashback + s.accumulated + s.burned ≡ core
    → distribute fc account core s t ≡ some t'
    → (held 0 t'.ledger +ℤ t'.accumulated_fees 0
        ≡ (held 0 t.ledger +ℤ t.accumulated_fees 0) +ℤ pos core)
      × ((x : ℕ) → x ≢ 0 → t'.accumulated_fees x ≡ t.accumulated_fees x)
      × (t'.fee_pool ≡ t.fee_pool)
unfolding distribute
distribute-sum fc account core s t t' free total h =
    let (kept, kept_is, h1) = >>=-eq-some (fc.safe_add (pos s.accumulated) (pos s.burned)) _ h in
    let (acc, acc_is, h2) = >>=-eq-some (fc.safe_add (t.accumulated_fees 0) kept) _ h1 in
    let (paid, paid_is, h3) =
      >>=-eq-some (fc.safe_add (t.lifetime_fees_paid account) (pos (core - s.cashback))) _ h2 in
    let (referred, first, h4) =
      >>=-eq-some (deposit_cashback fc (t.referrer account) (pos s.referral) t.ledger) _ h3 in
    let (ledger, second, e) =
      >>=-eq-some (deposit_cashback fc account (pos s.cashback) referred) _ h4 in
    let free' =
      deposit_cashback-NextIsFree fc (t.referrer account) (pos s.referral) t.ledger referred free
        first in
    let adds : (x : ℕ)
        → held x referred ≡ held x t.ledger +ℤ (if x == 0 then pos s.referral else pos 0) =
      λ x.
        deposit_cashback_adds fc x (t.referrer account) (pos s.referral) t.ledger referred
          (free t.ledger.next_vesting (omega arith)) first in
    let adds' : (x : ℕ)
        → held x ledger ≡ held x referred +ℤ (if x == 0 then pos s.cashback else pos 0) =
      λ x.
        deposit_cashback_adds fc x account (pos s.cashback) referred ledger
          (free' referred.next_vesting (omega arith)) second in
    rw (sym (eq_of_some e)) (
      all_shares (held 0 t.ledger) (held 0 referred) (held 0 ledger) (t.accumulated_fees 0) acc kept
          s.referral s.cashback s.accumulated s.burned core (adds 0) (adds' 0)
          (fc.safe_add_exact _ _ _ kept_is) (fc.safe_add_exact _ _ _ acc_is) total,
      λ x other. put_other x 0 t.accumulated_fees acc other,
      refl,
    )

not_equal : (i j : ℕ) → (i == j) ≡ false → i ≢ j
not_equal i j h = ground (arith, h)

exchange_with_pool-exact :
    (fc : Fc) (fee : Asset) (core : ℕ) (t t' : Treasury)
    → exchange_with_pool fc fee core t ≡ some t'
    → (t'.ledger ≡ t.ledger)
      × (t'.accumulated_fees 0 ≡ t.accumulated_fees 0)
      × (fee.asset_id ≡ 0 → t'.fee_pool ≡ t.fee_pool)
      × (fee.asset_id ≢ 0
          → (t'.accumulated_fees fee.asset_id ≡ t.accumulated_fees fee.asset_id +ℤ fee.amount)
            × (t'.fee_pool fee.asset_id ≡ t.fee_pool fee.asset_id -ℤ pos core))
unfolding exchange_with_pool
exchange_with_pool-exact fc fee core t t' h = elim (Bool-cases (fee.asset_id == 0)) [
  | inl is_core ↦
      let same : some t ≡ some t' = sym (rw is_core refl) ∙ h in
      rw (sym (eq_of_some same))
        (refl, refl, λ zero. refl, λ other. absurd (other ((==_iff fee.asset_id 0).0 is_core)))
  | inr is_other ↦
      let step : (fc.safe_add (t.accumulated_fees fee.asset_id) fee.amount >>= λ accumulated.
      fc.safe_sub (t.fee_pool fee.asset_id) (pos core) >>= λ pool. some (record t {
        accumulated_fees = put t.accumulated_fees fee.asset_id accumulated;
        fee_pool = put t.fee_pool fee.asset_id pool;
      }))
          ≡ some t' =
        sym (rw is_other refl) ∙ h in
      let (accumulated, added, h1) =
        >>=-eq-some (fc.safe_add (t.accumulated_fees fee.asset_id) fee.amount) _ step in
      let (pool, taken, e) = >>=-eq-some (fc.safe_sub (t.fee_pool fee.asset_id) (pos core)) _ h1 in
      let not_core = not_equal fee.asset_id 0 is_other in
      rw (sym (eq_of_some e)) (
        refl,
        put_other 0 fee.asset_id t.accumulated_fees accumulated (λ same. not_core (sym same)),
        λ zero. absurd (not_core zero),
        λ other. (
          put_same fee.asset_id t.accumulated_fees accumulated ∙ fc.safe_add_exact _ _ _ added,
          put_same fee.asset_id t.fee_pool pool ∙ fc.safe_sub_exact _ _ _ taken,
        ),
      )
]

-- If no vesting balance has the next id or a later one and the payment of a fee returns, then the core asset that the
-- balances, the vesting balances and the accumulated fees hold together has grown by the fee in core. For a
-- fee in core no fee pool changes; for another one, the fee goes to the accumulated fees of its asset, and
-- the fee in core comes out of the fee pool of that asset.
pub pay_fee_distributes :
    (fc : Fc) (account : ℕ) (fee : Asset) (core : ℕ) (t t' : Treasury)
    → NextIsFree t.ledger
    → pay_fee fc account fee core t ≡ some t'
    → (held 0 t'.ledger +ℤ t'.accumulated_fees 0
        ≡ (held 0 t.ledger +ℤ t.accumulated_fees 0) +ℤ pos core)
      × (fee.asset_id ≡ 0 → t'.fee_pool ≡ t.fee_pool)
      × (fee.asset_id ≢ 0
          → (t'.accumulated_fees fee.asset_id ≡ t.accumulated_fees fee.asset_id +ℤ fee.amount)
            × (t'.fee_pool fee.asset_id ≡ t.fee_pool fee.asset_id -ℤ pos core))
unfolding pay_fee
pay_fee_distributes fc account fee core t t' free h =
    let (shares, shared, h1) =
      >>=-eq-some (fee_shares t.parameters (t.is_prime account) (t.lifetime_fees_paid account) core)
        _ h in
    let (t1, exchanged, distributed) = >>=-eq-some (exchange_with_pool fc fee core t) _ h1 in
    let (ledger_same, core_same, for_core, for_other) =
      exchange_with_pool-exact fc fee core t t1 exchanged in
    let total =
      shares_total t.parameters (t.is_prime account) (t.lifetime_fees_paid account) core shares
        shared in
    let (grown, others, pools) =
      distribute-sum fc account core shares t1 t' (subst NextIsFree (sym ledger_same) free) total
        distributed in
    (
      grown ∙ rw (core_same, ledger_same) refl,
      λ is_core. pools ∙ for_core is_core,
      λ is_other.
          let (added, taken) = for_other is_other in
          (others fee.asset_id is_other ∙ added, ap (λ f. f fee.asset_id) pools ∙ taken),
    )
