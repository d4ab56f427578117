-- ===== src/Withdrawals/Limits.antt =====
-- The limit of a permission, and the assets that it does not hold for.
use native.Mathlib.Nat.{div-mul-le_self, lt-div-mul-add, mul-le-mul_right}
use bitshares_toolkit.Common.{
  ℕ, ◌+◌, ◌-◌, ◌*◌, ◌/◌, ◌^◌, ◌==◌, ◌≤◌, ◌<◌, ◌≡◌, ◌≢◌, refl, sym, ap, subst, ◌∙◌, Bool, true,
  false, some, List, ltb, if◌then◌else◌, ◌>>=◌, arith, Bool-cases, inl, inr, lt→ltb, ==_iff,
}
use bitshares_toolkit.Common.Int.{pos, ◌≤ℤ◌}
use bitshares_toolkit.Common.Maps.{Map, find, insert, find-insert}
use bitshares_toolkit.Fc.{Fc}
use bitshares_toolkit.Fc.Time.{FcTime}
use bitshares_toolkit.Asset.{Asset, asset_ge, asset_le}
use bitshares_toolkit.Operations.Options.{has_any, white_list, transfer_restricted}
use bitshares_toolkit.Operations.Permissions.{WithdrawPermissionClaimOperation}
use bitshares_toolkit.Transfers.{AccountBalance, AssetObject, get_balance, transfer_apply}
use bitshares_toolkit.Transfers.Balances.{amount_of}
use bitshares_toolkit.Transfers.Checks.{asset_ge-true, get_balance-asset_id}
use bitshares_toolkit.Transfers.Moves.{Moves, transfer_apply-Moves}
use bitshares_toolkit.Withdrawals.{
  Permit, Chain, available_this_period, asset_checks, claim_checks, claim_evaluate, claim_permit,
  claim_apply,
}
use bitshares_toolkit.Withdrawals.Claims.{
  checks-hold, asset_le-same, available_bound, claim_permit_lem,
}

-- What an accepted claim has checked.
claim_evaluate-checked :
    (fc : Fc) (time : FcTime) (d : Chain) (op : WithdrawPermissionClaimOperation) (p : Permit)
    → find op.withdraw_permission d.permits ≡ some p
    → claim_evaluate fc time op d ≡ some tt
    → (a : Asset) × (available_this_period fc time p d.head_block_time ≡ some a)
      × (asset_le op.amount_to_withdraw a ≡ true)
      × (asset_ge
            (get_balance d.balances op.withdraw_from_account op.amount_to_withdraw.asset_id)
            op.amount_to_withdraw
          ≡ some true)
unfolding claim_evaluate
claim_evaluate-checked fc time d op p found h =
    let checks : claim_checks fc time p op d ≡ some tt = sym (rw found refl) ∙ h in
    checks-hold (ltb d.head_block_time p.expiration)
      (p.authorized_account == op.withdraw_to_account)
      (p.withdraw_from_account == op.withdraw_from_account)
      (available_this_period fc time p d.head_block_time) (asset_le op.amount_to_withdraw)
      (asset_ge (get_balance d.balances op.withdraw_from_account op.amount_to_withdraw.asset_id)
        op.amount_to_withdraw)
      (d.assets op.amount_to_withdraw.asset_id >>= asset_checks p op d) checks

-- Claims of `n` after `c` in the period that holds `now`
claimed_within :
    (now start period l c n : ℕ)
    → 0 < period
    → start ≤ now
    → c ≤ l
    → n ≤ l
    → (now ≤ start + period → n ≤ l - c)
    → let k = (now - start) / period in
      let total = if k == 0 then c + n else n in
      (total ≤ l)
      × (now < start + period → (total ≡ c + n) × (start + k * period ≡ start))
      × (start + period ≤ now → total ≡ n)
      × (start + k * period ≤ now)
      × (now < start + k * period + period)
claimed_within now start period l c n positive order cl nl within =
    let k = (now - start) / period in
    let low : k * period ≤ now - start = div-mul-le_self (now - start) period in
    let high : now - start < k * period + period = lt-div-mul-add positive in
    elim (Bool-cases (k == 0)) [
      | inl none_over ↦
          let e : k ≡ 0 = (==_iff k 0).0 none_over in
          let e' : k * period ≡ 0 * period = ap (λ j. j * period) e in
          let soon : n ≤ l - c = within (omega (arith, e', high, order)) in
          rw none_over (
            omega (arith, soon, cl),
            (λ h. (refl, omega (arith, e'))),
            (λ h. absurd (omega (arith, h, e', high, order))),
            omega (arith, low, order),
            omega (arith, high, order),
          )
      | inr over ↦
          let e : 1 ≤ k = ground (arith, over) in
          let e' : 1 * period ≤ k * period = mul-le-mul_right period e in
          rw over (
            nl,
            (λ h. absurd (omega (arith, h, e', low, order))),
            (λ h. refl),
            omega (arith, low, order),
            omega (arith, high, order),
          )
    ]

apply_runs :
    (fc : Fc) (time : FcTime) (d : Chain) (op : WithdrawPermissionClaimOperation) (p p' : Permit)
    (after : List AccountBalance)
    → find op.withdraw_permission d.permits ≡ some p
    → claim_permit fc time d.head_block_time op.amount_to_withdraw.amount p ≡ some p'
    → transfer_apply fc op.withdraw_from_account op.withdraw_to_account op.amount_to_withdraw
        d.balances
      ≡ some after
    → claim_apply fc time op d
      ≡ some (record d { permits = insert op.withdraw_permission p' d.permits; balances = after })
unfolding claim_apply
apply_runs fc time d op p p' after found changed moved = rw (found, changed, moved) refl

find-insert_self : (id : ℕ) (p : Permit) (m : Map Permit) → find id (insert id p m) ≡ some p
find-insert_self id p m = find-insert id id p m ∙ ground arith

pos_if : (b : Bool) (m n : ℕ) → (if b then pos m else pos n) ≡ pos (if b then m else n)
pos_if true m n = refl
pos_if false m n = refl

-- A claim that is accepted, in the asset of the limit, of a positive amount, from another account,
-- within a period that has begun, goes through: the amount moves to the account that claims and no other
-- balance changes. What has been claimed in the period that holds the present time stays within the
-- limit: it is the amount on top of the earlier claims if the period is still the same, and the amount
-- alone if a new one has begun. A second claim in a period goes through like the first. The permission
-- keeps a limit below 2^62, a claimed amount between 0 and its limit, a period that is not 0 and times
-- that fit a `uint32_t`; the two balances are not negative and stay below 2^63.
pub claim_keeps_limit :
    (fc : Fc) (time : FcTime) (d : Chain) (op : WithdrawPermissionClaimOperation) (p : Permit)
    (l c n x y : ℕ)
    → find op.withdraw_permission d.permits ≡ some p
    → op.amount_to_withdraw ≡ record { amount = pos n; asset_id = p.withdrawal_limit.asset_id }
    → op.withdraw_from_account ≢ op.withdraw_to_account
    → 0 < n
    → p.withdrawal_limit.amount ≡ pos l
    → p.claimed_this_period ≡ pos c
    → c ≤ l
    → l < 2 ^ 62
    → 0 < p.withdrawal_period_sec
    → p.next_period_start_time ≤ d.head_block_time
    → p.next_period_start_time + p.withdrawal_period_sec < 2 ^ 32
    → d.head_block_time < 2 ^ 32
    → amount_of d.balances op.withdraw_from_account p.withdrawal_limit.asset_id ≡ pos x
    → amount_of d.balances op.withdraw_to_account p.withdrawal_limit.asset_id ≡ pos y
    → x < 2 ^ 63
    → y + n < 2 ^ 63
    → claim_evaluate fc time op d ≡ some tt
    → (d' : Chain) × (p' : Permit) × (total : ℕ) × (claim_apply fc time op d ≡ some d')
      × Moves d.balances d'.balances op.withdraw_from_account op.withdraw_to_account
          p.withdrawal_limit.asset_id
          (pos (x - n))
          (pos (y + n))
      × (find op.withdraw_permission d'.permits ≡ some p')
      × (p'.claimed_this_period ≡ pos total)
      × (total ≤ l)
      × (d.head_block_time < p.next_period_start_time + p.withdrawal_period_sec
          → (total ≡ c + n) × (p'.next_period_start_time ≡ p.next_period_start_time))
      × (p.next_period_start_time + p.withdrawal_period_sec ≤ d.head_block_time → total ≡ n)
      × (p'.next_period_start_time ≤ d.head_block_time)
      × (d.head_block_time < p'.next_period_start_time + p.withdrawal_period_sec)
unfolding claim_apply
claim_keeps_limit fc time d op p l c n x y found paid apart positive hl hc cl small pp order pfits
      now hx hy xfits yfits h =
    let start = p.next_period_start_time in
    let period = p.withdrawal_period_sec in
    let k = (d.head_block_time - start) / period in
    let (a, available, le, ge) = claim_evaluate-checked fc time d op p found h in
    let (same, whole, left) =
      available_bound fc time p d.head_block_time l c a hl hc cl (omega (arith, small)) pfits
        available in
    let le' : asset_le (record { amount = pos n; asset_id = p.withdrawal_limit.asset_id }) a
        ≡ true =
      subst (λ b. asset_le b a ≡ true) paid le in
    let within : pos n ≤ℤ a.amount =
      asset_le-same (record { amount = pos n; asset_id = p.withdrawal_limit.asset_id }) a (sym same)
        le' in
    let nl : n ≤ l = omega (arith, within, whole) in
    let ge' =
      subst
        (λ b. asset_ge (get_balance d.balances op.withdraw_from_account b.asset_id) b ≡ some true)
        paid ge in
    let enough : pos n
        ≤ℤ amount_of d.balances op.withdraw_from_account p.withdrawal_limit.asset_id =
      (asset_ge-true _ _ ge').1 in
    let nx : n ≤ x =
      let covered : pos n ≤ℤ pos x = subst (λ z. pos n ≤ℤ z) hx enough in omega (arith, covered) in
    let facts =
      claimed_within d.head_block_time start period l c n pp order cl nl
        (λ e. let bound = left e in omega (arith, bound, within)) in
    let (after, moved, moves) =
      transfer_apply-Moves fc op.withdraw_from_account op.withdraw_to_account
        p.withdrawal_limit.asset_id n x y d.balances apart positive nx xfits yfits hx hy in
    let p' = record p {
      next_period_start_time = start + k * period;
      claimed_this_period = if k == 0 then pos (c + n) else pos n;
    } in
    (
      record d { permits = insert op.withdraw_permission p' d.permits; balances = after },
      p',
      (if k == 0 then c + n else n),
      apply_runs fc time d op p p' after found
          (ap (λ (b : Asset). claim_permit fc time d.head_block_time b.amount p) paid
            ∙ claim_permit_lem fc time p d.head_block_time c n hc (omega (arith, cl, nl, small)) pp
                order now)
          (ap (λ b. transfer_apply fc op.withdraw_from_account op.withdraw_to_account b d.balances)
              paid
            ∙ moved),
      moves,
      find-insert_self op.withdraw_permission p' d.permits,
      pos_if (k == 0) (c + n) n,
      facts.0,
      (λ e. facts.1 e),
      facts.2,
      facts.3,
      facts.4,
    )

available-asset_id :
    (fc : Fc) (time : FcTime) (p : Permit) (now : ℕ) (a : Asset)
    → available_this_period fc time p now ≡ some a
    → a.asset_id ≡ p.withdrawal_limit.asset_id
unfolding available_this_period
available-asset_id fc time p now a h = ground (arith, h)

asset_le-smaller : (a b : Asset) → a.asset_id < b.asset_id → asset_le a b ≡ true
unfolding asset_le
asset_le-smaller a b h = ground (arith, h)

covered :
    (a : Asset) (bs : List AccountBalance) (owner : ℕ)
    → a.amount ≤ℤ amount_of bs owner a.asset_id
    → asset_ge (get_balance bs owner a.asset_id) a ≡ some true
unfolding asset_ge
covered a bs owner h = ground (arith, h, get_balance-asset_id bs owner a.asset_id)

-- The same claim of an asset with a smaller id than the limit's is accepted whatever its amount and
-- whatever has been claimed: with the permission running, the parties as it names them, the balance
-- enough and an asset without a whitelist or a restriction of transfers, the limit plays no part, since
-- assets are ordered by their id first.
pub claim_ignores_limit :
    (fc : Fc) (time : FcTime) (d : Chain) (op : WithdrawPermissionClaimOperation) (p : Permit)
    (asset : AssetObject) (a : Asset)
    → find op.withdraw_permission d.permits ≡ some p
    → d.head_block_time < p.expiration
    → p.authorized_account ≡ op.withdraw_to_account
    → p.withdraw_from_account ≡ op.withdraw_from_account
    → available_this_period fc time p d.head_block_time ≡ some a
    → op.amount_to_withdraw.asset_id < p.withdrawal_limit.asset_id
    → op.amount_to_withdraw.amount
      ≤ℤ amount_of d.balances op.withdraw_from_account op.amount_to_withdraw.asset_id
    → d.assets op.amount_to_withdraw.asset_id ≡ some asset
    → has_any asset.flags transfer_restricted ≡ false
    → has_any asset.flags white_list ≡ false
    → claim_evaluate fc time op d ≡ some tt
unfolding claim_evaluate
claim_ignores_limit fc time d op p asset a found runs to from available smaller enough known free
      open_list =
    let same : a.asset_id ≡ p.withdrawal_limit.asset_id =
      available-asset_id fc time p d.head_block_time a available in
    let less : asset_le op.amount_to_withdraw a ≡ true =
      asset_le-smaller op.amount_to_withdraw a (omega (arith, same, smaller)) in
    let ge = covered op.amount_to_withdraw d.balances op.withdraw_from_account enough in
    rw
      (
        found,
        lt→ltb _ _ runs,
        (==_iff _ _).1 to,
        (==_iff _ _).1 from,
        available,
        less,
        ge,
        known,
        free,
        open_list,
      )
      refl
