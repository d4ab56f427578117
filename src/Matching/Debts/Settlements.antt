-- ===== src/Matching/Debts/Settlements.antt =====
-- What filling a forced settlement does to the whole amount of an asset.
use bitshares_toolkit.Common.{
  ℕ, ◌≡◌, refl, sym, ap, ◌∙◌, Bool, true, false, some, ◌>>=◌, arith, Bool-cases, inl, inr,
  >>=-eq-some, eq_of_some,
}
use bitshares_toolkit.Common.Int.{ℤ, eq_of_parts, ◌+ℤ◌, ◌-ℤ◌, int_laws}
use bitshares_toolkit.Common.Maps.{Map, find, insert, erase}
use bitshares_toolkit.Fc.{Fc}
use bitshares_toolkit.Asset.{Asset, asset_lt, asset_sub}
use bitshares_toolkit.Transfers.{adjust_balance}
use bitshares_toolkit.Matching.{pay_market_fees}
use bitshares_toolkit.Matching.Holdings.{
  at, total, in_balances, in_orders, holdings, adjust_balance-sum, insert-sum, erase-sum,
}
use bitshares_toolkit.Matching.Payments.{
  HasValidOptions, pay_market_fees-sum, asset_sub-exact, fee_and_net, add_first,
}
use bitshares_toolkit.Matching.Fills.{sold, given_up}
use bitshares_toolkit.Matching.Debts.{
  ForceSettlement, Debts, asset_min, reduce_settlement, fill_settlement,
}
use bitshares_toolkit.Matching.Debts.Collateral.{in_call, in_settlement, all_of}

pub asset_min-id : (a b : Asset) → b.asset_id ≡ a.asset_id → (asset_min a b).asset_id ≡ a.asset_id
asset_min-id a b same = ground (arith, same)

pub asset_min-bound : (a b c : Asset) → asset_lt a (asset_min (asset_min a b) c) ≡ false
unfolding asset_lt
asset_min-bound a b c = ground arith

equal_amounts :
    (a b : Asset)
    → a.asset_id ≡ b.asset_id
    → asset_lt a b ≡ false
    → asset_lt b a ≡ false
    → a.amount ≡ b.amount
unfolding asset_lt
equal_amounts a b ids h k = ground (arith, eq_of_parts a.amount b.amount)

part_settled :
    (x : ℕ) (balance left pays : Asset)
    → pays.asset_id ≡ balance.asset_id
    → left.asset_id ≡ balance.asset_id
    → left.amount ≡ balance.amount -ℤ pays.amount
    → at x left.asset_id left.amount +ℤ at x pays.asset_id pays.amount
      ≡ at x balance.asset_id balance.amount
part_settled x balance left pays ids left_ids exact =
    rw (ids, left_ids) (sold x balance.asset_id balance.amount pays.amount left.amount exact)

all_settled :
    (x : ℕ) (balance pays : Asset)
    → pays.asset_id ≡ balance.asset_id
    → asset_lt pays balance ≡ false
    → asset_lt balance pays ≡ false
    → at x pays.asset_id pays.amount ≡ at x balance.asset_id balance.amount
all_settled x balance pays ids whole bound =
    rw (ids, equal_amounts pays balance ids whole bound) refl

settled_sum : (h r c t t0 p : ℤ) → t +ℤ p ≡ t0 → (((h +ℤ r) +ℤ c) +ℤ t) +ℤ p ≡ ((h +ℤ c) +ℤ t0) +ℤ r
settled_sum h r c t t0 p e =
    rw (sym e)
      (eq_of_parts ((((h +ℤ r) +ℤ c) +ℤ t) +ℤ p) (((h +ℤ c) +ℤ (t +ℤ p)) +ℤ r) (omega int_laws))

-- A settlement that pays no more than its balance holds the payment less.
reduce_settlement-sum :
    (fc : Fc) (x id : ℕ) (s : ForceSettlement) (pays : Asset) (m : Map ForceSettlement)
    (r : Map ForceSettlement × Bool)
    → find id m ≡ some s
    → pays.asset_id ≡ s.balance.asset_id
    → asset_lt s.balance pays ≡ false
    → reduce_settlement fc id s pays m ≡ some r
    → total (in_settlement x) r.0 +ℤ at x pays.asset_id pays.amount ≡ total (in_settlement x) m
unfolding reduce_settlement
reduce_settlement-sum fc x id s pays m r found ids bound h =
    elim (Bool-cases (asset_lt pays s.balance)) [
      | inl less ↦
          let step : (asset_sub fc s.balance pays >>= λ balance.
          some (insert id (record s { balance = balance }) m, false))
              ≡ some r =
            sym (rw less refl) ∙ h in
          let (balance, taken, e) = >>=-eq-some (asset_sub fc s.balance pays) _ step in
          let (balance_id, exact) = asset_sub-exact fc s.balance pays balance taken in
          let s' : ForceSettlement = record s { balance = balance } in
          let paid = part_settled x s.balance balance pays ids balance_id exact in
          rw (sym (eq_of_some e)) (
            given_up (total (in_settlement x) (insert id s' m)) (total (in_settlement x) m)
              (in_settlement x s) (in_settlement x s') (at x pays.asset_id pays.amount)
              (insert-sum (in_settlement x) id s s' m found) paid)
      | inr whole ↦
          let same : some (erase id m, true) ≡ some r = sym (rw whole refl) ∙ h in
          let paid = all_settled x s.balance pays ids whole bound in
          rw (sym (eq_of_some same), paid) (erase-sum (in_settlement x) id s m found)
    ]

-- The market takes its fee from what the settlement receives, and the owner gets the rest.
pub fill_settlement-sum :
    (fc : Fc) (x id : ℕ) (s : ForceSettlement) (pays receives : Asset) (d : Debts)
    (r : Debts × Bool)
    → HasValidOptions d.market
    → find id d.settlements ≡ some s
    → pays.asset_id ≡ s.balance.asset_id
    → asset_lt s.balance pays ≡ false
    → fill_settlement fc id pays receives d ≡ some r
    → (all_of x r.0 +ℤ at x pays.asset_id pays.amount
        ≡ all_of x d +ℤ at x receives.asset_id receives.amount)
      × (r.0.current_supply ≡ d.current_supply)
      × (r.0.calls ≡ d.calls)
      × (r.0.market.assets ≡ d.market.assets)
unfolding fill_settlement
fill_settlement-sum fc x id s pays receives d r valid found ids bound h =
    let (s1, found', h0) = >>=-eq-some (find id d.settlements) _ h in
    let same : s1 ≡ s = eq_of_some (sym found' ∙ found) in
    let (options, known, h1) = >>=-eq-some (d.market.assets receives.asset_id) _ h0 in
    let (paid, charged, h2) = >>=-eq-some (pay_market_fees fc options receives d.market) _ h1 in
    let (next, reduced, h3) = >>=-eq-some (reduce_settlement fc id s1 pays d.settlements) _ h2 in
    let (net, less, h4) = >>=-eq-some (asset_sub fc receives paid.1) _ h3 in
    let (balances, adjusted, e) =
      >>=-eq-some (adjust_balance fc s1.owner net paid.0.balances) _ h4 in
    let (fee_id, fee_sum, (orders_same, assets_same)) =
      pay_market_fees-sum fc x options receives d.market paid
        (valid receives.asset_id options known) charged in
    let (net_id, net_amount) = asset_sub-exact fc receives paid.1 net less in
    let left =
      reduce_settlement-sum fc x id s1 pays d.settlements next found'
        (ids ∙ ap (λ (c : ForceSettlement). c.balance.asset_id) (sym same))
        (ap (λ (c : ForceSettlement). asset_lt c.balance pays) same ∙ bound) reduced in
    let credited =
      add_first (in_balances x paid.0.balances) (in_balances x balances) (in_orders x paid.0.orders)
        (paid.0.accumulated_fees x) (at x net.asset_id net.amount)
        (adjust_balance-sum fc x s1.owner net paid.0.balances balances adjusted) in
    let received =
      credited
      ∙ rw (fee_sum, net_id)
          (fee_and_net x receives.asset_id (holdings x d.market) paid.1.amount receives.amount
            net.amount net_amount) in
    rw (sym (eq_of_some e)) (
      rw received (
          settled_sum (holdings x d.market) (at x receives.asset_id receives.amount)
            (total (in_call x) d.calls) (total (in_settlement x) next.0)
            (total (in_settlement x) d.settlements) (at x pays.asset_id pays.amount) left),
      refl,
      refl,
      assets_same,
    )
