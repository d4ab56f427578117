-- ===== src/Matching/Debts/Endings.antt =====
-- What ends when a call order is matched with a forced settlement.
use bitshares_toolkit.Common.{
  ℕ, ◌≡◌, refl, sym, ap, subst, ◌∙◌, Bool, true, false, none, some, arith, Bool-cases, inl, inr,
  ◌⊎◌, >>=-eq-some, eq_of_some,
}
use bitshares_toolkit.Common.Int.{ℤ, pos, eq_of_parts, eqb_ℤ, ◌-ℤ◌, int_laws}
use bitshares_toolkit.Common.Maps.{Map, find, erase, IsMap, find-erase}
use bitshares_toolkit.Fc.{Fc}
use bitshares_toolkit.Asset.{Asset, Price, asset_lt, asset_sub}
use bitshares_toolkit.Transfers.{adjust_balance}
use bitshares_toolkit.Matching.{pay_market_fees, release_core}
use bitshares_toolkit.Matching.Debts.{
  CallOrder, ForceSettlement, Debts, get_debt, asset_min, close_call, reduce_call, keep_call,
  return_collateral, fill_call, reduce_settlement, fill_settlement, match_settlement,
}
use bitshares_toolkit.Matching.Debts.Backing.{settled_amount, match_settlement-fills}

same_minus : (a : ℤ) → a -ℤ a ≡ pos 0
same_minus a = eq_of_parts (a -ℤ a) (pos 0) (omega int_laws)

zero_test : (d : ℤ) → d ≡ pos 0 → eqb_ℤ d (pos 0) ≡ true
zero_test d h = rw h refl

closed :
    (id : ℕ) (o : CallOrder) (calls : Map CallOrder)
    → IsMap calls
    → o.debt ≡ pos 0
    → find id (keep_call id (close_call o).0 (close_call o).1 calls) ≡ none
unfolding close_call
closed id o calls distinct paid =
    rw (zero_test o.debt paid) (find-erase id id calls distinct ∙ ground arith)

settled_closed :
    (fc : Fc) (id : ℕ) (s : ForceSettlement) (pays : Asset) (m : Map ForceSettlement)
    (r : Map ForceSettlement × Bool)
    → IsMap m
    → asset_lt pays s.balance ≡ false
    → reduce_settlement fc id s pays m ≡ some r
    → find id r.0 ≡ none
unfolding reduce_settlement
settled_closed fc id s pays m r distinct whole h =
    let same : some (erase id m, true) ≡ some r = sym (rw whole refl) ∙ h in
    rw (sym (eq_of_some same)) (find-erase id id m distinct ∙ ground arith)

-- A call order whose debt is paid is removed.
fill_call-closes :
    (fc : Fc) (id : ℕ) (o : CallOrder) (pays receives : Asset) (d : Debts) (r : Debts × Bool)
    → IsMap d.calls
    → find id d.calls ≡ some o
    → receives.amount ≡ o.debt
    → fill_call fc id pays receives d ≡ some r
    → find id r.0.calls ≡ none
unfolding fill_call reduce_call close_call
fill_call-closes fc id o pays receives d r distinct found whole h =
    let (o1, found', h0) = >>=-eq-some (find id d.calls) _ h in
    let same : o1 ≡ o = eq_of_some (sym found' ∙ found) in
    let (next, reduced, h1) = >>=-eq-some (reduce_call fc o1 pays receives) _ h0 in
    let (supply, less, h2) =
      >>=-eq-some (fc.safe_sub (d.current_supply receives.asset_id) receives.amount) _ h1 in
    let (m, returned, h3) = >>=-eq-some (return_collateral fc o1.borrower next.1 d.market) _ h2 in
    let (m', released, e) = >>=-eq-some (release_core fc o1.borrower pays m) _ h3 in
    let (debt, less_debt, r1) = >>=-eq-some (fc.safe_sub o1.debt receives.amount) _ reduced in
    let (left, less_left, r2) = >>=-eq-some (fc.safe_sub o1.collateral pays.amount) _ r1 in
    let paid : debt ≡ pos 0 =
      fc.safe_sub_exact _ _ _ less_debt
      ∙ ap (λ v. o1.debt -ℤ v) (whole ∙ ap (λ (c : CallOrder). c.debt) (sym same))
      ∙ same_minus o1.debt in
    let o' : CallOrder = record o1 { debt = debt; collateral = left } in
    rw (sym (eq_of_some e), sym (eq_of_some r2)) (closed id o' d.calls distinct paid)

fill_settlement-closes :
    (fc : Fc) (id : ℕ) (s : ForceSettlement) (pays receives : Asset) (d : Debts) (r : Debts × Bool)
    → IsMap d.settlements
    → find id d.settlements ≡ some s
    → asset_lt pays s.balance ≡ false
    → fill_settlement fc id pays receives d ≡ some r
    → find id r.0.settlements ≡ none
unfolding fill_settlement
fill_settlement-closes fc id s pays receives d r distinct found whole h =
    let (s1, found', h0) = >>=-eq-some (find id d.settlements) _ h in
    let same : s1 ≡ s = eq_of_some (sym found' ∙ found) in
    let (options, known, h1) = >>=-eq-some (d.market.assets receives.asset_id) _ h0 in
    let (paid, charged, h2) = >>=-eq-some (pay_market_fees fc options receives d.market) _ h1 in
    let (next, reduced, h3) = >>=-eq-some (reduce_settlement fc id s1 pays d.settlements) _ h2 in
    let (net, less, h4) = >>=-eq-some (asset_sub fc receives paid.1) _ h3 in
    let (balances, adjusted, e) =
      >>=-eq-some (adjust_balance fc s1.owner net paid.0.balances) _ h4 in
    rw (sym (eq_of_some e)) (
      settled_closed fc id s1 pays d.settlements next distinct
        (ap (λ (c : ForceSettlement). asset_lt pays c.balance) same ∙ whole) reduced)

lt_self : (a : Asset) → asset_lt a a ≡ false
unfolding asset_lt
lt_self a = ground arith

-- Which of the three amounts the smallest one is
min_cases :
    (a b c : Asset)
    → ((asset_min (asset_min a b) c).amount ≡ b.amount)
      ⊎ (((asset_min (asset_min a b) c).amount ≡ c.amount)
          ⊎ (asset_lt (asset_min (asset_min a b) c) a ≡ false))
min_cases a b c = elim (Bool-cases (asset_lt c (asset_min a b))) [
  | inl debt ↦ inr (inl (rw debt refl))
  | inr _ ↦ elim (Bool-cases (asset_lt b a)) [
    | inl most ↦ elim (Bool-cases (asset_lt c b)) [
      | inl low ↦ inr (inl (rw (most, low) refl))
      | inr high ↦ inl (rw (most, high) refl)
    ]
    | inr balance ↦ elim (Bool-cases (asset_lt c a)) [
      | inl low ↦ inr (inl (rw (balance, low) refl))
      | inr high ↦ inr (inr (rw (balance, high) (lt_self a)))
    ]
  ]
]

pub fill_settlement-calls :
    (fc : Fc) (id : ℕ) (pays receives : Asset) (d : Debts) (r : Debts × Bool)
    → fill_settlement fc id pays receives d ≡ some r
    → r.0.calls ≡ d.calls
unfolding fill_settlement
fill_settlement-calls fc id pays receives d r h =
    let (s, _, h0) = >>=-eq-some (find id d.settlements) _ h in
    let (options, _, h1) = >>=-eq-some (d.market.assets receives.asset_id) _ h0 in
    let (paid, _, h2) = >>=-eq-some (pay_market_fees fc options receives d.market) _ h1 in
    let (next, _, h3) = >>=-eq-some (reduce_settlement fc id s pays d.settlements) _ h2 in
    let (net, _, h4) = >>=-eq-some (asset_sub fc receives paid.1) _ h3 in
    let (balances, _, e) = >>=-eq-some (adjust_balance fc s.owner net paid.0.balances) _ h4 in
    rw (sym (eq_of_some e)) refl

pub fill_call-settlements :
    (fc : Fc) (id : ℕ) (pays receives : Asset) (d : Debts) (r : Debts × Bool)
    → fill_call fc id pays receives d ≡ some r
    → r.0.settlements ≡ d.settlements
unfolding fill_call
fill_call-settlements fc id pays receives d r h =
    let (o, _, h0) = >>=-eq-some (find id d.calls) _ h in
    let (next, _, h1) = >>=-eq-some (reduce_call fc o pays receives) _ h0 in
    let (supply, _, h2) =
      >>=-eq-some (fc.safe_sub (d.current_supply receives.asset_id) receives.amount) _ h1 in
    let (m, _, h3) = >>=-eq-some (return_collateral fc o.borrower next.1 d.market) _ h2 in
    let (m', _, e) = >>=-eq-some (release_core fc o.borrower pays m) _ h3 in
    rw (sym (eq_of_some e)) refl

-- If the ids of call orders and of settlements are distinct, a match of a call order and a forced
-- settlement that returns has settled the whole maximum, or the call order is gone, or the settlement
-- is gone; it settles the smallest of the balance, the maximum and the debt.
pub match_settlement_ends :
    (fc : Fc) (call_id settle_id : ℕ) (call : CallOrder) (settle : ForceSettlement)
    (match_price : Price) (max_settlement : Asset) (d : Debts) (r : Debts × Asset)
    → IsMap d.calls
    → IsMap d.settlements
    → find call_id d.calls ≡ some call
    → find settle_id d.settlements ≡ some settle
    → match_settlement fc call_id settle_id match_price max_settlement d ≡ some r
    → (r.1 ≡ settled_amount call settle max_settlement)
      × ((r.1.amount ≡ max_settlement.amount)
          ⊎ ((find call_id r.0.calls ≡ none) ⊎ (find settle_id r.0.settlements ≡ none)))
match_settlement_ends fc call_id settle_id call settle match_price max_settlement d r calls_distinct
      settlements_distinct call_found settle_found h =
    let settled = settled_amount call settle max_settlement in
    let (pays, first, second, exchanged, called, closed, e) =
      match_settlement-fills fc call_id settle_id call settle match_price max_settlement d r
        call_found settle_found h in
    let kept = fill_call-settlements fc call_id pays settled d first called in
    (
      ap (λ q. q.1) e,
      elim (min_cases settle.balance max_settlement (get_debt call)) [
        | inl whole ↦ inl (ap (λ q. q.1.amount) e ∙ whole)
        | inr (inl debt) ↦ inr (
            inl (
              ap (λ q. find call_id q.0.calls) e
              ∙ ap (find call_id)
                  (fill_settlement-calls fc settle_id settled pays first.0 second closed)
              ∙ fill_call-closes fc call_id call pays settled d first calls_distinct call_found debt
                  called))
        | inr (inr balance) ↦ inr (
            inr (
              ap (λ q. find settle_id q.0.settlements) e
              ∙ fill_settlement-closes fc settle_id settle settled pays first.0 second
                  (subst IsMap (sym kept) settlements_distinct)
                  (ap (find settle_id) kept ∙ settle_found) balance closed))
      ],
    )
