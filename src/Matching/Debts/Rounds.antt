-- ===== src/Matching/Debts/Rounds.antt =====
-- The call orders and the settlements after a match, by their numbers.
use bitshares_toolkit.Common.{
  ℕ, ◌+◌, ◌==◌, ◌≡◌, refl, sym, subst, ◌∙◌, Bool, true, false, Option, none, some, [], ◌∷◌, ◌>>=◌,
  >>=-eq-some, eq_of_some, arith, inl, inr, ◌⊎◌, Bool-cases, length, ==_iff,
}
use bitshares_toolkit.Common.Int.{pos, eqb_ℤ}
use bitshares_toolkit.Common.Maps.{
  Map, find, insert, erase, IsMap, find-insert, insert-IsMap, erase-IsMap,
}
use bitshares_toolkit.Fc.{Fc}
use bitshares_toolkit.Asset.{Asset, Price, asset_lt, asset_sub, price_lt}
use bitshares_toolkit.Transfers.{adjust_balance}
use bitshares_toolkit.Matching.{pay_market_fees, release_core}
use bitshares_toolkit.Matching.Debts.{
  CallOrder, ForceSettlement, Debts, close_call, reduce_call, return_collateral, keep_call,
  fill_call, reduce_settlement, fill_settlement,
}
use bitshares_toolkit.Matching.Debts.Settling.{
  collateralization, before_call, first_call, lower_bound,
}

first_call-cases :
    (fc : Fc) (a e : ℕ × CallOrder) (o : Option (ℕ × CallOrder))
    → first_call fc a o ≡ some e
    → (a ≡ e) ⊎ (o ≡ some e)
first_call-cases fc a e none h = inl (eq_of_some h)
first_call-cases fc a e (some b) h = elim (Bool-cases (before_call fc a b)) [
  | inl sooner ↦ inl (eq_of_some (sym (rw sooner refl) ∙ h))
  | inr later ↦ inr (sym (rw later refl) ∙ h)
]

lower_bound-cases :
    (fc : Fc) (least : Price) (c e : ℕ × CallOrder) (calls : Map CallOrder)
    → lower_bound fc least (c ∷ calls) ≡ some e
    → (c ≡ e) ⊎ (lower_bound fc least calls ≡ some e)
lower_bound-cases fc least c e calls h =
    elim (Bool-cases (price_lt fc (collateralization c.1) least)) [
      | inl low ↦ inr (sym (rw low refl) ∙ h)
      | inr high ↦ first_call-cases fc c e (lower_bound fc least calls) (sym (rw high refl) ∙ h)
    ]

found_head : (c : ℕ × CallOrder) (calls : Map CallOrder) → find c.0 (c ∷ calls) ≡ some c.1
found_head c calls = ground arith

found_tail :
    (c e : ℕ × CallOrder) (calls : Map CallOrder)
    → IsMap (c ∷ calls)
    → find e.0 calls ≡ some e.1
    → find e.0 (c ∷ calls) ≡ some e.1
found_tail c e calls h k = elim (Bool-cases (e.0 == c.0)) [
  | inl here ↦
      let absent : find e.0 calls ≡ none =
        subst (λ i. find i calls ≡ none) (sym ((==_iff e.0 c.0).0 here)) h.0 in
      let wrong : none ≡ some e.1 = sym absent ∙ k in cc
  | inr other ↦ rw other k
]

pub lower_bound-found :
    (fc : Fc) (least : Price) (calls : Map CallOrder) (e : ℕ × CallOrder)
    → IsMap calls
    → lower_bound fc least calls ≡ some e
    → find e.0 calls ≡ some e.1
lower_bound-found fc least [] e h k = cc
lower_bound-found fc least (c ∷ calls) e h k = elim (lower_bound-cases fc least c e calls k) [
  | inl here ↦
      subst (λ (a : ℕ × CallOrder). find a.0 (c ∷ calls) ≡ some a.1) here (found_head c calls)
  | inr there ↦ found_tail c e calls h (lower_bound-found fc least calls e h.1 there)
]

length-insert_found :
    {V : Type 0} (id : ℕ) (v w : V) (m : Map V)
    → find id m ≡ some v
    → length (insert id w m) ≡ length m
length-insert_found id v w [] h = cc
length-insert_found id v w (e ∷ m) h = ground (arith, length-insert_found id v w m)

length-erase_found :
    {V : Type 0} (id : ℕ) (v : V) (m : Map V)
    → find id m ≡ some v
    → length (erase id m) + 1 ≡ length m
length-erase_found id v [] h = cc
length-erase_found id v (e ∷ m) h = ground (arith, length-erase_found id v m)

-- One call order fewer, or the order is still there.
kept_or_fewer :
    (id : ℕ) (o o' : CallOrder) (calls : Map CallOrder)
    → IsMap calls
    → find id calls ≡ some o
    → let kept = keep_call id (close_call o').0 (close_call o').1 calls in
      IsMap kept × (find id kept ≡ none → length kept + 1 ≡ length calls)
unfolding close_call
kept_or_fewer id o o' calls distinct found = elim (Bool-cases (eqb_ℤ o'.debt (pos 0))) [
  | inl paid ↦ rw paid (erase-IsMap id calls distinct, λ _. length-erase_found id o calls found)
  | inr owed ↦ rw owed (
    insert-IsMap id o' calls distinct,
    λ gone.
        let there : find id (insert id o' calls) ≡ some o' =
          find-insert id id o' calls ∙ ground arith in
        let wrong : none ≡ some o' = sym gone ∙ there in cc,
  )
]

pub fill_call-fewer :
    (fc : Fc) (id : ℕ) (pays receives : Asset) (d : Debts) (r : Debts × Bool)
    → IsMap d.calls
    → fill_call fc id pays receives d ≡ some r
    → IsMap r.0.calls × (find id r.0.calls ≡ none → length r.0.calls + 1 ≡ length d.calls)
unfolding fill_call reduce_call
fill_call-fewer fc id pays receives d r distinct h =
    let (o, found, h0) = >>=-eq-some (find id d.calls) _ h in
    let (next, reduced, h1) = >>=-eq-some (reduce_call fc o pays receives) _ h0 in
    let (supply, _, h2) =
      >>=-eq-some (fc.safe_sub (d.current_supply receives.asset_id) receives.amount) _ h1 in
    let (m, _, h3) = >>=-eq-some (return_collateral fc o.borrower next.1 d.market) _ h2 in
    let (m', _, e) = >>=-eq-some (release_core fc o.borrower pays m) _ h3 in
    let (rest, _, r1) = >>=-eq-some (fc.safe_sub o.debt receives.amount) _ reduced in
    let (left, _, r2) = >>=-eq-some (fc.safe_sub o.collateral pays.amount) _ r1 in
    let o' : CallOrder = record o { debt = rest; collateral = left } in
    rw (sym (eq_of_some e), sym (eq_of_some r2)) (kept_or_fewer id o o' d.calls distinct found)

reduced-IsMap :
    (fc : Fc) (id : ℕ) (s : ForceSettlement) (pays : Asset) (m : Map ForceSettlement)
    (r : Map ForceSettlement × Bool)
    → IsMap m
    → reduce_settlement fc id s pays m ≡ some r
    → IsMap r.0
unfolding reduce_settlement
reduced-IsMap fc id s pays m r distinct h = elim (Bool-cases (asset_lt pays s.balance)) [
  | inl less ↦
      let step : (asset_sub fc s.balance pays >>= λ balance.
      some (insert id (record s { balance = balance }) m, false))
          ≡ some r =
        sym (rw less refl) ∙ h in
      let (balance, _, e) = >>=-eq-some (asset_sub fc s.balance pays) _ step in
      rw (sym (eq_of_some e)) (insert-IsMap id (record s { balance = balance }) m distinct)
  | inr whole ↦
      let same : some (erase id m, true) ≡ some r = sym (rw whole refl) ∙ h in
      rw (sym (eq_of_some same)) (erase-IsMap id m distinct)
]

pub fill_settlement-IsMap :
    (fc : Fc) (id : ℕ) (pays receives : Asset) (d : Debts) (r : Debts × Bool)
    → IsMap d.settlements
    → fill_settlement fc id pays receives d ≡ some r
    → IsMap r.0.settlements
unfolding fill_settlement
fill_settlement-IsMap fc id pays receives d r distinct h =
    let (s, _, h0) = >>=-eq-some (find id d.settlements) _ h in
    let (options, _, h1) = >>=-eq-some (d.market.assets receives.asset_id) _ h0 in
    let (paid, _, h2) = >>=-eq-some (pay_market_fees fc options receives d.market) _ h1 in
    let (next, reduced, h3) = >>=-eq-some (reduce_settlement fc id s pays d.settlements) _ h2 in
    let (net, _, h4) = >>=-eq-some (asset_sub fc receives paid.1) _ h3 in
    let (balances, _, e) = >>=-eq-some (adjust_balance fc s.owner net paid.0.balances) _ h4 in
    rw (sym (eq_of_some e)) (reduced-IsMap fc id s pays d.settlements next distinct reduced)
