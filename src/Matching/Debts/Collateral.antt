-- ===== src/Matching/Debts/Collateral.antt =====
-- What filling a call order does to the whole amount of an asset and to its supply.
use bitshares_toolkit.Common.{
  ℕ, ◌==◌, ◌≡◌, refl, sym, ap, subst, ◌∙◌, Bool, Option, none, some, ◌>>=◌, Bool-cases, inl, inr,
  >>=-eq-some, eq_of_some, ==_iff,
}
use bitshares_toolkit.Common.Int.{ℤ, pos, eq_of_parts, ltb_ℤ, eqb_ℤ, ◌+ℤ◌, ◌-ℤ◌, int_laws}
use bitshares_toolkit.Common.Maps.{Map, find, insert, erase}
use bitshares_toolkit.Fc.{Fc}
use bitshares_toolkit.Asset.{Asset}
use bitshares_toolkit.Transfers.{adjust_balance}
use bitshares_toolkit.Matching.{Market, put, release_core}
use bitshares_toolkit.Matching.Holdings.{
  at, total, in_balances, in_orders, holdings, adjust_balance-sum, insert-sum, erase-sum, add_zero,
}
use bitshares_toolkit.Matching.Payments.{Pays, release_core-Pays, add_first}
use bitshares_toolkit.Matching.Fills.{less_sold, sold, given_up}
use bitshares_toolkit.Matching.Debts.{
  CallOrder, ForceSettlement, Debts, close_call, reduce_call, release_freed, return_collateral,
  keep_call, fill_call,
}

abbrev pub in_call : ℕ → CallOrder → ℤ
in_call x o = at x o.call_price.base.asset_id o.collateral

abbrev pub in_settlement : ℕ → ForceSettlement → ℤ
in_settlement x s = at x s.balance.asset_id s.balance.amount

-- All of the asset `x`: what the market holds, the collateral and what waits for settlement
abbrev pub all_of : ℕ → Debts → ℤ
all_of x d =
    holdings x d.market +ℤ total (in_call x) d.calls +ℤ total (in_settlement x) d.settlements

abbrev freed_in : ℕ → Option Asset → ℤ
freed_in x none = pos 0
freed_in x (some freed) = at x freed.asset_id freed.amount

freed_sum : (t t0 o o' : ℤ) → t +ℤ o ≡ t0 → (t +ℤ o') +ℤ o ≡ t0 +ℤ o'
freed_sum t t0 o o' e = rw (sym e) (eq_of_parts ((t +ℤ o') +ℤ o) ((t +ℤ o) +ℤ o') (omega int_laws))

paid_out : (h f t t0 s p : ℤ) → (t +ℤ f) +ℤ p ≡ t0 → (((h +ℤ f) +ℤ t) +ℤ s) +ℤ p ≡ (h +ℤ t0) +ℤ s
paid_out h f t t0 s p e =
    rw (sym e)
      (eq_of_parts ((((h +ℤ f) +ℤ t) +ℤ s) +ℤ p) ((h +ℤ ((t +ℤ f) +ℤ p)) +ℤ s) (omega int_laws))

pub less_supply : (x k : ℕ) (f : ℕ → ℤ) (v d : ℤ) → v ≡ f k -ℤ d → put f k v x +ℤ at x k d ≡ f x
less_supply x k f v d e = elim (Bool-cases (x == k)) [
  | inl here ↦
      rw (here, subst (λ y. f y ≡ f k) (sym ((==_iff x k).0 here)) refl) (less_sold (f k) d v e)
  | inr other ↦ rw other (add_zero (f x))
]

release_freed-Pays :
    (fc : Fc) (account : ℕ) (freed : Asset) (m m' : Market)
    → release_freed fc account freed m ≡ some m'
    → (m'.balances ≡ m.balances) × (m'.accumulated_fees ≡ m.accumulated_fees) × Pays m m'
unfolding release_freed
release_freed-Pays fc account freed m m' h = elim (Bool-cases (ltb_ℤ (pos 0) freed.amount)) [
  | inl positive ↦
      let step : (fc.safe_sub (m.core_in_orders account) freed.amount >>= λ rest.
      some (record m { core_in_orders = put m.core_in_orders account rest }))
          ≡ some m' =
        sym (rw positive refl) ∙ h in
      let (rest, exact, e) =
        >>=-eq-some (fc.safe_sub (m.core_in_orders account) freed.amount) _ step in
      rw (sym (eq_of_some e)) (refl, refl, (refl, refl))
  | inr other ↦
      let same : some m ≡ some m' = sym (rw other refl) ∙ h in
      rw (sym (eq_of_some same)) (refl, refl, (refl, refl))
]

return_collateral-sum :
    (fc : Fc) (x account : ℕ) (freed : Option Asset) (m m' : Market)
    → return_collateral fc account freed m ≡ some m'
    → (holdings x m' ≡ holdings x m +ℤ freed_in x freed) × Pays m m'
unfolding return_collateral
return_collateral-sum fc x account none m m' h =
    rw (sym (eq_of_some h)) (sym (add_zero (holdings x m)), (refl, refl))
return_collateral-sum fc x account (some freed) m m' h =
    let (balances, adjusted, h1) = >>=-eq-some (adjust_balance fc account freed m.balances) _ h in
    let (balances_same, fees_same, (orders_same, assets_same)) =
      release_freed-Pays fc account freed (record m { balances = balances }) m' h1 in
    (
      rw (orders_same, balances_same, ap (λ f. f x) fees_same)
          (add_first (in_balances x m.balances) (in_balances x balances) (in_orders x m.orders)
            (m.accumulated_fees x) (at x freed.asset_id freed.amount)
            (adjust_balance-sum fc x account freed m.balances balances adjusted)),
      (orders_same, assets_same),
    )

release_core-holdings :
    (fc : Fc) (x account : ℕ) (pays : Asset) (m m' : Market)
    → release_core fc account pays m ≡ some m'
    → (holdings x m' ≡ holdings x m) × Pays m m'
release_core-holdings fc x account pays m m' h =
    let (balances_same, fees_same, (orders_same, assets_same)) =
      release_core-Pays fc account pays m m' h in
    (rw (orders_same, balances_same, ap (λ f. f x) fees_same) refl, (orders_same, assets_same))

close_call-sum :
    (x id : ℕ) (o o' : CallOrder) (calls : Map CallOrder)
    → find id calls ≡ some o
    → (total (in_call x) (keep_call id (close_call o').0 (close_call o').1 calls)
          +ℤ freed_in x (close_call o').1)
        +ℤ in_call x o
      ≡ total (in_call x) calls +ℤ in_call x o'
unfolding close_call
close_call-sum x id o o' calls found = elim (Bool-cases (eqb_ℤ o'.debt (pos 0))) [
  | inl paid ↦ rw paid (
      freed_sum (total (in_call x) (erase id calls)) (total (in_call x) calls) (in_call x o)
        (in_call x o') (erase-sum (in_call x) id o calls found))
  | inr owed ↦
      rw (owed, add_zero (total (in_call x) (insert id o' calls)))
        (insert-sum (in_call x) id o o' calls found)
]

-- The collateral that stays in call orders, that is freed and that is paid
keep_call-sum :
    (fc : Fc) (x id : ℕ) (o : CallOrder) (pays receives : Asset) (r : CallOrder × Option Asset)
    (calls : Map CallOrder)
    → find id calls ≡ some o
    → pays.asset_id ≡ o.call_price.base.asset_id
    → reduce_call fc o pays receives ≡ some r
    → (total (in_call x) (keep_call id r.0 r.1 calls) +ℤ freed_in x r.1)
        +ℤ at x pays.asset_id pays.amount
      ≡ total (in_call x) calls
unfolding reduce_call
keep_call-sum fc x id o pays receives r calls found ids h =
    let (debt, less_debt, h1) = >>=-eq-some (fc.safe_sub o.debt receives.amount) _ h in
    let (left, less, e) = >>=-eq-some (fc.safe_sub o.collateral pays.amount) _ h1 in
    let o' : CallOrder = record o { debt = debt; collateral = left } in
    let paid : in_call x o' +ℤ at x pays.asset_id pays.amount ≡ in_call x o = rw ids (
      sold x o.call_price.base.asset_id o.collateral pays.amount left
        (fc.safe_sub_exact _ _ _ less)) in
    rw (sym (eq_of_some e)) (
      given_up
        (total (in_call x) (keep_call id (close_call o').0 (close_call o').1 calls)
          +ℤ freed_in x (close_call o').1)
        (total (in_call x) calls) (in_call x o) (in_call x o') (at x pays.asset_id pays.amount)
        (close_call-sum x id o o' calls found) paid)

-- The collateral that is paid leaves the debts, and the supply falls by the debt that is paid.
pub fill_call-sum :
    (fc : Fc) (x id : ℕ) (o : CallOrder) (pays receives : Asset) (d : Debts) (r : Debts × Bool)
    → find id d.calls ≡ some o
    → pays.asset_id ≡ o.call_price.base.asset_id
    → fill_call fc id pays receives d ≡ some r
    → (all_of x r.0 +ℤ at x pays.asset_id pays.amount ≡ all_of x d)
      × (r.0.current_supply x +ℤ at x receives.asset_id receives.amount ≡ d.current_supply x)
      × (r.0.settlements ≡ d.settlements)
      × (r.0.market.assets ≡ d.market.assets)
      × (r.0.market.orders ≡ d.market.orders)
unfolding fill_call
fill_call-sum fc x id o pays receives d r found ids h =
    let (o1, found', h0) = >>=-eq-some (find id d.calls) _ h in
    let same : o1 ≡ o = eq_of_some (sym found' ∙ found) in
    let (next, reduced, h1) = >>=-eq-some (reduce_call fc o1 pays receives) _ h0 in
    let (supply, less, h2) =
      >>=-eq-some (fc.safe_sub (d.current_supply receives.asset_id) receives.amount) _ h1 in
    let (m, returned, h3) = >>=-eq-some (return_collateral fc o1.borrower next.1 d.market) _ h2 in
    let (m', released, e) = >>=-eq-some (release_core fc o1.borrower pays m) _ h3 in
    let (returned_sum, (orders_same, assets_same)) =
      return_collateral-sum fc x o1.borrower next.1 d.market m returned in
    let (released_sum, (orders_same', assets_same')) =
      release_core-holdings fc x o1.borrower pays m m' released in
    let kept =
      keep_call-sum fc x id o1 pays receives next d.calls found'
        (ids ∙ ap (λ (c : CallOrder). c.call_price.base.asset_id) (sym same)) reduced in
    rw (sym (eq_of_some e)) (
      rw (released_sum, returned_sum)
          (paid_out (holdings x d.market) (freed_in x next.1)
            (total (in_call x) (keep_call id next.0 next.1 d.calls)) (total (in_call x) d.calls)
            (total (in_settlement x) d.settlements) (at x pays.asset_id pays.amount) kept),
      less_supply x receives.asset_id d.current_supply supply receives.amount
          (fc.safe_sub_exact _ _ _ less),
      refl,
      assets_same' ∙ assets_same,
      orders_same' ∙ orders_same,
    )
