-- ===== src/Matching/MarginCalls/Kept.antt =====
-- The call orders that a filled call order leaves: their ids stay distinct, and their call prices.
use bitshares_toolkit.Common.{
  ℕ, ◌==◌, ◌≡◌, refl, sym, ap, ◌∙◌, Bool, some, [], ◌∷◌, arith, >>=-eq-some, eq_of_some, inl, inr,
  Bool-cases,
}
use bitshares_toolkit.Common.Int.{pos, eqb_ℤ}
use bitshares_toolkit.Common.Maps.{
  Map, find, insert, erase, IsMap, find-insert, find-erase, insert-IsMap, erase-IsMap,
}
use bitshares_toolkit.Fc.{Fc}
use bitshares_toolkit.Asset.{Asset}
use bitshares_toolkit.Matching.{release_core}
use bitshares_toolkit.Matching.Debts.{
  CallOrder, Debts, debt_type, close_call, reduce_call, return_collateral, keep_call, fill_call,
}
use bitshares_toolkit.Matching.Debts.Updates.{find_call}

-- Every call order for the debt has its collateral in the asset.
abbrev pub IsBackedBy : ℕ → ℕ → Map CallOrder → Type 0
IsBackedBy asset debt calls =
    (id : ℕ) (call : CallOrder)
    → find id calls ≡ some call
    → debt_type call ≡ debt
    → call.call_price.base.asset_id ≡ asset

pub find_call-debt :
    (account debt id : ℕ) (call : CallOrder) (calls : Map CallOrder)
    → find_call account debt calls ≡ some (id, call)
    → debt_type call ≡ debt
find_call-debt account debt id call [] h = cc
find_call-debt account debt id call (c ∷ calls) h =
    ground (arith, find_call-debt account debt id call calls)

insert-IsBackedBy :
    (asset debt id : ℕ) (o o' : CallOrder) (calls : Map CallOrder)
    → find id calls ≡ some o
    → o'.call_price ≡ o.call_price
    → IsBackedBy asset debt calls
    → IsBackedBy asset debt (insert id o' calls)
insert-IsBackedBy asset debt id o o' calls found same h j call k t = elim (Bool-cases (j == id)) [
  | inl here ↦
      let it : some o' ≡ some call = sym (find-insert j id o' calls ∙ rw here refl) ∙ k in
      let price : call.call_price ≡ o.call_price =
        ap (λ (c : CallOrder). c.call_price) (sym (eq_of_some it)) ∙ same in
      ap (λ p. p.base.asset_id) price ∙ h id o found (ap (λ p. p.quote.asset_id) (sym price) ∙ t)
  | inr other ↦ h j call (sym (find-insert j id o' calls ∙ rw other refl) ∙ k) t
]

erase-IsBackedBy :
    (asset debt id : ℕ) (calls : Map CallOrder)
    → IsMap calls
    → IsBackedBy asset debt calls
    → IsBackedBy asset debt (erase id calls)
erase-IsBackedBy asset debt id calls distinct h j call k t =
    h j call (ground (arith, k, find-erase j id calls distinct)) t

close_call-keeps :
    (asset debt id : ℕ) (o o' : CallOrder) (calls : Map CallOrder)
    → IsMap calls
    → find id calls ≡ some o
    → o'.call_price ≡ o.call_price
    → IsBackedBy asset debt calls
    → IsMap (keep_call id (close_call o').0 (close_call o').1 calls)
      × IsBackedBy asset debt (keep_call id (close_call o').0 (close_call o').1 calls)
unfolding close_call
close_call-keeps asset debt id o o' calls distinct found same h =
    elim (Bool-cases (eqb_ℤ o'.debt (pos 0))) [
      | inl paid ↦
          rw paid (erase-IsMap id calls distinct, erase-IsBackedBy asset debt id calls distinct h)
      | inr owed ↦ rw owed (
        insert-IsMap id o' calls distinct,
        insert-IsBackedBy asset debt id o o' calls found same h,
      )
    ]

pub fill_call-keeps :
    (fc : Fc) (asset debt id : ℕ) (pays receives : Asset) (d : Debts) (r : Debts × Bool)
    → IsMap d.calls
    → IsBackedBy asset debt d.calls
    → fill_call fc id pays receives d ≡ some r
    → IsMap r.0.calls × IsBackedBy asset debt r.0.calls
unfolding fill_call reduce_call
fill_call-keeps fc asset debt id pays receives d r distinct backed h =
    let (o, found, h0) = >>=-eq-some (find id d.calls) _ h in
    let (next, reduced, h1) = >>=-eq-some (reduce_call fc o pays receives) _ h0 in
    let (supply, _, h2) =
      >>=-eq-some (fc.safe_sub (d.current_supply receives.asset_id) receives.amount) _ h1 in
    let (m, _, h3) = >>=-eq-some (return_collateral fc o.borrower next.1 d.market) _ h2 in
    let (m', _, e) = >>=-eq-some (release_core fc o.borrower pays m) _ h3 in
    let (rest, _, r1) = >>=-eq-some (fc.safe_sub o.debt receives.amount) _ reduced in
    let (left, _, r2) = >>=-eq-some (fc.safe_sub o.collateral pays.amount) _ r1 in
    let o' : CallOrder = record o { debt = rest; collateral = left } in
    rw (sym (eq_of_some e), sym (eq_of_some r2))
      (close_call-keeps asset debt id o o' d.calls distinct found refl backed)
