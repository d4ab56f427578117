-- ===== src/LimitOrders/Uncrossing.antt =====
-- The loop of a new order leaves no order that it could be matched with, or the new one is gone.
use bitshares_toolkit.Common.{
  ℕ, ◌==◌, ◌≡◌, ◌≢◌, ◌⊎◌, refl, sym, ap, ◌∙◌, some, none, [], ◌∷◌, Bool-cases, inl, inr,
  >>=-eq-some, eq_of_some,
}
use bitshares_toolkit.Common.Maps.{Map, IsMap, find}
use bitshares_toolkit.Fc.{Fc}
use bitshares_toolkit.Matching.{LimitOrder, Market, match_orders}
use bitshares_toolkit.Matching.Payments.{HasValidOptions}
use bitshares_toolkit.LimitOrders.{match_range}
use bitshares_toolkit.LimitOrders.Ranges.{cons_cases, in_head, in_tail, no_entry}
use bitshares_toolkit.LimitOrders.Index.{absent_tail}
use bitshares_toolkit.LimitOrders.Steps.{Sound, same-HasValidOptions, match_step}

-- The entries are orders of the market that is given.
abbrev pub Holds : Map LimitOrder → Market → Type 0
Holds es m = (k : ℕ) (o : LimitOrder) → find k es ≡ some o → find k m.orders ≡ some o

abbrev pub AllBuy : ℕ → Map LimitOrder → Type 0
AllBuy asset es =
    (k : ℕ) (o : LimitOrder) → find k es ≡ some o → o.sell_price.quote.asset_id ≡ asset

abbrev pub Cleared : Map LimitOrder → Market → Type 0
Cleared es m = (k : ℕ) (o : LimitOrder) → find k es ≡ some o → find k m.orders ≡ none

not_both :
    {V : Type 0} (j k : ℕ) (es : Map V) (v : V) → find k es ≡ none → find j es ≡ some v → j ≢ k
not_both j k es v absent found same =
    no_entry v (sym absent ∙ ap (λ i. find i es) (sym same) ∙ found)

-- What the loop does
abbrev pub Outcome : ℕ → Map LimitOrder → Market → Market → Type 0
Outcome id es m m' =
    Sound m m'
    × (m'.assets ≡ m.assets)
    × IsMap m'.orders
    × ((find id m'.orders ≡ none) ⊎ Cleared es m')
    × ((j : ℕ) → j ≢ id → find j es ≡ none → find j m'.orders ≡ find j m.orders)

pub match_range-Outcome :
    (fc : Fc) (id : ℕ) (es : Map LimitOrder) (n : LimitOrder) (m m' : Market)
    → HasValidOptions m
    → IsMap m.orders
    → IsMap es
    → find id es ≡ none
    → Holds es m
    → AllBuy n.sell_price.base.asset_id es
    → find id m.orders ≡ some n
    → match_range fc id es m ≡ some m'
    → Outcome id es m m'
unfolding match_range
match_range-Outcome fc id [] n m m' valid unique unique_es absent holds buy found h =
    rw (sym (eq_of_some h)) (
      (λ x. refl, λ a c. c),
      refl,
      unique,
      inr (λ k o entry. no_entry o entry),
      λ j not_id miss. refl,
    )
match_range-Outcome fc id (old ∷ olds) n m m' valid unique unique_es absent holds buy found h =
    let (r, matched, h1) = >>=-eq-some (match_orders fc id old.0 old.1.sell_price m) _ h in
    let (other, absent') = absent_tail id old olds absent in
    let head = in_head old.0 old olds refl in
    let (assets_same, unique', (held, counted), others, (two, not_two)) =
      match_step fc id old.0 n old.1 m r valid unique other found (holds old.0 old.1 head)
        (buy old.0 old.1 head) matched in
    elim (Bool-cases (r.1 == 2)) [
      | inl is_two ↦
          let rest : match_range fc id olds r.0 ≡ some m' = sym (rw is_two refl) ∙ h1 in
          let (gone, n', found', same_price) = two is_two in
          let holds' : Holds olds r.0 = λ k o entry.
            others k (not_both k id olds o absent' entry)
              (not_both k old.0 olds o unique_es.0 entry)
            ∙ holds k o (in_tail k old olds o unique_es.0 entry) in
          let buy' : AllBuy n'.sell_price.base.asset_id olds = λ k o entry.
            buy k o (in_tail k old olds o unique_es.0 entry)
            ∙ ap (λ p. p.base.asset_id) (sym same_price) in
          let ((held', counted'), assets_same', unique'', left, others') =
            match_range-Outcome fc id olds n' r.0 m' (same-HasValidOptions m r.0 assets_same valid)
              unique' unique_es.1 absent' holds' buy' found' rest in
          (
            (λ x. held' x ∙ held x, λ a c. counted' a (counted a c)),
            assets_same' ∙ assets_same,
            unique'',
            elim left [
              | inl new_gone ↦ inl new_gone
              | inr cleared ↦ inr (λ k o entry. elim (cons_cases k old olds o entry) [
                | inl here ↦
                    ap (λ i. find i m'.orders) here.0
                    ∙ others' old.0 (λ same. other (sym same)) unique_es.0
                    ∙ gone
                | inr further ↦ cleared k o further.1
              ])
            ],
            λ j not_id miss.
                let (not_old, miss') = absent_tail j old olds miss in
                others' j not_id miss' ∙ others j not_id not_old,
          )
      | inr not_is_two ↦
          let done : some r.0 ≡ some m' = sym (rw not_is_two refl) ∙ h1 in
          rw (sym (eq_of_some done)) (
            (held, counted),
            assets_same,
            unique',
            inl (not_two not_is_two),
            λ j not_id miss. others j not_id (absent_tail j old olds miss).0,
          )
    ]
