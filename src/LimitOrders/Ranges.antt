-- ===== src/LimitOrders/Ranges.antt =====
-- A range of the index by_price holds orders of one market.
use bitshares_toolkit.Common.{
  ℕ, ◌==◌, ◌≡◌, ◌≢◌, refl, sym, ap, ◌∙◌, Bool, true, false, not, ◌&&◌, Option, none, some, [], ◌∷◌,
  if◌then◌else◌, ltb, leb, subst, ◌⊎◌, arith, Bool-cases, inl, inr, ==_iff,
}
use bitshares_toolkit.Common.Maps.{Map, IsMap, find}
use bitshares_toolkit.Fc.{Fc}
use bitshares_toolkit.Asset.{Price, price_gt, price_le, product}
use bitshares_toolkit.Matching.{LimitOrder}
use bitshares_toolkit.LimitOrders.{range}
use bitshares_toolkit.LimitOrders.Index.{absent_tail}

-- The assets of the two prices are the same.
abbrev pub SameMarket : Price → Price → Type 0
SameMarket p q = (p.base.asset_id ≡ q.base.asset_id) × (p.quote.asset_id ≡ q.quote.asset_id)

-- Two prices between which the assets stand, in the order of the comparison
assets_between :
    (pb pq lb lq : ℕ) (c d : Bool)
    → not (
        if ltb pb lb
        then true
        else if ltb lb pb
        then false
        else if ltb pq lq
        then true
        else if ltb lq pq
        then false
        else c)
      ≡ false
    → not (
        if ltb lb pb
        then true
        else if ltb pb lb
        then false
        else if ltb lq pq
        then true
        else if ltb pq lq
        then false
        else d)
      ≡ false
    → (pb ≡ lb) × (pq ≡ lq)
assets_between pb pq lb lq c d h k = ground (arith, h, k)

between-SameMarket :
    (fc : Fc) (p low high : Price)
    → SameMarket high low
    → price_gt fc p high ≡ false
    → price_gt fc low p ≡ false
    → SameMarket p low
unfolding price_gt price_le
between-SameMarket fc p low high same h k =
    assets_between p.base.asset_id p.quote.asset_id low.base.asset_id low.quote.asset_id
      (leb (product fc high.quote.amount p.base.amount)
        (product fc p.quote.amount high.base.amount))
      (leb (product fc p.quote.amount low.base.amount) (product fc low.quote.amount p.base.amount))
      (sym (rw (same.0, same.1) refl) ∙ h) k

both_false : (a b : Bool) → not a && not b ≡ true → (a ≡ false) × (b ≡ false)
both_false a b h = ground (arith, h)

pub cons_cases :
    {V : Type 0} (k : ℕ) (e : ℕ × V) (m : Map V) (v : V)
    → find k (e ∷ m) ≡ some v
    → ((k ≡ e.0) × (e.1 ≡ v)) ⊎ ((k ≢ e.0) × (find k m ≡ some v))
cons_cases k e m v h = ground (arith, h)

pub cons_none :
    {V : Type 0} (k : ℕ) (e : ℕ × V) (m : Map V) → k ≢ e.0 → find k m ≡ none → find k (e ∷ m) ≡ none
cons_none k e m other h = ground (arith, other, h)

pub in_head : {V : Type 0} (k : ℕ) (e : ℕ × V) (m : Map V) → k ≡ e.0 → find k (e ∷ m) ≡ some e.1
in_head k e m h = ground (arith, h)

pub no_entry : {V : Type 0} {P : Type 0} (v : V) → Path (Option V) none (some v) → P
no_entry v h = cc

pub in_tail :
    {V : Type 0} (k : ℕ) (e : ℕ × V) (m : Map V) (v : V)
    → find e.0 m ≡ none
    → find k m ≡ some v
    → find k (e ∷ m) ≡ some v
in_tail k e m v absent h = elim (Bool-cases (k == e.0)) [
  | inl here ↦
      let none_here : find k m ≡ none = ap (λ j. find j m) ((==_iff k e.0).0 here) ∙ absent in
      no_entry v (sym none_here ∙ h)
  | inr other ↦ rw other h
]

-- A range is a map of some of the entries, all in the market of the bounds.
pub range-find :
    (fc : Fc) (high low : Price) (m : Map LimitOrder)
    → SameMarket high low
    → IsMap m
    → ((k : ℕ) → find k m ≡ none → find k (range fc high low m) ≡ none)
      × ((k : ℕ) (o : LimitOrder)
          → find k (range fc high low m) ≡ some o
          → (find k m ≡ some o) × SameMarket o.sell_price low)
      × IsMap (range fc high low m)
unfolding range
range-find fc high low [] same unique = (λ k h. refl, (λ k o h. no_entry o h), tt)
range-find fc high low (e ∷ m) same unique =
    let (misses, finds, unique') = range-find fc high low m same unique.1 in
    elim (Bool-cases
      (not (price_gt fc e.1.sell_price high) && not (price_gt fc low e.1.sell_price))) [
        | inl inside ↦
            let (h, k) =
              both_false (price_gt fc e.1.sell_price high) (price_gt fc low e.1.sell_price)
                inside in
            rw inside (
              λ k absent.
                  let (other, absent') = absent_tail k e m absent in
                  cons_none k e (range fc high low m) other (misses k absent'),
              λ j o found. elim (cons_cases j e (range fc high low m) o found) [
                | inl at_head ↦ (
                  in_head j e m at_head.0 ∙ ap some at_head.1,
                  subst (λ o'. SameMarket o'.sell_price low) at_head.1
                      (between-SameMarket fc e.1.sell_price low high same h k),
                )
                | inr further ↦
                    let (found', market) = finds j o further.1 in
                    (in_tail j e m o unique.0 found', market)
              ],
              (misses e.0 unique.0, unique'),
            )
        | inr outside ↦ rw outside (
          λ k absent. misses k (absent_tail k e m absent).1,
          λ j o found.
              let (found', market) = finds j o found in (in_tail j e m o unique.0 found', market),
          unique',
        )
      ]

head_test :
    {V : Type 0} (b : Bool) (e : ℕ × V) (rest : Map V)
    → find e.0 (if b then e ∷ rest else rest) ≡ none
    → b ≡ false
head_test true e rest h = no_entry e.1 (sym h ∙ in_head e.0 e rest refl)
head_test false e rest h = refl

tail_misses :
    {V : Type 0} (k : ℕ) (b : Bool) (e : ℕ × V) (rest : Map V)
    → find k (if b then e ∷ rest else rest) ≡ none
    → k ≢ e.0
    → find k rest ≡ none
tail_misses k true e rest h other = (absent_tail k e rest h).1
tail_misses k false e rest h other = h

-- An order that is not in the range fails one of its tests.
pub range-misses :
    (fc : Fc) (high low : Price) (m : Map LimitOrder) (k : ℕ) (o : LimitOrder)
    → find k m ≡ some o
    → find k (range fc high low m) ≡ none
    → (not (price_gt fc o.sell_price high) && not (price_gt fc low o.sell_price)) ≡ false
unfolding range
range-misses fc high low [] k o found h = no_entry o found
range-misses fc high low (e ∷ m) k o found h = elim (cons_cases k e m o found) [
  | inl here ↦
      let h' = ap (λ i. find i (range fc high low (e ∷ m))) (sym here.0) ∙ h in
      subst
        (λ o'.
          (not (price_gt fc o'.sell_price high) && not (price_gt fc low o'.sell_price)) ≡ false)
        here.1
        (head_test (not (price_gt fc e.1.sell_price high) && not (price_gt fc low e.1.sell_price)) e
          (range fc high low m) h')
  | inr further ↦ range-misses fc high low m k o further.1 (
      tail_misses k (not (price_gt fc e.1.sell_price high) && not (price_gt fc low e.1.sell_price))
        e (range fc high low m) h further.0)
]
