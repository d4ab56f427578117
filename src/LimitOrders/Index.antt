-- ===== src/LimitOrders/Index.antt =====
-- The index by_price is a map with the entries of the orders.
use bitshares_toolkit.Common.{
  ℕ, ◌==◌, ◌≡◌, ◌≢◌, refl, ap, ◌∙◌, Bool, true, false, Option, none, some, [], ◌∷◌, if◌then◌else◌,
  arith,
}
use bitshares_toolkit.Common.Maps.{Map, IsMap, find}
use bitshares_toolkit.Fc.{Fc}
use bitshares_toolkit.Matching.{LimitOrder}
use bitshares_toolkit.LimitOrders.{before, place, by_price}

-- One test of `place`, as a Boolean
place_at :
    {V : Type 0} (k : ℕ) (b : Bool) (e d : ℕ × V) (m rest : Map V) (r : Option V)
    → e.0 ≢ d.0
    → find k rest ≡ (if k == e.0 then some e.1 else find k m)
    → find k (if b then d ∷ rest else e ∷ d ∷ m)
      ≡ (if k == e.0 then some e.1 else if k == d.0 then some d.1 else find k m)
place_at k b e d m rest r other h = ground (arith, other, h)

pub absent_tail :
    {V : Type 0} (k : ℕ) (d : ℕ × V) (m : Map V)
    → find k (d ∷ m) ≡ none
    → (k ≢ d.0) × (find k m ≡ none)
absent_tail k d m h = ground (arith, h)

find-place :
    (fc : Fc) (k : ℕ) (e : ℕ × LimitOrder) (m : Map LimitOrder)
    → find e.0 m ≡ none
    → find k (place fc e m) ≡ (if k == e.0 then some e.1 else find k m)
find-place fc k e [] h = refl
find-place fc k e (d ∷ m) h =
    let (other, absent) = absent_tail e.0 d m h in
    place_at k (before fc d e) e d m (place fc e m) none other (find-place fc k e m absent)

placed-IsMap :
    {V : Type 0} (b : Bool) (e d : ℕ × V) (m rest : Map V)
    → find e.0 (d ∷ m) ≡ none
    → IsMap (d ∷ m)
    → find d.0 rest ≡ none
    → IsMap rest
    → IsMap (if b then d ∷ rest else e ∷ d ∷ m)
placed-IsMap true e d m rest absent unique h k = (h, k)
placed-IsMap false e d m rest absent unique h k = (absent, unique)

passed :
    {V : Type 0} (k : ℕ) (e d : ℕ × V) (m : Map V)
    → e.0 ≢ d.0
    → find d.0 m ≡ none
    → (if d.0 == e.0 then some e.1 else find d.0 m) ≡ none
passed k e d m other h = ground (arith, other, h)

place-IsMap :
    (fc : Fc) (e : ℕ × LimitOrder) (m : Map LimitOrder)
    → find e.0 m ≡ none
    → IsMap m
    → IsMap (place fc e m)
place-IsMap fc e [] h unique = (refl, tt)
place-IsMap fc e (d ∷ m) h unique =
    let (other, absent) = absent_tail e.0 d m h in
    placed-IsMap (before fc d e) e d m (place fc e m) h unique
      (find-place fc d.0 e m absent ∙ passed 0 e d m other unique.0)
      (place-IsMap fc e m absent unique.1)

-- The index is a map with the same entries.
pub by_price-find :
    (fc : Fc) (m : Map LimitOrder)
    → IsMap m
    → ((k : ℕ) → find k (by_price fc m) ≡ find k m) × IsMap (by_price fc m)
unfolding by_price
by_price-find fc [] unique = (λ k. refl, tt)
by_price-find fc (e ∷ m) unique =
    let (same, sorted) = by_price-find fc m unique.1 in
    let absent = same e.0 ∙ unique.0 in
    (
      λ k.
          find-place fc k e (by_price fc m) absent
          ∙ ap (λ r. if k == e.0 then some e.1 else r) (same k),
      place-IsMap fc e (by_price fc m) absent sorted,
    )
