-- ===== src/Common/Maps.antt =====
-- Maps keyed by numbers, as association lists: the content of an `unordered_map` in some order.
use mathlib.Core.Path.{◌≡◌, refl}
use mathlib.Core.Logic.{◌≢◌}
use mathlib.Core.Bool.{Bool, true, false}
use mathlib.Core.Option.{Option, none, some}
use mathlib.Core.List.{List, [], ◌∷◌}
use Prim.Native.Nat.{ℕ}
use native.Mathlib.Omega.{arith}
use bitshares_toolkit.Common.Tests.{◌==◌, if◌then◌else◌}

abbrev pub Map : Type 0 → Type 0
Map V = List (ℕ × V)

module _ {V : Type 0} where
  abbrev pub find : ℕ → Map V → Option V
  find k [] = none
  find k (e ∷ m) = if k == e.0 then some e.1 else find k m

  -- `m.find( k ) != m.end()`
  abbrev pub contains : ℕ → Map V → Bool
  contains k m = elim (find k m) [ none ↦ false | some _ ↦ true ]

  -- `m[k] = v`
  abbrev pub insert : ℕ → V → Map V → Map V
  insert k v [] = (k, v) ∷ []
  insert k v (e ∷ m) = if k == e.0 then (k, v) ∷ m else e ∷ insert k v m

  -- `m.erase( k )`
  abbrev pub erase : ℕ → Map V → Map V
  erase k [] = []
  erase k (e ∷ m) = if k == e.0 then m else e ∷ erase k m

  -- Every key stands once.
  abbrev pub IsMap : Map V → Type 0
  IsMap [] = Unit
  IsMap (e ∷ m) = (find e.0 m ≡ none) × IsMap m

  pub find-insert :
      (j k : ℕ) (v : V) (m : Map V) → find j (insert k v m) ≡ (if j == k then some v else find j m)
  find-insert j k v [] = refl
  find-insert j k v (e ∷ m) = ground (arith, find-insert j k v m)

  pub find-erase_ne : (j k : ℕ) (m : Map V) → j ≢ k → find j (erase k m) ≡ find j m
  find-erase_ne j k [] h = refl
  find-erase_ne j k (e ∷ m) h = ground (arith, find-erase_ne j k m h)

  pub find-erase :
      (j k : ℕ) (m : Map V) → IsMap m → find j (erase k m) ≡ (if j == k then none else find j m)
  find-erase j k [] h = ground arith
  find-erase j k (e ∷ m) h = ground (arith, find-erase j k m h.1)

  pub insert-IsMap : (k : ℕ) (v : V) (m : Map V) → IsMap m → IsMap (insert k v m)
  insert-IsMap k v [] h = (refl, tt)
  insert-IsMap k v (e ∷ m) h = ground (arith, insert-IsMap k v m h.1, find-insert e.0 k v m)

  pub erase-IsMap : (k : ℕ) (m : Map V) → IsMap m → IsMap (erase k m)
  erase-IsMap k [] h = tt
  erase-IsMap k (e ∷ m) h = ground (arith, erase-IsMap k m h.1, find-erase_ne e.0 k m)
