-- ===== src/Undo/MergeLoops.antt =====
-- The loops of `merge`, by what they find under an id.
use bitshares_toolkit.Common.{ℕ, ◌≡◌, refl, Option, some, none, [], ◌∷◌, arith, if◌then◌else◌}
use bitshares_toolkit.Common.Maps.{
  Map, find, contains, insert, erase, IsMap, find-insert, find-erase, insert-IsMap, erase-IsMap,
}
use bitshares_toolkit.Undo.{IdSet}
use bitshares_toolkit.Undo.Merge.{merge_old_values, merge_new_ids, merge_next_ids, merge_removed}

abbrev pub first_of_two : {A : Type 0} → Option A → Option A → Option A
first_of_two none o = o
first_of_two (some a) o = some a

module _ {V : Type 0} where
  pub find-merge_old_values :
      (id : ℕ) (new : IdSet) (m old : Map V)
      → find id (merge_old_values new m old)
        ≡ (if contains id new then find id old else first_of_two (find id old) (find id m))
  unfolding merge_old_values
  find-merge_old_values id new [] old = ground arith
  find-merge_old_values id new (e ∷ m) old = ground (
    arith,
    find-merge_old_values id new m old,
    find-merge_old_values id new m (insert e.0 e.1 old),
    find-insert id e.0 e.1 old,
  )

  pub merge_old_values-IsMap :
      (new : IdSet) (m old : Map V) → IsMap old → IsMap (merge_old_values new m old)
  unfolding merge_old_values
  merge_old_values-IsMap new [] old h = h
  merge_old_values-IsMap new (e ∷ m) old h =
      merge_old_values-IsMap new m _ (ground (arith, insert-IsMap e.0 e.1 old h))

  pub find-merge_removed :
      (id : ℕ) (m : Map V) (new : IdSet) (removed : Map V)
      → IsMap m
      → IsMap new
      → (find id (merge_removed m new removed).0 ≡ (if contains id m then none else find id new))
        × (find id (merge_removed m new removed).1 ≡ (
            if contains id new
            then find id removed
            else first_of_two (find id m) (find id removed)))
  unfolding merge_removed
  find-merge_removed id [] new removed h k = ground arith
  find-merge_removed id (e ∷ m) new removed h k = ground (
    arith,
    find-merge_removed id m (erase e.0 new) removed h.1 (erase-IsMap e.0 new k),
    find-merge_removed id m new (insert e.0 e.1 removed) h.1 k,
    find-insert id e.0 e.1 removed,
    find-erase id e.0 new k,
  )

  pub merge_removed-IsMap :
      (m : Map V) (new : IdSet) (removed : Map V)
      → IsMap new
      → IsMap removed
      → IsMap (merge_removed m new removed).0 × IsMap (merge_removed m new removed).1
  unfolding merge_removed
  merge_removed-IsMap [] new removed h k = (h, k)
  merge_removed-IsMap (e ∷ m) new removed h k =
      merge_removed-IsMap m _ _ (ground (arith, erase-IsMap e.0 new h))
        (ground (arith, insert-IsMap e.0 e.1 removed k))

pub find-merge_new_ids :
    (id : ℕ) (m new : IdSet)
    → find id (merge_new_ids m new) ≡ first_of_two (find id m) (find id new)
unfolding merge_new_ids
find-merge_new_ids id [] new = refl
find-merge_new_ids id (e ∷ m) new =
    ground (arith, find-merge_new_ids id m (insert e.0 tt new), find-insert id e.0 tt new)

pub merge_new_ids-IsMap : (m new : IdSet) → IsMap new → IsMap (merge_new_ids m new)
unfolding merge_new_ids
merge_new_ids-IsMap [] new h = h
merge_new_ids-IsMap (e ∷ m) new h = merge_new_ids-IsMap m _ (insert-IsMap e.0 tt new h)

pub find-merge_next_ids :
    (id : ℕ) (m next : Map ℕ)
    → find id (merge_next_ids m next) ≡ first_of_two (find id next) (find id m)
unfolding merge_next_ids
find-merge_next_ids id [] next = ground arith
find-merge_next_ids id (e ∷ m) next = ground (
  arith,
  find-merge_next_ids id m next,
  find-merge_next_ids id m (insert e.0 e.1 next),
  find-insert id e.0 e.1 next,
)

pub merge_next_ids-IsMap : (m next : Map ℕ) → IsMap next → IsMap (merge_next_ids m next)
unfolding merge_next_ids
merge_next_ids-IsMap [] next h = h
merge_next_ids-IsMap (e ∷ m) next h =
    merge_next_ids-IsMap m _ (ground (arith, insert-IsMap e.0 e.1 next h))
