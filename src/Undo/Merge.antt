-- ===== src/Undo/Merge.antt =====
-- `undo_database::merge` of libraries/db/undo_database.cpp.
use bitshares_toolkit.Common.{
  ℕ, ◌-◌, Option, some, none, List, [], ◌∷◌, ltb, if◌then◌else◌, ◌>>=◌, ◌>>◌, fc_assert,
}
use bitshares_toolkit.Common.Maps.{Map, contains, insert, erase}
use bitshares_toolkit.Undo.{IdSet, UndoState, Store}

-- The four loops of `merge`, each over one part of the newer state: `old_values` under the
-- `new_ids` of the older one, `new_ids`, `old_index_next_ids`, and `removed` with the `new_ids` and
-- the `removed` of the older one.
unfoldable pub merge_old_values : {V : Type 0} → IdSet → Map V → Map V → Map V
merge_old_values new [] old = old
merge_old_values new (e ∷ m) old =
    merge_old_values new m
      (if contains e.0 new then old else if contains e.0 old then old else insert e.0 e.1 old)

unfoldable pub merge_new_ids : IdSet → IdSet → IdSet
merge_new_ids [] new = new
merge_new_ids (e ∷ m) new = merge_new_ids m (insert e.0 tt new)

unfoldable pub merge_next_ids : Map ℕ → Map ℕ → Map ℕ
merge_next_ids [] next = next
merge_next_ids (e ∷ m) next =
    merge_next_ids m (if contains e.0 next then next else insert e.0 e.1 next)

unfoldable pub merge_removed : {V : Type 0} → Map V → IdSet → Map V → IdSet × Map V
merge_removed [] new removed = (new, removed)
merge_removed (e ∷ m) new removed =
    let known = contains e.0 new in
    merge_removed m (if known then erase e.0 new else new)
      (if known then removed else insert e.0 e.1 removed)

module _ {V : Type 0} where
  unfoldable pub merge_states : UndoState V → UndoState V → UndoState V
  unfolding merge_old_values merge_new_ids merge_next_ids merge_removed
  merge_states s prev =
      let old_values = merge_old_values prev.new_ids s.old_values prev.old_values in
      let (new_ids, removed) =
        merge_removed s.removed (merge_new_ids s.new_ids prev.new_ids) prev.removed in
      record {
        old_values = old_values;
        old_index_next_ids = merge_next_ids s.old_index_next_ids prev.old_index_next_ids;
        new_ids = new_ids;
        removed = removed;
      }

  abbrev pub back_two : List (UndoState V) → Option (UndoState V × UndoState V × List (UndoState V))
  back_two [] = none
  back_two (s ∷ []) = none
  back_two (s ∷ t ∷ r) = some (s, t, r)

  unfoldable pub merge : Store V → Option (Store V)
  merge st = do
    fc_assert (ltb 0 st.active_sessions)
    (s, prev, rest) ← back_two st.stack
    some
        (record st { stack = merge_states s prev ∷ rest; active_sessions = st.active_sessions - 1 })
