-- ===== src/Undo/Merging.antt =====
-- `merge` of the two newest undo states, followed by an `undo`.
use bitshares_toolkit.Common.{ℕ, ◌-◌, ◌<◌, ◌≡◌, refl, ◌≢◌, false, some, none, List, ◌∷◌, arith}
use bitshares_toolkit.Common.Maps.{Map, find, IsMap}
use bitshares_toolkit.Undo.{UndoState, ObjectDb, Store, index_of, undo, restore, or_fresh}
use bitshares_toolkit.Undo.Merge.{merge_new_ids, merge_states, merge}
use bitshares_toolkit.Undo.Restore.{restore_old_absent}
use bitshares_toolkit.Undo.Tracking.{Tracks, Session, Explains, restore-Tracks}
use bitshares_toolkit.Undo.MergeLoops.{
  find-merge_old_values, merge_old_values-IsMap, find-merge_removed, merge_removed-IsMap,
  find-merge_new_ids, merge_new_ids-IsMap, find-merge_next_ids, merge_next_ids-IsMap,
}

module _ {V : Type 0} (s p : UndoState V) (d mid base : ObjectDb V) (hs : Session s d mid)
    (hp : Session p mid base) where
  abbrev all_new : Map (Unit {0})
  all_new = merge_new_ids s.new_ids p.new_ids

  all_new-IsMap : IsMap all_new
  all_new-IsMap = merge_new_ids-IsMap s.new_ids p.new_ids hp.tracks.new_map

  -- An id that the newer session created had not been removed by the older one.
  new_not_removed : (id : ℕ) (u : Unit {0}) → find id s.new_ids ≡ some u → find id p.removed ≡ none
  new_not_removed id u f =
      ground (
        arith,
        hp.tracks.at_id id,
        hp.fresh_start.unused id,
        hp.grows (index_of id),
        hs.late id u f,
      )

  merge_at_id :
      (id : ℕ)
      → (find id p.old_values ≢ none → find id s.removed ≡ none)
      → Explains
          (find id (merge_states s p).new_ids)
          (find id (merge_states s p).old_values)
          (find id (merge_states s p).removed)
          (d.objects id)
          (base.objects id)
  unfolding merge_states
  merge_at_id id calm = ground (
    arith,
    hs.tracks.at_id id,
    hp.tracks.at_id id,
    new_not_removed id tt,
    find-merge_old_values id p.new_ids s.old_values p.old_values,
    find-merge_removed id s.removed all_new p.removed hs.tracks.removed_map all_new-IsMap,
    find-merge_new_ids id s.new_ids p.new_ids,
  )

  merge_states-Tracks :
      ((id : ℕ) → find id p.old_values ≢ none → find id s.removed ≡ none)
      → Tracks (merge_states s p) d base
  unfolding merge_states
  merge_states-Tracks calm = record {
    old_map = merge_old_values-IsMap p.new_ids s.old_values p.old_values hp.tracks.old_map;
    new_map =
        (merge_removed-IsMap s.removed all_new p.removed all_new-IsMap hp.tracks.removed_map).0;
    removed_map =
        (merge_removed-IsMap s.removed all_new p.removed all_new-IsMap hp.tracks.removed_map).1;
    next_map = merge_next_ids-IsMap s.old_index_next_ids p.old_index_next_ids hp.tracks.next_map;
    at_id = λ id. merge_at_id id (calm id);
    at_index = λ i. ground (
      arith,
      hs.tracks.at_index i,
      hp.tracks.at_index i,
      find-merge_next_ids i s.old_index_next_ids p.old_index_next_ids,
    );
  }

  pub merge_states-Session :
      ((id : ℕ) → find id p.old_values ≢ none → find id s.removed ≡ none)
      → Session (merge_states s p) d base
  unfolding merge_states
  merge_states-Session calm = record {
    tracks = merge_states-Tracks calm;
    fresh_now = hs.fresh_now;
    fresh_start = hp.fresh_start;
    grows = λ i. omega (arith, hs.grows i, hp.grows i);
    late = λ id u f. ground (
      arith,
      hs.late id u,
      hp.late id u,
      hp.grows (index_of id),
      find-merge_removed id s.removed all_new p.removed hs.tracks.removed_map all_new-IsMap,
      find-merge_new_ids id s.new_ids p.new_ids,
    );
  }

  -- With an old value in the older state of an object that the newer session removed, restoring
  -- from the merged state fails.
  pub restore-merge_states-throws :
      (id : ℕ) (v w : V)
      → find id p.old_values ≡ some v
      → find id s.removed ≡ some w
      → restore (merge_states s p) d ≡ none
  unfolding restore merge_states
  restore-merge_states-throws id v w old gone =
      rw
        (restore_old_absent (merge_states s p).old_values d.objects id v
          (ground (arith, old, find-merge_old_values id p.new_ids s.old_values p.old_values))
          (ground (arith, gone, hs.tracks.at_id id)))
        refl

module _ {V : Type 0} where
  -- Merging a session into the one around it and undoing the result brings back the database that the
  -- outer one started from, provided the inner one removed no object of which the outer one has
  -- recorded an old value, two sessions are active and the database is enabled.
  pub merge_then_undo_restores :
      (st : Store V) (s p : UndoState V) (rest : List (UndoState V)) (mid base : ObjectDb V)
      → st.disabled ≡ false
      → 1 < st.active_sessions
      → st.stack ≡ s ∷ p ∷ rest
      → Session s st.db mid
      → Session p mid base
      → ((id : ℕ) → find id p.old_values ≢ none → find id s.removed ≡ none)
      → (merged : Store V) × (merge st ≡ some merged)
        × (undo merged
            ≡ some (record st {
              db = base;
              stack = or_fresh rest;
              active_sessions = st.active_sessions - 1 - 1;
            }))
  unfolding merge undo
  merge_then_undo_restores st s p rest mid base on two top hs hp calm =
      let t =
        restore-Tracks (merge_states s p) st.db base
          (merge_states-Tracks s p st.db mid base hs hp calm) in
      (
        record st { stack = merge_states s p ∷ rest; active_sessions = st.active_sessions - 1 },
        ground (arith, two, top),
        ground (arith, on, two, t),
      )

  -- Where the inner session removed an object of which the outer one has recorded an old value, the
  -- merge succeeds and the `undo` after it throws: `merge` leaves the old value in place although the
  -- object is gone, and `undo` asks for the object. Two sessions are active, the database is enabled.
  pub merge_then_undo_throws :
      (st : Store V) (s p : UndoState V) (rest : List (UndoState V)) (mid base : ObjectDb V)
      → st.disabled ≡ false
      → 1 < st.active_sessions
      → st.stack ≡ s ∷ p ∷ rest
      → Session s st.db mid
      → Session p mid base
      → (id : ℕ) (v w : V) → find id p.old_values ≡ some v
      → find id s.removed ≡ some w
      → (merged : Store V) × (merge st ≡ some merged) × (undo merged ≡ none)
  unfolding merge undo
  merge_then_undo_throws st s p rest mid base on two top hs hp id v w old gone =
      let t = restore-merge_states-throws s p st.db mid base hs hp id v w old gone in
      (
        record st { stack = merge_states s p ∷ rest; active_sessions = st.active_sessions - 1 },
        ground (arith, two, top),
        ground (arith, on, two, t),
      )
