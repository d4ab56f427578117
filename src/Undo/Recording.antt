-- ===== src/Undo/Recording.antt =====
-- `on_create`, `on_modify` and `on_remove` against what an undo state knows.
use bitshares_toolkit.Common.{
  ℕ, ◌+◌, ◌≤◌, ◌≡◌, Option, some, none, arith, inl, inr, Option-cases, subst, sym, ap,
}
use bitshares_toolkit.Common.Maps.{find, find-insert, find-erase, insert-IsMap, erase-IsMap}
use bitshares_toolkit.Undo.{
  UndoState, ObjectDb, update, index_of, record_create, record_modify, record_remove,
}
use bitshares_toolkit.Undo.Tracking.{Tracks, Session}

module _ {V : Type 0} (s : UndoState V) (d base : ObjectDb V) (h : Session s d base) (id : ℕ) where
  abbrev created : V → ObjectDb V
  created v = record {
    objects = update d.objects id (some v);
    next_ids = update d.next_ids (index_of id) (id + 1);
  }

  abbrev put : Option V → ObjectDb V
  put o = record { objects = update d.objects id o; next_ids = d.next_ids }

  module _ (next : id ≡ d.next_ids (index_of id)) where
    not_removed : find id s.removed ≡ none
    not_removed = ground (
      arith,
      h.tracks.at_id id,
      h.fresh_now.unused id,
      h.fresh_start.unused id,
      h.grows (index_of id),
    )

    record_create-Tracks : (v : V) → Tracks (record_create id s) (created v) base
    unfolding record_create
    record_create-Tracks v = record {
      old_map = h.tracks.old_map;
      new_map = insert-IsMap id tt s.new_ids h.tracks.new_map;
      removed_map = h.tracks.removed_map;
      next_map = ground (
        arith,
        h.tracks.next_map,
        insert-IsMap (index_of id) id s.old_index_next_ids h.tracks.next_map,
      );
      at_id = λ j. ground (
        arith,
        h.tracks.at_id j,
        find-insert j id tt s.new_ids,
        not_removed,
        h.fresh_now.unused id,
      );
      at_index = λ i.
          ground (arith, h.tracks.at_index i, find-insert i (index_of id) id s.old_index_next_ids);
    }

    record_create-late :
        (j : ℕ) (u : Unit {0})
        → find j (record_create id s).new_ids ≡ some u
        → base.next_ids (index_of j) ≤ j
    unfolding record_create
    record_create-late j u f =
        ground (arith, find-insert j id tt s.new_ids, h.late j u, h.grows (index_of id))

    pub record_create-Session : (v : V) → Session (record_create id s) (created v) base
    record_create-Session v = record {
      tracks = record_create-Tracks v;
      fresh_now = record { unused = λ j. ground (arith, h.fresh_now.unused j) };
      fresh_start = h.fresh_start;
      grows = λ i. ground (arith, h.grows i);
      late = record_create-late;
    }

  record_modify-Tracks :
      (v w : V) → d.objects id ≡ some v → Tracks (record_modify id v s) (put (some w)) base
  unfolding record_modify
  record_modify-Tracks v w e = record {
    old_map = ground (arith, h.tracks.old_map, insert-IsMap id v s.old_values h.tracks.old_map);
    new_map = ground (arith, h.tracks.new_map);
    removed_map = ground (arith, h.tracks.removed_map);
    next_map = ground (arith, h.tracks.next_map);
    at_id =
        λ j. ground (arith, h.tracks.at_id j, h.tracks.at_id id, find-insert j id v s.old_values);
    at_index = λ i. ground (arith, h.tracks.at_index i);
  }

  record_modify-late :
      (v : V) (j : ℕ) (u : Unit {0})
      → find j (record_modify id v s).new_ids ≡ some u
      → base.next_ids (index_of j) ≤ j
  unfolding record_modify
  record_modify-late v j u f = ground (arith, h.late j u)

  pub record_modify-Session :
      (v w : V) → d.objects id ≡ some v → Session (record_modify id v s) (put (some w)) base
  record_modify-Session v w e = record {
    tracks = record_modify-Tracks v w e;
    fresh_now = record { unused = λ j. ground (arith, h.fresh_now.unused j) };
    fresh_start = h.fresh_start;
    grows = h.grows;
    late = record_modify-late v;
  }

  record_remove-Tracks :
      (v : V) → d.objects id ≡ some v → Tracks (record_remove id v s) (put none) base
  unfolding record_remove
  record_remove-Tracks v e = record {
    old_map = ground (arith, h.tracks.old_map, erase-IsMap id s.old_values h.tracks.old_map);
    new_map = ground (arith, h.tracks.new_map, erase-IsMap id s.new_ids h.tracks.new_map);
    removed_map = elim (Option-cases (find id s.old_values)) [
      | inl none_old ↦
          ground (
            arith,
            h.tracks.removed_map,
            insert-IsMap id v s.removed h.tracks.removed_map,
            none_old,
          )
      | inr (old, kept) ↦
          ground
            (arith, h.tracks.removed_map, insert-IsMap id old s.removed h.tracks.removed_map, kept)
    ];
    next_map = ground (arith, h.tracks.next_map);
    at_id = λ j. elim (Option-cases (find id s.old_values)) [
      | inl none_old ↦ ground (
        arith,
        none_old,
        h.tracks.at_id j,
        h.tracks.at_id id,
        find-erase j id s.new_ids h.tracks.new_map,
        find-insert j id v s.removed,
      )
      | inr (old, kept) ↦ ground (
        arith,
        kept,
        h.tracks.at_id j,
        h.tracks.at_id id,
        find-erase j id s.new_ids h.tracks.new_map,
        find-erase j id s.old_values h.tracks.old_map,
        find-insert j id old s.removed,
      )
    ];
    at_index = λ i. ground (arith, h.tracks.at_index i);
  }

  record_remove-late :
      (v : V) (j : ℕ) (u : Unit {0})
      → find j (record_remove id v s).new_ids ≡ some u
      → base.next_ids (index_of j) ≤ j
  unfolding record_remove
  record_remove-late v j u f =
      ground (arith, find-erase j id s.new_ids h.tracks.new_map, h.late j u)

  pub record_remove-Session :
      (v : V) → d.objects id ≡ some v → Session (record_remove id v s) (put none) base
  record_remove-Session v e = record {
    tracks = record_remove-Tracks v e;
    fresh_now = record { unused = λ j. ground (arith, h.fresh_now.unused j) };
    fresh_start = h.fresh_start;
    grows = h.grows;
    late = record_remove-late v;
  }

module _ {V : Type 0} where
  -- `record_create-Session` for an id that lies in its index.
  pub create-Session :
      (t : UndoState V) (d b : ObjectDb V)
      → Session t d b
      → (index : ℕ) (v : V) → index_of (d.next_ids index) ≡ index
      → Session
          (record_create (d.next_ids index) t)
          (record {
            objects = update d.objects (d.next_ids index) (some v);
            next_ids = update d.next_ids index (d.next_ids index + 1);
          })
          b
  create-Session t d b k index v at =
      let id = d.next_ids index in
      subst
        (λ (i : ℕ).
          Session (record_create id t)
            (record {
              objects = update d.objects id (some v);
              next_ids = update d.next_ids i (id + 1);
            })
            b)
        at (record_create-Session t d b k id (ap d.next_ids (sym at)) v)
