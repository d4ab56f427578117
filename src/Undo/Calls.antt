-- ===== src/Undo/Calls.antt =====
-- Each call of the undo database of libraries/db/undo_database.cpp against the same call of the database
-- with whole copies.
use bitshares_toolkit.Common.{
  ℕ, ◌+◌, ◌-◌, ◌<◌, ◌^◌, ◌≡◌, refl, sym, ap, subst, ◌∙◌, ◌≢◌, Option, some, none, Option-cases,
  List, ◌∷◌, arith, ltb, length, ◌==◌, if◌then◌else◌, inl, inr, Bool-cases,
}
use bitshares_toolkit.Common.Maps.{find}
use bitshares_toolkit.Undo.{
  UndoState, ObjectDb, Store, index_of, start_undo_session, create, modify, remove, undo, commit,
  pop_commit, record_create, record_modify, record_remove, on_back, on_event, update,
}
use bitshares_toolkit.Undo.Merge.{merge_states, merge}
use bitshares_toolkit.Undo.Tracking.{IsFresh, Session, restore-Tracks, start-Session}
use bitshares_toolkit.Undo.Recording.{create-Session, record_modify-Session, record_remove-Session}
use bitshares_toolkit.Undo.Sessions.{start-Inside}
use bitshares_toolkit.Undo.Merging.{merge_states-Session}
use bitshares_toolkit.Undo.Covering.{
  Represents, Agree, Covers-IsFresh, Covers-length, Covers-drop, Covers-or_fresh, Covers-on_back,
  Covers-cases,
}
use bitshares_toolkit.Undo.Snapshots.{
  creates, modifies, removes, undoes, merges, commits, pops, Snapshots, drop_last, change, answer,
  RemovesNone,
}

module _ {V : Type 0} where
  both_fail : {r : Option (Store V)} {q : Option (Snapshots V)} → r ≡ none → q ≡ none → Agree r q
  both_fail e f = rw (e, f) tt

  both_return :
      {r : Option (Store V)} {q : Option (Snapshots V)} {st : Store V} {a : Snapshots V}
      → r ≡ some st
      → q ≡ some a
      → Represents st a
      → Agree r q
  both_return e f h = rw (e, f) h

module _ {V : Type 0} where
  RemovesNone-calm :
      (s p : UndoState V) (d mid base : ObjectDb V) (bs : List (ObjectDb V))
      → Session s d mid
      → Session p mid base
      → RemovesNone (mid ∷ base ∷ bs) d
      → (id : ℕ) → find id p.old_values ≢ none
      → find id s.removed ≡ none
  RemovesNone-calm s p d mid base bs k l kept_all id old =
      ground (arith, k.tracks.at_id id, l.tracks.at_id id, kept_all id)

module _ {V : Type 0} (st : Store V) (a : Snapshots V) (h : Represents st a) where
  IsFresh-now : IsFresh st.db
  IsFresh-now = subst IsFresh (sym h.same_db) (Covers-IsFresh st.stack a.current a.saved h.covers)

  pub start-Represents :
      a.active + 1 < 2 ^ 32
      → Represents (start_undo_session st) (record a {
        saved = a.current ∷ (if length a.saved == a.limit then drop_last a.saved else a.saved);
        active = a.active + 1;
      })
  start-Represents few =
      let same = Covers-length st.stack a.current a.saved h.covers in
      rw (start-Inside st h.enabled IsFresh-now (omega (arith, few, h.same_active))) (record {
        enabled = h.enabled;
        same_db = h.same_db;
        covers = (
          start-Session a.current (Covers-IsFresh st.stack a.current a.saved h.covers),
          ground (
            arith,
            same,
            h.same_limit,
            h.covers,
            Covers-drop st.stack a.current a.saved h.covers,
          ),
        );
        same_active = ap (λ n. n + 1) h.same_active;
        same_limit = h.same_limit;
      })

  change-Represents :
      (f : UndoState V → UndoState V) (next : ObjectDb V)
      → ((t : UndoState V) (b : ObjectDb V) → Session t a.current b → Session (f t) next b)
      → Represents (record st { db = next; stack = on_back f st.stack }) (change next a)
  change-Represents f next keeps = record {
    enabled = h.enabled;
    same_db = refl;
    covers = Covers-on_back f st.stack a.current next a.saved keeps h.covers;
    same_active = h.same_active;
    same_limit = h.same_limit;
  }

  pub create-Agree :
      (index : ℕ) (v : V)
      → index_of (a.current.next_ids index) ≡ index
      → Agree (create index v st) (answer (creates index v) a)
  unfolding create answer on_event
  create-Agree index v at =
      let id = a.current.next_ids index in
      elim (Option-cases (a.current.objects id)) [
        | inr (w, taken) ↦ both_fail (ground (arith, h.same_db)) (ground arith)
        | inl free ↦ both_return (ground (arith, h.same_db, h.enabled)) (ground arith) (
            change-Represents (record_create id)
              (record {
                objects = update a.current.objects id (some v);
                next_ids = update a.current.next_ids index (id + 1);
              })
              (λ t b k. create-Session t a.current b k index v at))
      ]

  pub modify-Agree : (id : ℕ) (f : V → V) → Agree (modify id f st) (answer (modifies id f) a)
  unfolding modify answer on_event
  modify-Agree id f = elim (Option-cases (a.current.objects id)) [
    | inl absent ↦ both_fail (ground (arith, h.same_db)) (ground arith)
    | inr (v, present) ↦ both_return (ground (arith, h.same_db, h.enabled)) (ground arith) (
        change-Represents (record_modify id v)
          (record a.current { objects = update a.current.objects id (some (f v)) })
          (λ t b k. record_modify-Session t a.current b k id v (f v) present))
  ]

  pub remove-Agree : (id : ℕ) → Agree (remove id st) (answer (removes id) a)
  unfolding remove answer on_event
  remove-Agree id = elim (Option-cases (a.current.objects id)) [
    | inl absent ↦ both_fail (ground (arith, h.same_db)) (ground arith)
    | inr (v, present) ↦ both_return (ground (arith, h.same_db, h.enabled)) (ground arith) (
        change-Represents (record_remove id v)
          (record a.current { objects = update a.current.objects id none })
          (λ t b k. record_remove-Session t a.current b k id v present))
  ]

  pub undo-Agree : Agree (undo st) (answer undoes a)
  unfolding undo answer
  undo-Agree = elim (Bool-cases (ltb 0 a.active)) [
    | inr idle ↦ both_fail (ground (arith, h.same_active)) (ground arith)
    | inl busy ↦ elim (Covers-cases st.stack a.current a.saved h.covers) [
      | inl (s0, b0) ↦ both_fail (ground (arith, h.same_active, h.enabled)) (ground arith)
      | inr (s, r, b, cs, top, saved, k, below) ↦
          both_return
            (ground
              (arith, h.same_active, h.enabled, h.same_db, restore-Tracks s a.current b k.tracks))
            (ground arith)
            (record {
              enabled = refl;
              same_db = refl;
              covers = Covers-or_fresh r b cs below;
              same_active = ap (λ n. n - 1) h.same_active;
              same_limit = h.same_limit;
            })
    ]
  ]

  pub pop-Agree : Agree (pop_commit st) (answer pops a)
  unfolding pop_commit answer
  pop-Agree = elim (Bool-cases (a.active == 0)) [
    | inr busy ↦ both_fail (ground (arith, h.same_active)) (ground arith)
    | inl idle ↦ elim (Covers-cases st.stack a.current a.saved h.covers) [
      | inl (s0, b0) ↦ both_fail (ground (arith, h.same_active)) (ground arith)
      | inr (s, r, b, cs, top, saved, k, below) ↦
          both_return
            (ground (arith, h.same_active, h.same_db, restore-Tracks s a.current b k.tracks))
            (ground arith)
            (record {
              enabled = refl;
              same_db = refl;
              covers = below;
              same_active = h.same_active;
              same_limit = h.same_limit;
            })
    ]
  ]

  pub commit-Agree : Agree (commit st) (answer commits a)
  unfolding commit answer
  commit-Agree = elim (Bool-cases (ltb 0 a.active)) [
    | inr idle ↦ both_fail (ground (arith, h.same_active)) (ground arith)
    | inl busy ↦ both_return (ground (arith, h.same_active)) (ground arith) (record {
      enabled = h.enabled;
      same_db = h.same_db;
      covers = h.covers;
      same_active = ap (λ n. n - 1) h.same_active;
      same_limit = h.same_limit;
    })
  ]

  pub merge-Agree : RemovesNone a.saved a.current → Agree (merge st) (answer merges a)
  unfolding merge answer
  merge-Agree kept_all = elim (Bool-cases (ltb 0 a.active)) [
    | inr idle ↦ both_fail (ground (arith, h.same_active)) (ground arith)
    | inl busy ↦ elim (Covers-cases st.stack a.current a.saved h.covers) [
      | inl (s0, b0) ↦ both_fail (ground (arith, h.same_active)) (ground arith)
      | inr (s, r, mid, cs, top, saved, k, below) ↦ elim (Covers-cases r mid cs below) [
        | inl (r0, c0) ↦ both_fail (ground (arith, h.same_active)) (ground arith)
        | inr (p, rest, base, ds, next, older, l, deep) ↦
            both_return
              {st = record st {
                stack = merge_states s p ∷ rest;
                active_sessions = st.active_sessions - 1;
              }}
              {a = record a { saved = base ∷ ds; active = a.active - 1 }}
              (ground (arith, h.same_active)) (ground arith)
              (record {
                enabled = h.enabled;
                same_db = h.same_db;
                covers = (
                  merge_states-Session s p a.current mid base k l (
                      RemovesNone-calm s p a.current mid base ds k l (
                        subst (λ (bs : List (ObjectDb V)). RemovesNone bs a.current)
                          (saved ∙ ap (λ l. mid ∷ l) older) kept_all)),
                  deep,
                );
                same_active = ap (λ n. n - 1) h.same_active;
                same_limit = h.same_limit;
              })
      ]
    ]
  ]
