-- ===== src/Undo/Sessions.antt =====
-- Sessions of the undo database from their start to `undo`, or to `commit` and `pop_commit`.
use bitshares_toolkit.Common.{
  subst, eq_of_some, ℕ, ◌+◌, ◌-◌, ◌^◌, ◌<◌, ◌≡◌, refl, sym, ap, ◌∙◌, false, Option, some, none,
  List, ◌∷◌, arith, ◌==◌, if◌then◌else◌, length,
}
use bitshares_toolkit.Undo.{
  UndoState, ObjectDb, Store, index_of, fresh_state, drop_oldest, or_fresh, start_undo_session,
  create, modify, remove, undo, commit, pop_commit, record_create, record_modify, record_remove,
  update,
}
use bitshares_toolkit.Undo.Tracking.{IsFresh, Session, restore-Tracks, start-Session}
use bitshares_toolkit.Undo.Recording.{create-Session, record_modify-Session, record_remove-Session}

module _ {V : Type 0} where
  -- One change of the object database through its interface. A new id must lie in its index, which
  -- is so until the 48 bits of the instance are used up.
  pub data Step (st st' : Store V) : Type 0 where
    creates :
        (index : ℕ) (v : V)
        → index_of (st.db.next_ids index) ≡ index
        → create index v st ≡ some st'
        → Step st st'
    modifies : (id : ℕ) (f : V → V) → modify id f st ≡ some st' → Step st st'
    removes : (id : ℕ) → remove id st ≡ some st' → Step st st'

  pub data Run (st : Store V) : Store V → Type 0 where
    here : Run st st
    next : {t u : Store V} → Run st t → Step t u → Run st u

  -- The stack below the state that a new session adds.
  abbrev pub kept : Store V → List (UndoState V)
  kept st = if length st.stack == st.max_size then drop_oldest st.stack else st.stack

  -- `st` is inside the session that began at `st0`.
  pub record Inside (st0 st : Store V) : Type 0 where
    pub enabled : st.disabled ≡ false
    pub state : UndoState V
    pub on_top : st.stack ≡ state ∷ kept st0
    pub session : Session state st.db st0.db
    pub active : st.active_sessions ≡ st0.active_sessions + 1
    pub same_size : st.max_size ≡ st0.max_size

  pub start-Inside :
      (st : Store V)
      → st.disabled ≡ false
      → IsFresh st.db
      → st.active_sessions + 1 < 2 ^ 32
      → start_undo_session st
        ≡ record st { stack = fresh_state ∷ kept st; active_sessions = st.active_sessions + 1 }
  unfolding start_undo_session
  start-Inside st on f few = ground arith

  module _ (st : Store V) (s : UndoState V) (r : List (UndoState V)) (on : st.disabled ≡ false)
      (top : st.stack ≡ s ∷ r) where
    pub create_result :
        (index : ℕ) (v : V)
        → st.db.objects (st.db.next_ids index) ≡ none
        → create index v st
          ≡ some (record st {
            db = record {
              objects = update st.db.objects (st.db.next_ids index) (some v);
              next_ids = update st.db.next_ids index (st.db.next_ids index + 1);
            };
            stack = record_create (st.db.next_ids index) s ∷ r;
          })
    unfolding create
    create_result index v absent = ground arith

    pub modify_result :
        (id : ℕ) (f : V → V) (v : V)
        → st.db.objects id ≡ some v
        → modify id f st
          ≡ some (record st {
            db = record {
              objects = update st.db.objects id (some (f v));
              next_ids = st.db.next_ids;
            };
            stack = record_modify id v s ∷ r;
          })
    unfolding modify
    modify_result id f v present = ground arith

    pub remove_result :
        (id : ℕ) (v : V)
        → st.db.objects id ≡ some v
        → remove id st
          ≡ some (record st {
            db = record { objects = update st.db.objects id none; next_ids = st.db.next_ids };
            stack = record_remove id v s ∷ r;
          })
    unfolding remove
    remove_result id v present = ground arith

  modify_present :
      (id : ℕ) (f : V → V) (st st' : Store V)
      → modify id f st ≡ some st'
      → (v : V) × (st.db.objects id ≡ some v)
  unfolding modify
  modify_present id f st st' e = ground arith

  remove_present :
      (id : ℕ) (st st' : Store V) → remove id st ≡ some st' → (v : V) × (st.db.objects id ≡ some v)
  unfolding remove
  remove_present id st st' e = ground arith

  -- The database and the top state change together; the rest of the store stays.
  advance :
      (st0 st st' : Store V) (s : UndoState V) (d : ObjectDb V)
      → Inside st0 st
      → Session s d st0.db
      → (r : Option (Store V)) → r ≡ some (record st { db = d; stack = s ∷ kept st0 })
      → r ≡ some st'
      → Inside st0 st'
  advance st0 st st' s d i h r result e = subst (Inside st0) (eq_of_some (sym result ∙ e)) (record {
    enabled = i.enabled;
    state = s;
    on_top = refl;
    session = h;
    active = i.active;
    same_size = i.same_size;
  })

  Step-Inside : (st0 st st' : Store V) → Inside st0 st → Step st st' → Inside st0 st'
  Step-Inside st0 st st' i (creates index v at e) =
      let id = st.db.next_ids index in
      let next : id ≡ st.db.next_ids (index_of id) = ap st.db.next_ids (sym at) in
      let unused = i.session.fresh_now.unused id (omega (arith, next)) in
      let moved = create-Session i.state st.db st0.db i.session index v at in
      advance st0 st st' _ _ i moved _
        (create_result st i.state (kept st0) i.enabled i.on_top index v unused) e
  Step-Inside st0 st st' i (modifies id f e) =
      let (v, present) = modify_present id f st st' e in
      advance st0 st st' _ _ i
        (record_modify-Session i.state st.db st0.db i.session id v (f v) present) _
        (modify_result st i.state (kept st0) i.enabled i.on_top id f v present) e
  Step-Inside st0 st st' i (removes id e) =
      let (v, present) = remove_present id st st' e in
      advance st0 st st' _ _ i (record_remove-Session i.state st.db st0.db i.session id v present) _
        (remove_result st i.state (kept st0) i.enabled i.on_top id v present) e

  Run-Inside : (st0 st st' : Store V) → Inside st0 st → Run st st' → Inside st0 st'
  Run-Inside st0 st st' i here = i
  Run-Inside st0 st st' i (next {t} {u} r step) = Step-Inside st0 t u (Run-Inside st0 st t i r) step

  pub start-Run-Inside :
      (st0 st : Store V)
      → st0.disabled ≡ false
      → IsFresh st0.db
      → st0.active_sessions + 1 < 2 ^ 32
      → Run (start_undo_session st0) st
      → Inside st0 st
  start-Run-Inside st0 st on f few r =
      let begun : Inside st0 (start_undo_session st0) = rw (start-Inside st0 on f few) (record {
        enabled = on;
        state = fresh_state;
        on_top = refl;
        session = start-Session st0.db f;
        active = refl;
        same_size = refl;
      }) in
      Run-Inside st0 (start_undo_session st0) st begun r

  -- Whatever objects a session creates, modifies and removes, `undo` brings back the database exactly
  -- as it was when the session started, with its next ids, the session count and the undo stack (of
  -- which a full one has lost its oldest state, and an empty one has gained a fresh state). The
  -- session starts enabled, with fewer than 2^32 - 1 sessions active and no object at an unused id.
  pub undo_restores :
      (st0 st : Store V)
      → st0.disabled ≡ false
      → IsFresh st0.db
      → st0.active_sessions + 1 < 2 ^ 32
      → Run (start_undo_session st0) st
      → undo st ≡ some (record st0 { stack = or_fresh (kept st0) })
  unfolding undo
  undo_restores st0 st on f few r =
      let i = start-Run-Inside st0 st on f few r in
      let restored = restore-Tracks i.state st.db st0.db i.session.tracks in
      ground (arith, i.enabled, i.on_top, i.active, i.same_size, restored)

  -- A session that is committed while no other is active is undone as exactly by `pop_commit`.
  pub pop_commit_restores :
      (st0 st : Store V)
      → st0.disabled ≡ false
      → IsFresh st0.db
      → st0.active_sessions ≡ 0
      → Run (start_undo_session st0) st
      → (committed : Store V) × (commit st ≡ some committed)
        × (committed.db ≡ st.db)
        × (pop_commit committed ≡ some (record st0 { stack = kept st0 }))
  unfolding commit pop_commit
  pop_commit_restores st0 st on f idle r =
      let i = start-Run-Inside st0 st on f (omega arith) r in
      let restored = restore-Tracks i.state st.db st0.db i.session.tracks in
      (
        record st { active_sessions = st.active_sessions - 1 },
        ground (arith, i.active),
        refl,
        ground (arith, i.enabled, i.on_top, i.active, i.same_size, restored),
      )
