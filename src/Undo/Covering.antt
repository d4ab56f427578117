-- ===== src/Undo/Covering.antt =====
-- The undo database of libraries/db/undo_database.cpp against the database with whole copies: each
-- undo state stands for the copy that restoring from it would give.
use bitshares_toolkit.Common.{
  ◌≡◌, refl, false, Option, some, none, List, [], ◌∷◌, arith, length, ◌>>=◌, inl, inr, ◌⊎◌,
}
use bitshares_toolkit.Undo.{
  UndoState, ObjectDb, Store, fresh_state, drop_oldest, or_fresh, start_undo_session, create,
  modify, remove, undo, commit, pop_commit, on_back,
}
use bitshares_toolkit.Undo.Merge.{merge}
use bitshares_toolkit.Undo.Tracking.{IsFresh, Session, start-Session}
use bitshares_toolkit.Undo.Snapshots.{
  Call, start, creates, modifies, removes, undoes, merges, commits, pops, Snapshots, drop_last,
  or_copy,
}

module _ {V : Type 0} where
  unfoldable pub perform : Call V → Store V → Option (Store V)
  perform start st = some (start_undo_session st)
  perform (creates index v) st = create index v st
  perform (modifies id f) st = modify id f st
  perform (removes id) st = remove id st
  perform undoes st = undo st
  perform merges st = merge st
  perform commits st = commit st
  perform pops st = pop_commit st

  unfoldable pub performs : List (Call V) → Store V → Option (Store V)
  performs [] st = some st
  performs (c ∷ cs) st = do next ← perform c st; performs cs next

  -- The states of a stack, each from one copy to the next younger one and the first to the database.
  abbrev pub Covers : List (UndoState V) → ObjectDb V → List (ObjectDb V) → Type 0
  Covers [] d [] = IsFresh d
  Covers (s ∷ r) d (b ∷ bs) = Session s d b × Covers r b bs
  Covers _ d _ = ⊥

  pub record Represents (st : Store V) (a : Snapshots V) : Type 0 where
    pub enabled : st.disabled ≡ false
    pub same_db : st.db ≡ a.current
    pub covers : Covers st.stack a.current a.saved
    pub same_active : st.active_sessions ≡ a.active
    pub same_limit : st.max_size ≡ a.limit

  -- Both calls fail, or both succeed with states that correspond.
  abbrev pub Agree : Option (Store V) → Option (Snapshots V) → Type 0
  Agree none none = Unit
  Agree (some st) (some a) = Represents st a
  Agree _ _ = ⊥

  pub Covers-IsFresh :
      (s : List (UndoState V)) (d : ObjectDb V) (bs : List (ObjectDb V)) → Covers s d bs → IsFresh d
  Covers-IsFresh [] d [] h = h
  Covers-IsFresh [] d (b ∷ bs) h = absurd h
  Covers-IsFresh (s ∷ r) d [] h = absurd h
  Covers-IsFresh (s ∷ r) d (b ∷ bs) h = h.0.fresh_now

  pub Covers-length :
      (s : List (UndoState V)) (d : ObjectDb V) (bs : List (ObjectDb V))
      → Covers s d bs
      → length s ≡ length bs
  Covers-length [] d [] h = refl
  Covers-length [] d (b ∷ bs) h = absurd h
  Covers-length (s ∷ r) d [] h = absurd h
  Covers-length (s ∷ r) d (b ∷ bs) h = omega (arith, Covers-length r b bs h.1)

  pub Covers-drop :
      (s : List (UndoState V)) (d : ObjectDb V) (bs : List (ObjectDb V))
      → Covers s d bs
      → Covers (drop_oldest s) d (drop_last bs)
  Covers-drop [] d [] h = h
  Covers-drop [] d (b ∷ bs) h = absurd h
  Covers-drop (s ∷ r) d [] h = absurd h
  Covers-drop (s ∷ []) d (b ∷ []) h = h.0.fresh_now
  Covers-drop (s ∷ []) d (b ∷ c ∷ bs) h = absurd h.1
  Covers-drop (s ∷ t ∷ r) d (b ∷ []) h = absurd h.1
  Covers-drop (s ∷ t ∷ r) d (b ∷ c ∷ bs) h = (h.0, Covers-drop (t ∷ r) b (c ∷ bs) h.1)

  -- What `if( _stack.empty() ) _stack.emplace_back();` covers.
  pub Covers-or_fresh :
      (s : List (UndoState V)) (d : ObjectDb V) (bs : List (ObjectDb V))
      → Covers s d bs
      → Covers (or_fresh s) d (or_copy d bs)
  Covers-or_fresh [] d [] h = (start-Session d h, h)
  Covers-or_fresh [] d (b ∷ bs) h = absurd h
  Covers-or_fresh (s ∷ r) d [] h = absurd h
  Covers-or_fresh (s ∷ r) d (b ∷ bs) h = h

  -- A change of the database, with the change of the newest state that records it.
  pub Covers-on_back :
      (f : UndoState V → UndoState V) (s : List (UndoState V)) (d next : ObjectDb V)
      (bs : List (ObjectDb V))
      → ((t : UndoState V) (b : ObjectDb V) → Session t d b → Session (f t) next b)
      → Covers s d bs
      → Covers (on_back f s) next (or_copy d bs)
  Covers-on_back f [] d next [] keeps h = (keeps fresh_state d (start-Session d h), h)
  Covers-on_back f [] d next (b ∷ bs) keeps h = absurd h
  Covers-on_back f (s ∷ r) d next [] keeps h = absurd h
  Covers-on_back f (s ∷ r) d next (b ∷ bs) keeps h = (keeps s b h.0, h.1)

  -- A stack and its copies end together.
  pub Covers-cases :
      (s : List (UndoState V)) (d : ObjectDb V) (bs : List (ObjectDb V))
      → Covers s d bs
      → ((s ≡ []) × (bs ≡ []))
        ⊎ ((t : UndoState V) × (r : List (UndoState V)) × (b : ObjectDb V) × (cs : List
              (ObjectDb V))
            × (s ≡ t ∷ r)
            × (bs ≡ b ∷ cs)
            × Session t d b
            × Covers r b cs)
  Covers-cases [] d [] h = inl (refl, refl)
  Covers-cases [] d (b ∷ bs) h = absurd h
  Covers-cases (s ∷ r) d [] h = absurd h
  Covers-cases (s ∷ r) d (b ∷ bs) h = inr (s, r, b, bs, refl, refl, h.0, h.1)
