-- ===== src/Undo/Refinement.antt =====
-- Every sequence of calls of the undo database of libraries/db/undo_database.cpp against the database
-- with whole copies.
use bitshares_toolkit.Common.{◌≡◌, refl, Option, some, none, List, [], ◌∷◌, ◌>>=◌}
use bitshares_toolkit.Undo.{Store}
use bitshares_toolkit.Undo.Covering.{perform, performs, Represents, Agree}
use bitshares_toolkit.Undo.Snapshots.{
  Call, start, creates, modifies, removes, undoes, merges, commits, pops, Snapshots, answer,
  answers, IsAllowed, AreAllowed,
}
use bitshares_toolkit.Undo.Calls.{
  start-Represents, create-Agree, modify-Agree, remove-Agree, undo-Agree, pop-Agree, commit-Agree,
  merge-Agree,
}

module _ {V : Type 0} where
  call_refines :
      (c : Call V) (st : Store V) (a : Snapshots V)
      → Represents st a
      → IsAllowed c a
      → Agree (perform c st) (answer c a)
  unfolding perform answer
  call_refines start st a h ok = start-Represents st a h ok
  call_refines (creates index v) st a h ok = create-Agree st a h index v ok
  call_refines (modifies id f) st a h ok = modify-Agree st a h id f
  call_refines (removes id) st a h ok = remove-Agree st a h id
  call_refines undoes st a h ok = undo-Agree st a h
  call_refines merges st a h ok = merge-Agree st a h ok
  call_refines commits st a h ok = commit-Agree st a h
  call_refines pops st a h ok = pop-Agree st a h

  bind-Agree :
      (cs : List (Call V)) (r : Option (Store V)) (q : Option (Snapshots V))
      → Agree r q
      → ((st : Store V) (a : Snapshots V)
          → q ≡ some a
          → Represents st a
          → Agree (performs cs st) (answers cs a))
      → Agree (r >>= performs cs) (q >>= answers cs)
  bind-Agree cs none none h k = tt
  bind-Agree cs none (some a) h k = absurd h
  bind-Agree cs (some st) none h k = absurd h
  bind-Agree cs (some st) (some a) h k = k st a refl h

  -- From a store whose states cover the copies of an abstract database, any sequence of sessions
  -- started, undone, merged, committed and popped and of objects created, modified and removed fails
  -- in the undo database exactly when it fails in the database that keeps whole copies, and else the
  -- two end with the same objects, next ids and session count and again with states that cover the
  -- copies. The session count stays below 2^32, an object is created in an index with instances left,
  -- and a session that is merged removed no object that both copies under it hold.
  pub calls_refine :
      (cs : List (Call V)) (st : Store V) (a : Snapshots V)
      → Represents st a
      → AreAllowed cs a
      → Agree (performs cs st) (answers cs a)
  unfolding performs answers
  calls_refine [] st a h ok = h
  calls_refine (c ∷ cs) st a h ok =
      bind-Agree cs (perform c st) (answer c a) (call_refines c st a h ok.0)
        (λ next b e k. calls_refine cs next b k (ok.1 b e))
