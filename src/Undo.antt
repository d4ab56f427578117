-- ===== src/Undo.antt =====
-- libraries/db/undo_database.cpp with the operations of an index (include/bts/db/index.hpp and
-- generic_index.hpp) that it records. An object is its id and a value; the object database is a
-- partial function from ids, with the next id of each index. An index other than by id (a unique
-- secondary key) is not modelled. The undo stack is a list, its back first.
pub mod Restore
pub mod Tracking
pub mod Sessions
pub mod Recording
pub mod Merge
pub mod MergeLoops
pub mod Merging
pub mod Handles
pub mod Snapshots
pub mod Covering
pub mod Calls
pub mod Refinement
mod Examples
mod CallExamples
use bitshares_toolkit.Common.{
  ℕ, ◌+◌, ◌-◌, ◌*◌, ◌/◌, ◌%◌, ◌^◌, Bool, true, false, not, Option, some, none, List, [], ◌∷◌, ltb,
  ◌==◌, if◌then◌else◌, ◌>>=◌, ◌>>◌, fc_assert, length,
}
use bitshares_toolkit.Common.Maps.{Map, find, contains, insert, erase}

-- `object_id_type( id.space(), id.type(), 0 )`: the instance takes the low 48 bits.
abbrev pub index_of : ℕ → ℕ
index_of id = id / 2 ^ 48 * 2 ^ 48

abbrev pub IdSet : Type 0
IdSet = Map (Unit {0})

-- Overwrites a function at one place.
abbrev pub update : {A : Type 0} → (ℕ → A) → ℕ → A → ℕ → A
update f k v = λ j. if j == k then v else f j

-- `++` on a `uint32_t`
abbrev pub count_up : ℕ → ℕ
count_up n = (n + 1) % 2 ^ 32

-- The loop over `old_index_next_ids` in `undo` and in `pop_commit`.
unfoldable pub reset_next_ids : Map ℕ → (ℕ → ℕ) → ℕ → ℕ
reset_next_ids [] n = n
reset_next_ids (e ∷ m) n = reset_next_ids m (update n e.0 e.1)

module _ (V : Type 0) where
  pub record UndoState : Type 0 where
    pub old_values : Map V
    pub old_index_next_ids : Map ℕ
    pub new_ids : IdSet
    pub removed : Map V

  pub record ObjectDb : Type 0 where
    pub objects : ℕ → Option V
    pub next_ids : ℕ → ℕ

  pub record Store : Type 0 where
    pub db : ObjectDb
    pub active_sessions : ℕ
    pub disabled : Bool
    pub stack : List UndoState
    pub max_size : ℕ

module _ {V : Type 0} where
  abbrev pub fresh_state : UndoState V
  fresh_state = record { old_values = []; old_index_next_ids = []; new_ids = []; removed = [] }

  -- `_stack.pop_front()`
  abbrev pub drop_oldest : List (UndoState V) → List (UndoState V)
  drop_oldest [] = []
  drop_oldest (s ∷ []) = []
  drop_oldest (s ∷ t ∷ r) = s ∷ drop_oldest (t ∷ r)

  unfoldable pub start_undo_session : Store V → Store V
  start_undo_session st = if st.disabled then st else record st {
    stack =
        fresh_state ∷ (if length st.stack == st.max_size then drop_oldest st.stack else st.stack);
    active_sessions = count_up st.active_sessions;
  }

  -- `if( _stack.empty() ) _stack.emplace_back(); auto& state = _stack.back();` and a change of it
  abbrev pub on_back : (UndoState V → UndoState V) → List (UndoState V) → List (UndoState V)
  on_back f [] = f fresh_state ∷ []
  on_back f (s ∷ r) = f s ∷ r

  unfoldable pub record_create : ℕ → UndoState V → UndoState V
  record_create id s = record s {
    old_index_next_ids =
        if contains (index_of id) s.old_index_next_ids
        then s.old_index_next_ids
        else insert (index_of id) id s.old_index_next_ids;
    new_ids = insert id tt s.new_ids;
  }

  unfoldable pub record_modify : ℕ → V → UndoState V → UndoState V
  record_modify id v s =
      if contains id s.new_ids
      then s
      else if contains id s.old_values
      then s
      else record s { old_values = insert id v s.old_values }

  unfoldable pub record_remove : ℕ → V → UndoState V → UndoState V
  record_remove id v s =
      if contains id s.new_ids
      then record s { new_ids = erase id s.new_ids }
      else elim (find id s.old_values) [
        | some old ↦ record s {
          removed = insert id old s.removed;
          old_values = erase id s.old_values;
        }
        | none ↦ if contains id s.removed then s else record s { removed = insert id v s.removed }
      ]

  -- `on_create`, `on_modify`, `on_remove`: nothing while disabled.
  unfoldable pub on_event : (UndoState V → UndoState V) → Store V → Store V
  on_event f st = if st.disabled then st else record st { stack = on_back f st.stack }

  -- `primary_index::create` on a `generic_index`: the object takes the next id of its index.
  unfoldable pub create : ℕ → V → Store V → Option (Store V)
  unfolding on_event
  create index v st =
      let id = st.db.next_ids index in
      elim (st.db.objects id) [
        | some _ ↦ none
        | none ↦ some (
            on_event (record_create id) (record st {
              db = record {
                objects = update st.db.objects id (some v);
                next_ids = update st.db.next_ids index (id + 1);
              };
            }))
      ]

  -- `db.modify( db.get_object( id ), … )`
  unfoldable pub modify : ℕ → (V → V) → Store V → Option (Store V)
  unfolding on_event
  modify id f st = elim (st.db.objects id) [
    | none ↦ none
    | some v ↦
        let st' = on_event (record_modify id v) st in
        some (record st' {
          db = record {
            objects = update st'.db.objects id (some (f v));
            next_ids = st'.db.next_ids;
          };
        })
  ]

  -- `db.remove( db.get_object( id ) )`
  unfoldable pub remove : ℕ → Store V → Option (Store V)
  unfolding on_event
  remove id st = elim (st.db.objects id) [
    | none ↦ none
    | some v ↦
        let st' = on_event (record_remove id v) st in
        some (record st' {
          db = record { objects = update st'.db.objects id none; next_ids = st'.db.next_ids };
        })
  ]

  -- The other loops of `undo` and of `pop_commit`, over a disabled database.
  unfoldable pub restore_old : Map V → (ℕ → Option V) → Option (ℕ → Option V)
  restore_old [] o = some o
  restore_old (e ∷ m) o = elim (o e.0) [
    | none ↦ none
    | some _ ↦ restore_old m (update o e.0 (some e.1))
  ]

  unfoldable pub remove_new : IdSet → (ℕ → Option V) → Option (ℕ → Option V)
  remove_new [] o = some o
  remove_new (e ∷ m) o = elim (o e.0) [ none ↦ none | some _ ↦ remove_new m (update o e.0 none) ]

  unfoldable pub insert_removed : Map V → (ℕ → Option V) → Option (ℕ → Option V)
  insert_removed [] o = some o
  insert_removed (e ∷ m) o = elim (o e.0) [
    | none ↦ insert_removed m (update o e.0 (some e.1))
    | some _ ↦ none
  ]

  unfoldable pub restore : UndoState V → ObjectDb V → Option (ObjectDb V)
  restore s d = do
    o1 ← restore_old s.old_values d.objects
    o2 ← remove_new s.new_ids o1
    o3 ← insert_removed s.removed o2
    some (record { objects = o3; next_ids = reset_next_ids s.old_index_next_ids d.next_ids })

  -- `if( _stack.empty() ) _stack.emplace_back();`
  abbrev pub or_fresh : List (UndoState V) → List (UndoState V)
  or_fresh [] = fresh_state ∷ []
  or_fresh (s ∷ r) = s ∷ r

  -- `_stack.back()` and `_stack.pop_back()`; a call on an empty deque has no defined behaviour.
  abbrev pub pop_back : List (UndoState V) → Option (UndoState V × List (UndoState V))
  pop_back [] = none
  pop_back (s ∷ r) = some (s, r)

  unfoldable pub undo : Store V → Option (Store V)
  undo st = do
    fc_assert (not st.disabled)
    fc_assert (ltb 0 st.active_sessions)
    (s, rest) ← pop_back st.stack
    d ← restore s st.db
    some (record st {
      db = d;
      stack = or_fresh rest;
      disabled = false;
      active_sessions = st.active_sessions - 1;
    })

  unfoldable pub commit : Store V → Option (Store V)
  commit st = do
    fc_assert (ltb 0 st.active_sessions)
    some (record st { active_sessions = st.active_sessions - 1 })

  unfoldable pub pop_commit : Store V → Option (Store V)
  pop_commit st = do
    fc_assert (st.active_sessions == 0)
    (s, rest) ← pop_back st.stack
    d ← restore s st.db
    some (record st { db = d; stack = rest; disabled = false })
