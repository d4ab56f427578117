-- ===== src/Undo/Snapshots.antt =====
-- What libraries/db/undo_database.cpp promises: a database that keeps whole copies of itself. It has
-- the operations of the undo database, and none of its records of single objects.
use bitshares_toolkit.Common.{
  ℕ, ◌+◌, ◌-◌, ◌^◌, ◌<◌, ◌≡◌, ◌≢◌, Option, some, none, List, [], ◌∷◌, ltb, ◌==◌, if◌then◌else◌,
  ◌>>=◌, ◌>>◌, fc_assert, length,
}
use bitshares_toolkit.Undo.{ObjectDb, index_of, update}

-- One call of the object database or of its undo database.
pub data Call (V : Type 0) : Type 0 where
  start : Call V
  creates : ℕ → V → Call V
  modifies : ℕ → (V → V) → Call V
  removes : ℕ → Call V
  undoes : Call V
  merges : Call V
  commits : Call V
  pops : Call V

-- The database, its copies (the newest first), the sessions that are active and how many copies it
-- keeps.
pub record Snapshots (V : Type 0) : Type 0 where
  pub current : ObjectDb V
  pub saved : List (ObjectDb V)
  pub active : ℕ
  pub limit : ℕ

module _ {V : Type 0} where
  abbrev pub drop_last : List (ObjectDb V) → List (ObjectDb V)
  drop_last [] = []
  drop_last (b ∷ []) = []
  drop_last (b ∷ c ∷ r) = b ∷ drop_last (c ∷ r)

  -- A change while nothing is saved saves the database before it.
  abbrev pub or_copy : ObjectDb V → List (ObjectDb V) → List (ObjectDb V)
  or_copy d [] = d ∷ []
  or_copy d (b ∷ r) = b ∷ r

  abbrev pub change : ObjectDb V → Snapshots V → Snapshots V
  change d a = record a { current = d; saved = or_copy a.current a.saved }

  abbrev pub newest : List (ObjectDb V) → Option (ObjectDb V × List (ObjectDb V))
  newest [] = none
  newest (b ∷ r) = some (b, r)

  abbrev pub without_second : List (ObjectDb V) → Option (List (ObjectDb V))
  without_second [] = none
  without_second (b ∷ []) = none
  without_second (b ∷ c ∷ r) = some (c ∷ r)

  unfoldable pub answer : Call V → Snapshots V → Option (Snapshots V)
  answer start a = some (record a {
    saved = a.current ∷ (if length a.saved == a.limit then drop_last a.saved else a.saved);
    active = a.active + 1;
  })
  answer (creates index v) a =
      let id = a.current.next_ids index in
      elim (a.current.objects id) [
        | some _ ↦ none
        | none ↦ some (
            change
              (record {
                objects = update a.current.objects id (some v);
                next_ids = update a.current.next_ids index (id + 1);
              })
              a)
      ]
  answer (modifies id f) a = elim (a.current.objects id) [
    | none ↦ none
    | some v ↦
        some (change (record a.current { objects = update a.current.objects id (some (f v)) }) a)
  ]
  answer (removes id) a = elim (a.current.objects id) [
    | none ↦ none
    | some v ↦ some (change (record a.current { objects = update a.current.objects id none }) a)
  ]
  answer undoes a = do
    fc_assert (ltb 0 a.active)
    (b, r) ← newest a.saved
    some (record a { current = b; saved = or_copy b r; active = a.active - 1 })
  answer merges a = do
    fc_assert (ltb 0 a.active)
    r ← without_second a.saved
    some (record a { saved = r; active = a.active - 1 })
  answer commits a = do fc_assert (ltb 0 a.active); some (record a { active = a.active - 1 })
  answer pops a = do
    fc_assert (a.active == 0)
    (b, r) ← newest a.saved
    some (record a { current = b; saved = r })

  unfoldable pub answers : List (Call V) → Snapshots V → Option (Snapshots V)
  answers [] a = some a
  answers (c ∷ cs) a = do b ← answer c a; answers cs b

  -- The two copies under a merge and the database: it removes no object that both copies hold.
  abbrev pub RemovesNone : List (ObjectDb V) → ObjectDb V → Type 0
  RemovesNone (mid ∷ base ∷ r) d =
      (id : ℕ) → base.objects id ≢ none → mid.objects id ≢ none → d.objects id ≢ none
  RemovesNone _ d = Unit

  -- A session count that fits its 32 bits, an index whose 48 bits of instances are not used up, and
  -- the merges that the undo database can take back.
  abbrev pub IsAllowed : Call V → Snapshots V → Type 0
  IsAllowed start a = a.active + 1 < 2 ^ 32
  IsAllowed (creates index v) a = index_of (a.current.next_ids index) ≡ index
  IsAllowed merges a = RemovesNone a.saved a.current
  IsAllowed _ a = Unit

  abbrev pub AreAllowed : List (Call V) → Snapshots V → Type 0
  AreAllowed [] a = Unit
  AreAllowed (c ∷ cs) a =
      IsAllowed c a × ((b : Snapshots V) → answer c a ≡ some b → AreAllowed cs b)
