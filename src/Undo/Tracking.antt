-- ===== src/Undo/Tracking.antt =====
-- What an undo state knows of the objects at its start.
use mathlib.Core.Path.{fun_ext}
use bitshares_toolkit.Common.{ℕ, ◌≤◌, ◌≡◌, refl, ◌≢◌, Option, some, none, [], ◌∷◌, arith}
use bitshares_toolkit.Common.Maps.{Map, find, IsMap}
use bitshares_toolkit.Undo.{UndoState, ObjectDb, index_of, restore, fresh_state}
use bitshares_toolkit.Undo.Restore.{
  overlay, AllPresent, AllAbsent, restore_old_lem, remove_new_lem, insert_removed_lem,
  reset_next_ids_lem,
}

-- The entry of an index against its next id now and at the start.
abbrev pub ExplainsNext : Option ℕ → ℕ → ℕ → Type 0
ExplainsNext none now start = now ≡ start
ExplainsNext (some n) now start = start ≡ n

module _ {V : Type 0} where
  -- The entries of one id (created, old value, removed) against its value now and at the start.
  abbrev pub Explains : Option (Unit {0}) → Option V → Option V → Option V → Option V → Type 0
  Explains (some _) none none now start = (now ≢ none) × (start ≡ none)
  Explains none (some v) none now start = (now ≢ none) × (start ≡ some v)
  Explains none none (some v) now start = (now ≡ none) × (start ≡ some v)
  Explains none none none now start = now ≡ start
  Explains _ _ _ _ _ = ⊥

  pub record Tracks (s : UndoState V) (d base : ObjectDb V) : Type 0 where
    pub old_map : IsMap s.old_values
    pub new_map : IsMap s.new_ids
    pub removed_map : IsMap s.removed
    pub next_map : IsMap s.old_index_next_ids
    pub at_id :
        (id : ℕ)
        → Explains
            (find id s.new_ids)
            (find id s.old_values)
            (find id s.removed)
            (d.objects id)
            (base.objects id)
    pub at_index :
        (i : ℕ) → ExplainsNext (find i s.old_index_next_ids) (d.next_ids i) (base.next_ids i)

  present_of_find :
      {A : Type 0} (m : Map A) (o : ℕ → Option V)
      → IsMap m
      → ((id : ℕ) (a : A) → find id m ≡ some a → o id ≢ none)
      → AllPresent m o
  present_of_find [] o h p = tt
  present_of_find (e ∷ m) o h p =
      (p e.0 e.1 (ground arith), present_of_find m o h.1 (λ id a f. p id a (ground arith)))

  absent_of_find :
      {A : Type 0} (m : Map A) (o : ℕ → Option V)
      → IsMap m
      → ((id : ℕ) (a : A) → find id m ≡ some a → o id ≡ none)
      → AllAbsent m o
  absent_of_find [] o h p = tt
  absent_of_find (e ∷ m) o h p =
      (p e.0 e.1 (ground arith), absent_of_find m o h.1 (λ id a f. p id a (ground arith)))

  -- Restoring brings back the database that the state tracks.
  pub restore-Tracks :
      (s : UndoState V) (d base : ObjectDb V) → Tracks s d base → restore s d ≡ some base
  unfolding restore
  restore-Tracks s d base t =
      let o1 = overlay {A = V} {B = Option V} some s.old_values d.objects in
      let o2 = overlay {A = Unit {0}} {B = Option V} (λ _. none) s.new_ids o1 in
      let first =
        restore_old_lem s.old_values d.objects t.old_map (
          present_of_find s.old_values d.objects t.old_map
            (λ id a f. ground (arith, t.at_id id))) in
      let second =
        remove_new_lem s.new_ids o1 t.new_map
          (present_of_find s.new_ids o1 t.new_map (λ id a f. ground (arith, t.at_id id))) in
      let third =
        insert_removed_lem s.removed o2 t.removed_map
          (absent_of_find s.removed o2 t.removed_map (λ id a f. ground (arith, t.at_id id))) in
      let same : overlay {A = V} {B = Option V} some s.removed o2 ≡ base.objects =
        fun_ext (λ id. ground (arith, t.at_id id)) in
      let next : overlay {A = ℕ} {B = ℕ} (λ i. i) s.old_index_next_ids d.next_ids ≡ base.next_ids =
        fun_ext (λ i. ground (arith, t.at_index i)) in
      rw (first, second, third, reset_next_ids_lem s.old_index_next_ids d.next_ids t.next_map)
        (λ i. some (record { objects = same i; next_ids = next i }))

-- No object has an id that its index has yet to give out.
pub record IsFresh {V : Type 0} (d : ObjectDb V) : Type 0 where
  pub unused : (id : ℕ) → d.next_ids (index_of id) ≤ id → d.objects id ≡ none

pub record Session {V : Type 0} (s : UndoState V) (d base : ObjectDb V) : Type 0 where
  pub tracks : Tracks s d base
  pub fresh_now : IsFresh d
  pub fresh_start : IsFresh base
  pub grows : (i : ℕ) → base.next_ids i ≤ d.next_ids i
  pub late : (id : ℕ) (u : Unit {0}) → find id s.new_ids ≡ some u → base.next_ids (index_of id) ≤ id

pub start-Session : {V : Type 0} (d : ObjectDb V) → IsFresh d → Session fresh_state d d
start-Session d f = record {
  tracks = record {
    old_map = tt;
    new_map = tt;
    removed_map = tt;
    next_map = tt;
    at_id = λ id. refl;
    at_index = λ i. refl;
  };
  fresh_now = f;
  fresh_start = f;
  grows = λ i. omega arith;
  late = λ id u f. cc;
}
