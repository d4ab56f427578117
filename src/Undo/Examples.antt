-- ===== src/Undo/Examples.antt =====
-- Concrete runs of the undo database, with the theorems of its modules applied to them.
use bitshares_toolkit.Common.{
  ℕ, ◌+◌, ◌≡◌, refl, Bool, true, false, some, none, [], ◌∷◌, arith, ◌==◌, if◌then◌else◌,
}
use bitshares_toolkit.Undo.{
  UndoState, ObjectDb, Store, fresh_state, start_undo_session, modify, remove, create, undo,
  record_create, record_modify, record_remove, update,
}
use bitshares_toolkit.Undo.Merge.{merge}
use bitshares_toolkit.Undo.Handles.{
  session_commit, session_undo, close, assign, session_ends, assign_keeps_session,
}
use bitshares_toolkit.Undo.Tracking.{IsFresh, Session, start-Session}
use bitshares_toolkit.Undo.Recording.{record_modify-Session, record_remove-Session}
use bitshares_toolkit.Undo.Sessions.{
  Step, Run, here, next, modifies, creates, removes, undo_restores,
}
use bitshares_toolkit.Undo.Merging.{merge_then_undo_throws}

-- One object of value 10 with id 0.
abbrev pub base : ObjectDb ℕ
base = record { objects = λ id. if id == 0 then some 10 else none; next_ids = λ _. 1 }

abbrev pub changed : ObjectDb ℕ
changed = record { objects = update base.objects 0 (some 20); next_ids = base.next_ids }

abbrev changed_again : ObjectDb ℕ
changed_again = record { objects = update changed.objects 0 (some 30); next_ids = base.next_ids }

abbrev gone : ObjectDb ℕ
gone = record { objects = update changed.objects 0 none; next_ids = base.next_ids }

abbrev pub at_rest : Store ℕ
at_rest = record { db = base; active_sessions = 0; disabled = false; stack = []; max_size = 256 }

pub base-IsFresh : IsFresh base
base-IsFresh = record { unused = λ id h. ground (arith) }

abbrev outer : UndoState ℕ
outer = record { old_values = (0, 10) ∷ []; old_index_next_ids = []; new_ids = []; removed = [] }

abbrev inner_modifies : UndoState ℕ
inner_modifies = record {
  old_values = (0, 20) ∷ [];
  old_index_next_ids = [];
  new_ids = [];
  removed = [];
}

abbrev inner_removes : UndoState ℕ
inner_removes = record {
  old_values = [];
  old_index_next_ids = [];
  new_ids = [];
  removed = (0, 20) ∷ [];
}

outer-Session : Session outer changed base
unfolding record_modify
outer-Session =
    record_modify-Session fresh_state base base (start-Session base base-IsFresh) 0 10 20 refl

inner_modifies-Session : Session inner_modifies changed_again changed
unfolding record_modify
inner_modifies-Session =
    record_modify-Session fresh_state changed changed
      (start-Session changed (outer-Session.fresh_now)) 0 20 30 refl

inner_removes-Session : Session inner_removes gone changed
unfolding record_remove
inner_removes-Session =
    record_remove-Session fresh_state changed changed
      (start-Session changed (outer-Session.fresh_now)) 0 20 refl

abbrev nested : ObjectDb ℕ → UndoState ℕ → Store ℕ
nested d s = record {
  db = d;
  active_sessions = 2;
  disabled = false;
  stack = s ∷ outer ∷ [];
  max_size = 256;
}

merge_then_undo_throws_example :
    (m : Store ℕ) × (merge (nested gone inner_removes) ≡ some m) × (undo m ≡ none)
merge_then_undo_throws_example =
    merge_then_undo_throws (nested gone inner_removes) inner_removes outer [] changed base refl
      (omega arith) refl inner_removes-Session outer-Session 0 10 20 refl refl

-- A session that modifies the object, creates another and removes the first.
abbrev begun : Store ℕ
begun = record at_rest { stack = fresh_state ∷ []; active_sessions = 1 }

abbrev first : Store ℕ
first = record begun { db = changed; stack = outer ∷ [] }

abbrev pub both : ObjectDb ℕ
both = record { objects = update changed.objects 1 (some 7); next_ids = update base.next_ids 0 2 }

abbrev second : Store ℕ
second = record begun {
  db = both;
  stack = record outer { old_index_next_ids = (0, 1) ∷ []; new_ids = (1, tt) ∷ [] } ∷ [];
}

abbrev third : Store ℕ
third = record begun {
  db = record { objects = update both.objects 0 none; next_ids = both.next_ids };
  stack =
      record {
        old_values = [];
        old_index_next_ids = (0, 1) ∷ [];
        new_ids = (1, tt) ∷ [];
        removed = (0, 10) ∷ [];
      }
      ∷ [];
}

first-Step : Step begun first
unfolding modify record_modify
first-Step = modifies 0 (λ v. v + 10) refl

second-Step : Step first second
unfolding create record_create
second-Step = creates 0 7 refl refl

third-Step : Step second third
unfolding remove record_remove
third-Step = removes 0 refl

session-Run : Run (start_undo_session at_rest) third
unfolding start_undo_session
session-Run = next (next (next here first-Step) second-Step) third-Step

undo_restores_example : undo third ≡ some (record at_rest { stack = fresh_state ∷ [] })
undo_restores_example = undo_restores at_rest third refl base-IsFresh (omega arith) session-Run

session_ends_example :
    ((flag : Bool) × (after : Store ℕ) × (session_commit true third ≡ (flag, some after))
      × (after.db ≡ third.db)
      × (close flag after ≡ some after))
    × ((flag : Bool) × (after : Store ℕ) × (session_undo true third ≡ (flag, some after))
        × (after.db ≡ base)
        × (close flag after ≡ some after))
    × ((after : Store ℕ) × (close true third ≡ some after) × (after.db ≡ base))
session_ends_example = session_ends at_rest third refl base-IsFresh (omega arith) session-Run

assign_keeps_session_example :
    assign false true true (start_undo_session first) ≡ some (true, false, first)
assign_keeps_session_example =
    assign_keeps_session first refl (outer-Session.fresh_now) (omega arith)
