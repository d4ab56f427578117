-- ===== src/Undo/Handles.antt =====
-- `undo_database::session` of libraries/db/include/bts/db/undo_database.hpp, the handle that a caller
-- of `start_undo_session` holds, with `enable` and `disable`. A handle is its `_apply_undo`. A method
-- that may throw gives the flag that it leaves and the store, if it returns.
use bitshares_toolkit.Common.{
  ◌+◌, ◌-◌, ◌<◌, ◌^◌, ◌≡◌, refl, Bool, true, false, Option, some, none, arith, if◌then◌else◌, ◌>>=◌,
}
use bitshares_toolkit.Undo.{Store, or_fresh, start_undo_session, undo, commit}
use bitshares_toolkit.Undo.Merge.{merge}
use bitshares_toolkit.Undo.Tracking.{IsFresh}
use bitshares_toolkit.Undo.Sessions.{Run, here, kept, start-Run-Inside, undo_restores}

-- The constructor from a session that is moved: the new flag and the one that stays behind.
unfoldable pub moved : Bool → Bool × Bool
moved apply_undo = (apply_undo, false)

module _ {V : Type 0} where
  unfoldable pub enable : Store V → Store V
  enable st = record st { disabled = false }

  unfoldable pub disable : Store V → Store V
  disable st = record st { disabled = true }

  -- The flag is cleared before the store is asked.
  unfoldable pub session_commit : Bool → Store V → Bool × Option (Store V)
  session_commit apply_undo st = (false, commit st)

  -- A call under `if( _apply_undo )`, after which the flag is cleared unless the call throws.
  abbrev pub ended : Option (Store V) → Bool × Option (Store V)
  ended none = (true, none)
  ended (some st) = (false, some st)

  unfoldable pub session_undo : Bool → Store V → Bool × Option (Store V)
  session_undo apply_undo st = if apply_undo then ended (undo st) else (false, some st)

  unfoldable pub session_merge : Bool → Store V → Bool × Option (Store V)
  session_merge apply_undo st = if apply_undo then ended (merge st) else (false, some st)

  -- The destructor.
  unfoldable pub close : Bool → Store V → Option (Store V)
  close apply_undo st = if apply_undo then undo st else some st

  -- `operator=`: whether it is the same session, the two flags, and what they are afterwards.
  unfoldable pub assign : Bool → Bool → Bool → Store V → Option (Bool × Bool × Store V)
  unfolding close
  assign same apply_undo other st =
      if same
      then some (apply_undo, other, st)
      else do st' ← close apply_undo st; some (other, false, st')

  -- A new session that is assigned to a handle whose session is still open: the new session's undo
  -- state is the newest one, so the assignment undoes the new session, and the changes of the old one
  -- stay, under a handle that counts as open. The undo stack is as before, but that a full one has
  -- lost its oldest state and an empty one has gained a fresh state. The database is enabled, with
  -- fewer than 2^32 - 1 sessions active and no object at an unused id.
  pub assign_keeps_session :
      (st : Store V)
      → st.disabled ≡ false
      → IsFresh st.db
      → st.active_sessions + 1 < 2 ^ 32
      → assign false true true (start_undo_session st)
        ≡ some (true, false, record st { stack = or_fresh (kept st) })
  unfolding assign close
  assign_keeps_session st on f few =
      rw (undo_restores st (start_undo_session st) on f few here) refl

  -- A handle of a session that was started while the database was disabled throws when it is closed.
  pub close_throws : (st : Store V) → st.disabled ≡ true → close true (start_undo_session st) ≡ none
  unfolding close start_undo_session undo
  close_throws st off = ground (arith, off)

  -- The three ends of a session in which objects were created, modified and removed: when it is
  -- committed its changes stay, and when it is undone or just closed none do; the handle of one that was
  -- committed or undone is then closed without effect. The session starts enabled, with fewer than
  -- 2^32 - 1 sessions active and no object at an unused id.
  pub session_ends :
      (st0 st : Store V)
      → st0.disabled ≡ false
      → IsFresh st0.db
      → st0.active_sessions + 1 < 2 ^ 32
      → Run (start_undo_session st0) st
      → ((flag : Bool) × (after : Store V) × (session_commit true st ≡ (flag, some after))
          × (after.db ≡ st.db)
          × (close flag after ≡ some after))
        × ((flag : Bool) × (after : Store V) × (session_undo true st ≡ (flag, some after))
            × (after.db ≡ st0.db)
            × (close flag after ≡ some after))
        × ((after : Store V) × (close true st ≡ some after) × (after.db ≡ st0.db))
  unfolding session_commit session_undo close commit
  session_ends st0 st on f few r =
      let i = start-Run-Inside st0 st on f few r in
      let undone = undo_restores st0 st on f few r in
      let after : Store V = record st0 { stack = or_fresh (kept st0) } in
      (
        (
          false,
          record st { active_sessions = st.active_sessions - 1 },
          ground (arith, i.active),
          refl,
          refl,
        ),
        (false, after, rw undone refl, refl, refl),
        (after, undone, refl),
      )
