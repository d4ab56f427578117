-- ===== src/Undo/CallExamples.antt =====
-- A sequence of calls of the undo database beside the same calls of the database with whole copies.
use bitshares_toolkit.Common.{
  ℕ, ◌+◌, ◌≡◌, refl, subst, sym, ◌∙◌, eq_of_some, some, List, [], ◌∷◌, arith,
}
use bitshares_toolkit.Undo.{ObjectDb}
use bitshares_toolkit.Undo.Examples.{base, base-IsFresh, at_rest, changed, both}
use bitshares_toolkit.Undo.Covering.{performs, Represents, Agree}
use bitshares_toolkit.Undo.Snapshots.{
  Call, start, creates, modifies, merges, undoes, Snapshots, answer, answers, IsAllowed, AreAllowed,
}
use bitshares_toolkit.Undo.Refinement.{calls_refine}

abbrev copies : ObjectDb ℕ → List (ObjectDb ℕ) → ℕ → Snapshots ℕ
copies d saved n = record { current = d; saved = saved; active = n; limit = 256 }

at_rest-Represents : Represents at_rest (copies base [] 0)
at_rest-Represents = record {
  enabled = refl;
  same_db = refl;
  covers = base-IsFresh;
  same_active = refl;
  same_limit = refl;
}

-- A call whose result is known, before calls that are allowed from there.
allow :
    (c : Call ℕ) (cs : List (Call ℕ)) (a b : Snapshots ℕ)
    → IsAllowed c a
    → answer c a ≡ some b
    → AreAllowed cs b
    → AreAllowed (c ∷ cs) a
allow c cs a b ok e h = (ok, λ b' e'. subst (AreAllowed cs) (eq_of_some (sym e ∙ e')) h)

abbrev outer_calls : List (Call ℕ)
outer_calls = merges ∷ undoes ∷ []

abbrev inner_calls : List (Call ℕ)
inner_calls = start ∷ creates 0 7 ∷ outer_calls

abbrev calls : List (Call ℕ)
calls = start ∷ modifies 0 (λ v. v + 10) ∷ inner_calls

outer_calls-AreAllowed : AreAllowed outer_calls (copies both (changed ∷ base ∷ []) 2)
unfolding answer
outer_calls-AreAllowed =
    allow merges (undoes ∷ []) (copies both (changed ∷ base ∷ []) 2) (copies both (base ∷ []) 1)
      (λ id h k. ground (arith, h, k)) refl (tt, λ b e. tt)

inner_calls-AreAllowed : AreAllowed inner_calls (copies changed (base ∷ []) 1)
unfolding answer
inner_calls-AreAllowed =
    allow start (creates 0 7 ∷ outer_calls) (copies changed (base ∷ []) 1)
      (copies changed (changed ∷ base ∷ []) 2) (omega arith) refl
      (allow (creates 0 7) outer_calls (copies changed (changed ∷ base ∷ []) 2)
        (copies both (changed ∷ base ∷ []) 2) refl refl outer_calls-AreAllowed)

calls-AreAllowed : AreAllowed calls (copies base [] 0)
unfolding answer
calls-AreAllowed =
    allow start (modifies 0 (λ v. v + 10) ∷ inner_calls) (copies base [] 0)
      (copies base (base ∷ []) 1) (omega arith) refl
      (allow (modifies 0 (λ v. v + 10)) inner_calls (copies base (base ∷ []) 1)
        (copies changed (base ∷ []) 1) tt refl inner_calls-AreAllowed)

calls_refine_example : Agree (performs calls at_rest) (answers calls (copies base [] 0))
calls_refine_example =
    calls_refine calls at_rest (copies base [] 0) at_rest-Represents calls-AreAllowed

answers-calls : answers calls (copies base [] 0) ≡ some (copies base (base ∷ []) 0)
unfolding answers answer
answers-calls = refl
