-- ===== src/ForkDb/Branches.antt =====
-- `fetch_branch_from`. The fuel bounds the rounds of each loop.
use bitshares_toolkit.Common.{
  ℕ, zero, suc, ◌==◌, Option, none, some, List, [], ◌∷◌, ◌++◌, ltb, if◌then◌else◌,
}
use bitshares_toolkit.ForkDb.{ForkDb, find_id, prev_of}

pub data Outcome {ℓ} (A : Type ℓ) : Type ℓ where
  done : A → Outcome A
  thrown : Outcome A
  out_of_fuel : Outcome A

infixl 5 ◌>>=◌
abbrev pub ◌>>=◌ {ℓ κ} : {A : Type ℓ} {B : Type κ} → Outcome A → (A → Outcome B) → Outcome B
done a >>= f = f a
thrown >>= f = thrown
out_of_fuel >>= f = out_of_fuel

-- `FC_ASSERT( p )` of a pointer or of an iterator
abbrev pub expect {ℓ} : {A : Type ℓ} → Option A → Outcome A
expect none = thrown
expect (some a) = done a

abbrev pub push_front : ℕ → List ℕ × ℕ → Outcome (List ℕ × ℕ)
push_front p r = done (p ∷ r.0, r.1)

-- The loops that bring one branch down to the number `n`: what they push, and where they end
unfoldable pub climb : ForkDb → ℕ → ℕ → ℕ → Outcome (List ℕ × ℕ)
climb db zero p n = if ltb n (db.items p).num then out_of_fuel else done ([], p)
climb db (suc fuel) p n =
    let more = (expect (prev_of db p) >>= λ q. climb db fuel q n >>= push_front p) in
    if ltb n (db.items p).num then more else done ([], p)

abbrev pub push_both : ℕ → ℕ → List ℕ × List ℕ → Outcome (List ℕ × List ℕ)
push_both p q r = done (p ∷ r.0, q ∷ r.1)

-- The loop over both branches, with what is pushed after it
unfoldable pub meet : ForkDb → ℕ → ℕ → ℕ → Outcome (List ℕ × List ℕ)
meet db zero p q =
    if (db.items p).block.previous == (db.items q).block.previous
    then done (p ∷ [], q ∷ [])
    else out_of_fuel
meet db (suc fuel) p q =
    let more =
      (expect (prev_of db p) >>= λ p'.
      expect (prev_of db q) >>= λ q'. meet db fuel p' q' >>= push_both p q) in
    if (db.items p).block.previous == (db.items q).block.previous
    then done (p ∷ [], q ∷ [])
    else more

unfoldable pub fetch_branch_from : ForkDb → ℕ → ℕ → Outcome (List ℕ × List ℕ)
fetch_branch_from db first second = do
  p ← expect (find_id db.items first db.index)
  q ← expect (find_id db.items second db.index)
  (firsts, p') ← climb db db.next p (db.items q).num
  (seconds, q') ← climb db db.next q (db.items p').num
  (first_rest, second_rest) ← meet db db.next p' q'
  done (firsts ++ first_rest, seconds ++ second_rest)
