-- ===== src/Undo/Restore.antt =====
-- The loops of `undo` over distinct keys, in closed form.
use mathlib.Core.Path.{fun_ext}
use bitshares_toolkit.Common.{
  ℕ, ◌≡◌, refl, ap, ◌∙◌, ◌≢◌, inl, inr, Option, some, none, [], ◌∷◌, arith, Option-cases,
}
use bitshares_toolkit.Common.Maps.{Map, find, IsMap}
use bitshares_toolkit.Undo.{IdSet, update, restore_old, remove_new, reset_next_ids, insert_removed}

-- `m` where it has a key, `f` elsewhere.
abbrev pub overlay : {A : Type 0} {B : Type 0} → (A → B) → Map A → (ℕ → B) → ℕ → B
overlay g m f = λ j. elim (find j m) [ some a ↦ g a | none ↦ f j ]

overlay-update :
    {A : Type 0} {B : Type 0} (g : A → B) (m : Map A) (f : ℕ → B) (k : ℕ) (a : A)
    → find k m ≡ none
    → overlay g m (update f k (g a)) ≡ overlay g ((k, a) ∷ m) f
overlay-update g m f k a h = fun_ext λ j. ground (arith)

module _ {V : Type 0} where
  -- Every key of `m` has an object.
  abbrev pub AllPresent : {A : Type 0} → Map A → (ℕ → Option V) → Type 0
  AllPresent [] o = Unit
  AllPresent (e ∷ m) o = (o e.0 ≢ none) × AllPresent m o

  AllPresent-update :
      {A : Type 0} (m : Map A) (o : ℕ → Option V) (k : ℕ) (v : Option V)
      → find k m ≡ none
      → AllPresent m o
      → AllPresent m (update o k v)
  AllPresent-update [] o k v h p = tt
  AllPresent-update (e ∷ m) o k v h p = ground (arith, AllPresent-update m o k v (ground arith) p.1)

  pub restore_old_lem :
      (m : Map V) (o : ℕ → Option V)
      → IsMap m
      → AllPresent m o
      → restore_old m o ≡ some (overlay some m o)
  unfolding restore_old
  restore_old_lem [] o h p = refl
  restore_old_lem (e ∷ m) o h p = elim (Option-cases (o e.0)) [
    | inl absent ↦ absurd (p.0 absent)
    | inr (v, present) ↦
        rw (present, restore_old)
          (restore_old_lem m (update o e.0 (some e.1)) h.1
              (AllPresent-update m o e.0 (some e.1) h.0 p.1)
            ∙ ap some (overlay-update some m o e.0 e.1 h.0))
  ]

  -- The absent keys of `m`.
  abbrev pub AllAbsent : {A : Type 0} → Map A → (ℕ → Option V) → Type 0
  AllAbsent [] o = Unit
  AllAbsent (e ∷ m) o = (o e.0 ≡ none) × AllAbsent m o

  AllAbsent-update :
      {A : Type 0} (m : Map A) (o : ℕ → Option V) (k : ℕ) (v : Option V)
      → find k m ≡ none
      → AllAbsent m o
      → AllAbsent m (update o k v)
  AllAbsent-update [] o k v h p = tt
  AllAbsent-update (e ∷ m) o k v h p = ground (arith, AllAbsent-update m o k v (ground arith) p.1)

  pub insert_removed_lem :
      (m : Map V) (o : ℕ → Option V)
      → IsMap m
      → AllAbsent m o
      → insert_removed m o ≡ some (overlay some m o)
  unfolding insert_removed
  insert_removed_lem [] o h p = refl
  insert_removed_lem (e ∷ m) o h p =
      rw (p.0, insert_removed)
        (insert_removed_lem m (update o e.0 (some e.1)) h.1
            (AllAbsent-update m o e.0 (some e.1) h.0 p.1)
          ∙ ap some (overlay-update some m o e.0 e.1 h.0))

  pub remove_new_lem :
      (m : IdSet) (o : ℕ → Option V)
      → IsMap m
      → AllPresent m o
      → remove_new m o ≡ some (overlay (λ _. none) m o)
  unfolding remove_new
  remove_new_lem [] o h p = refl
  remove_new_lem (e ∷ m) o h p = elim (Option-cases (o e.0)) [
    | inl absent ↦ absurd (p.0 absent)
    | inr (v, present) ↦
        rw (present, remove_new)
          (remove_new_lem m (update o e.0 none) h.1 (AllPresent-update m o e.0 none h.0 p.1)
            ∙ ap some (overlay-update (λ _. none) m o e.0 e.1 h.0))
  ]

  -- An absent object whose old value is recorded makes the first loop throw.
  pub restore_old_absent :
      (m : Map V) (o : ℕ → Option V) (k : ℕ) (v : V)
      → find k m ≡ some v
      → o k ≡ none
      → restore_old m o ≡ none
  unfolding restore_old
  restore_old_absent [] o k v h a = cc
  restore_old_absent (e ∷ m) o k v h a =
      ground (arith, restore_old_absent m (update o e.0 (some e.1)) k v)

pub reset_next_ids_lem :
    (m : Map ℕ) (n : ℕ → ℕ) → IsMap m → reset_next_ids m n ≡ overlay (λ i. i) m n
unfolding reset_next_ids
reset_next_ids_lem [] n h = refl
reset_next_ids_lem (e ∷ m) n h =
    reset_next_ids_lem m (update n e.0 e.1) h.1 ∙ overlay-update (λ i. i) m n e.0 e.1 h.0
