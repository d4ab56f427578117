-- ===== src/ForkDb/Invariant.antt =====
-- A well-formed fork database, and that storing an item keeps it so.
use bitshares_toolkit.Common.{
  ℕ, ◌+◌, ◌-◌, ◌%◌, ◌^◌, ◌==◌, ◌≤◌, ◌<◌, ◌≡◌, refl, sym, ◌∙◌, ap, Option, none, some, List, [], ◌∷◌,
  arith, ltb, Bool-cases, Option-cases, inl, inr, ==_iff, subst,
}
use bitshares_toolkit.ForkDb.{
  Hash, block_num, block_id, ForkItem, ForkDb, find_id, erase_num, erase_id, allocate, insert,
  raise_head, store,
}

abbrev pub AllBelow : ℕ → List ℕ → Type 0
AllBelow n [] = Unit
AllBelow n (p ∷ ps) = (p < n) × AllBelow n ps

abbrev pub Below : ℕ → Option ℕ → Type 0
Below n none = Unit
Below n (some p) = p < n

-- The ids of the index are unique.
abbrev pub Distinct : (ℕ → ForkItem) → List ℕ → Type 0
Distinct items [] = Unit
Distinct items (p ∷ ps) = (find_id items (items p).id ps ≡ none) × Distinct items ps

-- An item carries the id and the number of its block, and is linked to an older item whose id its block names.
pub record IsItem (hash : Hash) (items : ℕ → ForkItem) (p : ℕ) (item : ForkItem) : Type 0 where
  pub named : item.id ≡ block_id hash item.block
  pub numbered : item.num ≡ block_num item.block
  pub linked : (q : ℕ) → item.prev ≡ some q → (q < p) × ((items q).id ≡ item.block.previous)

pub record IsForkDb (hash : Hash) (db : ForkDb) : Type 0 where
  pub index_below : AllBelow db.next db.index
  pub head_below : Below db.next db.head
  pub held_below : AllBelow db.next db.held
  pub distinct : Distinct db.items db.index
  pub formed : (p : ℕ) → p < db.next → IsItem hash db.items p (db.items p)

-- No number has wrapped to 0: the number of a block is one more than that of its previous block, as a `uint32_t`.
abbrev pub IsCounted : ForkDb → Type 0
IsCounted db = (p : ℕ) → p < db.next → 0 < (db.items p).num

pub AllBelow-mono : (n m : ℕ) (ps : List ℕ) → n ≤ m → AllBelow n ps → AllBelow m ps
AllBelow-mono n m [] h b = tt
AllBelow-mono n m (p ∷ ps) h b = (omega (arith, h, b.0), AllBelow-mono n m ps h b.1)

pub Below-mono : (n m : ℕ) (p : Option ℕ) → n ≤ m → Below n p → Below m p
Below-mono n m none h b = tt
Below-mono n m (some p) h b = omega (arith, h, b)

-- The same ids below `n`.
abbrev pub SameIds : ℕ → (ℕ → ForkItem) → (ℕ → ForkItem) → Type 0
SameIds n f g = (q : ℕ) → q < n → (f q).id ≡ (g q).id

pub find_id-same :
    (n : ℕ) (f g : ℕ → ForkItem) (id : ℕ) (ps : List ℕ)
    → SameIds n f g
    → AllBelow n ps
    → find_id f id ps ≡ find_id g id ps
find_id-same n f g id [] h b = refl
find_id-same n f g id (p ∷ ps) h b = ground (arith, h p, find_id-same n f g id ps h b.1)

pub Distinct-same :
    (n : ℕ) (f g : ℕ → ForkItem) (ps : List ℕ)
    → SameIds n f g
    → AllBelow n ps
    → Distinct f ps
    → Distinct g ps
Distinct-same n f g [] h b d = tt
Distinct-same n f g (p ∷ ps) h b d = (
  sym (find_id-same n f g (g p).id ps h b.1) ∙ ap (λ id. find_id f id ps) (sym (h p b.0)) ∙ d.0,
  Distinct-same n f g ps h b.1 d.1,
)

erase_num-find :
    (items : ℕ → ForkItem) (num id : ℕ) (ps : List ℕ)
    → find_id items id ps ≡ none
    → find_id items id (erase_num items num ps) ≡ none
erase_num-find items num id [] h = refl
erase_num-find items num id (p ∷ ps) h = ground (arith, erase_num-find items num id ps)

erase_num-Distinct :
    (items : ℕ → ForkItem) (num : ℕ) (ps : List ℕ)
    → Distinct items ps
    → Distinct items (erase_num items num ps)
erase_num-Distinct items num [] d = tt
erase_num-Distinct items num (p ∷ ps) d =
    ground
      (arith, erase_num-Distinct items num ps d.1, erase_num-find items num (items p).id ps d.0)

erase_num-below :
    (items : ℕ → ForkItem) (num n : ℕ) (ps : List ℕ)
    → AllBelow n ps
    → AllBelow n (erase_num items num ps)
erase_num-below items num n [] b = tt
erase_num-below items num n (p ∷ ps) b = ground (arith, erase_num-below items num n ps b.1)

erase_id-find :
    (items : ℕ → ForkItem) (i id : ℕ) (ps : List ℕ)
    → find_id items id ps ≡ none
    → find_id items id (erase_id items i ps) ≡ none
erase_id-find items i id [] h = refl
erase_id-find items i id (p ∷ ps) h = ground (arith, erase_id-find items i id ps)

pub erase_id-Distinct :
    (items : ℕ → ForkItem) (i : ℕ) (ps : List ℕ)
    → Distinct items ps
    → Distinct items (erase_id items i ps)
erase_id-Distinct items i [] d = tt
erase_id-Distinct items i (p ∷ ps) d =
    ground (arith, erase_id-Distinct items i ps d.1, erase_id-find items i (items p).id ps d.0)

pub erase_id-below :
    (items : ℕ → ForkItem) (i n : ℕ) (ps : List ℕ)
    → AllBelow n ps
    → AllBelow n (erase_id items i ps)
erase_id-below items i n [] b = tt
erase_id-below items i n (p ∷ ps) b = ground (arith, erase_id-below items i n ps b.1)

abbrev allocated : ForkDb → ForkItem → ℕ → ForkItem
allocated db item = (allocate db item).items

allocated-same : (db : ForkDb) (item : ForkItem) → SameIds db.next db.items (allocated db item)
allocated-same db item q h = ground (arith, h)

module _ (hash : Hash) where
  pub IsItem-same :
      (n p : ℕ) (f g : ℕ → ForkItem) (item : ForkItem)
      → SameIds n f g
      → p ≤ n
      → IsItem hash f p item
      → IsItem hash g p item
  IsItem-same n p f g item same h i = record {
    named = i.named;
    numbered = i.numbered;
    linked = λ q e.
        ((i.linked q e).0, sym (same q (omega (arith, (i.linked q e).0, h))) ∙ (i.linked q e).1);
  }

  -- A fresh item breaks nothing.
  pub allocate-IsForkDb :
      (db : ForkDb) (item : ForkItem)
      → IsForkDb hash db
      → IsItem hash db.items db.next item
      → IsForkDb hash (allocate db item)
  allocate-IsForkDb db item v i =
      let same = allocated-same db item in
      record {
        index_below = AllBelow-mono db.next (db.next + 1) db.index (omega arith) v.index_below;
        head_below = Below-mono db.next (db.next + 1) db.head (omega arith) v.head_below;
        held_below = AllBelow-mono db.next (db.next + 1) db.held (omega arith) v.held_below;
        distinct =
            Distinct-same db.next db.items (allocated db item) db.index same v.index_below
              v.distinct;
        formed = λ p h. elim (Bool-cases (p == db.next)) [
          | inl new ↦
              let e = (==_iff p db.next).0 new in
              rw new (
                IsItem-same db.next p db.items (allocated db item) item same (omega (arith, e))
                  (subst (λ k. IsItem hash db.items k item) (sym e) i))
          | inr old ↦
              let below : p < db.next = ground (arith, old, h) in
              rw old (
                IsItem-same db.next p db.items (allocated db item) (db.items p) same
                  (omega (arith, below)) (v.formed p below))
        ];
      }

  pub insert-IsForkDb :
      (db : ForkDb) (p : ℕ) → IsForkDb hash db → p < db.next → IsForkDb hash (insert db p)
  insert-IsForkDb db p v h = elim (Option-cases (find_id db.items (db.items p).id db.index)) [
    | inl absent ↦
        rw (absent, insert)
          (record {
            index_below = (h, v.index_below);
            head_below = v.head_below;
            held_below = v.held_below;
            distinct = (absent, v.distinct);
            formed = v.formed;
          })
    | inr (q, present) ↦ rw (present, insert) v
  ]

  pub set_head-IsForkDb :
      (db : ForkDb) (head : Option ℕ)
      → IsForkDb hash db
      → Below db.next head
      → IsForkDb hash (record db { head = head })
  set_head-IsForkDb db head v h = record {
    index_below = v.index_below;
    head_below = h;
    held_below = v.held_below;
    distinct = v.distinct;
    formed = v.formed;
  }

  raise_head-IsForkDb :
      (db : ForkDb) (p : ℕ) (head : Option ℕ)
      → IsForkDb hash db
      → p < db.next
      → IsForkDb hash (raise_head db p head)
  raise_head-IsForkDb db p none v h = set_head-IsForkDb db (some p) v h
  raise_head-IsForkDb db p (some t) v h =
      let old = ((db.items p).num + 2 ^ 32 - 1024) % 2 ^ 32 in
      elim (Bool-cases (ltb (db.items t).num (db.items p).num)) [
        | inl higher ↦ rw higher (record {
          index_below = erase_num-below db.items old db.next db.index v.index_below;
          head_below = h;
          held_below = v.held_below;
          distinct = erase_num-Distinct db.items old db.index v.distinct;
          formed = v.formed;
        })
        | inr lower ↦ rw lower v
      ]

  pub insert-next : (db : ForkDb) (p : ℕ) → (insert db p).next ≡ db.next
  insert-next db p = ground arith

  pub store-IsForkDb :
      (db : ForkDb) (item : ForkItem)
      → IsForkDb hash db
      → IsItem hash db.items db.next item
      → IsForkDb hash (store db item)
  unfolding store
  store-IsForkDb db item v i =
      let made = allocate-IsForkDb db item v i in
      let entered = insert-IsForkDb (allocate db item) db.next made (omega arith) in
      raise_head-IsForkDb (insert (allocate db item) db.next) db.next db.head entered
        (omega (arith, insert-next (allocate db item) db.next))
