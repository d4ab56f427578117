-- ===== src/ForkDb/Steps.antt =====
-- The operations of the fork database and of its callers as steps, and the states that they reach.
use bitshares_toolkit.Common.{
  ℕ, ◌==◌, ◌<◌, ◌≡◌, refl, sym, ◌∙◌, true, not, ◌>>=◌, ◌&&◌, Option, none, some, List, [], ◌∷◌,
  arith, Bool-cases, inl, inr, ==_iff, >>=-eq-some, eq_of_some, subst,
}
use bitshares_toolkit.ForkDb.{
  Block, Hash, ForkItem, ForkDb, find_id, owns, is_head, is_alive, lock, prev_of_head, allocate,
  insert, has_head, fork_item, store, push_linked, push_block, start_block, reset, pop_block,
  set_head, remove, hold, mark_invalid,
}
use bitshares_toolkit.ForkDb.Invariant.{
  AllBelow, Below, SameIds, Distinct-same, IsItem-same, IsItem, IsForkDb, erase_id-Distinct,
  erase_id-below, allocate-IsForkDb, insert-IsForkDb, store-IsForkDb, set_head-IsForkDb,
  insert-next,
}

abbrev pub AllAlive : ForkDb → List ℕ → Type 0
AllAlive db [] = Unit
AllAlive db (p ∷ ps) = (is_alive db p ≡ true) × AllAlive db ps

-- Callers hold, mark and set pointers that they have.
pub data Step (hash : Hash) : ForkDb → ForkDb → Type 0 where
  push : {db db' : ForkDb} (b : Block) → push_block hash b db ≡ some db' → Step hash db db'
  start : {db : ForkDb} (b : Block) → Step hash db (start_block hash b db)
  clear : {db : ForkDb} → Step hash db (reset db)
  pop : {db : ForkDb} → Step hash db (pop_block db)
  drop : {db : ForkDb} (id : ℕ) → Step hash db (remove id db)
  unset : {db : ForkDb} → Step hash db (set_head none db)
  set : {db : ForkDb} (h : ℕ) → is_alive db h ≡ true → Step hash db (set_head (some h) db)
  keep : {db : ForkDb} (ps : List ℕ) → AllAlive db ps → Step hash db (hold ps db)
  mark : {db : ForkDb} (p : ℕ) → is_alive db p ≡ true → Step hash db (mark_invalid p db)

abbrev pub no_block : Block
no_block = record { previous = 0; rest = 0 }

-- The constructor of the database
abbrev pub empty : Hash → ForkDb
empty hash = record {
  items = λ p. fork_item hash no_block;
  next = 0;
  index = [];
  head = none;
  held = [];
}

pub data Reach (hash : Hash) : ForkDb → Type 0 where
  made : Reach hash (empty hash)
  then_step : {db db' : ForkDb} → Reach hash db → Step hash db db' → Reach hash db'

owns-below : (n p : ℕ) (ps : List ℕ) → AllBelow n ps → owns p ps ≡ true → p < n
owns-below n p [] b h = ground (arith, h)
owns-below n p (q ∷ ps) b h = ground (arith, h, b.0, owns-below n p ps b.1)

is_head-Below : (n p : ℕ) (head : Option ℕ) → Below n head → is_head p head ≡ true → p < n
is_head-Below n p none b h = ground (arith, h)
is_head-Below n p (some q) b h = ground (arith, h, b)

pub find_id-found :
    (items : ℕ → ForkItem) (id n p : ℕ) (ps : List ℕ)
    → AllBelow n ps
    → find_id items id ps ≡ some p
    → (p < n) × ((items p).id ≡ id)
find_id-found items id n p [] b h = ground (arith, h)
find_id-found items id n p (q ∷ ps) b h = elim (Bool-cases ((items q).id == id)) [
  | inl here ↦
      let e : q ≡ p = eq_of_some (sym (rw here refl) ∙ h) in
      (subst (λ k. k < n) e b.0, subst (λ k. (items k).id ≡ id) e ((==_iff _ _).0 here))
  | inr later ↦ find_id-found items id n p ps b.1 (sym (rw later refl) ∙ h)
]

module _ (hash : Hash) where
  pub alive-below : (db : ForkDb) (p : ℕ) → IsForkDb hash db → is_alive db p ≡ true → p < db.next
  alive-below db p v h = ground (
    arith,
    h,
    owns-below db.next p db.index v.index_below,
    is_head-Below db.next p db.head v.head_below,
    owns-below db.next p db.held v.held_below,
  )

  AllAlive-below :
      (db : ForkDb) (ps : List ℕ) → IsForkDb hash db → AllAlive db ps → AllBelow db.next ps
  AllAlive-below db [] v h = tt
  AllAlive-below db (p ∷ ps) v h = (alive-below db p v h.0, AllAlive-below db ps v h.1)

  lock-Below : (db : ForkDb) (p : Option ℕ) → IsForkDb hash db → Below db.next (lock db p)
  lock-Below db none v = tt
  lock-Below db (some p) v = elim (Bool-cases (is_alive db p)) [
    | inl alive ↦ rw alive (alive-below db p v alive)
    | inr dead ↦ rw dead tt
  ]

  popped-Below :
      (db : ForkDb) (head : Option ℕ) → IsForkDb hash db → Below db.next (prev_of_head db head)
  popped-Below db none v = tt
  popped-Below db (some h) v = lock-Below db (db.items h).prev v

  -- A new item without a link
  root-IsItem : (db : ForkDb) (b : Block) → IsItem hash db.items db.next (fork_item hash b)
  root-IsItem db b = record { named = refl; numbered = refl; linked = λ q e. cc }

  linked-IsItem :
      (db : ForkDb) (b : Block) (q : ℕ)
      → IsForkDb hash db
      → find_id db.items b.previous db.index ≡ some q
      → IsItem hash db.items db.next (record (fork_item hash b) { prev = some q })
  linked-IsItem db b q v found =
      let (below, id) = find_id-found db.items b.previous db.next q db.index v.index_below found in
      record {
        named = refl;
        numbered = refl;
        linked = λ r e.
            subst (λ k. (k < db.next) × ((db.items k).id ≡ b.previous)) (eq_of_some e) (below, id);
      }

  push_block-IsForkDb :
      (b : Block) (db db' : ForkDb)
      → IsForkDb hash db
      → push_block hash b db ≡ some db'
      → IsForkDb hash db'
  unfolding push_block
  push_block-IsForkDb b db db' v e = elim (Bool-cases (has_head db.head && not (b.previous == 0))) [
    | inl linked ↦
        let step : push_block hash b db
            ≡ (find_id db.items b.previous db.index >>= push_linked hash b db) =
          rw linked refl in
        let (q, found, e') =
          >>=-eq-some (find_id db.items b.previous db.index) (push_linked hash b db)
            (sym step ∙ e) in
        let stored : store db (record (fork_item hash b) { prev = some q }) ≡ db' =
          ground (arith, e') in
        subst (IsForkDb hash) stored (store-IsForkDb hash db _ v (linked-IsItem db b q v found))
    | inr root ↦
        let whole : push_block hash b db ≡ some (store db (fork_item hash b)) = rw root refl in
        subst (IsForkDb hash) (eq_of_some (sym whole ∙ e))
          (store-IsForkDb hash db (fork_item hash b) v (root-IsItem db b))
  ]

  start_block-IsForkDb :
      (b : Block) (db : ForkDb) → IsForkDb hash db → IsForkDb hash (start_block hash b db)
  unfolding start_block
  start_block-IsForkDb b db v =
      let db' = allocate db (fork_item hash b) in
      let made = allocate-IsForkDb hash db (fork_item hash b) v (root-IsItem db b) in
      set_head-IsForkDb hash (insert db' db.next) (some db.next)
        (insert-IsForkDb hash db' db.next made (omega arith))
        (omega (arith, insert-next hash db' db.next))

  reset-IsForkDb : (db : ForkDb) → IsForkDb hash db → IsForkDb hash (reset db)
  unfolding reset
  reset-IsForkDb db v = record {
    index_below = tt;
    head_below = tt;
    held_below = v.held_below;
    distinct = tt;
    formed = v.formed;
  }

  pop_block-IsForkDb : (db : ForkDb) → IsForkDb hash db → IsForkDb hash (pop_block db)
  unfolding pop_block
  pop_block-IsForkDb db v = set_head-IsForkDb hash db _ v (popped-Below db db.head v)

  remove-IsForkDb : (id : ℕ) (db : ForkDb) → IsForkDb hash db → IsForkDb hash (remove id db)
  unfolding remove
  remove-IsForkDb id db v = record {
    index_below = erase_id-below db.items id db.next db.index v.index_below;
    head_below = v.head_below;
    held_below = v.held_below;
    distinct = erase_id-Distinct db.items id db.index v.distinct;
    formed = v.formed;
  }

  hold-IsForkDb :
      (ps : List ℕ) (db : ForkDb) → IsForkDb hash db → AllAlive db ps → IsForkDb hash (hold ps db)
  unfolding hold
  hold-IsForkDb ps db v h = record {
    index_below = v.index_below;
    head_below = v.head_below;
    held_below = AllAlive-below db ps v h;
    distinct = v.distinct;
    formed = v.formed;
  }

  mark_invalid-IsForkDb :
      (p : ℕ) (db : ForkDb) → IsForkDb hash db → IsForkDb hash (mark_invalid p db)
  unfolding mark_invalid
  mark_invalid-IsForkDb p db v =
      let marked = (mark_invalid p db).items in
      let same : SameIds db.next db.items marked = λ q h. ground arith in
      record {
        index_below = v.index_below;
        head_below = v.head_below;
        held_below = v.held_below;
        distinct = Distinct-same db.next db.items marked db.index same v.index_below v.distinct;
        formed = λ q h.
            let i =
              IsItem-same hash db.next q db.items marked (db.items q) same (omega (arith, h))
                (v.formed q h) in
            elim (Bool-cases (q == p)) [
              | inl here ↦
                  rw here (record { named = i.named; numbered = i.numbered; linked = i.linked })
              | inr other ↦ rw other i
            ];
      }

  Step-IsForkDb : {db db' : ForkDb} → Step hash db db' → IsForkDb hash db → IsForkDb hash db'
  unfolding set_head
  Step-IsForkDb (push b e) v = push_block-IsForkDb b _ _ v e
  Step-IsForkDb (start b) v = start_block-IsForkDb b _ v
  Step-IsForkDb clear v = reset-IsForkDb _ v
  Step-IsForkDb pop v = pop_block-IsForkDb _ v
  Step-IsForkDb (drop id) v = remove-IsForkDb id _ v
  Step-IsForkDb unset v = set_head-IsForkDb hash _ none v tt
  Step-IsForkDb (set h alive) v = set_head-IsForkDb hash _ (some h) v (alive-below _ h v alive)
  Step-IsForkDb (keep ps alive) v = hold-IsForkDb ps _ v alive
  Step-IsForkDb (mark p alive) v = mark_invalid-IsForkDb p _ v

  -- Every state that the operations reach is well formed: the pointers that the database owns are
  -- allocated, the ids of the index are unique, and every item has the id and the number of its
  -- block and is linked to no item or to an older one whose id its block names as the previous one. A
  -- caller holds, marks or sets as the head only pointers to items that live.
  pub Reach-IsForkDb : {db : ForkDb} → Reach hash db → IsForkDb hash db
  Reach-IsForkDb made = record {
    index_below = tt;
    head_below = tt;
    held_below = tt;
    distinct = tt;
    formed = λ p h. elim h [ ];
  }
  Reach-IsForkDb (then_step r s) = Step-IsForkDb s (Reach-IsForkDb r)
