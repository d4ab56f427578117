-- ===== src/ForkDb/Best.antt =====
-- The block that `push_block` returns.
use bitshares_toolkit.Common.{
  not, ◌&&◌, ◌>>=◌, ℕ, ◌+◌, ◌-◌, ◌%◌, ◌^◌, ◌==◌, ◌≤◌, ◌<◌, ◌≡◌, refl, sym, ◌∙◌, ap, Bool-cases,
  Option-cases, Option, none, some, List, [], ◌∷◌, inl, inr, arith, subst, ltb, ltb→lt, ltb→ge,
  >>=-eq-some, eq_of_some,
}
use bitshares_toolkit.ForkDb.{
  Block, Hash, ForkItem, ForkDb, find_id, erase_num, allocate, insert, raise_head, fork_item, store,
  has_head, push_linked, push_block,
}
use bitshares_toolkit.ForkDb.Invariant.{AllBelow, Below, IsForkDb}

-- No item of the list has a greater number than `n`.
abbrev pub NumsUpTo : (ℕ → ForkItem) → ℕ → List ℕ → Type 0
NumsUpTo items n [] = Unit
NumsUpTo items n (p ∷ ps) = ((items p).num ≤ n) × NumsUpTo items n ps

-- The head has the highest number of the index; a database without a head is empty.
abbrev pub HeadIsHighest : ForkDb → Option ℕ → Type 0
HeadIsHighest db none = db.index ≡ []
HeadIsHighest db (some h) = NumsUpTo db.items (db.items h).num db.index

NumsUpTo-mono :
    (items : ℕ → ForkItem) (n m : ℕ) (ps : List ℕ)
    → n ≤ m
    → NumsUpTo items n ps
    → NumsUpTo items m ps
NumsUpTo-mono items n m [] h u = tt
NumsUpTo-mono items n m (p ∷ ps) h u = (omega (arith, h, u.0), NumsUpTo-mono items n m ps h u.1)

NumsUpTo-erase :
    (items : ℕ → ForkItem) (n num : ℕ) (ps : List ℕ)
    → NumsUpTo items n ps
    → NumsUpTo items n (erase_num items num ps)
NumsUpTo-erase items n num [] u = tt
NumsUpTo-erase items n num (p ∷ ps) u = ground (arith, NumsUpTo-erase items n num ps u.1)

NumsUpTo-allocate :
    (db : ForkDb) (item : ForkItem) (n : ℕ) (ps : List ℕ)
    → AllBelow db.next ps
    → NumsUpTo db.items n ps
    → NumsUpTo (allocate db item).items n ps
NumsUpTo-allocate db item n [] b u = tt
NumsUpTo-allocate db item n (p ∷ ps) b u =
    ground (arith, b.0, u.0, NumsUpTo-allocate db item n ps b.1 u.1)

NumsUpTo-insert :
    (db : ForkDb) (p n : ℕ)
    → NumsUpTo db.items n db.index
    → (db.items p).num ≤ n
    → NumsUpTo (insert db p).items n (insert db p).index
NumsUpTo-insert db p n u h = elim (Option-cases (find_id db.items (db.items p).id db.index)) [
  | inl absent ↦ rw (absent, insert) (h, u)
  | inr (q, present) ↦ rw (present, insert) u
]

insert-items : (db : ForkDb) (p q : ℕ) → (insert db p).items q ≡ db.items q
insert-items db p q = elim (Option-cases (find_id db.items (db.items p).id db.index)) [
  | inl absent ↦ rw (absent, insert) refl
  | inr (r, present) ↦ rw (present, insert) refl
]

insert-head : (db : ForkDb) (p : ℕ) → (insert db p).head ≡ db.head
insert-head db p = elim (Option-cases (find_id db.items (db.items p).id db.index)) [
  | inl absent ↦ rw (absent, insert) refl
  | inr (r, present) ↦ rw (present, insert) refl
]

-- The head has the highest number of the index and of the item `p`.
abbrev pub Highest : ForkDb → ℕ → Type 0
Highest db p =
    (h : ℕ) × (db.head ≡ some h)
    × NumsUpTo db.items (db.items h).num db.index
    × ((db.items p).num ≤ (db.items h).num)

raise_head-Highest :
    (db : ForkDb) (p t : ℕ)
    → db.head ≡ some t
    → ((n : ℕ) → (db.items t).num ≤ n → (db.items p).num ≤ n → NumsUpTo db.items n db.index)
    → Highest (raise_head db p (some t)) p
raise_head-Highest db p t h all =
    let old = ((db.items p).num + 2 ^ 32 - 1024) % 2 ^ 32 in
    elim (Bool-cases (ltb (db.items t).num (db.items p).num)) [
      | inl higher ↦
          let above : (db.items t).num < (db.items p).num = ltb→lt _ _ higher in
          rw higher (
            p,
            refl,
            NumsUpTo-erase db.items (db.items p).num old db.index
                (all (db.items p).num (omega (arith, above)) (omega arith)),
            omega arith,
          )
      | inr lower ↦
          let below : (db.items p).num ≤ (db.items t).num = ltb→ge _ _ lower in
          rw lower (t, h, all (db.items t).num (omega arith) below, below)
    ]

module _ (hash : Hash) (db : ForkDb) (item : ForkItem) (v : IsForkDb hash db) where
  entered :
      (n : ℕ)
      → NumsUpTo db.items n db.index
      → item.num ≤ n
      → NumsUpTo
          (insert (allocate db item) db.next).items
          n
          (insert (allocate db item) db.next).index
  entered n u h =
      NumsUpTo-insert (allocate db item) db.next n
        (NumsUpTo-allocate db item n db.index v.index_below u) (ground (arith, h))

  fresh_num : ((insert (allocate db item) db.next).items db.next).num ≡ item.num
  fresh_num =
      ap (λ (i : ForkItem). i.num) (insert-items (allocate db item) db.next db.next) ∙ ground arith

  old_num :
      (t : ℕ) → t < db.next → ((insert (allocate db item) db.next).items t).num ≡ (db.items t).num
  old_num t h =
      ap (λ (i : ForkItem). i.num) (insert-items (allocate db item) db.next t) ∙ ground (arith, h)

  store_head-Highest :
      (head : Option ℕ)
      → db.head ≡ head
      → Below db.next head
      → HeadIsHighest db head
      → Highest (raise_head (insert (allocate db item) db.next) db.next head) db.next
  store_head-Highest none e b u = (
    db.next,
    refl,
    entered _ (subst (NumsUpTo db.items _) (sym u) tt) (omega (arith, fresh_num)),
    omega arith,
  )
  store_head-Highest (some t) e b u =
      raise_head-Highest (insert (allocate db item) db.next) db.next t
        (insert-head (allocate db item) db.next ∙ e)
        (λ n h k.
          entered n
            (NumsUpTo-mono db.items (db.items t).num n db.index (omega (arith, h, old_num t b)) u)
            (omega (arith, k, fresh_num)))

  store-Highest : HeadIsHighest db db.head → Highest (store db item) db.next
  unfolding store
  store-Highest u = store_head-Highest db.head refl v.head_below u

raise_head-items :
    (db : ForkDb) (p q : ℕ) (head : Option ℕ) → (raise_head db p head).items q ≡ db.items q
raise_head-items db p q none = refl
raise_head-items db p q (some t) = elim (Bool-cases (ltb (db.items t).num (db.items p).num)) [
  | inl higher ↦ rw higher refl
  | inr lower ↦ rw lower refl
]

store-item : (db : ForkDb) (item : ForkItem) → (store db item).items db.next ≡ item
unfolding store
store-item db item =
    raise_head-items (insert (allocate db item) db.next) db.next db.next db.head
    ∙ insert-items (allocate db item) db.next db.next
    ∙ ground arith

-- In a well-formed database whose head has the highest number of the index, or is missing while the
-- index is empty, a block that is pushed is the block of the new item, and the head that is returned has
-- a number at least as high as that item's and as every item's of the index.
pub push_block-Highest :
    (hash : Hash) (b : Block) (db db' : ForkDb)
    → IsForkDb hash db
    → HeadIsHighest db db.head
    → push_block hash b db ≡ some db'
    → ((db'.items db.next).block ≡ b) × Highest db' db.next
unfolding push_block
push_block-Highest hash b db db' v u e =
    elim (Bool-cases (has_head db.head && not (b.previous == 0))) [
      | inl linked ↦
          let step : push_block hash b db
              ≡ (find_id db.items b.previous db.index >>= push_linked hash b db) =
            rw linked refl in
          let (q, found, e') =
            >>=-eq-some (find_id db.items b.previous db.index) (push_linked hash b db)
              (sym step ∙ e) in
          let item = record (fork_item hash b) { prev = some q } in
          let stored : store db item ≡ db' = ground (arith, e') in
          subst (λ k. ((k.items db.next).block ≡ b) × Highest k db.next) stored
            (ap (λ (i : ForkItem). i.block) (store-item db item), store-Highest hash db item v u)
      | inr root ↦
          let whole : push_block hash b db ≡ some (store db (fork_item hash b)) = rw root refl in
          subst (λ k. ((k.items db.next).block ≡ b) × Highest k db.next)
            (eq_of_some (sym whole ∙ e))
            (
              ap (λ (i : ForkItem). i.block) (store-item db (fork_item hash b)),
              store-Highest hash db (fork_item hash b) v u,
            )
    ]
