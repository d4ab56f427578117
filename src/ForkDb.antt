-- ===== src/ForkDb.antt =====
-- The fork database: libraries/chain/fork_database.cpp and include/bts/chain/fork_database.hpp, with the
-- numbers and ids of blocks from block.cpp and include/bts/chain/block.hpp.
-- A `shared_ptr` to a `fork_item` is the address of the item in `items`, which holds the items made so
-- far below `next`; what is above `next` is never read. An item lives while the index, the head or a
-- caller (`held`) owns it, and `lock` of a `weak_ptr` to a dead item is null.
pub mod Branches
pub mod Invariant
pub mod Steps
pub mod Paths
pub mod Meeting
pub mod Joining
pub mod Best
mod Examples
use bitshares_toolkit.Common.{
  ℕ, ◌+◌, ◌-◌, ◌*◌, ◌/◌, ◌%◌, ◌^◌, ◌==◌, Bool, true, false, not, ◌&&◌, ◌||◌, Option, none, some,
  List, [], ◌∷◌, ltb, if◌then◌else◌, ◌>>=◌, ◌>>◌, fc_assert,
}

-- `signed_block`: `rest` stands for the fields that only the hash reads.
pub record Block : Type 0 where
  pub previous : ℕ
  pub rest : ℕ

-- The hash of a header, `fc::sha224::hash`, as far as it enters an id: all but its first word.
abbrev pub Hash : Type 0
Hash = Block → ℕ

-- An id of 160 bits with its first word, in network order, in front.
unfoldable pub num_from_id : ℕ → ℕ
num_from_id id = id / 2 ^ 128 % 2 ^ 32

unfoldable pub block_num : Block → ℕ
block_num b = (num_from_id b.previous + 1) % 2 ^ 32

unfoldable pub block_id : Hash → Block → ℕ
block_id hash b = block_num b * 2 ^ 128 + hash b % 2 ^ 128

pub record ForkItem : Type 0 where
  pub prev : Option ℕ
  pub num : ℕ
  pub invalid : Bool
  pub id : ℕ
  pub block : Block

-- The constructor
abbrev pub fork_item : Hash → Block → ForkItem
fork_item hash b = record {
  prev = none;
  num = block_num b;
  invalid = false;
  id = block_id hash b;
  block = b;
}

-- `index` is in the order of insertion, newest first.
pub record ForkDb : Type 0 where
  pub items : ℕ → ForkItem
  pub next : ℕ
  pub index : List ℕ
  pub head : Option ℕ
  pub held : List ℕ

-- `_index.get<block_id>().find( id )`
abbrev pub find_id : (ℕ → ForkItem) → ℕ → List ℕ → Option ℕ
find_id items id [] = none
find_id items id (p ∷ ps) =
    let later = find_id items id ps in if (items p).id == id then some p else later

-- `_index.get<block_num>().erase( num )`
abbrev pub erase_num : (ℕ → ForkItem) → ℕ → List ℕ → List ℕ
erase_num items num [] = []
erase_num items num (p ∷ ps) =
    let kept = erase_num items num ps in if (items p).num == num then kept else p ∷ kept

-- `_index.get<block_id>().erase( id )`
abbrev pub erase_id : (ℕ → ForkItem) → ℕ → List ℕ → List ℕ
erase_id items id [] = []
erase_id items id (p ∷ ps) =
    let kept = erase_id items id ps in if (items p).id == id then kept else p ∷ kept

abbrev pub owns : ℕ → List ℕ → Bool
owns p [] = false
owns p (q ∷ qs) = (p == q) || owns p qs

abbrev pub is_head : ℕ → Option ℕ → Bool
is_head p none = false
is_head p (some h) = p == h

abbrev pub is_alive : ForkDb → ℕ → Bool
is_alive db p = owns p db.index || is_head p db.head || owns p db.held

-- `lock()`
abbrev pub lock : ForkDb → Option ℕ → Option ℕ
lock db none = none
lock db (some q) = if is_alive db q then some q else none

abbrev pub prev_of : ForkDb → ℕ → Option ℕ
prev_of db p = lock db (db.items p).prev

-- `make_shared<fork_item>`: the item at a fresh address
abbrev pub allocate : ForkDb → ForkItem → ForkDb
allocate db item = record db {
  items = λ p. if p == db.next then item else db.items p;
  next = db.next + 1;
}

-- `_index.insert( item )`: nothing changes if the id is there.
abbrev pub insert_unless : Option ℕ → ForkDb → ℕ → ForkDb
insert_unless none db p = record db { index = p ∷ db.index }
insert_unless (some q) db p = db

abbrev pub insert : ForkDb → ℕ → ForkDb
insert db p = insert_unless (find_id db.items (db.items p).id db.index) db p

abbrev pub raise_head : ForkDb → ℕ → Option ℕ → ForkDb
raise_head db p none = record db { head = some p }
raise_head db p (some h) =
    if ltb (db.items h).num (db.items p).num
    then record db {
      head = some p;
      index = erase_num db.items (((db.items p).num + 2 ^ 32 - 1024) % 2 ^ 32) db.index;
    }
    else db

-- The rest of `push_block`, with the item's `prev`
unfoldable pub store : ForkDb → ForkItem → ForkDb
store db item = let db' = insert (allocate db item) db.next in raise_head db' db.next db.head

abbrev pub has_head : Option ℕ → Bool
has_head none = false
has_head (some h) = true

-- A block that is linked to the item `q`
abbrev pub push_linked : Hash → Block → ForkDb → ℕ → Option ForkDb
push_linked hash b db q = do
  fc_assert (not (db.items q).invalid)
  some (store db (record (fork_item hash b) { prev = some q }))

-- `none` is a failed assertion; the result is the database, whose head `push_block` returns.
unfoldable pub push_block : Hash → Block → ForkDb → Option ForkDb
push_block hash b db =
    if has_head db.head && not (b.previous == 0)
    then (find_id db.items b.previous db.index >>= push_linked hash b db)
    else some (store db (fork_item hash b))

unfoldable pub start_block : Hash → Block → ForkDb → ForkDb
start_block hash b db = record (insert (allocate db (fork_item hash b)) db.next) {
  head = some db.next;
}

unfoldable pub reset : ForkDb → ForkDb
reset db = record db { index = []; head = none }

-- `_head->prev.lock()`, if there is a head
abbrev pub prev_of_head : ForkDb → Option ℕ → Option ℕ
prev_of_head db none = none
prev_of_head db (some h) = prev_of db h

unfoldable pub pop_block : ForkDb → ForkDb
pop_block db = record db { head = prev_of_head db db.head }

unfoldable pub set_head : Option ℕ → ForkDb → ForkDb
set_head h db = record db { head = h }

unfoldable pub remove : ℕ → ForkDb → ForkDb
remove id db = record db { index = erase_id db.items id db.index }

unfoldable pub is_known_block : ForkDb → ℕ → Bool
is_known_block db id = has_head (find_id db.items id db.index)

unfoldable pub fetch_block : ForkDb → ℕ → Option ℕ
fetch_block db id = find_id db.items id db.index

-- The items with the number in the order of insertion, onto `found`
abbrev pub with_num : (ℕ → ForkItem) → ℕ → List ℕ → List ℕ → List ℕ
with_num items num [] found = found
with_num items num (p ∷ ps) found =
    with_num items num ps (if (items p).num == num then p ∷ found else found)

unfoldable pub fetch_block_by_number : ForkDb → ℕ → List ℕ
fetch_block_by_number db num = with_num db.items num db.index []

-- A caller that got a pointer keeps it, or marks the item.
unfoldable pub hold : List ℕ → ForkDb → ForkDb
hold ps db = record db { held = ps }

unfoldable pub mark_invalid : ℕ → ForkDb → ForkDb
mark_invalid p db = record db {
  items = λ q. if q == p then record (db.items q) { invalid = true } else db.items q;
}
