-- ===== src/ForkDb/Examples.antt =====
-- A fork of two blocks over a common one.
use bitshares_toolkit.Common.{
  ℕ, ◌+◌, ◌*◌, ◌^◌, ◌≡◌, ◌≢◌, refl, Option, none, some, List, [], ◌∷◌, arith,
}
use bitshares_toolkit.ForkDb.{
  Block, Hash, num_from_id, block_num, block_id, ForkDb, find_id, store, push_block,
}
use bitshares_toolkit.ForkDb.Branches.{done, out_of_fuel, climb, meet, fetch_branch_from}
use bitshares_toolkit.ForkDb.Invariant.{IsForkDb, IsCounted}
use bitshares_toolkit.ForkDb.Steps.{Step, Reach, empty, Reach-IsForkDb}
use bitshares_toolkit.ForkDb.Paths.{From, ShareParent, fetch_branch_from-From}
use bitshares_toolkit.ForkDb.Meeting.{fetch_branch_from-ends}
use bitshares_toolkit.ForkDb.Joining.{Descends, fetch_branch_from-joins}
use bitshares_toolkit.ForkDb.Best.{HeadIsHighest, Highest, push_block-Highest}

abbrev hash : Hash
hash b = b.rest

-- The ids of the first block and of its two successors, with the number in front
abbrev first_id : ℕ
first_id = 2 ^ 128 + 11

abbrev left_id : ℕ
left_id = 2 * 2 ^ 128 + 12

abbrev right_id : ℕ
right_id = 2 * 2 ^ 128 + 13

abbrev first : Block
first = record { previous = 0; rest = 11 }

abbrev left : Block
left = record { previous = first_id; rest = 12 }

abbrev right : Block
right = record { previous = first_id; rest = 13 }

abbrev next_left : Block
next_left = record { previous = left_id; rest = 14 }

abbrev result : Option ForkDb → ForkDb
result none = empty hash
result (some db) = db

abbrev one : ForkDb
one = result (push_block hash first (empty hash))

abbrev two : ForkDb
two = result (push_block hash left one)

abbrev three : ForkDb
three = result (push_block hash right two)

abbrev four : ForkDb
four = result (push_block hash next_left three)

one-pushed : push_block hash first (empty hash) ≡ some one
unfolding push_block store block_num num_from_id block_id
one-pushed = refl

two-pushed : push_block hash left one ≡ some two
unfolding push_block store block_num num_from_id block_id
two-pushed = refl

three-pushed : push_block hash right two ≡ some three
unfolding push_block store block_num num_from_id block_id
three-pushed = refl

four-pushed : push_block hash next_left three ≡ some four
unfolding push_block store block_num num_from_id block_id
four-pushed = refl

Reach-three : Reach hash three
Reach-three =
    Reach.then_step
      (Reach.then_step (Reach.then_step Reach.made (Step.push first one-pushed))
        (Step.push left two-pushed))
      (Step.push right three-pushed)

Reach-four : Reach hash four
Reach-four = Reach.then_step Reach-three (Step.push next_left four-pushed)

Reach-IsForkDb_example : IsForkDb hash four
Reach-IsForkDb_example = Reach-IsForkDb hash Reach-four

four_valid : IsForkDb hash four
four_valid = Reach-IsForkDb hash Reach-four

abbrev next_left_id : ℕ
next_left_id = 3 * 2 ^ 128 + 14

four-branches : fetch_branch_from four next_left_id right_id ≡ done (3 ∷ 1 ∷ [], 2 ∷ [])
unfolding fetch_branch_from climb meet push_block store block_num num_from_id block_id
four-branches = refl

fetch_branch_from-From_example :
    (p q : ℕ) × ((four.items p).id ≡ next_left_id)
    × ((four.items q).id ≡ right_id)
    × From four.items p (3 ∷ 1 ∷ [])
    × From four.items q (2 ∷ [])
    × ShareParent four.items (3 ∷ 1 ∷ []) (2 ∷ [])
fetch_branch_from-From_example =
    fetch_branch_from-From hash four next_left_id right_id (3 ∷ 1 ∷ []) (2 ∷ []) four_valid
      four-branches

fetch_branch_from-ends_example : fetch_branch_from four next_left_id 5 ≢ out_of_fuel
fetch_branch_from-ends_example = fetch_branch_from-ends hash four four_valid next_left_id 5

four-found :
    (find_id four.items next_left_id four.index ≡ some 3)
    × (find_id four.items right_id four.index ≡ some 2)
unfolding push_block store block_num num_from_id block_id
four-found = (refl, refl)

four-IsCounted : IsCounted four
unfolding push_block store block_num num_from_id block_id
four-IsCounted p h = ground arith

four-Descends : Descends four 2 3 0 × Descends four 1 2 0
unfolding push_block store block_num num_from_id block_id
four-Descends = ((1, refl, (0, refl, refl)), (0, refl, refl))

fetch_branch_from-joins_example :
    (firsts seconds : List ℕ) × (fetch_branch_from four next_left_id right_id
      ≡ done (firsts, seconds))
fetch_branch_from-joins_example =
    fetch_branch_from-joins hash four four_valid four-IsCounted next_left_id right_id 3 2 0 2 1
      four-found.0 four-found.1 four-Descends.0 four-Descends.1

three-highest : HeadIsHighest three three.head
unfolding push_block store block_num num_from_id block_id
three-highest = omega arith

push_block-Highest_example : ((four.items three.next).block ≡ next_left) × Highest four three.next
push_block-Highest_example =
    push_block-Highest hash next_left three four (Reach-IsForkDb hash Reach-three) three-highest
      four-pushed
