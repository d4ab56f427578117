-- ===== src/Block.antt =====
-- `signed_block::calculate_merkle_root` of libraries/chain/block.cpp. The hash of `fc` is a parameter.
-- The vector `ids` is its memory, a function of the position, and its size: `resize` to a smaller
-- size leaves the memory as it is, and positions beyond the size, which the loop reads and writes
-- without a defined result, keep what was written last.
pub mod Merkle
mod Examples
use bitshares_toolkit.Common.{
  ℕ, zero, suc, ◌+◌, ◌*◌, ◌/◌, ◌==◌, Bool, true, false, List, [], ◌∷◌, ltb, if◌then◌else◌, length,
}

-- `ids.resize( ((transactions.size() + 1)/2)*2 )`
abbrev pub ids_size : ℕ → ℕ
ids_size n = (n + 1) / 2 * 2

module _ {D : Type 0} where
  abbrev pub write : (ℕ → D) → ℕ → D → ℕ → D
  write ids k v = λ j. if j == k then v else ids j

  -- The first `resize` fills the vector with default digests, the first loop copies the digests of
  -- the transactions to it.
  unfoldable pub fill : D → List D → ℕ → D
  fill default [] j = default
  fill default (t ∷ transactions) zero = t
  fill default (t ∷ transactions) (suc j) = fill default transactions j

  module _ (hash : D → D → D) where
    -- The inner loop, from `i = 2 * j` on.
    unfoldable pub hash_pairs : ℕ → ℕ → (ℕ → D) → ℕ → D
    hash_pairs zero j ids = ids
    hash_pairs (suc rounds) j ids =
        hash_pairs rounds (j + 1) (write ids j (hash (ids (2 * j)) (ids (2 * j + 1))))

    -- `while( ids.size() > 1 )`; the inner loop runs over the transactions each time. The size
    -- halves, so it bounds the number of rounds.
    unfoldable pub shrink : ℕ → ℕ → ℕ → (ℕ → D) → ℕ → D
    shrink zero transactions size ids = ids
    shrink (suc rounds) transactions size ids =
        if ltb 1 size
        then shrink rounds transactions (size / 2) (hash_pairs ((transactions + 1) / 2) 0 ids)
        else ids

    -- With the digest of the empty block and the final hash.
    unfoldable pub calculate_merkle_root : {C : Type 0} → C → (D → C) → D → List D → C
    calculate_merkle_root empty last default [] = empty
    calculate_merkle_root empty last default (t ∷ ts) =
        let n = length (t ∷ ts) in
        last (shrink (ids_size n) n (ids_size n) (fill default (t ∷ ts)) 0)
