-- ===== src/Block/Merkle.antt =====
-- What the Merkle root of a block depends on.
use native.Mathlib.Nat.{pow-succ', one-le-pow}
use bitshares_toolkit.Common.{
  ℕ, zero, suc, ◌+◌, ◌*◌, ◌/◌, ◌^◌, ◌≤◌, ◌<◌, ◌≡◌, refl, sym, ap, ◌∙◌, false, List, [], ◌∷◌, ltb,
  if◌then◌else◌, length, length-append, ◌++◌, arith, lt→ltb,
}
use bitshares_toolkit.Block.{write, fill, hash_pairs, shrink, ids_size, calculate_merkle_root}

in_range :
    {A : Type 0} (j n : ℕ) (x y : A)
    → j < n
    → (if ltb j 0 then x else if ltb j (0 + n) then y else x) ≡ y
in_range j n x y lt = ground (arith, lt)

module _ {D : Type 0} (hash : D → D → D) where
  -- One level of a Merkle tree, and the root of the tree over the first 2^d positions.
  abbrev pub level : (ℕ → D) → ℕ → D
  level ids = λ j. hash (ids (2 * j)) (ids (2 * j + 1))

  abbrev pub tree : ℕ → (ℕ → D) → D
  tree zero ids = ids 0
  tree (suc d) ids = tree d (level ids)

  tree-agree : (d : ℕ) (f g : ℕ → D) → ((j : ℕ) → j < 2 ^ d → f j ≡ g j) → tree d f ≡ tree d g
  tree-agree zero f g h = h 0 (omega arith)
  tree-agree (suc d) f g h =
      let double = pow-succ' 2 d in
      tree-agree d (level f) (level g) (λ j lt. λ i.
        hash (h (2 * j) (omega (arith, lt, double)) i)
          (h (2 * j + 1) (omega (arith, lt, double)) i))

  hash_pairs_lem :
      (rounds j : ℕ) (ids : ℕ → D) (k : ℕ)
      → hash_pairs hash rounds j ids k
        ≡ (if ltb k j then ids k else if ltb k (j + rounds) then level ids k else ids k)
  unfolding hash_pairs
  hash_pairs_lem zero j ids k = ground arith
  hash_pairs_lem (suc rounds) j ids k =
      ground (
        arith,
        hash_pairs_lem rounds (j + 1) (write ids j (hash (ids (2 * j)) (ids (2 * j + 1)))) k,
      )

  shrink-tree :
      (rounds n size d : ℕ) (ids : ℕ → D)
      → size ≤ rounds
      → 2 ^ d ≤ size
      → size < 2 * 2 ^ d
      → size ≤ (n + 1) / 2 * 2
      → shrink hash rounds n size ids 0 ≡ tree d ids
  unfolding shrink
  shrink-tree zero n size d ids r lo hi fits =
      absurd (omega (arith, r, lo, one-le-pow d 2 (omega arith)))
  shrink-tree (suc rounds) n size zero ids r lo hi fits =
      let done : ltb 1 size ≡ false = ground (arith, hi) in rw done refl
  shrink-tree (suc rounds) n size (suc d) ids r lo hi fits =
      let double = pow-succ' 2 d in
      let some_left = one-le-pow d 2 (omega arith) in
      let more = lt→ltb 1 size (omega (arith, lo, double, some_left)) in
      let next = hash_pairs hash ((n + 1) / 2) 0 ids in
      let below =
        shrink-tree rounds n (size / 2) d next (omega (arith, r)) (omega (arith, lo, double))
          (omega (arith, hi, double)) (omega (arith, fits)) in
      let same = tree-agree d next (level ids) (λ j lt.
        hash_pairs_lem ((n + 1) / 2) 0 ids j
        ∙ in_range j ((n + 1) / 2) (ids j) (level ids j) (omega (arith, lt, lo, double, fits))) in
      rw more (below ∙ same)

module _ {D : Type 0} {C : Type 0} (hash : D → D → D) (empty : C) (last : D → C) (default : D) where
  -- The root of a block is the root of the Merkle tree over the first 2^d digests, where 2^d is the
  -- largest power of two that is at most the number of transactions, made even.
  pub merkle_root-tree :
      (ts : List D) (d : ℕ)
      → 0 < length ts
      → 2 ^ d ≤ ids_size (length ts)
      → ids_size (length ts) < 2 * 2 ^ d
      → calculate_merkle_root hash empty last default ts ≡ last (tree hash d (fill default ts))
  unfolding calculate_merkle_root
  merkle_root-tree [] d some_left lo hi = absurd (omega (arith, some_left))
  merkle_root-tree (t ∷ ts) d some_left lo hi =
      let n = length (t ∷ ts) in
      ap last (
        shrink-tree hash (ids_size n) n (ids_size n) d (fill default (t ∷ ts)) (omega arith) lo hi
          (omega arith))

  fill-prefix :
      (p u v : List D) (j : ℕ) → j < length p → fill default (p ++ u) j ≡ fill default (p ++ v) j
  unfolding fill
  fill-prefix [] u v j lt = absurd (omega (arith, lt))
  fill-prefix (t ∷ p) u v zero lt = refl
  fill-prefix (t ∷ p) u v (suc j) lt = fill-prefix p u v j (omega (arith, lt))

  -- Transactions after the first 2^d, with d as above, do not influence the root: two blocks with the
  -- same first 2^d digests and the same number of transactions have the same root, whatever the
  -- other digests are.
  pub merkle_root_ignores_rest :
      (p u v : List D) (d : ℕ)
      → 2 ^ d ≤ length p
      → length u ≡ length v
      → length (p ++ u) + 1 < 2 * 2 ^ d
      → calculate_merkle_root hash empty last default (p ++ u)
        ≡ calculate_merkle_root hash empty last default (p ++ v)
  merkle_root_ignores_rest p u v d lo same hi =
      let positive = one-le-pow d 2 (omega arith) in
      let left = length-append p u in
      let right = length-append p v in
      let agree =
        tree-agree hash d (fill default (p ++ u)) (fill default (p ++ v))
          (λ j lt. fill-prefix p u v j (omega (arith, lt, lo))) in
      merkle_root-tree (p ++ u) d (omega (arith, positive, lo, left)) (omega (arith, lo, left))
        (omega (arith, hi))
      ∙ ap last agree
      ∙ sym (
          merkle_root-tree (p ++ v) d (omega (arith, positive, lo, right))
            (omega (arith, lo, right)) (omega (arith, hi, same, left, right)))
