-- ===== src/Block/Examples.antt =====
-- Merkle roots of small blocks. The hash of the examples pairs its arguments up, so that a root shows
-- which digests it covers.
use bitshares_toolkit.Common.{ℕ, ◌≡◌, refl, List, [], ◌∷◌, ◌++◌, arith}
use bitshares_toolkit.Block.{fill, hash_pairs, shrink, calculate_merkle_root}
use bitshares_toolkit.Block.Merkle.{tree, merkle_root-tree, merkle_root_ignores_rest}

data Digest : Type 0 where
  unset : Digest
  leaf : ℕ → Digest
  pair : Digest → Digest → Digest

abbrev root : List Digest → Digest
unfolding calculate_merkle_root
root ts = calculate_merkle_root pair unset (λ d. d) unset ts

abbrev four : List Digest
four = leaf 1 ∷ leaf 2 ∷ leaf 3 ∷ leaf 4 ∷ []

root_of_four : root four ≡ pair (pair (leaf 1) (leaf 2)) (pair (leaf 3) (leaf 4))
unfolding root calculate_merkle_root shrink hash_pairs fill
root_of_four = refl

-- Six transactions: the last two are not in the root.
root_of_six :
    root (four ++ leaf 5 ∷ leaf 6 ∷ []) ≡ pair (pair (leaf 1) (leaf 2)) (pair (leaf 3) (leaf 4))
unfolding root calculate_merkle_root shrink hash_pairs fill
root_of_six = refl

merkle_root-tree_example :
    calculate_merkle_root pair unset (λ d. d) unset four ≡ tree pair 2 (fill unset four)
merkle_root-tree_example =
    merkle_root-tree pair unset (λ d. d) unset four 2 (omega arith) (omega arith) (omega arith)

merkle_root_ignores_rest_example :
    calculate_merkle_root pair unset (λ d. d) unset (four ++ leaf 5 ∷ leaf 6 ∷ [])
    ≡ calculate_merkle_root pair unset (λ d. d) unset (four ++ leaf 7 ∷ leaf 8 ∷ [])
merkle_root_ignores_rest_example =
    merkle_root_ignores_rest pair unset (λ d. d) unset four (leaf 5 ∷ leaf 6 ∷ [])
      (leaf 7 ∷ leaf 8 ∷ []) 2 (omega arith) refl (omega arith)
