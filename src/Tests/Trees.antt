-- ===== src/Tests/Trees.antt =====
-- The tree hash on concrete inputs.
use node_blocktemplate.Prelude.{◌≡◌, none, List, [], ◌∷◌, Bytes, replicate, arith}
use node_blocktemplate.TreeHash.{tree_hash}
use node_blocktemplate.TreeHash.Merkle.{root}
use node_blocktemplate.TreeHash.Root.{leaves, tree_hash-root}
use node_blocktemplate.TreeHash.Branch.{tree_depth, tree_branch, tree_hash_from_branch}
use node_blocktemplate.Prelude.{suc, ◌^◌, ◌≤◌, ◌<◌}
use node_blocktemplate.TreeHash.Branch.{branch_level}
use node_blocktemplate.TreeHash.Branch.Depth.{branch_level-tree_depth}
use node_blocktemplate.TreeHash.Branch.Laws.{tree_hash_from_branch-tree_branch}

-- A stand-in for the hash: every other byte.
abbrev every_other : Bytes → Bytes
every_other [] = []
every_other (a ∷ []) = a ∷ []
every_other (a ∷ b ∷ bs) = a ∷ every_other bs

abbrev five_hashes : List Bytes
five_hashes =
    replicate 32 1 ∷ replicate 32 2 ∷ replicate 32 3 ∷ replicate 32 4 ∷ replicate 32 5 ∷ []

tree_hash-root_example :
    tree_hash every_other five_hashes ≡ root every_other 2 (leaves every_other 2 five_hashes)
tree_hash-root_example =
    tree_hash-root every_other 2 five_hashes (omega arith) (omega arith) (omega arith)

tree_hash_from_branch-tree_branch_example :
    tree_hash_from_branch every_other
      (tree_branch every_other five_hashes)
      (tree_depth 5)
      (replicate 32 1)
      none
    ≡ tree_hash every_other five_hashes
tree_hash_from_branch-tree_branch_example =
    tree_hash_from_branch-tree_branch every_other 2 (replicate 32 1)
      (replicate 32 2 ∷ replicate 32 3 ∷ replicate 32 4 ∷ replicate 32 5 ∷ []) (omega arith)
      (omega arith) (omega arith)

branch_level-tree_depth_example :
    (2 ^ tree_depth 5 ≤ 5)
    × (5 < 2 ^ suc (tree_depth 5))
    × ((branch_level 5).1 ≡ tree_depth 5)
    × ((branch_level 5).0 ≡ 2 ^ tree_depth 5)
branch_level-tree_depth_example = branch_level-tree_depth 5 (omega arith) (omega arith)
