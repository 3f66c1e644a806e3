-- ===== src/TreeHash/Branch.antt =====
-- src/crypto/tree-hash.c: `tree_depth`, `tree_branch` and `tree_hash_from_branch`. The assertions of
-- the code are not part of the definitions, and allocation is taken to succeed. A branch is the list
-- of its hashes, `branch[0]` first.
use mathlib.Core.List.{foldl}
use node_blocktemplate.Prelude.{
  ℕ, zero, suc, ◌+◌, ◌-◌, ◌*◌, ◌/◌, ◌%◌, ◌^◌, bit_and, Bool, true, false, not, Option, none, some,
  List, [], ◌∷◌, ◌++◌, Bytes, ltb, leb, ◌==◌, if◌then◌else◌, length, take, drop, replicate,
}
use node_blocktemplate.TreeHash.{hash_pairs}
pub mod Depth
pub mod Level
pub mod Laws

-- `for (i = sizeof(size_t) << 2; i > 0; i >>= 1)`
abbrev pub shifts : List ℕ
shifts = 32 ∷ 16 ∷ 8 ∷ 4 ∷ 2 ∷ 1 ∷ []

-- A round of `tree_depth`, on `count` and `depth`.
unfoldable pub shift_down : ℕ × ℕ → ℕ → ℕ × ℕ
shift_down (count, depth) i =
    if ltb 0 (count / 2 ^ i) then (count / 2 ^ i, depth + i) else (count, depth)

unfoldable pub tree_depth : ℕ → ℕ
unfolding shift_down
tree_depth count = (foldl shift_down (count, 0) shifts).1

-- A round of the loop at the head of `tree_branch`, on `cnt` and `depth`.
unfoldable pub shift_up : ℕ → ℕ × ℕ → ℕ → ℕ × ℕ
shift_up count (cnt, depth) i =
    if leb (cnt * 2 ^ i % 2 ^ 64) count then (cnt * 2 ^ i % 2 ^ 64, depth + i) else (cnt, depth)

unfoldable pub branch_level : ℕ → ℕ × ℕ
unfolding shift_up
branch_level count = foldl (shift_up count) (1, 0) shifts

-- An entry of an array of hashes. Past its end, where the code must not read, it has no bytes.
unfoldable pub hash_at : ℕ → List Bytes → Bytes
hash_at n [] = []
hash_at zero (a ∷ xs) = a
hash_at (suc n) (a ∷ xs) = hash_at n xs

-- `path && (path[depth >> 3] & (1 << (depth & 7))) != 0`
unfoldable pub path_bit : Option Bytes → ℕ → Bool
path_bit none depth = false
path_bit (some path) depth = not (bit_and (byte_at (depth / 8) path) (2 ^ (depth % 8)) == 0)
  where
    byte_at : ℕ → Bytes → ℕ
    byte_at n [] = 0
    byte_at zero (b ∷ bs) = b
    byte_at (suc n) (b ∷ bs) = byte_at n bs

module _ (cn_fast_hash : Bytes → Bytes) where
  -- What `tree_branch` fills `ints` with: the level of `cnt` hashes, less its first.
  unfoldable pub branch_ints : ℕ → List Bytes → List Bytes
  unfolding hash_pairs
  branch_ints cnt hashes =
      let kept = 2 * cnt - length hashes in
      take (kept - 1) (drop 1 hashes)
      ++ hash_pairs cn_fast_hash (cnt - 1 - (kept - 1)) (drop kept hashes)

  -- `while (depth > 0)` of `tree_branch`: the entries of `branch` that it writes, from the last to the
  -- first.
  unfoldable pub tree_branch_loop : ℕ → ℕ → List Bytes → List Bytes
  unfolding hash_pairs hash_at
  tree_branch_loop zero cnt ints = []
  tree_branch_loop (suc depth) cnt ints =
      tree_branch_loop depth (cnt / 2) (hash_pairs cn_fast_hash (cnt / 2 - 1) (drop 1 ints))
      ++ hash_at 0 ints ∷ []

  unfoldable pub tree_branch : List Bytes → List Bytes
  unfolding branch_level tree_depth branch_ints tree_branch_loop
  tree_branch hashes =
      let level = branch_level (length hashes) in
      if ltb ((2 ^ 64 - 1) / 32) (level.0 - 1)
      then replicate (tree_depth (length hashes)) (replicate 32 0)
      else tree_branch_loop level.1 level.0 (branch_ints level.0 hashes)

  -- `while (depth > 0)` of `tree_hash_from_branch`, on `from_leaf` and the two halves of `buffer`.
  unfoldable pub from_branch_loop :
      List Bytes → Bytes → Option Bytes → ℕ → Bool → Bytes × Bytes → Bytes × Bytes
  unfolding hash_at path_bit
  from_branch_loop branch leaf path zero from_leaf buffer = buffer
  from_branch_loop branch leaf path (suc depth) from_leaf (first, second) =
      let below = if from_leaf then leaf else cn_fast_hash (first ++ second) in
      let beside = hash_at depth branch in
      from_branch_loop branch leaf path depth false
        (if path_bit path depth then (beside, below) else (below, beside))

  unfoldable pub tree_hash_from_branch : List Bytes → ℕ → Bytes → Option Bytes → Bytes
  unfolding from_branch_loop
  tree_hash_from_branch branch zero leaf path = leaf
  tree_hash_from_branch branch (suc depth) leaf path =
      let buffer = from_branch_loop branch leaf path (suc depth) true ([], []) in
      cn_fast_hash (buffer.0 ++ buffer.1)
