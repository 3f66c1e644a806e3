-- ===== src/TreeHash.antt =====
-- src/crypto/tree-hash.c: `tree_hash`. Hashes are lists of 32 bytes, and `cn_fast_hash` is a
-- parameter. Allocation is taken to succeed. A round of an in-place loop reads the entries 2j and
-- 2j + 1, which no earlier round has written, so the loop is a function from the old array to the
-- new one.
use mathlib.Core.List.{foldl}
use node_blocktemplate.Prelude.{
  ℕ, zero, suc, ◌+◌, ◌-◌, ◌*◌, ◌/◌, ◌%◌, ◌^◌, bit_and, bit_or, List, [], ◌∷◌, ◌++◌, Bytes, ltb, leb,
  ◌==◌, if◌then◌else◌, length, take, drop, replicate,
}
pub mod Merkle
pub mod Smear
pub mod Root
pub mod Branch

-- `for (i = 1; i < 64; i <<= 1) cnt |= cnt >> i;`
unfoldable pub smear : ℕ → ℕ
smear cnt = foldl (λ c i. bit_or c (c / 2 ^ i)) cnt (1 ∷ 2 ∷ 4 ∷ 8 ∷ 16 ∷ 32 ∷ [])

-- The size of the first full level: `cnt &= ~(cnt >> 1)` of the smeared `count - 1`.
unfoldable pub full_level : ℕ → ℕ
unfolding smear
full_level count =
    let cnt = smear ((count + (2 ^ 64 - 1)) % 2 ^ 64) in bit_and cnt (2 ^ 64 - 1 - cnt / 2)

module _ (cn_fast_hash : Bytes → Bytes) where
  -- `n` rounds of `cn_fast_hash(from[i], 2 * HASH_SIZE, ints[j]); i += 2, ++j`.
  unfoldable pub hash_pairs : ℕ → List Bytes → List Bytes
  hash_pairs zero from = []
  hash_pairs (suc n) [] = []
  hash_pairs (suc n) (a ∷ []) = []
  hash_pairs (suc n) (a ∷ b ∷ from) = cn_fast_hash (a ++ b) ∷ hash_pairs n from

  -- `cn_fast_hash(ints[0], 2 * HASH_SIZE, root_hash)`
  unfoldable pub hash_front : List Bytes → Bytes
  hash_front (a ∷ b ∷ rest) = cn_fast_hash (a ++ b)
  hash_front rest = []

  -- `while (cnt > 2)`, on fuel.
  unfoldable pub tree_hash_loop : ℕ → ℕ → List Bytes → List Bytes
  tree_hash_loop zero cnt ints = ints
  tree_hash_loop (suc fuel) cnt ints =
      let next = tree_hash_loop fuel (cnt / 2) (hash_pairs (cnt / 2) ints) in
      if ltb 2 cnt then next else ints

  -- The array after the first round: what fills a full level, and the rest in pairs.
  unfoldable pub first_level : ℕ → List Bytes → List Bytes
  unfolding hash_pairs
  first_level cnt hashes =
      let kept = 2 * cnt - length hashes in
      take kept hashes ++ hash_pairs (cnt - kept) (drop kept hashes)

  unfoldable pub tree_hash_many : List Bytes → Bytes
  unfolding hash_front tree_hash_loop first_level full_level
  tree_hash_many hashes =
      let cnt = full_level (length hashes) in
      if ltb ((2 ^ 64 - 1) / 32) cnt
      then replicate 32 0
      else hash_front (tree_hash_loop 64 cnt (first_level cnt hashes))

  unfoldable pub tree_hash : List Bytes → Bytes
  unfolding tree_hash_many
  tree_hash [] = tree_hash_many []
  tree_hash (a ∷ []) = a
  tree_hash (a ∷ b ∷ []) = cn_fast_hash (a ++ b)
  tree_hash (a ∷ b ∷ c ∷ rest) = tree_hash_many (a ∷ b ∷ c ∷ rest)
