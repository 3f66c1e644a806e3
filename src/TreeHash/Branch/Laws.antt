-- ===== src/TreeHash/Branch/Laws.antt =====
-- `tree_branch` and `tree_hash_from_branch` (src/crypto/tree-hash.c) against `tree_hash`.
use native.Mathlib.Nat.{pow-suc}
use node_blocktemplate.Prelude.{
  ℕ, zero, suc, ◌+◌, ◌-◌, ◌*◌, ◌/◌, ◌^◌, ◌≤◌, ◌<◌, ◌≡◌, refl, sym, ap, ◌∙◌, false, none, List, [],
  ◌∷◌, ◌++◌, Bytes, ltb, length, drop, length-append, arith,
}
use node_blocktemplate.Prelude.Bits.{pow_pos, pow_mono}
use node_blocktemplate.TreeHash.{hash_pairs, tree_hash}
use node_blocktemplate.TreeHash.Merkle.{root, length-hash_pairs, root-hash_pairs}
use node_blocktemplate.TreeHash.Branch.{
  tree_depth, hash_at, path_bit, branch_ints, tree_branch_loop, tree_branch, from_branch_loop,
  tree_hash_from_branch,
}
use node_blocktemplate.TreeHash.Branch.Depth.{tree_depth-pow, branch_level-pow}
use node_blocktemplate.TreeHash.Branch.Level.{first_level-branch_ints, level_of}

hash_at-append : (n : ℕ) (xs ys : List Bytes) → n < length xs → hash_at n (xs ++ ys) ≡ hash_at n xs
unfolding hash_at
hash_at-append n [] ys h = absurd (omega arith)
hash_at-append zero (a ∷ xs) ys h = refl
hash_at-append (suc n) (a ∷ xs) ys h = hash_at-append n xs ys (omega arith)

hash_at-end : (xs : List Bytes) (a : Bytes) → hash_at (length xs) (xs ++ a ∷ []) ≡ a
unfolding hash_at
hash_at-end [] a = refl
hash_at-end (x ∷ xs) a = hash_at-end xs a

module _ (cn_fast_hash : Bytes → Bytes) where
  -- The hash of the leaf with the hashes of the branch, the last first.
  abbrev climb : List Bytes → ℕ → Bytes → Bytes
  climb branch zero below = below
  climb branch (suc depth) below = climb branch depth (cn_fast_hash (below ++ hash_at depth branch))

  climb-append :
      (xs ys : List Bytes) (d : ℕ) (below : Bytes)
      → d ≤ length xs
      → climb (xs ++ ys) d below ≡ climb xs d below
  climb-append xs ys zero below h = refl
  climb-append xs ys (suc d) below h =
      rw (hash_at-append d xs ys (omega arith)) (climb-append xs ys d _ (omega arith))

  from_branch_loop-climb :
      (branch : List Bytes) (leaf : Bytes) (d : ℕ) (first second : Bytes)
      → (cn_fast_hash (
            (from_branch_loop cn_fast_hash branch leaf none d false (first, second)).0
            ++ (from_branch_loop cn_fast_hash branch leaf none d false (first, second)).1)
          ≡ climb branch d (cn_fast_hash (first ++ second)))
  unfolding from_branch_loop path_bit
  from_branch_loop-climb branch leaf zero first second = refl
  from_branch_loop-climb branch leaf (suc d) first second =
      from_branch_loop-climb branch leaf d (cn_fast_hash (first ++ second)) (hash_at d branch)

  from_branch-climb :
      (branch : List Bytes) (d : ℕ) (leaf : Bytes)
      → tree_hash_from_branch cn_fast_hash branch d leaf none ≡ climb branch d leaf
  unfolding tree_hash_from_branch from_branch_loop path_bit
  from_branch-climb branch zero leaf = refl
  from_branch-climb branch (suc d) leaf =
      from_branch_loop-climb branch leaf d leaf (hash_at d branch)

  length-tree_branch_loop :
      (d cnt : ℕ) (ints : List Bytes) → length (tree_branch_loop cn_fast_hash d cnt ints) ≡ d
  unfolding tree_branch_loop
  length-tree_branch_loop zero cnt ints = refl
  length-tree_branch_loop (suc d) cnt ints =
      let below = hash_pairs cn_fast_hash (cnt / 2 - 1) (drop 1 ints) in
      omega (
        arith,
        length-append (tree_branch_loop cn_fast_hash d (cnt / 2) below) (hash_at 0 ints ∷ []),
        length-tree_branch_loop d (cnt / 2) below,
      )

  -- A round of the loop of `tree_branch` over 2^(d+1) hashes.
  tree_branch_loop_step :
      (d : ℕ) (b : Bytes) (rest : List Bytes)
      → (tree_branch_loop cn_fast_hash (suc d) (2 ^ suc d) (b ∷ rest)
          ≡ tree_branch_loop cn_fast_hash d (2 ^ d) (hash_pairs cn_fast_hash (2 ^ d - 1) rest)
            ++ b ∷ [])
  unfolding tree_branch_loop hash_at
  tree_branch_loop_step d b rest =
      let half : 2 ^ suc d / 2 ≡ 2 ^ d = omega (arith, pow-suc 2 d) in
      ap
        (λ (t : ℕ).
          tree_branch_loop cn_fast_hash d t (hash_pairs cn_fast_hash (t - 1) rest) ++ b ∷ [])
        half

  -- Over a full level, the branch of its first hash leads to the root.
  tree_branch_loop-root :
      (d : ℕ) (a : Bytes) (ints : List Bytes)
      → length ints + 1 ≡ 2 ^ d
      → climb (tree_branch_loop cn_fast_hash d (2 ^ d) ints) d a ≡ root cn_fast_hash d (a ∷ ints)
  unfolding root hash_pairs
  tree_branch_loop-root zero a ints h = refl
  tree_branch_loop-root (suc d) a [] h = absurd (omega (arith, pow-suc 2 d, pow_pos d))
  tree_branch_loop-root (suc d) a (b ∷ rest) h =
      let next = hash_pairs cn_fast_hash (2 ^ d - 1) rest in
      let upper = tree_branch_loop cn_fast_hash d (2 ^ d) next in
      let size : length upper ≡ d = length-tree_branch_loop d (2 ^ d) next in
      let beside : hash_at d (upper ++ b ∷ []) ≡ b =
        ap (λ (t : ℕ). hash_at t (upper ++ b ∷ [])) (sym size) ∙ hash_at-end upper b in
      let pairs = length-hash_pairs cn_fast_hash (2 ^ d - 1) rest (omega (arith, h, pow-suc 2 d)) in
      let one_more : suc (2 ^ d - 1) ≡ 2 ^ d = omega (arith, pow_pos d) in
      let level : cn_fast_hash (a ++ b) ∷ next ≡ hash_pairs cn_fast_hash (2 ^ d) (a ∷ b ∷ rest) =
        ap (λ (t : ℕ). hash_pairs cn_fast_hash t (a ∷ b ∷ rest)) one_more in
      ap (λ (t : List Bytes). climb t (suc d) a) (tree_branch_loop_step d b rest)
      ∙ ap (λ (t : Bytes). climb (upper ++ b ∷ []) d (cn_fast_hash (a ++ t))) beside
      ∙ climb-append upper (b ∷ []) d (cn_fast_hash (a ++ b)) (omega (arith, size))
      ∙ tree_branch_loop-root d (cn_fast_hash (a ++ b)) next (omega (arith, pairs, pow_pos d))
      ∙ ap (root cn_fast_hash d) level
      ∙ sym (root-hash_pairs cn_fast_hash d (a ∷ b ∷ rest) (omega (arith, h)))

  -- For every list of 2^d to 2^(d+1) - 1 hashes, d at most 58, `tree_hash_from_branch` leads from the
  -- first hash by the branch that `tree_branch` gives it, to the depth that `tree_depth` gives and
  -- with no path, to the tree hash of the list.
  pub tree_hash_from_branch-tree_branch :
      (d : ℕ) (leaf : Bytes) (hashes : List Bytes)
      → d ≤ 58
      → 2 ^ d ≤ length (leaf ∷ hashes)
      → length (leaf ∷ hashes) < 2 ^ suc d
      → tree_hash_from_branch cn_fast_hash
          (tree_branch cn_fast_hash (leaf ∷ hashes))
          (tree_depth (length (leaf ∷ hashes)))
          leaf
          none
        ≡ tree_hash cn_fast_hash (leaf ∷ hashes)
  unfolding tree_branch
  tree_hash_from_branch-tree_branch d leaf hashes small low high =
      let count = length (leaf ∷ hashes) in
      let (depth, cnt) = branch_level-pow d count (omega arith) low high in
      let level = level_of cn_fast_hash d (leaf ∷ hashes) small low high in
      let enough : length hashes + 1 < 2 * 2 ^ d = omega (arith, pow-suc 2 d) in
      let ints = first_level-branch_ints cn_fast_hash (2 ^ d) leaf hashes enough in
      let fits : ltb ((2 ^ 64 - 1) / 32) (2 ^ d - 1) ≡ false =
        ground (arith, pow_mono d 58 small) in
      let first =
        tree_branch_loop-root d leaf (branch_ints cn_fast_hash (2 ^ d) (leaf ∷ hashes))
          (omega (arith, ap length ints, level.size)) in
      rw (tree_depth-pow d count (omega arith) low high, depth, cnt, fits)
        (from_branch-climb _ d leaf ∙ first ∙ ap (root cn_fast_hash d) (sym ints) ∙ sym level.top)
