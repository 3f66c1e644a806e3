-- ===== src/TreeHash/Merkle.antt =====
-- The in-place loop of `tree_hash` (src/crypto/tree-hash.c) and the full binary tree it stands for.
use native.Mathlib.Nat.{pow-suc}
use node_blocktemplate.Prelude.{
  ℕ, zero, suc, ◌+◌, ◌*◌, ◌/◌, ◌^◌, ◌≤◌, ◌≡◌, refl, sym, ap, ◌∙◌, true, List, [], ◌∷◌, ◌++◌, Bytes,
  ltb, length, take, drop, length-take, length-drop, arith,
}
use node_blocktemplate.Prelude.Bits.{pow_pos}
use node_blocktemplate.TreeHash.{hash_pairs, hash_front, tree_hash_loop}

abbrev twice : ℕ → ℕ
twice zero = zero
twice (suc m) = suc (suc (twice m))

twice_lem : (m : ℕ) → twice m ≡ 2 * m
twice_lem zero = refl
twice_lem (suc m) = omega (arith, twice_lem m)

module _ (cn_fast_hash : Bytes → Bytes) where
  -- The root of the full tree of depth `d` over the first 2^d hashes: a hash, or the hash of the
  -- roots of the two halves.
  unfoldable pub root : ℕ → List Bytes → Bytes
  root zero [] = []
  root zero (a ∷ rest) = a
  root (suc d) xs = cn_fast_hash (root d (take (2 ^ d) xs) ++ root d (drop (2 ^ d) xs))

  hash_pairs-nil : (n : ℕ) → hash_pairs cn_fast_hash n [] ≡ []
  unfolding hash_pairs
  hash_pairs-nil zero = refl
  hash_pairs-nil (suc n) = refl

  pub length-hash_pairs :
      (n : ℕ) (xs : List Bytes) → 2 * n ≤ length xs → length (hash_pairs cn_fast_hash n xs) ≡ n
  unfolding hash_pairs
  length-hash_pairs zero xs h = refl
  length-hash_pairs (suc n) [] h = absurd (omega arith)
  length-hash_pairs (suc n) (a ∷ []) h = absurd (omega arith)
  length-hash_pairs (suc n) (a ∷ b ∷ xs) h = omega (arith, length-hash_pairs n xs (omega arith))

  take-hash_pairs :
      (m n : ℕ) (xs : List Bytes)
      → m ≤ n
      → take m (hash_pairs cn_fast_hash n xs) ≡ hash_pairs cn_fast_hash m (take (twice m) xs)
  unfolding hash_pairs
  take-hash_pairs zero n xs h = refl
  take-hash_pairs (suc m) zero xs h = absurd (omega arith)
  take-hash_pairs (suc m) (suc n) [] h = refl
  take-hash_pairs (suc m) (suc n) (a ∷ []) h = refl
  take-hash_pairs (suc m) (suc n) (a ∷ b ∷ xs) h =
      ap (λ (t : List Bytes). cn_fast_hash (a ++ b) ∷ t) (take-hash_pairs m n xs (omega arith))

  drop-hash_pairs :
      (m k n : ℕ) (xs : List Bytes)
      → n ≡ m + k
      → drop m (hash_pairs cn_fast_hash n xs) ≡ hash_pairs cn_fast_hash k (drop (twice m) xs)
  unfolding hash_pairs
  drop-hash_pairs zero k n xs h = ap (λ (t : ℕ). hash_pairs cn_fast_hash t xs) (omega arith)
  drop-hash_pairs (suc m) k zero xs h = absurd (omega arith)
  drop-hash_pairs (suc m) k (suc n) [] h = sym (hash_pairs-nil k)
  drop-hash_pairs (suc m) k (suc n) (a ∷ []) h = sym (hash_pairs-nil k)
  drop-hash_pairs (suc m) k (suc n) (a ∷ b ∷ xs) h = drop-hash_pairs m k n xs (omega arith)

  -- The root of a tree is the root of the tree over the hashes of its pairs.
  pub root-hash_pairs :
      (d : ℕ) (xs : List Bytes)
      → length xs ≡ 2 ^ suc d
      → root (suc d) xs ≡ root d (hash_pairs cn_fast_hash (2 ^ d) xs)
  unfolding root hash_pairs
  root-hash_pairs zero [] h = absurd (omega arith)
  root-hash_pairs zero (a ∷ []) h = absurd (omega arith)
  root-hash_pairs zero (a ∷ b ∷ xs) h = refl
  root-hash_pairs (suc d) xs h =
      let size = pow-suc 2 d in
      let sizes = pow-suc 2 (suc d) in
      let full : 2 ^ suc d ≡ 2 ^ d + 2 ^ d = omega (arith, size) in
      let doubled : twice (2 ^ d) ≡ 2 ^ suc d = omega (arith, size, twice_lem (2 ^ d)) in
      let left =
        root-hash_pairs d (take (2 ^ suc d) xs)
          (length-take (2 ^ suc d) xs (omega (arith, sizes))) in
      let right =
        root-hash_pairs d (drop (2 ^ suc d) xs)
          (length-drop (2 ^ suc d) xs ∙ omega (arith, sizes)) in
      rw (
        left,
        right,
        take-hash_pairs (2 ^ d) (2 ^ suc d) xs (omega arith),
        drop-hash_pairs (2 ^ d) (2 ^ d) (2 ^ suc d) xs full,
        doubled,
      )

  -- The loop over a full level of 2^(d+1) hashes, with fuel for its d rounds, and the last hash after
  -- it, give the root of the full tree of depth d + 1 over the level.
  pub tree_hash_loop-root :
      (fuel d : ℕ) (xs : List Bytes)
      → d ≤ fuel
      → length xs ≡ 2 ^ suc d
      → hash_front cn_fast_hash (tree_hash_loop cn_fast_hash fuel (2 ^ suc d) xs) ≡ root (suc d) xs
  unfolding tree_hash_loop hash_front root
  tree_hash_loop-root fuel zero [] h e = absurd (omega arith)
  tree_hash_loop-root fuel zero (a ∷ []) h e = absurd (omega arith)
  tree_hash_loop-root zero zero (a ∷ b ∷ xs) h e = refl
  tree_hash_loop-root (suc fuel) zero (a ∷ b ∷ xs) h e = refl
  tree_hash_loop-root zero (suc d) xs h e = absurd (omega arith)
  tree_hash_loop-root (suc fuel) (suc d) xs h e =
      let size = pow-suc 2 d in
      let sizes = pow-suc 2 (suc d) in
      let more : ltb 2 (2 ^ suc (suc d)) ≡ true = ground (arith, size, sizes, pow_pos d) in
      let half : 2 ^ suc (suc d) / 2 ≡ 2 ^ suc d = omega (arith, sizes) in
      let pairs = length-hash_pairs (2 ^ suc d) xs (omega (arith, sizes)) in
      let level =
        tree_hash_loop-root fuel d (hash_pairs cn_fast_hash (2 ^ suc d) xs) (omega arith) pairs in
      rw (more, half) (level ∙ sym (root-hash_pairs (suc d) xs e))
