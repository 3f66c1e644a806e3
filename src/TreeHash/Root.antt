-- ===== src/TreeHash/Root.antt =====
-- `tree_hash` (src/crypto/tree-hash.c) against the full binary tree.
use native.Mathlib.Nat.{pow-suc}
use node_blocktemplate.Prelude.{
  ℕ, zero, suc, ◌-◌, ◌*◌, ◌/◌, ◌^◌, ◌≤◌, ◌<◌, ◌≡◌, refl, ap, ◌∙◌, false, List, [], ◌∷◌, ◌++◌, Bytes,
  ltb, length, take, drop, length-take, length-drop, length-append, arith,
}
use node_blocktemplate.Prelude.Bits.{pow_pos, pow_mono}
use node_blocktemplate.TreeHash.{hash_pairs, first_level, tree_hash_many, tree_hash}
use node_blocktemplate.TreeHash.Merkle.{root, length-hash_pairs, tree_hash_loop-root}
use node_blocktemplate.TreeHash.Smear.{full_level-pow}

module _ (cn_fast_hash : Bytes → Bytes) where
  -- The hashes of the pairs of a list.
  unfoldable pub pair_up : List Bytes → List Bytes
  pair_up [] = []
  pair_up (a ∷ []) = []
  pair_up (a ∷ b ∷ xs) = cn_fast_hash (a ++ b) ∷ pair_up xs

  -- The leaves of the tree of depth `d`: as many of the first hashes as they stand that the rest, in
  -- pairs, fills a level of 2^d.
  unfoldable pub leaves : ℕ → List Bytes → List Bytes
  unfolding pair_up
  leaves d hashes =
      take (2 ^ suc d - length hashes) hashes ++ pair_up (drop (2 ^ suc d - length hashes) hashes)

  hash_pairs-pair_up :
      (n : ℕ) (xs : List Bytes) → length xs ≡ 2 * n → hash_pairs cn_fast_hash n xs ≡ pair_up xs
  unfolding hash_pairs pair_up
  hash_pairs-pair_up zero [] h = refl
  hash_pairs-pair_up zero (a ∷ xs) h = absurd (omega arith)
  hash_pairs-pair_up (suc n) [] h = absurd (omega arith)
  hash_pairs-pair_up (suc n) (a ∷ []) h = absurd (omega arith)
  hash_pairs-pair_up (suc n) (a ∷ b ∷ xs) h =
      ap (λ (t : List Bytes). cn_fast_hash (a ++ b) ∷ t) (hash_pairs-pair_up n xs (omega arith))

  module _ (d : ℕ) (hashes : List Bytes) (low : 2 ^ d < length hashes)
      (high : length hashes ≤ 2 ^ suc d) where
    pub first_level-leaves : first_level cn_fast_hash (2 ^ d) hashes ≡ leaves d hashes
    unfolding first_level leaves
    first_level-leaves =
        let doubled : 2 * 2 ^ d ≡ 2 ^ suc d = omega (arith, pow-suc 2 d) in
        let kept = 2 ^ suc d - length hashes in
        let size = length-drop kept hashes in
        rw (
          doubled,
          hash_pairs-pair_up (2 ^ d - kept) (drop kept hashes) (size ∙ omega (arith, doubled)),
        )

    pub length-first_level : length (first_level cn_fast_hash (2 ^ d) hashes) ≡ 2 ^ d
    unfolding first_level
    length-first_level =
        let kept = 2 * 2 ^ d - length hashes in
        let doubled = pow-suc 2 d in
        let taken = length-take kept hashes (omega (arith, doubled)) in
        let paired =
          length-hash_pairs cn_fast_hash (2 ^ d - kept) (drop kept hashes)
            (omega (arith, doubled, length-drop kept hashes)) in
        length-append (take kept hashes) _ ∙ omega (arith, doubled, taken, paired)

  many-root :
      (d : ℕ) (hashes : List Bytes)
      → suc d ≤ 58
      → 2 ^ suc d < length hashes
      → length hashes ≤ 2 ^ suc (suc d)
      → tree_hash_many cn_fast_hash hashes ≡ root cn_fast_hash (suc d) (leaves (suc d) hashes)
  unfolding tree_hash_many
  many-root d hashes small low high =
      let bound = pow_mono (suc d) 58 small in
      let fits : ltb ((2 ^ 64 - 1) / 32) (2 ^ suc d) ≡ false = ground (arith, bound) in
      rw (
        full_level-pow (suc d) (length hashes) (omega arith) low high,
        fits,
        tree_hash_loop-root cn_fast_hash 64 d (first_level cn_fast_hash (2 ^ suc d) hashes)
            (omega arith) (length-first_level (suc d) hashes low high),
        first_level-leaves (suc d) hashes low high,
      )

  -- For every count of hashes of more than 2^d and at most 2^(d+1), up to 2^59, `tree_hash` is the
  -- root of the full binary tree of depth d over 2^d leaves: the first 2^(d+1) - count hashes, and
  -- the hashes of the others in pairs.
  pub tree_hash-root :
      (d : ℕ) (hashes : List Bytes)
      → d ≤ 58
      → 2 ^ d < length hashes
      → length hashes ≤ 2 ^ suc d
      → tree_hash cn_fast_hash hashes ≡ root cn_fast_hash d (leaves d hashes)
  unfolding tree_hash root leaves pair_up
  tree_hash-root d [] small low high = absurd (omega arith)
  tree_hash-root d (a ∷ []) small low high = absurd (omega (arith, pow_pos d))
  tree_hash-root zero (a ∷ b ∷ []) small low high = refl
  tree_hash-root (suc d) (a ∷ b ∷ []) small low high =
      absurd (omega (arith, pow-suc 2 d, pow_pos d))
  tree_hash-root zero (a ∷ b ∷ c ∷ rest) small low high = absurd (omega arith)
  tree_hash-root (suc d) (a ∷ b ∷ c ∷ rest) small low high =
      many-root d (a ∷ b ∷ c ∷ rest) small low high
