-- ===== src/TreeHash/Branch/Level.antt =====
-- The level that `tree_branch` (src/crypto/tree-hash.c) starts from and the tree hash over it.
use native.Mathlib.Nat.{pow-suc}
use node_blocktemplate.Prelude.{
  ◌⊎◌, ℕ, zero, suc, ◌+◌, ◌-◌, ◌*◌, ◌^◌, ◌≤◌, ◌<◌, ◌≡◌, refl, sym, ap, ◌∙◌, inl, inr, List, [], ◌∷◌,
  Bytes, append-nil, length, take, take-length_append, arith,
}
use node_blocktemplate.Prelude.Bits.{pow_pos}
use node_blocktemplate.TreeHash.{hash_pairs, first_level, tree_hash}
use node_blocktemplate.TreeHash.Merkle.{root, root-hash_pairs}
use node_blocktemplate.TreeHash.Root.{first_level-leaves, length-first_level, tree_hash-root}
use node_blocktemplate.TreeHash.Branch.{branch_ints}

lt-or-eq : (a b : ℕ) → a ≤ b → (a < b) ⊎ (b ≡ a)
lt-or-eq a b h = ground arith

module _ (cn_fast_hash : Bytes → Bytes) where
  -- The first level of `tree_hash` is the first hash and what `tree_branch` puts in `ints`.
  pub first_level-branch_ints :
      (cnt : ℕ) (a : Bytes) (hashes : List Bytes)
      → length hashes + 1 < 2 * cnt
      → first_level cn_fast_hash cnt (a ∷ hashes) ≡ a ∷ branch_ints cn_fast_hash cnt (a ∷ hashes)
  unfolding first_level branch_ints
  first_level-branch_ints cnt a hashes h =
      let less = 2 * cnt - length hashes - 2 in
      let kept : 2 * cnt - suc (length hashes) ≡ suc less = omega arith in
      let back : suc less - 1 ≡ less = omega arith in
      let rounds : cnt - 1 - less ≡ cnt - suc less = omega arith in rw (kept, back, rounds)

  first_level-full :
      (cnt : ℕ) (hashes : List Bytes)
      → length hashes ≡ cnt
      → first_level cn_fast_hash cnt hashes ≡ hashes
  unfolding first_level hash_pairs
  first_level-full cnt hashes h =
      let kept : 2 * cnt - length hashes ≡ length hashes = omega (arith, h) in
      let no_round : cnt - length hashes ≡ 0 = omega (arith, h) in
      let whole =
        ap (take (length hashes)) (sym (append-nil hashes)) ∙ take-length_append hashes [] in
      rw (kept, no_round) (append-nil (take (length hashes) hashes) ∙ whole)

  first_level-half :
      (cnt : ℕ) (hashes : List Bytes)
      → length hashes ≡ 2 * cnt
      → first_level cn_fast_hash cnt hashes ≡ hash_pairs cn_fast_hash cnt hashes
  unfolding first_level
  first_level-half cnt hashes h =
      let kept : 2 * cnt - length hashes ≡ 0 = omega (arith, h) in
      let rounds : cnt - 0 ≡ cnt = omega arith in rw (kept, rounds)

  -- The tree hash of a power of two of hashes is the root over them.
  tree_hash-power :
      (d : ℕ) (hashes : List Bytes)
      → d ≤ 58
      → length hashes ≡ 2 ^ d
      → tree_hash cn_fast_hash hashes ≡ root cn_fast_hash d hashes
  unfolding tree_hash root
  tree_hash-power zero [] small h = absurd (omega arith)
  tree_hash-power zero (a ∷ []) small h = refl
  tree_hash-power zero (a ∷ b ∷ hashes) small h = absurd (omega arith)
  tree_hash-power (suc d) hashes small h =
      let sizes = pow-suc 2 d in
      let low : 2 ^ d < length hashes = omega (arith, h, sizes, pow_pos d) in
      let high : length hashes ≤ 2 ^ suc d = omega (arith, h) in
      let pairs = first_level-half (2 ^ d) hashes (omega (arith, h, sizes)) in
      let level = sym (first_level-leaves cn_fast_hash d hashes low high) ∙ pairs in
      tree_hash-root cn_fast_hash d hashes (omega arith) low high
      ∙ ap (root cn_fast_hash d) level
      ∙ sym (root-hash_pairs cn_fast_hash d hashes h)

  -- The first level of 2^d hashes, and the root over it, which is the tree hash.
  pub record LevelOf (d : ℕ) (hashes : List Bytes) : Type 0 where
    pub size : length (first_level cn_fast_hash (2 ^ d) hashes) ≡ 2 ^ d
    pub top :
        tree_hash cn_fast_hash hashes
        ≡ root cn_fast_hash d (first_level cn_fast_hash (2 ^ d) hashes)

  pub level_of :
      (d : ℕ) (hashes : List Bytes)
      → d ≤ 58
      → 2 ^ d ≤ length hashes
      → length hashes < 2 ^ suc d
      → LevelOf d hashes
  level_of d hashes small low high = elim (lt-or-eq (2 ^ d) (length hashes) low) [
    | inl lt ↦
        let most : length hashes ≤ 2 ^ suc d = omega arith in
        record {
          size = length-first_level cn_fast_hash d hashes lt most;
          top =
              tree_hash-root cn_fast_hash d hashes small lt most
              ∙ ap (root cn_fast_hash d) (sym (first_level-leaves cn_fast_hash d hashes lt most));
        }
    | inr eq ↦
        let same = first_level-full (2 ^ d) hashes eq in
        record {
          size = ap length same ∙ eq;
          top = tree_hash-power d hashes small eq ∙ ap (root cn_fast_hash d) (sym same);
        }
  ]
