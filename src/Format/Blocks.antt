-- ===== src/Format/Blocks.antt =====
-- Blocks and their blobs determine one another.
use node_blocktemplate.Prelude.{
  ℕ, ◌≡◌, Option, some, [], ◌∷◌, append-nil, >>=-eq-some, Bytes, AreBytes, ◌∙◌,
}
use node_blocktemplate.Archive.Codec.{Codec, ReadsBack, RewritesIf}
use node_blocktemplate.Rct.Prunable.{MaxAmounts}
use node_blocktemplate.Basic.Header.Laws.{KeepsRecord}
use node_blocktemplate.Basic.Block.{Block, block}
use node_blocktemplate.Basic.Block.Laws.{block-ReadsBack, block-RewritesIf}
use node_blocktemplate.Format.{
  at_end, parse_binary, object_to_blob, parse_and_validate_block_from_blob, block_to_blob,
}

module _ {A : Type 0} (c : Codec A) where
  pub parse_binary-load :
      (blob : Bytes) (a : A) → parse_binary c blob ≡ some a → c.load blob ≡ some (a, [])
  unfolding parse_binary
  parse_binary-load blob a q =
      let ((a', rest), e, last) = >>=-eq-some (c.load blob) _ q in e ∙ ended a' rest last
    where
      ended :
          (a' : A) (rest : Bytes)
          → at_end (a', rest) ≡ some a
          → ◌≡◌ {A = Option (A × Bytes)} (some (a', rest)) (some (a, []))
      ended a' [] h = cc
      ended a' (b ∷ rest) h = cc

  pub parse_binary-object_to_blob :
      ReadsBack c
      → (a : A) (blob : Bytes) → c.Fits a
      → object_to_blob c a ≡ some blob
      → parse_binary c blob ≡ some a
  unfolding parse_binary object_to_blob
  parse_binary-object_to_blob hc a blob fits saved =
      let e : c.load blob ≡ some (a, []) = rw append-nil at (hc.at a blob [] fits saved) in rw e

  pub object_to_blob-parse_binary :
      (P : A → Type 0)
      → RewritesIf P c
      → (blob : Bytes) (a : A) → AreBytes blob
      → P a
      → parse_binary c blob ≡ some a
      → c.Fits a × (object_to_blob c a ≡ some blob)
  unfolding object_to_blob
  object_to_blob-parse_binary P hc blob a hx p q =
      let t = hc.at blob a [] hx p (parse_binary-load blob a q) in
      (t.fits, rw (t.split, append-nil) t.saved)

-- A block within the ranges of its types, its members off the wire at their initial values, is
-- parsed back from its blob.
pub parse-block_to_blob :
    (n : MaxAmounts) (bt : ℕ) (b : Block) (blob : Bytes)
    → (block n bt).Fits b
    → block_to_blob n bt b ≡ some blob
    → parse_and_validate_block_from_blob n bt blob ≡ some b
unfolding parse_and_validate_block_from_blob block_to_blob
parse-block_to_blob n bt b blob =
    parse_binary-object_to_blob (block n bt) (block-ReadsBack n bt) b blob

-- A blob that parses, as a block that is not one of Zephyr before version 3, is what the block
-- is written as, byte for byte.
pub block_to_blob-parse :
    (n : MaxAmounts) (bt : ℕ) (blob : Bytes) (b : Block)
    → AreBytes blob
    → KeepsRecord bt b.header.major_version
    → parse_and_validate_block_from_blob n bt blob ≡ some b
    → (block n bt).Fits b × (block_to_blob n bt b ≡ some blob)
unfolding parse_and_validate_block_from_blob block_to_blob
block_to_blob-parse n bt blob b =
    object_to_blob-parse_binary (block n bt) _ (block-RewritesIf n bt) blob b
