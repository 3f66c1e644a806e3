-- ===== src/Format/Blanked.antt =====
-- `block_to_blob` (src/cryptonote_basic/cryptonote_format_utils.cpp) of a block of Zephyr before
-- version 3, whose pricing record is lost.
use node_blocktemplate.Prelude.{
  [], ◌<◌, ◌≡◌, ap, ◌∙◌, some, ◌++◌, append-nil, Bytes, AreBytes, length, replicate,
}
use node_blocktemplate.Config.{blob_type_zephyr}
use node_blocktemplate.Rct.Prunable.{MaxAmounts}
use node_blocktemplate.Basic.Block.{Block, block}
use node_blocktemplate.Basic.Block.Blanked.{block-BlanksIf}
use node_blocktemplate.Format.{object_to_blob, parse_and_validate_block_from_blob, block_to_blob}
use node_blocktemplate.Format.Blocks.{parse_binary-load}

-- A blob that parses as a block of Zephyr before version 3 has 24 bytes in place of which the block
-- is written with zeros, whatever they are; all other bytes are written as they stand.
pub block_to_blob-blanked :
    (n : MaxAmounts) (blob : Bytes) (b : Block)
    → AreBytes blob
    → b.header.major_version < 3
    → parse_and_validate_block_from_blob n blob_type_zephyr blob ≡ some b
    → (front : Bytes) × (old : Bytes) × (back : Bytes) × (length old ≡ 24)
      × (blob ≡ front ++ (old ++ back))
      × (block_to_blob n blob_type_zephyr b ≡ some (front ++ (replicate 24 0 ++ back)))
unfolding parse_and_validate_block_from_blob block_to_blob object_to_blob
block_to_blob-blanked n blob b hx early parsed =
    let t =
      (block-BlanksIf n).at blob b [] hx early
        (parse_binary-load (block n blob_type_zephyr) blob b parsed) in
    (
      t.front,
      t.old,
      t.back,
      t.size,
      t.split ∙ ap (λ (u : Bytes). t.front ++ (t.old ++ u)) (append-nil t.back),
      t.saved,
    )
