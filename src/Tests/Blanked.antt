-- ===== src/Tests/Blanked.antt =====
-- A block of Zephyr before version 3, on a concrete input.
use node_blocktemplate.Prelude.{
  ◌<◌, ◌≡◌, refl, some, [], ◌∷◌, ◌++◌, Bytes, length, replicate, arith,
}
use node_blocktemplate.Archive.Varint.{varint}
use node_blocktemplate.Archive.Fixed.{uint, blob}
use node_blocktemplate.Archive.Combine.{chain, convert, embed, field_if, check, ensure}
use node_blocktemplate.Archive.Many.{vector, times, save_each, load_each}
use node_blocktemplate.Archive.Variant.{variant, alternative, no_alternative}
use node_blocktemplate.Config.{
  blob_type_zephyr, is_supported_blob_type, is_supported_transaction_version,
}
use node_blocktemplate.Oracle.Zephyr.{pricing_record_v1}
use node_blocktemplate.Rct.Base.{rctsig_base}
use node_blocktemplate.Basic.TxIn.{txin_zephyr_v, txin_gen}
use node_blocktemplate.Basic.Prefix.{plain_prefix, transaction_prefix}
use node_blocktemplate.Basic.Transaction.{rct_signatures, transaction}
use node_blocktemplate.Basic.Header.{zephyr_record, header_rest, block_header}
use node_blocktemplate.Basic.Block.{Block, block}
use node_blocktemplate.Format.{parse_binary, parse_and_validate_block_from_blob, block_to_blob}
use node_blocktemplate.Format.Blanked.{block_to_blob-blanked}
use node_blocktemplate.Tests.{max_amounts, all_bytes-AreBytes}

-- Versions 1 and 1, the time 5, a record of 24 sevens, a coinbase with one input and no output, and
-- no transactions.
abbrev early_template : Bytes
early_template =
    1
    ∷ 1
    ∷ 5
    ∷ (replicate 32 33
        ++ (1
            ∷ 2
            ∷ 3
            ∷ 4
            ∷ (replicate 24 7 ++ (2 ∷ 0 ∷ 1 ∷ 255 ∷ 5 ∷ 0 ∷ 0 ∷ 0 ∷ 0 ∷ 0 ∷ 0 ∷ 0 ∷ []))))

early_block :
    (b : Block) × (parse_and_validate_block_from_blob max_amounts blob_type_zephyr early_template
      ≡ some b)
    × (b.header.major_version < 3)
unfolding parse_and_validate_block_from_blob parse_binary block block_header header_rest transaction
    transaction_prefix plain_prefix rct_signatures rctsig_base chain convert embed field_if check
    ensure vector times varint uint blob save_each load_each variant alternative no_alternative
    txin_zephyr_v txin_gen is_supported_transaction_version is_supported_blob_type zephyr_record
    pricing_record_v1
early_block = (_, refl, omega arith)

block_to_blob-blanked_example :
    (front : Bytes) × (old : Bytes) × (back : Bytes) × (length old ≡ 24)
    × (early_template ≡ front ++ (old ++ back))
    × (block_to_blob max_amounts blob_type_zephyr early_block.0
        ≡ some (front ++ (replicate 24 0 ++ back)))
block_to_blob-blanked_example =
    block_to_blob-blanked max_amounts early_template early_block.0
      (all_bytes-AreBytes early_template refl) early_block.2 early_block.1
