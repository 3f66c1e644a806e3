-- ===== src/Format.antt =====
-- src/cryptonote_basic/cryptonote_format_utils.cpp: blobs, hashes and hashing blobs of transactions
-- and blocks. Where a save fails the program goes on with what was written so far; here the result
-- is `none`.
use node_blocktemplate.Prelude.{
  ℕ, ◌+◌, Bool, not, ◌&&◌, Option, none, some, List, [], ◌∷◌, ◌++◌, ◌>>=◌, Bytes, ltb, leb, ◌==◌,
  if◌then◌else◌, length,
}
use mathlib.Core.Option.{get_or}
use node_blocktemplate.Archive.Codec.{Codec}
use node_blocktemplate.Archive.Varint.{varint, write_varint}
use node_blocktemplate.Archive.Fixed.{put_uint}
use node_blocktemplate.Config.{
  blob_type_ryo, blob_type_cryptonote3, blob_type_cuckoo, blob_type_salvium,
}
use node_blocktemplate.Rct.Base.{rctsig_base}
use node_blocktemplate.Rct.Prunable.{MaxAmounts, rctsig_prunable}
use node_blocktemplate.Basic.PrefixType.{TransactionPrefix}
use node_blocktemplate.Basic.Prefix.{transaction_prefix}
use node_blocktemplate.Basic.Transaction.{
  Transaction, transaction, count_inputs, count_outputs, mixin, is_signed,
}
use node_blocktemplate.Basic.Header.{BlockHeader, block_header}
use node_blocktemplate.Basic.Block.{Block, block, null_hash}
use node_blocktemplate.TreeHash.{tree_hash}
pub mod Blocks
pub mod Blanked
pub mod Hashing
pub mod Determines
pub mod Amounts
pub mod Offsets

-- `serialization::serialize` on a stream that holds `blob`: all of it must be taken.
abbrev pub at_end : {A : Type 0} → A × Bytes → Option A
at_end (a, []) = some a
at_end (a, b ∷ rest) = none

unfoldable pub parse_binary : {A : Type 0} → Codec A → Bytes → Option A
parse_binary c blob = c.load blob >>= at_end

-- `t_serializable_object_to_blob`.
unfoldable pub object_to_blob : {A : Type 0} → Codec A → A → Option Bytes
object_to_blob c a = c.save a

unfoldable pub parse_and_validate_block_from_blob : MaxAmounts → ℕ → Bytes → Option Block
parse_and_validate_block_from_blob n bt blob = parse_binary (block n bt) blob

unfoldable pub block_to_blob : MaxAmounts → ℕ → Block → Option Bytes
block_to_blob n bt b = object_to_blob (block n bt) b

-- "ryo-currency"
abbrev pub ryo_currency : Bytes
ryo_currency =
    b'r' ∷ b'y' ∷ b'o' ∷ b'-' ∷ b'c' ∷ b'u' ∷ b'r' ∷ b'r' ∷ b'e' ∷ b'n' ∷ b'c' ∷ b'y' ∷ []

module _ (cn_fast_hash : Bytes → Bytes) (n : MaxAmounts) (bt : ℕ) where
  unfoldable pub get_transaction_prefix_hash : TransactionPrefix → Option Bytes
  get_transaction_prefix_hash tx = do
    blob ← object_to_blob (transaction_prefix bt) tx
    some (cn_fast_hash ((if bt == blob_type_ryo then ryo_currency else []) ++ blob))

  -- The hash of what the prunable part is written as, or zeros if there is none.
  unfoldable pub get_prunable_hash : Transaction → Option Bytes
  get_prunable_hash t =
      if t.rct_signatures.base.rct_type == 0
      then some null_hash
      else (rctsig_prunable n t.rct_signatures.base.rct_type (count_inputs bt t.prefix)
            (count_outputs bt t.prefix) (mixin bt t.prefix)).save
          t.rct_signatures.prunable
        >>= λ blob. some (cn_fast_hash blob)

  -- Version 1 hashes the blob, later ones three hashes of parts.
  unfoldable pub get_transaction_hash : Transaction → Option Bytes
  get_transaction_hash t =
      if is_signed bt t.prefix
      then object_to_blob (transaction n bt) t >>= (λ blob. some (cn_fast_hash blob))
      else (do
        prefix ← get_transaction_prefix_hash t.prefix
        base ← (rctsig_base (count_outputs bt t.prefix)).save t.rct_signatures.base
        prunable ← get_prunable_hash t
        some (cn_fast_hash (prefix ++ (cn_fast_hash base ++ prunable))))

  -- The result of `get_transaction_hash` is not looked at: a failure leaves the null hash.
  unfoldable pub get_tx_tree_hash : Block → Bytes
  get_tx_tree_hash b =
      let miner = get_or (get_transaction_hash b.miner_tx) null_hash in
      let protocol = get_or (get_transaction_hash b.protocol_tx) null_hash in
      tree_hash cn_fast_hash
        (if bt == blob_type_salvium then miner ∷ protocol ∷ b.tx_hashes else miner ∷ b.tx_hashes)

  -- The front of a hashing blob: for Cuckoo the members one by one, the version as `FIELD` writes
  -- one byte, and the others as they stand in memory.
  unfoldable pub hashing_header : Block → Option Bytes
  hashing_header b =
      if bt == blob_type_cuckoo
      then some (
          put_uint 1 b.header.major_version
          ++ (put_uint 1 b.header.minor_version
              ++ (put_uint 8 b.header.timestamp ++ b.header.prev_id)))
      else object_to_blob (block_header bt) b.header

  -- The count behind the root: the hashes, the miner's, and for Salvium the protocol's from
  -- version 2 on.
  unfoldable pub hashing_count : Block → ℕ
  hashing_count b =
      length b.tx_hashes
      + (if bt == blob_type_salvium && leb 2 b.header.major_version then 2 else 1)

  unfoldable pub get_block_hashing_blob : Block → Option Bytes
  get_block_hashing_blob b = if ltb 0x10000 (length b.tx_hashes) then none else (do
    front ← hashing_header b
    some (
        front
        ++ (get_tx_tree_hash b
            ++ (write_varint (hashing_count b)
                ++ ((if bt == blob_type_cryptonote3 then b.uncle else [])
                    ++ (if bt == blob_type_cuckoo then put_uint 8 b.header.nonce8 else []))))))

  -- `get_object_hash` of a `blobdata` serializes it, with its size in front.
  unfoldable pub get_block_hash : Block → Option Bytes
  get_block_hash b = do
    blob ← get_block_hashing_blob b
    some (cn_fast_hash (write_varint (length blob) ++ blob))
