-- ===== src/Basic/Block.antt =====
-- `block` (src/cryptonote_basic/cryptonote_basic.h).
use mathlib.Core.Path.{refl}
use node_blocktemplate.Prelude.{
  ℕ, ◌≡◌, inl, inr, ◌⊎◌, Bool, true, false, not, ◌&&◌, ◌||◌, List, [], ◌∷◌, ◌++◌, Bytes, leb, ltb,
  ◌==◌, if◌then◌else◌, length, arith, replicate,
}
use node_blocktemplate.Archive.Codec.{Codec}
use node_blocktemplate.Archive.Varint.{varint}
use node_blocktemplate.Archive.Fixed.{uint, blob}
use node_blocktemplate.Archive.Combine.{chain, convert, embed, ◌▹◌, field_if, check, ensure}
use node_blocktemplate.Archive.Many.{vector, string, times}
use node_blocktemplate.Archive.Variant.{variant, alternative, no_alternative}
use node_blocktemplate.Config.{blob_type_cryptonote3, blob_type_salvium}
use node_blocktemplate.Basic.Header.{BlockHeader, block_header}
use node_blocktemplate.Basic.Transaction.{Transaction, transaction, null_transaction}
use node_blocktemplate.Rct.SalviumData.{zeros}
use node_blocktemplate.Rct.Prunable.{MaxAmounts}
pub mod Laws
pub mod Blanked

-- `block`. `uncle` is on the wire for Masari alone, `protocol_tx` for Salvium.
pub record Block : Type 0 where
  pub header : BlockHeader
  pub miner_tx : Transaction
  pub protocol_tx : Transaction
  pub tx_hashes : List Bytes
  pub uncle : Bytes

-- `crypto::null_hash`.
abbrev pub null_hash : Bytes
null_hash = zeros 32

-- `do_serialize` of `block`.
unfoldable pub block : MaxAmounts → ℕ → Codec Block
block n bt =
    convert
      (λ p. record {
        header = p.0;
        miner_tx = p.1.0;
        protocol_tx = p.1.1.0;
        tx_hashes = p.1.1.1.0;
        uncle = p.1.1.1.1;
      })
      (λ b. (b.header, (b.miner_tx, (b.protocol_tx, (b.tx_hashes, b.uncle)))))
      (block_header bt
        ▹ transaction n bt
        ▹ field_if (bt == blob_type_salvium) (transaction n bt) null_transaction
        ▹ vector (blob 32)
        ▹ field_if (bt == blob_type_cryptonote3) (blob 32) null_hash)
