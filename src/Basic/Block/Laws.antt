-- ===== src/Basic/Block/Laws.antt =====
-- What a block keeps on the wire.
use mathlib.Core.Path.{refl}
use node_blocktemplate.Prelude.{ℕ, ◌==◌}
use node_blocktemplate.Archive.Fixed.{blob}
use node_blocktemplate.Archive.Combine.{◌▹◌, field_if}
use node_blocktemplate.Archive.Many.{vector}
use node_blocktemplate.Archive.Codec.{IsLossless}
use node_blocktemplate.Archive.Fixed.Laws.{blob-IsLossless, blob-IsNonempty}
use node_blocktemplate.Archive.Combine.Laws.{field_if-IsLossless, ◌⊳◌}
use node_blocktemplate.Archive.Many.Laws.{vector-IsLossless}
use node_blocktemplate.Archive.Codec.{ReadsBack, RewritesIf}
use node_blocktemplate.Archive.Combine.Laws.{
  chain-ReadsBack, chain-RewritesIf, convert-ReadsBack, convert-RewritesIf,
}
use node_blocktemplate.Config.{blob_type_cryptonote3, blob_type_salvium}
use node_blocktemplate.Basic.Header.Laws.{
  KeepsRecord, block_header-ReadsBack, block_header-RewritesIf,
}
use node_blocktemplate.Basic.Transaction.{transaction, null_transaction}
use node_blocktemplate.Basic.Transaction.Laws.{transaction-IsLossless}
use node_blocktemplate.Rct.Prunable.{MaxAmounts}
use node_blocktemplate.Basic.Block.{null_hash, block}

pub block_rest :
    (n : MaxAmounts) (bt : ℕ)
    → IsLossless (
        transaction n bt
        ▹ field_if (bt == blob_type_salvium) (transaction n bt) null_transaction
        ▹ vector (blob 32)
        ▹ field_if (bt == blob_type_cryptonote3) (blob 32) null_hash)
block_rest n bt =
    transaction-IsLossless n bt
    ⊳ field_if-IsLossless _ _ _ (transaction-IsLossless n bt)
    ⊳ vector-IsLossless _ (blob-IsNonempty 31) (blob-IsLossless 32)
    ⊳ field_if-IsLossless _ _ _ (blob-IsLossless 32)

pub block-ReadsBack : (n : MaxAmounts) (bt : ℕ) → ReadsBack (block n bt)
unfolding block
block-ReadsBack n bt =
    convert-ReadsBack _ _ _ (λ b. refl)
      (chain-ReadsBack _ _ (block_header-ReadsBack bt) (λ _. (block_rest n bt).reads_back))

pub block-RewritesIf :
    (n : MaxAmounts) (bt : ℕ) → RewritesIf (λ b. KeepsRecord bt b.header.major_version) (block n bt)
unfolding block
block-RewritesIf n bt =
    convert-RewritesIf _ _ _ _ (λ a. refl)
      (chain-RewritesIf _ _ (λ h. KeepsRecord bt h.major_version) (block_header-RewritesIf bt)
        (λ _ _. (block_rest n bt).rewrites))
