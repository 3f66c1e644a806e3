-- ===== src/Tests/Codecs.antt =====
-- The laws of the codecs on concrete inputs.
use node_blocktemplate.Prelude.{◌≡◌, refl, some, [], length, replicate}
use node_blocktemplate.Archive.Codec.{IsLossless, ReadsBack, RewritesIf}
use node_blocktemplate.Archive.Varint.{varint}
use node_blocktemplate.Archive.Varint.Laws.{varint-IsLossless}
use node_blocktemplate.Archive.Fixed.{uint, blob, load_uint_loop}
use node_blocktemplate.Archive.Fixed.Laws.{blob-IsLossless, blob-IsNonempty}
use node_blocktemplate.Archive.Combine.{chain, embed}
use node_blocktemplate.Archive.Many.{vector}
use node_blocktemplate.Archive.Many.Laws.{vector-IsLossless}
use node_blocktemplate.Oracle.Zephyr
use node_blocktemplate.Rct.Base.{rctsig_base}
use node_blocktemplate.Rct.Base.Laws.{rctsig_base-IsLossless}
use node_blocktemplate.Rct.Prunable.{MaxAmounts, rctsig_prunable}
use node_blocktemplate.Rct.Prunable.Laws.{rctsig_prunable-IsLossless}
use node_blocktemplate.Basic.Prefix.{transaction_prefix}
use node_blocktemplate.Basic.Prefix.Laws.{transaction_prefix-IsLossless}
use node_blocktemplate.Basic.Transaction.{transaction}
use node_blocktemplate.Basic.Transaction.Laws.{transaction-IsLossless}
use node_blocktemplate.Basic.Header.{block_header}
use node_blocktemplate.Basic.Header.Laws.{
  KeepsRecord, block_header-ReadsBack, block_header-RewritesIf,
}

-- One pair of amounts for each pair of commitments.
abbrev one_each : MaxAmounts
one_each = record {
  n_bulletproof_max_amounts = λ ps. length ps;
  n_bulletproof_plus_max_amounts = λ ps. length ps;
}

varint-IsLossless_example : IsLossless (varint 64)
varint-IsLossless_example = varint-IsLossless 64

vector-IsLossless_example : IsLossless (vector (blob 32))
vector-IsLossless_example = vector-IsLossless (blob 32) (blob-IsNonempty 31) (blob-IsLossless 32)

rctsig_base-IsLossless_example : IsLossless (rctsig_base 2)
rctsig_base-IsLossless_example = rctsig_base-IsLossless 2

rctsig_prunable-IsLossless_example : IsLossless (rctsig_prunable one_each 6 1 2 15)
rctsig_prunable-IsLossless_example = rctsig_prunable-IsLossless one_each 6 1 2 15

transaction_prefix-IsLossless_example : IsLossless (transaction_prefix 15)
transaction_prefix-IsLossless_example = transaction_prefix-IsLossless 15

transaction-IsLossless_example : IsLossless (transaction one_each 0)
transaction-IsLossless_example = transaction-IsLossless one_each 0

block_header-ReadsBack_example : ReadsBack (block_header 8)
block_header-ReadsBack_example = block_header-ReadsBack 8

block_header-RewritesIf_example : RewritesIf (λ h. KeepsRecord 14 h.major_version) (block_header 14)
block_header-RewritesIf_example = block_header-RewritesIf 14

read_ones : Zephyr.pricing_record_v1.load (replicate 24 1) ≡ some (Zephyr.zero_pricing_record, [])
unfolding Zephyr.pricing_record_v1 embed chain uint load_uint_loop
read_ones = refl
