-- ===== src/Basic/Prefix/Laws.antt =====
-- The prefix of a transaction loses nothing on the wire.
use mathlib.Core.Path.{refl}
use node_blocktemplate.Prelude.{ℕ, ◌==◌}
use node_blocktemplate.Archive.Varint.{varint}
use node_blocktemplate.Archive.Fixed.{uint}
use node_blocktemplate.Archive.Many.{vector}
use node_blocktemplate.Archive.Codec.{IsLossless}
use node_blocktemplate.Archive.Varint.Laws.{varint-IsLossless, varint-IsNonempty}
use node_blocktemplate.Archive.Fixed.Laws.{
  uint-IsLossless, uint-IsNonempty, blob-IsLossless, blob-IsNonempty,
}
use node_blocktemplate.Archive.Combine.Laws.{
  chain-IsLossless, embed-IsLossless, field_if-IsLossless, check-IsLossless, ensure-IsLossless, ◌⊳◌,
  if-IsLossless,
}
use node_blocktemplate.Archive.Many.Laws.{vector-IsLossless, string-IsLossless}
use node_blocktemplate.Config.{blob_type_salvium}
use node_blocktemplate.Basic.TxIn.Laws.{
  txin_v-IsLossless, txin_v-IsNonempty, txin_zephyr_v-IsLossless, txin_zephyr_v-IsNonempty,
  txin_salvium_v-IsLossless, txin_salvium_v-IsNonempty,
}
use node_blocktemplate.Basic.TxOut.Laws.{
  tx_out-IsLossless, tx_out-IsNonempty, tx_out_zephyr-IsLossless, tx_out_zephyr-IsNonempty,
  tx_out_salvium-IsLossless, tx_out_salvium-IsNonempty,
}
use node_blocktemplate.Basic.Salvium.Laws.{
  protocol_tx_data-IsLossless, token_metadata-IsLossless, layer2_rollup_data-IsLossless,
}
use node_blocktemplate.Basic.Prefix.{
  plain_prefix, salvium_return, salvium_prefix, transaction_prefix,
}

varints : IsLossless (vector (varint 64))
varints = vector-IsLossless _ (varint-IsNonempty 64) (varint-IsLossless 64)

bytes : IsLossless (vector (uint 1))
bytes = vector-IsLossless _ (uint-IsNonempty 0) (uint-IsLossless 1)

plain_prefix-IsLossless : (bt : ℕ) → IsLossless (plain_prefix bt)
unfolding plain_prefix
plain_prefix-IsLossless bt =
    embed-IsLossless _ _ _ (λ a h. refl)
      (chain-IsLossless _ _ (varint-IsLossless 64) (λ version. check-IsLossless _ _ (
        chain-IsLossless _ _
          (field_if-IsLossless _ _ _ (ensure-IsLossless _ _ (varint-IsLossless 16) ⊳ varints))
          (λ arq.
            varint-IsLossless 64
            ⊳ (field_if-IsLossless _ _ _
                  (vector-IsLossless _ txin_zephyr_v-IsNonempty txin_zephyr_v-IsLossless)
                ⊳ field_if-IsLossless _ _ _
                    (vector-IsLossless _ txin_v-IsNonempty txin_v-IsLossless))
            ⊳ ensure-IsLossless _ _ (
                field_if-IsLossless _ _ _
                  (vector-IsLossless _ tx_out_zephyr-IsNonempty tx_out_zephyr-IsLossless)
                ⊳ field_if-IsLossless _ _ _
                    (vector-IsLossless _ tx_out-IsNonempty tx_out-IsLossless))
            ⊳ bytes
            ⊳ field_if-IsLossless _ _ _
                (varint-IsLossless 64 ⊳ varint-IsLossless 64 ⊳ varint-IsLossless 64)))))

salvium_return-IsLossless : (kind version : ℕ) → IsLossless (salvium_return kind version)
unfolding salvium_return
salvium_return-IsLossless kind version =
    field_if-IsLossless _ _ _
      (vector-IsLossless _ (blob-IsNonempty 31) (blob-IsLossless 32) ⊳ bytes)
    ⊳ field_if-IsLossless _ _ _ protocol_tx_data-IsLossless
    ⊳ field_if-IsLossless _ _ _ (blob-IsLossless 32 ⊳ blob-IsLossless 32)
    ⊳ string-IsLossless
    ⊳ string-IsLossless
    ⊳ varint-IsLossless 64

salvium_prefix-IsLossless : IsLossless salvium_prefix
unfolding salvium_prefix
salvium_prefix-IsLossless =
    embed-IsLossless _ _ _ (λ a h. refl)
      (chain-IsLossless _ _ (varint-IsLossless 64) (λ version. check-IsLossless _ _ (
        varint-IsLossless 64
        ⊳ vector-IsLossless _ txin_salvium_v-IsNonempty txin_salvium_v-IsLossless
        ⊳ vector-IsLossless _ tx_out_salvium-IsNonempty tx_out_salvium-IsLossless
        ⊳ bytes
        ⊳ chain-IsLossless _ _ (varint-IsLossless 32) (λ kind.
          field_if-IsLossless _ _ _ (varint-IsLossless 64)
          ⊳ field_if-IsLossless _ _ _ (salvium_return-IsLossless kind version)
          ⊳ field_if-IsLossless _ _ _ token_metadata-IsLossless
          ⊳ field_if-IsLossless _ _ _ (blob-IsLossless 8)
          ⊳ field_if-IsLossless _ _ _ layer2_rollup_data-IsLossless))))

-- Transaction prefixes of every kind of blob: what fits the types and is saved is loaded back,
-- whatever bytes follow; and what is loaded from bytes is saved as the very bytes that were taken.
pub transaction_prefix-IsLossless : (bt : ℕ) → IsLossless (transaction_prefix bt)
unfolding transaction_prefix
transaction_prefix-IsLossless bt =
    check-IsLossless _ _ (
      if-IsLossless (bt == blob_type_salvium) salvium_prefix-IsLossless
        (plain_prefix-IsLossless bt))
