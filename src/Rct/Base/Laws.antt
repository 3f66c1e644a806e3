-- ===== src/Rct/Base/Laws.antt =====
-- The base of a RingCT signature loses nothing on the wire.
use mathlib.Core.Path.{refl}
use node_blocktemplate.Prelude.{ℕ, ◌≡◌, ◌++◌}
use node_blocktemplate.Archive.Codec.{IsLossless}
use node_blocktemplate.Archive.Varint.Laws.{varint-IsLossless}
use node_blocktemplate.Archive.Fixed.Laws.{uint-IsLossless, blob-IsLossless, length-blob}
use node_blocktemplate.Archive.Combine.Laws.{
  chain-IsLossless, convert-IsLossless, embed-IsLossless, field_if-IsLossless, check-IsLossless,
  ◌⊳◌, if-IsLossless,
}
use node_blocktemplate.Archive.Many.Laws.{times-IsLossless}
use mathlib.Core.Path.{subst}
use node_blocktemplate.Prelude.{take, take-length_append}
use node_blocktemplate.Rct.Proofs.Laws.{zk_proof-IsLossless, ecdh_tuple-IsLossless}
use node_blocktemplate.Rct.SalviumData.{zeros}
use node_blocktemplate.Rct.SalviumData.Laws.{salvium_data-IsLossless}
use node_blocktemplate.Rct.Base.{is_compact, ctkey_mask, compact_ecdh, rctsig_base}

ctkey_mask-IsLossless : IsLossless ctkey_mask
unfolding ctkey_mask
ctkey_mask-IsLossless = embed-IsLossless _ _ _ (λ a h. refl) (blob-IsLossless 32)

compact_ecdh-IsLossless : IsLossless compact_ecdh
unfolding compact_ecdh
compact_ecdh-IsLossless =
    embed-IsLossless _ _ _
      (λ a h.
        subst (λ (n : ℕ). take n (a ++ zeros 24) ≡ a) (length-blob 8 a h)
          (take-length_append a (zeros 24)))
      (blob-IsLossless 8)

-- The base of a RingCT signature, for any number of outputs: what fits the types and is saved is
-- loaded back, whatever bytes follow; and what is loaded from bytes is saved as the very bytes that
-- were taken.
pub rctsig_base-IsLossless : (outputs : ℕ) → IsLossless (rctsig_base outputs)
unfolding rctsig_base
rctsig_base-IsLossless outputs =
    convert-IsLossless _ _ _ (λ b. refl) (λ a. refl)
      (chain-IsLossless _ _ (uint-IsLossless 1) (λ t. field_if-IsLossless _ _ _ (
        check-IsLossless _ _ (
          varint-IsLossless 64
          ⊳ times-IsLossless _ outputs
              (if-IsLossless (is_compact t) compact_ecdh-IsLossless ecdh_tuple-IsLossless)
          ⊳ times-IsLossless _ outputs ctkey_mask-IsLossless
          ⊳ blob-IsLossless 32
          ⊳ field_if-IsLossless _ _ _ salvium_data-IsLossless
          ⊳ field_if-IsLossless _ _ _ (zk_proof-IsLossless ⊳ zk_proof-IsLossless)))))
