-- ===== src/Rct/SalviumData/Laws.antt =====
-- The proof data of Salvium loses nothing on the wire.
use mathlib.Core.Path.{refl}
use node_blocktemplate.Archive.Codec.{IsLossless, IsNonempty}
use node_blocktemplate.Archive.Varint.Laws.{varint-IsLossless}
use node_blocktemplate.Archive.Fixed.Laws.{uint-IsLossless, blob-IsLossless, blob-IsNonempty}
use node_blocktemplate.Archive.Combine.Laws.{
  chain-IsLossless, chain-IsNonempty, convert-IsLossless, convert-IsNonempty, field_if-IsLossless,
  ◌⊳◌,
}
use node_blocktemplate.Archive.Many.Laws.{vector-IsLossless, string-IsLossless}
use node_blocktemplate.Rct.Proofs.Laws.{zk_proof-IsLossless}
use node_blocktemplate.Rct.SalviumData.{salvium_input_data, salvium_data}

pub salvium_input_data-IsLossless : IsLossless salvium_input_data
unfolding salvium_input_data
salvium_input_data-IsLossless =
    convert-IsLossless _ _ _ (λ b. refl) (λ a. refl)
      (blob-IsLossless 32
        ⊳ varint-IsLossless 64
        ⊳ varint-IsLossless 64
        ⊳ chain-IsLossless _ _ (varint-IsLossless 8)
            (λ origin. field_if-IsLossless _ _ _ (blob-IsLossless 32 ⊳ uint-IsLossless 8)))

salvium_input_data-IsNonempty : IsNonempty salvium_input_data
unfolding salvium_input_data
salvium_input_data-IsNonempty = convert-IsNonempty _ _ _ (chain-IsNonempty _ _ (blob-IsNonempty 31))

pub salvium_data-IsLossless : IsLossless salvium_data
unfolding salvium_data
salvium_data-IsLossless =
    convert-IsLossless _ _ _ (λ b. refl) (λ a. refl)
      (chain-IsLossless _ _ (varint-IsLossless 8) (λ kind.
        zk_proof-IsLossless
        ⊳ zk_proof-IsLossless
        ⊳ field_if-IsLossless _ _ _ (
            zk_proof-IsLossless
            ⊳ vector-IsLossless _ salvium_input_data-IsNonempty salvium_input_data-IsLossless
            ⊳ blob-IsLossless 32
            ⊳ string-IsLossless)))
