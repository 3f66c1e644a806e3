-- ===== src/Oracle/Salvium/Laws.antt =====
-- The pricing record of Salvium loses nothing on the wire.
use mathlib.Core.Path.{refl}
use node_blocktemplate.Archive.Codec.{IsLossless, IsNonempty}
use node_blocktemplate.Archive.Varint.Laws.{varint-IsLossless, varint-IsNonempty}
use node_blocktemplate.Archive.Fixed.Laws.{uint-IsLossless, uint-IsNonempty}
use node_blocktemplate.Archive.Combine.Laws.{
  chain-IsNonempty, convert-IsLossless, convert-IsNonempty, ◌⊳◌,
}
use node_blocktemplate.Archive.Many.Laws.{vector-IsLossless, string-IsLossless, string-IsNonempty}
use node_blocktemplate.Oracle.Salvium.{supply_data, asset_data, pricing_record}

pub supply_data-IsLossless : IsLossless supply_data
unfolding supply_data
supply_data-IsLossless =
    convert-IsLossless _ _ _ (λ b. refl) (λ a. refl) (varint-IsLossless 64 ⊳ varint-IsLossless 64)

pub supply_data-IsNonempty : IsNonempty supply_data
unfolding supply_data
supply_data-IsNonempty = convert-IsNonempty _ _ _ (chain-IsNonempty _ _ (varint-IsNonempty 64))

pub asset_data-IsLossless : IsLossless asset_data
unfolding asset_data
asset_data-IsLossless =
    convert-IsLossless _ _ _ (λ b. refl) (λ a. refl)
      (string-IsLossless ⊳ varint-IsLossless 64 ⊳ varint-IsLossless 64)

pub asset_data-IsNonempty : IsNonempty asset_data
unfolding asset_data
asset_data-IsNonempty = convert-IsNonempty _ _ _ (chain-IsNonempty _ _ string-IsNonempty)

pub pricing_record-IsLossless : IsLossless pricing_record
unfolding pricing_record
pricing_record-IsLossless =
    convert-IsLossless _ _ _ (λ b. refl) (λ a. refl)
      (varint-IsLossless 64
        ⊳ varint-IsLossless 64
        ⊳ supply_data-IsLossless
        ⊳ vector-IsLossless _ asset_data-IsNonempty asset_data-IsLossless
        ⊳ varint-IsLossless 64
        ⊳ vector-IsLossless _ (uint-IsNonempty 0) (uint-IsLossless 1))

pub pricing_record-IsNonempty : IsNonempty pricing_record
unfolding pricing_record
pricing_record-IsNonempty = convert-IsNonempty _ _ _ (chain-IsNonempty _ _ (varint-IsNonempty 64))
