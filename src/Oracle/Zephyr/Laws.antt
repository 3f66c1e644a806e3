-- ===== src/Oracle/Zephyr/Laws.antt =====
-- What the pricing records of Zephyr keep on the wire.

use node_blocktemplate.Archive.Codec.{IsLossless, IsNonempty}
use node_blocktemplate.Archive.Fixed.Laws.{uint-IsLossless, uint-IsNonempty, blob-IsLossless}
use node_blocktemplate.Archive.Combine.Laws.{
  chain-IsNonempty, convert-IsLossless, convert-IsNonempty, embed-IsLossless, ◌⊳◌,
}
use node_blocktemplate.Archive.Codec.{ReadsBack}
use node_blocktemplate.Archive.Combine.Laws.{embed-ReadsBack}
use node_blocktemplate.Prelude.{refl}
use node_blocktemplate.Oracle.Zephyr.{
  pricing_record, pricing_record_v1, pricing_record_v2, pricing_record_v3,
}

pub pricing_record-IsLossless : IsLossless pricing_record
unfolding pricing_record
pricing_record-IsLossless =
    convert-IsLossless _ _ _ (λ b. refl) (λ a. refl)
      (uint-IsLossless 8
        ⊳ uint-IsLossless 8
        ⊳ uint-IsLossless 8
        ⊳ uint-IsLossless 8
        ⊳ uint-IsLossless 8
        ⊳ uint-IsLossless 8
        ⊳ uint-IsLossless 8
        ⊳ uint-IsLossless 8
        ⊳ uint-IsLossless 8
        ⊳ uint-IsLossless 8
        ⊳ blob-IsLossless 64)

pub pricing_record-IsNonempty : IsNonempty pricing_record
unfolding pricing_record
pricing_record-IsNonempty = convert-IsNonempty _ _ _ (chain-IsNonempty _ _ (uint-IsNonempty 7))

-- What version 1 saves is read back; what it reads is not saved again.
pub pricing_record_v1-ReadsBack : ReadsBack pricing_record_v1
unfolding pricing_record_v1
pricing_record_v1-ReadsBack =
    embed-ReadsBack _ _ _ ((uint-IsLossless 8 ⊳ uint-IsLossless 8 ⊳ uint-IsLossless 8).reads_back)

pub pricing_record_v2-IsLossless : IsLossless pricing_record_v2
unfolding pricing_record_v2
pricing_record_v2-IsLossless =
    embed-IsLossless _ _ _ (λ a h. refl)
      (uint-IsLossless 8
        ⊳ uint-IsLossless 8
        ⊳ uint-IsLossless 8
        ⊳ uint-IsLossless 8
        ⊳ uint-IsLossless 8
        ⊳ uint-IsLossless 8
        ⊳ uint-IsLossless 8
        ⊳ blob-IsLossless 64)

pub pricing_record_v3-IsLossless : IsLossless pricing_record_v3
unfolding pricing_record_v3
pricing_record_v3-IsLossless =
    embed-IsLossless _ _ _ (λ a h. refl)
      (uint-IsLossless 8
        ⊳ uint-IsLossless 8
        ⊳ uint-IsLossless 8
        ⊳ uint-IsLossless 8
        ⊳ uint-IsLossless 8
        ⊳ uint-IsLossless 8
        ⊳ uint-IsLossless 8
        ⊳ uint-IsLossless 8
        ⊳ uint-IsLossless 8
        ⊳ blob-IsLossless 64)
