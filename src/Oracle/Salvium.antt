-- ===== src/Oracle/Salvium.antt =====
-- src/salvium_oracle/pricing_record.h.
use mathlib.Core.Path.{refl}
use node_blocktemplate.Prelude.{
  ℕ, ◌≡◌, inl, inr, ◌⊎◌, Bool, true, false, not, ◌&&◌, ◌||◌, List, [], ◌∷◌, ◌++◌, Bytes, leb, ltb,
  ◌==◌, if◌then◌else◌, length, arith, replicate,
}
use node_blocktemplate.Archive.Codec.{Codec}
use node_blocktemplate.Archive.Varint.{varint}
use node_blocktemplate.Archive.Fixed.{uint, blob}
use node_blocktemplate.Archive.Combine.{chain, convert, embed, ◌▹◌, field_if, check, ensure}
use node_blocktemplate.Archive.Many.{vector, string, times}
use node_blocktemplate.Archive.Variant.{variant, alternative, no_alternative}
pub mod Laws

-- `supply_data`.
pub record SupplyData : Type 0 where
  pub sal : ℕ
  pub vsd : ℕ

unfoldable pub supply_data : Codec SupplyData
supply_data =
    convert (λ p. record { sal = p.0; vsd = p.1 }) (λ t. (t.sal, t.vsd)) (varint 64 ▹ varint 64)

-- `asset_data`.
pub record AssetData : Type 0 where
  pub asset_type : Bytes
  pub spot_price : ℕ
  pub ma_price : ℕ

unfoldable pub asset_data : Codec AssetData
asset_data =
    convert (λ p. record { asset_type = p.0; spot_price = p.1.0; ma_price = p.1.1 })
      (λ t. (t.asset_type, (t.spot_price, t.ma_price))) (string ▹ varint 64 ▹ varint 64)

-- `pricing_record`.
pub record PricingRecord : Type 0 where
  pub pr_version : ℕ
  pub height : ℕ
  pub supply : SupplyData
  pub assets : List AssetData
  pub timestamp : ℕ
  pub signature : List ℕ

unfoldable pub pricing_record : Codec PricingRecord
pricing_record =
    convert
      (λ p. record {
        pr_version = p.0;
        height = p.1.0;
        supply = p.1.1.0;
        assets = p.1.1.1.0;
        timestamp = p.1.1.1.1.0;
        signature = p.1.1.1.1.1;
      })
      (λ t. (t.pr_version, (t.height, (t.supply, (t.assets, (t.timestamp, t.signature))))))
      (varint 64 ▹ varint 64 ▹ supply_data ▹ vector asset_data ▹ varint 64 ▹ vector (uint 1))
