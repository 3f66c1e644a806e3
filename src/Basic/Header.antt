-- ===== src/Basic/Header.antt =====
-- `block_header` (src/cryptonote_basic/cryptonote_basic.h).
use mathlib.Core.Path.{refl}
use node_blocktemplate.Prelude.{
  ℕ, ◌≡◌, inl, inr, ◌⊎◌, Bool, true, false, not, ◌&&◌, ◌||◌, List, [], ◌∷◌, ◌++◌, Bytes, leb, ltb,
  ◌==◌, if◌then◌else◌, length, arith, replicate,
}
use node_blocktemplate.Archive.Codec.{Codec}
use node_blocktemplate.Archive.Varint.{varint}
use node_blocktemplate.Archive.Fixed.{uint, blob}
use node_blocktemplate.Archive.Combine.{chain, convert, embed, ◌▹◌, field_if, check, ensure}
use node_blocktemplate.Archive.Many.{vector, string, times}
use node_blocktemplate.Archive.Variant.{variant, alternative, no_alternative}
use node_blocktemplate.Config.{blob_type_cuckoo, blob_type_zephyr, blob_type_xla, blob_type_salvium}
use node_blocktemplate.Oracle.Zephyr
use node_blocktemplate.Oracle.Salvium
use node_blocktemplate.Rct.SalviumData.{zeros}
pub mod Laws
pub mod Blanked

-- `block_header`. `cycle` is the blob of 32 integers.
pub record BlockHeader : Type 0 where
  pub major_version : ℕ
  pub minor_version : ℕ
  pub timestamp : ℕ
  pub prev_id : Bytes
  pub nonce : ℕ
  pub nonce8 : ℕ
  pub zephyr_pricing_record : Zephyr.PricingRecord
  pub salvium_pricing_record : Salvium.PricingRecord
  pub cycle : Bytes
  pub signature : Bytes

abbrev pub no_salvium_record : Salvium.PricingRecord
no_salvium_record = record {
  pr_version = 0;
  height = 0;
  supply = record { sal = 0; vsd = 0 };
  assets = [];
  timestamp = 0;
  signature = [];
}

-- The layout of the record of Zephyr goes by the version of the block.
unfoldable pub zephyr_record : ℕ → Codec Zephyr.PricingRecord
zephyr_record major =
    if leb 6 major
    then Zephyr.pricing_record
    else if leb 4 major
    then Zephyr.pricing_record_v3
    else if leb 3 major
    then Zephyr.pricing_record_v2
    else Zephyr.pricing_record_v1

abbrev HeaderRest : Type 0
HeaderRest =
    ℕ
    × (ℕ × (Bytes × (ℕ × (ℕ × (Bytes × (Salvium.PricingRecord × (Zephyr.PricingRecord × Bytes)))))))

-- What follows `major_version`. The nonce is 64 bits in memory and 32 on the wire.
unfoldable pub header_rest : ℕ → ℕ → Codec HeaderRest
header_rest bt major =
    varint 8
    ▹ varint 64
    ▹ blob 32
    ▹ field_if (bt == blob_type_cuckoo) (uint 8) 0
    ▹ uint 4
    ▹ field_if (bt == blob_type_cuckoo) (blob 128) (zeros 128)
    ▹ field_if (bt == blob_type_salvium && leb 255 major) Salvium.pricing_record no_salvium_record
    ▹ field_if (bt == blob_type_zephyr) (zephyr_record major) Zephyr.zero_pricing_record
    ▹ field_if (bt == blob_type_xla && leb 13 major) (blob 64) (zeros 64)

abbrev HeaderWire : Type 0
HeaderWire = ℕ × HeaderRest

abbrev pub header_of : HeaderWire → BlockHeader
header_of (major, (minor, (time, (prev, (nonce8, (nonce, (cycle, (sal, (zeph, sig))))))))) =
    record {
      major_version = major;
      minor_version = minor;
      timestamp = time;
      prev_id = prev;
      nonce = nonce;
      nonce8 = nonce8;
      zephyr_pricing_record = zeph;
      salvium_pricing_record = sal;
      cycle = cycle;
      signature = sig;
    }

abbrev pub header_wire : BlockHeader → HeaderWire
header_wire h = (
  h.major_version,
  (
    h.minor_version,
    (
      h.timestamp,
      (
        h.prev_id,
        (
          h.nonce8,
          (h.nonce, (h.cycle, (h.salvium_pricing_record, (h.zephyr_pricing_record, h.signature)))),
        ),
      ),
    ),
  ),
)

-- `do_serialize` of `block_header`.
unfoldable pub block_header : ℕ → Codec BlockHeader
block_header bt = convert header_of header_wire (chain (varint 8) (header_rest bt))
