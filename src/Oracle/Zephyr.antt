-- ===== src/Oracle/Zephyr.antt =====
-- The pricing records of src/zephyr_oracle/pricing_record.h and, for older blocks,
-- src/serialization/zephyr_pricing_record.h.
use mathlib.Core.Path.{refl}
use node_blocktemplate.Prelude.{
  ℕ, ◌≡◌, inl, inr, ◌⊎◌, Bool, true, false, not, ◌&&◌, ◌||◌, List, [], ◌∷◌, ◌++◌, Bytes, leb, ltb,
  ◌==◌, if◌then◌else◌, length, arith, replicate,
}
use node_blocktemplate.Archive.Codec.{Codec}
use node_blocktemplate.Archive.Varint.{varint}
use node_blocktemplate.Archive.Fixed.{uint, blob}
use node_blocktemplate.Archive.Combine.{chain, convert, embed, ◌▹◌, field_if, check, ensure}
use node_blocktemplate.Archive.Many.{vector, string, times}
use node_blocktemplate.Archive.Variant.{variant, alternative, no_alternative}
pub mod Laws

-- `pricing_record`, a blob of its ten integers and its signature. Integers are little-endian in
-- memory on the machines that the package is built for.
pub record PricingRecord : Type 0 where
  pub spot : ℕ
  pub moving_average : ℕ
  pub stable : ℕ
  pub stable_ma : ℕ
  pub reserve : ℕ
  pub reserve_ma : ℕ
  pub reserve_ratio : ℕ
  pub reserve_ratio_ma : ℕ
  pub yield_price : ℕ
  pub timestamp : ℕ
  pub signature : Bytes

unfoldable pub pricing_record : Codec PricingRecord
pricing_record =
    convert
      (λ p. record {
        spot = p.0;
        moving_average = p.1.0;
        stable = p.1.1.0;
        stable_ma = p.1.1.1.0;
        reserve = p.1.1.1.1.0;
        reserve_ma = p.1.1.1.1.1.0;
        reserve_ratio = p.1.1.1.1.1.1.0;
        reserve_ratio_ma = p.1.1.1.1.1.1.1.0;
        yield_price = p.1.1.1.1.1.1.1.1.0;
        timestamp = p.1.1.1.1.1.1.1.1.1.0;
        signature = p.1.1.1.1.1.1.1.1.1.1;
      })
      (λ t. (
        t.spot,
        (
          t.moving_average,
          (
            t.stable,
            (
              t.stable_ma,
              (
                t.reserve,
                (
                  t.reserve_ma,
                  (
                    t.reserve_ratio,
                    (t.reserve_ratio_ma, (t.yield_price, (t.timestamp, t.signature))),
                  ),
                ),
              ),
            ),
          ),
        ),
      ))
      (uint 8
        ▹ uint 8
        ▹ uint 8
        ▹ uint 8
        ▹ uint 8
        ▹ uint 8
        ▹ uint 8
        ▹ uint 8
        ▹ uint 8
        ▹ uint 8
        ▹ blob 64)

abbrev pub zero_pricing_record : PricingRecord
zero_pricing_record = record {
  spot = 0;
  moving_average = 0;
  stable = 0;
  stable_ma = 0;
  reserve = 0;
  reserve_ma = 0;
  reserve_ratio = 0;
  reserve_ratio_ma = 0;
  yield_price = 0;
  timestamp = 0;
  signature = replicate 64 0;
}

-- Version 1 has three integers. `write_to_pr` ignores them and clears the record, `read_from_pr`
-- sets them to zero.
unfoldable pub pricing_record_v1 : Codec PricingRecord
pricing_record_v1 = embed (λ p. zero_pricing_record) (λ r. (0, (0, 0))) (uint 8 ▹ uint 8 ▹ uint 8)

abbrev pub PricingRecordV2 : Type 0
PricingRecordV2 = ℕ × (ℕ × (ℕ × (ℕ × (ℕ × (ℕ × (ℕ × Bytes))))))

-- `write_to_pr` into a record of zeros, and `read_from_pr`.
abbrev pub write_v2 : PricingRecordV2 → PricingRecord
write_v2
      (
        spot,
        (moving_average, (stable, (stable_ma, (reserve, (reserve_ma, (timestamp, signature)))))),
      ) =
    record {
      spot = spot;
      moving_average = moving_average;
      stable = stable;
      stable_ma = stable_ma;
      reserve = reserve;
      reserve_ma = reserve_ma;
      reserve_ratio = 0;
      reserve_ratio_ma = 0;
      yield_price = 0;
      timestamp = timestamp;
      signature = signature;
    }

abbrev pub read_v2 : PricingRecord → PricingRecordV2
read_v2 r = (
  r.spot,
  (
    r.moving_average,
    (r.stable, (r.stable_ma, (r.reserve, (r.reserve_ma, (r.timestamp, r.signature))))),
  ),
)

unfoldable pub pricing_record_v2 : Codec PricingRecord
pricing_record_v2 =
    embed write_v2 read_v2 (uint 8 ▹ uint 8 ▹ uint 8 ▹ uint 8 ▹ uint 8 ▹ uint 8 ▹ uint 8 ▹ blob 64)

abbrev pub PricingRecordV3 : Type 0
PricingRecordV3 = ℕ × (ℕ × (ℕ × (ℕ × (ℕ × (ℕ × (ℕ × (ℕ × (ℕ × Bytes))))))))

-- `write_to_pr` into a record of zeros, and `read_from_pr`.
abbrev pub write_v3 : PricingRecordV3 → PricingRecord
write_v3
      (
        spot,
        (
          moving_average,
          (
            stable,
            (
              stable_ma,
              (reserve, (reserve_ma, (reserve_ratio, (reserve_ratio_ma, (timestamp, signature))))),
            ),
          ),
        ),
      ) =
    record {
      spot = spot;
      moving_average = moving_average;
      stable = stable;
      stable_ma = stable_ma;
      reserve = reserve;
      reserve_ma = reserve_ma;
      reserve_ratio = reserve_ratio;
      reserve_ratio_ma = reserve_ratio_ma;
      yield_price = 0;
      timestamp = timestamp;
      signature = signature;
    }

abbrev pub read_v3 : PricingRecord → PricingRecordV3
read_v3 r = (
  r.spot,
  (
    r.moving_average,
    (
      r.stable,
      (
        r.stable_ma,
        (
          r.reserve,
          (r.reserve_ma, (r.reserve_ratio, (r.reserve_ratio_ma, (r.timestamp, r.signature)))),
        ),
      ),
    ),
  ),
)

unfoldable pub pricing_record_v3 : Codec PricingRecord
pricing_record_v3 =
    embed write_v3 read_v3
      (uint 8 ▹ uint 8 ▹ uint 8 ▹ uint 8 ▹ uint 8 ▹ uint 8 ▹ uint 8 ▹ uint 8 ▹ uint 8 ▹ blob 64)
