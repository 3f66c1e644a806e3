-- ===== src/Basic/Header/Blanked.antt =====
-- The headers of Zephyr before version 3 (src/cryptonote_basic/cryptonote_basic.h), whose pricing
-- record `pricing_record_v1` of src/zephyr_oracle/pricing_record.h drops.
use mathlib.Core.Path.{refl}
use node_blocktemplate.Prelude.{
  ◌==◌, ℕ, ◌<◌, ◌≡◌, sym, ap, ◌∙◌, false, some, some_eq, [], >>=-eq-some, Bytes, leb, length,
  replicate, arith,
}
use node_blocktemplate.Archive.Codec.{Codec, Always, IsLossless}
use node_blocktemplate.Archive.Fixed.{uint, put_uint}
use node_blocktemplate.Archive.Combine.{chain, embed, ◌▹◌, field_if}
use node_blocktemplate.Archive.Combine.Laws.{field_if-IsLossless, ◌⊳◌}
use node_blocktemplate.Archive.Combine.Blanks.{
  BlanksIf, chain-BlanksIf_after, chain-BlanksIf_before, convert-BlanksIf,
}
use node_blocktemplate.Archive.Varint.Laws.{varint-IsLossless}
use node_blocktemplate.Archive.Fixed.Laws.{uint-IsLossless, blob-IsLossless}
use node_blocktemplate.Config.{blob_type_zephyr}
use node_blocktemplate.Oracle.Zephyr
use node_blocktemplate.Oracle.Salvium
use node_blocktemplate.Basic.Header.{zephyr_record, header_rest, block_header}

three_words : IsLossless (uint 8 ▹ uint 8 ▹ uint 8)
three_words = uint-IsLossless 8 ⊳ uint-IsLossless 8 ⊳ uint-IsLossless 8

words-length :
    (p : ℕ × (ℕ × ℕ)) (bs : Bytes) → (uint 8 ▹ uint 8 ▹ uint 8).save p ≡ some bs → length bs ≡ 24
unfolding chain uint put_uint
words-length p bs h = ap length (sym (some_eq h))

record_v1-saved :
    (r : Zephyr.PricingRecord) → Zephyr.pricing_record_v1.save r ≡ some (replicate 24 0)
unfolding Zephyr.pricing_record_v1 embed chain uint put_uint
record_v1-saved r = refl

-- What is loaded is three words.
record_v1-load :
    (xs rest : Bytes) (r : Zephyr.PricingRecord)
    → Zephyr.pricing_record_v1.load xs ≡ some (r, rest)
    → (p : ℕ × (ℕ × ℕ)) × ((uint 8 ▹ uint 8 ▹ uint 8).load xs ≡ some (p, rest))
unfolding Zephyr.pricing_record_v1 embed
record_v1-load xs rest r q =
    let ((p, after), e, last) = >>=-eq-some ((uint 8 ▹ uint 8 ▹ uint 8).load xs) _ q in
    let same : after ≡ rest = cc in (p, e ∙ ap (λ (t : Bytes). some (p, t)) same)

record_v1-BlanksIf : BlanksIf 24 Always Zephyr.pricing_record_v1
record_v1-BlanksIf = record {
  at = λ xs r rest hx _ q.
      let (p, e) = record_v1-load xs rest r q in
      let t = three_words.rewrites.at xs p rest hx tt e in
      record {
        front = [];
        old = t.bytes;
        back = [];
        size = words-length p t.bytes t.saved;
        split = t.split;
        saved = record_v1-saved r;
      };
}

after_field :
    {A B : Type 0} {c : Codec A} {d : Codec B}
    → IsLossless c
    → BlanksIf 24 Always d
    → BlanksIf 24 Always (c ▹ d)
after_field hc hd = chain-BlanksIf_after 24 _ _ Always hc (λ _ _. hd)

record-BlanksIf :
    (major : ℕ)
    → major < 3
    → BlanksIf 24 Always (
        field_if
          (blob_type_zephyr == blob_type_zephyr)
          (zephyr_record major)
          Zephyr.zero_pricing_record)
unfolding field_if zephyr_record
record-BlanksIf major h =
    let six : leb 6 major ≡ false = ground arith in
    let four : leb 4 major ≡ false = ground arith in
    let three : leb 3 major ≡ false = ground arith in
    rw (six, four, three) record { at = record_v1-BlanksIf.at }

header_rest-BlanksIf :
    (major : ℕ) → major < 3 → BlanksIf 24 Always (header_rest blob_type_zephyr major)
unfolding header_rest
header_rest-BlanksIf major h = after_field (varint-IsLossless 8) (
    after_field (varint-IsLossless 64) (
      after_field (blob-IsLossless 32) (
        after_field (field_if-IsLossless _ _ _ (uint-IsLossless 8)) (
          after_field (uint-IsLossless 4) (
            after_field (field_if-IsLossless _ _ _ (blob-IsLossless 128)) (
              after_field (field_if-IsLossless _ _ _ Salvium.Laws.pricing_record-IsLossless) (
                chain-BlanksIf_before 24 _ _ Always (record-BlanksIf major h)
                  (field_if-IsLossless _ _ _ (blob-IsLossless 64)))))))))

pub block_header-BlanksIf : BlanksIf 24 (λ h. h.major_version < 3) (block_header blob_type_zephyr)
unfolding block_header
block_header-BlanksIf =
    convert-BlanksIf 24 _ _ _ _ (λ a. refl)
      (chain-BlanksIf_after 24 _ _ (λ major. major < 3) (varint-IsLossless 8) header_rest-BlanksIf)
