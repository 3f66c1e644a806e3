-- ===== src/Basic/Header/Laws.antt =====
-- What a header keeps on the wire.
use mathlib.Core.Path.{refl}
use node_blocktemplate.Prelude.{ℕ, ◌≡◌, true, leb, ◌==◌, arith}
use node_blocktemplate.Archive.Combine.{field_if}
use node_blocktemplate.Archive.Codec.{IsLossless}
use node_blocktemplate.Archive.Varint.Laws.{varint-IsLossless}
use node_blocktemplate.Archive.Fixed.Laws.{uint-IsLossless, blob-IsLossless}
use node_blocktemplate.Archive.Combine.Laws.{field_if-IsLossless, if-IsLossless}
use node_blocktemplate.Prelude.{◌≤◌, ==_iff}
use node_blocktemplate.Archive.Codec.{ReadsBack, RewritesIf, Always}
use node_blocktemplate.Archive.Combine.Laws.{
  chain-ReadsBack, chain-RewritesIf, convert-ReadsBack, convert-RewritesIf, field_if-ReadsBack,
  field_if-RewritesIf, if-ReadsBack, reads_next, rewrites_next, anyway,
}
use node_blocktemplate.Config.{blob_type_zephyr}
use node_blocktemplate.Oracle.Zephyr
use node_blocktemplate.Oracle.Salvium
use node_blocktemplate.Basic.Header.{zephyr_record, header_rest, block_header}

-- Only the first record of Zephyr is not saved as it was read.
abbrev pub KeepsRecord : ℕ → ℕ → Type 0
KeepsRecord bt major = bt ≡ blob_type_zephyr → 3 ≤ major

zephyr_record-ReadsBack : (major : ℕ) → ReadsBack (zephyr_record major)
unfolding zephyr_record
zephyr_record-ReadsBack major =
    if-ReadsBack (leb 6 major) Zephyr.Laws.pricing_record-IsLossless.reads_back (
      if-ReadsBack (leb 4 major) Zephyr.Laws.pricing_record_v3-IsLossless.reads_back (
        if-ReadsBack (leb 3 major) Zephyr.Laws.pricing_record_v2-IsLossless.reads_back
          Zephyr.Laws.pricing_record_v1-ReadsBack))

zephyr_record-IsLossless : (major : ℕ) → 3 ≤ major → IsLossless (zephyr_record major)
unfolding zephyr_record
zephyr_record-IsLossless major h =
    if-IsLossless (leb 6 major) Zephyr.Laws.pricing_record-IsLossless (
      if-IsLossless (leb 4 major) Zephyr.Laws.pricing_record_v3-IsLossless
        (rw recent Zephyr.Laws.pricing_record_v2-IsLossless))
  where
    recent : leb 3 major ≡ true
    recent = ground arith

-- The wire of a header, given the laws of its record of Zephyr.
record_ReadsBack :
    (bt major : ℕ)
    → ReadsBack (field_if (bt == blob_type_zephyr) (zephyr_record major) Zephyr.zero_pricing_record)
record_ReadsBack bt major = field_if-ReadsBack _ _ _ (zephyr_record-ReadsBack major)

record_RewritesIf :
    (bt major : ℕ)
    → KeepsRecord bt major
    → RewritesIf Always
        (field_if (bt == blob_type_zephyr) (zephyr_record major) Zephyr.zero_pricing_record)
record_RewritesIf bt major h =
    field_if-RewritesIf _ _ _
      (λ e. (zephyr_record-IsLossless major (h ((==_iff bt blob_type_zephyr).0 e))).rewrites)

header_rest-ReadsBack : (bt major : ℕ) → ReadsBack (header_rest bt major)
unfolding header_rest
header_rest-ReadsBack bt major = reads_next (varint-IsLossless 8) (
    reads_next (varint-IsLossless 64) (
      reads_next (blob-IsLossless 32) (
        reads_next (field_if-IsLossless _ _ _ (uint-IsLossless 8)) (
          reads_next (uint-IsLossless 4) (
            reads_next (field_if-IsLossless _ _ _ (blob-IsLossless 128)) (
              reads_next (field_if-IsLossless _ _ _ Salvium.Laws.pricing_record-IsLossless) (
                chain-ReadsBack _ _ (record_ReadsBack bt major)
                  (λ _. (field_if-IsLossless _ _ _ (blob-IsLossless 64)).reads_back))))))))

header_rest-RewritesIf :
    (bt major : ℕ) → KeepsRecord bt major → RewritesIf Always (header_rest bt major)
unfolding header_rest
header_rest-RewritesIf bt major h = rewrites_next (varint-IsLossless 8) (
    rewrites_next (varint-IsLossless 64) (
      rewrites_next (blob-IsLossless 32) (
        rewrites_next (field_if-IsLossless _ _ _ (uint-IsLossless 8)) (
          rewrites_next (uint-IsLossless 4) (
            rewrites_next (field_if-IsLossless _ _ _ (blob-IsLossless 128)) (
              rewrites_next (field_if-IsLossless _ _ _ Salvium.Laws.pricing_record-IsLossless) (
                chain-RewritesIf _ _ Always (record_RewritesIf bt major h)
                  (λ _ _. (field_if-IsLossless _ _ _ (blob-IsLossless 64)).rewrites))))))))

-- A header within the ranges of its types, its members off the wire at their initial values, is
-- loaded back from what was saved, whatever bytes follow.
pub block_header-ReadsBack : (bt : ℕ) → ReadsBack (block_header bt)
unfolding block_header
block_header-ReadsBack bt =
    convert-ReadsBack _ _ _ (λ b. refl)
      (chain-ReadsBack _ _ (varint-IsLossless 8).reads_back (header_rest-ReadsBack bt))

-- A header that is loaded from bytes, if it is not one of Zephyr before version 3, is saved as the
-- very bytes that were taken.
pub block_header-RewritesIf :
    (bt : ℕ) → RewritesIf (λ h. KeepsRecord bt h.major_version) (block_header bt)
unfolding block_header
block_header-RewritesIf bt =
    convert-RewritesIf _ _ _ _ (λ a. refl)
      (chain-RewritesIf _ _ (KeepsRecord bt) (anyway (varint-IsLossless 8))
        (header_rest-RewritesIf bt))
