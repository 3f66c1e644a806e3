-- ===== src/Rct/Prunable/Laws.antt =====
-- The prunable part of a RingCT signature loses nothing on the wire.
use mathlib.Core.Path.{refl}
use node_blocktemplate.Prelude.{ℕ, ◌≡◌, List, leb, ◌==◌, length}
use node_blocktemplate.Archive.Codec.{Codec}
use node_blocktemplate.Archive.Combine.{chain, check}
use node_blocktemplate.Archive.Many.{times}
use node_blocktemplate.Archive.Codec.{IsLossless}
use node_blocktemplate.Archive.Varint.Laws.{varint-IsLossless}
use node_blocktemplate.Archive.Fixed.Laws.{uint-IsLossless, blob-IsLossless}
use node_blocktemplate.Archive.Combine.Laws.{
  chain-IsLossless, convert-IsLossless, embed-IsLossless, field_if-IsLossless, check-IsLossless,
  ensure-IsLossless, ◌⊳◌, if-IsLossless,
}
use node_blocktemplate.Archive.Many.Laws.{times-IsLossless}
use node_blocktemplate.Prelude.{ap}
use node_blocktemplate.Rct.Proofs.Laws.{
  bulletproof-IsLossless, bulletproof_plus-IsLossless, range_sig-IsLossless,
}
use node_blocktemplate.Rct.Prunable.{MaxAmounts, clsag, tclsag, mg_sig, counted, rctsig_prunable}

clsag-IsLossless : (mixin : ℕ) → IsLossless (clsag mixin)
unfolding clsag
clsag-IsLossless mixin =
    convert-IsLossless _ _ _ (λ b. refl) (λ a. refl)
      (times-IsLossless _ _ (blob-IsLossless 32) ⊳ blob-IsLossless 32 ⊳ blob-IsLossless 32)

tclsag-IsLossless : (mixin : ℕ) → IsLossless (tclsag mixin)
unfolding tclsag
tclsag-IsLossless mixin =
    convert-IsLossless _ _ _ (λ b. refl) (λ a. refl)
      (times-IsLossless _ _ (blob-IsLossless 32)
        ⊳ times-IsLossless _ _ (blob-IsLossless 32)
        ⊳ blob-IsLossless 32
        ⊳ blob-IsLossless 32)

mg_sig-IsLossless : (mixin ss2_elements : ℕ) → IsLossless (mg_sig mixin ss2_elements)
unfolding mg_sig
mg_sig-IsLossless mixin ss2_elements =
    convert-IsLossless _ _ _ (λ b. refl) (λ a. refl)
      (times-IsLossless _ _ (times-IsLossless _ _ (blob-IsLossless 32)) ⊳ blob-IsLossless 32)

-- The count that was read is the length.
counted-IsLossless :
    {A : Type 0} (count : Codec ℕ) (max_amounts : List A → ℕ) (outputs : ℕ) (c : Codec A)
    → IsLossless count
    → IsLossless c
    → IsLossless (counted count max_amounts outputs c)
unfolding counted
counted-IsLossless {A} count max_amounts outputs c hn hc = ensure-IsLossless _ _ (
    embed-IsLossless _ _ _ (λ p h. same p h)
      (chain-IsLossless _ _ hn (λ nbp. check-IsLossless _ _ (times-IsLossless c nbp hc))))
  where
    same :
        (p : ℕ × List A)
        → (chain count (λ nbp. check (leb nbp outputs) (times c nbp))).Fits p
        → ◌≡◌ {A = ℕ × List A} (length p.1, p.1) p
    same (nbp, vs) h = unfold chain check times in ap (λ (k : ℕ). (k, vs)) (h.1.0)

-- The prunable part of a RingCT signature, for every type, counts and bounds: what fits the types
-- and is saved is loaded back, whatever bytes follow; and what is loaded from bytes is saved as the
-- very bytes that were taken.
pub rctsig_prunable-IsLossless :
    (n : MaxAmounts) (t inputs outputs mixin : ℕ)
    → IsLossless (rctsig_prunable n t inputs outputs mixin)
unfolding rctsig_prunable
rctsig_prunable-IsLossless n t inputs outputs mixin = check-IsLossless _ _ (
    convert-IsLossless _ _ _ (λ b. refl) (λ a. refl)
      (field_if-IsLossless _ _ _
          (counted-IsLossless _ _ _ _ (varint-IsLossless 32) bulletproof_plus-IsLossless)
        ⊳ field_if-IsLossless _ _ _ (
            counted-IsLossless _ _ _ _
              (if-IsLossless (t == 3) (uint-IsLossless 4) (varint-IsLossless 32))
              bulletproof-IsLossless)
        ⊳ field_if-IsLossless _ _ _
            (check-IsLossless _ _ (times-IsLossless _ _ range_sig-IsLossless))
        ⊳ field_if-IsLossless _ _ _ (times-IsLossless _ _ (tclsag-IsLossless mixin))
        ⊳ field_if-IsLossless _ _ _ (times-IsLossless _ _ (clsag-IsLossless mixin))
        ⊳ field_if-IsLossless _ _ _ (times-IsLossless _ _ (mg_sig-IsLossless mixin _))
        ⊳ field_if-IsLossless _ _ _ (times-IsLossless _ _ (blob-IsLossless 32))))
