-- ===== src/Rct/Prunable.antt =====
-- `rctSigPrunable` and `serialize_rctsig_prunable` (src/ringct/rctTypes.h).
use mathlib.Core.Path.{refl}
use node_blocktemplate.Prelude.{
  ℕ, ◌≡◌, inl, inr, ◌⊎◌, Bool, true, false, not, ◌&&◌, ◌||◌, List, [], ◌∷◌, ◌++◌, Bytes, leb, ltb,
  ◌==◌, if◌then◌else◌, length, arith, replicate,
}
use node_blocktemplate.Archive.Codec.{Codec}
use node_blocktemplate.Archive.Varint.{varint}
use node_blocktemplate.Archive.Fixed.{uint, blob}
use node_blocktemplate.Archive.Combine.{chain, convert, embed, ◌▹◌, field_if, check, ensure}
use node_blocktemplate.Archive.Many.{vector, string, times}
use node_blocktemplate.Archive.Variant.{variant, alternative, no_alternative}
use node_blocktemplate.Prelude.{◌+◌}
use node_blocktemplate.Rct.Proofs.{
  Bulletproof, bulletproof, BulletproofPlus, bulletproof_plus, RangeSig, range_sig,
}
use node_blocktemplate.Rct.Base.{is_known_rct_type}
pub mod Laws

-- The number of outputs that a list of range proofs can cover. The functions are declared in
-- rctTypes.h and defined outside of the repository.
pub record MaxAmounts : Type 0 where
  pub n_bulletproof_max_amounts : List Bulletproof → ℕ
  pub n_bulletproof_plus_max_amounts : List BulletproofPlus → ℕ

-- CLSAG, TCLSAG and MLSAG signatures, their arrays without sizes.
pub record Clsag : Type 0 where
  pub s : List Bytes
  pub c1 : Bytes
  pub d : Bytes

unfoldable pub clsag : ℕ → Codec Clsag
clsag mixin =
    convert (λ p. record { s = p.0; c1 = p.1.0; d = p.1.1 }) (λ t. (t.s, (t.c1, t.d)))
      (times (blob 32) (mixin + 1) ▹ blob 32 ▹ blob 32)

pub record Tclsag : Type 0 where
  pub sx : List Bytes
  pub sy : List Bytes
  pub c1 : Bytes
  pub d : Bytes

unfoldable pub tclsag : ℕ → Codec Tclsag
tclsag mixin =
    convert (λ p. record { sx = p.0; sy = p.1.0; c1 = p.1.1.0; d = p.1.1.1 })
      (λ t. (t.sx, (t.sy, (t.c1, t.d))))
      (times (blob 32) (mixin + 1) ▹ times (blob 32) (mixin + 1) ▹ blob 32 ▹ blob 32)

pub record MgSig : Type 0 where
  pub ss : List (List Bytes)
  pub cc_key : Bytes

unfoldable pub mg_sig : ℕ → ℕ → Codec MgSig
mg_sig mixin ss2_elements =
    convert (λ p. record { ss = p.0; cc_key = p.1 }) (λ t. (t.ss, t.cc_key))
      (times (times (blob 32) ss2_elements) (mixin + 1) ▹ blob 32)

-- A vector behind its count, `nbp`, which may not exceed the outputs, and which must cover them.
unfoldable pub counted : {A : Type 0} → Codec ℕ → (List A → ℕ) → ℕ → Codec A → Codec (List A)
counted count max_amounts outputs c =
    ensure (λ vs. leb outputs (max_amounts vs))
      (embed (λ p. p.1) (λ vs. (length vs, vs))
        (chain count (λ nbp. check (leb nbp outputs) (times c nbp))))

abbrev pub uses_plus : ℕ → Bool
uses_plus t = leb 6 t && leb t 9

abbrev pub uses_bulletproofs : ℕ → Bool
uses_bulletproofs t = leb 3 t && leb t 5

abbrev pub uses_clsags : ℕ → Bool
uses_clsags t = leb 5 t && leb t 8

-- One MLSAG for each input, rather than one for all: RCTTypeSimple and the two with bulletproofs.
abbrev pub is_per_input : ℕ → Bool
is_per_input t = leb 2 t && leb t 4

-- `rctSigPrunable`.
pub record RctSigPrunable : Type 0 where
  pub bulletproofs_plus : List BulletproofPlus
  pub bulletproofs : List Bulletproof
  pub range_sigs : List RangeSig
  pub tclsags : List Tclsag
  pub clsags : List Clsag
  pub mgs : List MgSig
  pub pseudo_outs : List Bytes

abbrev pub no_prunable : RctSigPrunable
no_prunable = record {
  bulletproofs_plus = [];
  bulletproofs = [];
  range_sigs = [];
  tclsags = [];
  clsags = [];
  mgs = [];
  pseudo_outs = [];
}

-- `serialize_rctsig_prunable`, for a type other than RCTTypeNull: a branch of an if-else chain is a
-- FIELD under its condition.
unfoldable pub rctsig_prunable : MaxAmounts → ℕ → ℕ → ℕ → ℕ → Codec RctSigPrunable
rctsig_prunable n t inputs outputs mixin =
    check
      (ltb inputs 0xffffffff
        && ltb outputs 0xffffffff
        && ltb mixin 0xffffffff
        && is_known_rct_type t)
      (convert
        (λ p. record {
          bulletproofs_plus = p.0;
          bulletproofs = p.1.0;
          range_sigs = p.1.1.0;
          tclsags = p.1.1.1.0;
          clsags = p.1.1.1.1.0;
          mgs = p.1.1.1.1.1.0;
          pseudo_outs = p.1.1.1.1.1.1;
        })
        (λ s. (
          s.bulletproofs_plus,
          (s.bulletproofs, (s.range_sigs, (s.tclsags, (s.clsags, (s.mgs, s.pseudo_outs))))),
        ))
        (field_if (uses_plus t)
            (counted (varint 32) n.n_bulletproof_plus_max_amounts outputs bulletproof_plus) []
          ▹ field_if (uses_bulletproofs t)
              (counted (if t == 3 then uint 4 else varint 32) n.n_bulletproof_max_amounts outputs
                bulletproof)
              []
          ▹ field_if (not (uses_plus t) && not (uses_bulletproofs t))
              (check (leb outputs 1024) (times range_sig outputs)) []
          ▹ field_if (t == 9) (times (tclsag mixin) inputs) []
          ▹ field_if (uses_clsags t) (times (clsag mixin) inputs) []
          ▹ field_if (not (t == 9) && not (uses_clsags t))
              (times (mg_sig mixin ((if is_per_input t then 1 else inputs) + 1))
                (if is_per_input t then inputs else 1))
              []
          ▹ field_if (leb 3 t) (times (blob 32) inputs) []))
