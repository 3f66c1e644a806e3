-- ===== src/Rct/Proofs/Laws.antt =====
-- The proofs lose nothing on the wire.
use mathlib.Core.Path.{refl}
use node_blocktemplate.Archive.Codec.{IsLossless, IsNonempty}
use node_blocktemplate.Archive.Fixed.Laws.{blob-IsLossless, blob-IsNonempty}
use node_blocktemplate.Archive.Combine.Laws.{
  chain-IsNonempty, convert-IsLossless, convert-IsNonempty, ensure-IsLossless, ensure-IsNonempty,
  ◌⊳◌,
}
use node_blocktemplate.Archive.Many.Laws.{vector-IsLossless}
use node_blocktemplate.Rct.Proofs.{zk_proof, bulletproof, bulletproof_plus, range_sig, ecdh_tuple}

pub zk_proof-IsLossless : IsLossless zk_proof
unfolding zk_proof
zk_proof-IsLossless =
    convert-IsLossless _ _ _ (λ b. refl) (λ a. refl)
      (blob-IsLossless 32 ⊳ blob-IsLossless 32 ⊳ blob-IsLossless 32)

pub zk_proof-IsNonempty : IsNonempty zk_proof
unfolding zk_proof
zk_proof-IsNonempty = convert-IsNonempty _ _ _ (chain-IsNonempty _ _ (blob-IsNonempty 31))

pub bulletproof-IsLossless : IsLossless bulletproof
unfolding bulletproof
bulletproof-IsLossless = ensure-IsLossless _ _ (
    convert-IsLossless _ _ _ (λ b. refl) (λ a. refl)
      (blob-IsLossless 32
        ⊳ blob-IsLossless 32
        ⊳ blob-IsLossless 32
        ⊳ blob-IsLossless 32
        ⊳ blob-IsLossless 32
        ⊳ blob-IsLossless 32
        ⊳ vector-IsLossless _ (blob-IsNonempty 31) (blob-IsLossless 32)
        ⊳ vector-IsLossless _ (blob-IsNonempty 31) (blob-IsLossless 32)
        ⊳ blob-IsLossless 32
        ⊳ blob-IsLossless 32
        ⊳ blob-IsLossless 32))

pub bulletproof-IsNonempty : IsNonempty bulletproof
unfolding bulletproof
bulletproof-IsNonempty =
    ensure-IsNonempty _ _ (convert-IsNonempty _ _ _ (chain-IsNonempty _ _ (blob-IsNonempty 31)))

pub bulletproof_plus-IsLossless : IsLossless bulletproof_plus
unfolding bulletproof_plus
bulletproof_plus-IsLossless = ensure-IsLossless _ _ (
    convert-IsLossless _ _ _ (λ b. refl) (λ a. refl)
      (blob-IsLossless 32
        ⊳ blob-IsLossless 32
        ⊳ blob-IsLossless 32
        ⊳ blob-IsLossless 32
        ⊳ blob-IsLossless 32
        ⊳ blob-IsLossless 32
        ⊳ vector-IsLossless _ (blob-IsNonempty 31) (blob-IsLossless 32)
        ⊳ vector-IsLossless _ (blob-IsNonempty 31) (blob-IsLossless 32)))

pub bulletproof_plus-IsNonempty : IsNonempty bulletproof_plus
unfolding bulletproof_plus
bulletproof_plus-IsNonempty =
    ensure-IsNonempty _ _ (convert-IsNonempty _ _ _ (chain-IsNonempty _ _ (blob-IsNonempty 31)))

pub range_sig-IsLossless : IsLossless range_sig
unfolding range_sig
range_sig-IsLossless =
    convert-IsLossless _ _ _ (λ b. refl) (λ a. refl) (blob-IsLossless 4128 ⊳ blob-IsLossless 2048)

pub range_sig-IsNonempty : IsNonempty range_sig
unfolding range_sig
range_sig-IsNonempty = convert-IsNonempty _ _ _ (chain-IsNonempty _ _ (blob-IsNonempty 4127))

pub ecdh_tuple-IsLossless : IsLossless ecdh_tuple
unfolding ecdh_tuple
ecdh_tuple-IsLossless =
    convert-IsLossless _ _ _ (λ b. refl) (λ a. refl) (blob-IsLossless 32 ⊳ blob-IsLossless 32)

pub ecdh_tuple-IsNonempty : IsNonempty ecdh_tuple
unfolding ecdh_tuple
ecdh_tuple-IsNonempty = convert-IsNonempty _ _ _ (chain-IsNonempty _ _ (blob-IsNonempty 31))
