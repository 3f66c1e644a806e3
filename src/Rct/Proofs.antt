-- ===== src/Rct/Proofs.antt =====
-- The proofs that a RingCT signature holds (src/ringct/rctTypes.h). Members that the
-- serializer leaves out, since they can be reconstructed, are not modelled: V, I and II.
use mathlib.Core.Path.{refl}
use node_blocktemplate.Prelude.{
  ℕ, ◌≡◌, inl, inr, ◌⊎◌, Bool, true, false, not, ◌&&◌, ◌||◌, List, [], ◌∷◌, ◌++◌, Bytes, leb, ltb,
  ◌==◌, if◌then◌else◌, length, arith, replicate,
}
use node_blocktemplate.Archive.Codec.{Codec}
use node_blocktemplate.Archive.Varint.{varint}
use node_blocktemplate.Archive.Fixed.{uint, blob}
use node_blocktemplate.Archive.Combine.{chain, convert, embed, ◌▹◌, field_if, check, ensure}
use node_blocktemplate.Archive.Many.{vector, string, times}
use node_blocktemplate.Archive.Variant.{variant, alternative, no_alternative}
pub mod Laws

-- `zk_proof`: a commitment and two responses.
pub record ZkProof : Type 0 where
  pub r : Bytes
  pub z1 : Bytes
  pub z2 : Bytes

unfoldable pub zk_proof : Codec ZkProof
zk_proof =
    convert (λ p. record { r = p.0; z1 = p.1.0; z2 = p.1.1 }) (λ t. (t.r, (t.z1, t.z2)))
      (blob 32 ▹ blob 32 ▹ blob 32)

-- `if (L.empty() || L.size() != R.size()) return false;`
abbrev pub sides_match : List Bytes → List Bytes → Bool
sides_match l r = not (length l == 0) && length l == length r

-- `Bulletproof`; `a_commitment` is the member `A`.
pub record Bulletproof : Type 0 where
  pub a_commitment : Bytes
  pub s : Bytes
  pub t1 : Bytes
  pub t2 : Bytes
  pub taux : Bytes
  pub mu : Bytes
  pub l : List Bytes
  pub r : List Bytes
  pub a : Bytes
  pub b : Bytes
  pub t : Bytes

unfoldable pub bulletproof : Codec Bulletproof
bulletproof =
    ensure (λ p. sides_match p.l p.r)
      (convert
        (λ p. record {
          a_commitment = p.0;
          s = p.1.0;
          t1 = p.1.1.0;
          t2 = p.1.1.1.0;
          taux = p.1.1.1.1.0;
          mu = p.1.1.1.1.1.0;
          l = p.1.1.1.1.1.1.0;
          r = p.1.1.1.1.1.1.1.0;
          a = p.1.1.1.1.1.1.1.1.0;
          b = p.1.1.1.1.1.1.1.1.1.0;
          t = p.1.1.1.1.1.1.1.1.1.1;
        })
        (λ t. (
          t.a_commitment,
          (t.s, (t.t1, (t.t2, (t.taux, (t.mu, (t.l, (t.r, (t.a, (t.b, t.t))))))))),
        ))
        (blob 32
          ▹ blob 32
          ▹ blob 32
          ▹ blob 32
          ▹ blob 32
          ▹ blob 32
          ▹ vector (blob 32)
          ▹ vector (blob 32)
          ▹ blob 32
          ▹ blob 32
          ▹ blob 32))

-- `BulletproofPlus`.
pub record BulletproofPlus : Type 0 where
  pub a : Bytes
  pub a1 : Bytes
  pub b : Bytes
  pub r1 : Bytes
  pub s1 : Bytes
  pub d1 : Bytes
  pub l : List Bytes
  pub r : List Bytes

unfoldable pub bulletproof_plus : Codec BulletproofPlus
bulletproof_plus =
    ensure (λ p. sides_match p.l p.r)
      (convert
        (λ p. record {
          a = p.0;
          a1 = p.1.0;
          b = p.1.1.0;
          r1 = p.1.1.1.0;
          s1 = p.1.1.1.1.0;
          d1 = p.1.1.1.1.1.0;
          l = p.1.1.1.1.1.1.0;
          r = p.1.1.1.1.1.1.1;
        })
        (λ t. (t.a, (t.a1, (t.b, (t.r1, (t.s1, (t.d1, (t.l, t.r))))))))
        (blob 32
          ▹ blob 32
          ▹ blob 32
          ▹ blob 32
          ▹ blob 32
          ▹ blob 32
          ▹ vector (blob 32)
          ▹ vector (blob 32)))

-- `rangeSig`; the Borromean signature is a blob of 2 * 64 + 1 keys, `Ci` one of 64 keys.
pub record RangeSig : Type 0 where
  pub asig : Bytes
  pub ci : Bytes

unfoldable pub range_sig : Codec RangeSig
range_sig =
    convert (λ p. record { asig = p.0; ci = p.1 }) (λ t. (t.asig, t.ci)) (blob 4128 ▹ blob 2048)

-- `ecdhTuple`.
pub record EcdhTuple : Type 0 where
  pub mask : Bytes
  pub amount : Bytes

unfoldable pub ecdh_tuple : Codec EcdhTuple
ecdh_tuple =
    convert (λ p. record { mask = p.0; amount = p.1 }) (λ t. (t.mask, t.amount)) (blob 32 ▹ blob 32)
