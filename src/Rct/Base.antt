-- ===== src/Rct/Base.antt =====
-- `rctSigBase` and `serialize_rctsig_base` (src/ringct/rctTypes.h). `message` and `mixRing` are
-- never on the wire, and are left out.
use mathlib.Core.Path.{refl}
use node_blocktemplate.Prelude.{
  ℕ, ◌≡◌, inl, inr, ◌⊎◌, Bool, true, false, not, ◌&&◌, ◌||◌, List, [], ◌∷◌, ◌++◌, Bytes, leb, ltb,
  ◌==◌, if◌then◌else◌, length, arith, replicate,
}
use node_blocktemplate.Archive.Codec.{Codec}
use node_blocktemplate.Archive.Varint.{varint}
use node_blocktemplate.Archive.Fixed.{uint, blob}
use node_blocktemplate.Archive.Combine.{chain, convert, embed, ◌▹◌, field_if, check, ensure}
use node_blocktemplate.Archive.Many.{vector, string, times}
use node_blocktemplate.Archive.Variant.{variant, alternative, no_alternative}
use node_blocktemplate.Prelude.{take}
use node_blocktemplate.Rct.Proofs.{ZkProof, zk_proof, EcdhTuple, ecdh_tuple}
use node_blocktemplate.Rct.SalviumData.{
  zeros, zero_proof, SalviumData, salvium_data, zero_salvium_data,
}
pub mod Laws

-- The RCTType numbers.
abbrev pub rct_type_null : ℕ
rct_type_null = 0

abbrev pub is_known_rct_type : ℕ → Bool
is_known_rct_type t = not (t == 0) && leb t 9

-- RCTTypeBulletproof2 and later, whose `ecdhInfo` is the first 8 bytes of the amount.
abbrev pub is_compact : ℕ → Bool
is_compact t = leb 4 t && leb t 9

abbrev pub is_salvium_rct : ℕ → Bool
is_salvium_rct t = t == 8 || t == 9

-- The commitment of a `ctkey`; `dest` is not on the wire.
pub record Ctkey : Type 0 where
  pub dest : Bytes
  pub mask : Bytes

unfoldable pub ctkey_mask : Codec Ctkey
ctkey_mask = embed (λ m. record { dest = zeros 32; mask = m }) (λ k. k.mask) (blob 32)

-- `memset(ecdhInfo[i].amount.bytes, 0, ...)`, and FIELD of the first 8 bytes.
unfoldable pub compact_ecdh : Codec EcdhTuple
compact_ecdh =
    embed (λ a. record { mask = zeros 32; amount = a ++ zeros 24 }) (λ e. take 8 e.amount) (blob 8)

-- The members of `rctSigBase` that are on the wire.
pub record RctSigBase : Type 0 where
  pub rct_type : ℕ
  pub txn_fee : ℕ
  pub ecdh_info : List EcdhTuple
  pub out_pk : List Ctkey
  pub p_r : Bytes
  pub salvium_data : SalviumData
  pub pr_proof : ZkProof
  pub sa_proof : ZkProof

abbrev RctBaseWire : Type 0
RctBaseWire =
    ℕ × (ℕ × (List EcdhTuple × (List Ctkey × (Bytes × (SalviumData × (ZkProof × ZkProof))))))

abbrev pub rct_base_of : RctBaseWire → RctSigBase
rct_base_of (t, (fee, (ecdh, (pk, (p, (data', (pr, sa))))))) = record {
  rct_type = t;
  txn_fee = fee;
  ecdh_info = ecdh;
  out_pk = pk;
  p_r = p;
  salvium_data = data';
  pr_proof = pr;
  sa_proof = sa;
}

abbrev pub rct_base_wire : RctSigBase → RctBaseWire
rct_base_wire s = (
  s.rct_type,
  (s.txn_fee, (s.ecdh_info, (s.out_pk, (s.p_r, (s.salvium_data, (s.pr_proof, s.sa_proof)))))),
)

-- `serialize_rctsig_base`; the number of inputs is not used.
unfoldable pub rctsig_base : ℕ → Codec RctSigBase
rctsig_base outputs = convert rct_base_of rct_base_wire (
    chain (uint 1) (λ t.
      field_if (not (t == rct_type_null))
        (check (is_known_rct_type t) (
          varint 64
          ▹ times (if is_compact t then compact_ecdh else ecdh_tuple) outputs
          ▹ times ctkey_mask outputs
          ▹ blob 32
          ▹ field_if (is_salvium_rct t) salvium_data zero_salvium_data
          ▹ field_if (t == 7) (zk_proof ▹ zk_proof) (zero_proof, zero_proof)))
        (0, ([], ([], (zeros 32, (zero_salvium_data, (zero_proof, zero_proof))))))))
