-- ===== src/Rct/SalviumData.antt =====
-- The proof data of Salvium in a RingCT signature (src/ringct/rctTypes.h).
use mathlib.Core.Path.{refl}
use node_blocktemplate.Prelude.{
  ℕ, ◌≡◌, inl, inr, ◌⊎◌, Bool, true, false, not, ◌&&◌, ◌||◌, List, [], ◌∷◌, ◌++◌, Bytes, leb, ltb,
  ◌==◌, if◌then◌else◌, length, arith, replicate,
}
use node_blocktemplate.Archive.Codec.{Codec}
use node_blocktemplate.Archive.Varint.{varint}
use node_blocktemplate.Archive.Fixed.{uint, blob}
use node_blocktemplate.Archive.Combine.{chain, convert, embed, ◌▹◌, field_if, check, ensure}
use node_blocktemplate.Archive.Many.{vector, string, times}
use node_blocktemplate.Archive.Variant.{variant, alternative, no_alternative}
use node_blocktemplate.Rct.Proofs.{ZkProof, zk_proof}
pub mod Laws

-- `key{}`: a key or hash of zeros.
abbrev pub zeros : ℕ → Bytes
zeros n = replicate n 0

abbrev pub zero_proof : ZkProof
zero_proof = record { r = zeros 32; z1 = zeros 32; z2 = zeros 32 }

-- `salvium_input_data_t`; the stake is there unless the origin is UNSET.
pub record SalviumInputData : Type 0 where
  pub a_r : Bytes
  pub amount : ℕ
  pub i : ℕ
  pub origin_tx_type : ℕ
  pub a_r_stake : Bytes
  pub i_stake : ℕ

unfoldable pub salvium_input_data : Codec SalviumInputData
salvium_input_data =
    convert
      (λ p. record {
        a_r = p.0;
        amount = p.1.0;
        i = p.1.1.0;
        origin_tx_type = p.1.1.1.0;
        a_r_stake = p.1.1.1.1.0;
        i_stake = p.1.1.1.1.1;
      })
      (λ t. (t.a_r, (t.amount, (t.i, (t.origin_tx_type, (t.a_r_stake, t.i_stake))))))
      (blob 32
        ▹ varint 64
        ▹ varint 64
        ▹ chain (varint 8)
            (λ origin. field_if (not (origin == 0)) (blob 32 ▹ uint 8) (zeros 32, 0)))

-- `salvium_data_t`; the audit's part is there for SalviumZeroAudit, 1.
pub record SalviumData : Type 0 where
  pub salvium_data_type : ℕ
  pub pr_proof : ZkProof
  pub sa_proof : ZkProof
  pub cz_proof : ZkProof
  pub input_verification_data : List SalviumInputData
  pub spend_pubkey : Bytes
  pub enc_view_privkey_str : Bytes

unfoldable pub salvium_data : Codec SalviumData
salvium_data =
    convert
      (λ p. record {
        salvium_data_type = p.0;
        pr_proof = p.1.0;
        sa_proof = p.1.1.0;
        cz_proof = p.1.1.1.0;
        input_verification_data = p.1.1.1.1.0;
        spend_pubkey = p.1.1.1.1.1.0;
        enc_view_privkey_str = p.1.1.1.1.1.1;
      })
      (λ t. (
        t.salvium_data_type,
        (
          t.pr_proof,
          (
            t.sa_proof,
            (t.cz_proof, (t.input_verification_data, (t.spend_pubkey, t.enc_view_privkey_str))),
          ),
        ),
      ))
      (chain (varint 8) (λ kind.
        zk_proof
        ▹ zk_proof
        ▹ field_if (kind == 1) (zk_proof ▹ vector salvium_input_data ▹ blob 32 ▹ string)
            (zero_proof, ([], (zeros 32, [])))))

abbrev pub zero_salvium_data : SalviumData
zero_salvium_data = record {
  salvium_data_type = 0;
  pr_proof = zero_proof;
  sa_proof = zero_proof;
  cz_proof = zero_proof;
  input_verification_data = [];
  spend_pubkey = zeros 32;
  enc_view_privkey_str = [];
}
