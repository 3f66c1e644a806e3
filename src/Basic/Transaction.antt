-- ===== src/Basic/Transaction.antt =====
-- `transaction` (src/cryptonote_basic/cryptonote_basic.h): a prefix, and ring signatures or a
-- RingCT signature.
use mathlib.Core.Path.{refl}
use node_blocktemplate.Prelude.{
  ℕ, ◌≡◌, inl, inr, ◌⊎◌, Bool, true, false, not, ◌&&◌, ◌||◌, List, [], ◌∷◌, ◌++◌, Bytes, leb, ltb,
  ◌==◌, if◌then◌else◌, length, arith, replicate,
}
use node_blocktemplate.Archive.Codec.{Codec}
use node_blocktemplate.Archive.Varint.{varint}
use node_blocktemplate.Archive.Fixed.{uint, blob}
use node_blocktemplate.Archive.Combine.{chain, convert, embed, ◌▹◌, field_if, check, ensure}
use node_blocktemplate.Archive.Many.{vector, string, times}
use node_blocktemplate.Archive.Variant.{variant, alternative, no_alternative}
use node_blocktemplate.Prelude.{◌+◌, ◌-◌, ◌%◌, ◌^◌, Option, none, some}
use node_blocktemplate.Config.{blob_type_cryptonote3, blob_type_zephyr, blob_type_salvium}
use node_blocktemplate.Basic.TxIn.{TxinV, TxinZephyrV, TxinSalviumV}
use node_blocktemplate.Basic.PrefixType.{TransactionPrefix, null_prefix}
use node_blocktemplate.Basic.Prefix.{transaction_prefix}
use node_blocktemplate.Rct.SalviumData.{zeros, zero_proof, zero_salvium_data}
use node_blocktemplate.Rct.Base.{RctSigBase, rctsig_base}
use node_blocktemplate.Rct.Prunable.{MaxAmounts, RctSigPrunable, no_prunable, rctsig_prunable}
pub mod Laws

-- What a transaction of a given kind of blob takes for its inputs and outputs.
abbrev pub count_inputs : ℕ → TransactionPrefix → ℕ
count_inputs bt t =
    if bt == blob_type_salvium
    then length t.vin_salvium
    else if bt == blob_type_zephyr
    then length t.vin_zephyr
    else length t.vin

abbrev pub count_outputs : ℕ → TransactionPrefix → ℕ
count_outputs bt t =
    if bt == blob_type_salvium
    then length t.vout_salvium
    else if bt == blob_type_zephyr
    then length t.vout_zephyr
    else length t.vout

-- `key_offsets.size() - 1`, a `size_t`.
abbrev pub ring_mixin : List ℕ → ℕ
ring_mixin offsets = (length offsets + (2 ^ 64 - 1)) % 2 ^ 64

abbrev pub mixin_of : List TxinV → ℕ
mixin_of (TxinV.to_key i ∷ rest) = ring_mixin i.key_offsets
mixin_of other = 0

abbrev pub mixin_of_zephyr : List TxinZephyrV → ℕ
mixin_of_zephyr (TxinZephyrV.zephyr_key i ∷ rest) = ring_mixin i.key_offsets
mixin_of_zephyr other = 0

abbrev pub mixin_of_salvium : List TxinSalviumV → ℕ
mixin_of_salvium (TxinSalviumV.salvium_key i ∷ rest) = ring_mixin i.key_offsets
mixin_of_salvium other = 0

-- Of the first input: one less than its ring, or 0 if it has none.
abbrev pub mixin : ℕ → TransactionPrefix → ℕ
mixin bt t =
    if bt == blob_type_salvium
    then mixin_of_salvium t.vin_salvium
    else if bt == blob_type_zephyr
    then mixin_of_zephyr t.vin_zephyr
    else mixin_of t.vin

-- `get_signature_size`.
abbrev pub get_signature_size : TxinV → ℕ
get_signature_size (TxinV.to_key i) = length i.key_offsets
get_signature_size other = 0

abbrev pub row_cons : List Bytes × List (List Bytes) → List (List Bytes)
row_cons p = p.0 ∷ p.1

abbrev pub row_uncons : List (List Bytes) → List Bytes × List (List Bytes)
row_uncons [] = ([], [])
row_uncons (x ∷ xs) = (x, xs)

abbrev no_rows : List (List Bytes) → Option Bytes
no_rows [] = some []
no_rows (x ∷ xs) = none

-- The loop over the inputs: each has as many signatures as its ring has members.
unfoldable pub signature_rows : List TxinV → Codec (List (List Bytes))
signature_rows [] = record { Fits = λ s. s ≡ []; save = no_rows; load = λ bs. some ([], bs) }
signature_rows (v ∷ vs) =
    embed row_cons row_uncons (times (blob 64) (get_signature_size v) ▹ signature_rows vs)

-- The signatures of a transaction of version 1: none, if no input is to be signed, or a row for
-- each input.
unfoldable pub ring_signatures : List TxinV → Codec (List (List Bytes))
ring_signatures vin = ensure (λ s. length s == 0 || length s == length vin) (signature_rows vin)

-- `rctSig`, the base and the prunable part.
pub record RctSig : Type 0 where
  pub base : RctSigBase
  pub prunable : RctSigPrunable

abbrev pub no_rct : RctSig
no_rct = record {
  base = record {
    rct_type = 0;
    txn_fee = 0;
    ecdh_info = [];
    out_pk = [];
    p_r = zeros 32;
    salvium_data = zero_salvium_data;
    pr_proof = zero_proof;
    sa_proof = zero_proof;
  };
  prunable = no_prunable;
}

unfoldable pub rct_signatures : MaxAmounts → ℕ → ℕ → ℕ → Codec RctSig
rct_signatures n inputs outputs mixed =
    convert (λ p. record { base = p.0; prunable = p.1 }) (λ s. (s.base, s.prunable))
      (chain (rctsig_base outputs) (λ base.
        field_if (not (base.rct_type == 0)) (rctsig_prunable n base.rct_type inputs outputs mixed)
          no_prunable))

-- `transaction`.
pub record Transaction : Type 0 where
  pub prefix : TransactionPrefix
  pub signatures : List (List Bytes)
  pub rct_signatures : RctSig

abbrev pub null_transaction : Transaction
null_transaction = record { prefix = null_prefix; signatures = []; rct_signatures = no_rct }

-- `version == 1 && blob_type != BLOB_TYPE_CRYPTONOTE3`
abbrev pub is_signed : ℕ → TransactionPrefix → Bool
is_signed bt t = t.version == 1 && not (bt == blob_type_cryptonote3)

unfoldable pub transaction : MaxAmounts → ℕ → Codec Transaction
transaction n bt =
    convert (λ p. record { prefix = p.0; signatures = p.1.0; rct_signatures = p.1.1 })
      (λ t. (t.prefix, (t.signatures, t.rct_signatures)))
      (chain (transaction_prefix bt) (λ t.
        field_if (is_signed bt t) (ring_signatures t.vin) []
        ▹ field_if (not (is_signed bt t) && not (count_inputs bt t == 0))
            (rct_signatures n (count_inputs bt t) (count_outputs bt t) (mixin bt t)) no_rct))
