-- ===== src/Basic/TxOut.antt =====
-- Transaction outputs (src/cryptonote_basic/cryptonote_basic.h).
use mathlib.Core.Path.{refl}
use node_blocktemplate.Prelude.{
  ℕ, ◌≡◌, inl, inr, ◌⊎◌, Bool, true, false, not, ◌&&◌, ◌||◌, List, [], ◌∷◌, ◌++◌, Bytes, leb, ltb,
  ◌==◌, if◌then◌else◌, length, arith, replicate,
}
use node_blocktemplate.Archive.Codec.{Codec}
use node_blocktemplate.Archive.Varint.{varint}
use node_blocktemplate.Archive.Fixed.{uint, blob}
use node_blocktemplate.Archive.Combine.{chain, convert, embed, ◌▹◌, field_if, check, ensure}
use node_blocktemplate.Archive.Many.{vector, string, times}
use node_blocktemplate.Archive.Variant.{variant, alternative, no_alternative}
pub mod Laws

-- A script over keys.
pub record TxoutToScript : Type 0 where
  pub keys : List Bytes
  pub script : List ℕ

unfoldable pub txout_to_script : Codec TxoutToScript
txout_to_script =
    convert (λ p. record { keys = p.0; script = p.1 }) (λ t. (t.keys, t.script))
      (vector (blob 32) ▹ vector (uint 1))

-- A key with a view tag of one byte.
pub record TxoutToTaggedKey : Type 0 where
  pub key : Bytes
  pub view_tag : Bytes

unfoldable pub txout_to_tagged_key : Codec TxoutToTaggedKey
txout_to_tagged_key =
    convert (λ p. record { key = p.0; view_tag = p.1 }) (λ t. (t.key, t.view_tag))
      (blob 32 ▹ blob 1)

-- Zephyr.
pub record TxoutZephyrTaggedKey : Type 0 where
  pub key : Bytes
  pub asset_type : Bytes
  pub view_tag : Bytes

unfoldable pub txout_zephyr_tagged_key : Codec TxoutZephyrTaggedKey
txout_zephyr_tagged_key =
    convert (λ p. record { key = p.0; asset_type = p.1.0; view_tag = p.1.1 })
      (λ t. (t.key, (t.asset_type, t.view_tag))) (blob 32 ▹ string ▹ blob 1)

-- Salvium.
pub record TxoutSalviumKey : Type 0 where
  pub key : Bytes
  pub asset_type : Bytes
  pub unlock_time : ℕ

unfoldable pub txout_salvium_key : Codec TxoutSalviumKey
txout_salvium_key =
    convert (λ p. record { key = p.0; asset_type = p.1.0; unlock_time = p.1.1 })
      (λ t. (t.key, (t.asset_type, t.unlock_time))) (blob 32 ▹ string ▹ varint 64)

-- Salvium, with a view tag.
pub record TxoutSalviumTaggedKey : Type 0 where
  pub key : Bytes
  pub asset_type : Bytes
  pub unlock_time : ℕ
  pub view_tag : Bytes

unfoldable pub txout_salvium_tagged_key : Codec TxoutSalviumTaggedKey
txout_salvium_tagged_key =
    convert
      (λ p. record { key = p.0; asset_type = p.1.0; unlock_time = p.1.1.0; view_tag = p.1.1.1 })
      (λ t. (t.key, (t.asset_type, (t.unlock_time, t.view_tag))))
      (blob 32 ▹ string ▹ varint 64 ▹ blob 1)

-- Carrot: a view tag of three bytes and an anchor of sixteen.
pub record TxoutToCarrotV1 : Type 0 where
  pub key : Bytes
  pub asset_type : Bytes
  pub view_tag : Bytes
  pub encrypted_janus_anchor : Bytes

unfoldable pub txout_to_carrot_v1 : Codec TxoutToCarrotV1
txout_to_carrot_v1 =
    convert
      (λ p. record {
        key = p.0;
        asset_type = p.1.0;
        view_tag = p.1.1.0;
        encrypted_janus_anchor = p.1.1.1;
      })
      (λ t. (t.key, (t.asset_type, (t.view_tag, t.encrypted_janus_anchor))))
      (blob 32 ▹ string ▹ blob 3 ▹ blob 16)

-- `txout_to_scripthash` and `txout_to_key` are blobs of one hash and one key.
pub data TxoutTargetV : Type 0 where
  to_script : TxoutToScript → TxoutTargetV
  to_scripthash : Bytes → TxoutTargetV
  to_key : Bytes → TxoutTargetV
  to_tagged_key : TxoutToTaggedKey → TxoutTargetV

abbrev pub txout_target_v_of :
    TxoutToScript ⊎ (Bytes ⊎ (Bytes ⊎ (TxoutToTaggedKey ⊎ ⊥))) → TxoutTargetV
txout_target_v_of (inl x) = TxoutTargetV.to_script x
txout_target_v_of (inr (inl x)) = TxoutTargetV.to_scripthash x
txout_target_v_of (inr (inr (inl x))) = TxoutTargetV.to_key x
txout_target_v_of (inr (inr (inr (inl x)))) = TxoutTargetV.to_tagged_key x
txout_target_v_of (inr (inr (inr (inr x)))) = absurd x

abbrev pub txout_target_v_alternative :
    TxoutTargetV → TxoutToScript ⊎ (Bytes ⊎ (Bytes ⊎ (TxoutToTaggedKey ⊎ ⊥)))
txout_target_v_alternative (TxoutTargetV.to_script x) = inl x
txout_target_v_alternative (TxoutTargetV.to_scripthash x) = inr (inl x)
txout_target_v_alternative (TxoutTargetV.to_key x) = inr (inr (inl x))
txout_target_v_alternative (TxoutTargetV.to_tagged_key x) = inr (inr (inr (inl x)))

unfoldable pub txout_target_v : Codec TxoutTargetV
txout_target_v = convert txout_target_v_of txout_target_v_alternative (
    variant (
      alternative 0x0 txout_to_script (
        alternative 0x1 (blob 32)
          (alternative 0x2 (blob 32) (alternative 0x3 txout_to_tagged_key no_alternative)))))

-- The targets of Zephyr.
pub data TxoutStableroTargetV : Type 0 where
  to_script : TxoutToScript → TxoutStableroTargetV
  to_scripthash : Bytes → TxoutStableroTargetV
  tagged_key : TxoutZephyrTaggedKey → TxoutStableroTargetV

abbrev pub txout_stablero_target_v_of :
    TxoutToScript ⊎ (Bytes ⊎ (TxoutZephyrTaggedKey ⊎ ⊥)) → TxoutStableroTargetV
txout_stablero_target_v_of (inl x) = TxoutStableroTargetV.to_script x
txout_stablero_target_v_of (inr (inl x)) = TxoutStableroTargetV.to_scripthash x
txout_stablero_target_v_of (inr (inr (inl x))) = TxoutStableroTargetV.tagged_key x
txout_stablero_target_v_of (inr (inr (inr x))) = absurd x

abbrev pub txout_stablero_target_v_alternative :
    TxoutStableroTargetV → TxoutToScript ⊎ (Bytes ⊎ (TxoutZephyrTaggedKey ⊎ ⊥))
txout_stablero_target_v_alternative (TxoutStableroTargetV.to_script x) = inl x
txout_stablero_target_v_alternative (TxoutStableroTargetV.to_scripthash x) = inr (inl x)
txout_stablero_target_v_alternative (TxoutStableroTargetV.tagged_key x) = inr (inr (inl x))

unfoldable pub txout_stablero_target_v : Codec TxoutStableroTargetV
txout_stablero_target_v = convert txout_stablero_target_v_of txout_stablero_target_v_alternative (
    variant (
      alternative 0x0 txout_to_script
        (alternative 0x1 (blob 32) (alternative 0x2 txout_zephyr_tagged_key no_alternative))))

-- The targets of Salvium.
pub data TxoutCarrotTargetV : Type 0 where
  to_script : TxoutToScript → TxoutCarrotTargetV
  to_scripthash : Bytes → TxoutCarrotTargetV
  salvium_key : TxoutSalviumKey → TxoutCarrotTargetV
  salvium_tagged_key : TxoutSalviumTaggedKey → TxoutCarrotTargetV
  to_carrot_v1 : TxoutToCarrotV1 → TxoutCarrotTargetV

abbrev pub txout_carrot_target_v_of :
    TxoutToScript ⊎ (Bytes ⊎ (TxoutSalviumKey ⊎ (TxoutSalviumTaggedKey ⊎ (TxoutToCarrotV1 ⊎ ⊥))))
    → TxoutCarrotTargetV
txout_carrot_target_v_of (inl x) = TxoutCarrotTargetV.to_script x
txout_carrot_target_v_of (inr (inl x)) = TxoutCarrotTargetV.to_scripthash x
txout_carrot_target_v_of (inr (inr (inl x))) = TxoutCarrotTargetV.salvium_key x
txout_carrot_target_v_of (inr (inr (inr (inl x)))) = TxoutCarrotTargetV.salvium_tagged_key x
txout_carrot_target_v_of (inr (inr (inr (inr (inl x))))) = TxoutCarrotTargetV.to_carrot_v1 x
txout_carrot_target_v_of (inr (inr (inr (inr (inr x))))) = absurd x

abbrev pub txout_carrot_target_v_alternative :
    TxoutCarrotTargetV
    → TxoutToScript ⊎ (Bytes ⊎ (TxoutSalviumKey ⊎ (TxoutSalviumTaggedKey ⊎ (TxoutToCarrotV1 ⊎ ⊥))))
txout_carrot_target_v_alternative (TxoutCarrotTargetV.to_script x) = inl x
txout_carrot_target_v_alternative (TxoutCarrotTargetV.to_scripthash x) = inr (inl x)
txout_carrot_target_v_alternative (TxoutCarrotTargetV.salvium_key x) = inr (inr (inl x))
txout_carrot_target_v_alternative (TxoutCarrotTargetV.salvium_tagged_key x) =
    inr (inr (inr (inl x)))
txout_carrot_target_v_alternative (TxoutCarrotTargetV.to_carrot_v1 x) =
    inr (inr (inr (inr (inl x))))

unfoldable pub txout_carrot_target_v : Codec TxoutCarrotTargetV
txout_carrot_target_v = convert txout_carrot_target_v_of txout_carrot_target_v_alternative (
    variant (
      alternative 0x0 txout_to_script (
        alternative 0x1 (blob 32) (
          alternative 0x2 txout_salvium_key (
            alternative 0x3 txout_salvium_tagged_key
              (alternative 0x4 txout_to_carrot_v1 no_alternative))))))

-- An output.
pub record TxOut : Type 0 where
  pub amount : ℕ
  pub target : TxoutTargetV

unfoldable pub tx_out : Codec TxOut
tx_out =
    convert (λ p. record { amount = p.0; target = p.1 }) (λ t. (t.amount, t.target))
      (varint 64 ▹ txout_target_v)

-- An output of Zephyr.
pub record TxOutZephyr : Type 0 where
  pub amount : ℕ
  pub target : TxoutStableroTargetV

unfoldable pub tx_out_zephyr : Codec TxOutZephyr
tx_out_zephyr =
    convert (λ p. record { amount = p.0; target = p.1 }) (λ t. (t.amount, t.target))
      (varint 64 ▹ txout_stablero_target_v)

-- An output of Salvium.
pub record TxOutSalvium : Type 0 where
  pub amount : ℕ
  pub target : TxoutCarrotTargetV

unfoldable pub tx_out_salvium : Codec TxOutSalvium
tx_out_salvium =
    convert (λ p. record { amount = p.0; target = p.1 }) (λ t. (t.amount, t.target))
      (varint 64 ▹ txout_carrot_target_v)
