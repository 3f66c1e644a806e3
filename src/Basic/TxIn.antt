-- ===== src/Basic/TxIn.antt =====
-- Transaction inputs (src/cryptonote_basic/cryptonote_basic.h).
use mathlib.Core.Path.{refl}
use node_blocktemplate.Prelude.{
  ℕ, ◌≡◌, inl, inr, ◌⊎◌, Bool, true, false, not, ◌&&◌, ◌||◌, List, [], ◌∷◌, ◌++◌, Bytes, leb, ltb,
  ◌==◌, if◌then◌else◌, length, arith, replicate,
}
use node_blocktemplate.Archive.Codec.{Codec}
use node_blocktemplate.Archive.Varint.{varint}
use node_blocktemplate.Archive.Fixed.{uint, blob}
use node_blocktemplate.Archive.Combine.{chain, convert, embed, ◌▹◌, field_if, check, ensure}
use node_blocktemplate.Archive.Many.{vector, string, times}
use node_blocktemplate.Archive.Variant.{variant, alternative, no_alternative}
use node_blocktemplate.Basic.TxOut.{TxoutToScript, txout_to_script}
pub mod Laws

-- The input of a coinbase transaction.
pub record TxinGen : Type 0 where
  pub height : ℕ

unfoldable pub txin_gen : Codec TxinGen
txin_gen = convert (λ p. record { height = p }) (λ t. t.height) (varint 64)

-- An input from a script.
pub record TxinToScript : Type 0 where
  pub prev : Bytes
  pub prevout : ℕ
  pub sigset : List ℕ

unfoldable pub txin_to_script : Codec TxinToScript
txin_to_script =
    convert (λ p. record { prev = p.0; prevout = p.1.0; sigset = p.1.1 })
      (λ t. (t.prev, (t.prevout, t.sigset))) (blob 32 ▹ varint 64 ▹ vector (uint 1))

-- An input from the hash of a script.
pub record TxinToScripthash : Type 0 where
  pub prev : Bytes
  pub prevout : ℕ
  pub script : TxoutToScript
  pub sigset : List ℕ

unfoldable pub txin_to_scripthash : Codec TxinToScripthash
txin_to_scripthash =
    convert (λ p. record { prev = p.0; prevout = p.1.0; script = p.1.1.0; sigset = p.1.1.1 })
      (λ t. (t.prev, (t.prevout, (t.script, t.sigset))))
      (blob 32 ▹ varint 64 ▹ txout_to_script ▹ vector (uint 1))

-- An input from a ring of keys. The offsets are varints.
pub record TxinToKey : Type 0 where
  pub amount : ℕ
  pub key_offsets : List ℕ
  pub k_image : Bytes

unfoldable pub txin_to_key : Codec TxinToKey
txin_to_key =
    convert (λ p. record { amount = p.0; key_offsets = p.1.0; k_image = p.1.1 })
      (λ t. (t.amount, (t.key_offsets, t.k_image))) (varint 64 ▹ vector (varint 64) ▹ blob 32)

-- Zephyr.
pub record TxinZephyrKey : Type 0 where
  pub amount : ℕ
  pub asset_type : Bytes
  pub key_offsets : List ℕ
  pub k_image : Bytes

unfoldable pub txin_zephyr_key : Codec TxinZephyrKey
txin_zephyr_key =
    convert
      (λ p. record { amount = p.0; asset_type = p.1.0; key_offsets = p.1.1.0; k_image = p.1.1.1 })
      (λ t. (t.amount, (t.asset_type, (t.key_offsets, t.k_image))))
      (varint 64 ▹ string ▹ vector (varint 64) ▹ blob 32)

-- Salvium.
pub record TxinSalviumKey : Type 0 where
  pub amount : ℕ
  pub asset_type : Bytes
  pub key_offsets : List ℕ
  pub k_image : Bytes

unfoldable pub txin_salvium_key : Codec TxinSalviumKey
txin_salvium_key =
    convert
      (λ p. record { amount = p.0; asset_type = p.1.0; key_offsets = p.1.1.0; k_image = p.1.1.1 })
      (λ t. (t.amount, (t.asset_type, (t.key_offsets, t.k_image))))
      (varint 64 ▹ string ▹ vector (varint 64) ▹ blob 32)

-- The inputs that a transaction may hold.
pub data TxinV : Type 0 where
  gen : TxinGen → TxinV
  to_script : TxinToScript → TxinV
  to_scripthash : TxinToScripthash → TxinV
  to_key : TxinToKey → TxinV

abbrev pub txin_v_of : TxinGen ⊎ (TxinToScript ⊎ (TxinToScripthash ⊎ (TxinToKey ⊎ ⊥))) → TxinV
txin_v_of (inl x) = TxinV.gen x
txin_v_of (inr (inl x)) = TxinV.to_script x
txin_v_of (inr (inr (inl x))) = TxinV.to_scripthash x
txin_v_of (inr (inr (inr (inl x)))) = TxinV.to_key x
txin_v_of (inr (inr (inr (inr x)))) = absurd x

abbrev pub txin_v_alternative :
    TxinV → TxinGen ⊎ (TxinToScript ⊎ (TxinToScripthash ⊎ (TxinToKey ⊎ ⊥)))
txin_v_alternative (TxinV.gen x) = inl x
txin_v_alternative (TxinV.to_script x) = inr (inl x)
txin_v_alternative (TxinV.to_scripthash x) = inr (inr (inl x))
txin_v_alternative (TxinV.to_key x) = inr (inr (inr (inl x)))

unfoldable pub txin_v : Codec TxinV
txin_v = convert txin_v_of txin_v_alternative (
    variant (
      alternative 0xff txin_gen (
        alternative 0x0 txin_to_script
          (alternative 0x1 txin_to_scripthash (alternative 0x2 txin_to_key no_alternative)))))

-- The same with the keyed input of Zephyr.
pub data TxinZephyrV : Type 0 where
  gen : TxinGen → TxinZephyrV
  to_script : TxinToScript → TxinZephyrV
  to_scripthash : TxinToScripthash → TxinZephyrV
  zephyr_key : TxinZephyrKey → TxinZephyrV

abbrev pub txin_zephyr_v_of :
    TxinGen ⊎ (TxinToScript ⊎ (TxinToScripthash ⊎ (TxinZephyrKey ⊎ ⊥))) → TxinZephyrV
txin_zephyr_v_of (inl x) = TxinZephyrV.gen x
txin_zephyr_v_of (inr (inl x)) = TxinZephyrV.to_script x
txin_zephyr_v_of (inr (inr (inl x))) = TxinZephyrV.to_scripthash x
txin_zephyr_v_of (inr (inr (inr (inl x)))) = TxinZephyrV.zephyr_key x
txin_zephyr_v_of (inr (inr (inr (inr x)))) = absurd x

abbrev pub txin_zephyr_v_alternative :
    TxinZephyrV → TxinGen ⊎ (TxinToScript ⊎ (TxinToScripthash ⊎ (TxinZephyrKey ⊎ ⊥)))
txin_zephyr_v_alternative (TxinZephyrV.gen x) = inl x
txin_zephyr_v_alternative (TxinZephyrV.to_script x) = inr (inl x)
txin_zephyr_v_alternative (TxinZephyrV.to_scripthash x) = inr (inr (inl x))
txin_zephyr_v_alternative (TxinZephyrV.zephyr_key x) = inr (inr (inr (inl x)))

unfoldable pub txin_zephyr_v : Codec TxinZephyrV
txin_zephyr_v = convert txin_zephyr_v_of txin_zephyr_v_alternative (
    variant (
      alternative 0xff txin_gen (
        alternative 0x0 txin_to_script
          (alternative 0x1 txin_to_scripthash (alternative 0x2 txin_zephyr_key no_alternative)))))

-- The same with the keyed input of Salvium.
pub data TxinSalviumV : Type 0 where
  gen : TxinGen → TxinSalviumV
  to_script : TxinToScript → TxinSalviumV
  to_scripthash : TxinToScripthash → TxinSalviumV
  salvium_key : TxinSalviumKey → TxinSalviumV

abbrev pub txin_salvium_v_of :
    TxinGen ⊎ (TxinToScript ⊎ (TxinToScripthash ⊎ (TxinSalviumKey ⊎ ⊥))) → TxinSalviumV
txin_salvium_v_of (inl x) = TxinSalviumV.gen x
txin_salvium_v_of (inr (inl x)) = TxinSalviumV.to_script x
txin_salvium_v_of (inr (inr (inl x))) = TxinSalviumV.to_scripthash x
txin_salvium_v_of (inr (inr (inr (inl x)))) = TxinSalviumV.salvium_key x
txin_salvium_v_of (inr (inr (inr (inr x)))) = absurd x

abbrev pub txin_salvium_v_alternative :
    TxinSalviumV → TxinGen ⊎ (TxinToScript ⊎ (TxinToScripthash ⊎ (TxinSalviumKey ⊎ ⊥)))
txin_salvium_v_alternative (TxinSalviumV.gen x) = inl x
txin_salvium_v_alternative (TxinSalviumV.to_script x) = inr (inl x)
txin_salvium_v_alternative (TxinSalviumV.to_scripthash x) = inr (inr (inl x))
txin_salvium_v_alternative (TxinSalviumV.salvium_key x) = inr (inr (inr (inl x)))

unfoldable pub txin_salvium_v : Codec TxinSalviumV
txin_salvium_v = convert txin_salvium_v_of txin_salvium_v_alternative (
    variant (
      alternative 0xff txin_gen (
        alternative 0x0 txin_to_script
          (alternative 0x1 txin_to_scripthash (alternative 0x2 txin_salvium_key no_alternative)))))
