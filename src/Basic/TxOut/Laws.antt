-- ===== src/Basic/TxOut/Laws.antt =====
-- Outputs lose nothing on the wire.
use mathlib.Core.Path.{refl}
use node_blocktemplate.Prelude.{◌≡◌, inl, inr, ◌⊎◌, Bytes, arith}
use node_blocktemplate.Archive.Variant.{alternative, no_alternative}
use node_blocktemplate.Archive.Codec.{IsLossless, IsNonempty}
use node_blocktemplate.Archive.Varint.Laws.{varint-IsLossless, varint-IsNonempty}
use node_blocktemplate.Archive.Fixed.Laws.{
  uint-IsLossless, uint-IsNonempty, blob-IsLossless, blob-IsNonempty,
}
use node_blocktemplate.Archive.Combine.Laws.{
  chain-IsNonempty, convert-IsLossless, convert-IsNonempty, ◌⊳◌,
}
use node_blocktemplate.Archive.Many.Laws.{vector-IsLossless, string-IsLossless}
use node_blocktemplate.Archive.Variant.Laws.{
  variant-IsLossless, variant-IsNonempty, alternative-Told, no_alternative-Told,
}
use node_blocktemplate.Basic.TxOut.{
  TxoutToScript, txout_to_script, TxoutToTaggedKey, txout_to_tagged_key, TxoutZephyrTaggedKey,
  txout_zephyr_tagged_key, TxoutSalviumKey, txout_salvium_key, TxoutSalviumTaggedKey,
  txout_salvium_tagged_key, TxoutToCarrotV1, txout_to_carrot_v1, TxoutTargetV, txout_target_v,
  txout_target_v_of, txout_target_v_alternative, TxoutStableroTargetV, txout_stablero_target_v,
  txout_stablero_target_v_of, txout_stablero_target_v_alternative, TxoutCarrotTargetV,
  txout_carrot_target_v, txout_carrot_target_v_of, txout_carrot_target_v_alternative, tx_out,
  tx_out_zephyr, tx_out_salvium,
}

pub txout_to_script-IsLossless : IsLossless txout_to_script
unfolding txout_to_script
txout_to_script-IsLossless =
    convert-IsLossless _ _ _ (λ b. refl) (λ a. refl)
      (vector-IsLossless _ (blob-IsNonempty 31) (blob-IsLossless 32)
        ⊳ vector-IsLossless _ (uint-IsNonempty 0) (uint-IsLossless 1))

pub txout_to_tagged_key-IsLossless : IsLossless txout_to_tagged_key
unfolding txout_to_tagged_key
txout_to_tagged_key-IsLossless =
    convert-IsLossless _ _ _ (λ b. refl) (λ a. refl) (blob-IsLossless 32 ⊳ blob-IsLossless 1)

pub txout_to_tagged_key-IsNonempty : IsNonempty txout_to_tagged_key
unfolding txout_to_tagged_key
txout_to_tagged_key-IsNonempty =
    convert-IsNonempty _ _ _ (chain-IsNonempty _ _ (blob-IsNonempty 31))

pub txout_zephyr_tagged_key-IsLossless : IsLossless txout_zephyr_tagged_key
unfolding txout_zephyr_tagged_key
txout_zephyr_tagged_key-IsLossless =
    convert-IsLossless _ _ _ (λ b. refl) (λ a. refl)
      (blob-IsLossless 32 ⊳ string-IsLossless ⊳ blob-IsLossless 1)

pub txout_zephyr_tagged_key-IsNonempty : IsNonempty txout_zephyr_tagged_key
unfolding txout_zephyr_tagged_key
txout_zephyr_tagged_key-IsNonempty =
    convert-IsNonempty _ _ _ (chain-IsNonempty _ _ (blob-IsNonempty 31))

pub txout_salvium_key-IsLossless : IsLossless txout_salvium_key
unfolding txout_salvium_key
txout_salvium_key-IsLossless =
    convert-IsLossless _ _ _ (λ b. refl) (λ a. refl)
      (blob-IsLossless 32 ⊳ string-IsLossless ⊳ varint-IsLossless 64)

pub txout_salvium_key-IsNonempty : IsNonempty txout_salvium_key
unfolding txout_salvium_key
txout_salvium_key-IsNonempty = convert-IsNonempty _ _ _ (chain-IsNonempty _ _ (blob-IsNonempty 31))

pub txout_salvium_tagged_key-IsLossless : IsLossless txout_salvium_tagged_key
unfolding txout_salvium_tagged_key
txout_salvium_tagged_key-IsLossless =
    convert-IsLossless _ _ _ (λ b. refl) (λ a. refl)
      (blob-IsLossless 32 ⊳ string-IsLossless ⊳ varint-IsLossless 64 ⊳ blob-IsLossless 1)

pub txout_salvium_tagged_key-IsNonempty : IsNonempty txout_salvium_tagged_key
unfolding txout_salvium_tagged_key
txout_salvium_tagged_key-IsNonempty =
    convert-IsNonempty _ _ _ (chain-IsNonempty _ _ (blob-IsNonempty 31))

pub txout_to_carrot_v1-IsLossless : IsLossless txout_to_carrot_v1
unfolding txout_to_carrot_v1
txout_to_carrot_v1-IsLossless =
    convert-IsLossless _ _ _ (λ b. refl) (λ a. refl)
      (blob-IsLossless 32 ⊳ string-IsLossless ⊳ blob-IsLossless 3 ⊳ blob-IsLossless 16)

pub txout_to_carrot_v1-IsNonempty : IsNonempty txout_to_carrot_v1
unfolding txout_to_carrot_v1
txout_to_carrot_v1-IsNonempty = convert-IsNonempty _ _ _ (chain-IsNonempty _ _ (blob-IsNonempty 31))

txout_target_v_of-alternative :
    (v : TxoutTargetV) → txout_target_v_of (txout_target_v_alternative v) ≡ v
txout_target_v_of-alternative (TxoutTargetV.to_script x) = refl
txout_target_v_of-alternative (TxoutTargetV.to_scripthash x) = refl
txout_target_v_of-alternative (TxoutTargetV.to_key x) = refl
txout_target_v_of-alternative (TxoutTargetV.to_tagged_key x) = refl

txout_target_v_alternative-of :
    (s : TxoutToScript ⊎ (Bytes ⊎ (Bytes ⊎ (TxoutToTaggedKey ⊎ ⊥))))
    → txout_target_v_alternative (txout_target_v_of s) ≡ s
txout_target_v_alternative-of (inl x) = refl
txout_target_v_alternative-of (inr (inl x)) = refl
txout_target_v_alternative-of (inr (inr (inl x))) = refl
txout_target_v_alternative-of (inr (inr (inr (inl x)))) = refl
txout_target_v_alternative-of (inr (inr (inr (inr x)))) = absurd x

pub txout_target_v-IsLossless : IsLossless txout_target_v
unfolding txout_target_v alternative no_alternative
txout_target_v-IsLossless =
    convert-IsLossless _ _ _ txout_target_v_of-alternative txout_target_v_alternative-of (
      variant-IsLossless _ (
        alternative-Told 0x0 _ _ (omega arith) refl txout_to_script-IsLossless (
          alternative-Told 0x1 _ _ (omega arith) refl (blob-IsLossless 32) (
            alternative-Told 0x2 _ _ (omega arith) refl (blob-IsLossless 32) (
              alternative-Told 0x3 _ _ (omega arith) refl txout_to_tagged_key-IsLossless
                no_alternative-Told)))))

pub txout_target_v-IsNonempty : IsNonempty txout_target_v
unfolding txout_target_v
txout_target_v-IsNonempty = convert-IsNonempty _ _ _ (variant-IsNonempty _)

txout_stablero_target_v_of-alternative :
    (v : TxoutStableroTargetV)
    → txout_stablero_target_v_of (txout_stablero_target_v_alternative v) ≡ v
txout_stablero_target_v_of-alternative (TxoutStableroTargetV.to_script x) = refl
txout_stablero_target_v_of-alternative (TxoutStableroTargetV.to_scripthash x) = refl
txout_stablero_target_v_of-alternative (TxoutStableroTargetV.tagged_key x) = refl

txout_stablero_target_v_alternative-of :
    (s : TxoutToScript ⊎ (Bytes ⊎ (TxoutZephyrTaggedKey ⊎ ⊥)))
    → txout_stablero_target_v_alternative (txout_stablero_target_v_of s) ≡ s
txout_stablero_target_v_alternative-of (inl x) = refl
txout_stablero_target_v_alternative-of (inr (inl x)) = refl
txout_stablero_target_v_alternative-of (inr (inr (inl x))) = refl
txout_stablero_target_v_alternative-of (inr (inr (inr x))) = absurd x

pub txout_stablero_target_v-IsLossless : IsLossless txout_stablero_target_v
unfolding txout_stablero_target_v alternative no_alternative
txout_stablero_target_v-IsLossless =
    convert-IsLossless _ _ _ txout_stablero_target_v_of-alternative
      txout_stablero_target_v_alternative-of
      (variant-IsLossless _ (
        alternative-Told 0x0 _ _ (omega arith) refl txout_to_script-IsLossless (
          alternative-Told 0x1 _ _ (omega arith) refl (blob-IsLossless 32) (
            alternative-Told 0x2 _ _ (omega arith) refl txout_zephyr_tagged_key-IsLossless
              no_alternative-Told))))

pub txout_stablero_target_v-IsNonempty : IsNonempty txout_stablero_target_v
unfolding txout_stablero_target_v
txout_stablero_target_v-IsNonempty = convert-IsNonempty _ _ _ (variant-IsNonempty _)

txout_carrot_target_v_of-alternative :
    (v : TxoutCarrotTargetV) → txout_carrot_target_v_of (txout_carrot_target_v_alternative v) ≡ v
txout_carrot_target_v_of-alternative (TxoutCarrotTargetV.to_script x) = refl
txout_carrot_target_v_of-alternative (TxoutCarrotTargetV.to_scripthash x) = refl
txout_carrot_target_v_of-alternative (TxoutCarrotTargetV.salvium_key x) = refl
txout_carrot_target_v_of-alternative (TxoutCarrotTargetV.salvium_tagged_key x) = refl
txout_carrot_target_v_of-alternative (TxoutCarrotTargetV.to_carrot_v1 x) = refl

txout_carrot_target_v_alternative-of :
    (s : TxoutToScript
      ⊎ (Bytes ⊎ (TxoutSalviumKey ⊎ (TxoutSalviumTaggedKey ⊎ (TxoutToCarrotV1 ⊎ ⊥)))))
    → txout_carrot_target_v_alternative (txout_carrot_target_v_of s) ≡ s
txout_carrot_target_v_alternative-of (inl x) = refl
txout_carrot_target_v_alternative-of (inr (inl x)) = refl
txout_carrot_target_v_alternative-of (inr (inr (inl x))) = refl
txout_carrot_target_v_alternative-of (inr (inr (inr (inl x)))) = refl
txout_carrot_target_v_alternative-of (inr (inr (inr (inr (inl x))))) = refl
txout_carrot_target_v_alternative-of (inr (inr (inr (inr (inr x))))) = absurd x

pub txout_carrot_target_v-IsLossless : IsLossless txout_carrot_target_v
unfolding txout_carrot_target_v alternative no_alternative
txout_carrot_target_v-IsLossless =
    convert-IsLossless _ _ _ txout_carrot_target_v_of-alternative
      txout_carrot_target_v_alternative-of
      (variant-IsLossless _ (
        alternative-Told 0x0 _ _ (omega arith) refl txout_to_script-IsLossless (
          alternative-Told 0x1 _ _ (omega arith) refl (blob-IsLossless 32) (
            alternative-Told 0x2 _ _ (omega arith) refl txout_salvium_key-IsLossless (
              alternative-Told 0x3 _ _ (omega arith) refl txout_salvium_tagged_key-IsLossless (
                alternative-Told 0x4 _ _ (omega arith) refl txout_to_carrot_v1-IsLossless
                  no_alternative-Told))))))

pub txout_carrot_target_v-IsNonempty : IsNonempty txout_carrot_target_v
unfolding txout_carrot_target_v
txout_carrot_target_v-IsNonempty = convert-IsNonempty _ _ _ (variant-IsNonempty _)

pub tx_out-IsLossless : IsLossless tx_out
unfolding tx_out
tx_out-IsLossless =
    convert-IsLossless _ _ _ (λ b. refl) (λ a. refl)
      (varint-IsLossless 64 ⊳ txout_target_v-IsLossless)

pub tx_out-IsNonempty : IsNonempty tx_out
unfolding tx_out
tx_out-IsNonempty = convert-IsNonempty _ _ _ (chain-IsNonempty _ _ (varint-IsNonempty 64))

pub tx_out_zephyr-IsLossless : IsLossless tx_out_zephyr
unfolding tx_out_zephyr
tx_out_zephyr-IsLossless =
    convert-IsLossless _ _ _ (λ b. refl) (λ a. refl)
      (varint-IsLossless 64 ⊳ txout_stablero_target_v-IsLossless)

pub tx_out_zephyr-IsNonempty : IsNonempty tx_out_zephyr
unfolding tx_out_zephyr
tx_out_zephyr-IsNonempty = convert-IsNonempty _ _ _ (chain-IsNonempty _ _ (varint-IsNonempty 64))

pub tx_out_salvium-IsLossless : IsLossless tx_out_salvium
unfolding tx_out_salvium
tx_out_salvium-IsLossless =
    convert-IsLossless _ _ _ (λ b. refl) (λ a. refl)
      (varint-IsLossless 64 ⊳ txout_carrot_target_v-IsLossless)

pub tx_out_salvium-IsNonempty : IsNonempty tx_out_salvium
unfolding tx_out_salvium
tx_out_salvium-IsNonempty = convert-IsNonempty _ _ _ (chain-IsNonempty _ _ (varint-IsNonempty 64))
