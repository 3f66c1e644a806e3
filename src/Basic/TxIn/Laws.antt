-- ===== src/Basic/TxIn/Laws.antt =====
-- Inputs lose nothing on the wire.
use mathlib.Core.Path.{refl}
use node_blocktemplate.Prelude.{◌≡◌, inl, inr, ◌⊎◌, arith}
use node_blocktemplate.Archive.Variant.{alternative, no_alternative}
use node_blocktemplate.Archive.Codec.{IsLossless, IsNonempty}
use node_blocktemplate.Archive.Varint.Laws.{varint-IsLossless, varint-IsNonempty}
use node_blocktemplate.Archive.Fixed.Laws.{
  uint-IsLossless, uint-IsNonempty, blob-IsLossless, blob-IsNonempty,
}
use node_blocktemplate.Archive.Combine.Laws.{
  chain-IsNonempty, convert-IsLossless, convert-IsNonempty, ◌⊳◌,
}
use node_blocktemplate.Archive.Many.Laws.{vector-IsLossless, string-IsLossless}
use node_blocktemplate.Archive.Variant.Laws.{
  variant-IsLossless, variant-IsNonempty, alternative-Told, no_alternative-Told,
}
use node_blocktemplate.Basic.TxOut.Laws.{txout_to_script-IsLossless}
use node_blocktemplate.Basic.TxIn.{
  TxinGen, txin_gen, TxinToScript, txin_to_script, TxinToScripthash, txin_to_scripthash, TxinToKey,
  txin_to_key, TxinZephyrKey, txin_zephyr_key, TxinSalviumKey, txin_salvium_key, TxinV, txin_v,
  txin_v_of, txin_v_alternative, TxinZephyrV, txin_zephyr_v, txin_zephyr_v_of,
  txin_zephyr_v_alternative, TxinSalviumV, txin_salvium_v, txin_salvium_v_of,
  txin_salvium_v_alternative,
}

pub txin_gen-IsLossless : IsLossless txin_gen
unfolding txin_gen
txin_gen-IsLossless = convert-IsLossless _ _ _ (λ b. refl) (λ a. refl) (varint-IsLossless 64)

pub txin_gen-IsNonempty : IsNonempty txin_gen
unfolding txin_gen
txin_gen-IsNonempty = convert-IsNonempty _ _ _ (varint-IsNonempty 64)

pub txin_to_script-IsLossless : IsLossless txin_to_script
unfolding txin_to_script
txin_to_script-IsLossless =
    convert-IsLossless _ _ _ (λ b. refl) (λ a. refl)
      (blob-IsLossless 32
        ⊳ varint-IsLossless 64
        ⊳ vector-IsLossless _ (uint-IsNonempty 0) (uint-IsLossless 1))

pub txin_to_script-IsNonempty : IsNonempty txin_to_script
unfolding txin_to_script
txin_to_script-IsNonempty = convert-IsNonempty _ _ _ (chain-IsNonempty _ _ (blob-IsNonempty 31))

pub txin_to_scripthash-IsLossless : IsLossless txin_to_scripthash
unfolding txin_to_scripthash
txin_to_scripthash-IsLossless =
    convert-IsLossless _ _ _ (λ b. refl) (λ a. refl)
      (blob-IsLossless 32
        ⊳ varint-IsLossless 64
        ⊳ txout_to_script-IsLossless
        ⊳ vector-IsLossless _ (uint-IsNonempty 0) (uint-IsLossless 1))

pub txin_to_scripthash-IsNonempty : IsNonempty txin_to_scripthash
unfolding txin_to_scripthash
txin_to_scripthash-IsNonempty = convert-IsNonempty _ _ _ (chain-IsNonempty _ _ (blob-IsNonempty 31))

pub txin_to_key-IsLossless : IsLossless txin_to_key
unfolding txin_to_key
txin_to_key-IsLossless =
    convert-IsLossless _ _ _ (λ b. refl) (λ a. refl)
      (varint-IsLossless 64
        ⊳ vector-IsLossless _ (varint-IsNonempty 64) (varint-IsLossless 64)
        ⊳ blob-IsLossless 32)

pub txin_to_key-IsNonempty : IsNonempty txin_to_key
unfolding txin_to_key
txin_to_key-IsNonempty = convert-IsNonempty _ _ _ (chain-IsNonempty _ _ (varint-IsNonempty 64))

pub txin_zephyr_key-IsLossless : IsLossless txin_zephyr_key
unfolding txin_zephyr_key
txin_zephyr_key-IsLossless =
    convert-IsLossless _ _ _ (λ b. refl) (λ a. refl)
      (varint-IsLossless 64
        ⊳ string-IsLossless
        ⊳ vector-IsLossless _ (varint-IsNonempty 64) (varint-IsLossless 64)
        ⊳ blob-IsLossless 32)

pub txin_zephyr_key-IsNonempty : IsNonempty txin_zephyr_key
unfolding txin_zephyr_key
txin_zephyr_key-IsNonempty = convert-IsNonempty _ _ _ (chain-IsNonempty _ _ (varint-IsNonempty 64))

pub txin_salvium_key-IsLossless : IsLossless txin_salvium_key
unfolding txin_salvium_key
txin_salvium_key-IsLossless =
    convert-IsLossless _ _ _ (λ b. refl) (λ a. refl)
      (varint-IsLossless 64
        ⊳ string-IsLossless
        ⊳ vector-IsLossless _ (varint-IsNonempty 64) (varint-IsLossless 64)
        ⊳ blob-IsLossless 32)

pub txin_salvium_key-IsNonempty : IsNonempty txin_salvium_key
unfolding txin_salvium_key
txin_salvium_key-IsNonempty = convert-IsNonempty _ _ _ (chain-IsNonempty _ _ (varint-IsNonempty 64))

txin_v_of-alternative : (v : TxinV) → txin_v_of (txin_v_alternative v) ≡ v
txin_v_of-alternative (TxinV.gen x) = refl
txin_v_of-alternative (TxinV.to_script x) = refl
txin_v_of-alternative (TxinV.to_scripthash x) = refl
txin_v_of-alternative (TxinV.to_key x) = refl

txin_v_alternative-of :
    (s : TxinGen ⊎ (TxinToScript ⊎ (TxinToScripthash ⊎ (TxinToKey ⊎ ⊥))))
    → txin_v_alternative (txin_v_of s) ≡ s
txin_v_alternative-of (inl x) = refl
txin_v_alternative-of (inr (inl x)) = refl
txin_v_alternative-of (inr (inr (inl x))) = refl
txin_v_alternative-of (inr (inr (inr (inl x)))) = refl
txin_v_alternative-of (inr (inr (inr (inr x)))) = absurd x

pub txin_v-IsLossless : IsLossless txin_v
unfolding txin_v alternative no_alternative
txin_v-IsLossless = convert-IsLossless _ _ _ txin_v_of-alternative txin_v_alternative-of (
    variant-IsLossless _ (
      alternative-Told 0xff _ _ (omega arith) refl txin_gen-IsLossless (
        alternative-Told 0x0 _ _ (omega arith) refl txin_to_script-IsLossless (
          alternative-Told 0x1 _ _ (omega arith) refl txin_to_scripthash-IsLossless (
            alternative-Told 0x2 _ _ (omega arith) refl txin_to_key-IsLossless
              no_alternative-Told)))))

pub txin_v-IsNonempty : IsNonempty txin_v
unfolding txin_v
txin_v-IsNonempty = convert-IsNonempty _ _ _ (variant-IsNonempty _)

txin_zephyr_v_of-alternative :
    (v : TxinZephyrV) → txin_zephyr_v_of (txin_zephyr_v_alternative v) ≡ v
txin_zephyr_v_of-alternative (TxinZephyrV.gen x) = refl
txin_zephyr_v_of-alternative (TxinZephyrV.to_script x) = refl
txin_zephyr_v_of-alternative (TxinZephyrV.to_scripthash x) = refl
txin_zephyr_v_of-alternative (TxinZephyrV.zephyr_key x) = refl

txin_zephyr_v_alternative-of :
    (s : TxinGen ⊎ (TxinToScript ⊎ (TxinToScripthash ⊎ (TxinZephyrKey ⊎ ⊥))))
    → txin_zephyr_v_alternative (txin_zephyr_v_of s) ≡ s
txin_zephyr_v_alternative-of (inl x) = refl
txin_zephyr_v_alternative-of (inr (inl x)) = refl
txin_zephyr_v_alternative-of (inr (inr (inl x))) = refl
txin_zephyr_v_alternative-of (inr (inr (inr (inl x)))) = refl
txin_zephyr_v_alternative-of (inr (inr (inr (inr x)))) = absurd x

pub txin_zephyr_v-IsLossless : IsLossless txin_zephyr_v
unfolding txin_zephyr_v alternative no_alternative
txin_zephyr_v-IsLossless =
    convert-IsLossless _ _ _ txin_zephyr_v_of-alternative txin_zephyr_v_alternative-of (
      variant-IsLossless _ (
        alternative-Told 0xff _ _ (omega arith) refl txin_gen-IsLossless (
          alternative-Told 0x0 _ _ (omega arith) refl txin_to_script-IsLossless (
            alternative-Told 0x1 _ _ (omega arith) refl txin_to_scripthash-IsLossless (
              alternative-Told 0x2 _ _ (omega arith) refl txin_zephyr_key-IsLossless
                no_alternative-Told)))))

pub txin_zephyr_v-IsNonempty : IsNonempty txin_zephyr_v
unfolding txin_zephyr_v
txin_zephyr_v-IsNonempty = convert-IsNonempty _ _ _ (variant-IsNonempty _)

txin_salvium_v_of-alternative :
    (v : TxinSalviumV) → txin_salvium_v_of (txin_salvium_v_alternative v) ≡ v
txin_salvium_v_of-alternative (TxinSalviumV.gen x) = refl
txin_salvium_v_of-alternative (TxinSalviumV.to_script x) = refl
txin_salvium_v_of-alternative (TxinSalviumV.to_scripthash x) = refl
txin_salvium_v_of-alternative (TxinSalviumV.salvium_key x) = refl

txin_salvium_v_alternative-of :
    (s : TxinGen ⊎ (TxinToScript ⊎ (TxinToScripthash ⊎ (TxinSalviumKey ⊎ ⊥))))
    → txin_salvium_v_alternative (txin_salvium_v_of s) ≡ s
txin_salvium_v_alternative-of (inl x) = refl
txin_salvium_v_alternative-of (inr (inl x)) = refl
txin_salvium_v_alternative-of (inr (inr (inl x))) = refl
txin_salvium_v_alternative-of (inr (inr (inr (inl x)))) = refl
txin_salvium_v_alternative-of (inr (inr (inr (inr x)))) = absurd x

pub txin_salvium_v-IsLossless : IsLossless txin_salvium_v
unfolding txin_salvium_v alternative no_alternative
txin_salvium_v-IsLossless =
    convert-IsLossless _ _ _ txin_salvium_v_of-alternative txin_salvium_v_alternative-of (
      variant-IsLossless _ (
        alternative-Told 0xff _ _ (omega arith) refl txin_gen-IsLossless (
          alternative-Told 0x0 _ _ (omega arith) refl txin_to_script-IsLossless (
            alternative-Told 0x1 _ _ (omega arith) refl txin_to_scripthash-IsLossless (
              alternative-Told 0x2 _ _ (omega arith) refl txin_salvium_key-IsLossless
                no_alternative-Told)))))

pub txin_salvium_v-IsNonempty : IsNonempty txin_salvium_v
unfolding txin_salvium_v
txin_salvium_v-IsNonempty = convert-IsNonempty _ _ _ (variant-IsNonempty _)
