-- ===== src/Basic/Salvium/Laws.antt =====
-- The parts of Salvium lose nothing on the wire.
use mathlib.Core.Path.{refl}
use node_blocktemplate.Prelude.{◌≡◌, inl, inr, ◌⊎◌, arith}
use node_blocktemplate.Archive.Variant.{alternative, no_alternative}
use node_blocktemplate.Archive.Codec.{IsLossless, IsNonempty}
use node_blocktemplate.Archive.Varint.Laws.{varint-IsLossless, varint-IsNonempty}
use node_blocktemplate.Archive.Fixed.Laws.{blob-IsLossless, blob-IsNonempty}
use node_blocktemplate.Archive.Combine.Laws.{
  chain-IsNonempty, convert-IsLossless, convert-IsNonempty, ◌⊳◌,
}
use node_blocktemplate.Archive.Many.Laws.{vector-IsLossless, string-IsLossless}
use node_blocktemplate.Archive.Variant.Laws.{
  variant-IsLossless, variant-IsNonempty, alternative-Told, no_alternative-Told,
}
use node_blocktemplate.Basic.Salvium.{
  protocol_tx_data, ErcToken, erc_token, SalToken, sal_token, TokenV, token_v, token_v_of,
  token_v_alternative, token_metadata, layer2_rollup_tx, layer2_rollup_data,
}

pub protocol_tx_data-IsLossless : IsLossless protocol_tx_data
unfolding protocol_tx_data
protocol_tx_data-IsLossless =
    convert-IsLossless _ _ _ (λ b. refl) (λ a. refl)
      (varint-IsLossless 8
        ⊳ blob-IsLossless 32
        ⊳ blob-IsLossless 32
        ⊳ blob-IsLossless 3
        ⊳ blob-IsLossless 16)

pub protocol_tx_data-IsNonempty : IsNonempty protocol_tx_data
unfolding protocol_tx_data
protocol_tx_data-IsNonempty = convert-IsNonempty _ _ _ (chain-IsNonempty _ _ (varint-IsNonempty 8))

pub erc_token-IsLossless : IsLossless erc_token
unfolding erc_token
erc_token-IsLossless =
    convert-IsLossless _ _ _ (λ b. refl) (λ a. refl)
      (varint-IsLossless 8
        ⊳ string-IsLossless
        ⊳ string-IsLossless
        ⊳ string-IsLossless
        ⊳ varint-IsLossless 64)

pub erc_token-IsNonempty : IsNonempty erc_token
unfolding erc_token
erc_token-IsNonempty = convert-IsNonempty _ _ _ (chain-IsNonempty _ _ (varint-IsNonempty 8))

pub sal_token-IsLossless : IsLossless sal_token
unfolding sal_token
sal_token-IsLossless =
    convert-IsLossless _ _ _ (λ b. refl) (λ a. refl)
      (varint-IsLossless 8
        ⊳ varint-IsLossless 64
        ⊳ varint-IsLossless 64
        ⊳ string-IsLossless
        ⊳ string-IsLossless
        ⊳ blob-IsLossless 32)

pub sal_token-IsNonempty : IsNonempty sal_token
unfolding sal_token
sal_token-IsNonempty = convert-IsNonempty _ _ _ (chain-IsNonempty _ _ (varint-IsNonempty 8))

token_v_of-alternative : (v : TokenV) → token_v_of (token_v_alternative v) ≡ v
token_v_of-alternative (TokenV.erc x) = refl
token_v_of-alternative (TokenV.sal x) = refl

token_v_alternative-of : (s : ErcToken ⊎ (SalToken ⊎ ⊥)) → token_v_alternative (token_v_of s) ≡ s
token_v_alternative-of (inl x) = refl
token_v_alternative-of (inr (inl x)) = refl
token_v_alternative-of (inr (inr x)) = absurd x

pub token_v-IsLossless : IsLossless token_v
unfolding token_v alternative no_alternative
token_v-IsLossless = convert-IsLossless _ _ _ token_v_of-alternative token_v_alternative-of (
    variant-IsLossless _ (
      alternative-Told 0x0 _ _ (omega arith) refl erc_token-IsLossless
        (alternative-Told 0x1 _ _ (omega arith) refl sal_token-IsLossless no_alternative-Told)))

pub token_v-IsNonempty : IsNonempty token_v
unfolding token_v
token_v-IsNonempty = convert-IsNonempty _ _ _ (variant-IsNonempty _)

pub token_metadata-IsLossless : IsLossless token_metadata
unfolding token_metadata
token_metadata-IsLossless =
    convert-IsLossless _ _ _ (λ b. refl) (λ a. refl)
      (varint-IsLossless 8 ⊳ string-IsLossless ⊳ token_v-IsLossless)

pub token_metadata-IsNonempty : IsNonempty token_metadata
unfolding token_metadata
token_metadata-IsNonempty = convert-IsNonempty _ _ _ (chain-IsNonempty _ _ (varint-IsNonempty 8))

pub layer2_rollup_tx-IsLossless : IsLossless layer2_rollup_tx
unfolding layer2_rollup_tx
layer2_rollup_tx-IsLossless =
    convert-IsLossless _ _ _ (λ b. refl) (λ a. refl)
      (blob-IsLossless 32 ⊳ blob-IsLossless 32 ⊳ varint-IsLossless 64)

pub layer2_rollup_tx-IsNonempty : IsNonempty layer2_rollup_tx
unfolding layer2_rollup_tx
layer2_rollup_tx-IsNonempty = convert-IsNonempty _ _ _ (chain-IsNonempty _ _ (blob-IsNonempty 31))

pub layer2_rollup_data-IsLossless : IsLossless layer2_rollup_data
unfolding layer2_rollup_data
layer2_rollup_data-IsLossless =
    convert-IsLossless _ _ _ (λ b. refl) (λ a. refl)
      (varint-IsLossless 8
        ⊳ vector-IsLossless _ layer2_rollup_tx-IsNonempty layer2_rollup_tx-IsLossless)

pub layer2_rollup_data-IsNonempty : IsNonempty layer2_rollup_data
unfolding layer2_rollup_data
layer2_rollup_data-IsNonempty =
    convert-IsNonempty _ _ _ (chain-IsNonempty _ _ (varint-IsNonempty 8))
