-- ===== src/Basic/Salvium.antt =====
-- What only transactions of Salvium hold (src/cryptonote_basic/cryptonote_basic.h).
use mathlib.Core.Path.{refl}
use node_blocktemplate.Prelude.{
  ℕ, ◌≡◌, inl, inr, ◌⊎◌, Bool, true, false, not, ◌&&◌, ◌||◌, List, [], ◌∷◌, ◌++◌, Bytes, leb, ltb,
  ◌==◌, if◌then◌else◌, length, arith, replicate,
}
use node_blocktemplate.Archive.Codec.{Codec}
use node_blocktemplate.Archive.Varint.{varint}
use node_blocktemplate.Archive.Fixed.{uint, blob}
use node_blocktemplate.Archive.Combine.{chain, convert, embed, ◌▹◌, field_if, check, ensure}
use node_blocktemplate.Archive.Many.{vector, string, times}
use node_blocktemplate.Archive.Variant.{variant, alternative, no_alternative}
pub mod Laws

-- Where a protocol transaction pays.
pub record ProtocolTxData : Type 0 where
  pub version : ℕ
  pub return_address : Bytes
  pub return_pubkey : Bytes
  pub return_view_tag : Bytes
  pub return_anchor_enc : Bytes

unfoldable pub protocol_tx_data : Codec ProtocolTxData
protocol_tx_data =
    convert
      (λ p. record {
        version = p.0;
        return_address = p.1.0;
        return_pubkey = p.1.1.0;
        return_view_tag = p.1.1.1.0;
        return_anchor_enc = p.1.1.1.1;
      })
      (λ t. (
        t.version,
        (t.return_address, (t.return_pubkey, (t.return_view_tag, t.return_anchor_enc))),
      ))
      (varint 8 ▹ blob 32 ▹ blob 32 ▹ blob 3 ▹ blob 16)

-- A token bridged from elsewhere.
pub record ErcToken : Type 0 where
  pub version : ℕ
  pub contract_address : Bytes
  pub lockbox_address : Bytes
  pub ticker : Bytes
  pub erc20_asset_id : ℕ

unfoldable pub erc_token : Codec ErcToken
erc_token =
    convert
      (λ p. record {
        version = p.0;
        contract_address = p.1.0;
        lockbox_address = p.1.1.0;
        ticker = p.1.1.1.0;
        erc20_asset_id = p.1.1.1.1;
      })
      (λ t. (t.version, (t.contract_address, (t.lockbox_address, (t.ticker, t.erc20_asset_id)))))
      (varint 8 ▹ string ▹ string ▹ string ▹ varint 64)

-- A token of the chain.
pub record SalToken : Type 0 where
  pub version : ℕ
  pub supply : ℕ
  pub size : ℕ
  pub name : Bytes
  pub url : Bytes
  pub signature : Bytes

unfoldable pub sal_token : Codec SalToken
sal_token =
    convert
      (λ p. record {
        version = p.0;
        supply = p.1.0;
        size = p.1.1.0;
        name = p.1.1.1.0;
        url = p.1.1.1.1.0;
        signature = p.1.1.1.1.1;
      })
      (λ t. (t.version, (t.supply, (t.size, (t.name, (t.url, t.signature))))))
      (varint 8 ▹ varint 64 ▹ varint 64 ▹ string ▹ string ▹ blob 32)

-- Either token; the tags are those of the VARIANT_TAG lines.
pub data TokenV : Type 0 where
  erc : ErcToken → TokenV
  sal : SalToken → TokenV

abbrev pub token_v_of : ErcToken ⊎ (SalToken ⊎ ⊥) → TokenV
token_v_of (inl x) = TokenV.erc x
token_v_of (inr (inl x)) = TokenV.sal x
token_v_of (inr (inr x)) = absurd x

abbrev pub token_v_alternative : TokenV → ErcToken ⊎ (SalToken ⊎ ⊥)
token_v_alternative (TokenV.erc x) = inl x
token_v_alternative (TokenV.sal x) = inr (inl x)

unfoldable pub token_v : Codec TokenV
token_v =
    convert token_v_of token_v_alternative
      (variant (alternative 0x0 erc_token (alternative 0x1 sal_token no_alternative)))

-- What a transaction says of the token that it creates.
pub record TokenMetadata : Type 0 where
  pub version : ℕ
  pub asset_type : Bytes
  pub token : TokenV

unfoldable pub token_metadata : Codec TokenMetadata
token_metadata =
    convert (λ p. record { version = p.0; asset_type = p.1.0; token = p.1.1 })
      (λ t. (t.version, (t.asset_type, t.token))) (varint 8 ▹ string ▹ token_v)

-- A transaction that was rolled up.
pub record Layer2RollupTx : Type 0 where
  pub tx_prefix_hash : Bytes
  pub first_key_image : Bytes
  pub tx_fee : ℕ

unfoldable pub layer2_rollup_tx : Codec Layer2RollupTx
layer2_rollup_tx =
    convert (λ p. record { tx_prefix_hash = p.0; first_key_image = p.1.0; tx_fee = p.1.1 })
      (λ t. (t.tx_prefix_hash, (t.first_key_image, t.tx_fee))) (blob 32 ▹ blob 32 ▹ varint 64)

-- All of them.
pub record Layer2RollupData : Type 0 where
  pub version : ℕ
  pub txs : List Layer2RollupTx

unfoldable pub layer2_rollup_data : Codec Layer2RollupData
layer2_rollup_data =
    convert (λ p. record { version = p.0; txs = p.1 }) (λ t. (t.version, t.txs))
      (varint 8 ▹ vector layer2_rollup_tx)
