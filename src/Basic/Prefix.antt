-- ===== src/Basic/Prefix.antt =====
-- `do_serialize` of `transaction_prefix` (src/cryptonote_basic/cryptonote_basic.h).
use mathlib.Core.Path.{refl}
use node_blocktemplate.Prelude.{
  ℕ, ◌≡◌, inl, inr, ◌⊎◌, Bool, true, false, not, ◌&&◌, ◌||◌, List, [], ◌∷◌, ◌++◌, Bytes, leb, ltb,
  ◌==◌, if◌then◌else◌, length, arith, replicate,
}
use node_blocktemplate.Archive.Codec.{Codec}
use node_blocktemplate.Archive.Varint.{varint}
use node_blocktemplate.Archive.Fixed.{uint, blob}
use node_blocktemplate.Archive.Combine.{chain, convert, embed, ◌▹◌, field_if, check, ensure}
use node_blocktemplate.Archive.Many.{vector, string, times}
use node_blocktemplate.Archive.Variant.{variant, alternative, no_alternative}
use node_blocktemplate.Config.{
  blob_type_zephyr, blob_type_salvium, blob_type_arqma, is_supported_blob_type,
  is_supported_transaction_version,
}
use node_blocktemplate.Basic.TxIn.{
  TxinV, txin_v, TxinZephyrV, txin_zephyr_v, TxinSalviumV, txin_salvium_v,
}
use node_blocktemplate.Basic.TxOut.{
  TxOut, tx_out, TxOutZephyr, tx_out_zephyr, TxOutSalvium, tx_out_salvium,
}
use node_blocktemplate.Basic.Salvium.{
  ProtocolTxData, protocol_tx_data, TokenMetadata, token_metadata, Layer2RollupData,
  layer2_rollup_data,
}
use node_blocktemplate.Basic.PrefixType.{
  TransactionPrefix, null_prefix, no_protocol_tx_data, no_token_metadata, no_layer2_rollup_data,
}
use node_blocktemplate.Rct.SalviumData.{zeros}
pub mod Laws

-- The fields that only some versions and chains have: the ARQ ones, those of Zephyr.
abbrev pub is_arq_v3 : ℕ → ℕ → Bool
is_arq_v3 bt version = leb 3 version && bt == blob_type_arqma

abbrev PlainWire : Type 0
PlainWire =
    ℕ
    × ((ℕ × List ℕ)
        × (ℕ
            × ((List TxinZephyrV × List TxinV)
                × ((List TxOutZephyr × List TxOut) × (List ℕ × (ℕ × (ℕ × ℕ)))))))

abbrev pub plain_of : PlainWire → TransactionPrefix
plain_of
      (
        version,
        (
          (arq_type, unlock_times),
          (unlock, ((vin_z, vin), ((vout_z, vout), (extra, (height, (burnt, minted)))))),
        ),
      ) =
    record null_prefix {
      version = version;
      unlock_time = unlock;
      arq_tx_type = arq_type;
      vin = vin;
      vin_zephyr = vin_z;
      vout = vout;
      vout_zephyr = vout_z;
      extra = extra;
      pricing_record_height = height;
      amount_burnt = burnt;
      amount_minted = minted;
      output_unlock_times = unlock_times;
    }

abbrev pub plain_wire : TransactionPrefix → PlainWire
plain_wire t = (
  t.version,
  (
    (t.arq_tx_type, t.output_unlock_times),
    (
      t.unlock_time,
      (
        (t.vin_zephyr, t.vin),
        (
          (t.vout_zephyr, t.vout),
          (t.extra, (t.pricing_record_height, (t.amount_burnt, t.amount_minted))),
        ),
      ),
    ),
  ),
)

-- The last branch of `do_serialize`: every chain but Salvium.
unfoldable pub plain_prefix : ℕ → Codec TransactionPrefix
plain_prefix bt = embed plain_of plain_wire (
    chain (varint 64) (λ version. check (is_supported_transaction_version bt version) (
      chain
        (field_if (is_arq_v3 bt version)
          (ensure (λ kind. ltb kind 4) (varint 16) ▹ vector (varint 64)) (0, []))
        (λ arq.
          varint 64
          ▹ (field_if (bt == blob_type_zephyr) (vector txin_zephyr_v) []
              ▹ field_if (not (bt == blob_type_zephyr)) (vector txin_v) [])
          ▹ ensure (λ outs. not (is_arq_v3 bt version) || length outs.1 == length arq.1)
              (field_if (bt == blob_type_zephyr) (vector tx_out_zephyr) []
                ▹ field_if (not (bt == blob_type_zephyr)) (vector tx_out) [])
          ▹ vector (uint 1)
          ▹ field_if (bt == blob_type_zephyr) (varint 64 ▹ varint 64 ▹ varint 64) (0, (0, 0))))))

-- The conditions on `sal_tx_type` and `version`: UNSET is 0, MINER 1, PROTOCOL 2, TRANSFER 3,
-- STAKE 6, CREATE_TOKEN 9 and ROLLUP 10.
abbrev pub has_burnt : ℕ → Bool
has_burnt kind = not (kind == 0) && not (kind == 2)

abbrev pub has_return : ℕ → Bool
has_return kind = has_burnt kind && not (kind == 1)

abbrev pub has_return_list : ℕ → ℕ → Bool
has_return_list kind version = kind == 3 && leb 3 version

abbrev pub has_protocol_data : ℕ → ℕ → Bool
has_protocol_data kind version = (kind == 6 || kind == 9) && leb 4 version

abbrev SalviumReturn : Type 0
SalviumReturn = (List Bytes × List ℕ) × (ProtocolTxData × ((Bytes × Bytes) × (Bytes × (Bytes × ℕ))))

abbrev pub no_return : SalviumReturn
no_return = (([], []), (no_protocol_tx_data, ((zeros 32, zeros 32), ([], ([], 0)))))

unfoldable pub salvium_return : ℕ → ℕ → Codec SalviumReturn
salvium_return kind version =
    field_if (has_return_list kind version) (vector (blob 32) ▹ vector (uint 1)) ([], [])
    ▹ field_if (not (has_return_list kind version) && has_protocol_data kind version)
        protocol_tx_data no_protocol_tx_data
    ▹ field_if (not (has_return_list kind version) && not (has_protocol_data kind version))
        (blob 32 ▹ blob 32) (zeros 32, zeros 32)
    ▹ string
    ▹ string
    ▹ varint 64

abbrev SalviumWire : Type 0
SalviumWire =
    ℕ
    × (ℕ
        × (List TxinSalviumV
            × (List TxOutSalvium
                × (List ℕ
                    × (ℕ × (ℕ × (SalviumReturn × (TokenMetadata × (Bytes × Layer2RollupData)))))))))

abbrev pub salvium_of : SalviumWire → TransactionPrefix
salvium_of
      (
        version,
        (
          unlock,
          (
            vin,
            (
              vout,
              (
                extra,
                (
                  kind,
                  (
                    burnt,
                    (
                      ((returns, mask), (pay, ((address, pubkey), (src, (dest, slippage))))),
                      (token, (tag, rollup)),
                    ),
                  ),
                ),
              ),
            ),
          ),
        ),
      ) =
    record null_prefix {
      version = version;
      unlock_time = unlock;
      vin_salvium = vin;
      vout_salvium = vout;
      extra = extra;
      amount_burnt = burnt;
      sal_tx_type = kind;
      return_address = address;
      return_address_list = returns;
      return_address_change_mask = mask;
      return_pubkey = pubkey;
      source_asset_type = src;
      destination_asset_type = dest;
      amount_slippage_limit = slippage;
      protocol_tx_data = pay;
      rollup_binding_tag = tag;
      token_metadata = token;
      layer2_rollup_data = rollup;
    }

abbrev pub salvium_wire : TransactionPrefix → SalviumWire
salvium_wire t = (
  t.version,
  (
    t.unlock_time,
    (
      t.vin_salvium,
      (
        t.vout_salvium,
        (
          t.extra,
          (
            t.sal_tx_type,
            (
              t.amount_burnt,
              (
                (
                  (t.return_address_list, t.return_address_change_mask),
                  (
                    t.protocol_tx_data,
                    (
                      (t.return_address, t.return_pubkey),
                      (t.source_asset_type, (t.destination_asset_type, t.amount_slippage_limit)),
                    ),
                  ),
                ),
                (t.token_metadata, (t.rollup_binding_tag, t.layer2_rollup_data)),
              ),
            ),
          ),
        ),
      ),
    ),
  ),
)

unfoldable pub salvium_prefix : Codec TransactionPrefix
salvium_prefix = embed salvium_of salvium_wire (
    chain (varint 64) (λ version.
      check (is_supported_transaction_version blob_type_salvium version) (
        varint 64
        ▹ vector txin_salvium_v
        ▹ vector tx_out_salvium
        ▹ vector (uint 1)
        ▹ chain (varint 32) (λ kind.
          field_if (has_burnt kind) (varint 64) 0
          ▹ field_if (has_return kind) (salvium_return kind version) no_return
          ▹ field_if (leb 5 version && kind == 9) token_metadata no_token_metadata
          ▹ field_if (leb 5 version && (kind == 3 || kind == 10)) (blob 8) (zeros 8)
          ▹ field_if (leb 5 version && kind == 10) layer2_rollup_data no_layer2_rollup_data))))

-- `do_serialize` of `transaction_prefix`.
unfoldable pub transaction_prefix : ℕ → Codec TransactionPrefix
transaction_prefix bt =
    check (is_supported_blob_type bt)
      (if bt == blob_type_salvium then salvium_prefix else plain_prefix bt)
