-- ===== src/Basic/PrefixType.antt =====
-- The members of `transaction_prefix` (src/cryptonote_basic/cryptonote_basic.h).
use node_blocktemplate.Prelude.{ℕ, List, [], Bytes}
use node_blocktemplate.Basic.TxIn.{TxinV, TxinZephyrV, TxinSalviumV}
use node_blocktemplate.Basic.TxOut.{TxOut, TxOutZephyr, TxOutSalvium}
use node_blocktemplate.Basic.Salvium.{
  ProtocolTxData, ErcToken, erc, TokenMetadata, Layer2RollupData,
}
use node_blocktemplate.Rct.SalviumData.{zeros}

-- `transaction_prefix`. `blob_type`, which is never on the wire, is an argument of the codecs.
pub record TransactionPrefix : Type 0 where
  pub version : ℕ
  pub unlock_time : ℕ
  pub arq_tx_type : ℕ
  pub vin : List TxinV
  pub vin_zephyr : List TxinZephyrV
  pub vin_salvium : List TxinSalviumV
  pub vout : List TxOut
  pub vout_zephyr : List TxOutZephyr
  pub vout_salvium : List TxOutSalvium
  pub extra : List ℕ
  pub pricing_record_height : ℕ
  pub amount_burnt : ℕ
  pub amount_minted : ℕ
  pub output_unlock_times : List ℕ
  pub sal_tx_type : ℕ
  pub return_address : Bytes
  pub return_address_list : List Bytes
  pub return_address_change_mask : List ℕ
  pub return_pubkey : Bytes
  pub source_asset_type : Bytes
  pub destination_asset_type : Bytes
  pub amount_slippage_limit : ℕ
  pub protocol_tx_data : ProtocolTxData
  pub rollup_binding_tag : Bytes
  pub token_metadata : TokenMetadata
  pub layer2_rollup_data : Layer2RollupData

abbrev pub no_protocol_tx_data : ProtocolTxData
no_protocol_tx_data = record {
  version = 0;
  return_address = zeros 32;
  return_pubkey = zeros 32;
  return_view_tag = zeros 3;
  return_anchor_enc = zeros 16;
}

abbrev no_erc_token : ErcToken
no_erc_token = record {
  version = 0;
  contract_address = [];
  lockbox_address = [];
  ticker = [];
  erc20_asset_id = 0;
}

abbrev pub no_token_metadata : TokenMetadata
no_token_metadata = record { version = 0; asset_type = []; token = erc no_erc_token }

abbrev pub no_layer2_rollup_data : Layer2RollupData
no_layer2_rollup_data = record { version = 0; txs = [] }

-- `transaction::set_null`.
abbrev pub null_prefix : TransactionPrefix
null_prefix = record {
  version = 0;
  unlock_time = 0;
  arq_tx_type = 0;
  vin = [];
  vin_zephyr = [];
  vin_salvium = [];
  vout = [];
  vout_zephyr = [];
  vout_salvium = [];
  extra = [];
  pricing_record_height = 0;
  amount_burnt = 0;
  amount_minted = 0;
  output_unlock_times = [];
  sal_tx_type = 0;
  return_address = zeros 32;
  return_address_list = [];
  return_address_change_mask = [];
  return_pubkey = zeros 32;
  source_asset_type = [];
  destination_asset_type = [];
  amount_slippage_limit = 0;
  protocol_tx_data = no_protocol_tx_data;
  rollup_binding_tag = zeros 8;
  token_metadata = no_token_metadata;
  layer2_rollup_data = no_layer2_rollup_data;
}
