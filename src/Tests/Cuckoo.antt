-- ===== src/Tests/Cuckoo.antt =====
-- `construct_block_blob` on a small Cuckoo block.
use node_blocktemplate.Archive.Fixed.{word_of}
use node_blocktemplate.Prelude.{
  ℕ, zero, suc, ◌≡◌, refl, some, List, [], ◌∷◌, ◌++◌, Bytes, replicate,
}
use node_blocktemplate.Archive.Varint.{varint}
use node_blocktemplate.Archive.Fixed.{put_uint, uint, blob}
use node_blocktemplate.Archive.Combine.{chain, convert, embed, field_if, check, ensure}
use node_blocktemplate.Archive.Many.{vector, string, times, save_each, load_each}
use node_blocktemplate.Archive.Variant.{variant, alternative, no_alternative}
use node_blocktemplate.Config.{is_supported_blob_type, is_supported_transaction_version}
use node_blocktemplate.Rct.Base.{rctsig_base}
use node_blocktemplate.Rct.SalviumData.{zeros}
use node_blocktemplate.Oracle.Zephyr
use node_blocktemplate.Basic.TxIn.{TxinV, txin_v, txin_gen}
use node_blocktemplate.Basic.TxOut.{TxoutTargetV, tx_out, txout_target_v}
use node_blocktemplate.Basic.PrefixType.{null_prefix}
use node_blocktemplate.Basic.Prefix.{plain_prefix, transaction_prefix}
use node_blocktemplate.Basic.Transaction.{no_rct, rct_signatures, transaction, null_transaction}
use node_blocktemplate.Basic.Header.{header_rest, block_header, no_salvium_record}
use node_blocktemplate.Basic.Block.{Block, block, null_hash}
use node_blocktemplate.Format.{parse_binary, parse_and_validate_block_from_blob}
use node_blocktemplate.Main.Outcome.{ok}
use node_blocktemplate.Main.{
  Entry, Argument, set_nonce, set_cycle, read_uint32, read_uint32_loop, read_uint32_array,
  construct_block_blob,
}
use node_blocktemplate.Main.Cycle.{cuckoo_arguments, construct_block_blob-cycle}
use node_blocktemplate.Tests.{max_amounts, test_coinbase, all_bytes-AreBytes}

-- Versions 10 and 14, the time 300, the previous hash, the wide nonce 513, the nonce 0x04030201, the
-- cycle, the coinbase and no transaction hash.
abbrev cuckoo_template : Bytes
cuckoo_template =
    10
    ∷ 14
    ∷ 172
    ∷ 2
    ∷ (replicate 32 33
        ++ (1
            ∷ 2
            ∷ 0
            ∷ 0
            ∷ 0
            ∷ 0
            ∷ 0
            ∷ 0
            ∷ 1
            ∷ 2
            ∷ 3
            ∷ 4
            ∷ (replicate 128 3 ++ (test_coinbase ++ (0 ∷ [])))))

abbrev cuckoo_block : Block
cuckoo_block = record {
  header = record {
    major_version = 10;
    minor_version = 14;
    timestamp = 300;
    prev_id = replicate 32 33;
    nonce = 0x04030201;
    nonce8 = 513;
    zephyr_pricing_record = Zephyr.zero_pricing_record;
    salvium_pricing_record = no_salvium_record;
    cycle = replicate 128 3;
    signature = zeros 64;
  };
  miner_tx = record {
    prefix = record null_prefix {
      version = 2;
      vin = TxinV.gen (record { height = 5 }) ∷ [];
      vout = record { amount = 9; target = TxoutTargetV.to_key (replicate 32 17) } ∷ [];
      extra = 7 ∷ [];
    };
    signatures = [];
    rct_signatures = no_rct;
  };
  protocol_tx = null_transaction;
  tx_hashes = [];
  uncle = null_hash;
}

cuckoo_template-parsed :
    parse_and_validate_block_from_blob max_amounts 8 cuckoo_template ≡ some cuckoo_block
unfolding parse_and_validate_block_from_blob parse_binary block block_header header_rest transaction
    transaction_prefix plain_prefix rct_signatures rctsig_base chain convert embed field_if check
    ensure vector string times varint uint blob save_each load_each variant alternative
    no_alternative tx_out txout_target_v txin_v txin_gen is_supported_blob_type
    is_supported_transaction_version
cuckoo_template-parsed = refl

abbrev entries : List Entry
entries = replicate 32 (Entry.unsigned 258)

abbrev words : ℕ → Bytes
words zero = []
words (suc n) = 2 ∷ 1 ∷ 0 ∷ 0 ∷ words n

entries-read : read_uint32_array 32 (some (Argument.array entries)) ≡ ok (words 32)
unfolding read_uint32_array read_uint32_loop read_uint32 put_uint
entries-read = refl

abbrev cuckoo_nonce : Bytes
cuckoo_nonce = 9 ∷ 8 ∷ 7 ∷ 6 ∷ []

construct_block_blob-cycle_example :
    (front : Bytes) × (back : Bytes) × (cuckoo_template
      ≡ front ++ ((put_uint 4 0x04030201 ++ replicate 128 3) ++ back))
    × (construct_block_blob max_amounts (cuckoo_arguments cuckoo_template cuckoo_nonce entries)
        ≡ ok (front ++ ((cuckoo_nonce ++ words 32) ++ back)))
    × (parse_and_validate_block_from_blob max_amounts 8
          (front ++ ((cuckoo_nonce ++ words 32) ++ back))
        ≡ some (set_cycle (words 32) (set_nonce (word_of cuckoo_nonce) cuckoo_block)))
construct_block_blob-cycle_example =
    construct_block_blob-cycle max_amounts cuckoo_template cuckoo_nonce entries cuckoo_block
      (words 32) refl (all_bytes-AreBytes cuckoo_template refl)
      (all_bytes-AreBytes cuckoo_nonce refl) cuckoo_template-parsed entries-read
