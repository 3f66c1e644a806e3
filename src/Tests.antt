-- ===== src/Tests.antt =====
-- The theorems on concrete inputs: a small block of the first kind of blob, and small values.
mod Addresses
mod Extra
mod Amounts
mod Hashes
mod Codecs
mod Trees
mod Cuckoo
mod Errors
mod Blanked
use mathlib.Core.Path.{refl}
use node_blocktemplate.Archive.Fixed.{word_of}
use node_blocktemplate.Prelude.{
  ℕ, ◌<◌, ◌≡◌, ltb, if◌then◌else◌, ◌&&◌, Bool-cases, inl, inr, Bool, true, false, Option, none,
  some, List, [], ◌∷◌, ◌++◌, Bytes, AreBytes, IsByte, length, take, replicate, arith,
}
use node_blocktemplate.Archive.Codec
use node_blocktemplate.Archive.Varint.{write_varint, load_uvarint, varint}
use node_blocktemplate.Archive.Fixed.{put_uint, uint, blob}
use node_blocktemplate.Archive.Combine.{chain, convert, embed, field_if, check, ensure}
use node_blocktemplate.Archive.Many.{vector, string, times, save_each, load_each}
use node_blocktemplate.Archive.Variant.{variant, alternative, no_alternative}
use node_blocktemplate.Config.{is_supported_blob_type, is_supported_transaction_version}
use node_blocktemplate.Rct.Prunable.{MaxAmounts}
use node_blocktemplate.Rct.Base.{rctsig_base}
use node_blocktemplate.Rct.SalviumData.{zeros}
use node_blocktemplate.Basic.TxIn.{TxinV, txin_v, txin_gen}
use node_blocktemplate.Basic.TxOut.{TxoutTargetV, TxOut, tx_out, txout_target_v}
use node_blocktemplate.Basic.PrefixType.{TransactionPrefix, null_prefix}
use node_blocktemplate.Basic.Prefix.{plain_prefix, transaction_prefix}
use node_blocktemplate.Basic.Transaction.{
  Transaction, no_rct, rct_signatures, transaction, null_transaction,
}
use node_blocktemplate.Basic.Header.{BlockHeader, header_rest, block_header, no_salvium_record}
use node_blocktemplate.Oracle.Zephyr
use node_blocktemplate.Basic.Block.{Block, block, null_hash}
use node_blocktemplate.Format.{
  parse_binary, object_to_blob, parse_and_validate_block_from_blob, block_to_blob,
}
use node_blocktemplate.Format.{get_block_hashing_blob}
use node_blocktemplate.Prelude.{length-take, length-append}
use node_blocktemplate.Format.{get_tx_tree_hash, hashing_count}
use node_blocktemplate.Format.Determines.{hashing_blob-determines}
use node_blocktemplate.Format.Hashing.{hashing_blob-exists}
use node_blocktemplate.Prelude.{List}
use node_blocktemplate.Main.Mining.{convert_blob-construct_block_blob}
use node_blocktemplate.Main.Outcome.{Error, ok, threw}
use node_blocktemplate.Main.{
  Argument, get_buffer_argument, get_blob_type, set_nonce, max_block_id_tx_hashes, convert_blob,
  get_block_id, construct_block_blob,
}
use node_blocktemplate.Main.Handlers.{get_block_id-convert_blob}
use node_blocktemplate.Main.Construct.{construct_block_blob-replaces}
use node_blocktemplate.Format.Blocks.{parse-block_to_blob, block_to_blob-parse}

-- The bounds, of which the block below has no use.
abbrev pub max_amounts : MaxAmounts
max_amounts = record {
  n_bulletproof_max_amounts = λ ps. length ps;
  n_bulletproof_plus_max_amounts = λ ps. length ps;
}

-- A stand-in for the hash: the first 32 bytes.
abbrev pub first_bytes : Bytes → Bytes
first_bytes bs = take 32 (bs ++ zeros 32)

-- Version 2, no lock, one input of height 5, one output of amount 9, one byte of extra, and an
-- empty signature.
abbrev pub test_coinbase : Bytes
test_coinbase = 2 ∷ 0 ∷ 1 ∷ 255 ∷ 5 ∷ 1 ∷ 9 ∷ 2 ∷ (replicate 32 17 ++ (1 ∷ 7 ∷ 0 ∷ []))

-- Versions 14 and 14, the time 300, the previous hash, the nonce 0x04030201, the coinbase and one
-- transaction hash.
abbrev pub test_template : Bytes
test_template =
    14
    ∷ 14
    ∷ 172
    ∷ 2
    ∷ (replicate 32 33 ++ (1 ∷ 2 ∷ 3 ∷ 4 ∷ (test_coinbase ++ (1 ∷ replicate 32 66))))

abbrev pub test_block : Block
test_block = record {
  header = record {
    major_version = 14;
    minor_version = 14;
    timestamp = 300;
    prev_id = replicate 32 33;
    nonce = 0x04030201;
    nonce8 = 0;
    zephyr_pricing_record = Zephyr.zero_pricing_record;
    salvium_pricing_record = no_salvium_record;
    cycle = zeros 128;
    signature = zeros 64;
  };
  miner_tx = record {
    prefix = record null_prefix {
      version = 2;
      vin = TxinV.gen (record { height = 5 }) ∷ [];
      vout = record { amount = 9; target = TxoutTargetV.to_key (replicate 32 17) } ∷ [];
      extra = 7 ∷ [];
    };
    signatures = [];
    rct_signatures = no_rct;
  };
  protocol_tx = null_transaction;
  tx_hashes = replicate 32 66 ∷ [];
  uncle = null_hash;
}

pub test_template-parsed :
    parse_and_validate_block_from_blob max_amounts 0 test_template ≡ some test_block
unfolding parse_and_validate_block_from_blob parse_binary block block_header header_rest transaction
    transaction_prefix plain_prefix rct_signatures rctsig_base chain convert embed field_if check
    ensure vector string times varint uint blob save_each load_each variant alternative
    no_alternative tx_out txout_target_v txin_v txin_gen is_supported_blob_type
    is_supported_transaction_version
test_template-parsed = refl

-- A test for bytes.
abbrev pub all_bytes : Bytes → Bool
all_bytes [] = true
all_bytes (b ∷ bs) = ltb b 256 && all_bytes bs

pub all_bytes-AreBytes : (bs : Bytes) → all_bytes bs ≡ true → AreBytes bs
all_bytes-AreBytes [] h = tt
all_bytes-AreBytes (b ∷ bs) h = elim (Bool-cases (ltb b 256)) [
  | inl e ↦ let more : all_bytes bs ≡ true = rw e at h in (small e, all_bytes-AreBytes bs more)
  | inr e ↦ let no : false ≡ true = rw e at h in cc
]
  where
    small : ltb b 256 ≡ true → b < 256
    small e = ground arith

pub test_template-AreBytes : AreBytes test_template
test_template-AreBytes = all_bytes-AreBytes test_template refl

test_template-Fits : (block max_amounts 0).Fits test_block
test_template-Fits =
    (block_to_blob-parse max_amounts 0 test_template test_block test_template-AreBytes (λ e. cc)
      test_template-parsed).0

block_to_blob-parse_example :
    (block max_amounts 0).Fits test_block
    × (block_to_blob max_amounts 0 test_block ≡ some test_template)
block_to_blob-parse_example =
    block_to_blob-parse max_amounts 0 test_template test_block test_template-AreBytes (λ e. cc)
      test_template-parsed

parse-block_to_blob_example :
    parse_and_validate_block_from_blob max_amounts 0 test_template ≡ some test_block
parse-block_to_blob_example =
    parse-block_to_blob max_amounts 0 test_block test_template test_template-Fits
      block_to_blob-parse_example.1

test_hashed : (x : Bytes) × (get_block_hashing_blob first_bytes max_amounts 0 test_block ≡ some x)
test_hashed =
    let parts =
      hashing_blob-exists first_bytes max_amounts 0 test_template test_block refl
        test_template-AreBytes (λ e. cc) test_template-parsed (omega arith) in
    (_, parts.6)

header_Fits : (block_header 0).Fits test_block.header
header_Fits = unfold block chain convert in test_template-Fits.0

first_bytes-size : (bs : Bytes) → length (first_bytes bs) ≡ 32
first_bytes-size bs = length-take 32 (bs ++ zeros 32) (omega (arith, length-append bs (zeros 32)))

hashing_blob-determines_example :
    (test_block.header ≡ test_block.header)
    × (get_tx_tree_hash first_bytes max_amounts 0 test_block
        ≡ get_tx_tree_hash first_bytes max_amounts 0 test_block)
    × (hashing_count first_bytes max_amounts 0 test_block
        ≡ hashing_count first_bytes max_amounts 0 test_block)
hashing_blob-determines_example =
    hashing_blob-determines first_bytes first_bytes-size max_amounts 0 test_block test_block
      test_hashed.0 refl header_Fits header_Fits test_hashed.1 test_hashed.1

pub supported : is_supported_blob_type 0 ≡ true
unfolding is_supported_blob_type
supported = refl

test_hashing_blob : Bytes
test_hashing_blob = test_hashed.0

test_converted :
    convert_blob first_bytes max_amounts (Argument.buffer test_template ∷ Argument.number 0 ∷ [])
    ≡ ok test_hashing_blob
unfolding convert_blob get_buffer_argument get_blob_type is_supported_blob_type test_hashing_blob
test_converted = rw (test_template-parsed, test_hashed.1)

get_block_id-convert_blob_example :
    (b : Block) × (parse_and_validate_block_from_blob max_amounts 0 test_template ≡ some b)
    × (get_block_hashing_blob first_bytes max_amounts 0 b ≡ some test_hashing_blob)
    × (get_block_id first_bytes max_amounts (Argument.buffer test_template ∷ Argument.number 0 ∷ [])
        ≡ (if ltb max_block_id_tx_hashes (length b.tx_hashes)
            then threw Error.too_many_tx_hashes
            else ok (first_bytes (write_varint (length test_hashing_blob) ++ test_hashing_blob))))
get_block_id-convert_blob_example =
    get_block_id-convert_blob first_bytes max_amounts 0 test_template test_hashing_blob supported
      test_converted

abbrev pub test_nonce : Bytes
test_nonce = 255 ∷ 0 ∷ 255 ∷ 0 ∷ []

construct_block_blob-replaces_example :
    (front : Bytes) × (back : Bytes) × (test_template ≡ front ++ (put_uint 4 0x04030201 ++ back))
    × (construct_block_blob max_amounts
          (Argument.buffer test_template ∷ Argument.buffer test_nonce ∷ Argument.number 0 ∷ [])
        ≡ ok (front ++ (test_nonce ++ back)))
    × (parse_and_validate_block_from_blob max_amounts 0 (front ++ (test_nonce ++ back))
        ≡ some (set_nonce (word_of test_nonce) test_block))
construct_block_blob-replaces_example =
    construct_block_blob-replaces max_amounts 0 test_template test_nonce test_block supported refl
      refl test_template-AreBytes (all_bytes-AreBytes test_nonce refl) (λ e. cc)
      test_template-parsed

convert_blob-construct_block_blob_example :
    (front : Bytes) × (back : Bytes) × (tail : Bytes) × (test_template
      ≡ front ++ (put_uint 4 0x04030201 ++ back))
    × (construct_block_blob max_amounts
          (Argument.buffer test_template ∷ Argument.buffer test_nonce ∷ Argument.number 0 ∷ [])
        ≡ ok (front ++ (test_nonce ++ back)))
    × (convert_blob first_bytes max_amounts (Argument.buffer test_template ∷ Argument.number 0 ∷ [])
        ≡ ok (front ++ (put_uint 4 0x04030201 ++ tail)))
    × (convert_blob first_bytes max_amounts
          (Argument.buffer (front ++ (test_nonce ++ back)) ∷ Argument.number 0 ∷ [])
        ≡ ok (front ++ (test_nonce ++ tail)))
convert_blob-construct_block_blob_example =
    convert_blob-construct_block_blob first_bytes max_amounts 0 test_template test_nonce test_block
      supported refl refl test_template-AreBytes (all_bytes-AreBytes test_nonce refl) (λ e. cc)
      test_template-parsed (omega arith)
