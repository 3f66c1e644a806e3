-- ===== src/Main.antt =====
-- src/main.cc: the functions that the addon exports. Of V8 the model keeps what the handlers look
-- at: whether an argument is a buffer, a number or an array, and what is read from it.
use node_blocktemplate.Prelude.{
  ℕ, zero, suc, ◌+◌, ◌*◌, ◌/◌, ◌%◌, ◌^◌, Bool, true, false, not, Option, none, some, List, [], ◌∷◌,
  ◌++◌, Bytes, ltb, leb, ◌==◌, if◌then◌else◌, length, get_elem?,
}
use node_blocktemplate.Archive.Fixed.{put_uint, word_of}
use node_blocktemplate.Config.{blob_type_cryptonote, blob_type_cuckoo, is_supported_blob_type}
use node_blocktemplate.Rct.Prunable.{MaxAmounts}
use node_blocktemplate.Basic.Header.{BlockHeader}
use node_blocktemplate.Basic.Block.{Block}
use node_blocktemplate.Format.{
  parse_and_validate_block_from_blob, block_to_blob, get_block_hashing_blob, get_block_hash,
}
use node_blocktemplate.Main.Outcome.{Error, Result, ok, threw, ◌>>=◌, or_throw, unless}
pub mod Outcome
pub mod Nonce
pub mod Construct
pub mod Mining
pub mod Cycle
pub mod Handlers
pub mod Errors
pub mod AddressDecode

-- An entry of an array: a hole, a number that is an unsigned integer of 32 bits, another number, or
-- an entry whose reading or conversion throws.
pub data Entry : Type 0 where
  hole : Entry
  unsigned : (v : ℕ) → Entry
  other_number : Entry
  throws : Entry

-- An argument. A number is kept as its `Int32Value`, read as 32 unsigned bits.
pub data Argument : Type 0 where
  buffer : Bytes → Argument
  number : ℕ → Argument
  array : List Entry → Argument
  other : Argument

unfoldable pub get_buffer_argument : Error → Option Argument → Result Bytes
get_buffer_argument message (some (Argument.buffer bs)) = ok bs
get_buffer_argument message value = threw message

-- The argument that names the kind of the blob, if there is one, and the test of the kind.
unfoldable pub get_blob_type : Error → Option Argument → Result ℕ
get_blob_type message none = ok blob_type_cryptonote
get_blob_type message (some (Argument.number bt)) =
    if is_supported_blob_type bt then ok bt else threw Error.unsupported_blob_type
get_blob_type message (some value) = threw message

-- One round of the loop of `ReadUint32Array`: the entry as it stands in memory.
unfoldable pub read_uint32 : Entry → Result Bytes
read_uint32 Entry.hole = threw Error.cycle_missing_entries
read_uint32 (Entry.unsigned v) =
    if ltb v (2 ^ 32) then ok (put_uint 4 v) else threw Error.cycle_entries_range
read_uint32 Entry.other_number = threw Error.cycle_entries_range
read_uint32 Entry.throws = threw Error.pending_exception

unfoldable pub read_uint32_loop : ℕ → List Entry → Result Bytes
unfolding read_uint32
read_uint32_loop zero items = ok []
read_uint32_loop (suc n) [] = threw Error.cycle_invalid_length
read_uint32_loop (suc n) (item ∷ items) = do
  bs ← read_uint32 item
  rest ← read_uint32_loop n items
  ok (bs ++ rest)

-- `ReadUint32Array`: the words that are written to `output`.
unfoldable pub read_uint32_array : ℕ → Option Argument → Result Bytes
unfolding read_uint32_loop
read_uint32_array expected (some (Argument.array items)) =
    if ltb (length items) expected
    then threw Error.cycle_invalid_length
    else read_uint32_loop expected items
read_uint32_array expected value = threw Error.cycle_not_an_array

abbrev pub mm_nonce_size : ℕ
mm_nonce_size = 1 + 2 + 32

abbrev pub max_block_id_tx_hashes : ℕ
max_block_id_tx_hashes = 65535

-- Big-endian, eight bytes.
unfoldable pub uint64be_to_blob : ℕ → Bytes
uint64be_to_blob num =
    (num / 2 ^ 56 % 256)
    ∷ (num / 2 ^ 48 % 256)
    ∷ (num / 2 ^ 40 % 256)
    ∷ (num / 2 ^ 32 % 256)
    ∷ (num / 2 ^ 24 % 256)
    ∷ (num / 2 ^ 16 % 256)
    ∷ (num / 2 ^ 8 % 256)
    ∷ (num % 256)
    ∷ []

-- `get_merged_mining_nonce_size`.
unfoldable pub get_merged_mining_nonce_size : List Argument → ℕ
get_merged_mining_nonce_size info = mm_nonce_size

unfoldable pub construct_mm_parent_block_blob : List Argument → Result Bytes
construct_mm_parent_block_blob info = threw Error.merged_mining_unsupported

unfoldable pub construct_mm_child_block_blob : List Argument → Result Bytes
construct_mm_child_block_blob info = threw Error.merged_mining_unsupported

-- `b.nonce = nonce`
unfoldable pub set_nonce : ℕ → Block → Block
set_nonce nonce b = record b { header = record b.header { nonce = nonce } }

unfoldable pub set_cycle : Bytes → Block → Block
set_cycle cycle b = record b { header = record b.header { cycle = cycle } }

-- The block with its nonce set, and for Cuckoo its cycle.
unfoldable pub fill_cycle : List Argument → ℕ → Block → Result Block
unfolding read_uint32_array set_cycle
fill_cycle info bt b =
    if bt == blob_type_cuckoo
    then (do
      _ ← unless (not (length info == 4)) Error.four_arguments_expected
      cycle ← read_uint32_array 32 (get_elem? info 3)
      ok (set_cycle cycle b))
    else ok b

module _ (cn_fast_hash : Bytes → Bytes) (n : MaxAmounts) where
  unfoldable pub convert_blob : List Argument → Result Bytes
  unfolding get_buffer_argument get_blob_type
  convert_blob info = do
    _ ← unless (ltb (length info) 1) Error.one_argument_expected
    input ← get_buffer_argument Error.argument_not_a_buffer (get_elem? info 0)
    bt ← get_blob_type Error.argument_2_not_a_number (get_elem? info 1)
    b ← or_throw (parse_and_validate_block_from_blob n bt input) Error.failed_to_parse_block_2
    or_throw (get_block_hashing_blob cn_fast_hash n bt b) Error.failed_to_create_mining_block

  unfoldable pub get_block_id : List Argument → Result Bytes
  unfolding get_buffer_argument get_blob_type
  get_block_id info = do
    _ ← unless (ltb (length info) 1) Error.one_argument_expected
    input ← get_buffer_argument Error.argument_not_a_buffer (get_elem? info 0)
    bt ← get_blob_type Error.argument_2_not_a_number (get_elem? info 1)
    b ← or_throw (parse_and_validate_block_from_blob n bt input) Error.failed_to_parse_block
    _ ← unless (ltb max_block_id_tx_hashes (length b.tx_hashes)) Error.too_many_tx_hashes
    or_throw (get_block_hash cn_fast_hash n bt b) Error.failed_to_calculate_hash

module _ (n : MaxAmounts) where
  unfoldable pub construct_block_blob : List Argument → Result Bytes
  unfolding get_buffer_argument get_blob_type word_of set_nonce fill_cycle
  construct_block_blob info = do
    _ ← unless (ltb (length info) 2) Error.two_arguments_expected
    template ← get_buffer_argument Error.arguments_not_buffers (get_elem? info 0)
    nonce ← get_buffer_argument Error.arguments_not_buffers (get_elem? info 1)
    bt ← get_blob_type Error.argument_3_not_a_number (get_elem? info 2)
    _ ← unless (not (length nonce == 4)) Error.nonce_invalid_size
    b ← or_throw (parse_and_validate_block_from_blob n bt template) Error.failed_to_parse_block
    filled ← fill_cycle info bt (set_nonce (word_of nonce) b)
    or_throw (block_to_blob n bt filled) Error.failed_to_convert_block
