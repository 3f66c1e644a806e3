-- ===== src/Lib.antt =====
-- The addon of node-blocktemplate turns block templates of Cryptonote coins into what a miner
-- hashes, back into solved blocks, and into block ids, and it decodes addresses. This library
-- models the native part: the archive format, the block and transaction types, the extra part of
-- transactions, hashing blobs, the hash itself, Base58 addresses and the exported handlers.
--
-- A handler of src/main.cc takes a buffer and the kind of the blob, parses the buffer as a block
-- (src/cryptonote_basic/cryptonote_format_utils.cpp, src/cryptonote_basic/cryptonote_basic.h) over
-- `binary_archive` (src/serialization), and returns a hashing blob, a hash or a blob; or it takes
-- an address (src/common/base58.cpp) and returns its tag or its bytes.
--
--   Prelude       numbers, lists of bytes, tests and bits shared by all modules.
--   Archive       src/serialization and src/common/varint.h. A `do_serialize`
--                 template, in its saving and its loading instance, is one `Codec`: `save` returns the
--                 bytes that were written, `load` the value and the input that is left, and `none` is
--                 a `false` or a stream that is no longer good. `chain` and `◌▹◌` are FIELDs one after
--                 another, `field_if` a FIELD under a condition, `check` and `ensure` an early
--                 `return false`, `convert` and `embed` the members of an object.
--   Config        src/cryptonote_config.h: supported kinds of blobs and transaction versions.
--   Oracle        src/zephyr_oracle/pricing_record.h and src/salvium_oracle/pricing_record.h: what
--                 they have on the wire.
--   Rct           src/ringct/rctTypes.h: proofs, the base and the prunable part of signatures.
--   Basic         src/cryptonote_basic/cryptonote_basic.h: inputs, outputs, prefixes, transactions,
--                 headers, blocks and addresses. The kind of the blob, a member `blob_type` in the program, is an
--                 argument of the codecs, since it is never on the wire.
--   TreeHash      src/crypto/tree-hash.c. TreeHash/Smear has the size of the first level of `tree_hash`,
--                 TreeHash/Merkle the full binary tree and the loop, TreeHash/Root the whole, and
--                 TreeHash/Branch `tree_depth`, `tree_branch` and `tree_hash_from_branch`, with their
--                 loops in Branch/Depth, the first level in Branch/Level and the tree hash in
--                 Branch/Laws.
--   TxExtra       src/cryptonote_basic/tx_extra.h: the fields of the extra part of a transaction;
--                 TxExtra/Field has the variant of the fields, TxExtra/Parse the functions of
--                 src/cryptonote_basic/cryptonote_format_utils.cpp that parse and edit it.
--   Keccak        src/crypto/keccak.c and src/crypto/hash.c: `cn_fast_hash`. Keccak/Words is about the
--                 state, Keccak/Padding about the last block, Keccak/Size about what is returned;
--                 Keccak/Steps has the permutation of FIPS 202 by columns and rows, Keccak/Slices and
--                 Keccak/Absorb one block, and Keccak/Sponge the whole hash.
--   Base58        src/common/base58.cpp; Base58/Letters has the tables, Base58/Digits and Base58/Blocks
--                 one block, Base58/RoundTrip and Base58/Canonical whole strings, Base58/Address
--                 addresses with their tag and checksum.
--   Format        src/cryptonote_basic/cryptonote_format_utils.cpp: blobs, hashes, hashing blobs.
--                 Format/Blocks and Format/Blanked are about blobs, Format/Hashing and
--                 Format/Determines about hashing blobs, Format/Amounts and Format/Offsets about amounts and output offsets.
--   Main          src/main.cc: the handlers on the arguments they are called with, and what they
--                 return (Main/Outcome). Main/Handlers is about convert_blob and get_block_id,
--                 Main/Nonce, Main/Construct, Main/Cycle and Main/Errors about construct_block_blob,
--                 Main/Mining about both, and Main/AddressDecode about the address handlers.
--   Tests         the theorems on concrete inputs.
--
-- Each codec has a child module Laws with its round trip. `ReadsBack` says that what is saved is
-- loaded back, whatever bytes follow, `RewritesIf` that what is loaded is saved as the bytes that
-- were taken, and `IsLossless` is both. `Fits` holds of the values that the C++ types can hold and
-- that an object just made holds off the wire. Padding in the extra part of a transaction is the
-- one field that is not read back before other bytes. `KeepsRecord` leaves out the blocks of Zephyr before
-- version 3, whose pricing record is dropped on loading; the modules Blanked, with `BlanksIf` of
-- Archive/Combine/Blanks, are about these.
--
-- Numbers are natural numbers; the wrap-around of the C++ types is written out where the program
-- can reach it. Loops are structural recursion on the bytes or on a count; `write_varint` and the
-- loop over the digits of an amount recurse on the well-founded order of numbers. The halving loop
-- of `tree_hash` has fuel 64, as many rounds as `size_t` has bits. The loop of `parse_tx_extra` has
-- as much fuel as there are bytes, since a field takes one or more; `parse_tx_extra-field` of
-- TxExtra/Parse/Laws is its round without fuel. `encode_block` has as many rounds as its block has
-- places, and a write in front of the block is `none`.
--
-- Parameters: the modules that hash take the hash as a parameter, and where a theorem needs its size,
-- that it has 32 bytes; `cn_fast_hash` of Keccak is such a hash. `crypto::check_key`, since the curve
-- arithmetic is not modelled. `n_bulletproof_max_amounts` with its plus variant, which
-- src/ringct/rctTypes.h declares and calls and no file of the repository defines.
--
-- Not modelled: allocation failures; the bytes that a failed save leaves behind (here `none`), and
-- what a failed decoding leaves in its output; key-value storage and signatures of the pricing
-- records; the assertions of src/crypto/tree-hash.c; the curve arithmetic and the epee headers, which
-- are copies of other projects; the JavaScript helpers.
pub mod Prelude
pub mod Archive
pub mod Config
pub mod Basic
pub mod Rct
pub mod Oracle
pub mod TreeHash
pub mod Base58
pub mod Keccak
pub mod Format
pub mod TxExtra
pub mod Main
pub mod Tests
