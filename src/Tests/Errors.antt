-- ===== src/Tests/Errors.antt =====
-- What the handlers throw, on concrete inputs.
use node_blocktemplate.Prelude.{◌≡◌, refl, none, true, [], ◌∷◌, Bytes}
use node_blocktemplate.Archive.Varint.{varint}
use node_blocktemplate.Archive.Combine.{chain, convert}
use node_blocktemplate.Config.{is_supported_blob_type}
use node_blocktemplate.Basic.Header.{block_header}
use node_blocktemplate.Basic.Block.{block}
use node_blocktemplate.Format.{parse_binary, parse_and_validate_block_from_blob}
use node_blocktemplate.Main.Outcome.{Error, threw}
use node_blocktemplate.Main.{Argument, convert_blob, get_block_id, construct_block_blob}
use node_blocktemplate.Main.Errors.{construct_block_blob-only}
use node_blocktemplate.Main.Construct.{construct_block_blob-replaces}
use node_blocktemplate.Main.{set_nonce, get_blob_type, get_buffer_argument}
use node_blocktemplate.Archive.Fixed.{word_of}
use node_blocktemplate.Basic.Block.{Block}
use node_blocktemplate.Prelude.{length, some}
use node_blocktemplate.Main.Outcome.{ok}
use node_blocktemplate.Tests.{
  test_template, test_block, test_nonce, test_template-AreBytes, test_template-parsed,
  all_bytes-AreBytes, supported,
}
use node_blocktemplate.Tests.{max_amounts, first_bytes}

masari : is_supported_blob_type 6 ≡ true
unfolding is_supported_blob_type
masari = refl

-- A varint that does not end.
abbrev cut_short : Bytes
cut_short = 200 ∷ []

cut_short-unparsed : parse_and_validate_block_from_blob max_amounts 6 cut_short ≡ none
unfolding parse_and_validate_block_from_blob parse_binary block block_header chain convert varint
cut_short-unparsed = refl

abbrev error_nonce : Bytes
error_nonce = 1 ∷ 2 ∷ 3 ∷ 4 ∷ []

test_returned :
    (out : Bytes) × (construct_block_blob max_amounts
        (Argument.buffer test_template ∷ Argument.buffer test_nonce ∷ Argument.number 0 ∷ [])
      ≡ ok out)
test_returned =
    let parts =
      construct_block_blob-replaces max_amounts 0 test_template test_nonce test_block supported refl
        refl test_template-AreBytes (all_bytes-AreBytes test_nonce refl) (λ e. cc)
        test_template-parsed in
    (_, parts.3)

construct_block_blob-only_example :
    (is_supported_blob_type 0 ≡ true)
    × (length test_nonce ≡ 4)
    × (length test_returned.0 ≡ length test_template)
    × ((b : Block) × (parse_and_validate_block_from_blob max_amounts 0 test_template ≡ some b)
        × (parse_and_validate_block_from_blob max_amounts 0 test_returned.0
            ≡ some (set_nonce (word_of test_nonce) b)))
construct_block_blob-only_example =
    construct_block_blob-only max_amounts 0 test_template test_nonce test_returned.0 refl refl
      test_template-AreBytes (all_bytes-AreBytes test_nonce refl) test_returned.1

-- A varint that does not end is refused by the three handlers, each with its message.
refused :
    (convert_blob first_bytes max_amounts (Argument.buffer cut_short ∷ Argument.number 6 ∷ [])
      ≡ threw Error.failed_to_parse_block_2)
    × (get_block_id first_bytes max_amounts (Argument.buffer cut_short ∷ Argument.number 6 ∷ [])
        ≡ threw Error.failed_to_parse_block)
    × (construct_block_blob max_amounts
          (Argument.buffer cut_short ∷ Argument.buffer error_nonce ∷ Argument.number 6 ∷ [])
        ≡ threw Error.failed_to_parse_block)
unfolding convert_blob get_block_id construct_block_blob get_blob_type get_buffer_argument
refused = (
  rw (masari, cut_short-unparsed),
  rw (masari, cut_short-unparsed),
  rw (masari, cut_short-unparsed),
)
