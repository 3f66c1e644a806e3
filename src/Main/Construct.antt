-- ===== src/Main/Construct.antt =====
-- `construct_block_blob` of src/main.cc: the template with another nonce.
use node_blocktemplate.Archive.Fixed.Laws.{put_uint-word_of}
use node_blocktemplate.Archive.Fixed.{word_of}
use node_blocktemplate.Prelude.{
  ℕ, ◌≡◌, ap, ◌∙◌, true, false, some, [], ◌∷◌, ◌++◌, Bytes, AreBytes, ◌==◌, length,
}
use node_blocktemplate.Archive.Fixed.{put_uint}
use node_blocktemplate.Config.{blob_type_cuckoo, is_supported_blob_type}
use node_blocktemplate.Rct.Prunable.{MaxAmounts}
use node_blocktemplate.Basic.Header.Laws.{KeepsRecord}
use node_blocktemplate.Basic.Block.{Block}
use node_blocktemplate.Format.{object_to_blob, parse_and_validate_block_from_blob, block_to_blob}
use node_blocktemplate.Format.Blocks.{parse-block_to_blob, block_to_blob-parse}
use node_blocktemplate.Main.Outcome.{Error, ok, ◌>>=◌, or_throw}
use node_blocktemplate.Main.{
  Argument, get_buffer_argument, get_blob_type, set_nonce, fill_cycle, construct_block_blob,
}
use node_blocktemplate.Main.Nonce.{block-Swaps, set_nonce-Fits, word_of_lt}

module _ (n : MaxAmounts) (bt : ℕ) (template nonce : Bytes) where
  -- The handler on a template and a nonce of four bytes, for a supported kind other than Cuckoo.
  pub construct_block_blob-lem :
      is_supported_blob_type bt ≡ true
      → (bt == blob_type_cuckoo) ≡ false
      → length nonce ≡ 4
      → construct_block_blob n
          (Argument.buffer template ∷ Argument.buffer nonce ∷ Argument.number bt ∷ [])
        ≡ (or_throw (parse_and_validate_block_from_blob n bt template) Error.failed_to_parse_block
            >>= λ b.
                or_throw
                  (block_to_blob n bt (set_nonce (word_of nonce) b))
                  Error.failed_to_convert_block)
  unfolding construct_block_blob get_buffer_argument get_blob_type fill_cycle
  construct_block_blob-lem known plain four = rw (known, plain, four)

  -- For a supported kind other than Cuckoo and a nonce of four bytes, a template that parses, as a
  -- block that is not one of Zephyr before version 3, is returned with four of its bytes, where its
  -- own nonce stands, replaced by the given ones; the result parses to the block of the template
  -- with that nonce, read as a little-endian integer.
  pub construct_block_blob-replaces :
      (b : Block)
      → is_supported_blob_type bt ≡ true
      → (bt == blob_type_cuckoo) ≡ false
      → length nonce ≡ 4
      → AreBytes template
      → AreBytes nonce
      → KeepsRecord bt b.header.major_version
      → parse_and_validate_block_from_blob n bt template ≡ some b
      → (front : Bytes) × (back : Bytes) × (template ≡ front ++ (put_uint 4 b.header.nonce ++ back))
        × (construct_block_blob n
              (Argument.buffer template ∷ Argument.buffer nonce ∷ Argument.number bt ∷ [])
            ≡ ok (front ++ (nonce ++ back)))
        × (parse_and_validate_block_from_blob n bt (front ++ (nonce ++ back))
            ≡ some (set_nonce (word_of nonce) b))
  unfolding block_to_blob object_to_blob
  construct_block_blob-replaces b known plain four ht hn keeps parsed =
      let (fits, saved) = block_to_blob-parse n bt template b ht keeps parsed in
      let (front, back, at, put) = block-Swaps n bt b (word_of nonce) template saved in
      let word : put_uint 4 (word_of nonce) ≡ nonce = rw four at (put_uint-word_of nonce hn) in
      let written : block_to_blob n bt (set_nonce (word_of nonce) b)
          ≡ some (front ++ (nonce ++ back)) =
        put ∙ ap (λ (t : Bytes). some (front ++ (t ++ back))) word in
      let fits' = set_nonce-Fits n bt b (word_of nonce) (word_of_lt nonce hn four) fits in
      (
        front,
        back,
        at,
        construct_block_blob-lem known plain four ∙ rw (parsed, written),
        parse-block_to_blob n bt (set_nonce (word_of nonce) b) (front ++ (nonce ++ back)) fits'
            written,
      )
