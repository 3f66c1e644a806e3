-- ===== src/Main/Handlers.antt =====
-- What the handlers of src/main.cc return, in terms of the blocks that their buffers hold.
use node_blocktemplate.Prelude.{
  ℕ, ◌≡◌, sym, ◌∙◌, true, some, [], ◌∷◌, Bool-cases, inl, inr, ◌++◌, Bytes, ltb, if◌then◌else◌,
  length,
}
use node_blocktemplate.Archive.Varint.{write_varint}
use node_blocktemplate.Config.{is_supported_blob_type}
use node_blocktemplate.Rct.Prunable.{MaxAmounts}
use node_blocktemplate.Basic.Block.{Block}
use node_blocktemplate.Format.{
  parse_and_validate_block_from_blob, get_block_hashing_blob, get_block_hash,
}
use node_blocktemplate.Main.Outcome.{
  Error, ok, threw, ◌>>=◌, >>=-eq-ok, or_throw, or_throw-eq-ok, unless,
}
use node_blocktemplate.Main.{
  Argument, get_buffer_argument, get_blob_type, max_block_id_tx_hashes, convert_blob, get_block_id,
}

module _ (cn_fast_hash : Bytes → Bytes) (n : MaxAmounts) where
  -- `convert_blob` on a buffer and a supported kind.
  pub convert_blob-lem :
      (bt : ℕ) (input : Bytes)
      → is_supported_blob_type bt ≡ true
      → convert_blob cn_fast_hash n (Argument.buffer input ∷ Argument.number bt ∷ []) ≡ (
          or_throw (parse_and_validate_block_from_blob n bt input) Error.failed_to_parse_block_2
          >>= λ b.
              or_throw
                (get_block_hashing_blob cn_fast_hash n bt b)
                Error.failed_to_create_mining_block)
  unfolding convert_blob get_blob_type get_buffer_argument
  convert_blob-lem bt input h = rw h

  get_block_id-lem :
      (bt : ℕ) (input : Bytes)
      → is_supported_blob_type bt ≡ true
      → get_block_id cn_fast_hash n (Argument.buffer input ∷ Argument.number bt ∷ []) ≡ (
          or_throw (parse_and_validate_block_from_blob n bt input) Error.failed_to_parse_block
          >>= λ b.
              unless (ltb max_block_id_tx_hashes (length b.tx_hashes)) Error.too_many_tx_hashes
              >>= λ _. or_throw (get_block_hash cn_fast_hash n bt b) Error.failed_to_calculate_hash)
  unfolding get_block_id get_blob_type get_buffer_argument
  get_block_id-lem bt input h = rw h

  -- Where `convert_blob`, on a buffer and a supported kind, returns a blob, the buffer holds a block
  -- with that hashing blob, and `get_block_id` on the same arguments throws, if the block has more than
  -- 65535 transaction hashes, or returns the hash of that blob with its size in front.
  pub get_block_id-convert_blob :
      (bt : ℕ) (input x : Bytes)
      → is_supported_blob_type bt ≡ true
      → convert_blob cn_fast_hash n (Argument.buffer input ∷ Argument.number bt ∷ []) ≡ ok x
      → (b : Block) × (parse_and_validate_block_from_blob n bt input ≡ some b)
        × (get_block_hashing_blob cn_fast_hash n bt b ≡ some x)
        × (get_block_id cn_fast_hash n (Argument.buffer input ∷ Argument.number bt ∷ []) ≡ (
            if ltb max_block_id_tx_hashes (length b.tx_hashes)
            then threw Error.too_many_tx_hashes
            else ok (cn_fast_hash (write_varint (length x) ++ x))))
  unfolding get_block_hash
  get_block_id-convert_blob bt input x h converted =
      let (b, parsed, hashed) =
        >>=-eq-ok
          (or_throw (parse_and_validate_block_from_blob n bt input) Error.failed_to_parse_block_2) _
          (sym (convert_blob-lem bt input h) ∙ converted) in
      let p = or_throw-eq-ok (parse_and_validate_block_from_blob n bt input) _ parsed in
      let q = or_throw-eq-ok (get_block_hashing_blob cn_fast_hash n bt b) _ hashed in
      (b, p, q, get_block_id-lem bt input h ∙ limited b p q)
    where
      limited :
          (b : Block)
          → parse_and_validate_block_from_blob n bt input ≡ some b
          → get_block_hashing_blob cn_fast_hash n bt b ≡ some x
          → (or_throw (parse_and_validate_block_from_blob n bt input) Error.failed_to_parse_block
              >>= λ b.
                  unless (ltb max_block_id_tx_hashes (length b.tx_hashes)) Error.too_many_tx_hashes
                  >>= λ _.
                      or_throw (get_block_hash cn_fast_hash n bt b) Error.failed_to_calculate_hash)
            ≡ (if ltb max_block_id_tx_hashes (length b.tx_hashes)
                then threw Error.too_many_tx_hashes
                else ok (cn_fast_hash (write_varint (length x) ++ x)))
      limited b p q = elim (Bool-cases (ltb max_block_id_tx_hashes (length b.tx_hashes))) [
        | inl many ↦ rw (p, many)
        | inr few ↦ rw (p, few, q)
      ]
