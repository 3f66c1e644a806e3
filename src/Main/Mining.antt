-- ===== src/Main/Mining.antt =====
-- `convert_blob` of src/main.cc on what `construct_block_blob` returns: the work of a miner, who
-- changes the nonce in the blob that is hashed, and the block that it stands for.
use node_blocktemplate.Archive.Fixed.Laws.{put_uint-word_of}
use node_blocktemplate.Archive.Fixed.{put_uint, word_of}
use node_blocktemplate.Prelude.{
  ℕ, ◌≤◌, ◌≡◌, refl, ap, ◌∙◌, true, false, some, [], ◌∷◌, ◌++◌, Bytes, AreBytes, ◌==◌, length,
}
use node_blocktemplate.Config.{blob_type_cuckoo, is_supported_blob_type}
use node_blocktemplate.Rct.Prunable.{MaxAmounts}
use node_blocktemplate.Basic.Header.{block_header}
use node_blocktemplate.Basic.Header.Laws.{KeepsRecord}
use node_blocktemplate.Basic.Block.{Block, block}
use node_blocktemplate.Format.{
  object_to_blob, parse_and_validate_block_from_blob, block_to_blob, get_tx_tree_hash,
  hashing_count, get_block_hashing_blob,
}
use node_blocktemplate.Format.Hashing.{chain-save, hashing_tail, hashing_blob-parts}
use node_blocktemplate.Format.Blocks.{parse-block_to_blob, block_to_blob-parse}
use node_blocktemplate.Archive.Combine.{convert}
use node_blocktemplate.Main.Outcome.{ok}
use node_blocktemplate.Main.{Argument, set_nonce, convert_blob, construct_block_blob}
use node_blocktemplate.Archive.Combine.Laws.{saved_chain}
use node_blocktemplate.Main.Nonce.{regroup, header-Swaps, set_nonce-Fits, word_of_lt}
use node_blocktemplate.Main.Construct.{construct_block_blob-lem}
use node_blocktemplate.Main.Handlers.{convert_blob-lem}

-- The blob of a block with its header and the place of the nonce in it.
record Parts (n : MaxAmounts) (bt : ℕ) (b : Block) (nonce : ℕ) (blob : Bytes) : Type 0 where
  front : Bytes
  back : Bytes
  rest : Bytes
  header : (block_header bt).save b.header ≡ some (front ++ (put_uint 4 b.header.nonce ++ back))
  header' :
      (block_header bt).save (set_nonce nonce b).header ≡ some (front ++ (put_uint 4 nonce ++ back))
  whole : blob ≡ front ++ (put_uint 4 b.header.nonce ++ (back ++ rest))
  whole' :
      block_to_blob n bt (set_nonce nonce b) ≡ some (front ++ (put_uint 4 nonce ++ (back ++ rest)))

parts :
    (n : MaxAmounts) (bt : ℕ) (b : Block) (nonce : ℕ) (blob : Bytes)
    → block_to_blob n bt b ≡ some blob
    → Parts n bt b nonce blob
unfolding block_to_blob object_to_blob block convert set_nonce
parts n bt b nonce blob h =
    let (head, rest, e, more, q) = chain-save _ _ _ blob h in
    let (front, back, at, put) = header-Swaps bt b.header nonce head e in
    record {
      front = front;
      back = back;
      rest = rest;
      header = e ∙ ap some at;
      header' = put;
      whole =
          q
          ∙ ap (λ (t : Bytes). t ++ rest) at
          ∙ regroup front (put_uint 4 b.header.nonce) back rest;
      whole' =
          saved_chain _ _ _ _ rest put more ∙ ap some (regroup front (put_uint 4 nonce) back rest);
    }

module _ (cn_fast_hash : Bytes → Bytes) (n : MaxAmounts) (bt : ℕ) where
  hashing_tail-set_nonce :
      (b : Block) (nonce : ℕ)
      → hashing_tail cn_fast_hash n bt (set_nonce nonce b) ≡ hashing_tail cn_fast_hash n bt b
  unfolding set_nonce get_tx_tree_hash hashing_count
  hashing_tail-set_nonce b nonce = refl

  few-set_nonce :
      (b : Block) (nonce : ℕ)
      → length b.tx_hashes ≤ 0x10000
      → length (set_nonce nonce b).tx_hashes ≤ 0x10000
  unfolding set_nonce
  few-set_nonce b nonce h = h

  converted :
      (blob x : Bytes) (b : Block)
      → is_supported_blob_type bt ≡ true
      → parse_and_validate_block_from_blob n bt blob ≡ some b
      → get_block_hashing_blob cn_fast_hash n bt b ≡ some x
      → convert_blob cn_fast_hash n (Argument.buffer blob ∷ Argument.number bt ∷ []) ≡ ok x
  converted blob x b known parsed hashed =
      convert_blob-lem cn_fast_hash n bt blob known ∙ rw (parsed, hashed)

  -- For a supported kind other than Cuckoo, a nonce of four bytes and a template that parses, as a
  -- block that is not one of Zephyr before version 3 and has at most 0x10000 transaction hashes:
  -- the template and its hashing blob start with the same bytes and the template's nonce, so the
  -- nonce stands at one offset in both; construct_block_blob replaces it in the template, and the
  -- hashing blob that convert_blob gives for the result is the one of the template with the nonce
  -- replaced there and nothing else.
  pub convert_blob-construct_block_blob :
      (template nonce : Bytes) (b : Block)
      → is_supported_blob_type bt ≡ true
      → (bt == blob_type_cuckoo) ≡ false
      → length nonce ≡ 4
      → AreBytes template
      → AreBytes nonce
      → KeepsRecord bt b.header.major_version
      → parse_and_validate_block_from_blob n bt template ≡ some b
      → length b.tx_hashes ≤ 0x10000
      → (front : Bytes) × (back : Bytes) × (tail : Bytes) × (template
          ≡ front ++ (put_uint 4 b.header.nonce ++ back))
        × (construct_block_blob n
              (Argument.buffer template ∷ Argument.buffer nonce ∷ Argument.number bt ∷ [])
            ≡ ok (front ++ (nonce ++ back)))
        × (convert_blob cn_fast_hash n (Argument.buffer template ∷ Argument.number bt ∷ [])
            ≡ ok (front ++ (put_uint 4 b.header.nonce ++ tail)))
        × (convert_blob cn_fast_hash n
              (Argument.buffer (front ++ (nonce ++ back)) ∷ Argument.number bt ∷ [])
            ≡ ok (front ++ (nonce ++ tail)))
  convert_blob-construct_block_blob template nonce b known plain four ht hn keeps parsed few =
      let value = word_of nonce in
      let (fits, saved) = block_to_blob-parse n bt template b ht keeps parsed in
      let p = parts n bt b value template saved in
      let word : put_uint 4 value ≡ nonce = rw four at (put_uint-word_of nonce hn) in
      let fits' = set_nonce-Fits n bt b value (word_of_lt nonce hn four) fits in
      let end = hashing_tail cn_fast_hash n bt b in
      let behind = p.back ++ p.rest in
      let written : block_to_blob n bt (set_nonce value b) ≡ some (p.front ++ (nonce ++ behind)) =
        p.whole' ∙ ap (λ (t : Bytes). some (p.front ++ (t ++ behind))) word in
      let hashed =
        hashing_blob-parts cn_fast_hash n bt b _ plain p.header few
        ∙ ap some (regroup p.front (put_uint 4 b.header.nonce) p.back end) in
      let hashed' =
        hashing_blob-parts cn_fast_hash n bt (set_nonce value b) _ plain p.header'
          (few-set_nonce b value few)
        ∙ ap (λ (t : Bytes). some ((p.front ++ (put_uint 4 value ++ p.back)) ++ t))
            (hashing_tail-set_nonce b value)
        ∙ ap some (regroup p.front (put_uint 4 value) p.back end)
        ∙ ap (λ (t : Bytes). some (p.front ++ (t ++ (p.back ++ end)))) word in
      let parsed' =
        parse-block_to_blob n bt (set_nonce value b) (p.front ++ (nonce ++ behind)) fits' written in
      (
        p.front,
        behind,
        p.back ++ end,
        p.whole,
        construct_block_blob-lem n bt template nonce known plain four ∙ rw (parsed, written),
        converted template _ b known parsed hashed,
        converted (p.front ++ (nonce ++ behind)) _ (set_nonce value b) known parsed' hashed',
      )
