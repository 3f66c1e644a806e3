-- ===== src/Format/Hashing.antt =====
-- `get_block_hashing_blob` (src/cryptonote_basic/cryptonote_format_utils.cpp): what a miner hashes.
use node_blocktemplate.Prelude.{
  ℕ, ◌≤◌, ◌≡◌, sym, ap, append-nil, [], ◌∙◌, ◌==◌, Bool, true, false, Option, none, some, some_eq,
  ◌++◌, length, ltb, if◌then◌else◌, ◌>>=◌, >>=-eq-some, Bytes, AreBytes, arith,
}
use node_blocktemplate.Archive.Codec.{Codec}
use node_blocktemplate.Prelude.{
  List, ◌∷◌, refl, ◌-◌, ◌^◌, ◌<◌, ◌&&◌, length-append, Bool-cases, inl, inr,
}
use node_blocktemplate.TreeHash.{tree_hash}
use node_blocktemplate.Archive.Varint.{varint, write_varint}
use node_blocktemplate.Archive.Varint.Laws.{varint-IsLossless}
use node_blocktemplate.Archive.Combine.{chain, convert}
use node_blocktemplate.Config.{blob_type_cryptonote3, blob_type_cuckoo, blob_type_salvium}
use node_blocktemplate.Rct.Prunable.{MaxAmounts}
use node_blocktemplate.Basic.Header.{block_header}
use node_blocktemplate.Basic.Header.Laws.{KeepsRecord, block_header-ReadsBack}
use node_blocktemplate.Basic.Block.{Block, block}
use node_blocktemplate.Format.{
  object_to_blob, parse_and_validate_block_from_blob, block_to_blob, get_tx_tree_hash,
  hashing_header, hashing_count, get_block_hashing_blob,
}
use node_blocktemplate.Format.Blocks.{block_to_blob-parse}

-- What a chain saves is what its first part saves, and more.
pub chain-save :
    {A B : Type 0} (c : Codec A) (d : A → Codec B) (p : A × B) (bs : Bytes)
    → (chain c d).save p ≡ some bs
    → (xs : Bytes) × (ys : Bytes) × (c.save p.0 ≡ some xs)
      × ((d p.0).save p.1 ≡ some ys)
      × (bs ≡ xs ++ ys)
unfolding chain
chain-save c d p bs h =
    let (xs, ex, more) = >>=-eq-some (c.save p.0) _ h in
    let (ys, ey, last) = >>=-eq-some ((d p.0).save p.1) _ more in
    (xs, ys, ex, ey, sym (some_eq last))

write_varint-reads :
    (v : ℕ) (rest : Bytes) → v < 2 ^ 64 → (varint 64).load (write_varint v ++ rest) ≡ some (v, rest)
unfolding varint
write_varint-reads v rest h = (varint-IsLossless 64).reads_back.at v (write_varint v) rest h refl

-- The header of a block within the ranges of its types is within them.
block-header_Fits :
    (n : MaxAmounts) (bt : ℕ) (b : Block) → (block n bt).Fits b → (block_header bt).Fits b.header
unfolding block chain convert
block-header_Fits n bt b fits = fits.0

if_none-eq-some :
    {A : Type 0} (test : Bool) {o : Option A} {x : A}
    → (if test then none else o) ≡ some x
    → o ≡ some x
if_none-eq-some true h = cc
if_none-eq-some false h = h

-- The blob of a block starts with the one of its header.
block_to_blob-starts :
    (n : MaxAmounts) (bt : ℕ) (b : Block) (blob : Bytes)
    → block_to_blob n bt b ≡ some blob
    → (front : Bytes) × (rest : Bytes) × ((block_header bt).save b.header ≡ some front)
      × (blob ≡ front ++ rest)
unfolding block_to_blob object_to_blob block convert
block_to_blob-starts n bt b blob h =
    let (front, rest, e, _, q) = chain-save _ _ _ blob h in (front, rest, e, q)

module _ (cn_fast_hash : Bytes → Bytes) (n : MaxAmounts) (bt : ℕ) where
  -- What stands behind the header in a hashing blob of a kind other than Cuckoo.
  abbrev pub hashing_tail : Block → Bytes
  hashing_tail b =
      get_tx_tree_hash cn_fast_hash n bt b
      ++ (write_varint (hashing_count cn_fast_hash n bt b)
          ++ (if bt == blob_type_cryptonote3 then b.uncle else []))

  -- The hashing blob of a kind other than Cuckoo.
  hashing_blob-plain :
      (b : Block)
      → (bt == blob_type_cuckoo) ≡ false
      → get_block_hashing_blob cn_fast_hash n bt b ≡ (
          if ltb 0x10000 (length b.tx_hashes)
          then none
          else ((block_header bt).save b.header >>= λ front. some (front ++ hashing_tail b)))
  unfolding get_block_hashing_blob hashing_header object_to_blob
  hashing_blob-plain b plain = rw (plain, append-nil)

  pub hashing_blob-parts :
      (b : Block) (front : Bytes)
      → (bt == blob_type_cuckoo) ≡ false
      → (block_header bt).save b.header ≡ some front
      → length b.tx_hashes ≤ 0x10000
      → get_block_hashing_blob cn_fast_hash n bt b ≡ some (front ++ hashing_tail b)
  hashing_blob-parts b front plain saved few =
      let admitted : ltb 0x10000 (length b.tx_hashes) ≡ false = ground arith in
      rw (hashing_blob-plain b plain, admitted, saved)

  -- The hashes that the tree is over: of the miner's transaction, for Salvium of the protocol's,
  -- and those of the block.
  tree_hash-coinbases :
      (b : Block)
      → (coinbases : List Bytes) × (length coinbases ≡ (if bt == blob_type_salvium then 2 else 1))
        × (get_tx_tree_hash cn_fast_hash n bt b ≡ tree_hash cn_fast_hash (coinbases ++ b.tx_hashes))
  unfolding get_tx_tree_hash
  tree_hash-coinbases b = elim (Bool-cases (bt == blob_type_salvium)) [
    | inl two ↦ rw two (_ ∷ _ ∷ [], refl, refl)
    | inr one ↦ rw one (_ ∷ [], refl, refl)
  ]

  -- Their number is the count that is written, but for Salvium before version 2 one more.
  hashing_count-coinbases :
      (b : Block) (coinbases : List Bytes)
      → length coinbases ≡ (if bt == blob_type_salvium then 2 else 1)
      → hashing_count cn_fast_hash n bt b
        ≡ length (coinbases ++ b.tx_hashes)
          - (if bt == blob_type_salvium && ltb b.header.major_version 2 then 1 else 0)
  unfolding hashing_count
  hashing_count-coinbases b coinbases h =
      let size = length-append coinbases b.tx_hashes in ground (arith, size, h)

  hashing_count_small :
      (b : Block) → length b.tx_hashes ≤ 0x10000 → hashing_count cn_fast_hash n bt b < 2 ^ 64
  unfolding hashing_count
  hashing_count_small b few = ground (arith, few)

  pub hashing_blob-exists :
      (blob : Bytes) (b : Block)
      → (bt == blob_type_cuckoo) ≡ false
      → AreBytes blob
      → KeepsRecord bt b.header.major_version
      → parse_and_validate_block_from_blob n bt blob ≡ some b
      → length b.tx_hashes ≤ 0x10000
      → (front : Bytes) × (rest : Bytes) × (coinbases : List Bytes) × (more : Bytes) × (blob
          ≡ front ++ rest)
        × ((block_header bt).load blob ≡ some (b.header, rest))
        × (get_block_hashing_blob cn_fast_hash n bt b
            ≡ some (front ++ (tree_hash cn_fast_hash (coinbases ++ b.tx_hashes) ++ more)))
        × (length coinbases ≡ (if bt == blob_type_salvium then 2 else 1))
        × ((varint 64).load more
            ≡ some (
              length (coinbases ++ b.tx_hashes)
                  - (if bt == blob_type_salvium && ltb b.header.major_version 2 then 1 else 0),
              if bt == blob_type_cryptonote3 then b.uncle else [],
            ))
  hashing_blob-exists blob b plain hx keeps parsed few =
      let (fits, saved) = block_to_blob-parse n bt blob b hx keeps parsed in
      let (front, rest, e, q) = block_to_blob-starts n bt b blob saved in
      let (coinbases, size, tree) = tree_hash-coinbases b in
      let count = hashing_count cn_fast_hash n bt b in
      let uncle = if bt == blob_type_cryptonote3 then b.uncle else [] in
      let loaded =
        ap (block_header bt).load q
        ∙ (block_header-ReadsBack bt).at b.header front rest (block-header_Fits n bt b fits) e in
      let read = write_varint-reads count uncle (hashing_count_small b few) in
      let counted = hashing_count-coinbases b coinbases size in
      (
        front,
        rest,
        coinbases,
        write_varint count ++ uncle,
        q,
        loaded,
        hashing_blob-parts b front plain e few
            ∙ ap (λ (t : Bytes). some (front ++ (t ++ (write_varint count ++ uncle)))) tree,
        size,
        read ∙ ap (λ (t : ℕ). some (t, uncle)) counted,
      )

  hashing_blob-inv :
      (b : Block) (x : Bytes)
      → (bt == blob_type_cuckoo) ≡ false
      → get_block_hashing_blob cn_fast_hash n bt b ≡ some x
      → (front : Bytes) × ((block_header bt).save b.header ≡ some front)
        × (x ≡ front ++ hashing_tail b)
  hashing_blob-inv b x plain h =
      let kept =
        if_none-eq-some (ltb 0x10000 (length b.tx_hashes)) (sym (hashing_blob-plain b plain) ∙ h) in
      let (front, e, last) = >>=-eq-some ((block_header bt).save b.header) _ kept in
      (front, e, sym (some_eq last))

  -- Two blocks of one kind other than Cuckoo, their headers within the ranges of their types, that
  -- have one hashing blob have one header, and one tail of tree hash, count and uncle.
  pub hashing_blob-injective :
      (b c : Block) (x : Bytes)
      → (bt == blob_type_cuckoo) ≡ false
      → (block_header bt).Fits b.header
      → (block_header bt).Fits c.header
      → get_block_hashing_blob cn_fast_hash n bt b ≡ some x
      → get_block_hashing_blob cn_fast_hash n bt c ≡ some x
      → (b.header ≡ c.header) × (hashing_tail b ≡ hashing_tail c)
  hashing_blob-injective b c x plain fits_b fits_c hb hc =
      let (front_b, eb, qb) = hashing_blob-inv b x plain hb in
      let (front_c, ec, qc) = hashing_blob-inv c x plain hc in
      let lb = (block_header-ReadsBack bt).at b.header front_b (hashing_tail b) fits_b eb in
      let lc = (block_header-ReadsBack bt).at c.header front_c (hashing_tail c) fits_c ec in
      let same : some (b.header, hashing_tail b) ≡ some (c.header, hashing_tail c) =
        sym lb ∙ ap (block_header bt).load (sym qb ∙ qc) ∙ lc in
      (ap (λ p. p.0) (some_eq same), ap (λ p. p.1) (some_eq same))
