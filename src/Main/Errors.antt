-- ===== src/Main/Errors.antt =====
-- When `construct_block_blob` of src/main.cc throws and when it returns a blob.
use node_blocktemplate.Prelude.{
  ℕ, ◌≡◌, ◌⊎◌, sym, ap, ◌∙◌, Bool-cases, Option-cases, inl, inr, true, false, none, some, [], ◌∷◌,
  ◌++◌, Bytes, AreBytes, ◌==◌, ==_iff, length, length-append, arith,
}
use node_blocktemplate.Archive.Fixed.{put_uint, word_of}
use node_blocktemplate.Config.{blob_type_cuckoo, blob_type_zephyr, is_supported_blob_type}
use node_blocktemplate.Rct.Prunable.{MaxAmounts}
use node_blocktemplate.Basic.Block.{Block}
use node_blocktemplate.Basic.Header.Laws.{KeepsRecord}
use node_blocktemplate.Format.{parse_and_validate_block_from_blob}
use node_blocktemplate.Main.Outcome.{Error, Result, ok, threw}
use node_blocktemplate.Main.{
  Argument, get_buffer_argument, get_blob_type, set_nonce, construct_block_blob,
}
use node_blocktemplate.Main.Construct.{construct_block_blob-replaces}

ok_eq : {x y : Bytes} → ok x ≡ ok y → x ≡ y
ok_eq h = cc

length-replaced :
    (front back nonce : Bytes) (old : ℕ)
    → length nonce ≡ 4
    → length (front ++ (nonce ++ back)) ≡ length (front ++ (put_uint 4 old ++ back))
unfolding put_uint
length-replaced front back nonce old size = omega (
  arith,
  length-append front (nonce ++ back),
  length-append nonce back,
  length-append front (put_uint 4 old ++ back),
)

threw-not_ok :
    {A : Type 0} {r : Result Bytes} {message : Error} {out : Bytes}
    → r ≡ threw message
    → r ≡ ok out
    → A
threw-not_ok thrown returned = let e = sym thrown ∙ returned in cc

module _ (n : MaxAmounts) (bt : ℕ) (template nonce : Bytes) where
  unsupported_kind :
      is_supported_blob_type bt ≡ false
      → construct_block_blob n
          (Argument.buffer template ∷ Argument.buffer nonce ∷ Argument.number bt ∷ [])
        ≡ threw Error.unsupported_blob_type
  unfolding construct_block_blob get_blob_type get_buffer_argument
  unsupported_kind h = rw h

  other_size :
      is_supported_blob_type bt ≡ true
      → (length nonce == 4) ≡ false
      → construct_block_blob n
          (Argument.buffer template ∷ Argument.buffer nonce ∷ Argument.number bt ∷ [])
        ≡ threw Error.nonce_invalid_size
  unfolding construct_block_blob get_blob_type get_buffer_argument
  other_size known other = rw (known, other)

  unparsed :
      is_supported_blob_type bt ≡ true
      → (length nonce == 4) ≡ true
      → parse_and_validate_block_from_blob n bt template ≡ none
      → construct_block_blob n
          (Argument.buffer template ∷ Argument.buffer nonce ∷ Argument.number bt ∷ [])
        ≡ threw Error.failed_to_parse_block
  unfolding construct_block_blob get_blob_type get_buffer_argument
  unparsed known four h = rw (known, four, h)

  -- What a handler that returned `out` has been given, and what it returned.
  abbrev Returned : Bytes → Type 0
  Returned out =
      (is_supported_blob_type bt ≡ true)
      × (length nonce ≡ 4)
      × (length out ≡ length template)
      × ((b : Block) × (parse_and_validate_block_from_blob n bt template ≡ some b)
          × (parse_and_validate_block_from_blob n bt out ≡ some (set_nonce (word_of nonce) b)))

  parsed-Returned :
      (out : Bytes) (b : Block)
      → (bt == blob_type_cuckoo) ≡ false
      → (bt == blob_type_zephyr) ≡ false
      → AreBytes template
      → AreBytes nonce
      → is_supported_blob_type bt ≡ true
      → length nonce ≡ 4
      → parse_and_validate_block_from_blob n bt template ≡ some b
      → construct_block_blob n
          (Argument.buffer template ∷ Argument.buffer nonce ∷ Argument.number bt ∷ [])
        ≡ ok out
      → Returned out
  parsed-Returned out b plain other ht hn known size parsed returned =
      let keeps : KeepsRecord bt b.header.major_version = λ e. cc in
      let (front, back, at, constructed, reads) =
        construct_block_blob-replaces n bt template nonce b known plain size ht hn keeps parsed in
      let same : out ≡ front ++ (nonce ++ back) = ok_eq (sym returned ∙ constructed) in
      (
        known,
        size,
        ap length same ∙ length-replaced front back nonce b.header.nonce size ∙ sym (ap length at),
        (b, parsed, ap (parse_and_validate_block_from_blob n bt) same ∙ reads),
      )

  -- For a kind other than Cuckoo and Zephyr, construct_block_blob returns a blob only if the kind is
  -- supported, the nonce has four bytes and the template parses; and the blob is then as long as the
  -- template and parses to its block with that nonce.
  pub construct_block_blob-only :
      (out : Bytes)
      → (bt == blob_type_cuckoo) ≡ false
      → (bt == blob_type_zephyr) ≡ false
      → AreBytes template
      → AreBytes nonce
      → construct_block_blob n
          (Argument.buffer template ∷ Argument.buffer nonce ∷ Argument.number bt ∷ [])
        ≡ ok out
      → (is_supported_blob_type bt ≡ true)
        × (length nonce ≡ 4)
        × (length out ≡ length template)
        × ((b : Block) × (parse_and_validate_block_from_blob n bt template ≡ some b)
            × (parse_and_validate_block_from_blob n bt out ≡ some (set_nonce (word_of nonce) b)))
  construct_block_blob-only out plain other ht hn returned =
      known_kind (Bool-cases (is_supported_blob_type bt))
    where
      with_block :
          is_supported_blob_type bt ≡ true
          → (length nonce == 4) ≡ true
          → (parse_and_validate_block_from_blob n bt template ≡ none)
            ⊎ ((b : Block) × (parse_and_validate_block_from_blob n bt template ≡ some b))
          → Returned out
      with_block known four (inl bad) = threw-not_ok (unparsed known four bad) returned
      with_block known four (inr (b, parsed)) =
          parsed-Returned out b plain other ht hn known ((==_iff (length nonce) 4).0 four) parsed
            returned

      with_size :
          is_supported_blob_type bt ≡ true
          → ((length nonce == 4) ≡ true) ⊎ ((length nonce == 4) ≡ false)
          → Returned out
      with_size known (inl four) =
          with_block known four (Option-cases (parse_and_validate_block_from_blob n bt template))
      with_size known (inr bad) = threw-not_ok (other_size known bad) returned

      known_kind :
          (is_supported_blob_type bt ≡ true) ⊎ (is_supported_blob_type bt ≡ false) → Returned out
      known_kind (inl known) = with_size known (Bool-cases (length nonce == 4))
      known_kind (inr bad) = threw-not_ok (unsupported_kind bad) returned
