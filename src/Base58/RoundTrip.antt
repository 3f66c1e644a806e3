-- ===== src/Base58/RoundTrip.antt =====
-- `encode` and `decode` of src/common/base58.cpp: strings of bytes and their Base58 spellings
-- determine one another.
use node_blocktemplate.Prelude.{
  ℕ, zero, suc, ◌+◌, ◌*◌, ◌/◌, ◌%◌, ◌<◌, ◌≡◌, ◌≢◌, refl, sym, ap, ◌∙◌, ◌⊎◌, inl, inr, Option, some,
  [], ◌∷◌, ◌++◌, ◌>>=◌, Bytes, AreBytes, AreBytes-append, AreBytes-take, AreBytes-drop, length,
  take, drop, length-append, length-take, length-drop, take-append-drop, take-length_append,
  drop-length_append, arith, ltb, ◌==◌, if◌then◌else◌,
}
use node_blocktemplate.Base58.{
  encoded_block_size, decoded_block_sizes, encode_block, decode_block, encode_blocks, decode_blocks,
  encode, decode,
}
use node_blocktemplate.Base58.Letters.{
  decoded-encoded_block_size, encoded_block_size-lt, encoded_block_size-ge,
}
use node_blocktemplate.Base58.Blocks.{
  letters_of, letters_of-nil, length-letters_of, letters_of-AreBytes, encode_block-letters_of,
  decode_block-letters_of,
}

-- The spelling of `count` full blocks and of what is left behind them.
unfoldable pub encoding : ℕ → Bytes → Bytes
encoding zero rest = letters_of rest
encoding (suc count) rest = letters_of (take 8 rest) ++ encoding count (drop 8 rest)

-- `bytes` is `count` full blocks and `last` bytes.
pub record Blocks (count last : ℕ) (bytes : Bytes) : Type 0 where
  pub are_bytes : AreBytes bytes
  pub total : length bytes ≡ 8 * count + last
  pub short : last < 8

Blocks-drop :
    (count last : ℕ) (bytes : Bytes)
    → Blocks (suc count) last bytes
    → Blocks count last (drop 8 bytes)
Blocks-drop count last bytes b = record {
  are_bytes = AreBytes-drop 8 bytes b.are_bytes;
  total = omega (arith, length-drop 8 bytes, b.total);
  short = b.short;
}

first_block :
    (count last : ℕ) (bytes : Bytes) → Blocks (suc count) last bytes → length (take 8 bytes) ≡ 8
first_block count last bytes b = length-take 8 bytes (omega (arith, b.total))

first_letters :
    (count last : ℕ) (bytes : Bytes)
    → Blocks (suc count) last bytes
    → length (letters_of (take 8 bytes)) ≡ 11
first_letters count last bytes b =
    length-letters_of (take 8 bytes) ∙ ap encoded_block_size (first_block count last bytes b)

pub empty_or_not : (bytes : Bytes) → (bytes ≡ []) ⊎ (length bytes ≢ 0)
empty_or_not [] = inl refl
empty_or_not (b ∷ bytes) = inr (omega arith)

pub if_some :
    (bytes : Bytes) (o : Option Bytes)
    → length bytes ≢ 0
    → (if ltb 0 (length bytes) then o else some []) ≡ o
if_some bytes o h = ground arith

pub if_full :
    (bytes : Bytes) (o : Option Bytes)
    → length bytes ≢ 0
    → (if length bytes == 0 then some [] else o) ≡ o
if_full bytes o h = ground arith

pub encode_blocks-encoding :
    (count last : ℕ) (bytes : Bytes)
    → Blocks count last bytes
    → encode_blocks count bytes ≡ some (encoding count bytes)
unfolding encode_blocks encoding
encode_blocks-encoding zero last bytes b = elim (empty_or_not bytes) [
  | inl empty ↦ rw (empty, letters_of-nil) refl
  | inr some_more ↦
      if_some bytes (encode_block bytes) some_more
      ∙ encode_block-letters_of bytes b.are_bytes (omega (arith, b.total, b.short))
]
encode_blocks-encoding (suc count) last bytes b =
    rw
      (
        encode_block-letters_of (take 8 bytes) (AreBytes-take 8 bytes b.are_bytes)
            (omega (arith, first_block count last bytes b)),
        encode_blocks-encoding count last (drop 8 bytes) (Blocks-drop count last bytes b),
      )
      refl

length-encoding :
    (count last : ℕ) (bytes : Bytes)
    → Blocks count last bytes
    → length (encoding count bytes) ≡ 11 * count + encoded_block_size last
unfolding encoding
length-encoding zero last bytes b =
    let len : length bytes ≡ last = omega (arith, b.total) in
    rw (length-letters_of bytes, len) (omega arith)
length-encoding (suc count) last bytes b = omega (
  arith,
  length-append (letters_of (take 8 bytes)) (encoding count (drop 8 bytes)),
  first_letters count last bytes b,
  length-encoding count last (drop 8 bytes) (Blocks-drop count last bytes b),
)

encoding-AreBytes : (count : ℕ) (bytes : Bytes) → AreBytes (encoding count bytes)
unfolding encoding
encoding-AreBytes zero bytes = letters_of-AreBytes bytes
encoding-AreBytes (suc count) bytes =
    AreBytes-append (letters_of (take 8 bytes)) _ (letters_of-AreBytes (take 8 bytes))
      (encoding-AreBytes count (drop 8 bytes))

pub take_eleven :
    (xs ys : Bytes) → length xs ≡ 11 → (take 11 (xs ++ ys) ≡ xs) × (drop 11 (xs ++ ys) ≡ ys)
take_eleven xs ys e = (
  ap (λ (t : ℕ). take t (xs ++ ys)) (sym e) ∙ take-length_append xs ys,
  ap (λ (t : ℕ). drop t (xs ++ ys)) (sym e) ∙ drop-length_append xs ys,
)

decode_blocks-encoding :
    (count last : ℕ) (bytes : Bytes)
    → Blocks count last bytes
    → decode_blocks count (encoding count bytes) ≡ some bytes
unfolding decode_blocks encoding
decode_blocks-encoding zero last bytes b = elim (empty_or_not bytes) [
  | inl empty ↦ rw (empty, letters_of-nil) refl
  | inr some_more ↦
      let size : length bytes < 9 = omega (arith, b.total, b.short) in
      if_some (letters_of bytes) (decode_block (letters_of bytes))
        (omega (arith, length-letters_of bytes, encoded_block_size-ge (length bytes) size))
      ∙ decode_block-letters_of bytes b.are_bytes some_more size
]
decode_blocks-encoding (suc count) last bytes b =
    let (front, back) =
      take_eleven (letters_of (take 8 bytes)) (encoding count (drop 8 bytes))
        (first_letters count last bytes b) in
    rw
      (
        front,
        back,
        decode_block-letters_of (take 8 bytes) (AreBytes-take 8 bytes b.are_bytes)
            (omega (arith, first_block count last bytes b))
            (omega (arith, first_block count last bytes b)),
        decode_blocks-encoding count last (drop 8 bytes) (Blocks-drop count last bytes b),
      )
      (ap (λ (t : Bytes). some t) (take-append-drop 8 bytes))

pub Blocks-of :
    (bytes : Bytes) → AreBytes bytes → Blocks (length bytes / 8) (length bytes % 8) bytes
Blocks-of bytes h = record { are_bytes = h; total = omega arith; short = omega arith }

pub encode-encoding :
    (bytes : Bytes) → AreBytes bytes → encode bytes ≡ some (encoding (length bytes / 8) bytes)
unfolding encode
encode-encoding [] h = unfold encoding in ap (λ (t : Bytes). some t) (sym letters_of-nil)
encode-encoding (b ∷ bytes) h =
    if_full (b ∷ bytes) _ (omega arith)
    ∙ encode_blocks-encoding (length (b ∷ bytes) / 8) _ (b ∷ bytes) (Blocks-of (b ∷ bytes) h)

pub decode-decode_blocks :
    (enc : Bytes) (last : ℕ)
    → length enc ≢ 0
    → decoded_block_sizes (length enc % 11) ≡ some last
    → decode enc ≡ decode_blocks (length enc / 11) enc
unfolding decode
decode-decode_blocks enc last h e =
    if_full enc _ h ∙ ap (λ (o : Option ℕ). o >>= (λ _. decode_blocks (length enc / 11) enc)) e

-- A spelling, cut into its blocks.
pub lengths :
    (count size n : ℕ) → n ≡ 11 * count + size → size < 11 → (n / 11 ≡ count) × (n % 11 ≡ size)
lengths count size n e h = (omega arith, omega arith)

decode-encoding :
    (bytes : Bytes) (h : AreBytes bytes) → decode (encoding (length bytes / 8) bytes) ≡ some bytes
decode-encoding bytes h =
    let count = length bytes / 8 in
    let b = Blocks-of bytes h in
    let len = length-encoding count (length bytes % 8) bytes b in
    let (full, last) =
      lengths count (encoded_block_size (length bytes % 8)) (length (encoding count bytes)) len
        (encoded_block_size-lt (length bytes % 8) b.short) in
    let size : length bytes % 8 < 9 = omega arith in
    elim (empty_or_not bytes) [
      | inl empty ↦ rw empty (unfold decode encoding in rw letters_of-nil refl)
      | inr some_more ↦
          decode-decode_blocks (encoding count bytes) (length bytes % 8)
            (omega (arith, len, encoded_block_size-ge (length bytes % 8) size))
            (ap decoded_block_sizes last ∙ decoded-encoded_block_size (length bytes % 8) size)
          ∙ ap (λ (t : ℕ). decode_blocks t (encoding count bytes)) full
          ∙ decode_blocks-encoding count (length bytes % 8) bytes b
    ]

-- Bytes are encoded, without a write outside of the buffer that is made for their spelling, and
-- decoded back; the spelling has 11 chars for each 8 bytes and the size of the table for the rest.
pub decode-encode :
    (bytes : Bytes)
    → AreBytes bytes
    → (enc : Bytes) × (encode bytes ≡ some enc)
      × AreBytes enc
      × (length enc ≡ 11 * (length bytes / 8) + encoded_block_size (length bytes % 8))
      × (decode enc ≡ some bytes)
decode-encode bytes h =
    let count = length bytes / 8 in
    (
      encoding count bytes,
      encode-encoding bytes h,
      encoding-AreBytes count bytes,
      length-encoding count (length bytes % 8) bytes (Blocks-of bytes h),
      decode-encoding bytes h,
    )
