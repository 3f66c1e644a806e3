-- ===== src/Base58/Canonical.antt =====
-- `decode` of src/common/base58.cpp takes one spelling of each string of bytes.
use native.Mathlib.Decide.{dec_le}
use node_blocktemplate.Prelude.{
  ℕ, zero, suc, ◌+◌, ◌*◌, ◌/◌, ◌%◌, ◌<◌, ◌≡◌, ◌≢◌, refl, sym, ap, ◌∙◌, inl, inr, some, some_eq, [],
  ◌++◌, >>=-eq-some, Bytes, AreBytes, AreBytes-append, AreBytes-take, AreBytes-drop, length, take,
  drop, length-append, length-take, length-drop, take-append-drop, take-length_append,
  drop-length_append, arith,
}
use node_blocktemplate.Base58.{
  encoded_block_size, decoded_block_sizes, decode_block, decode_blocks, encode, decode,
}
use node_blocktemplate.Base58.Letters.{encoded_block_size-injective}
use node_blocktemplate.Base58.Blocks.{
  letters_of, letters_of-nil, length-letters_of, decode_block-Decoded,
}
use node_blocktemplate.Base58.RoundTrip.{
  encoding, encode-encoding, Blocks, empty_or_not, if_some, if_full,
}

-- What `decode_blocks` made of a spelling.
record Spelled (count : ℕ) (enc bytes : Bytes) : Type 0 where
  last : ℕ
  blocks : Blocks count last bytes
  written : enc ≡ encoding count bytes

full_size :
    (block : Bytes) → length block < 9 → encoded_block_size (length block) ≡ 11 → length block ≡ 8
full_size block h e = encoded_block_size-injective (length block) 8 h (omega arith) e

short_size : (size : ℕ) → size < 9 → encoded_block_size size < 11 → size < 8
short_size size h e = elim (dec_le 8 size) [
  | no p ↦ omega arith
  | yes p ↦ let full : size ≡ 8 = omega arith in absurd (omega (arith, rw full at e))
]

joined :
    (count : ℕ) (enc block more : Bytes)
    → length block ≡ 8
    → take 11 enc ≡ letters_of block
    → drop 11 enc ≡ encoding count more
    → enc ≡ encoding (suc count) (block ++ more)
unfolding encoding
joined count enc block more eight front back =
    let first : take 8 (block ++ more) ≡ block =
      ap (λ (t : ℕ). take t (block ++ more)) (sym eight) ∙ take-length_append block more in
    let rest : drop 8 (block ++ more) ≡ more =
      ap (λ (t : ℕ). drop t (block ++ more)) (sym eight) ∙ drop-length_append block more in
    rw (first, rest, ← front, ← back) (sym (take-append-drop 11 enc))

decode_blocks-Spelled :
    (count size : ℕ) (enc bytes : Bytes)
    → AreBytes enc
    → length enc ≡ 11 * count + size
    → size < 11
    → decode_blocks count enc ≡ some bytes
    → Spelled count enc bytes
unfolding decode_blocks encoding
decode_blocks-Spelled zero size enc bytes hx e h q = elim (empty_or_not enc) [
  | inl empty ↦
      let nothing : bytes ≡ [] = sym (some_eq (rw empty at q)) in
      rw (empty, nothing)
        (record {
          last = 0;
          blocks = record { are_bytes = tt; total = omega arith; short = omega arith };
          written = sym letters_of-nil;
        })
  | inr some_more ↦
      let d =
        decode_block-Decoded enc bytes hx (omega (arith, e, h))
          (sym (if_some enc (decode_block enc) some_more) ∙ q) in
      let len : length enc ≡ encoded_block_size (length bytes) =
        ap length d.written ∙ length-letters_of bytes in
      record {
        last = length bytes;
        blocks = record {
          are_bytes = d.bytes;
          total = omega arith;
          short = short_size (length bytes) d.size (omega (arith, len, e, h));
        };
        written = d.written;
      }
]
decode_blocks-Spelled (suc count) size enc bytes hx e h q =
    let (block, eb, after) = >>=-eq-some (decode_block (take 11 enc)) _ q in
    let (more, em, last) = >>=-eq-some (decode_blocks count (drop 11 enc)) _ after in
    let front : length (take 11 enc) ≡ 11 = length-take 11 enc (omega (arith, e)) in
    let d =
      decode_block-Decoded (take 11 enc) block (AreBytes-take 11 enc hx) (omega (arith, front))
        eb in
    let eight : length block ≡ 8 =
      full_size block d.size (sym (length-letters_of block) ∙ sym (ap length d.written) ∙ front) in
    let g =
      decode_blocks-Spelled count size (drop 11 enc) more (AreBytes-drop 11 enc hx)
        (omega (arith, e, length-drop 11 enc)) h em in
    rw (← some_eq last) (record {
      last = g.last;
      blocks = record {
        are_bytes = AreBytes-append block more d.bytes g.blocks.are_bytes;
        total = omega (arith, length-append block more, eight, g.blocks.total);
        short = g.blocks.short;
      };
      written = joined count enc block more eight d.written g.written;
    })

-- Two numbers of full blocks and a rest agree.
same_blocks : (count last n : ℕ) → n ≡ 8 * count + last → last < 8 → n / 8 ≡ count
same_blocks count last n e h = omega arith

decode_passed :
    (enc bytes : Bytes)
    → length enc ≢ 0
    → decode enc ≡ some bytes
    → decode_blocks (length enc / 11) enc ≡ some bytes
unfolding decode
decode_passed enc bytes h q =
    let (last, e, more) =
      >>=-eq-some (decoded_block_sizes (length enc % 11)) (λ _. decode_blocks (length enc / 11) enc)
        (sym (if_full enc _ h) ∙ q) in
    more

-- A string of Base58 that is decoded is the encoding of what it is decoded to, so that no two
-- strings stand for the same bytes.
pub encode-decode :
    (enc bytes : Bytes)
    → AreBytes enc
    → decode enc ≡ some bytes
    → AreBytes bytes × (encode bytes ≡ some enc)
encode-decode enc bytes hx q = elim (empty_or_not enc) [
  | inl empty ↦
      let nothing : bytes ≡ [] = unfold decode in sym (some_eq (rw empty at q)) in
      rw (nothing, empty) (tt, unfold encode in refl)
  | inr some_more ↦
      let g =
        decode_blocks-Spelled (length enc / 11) (length enc % 11) enc bytes hx (omega arith)
          (omega arith) (decode_passed enc bytes some_more q) in
      let count : length bytes / 8 ≡ length enc / 11 =
        same_blocks (length enc / 11) g.last (length bytes) g.blocks.total g.blocks.short in
      (
        g.blocks.are_bytes,
        encode-encoding bytes g.blocks.are_bytes
            ∙ ap (λ (t : ℕ). some (encoding t bytes)) count
            ∙ ap (λ (t : Bytes). some t) (sym g.written),
      )
]
