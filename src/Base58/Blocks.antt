-- ===== src/Base58/Blocks.antt =====
-- One block of src/common/base58.cpp: bytes and letters determine one another.
use native.Mathlib.Decide.{dec_le}
use node_blocktemplate.Prelude.{
  ℕ, ◌*◌, ◌^◌, ◌≤◌, ◌<◌, ◌≡◌, ◌≢◌, refl, sym, ap, ◌∙◌, Option, none, some, [], ◌&&◌, reverse,
  reverse-reverse, >>=-eq-some, Bytes, AreBytes, length, length-reverse, AreBytes-reverse, arith,
  ltb, leb, ◌==◌, all_below, all_below→true, if◌then◌else◌,
}
use node_blocktemplate.Prelude.Bits.{pow_mono}
use node_blocktemplate.Archive.Fixed.Laws.{
  put_uint-word_of, word_of-put_uint_any, word_of-lt, length-put_uint, put_uint-AreBytes,
}
use node_blocktemplate.Base58.{
  encoded_block_size, decoded_block_sizes, uint_8be_to_64, uint_64_to_8be, decode_block_loop,
  encode_block, decode_block,
}
use node_blocktemplate.Base58.Letters.{
  decoded-encoded_block_size, encoded-decoded_block_size, encoded_block_size-enough,
}
use node_blocktemplate.Base58.Digits.{
  letters, length-letters, letters-AreBytes, encode_block_loop-letters, decode_block_loop-letters,
  decode_block_loop-Number,
}

uint_8be_to_64-lt : (block : Bytes) → AreBytes block → uint_8be_to_64 block < 2 ^ (8 * length block)
unfolding uint_8be_to_64
uint_8be_to_64-lt block h =
    rw length-reverse at (word_of-lt (reverse block) (AreBytes-reverse block h))

uint_64_to_8be-uint_8be_to_64 :
    (block : Bytes) → AreBytes block → uint_64_to_8be (uint_8be_to_64 block) (length block) ≡ block
unfolding uint_8be_to_64 uint_64_to_8be
uint_64_to_8be-uint_8be_to_64 block h =
    let back = put_uint-word_of (reverse block) (AreBytes-reverse block h) in
    ap reverse (rw length-reverse at back) ∙ reverse-reverse block

uint_8be_to_64-uint_64_to_8be :
    (num size : ℕ) → num < 2 ^ (8 * size) → uint_8be_to_64 (uint_64_to_8be num size) ≡ num
unfolding uint_8be_to_64 uint_64_to_8be
uint_8be_to_64-uint_64_to_8be num size h = rw reverse-reverse (word_of-put_uint_any size num h)

length-uint_64_to_8be : (num size : ℕ) → length (uint_64_to_8be num size) ≡ size
unfolding uint_64_to_8be
length-uint_64_to_8be num size = rw length-reverse (length-put_uint size num)

uint_64_to_8be-AreBytes : (num size : ℕ) → AreBytes (uint_64_to_8be num size)
unfolding uint_64_to_8be
uint_64_to_8be-AreBytes num size = AreBytes-reverse _ (put_uint-AreBytes size num)

-- The letters of a block, first to last.
unfoldable pub letters_of : Bytes → Bytes
letters_of block = reverse (letters (encoded_block_size (length block)) (uint_8be_to_64 block))

pub letters_of-nil : letters_of [] ≡ []
unfolding letters_of letters
letters_of-nil = refl

pub length-letters_of :
    (block : Bytes) → length (letters_of block) ≡ encoded_block_size (length block)
unfolding letters_of
length-letters_of block = rw length-reverse (length-letters _ (uint_8be_to_64 block))

pub letters_of-AreBytes : (block : Bytes) → AreBytes (letters_of block)
unfolding letters_of
letters_of-AreBytes block = AreBytes-reverse _ (letters-AreBytes _ (uint_8be_to_64 block))

-- The loop of `encode_block` stays within the block.
pub encode_block-letters_of :
    (block : Bytes)
    → AreBytes block
    → length block < 9
    → encode_block block ≡ some (letters_of block)
unfolding encode_block letters_of
encode_block-letters_of block h size =
    let written =
      encode_block_loop-letters (encoded_block_size (length block)) (uint_8be_to_64 block)
        (omega (arith, uint_8be_to_64-lt block h, encoded_block_size-enough (length block) size)) in
    rw written refl

-- A number of a block's size passes the last test.
fits_block :
    (size num : ℕ) (bytes : Bytes)
    → num < 2 ^ (8 * size)
    → (if ltb size 8 && leb (2 ^ (8 * size)) num then none else some bytes) ≡ some bytes
fits_block size num bytes h = ground arith

block_lt : (size num : ℕ) → size < 9 → num < 2 ^ (8 * size) → num < 2 ^ 64
block_lt size num h small = omega (arith, pow_mono (8 * size) 64 (omega arith))

pub decode_block-letters_of :
    (block : Bytes)
    → AreBytes block
    → length block ≢ 0
    → length block < 9
    → decode_block (letters_of block) ≡ some block
unfolding decode_block letters_of
decode_block-letters_of block h nonempty size =
    let num = uint_8be_to_64 block in
    let count = encoded_block_size (length block) in
    let small : num < 2 ^ (8 * length block) = uint_8be_to_64-lt block h in
    let read : decode_block_loop (letters count num) 1 0 ≡ some num =
      decode_block_loop-letters count num 1 0
        (omega (arith, small, encoded_block_size-enough (length block) size))
        (omega (arith, block_lt (length block) num size small))
      ∙ ap (λ (t : ℕ). some t) (omega arith) in
    rw
      (
        length-reverse,
        length-letters,
        decoded-encoded_block_size (length block) size,
        reverse-reverse,
      )
      (ground (
        arith,
        read,
        fits_block (length block) num block small,
        uint_64_to_8be-uint_8be_to_64 block h,
      ))

-- A block of letters that is decoded is the encoding of what it is decoded to.
pub record Decoded (enc block : Bytes) : Type 0 where
  pub bytes : AreBytes block
  pub nonempty : length block ≢ 0
  pub size : length block < 9
  pub written : enc ≡ letters_of block

size_passed :
    (size num : ℕ) (o : Option ℕ)
    → (if size == 0 then none else o) ≡ some num
    → (size ≢ 0) × (o ≡ some num)
size_passed size num o q = (ground arith, ground arith)

number_passed :
    (size num : ℕ) (bytes block : Bytes)
    → size < 9
    → num < 2 ^ 64
    → (if ltb size 8 && leb (2 ^ (8 * size)) num then none else some bytes) ≡ some block
    → (num < 2 ^ (8 * size)) × (bytes ≡ block)
number_passed size num bytes block h fits q = (small, ground arith)
  where
    small : num < 2 ^ (8 * size)
    small = elim (dec_le 8 size) [
      | yes full ↦ let e : size ≡ 8 = omega arith in rw e fits
      | no less ↦ ground arith
    ]

-- Enough digits for the order not to wrap before the last.
room : (size : ℕ) → size < 12 → 1 * 58 ^ size ≤ 58 ^ 11
unfolding all_below
room size h = ground (arith, all_below→true (λ s. leb (58 ^ s) (58 ^ 11)) 12 size refl h)

decoded_number :
    (enc : Bytes) (size num : ℕ)
    → AreBytes enc
    → encoded_block_size size ≡ length enc
    → decode_block_loop (reverse enc) 1 0 ≡ some num
    → length enc < 12
    → (num < 2 ^ 64) × (reverse (letters (encoded_block_size size) num) ≡ enc)
decoded_number enc size num hx same read short =
    let g =
      decode_block_loop-Number (reverse enc) 1 0 num (AreBytes-reverse enc hx) (omega arith)
        (rw length-reverse (room (length enc) short)) read in
    let index : g.index ≡ num = omega (arith, g.total) in
    let lens : length (reverse enc) ≡ encoded_block_size size = length-reverse enc ∙ sym same in
    (
      g.fits,
      ap (λ (t : ℕ). reverse (letters (encoded_block_size size) t)) (sym index)
          ∙ ap (λ (t : ℕ). reverse (letters t g.index)) (sym lens)
          ∙ ap reverse (sym g.written)
          ∙ reverse-reverse enc,
    )

pub decode_block-Decoded :
    (enc block : Bytes)
    → AreBytes enc
    → length enc < 12
    → decode_block enc ≡ some block
    → Decoded enc block
unfolding decode_block letters_of
decode_block-Decoded enc block hx short q =
    let (size, found, after) = >>=-eq-some (decoded_block_sizes (length enc)) _ q in
    let (num, read, last) = >>=-eq-some _ _ after in
    let (size_lt, same) = encoded-decoded_block_size (length enc) size short found in
    let (nonzero, looped) = size_passed size num (decode_block_loop (reverse enc) 1 0) read in
    let (fits, spelled) = decoded_number enc size num hx same looped short in
    let (small, eq) = number_passed size num (uint_64_to_8be num size) block size_lt fits last in
    let len : length block ≡ size = sym (ap length eq) ∙ length-uint_64_to_8be num size in
    let back : uint_8be_to_64 block ≡ num =
      sym (ap uint_8be_to_64 eq) ∙ uint_8be_to_64-uint_64_to_8be num size small in
    record {
      bytes = rw (← eq) (uint_64_to_8be-AreBytes num size);
      nonempty = rw len nonzero;
      size = rw len size_lt;
      written = rw (len, back) (sym spelled);
    }
