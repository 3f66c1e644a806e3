-- ===== src/Base58.antt =====
-- src/common/base58.cpp: Base58 by blocks, as the addresses of CryptoNote use it. A buffer that is
-- written from its end is the reverse of what is written.
use node_blocktemplate.Prelude.{
  ℕ, zero, suc, ◌+◌, ◌-◌, ◌*◌, ◌/◌, ◌%◌, ◌^◌, not, ◌&&◌, ◌||◌, Option, none, some, List, [], ◌∷◌,
  ◌++◌, map, reverse, ◌>>=◌, Bytes, ltb, leb, ◌==◌, if◌then◌else◌, length, take, drop, get_elem?,
  replicate,
}
use mathlib.Core.Option.{get_or}
use node_blocktemplate.Archive.Fixed.{put_uint, word_of}
pub mod Letters
pub mod Digits
pub mod Blocks
pub mod RoundTrip
pub mod Canonical
pub mod Address

abbrev pub alphabet : Bytes
alphabet =
    b'1' ∷ b'2' ∷ b'3' ∷ b'4' ∷ b'5' ∷ b'6' ∷ b'7' ∷ b'8' ∷ b'9' ∷ b'A' ∷ b'B' ∷ b'C' ∷ b'D' ∷ b'E'
    ∷ b'F' ∷ b'G' ∷ b'H' ∷ b'J' ∷ b'K' ∷ b'L' ∷ b'M' ∷ b'N' ∷ b'P' ∷ b'Q' ∷ b'R' ∷ b'S' ∷ b'T'
    ∷ b'U' ∷ b'V' ∷ b'W' ∷ b'X' ∷ b'Y' ∷ b'Z' ∷ b'a' ∷ b'b' ∷ b'c' ∷ b'd' ∷ b'e' ∷ b'f' ∷ b'g'
    ∷ b'h' ∷ b'i' ∷ b'j' ∷ b'k' ∷ b'm' ∷ b'n' ∷ b'o' ∷ b'p' ∷ b'q' ∷ b'r' ∷ b's' ∷ b't' ∷ b'u'
    ∷ b'v' ∷ b'w' ∷ b'x' ∷ b'y' ∷ b'z' ∷ []

abbrev pub alphabet_size : ℕ
alphabet_size = 58

abbrev pub encoded_block_sizes : List ℕ
encoded_block_sizes = 0 ∷ 2 ∷ 3 ∷ 5 ∷ 6 ∷ 7 ∷ 9 ∷ 10 ∷ 11 ∷ []

abbrev pub full_block_size : ℕ
full_block_size = 8

abbrev pub full_encoded_block_size : ℕ
full_encoded_block_size = 11

abbrev pub addr_checksum_size : ℕ
addr_checksum_size = 4

-- `m_data[i] = value`
unfoldable pub store : {A : Type 0} → ℕ → A → List A → List A
store i value [] = []
store zero value (x ∷ m_data) = value ∷ m_data
store (suc i) value (x ∷ m_data) = x ∷ store i value m_data

-- The loop of both constructors: the positions `i` on are stored at the places listed, in a table
-- that starts with `-1`, here `none`, everywhere.
unfoldable pub store_each : ℕ → List ℕ → List (Option ℕ) → List (Option ℕ)
unfolding store
store_each i [] m_data = m_data
store_each i (place ∷ places) m_data = store_each (suc i) places (store place (some i) m_data)

-- A table's entry, `-1` beyond its end.
unfoldable pub entry : List (Option ℕ) → ℕ → Option ℕ
entry m_data i = get_elem? m_data i >>= λ value. value

-- `letter - alphabet[0]` of a smaller letter is, as a `size_t`, beyond the table.
unfoldable pub reverse_alphabet : ℕ → Option ℕ
unfolding store_each entry
reverse_alphabet letter =
    if ltb letter b'1'
    then none
    else entry (store_each 0 (map (λ c. c - b'1') alphabet) (replicate (b'z' - b'1' + 1) none))
        (letter - b'1')

unfoldable pub decoded_block_sizes : ℕ → Option ℕ
unfolding store_each entry
decoded_block_sizes size =
    entry (store_each 0 encoded_block_sizes (replicate (full_encoded_block_size + 1) none)) size

abbrev pub encoded_block_size : ℕ → ℕ
encoded_block_size size = get_or (get_elem? encoded_block_sizes size) 0

abbrev pub letter_of : ℕ → ℕ
letter_of digit = get_or (get_elem? alphabet digit) 0

-- Big-endian, of up to eight bytes.
unfoldable pub uint_8be_to_64 : Bytes → ℕ
uint_8be_to_64 block = word_of (reverse block)

unfoldable pub uint_64_to_8be : ℕ → ℕ → Bytes
uint_64_to_8be num size = reverse (put_uint size num)

-- `while (0 < num)`: `room` chars are left in front of the place that is written. A write in front
-- of the block is `none`.
unfoldable pub encode_block_loop : ℕ → ℕ → Option Bytes
encode_block_loop zero num = if num == 0 then some [] else none
encode_block_loop (suc room) num =
    let more = encode_block_loop room (num / alphabet_size) in
    if num == 0
    then some (replicate (suc room) b'1')
    else more >>= λ front. some (letter_of (num % alphabet_size) ∷ front)

unfoldable pub encode_block : Bytes → Option Bytes
unfolding encode_block_loop uint_8be_to_64
encode_block block = do
  backwards ← encode_block_loop (encoded_block_size (length block)) (uint_8be_to_64 block)
  some (reverse backwards)

-- `for (i = size - 1; i < size; --i)`, on the chars from the last one on.
unfoldable pub decode_block_loop : Bytes → ℕ → ℕ → Option ℕ
unfolding reverse_alphabet
decode_block_loop [] order res_num = some res_num
decode_block_loop (letter ∷ letters) order res_num = do
  digit ← reverse_alphabet letter
  let product_hi = order * digit / 2 ^ 64
  let tmp = (res_num + order * digit % 2 ^ 64) % 2 ^ 64
  let more = decode_block_loop letters (order * alphabet_size % 2 ^ 64) tmp
  if ltb tmp res_num || not (product_hi == 0) then none else more

unfoldable pub decode_block : Bytes → Option Bytes
unfolding decoded_block_sizes decode_block_loop uint_64_to_8be
decode_block block = do
  res_size ← decoded_block_sizes (length block)
  res_num ← (if res_size == 0 then none else decode_block_loop (reverse block) 1 0)
  (if ltb res_size full_block_size && leb (2 ^ (8 * res_size)) res_num
      then none
      else some (uint_64_to_8be res_num res_size))

-- `count` full blocks and, if there is more, a last one.
unfoldable pub encode_blocks : ℕ → Bytes → Option Bytes
unfolding encode_block
encode_blocks zero rest = if ltb 0 (length rest) then encode_block rest else some []
encode_blocks (suc count) rest = do
  res ← encode_block (take full_block_size rest)
  more ← encode_blocks count (drop full_block_size rest)
  some (res ++ more)

unfoldable pub encode : Bytes → Option Bytes
unfolding encode_blocks
encode bytes =
    if length bytes == 0 then some [] else encode_blocks (length bytes / full_block_size) bytes

unfoldable pub decode_blocks : ℕ → Bytes → Option Bytes
unfolding decode_block
decode_blocks zero rest = if ltb 0 (length rest) then decode_block rest else some []
decode_blocks (suc count) rest = do
  bytes ← decode_block (take full_encoded_block_size rest)
  more ← decode_blocks count (drop full_encoded_block_size rest)
  some (bytes ++ more)

unfoldable pub decode : Bytes → Option Bytes
unfolding decoded_block_sizes decode_blocks
decode enc = if length enc == 0 then some [] else (do
  _ ← decoded_block_sizes (length enc % full_encoded_block_size)
  decode_blocks (length enc / full_encoded_block_size) enc)
