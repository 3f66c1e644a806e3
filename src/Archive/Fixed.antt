-- ===== src/Archive/Fixed.antt =====
-- `serialize_uint` and `serialize_blob` of src/serialization/binary_archive.h: little-endian
-- integers of a fixed width, and runs of bytes of a fixed length.
use node_blocktemplate.Prelude.{
  ℕ, zero, suc, ◌+◌, ◌*◌, ◌/◌, ◌%◌, ◌^◌, ◌<◌, ◌≡◌, Option, none, some, [], ◌∷◌, leb, if◌then◌else◌,
  Bytes, AreBytes, length, take, drop,
}
use node_blocktemplate.Archive.Codec.{Codec}
pub mod Laws

-- `stream_.put((char)(v & 0xff)); v >>= 8`, sizeof(T) times.
unfoldable pub put_uint : ℕ → ℕ → Bytes
put_uint zero v = []
put_uint (suc n) v = (v % 256) ∷ put_uint n (v / 256)

-- Bytes copied into an integer on a little-endian machine.
unfoldable pub word_of : Bytes → ℕ
word_of [] = 0
word_of (b ∷ bs) = b + 256 * word_of bs

-- `ret += b << shift; shift += 8`, in the type of `width` bytes; `n` rounds are left.
unfoldable pub load_uint_loop : ℕ → ℕ → ℕ → ℕ → Bytes → Option (ℕ × Bytes)
load_uint_loop width zero ret shift xs = some (ret, xs)
load_uint_loop width (suc n) ret shift [] = none
load_uint_loop width (suc n) ret shift (b ∷ xs) =
    load_uint_loop width n ((ret + b * 2 ^ shift) % 2 ^ (8 * width)) (shift + 8) xs

-- FIELD of an unsigned integer of `width` bytes.
unfoldable pub uint : ℕ → Codec ℕ
unfolding put_uint load_uint_loop
uint width = record {
  Fits = λ v. v < 2 ^ (8 * width);
  save = λ v. some (put_uint width v);
  load = load_uint_loop width width 0 0;
}

-- `stream_.read(buf, len)`: fewer than `len` bytes fail the stream.
unfoldable pub read_blob : ℕ → Bytes → Option (Bytes × Bytes)
read_blob len xs = if leb len (length xs) then some (take len xs, drop len xs) else none

-- FIELD of a type marked BLOB_SERIALIZER, of `len` bytes.
unfoldable pub blob : ℕ → Codec Bytes
unfolding read_blob
blob len = record {
  Fits = λ bs. (length bs ≡ len) × AreBytes bs;
  save = λ bs. some bs;
  load = read_blob len;
}
