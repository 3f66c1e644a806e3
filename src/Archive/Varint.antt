-- ===== src/Archive/Varint.antt =====
-- src/common/varint.h (`write_varint`) and `serialize_uvarint` of
-- src/serialization/binary_archive.h, for an unsigned type of `bits` bits.
use mathlib.Core.Logic.{dite}
use mathlib.Core.WellFounded.{Acc}
use native.Mathlib.Decide.{dec_le}
use node_blocktemplate.Prelude.{
  ℕ, ◌+◌, ◌-◌, ◌*◌, ◌/◌, ◌%◌, ◌^◌, ◌≤◌, ◌<◌, bit_and, bit_or, Bool, not, ◌&&◌, Option, none, some,
  [], ◌∷◌, ◌++◌, arith, leb, ◌==◌, if◌then◌else◌, Bytes, lt_wf,
}
use node_blocktemplate.Archive.Codec.{Codec}
pub mod Laws
pub mod Read

pub shift_shrinks : (i : ℕ) → 128 ≤ i → i / 128 < i
shift_shrinks i h = omega arith

-- `while (i >= 0x80)`, with the char that each round and the end write.
write_varint_loop : (i : ℕ) → Acc ◌<◌ i → Bytes
write_varint_loop i (Acc.intro _ smaller) =
    dite (dec_le 0x80 i)
      (λ h.
        bit_or (bit_and (i % 256) 0x7f) 0x80
        ∷ write_varint_loop (i / 128) (smaller (i / 128) (shift_shrinks i h)))
      (λ _. (i % 256) ∷ [])

unfoldable pub write_varint : ℕ → Bytes
unfolding write_varint_loop lt_wf dec_le
write_varint i = write_varint_loop i (lt_wf.apply i)

-- `ret |= static_cast<T>(byte & 0x7f) << shift`
abbrev or_group : ℕ → ℕ → ℕ → ℕ → ℕ
or_group bits shift ret byte = bit_or ret (bit_and byte 0x7f * 2 ^ shift % 2 ^ bits)

-- The overflow test: `shift + 7 >= bits && byte >= 1 << (bits - shift)`.
abbrev too_wide : ℕ → ℕ → ℕ → Bool
too_wide bits shift byte = leb bits (shift + 7) && leb (2 ^ (bits - shift)) byte

-- The loop over `shift`; the list is what the stream still holds.
unfoldable pub load_uvarint_loop : ℕ → ℕ → ℕ → Bytes → Option (ℕ × Bytes)
load_uvarint_loop bits shift ret [] = none
load_uvarint_loop bits shift ret (byte ∷ rest) =
    let ret' = or_group bits shift ret byte in
    let more = load_uvarint_loop bits (shift + 7) ret' rest in
    if too_wide bits shift byte
    then none
    else if byte == 0 && not (shift == 0)
    then none
    else if bit_and byte 0x80 == 0
    then some (ret', rest)
    else more

unfoldable pub load_uvarint : ℕ → Bytes → Option (ℕ × Bytes)
unfolding load_uvarint_loop
load_uvarint bits = load_uvarint_loop bits 0 0

-- VARINT_FIELD of an unsigned integer of `bits` bits.
unfoldable pub varint : ℕ → Codec ℕ
unfolding write_varint load_uvarint
varint bits = record {
  Fits = λ v. v < 2 ^ bits;
  save = λ v. some (write_varint v);
  load = load_uvarint bits;
}
