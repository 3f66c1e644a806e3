-- ===== src/Main/AddressDecode/Prefix.antt =====
-- `uint64be_to_blob` of src/main.cc, which puts the prefix in front of a decoded address.
use node_blocktemplate.Prelude.{ℕ, ◌+◌, ◌*◌, ◌^◌, ◌<◌, ◌≡◌, [], ◌∷◌, Bytes, arith}
use node_blocktemplate.Main.{uint64be_to_blob}

-- Bytes read as a big-endian number.
unfoldable pub big_endian : ℕ → Bytes → ℕ
big_endian acc [] = acc
big_endian acc (b ∷ bs) = big_endian (256 * acc + b) bs

-- The eight bytes of uint64be_to_blob are the number of 64 bits, most significant first.
pub big_endian-uint64be_to_blob :
    (num : ℕ) → num < 2 ^ 64 → big_endian 0 (uint64be_to_blob num) ≡ num
unfolding big_endian uint64be_to_blob
big_endian-uint64be_to_blob num h = omega arith
