-- ===== src/Base58/Address.antt =====
-- `encode_addr` and `decode_addr` of src/common/base58.cpp: a tag as a varint, the bytes of an
-- address, and four bytes of their hash. The hash is a parameter.
use node_blocktemplate.Prelude.{
  ℕ, suc, ◌-◌, Option, none, some, ◌++◌, ◌>>=◌, Bytes, leb, if◌then◌else◌, length, take, drop,
  bytes_eq,
}
use node_blocktemplate.Archive.Varint.{write_varint}
use node_blocktemplate.Archive.Varint.Read.{VarintRead, read_varint}
use node_blocktemplate.Base58.{addr_checksum_size, encode, decode}
pub mod Laws

-- The bytes behind the tag; a count of 0 or less is refused.
unfoldable pub substr : VarintRead → Bytes → Option (ℕ × Bytes)
substr (VarintRead.taken read tag) addr_data =
    if leb read 0 then none else some (tag, drop read addr_data)
substr VarintRead.overflow addr_data = none
substr VarintRead.non_canonical addr_data = none

unfoldable pub tag_of : Bytes → Option (ℕ × Bytes)
unfolding substr
tag_of addr_data = substr (read_varint 64 addr_data) addr_data

module _ (cn_fast_hash : Bytes → Bytes) where
  unfoldable pub encode_addr : ℕ → Bytes → Option Bytes
  encode_addr tag bytes =
      let buf = write_varint tag ++ bytes in
      encode (buf ++ take addr_checksum_size (cn_fast_hash buf))

  -- The bytes in front of a checksum that is theirs.
  unfoldable pub checked : Bytes → Option Bytes
  checked addr_data =
      let size = length addr_data - addr_checksum_size in
      let body = take size addr_data in
      if leb (length addr_data) addr_checksum_size
      then none
      else if bytes_eq (take addr_checksum_size (cn_fast_hash body)) (drop size addr_data)
      then some body
      else none

  unfoldable pub decode_addr : Bytes → Option (ℕ × Bytes)
  unfolding tag_of checked
  decode_addr addr = do addr_data ← decode addr; body ← checked addr_data; tag_of body
