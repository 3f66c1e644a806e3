-- ===== src/Tests/Addresses.antt =====
-- Base58, addresses and the address handlers on concrete inputs.
use node_blocktemplate.Prelude.{
  ℕ, suc, ◌*◌, ◌+◌, ◌^◌, ◌<◌, ◌/◌, ◌%◌, ◌≡◌, refl, ◌⊎◌, Bool, true, none, some, [], ◌∷◌, ◌++◌,
  Bytes, AreBytes, length, drop, replicate, arith,
}
use node_blocktemplate.Archive.Fixed.{put_uint, word_of}
use node_blocktemplate.Archive.Varint.{load_uvarint}
use node_blocktemplate.Archive.Varint.Read.{VarintRead, read_varint, read_varint-load_uvarint}
use node_blocktemplate.Base58.{encode, decode, encoded_block_size}
use node_blocktemplate.Base58.RoundTrip.{decode-encode}
use node_blocktemplate.Base58.Canonical.{encode-decode}
use node_blocktemplate.Base58.Address.{encode_addr, decode_addr}
use node_blocktemplate.Base58.Address.Laws.{decode_addr-encode_addr, encode_addr-decode_addr}
use node_blocktemplate.Keccak.{cn_fast_hash}
use node_blocktemplate.Keccak.Size.{cn_fast_hash-size}
use node_blocktemplate.Basic.Address.{AccountPublicAddress}
use node_blocktemplate.Main.{Argument, uint64be_to_blob}
use node_blocktemplate.Main.Outcome.{ok}
use node_blocktemplate.Main.AddressDecode.{
  Reply, keys_checked, address_decode, address_decode_integrated,
}
use node_blocktemplate.Main.AddressDecode.Laws.{
  address_bytes, IsAddress, address_decode-standard, address_decode-integrated,
}
use node_blocktemplate.Main.AddressDecode.Sound.{address_decode-unsigned, address_decode-injective}

hash_32 : (bs : Bytes) → length (cn_fast_hash bs) ≡ 32
hash_32 bs = (cn_fast_hash-size bs).0

hash_AreBytes : (bs : Bytes) → AreBytes (cn_fast_hash bs)
hash_AreBytes bs = (cn_fast_hash-size bs).1

abbrev any_key : Bytes → Bool
any_key key = true

abbrev nine_bytes : Bytes
nine_bytes = 0 ∷ 255 ∷ 3 ∷ 4 ∷ 5 ∷ 6 ∷ 7 ∷ 8 ∷ 97 ∷ []

one_letter : encode (97 ∷ []) ≡ some (b'2' ∷ b'g' ∷ [])
unfolding encode word_of
one_letter = refl

two_letters : decode (b'2' ∷ b'g' ∷ []) ≡ some (97 ∷ [])
unfolding decode put_uint
two_letters = refl

too_large : decode (b'z' ∷ b'z' ∷ []) ≡ none
unfolding decode
too_large = refl

bad_size : decode (b'1' ∷ []) ≡ none
unfolding decode
bad_size = refl

bad_letter : decode (b'1' ∷ b'0' ∷ []) ≡ none
unfolding decode
bad_letter = refl

decode-encode_example :
    (enc : Bytes) × (encode nine_bytes ≡ some enc)
    × AreBytes enc
    × (length enc ≡ 11 * (length nine_bytes / 8) + encoded_block_size (length nine_bytes % 8))
    × (decode enc ≡ some nine_bytes)
decode-encode_example = decode-encode nine_bytes (omega arith)

encode-decode_example : AreBytes (97 ∷ []) × (encode (97 ∷ []) ≡ some (b'2' ∷ b'g' ∷ []))
encode-decode_example = encode-decode (b'2' ∷ b'g' ∷ []) (97 ∷ []) (omega arith) two_letters

abbrev cut_or_not : Bytes
cut_or_not = 200 ∷ 1 ∷ 9 ∷ []

read_varint-load_uvarint_example :
    ((v : ℕ) (rest : Bytes)
      → load_uvarint 64 cut_or_not ≡ some (v, rest)
      → (n : ℕ) × (read_varint 64 cut_or_not ≡ VarintRead.taken (suc n) v)
        × (drop (suc n) cut_or_not ≡ rest))
    × ((n v : ℕ)
        → read_varint 64 cut_or_not ≡ VarintRead.taken n v
        → (load_uvarint 64 cut_or_not ≡ some (v, drop n cut_or_not)) ⊎ (n ≡ length cut_or_not))
read_varint-load_uvarint_example = read_varint-load_uvarint 64 cut_or_not

-- A varint that the end of the input cuts is counted, with what was read of it.
cut_varint : read_varint 64 (200 ∷ 129 ∷ []) ≡ VarintRead.taken 2 200
unfolding read_varint
cut_varint = refl

decode_addr-encode_addr_example :
    (addr : Bytes) × (encode_addr cn_fast_hash 18 nine_bytes ≡ some addr)
    × AreBytes addr
    × (decode_addr cn_fast_hash addr ≡ some (18, nine_bytes))
decode_addr-encode_addr_example =
    decode_addr-encode_addr cn_fast_hash hash_32 hash_AreBytes 18 nine_bytes (omega arith)
      (omega arith)

made :
    (addr : Bytes) × (encode_addr cn_fast_hash 18 nine_bytes ≡ some addr)
    × AreBytes addr
    × (decode_addr cn_fast_hash addr ≡ some (18, nine_bytes))
made =
    decode_addr-encode_addr cn_fast_hash hash_32 hash_AreBytes 18 nine_bytes (omega arith)
      (omega arith)

encode_addr-decode_addr_example :
    (18 < 2 ^ 64) × AreBytes nine_bytes × (encode_addr cn_fast_hash 18 nine_bytes ≡ some made.0)
encode_addr-decode_addr_example =
    encode_addr-decode_addr cn_fast_hash made.0 18 nine_bytes made.2 (λ e. cc) made.3

abbrev two_keys : AccountPublicAddress
two_keys = record { m_spend_public_key = replicate 32 7; m_view_public_key = replicate 32 9 }

two_keys-IsAddress : IsAddress any_key two_keys
two_keys-IsAddress = record {
  spend = (refl, omega arith);
  view = (refl, omega arith);
  accepted = unfold keys_checked in refl;
}

address_decode-standard_example :
    (addr : Bytes) × (encode_addr cn_fast_hash 18 (address_bytes two_keys) ≡ some addr)
    × AreBytes addr
    × (address_decode cn_fast_hash any_key (Argument.buffer addr ∷ []) ≡ ok (Reply.unsigned 18))
    × (address_decode_integrated cn_fast_hash any_key (Argument.buffer addr ∷ [])
        ≡ ok (Reply.buffer (uint64be_to_blob 18 ++ address_bytes two_keys)))
address_decode-standard_example =
    address_decode-standard cn_fast_hash any_key hash_32 hash_AreBytes two_keys two_keys-IsAddress
      18 (omega arith) []

address_decode-integrated_example :
    (addr : Bytes) × (encode_addr cn_fast_hash 19 (address_bytes two_keys ++ replicate 8 1)
      ≡ some addr)
    × AreBytes addr
    × (address_decode_integrated cn_fast_hash any_key (Argument.buffer addr ∷ [])
        ≡ ok (Reply.unsigned 19))
    × (address_decode cn_fast_hash any_key (Argument.buffer addr ∷ [])
        ≡ ok (Reply.buffer (uint64be_to_blob 19 ++ (address_bytes two_keys ++ replicate 8 1))))
address_decode-integrated_example =
    address_decode-integrated cn_fast_hash any_key hash_32 hash_AreBytes two_keys two_keys-IsAddress
      19 (omega arith) (replicate 8 1) [] refl (omega arith)

standard :
    (addr : Bytes) × (encode_addr cn_fast_hash 18 (address_bytes two_keys) ≡ some addr)
    × AreBytes addr
    × (address_decode cn_fast_hash any_key (Argument.buffer addr ∷ []) ≡ ok (Reply.unsigned 18))
    × (address_decode_integrated cn_fast_hash any_key (Argument.buffer addr ∷ [])
        ≡ ok (Reply.buffer (uint64be_to_blob 18 ++ address_bytes two_keys)))
standard =
    address_decode-standard cn_fast_hash any_key hash_32 hash_AreBytes two_keys two_keys-IsAddress
      18 (omega arith) []

address_decode-unsigned_example :
    (18 < 2 ^ 32)
    × ((adr : AccountPublicAddress) × IsAddress any_key adr
        × (encode_addr cn_fast_hash 18 (address_bytes adr) ≡ some standard.0))
address_decode-unsigned_example =
    address_decode-unsigned cn_fast_hash any_key [] standard.0 18 standard.2 standard.3

integrated :
    (addr : Bytes) × (encode_addr cn_fast_hash 19 (address_bytes two_keys ++ replicate 8 1)
      ≡ some addr)
    × AreBytes addr
    × (address_decode_integrated cn_fast_hash any_key (Argument.buffer addr ∷ [])
        ≡ ok (Reply.unsigned 19))
    × (address_decode cn_fast_hash any_key (Argument.buffer addr ∷ [])
        ≡ ok (Reply.buffer (uint64be_to_blob 19 ++ (address_bytes two_keys ++ replicate 8 1))))
integrated =
    address_decode-integrated cn_fast_hash any_key hash_32 hash_AreBytes two_keys two_keys-IsAddress
      19 (omega arith) (replicate 8 1) [] refl (omega arith)

address_decode-injective_example : integrated.0 ≡ integrated.0
address_decode-injective_example =
    address_decode-injective cn_fast_hash any_key [] integrated.0 integrated.0
      (uint64be_to_blob 19 ++ (address_bytes two_keys ++ replicate 8 1)) integrated.2 integrated.2
      integrated.4 integrated.4
