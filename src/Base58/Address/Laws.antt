-- ===== src/Base58/Address/Laws.antt =====
-- Addresses (src/common/base58.cpp): what is encoded is decoded, and what is decoded is the
-- encoding of what it is decoded to.
use node_blocktemplate.Prelude.{
  ℕ, suc, ◌-◌, ◌^◌, ◌≤◌, ◌<◌, ◌≡◌, ◌≢◌, refl, sym, ap, ◌∙◌, inl, inr, true, false, none, some,
  some_eq, [], ◌∷◌, ◌++◌, >>=-eq-some, Bytes, AreBytes, AreBytes-append, AreBytes-append_left,
  AreBytes-append_right, Bool, AreBytes-take, length, take, drop, length-append, length-take,
  length-drop, take-append-drop, take-length_append, drop-length_append, leb, if◌then◌else◌, arith,
  bytes_eq, bytes_eq_self, bytes_eq→eq, Bool-cases,
}
use node_blocktemplate.Archive.Varint.{write_varint}
use node_blocktemplate.Archive.Varint.Laws.{
  write_varint-AreBytes, length-write_varint, load_uvarint-write_varint, load_uvarint-inv,
}
use node_blocktemplate.Archive.Varint.Read.{VarintRead, read_varint, read_varint-load_uvarint}
use node_blocktemplate.Base58.{encode, decode}
use node_blocktemplate.Base58.RoundTrip.{decode-encode}
use node_blocktemplate.Base58.Canonical.{encode-decode}
use node_blocktemplate.Base58.Address.{substr, tag_of, encode_addr, checked, decode_addr}

substr-taken :
    (n tag : ℕ) (body : Bytes)
    → substr (VarintRead.taken (suc n) tag) body ≡ some (tag, drop (suc n) body)
unfolding substr
substr-taken n tag body = let read : leb (suc n) 0 ≡ false = ground arith in rw read refl

tag_of-write_varint :
    (tag : ℕ) (bytes : Bytes)
    → tag < 2 ^ 64
    → tag_of (write_varint tag ++ bytes) ≡ some (tag, bytes)
unfolding tag_of
tag_of-write_varint tag bytes h =
    let (n, counted, split) =
      (read_varint-load_uvarint 64 (write_varint tag ++ bytes)).0 tag bytes
        (load_uvarint-write_varint 64 tag bytes h) in
    ap (λ (r : VarintRead). substr r (write_varint tag ++ bytes)) counted
    ∙ substr-taken n tag (write_varint tag ++ bytes)
    ∙ ap (λ (t : Bytes). some (tag, t)) split

substr-inv :
    (r : VarintRead) (body : Bytes) (tag : ℕ) (bytes : Bytes)
    → substr r body ≡ some (tag, bytes)
    → (n : ℕ) × (r ≡ VarintRead.taken n tag) × (drop n body ≡ bytes)
unfolding substr
substr-inv (VarintRead.taken read i) body tag bytes q = elim (Bool-cases (leb read 0)) [
  | inl none_read ↦ cc (rw none_read at q)
  | inr some_read ↦
      let e : (i, drop read body) ≡ (tag, bytes) = some_eq (rw some_read at q) in
      (read, ap (λ (t : ℕ). VarintRead.taken read t) (cc e), cc e)
]
substr-inv VarintRead.overflow body tag bytes q = cc q
substr-inv VarintRead.non_canonical body tag bytes q = cc q

nil_of : (bytes : Bytes) → length bytes ≡ 0 → bytes ≡ []
nil_of [] e = refl
nil_of (b ∷ bytes) e = absurd (omega arith)

-- A tag that bytes follow is written as what stands in front of them.
tag_of-inv :
    (body : Bytes) (tag : ℕ) (bytes : Bytes)
    → AreBytes body
    → bytes ≢ []
    → tag_of body ≡ some (tag, bytes)
    → (tag < 2 ^ 64) × (body ≡ write_varint tag ++ bytes)
unfolding tag_of
tag_of-inv body tag bytes hx more q =
    let (n, counted, split) = substr-inv (read_varint 64 body) body tag bytes q in
    elim ((read_varint-load_uvarint 64 body).1 n tag counted) [
      | inl whole ↦ load_uvarint-inv 64 body tag bytes hx (rw split at whole)
      | inr cut ↦
          absurd (more (nil_of bytes (omega (arith, ap length split, length-drop n body, cut))))
    ]

both_passed :
    (short same : Bool) (b : Bytes) {body : Bytes}
    → (if short then none else if same then some b else none) ≡ some body
    → (same ≡ true) × (b ≡ body)
both_passed true same b q = cc q
both_passed false true b q = (refl, some_eq q)
both_passed false false b q = cc q

module _ (cn_fast_hash : Bytes → Bytes) where
  checked-append :
      (body sum : Bytes)
      → 1 ≤ length body
      → length sum ≡ 4
      → take 4 (cn_fast_hash body) ≡ sum
      → checked cn_fast_hash (body ++ sum) ≡ some body
  unfolding checked
  checked-append body sum h size e =
      let rest : length (body ++ sum) - 4 ≡ length body =
        omega (arith, length-append body sum, size) in
      let long : leb (length (body ++ sum)) 4 ≡ false =
        ground (arith, length-append body sum, size, h) in
      rw
        (long, rest, take-length_append body sum, drop-length_append body sum, e, bytes_eq_self sum)
        refl

  checked-inv :
      (addr_data body : Bytes)
      → checked cn_fast_hash addr_data ≡ some body
      → addr_data ≡ body ++ take 4 (cn_fast_hash body)
  unfolding checked
  checked-inv addr_data body q =
      let size = length addr_data - 4 in
      let (same, front) =
        both_passed (leb (length addr_data) 4)
          (bytes_eq (take 4 (cn_fast_hash (take size addr_data))) (drop size addr_data))
          (take size addr_data) q in
      let sum = bytes_eq→eq _ _ same in
      sym (take-append-drop size addr_data)
      ∙ ap (λ (t : Bytes). take size addr_data ++ t) (sym sum)
      ∙ ap (λ (t : Bytes). t ++ take 4 (cn_fast_hash t)) front

  -- An address that is decoded as a tag and some bytes is their encoding: there is one address for
  -- each.
  pub encode_addr-decode_addr :
      (addr : Bytes) (tag : ℕ) (bytes : Bytes)
      → AreBytes addr
      → bytes ≢ []
      → decode_addr cn_fast_hash addr ≡ some (tag, bytes)
      → (tag < 2 ^ 64) × AreBytes bytes × (encode_addr cn_fast_hash tag bytes ≡ some addr)
  unfolding encode_addr decode_addr
  encode_addr-decode_addr addr tag bytes hx more q =
      let (addr_data, decoded, q1) = >>=-eq-some (decode addr) _ q in
      let (body, passed, q2) = >>=-eq-some (checked cn_fast_hash addr_data) _ q1 in
      let (are_bytes, spelled) = encode-decode addr addr_data hx decoded in
      let split = checked-inv addr_data body passed in
      let hb = AreBytes-append_left body (take 4 (cn_fast_hash body)) (rw split at are_bytes) in
      let (small, e) = tag_of-inv body tag bytes hb more q2 in
      (
        small,
        AreBytes-append_right (write_varint tag) bytes (rw e at hb),
        ap (λ (t : Bytes). encode (t ++ take 4 (cn_fast_hash t))) (sym e)
            ∙ ap encode (sym split)
            ∙ spelled,
      )

  module _ (hash_size : (bs : Bytes) → length (cn_fast_hash bs) ≡ 32) where
    module _ (hash_AreBytes : (bs : Bytes) → AreBytes (cn_fast_hash bs)) where
      -- Where the hash is 32 bytes, an address of any tag of 64 bits and any bytes is encoded, and
      -- decoded as that tag and those bytes.
      pub decode_addr-encode_addr :
          (tag : ℕ) (bytes : Bytes)
          → tag < 2 ^ 64
          → AreBytes bytes
          → (addr : Bytes) × (encode_addr cn_fast_hash tag bytes ≡ some addr)
            × AreBytes addr
            × (decode_addr cn_fast_hash addr ≡ some (tag, bytes))
      unfolding encode_addr decode_addr
      decode_addr-encode_addr tag bytes h hx =
          let buf = write_varint tag ++ bytes in
          let sum = take 4 (cn_fast_hash buf) in
          let four : length sum ≡ 4 = length-take 4 _ (omega (arith, hash_size buf)) in
          let (addr, written, spelled, len, read) = decode-encode (buf ++ sum) (
            AreBytes-append buf sum
              (AreBytes-append (write_varint tag) bytes (write_varint-AreBytes tag) hx)
              (AreBytes-take 4 _ (hash_AreBytes buf))) in
          let nonempty : 1 ≤ length buf =
            omega (arith, length-append (write_varint tag) bytes, length-write_varint tag) in
          (
            addr,
            written,
            spelled,
            rw (read, checked-append buf sum nonempty four refl) (tag_of-write_varint tag bytes h),
          )
