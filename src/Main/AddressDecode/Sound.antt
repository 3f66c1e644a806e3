-- ===== src/Main/AddressDecode/Sound.antt =====
-- What the replies of the address handlers of src/main.cc say of the string that was given.
use node_blocktemplate.Prelude.{
  ℕ, ◌-◌, ◌^◌, ◌<◌, ◌≡◌, ◌≢◌, refl, sym, ap, ◌∙◌, Bool, true, false, Option, none, some, some_eq,
  inl, inr, List, [], ◌∷◌, ◌++◌, ◌==◌, ltb, if◌then◌else◌, Bytes, AreBytes, length, take, drop,
  Bool-cases, arith,
}
use node_blocktemplate.Base58.Address.{encode_addr, decode_addr}
use node_blocktemplate.Base58.Address.Laws.{encode_addr-decode_addr}
use node_blocktemplate.Basic.Address.{AccountPublicAddress}
use node_blocktemplate.Main.{Argument, uint64be_to_blob}
use node_blocktemplate.Main.AddressDecode.Prefix.{big_endian, big_endian-uint64be_to_blob}
use node_blocktemplate.Main.Outcome.{ok}
use node_blocktemplate.Main.AddressDecode.{Reply, reply, reply_to, is_standard, address_decode}
use node_blocktemplate.Main.AddressDecode.Laws.{
  address_bytes, IsAddress, is_standard-inv, not_standard, handlers-reply_to,
}

ok_eq : {x y : Reply} → ok x ≡ ok y → x ≡ y
ok_eq h = cc

cons-ne-nil : (b : ℕ) (bytes : Bytes) → b ∷ bytes ≢ []
cons-ne-nil b bytes e = absurd (omega (arith, ap length e))

standard-ne-nil :
    (check_key : Bytes → Bool) (bytes : Bytes) → is_standard check_key bytes ≡ true → bytes ≢ []
standard-ne-nil check_key bytes q e =
    let other : is_standard check_key [] ≡ false = not_standard check_key [] tt (omega arith) in
    cc (rw e at q, other)

first_eight :
    (p q : ℕ) (xs ys : Bytes)
    → uint64be_to_blob p ++ xs ≡ uint64be_to_blob q ++ ys
    → uint64be_to_blob p ≡ uint64be_to_blob q
unfolding uint64be_to_blob
first_eight p q xs ys e = ap (take 8) e

behind_eight :
    (p q : ℕ) (xs ys : Bytes) → uint64be_to_blob p ++ xs ≡ uint64be_to_blob q ++ ys → xs ≡ ys
unfolding uint64be_to_blob
behind_eight p q xs ys e = ap (drop 8) e

reply-unsigned :
    (known : Bool) (prefix v : ℕ) (bytes : Bytes)
    → reply known prefix bytes ≡ Reply.unsigned v
    → (known ≡ true) × (prefix ≡ v) × (v < 2 ^ 32)
unfolding reply
reply-unsigned false prefix v bytes q = elim (Bool-cases (length bytes == 0)) [
  | inl e ↦ cc (rw e at q)
  | inr e ↦ cc (rw e at q)
]
reply-unsigned true prefix v bytes q = elim (Bool-cases (ltb (2 ^ 32 - 1) prefix)) [
  | inl e ↦ cc (rw e at q)
  | inr e ↦
      let same : prefix ≡ v = cc (rw e at q) in
      let small : prefix < 2 ^ 32 = ground arith in (refl, same, rw (← same) small)
]

reply-buffer :
    (known : Bool) (prefix : ℕ) (bytes out : Bytes)
    → reply known prefix bytes ≡ Reply.buffer out
    → (bytes ≢ []) × (uint64be_to_blob prefix ++ bytes ≡ out)
unfolding reply
reply-buffer true prefix bytes out q = elim (Bool-cases (ltb (2 ^ 32 - 1) prefix)) [
  | inl e ↦ cc (rw e at q)
  | inr e ↦ cc (rw e at q)
]
reply-buffer false prefix [] out q = cc q
reply-buffer false prefix (b ∷ bytes) out q =
    let full : (length (b ∷ bytes) == 0) ≡ false = ground arith in
    let same : Reply.buffer (uint64be_to_blob prefix ++ (b ∷ bytes)) ≡ Reply.buffer out =
      sym (
        ap
          (λ (t : Bool).
            if t then Reply.undefined else Reply.buffer (uint64be_to_blob prefix ++ (b ∷ bytes)))
          full)
      ∙ q in
    (λ e. absurd (cons-ne-nil b bytes e), cc same)

module _ (known : Bytes → Bool) where
  reply_to-unsigned :
      (o : Option (ℕ × Bytes)) (v : ℕ)
      → reply_to known o ≡ Reply.unsigned v
      → (bytes : Bytes) × (o ≡ some (v, bytes)) × (known bytes ≡ true) × (v < 2 ^ 32)
  unfolding reply_to
  reply_to-unsigned none v q = cc q
  reply_to-unsigned (some (prefix, bytes)) v q =
      let (standard, same, small) = reply-unsigned (known bytes) prefix v bytes q in
      (bytes, ap (λ (t : ℕ). some (t, bytes)) same, standard, small)

  reply_to-buffer :
      (o : Option (ℕ × Bytes)) (out : Bytes)
      → reply_to known o ≡ Reply.buffer out
      → (prefix : ℕ) × (bytes : Bytes) × (o ≡ some (prefix, bytes))
        × (bytes ≢ [])
        × (uint64be_to_blob prefix ++ bytes ≡ out)
  unfolding reply_to
  reply_to-buffer none out q = cc q
  reply_to-buffer (some (prefix, bytes)) out q =
      let (nonempty, same) = reply-buffer (known bytes) prefix bytes out q in
      (prefix, bytes, refl, nonempty, same)

module _ (cn_fast_hash : Bytes → Bytes) (check_key : Bytes → Bool) (more : List Argument) where
  -- If address_decode gives a number for a string of bytes, the string is the address of that
  -- number, which has 32 bits, and of two keys of 32 bytes that check_key accepts.
  pub address_decode-unsigned :
      (addr : Bytes) (v : ℕ)
      → AreBytes addr
      → address_decode cn_fast_hash check_key (Argument.buffer addr ∷ more) ≡ ok (Reply.unsigned v)
      → (v < 2 ^ 32)
        × ((adr : AccountPublicAddress) × IsAddress check_key adr
            × (encode_addr cn_fast_hash v (address_bytes adr) ≡ some addr))
  address_decode-unsigned addr v hx q =
      let replied = ok_eq (sym (handlers-reply_to cn_fast_hash check_key addr more).0 ∙ q) in
      let (bytes, decoded, standard, small) =
        reply_to-unsigned (is_standard check_key) (decode_addr cn_fast_hash addr) v replied in
      let nonempty = standard-ne-nil check_key bytes standard in
      let (_, are_bytes, written) =
        encode_addr-decode_addr cn_fast_hash addr v bytes hx nonempty decoded in
      let (adr, h, e) = is_standard-inv check_key bytes are_bytes standard in
      (small, (adr, h, ap (encode_addr cn_fast_hash v) e ∙ written))

  encoded :
      (addr out : Bytes)
      → AreBytes addr
      → address_decode cn_fast_hash check_key (Argument.buffer addr ∷ more) ≡ ok (Reply.buffer out)
      → (prefix : ℕ) × (bytes : Bytes) × (prefix < 2 ^ 64)
        × (encode_addr cn_fast_hash prefix bytes ≡ some addr)
        × (uint64be_to_blob prefix ++ bytes ≡ out)
  encoded addr out hx q =
      let replied = ok_eq (sym (handlers-reply_to cn_fast_hash check_key addr more).0 ∙ q) in
      let (prefix, bytes, decoded, nonempty, same) =
        reply_to-buffer (is_standard check_key) (decode_addr cn_fast_hash addr) out replied in
      let (small, _, written) =
        encode_addr-decode_addr cn_fast_hash addr prefix bytes hx nonempty decoded in
      (prefix, bytes, small, written, same)

  -- A buffer that address_decode gives loses nothing: two strings of bytes with the same buffer are
  -- equal.
  pub address_decode-injective :
      (a b out : Bytes)
      → AreBytes a
      → AreBytes b
      → address_decode cn_fast_hash check_key (Argument.buffer a ∷ more) ≡ ok (Reply.buffer out)
      → address_decode cn_fast_hash check_key (Argument.buffer b ∷ more) ≡ ok (Reply.buffer out)
      → a ≡ b
  address_decode-injective a b out ha hb qa qb =
      let (p, xs, small_p, written_a, out_a) = encoded a out ha qa in
      let (q, ys, small_q, written_b, out_b) = encoded b out hb qb in
      let joined = out_a ∙ sym out_b in
      let numbers : p ≡ q =
        sym (big_endian-uint64be_to_blob p small_p)
        ∙ ap (big_endian 0) (first_eight p q xs ys joined)
        ∙ big_endian-uint64be_to_blob q small_q in
      some_eq (
        sym written_a
        ∙ ap (λ (t : ℕ). encode_addr cn_fast_hash t xs) numbers
        ∙ ap (encode_addr cn_fast_hash q) (behind_eight p q xs ys joined)
        ∙ written_b)
