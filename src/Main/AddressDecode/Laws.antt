-- ===== src/Main/AddressDecode/Laws.antt =====
-- What the address handlers of src/main.cc reply.
use node_blocktemplate.Prelude.{
  ℕ, suc, ◌^◌, ◌<◌, ◌≡◌, ◌≢◌, refl, sym, ap, ◌∙◌, Bool, true, false, Option, some, some_eq,
  Option-cases, inl, inr, List, ◌∷◌, ◌++◌, ltb, Bytes, AreBytes, length, length-append,
  AreBytes-append, arith,
}
use node_blocktemplate.Archive.Fixed.{blob}
use node_blocktemplate.Archive.Combine.{chain, convert}
use node_blocktemplate.Format.{parse_binary, object_to_blob}
use node_blocktemplate.Format.Blocks.{parse_binary-object_to_blob, object_to_blob-parse_binary}
use node_blocktemplate.Basic.Address.{
  AccountPublicAddress, account_public_address, IntegratedAddress, integrated_address,
  account_public_address-IsLossless, integrated_address-IsLossless,
}
use node_blocktemplate.Base58.Address.{encode_addr, decode_addr}
use node_blocktemplate.Base58.Address.Laws.{decode_addr-encode_addr}
use node_blocktemplate.Main.{Argument, get_buffer_argument, uint64be_to_blob}
use node_blocktemplate.Main.Outcome.{ok}
use node_blocktemplate.Main.AddressDecode.{
  Reply, reply, reply_to, keys_checked, if_parsed, is_standard, is_integrated, address_decode,
  address_decode_integrated,
}

-- The bytes of an address and of one with a payment id.
abbrev pub address_bytes : AccountPublicAddress → Bytes
address_bytes adr = adr.m_spend_public_key ++ adr.m_view_public_key

-- Two keys of 32 bytes that `check_key` accepts.
pub record IsAddress (check_key : Bytes → Bool) (adr : AccountPublicAddress) : Type 0 where
  pub spend : (length adr.m_spend_public_key ≡ 32) × AreBytes adr.m_spend_public_key
  pub view : (length adr.m_view_public_key ≡ 32) × AreBytes adr.m_view_public_key
  pub accepted : keys_checked check_key adr ≡ true

address-saved :
    (adr : AccountPublicAddress)
    → object_to_blob account_public_address adr ≡ some (address_bytes adr)
unfolding object_to_blob account_public_address convert chain blob
address-saved adr = refl

integrated-saved :
    (iadr : IntegratedAddress)
    → object_to_blob integrated_address iadr ≡ some (address_bytes iadr.adr ++ iadr.payment_id)
unfolding object_to_blob integrated_address account_public_address convert chain blob
integrated-saved iadr = refl

-- What a parse of some bytes shows of them.
parsed-address :
    (bytes : Bytes) (adr : AccountPublicAddress)
    → AreBytes bytes
    → parse_binary account_public_address bytes ≡ some adr
    → (account_public_address).Fits adr × (address_bytes adr ≡ bytes)
parsed-address bytes adr hx q =
    let (fits, saved) =
      object_to_blob-parse_binary account_public_address _
        account_public_address-IsLossless.rewrites bytes adr hx tt q in
    (fits, some_eq (sym (address-saved adr) ∙ saved))

parsed-integrated :
    (bytes : Bytes) (iadr : IntegratedAddress)
    → AreBytes bytes
    → parse_binary integrated_address bytes ≡ some iadr
    → (integrated_address).Fits iadr × (address_bytes iadr.adr ++ iadr.payment_id ≡ bytes)
parsed-integrated bytes iadr hx q =
    let (fits, saved) =
      object_to_blob-parse_binary integrated_address _ integrated_address-IsLossless.rewrites bytes
        iadr hx tt q in
    (fits, some_eq (sym (integrated-saved iadr) ∙ saved))

module _ (check_key : Bytes → Bool) where
  Fits-IsAddress :
      (adr : AccountPublicAddress)
      → (account_public_address).Fits adr
      → keys_checked check_key adr ≡ true
      → IsAddress check_key adr
  unfolding account_public_address convert chain blob
  Fits-IsAddress adr fits ok_keys = record { spend = fits.0; view = fits.1; accepted = ok_keys }

  IsAddress-Fits :
      (adr : AccountPublicAddress) → IsAddress check_key adr → (account_public_address).Fits adr
  unfolding account_public_address convert chain blob
  IsAddress-Fits adr h = (h.spend, h.view)

  length-address_bytes :
      (adr : AccountPublicAddress)
      → (account_public_address).Fits adr
      → length (address_bytes adr) ≡ 64
  unfolding account_public_address convert chain blob
  length-address_bytes adr ((hs, _), (hv, _)) =
      omega (arith, length-append adr.m_spend_public_key adr.m_view_public_key)

  length-integrated :
      (iadr : IntegratedAddress)
      → (integrated_address).Fits iadr
      → length (address_bytes iadr.adr ++ iadr.payment_id) ≡ 72
  unfolding integrated_address convert chain blob
  length-integrated iadr (fits, (size, _)) = omega (
    arith,
    length-append (address_bytes iadr.adr) iadr.payment_id,
    length-address_bytes iadr.adr fits,
  )

  -- What the handlers take for an address of their kind.
  is_standard-address :
      (adr : AccountPublicAddress)
      → IsAddress check_key adr
      → is_standard check_key (address_bytes adr) ≡ true
  unfolding is_standard
  is_standard-address adr h =
      ap (if_parsed (keys_checked check_key)) (
        parse_binary-object_to_blob account_public_address
          account_public_address-IsLossless.reads_back adr (address_bytes adr)
          (IsAddress-Fits adr h) (address-saved adr))
      ∙ h.accepted

  is_integrated-address :
      (adr : AccountPublicAddress) (payment_id : Bytes)
      → IsAddress check_key adr
      → length payment_id ≡ 8
      → AreBytes payment_id
      → is_integrated check_key (address_bytes adr ++ payment_id) ≡ true
  unfolding is_integrated
  is_integrated-address adr payment_id h size hp =
      let iadr : IntegratedAddress = record { adr = adr; payment_id = payment_id } in
      let fits : (integrated_address).Fits iadr =
        unfold integrated_address convert chain blob in (IsAddress-Fits adr h, (size, hp)) in
      ap (if_parsed (λ (i : IntegratedAddress). keys_checked check_key i.adr)) (
        parse_binary-object_to_blob integrated_address integrated_address-IsLossless.reads_back iadr
          _ fits (integrated-saved iadr))
      ∙ h.accepted

  pub not_standard :
      (bytes : Bytes) → AreBytes bytes → length bytes ≢ 64 → is_standard check_key bytes ≡ false
  unfolding is_standard
  not_standard bytes hx other = elim (Option-cases (parse_binary account_public_address bytes)) [
    | inl failed ↦ ap (if_parsed (keys_checked check_key)) failed
    | inr (adr, parsed) ↦
        let (fits, e) = parsed-address bytes adr hx parsed in
        absurd (other (sym (ap length e) ∙ length-address_bytes adr fits))
  ]

  not_integrated :
      (bytes : Bytes) → AreBytes bytes → length bytes ≢ 72 → is_integrated check_key bytes ≡ false
  unfolding is_integrated
  not_integrated bytes hx other = elim (Option-cases (parse_binary integrated_address bytes)) [
    | inl failed ↦ ap (if_parsed (λ (i : IntegratedAddress). keys_checked check_key i.adr)) failed
    | inr (iadr, parsed) ↦
        let (fits, e) = parsed-integrated bytes iadr hx parsed in
        absurd (other (sym (ap length e) ∙ length-integrated iadr fits))
  ]

  pub is_standard-inv :
      (bytes : Bytes)
      → AreBytes bytes
      → is_standard check_key bytes ≡ true
      → (adr : AccountPublicAddress) × IsAddress check_key adr × (address_bytes adr ≡ bytes)
  unfolding is_standard
  is_standard-inv bytes hx q = elim (Option-cases (parse_binary account_public_address bytes)) [
    | inl failed ↦ cc (sym (ap (if_parsed (keys_checked check_key)) failed) ∙ q)
    | inr (adr, parsed) ↦
        let (fits, e) = parsed-address bytes adr hx parsed in
        let accepted : keys_checked check_key adr ≡ true =
          sym (ap (if_parsed (keys_checked check_key)) parsed) ∙ q in
        (adr, Fits-IsAddress adr fits accepted, e)
  ]

reply_known :
    (prefix : ℕ) (bytes : Bytes) → prefix < 2 ^ 32 → reply true prefix bytes ≡ Reply.unsigned prefix
unfolding reply
reply_known prefix bytes h = ground arith

reply_other :
    (prefix : ℕ) (bytes : Bytes)
    → length bytes ≢ 0
    → reply false prefix bytes ≡ Reply.buffer (uint64be_to_blob prefix ++ bytes)
unfolding reply
reply_other prefix bytes h = ground arith

module _ (cn_fast_hash : Bytes → Bytes) (check_key : Bytes → Bool) (addr : Bytes)
    (more : List Argument) where
  -- Both handlers, past the tests of their argument.
  pub handlers-reply_to :
      (address_decode cn_fast_hash check_key (Argument.buffer addr ∷ more)
        ≡ ok (reply_to (is_standard check_key) (decode_addr cn_fast_hash addr)))
      × (address_decode_integrated cn_fast_hash check_key (Argument.buffer addr ∷ more)
          ≡ ok (reply_to (is_integrated check_key) (decode_addr cn_fast_hash addr)))
  unfolding address_decode address_decode_integrated get_buffer_argument
  handlers-reply_to =
      let given : ltb (suc (length more)) 1 ≡ false = ground arith in (rw given refl, rw given refl)

  -- What they reply where the bytes behind a tag are, or are not, an address of their kind.
  handlers-known :
      (tag : ℕ) (bytes : Bytes) (s i : Bool)
      → decode_addr cn_fast_hash addr ≡ some (tag, bytes)
      → is_standard check_key bytes ≡ s
      → is_integrated check_key bytes ≡ i
      → (address_decode cn_fast_hash check_key (Argument.buffer addr ∷ more)
          ≡ ok (reply s tag bytes))
        × (address_decode_integrated cn_fast_hash check_key (Argument.buffer addr ∷ more)
            ≡ ok (reply i tag bytes))
  unfolding reply_to
  handlers-known tag bytes s i e es ei = (
    handlers-reply_to.0
        ∙ ap (λ (o : Option (ℕ × Bytes)). ok (reply_to (is_standard check_key) o)) e
        ∙ ap (λ (b : Bool). ok (reply b tag bytes)) es,
    handlers-reply_to.1
        ∙ ap (λ (o : Option (ℕ × Bytes)). ok (reply_to (is_integrated check_key) o)) e
        ∙ ap (λ (b : Bool). ok (reply b tag bytes)) ei,
  )

module _ (cn_fast_hash : Bytes → Bytes) (check_key : Bytes → Bool)
    (hash_size : (bs : Bytes) → length (cn_fast_hash bs) ≡ 32)
    (hash_AreBytes : (bs : Bytes) → AreBytes (cn_fast_hash bs)) (adr : AccountPublicAddress)
    (h : IsAddress check_key adr) (tag : ℕ) (tag_lt : tag < 2 ^ 32) where
  bytes_of : AreBytes (address_bytes adr)
  bytes_of = AreBytes-append adr.m_spend_public_key adr.m_view_public_key h.spend.1 h.view.1

  size_of : length (address_bytes adr) ≡ 64
  size_of = length-address_bytes check_key adr (IsAddress-Fits check_key adr h)

  -- Where the hash is 32 bytes: the address of a tag of 32 bits and of two keys that check_key
  -- accepts is given by address_decode as the tag, and by address_decode_integrated as a buffer of
  -- the tag and the keys.
  pub address_decode-standard :
      (more : List Argument)
      → (addr : Bytes) × (encode_addr cn_fast_hash tag (address_bytes adr) ≡ some addr)
        × AreBytes addr
        × (address_decode cn_fast_hash check_key (Argument.buffer addr ∷ more)
            ≡ ok (Reply.unsigned tag))
        × (address_decode_integrated cn_fast_hash check_key (Argument.buffer addr ∷ more)
            ≡ ok (Reply.buffer (uint64be_to_blob tag ++ address_bytes adr)))
  address_decode-standard more =
      let (addr, written, spelled, decoded) =
        decode_addr-encode_addr cn_fast_hash hash_size hash_AreBytes tag (address_bytes adr)
          (omega arith) bytes_of in
      let (standard, integrated) =
        handlers-known cn_fast_hash check_key addr more tag (address_bytes adr) true false decoded
          (is_standard-address check_key adr h)
          (not_integrated check_key (address_bytes adr) bytes_of (omega (arith, size_of))) in
      (
        addr,
        written,
        spelled,
        standard ∙ ap (λ (r : Reply). ok r) (reply_known tag (address_bytes adr) tag_lt),
        integrated
            ∙ ap (λ (r : Reply). ok r)
                (reply_other tag (address_bytes adr) (omega (arith, size_of))),
      )

  -- The same for an address with a payment id of 8 bytes, with the handlers' parts exchanged.
  pub address_decode-integrated :
      (payment_id : Bytes) (more : List Argument)
      → length payment_id ≡ 8
      → AreBytes payment_id
      → (addr : Bytes) × (encode_addr cn_fast_hash tag (address_bytes adr ++ payment_id)
          ≡ some addr)
        × AreBytes addr
        × (address_decode_integrated cn_fast_hash check_key (Argument.buffer addr ∷ more)
            ≡ ok (Reply.unsigned tag))
        × (address_decode cn_fast_hash check_key (Argument.buffer addr ∷ more)
            ≡ ok (Reply.buffer (uint64be_to_blob tag ++ (address_bytes adr ++ payment_id))))
  address_decode-integrated payment_id more eight hp =
      let bytes = address_bytes adr ++ payment_id in
      let size : length bytes ≡ 72 =
        omega (arith, length-append (address_bytes adr) payment_id, size_of, eight) in
      let hx = AreBytes-append (address_bytes adr) payment_id bytes_of hp in
      let (addr, written, spelled, decoded) =
        decode_addr-encode_addr cn_fast_hash hash_size hash_AreBytes tag bytes (omega arith) hx in
      let (standard, integrated) =
        handlers-known cn_fast_hash check_key addr more tag bytes false true decoded
          (not_standard check_key bytes hx (omega (arith, size)))
          (is_integrated-address check_key adr payment_id h eight hp) in
      (
        addr,
        written,
        spelled,
        integrated ∙ ap (λ (r : Reply). ok r) (reply_known tag bytes tag_lt),
        standard ∙ ap (λ (r : Reply). ok r) (reply_other tag bytes (omega (arith, size))),
      )
