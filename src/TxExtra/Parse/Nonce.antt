-- ===== src/TxExtra/Parse/Nonce.antt =====
-- Nonces and payment ids in the extra part of a transaction
-- (src/cryptonote_basic/cryptonote_format_utils.cpp).
use native.Mathlib.Decide.{dec_le}
use node_blocktemplate.Prelude.{
  ℕ, suc, ◌+◌, ◌%◌, ◌≤◌, ◌<◌, ◌≡◌, refl, ap, ◌∙◌, ◌↔◌, true, false, not, Bool-cases, inl, inr, none,
  some, some_eq, Option-cases, List, [], ◌∷◌, ◌++◌, append-nil, Bytes, AreBytes, AreBytes-append,
  length, length-append, ltb, leb, ◌==◌, arith,
}
use node_blocktemplate.Archive.Varint.{load_uvarint, write_varint, varint}
use node_blocktemplate.Archive.Varint.Laws.{
  load_uvarint-inv, write_varint-small, write_varint-large,
}
use node_blocktemplate.Archive.Fixed.{uint, put_uint, load_uint_loop}
use node_blocktemplate.Archive.Combine.{convert, ensure}
use node_blocktemplate.Archive.Many.{string}
use node_blocktemplate.Archive.Variant.{variant, alternative, no_alternative}
use node_blocktemplate.TxExtra.{tx_extra_nonce}
use node_blocktemplate.TxExtra.Field.{TxExtraField, tx_extra_field, others}
use node_blocktemplate.TxExtra.Parse.{
  parse_tx_extra, add_extra_nonce_to_tx_extra, set_payment_id_to_tx_extra_nonce,
  get_payment_id_from_tx_extra_nonce,
}
use node_blocktemplate.TxExtra.Parse.Laws.{parse_tx_extra-failed, parse_tx_extra-Written}
use node_blocktemplate.TxExtra.Parse.Edits.{
  Unpadded, followed_by, parse_tx_extra-append, parse_tx_extra-one,
}

nonce-saved :
    (nonce : Bytes)
    → length nonce < 128
    → tx_extra_field.save (TxExtraField.nonce nonce) ≡ some (0x02 ∷ length nonce ∷ nonce)
unfolding tx_extra_field others alternative no_alternative variant convert uint put_uint
    tx_extra_nonce ensure string varint
nonce-saved nonce h =
    let fits : leb (length nonce) 255 ≡ true = ground arith in
    rw (fits, write_varint-small (length nonce) h) refl

nonce_Fits :
    (nonce : Bytes)
    → length nonce < 128
    → AreBytes nonce
    → tx_extra_field.Fits (TxExtraField.nonce nonce)
unfolding tx_extra_field others alternative no_alternative variant convert tx_extra_nonce ensure
    string varint
nonce_Fits nonce h hn = (omega arith, hn)

too_short :
    (nonce rest : Bytes) (v : ℕ)
    → 128 ≤ length nonce
    → length nonce < 256
    → length nonce ∷ nonce ≡ write_varint v ++ rest
    → length rest < v
too_short nonce rest v low high e = elim (dec_le 128 v) [
  | no small ↦
      let one : length nonce ∷ nonce ≡ v ∷ rest = rw (write_varint-small v (omega arith)) at e in
      let head : length nonce ≡ v = cc one in absurd (omega (arith, head))
  | yes large ↦
      let (tail, written, nonempty) = write_varint-large v large in
      let more : length nonce ∷ nonce ≡ (v % 128 + 128) ∷ (tail ++ rest) = rw written at e in
      let head : length nonce ≡ v % 128 + 128 = cc more in
      let behind : nonce ≡ tail ++ rest = cc more in
      omega (arith, head, ap length behind, length-append tail rest, nonempty)
]

-- The one byte of a length of 128 or more is not the last of a varint: read on, it is the length of
-- more bytes than there are.
string-too_long :
    (nonce : Bytes)
    → AreBytes nonce
    → 128 ≤ length nonce
    → length nonce < 256
    → string.load (length nonce ∷ nonce) ≡ none
unfolding string varint
string-too_long nonce hn low high = elim (Option-cases (load_uvarint 64 (length nonce ∷ nonce))) [
  | inl failed ↦ rw failed refl
  | inr ((v, rest), e) ↦
      let (_, split) = load_uvarint-inv 64 (length nonce ∷ nonce) v rest (high, hn) e in
      let short : ltb (length rest) v ≡ true =
        ground (arith, too_short nonce rest v low high split) in
      rw (e, short) refl
]

long_nonce-load :
    (nonce : Bytes)
    → AreBytes nonce
    → 128 ≤ length nonce
    → length nonce < 256
    → tx_extra_field.load (0x02 ∷ length nonce ∷ nonce) ≡ none
unfolding tx_extra_field others alternative no_alternative variant convert uint load_uint_loop
    tx_extra_nonce ensure
long_nonce-load nonce hn low high = rw (string-too_long nonce hn low high) refl

-- What is added to the end of an extra that parses and has no padding.
module _ (extra nonce : Bytes) (hx : AreBytes extra) (okay : (parse_tx_extra extra).parsed ≡ true)
    (plain : Unpadded (parse_tx_extra extra).fields) (hn : AreBytes nonce) where
  added :
      (size : ℕ)
      → size < 256
      → parse_tx_extra (extra ++ (0x02 ∷ size ∷ nonce))
        ≡ followed_by (parse_tx_extra extra).fields (parse_tx_extra (0x02 ∷ size ∷ nonce))
  added size h =
      parse_tx_extra-append (parse_tx_extra extra).fields extra (0x02 ∷ size ∷ nonce)
        (parse_tx_extra-Written extra hx okay) plain
        (AreBytes-append extra (0x02 ∷ size ∷ nonce) hx (omega arith, (h, hn)))

  -- A nonce of up to 127 bytes that is added to such an extra is parsed behind its fields.
  pub parse_tx_extra-add_extra_nonce :
      length nonce < 128
      → (extra' : Bytes) × (add_extra_nonce_to_tx_extra extra nonce ≡ some extra')
        × (parse_tx_extra extra' ≡ record {
          fields = (parse_tx_extra extra).fields ++ (TxExtraField.nonce nonce ∷ []);
          parsed = true;
        })
  unfolding add_extra_nonce_to_tx_extra
  parse_tx_extra-add_extra_nonce h =
      let small : ltb 255 (length nonce) ≡ false = ground arith in
      let byte : length nonce % 256 ≡ length nonce = omega arith in
      (
        extra ++ (0x02 ∷ length nonce ∷ nonce),
        rw (small, byte) refl,
        added (length nonce) (omega arith)
            ∙ ap (followed_by (parse_tx_extra extra).fields) (
                parse_tx_extra-one (TxExtraField.nonce nonce) (0x02 ∷ length nonce ∷ nonce)
                  (nonce_Fits nonce h hn) (nonce-saved nonce h) (omega arith, (omega arith, hn))),
      )

  -- A nonce of 128 to 255 bytes is added to it as well, and nothing behind its fields is parsed: the
  -- call that parses the result returns false.
  pub parse_tx_extra-long_nonce :
      128 ≤ length nonce
      → length nonce < 256
      → (extra' : Bytes) × (add_extra_nonce_to_tx_extra extra nonce ≡ some extra')
        × (parse_tx_extra extra'
            ≡ record { fields = (parse_tx_extra extra).fields; parsed = false })
  unfolding add_extra_nonce_to_tx_extra
  parse_tx_extra-long_nonce low high =
      let small : ltb 255 (length nonce) ≡ false = ground arith in
      let byte : length nonce % 256 ≡ length nonce = omega arith in
      (
        extra ++ (0x02 ∷ length nonce ∷ nonce),
        rw (small, byte) refl,
        added (length nonce) high
            ∙ ap (followed_by (parse_tx_extra extra).fields) (
                parse_tx_extra-failed 0x02 (length nonce ∷ nonce)
                  (long_nonce-load nonce hn low high))
            ∙ ap (λ (fs : List TxExtraField). record { fields = fs; parsed = false })
                (append-nil (parse_tx_extra extra).fields),
      )

-- A payment id of 32 bytes is got from the nonce that it is set to, and from no other.
pub get_payment_id-set_iff :
    (nonce payment_id : Bytes)
    → length payment_id ≡ 32
    → (get_payment_id_from_tx_extra_nonce nonce ≡ some payment_id)
      ↔ (nonce ≡ set_payment_id_to_tx_extra_nonce payment_id)
unfolding get_payment_id_from_tx_extra_nonce set_payment_id_to_tx_extra_nonce
get_payment_id-set_iff nonce payment_id size = (λ q. got nonce payment_id q, λ e. rw e set)
  where
    got :
        (nonce payment_id : Bytes)
        → get_payment_id_from_tx_extra_nonce nonce ≡ some payment_id
        → nonce ≡ 0x00 ∷ payment_id
    got [] payment_id q = cc q
    got (kind ∷ bytes) payment_id q = elim (Bool-cases (not (length (kind ∷ bytes) == 33))) [
      | inl other ↦ cc (rw other at q)
      | inr sized ↦ elim (Bool-cases (not (kind == 0x00))) [
        | inl other ↦ cc (rw (sized, other) at q)
        | inr zeroed ↦
            let same : bytes ≡ payment_id = some_eq (rw (sized, zeroed) at q) in
            let zero_kind : kind ≡ 0 = ground arith in cc (zero_kind, same)
      ]
    ]

    set : get_payment_id_from_tx_extra_nonce (0x00 ∷ payment_id) ≡ some payment_id
    set = let sized : (suc (length payment_id) == 33) ≡ true = ground arith in rw sized refl
