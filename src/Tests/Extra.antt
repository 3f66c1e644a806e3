-- ===== src/Tests/Extra.antt =====
-- The extra part of a transaction on concrete inputs.
use mathlib.Core.Option.{get_or}
use node_blocktemplate.TxExtra.{tx_extra_service_node_register}
use node_blocktemplate.Archive.Fixed.{put_uint, blob}
use node_blocktemplate.Archive.Combine.{chain}
use node_blocktemplate.Archive.Many.{vector, save_each}
use node_blocktemplate.Prelude.{
  ◌≡◌, refl, ◌↔◌, true, false, some, List, [], ◌∷◌, ◌++◌, Bytes, replicate, arith,
}
use node_blocktemplate.Archive.Varint.{load_uvarint}
use node_blocktemplate.Archive.Fixed.{uint, read_blob, load_uint_loop}
use node_blocktemplate.Archive.Combine.{convert, ensure}
use node_blocktemplate.Archive.Many.{string}
use node_blocktemplate.Archive.Varint.{varint}
use node_blocktemplate.Archive.Variant.{variant, alternative, no_alternative}
use node_blocktemplate.TxExtra.{tx_extra_nonce, tx_extra_padding}
use node_blocktemplate.TxExtra.Field.{TxExtraField, tx_extra_field, others}
use node_blocktemplate.TxExtra.Parse.{
  parse_tx_extra, find_tx_extra_field_by_type, as_pub_key, get_tx_pub_key_from_extra,
  add_tx_pub_key_to_extra, add_extra_nonce_to_tx_extra, set_payment_id_to_tx_extra_nonce,
  get_payment_id_from_tx_extra_nonce,
}
use node_blocktemplate.TxExtra.Parse.Laws.{Written, parse_tx_extra-Written}
use node_blocktemplate.TxExtra.Parse.Edits.{Unpadded, parse_tx_extra-fields, get_tx_pub_key-add}
use node_blocktemplate.TxExtra.Parse.Nonce.{
  parse_tx_extra-add_extra_nonce, parse_tx_extra-long_nonce, get_payment_id-set_iff,
}

-- A nonce of the byte 5.
abbrev short_extra : Bytes
short_extra = 2 ∷ 1 ∷ 5 ∷ []

-- The same, and padding.
abbrev padded_extra : Bytes
padded_extra = 2 ∷ 1 ∷ 5 ∷ 0 ∷ 0 ∷ []

abbrev padded_fields : List TxExtraField
padded_fields = TxExtraField.nonce (5 ∷ []) ∷ TxExtraField.padding 2 ∷ []

short-parsed :
    parse_tx_extra short_extra ≡ record { fields = TxExtraField.nonce (5 ∷ []) ∷ []; parsed = true }
unfolding parse_tx_extra tx_extra_field others alternative no_alternative variant convert uint
    load_uint_loop tx_extra_nonce ensure string varint load_uvarint read_blob
short-parsed = refl

padded-parsed : parse_tx_extra padded_extra ≡ record { fields = padded_fields; parsed = true }
unfolding parse_tx_extra tx_extra_field others alternative no_alternative variant convert uint
    load_uint_loop tx_extra_nonce ensure string varint load_uvarint read_blob tx_extra_padding
padded-parsed = refl

-- Behind a field that is cut off, the fields in front of it are kept.
cut-parsed :
    parse_tx_extra (2 ∷ 1 ∷ 5 ∷ 2 ∷ 9 ∷ [])
    ≡ record { fields = TxExtraField.nonce (5 ∷ []) ∷ []; parsed = false }
unfolding parse_tx_extra tx_extra_field others alternative no_alternative variant convert uint
    load_uint_loop tx_extra_nonce ensure string varint load_uvarint read_blob
cut-parsed = refl

short_okay : (parse_tx_extra short_extra).parsed ≡ true
short_okay = rw short-parsed refl

padded_okay : (parse_tx_extra padded_extra).parsed ≡ true
padded_okay = rw padded-parsed refl

short_plain : Unpadded (parse_tx_extra short_extra).fields
short_plain = rw short-parsed (refl, tt)

parse_tx_extra-Written_example : Written (parse_tx_extra padded_extra).fields padded_extra
parse_tx_extra-Written_example = parse_tx_extra-Written padded_extra (omega arith) padded_okay

padded-Written : Written padded_fields padded_extra
padded-Written = rw padded-parsed at (parse_tx_extra-Written padded_extra (omega arith) padded_okay)

parse_tx_extra-fields_example :
    parse_tx_extra padded_extra ≡ record { fields = padded_fields; parsed = true }
parse_tx_extra-fields_example =
    parse_tx_extra-fields padded_fields padded_extra (refl, tt) padded-Written (omega arith)

get_tx_pub_key-add_example :
    (parse_tx_extra (add_tx_pub_key_to_extra short_extra (replicate 32 7)) ≡ record {
      fields = (parse_tx_extra short_extra).fields ++ (TxExtraField.pub_key (replicate 32 7) ∷ []);
      parsed = true;
    })
    × (get_tx_pub_key_from_extra (add_tx_pub_key_to_extra short_extra (replicate 32 7))
        ≡ get_or
            (find_tx_extra_field_by_type as_pub_key (parse_tx_extra short_extra).fields)
            (replicate 32 7))
get_tx_pub_key-add_example =
    get_tx_pub_key-add short_extra (replicate 32 7) (omega arith) short_okay short_plain refl
      (omega arith)

parse_tx_extra-add_extra_nonce_example :
    (extra' : Bytes) × (add_extra_nonce_to_tx_extra short_extra (8 ∷ []) ≡ some extra')
    × (parse_tx_extra extra' ≡ record {
      fields = (parse_tx_extra short_extra).fields ++ (TxExtraField.nonce (8 ∷ []) ∷ []);
      parsed = true;
    })
parse_tx_extra-add_extra_nonce_example =
    parse_tx_extra-add_extra_nonce short_extra (8 ∷ []) (omega arith) short_okay short_plain
      (omega arith) (omega arith)

abbrev long_nonce : Bytes
long_nonce = replicate 200 3

parse_tx_extra-long_nonce_example :
    (extra' : Bytes) × (add_extra_nonce_to_tx_extra short_extra long_nonce ≡ some extra')
    × (parse_tx_extra extra'
        ≡ record { fields = (parse_tx_extra short_extra).fields; parsed = false })
parse_tx_extra-long_nonce_example =
    parse_tx_extra-long_nonce short_extra long_nonce (omega arith) short_okay short_plain
      (omega arith) (omega arith) (omega arith)

get_payment_id-set_iff_example :
    (get_payment_id_from_tx_extra_nonce (0 ∷ replicate 32 4) ≡ some (replicate 32 4))
    ↔ (0 ∷ replicate 32 4 ≡ set_payment_id_to_tx_extra_nonce (replicate 32 4))
get_payment_id-set_iff_example = get_payment_id-set_iff (0 ∷ replicate 32 4) (replicate 32 4) refl

-- The portions are written as varints, and the integers beside them as eight bytes.
register_written :
    tx_extra_service_node_register.save (record {
      m_public_spend_keys = [];
      m_public_view_keys = [];
      m_portions_for_operator = 300;
      m_portions = 300 ∷ 5 ∷ [];
      m_expiration_timestamp = 1;
      m_service_node_signature = replicate 64 9;
    })
    ≡ some (
        0
        ∷ 0
        ∷ 44
        ∷ 1
        ∷ 0
        ∷ 0
        ∷ 0
        ∷ 0
        ∷ 0
        ∷ 0
        ∷ 2
        ∷ 172
        ∷ 2
        ∷ 5
        ∷ 1
        ∷ 0
        ∷ 0
        ∷ 0
        ∷ 0
        ∷ 0
        ∷ 0
        ∷ 0
        ∷ replicate 64 9)
unfolding tx_extra_service_node_register convert chain vector save_each uint put_uint varint blob
register_written = refl
