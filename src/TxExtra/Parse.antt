-- ===== src/TxExtra/Parse.antt =====
-- The functions of src/cryptonote_basic/cryptonote_format_utils.cpp on the extra part of a
-- transaction: its fields, the key and the payment id in it.
use mathlib.Core.Option.{get_or}
use node_blocktemplate.Prelude.{
  ℕ, zero, suc, ◌-◌, ◌%◌, Bool, true, false, not, Option, none, some, List, [], ◌∷◌, ◌++◌, ltb,
  ◌==◌, if◌then◌else◌, Bytes, length, replicate,
}
use node_blocktemplate.TxExtra.{nonce_max_count}
use node_blocktemplate.TxExtra.Field.{TxExtraField, tx_extra_field}
pub mod Laws
pub mod Edits
pub mod Nonce

-- What a call of `parse_tx_extra` leaves in `tx_extra_fields`, and what it returns.
pub record Parsed : Type 0 where
  pub fields : List TxExtraField
  pub parsed : Bool

-- The rest of a round, after the call that reads a field.
unfoldable pub parse_rest : (Bytes → Parsed) → Option (TxExtraField × Bytes) → Parsed
parse_rest more none = record { fields = []; parsed = false }
parse_rest more (some (field, [])) = record { fields = field ∷ []; parsed = true }
parse_rest more (some (field, b ∷ rest)) =
    let after = more (b ∷ rest) in record { fields = field ∷ after.fields; parsed = after.parsed }

-- `while (!eof)`, on fuel: a round takes a byte or more.
unfoldable pub parse_loop : ℕ → Bytes → Parsed
unfolding parse_rest
parse_loop zero bs = record { fields = []; parsed = false }
parse_loop (suc fuel) bs = parse_rest (parse_loop fuel) (tx_extra_field.load bs)

unfoldable pub parse_tx_extra : Bytes → Parsed
unfolding parse_loop
parse_tx_extra [] = record { fields = []; parsed = true }
parse_tx_extra (b ∷ tx_extra) = parse_loop (length (b ∷ tx_extra)) (b ∷ tx_extra)

-- The first field that `as` takes.
unfoldable pub find_tx_extra_field_by_type :
    (TxExtraField → Option Bytes) → List TxExtraField → Option Bytes
find_tx_extra_field_by_type as_type [] = none
find_tx_extra_field_by_type as_type (f ∷ fs) = elim (as_type f) [
  | none ↦ find_tx_extra_field_by_type as_type fs
  | some x ↦ some x
]

abbrev pub as_pub_key : TxExtraField → Option Bytes
as_pub_key (TxExtraField.pub_key key) = some key
as_pub_key f = none

abbrev pub as_nonce : TxExtraField → Option Bytes
as_nonce (TxExtraField.nonce nonce) = some nonce
as_nonce f = none

abbrev pub null_pkey : Bytes
null_pkey = replicate 32 0

-- What `parse_tx_extra` returns is not looked at.
unfoldable pub get_tx_pub_key_from_extra : Bytes → Bytes
unfolding parse_tx_extra find_tx_extra_field_by_type
get_tx_pub_key_from_extra tx_extra =
    get_or (find_tx_extra_field_by_type as_pub_key (parse_tx_extra tx_extra).fields) null_pkey

unfoldable pub add_tx_pub_key_to_extra : Bytes → Bytes → Bytes
add_tx_pub_key_to_extra extra tx_pub_key = extra ++ (0x01 ∷ tx_pub_key)

-- One byte for the length.
unfoldable pub add_extra_nonce_to_tx_extra : Bytes → Bytes → Option Bytes
add_extra_nonce_to_tx_extra tx_extra extra_nonce =
    if ltb nonce_max_count (length extra_nonce)
    then none
    else some (tx_extra ++ (0x02 ∷ (length extra_nonce % 256) ∷ extra_nonce))

unfoldable pub set_payment_id_to_tx_extra_nonce : Bytes → Bytes
set_payment_id_to_tx_extra_nonce payment_id = 0x00 ∷ payment_id

unfoldable pub get_payment_id_from_tx_extra_nonce : Bytes → Option Bytes
get_payment_id_from_tx_extra_nonce [] = none
get_payment_id_from_tx_extra_nonce (kind ∷ payment_id) =
    if not (length (kind ∷ payment_id) == 33)
    then none
    else if not (kind == 0x00)
    then none
    else some payment_id
