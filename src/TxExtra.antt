-- ===== src/TxExtra.antt =====
-- src/cryptonote_basic/tx_extra.h: the fields of the extra part of a transaction. Structs of one
-- member are the codec of the member.
use mathlib.Core.Bool.{Bool, true, false}
use node_blocktemplate.Prelude.{
  ℕ, zero, suc, ◌-◌, ◌≤◌, ◌<◌, ◌≡◌, Option, none, some, List, [], ◌∷◌, ◌>>=◌, ltb, leb, ◌==◌,
  if◌then◌else◌, Bytes, length, replicate,
}
use node_blocktemplate.Archive.Codec.{Codec}
use node_blocktemplate.Archive.Varint.{varint}
use node_blocktemplate.Archive.Fixed.{uint, blob}
use node_blocktemplate.Archive.Combine.{chain, convert, ◌▹◌, ensure}
use node_blocktemplate.Archive.Many.{vector, string}
use node_blocktemplate.Format.{parse_binary}
pub mod Laws
pub mod Field
pub mod Parse

abbrev pub padding_max_count : ℕ
padding_max_count = 255

abbrev pub nonce_max_count : ℕ
nonce_max_count = 255

-- The loop of `tx_extra_padding` on loading: zeros up to the end of the input.
unfoldable pub load_padding_loop : ℕ → Bytes → Option (ℕ × Bytes)
load_padding_loop size [] = if leb size padding_max_count then some (size, []) else none
load_padding_loop size (byte ∷ rest) =
    let more = load_padding_loop (suc size) rest in
    if leb size padding_max_count then (if byte == 0 then more else none) else none

-- The size counts the tag.
unfoldable pub tx_extra_padding : Codec ℕ
unfolding load_padding_loop
tx_extra_padding = record {
  Fits = λ size. (1 ≤ size) × (size < 256);
  save = λ size. if ltb padding_max_count size then none else some (replicate (size - 1) 0);
  load = load_padding_loop 1;
}

unfoldable pub tx_extra_pub_key : Codec Bytes
tx_extra_pub_key = blob 32

unfoldable pub tx_extra_nonce : Codec Bytes
tx_extra_nonce = ensure (λ nonce. leb (length nonce) nonce_max_count) string

-- A string that holds what another archive writes, and that it must take as a whole.
unfoldable pub nested : {A : Type 0} → Codec A → Codec A
nested c = record {
  Fits = λ a. c.Fits a × ((field : Bytes) → c.save a ≡ some field → string.Fits field);
  save = λ a. c.save a >>= string.save;
  load = λ bs. do
    (field, rest) ← string.load bs
    a ← parse_binary c field
    some (a, rest);
}

pub record MergeMiningTag : Type 0 where
  pub depth : ℕ
  pub merkle_root : Bytes

unfoldable pub tx_extra_merge_mining_tag : Codec MergeMiningTag
unfolding nested
tx_extra_merge_mining_tag = nested (
    convert (λ p. record { depth = p.0; merkle_root = p.1 }) (λ t. (t.depth, t.merkle_root))
      (varint 64 ▹ blob 32))

unfoldable pub tx_extra_additional_pub_keys : Codec (List Bytes)
tx_extra_additional_pub_keys = vector (blob 32)

-- `tx_extra_mysterious_minergate` and `tx_extra_memo`.
unfoldable pub tx_extra_string : Codec Bytes
tx_extra_string = string

-- `tx_extra_service_node_winner`, `tx_extra_service_node_pubkey` and `tx_extra_tx_secret_key`.
unfoldable pub tx_extra_key : Codec Bytes
tx_extra_key = blob 32

pub record ServiceNodeRegister : Type 0 where
  pub m_public_spend_keys : List Bytes
  pub m_public_view_keys : List Bytes
  pub m_portions_for_operator : ℕ
  pub m_portions : List ℕ
  pub m_expiration_timestamp : ℕ
  pub m_service_node_signature : Bytes

unfoldable pub tx_extra_service_node_register : Codec ServiceNodeRegister
tx_extra_service_node_register =
    convert
      (λ p. record {
        m_public_spend_keys = p.0;
        m_public_view_keys = p.1.0;
        m_portions_for_operator = p.1.1.0;
        m_portions = p.1.1.1.0;
        m_expiration_timestamp = p.1.1.1.1.0;
        m_service_node_signature = p.1.1.1.1.1;
      })
      (λ r. (
        r.m_public_spend_keys,
        (
          r.m_public_view_keys,
          (
            r.m_portions_for_operator,
            (r.m_portions, (r.m_expiration_timestamp, r.m_service_node_signature)),
          ),
        ),
      ))
      (vector (blob 32) ▹ vector (blob 32) ▹ uint 8 ▹ vector (varint 64) ▹ uint 8 ▹ blob 64)

pub record ServiceNodeContributor : Type 0 where
  pub m_spend_public_key : Bytes
  pub m_view_public_key : Bytes

unfoldable pub tx_extra_service_node_contributor : Codec ServiceNodeContributor
tx_extra_service_node_contributor =
    convert (λ p. record { m_spend_public_key = p.0; m_view_public_key = p.1 })
      (λ c. (c.m_spend_public_key, c.m_view_public_key)) (blob 32 ▹ blob 32)

-- A vote is a blob of a signature of 64 bytes and an index of 4.
pub record ServiceNodeDeregister : Type 0 where
  pub block_height : ℕ
  pub service_node_index : ℕ
  pub votes : List Bytes

unfoldable pub tx_extra_service_node_deregister : Codec ServiceNodeDeregister
tx_extra_service_node_deregister =
    convert (λ p. record { block_height = p.0; service_node_index = p.1.0; votes = p.1.1 })
      (λ r. (r.block_height, (r.service_node_index, r.votes))) (uint 8 ▹ uint 4 ▹ vector (blob 68))

-- ENUM_FIELD: the test is made on loading alone.
unfoldable pub enum_field : (ℕ → Bool) → Codec ℕ → Codec ℕ
enum_field test c = record {
  Fits = λ a. c.Fits a × (test a ≡ true);
  save = c.save;
  load = λ bs. do
    (a, rest) ← c.load bs
    if test a then some (a, rest) else none;
}

-- `service_nodes::new_state::_count`
abbrev pub new_state_count : ℕ
new_state_count = 4

pub record Vote : Type 0 where
  pub validator_index : ℕ
  pub signature : Bytes

unfoldable pub vote : Codec Vote
vote =
    convert (λ p. record { validator_index = p.0; signature = p.1 })
      (λ v. (v.validator_index, v.signature)) (varint 32 ▹ blob 64)

pub record ServiceNodeStateChange : Type 0 where
  pub state : ℕ
  pub block_height : ℕ
  pub service_node_index : ℕ
  pub votes : List Vote

unfoldable pub tx_extra_service_node_state_change : Codec ServiceNodeStateChange
unfolding enum_field vote
tx_extra_service_node_state_change =
    convert
      (λ p. record {
        state = p.0;
        block_height = p.1.0;
        service_node_index = p.1.1.0;
        votes = p.1.1.1;
      })
      (λ r. (r.state, (r.block_height, (r.service_node_index, r.votes))))
      (enum_field (λ state. ltb state new_state_count) (varint 16) ▹ uint 8 ▹ uint 4 ▹ vector vote)

-- A proof is a blob of a key image of 32 bytes and a signature of 64.
unfoldable pub tx_extra_tx_key_image_proofs : Codec (List Bytes)
tx_extra_tx_key_image_proofs = vector (blob 96)

pub record TxKeyImageUnlock : Type 0 where
  pub key_image : Bytes
  pub signature : Bytes
  pub nonce : ℕ

unfoldable pub tx_extra_tx_key_image_unlock : Codec TxKeyImageUnlock
tx_extra_tx_key_image_unlock =
    convert (λ p. record { key_image = p.0; signature = p.1.0; nonce = p.1.1 })
      (λ u. (u.key_image, (u.signature, u.nonce))) (blob 32 ▹ blob 64 ▹ uint 4)
