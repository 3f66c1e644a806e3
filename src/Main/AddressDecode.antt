-- ===== src/Main/AddressDecode.antt =====
-- `address_decode` and `address_decode_integrated` of src/main.cc. `crypto::check_key` and the hash
-- are parameters.
use node_blocktemplate.Prelude.{
  ℕ, ◌-◌, ◌^◌, Bool, true, false, ◌&&◌, Option, none, some, List, ◌∷◌, ◌++◌, Bytes, ltb, leb, ◌==◌,
  if◌then◌else◌, length, get_elem?,
}
use node_blocktemplate.Format.{parse_binary}
use node_blocktemplate.Basic.Address.{
  AccountPublicAddress, account_public_address, IntegratedAddress, integrated_address,
}
use node_blocktemplate.Base58.Address.{decode_addr}
use node_blocktemplate.Main.{Argument, get_buffer_argument, uint64be_to_blob}
use node_blocktemplate.Main.Outcome.{Error, Result, ok, ◌>>=◌, unless}
pub mod Laws
pub mod Sound
pub mod Prefix

-- `info.GetReturnValue().Set(...)`: undefined, a buffer, or an unsigned integer of 32 bits.
pub data Reply : Type 0 where
  undefined : Reply
  buffer : Bytes → Reply
  unsigned : ℕ → Reply

-- The end of both handlers, where `known` says whether the bytes are an address of the handler's
-- kind.
unfoldable pub reply : Bool → ℕ → Bytes → Reply
unfolding uint64be_to_blob
reply false prefix bytes =
    if length bytes == 0 then Reply.undefined else Reply.buffer (uint64be_to_blob prefix ++ bytes)
reply true prefix bytes = if ltb (2 ^ 32 - 1) prefix then Reply.undefined else Reply.unsigned prefix

-- `parse_binary(data, adr) && test(adr)`
unfoldable pub if_parsed : {A : Type 0} → (A → Bool) → Option A → Bool
if_parsed test none = false
if_parsed test (some a) = test a

module _ (check_key : Bytes → Bool) where
  unfoldable pub keys_checked : AccountPublicAddress → Bool
  keys_checked adr = check_key adr.m_spend_public_key && check_key adr.m_view_public_key

  unfoldable pub is_standard : Bytes → Bool
  unfolding keys_checked if_parsed
  is_standard bytes = if_parsed keys_checked (parse_binary account_public_address bytes)

  unfoldable pub is_integrated : Bytes → Bool
  unfolding keys_checked if_parsed
  is_integrated bytes =
      if_parsed (λ iadr. keys_checked iadr.adr) (parse_binary integrated_address bytes)

unfoldable pub reply_to : (Bytes → Bool) → Option (ℕ × Bytes) → Reply
unfolding reply
reply_to known none = Reply.undefined
reply_to known (some (prefix, bytes)) = reply (known bytes) prefix bytes

module _ (cn_fast_hash : Bytes → Bytes) (check_key : Bytes → Bool) where
  unfoldable pub address_decode : List Argument → Result Reply
  unfolding get_buffer_argument is_standard reply_to
  address_decode info = do
    _ ← unless (ltb (length info) 1) Error.one_argument_expected
    input ← get_buffer_argument Error.argument_not_a_buffer (get_elem? info 0)
    ok (reply_to (is_standard check_key) (decode_addr cn_fast_hash input))

  unfoldable pub address_decode_integrated : List Argument → Result Reply
  unfolding get_buffer_argument is_integrated reply_to
  address_decode_integrated info = do
    _ ← unless (ltb (length info) 1) Error.one_argument_expected
    input ← get_buffer_argument Error.argument_not_a_buffer (get_elem? info 0)
    ok (reply_to (is_integrated check_key) (decode_addr cn_fast_hash input))
