-- ===== src/Main/Outcome.antt =====
-- What a handler of src/main.cc does: it returns a buffer, or throws.
use node_blocktemplate.Prelude.{◌≡◌, refl, Bool, true, false, Option, none, some}

-- The messages of `ThrowError`, in the order of the file. `pending_exception` is one that V8 has
-- thrown already.
pub data Error : Type 0 where
  cycle_not_an_array : Error
  cycle_invalid_length : Error
  cycle_missing_entries : Error
  cycle_entries_range : Error
  unsupported_blob_type : Error
  one_argument_expected : Error
  argument_not_a_buffer : Error
  argument_2_not_a_number : Error
  failed_to_parse_block_2 : Error
  failed_to_create_mining_block : Error
  failed_to_parse_block : Error
  too_many_tx_hashes : Error
  failed_to_calculate_hash : Error
  two_arguments_expected : Error
  arguments_not_buffers : Error
  argument_3_not_a_number : Error
  nonce_invalid_size : Error
  four_arguments_expected : Error
  failed_to_convert_block : Error
  merged_mining_unsupported : Error
  pending_exception : Error

pub data Result (A : Type 0) : Type 0 where
  ok : A → Result A
  threw : Error → Result A

infixl 5 ◌>>=◌
abbrev pub ◌>>=◌ : {A B : Type 0} → Result A → (A → Result B) → Result B
threw message >>= next = threw message
ok x >>= next = next x

-- `if (!call) return ThrowError(message);`
abbrev pub or_throw : {A : Type 0} → Option A → Error → Result A
or_throw (some a) message = ok a
or_throw none message = threw message

-- `if (test) return ThrowError(message);`
abbrev pub unless : Bool → Error → Result (Unit {0})
unless true message = threw message
unless false message = ok tt

-- A handler that returns got through its first step.
pub >>=-eq-ok :
    {A B : Type 0} (first : Result A) (next : A → Result B) {out : B}
    → (first >>= next) ≡ ok out
    → (x : A) × (first ≡ ok x) × (next x ≡ ok out)
>>=-eq-ok (threw message) next h = cc
>>=-eq-ok (ok x) next h = (x, refl, h)

pub or_throw-eq-ok :
    {A : Type 0} (o : Option A) (e : Error) {a : A} → or_throw o e ≡ ok a → o ≡ some a
or_throw-eq-ok (some a) e h = cc
or_throw-eq-ok none e h = cc
