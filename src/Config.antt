-- ===== src/Config.antt =====
-- src/cryptonote_config.h: the kinds of blobs and the transaction versions that are supported.
-- A `BLOB_TYPE` is the number that the caller passed, read as unsigned.
use node_blocktemplate.Prelude.{ℕ, Bool, false, ◌||◌, leb, ◌==◌, if◌then◌else◌}

abbrev pub blob_type_cryptonote : ℕ
blob_type_cryptonote = 0

abbrev pub blob_type_forknote1 : ℕ
blob_type_forknote1 = 1

abbrev pub blob_type_ryo : ℕ
blob_type_ryo = 4

abbrev pub blob_type_cryptonote3 : ℕ
blob_type_cryptonote3 = 6

abbrev pub blob_type_cuckoo : ℕ
blob_type_cuckoo = 8

abbrev pub blob_type_zephyr : ℕ
blob_type_zephyr = 13

abbrev pub blob_type_xla : ℕ
blob_type_xla = 14

abbrev pub blob_type_salvium : ℕ
blob_type_salvium = 15

abbrev pub blob_type_arqma : ℕ
blob_type_arqma = 16

unfoldable pub is_supported_blob_type : ℕ → Bool
is_supported_blob_type bt =
    bt == blob_type_cryptonote
    || bt == blob_type_forknote1
    || bt == blob_type_ryo
    || bt == blob_type_cryptonote3
    || bt == blob_type_cuckoo
    || bt == blob_type_zephyr
    || bt == blob_type_xla
    || bt == blob_type_salvium
    || bt == blob_type_arqma

unfoldable pub is_supported_transaction_version : ℕ → ℕ → Bool
is_supported_transaction_version bt version =
    if version == 0
    then false
    else if bt == blob_type_ryo || bt == blob_type_zephyr || bt == blob_type_arqma
    then leb version 3
    else if bt == blob_type_salvium
    then leb version 5
    else leb version 2
