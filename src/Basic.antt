-- ===== src/Basic.antt =====
-- src/cryptonote_basic/cryptonote_basic.h: transactions and blocks.
pub mod Address
pub mod TxOut
pub mod TxIn
pub mod Salvium
pub mod PrefixType
pub mod Prefix
pub mod Transaction
pub mod Header
pub mod Block
