-- ===== src/Archive.antt =====
-- src/serialization and src/common/varint.h: the binary archive.
pub mod Codec
pub mod Varint
pub mod Fixed
pub mod Combine
pub mod Many
pub mod Variant
