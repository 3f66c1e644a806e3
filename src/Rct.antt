-- ===== src/Rct.antt =====
-- src/ringct/rctTypes.h: RingCT signatures as a transaction holds them.
pub mod Proofs
pub mod SalviumData
pub mod Base
pub mod Prunable
