-- ===== src/Oracle.antt =====
-- The pricing records of src/zephyr_oracle and src/salvium_oracle.
pub mod Zephyr
pub mod Salvium
