-- ===== src/Util.antt =====
-- The helper functions of kernel/util.
pub mod Math
pub mod ErrorTable
pub mod Timestamp
pub mod Bits
pub mod Words
pub mod Strings
