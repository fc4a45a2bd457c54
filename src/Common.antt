-- ===== src/Common.antt =====
-- src/common: arithmetic shared by the program's parts.
pub mod Uint512
pub mod Montgomery
mod Examples
