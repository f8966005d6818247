-- ===== src/Text.antt =====
-- Bytes, C strings, and the `printf` and `scanf` conversions that the sources use.
pub mod Bytes
pub mod Print
pub mod Scan
pub mod Numbers
pub mod Clean
