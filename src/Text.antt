-- ===== src/Text.antt =====
-- source/string.c: C strings, their comparison, matching and conversion.
pub mod Address
pub mod Case
pub mod Compare
pub mod Copy
pub mod Split
pub mod Encode
pub mod Match
pub mod Time
pub mod Truth
