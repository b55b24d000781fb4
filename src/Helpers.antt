-- ===== src/Helpers.antt =====
-- Helpers/mdz_hlp_functions: the encoders.
pub mod Base64
pub mod Hex
pub mod Numbers
pub mod Obfuscated
pub mod Url
pub mod Mem
