-- ===== src/Unicode.antt =====
-- ase/unicode.cc. Char: utf8character. Codec: the conversions between code points and UTF-8. Fs: file
-- system paths. Tables: the bit operations on bytes. EncodeDecode, FsRoundTrip: the laws.
pub mod Char
pub mod Codec
pub mod Fs
pub mod Tables
pub mod CharLaws
pub mod EncodeDecode
pub mod Shape
pub mod FsRoundTrip
pub mod WellFormed
pub mod Tests
