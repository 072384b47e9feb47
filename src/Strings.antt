-- ===== src/Strings.antt =====
-- ase/strings.cc: functions on strings of bytes. Chars: tests on bytes. Multiply, Canonify, Split, Url, Quote,
-- Strip, Match: the functions by what they do, each with its theorems.
pub mod Chars
pub mod Multiply
pub mod Canonify
pub mod Split
pub mod Join
pub mod Url
pub mod Quote
pub mod QuoteRoundTrip
pub mod Strip
pub mod Match
pub mod KvPairs
pub mod KvPairLaws
pub mod Options
pub mod Tests
