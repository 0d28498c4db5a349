-- ===== src/Decode.antt =====
-- api/decoders: the answers of PI30 inverters as sections of named values.
pub mod Enums
pub mod Fields
pub mod Bits
pub mod Voltronic
pub mod Tokens
pub mod Answers
mod Tests
