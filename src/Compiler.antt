-- ===== src/Compiler.antt =====
-- The format compiler of compiler/, in parts: its data (wfc.h), the helpers of util.c, and the
-- checks of check.c on a protocol and its test vectors.
pub mod Types
pub mod Util
pub mod Text
pub mod Layout
pub mod Bits
pub mod Sdnv
pub mod Vector
pub mod VectorV3
pub mod Check
pub mod Offsets
pub mod Accepted
pub mod Encoded
pub mod SdnvCoding
mod Tests
