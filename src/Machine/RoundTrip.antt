-- ===== src/Machine/RoundTrip.antt =====
-- wire_format.c: what the emitting specifiers write, the reading ones read back.
pub mod Ends
pub mod Integers
pub mod Sdnv
pub mod Words
