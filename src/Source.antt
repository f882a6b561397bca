-- ===== src/Source.antt =====
-- compiler/source.c: the structures of wfc.h from the text of a protocol, in parts. Memory is always
-- given. `wfc_set_error` overwrites, so that of two refusals in a row the later one stays.
pub mod Values
pub mod Field
pub mod Vector
pub mod Message
pub mod Protocol
pub mod Fields
pub mod Sound
pub mod Accepted
pub mod Whole
pub mod Relations
mod Tests
