-- ===== src/Json5.antt =====
-- compiler/json5.c: the parser of the source text, in parts. Memory is always given: the paths on
-- which `malloc` answers NULL are left out.
pub mod Utf8
pub mod Scan
pub mod Strings
pub mod Value
pub mod Forward
pub mod Spaces
pub mod Literals
pub mod Total
pub mod Parse
pub mod CodePoints
pub mod TextBounds
mod Tests
