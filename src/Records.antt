-- ===== src/Records.antt =====
-- compiler/records.c: the compiler of version 4 protocols, in parts. Once `failed` is set, the code
-- runs on without an effect that is kept, so that here a failure ends the computation. Memory is
-- always given.
pub mod Json
pub mod Scopes
pub mod Masks
pub mod Search
pub mod Emit
pub mod Expression
pub mod Fields
pub mod Validate
pub mod Steps
pub mod Numbers
pub mod Builds
pub mod Operands
pub mod Expressions
pub mod Programs
pub mod Accepted
pub mod Loaded
pub mod Image
pub mod Sizes
pub mod Generate
pub mod Reads
pub mod Opened
mod Tests
