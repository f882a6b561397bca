-- ===== src/WireInfo.antt =====
-- wire_info.c: the loader of compiled protocols, in parts.
pub mod Program
pub mod Skips
pub mod Passes
pub mod Turns
pub mod Branches
pub mod Ends
pub mod Image
mod Tests
