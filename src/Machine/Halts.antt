-- ===== src/Machine/Halts.antt =====
-- wire_format.c: the parse loop always ends: more fuel changes nothing, the rows of a list end where
-- their formats do, and a format ends because a call only reaches formats of lower index.
pub mod Mono
pub mod Rows
pub mod Total
