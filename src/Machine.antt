-- ===== src/Machine.antt =====
-- The format-string interpreter of wire_format.c, in parts: its state, the handlers of the
-- specifiers, the dispatch and the parse loop, the format table, and what is proved of them.
pub mod State
pub mod Buffer
pub mod Arith
pub mod Text
pub mod Emit
pub mod Read
pub mod BitField
pub mod Slices
pub mod Lists
pub mod Extension
pub mod Rows
pub mod Call
pub mod Loop
pub mod Table
mod Runs
pub mod Keeps
pub mod Halts
pub mod Safe
pub mod RoundTrip
pub mod Record
