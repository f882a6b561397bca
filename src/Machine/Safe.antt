-- ===== src/Machine/Safe.antt =====
-- wire_format.c: the bounds of a parse, that is, the indices into the arrays of `wi_vars_t`, the ends
-- of the value stack and of the input, and the sizes of the stacks and of the output.
pub mod Rows
pub mod Parse
pub mod Init
