-- ===== src/Lib.antt =====
-- wire_format, in C: an interpreter, in which a format string drives a stack machine that writes
-- binary output from parameters, or reads binary input into variables, slices and record lists;
-- and the compiler wfc of compiler/, which reads a protocol's description from a JSON5 text and
-- checks its messages against their test vectors before it writes formats for the interpreter.
--
-- What is modelled, with paths from the repository's root:
--   * Machine/State: `wi_vars_t` of wire_format.h with its record lists. The value stack and the
--     call stack are lists with the top first, the output is the bytes written and the input the
--     bytes left; `in_pos` is kept beside it. An int64_t is its 64-bit pattern, a C string its
--     bytes before the terminating 0. `stray` has no counterpart in the code: an index into the
--     parameters, variables, slices or record lists goes through `touch`, which sets it where the
--     index is not below the array's size. `take_top` of an empty value stack, `take_input` behind
--     the input, and `child_of` for more fields than the arrays have set it too. The rows of a
--     caller's record list and the caller's table of formats have no such mark.
--   * Machine/Buffer: `b_emit`, `b_read`, `fs_push`, `fs_pop` and `get_var_addr` of wire_format.c.
--   * Machine/Arith, Text, Emit, Read, BitField, Slices, Lists: one function for each specifier's
--     handler in wire_format.c, and `wi_init`, `wi_decode_init`, `wi_set_slice` and
--     `wi_set_record_list`.
--   * Machine/Record and Extension: wire_format_record.inc, %i, %j and %u, for a parse whose
--     `record_scope` is NULL, as `wi_init` and `wi_decode_init` leave it.
--   * Machine/Rows and Call: %J, which runs a child parse for each record of a list, and %[n]
--     with %:, which enters a format of the table.
--   * Machine/Loop: the dispatch table, `wi_switch`, `wi_parse_rank` and `wi_parse`.
--   * Machine/Table: `next_call`, `table_depth` and `wi_set_formats`.
--   * Crc: `wi_file_crc32c` and `wi_file_crc32c_valid` of wire_format.c with `wfc_wi_crc32c` and
--     `wfc_wi_set_crc32c` of compiler/util.c.
--   * Json5/Utf8, Scan, Strings, Value: compiler/json5.c, from the bytes of a text to
--     `json5_parse`. The text behind `offset` is kept as a list, and `failed` with the error as one
--     field. The children of a value are data types of their own.
--   * Compiler/Types and Util: the structures of compiler/wfc.h, and the helpers of compiler/util.c.
--     The error of a check is a value of `Problem`, one constructor for each message.
--   * Compiler/Text, Layout, Bits, Sdnv, Vector, VectorV3, Check: compiler/check.c, from
--     `text_present` and `message_layout` to `check_vector` in both forms and `wfc_check`. `calloc`
--     is the parameter `allocates`, which says of a count and a size whether memory is given. A
--     version 4 protocol goes to `records_check` of Records/Generate.
--   * Source/Values, Field, Vector, Message, Protocol: compiler/source.c, which fills the structures
--     of wfc.h from the parsed value. `object_shape` to `name_value` are in Values, `parse_field`
--     and its parts in Field, and `parse_protocol` with `wfc_source_parse` in Protocol. `both`
--     stands for two members that are required before either is tested; the later error stays.
--   * Records/Json, Scopes, Emit, Expression, Fields, Validate, Image, Generate: compiler/records.c,
--     the compiler of version 4 protocols, from the values of the text to the image and the C header.
--     A failure ends the computation, since `failed` keeps only the first error and no output is
--     given after one. A mask of messages is the list of its bits. `decimal` is what `printf` writes
--     for an unsigned number, and `strtoull` reads digits behind a sign, as the C library does.
--   * WireInfo/Program and Image: `program_valid` of wire_info.c, the scan of each program of a
--     compiled image before the interpreter may run it, and the tests of `wire_info_open` on the
--     header.
-- The handlers change the state and the loop picks the next one. Machine/Keeps is about what the
-- handlers leave alone, Machine/Safe about bounds, Machine/Halts about the end of the loop,
-- Machine/RoundTrip about a writer and its reader, and Crc/Stamp about a stamped image. The compiler
-- and the interpreter meet in Compiler/SdnvCoding, and the text parser and the checks in
-- Json5/CodePoints and Json5/TextBounds. Json5/Forward, Spaces, Literals, Total and Parse are about
-- the end of the text parser, Compiler/Offsets about the layout of a message, and Compiler/Accepted
-- and Encoded about a protocol and a vector that pass the checks. The loader and the interpreter
-- meet in WireInfo/Skips, Passes, Turns and Branches, on the branches that are skipped in a scanned
-- program. Source/Fields, Sound, Relations, Accepted
-- and Whole are about a field, a message and a protocol that the source parser lets through. The
-- compiler of records.c and the loader meet in Records/Builds, Steps, Numbers, Operands, Expressions, Programs,
-- Accepted and Loaded, on the programs of a protocol that `validate` lets through, and in
-- Records/Sizes, Reads and Opened, on the header of an image. Records/Masks and Search are about the
-- end of the scope search.
--
-- The parse loop runs on fuel, and `none` says that it ran out; no bound is chosen, and
-- Machine/Halts is about how much is enough. A row's parse runs on the fuel that its parent has
-- left. The fuel of `format_depth` in the table is the text's length and one, since each call takes
-- a character, and that of `program_valid` likewise, with WireInfo/Ends about it.
--
-- The text parser runs on fuel, of which each byte takes three units at most, since a value, a list
-- of items and an opening bracket each take one; the loops over a text run on its length. `none`
-- says that the fuel of the parser, of `valid_utf8` or of the loop of `skip_space` ran out; the
-- last is the problem `endless_space` of the parser's state, for which the code has no message.
--
-- The scope search of `reference` runs on one round more than there are messages, and the removal of
-- `parent.` on one more than the name has characters; out of fuel either gives `ok none`, which
-- `reference` refuses as `endless_search`, again without a message in the code. Records/Search is
-- about both. The expressions of records.c
-- are read by recursion on their value.
--
-- The host is taken to be little-endian, with 64-bit `size_t` and a signed `char`. What the C code
-- leaves undefined, a quotient of INT64_MIN by -1 or a signed overflow, wraps in the model. Memory
-- behind a pointer parameter of %r is a function from addresses to bytes. Buffers that the caller
-- makes to overlap are not modelled.
--
-- Not modelled: the named-record scope of wire_record.h with its lookups, sequences and checksums,
-- and what wire_info.c does above it, `execute`, the accessors, and the tests of `wire_info_open`
-- behind the header; in the compiler an allocation
-- that fails, other than in check.c, and the functions that copy and free, `json5_free`,
-- `wfc_protocol_free` and `wfc_generated_free`; compiler/wi.c, the generator for versions 1 to 3, and
-- main.c, the command line; the port in rust/; the examples and tests.
pub mod Base
pub mod Compiler
pub mod Crc
pub mod Json5
pub mod Machine
pub mod Records
pub mod Source
pub mod WireInfo
