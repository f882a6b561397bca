-- ===== src/Machine/State.antt =====
-- wire_format.h: the state of a parse (`wi_vars_t`) and the record lists (`wi_record_list_t`).
-- A byte or word is a number; an int64_t is its bit pattern, below 2 ^ 64. A C string is the list
-- of its bytes before the terminating 0. `record_scope` is NULL throughout: the named-record scope
-- of wire_record.h is set only by wire_info.c.
use wire_format.Base.{ℕ, Bool, true, ltb, if◌then◌else◌, List, Option, length}

-- `wi_slice_t`: a NULL pointer with a length, or the bytes that the pointer and length denote.
pub data Slice : Type 0 where
  null_data : ℕ → Slice
  octets : List ℕ → Slice

abbrev pub slice_length : Slice → ℕ
slice_length (null_data n) = n
slice_length (octets bs) = length bs

-- `wi_record_t`. A list pointer is NULL or the number of a list object of the caller.
pub record Row : Type 0 where
  pub values : List ℕ
  pub slices : List Slice
  pub lists : List (Option ℕ)

-- `struct wi_record_list`; `records` is `none` for a NULL pointer.
pub record RecordList : Type 0 where
  pub records : Option (List Row)
  pub count : ℕ
  pub capacity : ℕ
  pub field_count : ℕ

-- One entry of `rstack`, `rstart`, `rleft` and `rfmt`.
pub record Frame : Type 0 where
  pub resume : List ℕ
  pub start : List ℕ
  pub left : ℕ
  pub fmt : ℕ

-- `wi_vars_t`. `fstack` and `frames` hold the live entries, the top first, so `fsp` and `rsp` are
-- their lengths. `encoding` is `out != NULL` and `out` the `out_len` bytes written; `decoding` is
-- `in != NULL` and `input` the bytes from `in_pos` up to `in_size`. `memory` is what `%r` reads
-- through a pointer parameter, `store` the caller's record lists, which the slots point to. `stray`
-- is no field of the code: it marks that an array was indexed beyond its size, or the value stack or
-- the input below or behind its end, which the code leaves undefined.
pub record Vars : Type 0 where
  pub f_str : List ℕ
  pub fstack : List ℕ
  pub params : List ℕ
  pub vars : List ℕ
  pub slices : List Slice
  pub record_lists : List (Option ℕ)
  pub sequence_depth : ℕ
  pub encoding : Bool
  pub out : List ℕ
  pub out_size : ℕ
  pub decoding : Bool
  pub input : List ℕ
  pub in_pos : ℕ
  pub bit_acc : ℕ
  pub in_acc : ℕ
  pub in_loaded : Bool
  pub faults : ℕ
  pub abort_mask : ℕ
  pub fmts : Option (List (Option (List ℕ)))
  pub nfmts : ℕ
  pub cur_fmt : ℕ
  pub pending : ℕ
  pub frames : List Frame
  pub overrun : Bool
  pub stray : Bool
  pub write_bits : ℕ
  pub read_bits : ℕ
  pub memory : ℕ → ℕ
  pub store : List RecordList

-- WI_STACK_DEPTH, WI_MAX_PARAMS, WI_MAX_VARS, WI_CALL_DEPTH, WI_MAX_FORMATS
abbrev pub stack_depth : ℕ
stack_depth = 64

abbrev pub max_params : ℕ
max_params = 16

abbrev pub max_vars : ℕ
max_vars = 26

abbrev pub call_depth : ℕ
call_depth = 8

abbrev pub max_formats : ℕ
max_formats = 64

-- `overrun = 1`
abbrev pub fail : Vars → Vars
fail v = record v { overrun = true }

-- An access at `index` in an array of `size`.
unfoldable pub touch : ℕ → ℕ → Vars → Vars
touch size index v = if ltb index size then v else record v { stray = true }
