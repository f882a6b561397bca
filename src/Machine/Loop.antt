-- ===== src/Machine/Loop.antt =====
-- wire_format.c: the dispatch table, `wi_switch` and the parse loop. The loop runs on fuel, and
-- `none` says that it ran out; Machine/Halts is about enough fuel.
use wire_format.Base.{
  ℕ, zero, suc, ◌-◌, Bool, true, false, ◌||◌, List, [], ◌∷◌, ltb, ◌==◌, if◌then◌else◌, Option, none,
  some,
}
use wire_format.Machine.State.{Vars, Frame, fail}
use wire_format.Machine.Buffer.{b_emit, peek}
use wire_format.Machine.Arith.{
  op_and, op_andl, op_or, op_orl, op_xor, op_not, op_notl, op_plus, op_minus, op_star, op_div,
  op_mod, op_equals, op_greater, op_less, op_fault,
}
use wire_format.Machine.Text.{op_tick, op_brace, op_param, store_var, load_var, op_then, op_else}
use wire_format.Machine.Emit.{
  op_percent, op_char, op_byte, op_word, op_long, op_quad, op_sdnv, op_raw,
}
use wire_format.Machine.Read.{read_byte, read_word, read_long, read_quad, read_sdnv}
use wire_format.Machine.BitField.{put_bits, get_bits, flush}
use wire_format.Machine.Slices.{op_rest, op_exact, op_length, op_slice, op_exact_slice}
use wire_format.Machine.Record.{record_operand, record_emit_bits, record_read_bits}
use wire_format.Machine.Extension.{record_extension, find_handler}
use wire_format.Machine.Lists.{op_count}
use wire_format.Machine.Rows.{op_rows, aborts}
use wire_format.Machine.Call.{op_colon, op_call}

-- The specifiers that take a field name in braces, or else a letter or a slot.
abbrev pub named : (Vars → Vars) → Vars → Vars
named plain v = if peek v.f_str == b'{' then record_operand v else plain v

-- %J runs other formats; all other handlers are functions of the state, and a NULL one does nothing.
pub data Handler : Type 0 where
  simple : (Vars → Vars) → Handler
  rows : Handler

unfoldable pub do_nothing : Vars → Vars
do_nothing v = v

unfoldable pub op_put : Vars → Vars
op_put = named store_var

unfoldable pub op_get : Vars → Vars
op_get = named load_var

-- `ops[]`
abbrev pub ops : List (ℕ × Handler)
ops =
    (b'%', simple op_percent)
    ∷ (b'p', simple op_param)
    ∷ (b'c', simple op_char)
    ∷ (b'b', simple op_byte)
    ∷ (b'w', simple op_word)
    ∷ (b'W', simple op_long)
    ∷ (b'r', simple op_raw)
    ∷ (b'R', simple (named op_rest))
    ∷ (b'N', simple (named op_exact))
    ∷ (b'z', simple (named op_length))
    ∷ (b'v', simple (named op_slice))
    ∷ (b'V', simple (named op_exact_slice))
    ∷ (b'k', simple (named op_count))
    ∷ (b'B', simple read_byte)
    ∷ (b'S', simple read_word)
    ∷ (b'L', simple read_long)
    ∷ (b'q', simple op_quad)
    ∷ (b'Q', simple read_quad)
    ∷ (b'd', simple op_sdnv)
    ∷ (b'D', simple read_sdnv)
    ∷ (b'x', simple put_bits)
    ∷ (b'X', simple get_bits)
    ∷ (b'f', simple flush)
    ∷ (b'&', simple op_and)
    ∷ (b'A', simple op_andl)
    ∷ (b'|', simple op_or)
    ∷ (b'O', simple op_orl)
    ∷ (b'^', simple op_xor)
    ∷ (b'~', simple op_not)
    ∷ (b'!', simple op_notl)
    ∷ (b'+', simple op_plus)
    ∷ (b'-', simple op_minus)
    ∷ (b'*', simple op_star)
    ∷ (b'/', simple op_div)
    ∷ (b'm', simple op_mod)
    ∷ (b'=', simple op_equals)
    ∷ (b'>', simple op_greater)
    ∷ (b'<', simple op_less)
    ∷ (0x27, simple op_tick)
    ∷ (b'{', simple op_brace)
    ∷ (b'P', simple op_put)
    ∷ (b'g', simple op_get)
    ∷ (b'E', simple op_fault)
    ∷ (b'?', simple do_nothing)
    ∷ (b't', simple op_then)
    ∷ (b'e', simple op_else)
    ∷ (b';', simple do_nothing)
    ∷ (b'[', simple op_call)
    ∷ (b':', simple op_colon)
    ∷ (b'J', rows)
    ∷ (b'i', simple record_emit_bits)
    ∷ (b'j', simple record_read_bits)
    ∷ (b'u', simple record_extension)
    ∷ []

-- The row that `wi_switch` found runs; with none the answer is -1, and the parse loop fails.
unfoldable pub run_handler : (Vars → List ℕ → ℕ → Option Vars) → Option Handler → Vars → Option Vars
run_handler parse none v = some (fail v)
run_handler parse (some (simple handler)) v = some (handler v)
run_handler parse (some rows) v = op_rows parse v

unfoldable pub switch : (Vars → List ℕ → ℕ → Option Vars) → ℕ → Vars → Option Vars
switch parse op v = run_handler parse (find_handler op ops) v

-- The end of a format: `none` where the parse ends, else the next round or the caller's text.
unfoldable pub at_end : List Frame → Vars → Option Vars
at_end [] v = none
at_end (f ∷ fs) v =
    if ltb 0 f.left
    then some (record v { frames = record f { left = f.left - 1 } ∷ fs; f_str = f.start })
    else some (record v { frames = fs; f_str = f.resume; cur_fmt = f.fmt })

-- One character of the format, with `s` behind it.
unfoldable pub exec_char : (Vars → List ℕ → ℕ → Option Vars) → ℕ → List ℕ → Vars → Option Vars
exec_char parse c [] v =
    let v₁ = record v { f_str = [] } in some (if c == b'%' then fail v₁ else b_emit v₁ c)
exec_char parse c (op ∷ s) v = elim (c == b'%') [
  | true ↦ switch parse op (record v { f_str = s })
  | false ↦ some (b_emit (record v { f_str = op ∷ s }) c)
]

-- The assignments of `wi_parse_rank` before its loop.
abbrev pub begin : Vars → List ℕ → ℕ → Vars
begin v fmt rank = record v {
  f_str = fmt;
  out = [];
  faults = 0;
  frames = [];
  pending = 1;
  overrun = false;
  cur_fmt = rank;
}

unfoldable pub stops : Vars → Bool
stops v = v.overrun || aborts v

-- What one round of the loop does with a state that does not stop: the end of the parse, the next
-- state, or fuel that ran out.
pub data Round : Type 0 where
  done : Round
  next : Vars → Round
  stuck : Round

unfoldable pub of_end : Option Vars → Round
of_end none = done
of_end (some v) = next v

unfoldable pub of_exec : Option Vars → Round
of_exec none = stuck
of_exec (some v) = next v

unfoldable pub round_on : (Vars → List ℕ → ℕ → Option Vars) → List ℕ → Vars → Round
round_on parse [] v = of_end (at_end v.frames v)
round_on parse (c ∷ s) v = of_exec (exec_char parse c s v)

unfoldable pub round : (Vars → List ℕ → ℕ → Option Vars) → Vars → Round
round parse v = if stops v then done else round_on parse v.f_str v

-- The loop, and the parse of a row's format within it on the fuel that is left.
unfoldable pub loop : ℕ → Vars → Option Vars
loop zero v = none
loop (suc fuel) v = elim (round (λ child fmt rank. loop fuel (begin child fmt rank)) v) [
  | done ↦ some v
  | next v' ↦ loop fuel v'
  | stuck ↦ none
]

unfoldable pub parse_rank : ℕ → Vars → List ℕ → ℕ → Option Vars
parse_rank fuel v fmt rank = loop fuel (begin v fmt rank)

-- `wi_parse`; its return value is the length of `out`.
unfoldable pub parse : ℕ → Vars → List ℕ → Option Vars
parse fuel v fmt = parse_rank fuel v fmt v.nfmts
