-- ===== src/Machine/Runs.antt =====
-- Whole parses on concrete formats, evaluated.
use wire_format.Base.{
  ℕ, ◌≡◌, refl, Bool, true, false, List, [], ◌∷◌, Option, none, some, get_or, ◌^◌, ◌-◌,
}
use Prim.Native.String.{String}
use Prim.Native.Char.{code}
use wire_format.Machine.State.{touch, Vars}
use wire_format.Machine.Buffer.{
  b_emit, emit_all, take_input, b_read, fs_push, take_top, fs_pop, get_var_addr,
}
use wire_format.Machine.Arith.{
  binary, signed_div, signed_mod, op_and, op_andl, op_or, op_orl, op_xor, op_not, op_notl, op_plus,
  op_minus, op_star, op_div, op_mod, op_equals, op_greater, op_less, op_fault,
}
use wire_format.Machine.Text.{
  op_tick, brace_digits, brace_end, op_brace, index_digits, push_param, braced_param, op_param,
  store_var, load_var, skip_op, skip_loop, skip_branch, op_then, op_else,
}
use wire_format.Machine.Emit.{
  op_percent, op_char, op_byte, op_word, op_long, quad_bytes, op_quad, sdnv_length, sdnv_bytes,
  op_sdnv, element_bytes, emit_elements, emit_buffer, op_raw,
}
use wire_format.Machine.Read.{
  read_byte, read_word, read_long, read_bytes, read_quad, sdnv_loop, read_sdnv,
}
use wire_format.Machine.BitField.{put_bits, load_byte, get_bits, flush}
use wire_format.Machine.Slices.{capture, op_rest, op_exact, op_length, op_slice, op_exact_slice}
use wire_format.Machine.Record.{
  name_chars, record_name, record_operand, record_position, record_aligned, put_bit, put_bits_loop,
  refill, get_bits_loop, record_bits, record_emit_bits, record_read_bits, cbor_encode, cbor_decode,
  record_cbor, decimal_digit, decimal_loop, record_decimal, octet_count, terminated_read,
  terminated_write, record_terminated,
}
use wire_format.Machine.Extension.{
  ext_assert, ext_aligned, ext_list_query, ext_crc, ext_cbor, swap_octets, ext_swap, ext_octet,
  ext_remaining, ext_position, ext_zero, ext_peek, ext_select, ext_not, find_handler, push_result,
  ext_binary, run_ext, record_extension,
}
use wire_format.Machine.Lists.{
  push_count, op_count, fill, init, decode_init, call_digits, child_of, absorb,
}
use wire_format.Machine.Rows.{
  row_loop, list_fits, run_rows, refuses_rows, format_rows, pop_rows, op_rows,
}
use wire_format.Machine.Call.{op_colon, run_call, op_call}
use wire_format.Machine.Loop.{
  do_nothing, op_put, op_get, run_handler, switch, at_end, exec_char, stops, of_end, of_exec,
  round_on, round, loop, parse_rank, parse,
}
use wire_format.Base.{ℕ, ◌+◌, ◌≤◌, ◌++◌, length, arith}
use wire_format.Machine.Table.{
  set_formats, table_depth, fill_depths, deepest_of, format_depth, deepen, next_call, call_text,
  call_result,
}
use wire_format.Machine.Safe.Parse.{IsSafe, parse-IsSafe}
use wire_format.Machine.Safe.Init.{init-IsSafe, encode-total, decode-total}
use wire_format.Machine.Halts.Total.{parse-total}
use wire_format.Machine.RoundTrip.Ends.{writer, reader}
use wire_format.Machine.RoundTrip.Integers.{read_quad-op_quad}
use wire_format.Machine.RoundTrip.Sdnv.{read_sdnv-op_sdnv}
use wire_format.Machine.RoundTrip.Words.{read_word-op_word, read_long-op_long}

abbrev codes : String → List ℕ
codes String.[] = []
codes (String.◌∷◌ c s) = code c ∷ codes s

-- A parse with everything that it runs unfolded.
run : ℕ → Vars → String → Option Vars
unfolding touch b_emit emit_all take_input b_read fs_push take_top fs_pop get_var_addr binary
    signed_div signed_mod op_and op_andl op_or op_orl op_xor op_not op_notl op_plus op_minus op_star
    op_div op_mod op_equals op_greater op_less op_fault op_tick brace_digits brace_end op_brace
    index_digits push_param braced_param op_param store_var load_var skip_op skip_loop skip_branch
    op_then op_else op_percent op_char op_byte op_word op_long quad_bytes op_quad sdnv_length
    sdnv_bytes op_sdnv element_bytes emit_elements emit_buffer op_raw read_byte read_word read_long
    read_bytes read_quad sdnv_loop read_sdnv put_bits load_byte get_bits flush capture op_rest
    op_exact op_length op_slice op_exact_slice name_chars record_name record_operand record_position
    record_aligned put_bit put_bits_loop refill get_bits_loop record_bits record_emit_bits
    record_read_bits cbor_encode cbor_decode record_cbor decimal_digit decimal_loop record_decimal
    octet_count terminated_read terminated_write record_terminated ext_assert ext_aligned
    ext_list_query ext_crc ext_cbor swap_octets ext_swap ext_octet ext_remaining ext_position
    ext_zero ext_peek ext_select ext_not find_handler push_result ext_binary run_ext
    record_extension push_count op_count fill init decode_init call_digits child_of absorb row_loop
    list_fits run_rows refuses_rows format_rows pop_rows op_rows op_colon run_call op_call
    do_nothing op_put op_get run_handler switch at_end exec_char stops of_end of_exec round_on round
    loop parse_rank parse
run fuel v fmt = parse fuel v (codes fmt)

abbrev output : Option Vars → Option (List ℕ × Bool)
output none = none
output (some v) = some (v.out, v.overrun)

abbrev first_vars : Option Vars → Option (ℕ × ℕ × Bool)
first_vars none = none
first_vars (some v) = some (get_or v.vars 0 0, get_or v.vars 1 0, v.overrun)

abbrev encoder : ℕ → List ℕ → Vars
encoder size params = init (λ a. 0) [] (some size) params

abbrev decoder : List ℕ → Vars
decoder input = decode_init (λ a. 0) [] (some input) []

emits :
    output (run 20 (encoder 10 (0x1234 ∷ 300 ∷ [])) "A%p1%w%p2%d")
    ≡ some (b'A' ∷ 0x12 ∷ 0x34 ∷ 0x82 ∷ 0x2c ∷ [], false)
unfolding run
emits = refl

reads :
    first_vars (run 20 (decoder (0x12 ∷ 0x34 ∷ 0x82 ∷ 0x2c ∷ [])) "%S%Pa%D%Pb")
    ≡ some (0x1234, 300, false)
unfolding run
reads = refl

branches :
    output (run 40 (encoder 10 (7 ∷ 0 ∷ [])) "%?%p1%{5}%>%tB%eS%;%?%p2%tX%eY%;")
    ≡ some (b'B' ∷ b'Y' ∷ [], false)
unfolding run
branches = refl

divides :
    output (run 40 (encoder 10 (7 ∷ (2 ^ 64 - 2) ∷ [])) "%p1%p2%/%{4}%+%c%p1%p2%m%c")
    ≡ some (1 ∷ 1 ∷ [], false)
unfolding run
divides = refl

bits :
    output (run 40 (encoder 10 []) "%{5}%{3}%i%{9}%{5}%i%{1}%{0}%!%c") ≡ some (0xa9 ∷ 1 ∷ [], false)
unfolding run
bits = refl

overruns : output (run 20 (encoder 1 (0x1234 ∷ [])) "%p1%w") ≡ some (0x12 ∷ [], true)
unfolding run
overruns = refl

abbrev ended : Option Vars → Vars
ended none = encoder 0 []
ended (some v) = v

abbrev start : Vars
start = encoder 10 (0x1234 ∷ 300 ∷ [])

abbrev two_fields : List ℕ
two_fields = codes "A%p1%w%p2%d"

parse-total_example :
    (fuel : ℕ) × (r : Vars) × ((more : ℕ) → fuel ≤ more → parse more start two_fields ≡ some r)
parse-total_example = parse-total start two_fields

-- The state that this parse ends in.
last : Vars
unfolding run
last = ended (run 20 start "A%p1%w%p2%d")

parse-IsSafe_example :
    IsSafe last
    × (length last.out ≤ 10)
    × (last.in_pos + length last.input ≡ 0)
    × (0 ≤ last.in_pos)
    × (last.params ≡ start.params)
    × (last.fmts ≡ none)
unfolding run last
parse-IsSafe_example =
    parse-IsSafe 20 start two_fields last (init-IsSafe (λ a. 0) [] (some 10) (0x1234 ∷ 300 ∷ []))
      refl

read_quad-op_quad_example :
    (op_quad (writer start (0x1234 ∷ []) []) ≡ writer start [] (quad_bytes 8 0x1234))
    × (read_quad (reader start [] (quad_bytes 8 0x1234 ++ (7 ∷ [])) 0)
        ≡ reader start (0x1234 ∷ []) (7 ∷ []) 8)
unfolding init
read_quad-op_quad_example =
    read_quad-op_quad start start 0x1234 0 [] [] [] (7 ∷ []) (omega arith) (omega arith)
      (omega arith)

read_sdnv-op_sdnv_example :
    (op_sdnv (writer start (300 ∷ []) []) ≡ writer start [] (0x82 ∷ 0x2c ∷ []))
    × (read_sdnv (reader start [] (0x82 ∷ 0x2c ∷ 7 ∷ []) 0) ≡ reader start (300 ∷ []) (7 ∷ []) 2)
    × (sdnv_length 9 300 ≤ 10)
unfolding init sdnv_length sdnv_bytes
read_sdnv-op_sdnv_example =
    read_sdnv-op_sdnv start start 300 0 [] [] [] (7 ∷ []) (omega arith) (omega arith) (omega arith)

-- A value of more than 16 bits loses its high part.
read_word-op_word_example :
    (op_word (writer start (0x9_1234 ∷ []) []) ≡ writer start [] (0x12 ∷ 0x34 ∷ []))
    × (read_word (reader start [] (0x12 ∷ 0x34 ∷ 7 ∷ []) 0) ≡ reader start (0x1234 ∷ []) (7 ∷ []) 2)
unfolding init
read_word-op_word_example =
    read_word-op_word start start 0x9_1234 0 [] [] [] (7 ∷ []) (omega arith) (omega arith)

read_long-op_long_example :
    (op_long (writer start (0x1_0203_0405 ∷ []) []) ≡ writer start [] (2 ∷ 3 ∷ 4 ∷ 5 ∷ []))
    × (read_long (reader start [] (2 ∷ 3 ∷ 4 ∷ 5 ∷ 7 ∷ []) 0)
        ≡ reader start (0x0203_0405 ∷ []) (7 ∷ []) 4)
unfolding init
read_long-op_long_example =
    read_long-op_long start start 0x1_0203_0405 0 [] [] [] (7 ∷ []) (omega arith) (omega arith)

-- A table of two formats, the second of which calls the first.
abbrev table : Option (List (Option (List ℕ)))
table = some (some (codes "%p1%b") ∷ some (codes "<%[0]>") ∷ [])

set_table : Vars → Option Vars
unfolding set_formats table_depth fill_depths deepest_of format_depth deepen next_call call_text
    call_result call_digits
set_table v = set_formats v table 2

abbrev tabled : Vars → Vars
tabled v = record v { fmts = table; nfmts = 2 }

calls : output (run 40 (tabled start) "%{2}%:%[1]%[0]") ≡ some (codes "<4><4>4", false)
unfolding run
calls = refl

encode-total_example :
    (fuel : ℕ) × (r : Vars) × (parse fuel (tabled start) (codes "%[1]") ≡ some r)
    × IsSafe r
    × (length r.out ≤ 10)
unfolding set_table init
encode-total_example =
    encode-total (λ a. 0) [] 10 (0x1234 ∷ 300 ∷ []) table 2 (tabled start) (codes "%[1]") refl

decode-total_example :
    (fuel : ℕ) × (r : Vars) × (parse fuel (tabled (decoder (1 ∷ 2 ∷ 3 ∷ []))) (codes "%B%S")
      ≡ some r)
    × IsSafe r
    × (r.in_pos + length r.input ≡ 3)
unfolding set_table decode_init
decode-total_example =
    decode-total (λ a. 0) [] (1 ∷ 2 ∷ 3 ∷ []) [] table 2 (tabled (decoder (1 ∷ 2 ∷ 3 ∷ [])))
      (codes "%B%S") refl
