-- ===== src/Machine/Record.antt =====
-- wire_format_record.inc, for a parse whose `record_scope` is NULL, as `wi_init` and
-- `wi_decode_init` leave it: operand names, octet alignment, bit strings, CBOR heads, decimal and
-- terminated integers. A status goes to the scope, so that here `record_fail` sets `overrun` only.
use wire_format.Base.{
  ℕ, zero, suc, ◌+◌, ◌-◌, ◌*◌, ◌/◌, ◌%◌, ◌^◌, Bool, ◌&&◌, ◌||◌, not, List, [], ◌∷◌, leb, ltb, ◌==◌,
  length, if◌then◌else◌, u8, u64, u64_max, bit_and, bit_or,
}
use wire_format.Machine.State.{Vars, fail}
use wire_format.Machine.Buffer.{b_emit, b_read, fs_push, fs_pop, peek, advance}

-- The characters of a name, `room` at most: their number, and what follows.
unfoldable pub name_chars : ℕ → List ℕ → ℕ × List ℕ
name_chars zero s = (0, s)
name_chars (suc room) [] = (0, [])
name_chars (suc room) (c ∷ s) =
    let (n, rest) = name_chars room s in if c == b'}' then (0, c ∷ s) else (suc n, rest)

-- `record_name` into `char name[192]`. Without a scope the name itself is never looked at.
unfoldable pub record_name : Vars → Vars
record_name v =
    let (n, s) = name_chars 191 (advance v.f_str) in
    if not (peek v.f_str == b'{')
    then fail v
    else if not (peek s == b'}') || n == 0
    then fail (record v { f_str = s })
    else record v { f_str = advance s }

-- `record_operand`: no scope holds the name, so `record_lookup` fails.
unfoldable pub record_operand : Vars → Vars
record_operand v = fail (record_name v)

unfoldable pub record_position : Vars → ℕ
record_position v =
    if v.encoding then length v.out else v.in_pos - (if v.read_bits == 0 then 0 else 1)

unfoldable pub record_aligned : Vars → Bool
record_aligned v = v.read_bits == 0 && v.write_bits == 0

-- One round of the encoding loop of `record_bits`.
unfoldable pub put_bit : ℕ → Vars → Vars
put_bit bit v =
    let acc = bit_or v.bit_acc (u8 (bit * 2 ^ (7 - v.write_bits))) in
    let full = record v { bit_acc = acc; write_bits = v.write_bits + 1 } in
    if v.write_bits + 1 == 8 then record (b_emit full acc) { bit_acc = 0; write_bits = 0 } else full

unfoldable pub put_bits_loop : ℕ → ℕ → Vars → Vars
put_bits_loop zero value v = v
put_bits_loop (suc n) value v =
    let rest = put_bits_loop n value (put_bit (value / 2 ^ n % 2) v) in
    if v.overrun then v else rest

unfoldable pub refill : Vars → Vars
refill v =
    let (b, v₁) = b_read v in
    if v.read_bits == 0 then record v₁ { in_acc = b; read_bits = 8 } else v

unfoldable pub get_bits_loop : ℕ → ℕ → Vars → ℕ × Vars
get_bits_loop zero result v = (result, v)
get_bits_loop (suc n) result v =
    let v₁ = refill v in
    let left = v₁.read_bits - 1 in
    let next = bit_or (u64 (result * 2)) (v₁.in_acc / 2 ^ left % 2) in
    let rest = get_bits_loop n next (record v₁ { read_bits = left }) in
    if v.overrun then (result, v) else rest

unfoldable pub record_bits : Vars → ℕ → ℕ → ℕ × Vars
record_bits v value width =
    if v.overrun
    then (0, v)
    else if ltb 64 width || (v.encoding && ltb width 64 && not (value / 2 ^ width == 0))
    then (0, fail v)
    else if v.encoding
    then (value, put_bits_loop width value v)
    else get_bits_loop width 0 v

unfoldable pub record_emit_bits : Vars → Vars
record_emit_bits v =
    let (width, v₁) = fs_pop v in
    let (value, v₂) = fs_pop v₁ in if v₂.encoding then (record_bits v₂ value width).1 else fail v₂

unfoldable pub record_read_bits : Vars → Vars
record_read_bits v =
    let (width, v₁) = fs_pop v in
    let (value, v₂) = record_bits v₁ 0 width in if v₁.encoding then fail v₁ else fs_push v₂ value

-- The head of a CBOR item on encode: the initial byte, and the value in 0, 1, 2, 4 or 8 bytes.
abbrev pub cbor_width : ℕ → ℕ
cbor_width value =
    if ltb value 24
    then 0
    else if leb value 0xff
    then 8
    else if leb value 0xffff
    then 16
    else if leb value 0xffff_ffff
    then 32
    else 64

abbrev pub cbor_code : ℕ → ℕ
cbor_code value =
    let width = cbor_width value in
    if width == 0
    then value
    else if width == 8
    then 24
    else if width == 16
    then 25
    else if width == 32
    then 26
    else 27

unfoldable pub cbor_encode : Vars → ℕ → ℕ → ℕ × Vars
cbor_encode v major value =
    let v₁ = b_emit v (u8 (major * 32 + cbor_code value)) in
    if major == 4 && value == u64_max
    then (value, b_emit v 0x9f)
    else (value, if cbor_width value == 0 then v₁ else (record_bits v₁ value (cbor_width value)).1)

unfoldable pub cbor_decode : Vars → ℕ → ℕ × Vars
cbor_decode v major =
    let (byte, v₁) = b_read v in
    let code = bit_and byte 31 in
    let width = 8 * 2 ^ (code - 24) in
    let (result, v₂) = record_bits v₁ 0 width in
    if not (byte / 2 ^ 5 == major)
    then (0, fail v₁)
    else if major == 4 && code == 31
    then (u64_max, v₁)
    else if ltb code 24
    then (code, v₁)
    else if ltb 27 code
    then (0, fail v₁)
    else if ltb result 24 || (ltb 8 width && leb result (u64_max / 2 ^ (64 - width / 2)))
    then (result, fail v₂)
    else (result, v₂)

unfoldable pub record_cbor : Vars → ℕ → ℕ → ℕ × Vars
record_cbor v major value =
    if not (record_aligned v)
    then (0, fail v)
    else if v.overrun
    then (0, v)
    else if v.encoding
    then cbor_encode v major value
    else cbor_decode v major

-- A digit that `record_bits` has read: the value so far with the digit added, or a failure.
unfoldable pub decimal_digit : ℕ → ℕ → ℕ → Vars → ℕ × Vars
decimal_digit mode digit result v =
    let d = if mode == 0 then digit - b'0' else digit in
    if mode == 0 && ltb digit b'0'
    then (result, fail v)
    else if ltb 9 d
    then (result, fail v)
    else (u64 (result * 10 + d), v)

-- The loop of `record_decimal`; its early returns leave `overrun` set, as does a failed read.
unfoldable pub decimal_loop : ℕ → ℕ → ℕ → ℕ → ℕ → Vars → ℕ × Vars
decimal_loop zero mode value divisor result v = (result, v)
decimal_loop (suc n) mode value divisor result v =
    let zero_char = if mode == 0 then b'0' else 0 in
    let width = if mode == 0 then 8 else 4 in
    let (digit, v₁) = record_bits v (value / divisor % 10 + zero_char) width in
    let (result', v₂) = if v.encoding then (result, v₁) else decimal_digit mode digit result v₁ in
    let rest = decimal_loop n mode value (divisor / 10) result' v₂ in
    if v.overrun then (result, v) else rest

unfoldable pub record_decimal : Vars → Vars
record_decimal v =
    let (mode, v₁) = fs_pop v in
    let (width, v₂) = fs_pop v₁ in
    let (value, v₃) = fs_pop v₂ in
    let divisor = 10 ^ (width - 1) in
    let (result, v₄) = decimal_loop width mode value divisor 0 v₃ in
    if width == 0 || ltb 19 width || ltb 1 mode
    then fail v₃
    else if v₃.encoding && ltb 9 (value / divisor)
    then fail v₃
    else fs_push v₄ (if v₃.encoding then value else result)

-- `while (temp > 255) { temp >>= 8; n++; }` from n = 1; seven shifts empty a uint64_t.
unfoldable pub octet_count : ℕ → ℕ → ℕ
octet_count zero temp = 1
octet_count (suc rounds) temp =
    let rest = octet_count rounds (temp / 2 ^ 8) in if ltb 255 temp then suc rest else 1

unfoldable pub terminated_read : ℕ → ℕ → ℕ → ℕ → Vars → ℕ × Vars
terminated_read zero stop mask value v = (value, fail v)
terminated_read (suc n) stop mask value v =
    let (temp, v₁) = record_bits v 0 8 in
    let next = bit_or (u64 (value * 2 ^ 8)) temp in
    let rest = terminated_read n stop mask next v₁ in
    if v.overrun then (value, v) else if bit_and temp mask == stop then (next, v₁) else rest

unfoldable pub terminated_write : ℕ → ℕ → ℕ → ℕ → Vars → Vars
terminated_write zero stop mask value v = v
terminated_write (suc n) stop mask value v =
    let temp = bit_and (value / 2 ^ (n * 8)) 255 in
    let stops = bit_and temp mask == stop in
    let last = n == 0 in
    let rest = terminated_write n stop mask value (record_bits v temp 8).1 in
    if v.overrun then v else if (stops && not last) || (not stops && last) then fail v else rest

unfoldable pub record_terminated : Vars → Vars
record_terminated v =
    let (stop, v₁) = fs_pop v in
    let (mask, v₂) = fs_pop v₁ in
    let (n, v₃) = fs_pop v₂ in
    let (value, v₄) = fs_pop v₃ in
    let count = if n == 0 then octet_count 7 value else n in
    let (read, v₅) = terminated_read 8 stop mask 0 v₄ in
    if mask == 0 || ltb 255 mask || not (bit_and stop (u64_max - mask) == 0)
    then fail v₄
    else if not v₄.encoding
    then fs_push v₅ read
    else if ltb 8 count || (ltb count 8 && not (value / 2 ^ (count * 8) == 0))
    then fail v₄
    else fs_push (terminated_write count stop mask value v₄) value
