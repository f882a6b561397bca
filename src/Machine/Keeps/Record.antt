-- ===== src/Machine/Keeps/Record.antt =====
-- wire_format_record.inc: the bit strings and the integers made of them keep the bounds.
use wire_format.Base.{
  ℕ, zero, suc, ◌-◌, ◌*◌, ◌/◌, ◌^◌, arith, [], ◌∷◌, length-append, if◌then◌else◌, bit_or, u8, u64,
  bit_and, ◌==◌,
}
use wire_format.Machine.State.{Vars}
use wire_format.Machine.Buffer.{b_emit, b_read}
use wire_format.Machine.Keeps.{
  Keeps, keeping, Keeps-trans, if-Keeps, if_pair-Keeps, fail-Keeps, read-Keeps,
}
use wire_format.Machine.Record.{
  put_bit, put_bits_loop, refill, get_bits_loop, record_bits, record_emit_bits, record_read_bits,
  cbor_encode, cbor_decode, record_cbor, decimal_digit, decimal_loop, record_decimal,
  terminated_read, terminated_write, record_terminated,
}

put_bit-Keeps : (bit : ℕ) (v : Vars) → Keeps v (put_bit bit v)
unfolding put_bit b_emit
put_bit-Keeps bit v =
    ground (arith, length-append v.out (bit_or v.bit_acc (u8 (bit * 2 ^ (7 - v.write_bits))) ∷ []))

put_bits-Keeps : {u : Vars} (n value : ℕ) {v : Vars} → Keeps u v → Keeps u (put_bits_loop n value v)
unfolding put_bits_loop
put_bits-Keeps zero value p = p
put_bits-Keeps (suc n) value p =
    if-Keeps _ p (put_bits-Keeps n value (Keeps-trans p (put_bit-Keeps _ _)))

loaded : (v : Vars) (n : ℕ) → Keeps v (record v { in_acc = n; read_bits = 8 })
loaded v n = ground arith

refill-Keeps : {u v : Vars} → Keeps u v → Keeps u (refill v)
unfolding refill
refill-Keeps {u} {v} p =
    if-Keeps _ (Keeps-trans (read-Keeps p) (loaded (b_read v).1 (b_read v).0)) p

drained : (v : Vars) → Keeps v (record v { read_bits = v.read_bits - 1 })
drained v = ground arith

get_bits-Keeps :
    {u : Vars} (n result : ℕ) {v : Vars} → Keeps u v → Keeps u (get_bits_loop n result v).1
unfolding get_bits_loop
get_bits-Keeps zero result p = p
get_bits-Keeps (suc n) result p =
    if_pair-Keeps _ _ _ p (get_bits-Keeps n _ (Keeps-trans (refill-Keeps p) (drained _)))

pub bits-Keeps :
    {u v : Vars} → Keeps u v → (value width : ℕ) → Keeps u (record_bits v value width).1
unfolding record_bits
bits-Keeps p value width = search (keeping, put_bits-Keeps, get_bits-Keeps) depth 12

ruleset packing = (keeping, bits-Keeps)

pub emit_bits-Keeps : (v : Vars) → Keeps v (record_emit_bits v)
unfolding record_emit_bits
emit_bits-Keeps v = search packing depth 12

pub read_bits-Keeps : (v : Vars) → Keeps v (record_read_bits v)
unfolding record_read_bits
read_bits-Keeps v = search packing depth 12

encode-Keeps : {u v : Vars} → Keeps u v → (major n : ℕ) → Keeps u (cbor_encode v major n).1
unfolding cbor_encode
encode-Keeps p major n = search packing depth 12

decode-Keeps : {u v : Vars} → Keeps u v → (major : ℕ) → Keeps u (cbor_decode v major).1
unfolding cbor_decode
decode-Keeps p major = search packing depth 16

pub cbor-Keeps : {u v : Vars} → Keeps u v → (major n : ℕ) → Keeps u (record_cbor v major n).1
unfolding record_cbor
cbor-Keeps p major n = search (keeping, encode-Keeps, decode-Keeps) depth 12

digit-Keeps :
    {u v : Vars}
    → Keeps u v
    → (mode digit result : ℕ) → Keeps u (decimal_digit mode digit result v).1
unfolding decimal_digit
digit-Keeps p mode digit result = search keeping depth 12

decimal_loop-Keeps :
    {u : Vars} (n mode value divisor result : ℕ) {v : Vars}
    → Keeps u v
    → Keeps u (decimal_loop n mode value divisor result v).1
unfolding decimal_loop
decimal_loop-Keeps zero mode value divisor result p = p
decimal_loop-Keeps (suc n) mode value divisor result p =
    let q = bits-Keeps p _ _ in
    if_pair-Keeps _ _ _ p (
      decimal_loop-Keeps n mode value (divisor / 10) _
        (if_pair-Keeps _ _ _ q (digit-Keeps q mode _ result)))

pub decimal-Keeps : (v : Vars) → Keeps v (record_decimal v)
unfolding record_decimal
decimal-Keeps v = search (keeping, decimal_loop-Keeps) depth 12

terminated_read-Keeps :
    {u : Vars} (n stop mask value : ℕ) {v : Vars}
    → Keeps u v
    → Keeps u (terminated_read n stop mask value v).1
unfolding terminated_read
terminated_read-Keeps zero stop mask value p = fail-Keeps p
terminated_read-Keeps (suc n) stop mask value {v} p =
    let (temp, w) = record_bits v 0 8 in
    let q : Keeps _ w = bits-Keeps p 0 8 in
    let next = bit_or (u64 (value * 2 ^ 8)) temp in
    let rest = terminated_read n stop mask next w in
    let found = bit_and temp mask == stop in
    if_pair-Keeps v.overrun (value, v) (if found then (next, w) else rest) p
      (if_pair-Keeps found (next, w) rest q (terminated_read-Keeps n stop mask next q))

terminated_write-Keeps :
    {u : Vars} (n stop mask value : ℕ) {v : Vars}
    → Keeps u v
    → Keeps u (terminated_write n stop mask value v)
unfolding terminated_write
terminated_write-Keeps zero stop mask value p = p
terminated_write-Keeps (suc n) stop mask value p =
    if-Keeps _ p
      (if-Keeps _ (fail-Keeps p) (terminated_write-Keeps n stop mask value (bits-Keeps p _ 8)))

pub terminated-Keeps : (v : Vars) → Keeps v (record_terminated v)
unfolding record_terminated
terminated-Keeps v = search (keeping, terminated_read-Keeps, terminated_write-Keeps) depth 16
