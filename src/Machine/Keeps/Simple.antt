-- ===== src/Machine/Keeps/Simple.antt =====
-- wire_format.c: the handlers that only pop, push, read and emit keep the bounds.
use wire_format.Machine.State.{Vars}
use wire_format.Machine.Keeps.{Keeps, keeping}
use wire_format.Base.{ℕ}
use wire_format.Machine.Arith.{
  binary, op_and, op_andl, op_or, op_orl, op_xor, op_plus, op_minus, op_star, op_div, op_mod,
  op_equals, op_greater, op_less, op_not, op_notl,
}
use wire_format.Machine.Emit.{op_percent, op_char, op_byte, op_word, op_long}
use wire_format.Machine.Read.{read_byte, read_word, read_long}
use wire_format.Machine.Extension.{
  ext_assert, ext_aligned, ext_remaining, ext_position, ext_zero, ext_select, ext_not,
}

pub binary-Keeps : (f : ℕ → ℕ → ℕ) (v : Vars) → Keeps v (binary f v)
unfolding binary
binary-Keeps f v = search keeping depth 12

pub op_and-Keeps : (v : Vars) → Keeps v (op_and v)
unfolding op_and
op_and-Keeps v = binary-Keeps _ v

pub op_andl-Keeps : (v : Vars) → Keeps v (op_andl v)
unfolding op_andl
op_andl-Keeps v = binary-Keeps _ v

pub op_or-Keeps : (v : Vars) → Keeps v (op_or v)
unfolding op_or
op_or-Keeps v = binary-Keeps _ v

pub op_orl-Keeps : (v : Vars) → Keeps v (op_orl v)
unfolding op_orl
op_orl-Keeps v = binary-Keeps _ v

pub op_xor-Keeps : (v : Vars) → Keeps v (op_xor v)
unfolding op_xor
op_xor-Keeps v = binary-Keeps _ v

pub op_plus-Keeps : (v : Vars) → Keeps v (op_plus v)
unfolding op_plus
op_plus-Keeps v = binary-Keeps _ v

pub op_minus-Keeps : (v : Vars) → Keeps v (op_minus v)
unfolding op_minus
op_minus-Keeps v = binary-Keeps _ v

pub op_star-Keeps : (v : Vars) → Keeps v (op_star v)
unfolding op_star
op_star-Keeps v = binary-Keeps _ v

pub op_div-Keeps : (v : Vars) → Keeps v (op_div v)
unfolding op_div
op_div-Keeps v = binary-Keeps _ v

pub op_mod-Keeps : (v : Vars) → Keeps v (op_mod v)
unfolding op_mod
op_mod-Keeps v = binary-Keeps _ v

pub op_equals-Keeps : (v : Vars) → Keeps v (op_equals v)
unfolding op_equals
op_equals-Keeps v = binary-Keeps _ v

pub op_greater-Keeps : (v : Vars) → Keeps v (op_greater v)
unfolding op_greater
op_greater-Keeps v = binary-Keeps _ v

pub op_less-Keeps : (v : Vars) → Keeps v (op_less v)
unfolding op_less
op_less-Keeps v = binary-Keeps _ v

pub op_not-Keeps : (v : Vars) → Keeps v (op_not v)
unfolding op_not
op_not-Keeps v = search keeping depth 12

pub op_notl-Keeps : (v : Vars) → Keeps v (op_notl v)
unfolding op_notl
op_notl-Keeps v = search keeping depth 12

pub op_percent-Keeps : (v : Vars) → Keeps v (op_percent v)
unfolding op_percent
op_percent-Keeps v = search keeping depth 12

pub op_char-Keeps : (v : Vars) → Keeps v (op_char v)
unfolding op_char
op_char-Keeps v = search keeping depth 12

pub op_byte-Keeps : (v : Vars) → Keeps v (op_byte v)
unfolding op_byte
op_byte-Keeps v = search keeping depth 12

pub op_word-Keeps : (v : Vars) → Keeps v (op_word v)
unfolding op_word
op_word-Keeps v = search keeping depth 12

pub op_long-Keeps : (v : Vars) → Keeps v (op_long v)
unfolding op_long
op_long-Keeps v = search keeping depth 12

pub read_byte-Keeps : (v : Vars) → Keeps v (read_byte v)
unfolding read_byte
read_byte-Keeps v = search keeping depth 12

pub read_word-Keeps : (v : Vars) → Keeps v (read_word v)
unfolding read_word
read_word-Keeps v = search keeping depth 12

pub read_long-Keeps : (v : Vars) → Keeps v (read_long v)
unfolding read_long
read_long-Keeps v = search keeping depth 12

pub ext_assert-Keeps : (v : Vars) → Keeps v (ext_assert v)
unfolding ext_assert
ext_assert-Keeps v = search keeping depth 12

pub ext_aligned-Keeps : (v : Vars) → Keeps v (ext_aligned v)
unfolding ext_aligned
ext_aligned-Keeps v = search keeping depth 12

pub ext_remaining-Keeps : (v : Vars) → Keeps v (ext_remaining v)
unfolding ext_remaining
ext_remaining-Keeps v = search keeping depth 12

pub ext_position-Keeps : (v : Vars) → Keeps v (ext_position v)
unfolding ext_position
ext_position-Keeps v = search keeping depth 12

pub ext_zero-Keeps : (v : Vars) → Keeps v (ext_zero v)
unfolding ext_zero
ext_zero-Keeps v = search keeping depth 12

pub ext_select-Keeps : (v : Vars) → Keeps v (ext_select v)
unfolding ext_select
ext_select-Keeps v = search keeping depth 12

pub ext_not-Keeps : (v : Vars) → Keeps v (ext_not v)
unfolding ext_not
ext_not-Keeps v = search keeping depth 12
