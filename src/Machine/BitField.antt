-- ===== src/Machine/BitField.antt =====
-- wire_format.c: the bit-field specifiers %x, %X and %f. A shift by a count outside the shifted
-- type is undefined in C; the model shifts by the count's low 32 bits without a bound.
use wire_format.Base.{
  ℕ, ◌+◌, ◌-◌, ◌*◌, ◌/◌, ◌^◌, true, false, if◌then◌else◌, u8, u32, bit_and, bit_or,
}
use wire_format.Machine.State.{Vars}
use wire_format.Machine.Buffer.{b_emit, b_read, fs_push, fs_pop}

-- `(uint8_t)((1u << width) - 1u)`
abbrev pub field_mask : ℕ → ℕ
field_mask width = u8 (u32 (2 ^ width) + 2 ^ 32 - 1)

unfoldable pub put_bits : Vars → Vars
put_bits v =
    let (pos, v₁) = fs_pop v in
    let (width, v₂) = fs_pop v₁ in
    let (val, v₃) = fs_pop v₂ in
    let field = bit_and (u8 val) (field_mask (u32 width)) in
    record v₃ { bit_acc = u8 (bit_or v₃.bit_acc (field * 2 ^ u32 pos)) }

-- Loads the next byte, unless one is loaded.
unfoldable pub load_byte : Vars → Vars
load_byte v =
    let (b, v₁) = b_read v in if v.in_loaded then v else record v₁ { in_acc = b; in_loaded = true }

unfoldable pub get_bits : Vars → Vars
get_bits v =
    let (pos, v₁) = fs_pop v in
    let (width, v₂) = fs_pop v₁ in
    let v₃ = load_byte v₂ in fs_push v₃ (bit_and (v₃.in_acc / 2 ^ u32 pos) (field_mask (u32 width)))

unfoldable pub flush : Vars → Vars
flush v =
    if v.encoding
    then record (b_emit v v.bit_acc) { bit_acc = 0 }
    else record v { in_loaded = false }
