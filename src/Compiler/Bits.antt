-- ===== src/Compiler/Bits.antt =====
-- compiler/check.c: fields of bits in both bit orders, and scalars in both byte orders, in a buffer.
use wire_format.Base.{
  ℕ, zero, suc, ◌+◌, ◌-◌, ◌*◌, ◌/◌, ◌%◌, ◌^◌, List, ◌==◌, get_or, set, if◌then◌else◌, u8, bit_and,
  bit_or,
}
use wire_format.Compiler.Types.{
  BitOrder, msb_first, lsb_first, ByteOrder, big_endian, little_endian, Field, Protocol,
}
use wire_format.Compiler.Util.{field_width}
use wire_format.Compiler.Layout.{is_bits, is_octets}

-- The bit of a byte that holds bit `k` of the wire, and the bit of a value of `width` bits that
-- goes to the place `index` of its field: `target_bit` and `source_bit` of the loops.
abbrev pub bit_in_byte : BitOrder → ℕ → ℕ
bit_in_byte msb_first k = 7 - k % 8
bit_in_byte lsb_first k = k % 8

abbrev pub bit_in_value : BitOrder → ℕ → ℕ → ℕ
bit_in_value msb_first width index = width - 1 - index
bit_in_value lsb_first width index = index

-- `n` rounds are left, from `index` on.
unfoldable pub write_bits_loop : ℕ → ℕ → List ℕ → ℕ → ℕ → ℕ → BitOrder → List ℕ
write_bits_loop zero index output offset width value order = output
write_bits_loop (suc n) index output offset width value order =
    let k = offset + index in
    let byte = bit_or (get_or output (k / 8) 0) (u8 (2 ^ bit_in_byte order k)) in
    write_bits_loop n (suc index)
      (if bit_and (value / 2 ^ bit_in_value order width index) 1 == 0
        then output
        else set output (k / 8) byte)
      offset width value order

unfoldable pub write_bits : List ℕ → ℕ → ℕ → ℕ → BitOrder → List ℕ
write_bits output offset width value order = write_bits_loop width 0 output offset width value order

unfoldable pub read_bits_loop : ℕ → ℕ → ℕ → List ℕ → ℕ → ℕ → BitOrder → ℕ
read_bits_loop zero index value input offset width order = value
read_bits_loop (suc n) index value input offset width order =
    let k = offset + index in
    read_bits_loop n (suc index)
      (if bit_and (get_or input (k / 8) 0 / 2 ^ bit_in_byte order k) 1 == 0
        then value
        else bit_or value (2 ^ bit_in_value order width index))
      input offset width order

unfoldable pub read_bits : List ℕ → ℕ → ℕ → BitOrder → ℕ
read_bits input offset width order = read_bits_loop width 0 0 input offset width order

-- `shift`
abbrev pub octet_shift : ByteOrder → ℕ → ℕ → ℕ
octet_shift big_endian octets index = (octets - 1 - index) * 8
octet_shift little_endian octets index = index * 8

unfoldable pub write_scalar_loop : ℕ → ℕ → List ℕ → ℕ → ℕ → ℕ → ByteOrder → List ℕ
write_scalar_loop zero index output offset octets value order = output
write_scalar_loop (suc n) index output offset octets value order =
    write_scalar_loop n (suc index)
      (set output (offset + index) (u8 (value / 2 ^ octet_shift order octets index))) offset octets
      value order

unfoldable pub write_scalar : List ℕ → ℕ → ℕ → ℕ → ByteOrder → List ℕ
write_scalar output offset octets value order =
    write_scalar_loop octets 0 output offset octets value order

unfoldable pub read_scalar_loop : ℕ → ℕ → ℕ → List ℕ → ℕ → ℕ → ByteOrder → ℕ
read_scalar_loop zero index value input offset octets order = value
read_scalar_loop (suc n) index value input offset octets order =
    read_scalar_loop n (suc index)
      (bit_or value (get_or input (offset + index) 0 * 2 ^ octet_shift order octets index)) input
      offset octets order

unfoldable pub read_scalar : List ℕ → ℕ → ℕ → ByteOrder → ℕ
read_scalar input offset octets order = read_scalar_loop octets 0 0 input offset octets order

unfoldable pub write_field : List ℕ → ℕ → Field → ℕ → Protocol → List ℕ
write_field output offset f value protocol =
    if is_bits f.type
    then write_bits output offset f.width value protocol.bit_order
    else if is_octets f.type
    then output
    else write_scalar output (offset / 8) (field_width f / 8) value protocol.byte_order

unfoldable pub read_field : List ℕ → ℕ → Field → Protocol → ℕ
read_field input offset f protocol =
    if is_bits f.type
    then read_bits input offset f.width protocol.bit_order
    else if is_octets f.type
    then 0
    else read_scalar input (offset / 8) (field_width f / 8) protocol.byte_order
