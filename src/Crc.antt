-- ===== src/Crc.antt =====
-- wire_format.c and compiler/util.c: the CRC-32C of a wire-info image, whose own field at bytes 60
-- to 63 counts as zero. A data pointer is NULL or its bytes.
pub mod Stamp
mod Tests
use wire_format.Base.{
  ℕ, zero, suc, ◌+◌, ◌-◌, ◌*◌, ◌/◌, ◌%◌, ◌^◌, Bool, true, false, ◌&&◌, List, [], ◌∷◌, length, leb,
  ltb, ◌==◌, if◌then◌else◌, get_or, set, Option, none, some, u8, u32, bit_and, bit_or, bit_xor,
}

-- One round of the loop on bits.
unfoldable pub crc_bit : ℕ → ℕ
crc_bit crc = bit_xor (crc / 2) (bit_and 0x82f6_3b78 (u32 (2 ^ 32 - bit_and crc 1)))

unfoldable pub crc_bits : ℕ → ℕ → ℕ
crc_bits zero crc = crc
crc_bits (suc bits) crc = crc_bits bits (crc_bit crc)

-- The byte at `index` as it is counted.
unfoldable pub counted : ℕ → ℕ → ℕ
counted index byte = if leb 60 index && ltb index 64 then 0 else byte

unfoldable pub crc_loop : ℕ → List ℕ → ℕ → ℕ
crc_loop index [] crc = crc
crc_loop index (b ∷ bs) crc = crc_loop (index + 1) bs (crc_bits 8 (bit_xor crc (counted index b)))

-- `wi_file_crc32c`
unfoldable pub file_crc32c : Option (List ℕ) → ℕ
file_crc32c none = 0
file_crc32c (some bytes) = bit_xor (crc_loop 0 bytes 0xffff_ffff) 0xffff_ffff

-- The little-endian field of the image.
unfoldable pub stored_crc : List ℕ → ℕ
stored_crc bytes =
    bit_or
      (bit_or (bit_or (get_or bytes 60 0) (get_or bytes 61 0 * 2 ^ 8)) (get_or bytes 62 0 * 2 ^ 16))
      (get_or bytes 63 0 * 2 ^ 24)

-- `wi_file_crc32c_valid`
unfoldable pub file_crc32c_valid : Option (List ℕ) → Bool
file_crc32c_valid none = false
file_crc32c_valid (some bytes) =
    if ltb (length bytes) 64 then false else stored_crc bytes == file_crc32c (some bytes)

-- `wfc_wi_crc32c`, which has the same loop.
unfoldable pub wi_crc32c : List ℕ → ℕ
wi_crc32c image = bit_xor (crc_loop 0 image 0xffff_ffff) 0xffff_ffff

-- `wfc_wi_set_crc32c`
unfoldable pub wi_set_crc32c : List ℕ → List ℕ
wi_set_crc32c image =
    let crc = wi_crc32c image in
    set (set (set (set image 60 (u8 crc)) 61 (u8 (crc / 2 ^ 8))) 62 (u8 (crc / 2 ^ 16))) 63
      (u8 (crc / 2 ^ 24))
