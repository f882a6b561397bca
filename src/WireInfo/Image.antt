-- ===== src/WireInfo/Image.antt =====
-- wire_info.c: the tests of `wire_info_open` on the header of an image. The reads are of the 64 bytes
-- that the first test asks for.
use wire_format.Base.{ℕ, ◌+◌, ◌*◌, ◌^◌, Bool, not, ◌&&◌, List, leb, ◌==◌, length, get_or, bit_or}

-- `u32`: four octets at an offset, the low one first.
unfoldable pub u32_at : List ℕ → ℕ → ℕ
u32_at p i =
    bit_or
      (bit_or (bit_or (get_or p i 0) (get_or p (i + 1) 0 * 2 ^ 8)) (get_or p (i + 2) 0 * 2 ^ 16))
      (get_or p (i + 3) 0 * 2 ^ 24)

-- The fixed bytes, the size, the flag, 1 to 64 messages and the sizes of the entries.
unfoldable pub header_valid : List ℕ → Bool
header_valid p =
    leb 64 (length p)
    && get_or p 0 0 == b'W'
    && get_or p 1 0 == b'I'
    && get_or p 2 0 == 0
    && get_or p 3 0 == 0
    && get_or p 4 0 == 4
    && get_or p 5 0 == 0
    && get_or p 6 0 == 64
    && get_or p 7 0 == 0
    && u32_at p 8 == length p
    && u32_at p 12 == 0x8000_0000
    && not (u32_at p 16 == 0)
    && leb (u32_at p 16) 64
    && u32_at p 20 == 32
    && u32_at p 24 == 64
    && u32_at p 40 == 4

abbrev pub messages_end : List ℕ → ℕ
messages_end p = 64 + u32_at p 16 * 32

abbrev pub meta_end : List ℕ → ℕ
meta_end p = u32_at p 28 + u32_at p 32

abbrev pub offset_end : List ℕ → ℕ
offset_end p = u32_at p 44 + u32_at p 48 * 4

abbrev pub strings_end : List ℕ → ℕ
strings_end p = u32_at p 52 + u32_at p 56

-- The sections follow each other without a gap up to the end.
unfoldable pub sections_valid : List ℕ → Bool
sections_valid p =
    u32_at p 28 == messages_end p
    && u32_at p 36 == meta_end p
    && u32_at p 44 == meta_end p
    && leb 4 (u32_at p 48)
    && u32_at p 52 == offset_end p
    && strings_end p == length p
    && leb (messages_end p) (length p)
    && leb (meta_end p) (length p)
    && leb (offset_end p) (length p)
