-- ===== src/Records/Reads.antt =====
-- compiler/records.c: what the loader reads from the header of an image, and when its tests hold.
use wire_format.Base.{
  ℕ, ◌+◌, ◌*◌, ◌/◌, ◌^◌, ◌≤◌, ◌<◌, ◌≡◌, refl, ◌∙◌, arith, true, List, ◌++◌, length, get_or,
  length-set, bit_or, u8, u32,
}
use wire_format.Crc.{wi_set_crc32c}
use wire_format.Crc.Stamp.{four_octets, get_or-set_other}
use wire_format.WireInfo.Image.{u32_at, header_valid, sections_valid}
use wire_format.Records.Image.{put32, Parts, meta_base, offset_base, string_base, header}

word :
    (x : ℕ)
    → bit_or
        (bit_or (bit_or (u8 (u32 x)) (u8 (u32 x / 2 ^ 8) * 2 ^ 8)) (u8 (u32 x / 2 ^ 16) * 2 ^ 16))
        (u8 (u32 x / 2 ^ 24) * 2 ^ 24)
      ≡ u32 x
word x = four_octets (u32 x) (omega arith)

-- What is read from the header, whatever follows it.
module _ (count : ℕ) (p : Parts) (t : List ℕ) where
  pub size_at : u32_at (header count p ++ t) 8 ≡ u32 (string_base count p + length p.strings)
  unfolding header put32 u32_at
  size_at = word (string_base count p + length p.strings)

  pub count_at : u32_at (header count p ++ t) 16 ≡ u32 count
  unfolding header put32 u32_at
  count_at = word count

  pub meta_at : u32_at (header count p ++ t) 28 ≡ u32 (meta_base count)
  unfolding header put32 u32_at
  meta_at = word (meta_base count)

  pub meta_size_at : u32_at (header count p ++ t) 32 ≡ u32 (length p.meta)
  unfolding header put32 u32_at
  meta_size_at = word (length p.meta)

  pub offsets_at : u32_at (header count p ++ t) 36 ≡ u32 (offset_base count p)
  unfolding header put32 u32_at
  offsets_at = word (offset_base count p)

  pub slots_at : u32_at (header count p ++ t) 44 ≡ u32 (offset_base count p)
  unfolding header put32 u32_at
  slots_at = word (offset_base count p)

  pub slot_count_at : u32_at (header count p ++ t) 48 ≡ u32 (length p.offsets / 4)
  unfolding header put32 u32_at
  slot_count_at = word (length p.offsets / 4)

  pub strings_at : u32_at (header count p ++ t) 52 ≡ u32 (string_base count p)
  unfolding header put32 u32_at
  strings_at = word (string_base count p)

  pub string_size_at : u32_at (header count p ++ t) 56 ≡ u32 (length p.strings)
  unfolding header put32 u32_at
  string_size_at = word (length p.strings)

  pub header-length : length (header count p) ≡ 64
  unfolding header put32
  header-length = refl

pub get_or-set_crc32c :
    (image : List ℕ) (i : ℕ) → i < 60 → get_or (wi_set_crc32c image) i 0 ≡ get_or image i 0
unfolding wi_set_crc32c
get_or-set_crc32c image i h =
    get_or-set_other _ 63 i _ (ground arith)
    ∙ get_or-set_other _ 62 i _ (ground arith)
    ∙ get_or-set_other _ 61 i _ (ground arith)
    ∙ get_or-set_other image 60 i _ (ground arith)

pub u32_at-set_crc32c :
    (image : List ℕ) (i : ℕ) → i + 3 < 60 → u32_at (wi_set_crc32c image) i ≡ u32_at image i
unfolding u32_at
u32_at-set_crc32c image i h =
    rw
      (
        get_or-set_crc32c image i (omega arith),
        get_or-set_crc32c image (i + 1) (omega arith),
        get_or-set_crc32c image (i + 2) (omega arith),
        get_or-set_crc32c image (i + 3) h,
      )
      refl

pub length-set_crc32c : (image : List ℕ) → length (wi_set_crc32c image) ≡ length image
unfolding wi_set_crc32c
length-set_crc32c image =
    length-set _ 63 _ ∙ length-set _ 62 _ ∙ length-set _ 61 _ ∙ length-set image 60 _

pub header_valid-holds :
    (q : List ℕ) (n count : ℕ)
    → 64 ≤ n
    → 1 ≤ count
    → count ≤ 64
    → length q ≡ n
    → get_or q 0 0 ≡ b'W'
    → get_or q 1 0 ≡ b'I'
    → get_or q 2 0 ≡ 0
    → get_or q 3 0 ≡ 0
    → get_or q 4 0 ≡ 4
    → get_or q 5 0 ≡ 0
    → get_or q 6 0 ≡ 64
    → get_or q 7 0 ≡ 0
    → u32_at q 8 ≡ n
    → u32_at q 12 ≡ 0x8000_0000
    → u32_at q 16 ≡ count
    → u32_at q 20 ≡ 32
    → u32_at q 24 ≡ 64
    → u32_at q 40 ≡ 4
    → header_valid q ≡ true
unfolding header_valid
header_valid-holds q n count a b c l b₀ b₁ b₂ b₃ b₄ b₅ b₆ b₇ u₈ u₁₂ u₁₆ u₂₀ u₂₄ u₄₀ =
    rw (l, b₀, b₁, b₂, b₃, b₄, b₅, b₆, b₇, u₈, u₁₂, u₁₆, u₂₀, u₂₄, u₄₀) (ground arith)

pub sections_valid-holds :
    (q : List ℕ) (n count meta slots strings : ℕ)
    → n ≡ 64 + count * 32 + meta + slots * 4 + strings
    → 4 ≤ slots
    → length q ≡ n
    → u32_at q 16 ≡ count
    → u32_at q 28 ≡ 64 + count * 32
    → u32_at q 32 ≡ meta
    → u32_at q 36 ≡ 64 + count * 32 + meta
    → u32_at q 44 ≡ 64 + count * 32 + meta
    → u32_at q 48 ≡ slots
    → u32_at q 52 ≡ 64 + count * 32 + meta + slots * 4
    → u32_at q 56 ≡ strings
    → sections_valid q ≡ true
unfolding sections_valid
sections_valid-holds q n count meta slots strings whole few l u₁₆ u₂₈ u₃₂ u₃₆ u₄₄ u₄₈ u₅₂ u₅₆ =
    rw (l, u₁₆, u₂₈, u₃₂, u₃₆, u₄₄, u₄₈, u₅₂, u₅₆) (ground arith)
