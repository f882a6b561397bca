-- ===== src/Records/Opened.antt =====
-- compiler/records.c and wire_info.c: the image of a protocol, at the header tests of
-- `wire_info_open`.
use wire_format.Base.{
  ℕ, ◌+◌, ◌*◌, ◌^◌, ◌≤◌, ◌<◌, ◌≡◌, refl, ap, ◌∙◌, arith, true, List, [], ◌++◌, append_assoc, length,
  length-append, get_or, u32, Option, codes,
}
use wire_format.Json5.Value.{Value}
use wire_format.Compiler.Types.{ok}
use wire_format.Compiler.Offsets.{bind-ok, ok_injective}
use wire_format.Crc.{wi_set_crc32c}
use wire_format.WireInfo.Image.{u32_at, header_valid, sections_valid}
use wire_format.Records.Emit.{append, limit}
use wire_format.Records.Image.{
  put32, Parts, no_parts, header, add_properties, protocol_properties, add_messages, add_rows,
  image_of,
}
use wire_format.Records.Sizes.{
  append-ok, Grows, add_properties-Grows, add_messages-Grows, add_rows-length,
}
use wire_format.Records.Reads.{
  size_at, count_at, meta_at, meta_size_at, offsets_at, slots_at, slot_count_at, strings_at,
  string_size_at, header-length, get_or-set_crc32c, u32_at-set_crc32c, length-set_crc32c,
  header_valid-holds, sections_valid-holds,
}
use wire_format.Records.Json.{get, string}
use wire_format.Records.Validate.{validate}
use wire_format.Records.Accepted.{validate-messages}
use wire_format.Records.Generate.{Generated, c_token, header_text, records_generate}

-- The parts of an image, of which there are no more octets than the limit.
record Shape (count : ℕ) (p : Parts) (t : List ℕ) : Type 0 where
  some_message : 1 ≤ count
  few : count ≤ 64
  slots : ℕ
  enough : 4 ≤ slots
  words : length p.offsets ≡ slots * 4
  whole : length t ≡ count * 32 + length p.meta + length p.offsets + length p.strings
  fits : 64 + length t ≤ limit

module _ (count : ℕ) (p : Parts) (t : List ℕ) where
  abbrev stamped : List ℕ
  stamped = wi_set_crc32c (header count p ++ t)

  stamped-length : length stamped ≡ 64 + length t
  stamped-length =
      length-set_crc32c (header count p ++ t)
      ∙ length-append (header count p) t
      ∙ ap (λ (n : ℕ). n + length t) (header-length count p t)

  reads :
      (i y x : ℕ)
      → i + 3 < 60
      → u32_at (header count p ++ t) i ≡ u32 y
      → y ≡ x
      → x < 2 ^ 32
      → u32_at stamped i ≡ x
  reads i y x h e k l = u32_at-set_crc32c (header count p ++ t) i h ∙ e ∙ omega arith

  fixed : (i x : ℕ) → i + 3 < 60 → u32_at (header count p ++ t) i ≡ x → u32_at stamped i ≡ x
  fixed i x h e = u32_at-set_crc32c (header count p ++ t) i h ∙ e

  byte : (i x : ℕ) → i < 60 → get_or (header count p ++ t) i 0 ≡ x → get_or stamped i 0 ≡ x
  byte i x h e = get_or-set_crc32c (header count p ++ t) i h ∙ e

  -- Constants of the header.
  constants :
      (u32_at (header count p ++ t) 12 ≡ 0x8000_0000)
      × (u32_at (header count p ++ t) 20 ≡ 32)
      × (u32_at (header count p ++ t) 24 ≡ 64)
      × (u32_at (header count p ++ t) 40 ≡ 4)
  unfolding header put32 u32_at
  constants = (refl, refl, refl, refl)

  bytes :
      (get_or (header count p ++ t) 0 0 ≡ b'W')
      × (get_or (header count p ++ t) 1 0 ≡ b'I')
      × (get_or (header count p ++ t) 2 0 ≡ 0)
      × (get_or (header count p ++ t) 3 0 ≡ 0)
      × (get_or (header count p ++ t) 4 0 ≡ 4)
      × (get_or (header count p ++ t) 5 0 ≡ 0)
      × (get_or (header count p ++ t) 6 0 ≡ 64)
      × (get_or (header count p ++ t) 7 0 ≡ 0)
  unfolding header put32
  bytes = (refl, refl, refl, refl, refl, refl, refl, refl)

  stamped-header_valid : Shape count p t → header_valid stamped ≡ true
  stamped-header_valid s =
      let whole = s.whole in
      let fits = s.fits in
      let few = s.few in
      let (flag, entry, begin, width) = constants in
      let (b₀, b₁, b₂, b₃, b₄, b₅, b₆, b₇) = bytes in
      header_valid-holds stamped (64 + length t) count (omega arith) s.some_message few
        stamped-length (byte 0 _ (omega arith) b₀) (byte 1 _ (omega arith) b₁)
        (byte 2 _ (omega arith) b₂) (byte 3 _ (omega arith) b₃) (byte 4 _ (omega arith) b₄)
        (byte 5 _ (omega arith) b₅) (byte 6 _ (omega arith) b₆) (byte 7 _ (omega arith) b₇)
        (reads 8 _ _ (omega arith) (size_at count p t) (omega arith) (omega arith))
        (fixed 12 _ (omega arith) flag)
        (reads 16 _ _ (omega arith) (count_at count p t) refl (omega arith))
        (fixed 20 _ (omega arith) entry) (fixed 24 _ (omega arith) begin)
        (fixed 40 _ (omega arith) width)

  stamped-sections_valid : Shape count p t → sections_valid stamped ≡ true
  stamped-sections_valid s =
      let whole = s.whole in
      let fits = s.fits in
      let few = s.few in
      let words = s.words in
      sections_valid-holds stamped (64 + length t) count (length p.meta) s.slots (length p.strings)
        (omega arith) s.enough stamped-length
        (reads 16 _ _ (omega arith) (count_at count p t) refl (omega arith))
        (reads 28 _ _ (omega arith) (meta_at count p t) refl (omega arith))
        (reads 32 _ _ (omega arith) (meta_size_at count p t) refl (omega arith))
        (reads 36 _ _ (omega arith) (offsets_at count p t) refl (omega arith))
        (reads 44 _ _ (omega arith) (slots_at count p t) refl (omega arith))
        (reads 48 _ _ (omega arith) (slot_count_at count p t) (omega arith) (omega arith))
        (reads 52 _ _ (omega arith) (strings_at count p t) (omega arith) (omega arith))
        (reads 56 _ _ (omega arith) (string_size_at count p t) refl (omega arith))

-- The octets behind the header, from the steps that append them.
assembled :
    (count : ℕ) (p : Parts) (rows a b c d e : List ℕ)
    → 1 ≤ count
    → count ≤ 64
    → Grows 4 no_parts p
    → a ≡ header count p
    → b ≡ a ++ rows
    → length rows ≡ count * 32
    → c ≡ b ++ p.meta
    → d ≡ c ++ p.offsets
    → (e ≡ d ++ p.strings) × (length e ≤ limit)
    → (t : List ℕ) × (e ≡ header count p ++ t) × Shape count p t
assembled count p rows a b c d e some_message few (k, enough, words) f g size h i (j, fits) =
    let t = rows ++ (p.meta ++ (p.offsets ++ p.strings)) in
    let split : e ≡ header count p ++ t = together in
    let whole =
      length-append rows (p.meta ++ (p.offsets ++ p.strings))
      ∙ ap (λ (n : ℕ). length rows + n)
          (length-append p.meta (p.offsets ++ p.strings)
            ∙ ap (λ (n : ℕ). length p.meta + n) (length-append p.offsets p.strings)) in
    let all = ap length split ∙ length-append (header count p) t in
    let head = header-length count p t in
    (
      t,
      split,
      record {
        some_message = some_message;
        few = few;
        slots = k;
        enough = enough;
        words = omega arith;
        whole = omega arith;
        fits = omega arith;
      },
    )
  where
    together : e ≡ header count p ++ (rows ++ (p.meta ++ (p.offsets ++ p.strings)))
    together =
        rw (j, i, h, g, f)
          (append_assoc (((header count p ++ rows) ++ p.meta)) p.offsets p.strings
            ∙ append_assoc (header count p ++ rows) p.meta (p.offsets ++ p.strings)
            ∙ append_assoc (header count p) rows (p.meta ++ (p.offsets ++ p.strings)))

image_of-header_valid :
    (protocol : Option Value) (messages : List Value) (image : List ℕ)
    → 1 ≤ length messages
    → length messages ≤ 64
    → image_of protocol messages ≡ ok image
    → (header_valid image ≡ true) × (sections_valid image ≡ true)
unfolding image_of
image_of-header_valid protocol messages image some_message few h =
    let (p₀, e, h₁) = bind-ok (add_properties no_parts protocol protocol_properties) _ _ h in
    let ((places, p), e₁, h₂) = bind-ok (add_messages messages 0 p₀ messages) _ _ h₁ in
    let (image₁, e₂, h₃) = bind-ok (append [] (header (length messages) p)) _ _ h₂ in
    let (image₂, e₃, h₄) = bind-ok (add_rows (length messages) p image₁ messages places) _ _ h₃ in
    let (image₃, e₄, h₅) = bind-ok (append image₂ p.meta) _ _ h₄ in
    let (image₄, e₅, h₆) = bind-ok (append image₃ p.offsets) _ _ h₅ in
    let (image₅, e₆, h₇) = bind-ok (append image₄ p.strings) _ _ h₆ in
    let same = ok_injective (wi_set_crc32c image₅) image h₇ in
    let (grown, size) = add_messages-Grows messages 0 p₀ p messages places e₁ in
    let (rows, joined, long) =
      add_rows-length (length messages) p image₁ image₂ messages places size e₃ in
    passes p rows image₁ image₂ image₃ image₄ image₅
      (from_start p₀ p (add_properties-Grows no_parts p₀ protocol protocol_properties e) grown)
      (append-ok [] (header (length messages) p) image₁ e₂) joined long
      (append-ok image₂ p.meta image₃ e₄) (append-ok image₃ p.offsets image₄ e₅)
      (append-ok image₄ p.strings image₅ e₆) (ok_injective (wi_set_crc32c image₅) image h₇)
  where
    from_start : (q r : Parts) → Grows 4 no_parts q → Grows 0 q r → Grows 4 no_parts r
    from_start q r (j, l, m) (k, n, o) = (j + k, omega arith, omega arith)

    passes :
        (p : Parts) (rows a b c d e : List ℕ)
        → Grows 4 no_parts p
        → (a ≡ header (length messages) p) × (length a ≤ limit)
        → b ≡ a ++ rows
        → length rows ≡ length messages * 32
        → (c ≡ b ++ p.meta) × (length c ≤ limit)
        → (d ≡ c ++ p.offsets) × (length d ≤ limit)
        → (e ≡ d ++ p.strings) × (length e ≤ limit)
        → wi_set_crc32c e ≡ image
        → (header_valid image ≡ true) × (sections_valid image ≡ true)
    passes p rows a b c d e grown (f, f') g size (h, h') (i, i') j same =
        let (t, split, shape) =
          assembled (length messages) p rows a b c d e some_message few grown f g size h i j in
        rw (← same, split)
          (
            stamped-header_valid (length messages) p t shape,
            stamped-sections_valid (length messages) p t shape,
          )

-- Whatever image records.c gives for a protocol passes the tests of the loader on its header: the
-- fixed bytes, the size of the file, the number of messages, and the bounds of the sections, which
-- follow each other without a gap up to the end of the file.
pub records_generate-header_valid :
    (source : Option Value) (g : Generated)
    → records_generate source ≡ ok g
    → (header_valid g.binary ≡ true) × (sections_valid g.binary ≡ true)
unfolding records_generate
records_generate-header_valid source g h =
    let protocol = get source (codes "protocol") in
    let (messages, e, h₁) = bind-ok (validate protocol) _ _ h in
    let (image, e₁, h₂) = bind-ok (image_of protocol messages) _ _ h₁ in
    let (name, e₂, h₃) = bind-ok (string (get protocol (codes "name")) true) _ _ h₂ in
    let (text, e₃, h₄) = bind-ok (header_text (c_token name) image messages []) _ _ h₃ in
    let same = ok_injective (record { header = text; binary = image }) g h₄ in
    let (some_message, few, all) = validate-messages protocol messages e in
    rw (← same) (image_of-header_valid protocol messages image some_message few e₁)
