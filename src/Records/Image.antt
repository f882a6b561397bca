-- ===== src/Records/Image.antt =====
-- compiler/records.c: the compiled image of a protocol.
use wire_format.Base.{
  ℕ, ◌+◌, ◌*◌, ◌/◌, ◌%◌, ◌^◌, true, false, List, [], ◌∷◌, ◌++◌, length, replicate, u32,
  if◌then◌else◌, ◌==◌, Option, none, some, codes,
}
use wire_format.Json5.Value.{Value}
use wire_format.Compiler.Types.{Text, Result, ok, ◌>>=◌}
use wire_format.Records.Json.{get, array_of, c_text, string, kind}
use wire_format.Records.Scopes.{Compiler, message_id}
use wire_format.Records.Emit.{append}
use wire_format.Records.Fields.{message_program}
use wire_format.Crc.{wi_set_crc32c}

-- `put32`: four octets, the low one first.
unfoldable pub put32 : ℕ → List ℕ
put32 n = n % 256 ∷ n / 2 ^ 8 % 256 ∷ n / 2 ^ 16 % 256 ∷ n / 2 ^ 24 % 256 ∷ []

unfoldable pub word : List ℕ → ℕ → Result (List ℕ)
word b n = append b (put32 n)

-- The growing parts of the image.
pub record Parts : Type 0 where
  pub strings : List ℕ
  pub offsets : List ℕ
  pub meta : List ℕ

unfoldable pub add_string : Parts → Option Text → Result Parts
add_string p none = do offsets ← word p.offsets 0xffff_ffff; ok (record p { offsets = offsets })
add_string p (some s) = do
  offsets ← word p.offsets (u32 (length p.strings))
  strings ← append p.strings (c_text s ++ (0 ∷ []))
  ok (record p { offsets = offsets; strings = strings })

-- A string that may be left out.
unfoldable pub add_optional : Parts → Option Value → Result Parts
add_optional p none = add_string p none
add_optional p (some v) = string (some v) false >>= λ s. add_string p (some s)

unfoldable pub add_properties : Parts → Option Value → List Text → Result Parts
add_properties p protocol [] = ok p
add_properties p protocol (name ∷ later) = do
  p₁ ← add_optional p (get protocol name)
  add_properties p₁ protocol later

-- The type of a field and its child message, `none` for -1.
unfoldable pub child_word : List Value → Value → ℕ → Result ℕ
child_word messages f t =
    if t == 4
    then (do
      name ← string (get (some f) (codes "message")) true
      i ← message_id messages name
      ok (elim i [ none ↦ 0xffff_ffff | some j ↦ j ]))
    else ok 0xffff_ffff

unfoldable pub add_fields : List Value → Parts → List Value → Result Parts
add_fields messages p [] = ok p
add_fields messages p (f ∷ later) = do
  t ← kind f
  name ← string (get (some f) (codes "name")) true
  p₁ ← add_string p (some name)
  meta ← word p₁.meta (u32 t)
  child ← child_word messages f t
  meta' ← word meta child
  add_fields messages (record p₁ { meta = meta' }) later

abbrev pub fields_of : Value → List Value
fields_of m = elim (array_of (get (some m) (codes "fields"))) [ none ↦ [] | some fields ↦ fields ]

-- One message: its name and description, its two programs, and its fields.
unfoldable pub add_message : Compiler → Parts → Value → Result Parts
add_message c p m = do
  name ← string (get (some m) (codes "name")) true
  p₁ ← add_string p (some name)
  p₂ ← add_optional p₁ (get (some m) (codes "description"))
  encode ← message_program c false (fields_of m)
  p₃ ← add_string p₂ (some encode)
  decode ← message_program c true (fields_of m)
  p₄ ← add_string p₃ (some decode)
  add_fields c.messages p₄ (fields_of m)

-- The loop over the messages from `i` on; gives where each begins in the offsets and in the fields.
unfoldable pub add_messages : List Value → ℕ → Parts → List Value → Result (List (ℕ × ℕ) × Parts)
add_messages messages i p [] = ok ([], p)
add_messages messages i p (m ∷ later) = do
  p₁ ← add_message (record { messages = messages; current = i }) p m
  (places, p₂) ← add_messages messages (i + 1) p₁ later
  ok ((u32 (length p.offsets), u32 (length p.meta)) ∷ places, p₂)

abbrev pub meta_base : ℕ → ℕ
meta_base count = 64 + count * 32

abbrev pub offset_base : ℕ → Parts → ℕ
offset_base count p = meta_base count + length p.meta

abbrev pub string_base : ℕ → Parts → ℕ
string_base count p = offset_base count p + length p.offsets

unfoldable pub header : ℕ → Parts → List ℕ
header count p =
    (b'W' ∷ b'I' ∷ 0 ∷ 0 ∷ 4 ∷ 0 ∷ 64 ∷ 0 ∷ [])
    ++ (put32 (u32 (string_base count p + length p.strings))
        ++ (put32 0x8000_0000
            ++ (put32 (u32 count)
                ++ (put32 32
                    ++ (put32 64
                        ++ (put32 (u32 (meta_base count))
                            ++ (put32 (u32 (length p.meta))
                                ++ (put32 (u32 (offset_base count p))
                                    ++ (put32 4
                                        ++ (put32 (u32 (offset_base count p))
                                            ++ (put32 (u32 (length p.offsets / 4))
                                                ++ (put32 (u32 (string_base count p))
                                                    ++ (put32 (u32 (length p.strings))
                                                        ++ replicate 4 0)))))))))))))

unfoldable pub row : ℕ → Parts → ℕ → ℕ × ℕ → List ℕ
row count p n (section, metadata) =
    put32 (u32 (u32 (offset_base count p) + section))
    ++ (put32 (u32 (n + 4))
        ++ (put32 0
            ++ (put32 (u32 n)
                ++ (put32 0
                    ++ (put32 0 ++ (put32 2 ++ put32 (u32 (u32 (meta_base count) + metadata))))))))

unfoldable pub add_rows : ℕ → Parts → List ℕ → List Value → List (ℕ × ℕ) → Result (List ℕ)
add_rows count p image [] places = ok image
add_rows count p image (m ∷ later) [] = ok image
add_rows count p image (m ∷ later) (place ∷ places) = do
  image' ← append image (row count p (length (fields_of m)) place)
  add_rows count p image' later places

abbrev pub no_parts : Parts
no_parts = record { strings = []; offsets = []; meta = [] }

abbrev pub protocol_properties : List Text
protocol_properties = codes "name" ∷ codes "description" ∷ codes "standard" ∷ codes "reference" ∷ []

-- The image of the messages that `validate` gives.
unfoldable pub image_of : Option Value → List Value → Result (List ℕ)
image_of protocol messages = do
  p₀ ← add_properties no_parts protocol protocol_properties
  (places, p) ← add_messages messages 0 p₀ messages
  let count = length messages
  image₁ ← append [] (header count p)
  image₂ ← add_rows count p image₁ messages places
  image₃ ← append image₂ p.meta
  image₄ ← append image₃ p.offsets
  image₅ ← append image₄ p.strings
  ok (wi_set_crc32c image₅)
