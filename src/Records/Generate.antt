-- ===== src/Records/Generate.antt =====
-- compiler/records.c: the C header of a protocol, `wfc_records_generate` and `wfc_records_check`.
use wire_format.Base.{
  ℕ, ◌+◌, true, List, [], ◌∷◌, ◌++◌, length, take, map, if◌then◌else◌, ◌==◌, Option, none, some,
  codes,
}
use wire_format.Json5.Value.{Value}
use wire_format.Compiler.Types.{Text, Result, ok, ◌>>=◌, Summary}
use wire_format.Records.Json.{get, array_of, string, kind}
use wire_format.Records.Emit.{Build, emit, using, ◌>=>◌, decimal}
use wire_format.Records.Validate.{validate, c_token_char}
use wire_format.Records.Image.{fields_of, image_of}
use wire_format.Crc.{wi_crc32c}

-- `c_token`: at most 191 characters.
unfoldable pub c_token : Text → Text
c_token s = map c_token_char (take 191 s)

abbrev pub name_of : Value → Result Text
name_of v = string (get (some v) (codes "name")) true

abbrev pub newline : Text
newline = 10 ∷ []

-- The definitions for one field.
unfoldable pub field_lines : Text → Text → ℕ → Value → Build
field_lines prefix message j f = using (kind f) (λ t. using (name_of f) (λ name.
    emit (
      codes "#define "
      ++ (prefix
          ++ (codes "_"
              ++ (message
                  ++ (codes "_ORDINAL_"
                      ++ (c_token name ++ (codes " " ++ (decimal j ++ (codes "u" ++ newline)))))))))
    >=> emit (
        codes "#define "
        ++ (prefix
            ++ (codes "_"
                ++ (message
                    ++ (codes "_TYPE_"
                        ++ (c_token name
                            ++ (codes " " ++ (decimal t ++ (codes "u" ++ newline)))))))))
    >=> (if t == 4
        then using (string (get (some f) (codes "message")) true) (λ child. emit (
            codes "#define "
            ++ (prefix
                ++ (codes "_"
                    ++ (message
                        ++ (codes "_CHILD_"
                            ++ (c_token name
                                ++ (codes " "
                                    ++ (prefix
                                        ++ (codes "_MESSAGE_"
                                            ++ (c_token child ++ newline)))))))))))
        else (λ b. ok b))))

unfoldable pub fields_lines : Text → Text → ℕ → List Value → Build
fields_lines prefix message j [] b = ok b
fields_lines prefix message j (f ∷ later) b =
    field_lines prefix message j f b >>= fields_lines prefix message (j + 1) later

unfoldable pub message_lines : Text → ℕ → Value → Build
message_lines prefix i m = using (name_of m) (λ name.
    emit (
      codes "#define "
      ++ (prefix
          ++ (codes "_MESSAGE_"
              ++ (c_token name ++ (codes " " ++ (decimal i ++ (codes "u" ++ newline)))))))
    >=> emit (
        codes "#define "
        ++ (prefix
            ++ (codes "_"
                ++ (c_token name
                    ++ (codes "_FIELD_COUNT "
                        ++ (decimal (length (fields_of m)) ++ (codes "u" ++ newline)))))))
    >=> fields_lines prefix (c_token name) 0 (fields_of m)
    >=> emit newline)

unfoldable pub messages_lines : Text → ℕ → List Value → Build
messages_lines prefix i [] b = ok b
messages_lines prefix i (m ∷ later) b =
    message_lines prefix i m b >>= messages_lines prefix (i + 1) later

abbrev pub number_line : Text → Text → ℕ → Build
number_line prefix what n =
    emit (
      codes "#define "
      ++ (prefix ++ (what ++ (codes " " ++ (decimal n ++ (codes "u" ++ newline))))))

unfoldable pub header_text : Text → List ℕ → List Value → Build
header_text prefix image messages =
    emit (
      codes "/* Generated by wfc. Do not edit. */"
      ++ (newline
          ++ (codes "#ifndef WF_GENERATED_"
              ++ (prefix
                  ++ (codes "_H"
                      ++ (newline
                          ++ (codes "#define WF_GENERATED_"
                              ++ (prefix ++ (codes "_H" ++ (newline ++ newline))))))))))
    >=> number_line prefix (codes "_WI_FORMAT_VERSION") 4
    >=> number_line prefix (codes "_WI_FILE_SIZE") (length image)
    >=> number_line prefix (codes "_WI_FLAGS") 0x8000_0000
    >=> number_line prefix (codes "_WI_CRC32C") (wi_crc32c image)
    >=> emit (
        codes "#define "
        ++ (prefix
            ++ (codes "_WI_MESSAGE_COUNT "
                ++ (decimal (length messages) ++ (codes "u" ++ (newline ++ newline))))))
    >=> messages_lines prefix 0 messages
    >=> emit (codes "#endif /* WF_GENERATED_" ++ (prefix ++ (codes "_H */" ++ newline)))

-- `wfc_generated_t`
pub record Generated : Type 0 where
  pub header : Text
  pub binary : List ℕ

unfoldable pub records_generate : Option Value → Result Generated
records_generate source = do
  let protocol = get source (codes "protocol")
  messages ← validate protocol
  image ← image_of protocol messages
  name ← string (get protocol (codes "name")) true
  text ← header_text (c_token name) image messages []
  ok (record { header = text; binary = image })

abbrev pub message_total : Option Value → ℕ
message_total protocol = elim (array_of (get protocol (codes "messages"))) [
  | none ↦ 0
  | some messages ↦ length messages
]

-- `wfc_records_check`: only the messages are counted.
unfoldable pub records_check : Option Value → Result Summary
records_check source = do
  generated ← records_generate source
  ok (record {
    messages = message_total (get source (codes "protocol"));
    vectors = 0;
    layout_octets = 0;
  })
