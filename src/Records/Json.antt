-- ===== src/Records/Json.antt =====
-- compiler/records.c: the values of the source text as the compiler reads them.
use wire_format.Base.{
  ℕ, ◌+◌, ◌*◌, Bool, true, false, not, ◌&&◌, ◌||◌, List, [], ◌∷◌, leb, ltb, ◌==◌, length, drop,
  if◌then◌else◌, u64_max, Option, none, some, codes,
}
use wire_format.Json5.Strings.{hex_value}
use wire_format.Json5.Value.{
  Value, scalar, array, object, Items, no_items, item, Members, no_members, member, number_kind,
  string_kind, boolean_kind, starts_with,
}
use wire_format.Compiler.Types.{
  Text, Location, Result, ok, err, ◌>>=◌, ◌>>◌, refuse, RecordsProblem, of_records, not_text,
  identifier_too_long, not_identifier, not_number, not_u64, unknown_type, not_boolean,
}
use wire_format.Compiler.Util.{same_text}

-- The place of an error: that of the value, or the start of the text.
abbrev pub place : Option Value → Location
place none = record { line = 1; column = 1 }
place (some (scalar l c k)) = record { line = l; column = c }
place (some (array l c xs)) = record { line = l; column = c }
place (some (object l c ms)) = record { line = l; column = c }

abbrev pub fail {ℓ} : {A : Type ℓ} → Option Value → RecordsProblem → Result A
fail v problem = err (place v) (of_records problem)

abbrev pub reject : Bool → Option Value → RecordsProblem → Result (Unit {0})
reject test v problem = refuse test (place v) (of_records problem)

-- The characters before the first 0, which the functions of the C library see.
unfoldable pub c_text : Text → Text
c_text [] = []
c_text (c ∷ s) = let rest = c_text s in if c == 0 then [] else c ∷ rest

abbrev pub items : Items → List Value
items no_items = []
items (item x xs) = x ∷ items xs

abbrev pub array_of : Option Value → Option (List Value)
array_of (some (array l c xs)) = some (items xs)
array_of _ = none

unfoldable pub get_member : Members → Text → Option Value
get_member no_members name = none
get_member (member n l c x ms) name =
    let rest = get_member ms name in if same_text (c_text n) name then some x else rest

abbrev pub get : Option Value → Text → Option Value
get (some (object l c ms)) name = get_member ms name
get _ name = none

abbrev pub is_given : Option Value → Bool
is_given none = false
is_given (some v) = true

abbrev pub string_of : Option Value → Option Text
string_of (some (scalar l c (string_kind s))) = some s
string_of _ = none

abbrev pub identifier_char : ℕ → Bool
identifier_char c =
    (leb b'a' c && leb c b'z')
    || (leb b'A' c && leb c b'Z')
    || (leb b'0' c && leb c b'9')
    || c == b'-'
    || c == b'_'
    || c == b'.'

unfoldable pub identifier_chars : Text → Bool
identifier_chars [] = true
identifier_chars (c ∷ s) = identifier_char c && identifier_chars s

-- What `string` asks of an identifier.
unfoldable pub check_identifier : Option Value → Text → Result (Unit {0})
check_identifier v s = do
  reject (leb 192 (length s)) v identifier_too_long
  reject (not (identifier_chars s)) v not_identifier

unfoldable pub string : Option Value → Bool → Result Text
string v identifier = elim (string_of v) [
  | none ↦ fail v not_text
  | some s ↦ do
    reject (length s == 0 || not (length (c_text s) == length s)) v not_text
    if identifier then check_identifier v s else ok tt
    ok s
]

abbrev pub number_of : Option Value → Option Text
number_of (some (scalar l c (number_kind s))) = some s
number_of _ = none

-- `strstr`
unfoldable pub contains : Text → Text → Bool
contains word [] = starts_with word []
contains word (c ∷ s) = starts_with word (c ∷ s) || contains word s

abbrev pub digit_in : ℕ → ℕ → Option ℕ
digit_in base c = elim (hex_value c) [ none ↦ none | some d ↦ if ltb d base then some d else none ]

-- The digits that `strtoull` takes, and what is left.
unfoldable pub digits_loop : ℕ → ℕ → Text → ℕ × Text
digits_loop base n [] = (n, [])
digits_loop base n (c ∷ s) = elim (digit_in base c) [
  | none ↦ (n, c ∷ s)
  | some d ↦ digits_loop base (n * base + d) s
]

abbrev pub starts_digit : ℕ → Text → Bool
starts_digit base [] = false
starts_digit base (c ∷ s) = elim (digit_in base c) [ none ↦ false | some d ↦ true ]

abbrev pub without_sign : Text → Text
without_sign s = if starts_with (codes "+") s then drop 1 s else s

-- The prefix 0x counts only before a digit.
abbrev pub without_prefix : ℕ → Text → Text
without_prefix base s =
    if base == 16
      && (starts_with (codes "0x") s || starts_with (codes "0X") s)
      && starts_digit 16 (drop 2 s)
    then drop 2 s
    else s

-- `strtoull` on a text that has no space and no minus in front: `none` where there is no digit.
unfoldable pub strtoull : ℕ → Text → Option (ℕ × Text)
strtoull base s =
    let t = without_prefix base (without_sign s) in
    if starts_digit base t then some (digits_loop base 0 t) else none

unfoldable pub number : Option Value → Result ℕ
number v = elim (number_of v) [
  | none ↦ fail v not_number
  | some s ↦ do
    reject (starts_with (codes "-") s) v not_number
    let base = if contains (codes "0x") s || contains (codes "0X") s then 16 else 10
    elim (strtoull base s) [
      | none ↦ fail v not_u64
      | some (n, rest) ↦ do reject (ltb u64_max n || not (length rest == 0)) v not_u64; ok n
    ]
]

-- The names in `types` from 1 on.
abbrev pub types : List Text
types =
    codes "uint"
    ∷ codes "bytes"
    ∷ codes "sdnv"
    ∷ codes "records"
    ∷ codes "parameter"
    ∷ codes "computed"
    ∷ codes "assert"
    ∷ codes "mark"
    ∷ codes "crc"
    ∷ codes "cbor-uint"
    ∷ codes "cbor-bytes"
    ∷ codes "cbor-text"
    ∷ codes "cbor-array"
    ∷ codes "decimal"
    ∷ codes "bcd"
    ∷ codes "terminated-uint"
    ∷ []

unfoldable pub index_of : ℕ → Text → List Text → Option ℕ
index_of i s [] = none
index_of i s (t ∷ ts) = let rest = index_of (i + 1) s ts in if same_text t s then some i else rest

unfoldable pub kind : Value → Result ℕ
kind f = do
  s ← string (get (some f) (codes "type")) true
  elim (index_of 1 s types) [ none ↦ fail (some f) unknown_type | some i ↦ ok i ]

unfoldable pub flag : Value → Text → Result Bool
flag f key = elim (get (some f) key) [
  | none ↦ ok false
  | some (scalar l c (boolean_kind b)) ↦ ok b
  | some v ↦ fail (some v) not_boolean
]
