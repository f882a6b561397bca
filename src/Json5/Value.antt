-- ===== src/Json5/Value.antt =====
-- compiler/json5.c: values, and the parse of a whole text. The calls nest as deep as the text's
-- brackets and run on fuel: `none` says that it ran out.
use wire_format.Base.{
  ℕ, zero, suc, ◌+◌, Bool, true, false, not, ◌&&◌, ◌||◌, List, [], ◌∷◌, ◌==◌, length, drop,
  if◌then◌else◌, Option, none, some,
}
use wire_format.Json5.Utf8.{valid, bad_offset, valid_utf8}
use wire_format.Json5.Scan.{
  Problem, expected_value, expected_in_array, expected_colon, expected_in_object, text_behind_value,
  not_utf8, Failure, Parser, fail, failed, at_end, first, advance, take_while, is_space, skip_space,
}
use wire_format.Json5.Strings.{string_bytes, identifier, identifier_continue, text_to}

-- `json5_value_t` with its line and column, and the members of an object with theirs.
pub data Kind : Type 0 where
  null_kind : Kind
  boolean_kind : Bool → Kind
  number_kind string_kind : List ℕ → Kind

mutual
  pub data Value : Type 0 where
    scalar : ℕ → ℕ → Kind → Value
    array : ℕ → ℕ → Items → Value
    object : ℕ → ℕ → Members → Value

  pub data Items : Type 0 where
    no_items : Items
    item : Value → Items → Items

  pub data Members : Type 0 where
    no_members : Members
    member : List ℕ → ℕ → ℕ → Value → Members → Members

-- What a parse function gives: a value or NULL, with the state; `none` where the fuel ran out.
abbrev pub Parsed {ℓ} : Type ℓ → Type ℓ
Parsed A = Option (Option A × Parser)

abbrev pub parsed {ℓ} : {A : Type ℓ} → A → Parser → Parsed A
parsed a p = some (some a, p)

abbrev pub null {ℓ} : {A : Type ℓ} → Parser → Parsed A
null p = some (none, p)

-- Goes on where there is a value; a NULL is passed on.
unfoldable pub and_then {ℓ κ} :
    {A : Type ℓ} {B : Type κ} → Parsed A → (A → Parser → Parsed B) → Parsed B
and_then none f = none
and_then (some (none, p)) f = null p
and_then (some (some a, p)) f = f a p

unfoldable pub is_delimiter : List ℕ → Bool
is_delimiter s =
    let c = first s in c == 0 || is_space c || c == b',' || c == b']' || c == b'}' || c == b'/'

abbrev pub in_number : List ℕ → Bool
in_number s = not (is_delimiter s)

unfoldable pub parse_number : ℕ → ℕ → Parser → Parsed Value
parse_number line column p =
    let q = take_while in_number p.rest p in
    if q.offset == p.offset
    then null (fail q expected_value)
    else parsed (scalar line column (number_kind (text_to p q))) q

-- `memcmp` with a word, whose characters `s` may start with.
unfoldable pub starts_with : List ℕ → List ℕ → Bool
starts_with [] s = true
starts_with (c ∷ word) [] = false
starts_with (c ∷ word) (d ∷ s) = c == d && starts_with word s

unfoldable pub matches_word : List ℕ → List ℕ → Bool
matches_word word s = starts_with word s && not (identifier_continue (first (drop (length word) s)))

-- `n` times `take`
unfoldable pub advance_by : ℕ → Parser → Parser
advance_by zero p = p
advance_by (suc n) p = advance_by n (advance p)

abbrev pub null_word : List ℕ
null_word = b'n' ∷ b'u' ∷ b'l' ∷ b'l' ∷ []

abbrev pub true_word : List ℕ
true_word = b't' ∷ b'r' ∷ b'u' ∷ b'e' ∷ []

abbrev pub false_word : List ℕ
false_word = b'f' ∷ b'a' ∷ b'l' ∷ b's' ∷ b'e' ∷ []

-- The words, and else a number.
unfoldable pub parse_word : ℕ → ℕ → Parser → Parsed Value
parse_word line column p =
    if matches_word null_word p.rest
    then parsed (scalar line column null_kind) (advance_by 4 p)
    else if matches_word true_word p.rest
    then parsed (scalar line column (boolean_kind true)) (advance_by 4 p)
    else if matches_word false_word p.rest
    then parsed (scalar line column (boolean_kind false)) (advance_by 5 p)
    else if at_end p.rest
    then null (fail p expected_value)
    else parse_number line column p

abbrev pub is_quote : ℕ → Bool
is_quote c = c == 0x27 || c == b'"'

unfoldable pub parse_string : ℕ → ℕ → ℕ → Parser → Parsed Value
parse_string fuel line column p =
    and_then (string_bytes fuel p) λ text q. parsed (scalar line column (string_kind text)) q

-- The name of a property.
unfoldable pub parse_name : ℕ → Parser → Parsed (List ℕ)
parse_name fuel p = if is_quote (first p.rest) then string_bytes fuel p else some (identifier p)

-- A parse with its closing bracket behind it.
abbrev pub closed {ℓ} : {A : Type ℓ} → A → Parser → Parsed A
closed a p = parsed a (advance p)

-- Behind an item or a member: the closing bracket, or a comma and the rest, which may be empty.
unfoldable pub separated {ℓ} :
    {A : Type ℓ} → ℕ → Problem → A → Parser → (Parser → Parsed A) → Parsed A
separated close problem nothing p more =
    let q = skip_space p in
    let r = skip_space (advance q) in
    if first q.rest == close
    then closed nothing q
    else if not (first q.rest == b',')
    then null (fail (advance q) problem)
    else if first r.rest == close
    then closed nothing r
    else more r

unfoldable pub parse_colon : Parser → Parsed (Unit {0})
parse_colon p =
    if first p.rest == b':' then parsed tt (advance p) else null (fail (advance p) expected_colon)

unfoldable mutual
  pub parse_value : ℕ → Parser → Parsed Value
  parse_value zero p = none
  parse_value (suc fuel) p =
      let q = skip_space p in
      elim (failed q) [
        | true ↦ null q
        | false ↦ elim (first q.rest == b'{') [
          | true ↦
              and_then (open_object fuel (skip_space (advance q)))
                λ ms r. parsed (object q.line q.column ms) r
          | false ↦ elim (first q.rest == b'[') [
            | true ↦
                and_then (open_array fuel (skip_space (advance q)))
                  λ xs r. parsed (array q.line q.column xs) r
            | false ↦
                if is_quote (first q.rest)
                then parse_string fuel q.line q.column q
                else parse_word q.line q.column q
          ]
        ]
      ]

  -- Behind the opening bracket.
  pub open_array : ℕ → Parser → Parsed Items
  open_array zero p = none
  open_array (suc fuel) p = elim (first p.rest == b']') [
    | true ↦ closed no_items p
    | false ↦ parse_items fuel p
  ]

  pub parse_items : ℕ → Parser → Parsed Items
  parse_items zero p = none
  parse_items (suc fuel) p = and_then (parse_value fuel p) λ x q.
      and_then (separated b']' expected_in_array no_items q (parse_items fuel))
        λ xs r. parsed (item x xs) r

  pub open_object : ℕ → Parser → Parsed Members
  open_object zero p = none
  open_object (suc fuel) p = elim (first p.rest == b'}') [
    | true ↦ closed no_members p
    | false ↦ parse_members fuel p
  ]

  pub parse_members : ℕ → Parser → Parsed Members
  parse_members zero p = none
  parse_members (suc fuel) p = and_then (parse_name fuel p) λ name q.
      and_then (parse_colon (skip_space q)) λ u r. and_then (parse_value fuel r) λ x s.
        and_then (separated b'}' expected_in_object no_members s (parse_members fuel))
          λ ms t. parsed (member name p.line p.column x ms) t

-- The error's place for a text that is not UTF-8: `n` bytes are counted.
unfoldable pub count_lines : ℕ → List ℕ → ℕ → ℕ → ℕ × ℕ
count_lines zero s line column = (line, column)
count_lines (suc n) [] line column = (line, column)
count_lines (suc n) (c ∷ s) line column =
    let newline = c == b'\n' in
    count_lines n s (if newline then line + 1 else line) (if newline then 1 else column + 1)

abbrev pub utf8_failure : ℕ × ℕ → Failure
utf8_failure (line, column) = record { line = line; column = column; problem = not_utf8 }

abbrev pub starting : List ℕ → Parser
starting text = record { rest = text; offset = 0; line = 1; column = 1; failure = none }

-- A byte order mark is passed over.
unfoldable pub behind_mark : List ℕ → Parser
behind_mark text =
    if starts_with (0xef ∷ 0xbb ∷ 0xbf ∷ []) text
    then record (starting text) { rest = drop 3 text; offset = 3 }
    else starting text

-- The value with the text behind it, which may be space only.
unfoldable pub only_value : Value → Parser → Parsed Value
only_value x p =
    let q = skip_space p in if at_end q.rest then parsed x q else null (fail q text_behind_value)

-- `json5_parse`: the value or NULL, and `error` where it was set.
unfoldable pub json5_parse : ℕ → List ℕ → Option (Option Value × Option Failure)
json5_parse fuel text = elim (valid_utf8 text) [
  | none ↦ none
  | some (bad_offset bad) ↦ some (none, some (utf8_failure (count_lines bad text 1 1)))
  | some valid ↦ elim (and_then (parse_value fuel (behind_mark text)) only_value) [
    | none ↦ none
    | some (x, p) ↦ some (x, p.failure)
  ]
]
