-- ===== src/WireInfo/Program.antt =====
-- wire_info.c: `program_valid`, which lets a message's program through to the interpreter. A
-- program is the bytes before the terminating 0, and a parser gives the text that it leaves, or
-- `none` where it refuses.
use wire_format.Base.{
  ℕ, zero, suc, ◌+◌, ◌-◌, ◌*◌, ◌/◌, Bool, true, false, not, ◌&&◌, ◌||◌, List, [], ◌∷◌, ltb, leb,
  ◌==◌, length, if◌then◌else◌, u64_max, Option, none, some,
}

abbrev pub is_digit : ℕ → Bool
is_digit c = leb b'0' c && leb c b'9'

abbrev pub name_char : ℕ → Bool
name_char c =
    (leb b'a' c && leb c b'z')
    || (leb b'A' c && leb c b'Z')
    || is_digit c
    || c == b'-'
    || c == b'_'
    || c == b'.'

-- The loop of `identifier` behind the opening brace, with `n` characters so far.
unfoldable pub name_loop : ℕ → List ℕ → Option (List ℕ)
name_loop n [] = none
name_loop n (c ∷ s) =
    let rest = name_loop (n + 1) s in
    if c == b'}'
    then if n == 0 then none else some s
    else if not (name_char c)
    then none
    else if leb 192 (n + 1)
    then none
    else rest

unfoldable pub identifier : List ℕ → Option (List ℕ)
identifier [] = none
identifier (c ∷ s) = if c == b'{' then name_loop 0 s else none

-- The digits of a literal, which fits 64 bits, and the closing brace.
unfoldable pub literal_loop : ℕ → List ℕ → Option (List ℕ)
literal_loop n [] = none
literal_loop n (c ∷ s) =
    let d = c - b'0' in
    let rest = literal_loop (n * 10 + d) s in
    if is_digit c
    then if ltb ((u64_max - d) / 10) n then none else rest
    else if c == b'}'
    then some s
    else none

unfoldable pub literal : List ℕ → Option (List ℕ)
literal [] = none
literal (c ∷ s) = if is_digit c then literal_loop 0 (c ∷ s) else none

-- %J behind its opening bracket: at most two digits, which name an earlier message, and the list.
unfoldable pub rows_loop : ℕ → ℕ → ℕ → List ℕ → Option (List ℕ)
rows_loop rank n d [] = none
rows_loop rank n d (c ∷ s) =
    let rest = rows_loop rank (n * 10 + (c - b'0')) (d + 1) s in
    if is_digit c
    then if ltb 2 (d + 1) then none else rest
    else if d == 0 || leb rank n || not (c == b']')
    then none
    else identifier s

unfoldable pub rows : ℕ → List ℕ → Option (List ℕ)
rows rank [] = none
rows rank (c ∷ s) = if c == b'[' then rows_loop rank 0 0 s else none

-- `strchr`, for a character other than 0.
abbrev pub among : ℕ → List ℕ → Bool
among c [] = false
among c (x ∷ xs) = c == x || among c xs

abbrev pub one_name : List ℕ
one_name = b'Z' ∷ b'K' ∷ b'h' ∷ []

abbrev pub two_names : List ℕ
two_names = b'I' ∷ b'U' ∷ b'C' ∷ []

abbrev pub no_name : List ℕ
no_name =
    b'a' ∷ b'f' ∷ b'F' ∷ b'd' ∷ b'b' ∷ b's' ∷ b'T' ∷ b'r' ∷ b'p' ∷ b'o' ∷ b'n' ∷ b'k' ∷ b'?' ∷ b'!'
    ∷ b'+' ∷ b'-' ∷ b'*' ∷ b'/' ∷ b'm' ∷ b'&' ∷ b'|' ∷ b'^' ∷ b'[' ∷ b']' ∷ b'=' ∷ b'~' ∷ b'<'
    ∷ b'l' ∷ b'>' ∷ b'g' ∷ b'A' ∷ b'O' ∷ []

-- %u behind its letter.
unfoldable pub extension : List ℕ → Option (List ℕ)
extension [] = none
extension (op ∷ s) =
    if among op one_name
    then identifier s
    else if among op two_names
    then elim (identifier s) [ none ↦ none | some r ↦ identifier r ]
    else if among op no_name
    then some s
    else none

abbrev pub named : List ℕ
named = b'g' ∷ b'P' ∷ b'z' ∷ b'k' ∷ b'v' ∷ b'V' ∷ b'N' ∷ b'R' ∷ []

abbrev pub bare : List ℕ
bare = b'i' ∷ b'j' ∷ b'd' ∷ b'D' ∷ []

-- The operands of an operator outside of the conditionals.
unfoldable pub operands : ℕ → ℕ → List ℕ → Option (List ℕ)
operands rank op s =
    if op == b'{'
    then literal s
    else if among op named
    then identifier s
    else if op == b'J'
    then rows rank s
    else if op == b'u'
    then extension s
    else if among op bare
    then some s
    else none

abbrev pub branching : List ℕ
branching = b'?' ∷ b't' ∷ b'e' ∷ b';' ∷ []

-- `branch`, the innermost first, behind an operator of a conditional.
unfoldable pub branch_to : ℕ → List ℕ → Option (List ℕ)
branch_to op [] = if op == b'?' then some (0 ∷ []) else none
branch_to op (x ∷ b) =
    if op == b'?'
    then if length (x ∷ b) == 64 then none else some (0 ∷ x ∷ b)
    else if op == b't'
    then if x == 0 then some (1 ∷ b) else none
    else if op == b'e'
    then if x == 1 then some (2 ∷ b) else none
    else if x == 0
    then none
    else some b

-- The switch: the operator and its operands.
unfoldable pub instruction : ℕ → List ℕ → ℕ → List ℕ → Option (List ℕ × List ℕ)
instruction rank b op s =
    if among op branching
    then elim (branch_to op b) [ none ↦ none | some b' ↦ some (b', s) ]
    else elim (operands rank op s) [ none ↦ none | some r ↦ some (b, r) ]

-- The loop, on fuel; the last test is that all conditionals are closed.
unfoldable pub program_loop : ℕ → ℕ → List ℕ → List ℕ → Option Bool
program_loop zero rank b s = none
program_loop (suc fuel) rank [] [] = some true
program_loop (suc fuel) rank (x ∷ b) [] = some false
program_loop (suc fuel) rank b (c ∷ []) = some false
program_loop (suc fuel) rank b (c ∷ op ∷ s) = elim (c == b'%') [
  | false ↦ some false
  | true ↦ elim (instruction rank b op s) [
    | none ↦ some false
    | some (b', r) ↦ program_loop fuel rank b' r
  ]
]

unfoldable pub program_valid : Option (List ℕ) → ℕ → Option Bool
program_valid none rank = some false
program_valid (some s) rank = program_loop (suc (length s)) rank [] s
