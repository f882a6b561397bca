-- ===== src/Json5/Scan.antt =====
-- compiler/json5.c: the parser's state, its steps through the text, and the space and comments.
use wire_format.Base.{
  ℕ, zero, suc, ◌+◌, Bool, true, false, not, ◌&&◌, ◌||◌, List, [], ◌∷◌, leb, ◌==◌, length,
  if◌then◌else◌, Option, none, some,
}

-- The messages of `fail`.
pub data Problem : Type 0 where
  unterminated_comment : Problem
  expected_hex : ℕ → Problem
  newline_in_string unterminated_escape zero_before_digit : Problem
  bad_surrogate_pair unpaired_surrogate bad_codepoint unterminated_string : Problem
  expected_name expected_value : Problem
  expected_in_array expected_colon expected_in_object : Problem
  text_behind_value not_utf8 endless_space : Problem

-- `json5_error_t`
pub record Failure : Type 0 where
  pub line : ℕ
  pub column : ℕ
  pub problem : Problem

-- `parser_t`: `rest` is the text from `offset` on, and `failed` with `error` is `failure`.
pub record Parser : Type 0 where
  pub rest : List ℕ
  pub offset : ℕ
  pub line : ℕ
  pub column : ℕ
  pub failure : Option Failure

unfoldable pub fail : Parser → Problem → Parser
fail p problem = elim p.failure [
  | none ↦ record p {
    failure = some (record { line = p.line; column = p.column; problem = problem });
  }
  | some f ↦ p
]

abbrev pub failed : Parser → Bool
failed p = elim p.failure [ none ↦ false | some f ↦ true ]

abbrev pub at_end : List ℕ → Bool
at_end [] = true
at_end (c ∷ s) = false

-- `peek` and `peek_next`
abbrev pub first : List ℕ → ℕ
first [] = 0
first (c ∷ s) = c

abbrev pub second : List ℕ → ℕ
second [] = 0
second (c ∷ s) = first s

-- `take`: the state behind the character `c`, with `s` left.
abbrev pub step : ℕ → List ℕ → Parser → Parser
step c s p =
    let line = if c == b'\n' then p.line + 1 else p.line in
    let column = if c == b'\n' then 1 else p.column + 1 in
    record p { rest = s; offset = p.offset + 1; line = line; column = column }

unfoldable pub take_from : List ℕ → Parser → Parser
take_from [] p = p
take_from (c ∷ s) p = step c s p

unfoldable pub advance : Parser → Parser
advance p = take_from p.rest p

-- A while loop of `take`: `s` is `p.rest`, and `more` the test on it.
unfoldable pub take_while : (List ℕ → Bool) → List ℕ → Parser → Parser
take_while more [] p = p
take_while more (c ∷ s) p =
    let later = take_while more s (step c s p) in if more (c ∷ s) then later else p

-- `isspace` in the C locale
abbrev pub is_space : ℕ → Bool
is_space c = c == b' ' || (leb 0x09 c && leb c 0x0d)

abbrev pub blank : List ℕ → Bool
blank s = is_space (first s)

abbrev pub in_line : List ℕ → Bool
in_line s = not (first s == b'\n') && not (first s == b'\r')

abbrev pub in_block : List ℕ → Bool
in_block s = not (first s == b'*' && second s == b'/')

-- What a round of `skip_space` does: it returns, or goes on behind a comment.
pub data Round : Type 0 where
  stop : Parser → Round
  again : Parser → Round

unfoldable pub line_comment : Parser → Round
line_comment p = let q = advance (advance p) in again (take_while in_line q.rest q)

unfoldable pub block_end : Parser → Round
block_end p =
    if at_end p.rest then stop (fail p unterminated_comment) else again (advance (advance p))

unfoldable pub block_comment : Parser → Round
block_comment p = let q = advance (advance p) in block_end (take_while in_block q.rest q)

-- The round behind the blanks.
unfoldable pub comment : Parser → Round
comment p =
    if first p.rest == b'/' && second p.rest == b'/'
    then line_comment p
    else if first p.rest == b'/' && second p.rest == b'*'
    then block_comment p
    else stop p

-- The loop of `skip_space`; `none` says that the fuel ran out.
unfoldable pub skip_loop : ℕ → Parser → Option Parser
skip_loop zero p = none
skip_loop (suc fuel) p = elim (comment (take_while blank p.rest p)) [
  | stop q ↦ some q
  | again q ↦ skip_loop fuel q
]

-- A loop that does not end has no message in the code.
abbrev pub or_endless : Parser → Option Parser → Parser
or_endless p none = fail p endless_space
or_endless p (some q) = q

unfoldable pub skip_space : Parser → Parser
skip_space p = or_endless p (skip_loop (suc (length p.rest)) p)
