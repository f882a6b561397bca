-- ===== src/Records/Emit.antt =====
-- compiler/records.c: what is written to the program's text. A piece of the compiler takes the text
-- so far and gives it with its own part behind.
use wire_format.Base.{
  ℕ, zero, suc, ◌+◌, ◌-◌, ◌*◌, ◌/◌, ◌%◌, Bool, true, false, [], ◌∷◌, ◌++◌, ltb, leb, ◌||◌, length,
  if◌then◌else◌, Option, none, some, codes,
}
use wire_format.Compiler.Types.{Text, Result, ok, ◌>>=◌, ◌>>◌, output_too_large, operand_too_long}
use wire_format.Records.Json.{reject}

abbrev pub limit : ℕ
limit = 16 * 1024 * 1024

unfoldable pub append : Text → Text → Result Text
append b data' = do
  reject (ltb limit (length data') || ltb (limit - length data') (length b)) none output_too_large
  ok (b ++ data')

abbrev pub Build : Type 0
Build = Text → Result Text

-- `emit`, with the text that `vsnprintf` makes of its format.
unfoldable pub emit : Text → Build
emit text b = do reject (leb 1024 (length text)) none operand_too_long; append b text

abbrev pub nothing : Build
nothing b = ok b

infixl 5 ◌>=>◌
abbrev pub ◌>=>◌ : Build → Build → Build
◌>=>◌ f g b = f b >>= g

abbrev pub using {ℓ} : {A : Type ℓ} → Result A → (A → Build) → Build
using r k b = r >>= λ a. k a b

abbrev pub when : Bool → Build → Build
when test f = if test then f else nothing

-- `%llu`, the digits of `n` in front of `s`.
unfoldable pub decimal_loop : ℕ → ℕ → Text → Text
decimal_loop zero n s = s
decimal_loop (suc fuel) n s = elim (ltb n 10) [
  | true ↦ (b'0' + n) ∷ s
  | false ↦ decimal_loop fuel (n / 10) ((b'0' + n % 10) ∷ s)
]

abbrev pub decimal : ℕ → Text
decimal n = decimal_loop (suc n) n []

-- The shapes of operators: %{n}, %op, %uop, %op{name}, %uop{name} and %uop{name}{other}.
abbrev pub literal_text : ℕ → Text
literal_text n = b'%' ∷ b'{' ∷ (decimal n ++ (b'}' ∷ []))

abbrev pub plain_text : ℕ → Text
plain_text op = b'%' ∷ op ∷ []

abbrev pub query_text : ℕ → Text
query_text op = b'%' ∷ b'u' ∷ op ∷ []

abbrev pub braces : Text → Text
braces name = b'{' ∷ (name ++ (b'}' ∷ []))

abbrev pub named_text : ℕ → Text → Text
named_text op name = b'%' ∷ op ∷ braces name

abbrev pub query_named_text : ℕ → Text → Text
query_named_text op name = b'%' ∷ b'u' ∷ op ∷ braces name

abbrev pub query_two_text : ℕ → Text → Text → Text
query_two_text op name other = b'%' ∷ b'u' ∷ op ∷ (braces name ++ braces other)

-- %J[child]{name}, with -1 for a message that there is not.
abbrev pub rows_text : Option ℕ → Text → Text
rows_text none name = codes "%J[-1]" ++ braces name
rows_text (some child) name = b'%' ∷ b'J' ∷ b'[' ∷ (decimal child ++ (b']' ∷ braces name))

unfoldable pub literal : ℕ → Build
literal n = emit (literal_text n)
