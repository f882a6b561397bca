-- ===== src/Machine/Text.antt =====
-- wire_format.c: the specifiers that read operands from the format string (%'x' %{n} %p %P %g), and
-- the conditionals %? %t %e %;.
use wire_format.Base.{
  ℕ, zero, suc, ◌+◌, ◌-◌, ◌*◌, ◌/◌, ◌^◌, Bool, true, false, ◌&&◌, ◌||◌, not, List, [], ◌∷◌, Option,
  none, some, leb, ltb, ◌==◌, if◌then◌else◌, get_or, set, drop, u64_max, u64,
}
use wire_format.Machine.State.{Vars, fail, touch, max_params, max_vars}
use wire_format.Machine.Buffer.{fs_push, fs_pop, peek, advance, get_var_addr}

abbrev pub is_digit : ℕ → Bool
is_digit c = leb b'0' c && leb c b'9'

-- %'x': the character, sign-extended from a signed char, and its closing quote.
unfoldable pub op_tick : Vars → Vars
op_tick v =
    let c = peek v.f_str in
    if c == 0 || not (peek (advance v.f_str) == 0x27)
    then fail v
    else let v₁ = fs_push v (if ltb c 128 then c else c + 2 ^ 64 - 256) in
      record v₁ { f_str = drop 2 v.f_str }

-- The digits of a decimal literal, as a uint64_t: the value, or `none` where it overflows, and
-- what follows.
unfoldable pub brace_digits : List ℕ → ℕ → Option ℕ × List ℕ
brace_digits [] n = (some n, [])
brace_digits (c ∷ s) n =
    let digit = c - b'0' in
    let rest = brace_digits s (n * 10 + digit) in
    if is_digit c
    then if ltb ((u64_max - digit) / 10) n then (none, s) else rest
    else (some n, c ∷ s)

-- %{123}, the end of it: the closing brace, and the push.
unfoldable pub brace_end : Option ℕ × List ℕ → Bool → Vars → Vars
brace_end (none, s) negative v = fail (record v { f_str = s })
brace_end (some n, s) negative v =
    let v₁ = record v { f_str = advance s } in
    if peek s == b'}'
    then fs_push v₁ (if negative then u64 (2 ^ 64 - n) else n)
    else fail (record v { f_str = s })

unfoldable pub op_brace : Vars → Vars
op_brace v =
    let negative = peek v.f_str == b'-' in
    let s = if negative then advance v.f_str else v.f_str in
    if is_digit (peek s)
    then brace_end (brace_digits s 0) negative v
    else fail (record v { f_str = s })

-- The digits of %p{n}: the index, or `none` where it passes the parameters, and what follows.
unfoldable pub index_digits : List ℕ → ℕ → Option ℕ × List ℕ
index_digits [] index = (some index, [])
index_digits (c ∷ s) index =
    let next = index * 10 + (c - b'0') in
    let rest = index_digits s next in
    if is_digit c then if ltb max_params next then (none, s) else rest else (some index, c ∷ s)

unfoldable pub push_param : ℕ → Vars → Vars
push_param index v =
    if index == 0 || ltb max_params index
    then fail v
    else fs_push (touch max_params (if index == 0 then u64_max else index - 1) v)
        (get_or v.params (index - 1) 0)

unfoldable pub braced_param : Option ℕ × List ℕ → Vars → Vars
braced_param (none, s) v = fail (record v { f_str = s })
braced_param (some index, s) v =
    let v₁ = record v { f_str = advance s } in
    if peek s == b'}' then push_param index v₁ else fail v₁

-- %p1 .. %p9 and %p{1} .. %p{16}
unfoldable pub op_param : Vars → Vars
op_param v =
    let s = advance v.f_str in
    let c = peek v.f_str in
    if c == b'{'
    then if is_digit (peek s)
      then braced_param (index_digits s 0) v
      else fail (record v { f_str = s })
    else if leb b'1' c && leb c b'9'
    then push_param (c - b'0') (record v { f_str = s })
    else fail v

-- %Px and %gx with a letter. With a brace they name a field of a record scope.
unfoldable pub store_var : Vars → Vars
store_var v =
    let (i, v₁) = get_var_addr v in
    let (n, v₂) = fs_pop v₁ in let v₃ = touch max_vars i v₂ in record v₃ { vars = set v₃.vars i n }

unfoldable pub load_var : Vars → Vars
load_var v = let (i, v₁) = get_var_addr v in fs_push (touch max_vars i v₁) (get_or v₁.vars i 0)

-- What `skip_branch` steps over next: nothing in particular, a number of characters, or all up to
-- a closing brace.
pub data Skip : Type 0 where
  plain : Skip
  chars : ℕ → Skip
  braced : Skip

-- After the specifier `op`, with `s` behind it: `none` where the branch ends here, else what to
-- step over and the new depth.
unfoldable pub skip_op : ℕ → List ℕ → ℕ → Bool → Option (Skip × ℕ)
skip_op op s depth allow_else =
    if op == b'?'
    then some (plain, depth + 1)
    else if op == b';'
    then if depth == 0 then none else some (plain, depth - 1)
    else if op == b'e' && depth == 0 && allow_else
    then none
    else if op == 0x27
    then some (chars 2, depth)
    else if op == b'{' || peek s == b'{'
    then some (braced, depth)
    else if op == b'u'
    then some (chars 1, depth)
    else some (plain, depth)

-- The loop of `skip_branch`: what follows the branch, or `none` at the end of the string.
unfoldable pub skip_loop : List ℕ → Skip → ℕ → Bool → Option (List ℕ)
skip_loop [] mode depth allow_else = none
skip_loop (c ∷ s) (chars (suc zero)) depth allow_else = skip_loop s plain depth allow_else
skip_loop (c ∷ s) (chars (suc (suc n))) depth allow_else =
    skip_loop s (chars (suc n)) depth allow_else
skip_loop (c ∷ s) braced depth allow_else =
    skip_loop s (if c == b'}' then plain else braced) depth allow_else
skip_loop (c ∷ []) _ depth allow_else = none
skip_loop (c ∷ op ∷ s) _ depth allow_else = elim (c == b'%') [
  | true ↦ elim (skip_op op s depth allow_else) [
    | none ↦ some s
    | some (mode, d) ↦ skip_loop s mode d allow_else
  ]
  | false ↦ skip_loop (op ∷ s) plain depth allow_else
]

unfoldable pub skip_branch : Vars → Bool → Vars
skip_branch v allow_else = elim (skip_loop v.f_str plain 0 allow_else) [
  | none ↦ fail (record v { f_str = [] })
  | some s ↦ record v { f_str = s }
]

unfoldable pub op_then : Vars → Vars
op_then v = let (n, v₁) = fs_pop v in if n == 0 then skip_branch v₁ true else v₁

unfoldable pub op_else : Vars → Vars
op_else v = skip_branch v false
