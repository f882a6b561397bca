-- ===== src/Machine/Buffer.antt =====
-- wire_format.c: the output buffer, the input buffer, the value stack and the variables.
use wire_format.Base.{
  ℕ, ◌+◌, ◌-◌, Bool, true, false, ◌||◌, not, List, [], ◌∷◌, ◌++◌, leb, ltb, length, if◌then◌else◌,
  bit_or,
}
use wire_format.Machine.State.{Vars, fail, stack_depth}

unfoldable pub b_emit : Vars → ℕ → Vars
b_emit v byte =
    if v.overrun
    then v
    else if not v.encoding || leb v.out_size (length v.out)
    then fail v
    else record v { out = v.out ++ (byte ∷ []) }

-- The emits of a loop, one for each byte.
unfoldable pub emit_all : List ℕ → Vars → Vars
emit_all [] v = v
emit_all (b ∷ bs) v = emit_all bs (b_emit v b)

-- `in_pos >= in_size`, and `fsp <= 0`
abbrev pub is_empty : List ℕ → Bool
is_empty [] = true
is_empty (b ∷ bs) = false

-- `wi->in[wi->in_pos++]`
unfoldable pub take_input : List ℕ → Vars → ℕ × Vars
take_input [] v = (0, record v { stray = true })
take_input (b ∷ bs) v = (b, record v { input = bs; in_pos = v.in_pos + 1 })

unfoldable pub b_read : Vars → ℕ × Vars
unfolding take_input
b_read v =
    if v.overrun
    then (0, v)
    else if not v.decoding || is_empty v.input
    then (0, fail v)
    else take_input v.input v

unfoldable pub fs_push : Vars → ℕ → Vars
fs_push v n =
    if v.overrun
    then v
    else if leb stack_depth (length v.fstack)
    then fail v
    else record v { fstack = n ∷ v.fstack }

-- `wi->fstack[--wi->fsp]`
unfoldable pub take_top : List ℕ → Vars → ℕ × Vars
take_top [] v = (0, record v { stray = true })
take_top (n ∷ s) v = (n, record v { fstack = s })

unfoldable pub fs_pop : Vars → ℕ × Vars
unfolding take_top
fs_pop v =
    if v.overrun then (0, v) else if is_empty v.fstack then (0, fail v) else take_top v.fstack v

-- `*f_str`: the byte at the head of a C string, 0 at its end.
abbrev pub peek : List ℕ → ℕ
peek [] = 0
peek (c ∷ s) = c

-- `f_str++`. A step past the terminating 0 is not followed: `overrun` is set wherever the code
-- makes one.
abbrev pub advance : List ℕ → List ℕ
advance [] = []
advance (c ∷ s) = s

-- The index of the variable that the next letter names. A letter that names none sets `overrun`,
-- and gives the address of `vars[0]`.
unfoldable pub get_var_addr : Vars → ℕ × Vars
get_var_addr v =
    let c1 = bit_or (peek v.f_str) 0x20 in
    if ltb c1 b'a' || ltb b'z' c1
    then (0, fail v)
    else (c1 - b'a', record v { f_str = advance v.f_str })
