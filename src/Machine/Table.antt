-- ===== src/Machine/Table.antt =====
-- wire_format.c: the calls in a format's text, the nesting depth of a format table, and
-- `wi_set_formats`.
use wire_format.Base.{
  ℕ, zero, suc, ◌+◌, true, false, ◌||◌, ◌&&◌, List, [], ◌∷◌, ◌++◌, leb, ltb, ◌==◌, length,
  if◌then◌else◌, get_or, Option, none, some,
}
use wire_format.Machine.State.{Vars, call_depth, max_formats}
use wire_format.Machine.Buffer.{peek, advance}
use wire_format.Machine.Text.{Skip, plain, chars, braced}
use wire_format.Machine.Lists.{call_digits, skip_char, format_at}

-- The text of a call's digits, if the specifier `op` with `s` behind it is a call.
unfoldable pub call_text : ℕ → List ℕ → Option (List ℕ)
call_text op s =
    if op == b'[' then some s else if op == b'J' && peek s == b'[' then some (advance s) else none

unfoldable pub call_result : ℕ × ℕ × List ℕ → Option ℕ × List ℕ
call_result (n, digits, s) = (if digits == 0 then none else some n, skip_char b']' s)

-- `next_call`: the index, or `none` for -1, and where the scan stands then.
unfoldable pub next_call : List ℕ → Skip → Option ℕ × List ℕ
next_call [] mode = (none, [])
next_call (c ∷ s) (chars (suc zero)) = next_call s plain
next_call (c ∷ s) (chars (suc (suc n))) = next_call s (chars (suc n))
next_call (c ∷ s) braced = next_call s (if c == b'}' then plain else braced)
next_call (c ∷ []) _ = (none, [])
next_call (c ∷ op ∷ s) _ = elim (c == b'%') [
  | true ↦ elim (call_text op s) [
    | none ↦ next_call s (if op == 0x27 then chars 2 else if op == b'{' then braced else plain)
    | some text ↦ call_result (call_digits 4 0 0 text)
  ]
  | false ↦ next_call (op ∷ s) plain
]

-- One call to `j` found in format `k`: the depth of `k` so far is `d`.
unfoldable pub deepen : Option (List (Option (List ℕ))) → ℕ → List ℕ → ℕ → ℕ → ℕ → ℕ
deepen fmts nfmts depths k j d = elim (format_at fmts j) [
  | none ↦ d
  | some fmt ↦
      if leb k j || leb nfmts j || leb (get_or depths j 0 + 1) d then d else get_or depths j 0 + 1
]

-- The loop over the calls of format `k`. Each call takes a character at least, so that a fuel above
-- the text's length is enough.
unfoldable pub format_depth : ℕ → Option (List (Option (List ℕ))) → ℕ → List ℕ → ℕ → List ℕ → ℕ → ℕ
format_depth zero fmts nfmts depths k p d = d
format_depth (suc fuel) fmts nfmts depths k p d =
    let (call, rest) = next_call p plain in
    elim call [
      | none ↦ d
      | some j ↦ format_depth fuel fmts nfmts depths k rest (deepen fmts nfmts depths k j d)
    ]

abbrev pub depth_of : Option (List (Option (List ℕ))) → ℕ → List ℕ → ℕ → Option (List ℕ) → ℕ
depth_of fmts nfmts depths k none = 1
depth_of fmts nfmts depths k (some p) = format_depth (length p + 1) fmts nfmts depths k p 1

-- `depths`, for the `n` formats from `k` on behind those that are known.
unfoldable pub fill_depths : ℕ → Option (List (Option (List ℕ))) → ℕ → ℕ → List ℕ → List ℕ
fill_depths zero fmts nfmts k depths = depths
fill_depths (suc n) fmts nfmts k depths =
    fill_depths n fmts nfmts (k + 1)
      (depths ++ (depth_of fmts nfmts depths k (format_at fmts k) ∷ []))

-- `deepest` counts the formats that are there.
unfoldable pub deepest_of : Option (List (Option (List ℕ))) → ℕ → List ℕ → ℕ → ℕ
deepest_of fmts k [] deepest = deepest
deepest_of fmts k (d ∷ depths) deepest =
    deepest_of fmts (k + 1) depths
      (elim (format_at fmts k) [ none ↦ deepest | some fmt ↦ if ltb deepest d then d else deepest ])

unfoldable pub table_depth : Option (List (Option (List ℕ))) → ℕ → ℕ
table_depth fmts nfmts = deepest_of fmts 0 (fill_depths nfmts fmts nfmts 0 []) 0

-- `wi_set_formats`: `none` is the answer -1. A negative count is one above WI_MAX_FORMATS.
unfoldable pub set_formats : Vars → Option (List (Option (List ℕ))) → ℕ → Option Vars
set_formats v fmts nfmts =
    if ltb max_formats nfmts
    then none
    else if elim fmts [ none ↦ false | some t ↦ true ]
        && ltb 0 nfmts
        && ltb call_depth (table_depth fmts nfmts + 1)
    then none
    else some (record v { fmts = fmts; nfmts = nfmts })
