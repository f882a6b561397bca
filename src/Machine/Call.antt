-- ===== src/Machine/Call.antt =====
-- wire_format.c: format calls (%[n]) and their repeat counts (%:).
use wire_format.Base.{
  ℕ, ◌-◌, ◌||◌, List, ◌∷◌, leb, ◌==◌, length, if◌then◌else◌, is_negative, none, some,
}
use wire_format.Machine.State.{Vars, fail, call_depth}
use wire_format.Machine.Buffer.{fs_pop}
use wire_format.Machine.Lists.{call_digits, skip_char, format_at}

unfoldable pub op_colon : Vars → Vars
op_colon v = let (n, v₁) = fs_pop v in record v₁ { pending = n }

-- Enters format `n` with text `fmt`, to be run `count` times.
abbrev pub enter : ℕ → List ℕ → ℕ → Vars → Vars
enter n fmt count v = record v {
  frames = record { resume = v.f_str; start = fmt; left = count - 1; fmt = v.cur_fmt } ∷ v.frames;
  cur_fmt = n;
  f_str = fmt;
}

-- The tests of `_call` behind its operand, which has taken the repeat count.
unfoldable pub run_call : ℕ → ℕ → ℕ → Vars → Vars
run_call n digits count v = elim (format_at v.fmts n) [
  | none ↦ v
  | some fmt ↦
      if digits == 0 || leb v.nfmts n || leb v.cur_fmt n
      then v
      else if leb call_depth (length v.frames)
      then fail v
      else if is_negative count || count == 0
      then v
      else enter n fmt count v
]

unfoldable pub op_call : Vars → Vars
op_call v =
    let (n, digits, s) = call_digits 4 0 0 v.f_str in
    run_call n digits v.pending (record v { f_str = skip_char b']' s; pending = 1 })
