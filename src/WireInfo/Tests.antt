-- ===== src/WireInfo/Tests.antt =====
-- wire_info.c: programs that the loader scans, evaluated, and the theorem at a concrete one.
use wire_format.Base.{ℕ, ◌≡◌, refl, Bool, true, false, List, [], ◌∷◌, Option, some}
use Prim.Native.String.{String}
use Prim.Native.Char.{code}
use wire_format.Machine.State.{Vars}
use wire_format.Machine.Lists.{cleared}
use wire_format.Machine.Text.{skip_branch}
use wire_format.WireInfo.Program.{
  name_loop, identifier, literal_loop, literal, rows_loop, rows, extension, operands, branch_to,
  instruction, program_loop, program_valid,
}
use wire_format.WireInfo.Branches.{Accepts, Lands, skip_branch-Lands}

abbrev codes : String → List ℕ
codes String.[] = []
codes (String.◌∷◌ c s) = code c ∷ codes s

scan : ℕ → String → Option Bool
unfolding name_loop identifier literal_loop literal rows_loop rows extension operands branch_to
    instruction program_loop program_valid
scan rank s = program_valid (some (codes s)) rank

fields : scan 2 "%g{flags}%{1}%u&%?%t%g{a-b}%d%e%J[1]{rows}%;" ≡ some true
unfolding scan
fields = refl

later_message : scan 1 "%J[1]{rows}" ≡ some false
unfolding scan
later_message = refl

still_open : scan 1 "%?%t" ≡ some false
unfolding scan
still_open = refl

too_large : scan 1 "%{18446744073709551616}" ≡ some false
unfolding scan
too_large = refl

-- Behind %t, with another conditional in the branch.
abbrev skipped : Vars
skipped = record (cleared (λ address. 0) []) { f_str = codes "%?%t%i%;%uZ{n}%e%{7}%;%d" }

skipped-Accepts : Accepts 0 (1 ∷ []) (codes "%?%t%i%;%uZ{n}%e%{7}%;%d")
unfolding name_loop identifier literal_loop literal rows_loop rows extension operands branch_to
    instruction program_loop
skipped-Accepts = (12, refl)

skip_branch-Lands_example :
    (s : List ℕ) × (skip_branch skipped true ≡ record skipped { f_str = s }) × Lands 0 1 [] s
skip_branch-Lands_example = skip_branch-Lands skipped 0 1 [] true refl refl skipped-Accepts
