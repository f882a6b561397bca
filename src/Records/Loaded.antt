-- ===== src/Records/Loaded.antt =====
-- compiler/records.c and wire_info.c: a message's program passes `program_valid`.
use wire_format.Base.{
  ℕ, zero, suc, ◌≤◌, ◌<◌, ◌≡◌, refl, sym, ap, ◌∙◌, arith, Bool, true, false, List, [], ◌∷◌, ◌++◌,
  append-nil, length, get_elem?, ◌==◌, Option, none, some, codes,
}
use mathlib.Core.Path.{subst}
use wire_format.Json5.Value.{Value}
use wire_format.Compiler.Types.{Text, ok}
use wire_format.Compiler.Offsets.{bind-ok}
use wire_format.WireInfo.Program.{instruction, program_loop, program_valid}
use wire_format.WireInfo.Branches.{Accepts}
use wire_format.WireInfo.Ends.{program_valid-ends}
use wire_format.Records.Json.{get, array_of}
use wire_format.Records.Scopes.{Compiler}
use wire_format.Records.Fields.{field_programs, message_program}
use wire_format.Records.Validate.{validate}
use wire_format.Records.Builds.{Builds, >=>-Builds, nothing-Builds}
use wire_format.Records.Expressions.{query-Builds}
use wire_format.Records.Programs.{field_program-Builds}
use wire_format.Records.Accepted.{AllFit, validate-AllFit}

field_programs-Builds :
    {rank : ℕ} (c : Compiler) (decode : Bool) (fs : List Value)
    → AllFit rank c.messages fs
    → rank ≤ 64
    → Builds rank [] [] (field_programs c decode fs)
unfolding field_programs
field_programs-Builds c decode [] h l = record { builds = λ t r e. nothing-Builds.builds t r e }
field_programs-Builds c decode (f ∷ later) (h, hs) l = record {
  builds = λ t r e.
      (>=>-Builds (field_program-Builds c f decode h l)
          (field_programs-Builds c decode later hs l)).builds
        t r e;
}

-- A scan that ends with one verdict ends with no other.
program_loop_unique :
    (n k rank : ℕ) (b s : List ℕ) (v w : Bool)
    → program_loop n rank b s ≡ some v
    → program_loop k rank b s ≡ some w
    → v ≡ w
unfolding program_loop
program_loop_unique zero k rank b s v w h i = cc
program_loop_unique (suc n) zero rank b s v w h i = cc
program_loop_unique (suc n) (suc k) rank [] [] v w h i = cc
program_loop_unique (suc n) (suc k) rank (x ∷ b) [] v w h i = cc
program_loop_unique (suc n) (suc k) rank [] (c ∷ []) v w h i = cc
program_loop_unique (suc n) (suc k) rank (x ∷ b) (c ∷ []) v w h i = cc
program_loop_unique (suc n) (suc k) rank b (c ∷ op ∷ s) v w h i =
    go (c == b'%') (instruction rank b op s) h i (program_loop_unique n k rank)
  where
    go :
        (t : Bool) (o : Option (List ℕ × List ℕ))
        → elim t as (λ t. Option Bool) [
          | false ↦ some false
          | true ↦ elim o [ none ↦ some false | some (b', r) ↦ program_loop n rank b' r ]
        ]
          ≡ some v
        → elim t as (λ t. Option Bool) [
          | false ↦ some false
          | true ↦ elim o [ none ↦ some false | some (b', r) ↦ program_loop k rank b' r ]
        ]
          ≡ some w
        → ((b' r : List ℕ) (v w : Bool)
            → program_loop n rank b' r ≡ some v
            → program_loop k rank b' r ≡ some w
            → v ≡ w)
        → v ≡ w
    go false o p q ih = cc
    go true none p q ih = cc
    go true (some (b', r)) p q ih = ih b' r v w p q

program_valid-Accepts :
    (rank : ℕ) (text : Text) → Accepts rank [] text → program_valid (some text) rank ≡ some true
unfolding program_valid
program_valid-Accepts rank text (n, h) =
    let (v, e) = program_valid-ends (some text) rank in
    let same : v ≡ true = program_loop_unique (suc (length text)) n rank [] text v true e h in
    e ∙ ap (λ (x : Bool). some x) same

Accepts-end : (rank : ℕ) → Accepts rank [] []
unfolding program_loop
Accepts-end rank = (1, refl)

message_program-Accepts :
    {rank : ℕ} (c : Compiler) (decode : Bool) (fs : List Value) (text : Text)
    → AllFit rank c.messages fs
    → rank ≤ 64
    → message_program c decode fs ≡ ok text
    → Accepts rank [] text
unfolding message_program
message_program-Accepts {rank = rank} c decode fs text h l e =
    let (u, e₁, e₂) = bind-ok (field_programs c decode fs []) _ _ e in
    let (x, p, i) = (field_programs-Builds c decode fs h l).builds [] u e₁ in
    let (y, q, j) = (query-Builds {rank = rank} {b = []} b'F' refl).builds u text e₂ in
    let whole : text ≡ x ++ y = q ∙ ap (λ (t : Text). t ++ y) p in
    subst (λ (t : Text). Accepts rank [] t) (sym whole)
      (i y (subst (λ (t : Text). Accepts rank [] t) (append-nil y) (j [] (Accepts-end rank))))

get_elem?-lt : {A : Type 0} (xs : List A) (i : ℕ) (x : A) → get_elem? xs i ≡ some x → i < length xs
get_elem?-lt [] i x h = cc
get_elem?-lt (y ∷ xs) zero x h = omega arith
get_elem?-lt (y ∷ xs) (suc i) x h = omega (arith, get_elem?-lt xs i x h)

-- For a protocol that `validate` accepts, every program that is written for one of its messages,
-- in either direction, passes `program_valid` at that message's place.
pub program_valid-message_program :
    (p : Option Value) (messages : List Value) (i : ℕ) (m : Value) (fs : List Value) (decode : Bool)
    (text : Text)
    → validate p ≡ ok messages
    → get_elem? messages i ≡ some m
    → array_of (get (some m) (codes "fields")) ≡ some fs
    → message_program (record { messages = messages; current = i }) decode fs ≡ ok text
    → program_valid (some text) i ≡ some true
program_valid-message_program p messages i m fs decode text h k q e =
    let (fit, few) = validate-AllFit p messages i m fs h k q in
    let inside : i < length messages = get_elem?-lt messages i m k in
    program_valid-Accepts i text (
      message_program-Accepts (record { messages = messages; current = i }) decode fs text fit
        (omega arith) e)
