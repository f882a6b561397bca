-- ===== src/Records/Steps.antt =====
-- compiler/records.c and wire_info.c: each operator that the compiler writes is one that the
-- loader lets through.
use wire_format.Base.{
  ℕ, suc, ◌+◌, ◌<◌, ◌≡◌, refl, arith, Bool, true, false, ◌&&◌, List, [], ◌∷◌, ◌++◌, append_assoc,
  leb, ◌==◌, length, some,
}
use wire_format.Compiler.Types.{Text}
use wire_format.WireInfo.Program.{
  name_loop, identifier, among, one_name, two_names, no_name, extension, named, bare, operands,
  branching, instruction, program_loop,
}
use wire_format.WireInfo.Branches.{Accepts}
use wire_format.Records.Json.{identifier_chars, identifier_char}
use wire_format.Records.Emit.{
  plain_text, query_text, braces, named_text, query_named_text, query_two_text,
}

-- What `string` says of an identifier.
abbrev pub IsName : Text → Type 0
IsName name =
    (identifier_chars name ≡ true) × (leb 192 (length name) ≡ false) × ((length name == 0) ≡ false)

-- The scan goes through `text`, and the open conditionals change from `b` to `b'`.
abbrev pub Step : ℕ → List ℕ → List ℕ → Text → Type 0
Step rank b b' text = (s : List ℕ) → Accepts rank b' s → Accepts rank b (text ++ s)

pub accept_next :
    (rank op : ℕ) (b b' r s : List ℕ)
    → instruction rank b op r ≡ some (b', s)
    → Accepts rank b' s
    → Accepts rank b (b'%' ∷ op ∷ r)
unfolding program_loop
accept_next rank op b b' r s e (fuel, h) = (suc fuel, rw (program_loop, e) h)

name_loop_end : (n : ℕ) (s : List ℕ) → (n == 0) ≡ false → name_loop n (b'}' ∷ s) ≡ some s
unfolding name_loop
name_loop_end n s e = rw (e) refl

name_loop_more :
    (n c : ℕ) (t s : List ℕ)
    → identifier_char c ≡ true
    → leb 192 (n + 1) ≡ false
    → name_loop (n + 1) t ≡ some s
    → name_loop n (c ∷ t) ≡ some s
unfolding name_loop
name_loop_more n c t s h l k = let e : (c == b'}') ≡ false = ground arith in rw (e, h, l) k

identifier_chars-cons :
    (c : ℕ) (s : List ℕ)
    → identifier_chars (c ∷ s) ≡ true
    → (identifier_char c ≡ true) × (identifier_chars s ≡ true)
unfolding identifier_chars
identifier_chars-cons c s h = go (identifier_char c) h
  where
    go : (b : Bool) → (b && identifier_chars s) ≡ true → (b ≡ true) × (identifier_chars s ≡ true)
    go true h = (refl, h)
    go false h = cc

name_loop-name :
    (n : ℕ) (name s : List ℕ)
    → identifier_chars name ≡ true
    → n + length name < 192
    → 0 < n + length name
    → name_loop n ((name ++ (b'}' ∷ [])) ++ s) ≡ some s
name_loop-name n [] s h k l = name_loop_end n s (ground arith)
name_loop-name n (c ∷ name) s h k l =
    let (e, f) = identifier_chars-cons c name h in
    name_loop_more n c ((name ++ (b'}' ∷ [])) ++ s) s e (ground arith)
      (name_loop-name (n + 1) name s f (omega arith) (omega arith))

pub identifier-braces : (name s : List ℕ) → IsName name → identifier (braces name ++ s) ≡ some s
unfolding identifier
identifier-braces name s (h, k, l) = name_loop-name 0 name s h (ground arith) (ground arith)

instruction-operands :
    (rank op : ℕ) (b r s : List ℕ)
    → among op branching ≡ false
    → operands rank op r ≡ some s
    → instruction rank b op r ≡ some (b, s)
unfolding instruction
instruction-operands rank op b r s h k = rw (h, k) refl

-- An operator outside of the conditionals.
pub operands-Step :
    (rank op : ℕ) (b text : List ℕ)
    → among op branching ≡ false
    → ((s : List ℕ) → operands rank op (text ++ s) ≡ some s)
    → Step rank b b (b'%' ∷ op ∷ text)
operands-Step rank op b text h k s a =
    accept_next rank op b b (text ++ s) s (instruction-operands rank op b (text ++ s) s h (k s)) a

pub named-Step :
    (rank op : ℕ) (b name : List ℕ)
    → among op named ≡ true
    → IsName name
    → Step rank b b (named_text op name)
unfolding operands
named-Step rank op b name h k =
    operands-Step rank op b (braces name) (ground arith)
      λ s. (let e : (op == b'{') ≡ false = ground arith in rw (e, h) (identifier-braces name s k))

pub plain-Step : (rank op : ℕ) (b : List ℕ) → among op bare ≡ true → Step rank b b (plain_text op)
unfolding operands
plain-Step rank op b h = operands-Step rank op b [] (ground arith) λ s.
    (let e : (op == b'{') ≡ false = ground arith in
      let f : among op named ≡ false = ground arith in
      let g : (op == b'J') ≡ false = ground arith in
      let i : (op == b'u') ≡ false = ground arith in rw (e, f, g, i, h) refl)

extension-Step :
    (rank : ℕ) (b text : List ℕ)
    → ((s : List ℕ) → extension (text ++ s) ≡ some s)
    → Step rank b b (b'%' ∷ b'u' ∷ text)
unfolding operands
extension-Step rank b text h = operands-Step rank b'u' b text refl h

pub query-Step :
    (rank op : ℕ) (b : List ℕ) → among op no_name ≡ true → Step rank b b (query_text op)
unfolding extension
query-Step rank op b h = extension-Step rank b (op ∷ []) λ s.
    (let e : among op one_name ≡ false = ground arith in
      let f : among op two_names ≡ false = ground arith in rw (e, f, h) refl)

pub query_named-Step :
    (rank op : ℕ) (b name : List ℕ)
    → among op one_name ≡ true
    → IsName name
    → Step rank b b (query_named_text op name)
unfolding extension
query_named-Step rank op b name h k =
    extension-Step rank b (op ∷ braces name) λ s. rw (h) (identifier-braces name s k)

pub query_two-Step :
    (rank op : ℕ) (b name other : List ℕ)
    → among op two_names ≡ true
    → IsName name
    → IsName other
    → Step rank b b (query_two_text op name other)
unfolding extension
query_two-Step rank op b name other h k l =
    extension-Step rank b (op ∷ (braces name ++ braces other)) λ s.
      (let e : among op one_name ≡ false = ground arith in
        rw
          (
            e,
            h,
            append_assoc (braces name) (braces other) s,
            identifier-braces name (braces other ++ s) k,
          )
          (identifier-braces other s l))
