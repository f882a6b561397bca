-- ===== src/Compiler/Encoded.antt =====
-- compiler/check.c: the octets of a test vector that passes.
use wire_format.Base.{
  ℕ, zero, suc, ◌+◌, ◌-◌, ◌≤◌, ◌<◌, ◌≡◌, refl, arith, Bool, true, false, not, List, ltb, ◌==◌,
  length, get_or, if◌then◌else◌, u64_max, Option, none, some, Bool-cases, inl, inr,
}
use mathlib.Core.Path.{subst}
use wire_format.Compiler.Types.{Vector, Message, Protocol, ok}
use wire_format.Compiler.Offsets.{bind-ok, refuse-ok}
use wire_format.Compiler.Vector.{
  check_assignments, check_present, encode_vector, first_mismatch, decode_fields, refuse_mismatch,
  check_vector_v1,
}

mismatch_round :
    (n i : ℕ) (xs ys : List ℕ)
    → first_mismatch (suc n) i xs ys ≡ none
    → (get_or xs i 0 ≡ get_or ys i 0) × (first_mismatch n (suc i) xs ys ≡ none)
unfolding first_mismatch
mismatch_round n i xs ys h = go (get_or xs i 0 == get_or ys i 0) refl h
  where
    go :
        (b : Bool)
        → (get_or xs i 0 == get_or ys i 0) ≡ b
        → (if b then first_mismatch n (suc i) xs ys else some i) ≡ none
        → (get_or xs i 0 ≡ get_or ys i 0) × (first_mismatch n (suc i) xs ys ≡ none)
    go true e k = (ground arith, k)
    go false e k = cc

first_mismatch-none :
    (n i j : ℕ) (xs ys : List ℕ)
    → first_mismatch n i xs ys ≡ none
    → i ≤ j
    → j < i + n
    → get_or xs j 0 ≡ get_or ys j 0
first_mismatch-none zero i j xs ys h k l = absurd (omega arith)
first_mismatch-none (suc n) i j xs ys h k l =
    let (e, g) = mismatch_round n i xs ys h in
    elim (Bool-cases (i == j)) [
      | inl same ↦
          let p : i ≡ j = ground arith in subst (λ (t : ℕ). get_or xs t 0 ≡ get_or ys t 0) p e
      | inr other ↦ first_mismatch-none n (suc i) j xs ys g (ground arith) (omega arith)
    ]

refuse_mismatch-ok :
    (v : Vector) (encoded : List ℕ) (o : Option ℕ) → refuse_mismatch v encoded o ≡ ok tt → o ≡ none
refuse_mismatch-ok v encoded none h = refl
refuse_mismatch-ok v encoded (some i) h = cc

-- A test vector that passes is as long as its message, every octet of its wire form is the one
-- that the assigned values encode to, and the decoding of its fields passes as well.
pub check_vector_v1-encoded :
    (allocates : ℕ → ℕ → Bool) (p : Protocol) (m : Message) (offsets : List ℕ) (octets : ℕ)
    (v : Vector)
    → check_vector_v1 allocates p m offsets octets v ≡ ok tt
    → (variable : ℕ) × (check_assignments m v v.assignments 0 ≡ ok variable)
      × (length v.wire ≡ octets + variable)
      × ((i : ℕ)
          → i < length v.wire
          → get_or (encode_vector p m offsets octets variable v) i 0 ≡ get_or v.wire i 0)
      × (decode_fields p v octets offsets m.fields ≡ ok tt)
unfolding check_vector_v1
check_vector_v1-encoded allocates p m offsets octets v h =
    let (variable, assigned, h₁) = bind-ok (check_assignments m v v.assignments 0) _ _ h in
    let (u, present, h₂) = bind-ok (check_present v m.fields) _ _ h₁ in
    let (small, h₃) = refuse-ok (ltb (u64_max - variable) octets) _ _ _ _ h₂ in
    let (long, h₄) = refuse-ok (not (length v.wire == octets + variable)) _ _ _ _ h₃ in
    let (given, h₅) =
      refuse-ok (not (allocates (if octets + variable == 0 then 1 else octets + variable) 1)) _ _ _
        _ h₄ in
    let (w, decoded, h₆) = bind-ok (decode_fields p v octets offsets m.fields) _ _ h₅ in
    let whole : length v.wire ≡ octets + variable = ground arith in
    let matching =
      refuse_mismatch-ok v (encode_vector p m offsets octets variable v)
        (first_mismatch (octets + variable) 0 (encode_vector p m offsets octets variable v) v.wire)
        h₆ in
    (
      variable,
      assigned,
      whole,
      (λ i l. first_mismatch-none (octets + variable) 0 i _ _ matching (omega arith) (omega arith)),
      decoded,
    )
