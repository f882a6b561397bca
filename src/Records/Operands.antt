-- ===== src/Records/Operands.antt =====
-- compiler/records.c: what the readers of names, numbers and expressions give.
use wire_format.Base.{
  ℕ, suc, ◌≤◌, ◌≡◌, refl, arith, Bool, true, false, not, ◌||◌, List, [], ◌∷◌, ltb, leb, ◌==◌,
  length, if◌then◌else◌, u64_max, Option, none, some, codes,
}
use wire_format.Json5.Value.{Value, starts_with}
use wire_format.Compiler.Types.{
  Text, Result, ok, ◌>>◌, not_text, not_number, not_u64, not_identifier,
}
use wire_format.Compiler.Util.{same_text}
use wire_format.Compiler.Offsets.{bind-ok, refuse-ok}
use wire_format.WireInfo.Program.{among}
use wire_format.Records.Json.{
  fail, reject, string, string_of, check_identifier, identifier_chars, c_text, number, number_of,
  strtoull, contains,
}
use wire_format.Records.Scopes.{Compiler, reference, scope_search, found_or_fail}
use wire_format.Records.Expression.{letter_of}
use wire_format.Records.Steps.{IsName}

check_identifier-ok :
    (v : Option Value) (s : Text)
    → check_identifier v s ≡ ok tt
    → (leb 192 (length s) ≡ false) × (identifier_chars s ≡ true)
unfolding check_identifier
check_identifier-ok v s h =
    let (e, k) = refuse-ok (leb 192 (length s)) _ _ _ _ h in (e, go (identifier_chars s) k)
  where
    go : (b : Bool) → reject (not b) v not_identifier ≡ ok tt → b ≡ true
    go true k = refl
    go false k = cc

or_false : (a b : Bool) → (a || b) ≡ false → (a ≡ false) × (b ≡ false)
or_false true b h = cc
or_false false b h = (refl, h)

pub string-IsName : (v : Option Value) (s : Text) → string v true ≡ ok s → IsName s
unfolding string
string-IsName v s h = go (string_of v) h
  where
    go :
        (o : Option Text)
        → elim o as (λ o. Result Text) [
          | none ↦ fail v not_text
          | some t ↦
              reject (length t == 0 || not (length (c_text t) == length t)) v not_text
              >> (check_identifier v t >> ok t)
        ]
          ≡ ok s
        → IsName s
    go none k = cc
    go (some t) k =
        let (e, k₁) = refuse-ok (length t == 0 || not (length (c_text t) == length t)) _ _ _ _ k in
        let (u, k₂, k₃) = bind-ok (check_identifier v t) _ _ k₁ in
        let (f, g) = or_false (length t == 0) _ e in
        let (i, j) = check_identifier-ok v t k₂ in let same : t ≡ s = cc in rw (← same) (j, i, f)

pub reference-IsName :
    (c : Compiler) (v : Option Value) (s : Text) → reference c v ≡ ok s → IsName s
unfolding reference
reference-IsName c v s h =
    let (name, e, h₁) = bind-ok (string v true) _ _ h in
    let (found, f, h₂) =
      bind-ok (scope_search (suc (length name)) (suc (length c.messages)) c name) _ _ h₁ in
    go name found (string-IsName v name e) h₂
  where
    go : (name : Text) (o : Option Bool) → IsName name → found_or_fail v name o ≡ ok s → IsName s
    go name (some true) k l = let same : name ≡ s = cc in rw (← same) k
    go name (some false) k l = cc
    go name none k l = cc

pub number-le : (v : Option Value) (n : ℕ) → number v ≡ ok n → n ≤ u64_max
unfolding number
number-le v n h = go (number_of v) h
  where
    base : Text → ℕ
    base s = if contains (codes "0x") s || contains (codes "0X") s then 16 else 10

    inner :
        (s : Text) (o : Option (ℕ × Text))
        → elim o as (λ o. Result ℕ) [
          | none ↦ fail v not_u64
          | some (m, rest) ↦ reject (ltb u64_max m || not (length rest == 0)) v not_u64 >> ok m
        ]
          ≡ ok n
        → n ≤ u64_max
    inner s none k = cc
    inner s (some (m, rest)) k =
        let (e, k₁) = refuse-ok (ltb u64_max m || not (length rest == 0)) _ _ _ _ k in
        let (f, g) = or_false (ltb u64_max m) _ e in let same : m ≡ n = cc in ground arith

    go :
        (o : Option Text)
        → elim o as (λ o. Result ℕ) [
          | none ↦ fail v not_number
          | some s ↦
              reject (starts_with (codes "-") s) v not_number
              >> elim (strtoull (base s) s) as (λ o. Result ℕ) [
                | none ↦ fail v not_u64
                | some (m, rest) ↦
                    reject (ltb u64_max m || not (length rest == 0)) v not_u64 >> ok m
              ]
        ]
          ≡ ok n
        → n ≤ u64_max
    go none k = cc
    go (some s) k =
        let (e, k₁) = refuse-ok (starts_with (codes "-") s) _ _ _ _ k in
        inner s (strtoull (base s) s) k₁

-- The letters of operators are ones that take no name.
pub letter_of-among :
    (s : Text) (names : List Text) (letters : List ℕ) (l : ℕ)
    → letter_of s names letters ≡ some l
    → among l letters ≡ true
unfolding letter_of
letter_of-among s [] letters l h = cc
letter_of-among s (t ∷ names) [] l h = cc
letter_of-among s (t ∷ names) (m ∷ letters) l h =
    go (same_text s t) h (letter_of-among s names letters l)
  where
    go :
        (b : Bool)
        → (if b then some m else letter_of s names letters) ≡ some l
        → (letter_of s names letters ≡ some l → among l letters ≡ true)
        → (l == m || among l letters) ≡ true
    go true k ih = let p : m ≡ l = cc in ground arith
    go false k ih = or_true (l == m) (ih k)
      where
        or_true : (a : Bool) → among l letters ≡ true → (a || among l letters) ≡ true
        or_true true e = refl
        or_true false e = e
