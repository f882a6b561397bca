-- ===== src/Compiler/Accepted.antt =====
-- compiler/check.c: what `wfc_check` has seen of a protocol that it accepts.
use wire_format.Base.{
  ℕ, ◌+◌, ◌/◌, ◌≡◌, refl, ap, sym, arith, Bool, true, false, List, [], ◌∷◌, ltb, ◌-◌, ◌==◌, length,
  if◌then◌else◌, u64_max, Option, none, some,
}
use wire_format.Compiler.Types.{
  Location, Problem, Vector, Message, Protocol, Summary, Result, ok, ◌>>=◌, ◌>>◌, empty_description,
  empty_standard, empty_reference,
}
use wire_format.Records.Generate.{records_check}
use wire_format.Compiler.Text.{text_present}
use wire_format.Compiler.Layout.{message_layout}
use wire_format.Compiler.Offsets.{bind-ok, refuse-ok, total_width, message_layout-exact}
use wire_format.Compiler.Check.{
  check_vector, check_vectors, check_message, check_messages, check, require_text, require_optional,
}

-- A message that was accepted: it has a layout, and each vector passes with it.
abbrev pub AllPass : (ℕ → ℕ → Bool) → Protocol → Message → List ℕ → ℕ → List Vector → Type 0
AllPass allocates p m offsets octets [] = Unit
AllPass allocates p m offsets octets (v ∷ later) =
    (check_vector allocates p m offsets octets v ≡ ok tt)
    × AllPass allocates p m offsets octets later

abbrev pub IsChecked : (ℕ → ℕ → Bool) → Protocol → Message → Type 0
IsChecked allocates p m =
    (offsets : List ℕ) × (octets : ℕ) × (message_layout allocates m ≡ ok (offsets, octets))
    × (text_present m.description ≡ some true)
    × AllPass allocates p m offsets octets m.vectors

abbrev pub AllChecked : (ℕ → ℕ → Bool) → Protocol → List Message → Type 0
AllChecked allocates p [] = Unit
AllChecked allocates p (m ∷ later) = IsChecked allocates p m × AllChecked allocates p later

abbrev pub vector_count : List Message → ℕ
vector_count [] = 0
vector_count (m ∷ later) = length m.vectors + vector_count later

-- The octets of all messages, from the widths of their fields.
abbrev pub octet_sum : List Message → ℕ
octet_sum [] = 0
octet_sum (m ∷ later) = total_width m.fields / 8 + octet_sum later

check_vectors-ok :
    (allocates : ℕ → ℕ → Bool) (p : Protocol) (m : Message) (offsets : List ℕ) (octets : ℕ)
    (vs : List Vector) (s t : Summary)
    → check_vectors allocates p m offsets octets vs s ≡ ok t
    → (t.vectors ≡ s.vectors + length vs)
      × (t.layout_octets ≡ s.layout_octets)
      × AllPass allocates p m offsets octets vs
unfolding check_vectors
check_vectors-ok allocates p m offsets octets [] s t h =
    let same : s ≡ t = cc in
    let a : s.vectors ≡ t.vectors = ap (λ (x : Summary). x.vectors) same in
    let b : s.layout_octets ≡ t.layout_octets = ap (λ (x : Summary). x.layout_octets) same in
    (omega arith, omega arith, tt)
check_vectors-ok allocates p m offsets octets (v ∷ later) s t h =
    let (u, e, k) = bind-ok {B = Summary} (check_vector allocates p m offsets octets v) _ _ h in
    let (a, b, c) =
      check_vectors-ok allocates p m offsets octets later (record s { vectors = s.vectors + 1 }) t
        k in
    (omega arith, b, (e, c))

require_text-ok {ℓ} :
    {A : Type ℓ} (o : Option Bool) (l : Location) (p : Problem) (k : Result A) (r : A)
    → (require_text o l p >> k) ≡ ok r
    → (o ≡ some true) × (k ≡ ok r)
require_text-ok none l p k r h = cc
require_text-ok (some true) l p k r h = (refl, h)
require_text-ok (some false) l p k r h = cc

check_message-ok :
    (allocates : ℕ → ℕ → Bool) (p : Protocol) (m : Message) (s t : Summary)
    → check_message allocates p m s ≡ ok t
    → (t.vectors ≡ s.vectors + length m.vectors)
      × (t.layout_octets ≡ s.layout_octets + total_width m.fields / 8)
      × IsChecked allocates p m
unfolding check_message
check_message-ok allocates p m s t h =
    let (shown, h₁) = require_text-ok (text_present m.description) _ _ _ _ h in
    let ((offsets, octets), laid, h₂) = bind-ok (message_layout allocates m) _ _ h₁ in
    let (small, h₃) = refuse-ok (ltb (u64_max - octets) s.layout_octets) _ _ _ _ h₂ in
    let (a, b, c) =
      check_vectors-ok allocates p m offsets octets m.vectors
        (record s { layout_octets = s.layout_octets + octets }) t h₃ in
    let (given, aligned, sums, width) = (message_layout-exact allocates m offsets octets).0 laid in
    let whole : octets ≡ total_width m.fields / 8 = omega arith in
    (a, omega arith, (offsets, octets, laid, shown, c))

check_messages-ok :
    (allocates : ℕ → ℕ → Bool) (p : Protocol) (ms : List Message) (s t : Summary)
    → check_messages allocates p ms s ≡ ok t
    → (t.vectors ≡ s.vectors + vector_count ms)
      × (t.layout_octets ≡ s.layout_octets + octet_sum ms)
      × AllChecked allocates p ms
unfolding check_messages
check_messages-ok allocates p [] s t h =
    let same : s ≡ t = cc in
    let a : s.vectors ≡ t.vectors = ap (λ (x : Summary). x.vectors) same in
    let b : s.layout_octets ≡ t.layout_octets = ap (λ (x : Summary). x.layout_octets) same in
    (omega arith, omega arith, tt)
check_messages-ok allocates p (m ∷ later) s t h =
    let (u, e, k) = bind-ok (check_message allocates p m s) _ _ h in
    let (a, b, c) = check_message-ok allocates p m s u e in
    let (a', b', c') = check_messages-ok allocates p later u t k in
    (omega arith, omega arith, (c, c'))

-- A protocol before version 4 that `wfc_check` accepts has a description that shows, and each of
-- its messages has one, has a layout, and each of its vectors passes `check_vector` with that; the
-- summary counts the messages, the vectors, and the octets that the widths of the fields make.
pub check-AllChecked :
    (allocates : ℕ → ℕ → Bool) (p : Protocol) (t : Summary)
    → (p.version == 4) ≡ false
    → check allocates p ≡ ok t
    → (text_present p.description ≡ some true)
      × AllChecked allocates p p.messages
      × (t.messages ≡ length p.messages)
      × (t.vectors ≡ vector_count p.messages)
      × (t.layout_octets ≡ octet_sum p.messages)
unfolding check
check-AllChecked allocates p t version h = go (p.version == 4) version h
  where
    body : Result Summary
    body = do
      require_text (text_present p.description) p.location empty_description
      require_optional p.standard p.location empty_standard
      require_optional p.reference p.location empty_reference
      summary ←
          check_messages allocates p p.messages
            (record { messages = 0; vectors = 0; layout_octets = 0 })
      ok (record summary { messages = length p.messages })

    go :
        (b : Bool)
        → b ≡ false
        → (if b then records_check p.record_source else body) ≡ ok t
        → (text_present p.description ≡ some true)
          × AllChecked allocates p p.messages
          × (t.messages ≡ length p.messages)
          × (t.vectors ≡ vector_count p.messages)
          × (t.layout_octets ≡ octet_sum p.messages)
    go true e k = cc
    go false e k =
        let (shown, k₁) = require_text-ok (text_present p.description) _ _ _ _ k in
        let (u, standard, k₂) =
          bind-ok (require_optional p.standard p.location empty_standard) _ _ k₁ in
        let (v, reference, k₃) =
          bind-ok (require_optional p.reference p.location empty_reference) _ _ k₂ in
        let (s, e₄, k₄) =
          bind-ok
            (check_messages allocates p p.messages
              (record { messages = 0; vectors = 0; layout_octets = 0 }))
            _ _ k₃ in
        let (a, b, c) = check_messages-ok allocates p p.messages _ s e₄ in
        let same : record s { messages = length p.messages } ≡ t = cc in
        let x : length p.messages ≡ t.messages = ap (λ (x : Summary). x.messages) same in
        let y : s.vectors ≡ t.vectors = ap (λ (x : Summary). x.vectors) same in
        let z : s.layout_octets ≡ t.layout_octets = ap (λ (x : Summary). x.layout_octets) same in
        (shown, c, sym x, omega arith, omega arith)
