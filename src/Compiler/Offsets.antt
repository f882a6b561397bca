-- ===== src/Compiler/Offsets.antt =====
-- compiler/check.c: the layout of a message against its description: each field begins where the
-- widths of those before it add up to.
use wire_format.Base.{
  ℕ, ◌+◌, ◌-◌, ◌*◌, ◌/◌, ◌%◌, ◌≡◌, refl, sym, ap, ◌∙◌, arith, Bool, true, false, not, ◌&&◌, List,
  [], ◌∷◌, ltb, ◌==◌, length, u64_max, ◌↔◌,
}
use wire_format.Compiler.Types.{
  Location, Problem, Field, Message, Result, ok, err, refuse, ◌>>=◌, ◌>>◌, ends_off_boundary,
}
use wire_format.Compiler.Util.{field_width}
use wire_format.Compiler.Layout.{is_bits, layout_loop, message_layout}

-- The description: the sums of the widths, and that each field but a field of bits begins at an
-- octet, with all offsets in the range of a size_t.
abbrev pub prefix_sums : ℕ → List Field → List ℕ
prefix_sums o [] = []
prefix_sums o (f ∷ fs) = o ∷ prefix_sums (o + field_width f) fs

abbrev pub total_width : List Field → ℕ
total_width [] = 0
total_width (f ∷ fs) = field_width f + total_width fs

abbrev pub IsLaidOut : ℕ → List Field → Type 0
IsLaidOut o [] = Unit
IsLaidOut o (f ∷ fs) =
    ((not (is_bits f.type) && not (o % 8 == 0)) ≡ false)
    × (ltb (u64_max - field_width f) o ≡ false)
    × IsLaidOut (o + field_width f) fs

-- Inversion of a chain that succeeds.
pub refuse-ok {ℓ} :
    {A : Type ℓ} (b : Bool) (l : Location) (p : Problem) (k : Result A) (r : A)
    → (refuse b l p >> k) ≡ ok r
    → (b ≡ false) × (k ≡ ok r)
refuse-ok true l p k r e = cc
refuse-ok false l p k r e = (refl, e)

pub ok_injective {ℓ} : {A : Type ℓ} (a b : A) → ok a ≡ ok b → a ≡ b
ok_injective a b h = cc

pub bind-ok {ℓ κ} :
    {A : Type ℓ} {B : Type κ} (m : Result A) (f : A → Result B) (r : B)
    → (m >>= f) ≡ ok r
    → (a : A) × (m ≡ ok a) × (f a ≡ ok r)
bind-ok (ok a) f r e = (a, refl, e)
bind-ok (err l p) f r e = cc

layout_loop_sound :
    (fs : List Field) (o : ℕ) (offsets : List ℕ) (end : ℕ)
    → layout_loop fs o ≡ ok (offsets, end)
    → (offsets ≡ prefix_sums o fs) × (end ≡ o + total_width fs) × IsLaidOut o fs
unfolding layout_loop
layout_loop_sound [] o offsets end e = (cc, omega (arith, (let q : o ≡ end = cc in q)), tt)
layout_loop_sound (f ∷ fs) o offsets end e =
    let (aligned, e₁) = refuse-ok (not (is_bits f.type) && not (o % 8 == 0)) _ _ _ _ e in
    let (small, e₂) = refuse-ok (ltb (u64_max - field_width f) o) _ _ _ _ e₁ in
    let ((offsets', end'), e₃, e₄) = bind-ok (layout_loop fs (o + field_width f)) _ _ e₂ in
    let (p, q, laid) = layout_loop_sound fs (o + field_width f) offsets' end' e₃ in
    let same : o ∷ offsets' ≡ offsets = cc in
    let same_end : end' ≡ end = cc in
    (sym same ∙ ap (λ (t : List ℕ). o ∷ t) p, omega (arith, q, same_end), (aligned, small, laid))

layout_loop_complete :
    (fs : List Field) (o : ℕ)
    → IsLaidOut o fs
    → layout_loop fs o ≡ ok (prefix_sums o fs, o + total_width fs)
unfolding layout_loop
layout_loop_complete [] o h = ap (λ (t : ℕ). ok ([], t)) (omega arith)
layout_loop_complete (f ∷ fs) o (aligned, small, laid) =
    rw (aligned, small, layout_loop_complete fs (o + field_width f) laid)
      (ap (λ (t : ℕ). ok (o ∷ prefix_sums (o + field_width f) fs, t)) (omega arith))

abbrev Described : (ℕ → ℕ → Bool) → Message → List ℕ → ℕ → Type 0
Described allocates m offsets octets =
    (allocates (length m.fields) 8 ≡ true)
    × IsLaidOut 0 m.fields
    × (offsets ≡ prefix_sums 0 m.fields)
    × (octets * 8 ≡ total_width m.fields)

message_layout_sound :
    (allocates : ℕ → ℕ → Bool) (m : Message) (offsets : List ℕ) (octets : ℕ)
    → message_layout allocates m ≡ ok (offsets, octets)
    → Described allocates m offsets octets
unfolding message_layout
message_layout_sound allocates m offsets octets e =
    let (given, e₁) = refuse-ok (not (allocates (length m.fields) 8)) _ _ _ _ e in
    let ((offsets', end), e₂, e₃) = bind-ok (layout_loop m.fields 0) _ _ e₁ in
    let (whole, e₄) = refuse-ok (not (end % 8 == 0)) _ _ _ _ e₃ in
    let (p, q, laid) = layout_loop_sound m.fields 0 offsets' end e₂ in
    let same : offsets' ≡ offsets = cc in
    let same_octets : end / 8 ≡ octets = cc in (ground arith, laid, sym same ∙ p, ground arith)

message_layout_complete :
    (allocates : ℕ → ℕ → Bool) (m : Message) (offsets : List ℕ) (octets : ℕ)
    → Described allocates m offsets octets
    → message_layout allocates m ≡ ok (offsets, octets)
unfolding message_layout
message_layout_complete allocates m offsets octets (given, laid, p, q) =
    rw (given, from_zero) (whole (not (total_width m.fields % 8 == 0)) (ground arith))
  where
    from_zero : layout_loop m.fields 0 ≡ ok (prefix_sums 0 m.fields, total_width m.fields)
    from_zero =
        layout_loop_complete m.fields 0 laid
        ∙ ap (λ (t : ℕ). ok (prefix_sums 0 m.fields, t)) (omega arith)

    whole :
        (b : Bool)
        → b ≡ false
        → let r : Result (List ℕ × ℕ) = ok (prefix_sums 0 m.fields, total_width m.fields / 8) in
          (refuse b m.location (ends_off_boundary m.name (total_width m.fields)) >> r)
          ≡ ok (offsets, octets)
    whole true k = cc
    whole false k = let half : total_width m.fields / 8 ≡ octets = omega arith in rw (half, p) refl

-- `message_layout` succeeds exactly where memory is given, each field but a field of bits begins at
-- an octet, the sizes fit a size_t, and the fields end at an octet; then it gives the sums of the
-- widths before each field, and as many octets as all the widths make.
pub message_layout-exact :
    (allocates : ℕ → ℕ → Bool) (m : Message) (offsets : List ℕ) (octets : ℕ)
    → (message_layout allocates m ≡ ok (offsets, octets)) ↔ (
        (allocates (length m.fields) 8 ≡ true)
        × IsLaidOut 0 m.fields
        × (offsets ≡ prefix_sums 0 m.fields)
        × (octets * 8 ≡ total_width m.fields))
message_layout-exact allocates m offsets octets = (
  message_layout_sound allocates m offsets octets,
  message_layout_complete allocates m offsets octets,
)
