-- ===== src/Records/Sizes.antt =====
-- compiler/records.c: how the parts of the image grow.
use wire_format.Base.{
  ℕ, suc, ◌+◌, ◌-◌, ◌*◌, ◌≤◌, ◌≡◌, refl, sym, ap, ◌∙◌, arith, true, false, ◌||◌, List, [], ◌∷◌,
  ◌++◌, append_assoc, append-nil, length, length-append, ltb, Option, none, some, u32, codes,
}
use wire_format.Json5.Value.{Value}
use wire_format.Compiler.Types.{Text, ok}
use wire_format.Compiler.Offsets.{bind-ok, refuse-ok, ok_injective}
use wire_format.Records.Json.{get, string, kind, c_text}
use wire_format.Records.Scopes.{Compiler}
use wire_format.Records.Emit.{append, limit}
use wire_format.Records.Fields.{message_program}
use wire_format.Records.Image.{
  put32, word, Parts, add_string, add_optional, add_properties, child_word, add_fields, fields_of,
  add_message, add_messages, row, add_rows,
}

pub append-ok : (b d r : Text) → append b d ≡ ok r → (r ≡ b ++ d) × (length r ≤ limit)
unfolding append
append-ok b d r h =
    let (fits, h₁) =
      refuse-ok (ltb limit (length d) || ltb (limit - length d) (length b)) _ _ _ _ h in
    let same = ok_injective (b ++ d) r h₁ in
    let size = length-append b d in rw (← same) (refl, rw size (ground arith))

word-length : (b r : Text) (n : ℕ) → word b n ≡ ok r → length r ≡ length b + 4
unfolding word put32
word-length b r n h =
    let (same, fits) = append-ok b (put32 n) r h in rw same (length-append b (put32 n))

-- The offsets grow by whole words, at least `n` of them.
abbrev pub Grows : ℕ → Parts → Parts → Type 0
Grows n p q = (k : ℕ) × (n ≤ k) × (length q.offsets ≡ length p.offsets + k * 4)

Grows-refl : (p : Parts) → Grows 0 p p
Grows-refl p = (0, omega arith, omega arith)

Grows-then : (m n : ℕ) (p q r : Parts) → Grows m p q → Grows n q r → Grows (m + n) p r
Grows-then m n p q r (j, h, e) (k, l, f) = (j + k, omega arith, omega arith)

add_string-Grows : (p q : Parts) (s : Option Text) → add_string p s ≡ ok q → Grows 1 p q
unfolding add_string
add_string-Grows p q none h =
    let (offsets, e, h₁) = bind-ok (word p.offsets 0xffff_ffff) _ _ h in
    let same = ok_injective (record p { offsets = offsets }) q h₁ in
    let size = word-length p.offsets offsets 0xffff_ffff e in
    rw (← same) (1, omega arith, omega arith)
add_string-Grows p q (some s) h =
    let (offsets, e, h₁) = bind-ok (word p.offsets (u32 (length p.strings))) _ _ h in
    let (strings, f, h₂) = bind-ok (append p.strings (c_text s ++ (0 ∷ []))) _ _ h₁ in
    let same = ok_injective (record p { offsets = offsets; strings = strings }) q h₂ in
    let size = word-length p.offsets offsets (u32 (length p.strings)) e in
    rw (← same) (1, omega arith, omega arith)

add_optional-Grows : (p q : Parts) (v : Option Value) → add_optional p v ≡ ok q → Grows 1 p q
unfolding add_optional
add_optional-Grows p q none h = add_string-Grows p q none h
add_optional-Grows p q (some v) h =
    let (s, e, h₁) = bind-ok (string (some v) false) _ _ h in add_string-Grows p q (some s) h₁

pub add_properties-Grows :
    (p q : Parts) (v : Option Value) (names : List Text)
    → add_properties p v names ≡ ok q
    → Grows (length names) p q
unfolding add_properties
add_properties-Grows p q v [] h = let same = ok_injective p q h in rw (← same) (Grows-refl p)
add_properties-Grows p q v (name ∷ later) h =
    let (r, e, h₁) = bind-ok (add_optional p (get v name)) _ _ h in
    let (j, i, m) = add_optional-Grows p r (get v name) e in
    let (k, l, n) = add_properties-Grows r q v later h₁ in (j + k, omega arith, omega arith)

add_fields-Grows :
    (messages : List Value) (p q : Parts) (fs : List Value)
    → add_fields messages p fs ≡ ok q
    → Grows 0 p q
unfolding add_fields
add_fields-Grows messages p q [] h = let same = ok_injective p q h in rw (← same) (Grows-refl p)
add_fields-Grows messages p q (f ∷ later) h =
    let (t, e, h₁) = bind-ok (kind f) _ _ h in
    let (name, e₁, h₂) = bind-ok (string (get (some f) (codes "name")) true) _ _ h₁ in
    let (p₁, e₂, h₃) = bind-ok (add_string p (some name)) _ _ h₂ in
    let (meta, e₃, h₄) = bind-ok (word p₁.meta (u32 t)) _ _ h₃ in
    let (child, e₄, h₅) = bind-ok (child_word messages f t) _ _ h₄ in
    let (meta', e₅, h₆) = bind-ok (word meta child) _ _ h₅ in
    let (k, l, m) = add_fields-Grows messages (record p₁ { meta = meta' }) q later h₆ in
    let (j, i, n) = add_string-Grows p p₁ (some name) e₂ in (j + k, omega arith, omega arith)

add_message-Grows :
    (c : Compiler) (p q : Parts) (m : Value) → add_message c p m ≡ ok q → Grows 0 p q
unfolding add_message
add_message-Grows c p q m h =
    let (name, e, h₁) = bind-ok (string (get (some m) (codes "name")) true) _ _ h in
    let (p₁, e₁, h₂) = bind-ok (add_string p (some name)) _ _ h₁ in
    let (p₂, e₂, h₃) = bind-ok (add_optional p₁ (get (some m) (codes "description"))) _ _ h₂ in
    let (encode, e₃, h₄) = bind-ok (message_program c false (fields_of m)) _ _ h₃ in
    let (p₃, e₄, h₅) = bind-ok (add_string p₂ (some encode)) _ _ h₄ in
    let (decode, e₅, h₆) = bind-ok (message_program c true (fields_of m)) _ _ h₅ in
    let (p₄, e₆, h₇) = bind-ok (add_string p₃ (some decode)) _ _ h₆ in
    let (a, x, i) = add_string-Grows p p₁ (some name) e₁ in
    let (b, y, j) = add_optional-Grows p₁ p₂ (get (some m) (codes "description")) e₂ in
    let (d, z, k) = add_string-Grows p₂ p₃ (some encode) e₄ in
    let (e', u, l) = add_string-Grows p₃ p₄ (some decode) e₆ in
    let (f, w, n) = add_fields-Grows c.messages p₄ q (fields_of m) h₇ in
    (a + b + d + e' + f, omega arith, omega arith)

-- There is a place for each message.
pub add_messages-Grows :
    (messages : List Value) (i : ℕ) (p q : Parts) (ms : List Value) (places : List (ℕ × ℕ))
    → add_messages messages i p ms ≡ ok (places, q)
    → Grows 0 p q × (length places ≡ length ms)
unfolding add_messages
add_messages-Grows messages i p q [] places h =
    let none_left : places ≡ [] = cc in
    let same : p ≡ q = cc in (rw (← same) (Grows-refl p), ap length none_left)
add_messages-Grows messages i p q (m ∷ later) places h =
    let (p₁, e, h₁) =
      bind-ok (add_message (record { messages = messages; current = i }) p m) _ _ h in
    let ((rest, p₂), e₁, h₂) = bind-ok (add_messages messages (i + 1) p₁ later) _ _ h₁ in
    let whole : (u32 (length p.offsets), u32 (length p.meta)) ∷ rest ≡ places = cc in
    let same : p₂ ≡ q = cc in
    let (grown, size) = add_messages-Grows messages (i + 1) p₁ p₂ later rest e₁ in
    (
      rw (← same) (
          Grows-then 0 0 p p₁ p₂
            (add_message-Grows (record { messages = messages; current = i }) p p₁ m e) grown),
      ap length (sym whole) ∙ ap suc size,
    )

row-length : (count : ℕ) (p : Parts) (n : ℕ) (place : ℕ × ℕ) → length (row count p n place) ≡ 32
unfolding row put32
row-length count p n (section, metadata) = refl

pub add_rows-length :
    (count : ℕ) (p : Parts) (image r : List ℕ) (ms : List Value) (places : List (ℕ × ℕ))
    → length places ≡ length ms
    → add_rows count p image ms places ≡ ok r
    → (rows : List ℕ) × (r ≡ image ++ rows) × (length rows ≡ length ms * 32)
unfolding add_rows
add_rows-length count p image r [] places l h =
    let same = ok_injective image r h in ([], sym same ∙ sym (append-nil image), refl)
add_rows-length count p image r (m ∷ later) [] l h = cc
add_rows-length count p image r (m ∷ later) (place ∷ places) l h =
    let (next, e, h₁) = bind-ok (append image (row count p (length (fields_of m)) place)) _ _ h in
    let (same, fits) = append-ok image (row count p (length (fields_of m)) place) next e in
    let (rows, more, size) = add_rows-length count p next r later places (omega arith) h₁ in
    let one = row-length count p (length (fields_of m)) place in
    let both = length-append (row count p (length (fields_of m)) place) rows in
    (
      row count p (length (fields_of m)) place ++ rows,
      more
          ∙ ap (λ (t : List ℕ). t ++ rows) same
          ∙ append_assoc image (row count p (length (fields_of m)) place) rows,
      omega arith,
    )
