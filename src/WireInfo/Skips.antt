-- ===== src/WireInfo/Skips.antt =====
-- wire_info.c and wire_format.c: the operands that the loader takes, and how `skip_branch` passes over
-- them.
use wire_format.Base.{
  ℕ, ◌+◌, ◌-◌, ◌*◌, ◌/◌, ◌≡◌, ◌≢◌, refl, ap, ◌∙◌, arith, Bool, true, false, not, ◌||◌, List, [],
  ◌∷◌, ltb, leb, ◌==◌, if◌then◌else◌, u64_max, Option, none, some, inl, inr, ◌⊎◌,
}
use wire_format.Machine.Buffer.{peek}
use wire_format.Machine.Text.{plain, chars, braced, skip_loop}
use wire_format.WireInfo.Program.{
  is_digit, name_char, name_loop, identifier, literal_loop, literal, rows_loop, rows, among,
  one_name, two_names, no_name, extension,
}

-- A character other than % is passed over.
skip_loop-plain :
    (c : ℕ) (s : List ℕ) (d : ℕ) (a : Bool)
    → (c == b'%') ≡ false
    → skip_loop (c ∷ s) plain d a ≡ skip_loop s plain d a
unfolding skip_loop
skip_loop-plain c [] d a h = refl
skip_loop-plain c (op ∷ s) d a h = rw (skip_loop, h) refl

skip_loop-braced :
    (c : ℕ) (s : List ℕ) (d : ℕ) (a : Bool)
    → (c == b'}') ≡ false
    → skip_loop (c ∷ s) braced d a ≡ skip_loop s braced d a
unfolding skip_loop
skip_loop-braced c s d a h = rw (h) refl

skip_loop-close :
    (c : ℕ) (s : List ℕ) (d : ℕ) (a : Bool)
    → (c == b'}') ≡ true
    → skip_loop (c ∷ s) braced d a ≡ skip_loop s plain d a
unfolding skip_loop
skip_loop-close c s d a h = rw (h) refl

-- What each loop did with the next character.
pub name_loop-cases :
    (n c : ℕ) (s r : List ℕ)
    → name_loop n (c ∷ s) ≡ some r
    → (((c == b'}') ≡ true) × (s ≡ r))
      ⊎ (((c == b'}') ≡ false) × ((c == b'%') ≡ false) × (name_loop (n + 1) s ≡ some r))
unfolding name_loop
name_loop-cases n c s r h =
    go (c == b'}') (n == 0) (name_char c) (leb 192 (n + 1)) refl (λ e. ground arith) h
  where
    go :
        (b z m l : Bool)
        → (c == b'}') ≡ b
        → (m ≡ true → (c == b'%') ≡ false)
        → (if b
            then if z then none else some s
            else if not m
            then none
            else if l
            then none
            else name_loop (n + 1) s)
          ≡ some r
        → (((c == b'}') ≡ true) × (s ≡ r))
          ⊎ (((c == b'}') ≡ false) × ((c == b'%') ≡ false) × (name_loop (n + 1) s ≡ some r))
    go true true m l e k g = cc
    go true false m l e k g = inl (e, cc)
    go false z false l e k g = cc
    go false z true true e k g = cc
    go false z true false e k g = inr (e, k refl, g)

pub literal_loop-cases :
    (n c : ℕ) (s r : List ℕ)
    → literal_loop n (c ∷ s) ≡ some r
    → (((c == b'}') ≡ true) × (s ≡ r))
      ⊎ (((c == b'}') ≡ false) × (literal_loop (n * 10 + (c - b'0')) s ≡ some r))
unfolding literal_loop
literal_loop-cases n c s r h =
    go (is_digit c) (ltb ((u64_max - (c - b'0')) / 10) n) (c == b'}') refl (λ e. ground arith) h
  where
    go :
        (m l b : Bool)
        → (c == b'}') ≡ b
        → (m ≡ true → (c == b'}') ≡ false)
        → (if m
            then if l then none else literal_loop (n * 10 + (c - b'0')) s
            else if b
            then some s
            else none)
          ≡ some r
        → (((c == b'}') ≡ true) × (s ≡ r))
          ⊎ (((c == b'}') ≡ false) × (literal_loop (n * 10 + (c - b'0')) s ≡ some r))
    go true true b e k g = cc
    go true false b e k g = inr (k refl, g)
    go false l true e k g = inl (e, cc)
    go false l false e k g = cc

pub rows_loop-cases :
    (rank n d c : ℕ) (s r : List ℕ)
    → rows_loop rank n d (c ∷ s) ≡ some r
    → ((c == b'%') ≡ false)
      × ((rows_loop rank (n * 10 + (c - b'0')) (d + 1) s ≡ some r) ⊎ (identifier s ≡ some r))
unfolding rows_loop
rows_loop-cases rank n d c s r h =
    go (is_digit c) (ltb 2 (d + 1)) (d == 0 || leb rank n) (c == b']') (λ e. ground arith)
      (λ e. ground arith) h
  where
    go :
        (m l z b : Bool)
        → (m ≡ true → (c == b'%') ≡ false)
        → (b ≡ true → (c == b'%') ≡ false)
        → (if m
            then if l then none else rows_loop rank (n * 10 + (c - b'0')) (d + 1) s
            else if z || not b
            then none
            else identifier s)
          ≡ some r
        → ((c == b'%') ≡ false)
          × ((rows_loop rank (n * 10 + (c - b'0')) (d + 1) s ≡ some r) ⊎ (identifier s ≡ some r))
    go true true z b j k g = cc
    go true false z b j k g = (j refl, inl g)
    go false l true b j k g = cc
    go false l false false j k g = cc
    go false l false true j k g = (k refl, inr g)

pub name_loop_end : (n : ℕ) (r : List ℕ) → name_loop n [] ≢ some r
unfolding name_loop
name_loop_end n r h = cc

pub literal_loop_end : (n : ℕ) (r : List ℕ) → literal_loop n [] ≢ some r
unfolding literal_loop
literal_loop_end n r h = cc

pub rows_loop_end : (rank n e : ℕ) (r : List ℕ) → rows_loop rank n e [] ≢ some r
unfolding rows_loop
rows_loop_end rank n e r h = cc

name_loop-plain :
    (n : ℕ) (s r : List ℕ) (d : ℕ) (a : Bool)
    → name_loop n s ≡ some r
    → skip_loop s plain d a ≡ skip_loop r plain d a
name_loop-plain n [] r d a h = absurd (name_loop_end n r h)
name_loop-plain n (c ∷ s) r d a h = elim (name_loop-cases n c s r h) [
  | inl (e, p) ↦
      skip_loop-plain c s d a (ground arith) ∙ ap (λ (t : List ℕ). skip_loop t plain d a) p
  | inr (e, f, k) ↦ skip_loop-plain c s d a f ∙ name_loop-plain (n + 1) s r d a k
]

name_loop-braced :
    (n : ℕ) (s r : List ℕ) (d : ℕ) (a : Bool)
    → name_loop n s ≡ some r
    → skip_loop s braced d a ≡ skip_loop r plain d a
name_loop-braced n [] r d a h = absurd (name_loop_end n r h)
name_loop-braced n (c ∷ s) r d a h = elim (name_loop-cases n c s r h) [
  | inl (e, p) ↦ skip_loop-close c s d a e ∙ ap (λ (t : List ℕ). skip_loop t plain d a) p
  | inr (e, f, k) ↦ skip_loop-braced c s d a e ∙ name_loop-braced (n + 1) s r d a k
]

literal_loop-braced :
    (n : ℕ) (s r : List ℕ) (d : ℕ) (a : Bool)
    → literal_loop n s ≡ some r
    → skip_loop s braced d a ≡ skip_loop r plain d a
literal_loop-braced n [] r d a h = absurd (literal_loop_end n r h)
literal_loop-braced n (c ∷ s) r d a h = elim (literal_loop-cases n c s r h) [
  | inl (e, p) ↦ skip_loop-close c s d a e ∙ ap (λ (t : List ℕ). skip_loop t plain d a) p
  | inr (e, k) ↦ skip_loop-braced c s d a e ∙ literal_loop-braced (n * 10 + (c - b'0')) s r d a k
]

-- An identifier is passed over from before its brace, in either mode.
pub identifier-rest :
    (s r : List ℕ) (d : ℕ) (a : Bool)
    → identifier s ≡ some r
    → ((peek s == b'{') ≡ true)
      × (skip_loop s plain d a ≡ skip_loop r plain d a)
      × (skip_loop s braced d a ≡ skip_loop r plain d a)
unfolding identifier
identifier-rest [] r d a h = cc
identifier-rest (c ∷ s) r d a h = go (c == b'{') refl h
  where
    go :
        (b : Bool)
        → (c == b'{') ≡ b
        → (if b then name_loop 0 s else none) ≡ some r
        → ((c == b'{') ≡ true)
          × (skip_loop (c ∷ s) plain d a ≡ skip_loop r plain d a)
          × (skip_loop (c ∷ s) braced d a ≡ skip_loop r plain d a)
    go true e k = (
      e,
      skip_loop-plain c s d a (ground arith) ∙ name_loop-plain 0 s r d a k,
      skip_loop-braced c s d a (ground arith) ∙ name_loop-braced 0 s r d a k,
    )
    go false e k = cc

rows_loop-plain :
    (rank n e : ℕ) (s r : List ℕ) (d : ℕ) (a : Bool)
    → rows_loop rank n e s ≡ some r
    → skip_loop s plain d a ≡ skip_loop r plain d a
rows_loop-plain rank n e [] r d a h = absurd (rows_loop_end rank n e r h)
rows_loop-plain rank n e (c ∷ s) r d a h =
    let (f, g) = rows_loop-cases rank n e c s r h in
    elim g [
      | inl k ↦
          skip_loop-plain c s d a f ∙ rows_loop-plain rank (n * 10 + (c - b'0')) (e + 1) s r d a k
      | inr k ↦ skip_loop-plain c s d a f ∙ (identifier-rest s r d a k).1
    ]

pub rows-rest :
    (rank : ℕ) (s r : List ℕ) (d : ℕ) (a : Bool)
    → rows rank s ≡ some r
    → ((peek s == b'{') ≡ false) × (skip_loop s plain d a ≡ skip_loop r plain d a)
unfolding rows
rows-rest rank [] r d a h = cc
rows-rest rank (c ∷ s) r d a h = go (c == b'[') refl h
  where
    go :
        (b : Bool)
        → (c == b'[') ≡ b
        → (if b then rows_loop rank 0 0 s else none) ≡ some r
        → ((c == b'{') ≡ false) × (skip_loop (c ∷ s) plain d a ≡ skip_loop r plain d a)
    go true e k =
        (ground arith, skip_loop-plain c s d a (ground arith) ∙ rows_loop-plain rank 0 0 s r d a k)
    go false e k = cc

pub literal-rest :
    (s r : List ℕ) (d : ℕ) (a : Bool)
    → literal s ≡ some r
    → skip_loop s braced d a ≡ skip_loop r plain d a
unfolding literal
literal-rest [] r d a h = cc
literal-rest (c ∷ s) r d a h = go (is_digit c) h
  where
    go :
        (b : Bool)
        → (if b then literal_loop 0 (c ∷ s) else none) ≡ some r
        → skip_loop (c ∷ s) braced d a ≡ skip_loop r plain d a
    go true k = literal_loop-braced 0 (c ∷ s) r d a k
    go false k = cc

skip_loop-one :
    (c : ℕ) (s : List ℕ) (d : ℕ) (a : Bool)
    → skip_loop (c ∷ s) (chars 1) d a ≡ skip_loop s plain d a
unfolding skip_loop
skip_loop-one c s d a = refl

pub extension-rest :
    (s r : List ℕ) (d : ℕ) (a : Bool)
    → extension s ≡ some r
    → ((peek s == b'{') ≡ false) × (skip_loop s (chars 1) d a ≡ skip_loop r plain d a)
unfolding extension
extension-rest [] r d a h = cc
extension-rest (op ∷ s) r d a h =
    go (among op one_name) (among op two_names) (among op no_name) (λ e. ground arith)
      (λ e. ground arith) (λ e. ground arith) (identifier s) refl h
  where
    go :
        (x y z : Bool)
        → (x ≡ true → (op == b'{') ≡ false)
        → (y ≡ true → (op == b'{') ≡ false)
        → (z ≡ true → (op == b'{') ≡ false)
        → (o : Option (List ℕ)) → identifier s ≡ o
        → (if x
            then o
            else if y
            then elim o [ none ↦ none | some t ↦ identifier t ]
            else if z
            then some s
            else none)
          ≡ some r
        → ((op == b'{') ≡ false) × (skip_loop (op ∷ s) (chars 1) d a ≡ skip_loop r plain d a)
    go true y z i j k o p g = (i refl, skip_loop-one op s d a ∙ (identifier-rest s r d a (p ∙ g)).1)
    go false true z i j k none p g = cc
    go false true z i j k (some t) p g = (
      j refl,
      skip_loop-one op s d a ∙ (identifier-rest s t d a p).1 ∙ (identifier-rest t r d a g).1,
    )
    go false false true i j k o p g =
        (k refl, skip_loop-one op s d a ∙ ap (λ (t : List ℕ). skip_loop t plain d a) cc)
    go false false false i j k o p g = cc
