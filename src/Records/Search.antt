-- ===== src/Records/Search.antt =====
-- compiler/records.c: the loops of `reference` end; the fuel that the model gives them is enough.
use wire_format.Base.{
  ◌∙◌, Option, none, some, ℕ, zero, suc, ◌+◌, ◌≤◌, ◌<◌, ◌≡◌, refl, ap, arith, Bool, true, false,
  List, [], ◌∷◌, length, length-drop, drop, codes,
}
use wire_format.Json5.Value.{Value, starts_with}
use wire_format.Compiler.Types.{Text, Result, ok, err, ◌>>=◌}
use wire_format.Compiler.Offsets.{bind-ok}
use wire_format.Records.Scopes.{
  Mask, parents, any, union, without, found_in, search_scopes, scope_search, strip_parents,
  Compiler, only, clear,
}
use wire_format.Records.Masks.{
  bits, Apart, without-Apart, bits_le, length-without, length-union, bits-union, any-bits,
  length-parents_from,
}

bind-same {ℓ κ} :
    {A : Type ℓ} {B : Type κ} (m : Result A) (f g : A → Result B)
    → ((a : A) → m ≡ ok a → f a ≡ g a)
    → (m >>= f) ≡ (m >>= g)
bind-same (ok a) f g h = h a refl
bind-same (err l p) f g h = refl

-- An answer or a refusal, and not the end of the fuel.
abbrev Answers {ℓ} : {A : Type ℓ} → Result (Option A) → Type ℓ
Answers {A = A} x = (r : Result A) × (x ≡ (r >>= λ a. ok (some a)))

bind-Answers {ℓ κ} :
    {A : Type ℓ} {B : Type κ} (m : Result A) (f : A → Result (Option B))
    → ((a : A) → m ≡ ok a → Answers (f a))
    → Answers (m >>= f)
bind-Answers (ok a) f h = h a refl
bind-Answers (err l p) f h = (err l p, refl)

search_scopes-Answers :
    (messages : List Value) (name : Text) (fuel : ℕ) (scopes seen : Mask)
    → length messages < fuel + bits seen
    → length scopes ≤ length messages
    → length seen ≤ length messages
    → Apart scopes seen
    → Answers (search_scopes fuel messages scopes seen name)
unfolding search_scopes
search_scopes-Answers messages name zero scopes seen enough s k apart =
    let h = bits_le seen in absurd (omega arith)
search_scopes-Answers messages name (suc fuel) scopes seen enough s k apart =
    go (any scopes) refl (λ some_scope above e.
      let grown = bits-union scopes seen apart in
      let new = any-bits scopes some_scope in
      let same = length-parents_from messages scopes messages above e in
      let shorter = length-without above (union seen scopes) in
      search_scopes-Answers messages name fuel (without above (union seen scopes))
        (union seen scopes) (omega arith) (omega arith)
        (length-union (length messages) seen scopes k s) (without-Apart above (union seen scopes)))
  where
    next : Mask → Result (Option Bool)
    next above =
        search_scopes fuel messages (without above (union seen scopes)) (union seen scopes) name

    Again : Type 0
    Again =
        any scopes ≡ true
        → (above : Mask) → parents messages scopes ≡ ok above
        → Answers (next above)

    found_answers :
        Again
        → any scopes ≡ true
        → (found : Bool)
        → Answers (elim found as (λ b. Result (Option Bool)) [
          | true ↦ ok (some true)
          | false ↦ parents messages scopes >>= next
        ])
    found_answers again some_scope true = (ok true, refl)
    found_answers again some_scope false =
        bind-Answers (parents messages scopes) next (again some_scope)

    go :
        (b : Bool)
        → any scopes ≡ b
        → Again
        → Answers (elim b as (λ b. Result (Option Bool)) [
          | false ↦ ok (some false)
          | true ↦ found_in scopes messages name >>= λ found.
              elim found as (λ b. Result (Option Bool)) [
                | true ↦ ok (some true)
                | false ↦ parents messages scopes >>= next
              ]
        ])
    go false e again = (ok false, refl)
    go true e again =
        bind-Answers (found_in scopes messages name) _ (λ found same. found_answers again e found)

-- Each round but the last adds a message to `seen`.
search_scopes-more :
    (messages : List Value) (name : Text) (fuel more : ℕ) (scopes seen : Mask)
    → fuel ≤ more
    → length messages < fuel + bits seen
    → length scopes ≤ length messages
    → length seen ≤ length messages
    → Apart scopes seen
    → search_scopes more messages scopes seen name ≡ search_scopes fuel messages scopes seen name
unfolding search_scopes
search_scopes-more messages name zero more scopes seen l enough s k apart =
    let h = bits_le seen in absurd (omega arith)
search_scopes-more messages name (suc fuel) zero scopes seen l enough s k apart =
    absurd (omega arith)
search_scopes-more messages name (suc fuel) (suc more) scopes seen l enough s k apart =
    go (any scopes) refl (λ some_scope above e.
      let grown = bits-union scopes seen apart in
      let new = any-bits scopes some_scope in
      let same = length-parents_from messages scopes messages above e in
      let shorter = length-without above (union seen scopes) in
      search_scopes-more messages name fuel more (without above (union seen scopes))
        (union seen scopes) (omega arith) (omega arith) (omega arith)
        (length-union (length messages) seen scopes k s) (without-Apart above (union seen scopes)))
  where
    next : ℕ → Mask → Result (Option Bool)
    next n above =
        search_scopes n messages (without above (union seen scopes)) (union seen scopes) name

    Again : Type 0
    Again =
        any scopes ≡ true
        → (above : Mask) → parents messages scopes ≡ ok above
        → next more above ≡ next fuel above

    found_same :
        Again
        → any scopes ≡ true
        → (found : Bool)
        → (elim found as (λ b. Result (Option Bool)) [
          | true ↦ ok (some true)
          | false ↦ parents messages scopes >>= next more
        ])
          ≡ (elim found as (λ b. Result (Option Bool)) [
            | true ↦ ok (some true)
            | false ↦ parents messages scopes >>= next fuel
          ])
    found_same again some_scope true = refl
    found_same again some_scope false = bind-same (parents messages scopes) _ _ (again some_scope)

    go :
        (b : Bool)
        → any scopes ≡ b
        → Again
        → (elim b as (λ b. Result (Option Bool)) [
          | false ↦ ok (some false)
          | true ↦ found_in scopes messages name >>= λ found.
              elim found as (λ b. Result (Option Bool)) [
                | true ↦ ok (some true)
                | false ↦ parents messages scopes >>= next more
              ]
        ])
          ≡ (elim b as (λ b. Result (Option Bool)) [
            | false ↦ ok (some false)
            | true ↦ found_in scopes messages name >>= λ found.
                elim found as (λ b. Result (Option Bool)) [
                  | true ↦ ok (some true)
                  | false ↦ parents messages scopes >>= next fuel
                ]
          ])
    go false e again = refl
    go true e again =
        bind-same (found_in scopes messages name) _ _ (λ found same. found_same again e found)

search_scopes-ends :
    (messages : List Value) (name : Text) (scopes : Mask) (more : ℕ)
    → length scopes ≤ length messages
    → suc (length messages) ≤ more
    → search_scopes more messages scopes [] name
      ≡ search_scopes (suc (length messages)) messages scopes [] name
unfolding Apart bits
search_scopes-ends messages name scopes more l k =
    search_scopes-more messages name (suc (length messages)) more scopes [] k (omega arith) l
      (omega arith) (start scopes)
  where
    start : (mask : Mask) → Apart mask []
    start [] = tt
    start (b ∷ mask) = tt

strip_parents-Answers :
    (messages : List Value) (fuel : ℕ) (scopes : Mask) (name : Text)
    → length name < fuel
    → Answers (strip_parents fuel messages scopes name)
unfolding strip_parents starts_with
strip_parents-Answers messages zero scopes name l = absurd (omega arith)
strip_parents-Answers messages (suc fuel) scopes [] l = (ok (scopes, []), refl)
strip_parents-Answers messages (suc fuel) scopes (c ∷ name) l =
    go (starts_with (codes "parent.") (c ∷ name)) (λ above.
      strip_parents-Answers messages fuel above (drop 6 name) (omega (arith, length-drop 6 name)))
  where
    go :
        (b : Bool)
        → ((above : Mask) → Answers (strip_parents fuel messages above (drop 6 name)))
        → Answers (elim b as (λ b. Result (Option (Mask × Text))) [
          | false ↦ ok (some (scopes, c ∷ name))
          | true ↦
              parents messages scopes >>= λ above. strip_parents fuel messages above (drop 6 name)
        ])
    go false again = (ok (scopes, c ∷ name), refl)
    go true again = bind-Answers (parents messages scopes) _ (λ above e. again above)

strip_parents-more :
    (messages : List Value) (fuel more : ℕ) (scopes : Mask) (name : Text)
    → length name < fuel
    → fuel ≤ more
    → strip_parents more messages scopes name ≡ strip_parents fuel messages scopes name
unfolding strip_parents starts_with
strip_parents-more messages zero more scopes name l k = absurd (omega arith)
strip_parents-more messages (suc fuel) zero scopes name l k = absurd (omega arith)
strip_parents-more messages (suc fuel) (suc more) scopes [] l k = refl
strip_parents-more messages (suc fuel) (suc more) scopes (c ∷ name) l k =
    go (starts_with (codes "parent.") (c ∷ name)) (λ above.
      strip_parents-more messages fuel more above (drop 6 name) (omega (arith, length-drop 6 name))
        (omega arith))
  where
    go :
        (b : Bool)
        → ((above : Mask)
            → strip_parents more messages above (drop 6 name)
              ≡ strip_parents fuel messages above (drop 6 name))
        → (elim b as (λ b. Result (Option (Mask × Text))) [
          | false ↦ ok (some (scopes, c ∷ name))
          | true ↦
              parents messages scopes >>= λ above. strip_parents more messages above (drop 6 name)
        ])
          ≡ (elim b as (λ b. Result (Option (Mask × Text))) [
            | false ↦ ok (some (scopes, c ∷ name))
            | true ↦
                parents messages scopes >>= λ above. strip_parents fuel messages above (drop 6 name)
          ])
    go false again = refl
    go true again = bind-same (parents messages scopes) _ _ (λ above e. again above)

length-strip_parents :
    (messages : List Value) (fuel : ℕ) (scopes left : Mask) (name rest : Text)
    → length scopes ≤ length messages
    → strip_parents fuel messages scopes name ≡ ok (some (left, rest))
    → length left ≤ length messages
unfolding strip_parents
length-strip_parents messages zero scopes left name rest l h = cc
length-strip_parents messages (suc fuel) scopes left name rest l h =
    go (starts_with (codes "parent.") name)
      (λ above e again.
        let same = length-parents_from messages scopes messages above e in
        length-strip_parents messages fuel above left (drop 7 name) rest (omega arith) again)
      h
  where
    go :
        (b : Bool)
        → ((above : Mask)
            → parents messages scopes ≡ ok above
            → strip_parents fuel messages above (drop 7 name) ≡ ok (some (left, rest))
            → length left ≤ length messages)
        → (elim b as (λ b. Result (Option (Mask × Text))) [
          | false ↦ ok (some (scopes, name))
          | true ↦
              parents messages scopes >>= λ above. strip_parents fuel messages above (drop 7 name)
        ])
          ≡ ok (some (left, rest))
        → length left ≤ length messages
    go false again h = let same : scopes ≡ left = cc in rw (← same) l
    go true again h =
        let (above, e, h₁) = bind-ok (parents messages scopes) _ _ h in again above e h₁

length-clear : (xs : List Value) → length (clear xs) ≡ length xs
unfolding clear
length-clear [] = refl
length-clear (x ∷ xs) = ap suc (length-clear xs)

length-only :
    (current : ℕ) (messages : List Value) → length (only current messages) ≤ length messages
unfolding only
length-only current [] = omega arith
length-only zero (m ∷ later) = omega (arith, length-clear later)
length-only (suc current) (m ∷ later) = let h = length-only current later in omega arith

none_seen : (mask : Mask) → Apart mask []
unfolding Apart
none_seen [] = tt
none_seen (b ∷ mask) = tt

-- The two loops of `reference` end, whichever the names and the children of the messages are: with a
-- fuel above the length of the name and one above the number of messages, the search gives an answer
-- or a refusal, and neither loop runs out; and more fuel gives the same.
pub reference-ends :
    (c : Compiler) (name : Text) (strips rounds : ℕ)
    → length name < strips
    → length c.messages < rounds
    → ((r : Result Bool) × (scope_search strips rounds c name ≡ (r >>= λ found. ok (some found))))
      × (scope_search strips rounds c name
          ≡ scope_search (suc (length name)) (suc (length c.messages)) c name)
unfolding scope_search Apart bits
reference-ends c name strips rounds l k = (
  answered (strip_parents-Answers c.messages strips (only c.current c.messages) name l)
      (λ scopes local e.
        length-strip_parents c.messages strips (only c.current c.messages) scopes name local
          (length-only c.current c.messages) e),
  rw
      (strip_parents-more c.messages (suc (length name)) strips (only c.current c.messages) name
        (omega arith) (omega arith))
      (bind-same (strip_parents (suc (length name)) c.messages (only c.current c.messages) name) _ _
        (λ left e. same left (λ scopes local g.
          length-strip_parents c.messages (suc (length name)) (only c.current c.messages) scopes
            name local (length-only c.current c.messages)
            (e ∙ ap (λ (x : Option (Mask × Text)). ok x) g)))),
)
  where
    search : ℕ → Option (Mask × Text) → Result (Option Bool)
    search n left = elim left as (λ o. Result (Option Bool)) [
      | none ↦ ok none
      | some (scopes, local) ↦ search_scopes n c.messages scopes [] local
    ]

    answered :
        {x : Result (Option (Mask × Text))}
        → Answers x
        → ((scopes : Mask) (local : Text)
            → x ≡ ok (some (scopes, local))
            → length scopes ≤ length c.messages)
        → Answers (x >>= search rounds)
    answered (err p q, e) h = (err p q, rw e refl)
    answered (ok (scopes, local), e) h = rw e (
        search_scopes-Answers c.messages local rounds scopes [] (omega arith) (h scopes local e)
          (omega arith) (none_seen scopes))

    same :
        (left : Option (Mask × Text))
        → ((scopes : Mask) (local : Text)
            → left ≡ some (scopes, local)
            → length scopes ≤ length c.messages)
        → search rounds left ≡ search (suc (length c.messages)) left
    same none h = refl
    same (some (scopes, local)) h =
        search_scopes-ends c.messages local scopes rounds (h scopes local refl) (omega arith)
