-- ===== src/Records/Scopes.antt =====
-- compiler/records.c: messages by name, and the fields that a reference may mean. A uint64_t mask
-- of messages is the list of its bits, the bit of message 0 first.
use wire_format.Base.{
  ℕ, zero, suc, ◌+◌, Bool, true, false, not, ◌&&◌, ◌||◌, List, [], ◌∷◌, length, drop, get_or,
  if◌then◌else◌, Option, none, some, codes,
}
use wire_format.Json5.Value.{Value, starts_with}
use wire_format.Compiler.Types.{Text, Result, ok, ◌>>=◌, unknown_reference, endless_search}
use wire_format.Compiler.Util.{same_text}
use wire_format.Records.Json.{fail, get, array_of, string}

-- `compiler`: the messages of the protocol, and the one that is compiled.
pub record Compiler : Type 0 where
  pub messages : List Value
  pub current : ℕ

abbrev pub Mask : Type 0
Mask = List Bool

unfoldable pub message_from : ℕ → List Value → Text → Result (Option ℕ)
message_from i [] name = ok none
message_from i (m ∷ later) name = do
  s ← string (get (some m) (codes "name")) true
  if same_text s name then ok (some i) else message_from (i + 1) later name

-- `message_id`, with `none` for -1.
abbrev pub message_id : List Value → Text → Result (Option ℕ)
message_id messages name = message_from 0 messages name

unfoldable pub field_among : List Value → Text → Result Bool
field_among [] name = ok false
field_among (f ∷ later) name = do
  s ← string (get (some f) (codes "name")) true
  if same_text s name then ok true else field_among later name

unfoldable pub local_field : Value → Text → Result Bool
local_field m name = elim (array_of (get (some m) (codes "fields"))) [
  | none ↦ ok false
  | some fields ↦ field_among fields name
]

abbrev pub in_mask : Mask → Option ℕ → Bool
in_mask mask none = false
in_mask mask (some i) = get_or mask i false

-- Whether a field of the message has a child message of the mask.
unfoldable pub has_child : List Value → Mask → List Value → Bool → Result Bool
has_child messages mask [] found = ok found
has_child messages mask (f ∷ later) found = elim (get (some f) (codes "message")) [
  | none ↦ has_child messages mask later found
  | some child ↦ do
    name ← string (some child) true
    i ← message_id messages name
    has_child messages mask later (found || in_mask mask i)
]

unfoldable pub parents_from : List Value → Mask → List Value → Result Mask
parents_from messages mask [] = ok []
parents_from messages mask (m ∷ later) = do
  found ← elim (array_of (get (some m) (codes "fields"))) [
    | none ↦ ok false
    | some fields ↦ has_child messages mask fields false
  ]
  rest ← parents_from messages mask later
  ok (found ∷ rest)

abbrev pub parents : List Value → Mask → Result Mask
parents messages mask = parents_from messages mask messages

unfoldable pub any : Mask → Bool
any [] = false
any (b ∷ mask) = b || any mask

-- `seen | mask`, and `mask & ~seen`
unfoldable pub union : Mask → Mask → Mask
union [] bs = bs
union (a ∷ as') [] = a ∷ as'
union (a ∷ as') (b ∷ bs) = (a || b) ∷ union as' bs

unfoldable pub without : Mask → Mask → Mask
without [] seen = []
without (a ∷ as') [] = a ∷ as'
without (a ∷ as') (s ∷ seen) = (a && not s) ∷ without as' seen

unfoldable pub found_in : Mask → List Value → Text → Result Bool
found_in mask [] name = ok false
found_in [] (m ∷ later) name = ok false
found_in (b ∷ mask) (m ∷ later) name = do
  here ← if b then local_field m name else ok false
  if here then ok true else found_in mask later name

-- The loop over the scopes, on fuel; `none` says that it ran out.
unfoldable pub search_scopes : ℕ → List Value → Mask → Mask → Text → Result (Option Bool)
search_scopes zero messages scopes seen name = ok none
search_scopes (suc fuel) messages scopes seen name = elim (any scopes) [
  | false ↦ ok (some false)
  | true ↦ do
    found ← found_in scopes messages name
    elim found [
      | true ↦ ok (some true)
      | false ↦ do
        above ← parents messages scopes
        search_scopes fuel messages (without above (union seen scopes)) (union seen scopes) name
    ]
]

-- Each `parent.` in front goes one scope up; on fuel, likewise.
unfoldable pub strip_parents : ℕ → List Value → Mask → Text → Result (Option (Mask × Text))
strip_parents zero messages scopes name = ok none
strip_parents (suc fuel) messages scopes name = elim (starts_with (codes "parent.") name) [
  | false ↦ ok (some (scopes, name))
  | true ↦ do above ← parents messages scopes; strip_parents fuel messages above (drop 7 name)
]

unfoldable pub clear : List Value → Mask
clear [] = []
clear (m ∷ later) = false ∷ clear later

-- `1 << current`
unfoldable pub only : ℕ → List Value → Mask
only current [] = []
only zero (m ∷ later) = true ∷ clear later
only (suc current) (m ∷ later) = false ∷ only current later

-- The search of a reference: whether it is found, or `none` where a loop ran out of fuel.
unfoldable pub scope_search : ℕ → ℕ → Compiler → Text → Result (Option Bool)
scope_search strips rounds c name = do
  left ← strip_parents strips c.messages (only c.current c.messages) name
  elim left [
    | none ↦ ok none
    | some (scopes, local) ↦ search_scopes rounds c.messages scopes [] local
  ]

-- `none` is a search that does not end, which has no message in the code.
abbrev pub found_or_fail : Option Value → Text → Option Bool → Result Text
found_or_fail v name (some true) = ok name
found_or_fail v name (some false) = fail v unknown_reference
found_or_fail v name none = fail v endless_search

unfoldable pub reference : Compiler → Option Value → Result Text
reference c v = do
  name ← string v true
  found ← scope_search (suc (length name)) (suc (length c.messages)) c name
  found_or_fail v name found
