-- ===== src/Compiler/Check.antt =====
-- compiler/check.c: the check of a protocol. That of version 4, `wfc_records_check` of
-- compiler/records.c, is an argument.
use wire_format.Base.{
  ℕ, ◌+◌, ◌-◌, Bool, not, List, [], ◌∷◌, leb, ltb, ◌==◌, length, if◌then◌else◌, u64_max, Option,
  none, some,
}
use wire_format.Compiler.Types.{
  Text, Location, Problem, Vector, Message, Protocol, Summary, Result, ok, err, refuse, ◌>>=◌, ◌>>◌,
  empty_description, empty_standard, empty_reference, empty_message_description, sizes_too_large,
  out_of_bounds,
}
use wire_format.Records.Generate.{records_check}
use wire_format.Compiler.Text.{text_present}
use wire_format.Compiler.Layout.{message_layout}
use wire_format.Compiler.Vector.{check_vector_v1}
use wire_format.Compiler.VectorV3.{check_vector_v3}

unfoldable pub check_vector :
    (ℕ → ℕ → Bool) → Protocol → Message → List ℕ → ℕ → Vector → Result (Unit {0})
check_vector allocates p m offsets octets v =
    if leb 3 p.version
    then check_vector_v3 allocates p m v
    else check_vector_v1 allocates p m offsets octets v

-- Refuses a text that shows nothing; a read out of bounds is an error of its own here.
abbrev pub require_text : Option Bool → Location → Problem → Result (Unit {0})
require_text none l p = err l out_of_bounds
require_text (some present) l p = refuse (not present) l p

abbrev pub require_optional : Option Text → Location → Problem → Result (Unit {0})
require_optional none l p = ok tt
require_optional (some text) l p = require_text (text_present text) l p

-- The loop over a message's vectors.
unfoldable pub check_vectors :
    (ℕ → ℕ → Bool) → Protocol → Message → List ℕ → ℕ → List Vector → Summary → Result Summary
check_vectors allocates p m offsets octets [] summary = ok summary
check_vectors allocates p m offsets octets (v ∷ later) summary = do
  check_vector allocates p m offsets octets v
  check_vectors allocates p m offsets octets later
      (record summary { vectors = summary.vectors + 1 })

unfoldable pub check_message : (ℕ → ℕ → Bool) → Protocol → Message → Summary → Result Summary
check_message allocates p m summary = do
  require_text (text_present m.description) m.location empty_message_description
  (offsets, octets) ← message_layout allocates m
  refuse (ltb (u64_max - octets) summary.layout_octets) m.location sizes_too_large
  check_vectors allocates p m offsets octets m.vectors
      (record summary { layout_octets = summary.layout_octets + octets })

unfoldable pub check_messages : (ℕ → ℕ → Bool) → Protocol → List Message → Summary → Result Summary
check_messages allocates p [] summary = ok summary
check_messages allocates p (m ∷ later) summary = do
  summary' ← check_message allocates p m summary
  check_messages allocates p later summary'

-- `wfc_check`
unfoldable pub check : (ℕ → ℕ → Bool) → Protocol → Result Summary
check allocates p = if p.version == 4 then records_check p.record_source else do
  require_text (text_present p.description) p.location empty_description
  require_optional p.standard p.location empty_standard
  require_optional p.reference p.location empty_reference
  summary ←
      check_messages allocates p p.messages
        (record { messages = 0; vectors = 0; layout_octets = 0 })
  ok (record summary { messages = length p.messages })
