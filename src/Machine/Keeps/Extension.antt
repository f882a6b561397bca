-- ===== src/Machine/Keeps/Extension.antt =====
-- wire_format_record.inc: the extensions behind %u keep the bounds.
use wire_format.Base.{ℕ, List, [], ◌∷◌, Option, none, some, true, false, if◌then◌else◌, ◌==◌, Bool}
use wire_format.Machine.State.{Vars, fail}
use wire_format.Machine.Buffer.{fs_push}
use wire_format.Machine.Keeps.{
  Keeps, keeping, Keeps-trans, Keeps-refl, if-Keeps, fail-Keeps, pop-Keeps, push-Keeps,
}
use wire_format.Machine.Keeps.Record.{cbor-Keeps, decimal-Keeps, terminated-Keeps}
use wire_format.Machine.Keeps.Text.{name-Keeps, operand-Keeps}
use wire_format.Machine.Keeps.Fields.{advance-Keeps}
use wire_format.Machine.Keeps.Simple.{
  ext_assert-Keeps, ext_aligned-Keeps, ext_remaining-Keeps, ext_position-Keeps, ext_zero-Keeps,
  ext_select-Keeps, ext_not-Keeps,
}
use wire_format.Machine.Extension.{
  ext_list_query, ext_crc, ext_cbor, ext_swap, ext_octet, ext_peek, push_result, ext_binary,
  find_handler, ext_handlers, run_ext, record_extension,
}

-- A property of every handler of a table holds of the one that is found.
abbrev pub EveryHandler {ℓ} : {A : Type ℓ} → (A → Type 0) → List (ℕ × A) → Type 0
EveryHandler P [] = Unit
EveryHandler P ((c, h) ∷ rest) = P h × EveryHandler P rest

abbrev pub OfFound {ℓ} : {A : Type ℓ} → (A → Type 0) → Option A → Type 0
OfFound P none = Unit
OfFound P (some h) = P h

pub find_handler-every {ℓ} :
    {A : Type ℓ} (P : A → Type 0) (op : ℕ) (table : List (ℕ × A))
    → EveryHandler P table
    → OfFound P (find_handler op table)
unfolding find_handler
find_handler-every P op [] h = tt
find_handler-every P op ((c, handler) ∷ rest) (h, hs) =
    go (c == op) (find_handler-every P op rest hs)
  where
    go :
        (b : Bool)
        → OfFound P (find_handler op rest)
        → OfFound P (if b then some handler else find_handler op rest)
    go true k = h
    go false k = k

query-Keeps : (b : Bool) (v : Vars) → Keeps v (ext_list_query b v)
unfolding ext_list_query
query-Keeps b v =
    let first = name-Keeps (if-Keeps b (pop-Keeps (Keeps-refl v)) (Keeps-refl v)) in
    if-Keeps _ first (fail-Keeps (name-Keeps first))

ext_crc-Keeps : (v : Vars) → Keeps v (ext_crc v)
unfolding ext_crc
ext_crc-Keeps v = operand-Keeps (Keeps-refl v)

ext_cbor-Keeps : (v : Vars) → Keeps v (ext_cbor v)
unfolding ext_cbor
ext_cbor-Keeps v = search (keeping, cbor-Keeps) depth 12

ext_swap-Keeps : (v : Vars) → Keeps v (ext_swap v)
unfolding ext_swap
ext_swap-Keeps v = search keeping depth 12

ext_octet-Keeps : (v : Vars) → Keeps v (ext_octet v)
unfolding ext_octet
ext_octet-Keeps v = search (keeping, operand-Keeps) depth 12

ext_peek-Keeps : (v : Vars) → Keeps v (ext_peek v)
unfolding ext_peek
ext_peek-Keeps v = go v.input
  where
    go :
        (s : List ℕ)
        → Keeps v (elim s [ [] ↦ fail v | b ∷ bs ↦ if v.decoding then fs_push v b else fail v ])
    go [] = fail-Keeps (Keeps-refl v)
    go (b ∷ bs) = search keeping depth 12

result-Keeps : {u : Vars} (r : Option ℕ) {v : Vars} → Keeps u v → Keeps u (push_result r v)
unfolding push_result
result-Keeps none p = fail-Keeps p
result-Keeps (some n) p = push-Keeps p n

ext_binary-Keeps :
    (operator : Option (ℕ → ℕ → Option ℕ)) (v : Vars) → Keeps v (ext_binary operator v)
unfolding ext_binary
ext_binary-Keeps none v = search keeping depth 12
ext_binary-Keeps (some f) v = search (keeping, result-Keeps) depth 12

abbrev KeepsAll : (Vars → Vars) → Type 0
KeepsAll handler = (v : Vars) → Keeps v (handler v)

run_ext-Keeps :
    (handler : Option (Vars → Vars)) (op : ℕ)
    → OfFound KeepsAll handler
    → KeepsAll (run_ext handler op)
unfolding run_ext
run_ext-Keeps none op h v = ext_binary-Keeps _ v
run_ext-Keeps (some handler) op h v = h v

ext_handlers-Keeps : EveryHandler KeepsAll ext_handlers
ext_handlers-Keeps = (
  λ v. operand-Keeps (Keeps-refl v),
  (
    ext_assert-Keeps,
    (
      ext_aligned-Keeps,
      (
        ext_aligned-Keeps,
        (
          ext_crc-Keeps,
          (
            query-Keeps true,
            (
              query-Keeps false,
              (
                query-Keeps true,
                (
                  decimal-Keeps,
                  (
                    terminated-Keeps,
                    (
                      ext_cbor-Keeps,
                      (
                        ext_swap-Keeps,
                        (
                          ext_octet-Keeps,
                          (
                            ext_remaining-Keeps,
                            (
                              ext_position-Keeps,
                              (
                                ext_zero-Keeps,
                                (
                                  ext_zero-Keeps,
                                  (ext_peek-Keeps, (ext_select-Keeps, (ext_not-Keeps, tt))),
                                ),
                              ),
                            ),
                          ),
                        ),
                      ),
                    ),
                  ),
                ),
              ),
            ),
          ),
        ),
      ),
    ),
  ),
)

pub record_extension-Keeps : (v : Vars) → Keeps v (record_extension v)
unfolding record_extension
record_extension-Keeps v = if-Keeps _ (fail-Keeps (Keeps-refl v)) (
    Keeps-trans (advance-Keeps (Keeps-refl v))
      (run_ext-Keeps _ _ (find_handler-every KeepsAll _ ext_handlers ext_handlers-Keeps) _))
