-- ===== src/Machine/Rows.antt =====
-- wire_format.c: %J, the parse of a message for each row of a counted record list.
use wire_format.Base.{
  ℕ, zero, suc, ◌+◌, Bool, true, false, ◌&&◌, ◌||◌, not, List, leb, ltb, ◌==◌, get_or, get_elem?,
  if◌then◌else◌, is_negative, Option, none, some, bit_and,
}
use wire_format.Machine.State.{Vars, fail, touch, Row, RecordList, max_params, call_depth}
use wire_format.Machine.Buffer.{fs_pop, peek}
use wire_format.Machine.Slices.{bad_slot}
use wire_format.Machine.Record.{record_operand}
use wire_format.Machine.Lists.{
  deref, child_of, absorb, update_list, call_digits, skip_char, format_at,
}

abbrev pub row_at : Option RecordList → ℕ → Option Row
row_at none i = none
row_at (some list) i = elim list.records [ none ↦ none | some rows ↦ get_elem? rows i ]

-- `(faults & abort_mask) != 0`
abbrev pub aborts : Vars → Bool
aborts v = not (bit_and v.faults v.abort_mask == 0)

-- The row loop of `_J`, with `n` rows left from row `i` on. `parse` runs a format on a fresh state
-- at a rank; its `none` is fuel that ran out. A list has `capacity` rows, so that a row is there.
unfoldable pub row_loop :
    (Vars → List ℕ → ℕ → Option Vars) → List ℕ → ℕ → ℕ → Option ℕ → ℕ → ℕ → Vars → Option Vars
row_loop parse fmt rank field_count id zero i v = some v
row_loop parse fmt rank field_count id (suc n) i v = elim (row_at (deref v.store id) i) [
  | none ↦ some (fail v)
  | some row ↦ elim (parse (child_of field_count row v) fmt rank) [
    | none ↦ none
    | some child ↦
        elim ((absorb field_count id i child v).overrun
          || aborts (absorb field_count id i child v)) [
            | true ↦ some (absorb field_count id i child v)
            | false ↦
                row_loop parse fmt rank field_count id n (i + 1) (absorb field_count id i child v)
          ]
  ]
]

-- The tests of `_J` on the list object.
unfoldable pub list_fits : ℕ → ℕ → Bool → RecordList → Bool
list_fits field_count count encoding list =
    elim list.records [ none ↦ false | some rows ↦ true ]
    && field_count == list.field_count
    && leb count list.capacity
    && (not encoding || count == list.count)

-- `if (wi->in != NULL) { list->count = count; }`
abbrev pub store_count : Option ℕ → ℕ → Vars → Vars
store_count id count v =
    if v.decoding
    then record v { store = update_list v.store id (λ list. record list { count = count }) }
    else v

-- `_J` behind its tests on the numbers: the list object, and its rows.
unfoldable pub run_rows :
    (Vars → List ℕ → ℕ → Option Vars) → List ℕ → ℕ → ℕ → ℕ → Option ℕ → Vars → Option Vars
run_rows parse fmt rank field_count count id v = elim (deref v.store id) [
  | none ↦ some (fail v)
  | some list ↦ elim (list_fits field_count count v.encoding list) [
    | true ↦ row_loop parse fmt rank field_count id count 0 (store_count id count v)
    | false ↦ some (fail v)
  ]
]

-- The tests of `_J` on the numbers.
unfoldable pub refuses_rows : ℕ → ℕ → ℕ → ℕ → ℕ → Vars → Bool
refuses_rows n digits field_count slot count v =
    digits == 0
    || leb v.nfmts n
    || leb v.cur_fmt n
    || is_negative field_count
    || ltb max_params field_count
    || bad_slot slot
    || is_negative count
    || leb call_depth v.sequence_depth

-- `_J` on the format found, with its three numbers popped.
unfoldable pub format_rows :
    (Vars → List ℕ → ℕ → Option Vars) → Option (List ℕ) → ℕ → ℕ → ℕ → ℕ → ℕ → Vars → Option Vars
format_rows parse none n digits field_count slot count v = some (fail v)
format_rows parse (some fmt) n digits field_count slot count v =
    if refuses_rows n digits field_count slot count v
    then some (fail v)
    else run_rows parse fmt n field_count count (get_or v.record_lists slot none)
        (touch max_params slot v)

-- `_J` behind its operand.
unfoldable pub pop_rows : (Vars → List ℕ → ℕ → Option Vars) → ℕ → ℕ → Vars → Option Vars
pop_rows parse n digits v =
    let (field_count, v₁) = fs_pop v in
    let (slot, v₂) = fs_pop v₁ in
    let (count, v₃) = fs_pop v₂ in
    format_rows parse (format_at v₃.fmts n) n digits field_count slot count v₃

-- %J[n]
unfoldable pub op_rows : (Vars → List ℕ → ℕ → Option Vars) → Vars → Option Vars
op_rows parse v =
    let (n, digits, s) = call_digits 4 0 0 (skip_char b'[' v.f_str) in
    let v₁ = record v { f_str = skip_char b']' s } in
    if peek v₁.f_str == b'{' then some (record_operand v₁) else pop_rows parse n digits v₁
