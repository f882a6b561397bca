-- ===== src/Machine/Lists.antt =====
-- wire_format.c: the counted record lists (%k, %J) and `wi_set_record_list`. A list object lives
-- in the `store`, which the parse of each row shares with its parent.
use wire_format.Base.{
  ℕ, zero, suc, ◌+◌, ◌-◌, ◌*◌, true, false, ◌||◌, not, List, [], ◌∷◌, ◌++◌, ltb, ◌==◌, length, take,
  replicate, get_or, get_elem?, set, if◌then◌else◌, is_negative, Option, none, some, bit_or,
}
use wire_format.Machine.State.{Vars, fail, touch, null_data, Row, RecordList, max_params, max_vars}
use wire_format.Machine.Buffer.{fs_push, fs_pop, peek, advance}
use wire_format.Machine.Slices.{bad_slot}
use wire_format.Machine.Text.{is_digit}

-- The object that a pointer denotes; a NULL pointer denotes none.
abbrev pub deref : List RecordList → Option ℕ → Option RecordList
deref store none = none
deref store (some id) = get_elem? store id

abbrev pub list_at : Vars → ℕ → Option RecordList
list_at v slot = deref v.store (get_or v.record_lists slot none)

unfoldable pub push_count : Option RecordList → Vars → Vars
push_count none v = fail v
push_count (some list) v = if is_negative list.count then fail v else fs_push v list.count

-- %k
unfoldable pub op_count : Vars → Vars
op_count v =
    let (slot, v₁) = fs_pop v in
    if bad_slot slot then fail v₁ else push_count (list_at v₁ slot) (touch max_params slot v₁)

-- `wi_set_record_list`: `none` is the answer -1.
unfoldable pub set_record_list : Vars → ℕ → Option ℕ → Option Vars
set_record_list v slot id = elim (deref v.store id) [
  | none ↦ none
  | some list ↦
      if bad_slot slot
        || ltb max_params list.field_count
        || ltb list.capacity list.count
        || elim list.records [ none ↦ not (list.capacity == 0) | some rows ↦ false ]
      then none
      else some (record v { record_lists = set v.record_lists slot id })
]

-- `memset(v, 0, sizeof(*v))`, over the memory and the list objects of the caller.
abbrev pub cleared : (ℕ → ℕ) → List RecordList → Vars
cleared memory store = record {
  f_str = [];
  fstack = [];
  params = replicate max_params 0;
  vars = replicate max_vars 0;
  slices = replicate max_params (null_data 0);
  record_lists = replicate max_params none;
  sequence_depth = 0;
  encoding = false;
  out = [];
  out_size = 0;
  decoding = false;
  input = [];
  in_pos = 0;
  bit_acc = 0;
  in_acc = 0;
  in_loaded = false;
  faults = 0;
  abort_mask = 0;
  fmts = none;
  nfmts = 0;
  cur_fmt = 0;
  pending = 0;
  frames = [];
  overrun = false;
  stray = false;
  write_bits = 0;
  read_bits = 0;
  memory = memory;
  store = store;
}

-- `xs` in the first places of an array of `n` with default `d`: `memcpy` of at most `n` elements.
unfoldable pub fill {ℓ} : {A : Type ℓ} → ℕ → A → List A → List A
fill zero d xs = []
fill (suc n) d [] = d ∷ fill n d []
fill (suc n) d (x ∷ xs) = x ∷ fill n d xs

-- `wi_init` on a buffer of `size` bytes; no buffer is the pointer NULL.
unfoldable pub init : (ℕ → ℕ) → List RecordList → Option ℕ → List ℕ → Vars
init memory store none params = record (cleared memory store) { params = fill max_params 0 params }
init memory store (some size) params = record (cleared memory store) {
  encoding = true;
  out_size = size;
  params = fill max_params 0 params;
}

-- `wi_decode_init`
unfoldable pub decode_init : (ℕ → ℕ) → List RecordList → Option (List ℕ) → List ℕ → Vars
decode_init memory store none params = record (cleared memory store) {
  params = fill max_params 0 params;
}
decode_init memory store (some input) params = record (cleared memory store) {
  decoding = true;
  input = input;
  params = fill max_params 0 params;
}

-- `[n]` behind %J and %[: at most four digits. The number, how many digits, and what follows.
unfoldable pub call_digits : ℕ → ℕ → ℕ → List ℕ → ℕ × ℕ × List ℕ
call_digits zero n digits s = (n, digits, s)
call_digits (suc room) n digits [] = (n, digits, [])
call_digits (suc room) n digits (c ∷ s) =
    let rest = call_digits room (n * 10 + (c - b'0')) (digits + 1) s in
    if is_digit c then rest else (n, digits, c ∷ s)

abbrev pub skip_char : ℕ → List ℕ → List ℕ
skip_char c s = if peek s == c then advance s else s

-- `wi->fmts[n]`, where `fmts` may be NULL.
abbrev pub format_at : Option (List (Option (List ℕ))) → ℕ → Option (List ℕ)
format_at none n = none
format_at (some fmts) n = get_or fmts n none

-- The state in which the format runs on one row. Where `in` is NULL no input is left either. The
-- copies of `field_count` fields leave the arrays where there are more than those have.
unfoldable pub child_of : ℕ → Row → Vars → Vars
child_of field_count row v =
    let lists = fill max_params none (take field_count row.lists) in
    let begun =
      if v.encoding
      then record (init v.memory v.store (some (v.out_size - length v.out))
          (take field_count row.values)) {
            slices = fill max_params (null_data 0) (take field_count row.slices);
            record_lists = lists;
          }
      else record (decode_init v.memory v.store (some v.input) []) {
        decoding = v.decoding;
        record_lists = lists;
      } in
    record begun {
      fmts = v.fmts;
      nfmts = v.nfmts;
      abort_mask = v.abort_mask;
      sequence_depth = v.sequence_depth + 1;
      stray = ltb max_params field_count;
    }

-- The first `n` places of `xs` taken from `new`.
abbrev pub overwrite {ℓ} : {A : Type ℓ} → ℕ → List A → List A → List A
overwrite zero new xs = xs
overwrite (suc n) [] xs = xs
overwrite (suc n) (y ∷ new) [] = []
overwrite (suc n) (y ∷ new) (x ∷ xs) = y ∷ overwrite n new xs

-- A write to row `i` of a list object.
abbrev pub update_row : ℕ → (Row → Row) → RecordList → RecordList
update_row i f list = elim list.records [
  | none ↦ list
  | some rows ↦ elim (get_elem? rows i) [
    | none ↦ list
    | some row ↦ record list { records = some (set rows i (f row)) }
  ]
]

abbrev pub update_list : List RecordList → Option ℕ → (RecordList → RecordList) → List RecordList
update_list store none f = store
update_list store (some id) f = elim (get_elem? store id) [
  | none ↦ store
  | some list ↦ set store id (f list)
]

-- What the parent takes over from the row's parse: faults, a failure, the bytes written, or the
-- bytes read with the decoded row.
unfoldable pub absorb : ℕ → Option ℕ → ℕ → Vars → Vars → Vars
absorb field_count id i child v =
    let v₁ = record v {
      faults = bit_or v.faults child.faults;
      stray = v.stray || child.stray;
      store = child.store;
    } in
    let decoded = λ (row : Row). record row {
      values = overwrite field_count child.vars row.values;
      slices = overwrite field_count child.slices row.slices;
    } in
    if child.overrun
    then fail v₁
    else if v.encoding
    then record v₁ { out = v.out ++ child.out }
    else record v₁ {
      input = child.input;
      in_pos = v.in_pos + child.in_pos;
      store = update_list child.store id (update_row i decoded);
    }
