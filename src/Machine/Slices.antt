-- ===== src/Machine/Slices.antt =====
-- wire_format.c: the zero-copy byte slices (%R %N %z %v %V) and `wi_set_slice`.
use wire_format.Base.{
  ℕ, ◌+◌, Bool, false, ◌||◌, not, List, [], leb, ltb, ◌==◌, length, take, drop, if◌then◌else◌,
  get_or, set, is_negative, Option, none, some,
}
use wire_format.Machine.State.{
  Vars, fail, touch, Slice, null_data, octets, slice_length, max_params,
}
use wire_format.Machine.Buffer.{emit_all, fs_push, fs_pop}

-- `slot < 0 || slot >= WI_MAX_PARAMS`
abbrev pub bad_slot : ℕ → Bool
bad_slot slot = is_negative slot || leb max_params slot

abbrev pub slice_at : Vars → ℕ → Slice
slice_at v slot = get_or v.slices slot (null_data 0)

-- `data == NULL && length != 0`
abbrev pub is_missing : Slice → Bool
is_missing (null_data n) = not (n == 0)
is_missing (octets bs) = false

abbrev pub slice_bytes : Slice → List ℕ
slice_bytes (null_data n) = []
slice_bytes (octets bs) = bs

-- The slice of the next `n` bytes of the input, which moves on behind them.
unfoldable pub capture : ℕ → ℕ → Vars → Vars
capture slot n v = record v {
  slices = set v.slices slot (octets (take n v.input));
  input = drop n v.input;
  in_pos = v.in_pos + n;
}

unfoldable pub op_rest : Vars → Vars
op_rest v =
    let (slot, v₁) = fs_pop v in
    if v₁.encoding || not v₁.decoding || bad_slot slot
    then fail v₁
    else capture slot (length v₁.input) (touch max_params slot v₁)

unfoldable pub op_exact : Vars → Vars
op_exact v =
    let (slot, v₁) = fs_pop v in
    let (requested, v₂) = fs_pop v₁ in
    if v₂.encoding || not v₂.decoding || bad_slot slot || is_negative requested
    then fail v₂
    else if ltb (length v₂.input) requested
    then fail v₂
    else capture slot requested (touch max_params slot v₂)

unfoldable pub op_length : Vars → Vars
op_length v =
    let (slot, v₁) = fs_pop v in
    let v₂ = touch max_params slot v₁ in
    let n = slice_length (slice_at v₂ slot) in
    if bad_slot slot then fail v₁ else if is_negative n then fail v₂ else fs_push v₂ n

unfoldable pub op_slice : Vars → Vars
op_slice v =
    let (slot, v₁) = fs_pop v in
    let v₂ = touch max_params slot v₁ in
    let s = slice_at v₂ slot in
    if not v₁.encoding || bad_slot slot
    then fail v₁
    else if is_missing s
    then fail v₂
    else emit_all (slice_bytes s) v₂

unfoldable pub op_exact_slice : Vars → Vars
op_exact_slice v =
    let (slot, v₁) = fs_pop v in
    let (requested, v₂) = fs_pop v₁ in
    let v₃ = touch max_params slot v₂ in
    let s = slice_at v₃ slot in
    if not v₂.encoding || bad_slot slot || is_negative requested
    then fail v₂
    else if not (slice_length s == requested) || is_missing s
    then fail v₃
    else emit_all (slice_bytes s) v₃

-- `wi_set_slice`: `none` is the answer -1. `slot` is an int, by its bit pattern.
unfoldable pub set_slice : Vars → ℕ → Slice → Option Vars
set_slice v slot s =
    if bad_slot slot || is_missing s then none else some (record v { slices = set v.slices slot s })
