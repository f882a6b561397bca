-- ===== src/Machine/Keeps/Fields.antt =====
-- wire_format.c: the handlers that write a field of the state besides keep the bounds.
use wire_format.Base.{
  ℕ, ◌≤◌, ◌<◌, ◌≡◌, refl, ap, arith, Bool, not, ◌||◌, ltb, is_negative, List, [], ◌∷◌, set, length,
  length-set, take, length-drop, Option, none, some,
}
use wire_format.Machine.State.{Vars, octets, touch, max_params, max_vars, RecordList}
use wire_format.Machine.Buffer.{advance, get_var_addr, fs_pop}
use wire_format.Machine.Keeps.{
  Keeps, keeping, Keeps-trans, Keeps-refl, dif-Keeps, if_pair-Keeps, if-Keeps, fail-Keeps,
  pop-Keeps, push-Keeps, at-Keeps,
}
use wire_format.Machine.Arith.{op_fault}
use wire_format.Machine.Text.{store_var, load_var}
use wire_format.Machine.BitField.{put_bits, load_byte, get_bits, flush}
use wire_format.Machine.Slices.{bad_slot, capture, op_rest, op_exact, op_length}
use wire_format.Machine.Lists.{push_count, op_count}
use wire_format.Machine.Call.{op_colon}

module _ {u v : Vars} (p : Keeps u v) where
  pub faults-Keeps : (n : ℕ) → Keeps u (record v { faults = n })
  faults-Keeps n = Keeps-trans p (ground arith)

  pub pending-Keeps : (n : ℕ) → Keeps u (record v { pending = n })
  pending-Keeps n = Keeps-trans p (ground arith)

  pub bit_acc-Keeps : (n : ℕ) → Keeps u (record v { bit_acc = n })
  bit_acc-Keeps n = Keeps-trans p (ground arith)

  unload-Keeps : (b : Bool) → Keeps u (record v { in_loaded = b })
  unload-Keeps b = Keeps-trans p (ground arith)

  load-Keeps : (n : ℕ) (b : Bool) → Keeps u (record v { in_acc = n; in_loaded = b })
  load-Keeps n b = Keeps-trans p (ground arith)

  vars-Keeps : (i n : ℕ) → Keeps u (record v { vars = set v.vars i n })
  vars-Keeps i n = Keeps-trans p (ground (arith, length-set v.vars i n))

  pub advance-Keeps : Keeps u (record v { f_str = advance v.f_str })
  advance-Keeps = Keeps-trans p (go v.f_str refl)
    where
      go : (s : List ℕ) → v.f_str ≡ s → Keeps v (record v { f_str = advance s })
      go [] e = ground (arith, ap length e)
      go (c ∷ s) e = ground (arith, ap length e)

  capture-Keeps : (slot n : ℕ) → n ≤ length v.input → Keeps u (capture slot n v)
  unfolding capture
  capture-Keeps slot n h =
      Keeps-trans p
        (ground (arith, length-drop n v.input, length-set v.slices slot (octets (take n v.input))))

ruleset writing = (
  keeping, faults-Keeps, pending-Keeps, bit_acc-Keeps, unload-Keeps, load-Keeps, vars-Keeps,
  advance-Keeps,
)

pub op_fault-Keeps : (v : Vars) → Keeps v (op_fault v)
unfolding op_fault
op_fault-Keeps v = search writing depth 12

pub op_colon-Keeps : (v : Vars) → Keeps v (op_colon v)
unfolding op_colon
op_colon-Keeps v = search writing depth 12

var_addr-Keeps : {u v : Vars} → Keeps u v → Keeps u (get_var_addr v).1
unfolding get_var_addr
var_addr-Keeps p = if_pair-Keeps _ _ _ (fail-Keeps p) (advance-Keeps p)

var_addr-lt : (v : Vars) → (get_var_addr v).0 < max_vars
unfolding get_var_addr
var_addr-lt v = ground arith

pub store_var-Keeps : (v : Vars) → Keeps v (store_var v)
unfolding store_var
store_var-Keeps v =
    vars-Keeps
      (at-Keeps (pop-Keeps (var_addr-Keeps (Keeps-refl v))) max_vars (get_var_addr v).0
        (var_addr-lt v))
      _ _

pub load_var-Keeps : (v : Vars) → Keeps v (load_var v)
unfolding load_var
load_var-Keeps v =
    push-Keeps
      (at-Keeps (var_addr-Keeps (Keeps-refl v)) max_vars (get_var_addr v).0 (var_addr-lt v)) _

pub put_bits-Keeps : (v : Vars) → Keeps v (put_bits v)
unfolding put_bits
put_bits-Keeps v = search writing depth 12

load_byte-Keeps : {u v : Vars} → Keeps u v → Keeps u (load_byte v)
unfolding load_byte
load_byte-Keeps p = search writing depth 12

pub get_bits-Keeps : (v : Vars) → Keeps v (get_bits v)
unfolding get_bits
get_bits-Keeps v = search (writing, load_byte-Keeps) depth 12

pub flush-Keeps : (v : Vars) → Keeps v (flush v)
unfolding flush
flush-Keeps v = search writing depth 12

input-touch : (size index : ℕ) (v : Vars) → length (touch size index v).input ≡ length v.input
unfolding touch
input-touch size index v = ground arith

pub op_rest-Keeps : (v : Vars) → Keeps v (op_rest v)
unfolding op_rest
op_rest-Keeps v =
    let q = pop-Keeps (Keeps-refl v) in
    let w = (fs_pop v).1 in
    dif-Keeps (w.encoding || not w.decoding || bad_slot (fs_pop v).0) (λ h. fail-Keeps q)
      (λ h.
        capture-Keeps (at-Keeps q max_params (fs_pop v).0 (ground arith)) _ _
          (omega (arith, input-touch max_params (fs_pop v).0 (fs_pop v).1)))

pub op_exact-Keeps : (v : Vars) → Keeps v (op_exact v)
unfolding op_exact
op_exact-Keeps v =
    let q = pop-Keeps (pop-Keeps (Keeps-refl v)) in
    let w = (fs_pop (fs_pop v).1).1 in
    let requested = (fs_pop (fs_pop v).1).0 in
    dif-Keeps (w.encoding || not w.decoding || bad_slot (fs_pop v).0 || is_negative requested)
      (λ h. fail-Keeps q)
      (λ g.
        dif-Keeps (ltb (length w.input) requested) (λ h. fail-Keeps q)
          (λ h.
            let within = input-touch max_params (fs_pop v).0 (fs_pop (fs_pop v).1).1 in
            capture-Keeps (at-Keeps q max_params (fs_pop v).0 (ground arith)) (fs_pop v).0
              (fs_pop (fs_pop v).1).0 (ground arith)))

pub op_length-Keeps : (v : Vars) → Keeps v (op_length v)
unfolding op_length
op_length-Keeps v =
    let q = pop-Keeps (Keeps-refl v) in
    dif-Keeps (bad_slot (fs_pop v).0) (λ h. fail-Keeps q)
      (λ h.
        let r = at-Keeps q max_params (fs_pop v).0 (ground arith) in
        if-Keeps _ (fail-Keeps r) (push-Keeps r _))

count-Keeps :
    {u : Vars} (list : Option RecordList) {v : Vars} → Keeps u v → Keeps u (push_count list v)
unfolding push_count
count-Keeps none p = fail-Keeps p
count-Keeps (some list) p = search writing depth 12

pub op_count-Keeps : (v : Vars) → Keeps v (op_count v)
unfolding op_count
op_count-Keeps v =
    let q = pop-Keeps (Keeps-refl v) in
    dif-Keeps (bad_slot (fs_pop v).0) (λ h. fail-Keeps q)
      (λ h. count-Keeps _ (at-Keeps q max_params (fs_pop v).0 (ground arith)))
