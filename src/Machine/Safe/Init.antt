-- ===== src/Machine/Safe/Init.antt =====
-- wire_format.c: `wi_init` and `wi_decode_init` make states within their bounds, so that a parse
-- from either ends within them.
use wire_format.Base.{
  ℕ, zero, suc, ◌+◌, ◌≤◌, ◌≡◌, refl, ap, arith, List, [], ◌∷◌, Option, none, some, length, Bool,
  true, false, ltb, if◌then◌else◌,
}
use mathlib.Core.Path.{subst}
use wire_format.Machine.State.{Vars, RecordList, max_params, max_formats}
use wire_format.Machine.Lists.{fill, init, decode_init}
use wire_format.Machine.Table.{set_formats}
use wire_format.Machine.Loop.{parse}
use wire_format.Machine.Halts.Total.{parse-total}
use wire_format.Machine.Safe.Parse.{IsSafe, parse-IsSafe}

length-fill {ℓ} : {A : Type ℓ} → (n : ℕ) (x : A) (xs : List A) → length (fill n x xs) ≡ n
unfolding fill
length-fill zero x xs = refl
length-fill (suc n) x [] = ap suc (length-fill n x [])
length-fill (suc n) x (y ∷ xs) = ap suc (length-fill n x xs)

pub init-IsSafe :
    (memory : ℕ → ℕ) (store : List RecordList) (size : Option ℕ) (params : List ℕ)
    → IsSafe (init memory store size params)
unfolding init
init-IsSafe memory store none params = record {
  stack = omega arith;
  frames = omega arith;
  out = omega arith;
  params = length-fill max_params 0 params;
  vars = refl;
  slices = refl;
  record_lists = refl;
  write_bits = omega arith;
  read_bits = omega arith;
  stray = refl;
}
init-IsSafe memory store (some size) params = record {
  stack = omega arith;
  frames = omega arith;
  out = omega arith;
  params = length-fill max_params 0 params;
  vars = refl;
  slices = refl;
  record_lists = refl;
  write_bits = omega arith;
  read_bits = omega arith;
  stray = refl;
}

pub decode_init-IsSafe :
    (memory : ℕ → ℕ) (store : List RecordList) (input : Option (List ℕ)) (params : List ℕ)
    → IsSafe (decode_init memory store input params)
unfolding decode_init
decode_init-IsSafe memory store none params = record {
  stack = omega arith;
  frames = omega arith;
  out = omega arith;
  params = length-fill max_params 0 params;
  vars = refl;
  slices = refl;
  record_lists = refl;
  write_bits = omega arith;
  read_bits = omega arith;
  stray = refl;
}
decode_init-IsSafe memory store (some input) params = record {
  stack = omega arith;
  frames = omega arith;
  out = omega arith;
  params = length-fill max_params 0 params;
  vars = refl;
  slices = refl;
  record_lists = refl;
  write_bits = omega arith;
  read_bits = omega arith;
  stray = refl;
}

-- What `set_formats` leaves alone, where it takes the table.
record Tabled (v w : Vars) : Type 0 where
  safe : IsSafe v → IsSafe w
  out_size : w.out_size ≡ v.out_size
  position : w.in_pos ≡ v.in_pos
  input : w.input ≡ v.input

tabled :
    (v : Vars) (fmts : Option (List (Option (List ℕ)))) (nfmts : ℕ)
    → Tabled v (record v { fmts = fmts; nfmts = nfmts })
tabled v fmts nfmts = record {
  safe = λ h. record {
    stack = h.stack;
    frames = h.frames;
    out = h.out;
    params = h.params;
    vars = h.vars;
    slices = h.slices;
    record_lists = h.record_lists;
    write_bits = h.write_bits;
    read_bits = h.read_bits;
    stray = h.stray;
  };
  out_size = refl;
  position = refl;
  input = refl;
}

set_formats-Tabled :
    (v w : Vars) (fmts : Option (List (Option (List ℕ)))) (nfmts : ℕ)
    → set_formats v fmts nfmts ≡ some w
    → Tabled v w
unfolding set_formats
set_formats-Tabled v w fmts nfmts e = refused (ltb max_formats nfmts) _ e
  where
    refused :
        (a b : Bool)
        → (if a then none else if b then none else some (record v { fmts = fmts; nfmts = nfmts }))
          ≡ some w
        → Tabled v w
    refused true b p = cc
    refused false true p = cc
    refused false false p =
        let q : record v { fmts = fmts; nfmts = nfmts } ≡ w = cc in
        subst (λ x. Tabled v x) q (tabled v fmts nfmts)

-- Encoding with any accepted format table, any format and any parameters into a buffer of any size
-- ends, in a safe state whose output fits the buffer: no access to the arrays of the state has
-- strayed.
pub encode-total :
    (memory : ℕ → ℕ) (store : List RecordList) (size : ℕ) (params : List ℕ)
    → (fmts : Option (List (Option (List ℕ)))) (nfmts : ℕ) (v : Vars) (fmt : List ℕ)
    → set_formats (init memory store (some size) params) fmts nfmts ≡ some v
    → (fuel : ℕ) × (r : Vars) × (parse fuel v fmt ≡ some r) × IsSafe r × (length r.out ≤ size)
unfolding init
encode-total memory store size params fmts nfmts v fmt h =
    let t = set_formats-Tabled (init memory store (some size) params) v fmts nfmts h in
    let (fuel, r, e) = parse-total v fmt in
    let ends = e fuel (omega arith) in
    let (safe, out, read, onward, params_kept, fmts_kept) =
      parse-IsSafe fuel v fmt r (t.safe (init-IsSafe memory store (some size) params)) ends in
    (fuel, r, ends, safe, omega (arith, t.out_size))

-- Decoding any input with any accepted format table and any format ends, in a safe state whose
-- position and unread bytes add up to the input: no access to the arrays of the state or to the
-- input has strayed.
pub decode-total :
    (memory : ℕ → ℕ) (store : List RecordList) (input params : List ℕ)
    → (fmts : Option (List (Option (List ℕ)))) (nfmts : ℕ) (v : Vars) (fmt : List ℕ)
    → set_formats (decode_init memory store (some input) params) fmts nfmts ≡ some v
    → (fuel : ℕ) × (r : Vars) × (parse fuel v fmt ≡ some r)
      × IsSafe r
      × (r.in_pos + length r.input ≡ length input)
unfolding decode_init
decode-total memory store input params fmts nfmts v fmt h =
    let t = set_formats-Tabled (decode_init memory store (some input) params) v fmts nfmts h in
    let (fuel, r, e) = parse-total v fmt in
    let ends = e fuel (omega arith) in
    let (safe, out, read, onward, params_kept, fmts_kept) =
      parse-IsSafe fuel v fmt r (t.safe (decode_init-IsSafe memory store (some input) params))
        ends in
    (fuel, r, ends, safe, omega (arith, t.position, ap length t.input))
