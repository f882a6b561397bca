-- ===== src/Machine/Keeps/Text.antt =====
-- wire_format.c: the handlers that read the format's text keep the bounds, and read it forwards.
use wire_format.Base.{
  ℕ, zero, suc, ◌+◌, ◌-◌, ◌*◌, ◌≤◌, ◌≡◌, refl, ap, arith, Bool, true, false, List, [], ◌∷◌, length,
  if◌then◌else◌, drop, length-drop, u64_max, ltb, ◌||◌, Option, none, some, ◌==◌,
}
use wire_format.Machine.State.{Vars, fail, max_params}
use wire_format.Machine.Buffer.{peek, advance}
use wire_format.Machine.Keeps.{
  Keeps, keeping, Keeps-refl, if-Keeps, fail-Keeps, push-Keeps, dif-Keeps, at-Keeps, push_at-Keeps,
  text-Keeps,
}
use wire_format.Machine.Text.{
  op_tick, brace_digits, brace_end, op_brace, index_digits, push_param, braced_param, op_param,
  Skip, plain, chars, braced, skip_op, skip_loop, skip_branch, op_then, op_else,
}
use wire_format.Machine.Record.{name_chars, record_name, record_operand}

pub length-advance : (s : List ℕ) → length (advance s) ≤ length s
length-advance [] = omega arith
length-advance (c ∷ s) = omega arith

-- The scanners leave a rest that is no longer than what they are given.
length-brace_digits : (s : List ℕ) (n : ℕ) → length (brace_digits s n).1 ≤ length s
unfolding brace_digits
length-brace_digits [] n = omega arith
length-brace_digits (c ∷ s) n = ground (arith, length-brace_digits s (n * 10 + (c - b'0')))

length-index_digits : (s : List ℕ) (n : ℕ) → length (index_digits s n).1 ≤ length s
unfolding index_digits
length-index_digits [] n = omega arith
length-index_digits (c ∷ s) n = ground (arith, length-index_digits s (n * 10 + (c - b'0')))

length-name_chars : (room : ℕ) (s : List ℕ) → length (name_chars room s).1 ≤ length s
unfolding name_chars
length-name_chars zero s = omega arith
length-name_chars (suc room) [] = omega arith
length-name_chars (suc room) (c ∷ s) = ground (arith, length-name_chars room s)

pub op_tick-Keeps : (v : Vars) → Keeps v (op_tick v)
unfolding op_tick
op_tick-Keeps v =
    if-Keeps _ (fail-Keeps (Keeps-refl v))
      (push_at-Keeps v _ (drop 2 v.f_str) (omega (arith, length-drop 2 v.f_str)))

brace_end-Keeps :
    {u v : Vars} (r : Option ℕ × List ℕ) (b : Bool)
    → Keeps u v
    → length r.1 ≤ length v.f_str
    → Keeps u (brace_end r b v)
unfolding brace_end
brace_end-Keeps (none, s) b p h = fail-Keeps (text-Keeps p s h)
brace_end-Keeps (some n, s) b p h =
    if-Keeps _ (push-Keeps (text-Keeps p _ (omega (arith, length-advance s))) _)
      (fail-Keeps (text-Keeps p s h))

pub op_brace-Keeps : (v : Vars) → Keeps v (op_brace v)
unfolding op_brace
op_brace-Keeps v =
    let negative = peek v.f_str == b'-' in
    let s = if negative then advance v.f_str else v.f_str in
    let h : length s ≤ length v.f_str = sign negative in
    if-Keeps _
      (brace_end-Keeps (brace_digits s 0) negative (Keeps-refl v)
        (omega (arith, h, length-brace_digits s 0)))
      (fail-Keeps (text-Keeps (Keeps-refl v) s h))
  where
    sign : (b : Bool) → length (if b then advance v.f_str else v.f_str) ≤ length v.f_str
    sign true = length-advance v.f_str
    sign false = omega arith

param-Keeps : {u v : Vars} → Keeps u v → (n : ℕ) → Keeps u (push_param n v)
unfolding push_param
param-Keeps {v = v} p n =
    dif-Keeps (n == 0 || ltb max_params n) (λ h. fail-Keeps p)
      (λ h. push-Keeps (at-Keeps p max_params (if n == 0 then u64_max else n - 1) (ground arith)) _)

braced_param-Keeps :
    {u v : Vars} (r : Option ℕ × List ℕ)
    → Keeps u v
    → length r.1 ≤ length v.f_str
    → Keeps u (braced_param r v)
unfolding braced_param
braced_param-Keeps (none, s) p h = fail-Keeps (text-Keeps p s h)
braced_param-Keeps (some n, s) p h =
    let q = text-Keeps p (advance s) (omega (arith, length-advance s)) in
    if-Keeps _ (param-Keeps q n) (fail-Keeps q)

pub op_param-Keeps : (v : Vars) → Keeps v (op_param v)
unfolding op_param
op_param-Keeps v =
    let here = Keeps-refl v in
    let s = advance v.f_str in
    let q = text-Keeps here s (length-advance v.f_str) in
    if-Keeps _
      (if-Keeps _
        (braced_param-Keeps (index_digits s 0) here
          (omega (arith, length-advance v.f_str, length-index_digits s 0)))
        (fail-Keeps q))
      (if-Keeps _ (param-Keeps q _) (fail-Keeps here))

-- One round of `skip_loop`: the rest is `s` itself, or what a later round leaves.
round_shorter :
    (test : Bool) (op : Option (Skip × ℕ)) (c o : ℕ) (s rest : List ℕ)
    (later : Skip → ℕ → Option (List ℕ)) (past : Option (List ℕ))
    → ((m : Skip) (d : ℕ) → later m d ≡ some rest → length rest ≤ length s)
    → (past ≡ some rest → length rest ≤ length (o ∷ s))
    → elim test [ true ↦ elim op [ none ↦ some s | some (m, d) ↦ later m d ] | false ↦ past ]
      ≡ some rest
    → length rest ≤ length (c ∷ o ∷ s)
round_shorter true none c o s rest later past l p h =
    ground (arith, ap (λ r. length (get_or_nil r)) h)
  where
    get_or_nil : Option (List ℕ) → List ℕ
    get_or_nil none = []
    get_or_nil (some r) = r
round_shorter true (some (m, d)) c o s rest later past l p h = omega (arith, l m d h)
round_shorter false op c o s rest later past l p h = omega (arith, p h)

-- What `skip_loop` leaves is shorter than what it is given.
skip_loop-shorter :
    (s : List ℕ) (mode : Skip) (d : ℕ) (b : Bool) (rest : List ℕ)
    → skip_loop s mode d b ≡ some rest
    → length rest ≤ length s
unfolding skip_loop
skip_loop-shorter [] mode d b rest h = cc
skip_loop-shorter (c ∷ s) (chars (suc zero)) d b rest h =
    omega (arith, skip_loop-shorter s plain d b rest h)
skip_loop-shorter (c ∷ s) (chars (suc (suc n))) d b rest h =
    omega (arith, skip_loop-shorter s (chars (suc n)) d b rest h)
skip_loop-shorter (c ∷ s) braced d b rest h =
    omega (arith, skip_loop-shorter s (if c == b'}' then plain else braced) d b rest h)
skip_loop-shorter (c ∷ []) plain d b rest h = cc
skip_loop-shorter (c ∷ []) (chars zero) d b rest h = cc
skip_loop-shorter (c ∷ op ∷ s) plain d b rest h =
    round_shorter (c == b'%') (skip_op op s d b) c op s rest (λ m e. skip_loop s m e b)
      (skip_loop (op ∷ s) plain d b) (λ m e. skip_loop-shorter s m e b rest)
      (skip_loop-shorter (op ∷ s) plain d b rest) h
skip_loop-shorter (c ∷ op ∷ s) (chars zero) d b rest h =
    round_shorter (c == b'%') (skip_op op s d b) c op s rest (λ m e. skip_loop s m e b)
      (skip_loop (op ∷ s) plain d b) (λ m e. skip_loop-shorter s m e b rest)
      (skip_loop-shorter (op ∷ s) plain d b rest) h

pub skip_branch-Keeps : {u v : Vars} → Keeps u v → (b : Bool) → Keeps u (skip_branch v b)
unfolding skip_branch
skip_branch-Keeps {u} {v} p b = go (skip_loop v.f_str plain 0 b) refl
  where
    go :
        (r : Option (List ℕ))
        → skip_loop v.f_str plain 0 b ≡ r
        → Keeps u
            (elim r [ none ↦ fail (record v { f_str = [] }) | some s ↦ record v { f_str = s } ])
    go none e = fail-Keeps (text-Keeps p [] (omega arith))
    go (some s) e = text-Keeps p s (skip_loop-shorter v.f_str plain 0 b s e)

pub op_then-Keeps : (v : Vars) → Keeps v (op_then v)
unfolding op_then
op_then-Keeps v = search (keeping, skip_branch-Keeps) depth 12

pub op_else-Keeps : (v : Vars) → Keeps v (op_else v)
unfolding op_else
op_else-Keeps v = skip_branch-Keeps (Keeps-refl v) false

pub name-Keeps : {u v : Vars} → Keeps u v → Keeps u (record_name v)
unfolding record_name
name-Keeps {u} {v} p =
    let s = (name_chars 191 (advance v.f_str)).1 in
    let h : length s ≤ length v.f_str =
      omega (arith, length-name_chars 191 (advance v.f_str), length-advance v.f_str) in
    if-Keeps _ (fail-Keeps p) (
      if-Keeps _ (fail-Keeps (text-Keeps p s h))
        (text-Keeps p (advance s) (omega (arith, h, length-advance s))))

pub operand-Keeps : {u v : Vars} → Keeps u v → Keeps u (record_operand v)
unfolding record_operand
operand-Keeps p = fail-Keeps (name-Keeps p)
