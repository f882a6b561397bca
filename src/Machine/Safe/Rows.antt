-- ===== src/Machine/Safe/Rows.antt =====
-- wire_format.c: the handlers, %J included, keep the bounds if the parses of the rows do.
use wire_format.Base.{
  ℕ, zero, suc, ◌+◌, ◌-◌, ◌≤◌, ◌<◌, ◌≡◌, refl, ap, arith, Bool, true, false, List, [], ◌∷◌, ◌||◌,
  get_or, Option, none, some, ◌==◌, if◌then◌else◌, length, length-append, inl, inr,
}
use mathlib.Core.Path.{subst}
use wire_format.Machine.State.{Vars, Row, fail, touch, max_params, call_depth}
use wire_format.Machine.Buffer.{peek, fs_pop, b_emit}
use wire_format.Machine.Extension.{find_handler}
use wire_format.Machine.Lists.{
  child_of, absorb, deref, format_at, call_digits, skip_char, init, decode_init,
}
use wire_format.Machine.Rows.{
  row_at, aborts, row_loop, list_fits, run_rows, refuses_rows, format_rows, pop_rows, op_rows,
  store_count,
}
use wire_format.Machine.Loop.{Handler, simple, rows, run_handler, switch, exec_char, begin, ops}
use wire_format.Machine.Halts.Mono.{Parser}
use wire_format.Machine.Keeps.{
  Shared, Shared-refl, Shared-trans, Keeps, Keeps-refl, pop-Keeps, emit-Keeps, text-Keeps,
  fail-Keeps, if-Keeps, at-Keeps,
}
use wire_format.Machine.Keeps.Text.{operand-Keeps}
use wire_format.Machine.Keeps.Moves.{
  Moves, HandlerMoves, ops-Moves, length-call_rest, length-skip_char,
}
use wire_format.Machine.Keeps.Extension.{OfFound, find_handler-every}

-- The bounds, and that the call stack stays within its arrays.
pub record Bounded (u v : Vars) : Type 0 where
  pub shared : Shared u v
  pub frames : length u.frames ≤ call_depth → length v.frames ≤ call_depth

pub Bounded-trans : {u v w : Vars} → Bounded u v → Bounded v w → Bounded u w
Bounded-trans p q = record {
  shared = Shared-trans p.shared q.shared;
  frames = λ h. q.frames (p.frames h);
}

pub Bounded-refl : (v : Vars) → Bounded v v
Bounded-refl v = record { shared = Shared-refl v; frames = λ h. h }

pub Keeps-Bounded : {u v : Vars} → Keeps u v → Bounded u v
Keeps-Bounded p = record {
  shared = p.shared;
  frames = λ h. omega (arith, ap (λ fs. length fs) p.frames);
}

-- The buffers that a row's parse is given: the space left, or the input left.
child-out_size :
    (fc : ℕ) (row : Row) (v : Vars)
    → v.encoding ≡ true
    → (child_of fc row v).out_size ≡ v.out_size - length v.out
unfolding child_of init
child-out_size fc row v e = ground arith

child-input :
    (fc : ℕ) (row : Row) (v : Vars)
    → v.encoding ≡ false
    → (child_of fc row v).in_pos + length (child_of fc row v).input ≡ length v.input
unfolding child_of decode_init
child-input fc row v e = ground arith

child-stray : (fc : ℕ) (row : Row) (v : Vars) → fc ≤ max_params → (child_of fc row v).stray ≡ false
unfolding child_of init decode_init
child-stray fc row v h = ground arith

absorb-Bounded :
    (fc : ℕ) (id : Option ℕ) (i : ℕ) (row : Row) (fmt : List ℕ) (rank : ℕ) (c v : Vars)
    → fc ≤ max_params
    → Shared (begin (child_of fc row v) fmt rank) c
    → Bounded v (absorb fc id i c v)
unfolding absorb
absorb-Bounded fc id i row fmt rank c v few p = ground (
  arith,
  child-out_size fc row v,
  child-input fc row v,
  length-append v.out c.out,
  p.consumed,
  p.out_fits,
  p.out_size,
  p.stray,
  child-stray fc row v few,
)

count-Bounded : (id : Option ℕ) (n : ℕ) (v : Vars) → Bounded v (store_count id n v)
count-Bounded id n v = ground arith

-- A parser whose parses keep the bounds.
abbrev pub ParsesBounded : Parser → Type 0
ParsesBounded p =
    (c : Vars) (fmt : List ℕ) (rank : ℕ) (r : Vars)
    → p c fmt rank ≡ some r
    → Shared (begin c fmt rank) r

-- Whatever state results, the bounds hold of it.
abbrev pub Results : Vars → Option Vars → Type 0
Results v x = (r : Vars) → x ≡ some r → Bounded v r

some-Results : {v w : Vars} → Bounded v w → Results v (some w)
some-Results {v} {w} b r e = let q : w ≡ r = cc in subst (λ x. Bounded v x) q b

keeps-Results : {v w : Vars} → Keeps v w → Results v (some w)
keeps-Results p = some-Results (Keeps-Bounded p)

fail-Results : (v : Vars) → Results v (some (fail v))
fail-Results v = keeps-Results (fail-Keeps (Keeps-refl v))

later-Results : {u v : Vars} {x : Option Vars} → Bounded u v → Results v x → Results u x
later-Results b h r e = Bounded-trans b (h r e)

on_bool :
    {v : Vars} (b : Bool) (x y : Option Vars)
    → Results v x
    → Results v y
    → Results v (elim b [ true ↦ x | false ↦ y ])
on_bool true x y h k = h
on_bool false x y h k = k

on_option {ℓ} :
    {A : Type ℓ} {v : Vars} (o : Option A) (x : Option Vars) (f : A → Option Vars)
    → Results v x
    → ((a : A) → Results v (f a))
    → Results v (elim o [ none ↦ x | some a ↦ f a ])
on_option none x f h k = h
on_option (some a) x f h k = k a

on_result :
    {v : Vars} (m : Option Vars) (f : Vars → Option Vars)
    → ((a : Vars) → m ≡ some a → Results v (f a))
    → Results v (elim m [ none ↦ none | some a ↦ f a ])
on_result none f k r e = cc
on_result (some a) f k r e = k a refl r e

on_dif :
    {v : Vars} (b : Bool) {x y : Option Vars}
    → (b ≡ true → Results v x)
    → (b ≡ false → Results v y)
    → Results v (if b then x else y)
on_dif true h k = h refl
on_dif false h k = k refl

-- `_J` indexes the record lists behind its tests.
slot-lt :
    (n digits fc slot count : ℕ) (v : Vars)
    → refuses_rows n digits fc slot count v ≡ false
    → slot < max_params
unfolding refuses_rows
slot-lt n digits fc slot count v h = ground arith

-- Its copies of the fields stay in the arrays of a state.
fields-le :
    (n digits fc slot count : ℕ) (v : Vars)
    → refuses_rows n digits fc slot count v ≡ false
    → fc ≤ max_params
unfolding refuses_rows
fields-le n digits fc slot count v h = ground arith

on_if :
    {v : Vars} (b : Bool) {x y : Option Vars}
    → Results v x
    → Results v y
    → Results v (if b then x else y)
on_if true h k = h
on_if false h k = k

Moves-Bounded : {u v : Vars} → Moves u v → Bounded u v
Moves-Bounded (inl p) = Keeps-Bounded p
Moves-Bounded (inr e) = record {
  shared = e.shared;
  frames = λ h. omega (arith, e.room, ap (λ fs. length fs) e.frames);
}

module _ (p : Parser) (bounded : ParsesBounded p) where
  row_loop-Bounded :
      (fmt : List ℕ) (rank fc : ℕ) (id : Option ℕ) (n i : ℕ) (v : Vars)
      → fc ≤ max_params
      → Results v (row_loop p fmt rank fc id n i v)
  unfolding row_loop
  row_loop-Bounded fmt rank fc id zero i v few r e = some-Results (Bounded-refl v) r e
  row_loop-Bounded fmt rank fc id (suc n) i v few r e =
      on_option (row_at (deref v.store id) i) (some (fail v)) _ (fail-Results v)
        (λ row. on_result (p (child_of fc row v) fmt rank) _ λ c h.
          let w = absorb fc id i c v in
          let b : Bounded v w =
            absorb-Bounded fc id i row fmt rank c v few
              (bounded (child_of fc row v) fmt rank c h) in
          on_bool (w.overrun || aborts w) (some w) _ (some-Results b)
            (later-Results b (row_loop-Bounded fmt rank fc id n (i + 1) w few)))
        r e

  run_rows-Bounded :
      (fmt : List ℕ) (rank fc count : ℕ) (id : Option ℕ) (v : Vars)
      → fc ≤ max_params
      → Results v (run_rows p fmt rank fc count id v)
  unfolding run_rows
  run_rows-Bounded fmt rank fc count id v few =
      on_option (deref v.store id) (some (fail v)) _ (fail-Results v) λ list.
        on_bool (list_fits fc count v.encoding list) _ (some (fail v))
          (later-Results (count-Bounded id count v)
            (row_loop-Bounded fmt rank fc id count 0 (store_count id count v) few))
          (fail-Results v)

  format_rows-Bounded :
      (fmt : Option (List ℕ)) (n digits fc slot count : ℕ) (v : Vars)
      → Results v (format_rows p fmt n digits fc slot count v)
  unfolding format_rows
  format_rows-Bounded none n digits fc slot count v r e = fail-Results v r e
  format_rows-Bounded (some fmt) n digits fc slot count v r e =
      on_dif (refuses_rows n digits fc slot count v) (λ h. fail-Results v)
        (λ h.
          later-Results
            (Keeps-Bounded
              (at-Keeps (Keeps-refl v) max_params slot (slot-lt n digits fc slot count v h)))
            (run_rows-Bounded fmt n fc count (get_or v.record_lists slot none)
              (touch max_params slot v) (fields-le n digits fc slot count v h)))
        r e

  pop_rows-Bounded : (n digits : ℕ) (v : Vars) → Results v (pop_rows p n digits v)
  unfolding pop_rows
  pop_rows-Bounded n digits v =
      let w = (fs_pop (fs_pop (fs_pop v).1).1).1 in
      later-Results (Keeps-Bounded (pop-Keeps (pop-Keeps (pop-Keeps (Keeps-refl v))))) (
        format_rows-Bounded (format_at w.fmts n) n digits (fs_pop v).0 (fs_pop (fs_pop v).1).0
          (fs_pop (fs_pop (fs_pop v).1).1).0 w)

  op_rows-Bounded : (v : Vars) → Results v (op_rows p v)
  unfolding op_rows
  op_rows-Bounded v =
      let (n, digits, s) = call_digits 4 0 0 (skip_char b'[' v.f_str) in
      let w : Vars = record v { f_str = skip_char b']' s } in
      let shorter : length (skip_char b']' s) ≤ length v.f_str =
        omega
          (arith, length-call_rest 4 0 0 (skip_char b'[' v.f_str), length-skip_char b'[' v.f_str) in
      let kept : Keeps v w = text-Keeps (Keeps-refl v) (skip_char b']' s) shorter in
      on_if (peek w.f_str == b'{') (keeps-Results (operand-Keeps kept))
        (later-Results (Keeps-Bounded kept) (pop_rows-Bounded n digits w))

  handler-Bounded :
      (h : Option Handler) (v : Vars) → OfFound HandlerMoves h → Results v (run_handler p h v)
  unfolding run_handler
  handler-Bounded none v m = fail-Results v
  handler-Bounded (some (simple h)) v m = some-Results (Moves-Bounded (m v))
  handler-Bounded (some rows) v m = op_rows-Bounded v

  -- One character of the format.
  pub exec_char-Bounded :
      (c : ℕ) (s : List ℕ) (v : Vars) → length s ≤ length v.f_str → Results v (exec_char p c s v)
  unfolding exec_char
  exec_char-Bounded c [] v h =
      let w : Keeps v (record v { f_str = [] }) = text-Keeps (Keeps-refl v) [] (omega arith) in
      keeps-Results (if-Keeps _ (fail-Keeps w) (emit-Keeps w c))
  exec_char-Bounded c (op ∷ s) v h =
      let w : Vars = record v { f_str = s } in
      on_bool (c == b'%') (switch p op w) (some (b_emit (record v { f_str = op ∷ s }) c))
        (later-Results (Keeps-Bounded (text-Keeps (Keeps-refl v) s (omega arith))) (
          unfold switch in
          handler-Bounded (find_handler op ops) w
            (find_handler-every HandlerMoves op ops ops-Moves)))
        (keeps-Results (emit-Keeps (text-Keeps (Keeps-refl v) (op ∷ s) h) c))
