-- ===== src/Machine/Halts/Rows.antt =====
-- wire_format.c: the handlers end if the formats of the rows do, and what they leave alone.
use wire_format.Base.{
  ℕ, zero, suc, ◌+◌, ◌≤◌, ◌<◌, ◌≡◌, refl, ap, ◌∙◌, arith, false, List, [], ◌∷◌, ◌||◌, get_or,
  Option, none, some, ◌==◌, if◌then◌else◌, length, Bool-cases, Option-cases, inl, inr,
}
use wire_format.Machine.State.{touch, max_params, Vars, Row, fail, call_depth}
use wire_format.Machine.Buffer.{peek, fs_pop, b_emit}
use wire_format.Machine.Extension.{find_handler}
use wire_format.Machine.Lists.{child_of, absorb, deref, format_at, call_digits, skip_char}
use wire_format.Machine.Rows.{
  row_at, aborts, row_loop, list_fits, run_rows, refuses_rows, format_rows, pop_rows, op_rows,
  store_count,
}
use wire_format.Machine.Loop.{
  Handler, simple, rows, run_handler, switch, exec_char, begin, ops, loop,
}
use wire_format.Machine.Halts.Mono.{Parser, parser, Extends, loop-more, row_loop-Within}
use wire_format.Machine.Record.{record_operand}
use wire_format.Machine.Keeps.{
  Keeps, Keeps-refl, pop-Keeps, emit-Keeps, if-Keeps, text-Keeps, fail-Keeps,
}
use wire_format.Machine.Keeps.Moves.{
  Moves, Enters, Keeps-Enters, HandlerMoves, ops-Moves, length-call_rest, length-skip_char,
}
use wire_format.Machine.Keeps.Extension.{OfFound, find_handler-every}
use wire_format.Machine.Keeps.Text.{operand-Keeps}

-- The parse ends, with some fuel.
abbrev pub Halts : Vars → Type 0
Halts v = (fuel : ℕ) × (r : Vars) × (loop fuel v ≡ some r)

-- What %J shares with the other handlers, as far as the end of the parse depends on it.
pub record Still (u v : Vars) : Type 0 where
  pub frames : v.frames ≡ u.frames
  pub cur_fmt : v.cur_fmt ≡ u.cur_fmt
  pub text : length v.f_str ≤ length u.f_str
  pub depth : v.sequence_depth ≡ u.sequence_depth

pub Still-trans : {u v w : Vars} → Still u v → Still v w → Still u w
Still-trans p q = record {
  frames = q.frames ∙ p.frames;
  cur_fmt = q.cur_fmt ∙ p.cur_fmt;
  text = omega (arith, p.text, q.text);
  depth = q.depth ∙ p.depth;
}

pub Still-refl : (v : Vars) → Still v v
Still-refl v = record { frames = refl; cur_fmt = refl; text = omega arith; depth = refl }

pub Keeps-Still : {u v : Vars} → Keeps u v → Still u v
Keeps-Still p = record {
  frames = p.frames;
  cur_fmt = p.cur_fmt;
  text = p.text;
  depth = p.shared.sequence_depth;
}

absorb-Still : (fc : ℕ) (id : Option ℕ) (i : ℕ) (c v : Vars) → Still v (absorb fc id i c v)
unfolding absorb
absorb-Still fc id i c v = ground arith

count-Still : (id : Option ℕ) (n : ℕ) (v : Vars) → Still v (store_count id n v)
count-Still id n v = ground arith

child-depth :
    (fc : ℕ) (row : Row) (v : Vars) → (child_of fc row v).sequence_depth ≡ v.sequence_depth + 1
unfolding child_of
child-depth fc row v = refl

-- Every format that a row of `v` may run ends.
abbrev pub ChildrenHalt : Vars → Type 0
ChildrenHalt v =
    v.sequence_depth < call_depth
    → (c : Vars) (fmt : List ℕ) (rank : ℕ) → c.sequence_depth ≡ v.sequence_depth + 1
    → Halts (begin c fmt rank)

abbrev EndsStill : (Parser → Option Vars) → Vars → Type 0
EndsStill run v = (fuel : ℕ) × (r : Vars) × (run (parser fuel) ≡ some r) × Still v r

pub parser-Extends : (f g : ℕ) → f ≤ g → Extends (parser f) (parser g)
parser-Extends f g h c fmt rank = loop-more f g h (begin c fmt rank)

module _ (fmt : List ℕ) (rank fc : ℕ) (id : Option ℕ) (d : ℕ)
    (halts : (c : Vars) → c.sequence_depth ≡ d + 1 → Halts (begin c fmt rank)) where
  row_loop-ends :
      (n i : ℕ) (v : Vars)
      → v.sequence_depth ≡ d
      → EndsStill (λ p. row_loop p fmt rank fc id n i v) v
  unfolding row_loop
  row_loop-ends zero i v e = (0, v, refl, Still-refl v)
  row_loop-ends (suc n) i v e = elim (Option-cases (row_at (deref v.store id) i)) [
    | inl missing ↦ (
      0,
      fail v,
      rw (missing, row_loop),
      record { frames = refl; cur_fmt = refl; text = omega arith; depth = refl },
    )
    | inr (row, found) ↦
        let (f, c, run) =
          halts (child_of fc row v) (child-depth fc row v ∙ ap (λ (t : ℕ). t + 1) e) in
        let w = absorb fc id i c v in
        let kept : Still v w = absorb-Still fc id i c v in
        elim (Bool-cases (w.overrun || aborts w)) [
          | inl stop ↦ (f, w, rw (found, run, stop, row_loop), kept)
          | inr on ↦
              let (g, r, rest, still) = row_loop-ends n (i + 1) w (kept.depth ∙ e) in
              (
                f + g,
                r,
                rw (found, loop-more f (f + g) (omega arith) _ c run, on, row_loop)
                    (row_loop-Within (parser g) (parser (f + g))
                      (parser-Extends g (f + g) (omega arith)) fmt rank fc id n (i + 1) w r rest),
                Still-trans kept still,
              )
        ]
  ]

run_rows-ends :
    (fmt : List ℕ) (rank fc count : ℕ) (id : Option ℕ) (v : Vars)
    → ((c : Vars) → c.sequence_depth ≡ v.sequence_depth + 1 → Halts (begin c fmt rank))
    → EndsStill (λ p. run_rows p fmt rank fc count id v) v
unfolding run_rows
run_rows-ends fmt rank fc count id v halts = elim (Option-cases (deref v.store id)) [
  | inl missing ↦ (0, fail v, rw (missing, run_rows), Keeps-Still (fail-Keeps (Keeps-refl v)))
  | inr (list, found) ↦ elim (Bool-cases (list_fits fc count v.encoding list)) [
    | inl fits ↦
        let w = store_count id count v in
        let kept : Still v w = count-Still id count v in
        let (f, r, e, s) =
          row_loop-ends fmt rank fc id v.sequence_depth halts count 0 w kept.depth in
        (f, r, rw (found, fits, run_rows) e, Still-trans kept s)
    | inr no_fit ↦
        (0, fail v, rw (found, no_fit, run_rows), Keeps-Still (fail-Keeps (Keeps-refl v)))
  ]
]

shallow :
    (n digits fc slot count : ℕ) (v : Vars)
    → refuses_rows n digits fc slot count v ≡ false
    → v.sequence_depth < call_depth
unfolding refuses_rows
shallow n digits fc slot count v h = ground arith

touched : (slot : ℕ) (v : Vars) → Still v (touch max_params slot v)
unfolding touch
touched slot v = ground arith

format_rows-ends :
    (fmt : Option (List ℕ)) (n digits fc slot count : ℕ) (v : Vars)
    → ChildrenHalt v
    → EndsStill (λ p. format_rows p fmt n digits fc slot count v) v
unfolding format_rows
format_rows-ends none n digits fc slot count v halts =
    (0, fail v, refl, Keeps-Still (fail-Keeps (Keeps-refl v)))
format_rows-ends (some fmt) n digits fc slot count v halts =
    elim (Bool-cases (refuses_rows n digits fc slot count v)) [
      | inl refused ↦ (0, fail v, rw refused, Keeps-Still (fail-Keeps (Keeps-refl v)))
      | inr allowed ↦
          let kept = touched slot v in
          let (f, r, e, s) =
            run_rows-ends fmt n fc count (get_or v.record_lists slot none) (touch max_params slot v)
              (λ c h.
                halts (shallow n digits fc slot count v allowed) c fmt n
                  (omega (arith, kept.depth))) in
          (f, r, rw allowed e, Still-trans kept s)
    ]

pop_rows-ends :
    (n digits : ℕ) (v : Vars) → ChildrenHalt v → EndsStill (λ p. pop_rows p n digits v) v
unfolding pop_rows
pop_rows-ends n digits v halts =
    let w = (fs_pop (fs_pop (fs_pop v).1).1).1 in
    let kept : Still v w = Keeps-Still (pop-Keeps (pop-Keeps (pop-Keeps (Keeps-refl v)))) in
    let (f, r, e, s) =
      format_rows-ends (format_at w.fmts n) n digits (fs_pop v).0 (fs_pop (fs_pop v).1).0
        (fs_pop (fs_pop (fs_pop v).1).1).0 w
        (λ h c fmt rank k.
          halts (omega (arith, kept.depth)) c fmt rank (omega (arith, kept.depth))) in
    (f, r, e, Still-trans kept s)

op_rows-ends : (v : Vars) → ChildrenHalt v → EndsStill (λ p. op_rows p v) v
unfolding op_rows
op_rows-ends v halts =
    let (n, digits, s) = call_digits 4 0 0 (skip_char b'[' v.f_str) in
    let w : Vars = record v { f_str = skip_char b']' s } in
    let shorter : length (skip_char b']' s) ≤ length v.f_str =
      omega
        (arith, length-call_rest 4 0 0 (skip_char b'[' v.f_str), length-skip_char b'[' v.f_str) in
    let kept : Keeps v w = text-Keeps (Keeps-refl v) (skip_char b']' s) shorter in
    elim (Bool-cases (peek w.f_str == b'{')) [
      | inl named ↦ (0, record_operand w, rw named, Keeps-Still (operand-Keeps kept))
      | inr plain ↦
          let (f, r, e, still) = pop_rows-ends n digits w halts in
          (f, r, rw plain e, Still-trans (Keeps-Still kept) still)
    ]

-- A handler ends, and either keeps to its format or enters a lower one.
pub data Onward (u v : Vars) : Type 0 where
  stays : Still u v → Onward u v
  enters : Enters u v → Onward u v

of_Moves : {u v : Vars} → Moves u v → Onward u v
of_Moves (inl p) = stays (Keeps-Still p)
of_Moves (inr e) = enters e

abbrev pub EndsOnward : (Parser → Option Vars) → Vars → Type 0
EndsOnward run v = (fuel : ℕ) × (r : Vars) × (run (parser fuel) ≡ some r) × Onward v r

handler-ends :
    (h : Option Handler) (v : Vars)
    → OfFound HandlerMoves h
    → ChildrenHalt v
    → EndsOnward (λ p. run_handler p h v) v
unfolding run_handler
handler-ends none v m halts = (0, fail v, refl, stays (Keeps-Still (fail-Keeps (Keeps-refl v))))
handler-ends (some (simple h)) v m halts = (0, h v, refl, of_Moves (m v))
handler-ends (some rows) v m halts = let (f, r, e, s) = op_rows-ends v halts in (f, r, e, stays s)

-- One character of the format, from the state that has it behind.
pub exec_char-ends :
    (c : ℕ) (s : List ℕ) (v : Vars)
    → ChildrenHalt v
    → EndsOnward (λ p. exec_char p c s v) (record v { f_str = s })
unfolding exec_char
exec_char-ends c [] v halts =
    let w : Vars = record v { f_str = [] } in
    (
      0,
      (if c == b'%' then fail w else b_emit w c),
      refl,
      stays (Keeps-Still (if-Keeps _ (fail-Keeps (Keeps-refl w)) (emit-Keeps (Keeps-refl w) c))),
    )
exec_char-ends c (op ∷ s) v halts = elim (Bool-cases (c == b'%')) [
  | inl special ↦
      let w : Vars = record v { f_str = s } in
      let (f, r, e, o) =
        handler-ends (find_handler op ops) w (find_handler-every HandlerMoves op ops ops-Moves)
          halts in
      (f, r, rw (special, exec_char) (unfold switch in e), longer op s o)
  | inr literal ↦
      let w : Vars = record v { f_str = op ∷ s } in
      (0, b_emit w c, rw (literal, exec_char), stays (Keeps-Still (emit-Keeps (Keeps-refl w) c)))
]
  where
    text_back : (op : ℕ) (s : List ℕ) → Keeps (record v { f_str = op ∷ s }) (record v { f_str = s })
    text_back op s = text-Keeps (Keeps-refl (record v { f_str = op ∷ s })) s (omega arith)

    longer :
        (op : ℕ) (s : List ℕ) {w : Vars}
        → Onward (record v { f_str = s }) w
        → Onward (record v { f_str = op ∷ s }) w
    longer op s (stays p) = stays (record {
      frames = p.frames;
      cur_fmt = p.cur_fmt;
      text = omega (arith, p.text);
      depth = p.depth;
    })
    longer op s (enters e) = enters (Keeps-Enters (text_back op s) e)
