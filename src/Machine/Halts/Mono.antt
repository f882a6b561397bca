-- ===== src/Machine/Halts/Mono.antt =====
-- wire_format.c: more fuel does not change a parse that has ended.
use wire_format.Base.{
  ℕ, zero, suc, ◌+◌, ◌≤◌, ◌≡◌, refl, arith, Bool, true, false, List, [], ◌∷◌, ◌||◌, get_or, Option,
  none, some, ◌==◌, if◌then◌else◌,
}
use wire_format.Machine.State.{touch, max_params, Vars, fail}
use wire_format.Machine.Buffer.{peek, fs_pop}
use wire_format.Machine.Extension.{find_handler}
use wire_format.Machine.Lists.{child_of, absorb, deref, format_at, call_digits, skip_char}
use wire_format.Machine.Rows.{
  row_at, aborts, row_loop, list_fits, run_rows, refuses_rows, format_rows, pop_rows, op_rows,
  store_count,
}
use wire_format.Machine.Loop.{
  Handler, simple, rows, run_handler, switch, exec_char, begin, Round, done, next, stuck, of_exec,
  round_on, round, loop, ops, stops,
}

-- What parses the format of a row: a state, a format and a rank.
abbrev pub Parser : Type 0
Parser = Vars → List ℕ → ℕ → Option Vars

-- `y` ends where `x` does, with the same state.
abbrev pub Within : Option Vars → Option Vars → Type 0
Within x y = (r : Vars) → x ≡ some r → y ≡ some r

abbrev pub Extends : Parser → Parser → Type 0
Extends p q = (c : Vars) (fmt : List ℕ) (rank : ℕ) → Within (p c fmt rank) (q c fmt rank)

on_bool :
    (b : Bool) {x x' y y' : Option Vars}
    → Within x x'
    → Within y y'
    → Within (elim b [ true ↦ x | false ↦ y ]) (elim b [ true ↦ x' | false ↦ y' ])
on_bool true h k = h
on_bool false h k = k

on_if :
    (b : Bool) {x x' y y' : Option Vars}
    → Within x x'
    → Within y y'
    → Within (if b then x else y) (if b then x' else y')
on_if true h k = h
on_if false h k = k

on_option {ℓ} :
    {A : Type ℓ} (o : Option A) (x : Option Vars) (f g : A → Option Vars)
    → ((a : A) → Within (f a) (g a))
    → Within (elim o [ none ↦ x | some a ↦ f a ]) (elim o [ none ↦ x | some a ↦ g a ])
on_option none x f g h r e = e
on_option (some a) x f g h r e = h a r e

on_result :
    (m m' : Option Vars) (f g : Vars → Option Vars)
    → Within m m'
    → ((a : Vars) → Within (f a) (g a))
    → Within (elim m [ none ↦ none | some a ↦ f a ]) (elim m' [ none ↦ none | some a ↦ g a ])
on_result none m' f g h k r e = cc
on_result (some a) m' f g h k r e = rw (h a refl) (k a r e)

module _ (p q : Parser) (ext : Extends p q) where
  pub row_loop-Within :
      (fmt : List ℕ) (rank fc : ℕ) (id : Option ℕ) (n i : ℕ) (v : Vars)
      → Within (row_loop p fmt rank fc id n i v) (row_loop q fmt rank fc id n i v)
  unfolding row_loop
  row_loop-Within fmt rank fc id zero i v r e = e
  row_loop-Within fmt rank fc id (suc n) i v r e =
      on_option (row_at (deref v.store id) i) (some (fail v)) _ _
        (λ row.
          on_result (p (child_of fc row v) fmt rank) (q (child_of fc row v) fmt rank) _ _
            (ext (child_of fc row v) fmt rank)
            λ c.
              on_bool ((absorb fc id i c v).overrun || aborts (absorb fc id i c v)) (λ r e. e)
                (row_loop-Within fmt rank fc id n (i + 1) (absorb fc id i c v)))
        r e

  run_rows-Within :
      (fmt : List ℕ) (rank fc count : ℕ) (id : Option ℕ) (v : Vars)
      → Within (run_rows p fmt rank fc count id v) (run_rows q fmt rank fc count id v)
  unfolding run_rows
  run_rows-Within fmt rank fc count id v = on_option (deref v.store id) (some (fail v)) _ _ λ list.
      on_bool (list_fits fc count v.encoding list)
        (row_loop-Within fmt rank fc id count 0 (store_count id count v)) (λ r e. e)

  format_rows-Within :
      (fmt : Option (List ℕ)) (n digits fc slot count : ℕ) (v : Vars)
      → Within
          (format_rows p fmt n digits fc slot count v)
          (format_rows q fmt n digits fc slot count v)
  unfolding format_rows
  format_rows-Within none n digits fc slot count v r e = e
  format_rows-Within (some fmt) n digits fc slot count v r e =
      on_if (refuses_rows n digits fc slot count v) (λ r e. e)
        (run_rows-Within fmt n fc count (get_or v.record_lists slot none) (touch max_params slot v))
        r e

  pop_rows-Within :
      (n digits : ℕ) (v : Vars) → Within (pop_rows p n digits v) (pop_rows q n digits v)
  unfolding pop_rows
  pop_rows-Within n digits v =
      let w = (fs_pop (fs_pop (fs_pop v).1).1).1 in
      format_rows-Within (format_at w.fmts n) n digits (fs_pop v).0 (fs_pop (fs_pop v).1).0
        (fs_pop (fs_pop (fs_pop v).1).1).0 w

  op_rows-Within : (v : Vars) → Within (op_rows p v) (op_rows q v)
  unfolding op_rows
  op_rows-Within v =
      let (n, digits, s) = call_digits 4 0 0 (skip_char b'[' v.f_str) in
      let w : Vars = record v { f_str = skip_char b']' s } in
      on_if (peek w.f_str == b'{') (λ r e. e) (pop_rows-Within n digits w)

  handler-Within : (h : Option Handler) (v : Vars) → Within (run_handler p h v) (run_handler q h v)
  unfolding run_handler
  handler-Within none v r e = e
  handler-Within (some (simple h)) v r e = e
  handler-Within (some rows) v r e = op_rows-Within v r e

  switch-Within : (op : ℕ) (v : Vars) → Within (switch p op v) (switch q op v)
  unfolding switch
  switch-Within op v = handler-Within (find_handler op ops) v

  exec_char-Within :
      (c : ℕ) (s : List ℕ) (v : Vars) → Within (exec_char p c s v) (exec_char q c s v)
  unfolding exec_char
  exec_char-Within c [] v r e = e
  exec_char-Within c (op ∷ s) v r e =
      on_bool (c == b'%') (switch-Within op (record v { f_str = s })) (λ r e. e) r e

-- The rounds agree where the first is not stuck.
abbrev pub Refines : Round → Round → Type 0
Refines stuck y = Unit {0}
Refines done y = y ≡ done
Refines (next v) y = y ≡ next v

of_exec-Refines : (x y : Option Vars) → Within x y → Refines (of_exec x) (of_exec y)
unfolding of_exec
of_exec-Refines none y h = tt
of_exec-Refines (some v) y h = rw (h v refl)

same : (x : Round) → Refines x x
same done = refl
same (next v) = refl
same stuck = tt

round_on-Refines :
    (p q : Parser)
    → Extends p q
    → (s : List ℕ) (v : Vars) → Refines (round_on p s v) (round_on q s v)
unfolding round_on
round_on-Refines p q ext [] v = same _
round_on-Refines p q ext (c ∷ s) v = of_exec-Refines _ _ (exec_char-Within p q ext c s v)

pub round-Refines : (p q : Parser) → Extends p q → (v : Vars) → Refines (round p v) (round q v)
unfolding round
round-Refines p q ext v = go (stops v)
  where
    go :
        (b : Bool)
        → Refines
            (if b then done else round_on p v.f_str v)
            (if b then done else round_on q v.f_str v)
    go true = refl
    go false = round_on-Refines p q ext v.f_str v

-- The parser of the rows at a fuel.
abbrev pub parser : ℕ → Parser
parser fuel c fmt rank = loop fuel (begin c fmt rank)

loop_round :
    (x y : Round) (v r : Vars) (f g : Vars → Option Vars)
    → Refines x y
    → ((w : Vars) → Within (f w) (g w))
    → elim x [ done ↦ some v | next w ↦ f w | stuck ↦ none ] ≡ some r
    → elim y [ done ↦ some v | next w ↦ g w | stuck ↦ none ] ≡ some r
loop_round done y v r f g h k e = rw h e
loop_round (next w) y v r f g h k e = rw h (k w r e)
loop_round stuck y v r f g h k e = cc

-- A parse that ends with some fuel ends in the same state with more.
pub loop-more : (fuel more : ℕ) → fuel ≤ more → (v : Vars) → Within (loop fuel v) (loop more v)
unfolding loop
loop-more zero more h v r e = cc
loop-more (suc fuel) zero h v r e = absurd (omega arith)
loop-more (suc fuel) (suc more) h v r e =
    loop_round (round (parser fuel) v) (round (parser more) v) v r (loop fuel) (loop more)
      (round-Refines (parser fuel) (parser more)
        (λ c fmt rank. loop-more fuel more (omega arith) (begin c fmt rank)) v)
      (loop-more fuel more (omega arith)) e
