-- ===== src/Machine/Keeps/Moves.antt =====
-- wire_format.c: every handler of the dispatch table but %J either keeps to its format, or enters
-- a format of lower index.
use wire_format.Base.{
  ℕ, zero, suc, ◌+◌, ◌-◌, ◌*◌, ◌∙◌, ◌≤◌, ◌<◌, ◌≡◌, refl, ap, arith, Bool, true, false, List, [],
  ◌∷◌, length, if◌then◌else◌, ◌⊎◌, inl, inr, Option, none, some, ◌==◌, ◌||◌, leb, is_negative,
}
use wire_format.Machine.State.{Vars, Frame, fail, call_depth}
use wire_format.Machine.Lists.{call_digits, skip_char, format_at}
use wire_format.Machine.Call.{enter, run_call, op_call}
use wire_format.Machine.Loop.{Handler, simple, rows, ops, named, op_put, op_get, do_nothing}
use wire_format.Machine.Keeps.{
  Keeps, Shared, Shared-trans, Keeps-refl, Keeps-trans, if-Keeps, fail-Keeps,
}
use wire_format.Machine.Keeps.Fields.{
  pending-Keeps, op_fault-Keeps, op_colon-Keeps, store_var-Keeps, load_var-Keeps, put_bits-Keeps,
  get_bits-Keeps, flush-Keeps, op_rest-Keeps, op_exact-Keeps, op_length-Keeps, op_count-Keeps,
}
use wire_format.Machine.Keeps.Simple.{
  op_and-Keeps, op_andl-Keeps, op_or-Keeps, op_orl-Keeps, op_xor-Keeps, op_plus-Keeps,
  op_minus-Keeps, op_star-Keeps, op_div-Keeps, op_mod-Keeps, op_equals-Keeps, op_greater-Keeps,
  op_less-Keeps, op_not-Keeps, op_notl-Keeps, op_percent-Keeps, op_char-Keeps, op_byte-Keeps,
  op_word-Keeps, op_long-Keeps, read_byte-Keeps, read_word-Keeps, read_long-Keeps,
}
use wire_format.Machine.Keeps.Emit.{
  op_quad-Keeps, op_sdnv-Keeps, op_raw-Keeps, read_quad-Keeps, read_sdnv-Keeps, op_slice-Keeps,
  op_exact_slice-Keeps,
}
use wire_format.Machine.Keeps.Text.{
  length-advance, op_tick-Keeps, op_brace-Keeps, op_param-Keeps, op_then-Keeps, op_else-Keeps,
  operand-Keeps,
}
use wire_format.Machine.Keeps.Text.{length-advance}
use wire_format.Machine.Keeps.Record.{emit_bits-Keeps, read_bits-Keeps}
use wire_format.Machine.Keeps.Extension.{EveryHandler, record_extension-Keeps}
use wire_format.Machine.Keeps.{text-Keeps}
use wire_format.Machine.Text.{store_var, load_var}

-- The state after a call: a frame that resumes the caller, and the text of a lower format.
pub record Enters (u v : Vars) : Type 0 where
  pub shared : Shared u v
  pub frame : Frame
  pub frames : v.frames ≡ frame ∷ u.frames
  pub caller : frame.fmt ≡ u.cur_fmt
  pub resume : length frame.resume ≤ length u.f_str
  pub lower : v.cur_fmt < u.cur_fmt
  pub text : v.f_str ≡ frame.start
  pub room : length u.frames < call_depth

abbrev pub Moves : Vars → Vars → Type 0
Moves u v = Keeps u v ⊎ Enters u v

pub length-skip_char : (c : ℕ) (s : List ℕ) → length (skip_char c s) ≤ length s
length-skip_char c s = ground (arith, length-advance s)

length-call_digits : (room n d : ℕ) (s : List ℕ) → length (call_digits room n d s).2 ≤ length s
unfolding call_digits
length-call_digits zero n d s = omega arith
length-call_digits (suc room) n d [] = omega arith
length-call_digits (suc room) n d (c ∷ s) =
    ground (arith, length-call_digits room (n * 10 + (c - b'0')) (d + 1) s)

-- What is left behind the digits and the bracket of a call.
pub length-call_rest :
    (room n d : ℕ) (s : List ℕ) → length (skip_char b']' (call_digits room n d s).2) ≤ length s
length-call_rest room n d s =
    omega (arith, length-skip_char b']' (call_digits room n d s).2, length-call_digits room n d s)

pub Keeps-Enters : {u v w : Vars} → Keeps u v → Enters v w → Enters u w
Keeps-Enters p e = record {
  shared = Shared-trans p.shared e.shared;
  frame = e.frame;
  frames = e.frames ∙ ap (λ fs. e.frame ∷ fs) p.frames;
  caller = e.caller ∙ p.cur_fmt;
  resume = omega (arith, p.text, e.resume);
  lower = omega (arith, p.cur_fmt, e.lower);
  text = e.text;
  room = omega (arith, ap (λ (fs : List Frame). length fs) p.frames, e.room);
}

Keeps-Moves : {u v w : Vars} → Keeps u v → Moves v w → Moves u w
Keeps-Moves p (inl q) = inl (Keeps-trans p q)
Keeps-Moves p (inr e) = inr (Keeps-Enters p e)

dif-Moves :
    {u : Vars} (b : Bool) {v w : Vars}
    → (b ≡ true → Moves u v)
    → (b ≡ false → Moves u w)
    → Moves u (if b then v else w)
dif-Moves true p q = p refl
dif-Moves false p q = q refl

enter-Enters :
    (n : ℕ) (fmt : List ℕ) (count : ℕ) (v : Vars)
    → n < v.cur_fmt
    → length v.frames < call_depth
    → Enters v (enter n fmt count v)
enter-Enters n fmt count v h k = record {
  shared = entered;
  frame = record { resume = v.f_str; start = fmt; left = count - 1; fmt = v.cur_fmt };
  frames = refl;
  caller = refl;
  resume = omega arith;
  lower = h;
  text = refl;
  room = k;
}
  where
    entered : Shared v (enter n fmt count v)
    entered = ground arith

run_call-Moves : (n digits count : ℕ) (v : Vars) → Moves v (run_call n digits count v)
unfolding run_call
run_call-Moves n digits count v = go (format_at v.fmts n)
  where
    go :
        (r : Option (List ℕ))
        → Moves v (elim r [
          | none ↦ v
          | some fmt ↦
              if digits == 0 || leb v.nfmts n || leb v.cur_fmt n
              then v
              else if leb call_depth (length v.frames)
              then fail v
              else if is_negative count || count == 0
              then v
              else enter n fmt count v
        ])
    go none = inl (Keeps-refl v)
    go (some fmt) =
        dif-Moves (digits == 0 || leb v.nfmts n || leb v.cur_fmt n) (λ _. inl (Keeps-refl v))
          λ h.
            dif-Moves (leb call_depth (length v.frames)) (λ _. inl (fail-Keeps (Keeps-refl v)))
              λ k.
                dif-Moves (is_negative count || count == 0) (λ _. inl (Keeps-refl v))
                  λ _. inr (enter-Enters n fmt count v (ground arith) (ground arith))

op_call-Moves : (v : Vars) → Moves v (op_call v)
unfolding op_call
op_call-Moves v =
    Keeps-Moves (pending-Keeps (text-Keeps (Keeps-refl v) _ (length-call_rest 4 0 0 v.f_str)) 1)
      (run_call-Moves _ _ v.pending _)

abbrev pub HandlerMoves : Handler → Type 0
HandlerMoves (simple h) = (v : Vars) → Moves v (h v)
HandlerMoves rows = Unit

named-Keeps : (h : Vars → Vars) → ((v : Vars) → Keeps v (h v)) → (v : Vars) → Keeps v (named h v)
named-Keeps h k v = if-Keeps _ (operand-Keeps (Keeps-refl v)) (k v)

nothing-Keeps : (v : Vars) → Keeps v (do_nothing v)
unfolding do_nothing
nothing-Keeps v = Keeps-refl v

put-Keeps : (v : Vars) → Keeps v (op_put v)
unfolding op_put
put-Keeps = named-Keeps store_var store_var-Keeps

get-Keeps : (v : Vars) → Keeps v (op_get v)
unfolding op_get
get-Keeps = named-Keeps load_var load_var-Keeps

-- The dispatch table, row by row.
pub ops-Moves : EveryHandler HandlerMoves ops
ops-Moves = (
  λ v. inl (op_percent-Keeps v),
  (
    λ v. inl (op_param-Keeps v),
    (
      λ v. inl (op_char-Keeps v),
      (
        λ v. inl (op_byte-Keeps v),
        (
          λ v. inl (op_word-Keeps v),
          (
            λ v. inl (op_long-Keeps v),
            (
              λ v. inl (op_raw-Keeps v),
              (
                λ v. inl (named-Keeps _ op_rest-Keeps v),
                (
                  λ v. inl (named-Keeps _ op_exact-Keeps v),
                  (
                    λ v. inl (named-Keeps _ op_length-Keeps v),
                    (
                      λ v. inl (named-Keeps _ op_slice-Keeps v),
                      (
                        λ v. inl (named-Keeps _ op_exact_slice-Keeps v),
                        (
                          λ v. inl (named-Keeps _ op_count-Keeps v),
                          (
                            λ v. inl (read_byte-Keeps v),
                            (
                              λ v. inl (read_word-Keeps v),
                              (
                                λ v. inl (read_long-Keeps v),
                                (
                                  λ v. inl (op_quad-Keeps v),
                                  (
                                    λ v. inl (read_quad-Keeps v),
                                    (
                                      λ v. inl (op_sdnv-Keeps v),
                                      (
                                        λ v. inl (read_sdnv-Keeps v),
                                        (
                                          λ v. inl (put_bits-Keeps v),
                                          (
                                            λ v. inl (get_bits-Keeps v),
                                            (
                                              λ v. inl (flush-Keeps v),
                                              (
                                                λ v. inl (op_and-Keeps v),
                                                (
                                                  λ v. inl (op_andl-Keeps v),
                                                  (
                                                    λ v. inl (op_or-Keeps v),
                                                    (
                                                      λ v. inl (op_orl-Keeps v),
                                                      (
                                                        λ v. inl (op_xor-Keeps v),
                                                        (
                                                          λ v. inl (op_not-Keeps v),
                                                          (
                                                            λ v. inl (op_notl-Keeps v),
                                                            (
                                                            λ v. inl (op_plus-Keeps v),
                                                            (
                                                            λ v. inl (op_minus-Keeps v),
                                                            (
                                                            λ v. inl (op_star-Keeps v),
                                                            (
                                                            λ v. inl (op_div-Keeps v),
                                                            (
                                                            λ v. inl (op_mod-Keeps v),
                                                            (
                                                            λ v. inl (op_equals-Keeps v),
                                                            (
                                                            λ v. inl (op_greater-Keeps v),
                                                            (
                                                            λ v. inl (op_less-Keeps v),
                                                            (
                                                            λ v. inl (op_tick-Keeps v),
                                                            (
                                                            λ v. inl (op_brace-Keeps v),
                                                            (
                                                            λ v. inl (put-Keeps v),
                                                            (
                                                            λ v. inl (get-Keeps v),
                                                            (
                                                            λ v. inl (op_fault-Keeps v),
                                                            (
                                                            λ v. inl (nothing-Keeps v),
                                                            (
                                                            λ v. inl (op_then-Keeps v),
                                                            (
                                                            λ v. inl (op_else-Keeps v),
                                                            (
                                                            λ v. inl (nothing-Keeps v),
                                                            (
                                                            op_call-Moves,
                                                            (
                                                            λ v. inl (op_colon-Keeps v),
                                                            (
                                                            tt,
                                                            (
                                                            λ v. inl (emit_bits-Keeps v),
                                                            (
                                                            λ v. inl (read_bits-Keeps v),
                                                            (
                                                            λ v. inl (record_extension-Keeps v),
                                                            tt,
                                                            ),
                                                            ),
                                                            ),
                                                            ),
                                                            ),
                                                            ),
                                                            ),
                                                            ),
                                                            ),
                                                            ),
                                                            ),
                                                            ),
                                                            ),
                                                            ),
                                                            ),
                                                            ),
                                                            ),
                                                            ),
                                                            ),
                                                            ),
                                                            ),
                                                            ),
                                                            ),
                                                          ),
                                                        ),
                                                      ),
                                                    ),
                                                  ),
                                                ),
                                              ),
                                            ),
                                          ),
                                        ),
                                      ),
                                    ),
                                  ),
                                ),
                              ),
                            ),
                          ),
                        ),
                      ),
                    ),
                  ),
                ),
              ),
            ),
          ),
        ),
      ),
    ),
  ),
)
