-- ===== src/Machine/Safe/Parse.antt =====
-- wire_format.c: a parse from a state within its bounds ends within them.
use wire_format.Base.{
  ℕ, zero, suc, ◌+◌, ◌≤◌, ◌<◌, ◌≡◌, refl, ap, ◌∙◌, ◌-◌, arith, Bool, true, false, List, [], ◌∷◌,
  Option, none, some, length, if◌then◌else◌, ltb,
}
use mathlib.Core.Path.{subst}
use wire_format.Machine.State.{Vars, Frame, stack_depth, max_params, max_vars, call_depth}
use wire_format.Machine.Loop.{
  Round, done, next, stuck, at_end, of_end, of_exec, round_on, round, loop, begin, stops, parse,
  parse_rank, exec_char,
}
use wire_format.Machine.Halts.Mono.{Parser, parser}
use wire_format.Machine.Safe.Rows.{
  Bounded, Bounded-trans, Bounded-refl, ParsesBounded, Results, exec_char-Bounded,
}

-- The sizes of the arrays of `wi_vars_t`, the bounds on the stacks, the output and the bit counters,
-- and that no access has strayed.
pub record IsSafe (v : Vars) : Type 0 where
  pub stack : length v.fstack ≤ stack_depth
  pub frames : length v.frames ≤ call_depth
  pub out : length v.out ≤ v.out_size
  pub params : length v.params ≡ max_params
  pub vars : length v.vars ≡ max_vars
  pub slices : length v.slices ≡ max_params
  pub record_lists : length v.record_lists ≡ max_params
  pub write_bits : v.write_bits < 8
  pub read_bits : v.read_bits ≤ 8
  pub stray : v.stray ≡ false

abbrev RoundBounded : Vars → Round → Type 0
RoundBounded v done = Unit {0}
RoundBounded v (next w) = Bounded v w
RoundBounded v stuck = Unit {0}

repeated :
    (v : Vars) (f : Frame) (fs : List Frame) (k : ℕ)
    → v.frames ≡ f ∷ fs
    → Bounded v (record v { frames = record f { left = k } ∷ fs; f_str = f.start })
repeated v f fs k e = ground (arith, ap (λ (x : List Frame). length x) e)

left_frame :
    (v : Vars) (f : Frame) (fs : List Frame)
    → v.frames ≡ f ∷ fs
    → Bounded v (record v { frames = fs; f_str = f.resume; cur_fmt = f.fmt })
left_frame v f fs e = ground (arith, ap (λ (x : List Frame). length x) e)

end-Bounded : (fs : List Frame) (v : Vars) → v.frames ≡ fs → RoundBounded v (of_end (at_end fs v))
unfolding at_end of_end
end-Bounded [] v e = tt
end-Bounded (f ∷ fs) v e = go (ltb 0 f.left)
  where
    go :
        (b : Bool)
        → RoundBounded v (
            of_end (
              if b
              then some (record v { frames = record f { left = f.left - 1 } ∷ fs; f_str = f.start })
              else some (record v { frames = fs; f_str = f.resume; cur_fmt = f.fmt })))
    go true = repeated v f fs (f.left - 1) e
    go false = left_frame v f fs e

exec-Bounded : (x : Option Vars) (v : Vars) → Results v x → RoundBounded v (of_exec x)
unfolding of_exec
exec-Bounded none v h = tt
exec-Bounded (some w) v h = h w refl

round_on-Bounded :
    (p : Parser) (s : List ℕ) (v : Vars)
    → ParsesBounded p
    → v.f_str ≡ s
    → RoundBounded v (round_on p s v)
unfolding round_on
round_on-Bounded p [] v b e = end-Bounded v.frames v refl
round_on-Bounded p (c ∷ s) v b e =
    exec-Bounded (exec_char p c s v) v
      (exec_char-Bounded p b c s v (omega (arith, ap (λ (x : List ℕ). length x) e)))

round-Bounded : (p : Parser) (v : Vars) → ParsesBounded p → RoundBounded v (round p v)
unfolding round
round-Bounded p v b = go (stops v)
  where
    go : (t : Bool) → RoundBounded v (if t then done else round_on p v.f_str v)
    go true = tt
    go false = round_on-Bounded p v.f_str v b refl

of_round :
    (x : Round) (v r : Vars) (f : Vars → Option Vars)
    → RoundBounded v x
    → ((w : Vars) → Results w (f w))
    → elim x [ done ↦ some v | next w ↦ f w | stuck ↦ none ] ≡ some r
    → Bounded v r
of_round done v r f b h e = let q : v ≡ r = cc in subst (λ x. Bounded v x) q (Bounded-refl v)
of_round (next w) v r f b h e = Bounded-trans b (h w r e)
of_round stuck v r f b h e = cc

-- The loop keeps the bounds, with whatever fuel it ends.
pub loop-Bounded : (fuel : ℕ) (v : Vars) → Results v (loop fuel v)
unfolding loop
loop-Bounded zero v r e = cc
loop-Bounded (suc fuel) v r e =
    of_round (round (parser fuel) v) v r (loop fuel)
      (round-Bounded (parser fuel) v
        (λ c fmt rank r' e'. (loop-Bounded fuel (begin c fmt rank) r' e').shared))
      (loop-Bounded fuel) e

-- A parse from a safe state that ends, ends in a safe one: the arrays have their sizes, the stacks and
-- the bit counters are within their bounds, and no access has strayed, that is, no index of a
-- parameter, variable, slice or record list was out of its array, no pop was from an empty stack, and
-- no byte was read behind the input. The output fits the buffer, the position and the unread bytes
-- add up as before, the position does not go back, and the parameters and the format table are the
-- same.
pub parse-IsSafe :
    (fuel : ℕ) (v : Vars) (fmt : List ℕ) (r : Vars)
    → IsSafe v
    → parse fuel v fmt ≡ some r
    → IsSafe r
      × (length r.out ≤ v.out_size)
      × (r.in_pos + length r.input ≡ v.in_pos + length v.input)
      × (v.in_pos ≤ r.in_pos)
      × (r.params ≡ v.params)
      × (r.fmts ≡ v.fmts)
unfolding parse parse_rank
parse-IsSafe fuel v fmt r h e =
    let b : Bounded (begin v fmt v.nfmts) r = loop-Bounded fuel (begin v fmt v.nfmts) r e in
    (
      record {
        stack = b.shared.stack_fits h.stack;
        frames = b.frames (omega arith);
        out = b.shared.out_fits (omega arith);
        params = ap length b.shared.params ∙ h.params;
        vars = b.shared.vars ∙ h.vars;
        slices = b.shared.slices ∙ h.slices;
        record_lists = ap length b.shared.record_lists ∙ h.record_lists;
        write_bits = b.shared.write_bits h.write_bits;
        read_bits = b.shared.read_bits h.read_bits;
        stray = b.shared.stray h.stray;
      },
      omega (arith, b.shared.out_fits (omega arith), b.shared.out_size),
      b.shared.consumed,
      b.shared.forward,
      b.shared.params,
      b.shared.fmts,
    )
