-- ===== src/Machine/Halts/Total.antt =====
-- wire_format.c: `wi_parse` ends on every state and format.
use wire_format.Base.{
  ℕ, zero, suc, ◌+◌, ◌≤◌, ◌<◌, ◌≡◌, refl, ap, ◌∙◌, arith, true, false, List, [], ◌∷◌, some, length,
  Bool-cases, inl, inr, ◌⊎◌,
}
use wire_format.Machine.State.{Vars, Frame, call_depth}
use wire_format.Machine.Loop.{
  done, next, at_end, of_end, of_exec, round_on, round, loop, begin, stops, parse, parse_rank,
  exec_char,
}
use wire_format.Machine.Halts.Mono.{Parser, parser, loop-more, round-Refines}
use wire_format.Machine.Halts.Rows.{
  Halts, ChildrenHalt, Onward, stays, enters, exec_char-ends, parser-Extends,
}

Halts-done : (fuel : ℕ) (v : Vars) → round (parser fuel) v ≡ done → Halts v
unfolding loop
Halts-done fuel v e = (suc fuel, v, rw (e, loop))

stopped : (p : Parser) (v : Vars) → stops v ≡ true → round p v ≡ done
unfolding round
stopped p v e = rw e

Halts-stopped : (v : Vars) → stops v ≡ true → Halts v
Halts-stopped v e = Halts-done 0 v (stopped (parser 0) v e)

-- A round that goes on to a state whose parse ends.
Halts-next : (fuel : ℕ) (v w : Vars) → round (parser fuel) v ≡ next w → Halts w → Halts v
unfolding loop
Halts-next fuel v w e (more, r, run) = (suc (fuel + more), r, rw (later, loop) rest)
  where
    later : round (parser (fuel + more)) v ≡ next w
    later = rw e at (
        round-Refines (parser fuel) (parser (fuel + more))
          (parser-Extends fuel (fuel + more) (omega arith)) v)

    rest : loop (fuel + more) w ≡ some r
    rest = loop-more more (fuel + more) (omega arith) w r run

-- The states in which the format of `v` has been read to its end.
record Arrival (v w : Vars) : Type 0 where
  text : w.f_str ≡ []
  frames : w.frames ≡ v.frames
  cur_fmt : w.cur_fmt ≡ v.cur_fmt
  depth : w.sequence_depth ≡ v.sequence_depth

abbrev AtEnd : Vars → Type 0
AtEnd v = (w : Vars) → Arrival v w → Halts w

-- A round of a state that does not stop, by its text; and at the end of a format, by its frames.
running :
    (p : Parser) (v : Vars) (s : List ℕ)
    → stops v ≡ false
    → v.f_str ≡ s
    → round p v ≡ round_on p s v
unfolding round
running p v s go t = rw go (ap (λ x. round_on p x v) t)

at_frames :
    (p : Parser) (v : Vars) (fs : List Frame)
    → stops v ≡ false
    → v.f_str ≡ []
    → v.frames ≡ fs
    → round p v ≡ of_end (at_end fs v)
unfolding round_on
at_frames p v fs go t e = running p v [] go t ∙ ap (λ x. of_end (at_end x v)) e

repeat_frame :
    (f : Frame) (k : ℕ) (fs : List Frame) (v : Vars)
    → of_end (at_end (record f { left = suc k } ∷ fs) v)
      ≡ next (record v { frames = record f { left = k } ∷ fs; f_str = f.start })
unfolding at_end of_end
repeat_frame f k fs v = ground arith

leave_frame :
    (f : Frame) (fs : List Frame) (v : Vars)
    → of_end (at_end (record f { left = 0 } ∷ fs) v)
      ≡ next (record v { frames = fs; f_str = f.resume; cur_fmt = f.fmt })
unfolding at_end of_end
leave_frame f fs v = refl

-- A called format that ends each time ends after its repeats, and resumes its caller.
module _ (d m caller : ℕ) (start resume : List ℕ) (fs : List Frame)
    (callee : (w : Vars)
      → w.sequence_depth ≡ d
      → w.cur_fmt ≡ m
      → w.f_str ≡ start
      → AtEnd w
      → Halts w)
    (resumed : (w : Vars)
      → w.sequence_depth ≡ d
      → w.frames ≡ fs
      → w.cur_fmt ≡ caller
      → w.f_str ≡ resume
      → Halts w) where
  abbrev frame : ℕ → Frame
  frame k = record { resume = resume; start = start; left = k; fmt = caller }

  repeats :
      (k : ℕ) (w : Vars)
      → w.f_str ≡ []
      → w.frames ≡ frame k ∷ fs
      → w.cur_fmt ≡ m
      → w.sequence_depth ≡ d
      → Halts w
  repeats zero w t e c h = elim (Bool-cases (stops w)) [
    | inl stop ↦ Halts-stopped w stop
    | inr go ↦
        Halts-next 0 w _ (at_frames (parser 0) w _ go t e ∙ leave_frame (frame 0) fs w)
          (resumed _ h refl refl refl)
  ]
  repeats (suc k) w t e c h = elim (Bool-cases (stops w)) [
    | inl stop ↦ Halts-stopped w stop
    | inr go ↦
        Halts-next 0 w _ (at_frames (parser 0) w _ go t e ∙ repeat_frame (frame 0) k fs w)
          (callee _ h c refl λ x a. repeats k x a.text a.frames (a.cur_fmt ∙ c) (a.depth ∙ h))
  ]

of_exec-next :
    (p : Parser) (c : ℕ) (s : List ℕ) (v w : Vars)
    → stops v ≡ false
    → v.f_str ≡ c ∷ s
    → exec_char p c s v ≡ some w
    → round p v ≡ next w
unfolding round_on of_exec
of_exec-next p c s v w go t e = running p v (c ∷ s) go t ∙ ap of_exec e

List-cases : (s : List ℕ) → (s ≡ []) ⊎ ((c : ℕ) × (r : List ℕ) × (s ≡ c ∷ r))
List-cases [] = inl refl
List-cases (c ∷ r) = inr (c, r, refl)

-- The parse of `v` ends, if it does so from the end of its format; if the parses do that read the
-- text on, and the parses of lower formats; and if those of the rows do.
abbrev Ending : Vars → Type 0
Ending v = AtEnd v → Halts v

on_from :
    (v : Vars)
    → ChildrenHalt v
    → ((w : Vars)
        → length w.f_str < length v.f_str
        → w.cur_fmt ≡ v.cur_fmt
        → w.sequence_depth ≡ v.sequence_depth
        → Ending w)
    → ((w : Vars) → w.cur_fmt < v.cur_fmt → w.sequence_depth ≡ v.sequence_depth → Ending w)
    → Ending v
on_from v children later lower arrive = elim (Bool-cases (stops v)) [
  | inl stop ↦ Halts-stopped v stop
  | inr go ↦ elim (List-cases v.f_str) [
    | inl t ↦ arrive v (record { text = t; frames = refl; cur_fmt = refl; depth = refl })
    | inr (c, s, t) ↦
        let (fuel, w, e, o) = exec_char-ends c s v children in
        Halts-next fuel v w (of_exec-next (parser fuel) c s v w go t e) (onward c s t w o)
  ]
]
  where
    onward :
        (c : ℕ) (s : List ℕ)
        → v.f_str ≡ c ∷ s
        → (w : Vars) → Onward (record v { f_str = s }) w
        → Halts w
    onward c s t w (stays p) =
        later w (omega (arith, p.text, ap (λ (x : List ℕ). length x) t)) p.cur_fmt p.depth λ x a.
          arrive x (record {
            text = a.text;
            frames = a.frames ∙ p.frames;
            cur_fmt = a.cur_fmt ∙ p.cur_fmt;
            depth = a.depth ∙ p.depth;
          })
    onward c s t w (enters e) = lower w e.lower e.shared.sequence_depth λ x a.
        repeats v.sequence_depth w.cur_fmt v.cur_fmt e.frame.start e.frame.resume v.frames
          (λ y hd hc ht ar. lower y (omega (arith, hc, e.lower)) hd ar)
          (λ y hd hf hc ht.
            later y
              (omega (
                arith,
                e.resume,
                ap (λ (x : List ℕ). length x) ht,
                ap (λ (x : List ℕ). length x) t,
              ))
              hc hd
              λ z b. arrive z (record {
                text = b.text;
                frames = b.frames ∙ hf;
                cur_fmt = b.cur_fmt ∙ hc;
                depth = b.depth ∙ hd;
              }))
          e.frame.left x a.text
          (a.frames ∙ e.frames ∙ ap (λ k. record e.frame { fmt = k } ∷ v.frames) e.caller) a.cur_fmt
          (a.depth ∙ e.shared.sequence_depth)

by_text :
    (l : ℕ) (v : Vars)
    → length v.f_str ≤ l
    → ((w : Vars) → w.sequence_depth ≡ v.sequence_depth → ChildrenHalt w)
    → ((w : Vars) → w.cur_fmt < v.cur_fmt → w.sequence_depth ≡ v.sequence_depth → Ending w)
    → Ending v
by_text zero v h children lower =
    on_from v (children v refl) (λ w s c d. absurd (omega arith)) lower
by_text (suc l) v h children lower =
    on_from v (children v refl)
      (λ w s c d.
        by_text l w (omega arith) (λ x e. children x (e ∙ d))
          (λ x k e. lower x (omega (arith, k, c)) (e ∙ d)))
      lower

by_format :
    (n d : ℕ)
    → ((w : Vars) → w.sequence_depth ≡ d → ChildrenHalt w)
    → (v : Vars) → v.cur_fmt ≤ n
    → v.sequence_depth ≡ d
    → Ending v
by_format zero d children v h e =
    by_text (length v.f_str) v (omega arith) (λ w k. children w (k ∙ e))
      (λ w k t. absurd (omega arith))
by_format (suc n) d children v h e =
    by_text (length v.f_str) v (omega arith) (λ w k. children w (k ∙ e))
      (λ w k t. by_format n d children w (omega arith) (t ∙ e))

-- A parse begun afresh has no frames to return to.
begun : (v : Vars) (fmt : List ℕ) (rank : ℕ) → Ending (begin v fmt rank) → Halts (begin v fmt rank)
begun v fmt rank h = h λ w a. elim (Bool-cases (stops w)) [
  | inl stop ↦ Halts-stopped w stop
  | inr go ↦
      Halts-done 0 w (at_frames (parser 0) w [] go a.text a.frames ∙ unfold at_end of_end in refl)
]

by_budget :
    (budget d : ℕ)
    → call_depth ≤ budget + d
    → (v : Vars) (fmt : List ℕ) (rank : ℕ) → v.sequence_depth ≡ d
    → Halts (begin v fmt rank)
by_budget zero d h v fmt rank e =
    begun v fmt rank
      (by_format rank d (λ w k s. absurd (omega arith)) (begin v fmt rank) (omega arith) e)
by_budget (suc budget) d h v fmt rank e = begun v fmt rank (
    by_format rank d (λ w k s c f r t. by_budget budget (d + 1) (omega arith) c f r (omega arith))
      (begin v fmt rank) (omega arith) e)

-- The parse of every format, from every state, ends: with enough fuel it gives a state, and more
-- fuel gives the same one.
pub parse-total :
    (v : Vars) (fmt : List ℕ)
    → (fuel : ℕ) × (r : Vars) × ((more : ℕ) → fuel ≤ more → parse more v fmt ≡ some r)
unfolding parse parse_rank
parse-total v fmt =
    let (fuel, r, e) = by_budget call_depth v.sequence_depth (omega arith) v fmt v.nfmts refl in
    (fuel, r, λ more h. loop-more fuel more h (begin v fmt v.nfmts) r e)
