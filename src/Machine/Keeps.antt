-- ===== src/Machine/Keeps.antt =====
-- wire_format.c: what every handler leaves alone or within bounds, as one relation between the
-- states before and after, with rules for the pieces that handlers are made of.
pub mod Simple
pub mod Emit
pub mod Text
pub mod Record
pub mod Extension
pub mod Moves
pub mod Fields
use wire_format.Base.{
  ℕ, suc, ◌+◌, ◌≤◌, ◌<◌, ◌≡◌, refl, [], ◌∷◌, ap, length-append, ◌∙◌, arith, Bool, true, false, not,
  ◌||◌, List, length, if◌then◌else◌, set, length-set,
}
use wire_format.Machine.State.{Vars, Slice, fail, touch, stack_depth, RecordList}
use wire_format.Machine.Buffer.{b_emit, is_empty, take_input, b_read, fs_push, take_top, fs_pop}

-- From `u` on: the fields that only the caller sets, the sizes of the arrays, and the bounds.
pub record Shared (u v : Vars) : Type 0 where
  pub fmts : v.fmts ≡ u.fmts
  pub nfmts : v.nfmts ≡ u.nfmts
  pub sequence_depth : v.sequence_depth ≡ u.sequence_depth
  pub abort_mask : v.abort_mask ≡ u.abort_mask
  pub encoding : v.encoding ≡ u.encoding
  pub decoding : v.decoding ≡ u.decoding
  pub out_size : v.out_size ≡ u.out_size
  pub params : v.params ≡ u.params
  pub vars : length v.vars ≡ length u.vars
  pub slices : length v.slices ≡ length u.slices
  pub record_lists : v.record_lists ≡ u.record_lists
  pub consumed : v.in_pos + length v.input ≡ u.in_pos + length u.input
  pub forward : u.in_pos ≤ v.in_pos
  pub written : length u.out ≤ length v.out
  pub out_fits : length u.out ≤ u.out_size → length v.out ≤ v.out_size
  pub stack_fits : length u.fstack ≤ stack_depth → length v.fstack ≤ stack_depth
  pub write_bits : u.write_bits < 8 → v.write_bits < 8
  pub read_bits : u.read_bits ≤ 8 → v.read_bits ≤ 8
  pub stray : u.stray ≡ false → v.stray ≡ false

-- A handler also stays in its format, and reads the format's text forwards.
pub record Keeps (u v : Vars) : Type 0 where
  pub shared : Shared u v
  pub frames : v.frames ≡ u.frames
  pub cur_fmt : v.cur_fmt ≡ u.cur_fmt
  pub text : length v.f_str ≤ length u.f_str

pub Shared-refl : (u : Vars) → Shared u u
Shared-refl u = record {
  fmts = refl;
  nfmts = refl;
  sequence_depth = refl;
  abort_mask = refl;
  encoding = refl;
  decoding = refl;
  out_size = refl;
  params = refl;
  vars = refl;
  slices = refl;
  record_lists = refl;
  consumed = refl;
  forward = omega arith;
  written = omega arith;
  out_fits = λ h. h;
  stack_fits = λ h. h;
  write_bits = λ h. h;
  read_bits = λ h. h;
  stray = λ h. h;
}

pub Shared-trans : {u v w : Vars} → Shared u v → Shared v w → Shared u w
Shared-trans p q = record {
  fmts = q.fmts ∙ p.fmts;
  nfmts = q.nfmts ∙ p.nfmts;
  sequence_depth = q.sequence_depth ∙ p.sequence_depth;
  abort_mask = q.abort_mask ∙ p.abort_mask;
  encoding = q.encoding ∙ p.encoding;
  decoding = q.decoding ∙ p.decoding;
  out_size = q.out_size ∙ p.out_size;
  params = q.params ∙ p.params;
  vars = q.vars ∙ p.vars;
  slices = q.slices ∙ p.slices;
  record_lists = q.record_lists ∙ p.record_lists;
  consumed = q.consumed ∙ p.consumed;
  forward = omega (arith, p.forward, q.forward);
  written = omega (arith, p.written, q.written);
  out_fits = λ h. q.out_fits (p.out_fits h);
  stack_fits = λ h. q.stack_fits (p.stack_fits h);
  write_bits = λ h. q.write_bits (p.write_bits h);
  read_bits = λ h. q.read_bits (p.read_bits h);
  stray = λ h. q.stray (p.stray h);
}

pub Keeps-refl : (u : Vars) → Keeps u u
Keeps-refl u = record { shared = Shared-refl u; frames = refl; cur_fmt = refl; text = omega arith }

pub Keeps-trans : {u v w : Vars} → Keeps u v → Keeps v w → Keeps u w
Keeps-trans p q = record {
  shared = Shared-trans p.shared q.shared;
  frames = q.frames ∙ p.frames;
  cur_fmt = q.cur_fmt ∙ p.cur_fmt;
  text = omega (arith, p.text, q.text);
}

-- The primitive steps.
push : (v : Vars) (n : ℕ) → Keeps v (fs_push v n)
unfolding fs_push
push v n = ground arith

emit : (v : Vars) (b : ℕ) → Keeps v (b_emit v b)
unfolding b_emit
emit v b = ground (arith, length-append v.out (b ∷ []))

failed : (v : Vars) → Keeps v (fail v)
failed v = ground arith

-- An access within the array, and one behind a test.
pub touch-Keeps : (size index : ℕ) (v : Vars) → index < size → Keeps v (touch size index v)
unfolding touch
touch-Keeps size index v h = ground (arith, Keeps-refl v)

unless_empty :
    (s : List ℕ) (v : Vars) (p q : ℕ × Vars)
    → Keeps v p.1
    → ((n : ℕ) (t : List ℕ) → s ≡ n ∷ t → Keeps v q.1)
    → Keeps v (if is_empty s then p else q).1
unless_empty [] v p q h k = h
unless_empty (n ∷ t) v p q h k = k n t refl

top : (s t : List ℕ) (n : ℕ) (v : Vars) → v.fstack ≡ s → s ≡ n ∷ t → Keeps v (take_top s v).1
unfolding take_top
top [] t n v e k = cc
top (m ∷ s) t n v e k = ground (arith, ap length e)

pop : (v : Vars) → Keeps v (fs_pop v).1
unfolding fs_pop
pop v = go v.overrun
  where
    go :
        (b : Bool)
        → Keeps v
            (if b then (0, v) else if is_empty v.fstack then (0, fail v) else take_top v.fstack v).1
    go true = Keeps-refl v
    go false =
        unless_empty v.fstack v (0, fail v) (take_top v.fstack v) (failed v)
          (λ n t e. top v.fstack t n v refl e)

take : (s t : List ℕ) (n : ℕ) (v : Vars) → v.input ≡ s → s ≡ n ∷ t → Keeps v (take_input s v).1
unfolding take_input
take [] t n v e k = cc
take (b ∷ bs) t n v e k = ground (arith, ap length e)

read : (v : Vars) → Keeps v (b_read v).1
unfolding b_read
read v = go v.overrun v.decoding
  where
    go :
        (b d : Bool)
        → Keeps v
            (if b
              then (0, v)
              else if not d || is_empty v.input
              then (0, fail v)
              else take_input v.input v).1
    go true d = Keeps-refl v
    go false false = failed v
    go false true =
        unless_empty v.input v (0, fail v) (take_input v.input v) (failed v)
          (λ n t e. take v.input t n v refl e)

at_text : (v : Vars) (s : List ℕ) → length s ≤ length v.f_str → Keeps v (record v { f_str = s })
at_text v s h = ground arith

-- A push with a step of the text behind it.
pub push_at-Keeps :
    (v : Vars) (n : ℕ) (s : List ℕ)
    → length s ≤ length v.f_str
    → Keeps v (record (fs_push v n) { f_str = s })
unfolding fs_push
push_at-Keeps v n s h = ground arith

module _ {u : Vars} where
  pub if-Keeps : (b : Bool) {v w : Vars} → Keeps u v → Keeps u w → Keeps u (if b then v else w)
  if-Keeps true p q = p
  if-Keeps false p q = q

  -- The same, with the test's value at hand in each branch; and for a handler's pair of results.
  pub dif-Keeps :
      (b : Bool) {v w : Vars}
      → (b ≡ true → Keeps u v)
      → (b ≡ false → Keeps u w)
      → Keeps u (if b then v else w)
  dif-Keeps true p q = p refl
  dif-Keeps false p q = q refl

  pub if_pair-Keeps :
      (b : Bool) (p q : ℕ × Vars) → Keeps u p.1 → Keeps u q.1 → Keeps u (if b then p else q).1
  if_pair-Keeps true p q h k = h
  if_pair-Keeps false p q h k = k

  pub fail-Keeps : {v : Vars} → Keeps u v → Keeps u (fail v)
  fail-Keeps p = Keeps-trans p (failed _)

  pub at-Keeps :
      {v : Vars} → Keeps u v → (size index : ℕ) → index < size → Keeps u (touch size index v)
  at-Keeps {v} p size index h = Keeps-trans p (touch-Keeps size index v h)

  pub push-Keeps : {v : Vars} → Keeps u v → (n : ℕ) → Keeps u (fs_push v n)
  push-Keeps {v} p n = Keeps-trans p (push v n)

  pub pop-Keeps : {v : Vars} → Keeps u v → Keeps u (fs_pop v).1
  pop-Keeps {v} p = Keeps-trans p (pop v)

  pub emit-Keeps : {v : Vars} → Keeps u v → (b : ℕ) → Keeps u (b_emit v b)
  emit-Keeps {v} p b = Keeps-trans p (emit v b)

  pub read-Keeps : {v : Vars} → Keeps u v → Keeps u (b_read v).1
  read-Keeps {v} p = Keeps-trans p (read v)

  pub text-Keeps :
      {v : Vars}
      → Keeps u v
      → (s : List ℕ) → length s ≤ length v.f_str
      → Keeps u (record v { f_str = s })
  text-Keeps {v} p s h = Keeps-trans p (at_text v s h)

-- The rules, for `search` over a handler that is made of these pieces.
pub ruleset keeping =
    (Keeps-refl, if-Keeps, if_pair-Keeps, fail-Keeps, push-Keeps, pop-Keeps, emit-Keeps, read-Keeps)
