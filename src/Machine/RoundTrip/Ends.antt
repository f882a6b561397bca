-- ===== src/Machine/RoundTrip/Ends.antt =====
-- wire_format.c: the two ends of a round trip, a state with room in its output and a state with
-- bytes in its input, and the primitive steps there.
use wire_format.Base.{
  ℕ, ◌+◌, ◌≤◌, ◌<◌, ◌≡◌, refl, ap, ◌∙◌, arith, Bool, true, false, List, [], ◌∷◌, ◌++◌, length,
  length-append, append_assoc, append-nil, leb, if◌then◌else◌,
}
use wire_format.Machine.State.{Vars, stack_depth}
use wire_format.Machine.Buffer.{b_emit, emit_all, b_read, fs_push, fs_pop}

-- Any state, with no failure so far and this stack and output, or this stack and input.
abbrev pub writer : Vars → List ℕ → List ℕ → Vars
writer v s out = record v { overrun = false; encoding = true; fstack = s; out = out }

abbrev pub reader : Vars → List ℕ → List ℕ → ℕ → Vars
reader v s input n = record v {
  overrun = false;
  decoding = true;
  fstack = s;
  input = input;
  in_pos = n;
}

pub pop-writer :
    (v : Vars) (n : ℕ) (s out : List ℕ) → fs_pop (writer v (n ∷ s) out) ≡ (n, writer v s out)
unfolding fs_pop
pop-writer v n s out = refl

pub read-reader :
    (v : Vars) (s : List ℕ) (b : ℕ) (bs : List ℕ) (n : ℕ)
    → b_read (reader v s (b ∷ bs) n) ≡ (b, reader v s bs (n + 1))
unfolding b_read
read-reader v s b bs n = refl

pub push-reader :
    (v : Vars) (s input : List ℕ) (n x : ℕ)
    → length s < stack_depth
    → fs_push (reader v s input n) x ≡ reader v (x ∷ s) input n
unfolding fs_push
push-reader v s input n x h = go (leb stack_depth (length s)) (ground arith)
  where
    go :
        (b : Bool)
        → b ≡ false
        → (if b then record (reader v s input n) { overrun = true } else reader v (x ∷ s) input n)
          ≡ reader v (x ∷ s) input n
    go true e = cc
    go false e = refl

pub emit-writer :
    (v : Vars) (s out : List ℕ) (b : ℕ)
    → length out < v.out_size
    → b_emit (writer v s out) b ≡ writer v s (out ++ (b ∷ []))
unfolding b_emit
emit-writer v s out b h = go (leb v.out_size (length out)) (ground arith)
  where
    go :
        (t : Bool)
        → t ≡ false
        → (if t then record (writer v s out) { overrun = true } else writer v s (out ++ (b ∷ [])))
          ≡ writer v s (out ++ (b ∷ []))
    go true e = cc
    go false e = refl

pub emit_all-writer :
    (v : Vars) (s bs out : List ℕ)
    → length out + length bs ≤ v.out_size
    → emit_all bs (writer v s out) ≡ writer v s (out ++ bs)
unfolding emit_all
emit_all-writer v s [] out h = rw append-nil
emit_all-writer v s (b ∷ bs) out h = rw (emit-writer v s out b (omega arith)) (
    emit_all-writer v s bs (out ++ (b ∷ [])) (omega (arith, length-append out (b ∷ [])))
    ∙ ap (writer v s) (append_assoc out (b ∷ []) bs))
