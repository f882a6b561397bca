-- ===== src/Machine/Keeps/Emit.antt =====
-- wire_format.c: the handlers that emit or read in a loop keep the bounds.
use wire_format.Base.{ℕ, zero, suc, ◌+◌, List, [], ◌∷◌, arith, not, ◌||◌, is_negative}
use wire_format.Machine.State.{Vars, max_params}
use wire_format.Machine.Buffer.{emit_all, fs_pop}
use wire_format.Machine.Keeps.{
  Keeps, keeping, Keeps-refl, if-Keeps, fail-Keeps, push-Keeps, emit-Keeps, read-Keeps, dif-Keeps,
  pop-Keeps, at-Keeps,
}
use wire_format.Machine.Keeps.Fields.{advance-Keeps}
use wire_format.Machine.Emit.{op_quad, op_sdnv, emit_elements, emit_buffer, op_raw}
use wire_format.Machine.Read.{read_bytes, read_quad, sdnv_loop, read_sdnv}
use wire_format.Machine.Slices.{bad_slot, op_slice, op_exact_slice}

pub emit_all-Keeps : {u : Vars} (bs : List ℕ) {v : Vars} → Keeps u v → Keeps u (emit_all bs v)
unfolding emit_all
emit_all-Keeps [] p = p
emit_all-Keeps (b ∷ bs) p = emit_all-Keeps bs (emit-Keeps p b)

ruleset emitting = (keeping, emit_all-Keeps, advance-Keeps)

pub op_quad-Keeps : (v : Vars) → Keeps v (op_quad v)
unfolding op_quad
op_quad-Keeps v = search emitting depth 12

pub op_sdnv-Keeps : (v : Vars) → Keeps v (op_sdnv v)
unfolding op_sdnv
op_sdnv-Keeps v = search emitting depth 12

elements-Keeps :
    {u : Vars} (n size a : ℕ) {v : Vars} → Keeps u v → Keeps u (emit_elements n size a v)
unfolding emit_elements
elements-Keeps zero size a p = p
elements-Keeps (suc n) size a p = elements-Keeps n size (a + size) (emit_all-Keeps _ p)

buffer-Keeps : {u v : Vars} → Keeps u v → (size : ℕ) → Keeps u (emit_buffer size v)
unfolding emit_buffer
buffer-Keeps p size = search (emitting, elements-Keeps) depth 12

pub op_raw-Keeps : (v : Vars) → Keeps v (op_raw v)
unfolding op_raw
op_raw-Keeps v = search (emitting, buffer-Keeps) depth 12

bytes-Keeps : {u : Vars} (n x : ℕ) {v : Vars} → Keeps u v → Keeps u (read_bytes n x v).1
unfolding read_bytes
bytes-Keeps zero x p = p
bytes-Keeps (suc n) x p = bytes-Keeps n _ (read-Keeps p)

pub read_quad-Keeps : (v : Vars) → Keeps v (read_quad v)
unfolding read_quad
read_quad-Keeps v = search (keeping, bytes-Keeps) depth 12

sdnv-Keeps : {u : Vars} (n x : ℕ) {v : Vars} → Keeps u v → Keeps u (sdnv_loop n x v)
unfolding sdnv_loop
sdnv-Keeps zero x p = fail-Keeps p
sdnv-Keeps (suc n) x p =
    let q = read-Keeps p in
    if-Keeps _ q (if-Keeps _ (fail-Keeps q) (if-Keeps _ (push-Keeps q _) (sdnv-Keeps n _ q)))

pub read_sdnv-Keeps : (v : Vars) → Keeps v (read_sdnv v)
unfolding read_sdnv
read_sdnv-Keeps v = sdnv-Keeps 10 0 (Keeps-refl v)

pub op_slice-Keeps : (v : Vars) → Keeps v (op_slice v)
unfolding op_slice
op_slice-Keeps v =
    let q = pop-Keeps (Keeps-refl v) in
    dif-Keeps (not (fs_pop v).1.encoding || bad_slot (fs_pop v).0) (λ h. fail-Keeps q)
      (λ h.
        let r = at-Keeps q max_params (fs_pop v).0 (ground arith) in
        if-Keeps _ (fail-Keeps r) (emit_all-Keeps _ r))

pub op_exact_slice-Keeps : (v : Vars) → Keeps v (op_exact_slice v)
unfolding op_exact_slice
op_exact_slice-Keeps v =
    let q = pop-Keeps (pop-Keeps (Keeps-refl v)) in
    let w = (fs_pop (fs_pop v).1).1 in
    dif-Keeps (not w.encoding || bad_slot (fs_pop v).0 || is_negative (fs_pop (fs_pop v).1).0)
      (λ h. fail-Keeps q)
      (λ h.
        let r = at-Keeps q max_params (fs_pop v).0 (ground arith) in
        if-Keeps _ (fail-Keeps r) (emit_all-Keeps _ r))
