-- ===== src/Records/Builds.antt =====
-- compiler/records.c and wire_info.c: pieces of the compiler whose text the loader lets through.
use wire_format.Base.{
  ℕ, ◌≤◌, ◌≡◌, refl, sym, ap, ◌∙◌, Bool, true, false, ◌||◌, List, [], ◌++◌, append_assoc,
  append-nil, ltb, leb, ◌-◌, length, if◌then◌else◌, u64_max,
}
use mathlib.Core.Path.{subst}
use wire_format.Compiler.Types.{Text, Location, Problem, Result, ok, err}
use wire_format.Compiler.Offsets.{bind-ok, refuse-ok}
use wire_format.WireInfo.Branches.{Accepts}
use wire_format.Records.Emit.{
  append, Build, emit, nothing, ◌>=>◌, using, limit, literal, literal_text,
}
use wire_format.Records.Steps.{Step}
use wire_format.Records.Numbers.{literal-Step}

-- Where the piece succeeds, it adds a text behind, through which the scan goes.
pub record Builds (rank : ℕ) (b b' : List ℕ) (f : Build) : Type 0 where
  pub builds : (t r : Text) → f t ≡ ok r → (text : Text) × (r ≡ t ++ text) × Step rank b b' text

pub Step-++ :
    (rank : ℕ) (b b' b'' : List ℕ) (t u : Text)
    → Step rank b b' t
    → Step rank b' b'' u
    → Step rank b b'' (t ++ u)
Step-++ rank b b' b'' t u h k s a =
    subst (λ (x : Text). Accepts rank b x) (sym (append_assoc t u s)) (h (u ++ s) (k s a))

append-ok : (t data' r : Text) → append t data' ≡ ok r → r ≡ t ++ data'
unfolding append
append-ok t data' r h =
    let (e, k) =
      refuse-ok (ltb limit (length data') || ltb (limit - length data') (length t)) _ _ _ _ h in
    cc

emit-ok : (text t r : Text) → emit text t ≡ ok r → r ≡ t ++ text
unfolding emit
emit-ok text t r h =
    let (e, k) = refuse-ok (leb 1024 (length text)) _ _ _ _ h in append-ok t text r k

module _ {rank : ℕ} where
  pub emit-Builds :
      {b b' : List ℕ} (text : Text) → Step rank b b' text → Builds rank b b' (emit text)
  emit-Builds text h = record { builds = λ t r e. (text, emit-ok text t r e, h) }

  pub nothing-Builds : {b : List ℕ} → Builds rank b b nothing
  nothing-Builds = record {
    builds = λ t r e. ([], (let p : t ≡ r = cc in sym p ∙ sym (append-nil t)), λ s a. a);
  }

  pub >=>-Builds :
      {b b' b'' : List ℕ} {f g : Build}
      → Builds rank b b' f
      → Builds rank b' b'' g
      → Builds rank b b'' (f >=> g)
  >=>-Builds {b = b} {b' = b'} {b'' = b''} {f = f} {g = g} h k = record {
    builds = λ t r e.
        (let (u, e₁, e₂) = bind-ok (f t) g r e in
          let (x, p, j) = h.builds t u e₁ in
          let (y, q, l) = k.builds u r e₂ in
          (
            x ++ y,
            q ∙ ap (λ (z : Text). z ++ y) p ∙ append_assoc t x y,
            Step-++ rank b b' b'' x y j l,
          ));
  }

  pub using-Builds {ℓ} :
      {A : Type ℓ} {b b' : List ℕ} {m : Result A} {f : A → Build}
      → ((a : A) → m ≡ ok a → Builds rank b b' (f a))
      → Builds rank b b' (using m f)
  using-Builds {m = m} {f = f} h = record {
    builds = λ t r e. (let (a, e₁, e₂) = bind-ok m (λ a. f a t) r e in (h a e₁).builds t r e₂);
  }

  pub if-Builds :
      {b b' : List ℕ} (test : Bool) {f g : Build}
      → (test ≡ true → Builds rank b b' f)
      → (test ≡ false → Builds rank b b' g)
      → Builds rank b b' (if test then f else g)
  if-Builds true h k = h refl
  if-Builds false h k = k refl

  pub err-Builds : {b b' : List ℕ} (l : Location) (p : Problem) → Builds rank b b' (λ t. err l p)
  err-Builds l p = record { builds = λ t r e. cc }

  pub literal-Builds : {b : List ℕ} (n : ℕ) → n ≤ u64_max → Builds rank b b (literal n)
  unfolding literal
  literal-Builds {b = b} n h = emit-Builds (literal_text n) (literal-Step rank n b h)
