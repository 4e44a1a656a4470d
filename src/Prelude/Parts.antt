-- ===== src/Prelude/Parts.antt =====
-- The pieces of a template literal in the whole.
use Prim.Native.String.{String, ◌++◌ as ◌+++◌}
use mathlib.Core.List.{Memᴰ, List, [], ◌∷◌, map}
use mathlib.Core.List.Memᴰ
use mathlib.Core.Path.{◌≡◌, sym, ap, ◌∙◌}
use mathlib.Core.Logic.{inl, inr}
use text.Mathlib.TextLemmas
use whiparc.Prelude.Text.{cat}

-- A text of a list stands in the concatenation.
pub cat-mem {ℓ} :
    {A : Type ℓ} {x : A} (f : A → String) (xs : List A)
    → Memᴰ x xs
    → (a : String) × (b : String) × (cat (map f xs) ≡ a +++ (f x +++ b))
unfolding cat
cat-mem f [] m = absurd (Memᴰ.not-nil m)
cat-mem {x = x} f (y ∷ ys) m = elim (Memᴰ.cases_cons m) [
  | inl e ↦ (
    "",
    cat (map f ys),
    ap (λ z. f z +++ cat (map f ys)) (sym e) ∙ sym (TextLemmas.nil-append (f x +++ cat (map f ys))),
  )
  | inr later ↦
      let (a, b, whole) = cat-mem f ys later in
      (f y +++ a, b, ap (λ t. f y +++ t) whole ∙ sym (TextLemmas.append_assoc (f y) a (f x +++ b)))
]
