-- ===== src/Prelude/Includes.antt =====
-- Where `includes` finds a text: in each part of a concatenation.

use Prim.Native.String.{String, ◌++◌}
use mathlib.Core.Path.{◌≡◌, refl, sym, ap, ◌∙◌}
use mathlib.Core.Logic.{inl, inr}
use mathlib.Core.Bool.{Bool, true, false, ◌||◌}
use text.Mathlib.Text.{starts_with}
use text.Mathlib.TextEquality.{starts_with_iff}
use text.Mathlib.TextLemmas.{nil-append, cons-append, append_assoc}
use whiparc.Prelude.Tests.{Bool-cases}
use whiparc.Prelude.Text.{includes}

or-true : (b : Bool) → (b || true) ≡ true
or-true true = refl
or-true false = refl

starts_with-includes : (s t : String) → starts_with s t ≡ true → includes s t ≡ true
unfolding includes
starts_with-includes String.[] t h = h
starts_with-includes (String.◌∷◌ c s) t h = rw h refl

starts_with-append_left : (s r t : String) → starts_with s t ≡ true → starts_with (s ++ r) t ≡ true
starts_with-append_left s r t h =
    let found = (starts_with_iff s t).0 h in
    (starts_with_iff (s ++ r) t).1
      (found.0 ++ r, sym (append_assoc t found.0 r) ∙ ap (λ x. x ++ r) found.1)

pub includes-append_left : (s r t : String) → includes s t ≡ true → includes (s ++ r) t ≡ true
unfolding includes
includes-append_left String.[] r t h =
    starts_with-includes (String.[] ++ r) t (starts_with-append_left String.[] r t h)
includes-append_left (String.◌∷◌ c s) r t h = elim (Bool-cases (starts_with (String.◌∷◌ c s) t)) [
  | inl here ↦
      starts_with-includes (String.◌∷◌ c s ++ r) t
        (starts_with-append_left (String.◌∷◌ c s) r t here)
  | inr later ↦ rw cons-append (rw (includes-append_left s r t (rw later at h)) (or-true _))
]

pub includes-append_right : (s r t : String) → includes r t ≡ true → includes (s ++ r) t ≡ true
unfolding includes
includes-append_right String.[] r t h = rw nil-append h
includes-append_right (String.◌∷◌ c s) r t h =
    rw cons-append (rw (includes-append_right s r t h) (or-true _))
