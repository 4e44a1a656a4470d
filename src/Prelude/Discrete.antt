-- ===== src/Prelude/Discrete.antt =====
-- Texts have decidable equality, and equality as a test.
use mathlib.Core.Bool.{Bool, true, false}
use mathlib.Core.Path.{◌≡◌, refl, sym, ◌∙◌}
use Prim.Native.String.{String}
use text.Mathlib.Text.{◌==◌}
use text.Mathlib.TextEquality.{eq_iff}
use native.Mathlib.Omega.{arith}

unfoldable decide_text : (s t : String) (b : Bool) → (s == t) ≡ b → Dec (s ≡ t)
decide_text s t true e = yes ((eq_iff s t).0 e)
decide_text s t false e = no (λ p. let clash : false ≡ true = sym e ∙ (eq_iff s t).1 p in cc)

unfoldable pub String-discrete : Discrete String
unfolding decide_text
String-discrete s t = decide_text s t (s == t) refl

-- Does a decision say yes?
abbrev pub is_yes {ℓ} : {A : Type ℓ} → Dec A → Bool
is_yes (yes p) = true
is_yes (no p) = false

pub is_yes-yes {ℓ} : {A : Type ℓ} (d : Dec A) → is_yes d ≡ true → A
is_yes-yes (yes p) h = p
is_yes-yes (no p) h = absurd (ground arith)

pub yes-is_yes {ℓ} : {A : Type ℓ} (d : Dec A) → A → is_yes d ≡ true
yes-is_yes (yes p) a = refl
yes-is_yes (no p) a = absurd (p a)
