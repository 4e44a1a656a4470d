-- ===== src/Terraform/Custom.antt =====
-- Parameters in the code of a custom Terraform node.
use Prim.Native.Char.{Char}
use Prim.Native.String.{◌++◌, count as chars}
use mathlib.Core.Path.{subst}
use text.Mathlib.TextLemmas.{cons-append, nil-append, length-cons, length-nil}
use whiparc.Prelude.{zero, ◌-◌, String, ◌≡◌, refl, sym, ap, ◌∙◌, true, arith}
use whiparc.Playbook.Vars.{begins}
use whiparc.Playbook.Vars.Replace.{begins_self}
use whiparc.Terraform.Resources.{replace_all}

-- Skipping as many characters as a text has leads to what follows it.
replace_all_skip :
    (pattern value s r : String)
    → replace_all pattern value (chars s) (s ++ r) ≡ replace_all pattern value zero r
unfolding replace_all
replace_all_skip pattern value String.[] r = rw (length-nil, nil-append) refl
replace_all_skip pattern value (String.◌∷◌ c s) r =
    rw (length-cons, cons-append) (replace_all_skip pattern value s r)

replace_all-append :
    (c : Char) (p value r : String)
    → replace_all (String.◌∷◌ c p) value zero (String.◌∷◌ c p ++ r)
      ≡ value ++ replace_all (String.◌∷◌ c p) value zero r
unfolding replace_all
replace_all-append c p value r =
    let here : begins (String.◌∷◌ c (p ++ r)) (String.◌∷◌ c p) ≡ true =
      ap (λ t. begins t (String.◌∷◌ c p)) (sym (cons-append c p r))
      ∙ begins_self (String.◌∷◌ c p) r in
    let size : chars (String.◌∷◌ c p) - 1 ≡ chars p = omega (arith, length-cons c p) in
    rw cons-append (
      rw (here, replace_all)
        (ap (λ t. value ++ t)
          (ap (λ k. replace_all (String.◌∷◌ c p) value k (p ++ r)) size
            ∙ replace_all_skip (String.◌∷◌ c p) value p r)))

-- Wherever the code goes on after `var.` and a key, the parameter's value is put there, also where
-- the key is only the beginning of a longer name.
replace_all_here :
    (key value r : String)
    → replace_all ("var." ++ key) value zero (("var." ++ key) ++ r)
      ≡ value ++ replace_all ("var." ++ key) value zero r
unfolding replace_all
replace_all_here key value r =
    let whole : "var." ++ key ≡ String.◌∷◌ "v" ("ar." ++ key) = cons-append "v" "ar." key in
    subst
      (λ pattern.
        replace_all pattern value zero (pattern ++ r) ≡ value ++ replace_all pattern value zero r)
      (sym whole) (replace_all-append "v" ("ar." ++ key) value r)
