-- ===== src/Playbook/Vars/Replace.antt =====
-- Where `replace` finds the first occurrence of a pattern.
use mathlib.Core.Path.{subst}
use Prim.Native.Char.{Char, code}
use Prim.Native.String.{count as chars, ◌++◌}
use text.Mathlib.TextLemmas.{
  cons-append, nil-append, length-cons, length-nil, length-append, append_assoc,
}
use whiparc.Prelude.{◌≤◌, ◌<◌, String, Bool, true, false, ◌&&◌, not, ◌≡◌, refl, ap, ◌∙◌, arith, eqb}
use whiparc.Playbook.Vars.{begins, drop, replace_first}

-- What begins a text with more behind it begins the text, if that is long enough.
pub begins-append : (s r t : String) → chars t ≤ chars s → begins (s ++ r) t ≡ begins s t
unfolding begins
begins-append s r String.[] h = refl
begins-append String.[] r (String.◌∷◌ d t) h =
    absurd (omega (arith, h, length-cons d t, length-nil))
begins-append (String.◌∷◌ c s) r (String.◌∷◌ d t) h = rw cons-append (
    ap (λ b. eqb (code c) (code d) && b)
      (begins-append s r t (omega (arith, h, length-cons c s, length-cons d t))))

pub begins_self : (t r : String) → begins (t ++ r) t ≡ true
unfolding begins
begins_self String.[] r = refl
begins_self (String.◌∷◌ c t) r = rw cons-append (ground (arith, begins_self t r))

drop-append : (s r : String) → drop (chars s) (s ++ r) ≡ r
unfolding drop
drop-append String.[] r = nil-append r
drop-append (String.◌∷◌ c s) r = rw (length-cons, cons-append) (drop-append s r)

-- The pattern begins nowhere in `s`, also with the pattern itself behind it.
unfoldable pub is_clear : String → String → Bool
is_clear pattern String.[] = true
is_clear pattern (String.◌∷◌ c s) =
    not (begins (String.◌∷◌ c s ++ pattern) pattern) && is_clear pattern s

begins-clear :
    (pattern r : String) (c : Char) (s : String)
    → begins (String.◌∷◌ c s ++ pattern) pattern ≡ false
    → begins (String.◌∷◌ c (s ++ (pattern ++ r))) pattern ≡ false
begins-clear pattern r c s h =
    subst (λ t. begins t pattern ≡ false)
      (append_assoc (String.◌∷◌ c s) pattern r ∙ cons-append c s (pattern ++ r))
      (begins-append (String.◌∷◌ c s ++ pattern) r pattern
          (omega (arith, length-append (String.◌∷◌ c s) pattern))
        ∙ h)

replace_first-here :
    (pattern replacement r : String)
    → 0 < chars pattern
    → replace_first pattern replacement (pattern ++ r) ≡ replacement ++ r
unfolding replace_first
replace_first-here String.[] replacement r p = absurd (omega (arith, p, length-nil))
replace_first-here (String.◌∷◌ d t) replacement r p =
    let starts : begins (String.◌∷◌ d (t ++ r)) (String.◌∷◌ d t) ≡ true =
      subst (λ u. begins u (String.◌∷◌ d t) ≡ true) (cons-append d t r)
        (begins_self (String.◌∷◌ d t) r) in
    let rest : drop (chars (String.◌∷◌ d t)) (String.◌∷◌ d (t ++ r)) ≡ r =
      subst (λ u. drop (chars (String.◌∷◌ d t)) u ≡ r) (cons-append d t r)
        (drop-append (String.◌∷◌ d t) r) in
    rw cons-append (ground (arith, starts, ap (λ u. replacement ++ u) rest))

-- The first occurrence behind such a text is replaced, and nothing else changes.
pub replace_first-append :
    (pattern replacement s r : String)
    → is_clear pattern s ≡ true
    → 0 < chars pattern
    → replace_first pattern replacement (s ++ (pattern ++ r)) ≡ s ++ (replacement ++ r)
unfolding replace_first is_clear
replace_first-append pattern replacement String.[] r clear p =
    rw (nil-append (pattern ++ r), nil-append (replacement ++ r))
      (replace_first-here pattern replacement r p)
replace_first-append pattern replacement (String.◌∷◌ c s) r clear p =
    rw (cons-append c s (pattern ++ r), cons-append c s (replacement ++ r))
      (ground (
        arith,
        begins-clear pattern r c s,
        ap (λ u. String.◌∷◌ c u) (replace_first-append pattern replacement s r (ground arith) p),
      ))
