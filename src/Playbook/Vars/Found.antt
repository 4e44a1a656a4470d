-- ===== src/Playbook/Vars/Found.antt =====
-- Every placeholder of a text is found: no match reaches into the next placeholder.
use Prim.Native.Char.{Char, code}
use Prim.Native.String.{count as chars, ◌++◌}
use text.Mathlib.TextPositions.{eq_refl}
use text.Mathlib.TextLemmas.{cons-append, nil-append, length-cons, length-nil, length-append}
use whiparc.Prelude.{
  ℕ, zero, suc, ◌+◌, ◌≤◌, String, ◌≡◌, refl, sym, ap, ◌∙◌, inl, inr, Bool, true, false, not, ◌&&◌,
  some, arith, ◌==◌, contains, IsUnique, Bool-cases, Option-cases, ◌↔◌,
}
use whiparc.Prelude.Text.{is_space}
use whiparc.Playbook.Vars.{
  is_word, span, begins, drop, match_name, match_variable, matches, found_variables,
}
use whiparc.Playbook.Vars.Replace.{begins_self}
use whiparc.Playbook.Vars.Laws.{AllChars, IsName, found_variables-IsUnique}
use whiparc.Playbook.Vars.Placeholders.{inside, IsPlaceholder, span-whole, matches-IsPlaceholder}

-- A run of characters that pass the test ends there.
abbrev Stops : (ℕ → Bool) → String → Type 0
Stops p String.[] = Unit
Stops p (String.◌∷◌ c s) = p (code c) ≡ false

span-stop : (p : ℕ → Bool) (l t : String) → AllChars p l → Stops p t → span p (l ++ t) ≡ (l, t)
unfolding span
span-stop p String.[] String.[] all stops = refl
span-stop p String.[] (String.◌∷◌ c t) all stops = rw (nil-append, stops) refl
span-stop p (String.◌∷◌ c l) t (is_in, all) stops =
    rw cons-append (rw is_in (rw (span-stop p l t all stops) refl))

space_no_word : (c : ℕ) → is_space c ≡ true → is_word c ≡ false
unfolding is_space is_word
space_no_word c h = ground arith

Stops-name : (v s : String) → IsName v → Stops is_space (v ++ s)
Stops-name String.[] s (empty, all) = absurd (ground (arith, eq_refl ""))
Stops-name (String.◌∷◌ c v) s (empty, (word, all)) =
    rw cons-append (elim (Bool-cases (is_space (code c))) [
      | inr other ↦ other
      | inl space ↦ absurd (ground (arith, space_no_word (code c) space))
    ])

braces-append : (b : String) → "}}" ++ b ≡ String.◌∷◌ "}" (String.◌∷◌ "}" b)
braces-append b =
    cons-append "}" "}" b
    ∙ ap (λ u. String.◌∷◌ "}" u) (cons-append "}" "" b ∙ ap (λ u. String.◌∷◌ "}" u) (nil-append b))

Stops-blank : (r b : String) → AllChars is_space r → Stops is_word (r ++ ("}}" ++ b))
unfolding is_word
Stops-blank String.[] b all = rw (nil-append, braces-append) refl
Stops-blank (String.◌∷◌ c r) b (space, all) = rw cons-append (space_no_word (code c) space)

match_name-here :
    (l v r b : String)
    → AllChars is_space l
    → AllChars is_space r
    → IsName v
    → match_name (inside l v r b) ≡ some (v, chars l + chars v + chars r + 2)
unfolding match_name begins is_space
match_name-here l v r b left right name =
    rw (span-stop is_space l (v ++ (r ++ ("}}" ++ b))) left (Stops-name v _ name)) (
      rw (span-stop is_word v (r ++ ("}}" ++ b)) name.1 (Stops-blank r b right)) (
        rw (span-stop is_space r ("}}" ++ b) right (rw braces-append refl))
          (ground (arith, begins_self "}}" b, name.0))))

-- Two braces before a text
abbrev pub open_braces : String → String
open_braces x = String.◌∷◌ "{" (String.◌∷◌ "{" x)

match_variable-here :
    (l v r b : String)
    → AllChars is_space l
    → AllChars is_space r
    → IsName v
    → match_variable (open_braces (inside l v r b)) ≡ some (v, chars l + chars v + chars r + 2)
unfolding match_variable begins drop
match_variable-here l v r b left right name = match_name-here l v r b left right name

-- A run of characters that are no brace ends before a brace.
span-brace :
    (p : ℕ → Bool) (a q : String)
    → p b'{' ≡ false
    → (span p (a ++ String.◌∷◌ "{" q)).1 ≡ (span p a).1 ++ String.◌∷◌ "{" q
unfolding span
span-brace p String.[] q h = rw nil-append (rw h refl)
span-brace p (String.◌∷◌ c a) q h = rw cons-append (elim (Bool-cases (p (code c))) [
  | inl is_in ↦ rw is_in (span-brace p a q h)
  | inr out ↦ rw out (sym (cons-append c a (String.◌∷◌ "{" q)))
])

span-brace_part :
    (p : ℕ → Bool) (a q : String)
    → p b'{' ≡ false
    → (span p (a ++ String.◌∷◌ "{" q)).0 ≡ (span p a).0
unfolding span
span-brace_part p String.[] q h = rw nil-append (rw h refl)
span-brace_part p (String.◌∷◌ c a) q h = rw cons-append (elim (Bool-cases (p (code c))) [
  | inl is_in ↦ rw is_in (ap (λ u. String.◌∷◌ c u) (span-brace_part p a q h))
  | inr out ↦ rw out refl
])

span-length : (p : ℕ → Bool) (s : String) → chars (span p s).0 + chars (span p s).1 ≡ chars s
span-length p s = sym (length-append (span p s).0 (span p s).1) ∙ ap chars (span-whole p s)

close-length : (z q : String) → begins (z ++ String.◌∷◌ "{" q) "}}" ≡ true → 2 ≤ chars z
unfolding begins
close-length String.[] q h = absurd (ground (arith, rw nil-append at h))
close-length (String.◌∷◌ c String.[]) q h =
    absurd (ground (arith, rw (cons-append, nil-append) at h))
close-length (String.◌∷◌ c (String.◌∷◌ d z)) q h =
    omega (arith, length-cons c (String.◌∷◌ d z), length-cons d z)

-- A match before a brace ends before it.
match_name-within :
    (a q v : String) (n : ℕ)
    → match_name (a ++ String.◌∷◌ "{" q) ≡ some (v, n)
    → (2 ≤ n) × (n ≤ chars a)
unfolding match_name is_space is_word
match_name-within a q v n h =
    let x = String.◌∷◌ "{" q in
    let first = span is_space a in
    let second = span is_word first.1 in
    let third = span is_space second.1 in
    let one : (span is_space (a ++ x)).1 ≡ first.1 ++ x = span-brace is_space a q refl in
    let two : (span is_word (first.1 ++ x)).1 ≡ second.1 ++ x = span-brace is_word first.1 q refl in
    let three : (span is_space (second.1 ++ x)).1 ≡ third.1 ++ x =
      span-brace is_space second.1 q refl in
    let one' : (span is_space (a ++ x)).0 ≡ first.0 = span-brace_part is_space a q refl in
    let two' : (span is_word (first.1 ++ x)).0 ≡ second.0 =
      span-brace_part is_word first.1 q refl in
    let three' : (span is_space (second.1 ++ x)).0 ≡ third.0 =
      span-brace_part is_space second.1 q refl in
    let g = rw (three, three') at (rw (two, two') at (rw (one, one') at h)) in
    elim (Bool-cases (not (second.0 == "") && begins (third.1 ++ x) "}}")) [
      | inl found ↦
          let size : chars first.0 + chars second.0 + chars third.0 + 2 ≡ n = ground (arith, g) in
          let close : 2 ≤ chars third.1 = close-length third.1 q (ground arith) in
          let a1 = span-length is_space a in
          let a2 = span-length is_word first.1 in
          let a3 = span-length is_space second.1 in
          (omega (arith, size), omega (arith, size, close, a1, a2, a3))
      | inr missed ↦ absurd (ground (arith, g))
    ]

inner_match :
    (c : Char) (a x v : String) (n : ℕ)
    → match_name (drop 2 (String.◌∷◌ c (a ++ open_braces x))) ≡ some (v, n)
    → n + 1 ≤ chars a
unfolding drop
inner_match c String.[] x v n h =
    let h' : match_name (drop 2 (String.◌∷◌ c (open_braces x))) ≡ some (v, n) =
      rw nil-append at h in
    let size = match_name-within "" x v n (rw nil-append h') in
    absurd (omega (arith, size.0, size.1, length-nil))
inner_match c (String.◌∷◌ d a) x v n h =
    let h' : match_name (drop 2 (String.◌∷◌ c (String.◌∷◌ d (a ++ open_braces x)))) ≡ some (v, n) =
      rw cons-append at h in
    let size = match_name-within a (String.◌∷◌ "{" x) v n h' in
    omega (arith, size.1, length-cons d a)

-- A match before two braces ends before them.
match_variable-within :
    (c : Char) (a x v : String) (n : ℕ)
    → match_variable (String.◌∷◌ c (a ++ open_braces x)) ≡ some (v, n)
    → n + 1 ≤ chars a
unfolding match_variable
match_variable-within c a x v n h =
    elim (Bool-cases (begins (String.◌∷◌ c (a ++ open_braces x)) "{{")) [
      | inl braces ↦ inner_match c a x v n (rw braces at h)
      | inr other ↦ absurd (cc (rw other at h))
    ]

found_later :
    (l v r b : String) (left : AllChars is_space l) (right : AllChars is_space r) (name : IsName v)
    (a : String) (skip : ℕ)
    → skip ≤ chars a
    → contains (matches skip (a ++ open_braces (inside l v r b))) v ≡ true
unfolding matches
found_later l v r b left right name String.[] (suc skip) h = absurd (omega (arith, h, length-nil))
found_later l v r b left right name String.[] zero h =
    rw nil-append
      (rw (match_variable-here l v r b left right name, matches) (ground (arith, eq_refl v)))
found_later l v r b left right name (String.◌∷◌ c a) (suc skip) h =
    rw cons-append (found_later l v r b left right name a skip (omega (arith, h, length-cons c a)))
found_later l v r b left right name (String.◌∷◌ c a) zero h =
    let x = inside l v r b in
    rw cons-append (elim (Option-cases (match_variable (String.◌∷◌ c (a ++ open_braces x)))) [
      | inl e ↦ rw (e, matches) (found_later l v r b left right name a zero (omega arith))
      | inr ((w, size), e) ↦
          let rest =
            found_later l v r b left right name a (size + 1)
              (match_variable-within c a x w size e) in
          rw (e, matches) (ground (arith, rest))
    ])

open_braces-append : (x : String) → "{{" ++ x ≡ open_braces x
open_braces-append x =
    cons-append "{" "{" x
    ∙ ap (λ u. String.◌∷◌ "{" u) (cons-append "{" "" x ∙ ap (λ u. String.◌∷◌ "{" u) (nil-append x))

IsPlaceholder-matches :
    (v yaml : String) → IsPlaceholder v yaml → contains (matches zero yaml) v ≡ true
IsPlaceholder-matches v yaml (a, l, r, b, whole, left, right, name) =
    rw (whole, open_braces-append) (found_later l v r b left right name a zero (omega arith))

-- No variable is declared twice, and a name is declared exactly if its placeholder stands in the
-- playbook: two braces, blanks or none, the name of letters, digits and underscores, blanks or none,
-- and two braces.
pub found_variables-IsPlaceholder :
    (yaml : String)
    → IsUnique (found_variables yaml)
      × ((v : String) → (contains (found_variables yaml) v ≡ true) ↔ IsPlaceholder v yaml)
found_variables-IsPlaceholder yaml =
    let (unique, same, names) = found_variables-IsUnique yaml in
    (
      unique,
      λ v. (
        λ h. matches-IsPlaceholder v zero yaml (sym (same v) ∙ h),
        λ h. same v ∙ IsPlaceholder-matches v yaml h,
      ),
    )
