-- ===== src/Playbook/Vars/Placeholders.antt =====
-- The placeholders that `foundVariables` collects, described without the matcher: `{{ name }}`, with
-- blanks around the name or none.
use mathlib.Core.Path.{subst}
use Prim.Native.Char.{Char, code}
use Prim.Native.String.{count as chars, ◌++◌}
use text.Mathlib.TextEquality.{Char-path}
use text.Mathlib.TextLemmas.{cons-append, nil-append, length-cons}
use whiparc.Prelude.{
  ℕ, zero, suc, ◌+◌, String, ◌≡◌, sym, ap, ◌∙◌, inl, inr, Bool, true, not, ◌&&◌, some, arith, ◌==◌,
  eq_iff, contains, Bool-cases, Option-cases,
}
use whiparc.Prelude.Text.{is_space}
use whiparc.Playbook.Vars.{is_word, span, begins, drop, match_name, match_variable, matches}
use whiparc.Playbook.Vars.Laws.{AllChars, IsName, span-AllChars}

-- A name with blanks around it and the closing braces, and what follows
abbrev pub inside : (l v r b : String) → String
inside l v r b = l ++ (v ++ (r ++ ("}}" ++ b)))

-- Somewhere in the text stands the placeholder of a name.
abbrev pub IsPlaceholder : String → String → Type 0
IsPlaceholder v s =
    (a : String) × (l : String) × (r : String) × (b : String) × (s ≡ a ++ ("{{" ++ inside l v r b))
    × AllChars is_space l
    × AllChars is_space r
    × IsName v

pub span-whole : (p : ℕ → Bool) (s : String) → (span p s).0 ++ (span p s).1 ≡ s
unfolding span
span-whole p String.[] = nil-append ""
span-whole p (String.◌∷◌ c s) = elim (Bool-cases (p (code c))) [
  | inl is_in ↦
      rw is_in (cons-append c (span p s).0 (span p s).1 ∙ ap (λ t. String.◌∷◌ c t) (span-whole p s))
  | inr out ↦ rw out (nil-append (String.◌∷◌ c s))
]

begins-whole : (s t : String) → begins s t ≡ true → t ++ drop (chars t) s ≡ s
unfolding begins drop
begins-whole s String.[] h = nil-append s
begins-whole String.[] (String.◌∷◌ d t) h = absurd (ground arith)
begins-whole (String.◌∷◌ c s) (String.◌∷◌ d t) h =
    let same : c ≡ d = Char-path c d (ground arith) in
    let rest : begins s t ≡ true = ground arith in
    rw (length-cons, cons-append) (rw same (ap (λ u. String.◌∷◌ d u) (begins-whole s t rest)))

match_name-inside :
    (s v : String) (n : ℕ)
    → match_name s ≡ some (v, n)
    → (l : String) × (r : String) × (b : String) × (inside l v r b ≡ s)
      × AllChars is_space l
      × AllChars is_space r
      × IsName v
unfolding match_name
match_name-inside s v n h =
    let (l, rest) = span is_space s in
    let (word, more) = span is_word rest in
    let (r, close) = span is_space more in
    elim (Bool-cases (not (word == "") && begins close "}}")) [
      | inl found ↦
          let same : word ≡ v = ground arith in
          let ends : "}}" ++ drop 2 close ≡ close = begins-whole close "}}" (ground arith) in
          (
            l,
            r,
            drop 2 close,
            ap (λ u. l ++ (v ++ (r ++ u))) ends
                ∙ ap (λ u. l ++ (v ++ u)) (span-whole is_space more)
                ∙ ap (λ u. l ++ (u ++ more)) (sym same)
                ∙ ap (λ u. l ++ u) (span-whole is_word rest)
                ∙ span-whole is_space s,
            span-AllChars is_space s,
            span-AllChars is_space more,
            subst IsName same (ground arith, span-AllChars is_word rest),
          )
      | inr missed ↦ ground arith
    ]

match_variable-inside :
    (s v : String) (n : ℕ)
    → match_variable s ≡ some (v, n)
    → (l : String) × (r : String) × (b : String) × ("{{" ++ inside l v r b ≡ s)
      × AllChars is_space l
      × AllChars is_space r
      × IsName v
unfolding match_variable
match_variable-inside s v n h = elim (Bool-cases (begins s "{{")) [
  | inl braces ↦
      let (l, r, b, whole, left, right, name) = match_name-inside (drop 2 s) v n (rw braces at h) in
      (l, r, b, ap (λ u. "{{" ++ u) whole ∙ begins-whole s "{{" braces, left, right, name)
  | inr other ↦ cc (rw other at h)
]

later : (v : String) (c : Char) (s : String) → IsPlaceholder v s → IsPlaceholder v (String.◌∷◌ c s)
later v c s (a, l, r, b, whole, left, right, name) = (
  String.◌∷◌ c a,
  l,
  r,
  b,
  ap (λ u. String.◌∷◌ c u) whole ∙ sym (cons-append c a ("{{" ++ inside l v r b)),
  left,
  right,
  name,
)

first_here :
    (v w : String) (n : ℕ) (s : String) → match_variable s ≡ some (w, n) → v ≡ w → IsPlaceholder v s
first_here v w n s h same =
    let (l, r, b, whole, left, right, name) = match_variable-inside s w n h in
    subst (λ u. IsPlaceholder u s) (sym same)
      ("", l, r, b, sym (nil-append ("{{" ++ inside l w r b) ∙ whole), left, right, name)

pub matches-IsPlaceholder :
    (v : String) (skip : ℕ) (s : String) → contains (matches skip s) v ≡ true → IsPlaceholder v s
unfolding matches
matches-IsPlaceholder v skip String.[] = λ h. absurd (ground (arith, h))
matches-IsPlaceholder v (suc skip) (String.◌∷◌ c s) =
    λ h. later v c s (matches-IsPlaceholder v skip s h)
matches-IsPlaceholder v zero (String.◌∷◌ c s) =
    elim (Option-cases (match_variable (String.◌∷◌ c s))) [
      | inl e ↦ rw (e, matches) (λ h. later v c s (matches-IsPlaceholder v zero s h))
      | inr ((w, size), e) ↦
          rw (e, matches)
            (λ h. elim (Bool-cases (v == w)) [
              | inl same ↦ first_here v w size (String.◌∷◌ c s) e ((eq_iff v w).0 same)
              | inr other ↦
                  later v c s (matches-IsPlaceholder v (size + 1) s (ground (arith, h, other)))
            ])
    ]
