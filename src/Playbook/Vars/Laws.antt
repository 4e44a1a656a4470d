-- ===== src/Playbook/Vars/Laws.antt =====
-- The variables that the `vars:` block declares.
use mathlib.Core.Path.{subst}
use whiparc.Prelude.Text.{is_space}
use Prim.Native.Char.{code}
use whiparc.Prelude.{
  ℕ, zero, suc, ◌+◌, String, ◌≡◌, inl, inr, Bool, true, false, not, ◌&&◌, ◌||◌, some, List, [], ◌∷◌,
  arith, ◌==◌, eq_iff, All, count, contains, IsUnique, if◌then◌else◌, Bool-cases, Option-cases,
}
use whiparc.Prelude.Keys.{contains-eq-false}
use whiparc.Playbook.Vars.{
  is_word, span, begins, drop, match_name, match_variable, matches, append_one, add_new,
  found_variables,
}

contains-append_one :
    (xs : List String) (v k : String) → contains (append_one xs v) k ≡ contains xs k || k == v
contains-append_one [] v k = ground arith
contains-append_one (x ∷ xs) v k = ground (arith, contains-append_one xs v k)

count-append_one :
    (xs : List String) (v k : String)
    → count k (append_one xs v) ≡ count k xs + (if k == v then 1 else 0)
count-append_one [] v k = omega arith
count-append_one (x ∷ xs) v k = omega (arith, count-append_one xs v k)

contains-add_new :
    (vs found : List String) (k : String)
    → contains (add_new found vs) k ≡ contains found k || contains vs k
unfolding add_new
contains-add_new [] found k = ground arith
contains-add_new (v ∷ vs) found k = ground (
  arith,
  contains-add_new vs found k,
  contains-add_new vs (append_one found v) k,
  contains-append_one found v k,
  eq_iff k v,
)

add_new-IsUnique : (vs found : List String) → IsUnique found → IsUnique (add_new found vs)
unfolding add_new
add_new-IsUnique [] found h = h
add_new-IsUnique (v ∷ vs) found h = elim (Bool-cases (contains found v)) [
  | inl old ↦ rw old (add_new-IsUnique vs found h)
  | inr new ↦ rw new (
      add_new-IsUnique vs (append_one found v)
        λ k. ground (arith, h k, count-append_one found v k, eq_iff k v, contains-eq-false v found))
]

-- A variable's name: one or more word characters.
abbrev pub AllChars : (ℕ → Bool) → String → Type 0
AllChars p String.[] = Unit
AllChars p (String.◌∷◌ c s) = (p (code c) ≡ true) × AllChars p s

abbrev pub IsName : String → Type 0
IsName s = ((s == "") ≡ false) × AllChars is_word s

pub span-AllChars : (p : ℕ → Bool) (s : String) → AllChars p (span p s).0
unfolding span
span-AllChars p String.[] = tt
span-AllChars p (String.◌∷◌ c s) = elim (Bool-cases (p (code c))) [
  | inl is_in ↦ rw is_in (is_in, span-AllChars p s)
  | inr out ↦ rw out tt
]

match_name-IsName : (s name : String) (size : ℕ) → match_name s ≡ some (name, size) → IsName name
unfolding match_name
match_name-IsName s name size h =
    let (before, rest) = span is_space s in
    let (word, more) = span is_word rest in
    let (after, close) = span is_space more in
    elim (Bool-cases (not (word == "") && begins close "}}")) [
      | inl found ↦
          let same : word ≡ name = ground arith in
          subst IsName same (ground arith, span-AllChars is_word rest)
      | inr missed ↦ ground arith
    ]

match_variable-IsName :
    (s name : String) (size : ℕ) → match_variable s ≡ some (name, size) → IsName name
unfolding match_variable
match_variable-IsName s name size h = elim (Bool-cases (begins s "{{")) [
  | inl braces ↦ match_name-IsName (drop 2 s) name size (rw braces at h)
  | inr other ↦ cc (rw other at h)
]

matches-IsName : (skip : ℕ) (s : String) → All IsName (matches skip s)
unfolding matches
matches-IsName skip String.[] = tt
matches-IsName (suc skip) (String.◌∷◌ c s) = matches-IsName skip s
matches-IsName zero (String.◌∷◌ c s) = elim (Option-cases (match_variable (String.◌∷◌ c s))) [
  | inl e ↦ rw (e, matches) (matches-IsName zero s)
  | inr ((name, size), e) ↦
      rw (e, matches)
        (match_variable-IsName (String.◌∷◌ c s) name size e, matches-IsName (size + 1) s)
]

-- The declared variables are the names that the expression matches, each once, and every one is a
-- word: one or more letters, digits or underscores.
pub found_variables-IsUnique :
    (yaml : String)
    → IsUnique (found_variables yaml)
      × ((v : String) → contains (found_variables yaml) v ≡ contains (matches zero yaml) v)
      × All IsName (matches zero yaml)
unfolding found_variables
found_variables-IsUnique yaml = (
  add_new-IsUnique (matches zero yaml) [] (λ k. omega arith),
  λ v. contains-add_new (matches zero yaml) [] v,
  matches-IsName zero yaml,
)
