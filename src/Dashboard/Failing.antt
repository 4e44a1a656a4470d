-- ===== src/Dashboard/Failing.antt =====
-- The projects that need a look: the newest run of each, where that has failed.
use whiparc.Prelude.{
  String, ◌≡◌, refl, sym, ap, ◌∙◌, inl, inr, Bool, true, false, Option, none, some, List, [], ◌∷◌,
  ◌++◌, arith, eq_iff, keep, any, find_first, if◌then◌else◌, Bool-cases,
}
use whiparc.Dashboard.Runs.{RunRow, is_of, latest, is_failed, failing_projects}

-- `find` in a list with another after it
abbrev pub or_else : Option RunRow → Option RunRow → Option RunRow
or_else none o = o
or_else (some r) o = some r

-- A run, if it has failed
abbrev pub failed_only : Option RunRow → Option RunRow
failed_only none = none
failed_only (some r) = if is_failed r then some r else none

find_first-append :
    (p : RunRow → Bool) (xs ys : List RunRow)
    → find_first p (xs ++ ys) ≡ or_else (find_first p xs) (find_first p ys)
unfolding find_first
find_first-append p [] ys = refl
find_first-append p (x ∷ xs) ys = ground (arith, find_first-append p xs ys)

find_first-any :
    (p : RunRow → Bool) (o : Option RunRow) (xs : List RunRow)
    → any p xs ≡ true
    → or_else (find_first p xs) o ≡ find_first p xs
unfolding find_first any
find_first-any p o [] h = ground arith
find_first-any p o (x ∷ xs) h = elim (Bool-cases (p x)) [
  | inl g ↦ rw g refl
  | inr g ↦ rw g (find_first-any p o xs (ground arith))
]

find_first-keep_absent :
    (p q : RunRow → Bool) (xs : List RunRow) → any p xs ≡ false → find_first p (keep q xs) ≡ none
unfolding find_first any keep
find_first-keep_absent p q [] h = refl
find_first-keep_absent p q (x ∷ xs) h = ground (arith, find_first-keep_absent p q xs)

-- No two runs are of one project.
unfoldable pub OnePerProject : List RunRow → Type 0
OnePerProject [] = Unit
OnePerProject (r ∷ rs) = (any (is_of r.project_id) rs ≡ false) × OnePerProject rs

any-snoc :
    (p : RunRow → Bool) (xs : List RunRow) (r : RunRow)
    → any p xs ≡ false
    → p r ≡ false
    → any p (xs ++ r ∷ []) ≡ false
unfolding any
any-snoc p [] r h g = ground arith
any-snoc p (x ∷ xs) r h g = ground (arith, any-snoc p xs r)

is_of_swap : (r s : RunRow) → is_of r.project_id s ≡ false → is_of s.project_id r ≡ false
unfolding is_of
is_of_swap r s h = grind (arith, eq_iff)

snoc-OnePerProject :
    (xs : List RunRow) (r : RunRow)
    → OnePerProject xs
    → any (is_of r.project_id) xs ≡ false
    → OnePerProject (xs ++ r ∷ [])
unfolding OnePerProject any
snoc-OnePerProject [] r h g = (refl, tt)
snoc-OnePerProject (x ∷ xs) r (apart, h) g =
    let here : is_of r.project_id x ≡ false = ground arith in
    let below : any (is_of r.project_id) xs ≡ false = ground arith in
    (
      any-snoc (is_of x.project_id) xs r apart (is_of_swap r x here),
      snoc-OnePerProject xs r h below,
    )

latest-OnePerProject :
    (found rs : List RunRow) → OnePerProject found → OnePerProject (latest found rs)
unfolding latest
latest-OnePerProject found [] h = h
latest-OnePerProject found (r ∷ rs) h = elim (Bool-cases (any (is_of r.project_id) found)) [
  | inl g ↦ rw g (latest-OnePerProject found rs h)
  | inr g ↦ rw g (latest-OnePerProject (found ++ r ∷ []) rs (snoc-OnePerProject found r h g))
]

or_else-none : (o : Option RunRow) → o ≡ or_else o none
or_else-none none = refl
or_else-none (some r) = refl

or_else_assoc :
    (o : Option RunRow) (b : Bool) (r : RunRow) (rest : Option RunRow)
    → or_else (or_else o (if b then some r else none)) rest ≡ or_else o (if b then some r else rest)
or_else_assoc none true r rest = refl
or_else_assoc none false r rest = refl
or_else_assoc (some s) b r rest = refl

same_project : (id : String) (r : RunRow) → is_of id r ≡ true → r.project_id ≡ id
unfolding is_of
same_project id r h = ground (arith, eq_iff r.project_id id)

other_project :
    (id : String) (r : RunRow) (rs : List RunRow)
    → is_of id r ≡ true
    → any (is_of r.project_id) rs ≡ false
    → any (is_of id) rs ≡ false
other_project id r rs own apart = rw (sym (same_project id r own)) apart

not_first :
    (id : String) (r : RunRow) (rs : List RunRow)
    → is_of id r ≡ false
    → find_first (is_of id) (r ∷ rs) ≡ find_first (is_of id) rs
unfolding find_first
not_first id r rs other = rw other refl

-- A run of a project that is found already is not looked at.
skip_known :
    (id : String) (found : List RunRow) (r : RunRow) (rs : List RunRow)
    → any (is_of r.project_id) found ≡ true
    → or_else (find_first (is_of id) found) (find_first (is_of id) rs)
      ≡ or_else (find_first (is_of id) found) (find_first (is_of id) (r ∷ rs))
skip_known id found r rs h = elim (Bool-cases (is_of id r)) [
  | inl own ↦
      let known : any (is_of id) found ≡ true = rw (sym (same_project id r own)) h in
      find_first-any (is_of id) (find_first (is_of id) rs) found known
      ∙ sym (find_first-any (is_of id) (find_first (is_of id) (r ∷ rs)) found known)
  | inr other ↦ ap (or_else (find_first (is_of id) found)) (sym (not_first id r rs other))
]

-- The run that stands for a project is the first of it.
find_first-latest :
    (id : String) (found rs : List RunRow)
    → find_first (is_of id) (latest found rs)
      ≡ or_else (find_first (is_of id) found) (find_first (is_of id) rs)
unfolding latest find_first
find_first-latest id found [] = or_else-none (find_first (is_of id) found)
find_first-latest id found (r ∷ rs) = elim (Bool-cases (any (is_of r.project_id) found)) [
  | inl g ↦ rw g (find_first-latest id found rs ∙ skip_known id found r rs g)
  | inr g ↦ rw g (
      find_first-latest id (found ++ r ∷ []) rs
      ∙ ap (λ o. or_else o (find_first (is_of id) rs)) (find_first-append (is_of id) found (r ∷ []))
      ∙ or_else_assoc (find_first (is_of id) found) (is_of id r) r (find_first (is_of id) rs))
]

find_first-keep :
    (id : String) (xs : List RunRow)
    → OnePerProject xs
    → find_first (is_of id) (keep is_failed xs) ≡ failed_only (find_first (is_of id) xs)
unfolding find_first keep OnePerProject
find_first-keep id [] h = refl
find_first-keep id (x ∷ xs) (apart, h) = elim (Bool-cases (is_of id x)) [
  | inl own ↦
      let gone = find_first-keep_absent (is_of id) is_failed xs (other_project id x xs own apart) in
      elim (Bool-cases (is_failed x)) [
        | inl f ↦ rw f (rw own (rw f refl))
        | inr f ↦ rw f (rw own (rw f gone))
      ]
  | inr other ↦ elim (Bool-cases (is_failed x)) [
    | inl f ↦ rw f (rw other (find_first-keep id xs h))
    | inr f ↦ rw f (rw other (find_first-keep id xs h))
  ]
]

-- A project is found among those that need a look exactly where its first run has failed, and then
-- by this run.
pub failing_projects-find :
    (id : String) (runs : List RunRow)
    → find_first (is_of id) (failing_projects runs) ≡ failed_only (find_first (is_of id) runs)
unfolding failing_projects OnePerProject find_first
failing_projects-find id runs =
    find_first-keep id (latest [] runs) (latest-OnePerProject [] runs tt)
    ∙ ap failed_only (find_first-latest id [] runs)
