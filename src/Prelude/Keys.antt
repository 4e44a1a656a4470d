-- ===== src/Prelude/Keys.antt =====
-- Sets and maps with text keys: `Map` as a function, `Set` as a list.
use Prim.Native.Nat.{ℕ, ◌+◌, ◌≤◌, ◌<◌}
use Prim.Native.String.{String}
use mathlib.Core.Path.{◌≡◌, refl, sym, ap}
use mathlib.Core.Logic.{inl, inr}
use mathlib.Core.Bool.{not, ◌&&◌, Bool, true, false, ◌||◌}
use mathlib.Core.List.{List, [], ◌∷◌, ◌++◌, Perm, perm_middle}
use mathlib.Core.List.Perm
use native.Mathlib.Omega.{arith}
use text.Mathlib.Text.{◌==◌}
use text.Mathlib.TextEquality.{eq_iff}
use whiparc.Prelude.Tests.{if◌then◌else◌, Bool-cases}
use whiparc.Prelude.Lists.{keep, length, length-append}

-- `map.set(k, v)`
abbrev pub update {ℓ} : {V : Type ℓ} → (String → V) → String → V → String → V
update m k v j = if j == k then v else m j

-- How often a key stands in a list.
abbrev pub count : String → List String → ℕ
count k [] = 0
count k (x ∷ xs) = (if k == x then 1 else 0) + count k xs

-- `set.has(k)`
abbrev pub contains : List String → String → Bool
contains [] k = false
contains (x ∷ xs) k = k == x || contains xs k

pub count-append : (k : String) (xs ys : List String) → count k (xs ++ ys) ≡ count k xs + count k ys
count-append k [] ys = omega arith
count-append k (x ∷ xs) ys = omega (arith, count-append k xs ys)

pub contains-eq-false : (k : String) (xs : List String) → contains xs k ≡ false → count k xs ≡ 0
contains-eq-false k [] h = refl
contains-eq-false k (x ∷ xs) h = ground (arith, contains-eq-false k xs)

pub contains-eq-true : (k : String) (xs : List String) → contains xs k ≡ true → 0 < count k xs
contains-eq-true k [] h = ground arith
contains-eq-true k (x ∷ xs) h = ground (arith, contains-eq-true k xs)

-- No key stands twice.
abbrev pub IsUnique : List String → Type 0
IsUnique xs = (k : String) → count k xs ≤ 1

-- The list around the first place where a key stands.
record Split (k : String) (xs : List String) : Type 0 where
  before : List String
  after : List String
  whole : xs ≡ before ++ k ∷ after

first_place : (k : String) (xs : List String) → 0 < count k xs → Split k xs
first_place k [] h = absurd (omega arith)
first_place k (x ∷ xs) h = elim (Bool-cases (k == x)) [
  | inl same ↦ record {
    before = [];
    after = xs;
    whole = ap (λ y. y ∷ xs) (sym ((eq_iff k x).0 same));
  }
  | inr other ↦
      let s = first_place k xs (ground arith) in
      record { before = x ∷ s.before; after = s.after; whole = ap (λ l. x ∷ l) s.whole }
]

eq-nil_of_count : (xs : List String) → ((k : String) → count k xs ≡ 0) → xs ≡ []
eq-nil_of_count [] h = refl
eq-nil_of_count (x ∷ xs) h = absurd (ground (arith, h x, eq_iff x x))

-- Lists in which every key stands as often are permutations of one another.
pub perm_of_count : (xs ys : List String) → ((k : String) → count k xs ≡ count k ys) → Perm xs ys
perm_of_count [] ys h = rw (eq-nil_of_count ys (λ k. sym (h k))) (Perm.refl [])
perm_of_count (x ∷ xs) ys h =
    let s = first_place x ys (ground (arith, h x, eq_iff x x)) in
    rw s.whole (
      Perm.trans
        (Perm.cons x (
          perm_of_count xs (s.before ++ s.after)
            (λ k. omega (arith, h k, ap (count k) s.whole, count-append k))))
        (Perm.symm (perm_middle s.before s.after)))

-- A list whose keys all stand at least as often in another is no longer than that one.
pub length-le_of_count :
    (xs ys : List String) → ((k : String) → count k xs ≤ count k ys) → length xs ≤ length ys
length-le_of_count [] ys h = omega arith
length-le_of_count (x ∷ xs) ys h =
    let s = first_place x ys (ground (arith, h x, eq_iff x x)) in
    let rest =
      length-le_of_count xs (s.before ++ s.after)
        (λ k. omega (arith, h k, ap (count k) s.whole, count-append k)) in
    omega (
      arith,
      rest,
      ap length s.whole,
      length-append s.before s.after,
      length-append s.before (x ∷ s.after),
    )

-- If no key stands more often than in a list that is no longer, each stands as often.
pub count_of_length :
    (xs ys : List String)
    → ((k : String) → count k xs ≤ count k ys)
    → length ys ≤ length xs
    → (k : String) → count k xs ≡ count k ys
count_of_length [] [] h l k = refl
count_of_length [] (y ∷ ys) h l k = absurd (omega arith)
count_of_length (x ∷ xs) ys h l k =
    let s = first_place x ys (ground (arith, h x, eq_iff x x)) in
    let rest =
      count_of_length xs (s.before ++ s.after)
        (λ j. omega (arith, h j, ap (count j) s.whole, count-append j))
        (omega (
          arith,
          ap length s.whole,
          length-append s.before s.after,
          length-append s.before (x ∷ s.after),
        )) in
    omega (arith, rest k, ap (count k) s.whole, count-append k)

pub count-keep :
    (p : String → Bool) (k : String) (xs : List String)
    → count k (keep p xs) ≡ (if p k then count k xs else 0)
unfolding keep
count-keep p k [] = ground arith
count-keep p k (x ∷ xs) = ground (arith, count-keep p k xs, eq_iff k x)

-- A test for lists in which no key stands twice.
abbrev pub distinct : List String → Bool
distinct [] = true
distinct (x ∷ xs) = not (contains xs x) && distinct xs

pub IsUnique-of_distinct : (xs : List String) → distinct xs ≡ true → IsUnique xs
IsUnique-of_distinct [] h k = omega arith
IsUnique-of_distinct (x ∷ xs) h k =
    ground (arith, IsUnique-of_distinct xs (ground arith) k, contains-eq-false k xs, eq_iff k x)
