-- ===== src/Prelude/Ids.antt =====
-- Membership in a list of ids, as Python's `in` tests it: a Boolean, with its laws.
use Prim.Native.Nat.{ℕ, suc, ◌≤◌}
use Prim.Native.String.{String}
use mathlib.Core.Path.{◌≡◌, refl, ◌∙◌}
use mathlib.Core.Bool.{Bool, true, false, ◌||◌}
use mathlib.Core.List.{List, [], ◌∷◌, ◌++◌, reverse, reverse-cons}
use native.Mathlib.Omega.{arith}
use text.Mathlib.Text.{◌==◌}
use text.Mathlib.TextEquality.{eq_iff}
use text.Mathlib.TextPositions.{eq_refl}
use tau_prime.Prelude.Tests.{if◌then◌else◌}

-- `x in ids`
abbrev pub contains : List String → String → Bool
contains [] x = false
contains (y ∷ ys) x = (y == x) || contains ys x

pub contains-append :
    (xs ys : List String) (x : String) → contains (xs ++ ys) x ≡ (contains xs x || contains ys x)
contains-append [] ys x = refl
contains-append (y ∷ xs) ys x = ground (arith, contains-append xs ys x)

-- No id stands twice.
abbrev pub Distinct : List String → Type 0
Distinct [] = Unit
Distinct (x ∷ xs) = (contains xs x ≡ false) × Distinct xs

abbrev pub occurrences : String → List String → ℕ
occurrences x [] = 0
occurrences x (y ∷ ys) = if y == x then suc (occurrences x ys) else occurrences x ys

pub occurrences-contains :
    (xs : List String) (x : String) → contains xs x ≡ true → 1 ≤ occurrences x xs
occurrences-contains [] x h = cc
occurrences-contains (y ∷ ys) x h = ground (arith, occurrences-contains ys x)

pub occurrences-absent :
    (xs : List String) (x : String) → contains xs x ≡ false → occurrences x xs ≡ 0
occurrences-absent [] x h = refl
occurrences-absent (y ∷ ys) x h = ground (arith, occurrences-absent ys x)

pub occurrences-Distinct : (xs : List String) (x : String) → Distinct xs → occurrences x xs ≤ 1
occurrences-Distinct [] x d = omega arith
occurrences-Distinct (y ∷ ys) x d =
    ground (arith, occurrences-Distinct ys x d.1, occurrences-absent ys y d.0, eq_iff y x)

pub Distinct-snoc :
    (xs : List String) (x : String) → Distinct xs → contains xs x ≡ false → Distinct (xs ++ x ∷ [])
Distinct-snoc [] x d new = (refl, tt)
Distinct-snoc (y ∷ xs) x d new = (
  ground (arith, contains-append xs (x ∷ []) y, eq_iff x y, eq_iff y x),
  Distinct-snoc xs x d.1 (ground arith),
)

pub contains-reverse : (xs : List String) (x : String) → contains (reverse xs) x ≡ contains xs x
contains-reverse [] x = refl
contains-reverse (y ∷ xs) x =
    rw (reverse-cons y xs)
      (ground (arith, contains-append (reverse xs) (y ∷ []) x, contains-reverse xs x))

pub Distinct-reverse : (xs : List String) → Distinct xs → Distinct (reverse xs)
Distinct-reverse [] d = tt
Distinct-reverse (x ∷ xs) d =
    rw (reverse-cons x xs)
      (Distinct-snoc (reverse xs) x (Distinct-reverse xs d.1) (contains-reverse xs x ∙ d.0))

pub Distinct-append :
    (xs ys : List String)
    → Distinct xs
    → Distinct ys
    → ((x : String) → contains xs x ≡ true → contains ys x ≡ false)
    → Distinct (xs ++ ys)
Distinct-append [] ys d e apart = e
Distinct-append (x ∷ xs) ys d e apart = (
  ground (arith, contains-append xs ys x, apart x, eq_refl x),
  Distinct-append xs ys d.1 e (λ y h. apart y (ground arith)),
)
