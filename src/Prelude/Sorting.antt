-- ===== src/Prelude/Sorting.antt =====
-- Python's `sorted` by a text, as a stable insertion sort, and the difference of two sets of ids.
use Prim.Native.Nat.{◌≤◌, ◌<◌}
use Prim.Native.String.{String, compare}
use mathlib.Core.Path.{◌≡◌, refl}
use mathlib.Core.Logic.{inl, inr}
use mathlib.Core.Bool.{Bool, true, false, not, ◌&&◌, ◌||◌}
use mathlib.Core.List.{List, [], ◌∷◌}
use native.Mathlib.Omega.{arith}
use text.Mathlib.Text.{is_lt, ◌==◌}
use text.Mathlib.TextEquality.{eq_iff}
use tau_prime.Prelude.Tests.{if◌then◌else◌, Bool-cases}
use tau_prime.Prelude.Lists.{All, length}
use tau_prime.Prelude.Ids.{contains, Distinct, occurrences}

-- `a < b`, for texts
abbrev pub is_before : String → String → Bool
is_before a b = is_lt (compare a b)

module _ {ℓ} {A : Type ℓ} (key : A → String) where
  abbrev pub insert_by : A → List A → List A
  insert_by x [] = x ∷ []
  insert_by x (y ∷ ys) = if is_before (key y) (key x) then y ∷ insert_by x ys else x ∷ y ∷ ys

  -- `sorted(xs, key=key)`
  abbrev pub sort_by : List A → List A
  sort_by [] = []
  sort_by (x ∷ xs) = insert_by x (sort_by xs)

  module _ {κ} (P : A → Type κ) where
    All-insert_by : (x : A) (ys : List A) → P x → All P ys → All P (insert_by x ys)
    All-insert_by x [] p q = (p, q)
    All-insert_by x (y ∷ ys) p q = elim (Bool-cases (is_before (key y) (key x))) [
      | inl e ↦ rw e (q.0, All-insert_by x ys p q.1)
      | inr e ↦ rw e (p, q)
    ]

    pub All-sort_by : (xs : List A) → All P xs → All P (sort_by xs)
    All-sort_by [] p = p
    All-sort_by (x ∷ xs) p = All-insert_by x (sort_by xs) p.0 (All-sort_by xs p.1)

    All-uninsert_by : (x : A) (ys : List A) → All P (insert_by x ys) → P x × All P ys
    All-uninsert_by x [] p = p
    All-uninsert_by x (y ∷ ys) p = elim (Bool-cases (is_before (key y) (key x))) [
      | inl e ↦
          let q : (P y × All P (insert_by x ys)) = rw e at p in
          let r = All-uninsert_by x ys q.1 in (r.0, (q.0, r.1))
      | inr e ↦ (rw e at p)
    ]

    pub All-unsort_by : (xs : List A) → All P (sort_by xs) → All P xs
    All-unsort_by [] p = p
    All-unsort_by (x ∷ xs) p =
        let q = All-uninsert_by x (sort_by xs) p in (q.0, All-unsort_by xs q.1)

-- `sorted(ids)`
abbrev pub sort : List String → List String
sort = sort_by (λ x. x)

pub contains-insert_by :
    (x : String) (ys : List String) (z : String)
    → contains (insert_by (λ y. y) x ys) z ≡ ((x == z) || contains ys z)
contains-insert_by x [] z = refl
contains-insert_by x (y ∷ ys) z = ground (arith, contains-insert_by x ys z)

pub contains-sort : (xs : List String) (z : String) → contains (sort xs) z ≡ contains xs z
contains-sort [] z = refl
contains-sort (x ∷ xs) z = ground (arith, contains-insert_by x (sort xs) z, contains-sort xs z)

occurrences-insert_by :
    (z x : String) (ys : List String)
    → occurrences z (insert_by (λ y. y) x ys) ≡ occurrences z (x ∷ ys)
occurrences-insert_by z x [] = refl
occurrences-insert_by z x (y ∷ ys) = ground (arith, occurrences-insert_by z x ys)

pub occurrences-sort : (z : String) (xs : List String) → occurrences z (sort xs) ≡ occurrences z xs
occurrences-sort z [] = refl
occurrences-sort z (x ∷ xs) =
    ground (arith, occurrences-insert_by z x (sort xs), occurrences-sort z xs)

pub Distinct-insert_by :
    (x : String) (ys : List String)
    → contains ys x ≡ false
    → Distinct ys
    → Distinct (insert_by (λ y. y) x ys)
Distinct-insert_by x [] new d = (refl, tt)
Distinct-insert_by x (y ∷ ys) new d = elim (Bool-cases (is_before y x)) [
  | inl e ↦ rw e (
    ground (arith, contains-insert_by x ys y, eq_iff x y, eq_iff y x),
    Distinct-insert_by x ys (ground arith) d.1,
  )
  | inr e ↦ rw e (new, d)
]

-- `xs - ys`, for sets
abbrev pub difference : List String → List String → List String
difference [] ys = []
difference (x ∷ xs) ys = if contains ys x then difference xs ys else x ∷ difference xs ys

pub contains-difference :
    (xs ys : List String) (z : String)
    → contains (difference xs ys) z ≡ (contains xs z && not (contains ys z))
contains-difference [] ys z = refl
contains-difference (x ∷ xs) ys z = ground (arith, contains-difference xs ys z, eq_iff x z)

pub length-difference : (xs ys : List String) → length (difference xs ys) ≤ length xs
length-difference [] ys = omega arith
length-difference (x ∷ xs) ys = ground (arith, length-difference xs ys)

pub length-difference_lt :
    (xs ys : List String) (z : String)
    → contains xs z ≡ true
    → contains ys z ≡ true
    → length (difference xs ys) < length xs
length-difference_lt [] ys z h k = cc
length-difference_lt (x ∷ xs) ys z h k =
    ground (arith, length-difference xs ys, length-difference_lt xs ys z, eq_iff x z)
