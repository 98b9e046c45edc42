-- ===== src/Extensions/Ordering/Counts.antt =====
-- The counts of `_topological_order` in tau_extensions/resolution.py: how often an extension is a
-- dependent, and what the loop over the dependents of one extension does to the counts.
use tau_prime.Prelude.{
  ℕ, suc, ◌+◌, ◌≤◌, ◌<◌, String, true, false, ◌&&◌, ◌||◌, List, [], ◌∷◌, ◌++◌, ◌==◌, ◌≡◌, inl, inr,
  refl, ap, sym, ◌∙◌, arith, contains, Distinct, occurrences, occurrences-sort, eq_iff, eq_refl,
  if◌then◌else◌, Bool-cases, ltb, length, contains-append, contains-insert_by, Distinct-insert_by,
}
use tau_prime.Extensions.{same_number}
use tau_prime.Extensions.Ordering.{
  Graph, nodes, dependencies_of, as_dependent, unsorted_dependents, dependents, Sorting, decrease,
  decrease_all,
}

-- Those of the dependencies that are not placed yet.
abbrev pub remaining : List String → List String → ℕ
remaining placed [] = 0
remaining placed (d ∷ ds) =
    if contains placed d then remaining placed ds else suc (remaining placed ds)

pub remaining-none : (ds : List String) → remaining [] ds ≡ length ds
remaining-none [] = refl
remaining-none (d ∷ ds) = ap suc (remaining-none ds)

-- One more that is placed takes its occurrences away.
pub remaining-snoc :
    (placed ds : List String) (x : String)
    → contains placed x ≡ false
    → remaining (placed ++ x ∷ []) ds + occurrences x ds ≡ remaining placed ds
remaining-snoc placed [] x new = refl
remaining-snoc placed (d ∷ ds) x new = ground (
  arith,
  remaining-snoc placed ds x new,
  contains-append placed (x ∷ []) d,
  eq_iff d x,
  eq_iff x d,
)

pub remaining-zero :
    (placed ds : List String)
    → remaining placed ds ≡ 0
    → (d : String) → contains ds d ≡ true
    → contains placed d ≡ true
remaining-zero placed [] h d k = cc
remaining-zero placed (e ∷ ds) h d k = elim (Bool-cases (e == d)) [
  | inl same ↦ ap (contains placed) (sym ((eq_iff e d).0 same)) ∙ ground arith
  | inr other ↦ remaining-zero placed ds (ground arith) d (ground arith)
]

-- Something that is not placed, where something remains.
pub remaining-some :
    (placed ds : List String)
    → 0 < remaining placed ds
    → (d : String) × (contains ds d ≡ true) × (contains placed d ≡ false)
remaining-some placed [] h = absurd (omega arith)
remaining-some placed (d ∷ ds) h = elim (Bool-cases (contains placed d)) [
  | inl e ↦ let (x, k, l) = remaining-some placed ds (ground arith) in (x, ground arith, l)
  | inr e ↦ (d, ground (arith, eq_refl d), e)
]

occurrences-append :
    (z : String) (xs ys : List String)
    → occurrences z (xs ++ ys) ≡ occurrences z xs + occurrences z ys
occurrences-append z [] ys = omega arith
occurrences-append z (x ∷ xs) ys = ground (arith, occurrences-append z xs ys)

occurrences-as_dependent :
    (z id : String) (ds : List String) (x : String)
    → occurrences z (as_dependent id ds x) ≡ (if id == z then occurrences x ds else 0)
occurrences-as_dependent z id [] x = ground arith
occurrences-as_dependent z id (d ∷ ds) x = ground (arith, occurrences-as_dependent z id ds x)

pub absent-dependencies_of :
    (g : Graph) (z : String) → contains (nodes g) z ≡ false → dependencies_of g z ≡ []
absent-dependencies_of [] z h = refl
absent-dependencies_of ((id, ds) ∷ g) z h = ground (arith, absent-dependencies_of g z)

occurrences-unsorted_dependents :
    (g : Graph) (x z : String)
    → Distinct (nodes g)
    → occurrences z (unsorted_dependents g x) ≡ occurrences x (dependencies_of g z)
occurrences-unsorted_dependents [] x z d = refl
occurrences-unsorted_dependents ((id, ds) ∷ g) x z d =
    occurrences-append z (as_dependent id ds x) (unsorted_dependents g x)
    ∙ elim (Bool-cases (id == z)) [
      | inl e ↦
          let gone = ap (λ w. dependencies_of g w) ((eq_iff id z).0 e) in
          ground (
            arith,
            occurrences-as_dependent z id ds x,
            occurrences-unsorted_dependents g x z d.1,
            ap (occurrences x) (sym gone ∙ absent-dependencies_of g id d.0),
          )
      | inr e ↦
          (ground
            (arith, occurrences-as_dependent z id ds x, occurrences-unsorted_dependents g x z d.1))
    ]

-- An extension is as often a dependent as the other is among its dependencies.
pub occurrences-dependents :
    (g : Graph) (x z : String)
    → Distinct (nodes g)
    → occurrences z (dependents g x) ≡ occurrences x (dependencies_of g z)
occurrences-dependents g x z d =
    occurrences-sort z (unsorted_dependents g x) ∙ occurrences-unsorted_dependents g x z d

pub ordered-decrease_all :
    (xs : List String) (s : Sorting) → (decrease_all xs s).ordered ≡ s.ordered
ordered-decrease_all [] s = refl
ordered-decrease_all (x ∷ xs) s = ordered-decrease_all xs (decrease x s)

-- No count falls below 0.
abbrev pub IsEnough : List String → Sorting → Type 0
IsEnough xs s = (z : String) → occurrences z xs ≤ s.indegree z

decrease-IsEnough :
    (x : String) (xs : List String) (s : Sorting) → IsEnough (x ∷ xs) s → IsEnough xs (decrease x s)
decrease-IsEnough x xs s h z = ground (arith, h z)

pub indegree-decrease_all :
    (xs : List String) (s : Sorting) (z : String)
    → IsEnough xs s
    → (decrease_all xs s).indegree z + occurrences z xs ≡ s.indegree z
indegree-decrease_all [] s z h = omega arith
indegree-decrease_all (x ∷ xs) s z h =
    ground (arith, h z, indegree-decrease_all xs (decrease x s) z (decrease-IsEnough x xs s h))

-- An extension gets ready where its last dependency is counted off.
pub ready-decrease_all :
    (xs : List String) (s : Sorting) (z : String)
    → IsEnough xs s
    → contains (decrease_all xs s).ready z ≡ (
        contains s.ready z
        || (ltb 0 (occurrences z xs) && same_number (s.indegree z) (occurrences z xs)))
ready-decrease_all [] s z h = ground arith
ready-decrease_all (x ∷ xs) s z h =
    ready-decrease_all xs (decrease x s) z (decrease-IsEnough x xs s h)
    ∙ elim (Bool-cases (x == z)) [
      | inl e ↦ ground (
        arith,
        h z,
        contains-insert_by x s.ready z,
        (eq_iff x z).0 e,
        ap s.indegree ((eq_iff x z).0 e),
      )
      | inr e ↦ ground (arith, h z, contains-insert_by x s.ready z)
    ]

-- What is ready has nothing left to count, so that nothing gets ready twice.
abbrev pub IsSpent : Sorting → Type 0
IsSpent s = (z : String) → contains s.ready z ≡ true → s.indegree z ≡ 0

decrease-IsSpent : (x : String) (s : Sorting) → IsSpent s → IsSpent (decrease x s)
decrease-IsSpent x s spent z k = elim (Bool-cases (contains s.ready z)) [
  | inl e ↦ ground (arith, spent z e)
  | inr e ↦ elim (Bool-cases (x == z)) [
    | inl same ↦ ground (arith, contains-insert_by x s.ready z, ap s.indegree ((eq_iff x z).0 same))
    | inr other ↦ ground (arith, contains-insert_by x s.ready z)
  ]
]

decrease-Distinct :
    (x : String) (s : Sorting) → IsSpent s → Distinct s.ready → Distinct (decrease x s).ready
decrease-Distinct x s spent d = elim (Bool-cases (same_number (s.indegree x) 1)) [
  | inl e ↦ rw e (
      Distinct-insert_by x s.ready
        (elim (Bool-cases (contains s.ready x)) [
          | inl r ↦ absurd (ground (arith, spent x r))
          | inr r ↦ r
        ])
        d)
  | inr e ↦ rw e d
]

pub Distinct-decrease_all :
    (xs : List String) (s : Sorting)
    → IsEnough xs s
    → IsSpent s
    → Distinct s.ready
    → Distinct (decrease_all xs s).ready
Distinct-decrease_all [] s h spent d = d
Distinct-decrease_all (x ∷ xs) s h spent d =
    Distinct-decrease_all xs (decrease x s) (decrease-IsEnough x xs s h)
      (decrease-IsSpent x s spent) (decrease-Distinct x s spent d)
