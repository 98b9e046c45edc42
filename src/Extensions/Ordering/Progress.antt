-- ===== src/Extensions/Ordering/Progress.antt =====
-- The invariant of the loop of `_topological_order` in tau_extensions/resolution.py.
use tau_prime.Prelude.{
  ◌+◌, String, Bool, true, false, not, ◌&&◌, ◌||◌, List, [], ◌∷◌, ◌++◌, ◌==◌, ◌≡◌, inl, inr, ap,
  ap₂, sym, subst, ◌∙◌, arith, contains, Distinct, Distinct-snoc, occurrences, eq_iff, eq_refl,
  Bool-cases, ltb, append-nil, contains-append, Within,
}
use tau_prime.Extensions.{same_number}
use tau_prime.Extensions.Ordering.{Graph, nodes, dependencies_of, dependents, Sorting, place}
use tau_prime.Extensions.Ordering.Counts.{
  remaining, remaining-snoc, remaining-zero, occurrences-dependents, ordered-decrease_all, IsEnough,
  absent-dependencies_of, indegree-decrease_all, ready-decrease_all, Distinct-decrease_all,
}

-- What comes has its dependencies before it.
abbrev pub IsInOrder : Graph → List String → List String → Type 0
IsInOrder g before [] = Unit
IsInOrder g before (x ∷ xs) =
    Within (dependencies_of g x) before × IsInOrder g (before ++ x ∷ []) xs

IsInOrder-snoc :
    (g : Graph) (before xs : List String) (x : String)
    → IsInOrder g before xs
    → Within (dependencies_of g x) (before ++ xs)
    → IsInOrder g before (xs ++ x ∷ [])
IsInOrder-snoc g before [] x o w = (rw (append-nil before) at w, tt)
IsInOrder-snoc g before (y ∷ ys) x o w = (
  o.0,
  IsInOrder-snoc g (before ++ y ∷ []) ys x o.1 (λ z k. ground (
    arith,
    w z k,
    contains-append (before ++ y ∷ []) ys z,
    contains-append before (y ∷ []) z,
    contains-append before (y ∷ ys) z,
  )),
)

module _ (g : Graph) where
  -- What is neither placed nor waited for is ready.
  abbrev is_ready : Sorting → String → Bool
  is_ready s z =
      contains (nodes g) z && (not (contains s.ordered z) && same_number (s.indegree z) 0)

  pub record IsUnderWay (s : Sorting) : Type 0 where
    pub counts : (z : String) → s.indegree z ≡ remaining s.ordered (dependencies_of g z)
    pub readies : (z : String) → contains s.ready z ≡ is_ready s z
    pub once : Distinct s.ready
    pub placed_once : Distinct s.ordered
    pub placed : Within s.ordered (nodes g)
    pub spent : (z : String) → contains s.ordered z ≡ true → s.indegree z ≡ 0
    pub order : IsInOrder g [] s.ordered

  module _ (distinct : Distinct (nodes g)) (s : Sorting) (v : IsUnderWay s) (x : String)
      (rest : List String) (e : s.ready ≡ x ∷ rest) where
    abbrev popped : Sorting
    popped = record s { ready = rest; ordered = s.ordered ++ x ∷ [] }

    -- What is at the head of the heap.
    head_ready : contains s.ready x ≡ true
    head_ready = rw e (ground (arith, eq_refl x))

    is_node : contains (nodes g) x ≡ true
    is_node = ground (arith, head_ready, v.readies x)

    is_new : contains s.ordered x ≡ false
    is_new = ground (arith, head_ready, v.readies x)

    is_spent : s.indegree x ≡ 0
    is_spent = ground (arith, head_ready, v.readies x)

    once_popped : Distinct (x ∷ rest)
    once_popped = subst Distinct e v.once

    rest-ready : (z : String) → contains s.ready z ≡ ((x == z) || contains rest z)
    rest-ready z = ap (λ xs. contains xs z) e

    rest-spent : (z : String) → contains rest z ≡ true → s.indegree z ≡ 0
    rest-spent z h = ground (arith, rest-ready z, v.readies z)

    -- Each count is lowered by the times that the extension is a dependency.
    snoc :
        (z : String)
        → remaining (s.ordered ++ x ∷ []) (dependencies_of g z)
            + occurrences x (dependencies_of g z)
          ≡ s.indegree z
    snoc z = remaining-snoc s.ordered (dependencies_of g z) x is_new ∙ sym (v.counts z)

    enough : IsEnough (dependents g x) popped
    enough z = omega (arith, occurrences-dependents g x z distinct, snoc z)

    ordered-place : (place g x rest s).ordered ≡ s.ordered ++ x ∷ []
    unfolding place
    ordered-place = ordered-decrease_all (dependents g x) popped

    indegree-place :
        (z : String)
        → (place g x rest s).indegree z ≡ remaining (s.ordered ++ x ∷ []) (dependencies_of g z)
    unfolding place
    indegree-place z = omega (
      arith,
      indegree-decrease_all (dependents g x) popped z enough,
      occurrences-dependents g x z distinct,
      snoc z,
    )

    ready-place :
        (z : String)
        → contains (place g x rest s).ready z ≡ (
            contains rest z
            || (ltb 0 (occurrences x (dependencies_of g z))
                && same_number (s.indegree z) (occurrences x (dependencies_of g z))))
    unfolding place
    ready-place z =
        ready-decrease_all (dependents g x) popped z enough
        ∙ ap (λ n. contains rest z || (ltb 0 n && same_number (s.indegree z) n))
            (occurrences-dependents g x z distinct)

    once-place : Distinct (place g x rest s).ready
    unfolding place
    once-place = Distinct-decrease_all (dependents g x) popped enough rest-spent once_popped.1

    now : (z : String) → contains (s.ordered ++ x ∷ []) z ≡ (contains s.ordered z || (x == z))
    now z = ground (arith, contains-append s.ordered (x ∷ []) z)

    readies-place :
        (z : String)
        → contains (place g x rest s).ready z ≡ (
            contains (nodes g) z
            && (not (contains (s.ordered ++ x ∷ []) z)
                && same_number (remaining (s.ordered ++ x ∷ []) (dependencies_of g z)) 0))
    readies-place z = ready-place z ∙ elim (Bool-cases (contains (nodes g) z)) [
      | inr out ↦
          let none = ap (occurrences x) (absent-dependencies_of g z out) in
          ground (arith, none, rest-ready z, v.readies z)
      | inl in_graph ↦ elim (Bool-cases (contains s.ordered z)) [
        | inl done ↦ ground (arith, snoc z, now z, v.spent z done, rest-ready z, v.readies z)
        | inr waits ↦ elim (Bool-cases (x == z)) [
          | inl same ↦ ground (
            arith,
            snoc z,
            now z,
            once_popped.0,
            is_spent,
            ap (contains rest) ((eq_iff x z).0 same),
            ap s.indegree ((eq_iff x z).0 same),
          )
          | inr other ↦ ground (arith, snoc z, now z, rest-ready z, v.readies z)
        ]
      ]
    ]

    spent-place :
        (z : String)
        → contains (s.ordered ++ x ∷ []) z ≡ true
        → remaining (s.ordered ++ x ∷ []) (dependencies_of g z) ≡ 0
    spent-place z h = elim (Bool-cases (contains s.ordered z)) [
      | inl done ↦ (omega (arith, snoc z, v.spent z done))
      | inr waits ↦
          let same : ((x == z) ≡ true) = ground (arith, now z) in
          omega (arith, snoc z, is_spent, ap s.indegree ((eq_iff x z).0 same))
    ]

    before_it : Within (dependencies_of g x) s.ordered
    before_it = remaining-zero s.ordered (dependencies_of g x) (sym (v.counts x) ∙ is_spent)

    placed-place : Within (s.ordered ++ x ∷ []) (nodes g)
    placed-place z h = elim (Bool-cases (x == z)) [
      | inl same ↦ subst (λ y. contains (nodes g) y ≡ true) ((eq_iff x z).0 same) is_node
      | inr other ↦ v.placed z (ground (arith, now z))
    ]

    pub place-IsUnderWay : IsUnderWay (place g x rest s)
    place-IsUnderWay = record {
      counts =
          λ z. indegree-place z ∙ ap (λ o. remaining o (dependencies_of g z)) (sym ordered-place);
      readies = λ z.
          readies-place z
          ∙ ap₂ (λ o n. contains (nodes g) z && (not (contains o z) && same_number n 0))
              (sym ordered-place) (sym (indegree-place z));
      once = once-place;
      placed_once = rw ordered-place (Distinct-snoc s.ordered x v.placed_once is_new);
      placed = rw ordered-place placed-place;
      spent = λ z. rw ordered-place (λ h. indegree-place z ∙ spent-place z h);
      order = rw ordered-place (IsInOrder-snoc g [] s.ordered x v.order before_it);
    }
