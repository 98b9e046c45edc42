-- ===== src/Extensions/Cycles/Found.antt =====
-- On the cycles that `_find_cycles` of tau_extensions/resolution.py gives.
use tau_prime.Prelude.{
  ℕ, zero, suc, ◌+◌, ◌≤◌, String, true, false, Option, none, some, List, [], ◌∷◌, ◌==◌, ◌≡◌, inl,
  inr, refl, ap, sym, ◌∙◌, arith, contains, eq_iff, eq_refl, if◌then◌else◌, Bool-cases,
  Option-cases, length, All, occurrences, occurrences-contains, contains-sort, Within, sort, subst,
}
use tau_prime.Extensions.Ordering.{Graph, nodes, dependencies_of}
use tau_prime.Extensions.Cycles.{
  Components, find_index, enter, leave_node, index_is, met_again, met_first, and_then, connect,
  connect_all, strongconnect, visit_if_new, visit_all, no_components, sorted_cycles, find_cycles,
  pop_component, members, sort_cycles,
}
use tau_prime.Extensions.Cycles.Depth.{visited, not_visited, find_cycles-some}
use tau_prime.Extensions.Cycles.Groups.{
  occurrences-pop_component, occurrences-add_cycle, occurrences-sort_cycles, IsKnot,
  IsKnot-add_cycle, IsKnot-sort_cycles, AreApart,
}

module _ (g : Graph)
    (whole : (x d : String)
      → contains (dependencies_of g x) d ≡ true
      → contains (nodes g) d ≡ true) where
  -- An id is on the stack or in a cycle, once, and only if it has been visited.
  record IsKept (t : Components) : Type 0 where
    once :
        (z : String)
        → occurrences z t.stack + occurrences z (members t.cycles)
          ≤ (if contains (visited t.indices) z then 1 else 0)
    within : Within (visited t.indices) (nodes g)
    knots : All IsKnot t.cycles

  KeptIn : Option Components → Type 0
  KeptIn none = Unit
  KeptIn (some t) = IsKept t

  KeptIn-and_then :
      (o : Option Components) (f : Components → Option Components)
      → KeptIn o
      → ((t : Components) → IsKept t → KeptIn (f t))
      → KeptIn (and_then o f)
  unfolding KeptIn
  KeptIn-and_then none f h k = tt
  KeptIn-and_then (some t) f h k = k t h

  enter-IsKept :
      (x : String) (t : Components)
      → contains (nodes g) x ≡ true
      → find_index t.indices x ≡ none
      → IsKept t
      → IsKept (enter x t)
  enter-IsKept x t node e v = record {
    once = λ z. elim (Bool-cases (x == z)) [
      | inl same ↦
          let new : (contains (visited t.indices) z ≡ false) =
            ap (contains (visited t.indices)) (sym ((eq_iff x z).0 same))
            ∙ not_visited t.indices x e in
          (ground (arith, v.once z, new))
      | inr other ↦ (ground (arith, v.once z))
    ];
    within = λ z k. elim (Bool-cases (x == z)) [
      | inl same ↦ ap (contains (nodes g)) (sym ((eq_iff x z).0 same)) ∙ node
      | inr other ↦ v.within z (ground arith)
    ];
    knots = v.knots;
  }

  leave_node-IsKept : (x : String) (t : Components) → IsKept t → IsKept (leave_node x t)
  leave_node-IsKept x t v = elim (Bool-cases (index_is (find_index t.indices x) (t.lowlinks x))) [
    | inl e ↦ rw e (record {
      once = λ z. omega (
        arith,
        v.once z,
        occurrences-pop_component z x t.stack,
        occurrences-add_cycle z (pop_component x t.stack).0 t.cycles,
      );
      within = v.within;
      knots = IsKnot-add_cycle (pop_component x t.stack).0 t.cycles v.knots;
    })
    | inr e ↦ rw e v
  ]

  met_again-IsKept : (x d : String) (n : ℕ) (t : Components) → IsKept t → IsKept (met_again x d n t)
  met_again-IsKept x d n t v = elim (Bool-cases (contains t.stack d)) [
    | inl e ↦ rw e (record { once = v.once; within = v.within; knots = v.knots })
    | inr e ↦ rw e v
  ]

  module _ (visit : String → Components → Option Components)
      (visits : (x : String) (t : Components)
        → contains (nodes g) x ≡ true
        → find_index t.indices x ≡ none
        → IsKept t
        → KeptIn (visit x t)) where
    connect-KeptIn :
        (x d : String) (o : Option ℕ) (t : Components)
        → find_index t.indices d ≡ o
        → contains (nodes g) d ≡ true
        → IsKept t
        → KeptIn (connect visit x d o t)
    unfolding KeptIn
    connect-KeptIn x d (some n) t e node v = met_again-IsKept x d n t v
    connect-KeptIn x d none t e node v =
        KeptIn-and_then (visit d t) (λ u. some (met_first x d u)) (visits d t node e v)
          (λ u w. record { once = w.once; within = w.within; knots = w.knots })

    connect_all-KeptIn :
        (x : String) (ds : List String) (t : Components)
        → Within ds (nodes g)
        → IsKept t
        → KeptIn (connect_all visit x ds t)
    unfolding KeptIn
    connect_all-KeptIn x [] t w v = v
    connect_all-KeptIn x (d ∷ ds) t w v =
        KeptIn-and_then (connect visit x d (find_index t.indices d) t) (connect_all visit x ds)
          (connect-KeptIn x d (find_index t.indices d) t refl (w d (ground (arith, eq_refl d))) v)
          (λ u k. connect_all-KeptIn x ds u (λ z l. w z (ground arith)) k)

  strongconnect-KeptIn :
      (fuel : ℕ) (x : String) (t : Components)
      → contains (nodes g) x ≡ true
      → find_index t.indices x ≡ none
      → IsKept t
      → KeptIn (strongconnect fuel g x t)
  unfolding KeptIn
  strongconnect-KeptIn zero x t node e v = tt
  strongconnect-KeptIn (suc fuel) x t node e v =
      KeptIn-and_then (connect_all (strongconnect fuel g) x (dependencies_of g x) (enter x t))
        (λ u. some (leave_node x u))
        (connect_all-KeptIn (strongconnect fuel g) (strongconnect-KeptIn fuel) x
          (dependencies_of g x) (enter x t) (λ z k. whole x z k) (enter-IsKept x t node e v))
        (λ u k. leave_node-IsKept x u k)

  visit_all-KeptIn :
      (fuel : ℕ) (xs : List String) (t : Components)
      → Within xs (nodes g)
      → IsKept t
      → KeptIn (visit_all fuel g xs t)
  unfolding KeptIn
  visit_all-KeptIn fuel [] t w v = v
  visit_all-KeptIn fuel (x ∷ xs) t w v =
      KeptIn-and_then (visit_if_new fuel g x (find_index t.indices x) t) (visit_all fuel g xs)
        (elim (Option-cases (find_index t.indices x)) [
          | inl e ↦ rw e (strongconnect-KeptIn fuel x t (w x (ground (arith, eq_refl x))) e v)
          | inr (k, e) ↦ rw e v
        ])
        (λ u k. visit_all-KeptIn fuel xs u (λ z l. w z (ground arith)) k)

  sorted_cycles-AreApart :
      (o : Option Components) (cycles : List (List String))
      → KeptIn o
      → sorted_cycles o ≡ some cycles
      → AreApart g cycles
  unfolding KeptIn
  sorted_cycles-AreApart none cycles v e = absurd (cc e)
  sorted_cycles-AreApart (some t) cycles v e =
      let same : (sort_cycles t.cycles ≡ cycles) = cc e in
      subst (AreApart g) same (record {
        once = λ z. ground (arith, v.once z, occurrences-sort_cycles z t.cycles);
        inside = λ z k. v.within z (
            ground (
              arith,
              v.once z,
              occurrences-sort_cycles z t.cycles,
              occurrences-contains (members (sort_cycles t.cycles)) z k,
            ));
        knots = IsKnot-sort_cycles t.cycles v.knots;
      })

  -- For a graph whose dependencies are keys, with cycles or without, the recursion of `_find_cycles`
  -- ends, with calls no deeper than there are keys. It gives groups of at least two keys each, in
  -- which no key stands twice.
  pub find_cycles-AreApart :
      (cycles : List (List String)) × (find_cycles g ≡ some cycles) × AreApart g cycles
  unfolding find_cycles
  find_cycles-AreApart =
      let (cycles, found) = find_cycles-some g whole in
      let start : IsKept no_components = record {
        once = λ z. omega arith;
        within = λ z k. cc k;
        knots = tt;
      } in
      (
        cycles,
        found,
        sorted_cycles-AreApart (visit_all (length (nodes g)) g (sort (nodes g)) no_components)
            cycles
            (visit_all-KeptIn (length (nodes g)) (sort (nodes g)) no_components
              (λ z k. sym (contains-sort (nodes g) z) ∙ k) start)
            found,
      )
