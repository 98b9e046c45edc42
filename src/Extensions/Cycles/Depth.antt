-- ===== src/Extensions/Cycles/Depth.antt =====
-- On how deep the calls of `strongconnect` in `_find_cycles` of tau_extensions/resolution.py go.
use tau_prime.Prelude.{
  ℕ, zero, suc, ◌≤◌, ◌<◌, String, true, false, Option, none, some, List, [], ◌∷◌, ◌==◌, ◌≡◌, inl,
  inr, refl, ap, sym, ◌∙◌, arith, contains, eq_iff, eq_refl, Bool-cases, Option-cases, length,
  difference, contains-sort, Within, sort,
}
use tau_prime.Extensions.Ordering.{Graph, nodes, dependencies_of}
use tau_prime.Extensions.Cycles.{
  Components, find_index, enter, leave_node, index_is, met_again, met_first, and_then, connect,
  connect_all, strongconnect, visit_if_new, visit_all, no_components, sorted_cycles, find_cycles,
}

abbrev pub visited : List (String × ℕ) → List String
visited [] = []
visited ((x, n) ∷ rest) = x ∷ visited rest

pub not_visited :
    (l : List (String × ℕ)) (x : String) → find_index l x ≡ none → contains (visited l) x ≡ false
not_visited [] x h = refl
not_visited ((y, n) ∷ l) x h = elim (Bool-cases (y == x)) [
  | inl e ↦ let here : (some n ≡ none) = rw e at h in absurd (cc here)
  | inr e ↦ (ground (arith, not_visited l x (rw e at h)))
]

unseen-cons :
    (ns seen : List String) (y : String)
    → length (difference ns (y ∷ seen)) ≤ length (difference ns seen)
unseen-cons [] seen y = omega arith
unseen-cons (n ∷ ns) seen y = ground (arith, unseen-cons ns seen y)

fewer_unseen :
    (ns seen : List String) (y : String)
    → contains ns y ≡ true
    → contains seen y ≡ false
    → length (difference ns (y ∷ seen)) < length (difference ns seen)
fewer_unseen [] seen y h k = cc
fewer_unseen (n ∷ ns) seen y h k = elim (Bool-cases (n == y)) [
  | inl e ↦
      let back : ((y == n) ≡ true) = (eq_iff y n).1 (sym ((eq_iff n y).0 e)) in
      (ground (arith, back, unseen-cons ns seen y, ap (contains seen) ((eq_iff n y).0 e)))
  | inr e ↦
      let rest = fewer_unseen ns seen y (ground arith) k in
      let apart : ((y == n) ≡ false) = ground (arith, eq_iff y n, eq_iff n y) in
      (ground (arith, rest, apart))
]

all_unseen : (ns : List String) → length (difference ns []) ≡ length ns
all_unseen [] = refl
all_unseen (n ∷ ns) = omega (arith, all_unseen ns)

indices-leave_node : (x : String) (t : Components) → (leave_node x t).indices ≡ t.indices
indices-leave_node x t = elim (Bool-cases (index_is (find_index t.indices x) (t.lowlinks x))) [
  | inl e ↦ rw e refl
  | inr e ↦ rw e refl
]

indices-met_again :
    (x d : String) (n : ℕ) (t : Components) → (met_again x d n t).indices ≡ t.indices
indices-met_again x d n t = elim (Bool-cases (contains t.stack d)) [
  | inl e ↦ rw e refl
  | inr e ↦ rw e refl
]

module _ (g : Graph)
    (whole : (x d : String)
      → contains (dependencies_of g x) d ≡ true
      → contains (nodes g) d ≡ true) where
  -- How many nodes have no index yet.
  unseen : List (String × ℕ) → ℕ
  unseen l = length (difference (nodes g) (visited l))

  -- The fuel was enough, and no more than `n` nodes are left.
  IsEnough : ℕ → Option Components → Type 0
  IsEnough n none = ⊥
  IsEnough n (some t) = unseen t.indices ≤ n

  IsEnough-and_then :
      (n m : ℕ) (o : Option Components) (f : Components → Option Components)
      → IsEnough n o
      → ((t : Components) → unseen t.indices ≤ n → IsEnough m (f t))
      → IsEnough m (and_then o f)
  unfolding IsEnough
  IsEnough-and_then n m none f h k = absurd h
  IsEnough-and_then n m (some t) f h k = k t h

  module _ (n : ℕ) (visit : String → Components → Option Components)
      (visits : (x : String) (t : Components)
        → contains (nodes g) x ≡ true
        → find_index t.indices x ≡ none
        → unseen t.indices ≤ n
        → IsEnough n (visit x t)) where
    connect-IsEnough :
        (x d : String) (o : Option ℕ) (t : Components)
        → find_index t.indices d ≡ o
        → contains (nodes g) d ≡ true
        → unseen t.indices ≤ n
        → IsEnough n (connect visit x d o t)
    unfolding IsEnough
    connect-IsEnough x d (some k) t e node few = rw (indices-met_again x d k t) few
    connect-IsEnough x d none t e node few =
        IsEnough-and_then n n (visit d t) (λ u. some (met_first x d u)) (visits d t node e few)
          (λ u less. less)

    connect_all-IsEnough :
        (x : String) (ds : List String) (t : Components)
        → Within ds (nodes g)
        → unseen t.indices ≤ n
        → IsEnough n (connect_all visit x ds t)
    unfolding IsEnough
    connect_all-IsEnough x [] t w few = few
    connect_all-IsEnough x (d ∷ ds) t w few =
        IsEnough-and_then n n (connect visit x d (find_index t.indices d) t)
          (connect_all visit x ds)
          (connect-IsEnough x d (find_index t.indices d) t refl (w d (ground (arith, eq_refl d)))
            few)
          (λ u less. connect_all-IsEnough x ds u (λ z k. w z (ground arith)) less)

  fewer-enter :
      (x : String) (t : Components)
      → contains (nodes g) x ≡ true
      → find_index t.indices x ≡ none
      → unseen (enter x t).indices < unseen t.indices
  unfolding unseen
  fewer-enter x t node e =
      fewer_unseen (nodes g) (visited t.indices) x node (not_visited t.indices x e)

  -- Each call gives its node an index, so that a call has fuel for the nodes that are left.
  strongconnect-IsEnough :
      (fuel : ℕ) (x : String) (t : Components)
      → contains (nodes g) x ≡ true
      → find_index t.indices x ≡ none
      → unseen t.indices ≤ fuel
      → IsEnough fuel (strongconnect fuel g x t)
  unfolding IsEnough
  strongconnect-IsEnough zero x t node e few = absurd (omega (arith, fewer-enter x t node e, few))
  strongconnect-IsEnough (suc fuel) x t node e few =
      IsEnough-and_then fuel (suc fuel)
        (connect_all (strongconnect fuel g) x (dependencies_of g x) (enter x t))
        (λ u. some (leave_node x u))
        (connect_all-IsEnough fuel (strongconnect fuel g) (strongconnect-IsEnough fuel) x
          (dependencies_of g x) (enter x t) (λ z k. whole x z k)
          (omega (arith, fewer-enter x t node e, few)))
        (λ u less. rw (indices-leave_node x u) (omega (arith, less)))

  visit_all-IsEnough :
      (fuel : ℕ) (xs : List String) (t : Components)
      → Within xs (nodes g)
      → unseen t.indices ≤ fuel
      → IsEnough fuel (visit_all fuel g xs t)
  unfolding IsEnough
  visit_all-IsEnough fuel [] t w few = few
  visit_all-IsEnough fuel (x ∷ xs) t w few =
      IsEnough-and_then fuel fuel (visit_if_new fuel g x (find_index t.indices x) t)
        (visit_all fuel g xs)
        (elim (Option-cases (find_index t.indices x)) [
          | inl e ↦ rw e (strongconnect-IsEnough fuel x t (w x (ground (arith, eq_refl x))) e few)
          | inr (k, e) ↦ rw e few
        ])
        (λ u less. visit_all-IsEnough fuel xs u (λ z k. w z (ground arith)) less)

  sorted_cycles-some :
      (n : ℕ) (o : Option Components)
      → IsEnough n o
      → (cycles : List (List String)) × (sorted_cycles o ≡ some cycles)
  unfolding IsEnough
  sorted_cycles-some n none h = absurd h
  sorted_cycles-some n (some t) h = (_, refl)

  -- The recursion of `_find_cycles` ends, with calls no deeper than there are keys.
  pub find_cycles-some : (cycles : List (List String)) × (find_cycles g ≡ some cycles)
  unfolding find_cycles unseen
  find_cycles-some =
      sorted_cycles-some (length (nodes g))
        (visit_all (length (nodes g)) g (sort (nodes g)) no_components)
        (visit_all-IsEnough (length (nodes g)) (sort (nodes g)) no_components
          (λ z k. sym (contains-sort (nodes g) z) ∙ k) (omega (arith, all_unseen (nodes g))))
