-- ===== src/Extensions/Cycles/Dependents.antt =====
-- On what `_collect_cycle_dependents` of tau_extensions/resolution.py blocks for all cycles.
use tau_prime.Prelude.{
  String, Bool, true, ◌||◌, List, [], ◌∷◌, ◌≡◌, inl, inr, ◌∙◌, arith, contains, contains-append,
  Distinct, occurrences-contains, occurrences-absent, Bool-cases, Within,
}
use tau_prime.Extensions.Ordering.{Graph, nodes, dependencies_of, dependents}
use tau_prime.Extensions.Ordering.Counts.{occurrences-dependents}
use tau_prime.Extensions.Cycles.{keys, members, search_from, search_all, collect_cycle_dependents}
use tau_prime.Extensions.Cycles.Blocked.{search_from-IsFollowed, blocked_ids}

module _ (g : Graph) (cycle_members : List String) where
  abbrev is_blocked : List (String × List String) → String → Bool
  is_blocked blocked z = contains cycle_members z || contains (keys blocked) z

  -- The dependents of what is blocked by a cycle are blocked.
  abbrev IsClosed : List (String × List String) → Type 0
  IsClosed blocked =
      (z y : String)
      → contains (keys blocked) z ≡ true
      → contains (dependents g z) y ≡ true
      → is_blocked blocked y ≡ true

  record IsCollected (cycles : List (List String)) (blocked later : List (String × List String))
      : Type 0 where
    closed : IsClosed later
    from_cycles :
        (z y : String)
        → contains (members cycles) z ≡ true
        → contains (dependents g z) y ≡ true
        → is_blocked later y ≡ true
    kept : (z : String) → is_blocked blocked z ≡ true → is_blocked later z ≡ true

  search_all-IsCollected :
      (cycles : List (List String)) (blocked : List (String × List String))
      → Within (members cycles) cycle_members
      → IsClosed blocked
      → IsCollected cycles blocked (search_all g cycle_members cycles blocked)
  search_all-IsCollected [] blocked w closed = record {
    closed = closed;
    from_cycles = λ z y k h. cc;
    kept = λ z k. k;
  }
  search_all-IsCollected (c ∷ cs) blocked w closed =
      let one =
        search_from-IsFollowed g cycle_members c blocked
          (λ z k. w z (contains-append c (members cs) z ∙ ground arith)) in
      let b = search_from g cycle_members c blocked in
      let rest =
        search_all-IsCollected cs b (λ z k. w z (contains-append c (members cs) z ∙ ground arith))
          (λ z y k h. elim (Bool-cases (contains (keys blocked) z)) [
            | inl old ↦ one.kept y (closed z y old h)
            | inr new ↦ one.from_new z y k new h
          ]) in
      record {
        closed = rest.closed;
        from_cycles = λ z y k h. elim (Bool-cases (contains c z)) [
          | inl here ↦ rest.kept y (one.from_cycle z y here h)
          | inr later ↦ rest.from_cycles z y (ground (arith, contains-append c (members cs) z)) h
        ];
        kept = λ z k. rest.kept z (one.kept z k);
      }

contains-dependents :
    (g : Graph) (x z : String)
    → Distinct (nodes g)
    → contains (dependencies_of g z) x ≡ true
    → contains (dependents g x) z ≡ true
contains-dependents g x z d h = elim (Bool-cases (contains (dependents g x) z)) [
  | inl e ↦ e
  | inr e ↦ absurd (
      omega (
        arith,
        occurrences-dependents g x z d,
        occurrences-contains (dependencies_of g z) x h,
        occurrences-absent (dependents g x) z e,
      ))
]

-- What depends on something that is blocked is blocked.
pub collect_cycle_dependents-closed :
    (g : Graph) (cycles : List (List String)) (z y : String)
    → Distinct (nodes g)
    → blocked_ids cycles (collect_cycle_dependents g cycles) z ≡ true
    → contains (dependencies_of g y) z ≡ true
    → blocked_ids cycles (collect_cycle_dependents g cycles) y ≡ true
unfolding collect_cycle_dependents
collect_cycle_dependents-closed g cycles z y d k h =
    let all = search_all-IsCollected g (members cycles) cycles [] (λ x l. l) (λ x w l m. cc) in
    let there = contains-dependents g z y d h in
    elim (Bool-cases (contains (members cycles) z)) [
      | inl e ↦ all.from_cycles z y e there
      | inr e ↦ all.closed z y (ground arith) there
    ]
