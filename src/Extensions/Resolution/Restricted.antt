-- ===== src/Extensions/Resolution/Restricted.antt =====
-- The graph of `resolve_extensions` in tau_extensions/resolution.py once the cycles and what depends
-- on them are out of it.
use tau_prime.Prelude.{
  String, true, not, ◌&&◌, List, [], ◌∷◌, ◌++◌, ◌==◌, ◌≡◌, inl, inr, refl, ap, sym, ◌∙◌, arith,
  contains, contains-append, Distinct, eq_iff, Bool-cases, All, Within, contains-difference,
}
use tau_prime.Extensions.{Candidate, Dependency}
use tau_prime.Extensions.Ordering.{Graph, nodes, dependencies_of}
use tau_prime.Extensions.Cycles.{keys, members, collect_cycle_dependents}
use tau_prime.Extensions.Cycles.Blocked.{blocked_ids}
use tau_prime.Extensions.Cycles.Dependents.{collect_cycle_dependents-closed}
use tau_prime.Extensions.Resolution.{only, restrict, unblocked}
use tau_prime.Extensions.Resolution.Graphs.{IsListed, IsFaithful, absent-dependencies}

contains-only :
    (active_ids xs : List String) (x : String)
    → contains (only active_ids xs) x ≡ (contains active_ids x && contains xs x)
contains-only active_ids [] x = ground arith
contains-only active_ids (y ∷ ys) x = elim (Bool-cases (y == x)) [
  | inl e ↦
      ground (arith, contains-only active_ids ys x, ap (contains active_ids) ((eq_iff y x).0 e))
  | inr e ↦ ground (arith, contains-only active_ids ys x)
]

nodes-restrict :
    (active_ids : List String) (g : Graph) (x : String)
    → contains (nodes (restrict active_ids g)) x ≡ (contains active_ids x && contains (nodes g) x)
nodes-restrict active_ids [] x = ground arith
nodes-restrict active_ids ((id, ds) ∷ g) x = elim (Bool-cases (id == x)) [
  | inl e ↦
      ground (arith, nodes-restrict active_ids g x, ap (contains active_ids) ((eq_iff id x).0 e))
  | inr e ↦ ground (arith, nodes-restrict active_ids g x)
]

Distinct-restrict :
    (active_ids : List String) (g : Graph)
    → Distinct (nodes g)
    → Distinct (nodes (restrict active_ids g))
Distinct-restrict active_ids [] d = tt
Distinct-restrict active_ids ((id, ds) ∷ g) d = elim (Bool-cases (contains active_ids id)) [
  | inl e ↦
      rw e (ground (arith, nodes-restrict active_ids g id, d.0), Distinct-restrict active_ids g d.1)
  | inr e ↦ rw e (Distinct-restrict active_ids g d.1)
]

dependencies-restrict :
    (active_ids : List String) (g : Graph) (x : String)
    → contains active_ids x ≡ true
    → dependencies_of (restrict active_ids g) x ≡ only active_ids (dependencies_of g x)
dependencies-restrict active_ids [] x h = refl
dependencies-restrict active_ids ((id, ds) ∷ g) x h = elim (Bool-cases (id == x)) [
  | inl e ↦
      let on : (contains active_ids id ≡ true) = ap (contains active_ids) ((eq_iff id x).0 e) ∙ h in
      rw on (rw e refl)
  | inr e ↦ elim (Bool-cases (contains active_ids id)) [
    | inl on ↦ rw on (rw e (dependencies-restrict active_ids g x h))
    | inr off ↦ rw off (rw e (dependencies-restrict active_ids g x h))
  ]
]

IsListed-more :
    (xs ys : List String) (ds : List Dependency)
    → Within xs ys
    → All (IsListed xs) ds
    → All (IsListed ys) ds
IsListed-more xs ys [] w l = tt
IsListed-more xs ys (d ∷ ds) w l = (w d.id l.0, IsListed-more xs ys ds w l.1)

module _ (cs : List Candidate) (active_ids : List String) (g : Graph)
    (v : IsFaithful cs active_ids g) (cycles : List (List String)) where
  abbrev pub left : List String
  left = unblocked cycles (collect_cycle_dependents g cycles) active_ids

  contains-left :
      (x : String)
      → contains left x
        ≡ (contains active_ids x && not (blocked_ids cycles (collect_cycle_dependents g cycles) x))
  contains-left x =
      contains-difference active_ids (members cycles ++ keys (collect_cycle_dependents g cycles)) x
      ∙ ap (λ b. contains active_ids x && not b)
          (contains-append (members cycles) (keys (collect_cycle_dependents g cycles)) x)

  pub left-Within : Within left active_ids
  left-Within x h = ground (arith, contains-left x)

  -- What is left depends on what is left.
  left-closed :
      (x : String)
      → contains left x ≡ true
      → Within (dependencies_of g x) (only left (dependencies_of g x))
  left-closed x h d k =
      let on : (contains active_ids d ≡ true) = v.within d (v.whole x d k) in
      contains-only left (dependencies_of g x) d
      ∙ elim (Bool-cases (blocked_ids cycles (collect_cycle_dependents g cycles) d)) [
        | inl e ↦
            let mine = collect_cycle_dependents-closed g cycles d x v.distinct e k in
            absurd (ground (arith, contains-left x))
        | inr e ↦ ground (arith, contains-left d)
      ]

  pub restrict-IsFaithful : IsFaithful cs left (restrict left g)
  restrict-IsFaithful = record {
    distinct = Distinct-restrict left g v.distinct;
    within = λ x h. ground (arith, nodes-restrict left g x);
    every = λ x h. nodes-restrict left g x ∙ ground (arith, v.every x (left-Within x h));
    whole = λ x d h.
        let in_graph = absent-dependencies (restrict left g) x d h in
        let on : (contains left x ≡ true) = ground (arith, nodes-restrict left g x) in
        let k =
          sym (contains-only left (dependencies_of g x) d)
          ∙ (ap (λ xs. contains xs d) (sym (dependencies-restrict left g x on)) ∙ h) in
        nodes-restrict left g d ∙ ground (arith, v.whole x d (ground arith));
    listed = λ x c h found.
        let on : (contains left x ≡ true) = ground (arith, nodes-restrict left g x) in
        rw (dependencies-restrict left g x on) (
          IsListed-more (dependencies_of g x) (only left (dependencies_of g x))
            c.manifest.dependencies (left-closed x on)
            (v.listed x c (ground (arith, nodes-restrict left g x)) found));
    real = λ x c found d h.
        let in_graph = absent-dependencies (restrict left g) x d h in
        let on : (contains left x ≡ true) = ground (arith, nodes-restrict left g x) in
        let k =
          sym (contains-only left (dependencies_of g x) d)
          ∙ (ap (λ xs. contains xs d) (sym (dependencies-restrict left g x on)) ∙ h) in
        v.real x c found d (ground arith);
  }
