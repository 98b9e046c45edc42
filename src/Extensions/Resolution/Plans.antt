-- ===== src/Extensions/Resolution/Plans.antt =====
-- On the outcomes of `resolve_extensions` in tau_extensions/resolution.py.
use tau_prime.Prelude.{
  ◌+◌, ◌≤◌, String, Bool, true, false, Option, none, some, List, [], ◌∷◌, ◌++◌, ◌==◌, ◌≡◌, inl, inr,
  refl, ap, sym, ◌∙◌, arith, contains, Distinct, occurrences, occurrences-contains, eq_iff, eq_refl,
  Bool-cases, All, Within, sort, if◌then◌else◌, subst,
}
use tau_prime.Extensions.{Candidate, Dependency, ExtensionApproval, TrustPolicy, has_items}
use tau_prime.Extensions.Dependencies.{find_candidate, Resolving, resolve_dependencies}
use tau_prime.Extensions.Dependencies.Met.{IsMet, AllMet}
use tau_prime.Extensions.Dependencies.Greatest.{AllConcluded, IsGreatest}
use tau_prime.Extensions.Dependencies.Resolved.{ids_of, IsChosen, resolve_dependencies-IsGreatest}
use tau_prime.Extensions.Ordering.{Graph, nodes, dependencies_of, topological_order}
use tau_prime.Extensions.Ordering.Progress.{IsInOrder}
use tau_prime.Extensions.Ordering.Justified.{IsJustified, topological_order-IsJustified}
use tau_prime.Extensions.Cycles.Depth.{find_cycles-some}
use tau_prime.Extensions.Resolution.{
  Resolution, resolved, duplicate_id, not_acyclic, out_of_fuel, first_duplicate, active_graph,
  block, restrict, candidates_of, planned, resolve_cycles, resolve_unique, or_duplicate,
  resolve_extensions,
}
use tau_prime.Extensions.Resolution.Graphs.{
  dependency_ids, IsListed, IsFaithful, active_graph-IsFaithful, Distinct-resolve_dependencies,
}
use tau_prime.Extensions.Resolution.Decisions.{IsDecisive, block-AllConcluded, decisions-IsDecisive}
use tau_prime.Extensions.Resolution.Restricted.{left, restrict-IsFaithful, left-Within}

found_id :
    (cs : List Candidate) (x : String) (c : Candidate)
    → find_candidate cs x ≡ some c
    → c.manifest.id ≡ x
found_id [] x c e = cc
found_id (b ∷ cs) x c e = elim (Bool-cases (b.manifest.id == x)) [
  | inl same ↦
      let here : (some b ≡ some c) = rw same at e in cc (here, (eq_iff b.manifest.id x).0 same)
  | inr other ↦ found_id cs x c (rw other at e)
]

same_ids :
    (xs ys : List String) (x : String) → Within xs ys → Within ys xs → contains xs x ≡ contains ys x
same_ids xs ys x v w = elim (Bool-cases (contains xs x)) [
  | inl e ↦ e ∙ sym (v x e)
  | inr e ↦ elim (Bool-cases (contains ys x)) [ inl k ↦ w x k ∙ sym k | inr k ↦ e ∙ sym k ]
]

-- What is among the first ids is met by them.
IsMet-before :
    (cs : List Candidate) (active_ids before xs : List String) (ds : List Dependency)
    → All (IsMet cs active_ids) ds
    → All (IsListed xs) ds
    → Within xs before
    → All (IsMet cs before) ds
IsMet-before cs active_ids before xs [] m l w = tt
IsMet-before cs active_ids before xs (d ∷ ds) m l w = (
  record { candidate = m.0.candidate; found = m.0.found; active = w d.id l.0; fits = m.0.fits },
  IsMet-before cs active_ids before xs ds m.1 l.1 w,
)

module _ (p : TrustPolicy) (enabled_ids : List String) (approvals : List ExtensionApproval)
    (cs : List Candidate) where
  -- Each extension was enabled by its first decision, and its dependencies are met by those before.
  abbrev pub IsPlan : List String → List Candidate → Type 0
  IsPlan before [] = Unit
  IsPlan before (c ∷ rest) =
      IsChosen p enabled_ids approvals cs c.manifest.id
      × AllMet cs before c
      × IsPlan (before ++ c.manifest.id ∷ []) rest

  -- Some extensions that were enabled each depend on one of them.
  abbrev pub IsStuck : Type 0
  IsStuck =
      (stuck : List String) × (x : String) × (contains stuck x ≡ true)
      × ((y : String)
          → contains stuck y ≡ true
          → (c : Candidate) × (find_candidate cs y ≡ some c)
            × IsChosen p enabled_ids approvals cs y
            × ((d : String) × (contains (dependency_ids c.manifest.dependencies) d ≡ true)
                × (contains stuck d ≡ true)))

  abbrev pub IsSafe : Resolution → Type 0
  IsSafe (resolved plan) =
      Distinct (ids_of cs)
      × Distinct (ids_of plan.ordered_candidates)
      × IsPlan [] plan.ordered_candidates
      × IsDecisive (ids_of plan.ordered_candidates) plan.decisions cs
  IsSafe (duplicate_id id) = 2 ≤ occurrences id (ids_of cs)
  IsSafe not_acyclic = IsStuck
  IsSafe out_of_fuel = ⊥

  module _ (active_ids : List String)
      (g : IsGreatest cs (IsChosen p enabled_ids approvals cs) active_ids) (h : Graph)
      (ids : List String) (v : IsFaithful cs ids h) (inside : Within ids active_ids) where
    node-active : (x : String) → contains (nodes h) x ≡ true → contains active_ids x ≡ true
    node-active x k = inside x (v.within x k)

    candidates_of-IsPlan :
        (before order : List String)
        → IsInOrder h before order
        → Within order (nodes h)
        → IsPlan before (candidates_of cs order) × (ids_of (candidates_of cs order) ≡ order)
    candidates_of-IsPlan before [] o w = (tt, refl)
    candidates_of-IsPlan before (x ∷ xs) o w =
        let in_graph : (contains (nodes h) x ≡ true) = w x (ground (arith, eq_refl x)) in
        let chosen = g.within x (node-active x in_graph) in
        let (c, e, on) = chosen in
        let rest = candidates_of-IsPlan (before ++ x ∷ []) xs o.1 (λ z k. w z (ground arith)) in
        let same = found_id cs x c e in
        rw e (
          rw same (
            (
              chosen,
              IsMet-before cs active_ids before (dependencies_of h x) c.manifest.dependencies
                  (g.closed x c (node-active x in_graph) e) (v.listed x c in_graph e) o.0,
              rest.0,
            ),
            ap (λ ys. x ∷ ys) rest.1,
          ))

    planned-IsSafe :
        (t : Resolving) (o : Option (List String))
        → t.active_ids ≡ ids
        → AllConcluded cs t
        → Distinct (ids_of cs)
        → IsJustified h o
        → IsSafe (planned cs t o)
    planned-IsSafe t (some order) e all d (once, same, in_order) =
        let plan = candidates_of-IsPlan [] order in_order (λ z k. sym (same z) ∙ k) in
        let those : (x : String) → contains t.active_ids x ≡ contains order x = λ x.
          ap (λ xs. contains xs x) e ∙ (same_ids ids (nodes h) x v.every v.within ∙ sym (same x)) in
        (d, rw plan.1 once, plan.0, rw plan.1 (decisions-IsDecisive cs t order d all those))
    planned-IsSafe t none e all d (stuck, x, k, w, waits) = (
      stuck,
      x,
      k,
      λ y l.
          let chosen = g.within y (node-active y (w y l)) in
          let (c, e, on) = chosen in
          let (z, m, n) = waits y l in (c, e, chosen, (z, v.real y c e z m, n)),
    )

  -- With the cycles out of the graph, or without any.
  without_cycles-IsSafe :
      (s : Resolving) (g : Graph)
      → IsGreatest cs (IsChosen p enabled_ids approvals cs) s.active_ids
      → IsFaithful cs s.active_ids g
      → AllConcluded cs s
      → Distinct (ids_of cs)
      → (cycles : List (List String)) (b : Bool)
      → IsSafe (
          planned cs
            (if b then block cs g cycles s else (s, g)).0
            (topological_order (if b then block cs g cycles s else (s, g)).1))
  without_cycles-IsSafe s g greatest v all d cycles false =
      planned-IsSafe s.active_ids greatest g s.active_ids v (λ x k. k) s (topological_order g) refl
        all d (topological_order-IsJustified g v.distinct v.whole)
  without_cycles-IsSafe s g greatest v all d cycles true =
      let rest = restrict-IsFaithful cs s.active_ids g v cycles in
      let ids = left cs s.active_ids g v cycles in
      planned-IsSafe s.active_ids greatest (restrict ids g) ids rest
        (left-Within cs s.active_ids g v cycles) (block cs g cycles s).0
        (topological_order (restrict ids g)) refl (block-AllConcluded cs g cycles s all) d
        (topological_order-IsJustified (restrict ids g) rest.distinct rest.whole)

  resolve_unique-IsSafe :
      Distinct (ids_of cs)
      → IsSafe (resolve_unique cs (resolve_dependencies p enabled_ids approvals cs))
  resolve_unique-IsSafe d =
      let s = resolve_dependencies p enabled_ids approvals cs in
      let both = resolve_dependencies-IsGreatest p enabled_ids approvals cs d in
      let greatest = both.0 in
      let g = active_graph cs s.active_ids (sort s.active_ids) in
      let v =
        active_graph-IsFaithful cs s.active_ids
          (Distinct-resolve_dependencies p enabled_ids approvals cs d) greatest.closed in
      let (cycles, found) = find_cycles-some g v.whole in
      subst (λ o. IsSafe (resolve_cycles cs g o s)) (sym found)
        (without_cycles-IsSafe s g greatest v both.1 d cycles (has_items cycles))

  duplicate-lem :
      (seen : List String) (rest : List Candidate) (id : String)
      → first_duplicate seen rest ≡ some id
      → 2 ≤ occurrences id seen + occurrences id (ids_of rest)
  duplicate-lem seen [] id e = cc
  duplicate-lem seen (c ∷ rest) id e = elim (Bool-cases (contains seen c.manifest.id)) [
    | inl k ↦
        let here : (some c.manifest.id ≡ some id) = rw k at e in
        let same : (c.manifest.id ≡ id) = cc here in
        let again : ((c.manifest.id == id) ≡ true) = (eq_iff c.manifest.id id).1 same in
        (ground (arith, again, occurrences-contains seen id (ap (contains seen) (sym same) ∙ k)))
    | inr k ↦ (ground (arith, duplicate-lem (c.manifest.id ∷ seen) rest id (rw k at e)))
  ]

  no_duplicate :
      (seen : List String) (rest : List Candidate)
      → first_duplicate seen rest ≡ none
      → Distinct (ids_of rest)
        × ((x : String) → contains (ids_of rest) x ≡ true → contains seen x ≡ false)
  no_duplicate seen [] e = (tt, λ x k. cc)
  no_duplicate seen (c ∷ rest) e = elim (Bool-cases (contains seen c.manifest.id)) [
    | inl k ↦ let here : (some c.manifest.id ≡ none) = rw k at e in absurd (cc here)
    | inr k ↦
        let others = no_duplicate (c.manifest.id ∷ seen) rest (rw k at e) in
        let new : (contains (ids_of rest) c.manifest.id ≡ false) =
          elim (Bool-cases (contains (ids_of rest) c.manifest.id)) [
            | inl m ↦ absurd (ground (arith, others.1 c.manifest.id m, eq_refl c.manifest.id))
            | inr m ↦ m
          ] in
        (
          (new, others.0),
          λ x m. elim (Bool-cases (c.manifest.id == x)) [
            | inl same ↦ ap (contains seen) (sym ((eq_iff c.manifest.id x).0 same)) ∙ k
            | inr other ↦ (ground (arith, others.1 x (ground arith)))
          ],
        )
  ]

  or_duplicate-IsSafe :
      (o : Option String)
      → first_duplicate [] cs ≡ o
      → IsSafe
          (or_duplicate o (resolve_unique cs (resolve_dependencies p enabled_ids approvals cs)))
  or_duplicate-IsSafe (some id) e = omega (arith, duplicate-lem [] cs id e)
  or_duplicate-IsSafe none e = resolve_unique-IsSafe (no_duplicate [] cs e).0

  -- Resolving does not run out of fuel, and its outcome is safe. In a plan every extension stands
  -- once, was enabled by its first decision, and has all of its dependencies before it, in versions
  -- that fit; and there is one decision for each candidate, in order, which enables just those in the
  -- plan. The first exception names an id that stands twice, and where the second is raised there are
  -- enabled extensions that each depend on one of them. That all cycles are found is not stated.
  pub resolve_extensions-IsSafe : IsSafe (resolve_extensions p enabled_ids approvals cs)
  unfolding resolve_extensions
  resolve_extensions-IsSafe = or_duplicate-IsSafe (first_duplicate [] cs) refl
