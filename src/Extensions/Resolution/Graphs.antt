-- ===== src/Extensions/Resolution/Graphs.antt =====
-- The graphs of `resolve_extensions` in tau_extensions/resolution.py: that of the active extensions,
-- and what is left of it without cycles.
use tau_prime.Prelude.{
  ℕ, zero, suc, String, true, false, ◌&&◌, ◌||◌, Option, none, some, List, [], ◌∷◌, ◌==◌, ◌≡◌, inl,
  inr, refl, ap, sym, ◌∙◌, arith, contains, contains-append, Distinct, Distinct-snoc, eq_iff,
  eq_refl, Bool-cases, All, All-sort_by, Within, sort, sort_by, contains-sort, Distinct-insert_by,
  insert_by, is_before, difference, contains-difference, All-unsort_by, length,
}
use tau_prime.Extensions.{
  Candidate, Dependency, ExtensionApproval, TrustPolicy, initial_decision, has_items,
}
use tau_prime.Extensions.Dependencies.{
  find_candidate, sorted_dependencies, Resolving, nothing_decided, recorded, decide_all, round,
  updated, prune, resolve_dependencies,
}
use tau_prime.Extensions.Dependencies.Met.{IsMet, AllMet}
use tau_prime.Extensions.Dependencies.Rounds.{active-round}
use tau_prime.Extensions.Dependencies.Resolved.{ids_of}
use tau_prime.Extensions.Ordering.{Graph, nodes, dependencies_of}
use tau_prime.Extensions.Resolution.{active_dependencies, dependencies_in, active_graph}

Distinct-sort : (xs : List String) → Distinct xs → Distinct (sort xs)
Distinct-sort [] d = tt
Distinct-sort (x ∷ xs) d =
    Distinct-insert_by x (sort xs) (contains-sort xs x ∙ d.0) (Distinct-sort xs d.1)

Distinct-difference : (xs ys : List String) → Distinct xs → Distinct (difference xs ys)
Distinct-difference [] ys d = tt
Distinct-difference (x ∷ xs) ys d = elim (Bool-cases (contains ys x)) [
  | inl e ↦ rw e (Distinct-difference xs ys d.1)
  | inr e ↦ rw e (ground (arith, contains-difference xs ys x, d.0), Distinct-difference xs ys d.1)
]

-- Everything active is active once.
Distinct-prune :
    (fuel : ℕ) (cs : List Candidate) (s : Resolving)
    → Distinct s.active_ids
    → Distinct (prune fuel cs s).active_ids
unfolding prune
Distinct-prune zero cs s d = d
Distinct-prune (suc fuel) cs s d =
    let same : Distinct (round cs s).active_ids = rw (active-round cs s) d in
    elim (Bool-cases (has_items (round cs s).disabled_ids)) [
      | inl e ↦ rw e (
          Distinct-prune fuel cs (updated (round cs s))
            (Distinct-difference (round cs s).active_ids (round cs s).disabled_ids same))
      | inr e ↦ rw e same
    ]

module _ (p : TrustPolicy) (enabled_ids : List String) (approvals : List ExtensionApproval) where
  Distinct-decide_all :
      (cs : List Candidate) (s : Resolving)
      → Distinct (ids_of cs)
      → Distinct s.active_ids
      → ((x : String) → contains (ids_of cs) x ≡ true → contains s.active_ids x ≡ false)
      → Distinct (decide_all p enabled_ids approvals cs s).active_ids
  Distinct-decide_all [] s d e apart = e
  Distinct-decide_all (c ∷ cs) s d e apart =
      elim (Bool-cases (initial_decision p enabled_ids approvals c).enabled) [
        | inl on ↦
            Distinct-decide_all cs (recorded c (initial_decision p enabled_ids approvals c) s) d.1
              (rw on (
                Distinct-snoc s.active_ids c.manifest.id e
                  (apart c.manifest.id (ground (arith, eq_refl c.manifest.id)))))
              (λ x k. rw on (
                contains-append s.active_ids (c.manifest.id ∷ []) x
                ∙ elim (Bool-cases (c.manifest.id == x)) [
                  | inl same ↦ absurd (
                      ground
                        (arith, d.0, ap (contains (ids_of cs)) ((eq_iff c.manifest.id x).0 same)))
                  | inr other ↦ ground (arith, apart x (ground arith))
                ]))
        | inr off ↦
            Distinct-decide_all cs (recorded c (initial_decision p enabled_ids approvals c) s) d.1
              (rw off e) (λ x k. rw off (apart x (ground arith)))
      ]

  pub Distinct-resolve_dependencies :
      (cs : List Candidate)
      → Distinct (ids_of cs)
      → Distinct (resolve_dependencies p enabled_ids approvals cs).active_ids
  unfolding resolve_dependencies
  Distinct-resolve_dependencies cs d =
      Distinct-prune
        (suc (length (decide_all p enabled_ids approvals cs nothing_decided).active_ids)) cs
        (decide_all p enabled_ids approvals cs nothing_decided)
        (Distinct-decide_all cs nothing_decided d tt (λ x k. refl))

nodes-active_graph :
    (cs : List Candidate) (active_ids ids : List String)
    → nodes (active_graph cs active_ids ids) ≡ ids
nodes-active_graph cs active_ids [] = refl
nodes-active_graph cs active_ids (id ∷ ids) =
    ap (λ xs. id ∷ xs) (nodes-active_graph cs active_ids ids)

dependencies-active_graph :
    (cs : List Candidate) (active_ids ids : List String) (x : String)
    → contains ids x ≡ true
    → dependencies_of (active_graph cs active_ids ids) x
      ≡ dependencies_in active_ids (find_candidate cs x)
dependencies-active_graph cs active_ids [] x h = cc
dependencies-active_graph cs active_ids (id ∷ ids) x h = elim (Bool-cases (id == x)) [
  | inl e ↦ rw e (ap (λ y. dependencies_in active_ids (find_candidate cs y)) ((eq_iff id x).0 e))
  | inr e ↦ rw e (dependencies-active_graph cs active_ids ids x (ground arith))
]

-- Each dependency that is met is in the graph.
abbrev pub IsListed : List String → Dependency → Type 0
IsListed xs d = contains xs d.id ≡ true

abbrev pub dependency_ids : List Dependency → List String
dependency_ids [] = []
dependency_ids (d ∷ ds) = d.id ∷ dependency_ids ds

contains-active_dependencies :
    (active_ids : List String) (ds : List Dependency) (x : String)
    → contains (active_dependencies active_ids ds) x
      ≡ (contains active_ids x && contains (dependency_ids ds) x)
contains-active_dependencies active_ids [] x = ground arith
contains-active_dependencies active_ids (d ∷ ds) x = elim (Bool-cases (d.id == x)) [
  | inl e ↦ ground (
    arith,
    contains-active_dependencies active_ids ds x,
    ap (contains active_ids) ((eq_iff d.id x).0 e),
  )
  | inr e ↦ ground (arith, contains-active_dependencies active_ids ds x)
]

listed :
    (cs : List Candidate) (active_ids xs : List String) (ds : List Dependency)
    → All (IsMet cs active_ids) ds
    → ((x : String)
        → contains (dependency_ids ds) x ≡ true
        → contains active_ids x ≡ true
        → contains xs x ≡ true)
    → All (IsListed xs) ds
listed cs active_ids xs [] m f = tt
listed cs active_ids xs (d ∷ ds) m f = (
  f d.id (ground (arith, eq_refl d.id)) m.0.active,
  listed cs active_ids xs ds m.1 (λ x k. f x (ground arith)),
)

-- The dependencies of an active extension are all in the graph.
active_dependencies-IsListed :
    (cs : List Candidate) (active_ids : List String) (c : Candidate)
    → AllMet cs active_ids c
    → All
        (IsListed (active_dependencies active_ids (sorted_dependencies c)))
        c.manifest.dependencies
active_dependencies-IsListed cs active_ids c m =
    let xs = active_dependencies active_ids (sorted_dependencies c) in
    All-unsort_by (λ d. d.id) (IsListed xs) c.manifest.dependencies
      (listed cs active_ids xs (sorted_dependencies c)
        (All-sort_by (λ d. d.id) (IsMet cs active_ids) c.manifest.dependencies m)
        (λ x k on.
          contains-active_dependencies active_ids (sorted_dependencies c) x ∙ ground arith))

ids-insert_by :
    (d : Dependency) (ds : List Dependency) (x : String)
    → contains (dependency_ids (insert_by (λ e. e.id) d ds)) x
      ≡ ((d.id == x) || contains (dependency_ids ds) x)
ids-insert_by d [] x = refl
ids-insert_by d (e ∷ ds) x = elim (Bool-cases (is_before e.id d.id)) [
  | inl k ↦ rw k (ground (arith, ids-insert_by d ds x))
  | inr k ↦ rw k refl
]

ids-sort_by :
    (ds : List Dependency) (x : String)
    → contains (dependency_ids (sort_by (λ e. e.id) ds)) x ≡ contains (dependency_ids ds) x
ids-sort_by [] x = refl
ids-sort_by (d ∷ ds) x =
    ids-insert_by d (sort_by (λ e. e.id) ds) x ∙ ground (arith, ids-sort_by ds x)

dependencies_in-real :
    (active_ids : List String) (c : Candidate)
    → Within (dependencies_in active_ids (some c)) (dependency_ids c.manifest.dependencies)
dependencies_in-real active_ids c x h = ground (
  arith,
  contains-active_dependencies active_ids (sorted_dependencies c) x,
  ids-sort_by c.manifest.dependencies x,
)

dependencies_in-Within :
    (active_ids : List String) (o : Option Candidate)
    → Within (dependencies_in active_ids o) active_ids
dependencies_in-Within active_ids none x h = cc
dependencies_in-Within active_ids (some c) x h =
    ground (arith, contains-active_dependencies active_ids (sorted_dependencies c) x)

-- A graph of active extensions: each has all of its dependencies in it.
pub record IsFaithful (cs : List Candidate) (active_ids : List String) (g : Graph) : Type 0 where
  pub distinct : Distinct (nodes g)
  pub within : Within (nodes g) active_ids
  pub every : Within active_ids (nodes g)
  pub whole : (x d : String) → contains (dependencies_of g x) d ≡ true → contains (nodes g) d ≡ true
  pub listed :
      (x : String) (c : Candidate)
      → contains (nodes g) x ≡ true
      → find_candidate cs x ≡ some c
      → All (IsListed (dependencies_of g x)) c.manifest.dependencies
  pub real :
      (x : String) (c : Candidate)
      → find_candidate cs x ≡ some c
      → Within (dependencies_of g x) (dependency_ids c.manifest.dependencies)

pub absent-dependencies :
    (g : Graph) (x d : String)
    → contains (dependencies_of g x) d ≡ true
    → contains (nodes g) x ≡ true
absent-dependencies [] x d h = cc
absent-dependencies ((id, ds) ∷ g) x d h = elim (Bool-cases (id == x)) [
  | inl e ↦ rw e refl
  | inr e ↦ (ground (arith, absent-dependencies g x d (ground arith)))
]

pub active_graph-IsFaithful :
    (cs : List Candidate) (active_ids : List String)
    → Distinct active_ids
    → ((x : String) (c : Candidate)
        → contains active_ids x ≡ true
        → find_candidate cs x ≡ some c
        → AllMet cs active_ids c)
    → IsFaithful cs active_ids (active_graph cs active_ids (sort active_ids))
active_graph-IsFaithful cs active_ids d closed =
    let g = active_graph cs active_ids (sort active_ids) in
    let same = nodes-active_graph cs active_ids (sort active_ids) in
    let there : (x : String) → contains (nodes g) x ≡ contains active_ids x =
      λ x. ap (λ xs. contains xs x) same ∙ contains-sort active_ids x in
    record {
      distinct = rw same (Distinct-sort active_ids d);
      within = λ x h. sym (there x) ∙ h;
      every = λ x h. there x ∙ h;
      whole = λ x y h.
          there y
          ∙ dependencies_in-Within active_ids (find_candidate cs x) y (
              ap (λ xs. contains xs y)
                (sym (
                  dependencies-active_graph cs active_ids (sort active_ids) x
                    (ap (λ xs. contains xs x) (sym same) ∙ absent-dependencies g x y h)))
              ∙ h);
      listed = λ x c h found.
          rw
            (dependencies-active_graph cs active_ids (sort active_ids) x
              (ap (λ xs. contains xs x) (sym same) ∙ h))
            (rw found (
              active_dependencies-IsListed cs active_ids c (closed x c (sym (there x) ∙ h) found)));
      real = λ x c found y h.
          let in_graph = ap (λ xs. contains xs x) (sym same) ∙ absent-dependencies g x y h in
          let mine = dependencies-active_graph cs active_ids (sort active_ids) x in
          dependencies_in-real active_ids c y (
            ap (λ o. contains (dependencies_in active_ids o) y) (sym found)
            ∙ (ap (λ xs. contains xs y) (sym (mine in_graph)) ∙ h));
    }
