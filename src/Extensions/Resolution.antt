-- ===== src/Extensions/Resolution.antt =====
-- `resolve_extensions` of tau_extensions/resolution.py as a whole.
pub mod Graphs
pub mod Restricted
pub mod Decisions
pub mod Plans
use Prim.Native.String.{◌++◌ as append}
use tau_prime.Prelude.{
  String, Bool, true, false, ◌||◌, Option, none, some, List, [], ◌∷◌, ◌++◌, ◌==◌, contains,
  if◌then◌else◌, sort, difference,
}
use tau_prime.Extensions.{
  Dependency, Candidate, Diagnostic, ExtensionApproval, TrustPolicy, ResolutionDecision, has_items,
  join_texts, refused_for,
}
use tau_prime.Extensions.Dependencies.{
  find_candidate, sorted_dependencies, decision_diagnostic, find_decision, Resolving,
  resolve_dependencies,
}
use tau_prime.Extensions.Ordering.{Graph, topological_order}
use tau_prime.Extensions.Cycles.{find_cycles, collect_cycle_dependents, keys, members}

pub record ActivationPlan : Type 0 where
  pub ordered_candidates : List Candidate
  pub decisions : List ResolutionDecision
  pub diagnostics : List Diagnostic

-- A plan, or one of the two exceptions, or a model of `_find_cycles` that ran out of fuel.
pub data Resolution : Type 0 where
  resolved : ActivationPlan → Resolution
  duplicate_id : String → Resolution
  not_acyclic : Resolution
  out_of_fuel : Resolution

-- The first id that is in `candidate_by_id` already.
abbrev pub first_duplicate : List String → List Candidate → Option String
first_duplicate seen [] = none
first_duplicate seen (c ∷ cs) =
    let rest = first_duplicate (c.manifest.id ∷ seen) cs in
    if contains seen c.manifest.id then some c.manifest.id else rest

abbrev pub active_dependencies : List String → List Dependency → List String
active_dependencies active_ids [] = []
active_dependencies active_ids (d ∷ ds) =
    if contains active_ids d.id
    then d.id ∷ active_dependencies active_ids ds
    else active_dependencies active_ids ds

abbrev pub dependencies_in : List String → Option Candidate → List String
dependencies_in active_ids none = []
dependencies_in active_ids (some c) = active_dependencies active_ids (sorted_dependencies c)

-- `active_graph`, for the sorted ids
abbrev pub active_graph : List Candidate → List String → List String → Graph
active_graph cs active_ids [] = []
active_graph cs active_ids (id ∷ ids) =
    (id, dependencies_in active_ids (find_candidate cs id)) ∷ active_graph cs active_ids ids

-- The members of a cycle.
abbrev pub block_member : List String → String → Option Candidate → Resolving → Resolving
block_member cycle id none s = s
block_member cycle id (some c) s = record s {
  decisions_by_id =
      (
        id,
        refused_for "dependency_cycle" (append "dependency cycle detected: " (join_texts cycle)) c,
      )
      ∷ s.decisions_by_id;
}

abbrev pub block_members : List Candidate → List String → List String → Resolving → Resolving
block_members cs cycle [] s = s
block_members cs cycle (id ∷ ids) s =
    block_members cs cycle ids (block_member cycle id (find_candidate cs id) s)

abbrev pub cycle_diagnostic : List String → Diagnostic
cycle_diagnostic cycle = record {
  code = "dependency_cycle";
  message = append "dependency cycle detected: " (join_texts cycle);
  path = none;
  id = none;
}

abbrev pub block_cycles : List Candidate → List (List String) → Resolving → Resolving
block_cycles cs [] s = s
block_cycles cs (cycle ∷ cycles) s = block_cycles cs cycles (
    block_members cs cycle cycle
      (record s { diagnostics = s.diagnostics ++ cycle_diagnostic cycle ∷ [] }))

abbrev pub find_cycle : List (String × List String) → String → List String
find_cycle [] id = []
find_cycle ((x, cycle) ∷ rest) id = if x == id then cycle else find_cycle rest id

-- What depends on a cycle.
abbrev pub block_dependent : List String → String → Option Candidate → Resolving → Resolving
block_dependent cycle id none s = s
block_dependent cycle id (some c) s =
    let d =
      refused_for "dependency_cycle_dependent"
        (append "depends on blocked dependency cycle: " (join_texts cycle)) c in
    record s {
      decisions_by_id = (id, d) ∷ s.decisions_by_id;
      diagnostics = s.diagnostics ++ decision_diagnostic d ∷ [];
    }

abbrev pub block_dependents :
    List Candidate → List String → List (String × List String) → List String → Resolving → Resolving
block_dependents cs cycle_members blocked [] s = s
block_dependents cs cycle_members blocked (id ∷ ids) s =
    block_dependents cs cycle_members blocked ids (
      if contains cycle_members id
      then s
      else block_dependent (find_cycle blocked id) id (find_candidate cs id) s)

abbrev pub only : List String → List String → List String
only active_ids [] = []
only active_ids (x ∷ xs) =
    if contains active_ids x then x ∷ only active_ids xs else only active_ids xs

-- The graph of what is still active.
abbrev pub restrict : List String → Graph → Graph
restrict active_ids [] = []
restrict active_ids ((id, ds) ∷ g) =
    if contains active_ids id
    then (id, only active_ids ds) ∷ restrict active_ids g
    else restrict active_ids g

-- `active_ids.difference_update(blocked_ids)`
abbrev pub unblocked : List (List String) → List (String × List String) → List String → List String
unblocked cycles blocked active_ids = difference active_ids (members cycles ++ keys blocked)

-- What is done where there are cycles.
abbrev pub block : List Candidate → Graph → List (List String) → Resolving → Resolving × Graph
block cs g cycles s =
    let blocked = collect_cycle_dependents g cycles in
    let active_ids = unblocked cycles blocked s.active_ids in
    let t =
      block_dependents cs (members cycles) blocked (sort (keys blocked))
        (block_cycles cs cycles s) in
    (record t { active_ids = active_ids }, restrict active_ids g)

abbrev pub without_cycles :
    List Candidate → Graph → List (List String) → Resolving → Resolving × Graph
without_cycles cs g cycles s = if has_items cycles then block cs g cycles s else (s, g)

abbrev pub with_candidate : Option Candidate → List Candidate → List Candidate
with_candidate none cs = cs
with_candidate (some c) cs = c ∷ cs

-- `candidate_by_id[extension_id]` for each
abbrev pub candidates_of : List Candidate → List String → List Candidate
candidates_of cs [] = []
candidates_of cs (id ∷ ids) = with_candidate (find_candidate cs id) (candidates_of cs ids)

abbrev pub with_decision :
    Option ResolutionDecision → List ResolutionDecision → List ResolutionDecision
with_decision none ds = ds
with_decision (some d) ds = d ∷ ds

abbrev pub decisions_of : Resolving → List Candidate → List ResolutionDecision
decisions_of s [] = []
decisions_of s (c ∷ cs) =
    with_decision (find_decision s.decisions_by_id c.manifest.id) (decisions_of s cs)

abbrev pub planned : List Candidate → Resolving → Option (List String) → Resolution
planned cs s none = not_acyclic
planned cs s (some ordered_ids) = resolved (record {
  ordered_candidates = candidates_of cs ordered_ids;
  decisions = decisions_of s cs;
  diagnostics = s.diagnostics;
})

abbrev pub resolve_cycles :
    List Candidate → Graph → Option (List (List String)) → Resolving → Resolution
resolve_cycles cs g none s = out_of_fuel
resolve_cycles cs g (some cycles) s =
    let (t, h) = without_cycles cs g cycles s in planned cs t (topological_order h)

abbrev pub resolve_unique : List Candidate → Resolving → Resolution
resolve_unique cs s =
    let g = active_graph cs s.active_ids (sort s.active_ids) in
    resolve_cycles cs g (find_cycles g) s

abbrev pub or_duplicate : Option String → Resolution → Resolution
or_duplicate none r = r
or_duplicate (some id) r = duplicate_id id

unfoldable pub resolve_extensions :
    TrustPolicy → List String → List ExtensionApproval → List Candidate → Resolution
resolve_extensions p enabled_ids approvals cs =
    or_duplicate (first_duplicate [] cs)
      (resolve_unique cs (resolve_dependencies p enabled_ids approvals cs))
