-- ===== src/Extensions/Examples.antt =====
-- The theorems on tau_extensions/resolution.py at concrete extensions, and tests.
use tau_prime.Prelude.{
  String, true, Option, none, some, List, [], ◌∷◌, ◌≡◌, ◌↔◌, refl, arith, contains,
}
use tau_prime.Extensions.{
  ExtensionSource, built_in, workspace, SemVer, VersionRange, caret, Dependency, Candidate,
  ExtensionApproval, TrustPolicy, trust_policy, initial_decision, contains_version,
}
use tau_prime.Extensions.Trust.{IsTrusted, initial_decision-IsTrusted}
use tau_prime.Extensions.Dependencies.{prune, round, dependency_problem, resolve_dependencies}
use tau_prime.Extensions.Dependencies.Greatest.{IsGreatest, AllConcluded}
use tau_prime.Extensions.Dependencies.Resolved.{IsChosen, resolve_dependencies-IsGreatest}
use tau_prime.Extensions.Dependencies.Resolved.{ids_of}
use tau_prime.Extensions.Cycles.Found.{find_cycles-AreApart}
use tau_prime.Extensions.Cycles.Groups.{AreApart}
use tau_prime.Extensions.Cycles.{find_cycles, search, collect_cycle_dependents}
use tau_prime.Extensions.Resolution.{Resolution, resolved, resolve_extensions}
use tau_prime.Extensions.Resolution.Plans.{IsSafe, resolve_extensions-IsSafe}
use tau_prime.Extensions.Ordering.{
  Graph, nodes, dependencies_of, place, place_all, topological_order,
}
use tau_prime.Extensions.Ordering.Justified.{IsJustified, topological_order-IsJustified}

abbrev version_1_2 : SemVer
version_1_2 = record { major = 1; minor = 2; patch = 0; text = "1.2.0" }

abbrev from_1_3 : VersionRange
from_1_3 = record { kind = caret; major = 1; minor = 3; patch = none; text = "^1.3" }

abbrev extension : String → ExtensionSource → List String → List Dependency → Candidate
extension id source permissions dependencies = record {
  manifest = record {
    id = id;
    version = version_1_2;
    dependencies = dependencies;
    permissions = permissions;
  };
  manifest_path = "tau-extension.json";
  source = source;
  fingerprint = "f1";
}

abbrev base : Candidate
base = extension "base" built_in ("storage" ∷ []) []

-- It wants a newer base.
abbrev board : Candidate
board =
    extension "board" workspace ("views" ∷ [])
      (record { id = "base"; version = some from_1_3 } ∷ [])

abbrev panel : Candidate
panel = extension "panel" workspace ("views" ∷ []) (record { id = "board"; version = none } ∷ [])

abbrev approvals : List ExtensionApproval
approvals =
    record { extension_id = "board"; fingerprint = "f1" }
    ∷ record { extension_id = "panel"; fingerprint = "f1" }
    ∷ []

abbrev given : ExtensionSource → Option (List String)
given source = none

abbrev policy : TrustPolicy
unfolding trust_policy
policy = trust_policy [] given

abbrev all : List Candidate
all = base ∷ board ∷ panel ∷ []

-- The panel goes with the board that it depends on.
active_test :
    (resolve_dependencies policy ("board" ∷ "panel" ∷ []) approvals all).active_ids ≡ "base" ∷ []
unfolding resolve_dependencies trust_policy initial_decision prune round dependency_problem
    contains_version
active_test = refl

abbrev chain : Graph
chain = ("app", "lib" ∷ "ui" ∷ []) ∷ ("lib", []) ∷ ("ui", "lib" ∷ []) ∷ []

order_test : topological_order chain ≡ some ("lib" ∷ "ui" ∷ "app" ∷ [])
unfolding topological_order place place_all
order_test = refl

circle_test : topological_order (("a", "b" ∷ []) ∷ ("b", "a" ∷ []) ∷ []) ≡ none
unfolding topological_order place place_all
circle_test = refl

initial_decision-IsTrusted_example :
    ((initial_decision (trust_policy [] given) ("board" ∷ []) approvals board).enabled ≡ true)
    ↔ IsTrusted [] given ("board" ∷ []) approvals board
initial_decision-IsTrusted_example =
    initial_decision-IsTrusted [] given ("board" ∷ []) approvals board

resolve_dependencies-IsGreatest_example :
    IsGreatest all
      (IsChosen policy ("board" ∷ "panel" ∷ []) approvals all)
      (resolve_dependencies policy ("board" ∷ "panel" ∷ []) approvals all).active_ids
    × AllConcluded all (resolve_dependencies policy ("board" ∷ "panel" ∷ []) approvals all)
resolve_dependencies-IsGreatest_example =
    resolve_dependencies-IsGreatest policy ("board" ∷ "panel" ∷ []) approvals all
      (refl, (refl, (refl, tt)))

chain_whole :
    (x d : String) → contains (dependencies_of chain x) d ≡ true → contains (nodes chain) d ≡ true
chain_whole x d h = ground arith

topological_order-IsJustified_example : IsJustified chain (topological_order chain)
topological_order-IsJustified_example =
    topological_order-IsJustified chain (refl, (refl, (refl, tt))) chain_whole

abbrev needs : String → Dependency
needs id = record { id = id; version = none }

-- Two built-in extensions that depend on each other, one that depends on them, and two others.
abbrev knotted : List Candidate
knotted =
    extension "top" built_in [] (needs "base" ∷ [])
    ∷ extension "left" built_in [] (needs "right" ∷ [])
    ∷ extension "right" built_in [] (needs "left" ∷ [])
    ∷ extension "user" built_in [] (needs "left" ∷ [])
    ∷ base
    ∷ []

abbrev knot : Graph
knot = ("left", "right" ∷ []) ∷ ("right", "left" ∷ []) ∷ ("user", "left" ∷ []) ∷ []

knot_whole :
    (x d : String) → contains (dependencies_of knot x) d ≡ true → contains (nodes knot) d ≡ true
knot_whole x d h = ground arith

cycles_test : find_cycles knot ≡ some (("left" ∷ "right" ∷ []) ∷ [])
unfolding find_cycles
cycles_test = refl

abbrev ordered_ids : Resolution → List String
ordered_ids (resolved plan) = ids_of plan.ordered_candidates
ordered_ids r = []

knotted_test : ordered_ids (resolve_extensions policy [] [] knotted) ≡ "base" ∷ "top" ∷ []
unfolding resolve_extensions resolve_dependencies trust_policy initial_decision prune round
    dependency_problem contains_version find_cycles collect_cycle_dependents search
    topological_order place place_all
knotted_test = refl

resolve_extensions-IsSafe_example :
    IsSafe policy [] [] knotted (resolve_extensions policy [] [] knotted)
resolve_extensions-IsSafe_example = resolve_extensions-IsSafe policy [] [] knotted

find_cycles-AreApart_example :
    (cycles : List (List String)) × (find_cycles knot ≡ some cycles) × AreApart knot cycles
find_cycles-AreApart_example = find_cycles-AreApart knot knot_whole
