-- ===== src/Extensions/Dependencies.antt =====
-- The first half of `resolve_extensions` of tau_extensions/resolution.py: the first decision on each
-- candidate, and the `while True` loop that disables what depends on something that is not there.
pub mod Met
pub mod Rounds
pub mod Greatest
pub mod Resolved
use Prim.Native.String.{◌++◌ as append}
use tau_prime.Prelude.{
  ℕ, zero, suc, String, Bool, true, false, not, Option, none, some, List, [], ◌∷◌, ◌++◌, ◌==◌,
  contains, length, if◌then◌else◌, sort, sort_by, difference,
}
use tau_prime.Extensions.{
  VersionRange, SemVer, Dependency, Candidate, Diagnostic, ExtensionApproval, TrustPolicy,
  ResolutionDecision, contains_version, has_items, refused_for, initial_decision,
}

-- `candidate_by_id.get(extension_id)`: the ids are unique.
abbrev pub find_candidate : List Candidate → String → Option Candidate
find_candidate [] id = none
find_candidate (c ∷ cs) id = if c.manifest.id == id then some c else find_candidate cs id

-- `_sorted_dependencies`
abbrev pub sorted_dependencies : Candidate → List Dependency
sorted_dependencies c = sort_by (λ d. d.id) c.manifest.dependencies

-- A code and a reason.
abbrev pub Problem : Type 0
Problem = String × String

abbrev pub version_problem : String → Option VersionRange → SemVer → Option Problem
version_problem id none found = none
version_problem id (some range) found =
    if contains_version range found
    then none
    else some (
      "dependency_version_mismatch",
      append "dependency version mismatch for "
          (append id (append ": requires " (append range.text (append ", found " found.text)))),
    )

abbrev pub problem_with : List String → Dependency → Option Candidate → Option Problem
problem_with active_ids d none = some ("missing_dependency", append "missing dependency: " d.id)
problem_with active_ids d (some c) =
    if not (contains active_ids d.id)
    then some ("disabled_dependency", append "dependency is not enabled: " d.id)
    else version_problem d.id d.version c.manifest.version

abbrev pub or_else {ℓ} : {A : Type ℓ} → Option A → Option A → Option A
or_else (some a) o = some a
or_else none o = o

abbrev pub first_problem : List Candidate → List String → List Dependency → Option Problem
first_problem cs active_ids [] = none
first_problem cs active_ids (d ∷ ds) =
    or_else (problem_with active_ids d (find_candidate cs d.id)) (first_problem cs active_ids ds)

-- `_dependency_problem`
unfoldable pub dependency_problem : List Candidate → List String → Candidate → Option Problem
dependency_problem cs active_ids c = first_problem cs active_ids (sorted_dependencies c)

-- `_decision_diagnostic`
abbrev pub decision_diagnostic : ResolutionDecision → Diagnostic
decision_diagnostic d = record {
  code = d.code;
  message = d.reason;
  path = some d.candidate.manifest_path;
  id = some d.candidate.manifest.id;
}

-- `decisions_by_id[extension_id]`, the latest first
abbrev pub find_decision : List (String × ResolutionDecision) → String → Option ResolutionDecision
find_decision [] id = none
find_decision ((key, d) ∷ rest) id = if key == id then some d else find_decision rest id

-- The variables of `resolve_extensions` while it decides. `disabled_ids` is of one round.
pub record Resolving : Type 0 where
  pub decisions_by_id : List (String × ResolutionDecision)
  pub diagnostics : List Diagnostic
  pub active_ids : List String
  pub disabled_ids : List String

abbrev pub nothing_decided : Resolving
nothing_decided = record {
  decisions_by_id = [];
  diagnostics = [];
  active_ids = [];
  disabled_ids = [];
}

-- One candidate of the first loop.
abbrev pub recorded : Candidate → ResolutionDecision → Resolving → Resolving
recorded c d s = record s {
  decisions_by_id = (c.manifest.id, d) ∷ s.decisions_by_id;
  diagnostics = if d.enabled then s.diagnostics else s.diagnostics ++ decision_diagnostic d ∷ [];
  active_ids = if d.enabled then s.active_ids ++ c.manifest.id ∷ [] else s.active_ids;
}

abbrev pub decide_all :
    TrustPolicy → List String → List ExtensionApproval → List Candidate → Resolving → Resolving
decide_all p enabled_ids approvals [] s = s
decide_all p enabled_ids approvals (c ∷ cs) s =
    decide_all p enabled_ids approvals cs
      (recorded c (initial_decision p enabled_ids approvals c) s)

-- One extension of a round.
abbrev pub disable : String → Candidate → Option Problem → Resolving → Resolving
disable id c none s = s
disable id c (some (code, reason)) s = record s {
  decisions_by_id = (id, refused_for code reason c) ∷ s.decisions_by_id;
  diagnostics = s.diagnostics ++ decision_diagnostic (refused_for code reason c) ∷ [];
  disabled_ids = s.disabled_ids ++ id ∷ [];
}

-- An active id is that of a candidate, so that `candidate_by_id[extension_id]` never fails.
abbrev pub check : List Candidate → String → Option Candidate → Resolving → Resolving
check cs id none s = s
check cs id (some c) s = disable id c (dependency_problem cs s.active_ids c) s

abbrev pub check_all : List Candidate → List String → Resolving → Resolving
check_all cs [] s = s
check_all cs (id ∷ ids) s = check_all cs ids (check cs id (find_candidate cs id) s)

unfoldable pub round : List Candidate → Resolving → Resolving
round cs s = check_all cs (sort s.active_ids) (record s { disabled_ids = [] })

-- `active_ids.difference_update(disabled_ids)`
abbrev pub updated : Resolving → Resolving
updated s = record s { active_ids = difference s.active_ids s.disabled_ids }

-- The `while True` loop; a round that disables something leaves fewer extensions active.
unfoldable pub prune : ℕ → List Candidate → Resolving → Resolving
prune zero cs s = s
prune (suc fuel) cs s =
    let t = round cs s in
    let rest = prune fuel cs (updated t) in if has_items t.disabled_ids then rest else t

-- `resolve_extensions` up to where it looks for cycles, for candidates with unique ids.
unfoldable pub resolve_dependencies :
    TrustPolicy → List String → List ExtensionApproval → List Candidate → Resolving
unfolding prune
resolve_dependencies p enabled_ids approvals cs =
    let s = decide_all p enabled_ids approvals cs nothing_decided in
    prune (suc (length s.active_ids)) cs s
