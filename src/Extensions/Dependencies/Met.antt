-- ===== src/Extensions/Dependencies/Met.antt =====
-- `_dependency_problem` of tau_extensions/resolution.py and `VersionRange.contains` of
-- tau_extensions/manifest.py against what they mean: a dependency is met.
use tau_prime.Prelude.{
  ℕ, ◌≤◌, ◌<◌, String, true, Option, none, some, List, [], ◌∷◌, ◌≡◌, ◌⊎◌, inl, inr, refl, arith,
  contains, All, All-sort_by, All-unsort_by, Bool-cases, Option-cases, ltb,
}
use tau_prime.Extensions.{
  SemVer, RangeKind, exact, caret, VersionRange, Dependency, Candidate, contains_version,
  contains_minor,
}
use tau_prime.Extensions.Dependencies.{
  find_candidate, sorted_dependencies, version_problem, problem_with, first_problem,
  dependency_problem,
}

-- A version is in a range: just that one, as far as it is given, or one of the same major that is
-- not before it.
abbrev pub Includes : RangeKind → ℕ → Option ℕ → SemVer → Type 0
Includes exact minor none v = v.minor ≡ minor
Includes exact minor (some patch) v = (v.minor ≡ minor) × (v.patch ≡ patch)
Includes caret minor none v = minor ≤ v.minor
Includes caret minor (some patch) v = (minor < v.minor) ⊎ ((v.minor ≡ minor) × (patch ≤ v.patch))

abbrev pub Fits : Option VersionRange → SemVer → Type 0
Fits none v = Unit
Fits (some r) v = (v.major ≡ r.major) × Includes r.kind r.minor r.patch v

contains_minor-Includes :
    (kind : RangeKind) (minor : ℕ) (patch : Option ℕ) (v : SemVer)
    → contains_minor kind minor patch v ≡ true
    → Includes kind minor patch v
contains_minor-Includes exact minor none v h = ground arith
contains_minor-Includes exact minor (some patch) v h = (ground arith, ground arith)
contains_minor-Includes caret minor none v h = ground arith
contains_minor-Includes caret minor (some patch) v h = elim (Bool-cases (ltb minor v.minor)) [
  | inl e ↦ inl (ground arith)
  | inr e ↦ inr (ground arith, ground arith)
]

Includes-contains_minor :
    (kind : RangeKind) (minor : ℕ) (patch : Option ℕ) (v : SemVer)
    → Includes kind minor patch v
    → contains_minor kind minor patch v ≡ true
Includes-contains_minor exact minor none v h = ground arith
Includes-contains_minor exact minor (some patch) v h = ground arith
Includes-contains_minor caret minor none v h = ground arith
Includes-contains_minor caret minor (some patch) v (inl h) = ground arith
Includes-contains_minor caret minor (some patch) v (inr h) = ground arith

-- A candidate is there for a dependency, is active and has a version that fits.
pub record IsMet (cs : List Candidate) (active_ids : List String) (d : Dependency) : Type 0 where
  pub candidate : Candidate
  pub found : find_candidate cs d.id ≡ some candidate
  pub active : contains active_ids d.id ≡ true
  pub fits : Fits d.version candidate.manifest.version

abbrev pub AllMet : List Candidate → List String → Candidate → Type 0
AllMet cs active_ids c = All (IsMet cs active_ids) c.manifest.dependencies

version_problem-Fits :
    (id : String) (o : Option VersionRange) (v : SemVer) → version_problem id o v ≡ none → Fits o v
unfolding contains_version
version_problem-Fits id none v h = tt
version_problem-Fits id (some r) v h =
    (ground arith, contains_minor-Includes r.kind r.minor r.patch v (ground arith))

Fits-version_problem :
    (id : String) (o : Option VersionRange) (v : SemVer) → Fits o v → version_problem id o v ≡ none
unfolding contains_version
Fits-version_problem id none v h = refl
Fits-version_problem id (some r) v h =
    ground (arith, Includes-contains_minor r.kind r.minor r.patch v h.1)

problem_with-IsMet :
    (cs : List Candidate) (active_ids : List String) (d : Dependency)
    → problem_with active_ids d (find_candidate cs d.id) ≡ none
    → IsMet cs active_ids d
problem_with-IsMet cs active_ids d h = elim (Option-cases (find_candidate cs d.id)) [
  | inl e ↦ absurd (cc (rw e at h))
  | inr (c, e) ↦
      let k : (problem_with active_ids d (some c) ≡ none) = rw e at h in
      let on : (contains active_ids d.id ≡ true) = ground arith in
      record {
        candidate = c;
        found = e;
        active = on;
        fits = version_problem-Fits d.id d.version c.manifest.version (ground arith);
      }
]

IsMet-problem_with :
    (cs : List Candidate) (active_ids : List String) (d : Dependency)
    → IsMet cs active_ids d
    → problem_with active_ids d (find_candidate cs d.id) ≡ none
IsMet-problem_with cs active_ids d m =
    rw m.found
      (rw m.active (Fits-version_problem d.id d.version m.candidate.manifest.version m.fits))

first_problem-IsMet :
    (cs : List Candidate) (active_ids : List String) (ds : List Dependency)
    → first_problem cs active_ids ds ≡ none
    → All (IsMet cs active_ids) ds
first_problem-IsMet cs active_ids [] h = tt
first_problem-IsMet cs active_ids (d ∷ ds) h =
    elim (Option-cases (problem_with active_ids d (find_candidate cs d.id))) [
      | inl e ↦
          (problem_with-IsMet cs active_ids d e, first_problem-IsMet cs active_ids ds (rw e at h))
      | inr (p, e) ↦ absurd (cc (rw e at h))
    ]

IsMet-first_problem :
    (cs : List Candidate) (active_ids : List String) (ds : List Dependency)
    → All (IsMet cs active_ids) ds
    → first_problem cs active_ids ds ≡ none
IsMet-first_problem cs active_ids [] m = refl
IsMet-first_problem cs active_ids (d ∷ ds) m =
    rw (IsMet-problem_with cs active_ids d m.0) (IsMet-first_problem cs active_ids ds m.1)

-- There is no problem exactly where every dependency is met.
pub dependency_problem-AllMet :
    (cs : List Candidate) (active_ids : List String) (c : Candidate)
    → dependency_problem cs active_ids c ≡ none
    → AllMet cs active_ids c
unfolding dependency_problem
dependency_problem-AllMet cs active_ids c h =
    All-unsort_by (λ d. d.id) (IsMet cs active_ids) c.manifest.dependencies
      (first_problem-IsMet cs active_ids (sorted_dependencies c) h)

pub AllMet-dependency_problem :
    (cs : List Candidate) (active_ids : List String) (c : Candidate)
    → AllMet cs active_ids c
    → dependency_problem cs active_ids c ≡ none
unfolding dependency_problem
AllMet-dependency_problem cs active_ids c m =
    IsMet-first_problem cs active_ids (sorted_dependencies c)
      (All-sort_by (λ d. d.id) (IsMet cs active_ids) c.manifest.dependencies m)

-- More active extensions meet more.
pub AllMet-more :
    (cs : List Candidate) (some_ids more_ids : List String) (ds : List Dependency)
    → ((x : String) → contains some_ids x ≡ true → contains more_ids x ≡ true)
    → All (IsMet cs some_ids) ds
    → All (IsMet cs more_ids) ds
AllMet-more cs some_ids more_ids [] more m = tt
AllMet-more cs some_ids more_ids (d ∷ ds) more m = (
  record {
    candidate = m.0.candidate;
    found = m.0.found;
    active = more d.id m.0.active;
    fits = m.0.fits;
  },
  AllMet-more cs some_ids more_ids ds more m.1,
)
