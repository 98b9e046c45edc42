-- ===== src/Extensions/Dependencies/Rounds.antt =====
-- On one round of the `while True` loop of `resolve_extensions` in tau_extensions/resolution.py.
use tau_prime.Prelude.{
  String, Bool, true, false, not, ◌&&◌, ◌||◌, Option, none, some, List, [], ◌∷◌, ◌==◌, ◌≡◌, inl,
  inr, refl, ap, sym, ◌∙◌, arith, contains, contains-append, eq_iff, sort, contains-sort,
  contains-difference, Bool-cases,
}
use tau_prime.Extensions.{Candidate, ResolutionDecision, refused_for}
use tau_prime.Extensions.Dependencies.{
  find_candidate, Problem, dependency_problem, find_decision, Resolving, disable, check, check_all,
  round, updated,
}

abbrev pub is_problem : Option Problem → Bool
is_problem none = false
is_problem (some p) = true

abbrev pub problem_of : List Candidate → List String → Option Candidate → Option Problem
problem_of cs active_ids none = none
problem_of cs active_ids (some c) = dependency_problem cs active_ids c

-- The extension of the id has a problem.
abbrev pub has_problem : List Candidate → List String → String → Bool
has_problem cs active_ids id = is_problem (problem_of cs active_ids (find_candidate cs id))

some-injective : {A : Type 0} {a b : A} → some a ≡ some b → a ≡ b
some-injective e = cc

module _ (cs : List Candidate) where
  active-disable :
      (id : String) (c : Candidate) (p : Option Problem) (s : Resolving)
      → (disable id c p s).active_ids ≡ s.active_ids
  active-disable id c none s = refl
  active-disable id c (some p) s = refl

  active-check :
      (id : String) (o : Option Candidate) (s : Resolving)
      → (check cs id o s).active_ids ≡ s.active_ids
  active-check id none s = refl
  active-check id (some c) s = active-disable id c (dependency_problem cs s.active_ids c) s

  pub active-check_all :
      (ids : List String) (s : Resolving) → (check_all cs ids s).active_ids ≡ s.active_ids
  active-check_all [] s = refl
  active-check_all (id ∷ ids) s =
      active-check_all ids (check cs id (find_candidate cs id) s)
      ∙ active-check id (find_candidate cs id) s

  disabled-disable :
      (id : String) (c : Candidate) (p : Option Problem) (s : Resolving) (x : String)
      → contains (disable id c p s).disabled_ids x
        ≡ (contains s.disabled_ids x || ((id == x) && is_problem p))
  disabled-disable id c none s x = ground arith
  disabled-disable id c (some p) s x = ground (arith, contains-append s.disabled_ids (id ∷ []) x)

  disabled-check :
      (id : String) (o : Option Candidate) (s : Resolving) (x : String)
      → contains (check cs id o s).disabled_ids x
        ≡ (contains s.disabled_ids x || ((id == x) && is_problem (problem_of cs s.active_ids o)))
  disabled-check id none s x = ground arith
  disabled-check id (some c) s x = disabled-disable id c (dependency_problem cs s.active_ids c) s x

  pub disabled-check_all :
      (ids : List String) (s : Resolving) (x : String)
      → contains (check_all cs ids s).disabled_ids x
        ≡ (contains s.disabled_ids x || (contains ids x && has_problem cs s.active_ids x))
  disabled-check_all [] s x = ground arith
  disabled-check_all (id ∷ ids) s x =
      let first = disabled-check id (find_candidate cs id) s x in
      let rest = disabled-check_all ids (check cs id (find_candidate cs id) s) x in
      let same = ap (λ a. has_problem cs a x) (active-check id (find_candidate cs id) s) in
      elim (Bool-cases (id == x)) [
        | inl e ↦
            ground (arith, first, rest, same, ap (has_problem cs s.active_ids) ((eq_iff id x).0 e))
        | inr e ↦ ground (arith, first, rest, same)
      ]

  -- An extension goes on being active.
  abbrev pub stays : Resolving → String → Bool
  stays s x = contains s.active_ids x && not (contains s.disabled_ids x)

  -- There is a decision on the candidate, and it says whether it is active.
  pub record IsDecided (s : Resolving) (x : String) (c : Candidate) : Type 0 where
    pub decision : ResolutionDecision
    pub found : find_decision s.decisions_by_id x ≡ some decision
    pub about : decision.candidate ≡ c
    pub says : decision.enabled ≡ stays s x

  abbrev pub AllDecided : Resolving → Type 0
  AllDecided s = (x : String) (c : Candidate) → find_candidate cs x ≡ some c → IsDecided s x c

  disable-AllDecided :
      (id : String) (c : Candidate) (p : Option Problem) (s : Resolving)
      → find_candidate cs id ≡ some c
      → AllDecided s
      → AllDecided (disable id c p s)
  disable-AllDecided id c none s e all x b found = all x b found
  disable-AllDecided id c (some (code, reason)) s e all x b found =
      let old = all x b found in
      elim (Bool-cases (id == x)) [
        | inl same ↦ record {
          decision = refused_for code reason c;
          found = rw same refl;
          about = some-injective (sym e ∙ ap (find_candidate cs) ((eq_iff id x).0 same) ∙ found);
          says = ground (arith, contains-append s.disabled_ids (id ∷ []) x);
        }
        | inr other ↦ record {
          decision = old.decision;
          found = rw other old.found;
          about = old.about;
          says = ground (arith, old.says, contains-append s.disabled_ids (id ∷ []) x);
        }
      ]

  check-AllDecided :
      (id : String) (o : Option Candidate) (s : Resolving)
      → find_candidate cs id ≡ o
      → AllDecided s
      → AllDecided (check cs id o s)
  check-AllDecided id none s e all = all
  check-AllDecided id (some c) s e all =
      disable-AllDecided id c (dependency_problem cs s.active_ids c) s e all

  pub check_all-AllDecided :
      (ids : List String) (s : Resolving) → AllDecided s → AllDecided (check_all cs ids s)
  check_all-AllDecided [] s all = all
  check_all-AllDecided (id ∷ ids) s all =
      check_all-AllDecided ids (check cs id (find_candidate cs id) s)
        (check-AllDecided id (find_candidate cs id) s refl all)

  -- A round keeps the active ids.
  pub active-round : (s : Resolving) → (round cs s).active_ids ≡ s.active_ids
  unfolding round
  active-round s = active-check_all (sort s.active_ids) (record s { disabled_ids = [] })

  -- It disables the active extensions with a problem.
  pub disabled-round :
      (s : Resolving) (x : String)
      → contains (round cs s).disabled_ids x
        ≡ (contains s.active_ids x && has_problem cs s.active_ids x)
  unfolding round
  disabled-round s x =
      disabled-check_all (sort s.active_ids) (record s { disabled_ids = [] }) x
      ∙ ap (λ b. b && has_problem cs s.active_ids x) (contains-sort s.active_ids x)

  pub cleared-AllDecided :
      (s : Resolving) → AllDecided s → AllDecided (record (updated s) { disabled_ids = [] })
  cleared-AllDecided s all x c found =
      let old = all x c found in
      record {
        decision = old.decision;
        found = old.found;
        about = old.about;
        says = ground (arith, old.says, contains-difference s.active_ids s.disabled_ids x);
      }
