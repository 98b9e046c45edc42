-- ===== src/Extensions/Dependencies/Resolved.antt =====
-- The decisions of `resolve_extensions` in tau_extensions/resolution.py before it looks for cycles:
-- the first ones, and what the loop leaves of them.
use tau_prime.Prelude.{
  suc, String, Bool, true, false, ◌||◌, Option, none, some, List, [], ◌∷◌, ◌==◌, ◌≡◌, inl, inr,
  refl, ap, sym, ◌∙◌, arith, contains, contains-append, Distinct, eq_iff, length, Bool-cases,
  Option-cases,
}
use tau_prime.Extensions.{
  Candidate, ExtensionApproval, TrustPolicy, ResolutionDecision, ExtensionSource, built_in, admin,
  workspace, enabled_by, initial_decision,
}
use tau_prime.Extensions.Dependencies.{
  find_candidate, find_decision, Resolving, nothing_decided, recorded, decide_all,
  resolve_dependencies,
}
use tau_prime.Extensions.Dependencies.Rounds.{AllDecided}
use tau_prime.Extensions.Dependencies.Greatest.{IsGreatest, AllConcluded, prune-IsGreatest}

abbrev pub ids_of : List Candidate → List String
ids_of [] = []
ids_of (c ∷ cs) = c.manifest.id ∷ ids_of cs

absent-find_candidate :
    (cs : List Candidate) (x : String) → contains (ids_of cs) x ≡ false → find_candidate cs x ≡ none
absent-find_candidate [] x h = refl
absent-find_candidate (c ∷ cs) x h = ground (arith, absent-find_candidate cs x)

candidate-enabled_by :
    (source : ExtensionSource) (c : Candidate) → (enabled_by source c).candidate ≡ c
candidate-enabled_by built_in c = refl
candidate-enabled_by admin c = refl
candidate-enabled_by workspace c = refl

module _ (p : TrustPolicy) (enabled_ids : List String) (approvals : List ExtensionApproval) where
  candidate-initial_decision :
      (c : Candidate) → (initial_decision p enabled_ids approvals c).candidate ≡ c
  unfolding initial_decision
  candidate-initial_decision c = ground (arith, candidate-enabled_by c.source c)

  -- The first decision on the candidate that is found under an id.
  abbrev decided_first : Option Candidate → Option ResolutionDecision → Option ResolutionDecision
  decided_first none d = d
  decided_first (some c) d = some (initial_decision p enabled_ids approvals c)

  abbrev enabled_first : Option Candidate → Bool
  enabled_first none = false
  enabled_first (some c) = (initial_decision p enabled_ids approvals c).enabled

  find_decision-decide_all :
      (cs : List Candidate) (s : Resolving) (x : String)
      → Distinct (ids_of cs)
      → find_decision (decide_all p enabled_ids approvals cs s).decisions_by_id x
        ≡ decided_first (find_candidate cs x) (find_decision s.decisions_by_id x)
  find_decision-decide_all [] s x d = refl
  find_decision-decide_all (c ∷ cs) s x d =
      find_decision-decide_all cs (recorded c (initial_decision p enabled_ids approvals c) s) x d.1
      ∙ elim (Bool-cases (c.manifest.id == x)) [
        | inl e ↦
            let here = ap (contains (ids_of cs)) (sym ((eq_iff c.manifest.id x).0 e)) ∙ d.0 in
            rw e (rw (absent-find_candidate cs x here) refl)
        | inr e ↦ rw e refl
      ]

  active-decide_all :
      (cs : List Candidate) (s : Resolving) (x : String)
      → Distinct (ids_of cs)
      → contains (decide_all p enabled_ids approvals cs s).active_ids x
        ≡ (contains s.active_ids x || enabled_first (find_candidate cs x))
  active-decide_all [] s x d = ground arith
  active-decide_all (c ∷ cs) s x d =
      active-decide_all cs (recorded c (initial_decision p enabled_ids approvals c) s) x d.1
      ∙ elim (Bool-cases (c.manifest.id == x)) [
        | inl e ↦
            let here = ap (contains (ids_of cs)) (sym ((eq_iff c.manifest.id x).0 e)) ∙ d.0 in
            rw e (
              rw (absent-find_candidate cs x here)
                (ground (arith, contains-append s.active_ids (c.manifest.id ∷ []) x)))
        | inr e ↦ rw e (ground (arith, contains-append s.active_ids (c.manifest.id ∷ []) x))
      ]

  -- An extension is enabled by its first decision.
  abbrev pub IsChosen : List Candidate → String → Type 0
  IsChosen cs x =
      (c : Candidate) × (find_candidate cs x ≡ some c)
      × ((initial_decision p enabled_ids approvals c).enabled ≡ true)

  module _ (cs : List Candidate) (distinct : Distinct (ids_of cs)) where
    active-IsChosen :
        (x : String)
        → contains (decide_all p enabled_ids approvals cs nothing_decided).active_ids x ≡ true
        → IsChosen cs x
    active-IsChosen x h =
        let k = sym (active-decide_all cs nothing_decided x distinct) ∙ h in
        elim (Option-cases (find_candidate cs x)) [
          | inl e ↦ absurd (cc (rw e at k))
          | inr (c, e) ↦ (c, e, rw e at k)
        ]

    IsChosen-active :
        (x : String)
        → IsChosen cs x
        → contains (decide_all p enabled_ids approvals cs nothing_decided).active_ids x ≡ true
    IsChosen-active x (c, e, on) = active-decide_all cs nothing_decided x distinct ∙ rw e on

    first-AllDecided :
        AllDecided cs
          (record (decide_all p enabled_ids approvals cs nothing_decided) { disabled_ids = [] })
    first-AllDecided x c e = record {
      decision = initial_decision p enabled_ids approvals c;
      found = find_decision-decide_all cs nothing_decided x distinct ∙ rw e refl;
      about = candidate-initial_decision c;
      says = ground (arith, active-decide_all cs nothing_decided x distinct, ap enabled_first e);
    }

    -- For candidates with distinct ids the loop over the dependencies ends by itself. What is active
    -- then is the greatest set of extensions that were enabled by their first decisions and whose
    -- dependencies are all in the set, in a version that fits; and the decision on each candidate
    -- says whether it is in the set.
    pub resolve_dependencies-IsGreatest :
        IsGreatest cs (IsChosen cs) (resolve_dependencies p enabled_ids approvals cs).active_ids
        × AllConcluded cs (resolve_dependencies p enabled_ids approvals cs)
    unfolding resolve_dependencies
    resolve_dependencies-IsGreatest =
        let s = decide_all p enabled_ids approvals cs nothing_decided in
        let (g, concluded) =
          prune-IsGreatest cs (suc (length s.active_ids)) s (omega arith) first-AllDecided in
        (
          record {
            within = λ x k. active-IsChosen x (g.within x k);
            closed = g.closed;
            greatest = λ others closed inside x k.
                g.greatest others closed (λ y l. IsChosen-active y (inside y l)) x k;
          },
          concluded,
        )
