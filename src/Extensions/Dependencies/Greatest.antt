-- ===== src/Extensions/Dependencies/Greatest.antt =====
-- On the `while True` loop of `resolve_extensions` in tau_extensions/resolution.py.
use tau_prime.Prelude.{
  ℕ, zero, suc, ◌<◌, String, true, false, some, List, [], ◌∷◌, ◌≡◌, inl, inr, refl, ap, ◌∙◌, arith,
  contains, eq_refl, contains-difference, sort, length, length-difference_lt, Bool-cases,
  Option-cases,
}
use tau_prime.Extensions.{Candidate, ResolutionDecision, has_items}
use tau_prime.Extensions.Dependencies.{
  find_candidate, dependency_problem, find_decision, Resolving, round, updated, prune,
}
use tau_prime.Extensions.Dependencies.Met.{
  AllMet, AllMet-more, dependency_problem-AllMet, AllMet-dependency_problem,
}
use tau_prime.Extensions.Dependencies.Rounds.{
  is_problem, has_problem, AllDecided, check_all-AllDecided, active-round, disabled-round,
  cleared-AllDecided,
}

module _ (cs : List Candidate) where
  -- Every dependency of every extension among the ids is met by those among the ids.
  abbrev pub IsClosed : List String → Type 0
  IsClosed ids =
      (x : String) (c : Candidate)
      → contains ids x ≡ true
      → find_candidate cs x ≡ some c
      → AllMet cs ids c

  -- The ids are the most that can be kept of those that are chosen.
  pub record IsGreatest (Chosen : String → Type 0) (ids : List String) : Type 0 where
    pub within : (x : String) → contains ids x ≡ true → Chosen x
    pub closed : IsClosed ids
    pub greatest :
        (others : List String)
        → IsClosed others
        → ((x : String) → contains others x ≡ true → Chosen x)
        → (x : String) → contains others x ≡ true
        → contains ids x ≡ true

  -- The decision on a candidate, at the end of the loop.
  pub record IsConcluded (s : Resolving) (x : String) (c : Candidate) : Type 0 where
    pub decision : ResolutionDecision
    pub found : find_decision s.decisions_by_id x ≡ some decision
    pub about : decision.candidate ≡ c
    pub says : decision.enabled ≡ contains s.active_ids x

  abbrev pub AllConcluded : Resolving → Type 0
  AllConcluded s = (x : String) (c : Candidate) → find_candidate cs x ≡ some c → IsConcluded s x c

  no_problem-AllMet :
      (ids : List String) (x : String) (c : Candidate)
      → has_problem cs ids x ≡ false
      → find_candidate cs x ≡ some c
      → AllMet cs ids c
  no_problem-AllMet ids x c h found =
      let k : (is_problem (dependency_problem cs ids c) ≡ false) = rw found at h in
      dependency_problem-AllMet cs ids c (elim (Option-cases (dependency_problem cs ids c)) [
        | inl e ↦ e
        | inr (p, e) ↦ absurd (cc (rw e at k))
      ])

  AllMet-no_problem :
      (ids : List String) (x : String)
      → ((c : Candidate) → find_candidate cs x ≡ some c → AllMet cs ids c)
      → has_problem cs ids x ≡ false
  AllMet-no_problem ids x h = elim (Option-cases (find_candidate cs x)) [
    | inl e ↦ rw e refl
    | inr (c, e) ↦ rw e (rw (AllMet-dependency_problem cs ids c (h c e)) refl)
  ]

  no_items-contains :
      (xs : List String) → has_items xs ≡ false → (x : String) → contains xs x ≡ false
  no_items-contains [] h x = refl
  no_items-contains (y ∷ ys) h x = cc

  -- A round that disables nothing.
  last-IsGreatest :
      (s : Resolving)
      → has_items (round cs s).disabled_ids ≡ false
      → IsGreatest (λ x. contains s.active_ids x ≡ true) (round cs s).active_ids
  last-IsGreatest s h = rw (active-round cs s) (record {
    within = λ x k. k;
    closed = λ x c k found.
        no_problem-AllMet s.active_ids x c
          (ground (arith, disabled-round cs s x, no_items-contains (round cs s).disabled_ids h x))
          found;
    greatest = λ others closed inside x k. inside x k;
  })

  -- What a closed set holds, a round leaves.
  round-keeps :
      (s : Resolving) (others : List String)
      → IsClosed others
      → ((x : String) → contains others x ≡ true → contains s.active_ids x ≡ true)
      → (x : String) → contains others x ≡ true
      → contains (updated (round cs s)).active_ids x ≡ true
  round-keeps s others closed inside x k =
      let fine = AllMet-no_problem s.active_ids x (λ c found.
        AllMet-more cs others s.active_ids c.manifest.dependencies inside (closed x c k found)) in
      contains-difference (round cs s).active_ids (round cs s).disabled_ids x
      ∙ ground (
        arith,
        inside x k,
        fine,
        disabled-round cs s x,
        ap (λ a. contains a x) (active-round cs s),
      )

  later-IsGreatest :
      (s : Resolving) (ids : List String)
      → IsGreatest (λ x. contains (updated (round cs s)).active_ids x ≡ true) ids
      → IsGreatest (λ x. contains s.active_ids x ≡ true) ids
  later-IsGreatest s ids g = record {
    within = λ x k. ground (
      arith,
      g.within x k,
      contains-difference (round cs s).active_ids (round cs s).disabled_ids x,
      ap (λ a. contains a x) (active-round cs s),
    );
    closed = g.closed;
    greatest = λ others closed inside x k.
        g.greatest others closed (round-keeps s others closed inside) x k;
  }

  -- A round that disables something leaves fewer.
  first_item : (xs : List String) → has_items xs ≡ true → (x : String) × (contains xs x ≡ true)
  first_item [] h = cc
  first_item (x ∷ xs) h = (x, ground (arith, eq_refl x))

  fewer-round :
      (s : Resolving)
      → has_items (round cs s).disabled_ids ≡ true
      → length (updated (round cs s)).active_ids < length s.active_ids
  fewer-round s h =
      let (x, k) = first_item (round cs s).disabled_ids h in
      let on : (contains (round cs s).active_ids x ≡ true) =
        ap (λ a. contains a x) (active-round cs s) ∙ ground (arith, disabled-round cs s x) in
      omega (
        arith,
        length-difference_lt (round cs s).active_ids (round cs s).disabled_ids x on k,
        ap length (active-round cs s),
      )

  round-AllDecided :
      (s : Resolving) → AllDecided cs (record s { disabled_ids = [] }) → AllDecided cs (round cs s)
  unfolding round
  round-AllDecided s all =
      check_all-AllDecided cs (sort s.active_ids) (record s { disabled_ids = [] }) all

  last-AllConcluded :
      (s : Resolving) → has_items s.disabled_ids ≡ false → AllDecided cs s → AllConcluded s
  last-AllConcluded s h all x c found =
      let d = all x c found in
      record {
        decision = d.decision;
        found = d.found;
        about = d.about;
        says = ground (arith, d.says, no_items-contains s.disabled_ids h x);
      }

  pub prune-IsGreatest :
      (fuel : ℕ) (s : Resolving)
      → length s.active_ids < fuel
      → AllDecided cs (record s { disabled_ids = [] })
      → IsGreatest (λ x. contains s.active_ids x ≡ true) (prune fuel cs s).active_ids
        × AllConcluded (prune fuel cs s)
  unfolding prune
  prune-IsGreatest zero s h all = absurd (omega arith)
  prune-IsGreatest (suc fuel) s h all = elim (Bool-cases (has_items (round cs s).disabled_ids)) [
    | inl e ↦
        let rest =
          prune-IsGreatest fuel (updated (round cs s)) (omega (arith, fewer-round s e))
            (cleared-AllDecided cs (round cs s) (round-AllDecided s all)) in
        rw e (later-IsGreatest s (prune fuel cs (updated (round cs s))).active_ids rest.0, rest.1)
    | inr e ↦ rw e (last-IsGreatest s e, last-AllConcluded (round cs s) e (round-AllDecided s all))
  ]
