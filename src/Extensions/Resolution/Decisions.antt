-- ===== src/Extensions/Resolution/Decisions.antt =====
-- The decisions of `resolve_extensions` in tau_extensions/resolution.py, once what is blocked by a
-- cycle is disabled.
use tau_prime.Prelude.{
  String, Bool, true, false, not, ◌&&◌, ◌||◌, Option, none, some, List, [], ◌∷◌, ◌++◌, ◌==◌, ◌≡◌,
  inl, inr, refl, ap, sym, ◌∙◌, arith, contains, contains-append, contains-sort,
  contains-difference, Distinct, eq_iff, eq_refl, Bool-cases, All, sort,
}
use tau_prime.Extensions.{Candidate, ResolutionDecision, refused_for}
use tau_prime.Extensions.Dependencies.{find_candidate, find_decision, Resolving}
use tau_prime.Extensions.Dependencies.Greatest.{AllConcluded}
use tau_prime.Extensions.Dependencies.Resolved.{ids_of}
use tau_prime.Extensions.Ordering.{Graph}
use tau_prime.Extensions.Cycles.{keys, members, collect_cycle_dependents}
use tau_prime.Extensions.Resolution.{
  block_member, block_members, cycle_diagnostic, block_cycles, find_cycle, block_dependent,
  block_dependents, block, decisions_of,
}

some-injective : {A : Type 0} {a b : A} → some a ≡ some b → a ≡ b
some-injective e = cc

module _ (cs : List Candidate) where
  -- The decision on a candidate, where some of those that are active are off.
  pub record IsSettled (s : Resolving) (off : String → Bool) (x : String) (c : Candidate)
      : Type 0 where
    pub decision : ResolutionDecision
    pub found : find_decision s.decisions_by_id x ≡ some decision
    pub about : decision.candidate ≡ c
    pub says : decision.enabled ≡ (contains s.active_ids x && not (off x))

  abbrev pub AllSettled : Resolving → (String → Bool) → Type 0
  AllSettled s off =
      (x : String) (c : Candidate) → find_candidate cs x ≡ some c → IsSettled s off x c

  -- Another test for what is off.
  settled_as :
      (s : Resolving) (off now : String → Bool)
      → ((x : String) → off x ≡ now x)
      → AllSettled s off
      → AllSettled s now
  settled_as s off now same all x c found =
      let old = all x c found in
      record {
        decision = old.decision;
        found = old.found;
        about = old.about;
        says = old.says ∙ ap (λ b. contains s.active_ids x && not b) (same x);
      }

  -- A candidate that is refused is off.
  refused-AllSettled :
      (s : Resolving) (off : String → Bool) (id code reason : String) (c : Candidate)
      → find_candidate cs id ≡ some c
      → AllSettled s off
      → AllSettled
          (record s { decisions_by_id = (id, refused_for code reason c) ∷ s.decisions_by_id })
          (λ x. off x || (id == x))
  refused-AllSettled s off id code reason c e all x b found =
      let old = all x b found in
      elim (Bool-cases (id == x)) [
        | inl same ↦ record {
          decision = refused_for code reason c;
          found = rw same refl;
          about = some-injective (sym e ∙ ap (find_candidate cs) ((eq_iff id x).0 same) ∙ found);
          says = ground arith;
        }
        | inr other ↦ record {
          decision = old.decision;
          found = rw other old.found;
          about = old.about;
          says = ground (arith, old.says);
        }
      ]

  -- Where there is no candidate, no decision changes.
  absent-AllSettled :
      (s : Resolving) (off : String → Bool) (id : String)
      → find_candidate cs id ≡ none
      → AllSettled s off
      → AllSettled s (λ x. off x || (id == x))
  absent-AllSettled s off id e all x c found =
      let old = all x c found in
      elim (Bool-cases (id == x)) [
        | inl same ↦
            let here : (none ≡ some c) =
              sym e ∙ ap (find_candidate cs) ((eq_iff id x).0 same) ∙ found in
            absurd (cc here)
        | inr other ↦ record {
          decision = old.decision;
          found = old.found;
          about = old.about;
          says = ground (arith, old.says);
        }
      ]

  block_member-AllSettled :
      (s : Resolving) (off : String → Bool) (cycle : List String) (id : String)
      (o : Option Candidate)
      → find_candidate cs id ≡ o
      → AllSettled s off
      → AllSettled (block_member cycle id o s) (λ x. off x || (id == x))
  block_member-AllSettled s off cycle id none e all = absent-AllSettled s off id e all
  block_member-AllSettled s off cycle id (some c) e all = refused-AllSettled s off id _ _ c e all

  block_members-AllSettled :
      (s : Resolving) (off : String → Bool) (cycle ids : List String)
      → AllSettled s off
      → AllSettled (block_members cs cycle ids s) (λ x. off x || contains ids x)
  block_members-AllSettled s off cycle [] all =
      settled_as s off (λ x. off x || false) (λ x. ground arith) all
  block_members-AllSettled s off cycle (id ∷ ids) all =
      let t = block_member cycle id (find_candidate cs id) s in
      settled_as (block_members cs cycle ids t) (λ x. (off x || (id == x)) || contains ids x)
        (λ x. off x || contains (id ∷ ids) x) (λ x. ground arith)
        (block_members-AllSettled t (λ x. off x || (id == x)) cycle ids
          (block_member-AllSettled s off cycle id (find_candidate cs id) refl all))

  announced-AllSettled :
      (s : Resolving) (off : String → Bool) (cycle : List String)
      → AllSettled s off
      → AllSettled (record s { diagnostics = s.diagnostics ++ cycle_diagnostic cycle ∷ [] }) off
  announced-AllSettled s off cycle all x c found =
      let old = all x c found in
      record { decision = old.decision; found = old.found; about = old.about; says = old.says }

  block_cycles-AllSettled :
      (s : Resolving) (off : String → Bool) (cycles : List (List String))
      → AllSettled s off
      → AllSettled (block_cycles cs cycles s) (λ x. off x || contains (members cycles) x)
  block_cycles-AllSettled s off [] all =
      settled_as s off (λ x. off x || false) (λ x. ground arith) all
  block_cycles-AllSettled s off (cycle ∷ cycles) all =
      let u = record s { diagnostics = s.diagnostics ++ cycle_diagnostic cycle ∷ [] } in
      let t = block_members cs cycle cycle u in
      settled_as (block_cycles cs cycles t)
        (λ x. (off x || contains cycle x) || contains (members cycles) x)
        (λ x. off x || contains (members (cycle ∷ cycles)) x)
        (λ x. ground (arith, contains-append cycle (members cycles) x))
        (block_cycles-AllSettled t (λ x. off x || contains cycle x) cycles
          (block_members-AllSettled u off cycle cycle (announced-AllSettled s off cycle all)))

  block_dependent-AllSettled :
      (s : Resolving) (off : String → Bool) (cycle : List String) (id : String)
      (o : Option Candidate)
      → find_candidate cs id ≡ o
      → AllSettled s off
      → AllSettled (block_dependent cycle id o s) (λ x. off x || (id == x))
  block_dependent-AllSettled s off cycle id none e all x b found =
      absent-AllSettled s off id e all x b found
  block_dependent-AllSettled s off cycle id (some c) e all x b found =
      let now = refused-AllSettled s off id _ _ c e all x b found in
      record { decision = now.decision; found = now.found; about = now.about; says = now.says }

  block_dependents-AllSettled :
      (s : Resolving) (off : String → Bool) (cycle_members : List String)
      (blocked : List (String × List String)) (ids : List String)
      → ((x : String) → contains cycle_members x ≡ true → off x ≡ true)
      → AllSettled s off
      → AllSettled (block_dependents cs cycle_members blocked ids s) (λ x. off x || contains ids x)
  block_dependents-AllSettled s off cycle_members blocked [] w all =
      settled_as s off (λ x. off x || false) (λ x. ground arith) all
  block_dependents-AllSettled s off cycle_members blocked (id ∷ ids) w all =
      elim (Bool-cases (contains cycle_members id)) [
        | inl e ↦ rw e (
            settled_as (block_dependents cs cycle_members blocked ids s)
              (λ x. off x || contains ids x) (λ x. off x || contains (id ∷ ids) x)
              (λ x. elim (Bool-cases (id == x)) [
                | inl same ↦ (ground (arith, w id e, ap off ((eq_iff id x).0 same)))
                | inr other ↦ ground arith
              ])
              (block_dependents-AllSettled s off cycle_members blocked ids w all))
        | inr e ↦
            let t = block_dependent (find_cycle blocked id) id (find_candidate cs id) s in
            rw e (
              settled_as (block_dependents cs cycle_members blocked ids t)
                (λ x. (off x || (id == x)) || contains ids x) (λ x. off x || contains (id ∷ ids) x)
                (λ x. ground arith)
                (block_dependents-AllSettled t (λ x. off x || (id == x)) cycle_members blocked ids
                  (λ x k. ground (arith, w x k))
                  (block_dependent-AllSettled s off (find_cycle blocked id) id
                    (find_candidate cs id) refl all)))
      ]

  active-block_member :
      (cycle : List String) (id : String) (o : Option Candidate) (s : Resolving)
      → (block_member cycle id o s).active_ids ≡ s.active_ids
  active-block_member cycle id none s = refl
  active-block_member cycle id (some c) s = refl

  active-block_members :
      (cycle ids : List String) (s : Resolving)
      → (block_members cs cycle ids s).active_ids ≡ s.active_ids
  active-block_members cycle [] s = refl
  active-block_members cycle (id ∷ ids) s =
      active-block_members cycle ids (block_member cycle id (find_candidate cs id) s)
      ∙ active-block_member cycle id (find_candidate cs id) s

  active-block_cycles :
      (cycles : List (List String)) (s : Resolving)
      → (block_cycles cs cycles s).active_ids ≡ s.active_ids
  active-block_cycles [] s = refl
  active-block_cycles (cycle ∷ cycles) s =
      let u = record s { diagnostics = s.diagnostics ++ cycle_diagnostic cycle ∷ [] } in
      active-block_cycles cycles (block_members cs cycle cycle u)
      ∙ active-block_members cycle cycle u

  active-block_dependent :
      (cycle : List String) (id : String) (o : Option Candidate) (s : Resolving)
      → (block_dependent cycle id o s).active_ids ≡ s.active_ids
  active-block_dependent cycle id none s = refl
  active-block_dependent cycle id (some c) s = refl

  active-block_dependents :
      (cycle_members : List String) (blocked : List (String × List String)) (ids : List String)
      (s : Resolving)
      → (block_dependents cs cycle_members blocked ids s).active_ids ≡ s.active_ids
  active-block_dependents cycle_members blocked [] s = refl
  active-block_dependents cycle_members blocked (id ∷ ids) s =
      elim (Bool-cases (contains cycle_members id)) [
        | inl e ↦ rw (e, block_dependents) (active-block_dependents cycle_members blocked ids s)
        | inr e ↦
            rw (e, block_dependents)
              (active-block_dependents cycle_members blocked ids
                  (block_dependent (find_cycle blocked id) id (find_candidate cs id) s)
                ∙ active-block_dependent (find_cycle blocked id) id (find_candidate cs id) s)
      ]

  -- After the cycles are blocked the decisions still say what is active.
  pub block-AllConcluded :
      (g : Graph) (cycles : List (List String)) (s : Resolving)
      → AllConcluded cs s
      → AllConcluded cs (block cs g cycles s).0
  block-AllConcluded g cycles s all x c found =
      let blocked = collect_cycle_dependents g cycles in
      let first : AllSettled s (λ y. false) = λ y b there.
        (let d = all y b there in
          record {
            decision = d.decision;
            found = d.found;
            about = d.about;
            says = ground (arith, d.says);
          }) in
      let some_off = block_cycles-AllSettled s (λ y. false) cycles first in
      let all_off =
        block_dependents-AllSettled (block_cycles cs cycles s)
          (λ y. false || contains (members cycles) y) (members cycles) blocked (sort (keys blocked))
          (λ y k. ground arith) some_off x c found in
      let same =
        active-block_dependents (members cycles) blocked (sort (keys blocked))
          (block_cycles cs cycles s)
        ∙ active-block_cycles cycles s in
      record {
        decision = all_off.decision;
        found = all_off.found;
        about = all_off.about;
        says =
            all_off.says
            ∙ ground (
              arith,
              ap (λ xs. contains xs x) same,
              contains-sort (keys blocked) x,
              contains-append (members cycles) (keys blocked) x,
              contains-difference s.active_ids (members cycles ++ keys blocked) x,
            );
      }

-- One decision for each candidate, which says whether it is among the ids.
abbrev pub IsDecisive : List String → List ResolutionDecision → List Candidate → Type 0
IsDecisive ids [] [] = Unit
IsDecisive ids [] (c ∷ cs) = ⊥
IsDecisive ids (d ∷ ds) [] = ⊥
IsDecisive ids (d ∷ ds) (c ∷ cs) =
    (d.candidate ≡ c) × (d.enabled ≡ contains ids c.manifest.id) × IsDecisive ids ds cs

decisions_of-IsDecisive :
    (cs : List Candidate) (s : Resolving) (ids : List String) (part : List Candidate)
    → AllConcluded cs s
    → ((x : String) → contains s.active_ids x ≡ contains ids x)
    → All (λ c. find_candidate cs c.manifest.id ≡ some c) part
    → IsDecisive ids (decisions_of s part) part
decisions_of-IsDecisive cs s ids [] all same there = tt
decisions_of-IsDecisive cs s ids (c ∷ part) all same there =
    let d = all c.manifest.id c there.0 in
    rw d.found
      (d.about, d.says ∙ same c.manifest.id, decisions_of-IsDecisive cs s ids part all same there.1)

find-rest :
    (b : Candidate) (cs part : List Candidate)
    → contains (ids_of part) b.manifest.id ≡ false
    → All (λ c. find_candidate cs c.manifest.id ≡ some c) part
    → All (λ c. find_candidate (b ∷ cs) c.manifest.id ≡ some c) part
find-rest b cs [] h all = tt
find-rest b cs (c ∷ part) h all = (
  (let apart : ((b.manifest.id == c.manifest.id) ≡ false) =
        ground (arith, eq_iff b.manifest.id c.manifest.id, eq_iff c.manifest.id b.manifest.id) in
      rw apart all.0),
  find-rest b cs part (ground arith) all.1,
)

find-each :
    (cs : List Candidate)
    → Distinct (ids_of cs)
    → All (λ c. find_candidate cs c.manifest.id ≡ some c) cs
find-each [] d = tt
find-each (c ∷ cs) d = (rw (eq_refl c.manifest.id) refl, find-rest c cs cs d.0 (find-each cs d.1))

pub decisions-IsDecisive :
    (cs : List Candidate) (s : Resolving) (ids : List String)
    → Distinct (ids_of cs)
    → AllConcluded cs s
    → ((x : String) → contains s.active_ids x ≡ contains ids x)
    → IsDecisive ids (decisions_of s cs) cs
decisions-IsDecisive cs s ids d all same =
    decisions_of-IsDecisive cs s ids cs all same (find-each cs d)
