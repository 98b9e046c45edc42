-- ===== src/Approvals/Once.antt =====
-- On the decisions of reachable managers of tau_web/approvals.py: once, and audited.
use tau_prime.Prelude.{
  String, Bool, true, false, Option, none, some, List, ◌==◌, ◌≡◌, refl, ap, ◌∙◌, arith, eq_iff,
  eq_refl, Bool-cases, Option-cases, inl, inr, contains,
}
use tau_prime.Approvals.{
  ToolApprovalRequest, Decision, is_allow, PendingApproval, Resolution, Manager, find,
  resolution_of, change, get_pending, is_open, take, release, set_result, cancel, request, resolve,
  or_unchanged, record_audit, finish_resolution, Action, act, IsFresh, Reachable, result_in, result,
  resolve_undisturbed, allows,
}
use tau_prime.Approvals.Lookups.{find-change, find-change_other}
use tau_prime.Approvals.Invariant.{Sound, IsValid, taken-SoundAt, find-get_pending}
use tau_prime.Approvals.Steps.{Reachable-IsValid}

Sound-audited :
    (o : Option PendingApproval) (r : Option Resolution) (allowed : Bool)
    → Sound o r allowed
    → result_in o ≡ some true
    → allowed ≡ true
Sound-audited none r allowed s given = cc
Sound-audited (some p) none allowed s given = s given
Sound-audited (some p) (some t) allowed s given = ground (arith, s.0)

-- In a reachable manager, whatever calls have run against each other and whatever has failed, a
-- request whose future says yes has a row in the audit log that resolves it by "allow".
pub result-allows :
    (m : Manager) (id : String) → Reachable m → result m id ≡ some true → allows m.audit id ≡ true
result-allows m id reached given =
    Sound-audited (find m.objects id) (resolution_of m.resolutions id) (allows m.audit id)
      ((Reachable-IsValid m reached).0 id) given

-- Changing an object whose future has no result keeps every result.
result-change :
    (f : PendingApproval → PendingApproval)
    (keeps : (p : PendingApproval) → (f p).request ≡ p.request) (ps : List PendingApproval)
    (y x : String) (b : Bool)
    → result_in (find ps y) ≡ none
    → result_in (find ps x) ≡ some b
    → result_in (find (change f y ps) x) ≡ some b
result-change f keeps ps y x b undecided decided = elim (Bool-cases (x == y)) [
  | inl same ↦
      absurd
        (ground (arith, undecided, decided, ap (λ z. result_in (find ps z)) ((eq_iff x y).0 same)))
  | inr other ↦ rw (find-change_other f keeps ps y x other) decided
]

result-request :
    (r : ToolApprovalRequest) (m : Manager) (x : String) (b : Bool)
    → IsFresh (Action.requests r) m
    → result m x ≡ some b
    → result (or_unchanged (request r m) m) x ≡ some b
unfolding request
result-request r m x b fresh decided = elim (Bool-cases m.closed) [
  | inl shut ↦ rw shut decided
  | inr live ↦ rw live (elim (Bool-cases (r.approval_id == x)) [
    | inl same ↦ absurd (
        ground (
          arith,
          decided,
          ap result_in fresh,
          ap (λ z. result_in (find m.objects z)) ((eq_iff r.approval_id x).0 same),
        ))
    | inr other ↦ rw other decided
  ])
]

result-resolve :
    (id : String) (d : Decision) (actor_id request_id : Option String) (m : Manager) (x : String)
    (b : Bool)
    → result m x ≡ some b
    → result (or_unchanged (resolve id d actor_id request_id m) m) x ≡ some b
unfolding resolve
result-resolve id d actor_id request_id m x b decided = elim (Option-cases (get_pending m id)) [
  | inl gone ↦ rw gone decided
  | inr (p, got) ↦ rw got (elim (Bool-cases (is_open (some p))) [
    | inr held ↦ rw held decided
    | inl free ↦ rw free (
        result-change take (λ q. refl) m.objects id x b
          (rw (find-get_pending m id p got) (ground arith)) decided)
  ])
]

result-record_audit :
    (id : String) (o : Option Resolution) (m : Manager) (x : String)
    → result (record_audit id o m) x ≡ result m x
result-record_audit id none m x = refl
result-record_audit id (some t) m x = refl

-- A call of `resolve` that is in flight has an undecided object.
result-taken :
    (m : Manager) (id : String) (t : Resolution)
    → IsValid m
    → resolution_of m.resolutions id ≡ some t
    → result m id ≡ none
result-taken m id t v found = let held = taken-SoundAt m id t v found in rw held.1 held.2.0

result-finish_resolution :
    (id : String) (t : Resolution) (m : Manager) (x : String) (b : Bool)
    → result m id ≡ none
    → result m x ≡ some b
    → result (finish_resolution id (some t) m) x ≡ some b
result-finish_resolution id t m x b undecided decided = elim (Bool-cases t.audited) [
  | inr waiting ↦ rw waiting decided
  | inl written ↦
      rw written
        (result-change (set_result t.decision) (λ q. refl) m.objects id x b undecided decided)
]

result-valid_act :
    (a : Action) (m : Manager) (x : String) (b : Bool)
    → IsFresh a m
    → IsValid m
    → result m x ≡ some b
    → result (act a m) x ≡ some b
unfolding act
result-valid_act (Action.requests r) m x b fresh v decided = result-request r m x b fresh decided
result-valid_act (Action.announces r) m x b fresh v decided = decided
result-valid_act (Action.resolves id d actor_id request_id) m x b fresh v decided =
    result-resolve id d actor_id request_id m x b decided
result-valid_act (Action.audits id) m x b fresh v decided =
    result-record_audit id (resolution_of m.resolutions id) m x ∙ decided
result-valid_act (Action.publishes id) m x b fresh v decided =
    elim (Option-cases (resolution_of m.resolutions id)) [
      | inl gone ↦ rw gone decided
      | inr (t, found) ↦
          rw found (result-finish_resolution id t m x b (result-taken m id t v found) decided)
    ]
result-valid_act (Action.fails id) m x b fresh v decided =
    elim (Option-cases (resolution_of m.resolutions id)) [
      | inl gone ↦ rw gone decided
      | inr (t, found) ↦
          rw found (
            result-change release (λ q. refl) m.objects id x b (result-taken m id t v found)
              decided)
    ]
result-valid_act (Action.leaves id) m x b fresh v decided = decided
result-valid_act Action.shuts_down m x b fresh v decided = decided

-- Once the future of a request in a reachable manager has its result, no action changes it, whatever
-- its id or its decision.
pub result-act :
    (a : Action) (m : Manager) (id : String) (b : Bool)
    → Reachable m
    → IsFresh a m
    → result m id ≡ some b
    → result (act a m) id ≡ some b
result-act a m id b reached fresh decided =
    result-valid_act a m id b fresh (Reachable-IsValid m reached) decided

-- The objects after such a call.
pub objects-resolve_undisturbed :
    (id : String) (d : Decision) (actor_id request_id : Option String) (m : Manager)
    → is_open (get_pending m id) ≡ true
    → (resolve_undisturbed id d actor_id request_id m).objects
      ≡ change (set_result d) id (change take id m.objects)
unfolding resolve_undisturbed act resolve
objects-resolve_undisturbed id d actor_id request_id m free =
    rw free (rw (eq_refl id) (rw (eq_refl id) refl))

is_open-decided : (o : Option PendingApproval) (b : Bool) → result_in o ≡ some b → is_open o ≡ false
is_open-decided none b decided = refl
is_open-decided (some p) b decided = ground (arith, decided)

pub is_open-get_pending :
    (id : String) (m : Manager) (b : Bool)
    → result m id ≡ some b
    → is_open (get_pending m id) ≡ false
is_open-get_pending id m b decided = elim (Bool-cases (contains m.keys id)) [
  | inl there ↦ rw there (is_open-decided (find m.objects id) b decided)
  | inr gone ↦ rw gone refl
]

resolve-decided :
    (id : String) (d : Decision) (actor_id request_id : Option String) (m : Manager) (b : Bool)
    → result m id ≡ some b
    → resolve id d actor_id request_id m ≡ none
unfolding resolve
resolve-decided id d actor_id request_id m b decided = rw (is_open-get_pending id m b decided) refl

-- Where a request is open, a call of `resolve` that nothing disturbs gives its future the decision
-- that was asked for, and a second call for it then returns `None`.
pub resolve_undisturbed-result :
    (id : String) (d e : Decision) (actor_id request_id : Option String) (m : Manager)
    → is_open (get_pending m id) ≡ true
    → (result (resolve_undisturbed id d actor_id request_id m) id ≡ some (is_allow d))
      × (resolve id e actor_id request_id (resolve_undisturbed id d actor_id request_id m) ≡ none)
unfolding resolve
resolve_undisturbed-result id d e actor_id request_id m free =
    elim (Option-cases (get_pending m id)) [
      | inl gone ↦ absurd (ground (arith, ap is_open gone))
      | inr (p, got) ↦
          let found =
            find-change (set_result d) (λ q. refl) (change take id m.objects) id (take p)
              (find-change take (λ q. refl) m.objects id p (find-get_pending m id p got)) in
          let settled = objects-resolve_undisturbed id d actor_id request_id m free in
          let decided : result (resolve_undisturbed id d actor_id request_id m) id
              ≡ some (is_allow d) =
            rw settled (rw found refl) in
          (decided, resolve-decided id e actor_id request_id _ (is_allow d) decided)
    ]

-- While a call of `resolve` for a request is in flight in a reachable manager, a cancellation for it
-- returns `None`, and the request's future has no result.
pub cancel-busy :
    (id actor_id : String) (t : Resolution) (m : Manager)
    → Reachable m
    → resolution_of m.resolutions id ≡ some t
    → (cancel id actor_id m ≡ none) × (result m id ≡ none)
unfolding resolve
cancel-busy id actor_id t m reached busy =
    let v = Reachable-IsValid m reached in
    let held = taken-SoundAt m id t v busy in
    (
      elim (Bool-cases (contains m.keys id)) [
        | inl there ↦ rw there (rw held.1 (rw held.2.1 (ground arith)))
        | inr gone ↦ rw gone refl
      ],
      result-taken m id t v busy,
    )
