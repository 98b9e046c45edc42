-- ===== src/Approvals.antt =====
-- tau_web/approvals.py: `ToolApprovalManager`, which asks a browser whether a tool may run.
-- Between two awaits its code runs undisturbed: each such stretch is an `Action` here, so that a
-- list of actions is an interleaving of the calls of `request`, `resolve`, `cancel` and `shutdown`.
pub mod Lookups
pub mod Invariant
pub mod Steps
pub mod Once
pub mod Shutdown
mod Examples
use tau_prime.Prelude.{
  String, Bool, true, false, not, ◌&&◌, ◌||◌, Option, none, some, List, [], ◌∷◌, ◌++◌, ◌==◌,
  contains, if◌then◌else◌, ◌≡◌,
}
use tau_prime.Messages.{JsonObject}

-- `ApprovalDecision`
pub data Decision : Type 0 where
  allow deny : Decision

abbrev pub is_allow : Decision → Bool
is_allow allow = true
is_allow deny = false

pub record ToolApprovalRequest : Type 0 where
  pub approval_id : String
  pub session_id : String
  pub tool_call_id : String
  pub tool_name : String
  pub description : String
  pub arguments : JsonObject
  pub created_at : String

-- `_PendingApproval`; `future` is `none` until its result is set.
pub record PendingApproval : Type 0 where
  pub request : ToolApprovalRequest
  pub future : Option Bool
  pub resolving : Bool

-- A call of `resolve` that awaits `_record_resolution`, and whether the audit row is written.
pub record Resolution : Type 0 where
  pub approval_id : String
  pub decision : Decision
  pub actor_id : Option String
  pub request_id : Option String
  pub audited : Bool

-- The rows that are written to the audit log, `tool.approval.requested` and `….resolved`.
pub data AuditEvent : Type 0 where
  requested : ToolApprovalRequest → AuditEvent
  resolved : Resolution → AuditEvent

-- `objects` has every pending approval that was made, latest first: a call of `resolve` holds on to
-- one that has left `_pending`, whose keys are `keys`. `audit` has the latest row first.
pub record Manager : Type 0 where
  pub objects : List PendingApproval
  pub keys : List String
  pub closed : Bool
  pub resolutions : List Resolution
  pub audit : List AuditEvent

abbrev pub new_manager : Manager
new_manager = record { objects = []; keys = []; closed = false; resolutions = []; audit = [] }

abbrev pub find : List PendingApproval → String → Option PendingApproval
find [] id = none
find (p ∷ ps) id = if p.request.approval_id == id then some p else find ps id

-- The object with the id is changed in place.
abbrev pub change :
    (PendingApproval → PendingApproval) → String → List PendingApproval → List PendingApproval
change f id [] = []
change f id (p ∷ ps) = if p.request.approval_id == id then f p ∷ ps else p ∷ change f id ps

abbrev pub resolution_of : List Resolution → String → Option Resolution
resolution_of [] id = none
resolution_of (t ∷ ts) id = if t.approval_id == id then some t else resolution_of ts id

-- The call of `resolve` for the id is over.
abbrev pub drop_resolution : String → List Resolution → List Resolution
drop_resolution id [] = []
drop_resolution id (t ∷ ts) = if t.approval_id == id then ts else t ∷ drop_resolution id ts

-- `self._pending.pop(approval_id, None)`
abbrev pub pop : String → List String → List String
pop id [] = []
pop id (k ∷ ks) = if k == id then ks else k ∷ pop id ks

-- `self._pending.get(approval_id)`
abbrev pub get_pending : Manager → String → Option PendingApproval
get_pending m id = if contains m.keys id then find m.objects id else none

abbrev pub is_done : Option Bool → Bool
is_done none = false
is_done (some b) = true

-- The negation of `pending is None or pending.future.done() or pending.resolving`.
abbrev pub is_open : Option PendingApproval → Bool
is_open none = false
is_open (some p) = not (is_done p.future || p.resolving)

abbrev pub take : PendingApproval → PendingApproval
take p = record p { resolving = true }

abbrev pub release : PendingApproval → PendingApproval
release p = record p { resolving = false }

-- `pending.future.set_result(decision == "allow")`
abbrev pub set_result : Decision → PendingApproval → PendingApproval
set_result d p = record p { future = some (is_allow d) }

-- `request`, once the manager is known to be open, up to its first await.
abbrev pub add_request : ToolApprovalRequest → Manager → Manager
add_request r m = record m {
  objects = (record { request = r; future = none; resolving = false }) ∷ m.objects;
  keys = m.keys ++ r.approval_id ∷ [];
}

-- `none` where `request` returns `False` at once.
unfoldable pub request : ToolApprovalRequest → Manager → Option Manager
request r m = if m.closed then none else some (add_request r m)

abbrev pub start_resolution : String → Decision → Option String → Option String → Manager → Manager
start_resolution id d actor_id request_id m = record m {
  objects = change take id m.objects;
  resolutions =
      (record {
        approval_id = id;
        decision = d;
        actor_id = actor_id;
        request_id = request_id;
        audited = false;
      })
      ∷ m.resolutions;
}

-- `resolve` up to its first await; `none` where it returns `None`.
unfoldable pub resolve :
    String → Decision → Option String → Option String → Manager → Option Manager
resolve id d actor_id request_id m =
    if is_open (get_pending m id) then some (start_resolution id d actor_id request_id m) else none

-- `cancel`: a denial by one of the runtime's actors.
abbrev pub cancel : String → String → Manager → Option Manager
cancel id actor_id m = resolve id deny (some actor_id) none m

-- `self._audit.append(…)` of `_record_resolution` has returned.
abbrev pub record_audit : String → Option Resolution → Manager → Manager
record_audit id none m = m
record_audit id (some t) m = record m {
  resolutions = (record t { audited = true }) ∷ drop_resolution id m.resolutions;
  audit = resolved t ∷ m.audit;
}

-- `_record_resolution` has returned: the rest of `resolve`. It publishes after the audit row.
abbrev pub finish_resolution : String → Option Resolution → Manager → Manager
finish_resolution id none m = m
finish_resolution id (some t) m =
    if t.audited
    then record m {
      objects = change (set_result t.decision) id m.objects;
      resolutions = drop_resolution id m.resolutions;
    }
    else m

-- `_record_resolution` has raised, before the audit row or after it.
abbrev pub abandon_resolution : String → Option Resolution → Manager → Manager
abandon_resolution id none m = m
abandon_resolution id (some t) m = record m {
  objects = change release id m.objects;
  resolutions = drop_resolution id m.resolutions;
}

-- The manager after a call that may have returned at once.
abbrev pub or_unchanged : Option Manager → Manager → Manager
or_unchanged none m = m
or_unchanged (some m') m = m'

pub data Action : Type 0 where
  requests announces : ToolApprovalRequest → Action
  resolves : String → Decision → Option String → Option String → Action
  audits publishes fails leaves : String → Action
  shuts_down : Action

unfoldable pub act : Action → Manager → Manager
unfolding request resolve
act (requests r) m = or_unchanged (request r m) m
act (announces r) m = record m { audit = requested r ∷ m.audit }
act (resolves id d actor_id request_id) m = or_unchanged (resolve id d actor_id request_id m) m
act (audits id) m = record_audit id (resolution_of m.resolutions id) m
act (publishes id) m = finish_resolution id (resolution_of m.resolutions id) m
act (fails id) m = abandon_resolution id (resolution_of m.resolutions id) m
act (leaves id) m = record m { keys = pop id m.keys }
act shuts_down m = record m { closed = true }

-- `uuid4` gives an id that no earlier request has.
abbrev pub IsFresh : Action → Manager → Type 0
IsFresh (requests r) m = find m.objects r.approval_id ≡ none
IsFresh a m = Unit

pub data Reachable : Manager → Type 0 where
  starts : Reachable new_manager
  acts : (a : Action) (m : Manager) → Reachable m → IsFresh a m → Reachable (act a m)

-- The result of the future of the request with the id.
abbrev pub result_in : Option PendingApproval → Option Bool
result_in none = none
result_in (some p) = p.future

abbrev pub result : Manager → String → Option Bool
result m id = result_in (find m.objects id)

-- Some audit row resolves the id by "allow".
abbrev pub allows : List AuditEvent → String → Bool
allows [] id = false
allows (requested r ∷ es) id = allows es id
allows (resolved t ∷ es) id = ((t.approval_id == id) && is_allow t.decision) || allows es id

-- A call of `resolve` that nothing disturbs, from its start to its return.
unfoldable pub resolve_undisturbed :
    String → Decision → Option String → Option String → Manager → Manager
resolve_undisturbed id d actor_id request_id m =
    act (publishes id) (act (audits id) (act (resolves id d actor_id request_id) m))

-- One round of the loop of `shutdown`, and the loop.
abbrev pub denied : String → Manager → Manager
denied id m =
    if is_open (get_pending m id)
    then resolve_undisturbed id deny (some "runtime-shutdown") none m
    else m

abbrev pub deny_all : List String → Manager → Manager
deny_all [] m = m
deny_all (id ∷ ids) m = deny_all ids (denied id m)

-- `shutdown`, where no other call runs in between.
abbrev pub shutdown : Manager → Manager
shutdown m = if m.closed then m else deny_all m.keys (record m { closed = true })

-- What `request` does each time that it looks at its future.
pub data Waited : Type 0 where
  returns : Bool → Waited
  cancels : String → Waited
  waits : Waited

-- The loop of `request`, by the future, whether the run is cancelled and whether the time is up.
abbrev pub woken : Option Bool → Bool → Bool → Waited
woken (some b) is_cancelled is_late = returns b
woken none true is_late = cancels "runtime-cancel"
woken none false true = cancels "runtime-timeout"
woken none false false = waits
