-- ===== src/Pool.antt =====
-- `AsyncAgentPool` of tau_coding/agent_pool.py: many coding sessions share a bound on the runs that
-- are active at once. Its methods and the tasks of its runs are cut at their awaits: an `Action` is
-- one stretch between two awaits, so that a list of actions is an interleaving.
pub mod EventStream
pub mod Registered
pub mod Actions
pub mod Sessions
pub mod Bound
pub mod Calls
pub mod Interleaving
pub mod Closing
mod Examples
use tau_prime.Prelude.{
  ℕ, zero, suc, ◌+◌, ◌-◌, String, Bool, true, false, not, ◌&&◌, ◌||◌, Option, none, some, List, [],
  ◌∷◌, ◌++◌, ◌==◌, contains, ltb, if◌then◌else◌, ◌≤◌, ◌≡◌,
}
use tau_prime.Session.Jsonl.{is_blank}
use tau_prime.Pool.Registered.{
  Task, RegisteredSession, is_some, new_session, add_run, run_ids, request_cancel, begin_close,
  dispose, refresh_state, is_current,
}
use tau_prime.Pool.Actions.{TaskAction, step_task}

-- The pool's exceptions, and `ValueError` for a blank id.
pub data PoolError : Type 0 where
  pool_closed : PoolError
  already_registered duplicate_run_id unknown_session session_closed : String → PoolError
  blank_run_id has_runs : PoolError

pub data Result {ℓ} (A : Type ℓ) : Type ℓ where
  ok : A → Result A
  err : PoolError → Result A

infixl 5 ◌>>=◌
abbrev pub ◌>>=◌ {ℓ κ} : {A : Type ℓ} {B : Type κ} → Result A → (A → Result B) → Result B
ok a >>= f = f a
err e >>= f = err e

-- `free` is the value of the semaphore, `compacting` counts the compactions that hold one of its
-- permits, and `capacity` is `_event_queue_size`.
pub record Pool : Type 0 where
  pub sessions : List RegisteredSession
  pub free : ℕ
  pub compacting : ℕ
  pub capacity : ℕ
  pub accepting_new_work : Bool
  pub shutdown_complete : Bool

-- `__init__`, whose two guards are that neither number is 0.
abbrev pub new_pool : ℕ → ℕ → Pool
new_pool max_concurrency event_queue_size = record {
  sessions = [];
  free = max_concurrency;
  compacting = 0;
  capacity = event_queue_size;
  accepting_new_work = true;
  shutdown_complete = false;
}

-- `self._sessions.get(session_id)`
abbrev pub find_session : List RegisteredSession → String → Option RegisteredSession
find_session [] id = none
find_session (s ∷ ss) id = if s.session_id == id then some s else find_session ss id

abbrev pub set_session :
    String → RegisteredSession → List RegisteredSession → List RegisteredSession
set_session id s [] = []
set_session id s (u ∷ ss) = if u.session_id == id then s ∷ ss else u ∷ set_session id s ss

-- `del self._sessions[session_id]`
abbrev pub delete_session : String → List RegisteredSession → List RegisteredSession
delete_session id [] = []
delete_session id (u ∷ ss) = if u.session_id == id then ss else u ∷ delete_session id ss

abbrev pub required : String → Option RegisteredSession → Result RegisteredSession
required id none = err (unknown_session id)
required id (some s) = ok s

-- `_require_session`
abbrev pub require_session : String → Pool → Result RegisteredSession
require_session id p = required id (find_session p.sessions id)

abbrev pub guard {ℓ} : {A : Type ℓ} → Bool → PoolError → Result A → Result A
guard true e r = r
guard false e r = err e

unfoldable pub register_session : String → Bool → Pool → Result Pool
register_session id owned p =
    if is_some (find_session p.sessions id)
    then err (already_registered id)
    else ok (record p { sessions = p.sessions ++ new_session id owned ∷ [] })

-- `_claim_run_id`: `fresh` is what `uuid4` gives.
abbrev pub claim_run_id : Option String → String → RegisteredSession → Result String
claim_run_id (some run_id) fresh s = guard (not (is_blank run_id)) blank_run_id (
    guard (not (contains (run_ids s.tasks) run_id || contains s.seen_run_ids run_id))
      (duplicate_run_id run_id) (ok run_id))
claim_run_id none fresh s =
    guard (not (contains (run_ids s.tasks) fresh || contains s.seen_run_ids fresh))
      (duplicate_run_id fresh) (ok fresh)

-- `_submit`: the pool and the id of the run.
unfoldable pub submit : String → Option String → String → Pool → Result (Pool × String)
submit id run_id fresh p = guard p.accepting_new_work pool_closed (
    require_session id p >>= λ s.
    guard (not (s.disposed || not s.accepting_new_work)) (session_closed id) (
      claim_run_id run_id fresh s >>= λ claimed.
      ok (
        record p { sessions = set_session id (add_run p.capacity claimed s) p.sessions },
        claimed,
      )))

-- `cancel_current_run`; `abort_current_run` also cancels the task, which comes to it as an action.
unfoldable pub cancel_current_run : String → Pool → Result (Pool × Bool)
cancel_current_run id p = require_session id p >>= λ s. guard (not s.disposed) (session_closed id) (
    if is_some s.current_run_id
    then ok (record p { sessions = set_session id (request_cancel s) p.sessions }, true)
    else ok (p, false))

-- `close_session` up to its first await.
unfoldable pub close_session : String → Pool → Result Pool
close_session id p = require_session id p >>= λ s.
    if s.disposed
    then ok p
    else ok (record p { sessions = set_session id (begin_close s) p.sessions })

abbrev pub has_tasks : List Task → Bool
has_tasks [] = false
has_tasks (t ∷ ts) = true

-- The guard of `remove_idle_session`, before it closes the session.
unfoldable pub remove_idle_session : String → Pool → Result Pool
unfolding close_session
remove_idle_session id p = require_session id p >>= λ s.
    guard (not (is_some s.current_run_id || has_tasks s.tasks)) has_runs (close_session id p)

-- The guards of `compact_session`, which asks twice whether the session has runs, here and where
-- it has waited for a permit.
unfoldable pub compact_session : String → Pool → Result RegisteredSession
compact_session id p = guard p.accepting_new_work pool_closed (
    require_session id p >>= λ s.
    guard (not (s.disposed || not s.accepting_new_work)) (session_closed id) (
      guard (not (is_some s.current_run_id || ltb 0 s.pending_runs || has_tasks s.tasks)) has_runs
        (ok s)))

-- The first loop of `shutdown`, for one session.
unfoldable pub stop_session : RegisteredSession → RegisteredSession
unfolding request_cancel
stop_session s =
    if s.disposed
    then s
    else if is_some s.current_run_id
    then request_cancel (record s { accepting_new_work = false })
    else refresh_state (record s { accepting_new_work = false })

abbrev pub stop_all : List RegisteredSession → List RegisteredSession
stop_all [] = []
stop_all (s ∷ ss) = stop_session s ∷ stop_all ss

-- `shutdown` up to its first await.
unfoldable pub begin_shutdown : Pool → Pool
begin_shutdown p =
    if p.shutdown_complete
    then p
    else record p { accepting_new_work = false; sessions = stop_all p.sessions }

pub data Action : Type 0 where
  registers : String → Bool → Action
  submits : String → Option String → String → Action
  steps : TaskAction → String → String → Action
  cancels closes removes disposes shuts deletes compacts : String → Action
  begins_shutdown ends_shutdown ends_compacting : Action

-- The pool after a call that may have raised.
abbrev pub or_same : Pool → Result Pool → Pool
or_same p (ok p') = p'
or_same p (err e) = p

abbrev pub or_same_with {ℓ} : {A : Type ℓ} → Pool → Result (Pool × A) → Pool
or_same_with p (ok (p', a)) = p'
or_same_with p (err e) = p

abbrev pub stepped : String → RegisteredSession × ℕ → Pool → Pool
stepped id (s, free) p = record p { sessions = set_session id s p.sessions; free = free }

abbrev pub step_in : TaskAction → String → String → Option RegisteredSession → Pool → Pool
step_in a id run_id none p = p
step_in a id run_id (some s) p = stepped id (step_task a run_id p.free s) p

-- `close_session` from where `gather` returns. The call has made the session accept no more work and
-- waits for its tasks: before that it does not go on.
abbrev pub dispose_in : String → Option RegisteredSession → Pool → Pool
dispose_in id none p = p
dispose_in id (some s) p =
    if s.accepting_new_work || has_tasks s.tasks
    then p
    else record p { sessions = set_session id (dispose s) p.sessions }

-- `self._tasks` is not empty.
abbrev pub any_tasks : List RegisteredSession → Bool
any_tasks [] = false
any_tasks (s ∷ ss) = has_tasks s.tasks || any_tasks ss

-- The second loop of `shutdown`, for one session, whether it accepts work or not: one that was
-- registered while the shutdown waited does. The pool has been closed to work, and the shutdown has
-- waited for all tasks: before that it does not go on.
abbrev pub shut_in : String → Option RegisteredSession → Pool → Pool
shut_in id none p = p
shut_in id (some s) p =
    if p.accepting_new_work || any_tasks p.sessions
    then p
    else if s.disposed
    then p
    else record p { sessions = set_session id (dispose s) p.sessions }

-- `del self._sessions[session_id]`, right after `remove_idle_session` has closed the session. Where
-- two removals of one id overlap, the source deletes what is registered under the id by then, closed
-- or not: such removals are left out.
abbrev pub delete_in : String → Option RegisteredSession → Pool → Pool
delete_in id none p = p
delete_in id (some s) p =
    if s.disposed then record p { sessions = delete_session id p.sessions } else p

-- A call of `compact_session` gets a permit. It asks again whether the session has runs, and gives
-- the permit back at once where it has.
abbrev pub compact_in : Option RegisteredSession → Pool → Pool
compact_in none p = p
compact_in (some s) p =
    if ltb 0 p.free && not (is_some s.current_run_id || ltb 0 s.pending_runs || has_tasks s.tasks)
    then record p { free = p.free - 1; compacting = p.compacting + 1 }
    else p

-- The session's `compact` has returned or raised.
abbrev pub end_compacting : Pool → Pool
end_compacting p =
    if ltb 0 p.compacting then record p { free = p.free + 1; compacting = p.compacting - 1 } else p

unfoldable pub act : Action → Pool → Pool
unfolding register_session submit cancel_current_run close_session remove_idle_session
    begin_shutdown
act (registers id owned) p = or_same p (register_session id owned p)
act (submits id run_id fresh) p = or_same_with p (submit id run_id fresh p)
act (steps a id run_id) p = step_in a id run_id (find_session p.sessions id) p
act (cancels id) p = or_same_with p (cancel_current_run id p)
act (closes id) p = or_same p (close_session id p)
act (removes id) p = or_same p (remove_idle_session id p)
act (disposes id) p = dispose_in id (find_session p.sessions id) p
act (shuts id) p = shut_in id (find_session p.sessions id) p
act (deletes id) p = delete_in id (find_session p.sessions id) p
act (compacts id) p = compact_in (find_session p.sessions id) p
act ends_compacting p = end_compacting p
act begins_shutdown p = begin_shutdown p
act ends_shutdown p = record p { shutdown_complete = true }

abbrev pub act_all : List Action → Pool → Pool
act_all [] p = p
act_all (a ∷ rest) p = act_all rest (act a p)
