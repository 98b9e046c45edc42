-- ===== src/Pool/Registered.antt =====
-- One registered session of the pool of tau_coding/agent_pool.py: `_RegisteredSession` and what the
-- methods of `AsyncAgentPool` and the tasks of `_run` do to it between two awaits.
pub mod Tasks
pub mod Valid
use tau_prime.Prelude.{
  ℕ, zero, suc, ◌+◌, ◌-◌, String, Bool, true, false, not, ◌&&◌, ◌||◌, Option, none, some, List, [],
  ◌∷◌, ◌++◌, ◌==◌, contains, ltb, if◌then◌else◌,
}
use tau_prime.Events.{AgentEvent}
use tau_prime.Pool.EventStream.{
  EventStream, new_stream, Put, refused, stored, must_wait, put_result, put, abort, close,
}

-- `PoolSessionState`
pub data SessionState : Type 0 where
  idle queued running cancelling failed closed : SessionState

-- `RunStatus`
pub data RunStatus : Type 0 where
  completed cancelled failed : RunStatus

-- `RunResult`, without the two ids, which its task has. An exception is its text.
pub record RunResult : Type 0 where
  pub status : RunStatus
  pub yielded_error : Option AgentEvent
  pub exception : Option String
  pub event_count : ℕ

-- The variables of `_run` while the session's events come in.
pub record Progress : Type 0 where
  pub yielded_error : Option AgentEvent
  pub event_count : ℕ

-- Where the task of a run waits: for the session's turn lock, for the pool's semaphore, for the next
-- event, for room in the stream; or it has returned, and its done callback is still to run.
pub data Phase : Type 0 where
  awaits_turn awaits_permit : Phase
  awaits_event : Progress → Phase
  awaits_room : AgentEvent → Progress → Phase
  returned : RunResult → Phase

pub record Task : Type 0 where
  pub run_id : String
  pub stream : EventStream
  pub phase : Phase

-- `_RegisteredSession`: `tasks` is `run_tasks`, and `current_run_id` also tells `current_stream`,
-- the stream of that task. The session itself and its resources are the environment's.
pub record RegisteredSession : Type 0 where
  pub session_id : String
  pub owned : Bool
  pub tasks : List Task
  pub seen_run_ids : List String
  pub state : SessionState
  pub pending_runs : ℕ
  pub current_run_id : Option String
  pub cancel_requested : Bool
  pub accepting_new_work : Bool
  pub disposed : Bool
  pub last_run_id : Option String
  pub last_error : Option AgentEvent
  pub last_exception : Option String

abbrev pub is_some {ℓ} : {A : Type ℓ} → Option A → Bool
is_some none = false
is_some (some a) = true

abbrev pub state_of : RegisteredSession → SessionState
state_of s =
    if is_some s.current_run_id
    then (if s.cancel_requested then cancelling else running)
    else if ltb 0 s.pending_runs
    then queued
    else if s.disposed
    then closed
    else if is_some s.last_error || is_some s.last_exception
    then SessionState.failed
    else idle

-- `_refresh_state`
abbrev pub refresh_state : RegisteredSession → RegisteredSession
refresh_state s = record s { state = state_of s }

-- `register_session`, once it is known that the id is not taken.
abbrev pub new_session : String → Bool → RegisteredSession
new_session session_id owned = refresh_state (record {
  session_id = session_id;
  owned = owned;
  tasks = [];
  seen_run_ids = [];
  state = idle;
  pending_runs = 0;
  current_run_id = none;
  cancel_requested = false;
  accepting_new_work = true;
  disposed = false;
  last_run_id = none;
  last_error = none;
  last_exception = none;
})

-- `entry.run_tasks.get(run_id)`
abbrev pub find_task : List Task → String → Option Task
find_task [] id = none
find_task (t ∷ ts) id = if t.run_id == id then some t else find_task ts id

abbrev pub set_task : (Task → Task) → String → List Task → List Task
set_task f id [] = []
set_task f id (t ∷ ts) = if t.run_id == id then f t ∷ ts else t ∷ set_task f id ts

-- `entry.run_tasks.pop(run_id, None)`
abbrev pub pop_task : String → List Task → List Task
pop_task id [] = []
pop_task id (t ∷ ts) = if t.run_id == id then ts else t ∷ pop_task id ts

abbrev pub run_ids : List Task → List String
run_ids [] = []
run_ids (t ∷ ts) = t.run_id ∷ run_ids ts

abbrev pub in_phase : Phase → Task → Task
in_phase p t = record t { phase = p }

abbrev pub is_pending : Phase → Bool
is_pending awaits_turn = true
is_pending awaits_permit = true
is_pending p = false

abbrev pub is_running : Phase → Bool
is_running (awaits_event p) = true
is_running (awaits_room e p) = true
is_running p = false

-- The task holds the session's turn lock.
abbrev pub holds_turn : Phase → Bool
holds_turn awaits_permit = true
holds_turn p = is_running p

abbrev pub one_if : Bool → ℕ
one_if true = 1
one_if false = 0

abbrev pub count : (Phase → Bool) → List Task → ℕ
count P [] = 0
count P (t ∷ ts) = one_if (P t.phase) + count P ts

-- `_submit` after its guards, with the id that `_claim_run_id` gave.
unfoldable pub add_run : ℕ → String → RegisteredSession → RegisteredSession
add_run capacity run_id s = refresh_state (record s {
  seen_run_ids = run_id ∷ s.seen_run_ids;
  pending_runs = s.pending_runs + 1;
  last_run_id = some run_id;
  last_error = none;
  last_exception = none;
  tasks =
      s.tasks
      ++ (record { run_id = run_id; stream = new_stream capacity; phase = awaits_turn }) ∷ [];
})

abbrev pub is_current : Option String → String → Bool
is_current none id = false
is_current (some current) id = current == id

abbrev pub kept_error {ℓ} : {A : Type ℓ} → RunStatus → Option A → Option A
kept_error failed e = e
kept_error status e = none

-- The outer `finally` of `_run`, and its return. The flags are `pending_consumed` and
-- `current_run_set`.
unfoldable pub leave : Bool → Bool → String → RunResult → RegisteredSession → RegisteredSession
leave pending_consumed current_run_set run_id r s =
    let over = current_run_set && is_current s.current_run_id run_id in
    refresh_state (record s {
      pending_runs = if pending_consumed then s.pending_runs else s.pending_runs - 1;
      current_run_id = if over then none else s.current_run_id;
      cancel_requested = if over then false else s.cancel_requested;
      last_error = kept_error r.status r.yielded_error;
      last_exception = kept_error r.status r.exception;
      tasks =
          set_task (λ t. record t { stream = close t.stream; phase = returned r }) run_id s.tasks;
    })

abbrev pub unstarted : Option String → RunResult
unstarted e = record { status = cancelled; yielded_error = none; exception = e; event_count = 0 }

-- The task has the turn lock: it gives up where no work is accepted any more, and else goes on to
-- the semaphore.
unfoldable pub take_turn : String → RegisteredSession → RegisteredSession
take_turn run_id s =
    if s.accepting_new_work
    then record s { tasks = set_task (in_phase awaits_permit) run_id s.tasks }
    else leave true false run_id (unstarted none)
        (refresh_state (record s { pending_runs = s.pending_runs - 1 }))

abbrev pub no_progress : Progress
no_progress = record { yielded_error = none; event_count = 0 }

-- The task has a permit of the semaphore. Where no work is accepted any more it gives it back, which
-- the pool does.
unfoldable pub take_permit : String → RegisteredSession → RegisteredSession
take_permit run_id s =
    if s.accepting_new_work
    then refresh_state (record s {
      pending_runs = s.pending_runs - 1;
      current_run_id = some run_id;
      last_run_id = some run_id;
      cancel_requested = false;
      tasks = set_task (in_phase (awaits_event no_progress)) run_id s.tasks;
    })
    else leave true false run_id (unstarted none)
        (refresh_state (record s { pending_runs = s.pending_runs - 1 }))

-- `isinstance(event, ErrorEvent) and not event.recoverable`
abbrev pub is_fatal : AgentEvent → Bool
is_fatal (AgentEvent.error message recoverable details) = not recoverable
is_fatal e = false

abbrev pub noted : AgentEvent → Progress → Progress
noted e p = record {
  yielded_error = if is_fatal e then some e else p.yielded_error;
  event_count = p.event_count + 1;
}

-- How the `async for` over the session's events ends.
pub data Ending : Type 0 where
  -- by itself, or by the `break` after a `put` that was refused
  ran_out : Ending
  -- with `CancelledError`, or with another exception
  was_cancelled raised : String → Ending

abbrev pub ended_status : Option AgentEvent → Bool → RunStatus
ended_status (some e) cancel_requested = failed
ended_status none true = cancelled
ended_status none false = completed

abbrev pub ended_result : Ending → Bool → Progress → RunResult
ended_result ran_out cancel_requested p = record {
  status = ended_status p.yielded_error cancel_requested;
  yielded_error = p.yielded_error;
  exception = none;
  event_count = p.event_count;
}
ended_result (was_cancelled text) cancel_requested p = record {
  status = cancelled;
  yielded_error = p.yielded_error;
  exception = some text;
  event_count = p.event_count;
}
ended_result (raised text) cancel_requested p = record {
  status = failed;
  yielded_error = p.yielded_error;
  exception = some text;
  event_count = p.event_count;
}

-- The end of the `async for` and what follows it.
abbrev pub end_run : String → Ending → Progress → RegisteredSession → RegisteredSession
end_run run_id ending p s = leave true true run_id (ended_result ending s.cancel_requested p) s

abbrev pub put_in_stream : AgentEvent → Phase → Task → Task
put_in_stream e p t = record t { stream = put e t.stream; phase = p }

-- `if not await stream.put(event): break`, up to where it waits.
abbrev pub offered : String → AgentEvent → Progress → Put → RegisteredSession → RegisteredSession
offered run_id e p refused s = end_run run_id ran_out p s
offered run_id e p stored s = record s {
  tasks = set_task (put_in_stream e (awaits_event p)) run_id s.tasks;
}
offered run_id e p must_wait s = record s {
  tasks = set_task (in_phase (awaits_room e p)) run_id s.tasks;
}

-- `cancel()` of a task, where it waits: `CancelledError` comes up at that await. In the `async for`
-- it goes through the session's generator, and this is what follows where that lets it out.
abbrev pub interrupted : String → Phase → RegisteredSession → RegisteredSession
interrupted run_id awaits_turn s = leave false false run_id (unstarted (some "CancelledError")) s
interrupted run_id awaits_permit s = leave false false run_id (unstarted (some "CancelledError")) s
interrupted run_id (awaits_event p) s = end_run run_id (was_cancelled "CancelledError") p s
interrupted run_id (awaits_room e p) s = end_run run_id (was_cancelled "CancelledError") p s
interrupted run_id (returned r) s = s

-- `_on_task_done`
unfoldable pub task_done : String → RegisteredSession → RegisteredSession
task_done run_id s = refresh_state (record s { tasks = pop_task run_id s.tasks })

abbrev pub abort_stream : Option String → List Task → List Task
abort_stream none ts = ts
abort_stream (some id) ts = set_task (λ t. record t { stream = abort t.stream }) id ts

-- `_request_cancel`, less the call of the session's own `cancel`.
unfoldable pub request_cancel : RegisteredSession → RegisteredSession
request_cancel s =
    if is_some s.current_run_id
    then refresh_state
        (record s { cancel_requested = true; tasks = abort_stream s.current_run_id s.tasks })
    else s

-- `close_session` up to its first await, for a session that is not disposed.
unfoldable pub begin_close : RegisteredSession → RegisteredSession
unfolding request_cancel
begin_close s = request_cancel (record s { accepting_new_work = false })

-- The rest of `close_session`, once the tasks are through and owned resources are closed.
unfoldable pub dispose : RegisteredSession → RegisteredSession
dispose s = refresh_state (record s { disposed = true })
