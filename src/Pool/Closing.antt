-- ===== src/Pool/Closing.antt =====
-- On cancelling the tasks of a session of tau_coding/agent_pool.py one after the other, as a shutdown
-- does.
use tau_prime.Prelude.{
  ℕ, ◌+◌, String, Bool, true, false, none, some, List, [], ◌∷◌, ◌≡◌, refl, ap, ◌∙◌, arith, eq_refl,
}
use tau_prime.Pool.Registered.{
  closed, RunResult, Phase, awaits_turn, awaits_permit, awaits_event, awaits_room, returned, Task,
  RegisteredSession, find_task, run_ids, is_running, is_pending, count, leave, ended_result,
  was_cancelled, unstarted, interrupted, task_done, dispose,
}
use tau_prime.Pool.Registered.Tasks.{running_id}
use tau_prime.Pool.Registered.Valid.{left}
use tau_prime.Pool.Actions.{is_interrupted, is_done, task_step, step_task}
use tau_prime.Pool.Actions.Permits.{active}
use tau_prime.Pool.Sessions.{IsSound}
use tau_prime.Pool.Bound.{step_task-IsSound}

-- `task.cancel()` at a task's await, and its done callback.
abbrev pub stop_task : String → RegisteredSession × ℕ → RegisteredSession × ℕ
stop_task id (s, free) =
    let (s', free') = step_task is_interrupted id free s in step_task is_done id free' s'

abbrev pub stop_tasks : List String → RegisteredSession × ℕ → RegisteredSession × ℕ
stop_tasks [] sf = sf
stop_tasks (id ∷ ids) sf = stop_tasks ids (stop_task id sf)

stop_task-IsSound :
    (id : String) (s : RegisteredSession) (free : ℕ)
    → IsSound s
    → IsSound (stop_task id (s, free)).0
      × ((stop_task id (s, free)).1 + active (stop_task id (s, free)).0 ≡ free + active s)
stop_task-IsSound id s free v =
    let first = step_task-IsSound is_interrupted id free s v in
    let second =
      step_task-IsSound is_done id (step_task is_interrupted id free s).1
        (step_task is_interrupted id free s).0 first.0 in
    (second.0, second.1 ∙ first.1)

stop_tasks-IsSound :
    (ids : List String) (s : RegisteredSession) (free : ℕ)
    → IsSound s
    → IsSound (stop_tasks ids (s, free)).0
      × ((stop_tasks ids (s, free)).1 + active (stop_tasks ids (s, free)).0 ≡ free + active s)
stop_tasks-IsSound [] s free v = (v, refl)
stop_tasks-IsSound (id ∷ ids) s free v =
    let first = stop_task-IsSound id s free v in
    let others =
      stop_tasks-IsSound ids (stop_task id (s, free)).0 (stop_task id (s, free)).1 first.0 in
    (others.0, others.1 ∙ first.1)

-- The first task is stopped where it is, and leaves the others.
tasks-leave :
    (a b : Bool) (t : Task) (ts : List Task) (r : RunResult) (s : RegisteredSession)
    → s.tasks ≡ t ∷ ts
    → (leave a b t.run_id r s).tasks ≡ left r t ∷ ts
unfolding leave
tasks-leave a b t ts r s e = rw e (rw (eq_refl t.run_id) refl)

tasks-interrupted :
    (t : Task) (ts : List Task) (p : Phase) (s : RegisteredSession)
    → s.tasks ≡ t ∷ ts
    → t.phase ≡ p
    → (u : Task) × (r : RunResult) × ((interrupted t.run_id p s).tasks ≡ u ∷ ts)
      × (u.run_id ≡ t.run_id)
      × (u.phase ≡ returned r)
tasks-interrupted t ts awaits_turn s e at =
    let r : RunResult = unstarted (some "CancelledError") in
    (left r t, r, tasks-leave false false t ts r s e, refl, refl)
tasks-interrupted t ts awaits_permit s e at =
    let r : RunResult = unstarted (some "CancelledError") in
    (left r t, r, tasks-leave false false t ts r s e, refl, refl)
tasks-interrupted t ts (awaits_event p) s e at =
    let r : RunResult = ended_result (was_cancelled "CancelledError") s.cancel_requested p in
    (left r t, r, tasks-leave true true t ts r s e, refl, refl)
tasks-interrupted t ts (awaits_room ev p) s e at =
    let r : RunResult = ended_result (was_cancelled "CancelledError") s.cancel_requested p in
    (left r t, r, tasks-leave true true t ts r s e, refl, refl)
tasks-interrupted t ts (returned r) s e at = (t, r, e, refl, at)

tasks-task_done :
    (id : String) (u : Task) (ts : List Task) (s : RegisteredSession)
    → s.tasks ≡ u ∷ ts
    → u.run_id ≡ id
    → (task_done id s).tasks ≡ ts
unfolding task_done
tasks-task_done id u ts s e same = rw e (rw same (rw (eq_refl id) refl))

find_task-first :
    (id : String) (u : Task) (ts : List Task) (s : RegisteredSession)
    → s.tasks ≡ u ∷ ts
    → u.run_id ≡ id
    → find_task s.tasks id ≡ some u
find_task-first id u ts s e same = rw e (rw same (rw (eq_refl id) refl))

tasks-step_done :
    (id : String) (u : Task) (r : RunResult) (ts : List Task) (s : RegisteredSession) (free : ℕ)
    → s.tasks ≡ u ∷ ts
    → u.run_id ≡ id
    → u.phase ≡ returned r
    → (step_task is_done id free s).0.tasks ≡ ts
unfolding task_step
tasks-step_done id u r ts s free e same over =
    rw (find_task-first id u ts s e same) (rw over (tasks-task_done id u ts s e same))

tasks-stop_task :
    (t : Task) (ts : List Task) (s : RegisteredSession) (free : ℕ)
    → s.tasks ≡ t ∷ ts
    → (stop_task t.run_id (s, free)).0.tasks ≡ ts
unfolding task_step
tasks-stop_task t ts s free e =
    let at = tasks-interrupted t ts t.phase s e refl in
    tasks-step_done t.run_id at.0 at.1 ts (step_task is_interrupted t.run_id free s).0
      (step_task is_interrupted t.run_id free s).1
      (rw (find_task-first t.run_id t ts s e refl) at.2) at.3 at.4

tasks-stop_tasks :
    (ts : List Task) (s : RegisteredSession) (free : ℕ)
    → s.tasks ≡ ts
    → (stop_tasks (run_ids ts) (s, free)).0.tasks ≡ []
tasks-stop_tasks [] s free e = e
tasks-stop_tasks (t ∷ ts) s free e =
    tasks-stop_tasks ts (stop_task t.run_id (s, free)).0 (stop_task t.run_id (s, free)).1
      (tasks-stop_task t ts s free e)

state-dispose : (s : RegisteredSession) → IsSound s → s.tasks ≡ [] → (dispose s).state ≡ closed
unfolding dispose
state-dispose s v e =
    let nobody : (s.current_run_id ≡ none) = v.0.order.is_right ∙ ap running_id e in
    let nothing : (s.pending_runs ≡ 0) = v.0.counted ∙ ap (count is_pending) e in
    ground (arith, nobody, nothing)

-- Where the tasks of a session of a pool whose invariant holds are cancelled one after the other,
-- wherever each of them waits, and their sessions let the CancelledError out, no task is left,
-- every permit that they held is free again, and the session is shown as closed once it is
-- disposed of.
pub stop_tasks-closed :
    (s : RegisteredSession) (free : ℕ)
    → IsSound s
    → ((stop_tasks (run_ids s.tasks) (s, free)).0.tasks ≡ [])
      × ((stop_tasks (run_ids s.tasks) (s, free)).1 ≡ free + active s)
      × ((dispose (stop_tasks (run_ids s.tasks) (s, free)).0).state ≡ closed)
stop_tasks-closed s free v =
    let stopped = stop_tasks-IsSound (run_ids s.tasks) s free v in
    let empty = tasks-stop_tasks s.tasks s free refl in
    (
      empty,
      omega (arith, stopped.1, ap (count is_running) empty),
      state-dispose (stop_tasks (run_ids s.tasks) (s, free)).0 stopped.0 empty,
    )
