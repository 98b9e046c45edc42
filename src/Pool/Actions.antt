-- ===== src/Pool/Actions.antt =====
-- What the tasks of `_run` do in a session of the pool of tau_coding/agent_pool.py, one stretch
-- between awaits at a time, with the permits of the pool's semaphore that are free.
pub mod Permits
pub mod Keeps
use tau_prime.Prelude.{
  ℕ, ◌+◌, ◌-◌, String, Bool, true, false, Option, none, some, ltb, if◌then◌else◌,
}
use tau_prime.Events.{AgentEvent}
use tau_prime.Pool.EventStream.{Put, refused, stored, must_wait, put_result}
use tau_prime.Pool.Registered.{
  Progress, Phase, awaits_turn, awaits_permit, awaits_event, awaits_room, returned, Task,
  RegisteredSession, find_task, is_running, holds_turn, count, take_turn, take_permit, noted,
  Ending, end_run, offered, interrupted, task_done,
}

-- A cancelled task is interrupted, or its session's generator catches the `CancelledError` and the
-- task goes on waiting for what comes next.
pub data TaskAction : Type 0 where
  takes_turn takes_permit resumes is_interrupted catches is_done : TaskAction
  receives : AgentEvent → TaskAction
  ends : Ending → TaskAction

-- A refused `put` ends the run, which gives its permit back.
abbrev pub permits_after : Put → ℕ → ℕ
permits_after refused free = free + 1
permits_after stored free = free
permits_after must_wait free = free

-- A task takes the turn lock only while no other holds it, and a permit only while one is free. An
-- action that its task is not waiting for does not happen.
unfoldable pub task_step :
    TaskAction → String → Task → Phase → ℕ → RegisteredSession → RegisteredSession × ℕ
task_step takes_turn id t awaits_turn free s =
    (if ltb (count holds_turn s.tasks) 1 then take_turn id s else s, free)
task_step takes_permit id t awaits_permit free s =
    if ltb 0 free
    then (take_permit id s, if s.accepting_new_work then free - 1 else free)
    else (s, free)
task_step (receives e) id t (awaits_event p) free s =
    (offered id e (noted e p) (put_result t.stream) s, permits_after (put_result t.stream) free)
task_step resumes id t (awaits_room e p) free s =
    (offered id e p (put_result t.stream) s, permits_after (put_result t.stream) free)
task_step (ends ending) id t (awaits_event p) free s = (end_run id ending p s, free + 1)
task_step is_interrupted id t p free s =
    (interrupted id p s, if is_running p then free + 1 else free)
task_step catches id t p free s = (s, free)
task_step is_done id t (returned r) free s = (task_done id s, free)
task_step a id t p free s = (s, free)

abbrev pub step_found :
    TaskAction → String → Option Task → ℕ → RegisteredSession → RegisteredSession × ℕ
step_found a id none free s = (s, free)
step_found a id (some t) free s = task_step a id t t.phase free s

-- The step of the task of the run with the id.
abbrev pub step_task : TaskAction → String → ℕ → RegisteredSession → RegisteredSession × ℕ
step_task a id free s = step_found a id (find_task s.tasks id) free s
