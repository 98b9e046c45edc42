-- ===== src/Pool/Examples.antt =====
-- Tests of the pool's model, and the theorems about it at concrete pools.
use tau_prime.Prelude.{◌+◌, Bool, true, false, none, some, List, [], ◌∷◌, ◌++◌, ◌≡◌, refl, arith}
use tau_prime.Session.Jsonl.{is_blank}
use tau_prime.Events.{agent_start, agent_end}
use tau_prime.Pool.{
  Pool, new_pool, begin_shutdown, begins_shutdown, shuts, register_session, submit, Action,
  registers, submits, steps, act, act_all,
}
use tau_prime.Pool.EventStream.{
  new_stream, Operation, puts, gets, aborts, operate_all, all_accepted, all_delivered, put, get,
  abort,
}
use tau_prime.Pool.EventStream.Wakeups.{IsAwake, operate_all-IsAwake}
use tau_prime.Pool.Registered.{
  closed, RegisteredSession, new_session, add_run, run_ids, dispose, take_turn, take_permit,
}
use tau_prime.Pool.Actions.{takes_turn, takes_permit, task_step, step_task}
use tau_prime.Pool.Actions.Permits.{active}
use tau_prime.Pool.Sessions.{IsSound, new_session-IsSound}
use tau_prime.Pool.Bound.{IsBounded, step_task-IsSound}
use tau_prime.Pool.Calls.{add_run-IsSound}
use tau_prime.Pool.Interleaving.{new_pool-IsBounded}
use tau_prime.Pool.Closing.{stop_tasks, stop_tasks-closed}

abbrev turns : List Operation
turns = puts agent_start ∷ puts agent_end ∷ gets ∷ puts agent_end ∷ aborts ∷ puts agent_start ∷ []

-- The second event waits for the first to be taken, and none is stored after the abort.
one_waits : all_accepted turns (new_stream 1) ≡ agent_start ∷ agent_end ∷ []
unfolding put get abort
one_waits = refl

operate_all-IsAwake_example :
    IsAwake (operate_all turns (new_stream 1))
    × (all_delivered turns (new_stream 1) ++ (operate_all turns (new_stream 1)).items
        ≡ all_accepted turns (new_stream 1))
operate_all-IsAwake_example = operate_all-IsAwake 1 turns (omega arith)

abbrev script : List Action
script =
    registers "s" true
    ∷ submits "s" (some "r1") "u1"
    ∷ submits "s" none "u2"
    ∷ steps takes_turn "s" "r1"
    ∷ steps takes_permit "s" "r1"
    ∷ steps takes_turn "s" "u2"
    ∷ []

abbrev working : Pool
working = act_all script (new_pool 2 64)

-- The second run waits for the first one's turn to end.
one_permit_taken : working.free ≡ 1
unfolding act register_session submit add_run take_turn take_permit task_step is_blank
one_permit_taken = refl

new_pool-IsBounded_example : IsBounded 2 working
new_pool-IsBounded_example = new_pool-IsBounded 2 64 script

-- A session with one run that holds the turn lock.
abbrev one_run : RegisteredSession
one_run = add_run 64 "r1" (new_session "s" true)

abbrev busy : RegisteredSession
busy = (step_task takes_turn "r1" 2 one_run).0

busy-IsSound : IsSound busy
busy-IsSound =
    (step_task-IsSound takes_turn "r1" 2 one_run
      (add_run-IsSound 64 "r1" (new_session "s" true) refl refl (new_session-IsSound "s" true))).0

stop_tasks-closed_example :
    ((stop_tasks (run_ids busy.tasks) (busy, 2)).0.tasks ≡ [])
    × ((stop_tasks (run_ids busy.tasks) (busy, 2)).1 ≡ 2 + active busy)
    × ((dispose (stop_tasks (run_ids busy.tasks) (busy, 2)).0).state ≡ closed)
stop_tasks-closed_example = stop_tasks-closed busy 2 busy-IsSound

-- A session that is registered while a shutdown waits is closed by it, and still accepts work.
abbrev late : Pool
late = act_all (begins_shutdown ∷ registers "late" false ∷ shuts "late" ∷ []) (new_pool 2 64)

abbrev flags : List RegisteredSession → List (Bool × Bool)
flags [] = []
flags (s ∷ ss) = (s.disposed, s.accepting_new_work) ∷ flags ss

late_flags : flags late.sessions ≡ (true, true) ∷ []
unfolding act register_session begin_shutdown dispose
late_flags = refl
