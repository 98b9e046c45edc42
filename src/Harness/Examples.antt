-- ===== src/Harness/Examples.antt =====
-- Tests of the harness's model, and the theorems about it at a concrete harness.
use tau_prime.Prelude.{ℕ, suc, ◌≡◌, refl, true, none, some, List, [], ◌∷◌, ◌++◌}
use tau_prime.Messages.{AgentMessage, assistant, user_text}
use tau_prime.Exec.{Outcome, Run}
use tau_prime.Loop.Environment.{raised}
use tau_prime.Loop.Turns.{run_agent_loop}
use tau_prime.Loop.Examples.{asking, read_tool, reply}
use tau_prime.Harness.Queues.{Queues, one_at_a_time, follow_up_message, pop_latest_follow_up}
use tau_prime.Harness.Queues.Order.{
  Action, queued, drained, run_actions, incoming, run_actions-fifo,
  pop_latest_follow_up-follow_up_message,
}
use tau_prime.Harness.Repair.{repaired, append_interrupted_tool_results}
use tau_prime.Harness.Repair.Complete.{
  AllAnswered, IsRepair, repaired-IsRepair, repaired-AllAnswered, repaired-repaired,
}
use tau_prime.Harness.Runs.{Control, Config, Harness, loop_environment, init, ran, attempt}
use tau_prime.Harness.Runs.Transcript.{IsSettled, loop_start, attempt-IsSettled}

abbrev waiting : Queues
waiting = record {
  steering = user_text "s1" ∷ [];
  follow_up = user_text "f1" ∷ [];
  mode = one_at_a_time;
}

abbrev script : List Action
script = queued (user_text "s2") ∷ drained ∷ queued (user_text "s3") ∷ drained ∷ []

run_actions-fifo_example :
    (run_actions waiting script).0 ++ (run_actions waiting script).1.steering
    ≡ waiting.steering ++ incoming script
run_actions-fifo_example = run_actions-fifo waiting script

pop_latest_follow_up-follow_up_message_example :
    pop_latest_follow_up (follow_up_message (user_text "f2") waiting).1
    ≡ (some (user_text "f2"), waiting)
pop_latest_follow_up-follow_up_message_example =
    pop_latest_follow_up-follow_up_message waiting (user_text "f2")

-- A transcript that was left in the middle of two tool calls.
abbrev torn : List AgentMessage
torn = user_text "go" ∷ assistant asking ∷ []

repair_counts : (append_interrupted_tool_results torn).0 ≡ 2
unfolding append_interrupted_tool_results
repair_counts = refl

repaired-IsRepair_example : IsRepair torn (repaired torn)
repaired-IsRepair_example = repaired-IsRepair torn

repaired-AllAnswered_example : AllAnswered (repaired torn)
repaired-AllAnswered_example = repaired-AllAnswered torn

repaired-repaired_example : repaired (repaired torn) ≡ repaired torn
repaired-repaired_example = repaired-repaired torn

-- A provider that is cancelled while it answers.
abbrev config : Config ℕ
config = record {
  stream = λ ms w. (reply w.outer, record w { outer = suc w.outer; cancelled = true });
  tools = read_tool ∷ [];
  execute = λ t arguments w. (raised "boom", w);
  max_turns = some 4;
  approve_tool = none;
  str_dict = λ o. "{}";
  meanwhile = λ w. w;
}

abbrev idle_harness : Harness ℕ
idle_harness = init torn waiting 0

attempt-IsSettled_example :
    (r : Outcome Unit) × (t : Run (Control ℕ)) × (after : Harness ℕ) × (run_agent_loop
        (loop_environment config)
        5
        (loop_start config none idle_harness)
      ≡ (r, t))
    × (attempt config 5 none idle_harness ≡ ran r t.events after)
    × IsSettled config idle_harness t.events t.world.cancelled after
attempt-IsSettled_example = attempt-IsSettled config 5 none idle_harness refl
