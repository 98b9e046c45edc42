-- ===== src/Harness/Runs.antt =====
-- The state of `AgentHarness` and one run of it: `prompt`, `continue_` and `_run`.
pub mod Transcript
use tau_prime.Prelude.{
  ℕ, suc, String, Bool, true, false, Option, none, some, List, [], ◌∷◌, ◌++◌, if◌then◌else◌,
}
use tau_prime.Messages.{JsonObject, ToolCall, UserMessage, AgentMessage, user}
use tau_prime.Events.{AgentEvent, QueueUpdate, message_start, message_end, user_role}
use tau_prime.Exec.{Outcome, Run}
use tau_prime.Loop.Environment.{AgentTool, ProviderStream, Approval, Execution, Environment}
use tau_prime.Loop.Turns.{run_agent_loop}
use tau_prime.Harness.Queues.{
  Queues, queue_update_event, drain_steering_messages, drain_follow_up_messages,
}
use tau_prime.Harness.Repair.{repaired}

-- What a run shares with the code that it calls and with those who hold the harness meanwhile: the
-- queues, the flag of the run's `SimpleCancellationToken`, and all else.
pub record Control (O : Type 0) : Type 0 where
  pub queues : Queues
  pub cancelled : Bool
  pub outer : O

-- `AgentHarnessConfig`. `meanwhile` is what the consumer of the events does up to the moment when
-- the loop next looks at the token or at a queue: it may steer and cancel.
pub record Config (O : Type 0) : Type 0 where
  pub stream : List AgentMessage → Control O → ProviderStream × Control O
  pub tools : List AgentTool
  pub execute : AgentTool → JsonObject → Control O → Execution × Control O
  pub max_turns : Option ℕ
  pub approve_tool : Option (ToolCall → AgentTool → Control O → Approval × Control O)
  pub str_dict : JsonObject → String
  pub meanwhile : Control O → Control O

pub record Harness (O : Type 0) : Type 0 where
  pub messages : List AgentMessage
  pub queues : Queues
  -- the flag of `_current_signal`
  pub current_signal : Option Bool
  pub running : Bool
  pub next_run_token : ℕ
  pub active_run_token : Option ℕ
  pub outer : O

signalled : Option Bool → Option Bool
signalled none = none
signalled (some flag) = some true

-- The events that `_run` yields for the prompt's message.
abbrev pub prompt_events : Option UserMessage → List AgentEvent
prompt_events none = []
prompt_events (some m) = message_start user_role ∷ message_end (user m) none ∷ []

abbrev pub prompt_messages : Option UserMessage → List AgentMessage
prompt_messages none = []
prompt_messages (some m) = user m ∷ []

-- What a call of `prompt` or `continue_`, its events consumed to the end, comes to.
pub data Attempt (O : Type 0) : Type 0 where
  -- `RuntimeError`
  already_running : Attempt O
  ran : Outcome (Unit {0}) → List AgentEvent → Harness O → Attempt O

module _ {O : Type 0} where
  abbrev pub init : List AgentMessage → Queues → O → Harness O
  init messages queues outer = record {
    messages = messages;
    queues = queues;
    current_signal = none;
    running = false;
    next_run_token = 0;
    active_run_token = none;
    outer = outer;
  }

  unfoldable pub append_message : AgentMessage → Harness O → Harness O
  append_message m h = record h { messages = h.messages ++ m ∷ [] }

  unfoldable pub replace_messages : List AgentMessage → Harness O → Harness O
  replace_messages ms h = record h { messages = ms }

  unfoldable pub cancel : Harness O → Harness O
  unfolding signalled
  cancel h = record h { current_signal = signalled h.current_signal }

  polled : (Control O → Control O) → Control O → Bool × Control O
  polled meanwhile w = let w' = meanwhile w in (w'.cancelled, w')

  drained :
      (Queues → List AgentMessage × Queues)
      → (Control O → Control O)
      → Control O
      → List AgentMessage × Control O
  drained drain meanwhile w =
      let w' = meanwhile w in
      let (handed, kept) = drain w'.queues in (handed, record w' { queues = kept })

  -- The arguments with which `_run` calls `run_agent_loop`.
  unfoldable pub loop_environment : Config O → Environment (Control O)
  unfolding polled drained
  loop_environment c = record {
    stream = c.stream;
    tools = c.tools;
    execute = c.execute;
    max_turns = c.max_turns;
    is_cancelled = some (polled c.meanwhile);
    get_steering_messages = some (drained drain_steering_messages c.meanwhile);
    get_follow_up_messages = some (drained drain_follow_up_messages c.meanwhile);
    get_queue_update = some (λ w. (queue_update_event w.queues, w));
    approve_tool = c.approve_tool;
    str_dict = c.str_dict;
  }

  -- `_append_interrupted_tool_results` and `_activate_run`, once it is known that no run is active.
  unfoldable pub activate_run : Harness O → Harness O
  activate_run h = record h {
    messages = repaired h.messages;
    next_run_token = suc h.next_run_token;
    active_run_token = some (suc h.next_run_token);
    running = true;
  }

  -- The `finally` of `_run`, from where the loop left the transcript and the world.
  unfoldable pub finish_run : Harness O → Run (Control O) → Harness O
  finish_run h t = record h {
    messages = if t.world.cancelled then repaired t.messages else t.messages;
    queues = t.world.queues;
    current_signal = none;
    running = false;
    active_run_token = none;
    outer = t.world.outer;
  }

  abbrev pub run_start : Harness O → Option UserMessage → Run (Control O)
  run_start h prompt = record {
    messages = h.messages;
    events = prompt_events prompt;
    world = record { queues = h.queues; cancelled = false; outer = h.outer };
  }

  -- `_run`
  unfoldable pub run : Config O → ℕ → Option UserMessage → Harness O → Attempt O
  unfolding loop_environment finish_run
  run c fuel prompt h =
      let (r, t) = run_agent_loop (loop_environment c) fuel (run_start h prompt) in
      ran r t.events (finish_run h t)

  -- `prompt` with a message and `continue_` with none.
  unfoldable pub attempt : Config O → ℕ → Option UserMessage → Harness O → Attempt O
  unfolding run activate_run
  attempt c fuel prompt h =
      if h.running
      then already_running
      else (let h' = activate_run h in
          run c fuel prompt (record h' { messages = h'.messages ++ prompt_messages prompt }))
