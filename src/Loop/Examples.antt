-- ===== src/Loop/Examples.antt =====
-- Tests of the loop's model, and the theorems about it at a concrete environment.
use tau_prime.Prelude.{ℕ, zero, suc, ◌≡◌, ◌≢◌, refl, true, false, none, some, [], ◌∷◌, arith}
use tau_prime.Messages.{
  JsonObject, end_fields, ToolCall, AgentToolResult, AssistantMessage, user_text,
}
use tau_prime.Events.{ProviderEvent}
use tau_prime.Exec.{returned, exhausted, Run, emit, append_message, extend_messages, ◌>>=◌}
use tau_prime.Exec.Ends.{Ends}
use tau_prime.Loop.Environment.{
  AgentTool, answered, Execution, finished, raised, ended, ProviderStream, Environment,
}
use tau_prime.Loop.Tools.{execute_tool_calls, find_tool}
use tau_prime.Loop.Stream.{consume_stream}
use tau_prime.Loop.Turns.{run_agent_loop, decimal}
use tau_prime.Loop.Transcript.{run_agent_loop-Replays}
use tau_prime.Loop.Transcript.Rules.{Replays}
use tau_prime.Loop.Limit.{run_agent_loop-Completes}
use tau_prime.Loop.Approval.{run_agent_loop-changed}
use tau_prime.Loop.Answering.{IsAnswered, IsPartlyAnswered}
use tau_prime.Loop.Answers.{execute_tool_calls-Answers}

abbrev pub read_call : ToolCall
read_call = record { id = "call_1"; name = "read"; arguments = end_fields }

abbrev pub grep_call : ToolCall
grep_call = record { id = "call_2"; name = "grep"; arguments = end_fields }

abbrev pub read_tool : AgentTool
read_tool = record {
  name = "read";
  description = "Read a file";
  input_schema = end_fields;
  prompt_snippet = none;
  prompt_guidelines = [];
}

abbrev pub asking : AssistantMessage
asking = record { content = "Reading."; tool_calls = read_call ∷ grep_call ∷ [] }

abbrev pub closing : AssistantMessage
closing = record { content = "Done."; tool_calls = [] }

-- The first request is answered by two tool calls, every later one by text.
abbrev pub reply : ℕ → ProviderStream
reply zero = record {
  events =
      ProviderEvent.response_start "m"
      ∷ ProviderEvent.text_delta "Reading."
      ∷ ProviderEvent.response_end asking none none
      ∷ [];
  ending = ended;
}
reply (suc n) = record {
  events = ProviderEvent.response_end closing none none ∷ [];
  ending = ended;
}

-- `read` gives its result under an id of its own.
abbrev pub read_result : AgentToolResult
read_result = record {
  tool_call_id = "other";
  name = "read";
  ok = true;
  content = "text";
  details = none;
  error = none;
  payload = none;
}

abbrev pub demo : Environment ℕ
demo = record {
  stream = λ ms n. (reply n, suc n);
  tools = read_tool ∷ [];
  execute = λ t arguments n. (finished read_result, n);
  max_turns = some 4;
  is_cancelled = none;
  get_steering_messages = none;
  get_follow_up_messages = none;
  get_queue_update = none;
  approve_tool = none;
  str_dict = λ o. "{}";
}

-- The same, with a hook that refuses every call.
abbrev guarded : Environment ℕ
guarded = record demo { approve_tool = some (λ call t n. (answered false, n)) }

abbrev fresh : Run ℕ
fresh = record { messages = user_text "go" ∷ []; events = []; world = 0 }

-- Two turns: the calls, their two results, and the closing text.
demo_returns : (run_agent_loop demo 5 fresh).0 ≡ returned tt
unfolding run_agent_loop consume_stream execute_tool_calls find_tool emit append_message
    extend_messages ◌>>=◌
demo_returns = refl

demo_world : (run_agent_loop demo 5 fresh).1.world ≡ 2
unfolding run_agent_loop consume_stream execute_tool_calls find_tool emit append_message
    extend_messages ◌>>=◌
demo_world = refl

decimal_text : decimal 120 ≡ "120"
unfolding decimal
decimal_text = refl

run_agent_loop-Replays_example : Replays demo.str_dict fresh (run_agent_loop demo 5 fresh).1
run_agent_loop-Replays_example = run_agent_loop-Replays demo 5 fresh

execute_tool_calls-Answers_example :
    Ends
      (λ _. IsAnswered fresh asking.tool_calls)
      (IsPartlyAnswered fresh asking.tool_calls)
      (execute_tool_calls demo asking.tool_calls)
      fresh
execute_tool_calls-Answers_example = execute_tool_calls-Answers demo asking.tool_calls fresh

run_agent_loop-Completes_example : (run_agent_loop demo 5 fresh).0 ≢ exhausted
run_agent_loop-Completes_example = run_agent_loop-Completes demo 4 5 refl (omega arith) fresh

refuses_all : (call : ToolCall) (t : AgentTool) (w : ℕ) → answered false ≢ answered true
refuses_all call t w e = cc

abbrev fails : AgentTool → JsonObject → ℕ → Execution × ℕ
fails t arguments n = (raised "boom", suc n)

run_agent_loop-changed_example :
    run_agent_loop (record guarded { execute = fails }) 5 ≡ run_agent_loop guarded 5
run_agent_loop-changed_example =
    run_agent_loop-changed guarded (λ call t n. (answered false, n)) refl refuses_all fails 5
