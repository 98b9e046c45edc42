-- ===== src/Harness/Repair.antt =====
-- `_append_interrupted_tool_results` of tau_agent/harness.py.
pub mod Complete
use tau_prime.Prelude.{
  ℕ, ◌-◌, String, Bool, true, false, Option, none, some, List, [], ◌∷◌, ◌++◌, length, contains,
  if◌then◌else◌,
}
use tau_prime.Messages.{ToolCall, AgentMessage, user, assistant, tool}

-- The ids that some tool message of the transcript answers.
unfoldable pub returned_ids : List AgentMessage → List String
returned_ids [] = []
returned_ids (tool m ∷ ms) = m.tool_call_id ∷ returned_ids ms
returned_ids (user m ∷ ms) = returned_ids ms
returned_ids (assistant m ∷ ms) = returned_ids ms

abbrev pub interrupted_content : String
interrupted_content = "Tool call interrupted by user"

abbrev pub interrupted_result : ToolCall → AgentMessage
interrupted_result call = tool (record {
  tool_call_id = call.id;
  name = call.name;
  content = interrupted_content;
  ok = false;
  payload = none;
  details = none;
  error = some interrupted_content;
})

-- The inner loop, over the calls of one message: the messages to append, and the ids answered then.
unfoldable pub repair_calls : List String → List ToolCall → List AgentMessage × List String
repair_calls returned [] = ([], returned)
repair_calls returned (call ∷ calls) =
    let skipped = repair_calls returned calls in
    let (added, returned') = repair_calls (call.id ∷ returned) calls in
    if contains returned call.id then skipped else (interrupted_result call ∷ added, returned')

-- The outer loop, over the messages as they were.
unfoldable pub repair_messages : List String → List AgentMessage → List AgentMessage
unfolding repair_calls
repair_messages returned [] = []
repair_messages returned (assistant m ∷ ms) =
    let (added, returned') = repair_calls returned m.tool_calls in
    added ++ repair_messages returned' ms
repair_messages returned (user m ∷ ms) = repair_messages returned ms
repair_messages returned (tool m ∷ ms) = repair_messages returned ms

unfoldable pub repaired : List AgentMessage → List AgentMessage
unfolding returned_ids repair_messages
repaired ms = ms ++ repair_messages (returned_ids ms) ms

-- `append_interrupted_tool_results`: the repaired transcript, and how many results were appended.
unfoldable pub append_interrupted_tool_results : List AgentMessage → ℕ × List AgentMessage
unfolding repaired
append_interrupted_tool_results ms = (length (repaired ms) - length ms, repaired ms)
