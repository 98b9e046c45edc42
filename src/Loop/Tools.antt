-- ===== src/Loop/Tools.antt =====
-- `_execute_tool_calls`, `_execute_tool` and the tool results of tau_agent/loop.py.
use Prim.Native.String.{◌++◌ as append}
use text.Mathlib.Text.{find?}
use tau_prime.Prelude.{
  String, Bool, true, false, not, ◌&&◌, Option, none, some, List, [], ◌∷◌, ◌==◌, if◌then◌else◌,
}
use tau_prime.Messages.{JsonObject, ToolCall, AgentToolResult, AgentMessage, tool}
use tau_prime.Events.{tool_execution_start, tool_execution_end, error}
use tau_prime.Exec.{Exec, pure, abort, ask, ◌>>=◌, ◌>>◌, emit, append_message}
use tau_prime.Loop.Environment.{
  AgentTool, Approval, answered, failed, Execution, finished, raised, Environment,
}

abbrev pub refused : ToolCall → String → AgentToolResult
refused call message = record {
  tool_call_id = call.id;
  name = call.name;
  ok = false;
  content = message;
  details = none;
  error = some message;
  payload = none;
}

unfoldable pub unknown_tool_result : ToolCall → AgentToolResult
unknown_tool_result call = refused call (append "Unknown tool: " call.name)

unfoldable pub denied_tool_result : ToolCall → AgentToolResult
denied_tool_result call = refused call "Tool call denied by user"

unfoldable pub cancelled_tool_result : ToolCall → AgentToolResult
cancelled_tool_result call = refused call "Tool call cancelled"

-- `part in text`
abbrev pub is_part : String → String → Bool
is_part part text = elim (find? text part) [ none ↦ false | some _ ↦ true ]

abbrev is_some {ℓ} : {A : Type ℓ} → Option A → Bool
is_some none = false
is_some (some a) = true

-- `if not result.ok and result.error and result.error not in content: …`
with_error : Bool → Option String → String → String
with_error ok none content = content
with_error ok (some e) content =
    if not ok && (not (e == "") && not (is_part e content))
    then append content (append "\n\nError: " e)
    else content

-- `if data is not None and not content: content = str(data)`
with_payload : (JsonObject → String) → Option JsonObject → String → String
with_payload str_dict none content = content
with_payload str_dict (some payload) content = if content == "" then str_dict payload else content

-- `_tool_result_message`
unfoldable pub tool_result_message : (JsonObject → String) → AgentToolResult → AgentMessage
unfolding with_error with_payload
tool_result_message str_dict r = tool (record {
  tool_call_id = r.tool_call_id;
  name = r.name;
  content = with_payload str_dict r.payload (with_error r.ok r.error r.content);
  ok = r.ok;
  payload = r.payload;
  details = r.details;
  error = r.error;
})

-- `_replace_tool_call_id`: the models here have `model_copy`.
unfoldable pub replace_tool_call_id : AgentToolResult → String → AgentToolResult
replace_tool_call_id result id = record result { tool_call_id = id }

abbrev pub or_else {ℓ} : {A : Type ℓ} → Option A → Option A → Option A
or_else none b = b
or_else (some a) b = some a

-- `tool_by_name.get(name)`: of tools with one name the dict keeps the last.
unfoldable pub find_tool : List AgentTool → String → Option AgentTool
find_tool [] name = none
find_tool (t ∷ ts) name = or_else (find_tool ts name) (if t.name == name then some t else none)

module _ {W : Type 0} (env : Environment W) where
  -- What `_execute_tool` makes of how the tool ended.
  unfoldable pub executed : ToolCall → Execution → Exec W AgentToolResult
  executed call (finished result) =
      pure (if result.tool_call_id == call.id then result else replace_tool_call_id result call.id)
  executed call (raised text) = pure (refused call text)
  executed call Execution.interrupted = abort

  -- `_execute_tool`
  unfoldable pub execute_tool : AgentTool → ToolCall → Exec W AgentToolResult
  unfolding executed
  execute_tool t call = do ended ← ask (env.execute t call.arguments); executed call ended

  unfoldable pub approved : AgentTool → ToolCall → Approval → Exec W AgentToolResult
  unfolding execute_tool
  approved t call (answered true) = execute_tool t call
  approved t call (answered false) = pure (denied_tool_result call)
  approved t call failed = pure (denied_tool_result call)
  approved t call Approval.interrupted = abort

  unfoldable pub gated :
      Option (ToolCall → AgentTool → W → Approval × W)
      → AgentTool
      → ToolCall
      → Exec W AgentToolResult
  unfolding approved
  gated none t call = execute_tool t call
  gated (some approve) t call = do answer ← ask (approve call t); approved t call answer

  -- The result of one tool call: unknown, refused, or whatever the tool gave.
  unfoldable pub resolved : Option AgentTool → ToolCall → Exec W AgentToolResult
  unfolding gated
  resolved none call = pure (unknown_tool_result call)
  resolved (some t) call = gated env.approve_tool t call

  unfoldable pub tool_call_result : ToolCall → Exec W AgentToolResult
  unfolding resolved
  tool_call_result call = resolved (find_tool env.tools call.name) call

  -- `messages.append(_tool_result_message(result)); yield ToolExecutionEndEvent(result=result)`
  unfoldable pub record_result : AgentToolResult → Exec W Unit
  record_result result = do
    append_message (tool_result_message env.str_dict result)
    emit (tool_execution_end result ∷ [])

  unfoldable pub polled : Option (W → Bool × W) → Exec W Bool
  polled none = pure false
  polled (some is_cancelled) = ask is_cancelled

  -- `signal is not None and signal.is_cancelled()`
  unfoldable pub poll : Exec W Bool
  unfolding polled
  poll = polled env.is_cancelled

  unfoldable pub cancel_tool_calls : List ToolCall → Exec W Unit
  unfolding record_result
  cancel_tool_calls [] = emit (error "Agent run cancelled" true none ∷ [])
  cancel_tool_calls (call ∷ calls) = do
    record_result (cancelled_tool_result call)
    cancel_tool_calls calls

  -- One round of the loop for a call that is not cancelled.
  unfoldable pub run_tool_call : ToolCall → Exec W Unit
  unfolding tool_call_result record_result
  run_tool_call call = do
    emit (tool_execution_start call ∷ [])
    result ← tool_call_result call
    record_result result

  -- `_execute_tool_calls`
  unfoldable pub execute_tool_calls : List ToolCall → Exec W Unit
  unfolding poll cancel_tool_calls run_tool_call
  execute_tool_calls [] = pure tt
  execute_tool_calls (call ∷ calls) = do
    cancelled ← poll
    if cancelled
        then cancel_tool_calls (call ∷ calls)
        else (do run_tool_call call; execute_tool_calls calls)
