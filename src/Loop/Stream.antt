-- ===== src/Loop/Stream.antt =====
-- The `async for provider_event in provider.stream_response(…)` of one turn.
use Prim.Native.String.{◌++◌ as append}
use tau_prime.Prelude.{ℕ, suc, String, Bool, true, false, Option, none, some, List, [], ◌∷◌, ◌++◌}
use tau_prime.Messages.{ToolCall, AssistantMessage, assistant}
use tau_prime.Events.{
  ProviderEvent, ProviderUsage, DoneReason, stop, tool_use, AssistantMessageEvent, start,
  text_start, text_end, thinking_start, thinking_end, toolcall_start, toolcall_end, done,
  AgentEvent, message_start, message_update, message_delta, message_end, assistant_role,
}
use tau_prime.Exec.{Exec, pure, abort, ask, ◌>>=◌, ◌>>◌, emit, append_message}
use tau_prime.Loop.Environment.{StreamEnd, ended, raised, ProviderStream, Environment}

-- The variables of a turn that the stream sets.
pub record Turn : Type 0 where
  pub assistant_message : Option AssistantMessage
  pub partial_assistant : AssistantMessage
  pub text_started : Bool
  pub thinking_started : Bool
  pub thinking_parts : List String
  pub saw_provider_error : Bool

abbrev pub fresh_turn : Turn
fresh_turn = record {
  assistant_message = none;
  partial_assistant = record { content = ""; tool_calls = [] };
  text_started = false;
  thinking_started = false;
  thinking_parts = [];
  saw_provider_error = false;
}

-- `"".join(parts)`
abbrev pub join : List String → String
join [] = ""
join (p ∷ ps) = append p (join ps)

abbrev pub unless : Bool → List AgentEvent → List AgentEvent
unless true es = []
unless false es = es

abbrev pub whenever : Bool → List AgentEvent → List AgentEvent
whenever true es = es
whenever false es = []

-- The two updates for each tool call, with its index.
unfoldable pub tool_call_updates : AssistantMessage → ℕ → List ToolCall → List AgentEvent
tool_call_updates m index [] = []
tool_call_updates m index (call ∷ calls) =
    message_update m (toolcall_start index)
    ∷ message_update m (toolcall_end index call)
    ∷ tool_call_updates m (suc index) calls

abbrev pub done_reason : List ToolCall → DoneReason
done_reason [] = stop
done_reason (call ∷ calls) = tool_use

-- What is yielded once the assistant's message is complete.
unfoldable pub response_end_events :
    Turn → AssistantMessage → Option ProviderUsage → List AgentEvent
unfolding tool_call_updates
response_end_events t m usage =
    whenever t.text_started (message_update m (text_end m.content) ∷ [])
    ++ (whenever t.thinking_started (message_update m (thinking_end (join t.thinking_parts)) ∷ [])
        ++ (tool_call_updates m 0 m.tool_calls
            ++ (message_update m (done (done_reason m.tool_calls))
                ∷ message_end (assistant m) usage
                ∷ [])))

abbrev pub with_delta : AssistantMessage → String → AssistantMessage
with_delta m delta = record m { content = append m.content delta }

module _ {W : Type 0} where
  -- The body of the loop, one branch for each class of event.
  unfoldable pub handle : Turn → ProviderEvent → Exec W Turn
  unfolding response_end_events
  handle t (ProviderEvent.response_start model) = do
    emit (message_start assistant_role ∷ message_update t.partial_assistant start ∷ [])
    pure t
  handle t (ProviderEvent.text_delta delta) = do
    emit (unless t.text_started (message_update t.partial_assistant text_start ∷ []))
    let partial = with_delta t.partial_assistant delta
    emit
        (message_update partial (AssistantMessageEvent.text_delta delta) ∷ message_delta delta ∷ [])
    pure (record t { partial_assistant = partial; text_started = true })
  handle t (ProviderEvent.thinking_delta delta) = do
    emit (unless t.thinking_started (message_update t.partial_assistant thinking_start ∷ []))
    emit (
        message_update t.partial_assistant (AssistantMessageEvent.thinking_delta delta)
        ∷ AgentEvent.thinking_delta delta
        ∷ [])
    pure (record t { thinking_started = true; thinking_parts = t.thinking_parts ++ delta ∷ [] })
  handle t (ProviderEvent.retry notice) = do emit (AgentEvent.retry notice ∷ []); pure t
  handle t (ProviderEvent.tool_call call) = pure t
  handle t (ProviderEvent.response_end m reason usage) = do
    append_message (assistant m)
    emit (response_end_events t m usage)
    pure (record t { assistant_message = some m })
  handle t (ProviderEvent.error message retryable details) = do
    emit (AgentEvent.error message false details ∷ [])
    pure (record t { saw_provider_error = true })

  unfoldable pub handle_all : Turn → List ProviderEvent → Exec W Turn
  unfolding handle
  handle_all t [] = pure t
  handle_all t (e ∷ es) = do t' ← handle t e; handle_all t' es

  unfoldable pub stream_ended : StreamEnd → Turn → Exec W Turn
  stream_ended ended t = pure t
  stream_ended raised t = abort

  -- The provider is called with the transcript as it stands.
  unfoldable pub asked_with_messages : Environment W → Exec W ProviderStream
  asked_with_messages env s = ask (env.stream s.messages) s

  unfoldable pub consume_stream : Environment W → Exec W Turn
  unfolding asked_with_messages handle_all stream_ended
  consume_stream env = do
    stream ← asked_with_messages env
    t ← handle_all fresh_turn stream.events
    stream_ended stream.ending t
