-- ===== src/Events.antt =====
-- tau_agent/events.py, tau_agent/provider_events.py and tau_ai/events.py: what a provider streams and
-- what the agent loop emits. A float (a retry delay) is carried as its literal.
use tau_prime.Prelude.{ℕ, String, Bool, Option, List}
use tau_prime.Messages.{
  JsonObject, ToolCall, AgentToolResult, AssistantMessage, AgentMessage, user, assistant, tool,
}

-- tau_ai/usage.py
pub record ProviderUsage : Type 0 where
  pub input_tokens : ℕ
  pub output_tokens : ℕ
  pub cache_read_tokens : ℕ
  pub cache_write_tokens : ℕ
  pub cache_write_1h_tokens : ℕ

pub record RetryNotice : Type 0 where
  pub attempt : ℕ
  pub max_attempts : ℕ
  pub delay_seconds : String
  pub message : String
  pub details : Option JsonObject

pub data ProviderEvent : Type 0 where
  response_start : (model : String) → ProviderEvent
  retry : RetryNotice → ProviderEvent
  text_delta : String → ProviderEvent
  thinking_delta : String → ProviderEvent
  tool_call : ToolCall → ProviderEvent
  response_end :
      AssistantMessage → (finish_reason : Option String) → Option ProviderUsage → ProviderEvent
  error : (message : String) → (retryable : Bool) → Option JsonObject → ProviderEvent

pub data DoneReason : Type 0 where
  stop tool_use : DoneReason

-- The `AssistantMessageEvent`s that the loop builds, less the message that each carries along: the
-- enclosing event has it too.
pub data AssistantMessageEvent : Type 0 where
  start : AssistantMessageEvent
  text_start : AssistantMessageEvent
  text_delta : String → AssistantMessageEvent
  text_end : (content : String) → AssistantMessageEvent
  thinking_start : AssistantMessageEvent
  thinking_delta : String → AssistantMessageEvent
  thinking_end : (content : String) → AssistantMessageEvent
  toolcall_start : (content_index : ℕ) → AssistantMessageEvent
  toolcall_end : (content_index : ℕ) → ToolCall → AssistantMessageEvent
  done : DoneReason → AssistantMessageEvent

pub data Role : Type 0 where
  user_role assistant_role tool_role : Role

abbrev pub role : AgentMessage → Role
role (user _) = user_role
role (assistant _) = assistant_role
role (tool _) = tool_role

pub record QueueUpdate : Type 0 where
  pub steering : List String
  pub follow_up : List String

pub data AgentEvent : Type 0 where
  agent_start : AgentEvent
  agent_end : AgentEvent
  turn_start : ℕ → AgentEvent
  turn_end : ℕ → AgentEvent
  queue_update : QueueUpdate → AgentEvent
  retry : RetryNotice → AgentEvent
  message_start : Role → AgentEvent
  message_update : AssistantMessage → AssistantMessageEvent → AgentEvent
  message_delta : String → AgentEvent
  thinking_delta : String → AgentEvent
  message_end : AgentMessage → Option ProviderUsage → AgentEvent
  tool_execution_start : ToolCall → AgentEvent
  tool_execution_end : AgentToolResult → AgentEvent
  error : (message : String) → (recoverable : Bool) → Option JsonObject → AgentEvent
