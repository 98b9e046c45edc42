-- ===== src/Messages.antt =====
-- tau_agent/types.py, tools.py and messages.py: JSON values, tool calls and results, messages.
use tau_prime.Prelude.{ℕ, String, Bool, Option, List, []}

-- `JSONValue`. A number is carried as its literal: no code modelled here computes with it.
mutual
  pub data JsonValue : Type 0 where
    null : JsonValue
    boolean : Bool → JsonValue
    number : String → JsonValue
    text : String → JsonValue
    array : JsonItems → JsonValue
    object : JsonFields → JsonValue

  pub data JsonItems : Type 0 where
    end_items : JsonItems
    item : JsonValue → JsonItems → JsonItems

  pub data JsonFields : Type 0 where
    end_fields : JsonFields
    field : String → JsonValue → JsonFields → JsonFields

abbrev pub JsonObject : Type 0
JsonObject = JsonFields

pub record ToolCall : Type 0 where
  pub id : String
  pub name : String
  pub arguments : JsonObject

pub record AgentToolResult : Type 0 where
  pub tool_call_id : String
  pub name : String
  pub ok : Bool
  pub content : String
  pub details : Option JsonObject
  pub error : Option String
  pub payload : Option JsonObject

pub record UserAttachment : Type 0 where
  pub media_id : String
  pub filename : String
  pub media_type : String
  pub size_bytes : ℕ
  pub payload : Option (List ℕ)

pub record UserMessage : Type 0 where
  pub content : String
  pub attachments : List UserAttachment

pub record AssistantMessage : Type 0 where
  pub content : String
  pub tool_calls : List ToolCall

pub record ToolResultMessage : Type 0 where
  pub tool_call_id : String
  pub name : String
  pub content : String
  pub ok : Bool
  pub payload : Option JsonObject
  pub details : Option JsonObject
  pub error : Option String

pub data AgentMessage : Type 0 where
  user : UserMessage → AgentMessage
  assistant : AssistantMessage → AgentMessage
  tool : ToolResultMessage → AgentMessage

-- `UserMessage(content=content)`
abbrev pub user_text : String → AgentMessage
user_text content = user (record { content = content; attachments = [] })
