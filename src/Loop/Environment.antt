-- ===== src/Loop/Environment.antt =====
-- What the agent loop is given: the arguments of `run_agent_loop`, with everything that they run.
-- A call into them may change the world `W`, so whatever goes on between two calls (a user who
-- cancels or queues a message, a tool's effects) is in the world's hands.
use tau_prime.Prelude.{ℕ, String, Bool, Option, List}
use tau_prime.Messages.{JsonObject, ToolCall, AgentToolResult, AgentMessage}
use tau_prime.Events.{ProviderEvent, QueueUpdate}

-- `AgentTool`, without its executor, which is the environment's.
pub record AgentTool : Type 0 where
  pub name : String
  pub description : String
  pub input_schema : JsonObject
  pub prompt_snippet : Option String
  pub prompt_guidelines : List String

-- How a provider's stream ends: by itself or by an exception.
pub data StreamEnd : Type 0 where
  ended raised : StreamEnd

pub record ProviderStream : Type 0 where
  pub events : List ProviderEvent
  pub ending : StreamEnd

-- `await approve_tool(…)`: an answer, an exception, or the cancellation of the task.
pub data Approval : Type 0 where
  answered : Bool → Approval
  failed : Approval
  interrupted : Approval

-- `await tool.execute(…)`: a result, an exception with its text, or the cancellation of the task.
pub data Execution : Type 0 where
  finished : AgentToolResult → Execution
  raised : String → Execution
  interrupted : Execution

-- An optional argument is `none` where the caller leaves it out.
pub record Environment (W : Type 0) : Type 0 where
  pub stream : List AgentMessage → W → ProviderStream × W
  pub tools : List AgentTool
  pub execute : AgentTool → JsonObject → W → Execution × W
  pub max_turns : Option ℕ
  pub is_cancelled : Option (W → Bool × W)
  pub get_steering_messages : Option (W → List AgentMessage × W)
  pub get_follow_up_messages : Option (W → List AgentMessage × W)
  pub get_queue_update : Option (W → QueueUpdate × W)
  pub approve_tool : Option (ToolCall → AgentTool → W → Approval × W)
  -- Python's `str` of a dict
  pub str_dict : JsonObject → String
