-- ===== src/Budget/Tokens.antt =====
-- tau_coding/context_window.py: the estimate of the tokens that a request to the provider takes.
-- `str_dict` is Python's `str` of a JSON object.
use tau_prime.Prelude.{
  ℕ, ◌+◌, ◌*◌, ◌-◌, ◌/◌, ◌≤◌, ◌<◌, max, String, Option, none, some, List, [], ◌∷◌, ◌++◌, length,
  leb, ltb, if◌then◌else◌, ◌≡◌, arith, Bool-cases, inl, inr,
}
use tau_prime.Messages.{JsonObject, ToolCall, AgentMessage, user, assistant, tool}
use tau_prime.Loop.Environment.{AgentTool}
use tau_prime.Budget.{text_length}

-- `ContextUsageEstimate`
pub record ContextUsageEstimate : Type 0 where
  pub total_tokens : ℕ
  pub system_tokens : ℕ
  pub message_tokens : ℕ
  pub tool_tokens : ℕ
  pub message_count : ℕ
  pub tool_count : ℕ

-- The tokens of a text of `n` characters.
abbrev pub tokens_for : ℕ → ℕ
tokens_for n = if ltb 0 n then max 1 ((n + 4 - 1) / 4) else 0

unfoldable pub estimate_text_tokens : String → ℕ
estimate_text_tokens text = tokens_for (text_length text)

-- `none` where the window is not positive.
abbrev pub auto_compaction_threshold_for_context_window : ℕ → Option ℕ
auto_compaction_threshold_for_context_window window =
    if leb window 0 then none else some (max 1 (window - 16384))

module _ (str_dict : JsonObject → String) where
  abbrev pub tool_call_tokens : List ToolCall → ℕ
  tool_call_tokens [] = 0
  tool_call_tokens (c ∷ cs) =
      estimate_text_tokens c.name
      + estimate_text_tokens (str_dict c.arguments)
      + tool_call_tokens cs

  abbrev pub estimate_message_tokens : AgentMessage → ℕ
  estimate_message_tokens (user m) = 4 + estimate_text_tokens m.content
  estimate_message_tokens (assistant m) =
      4 + estimate_text_tokens m.content + tool_call_tokens m.tool_calls
  estimate_message_tokens (tool m) =
      4 + estimate_text_tokens m.name + estimate_text_tokens m.content

  abbrev pub messages_tokens : List AgentMessage → ℕ
  messages_tokens [] = 0
  messages_tokens (m ∷ ms) = estimate_message_tokens m + messages_tokens ms

  abbrev pub estimate_tool_tokens : AgentTool → ℕ
  estimate_tool_tokens t =
      16
      + estimate_text_tokens t.name
      + estimate_text_tokens t.description
      + estimate_text_tokens (str_dict t.input_schema)

  abbrev pub tools_tokens : List AgentTool → ℕ
  tools_tokens [] = 0
  tools_tokens (t ∷ ts) = estimate_tool_tokens t + tools_tokens ts

  unfoldable pub estimate_context_usage :
      String → List AgentMessage → List AgentTool → ContextUsageEstimate
  estimate_context_usage system messages tools =
      let system_tokens = estimate_text_tokens system in
      let message_tokens = messages_tokens messages in
      let tool_tokens = tools_tokens tools in
      record {
        total_tokens = system_tokens + message_tokens + tool_tokens;
        system_tokens = system_tokens;
        message_tokens = message_tokens;
        tool_tokens = tool_tokens;
        message_count = length messages;
        tool_count = length tools;
      }

  unfoldable pub estimate_context_tokens : String → List AgentMessage → List AgentTool → ℕ
  unfolding estimate_context_usage
  estimate_context_tokens system messages tools =
      (estimate_context_usage system messages tools).total_tokens

-- A text's tokens are its characters divided by four and rounded up.
pub estimate_text_tokens-bounds :
    (text : String)
    → (text_length text ≤ 4 * estimate_text_tokens text)
      × (4 * estimate_text_tokens text < text_length text + 4)
unfolding estimate_text_tokens
estimate_text_tokens-bounds text = elim (Bool-cases (ltb 0 (text_length text))) [
  | inl something ↦ rw something (ground (arith, something), ground (arith, something))
  | inr nothing ↦ rw nothing (ground (arith, nothing), omega arith)
]

-- The characters of all texts.
abbrev pub characters : List String → ℕ
characters [] = 0
characters (t ∷ ts) = text_length t + characters ts

tokens_of : List String → ℕ
tokens_of [] = 0
tokens_of (t ∷ ts) = estimate_text_tokens t + tokens_of ts

tokens_of-append : (ts us : List String) → tokens_of (ts ++ us) ≡ tokens_of ts + tokens_of us
unfolding tokens_of
tokens_of-append [] us = omega arith
tokens_of-append (t ∷ ts) us = omega (arith, tokens_of-append ts us)

tokens_of-bounds :
    (ts : List String)
    → (characters ts ≤ 4 * tokens_of ts) × (4 * tokens_of ts ≤ characters ts + 3 * length ts)
unfolding tokens_of
tokens_of-bounds [] = (omega arith, omega arith)
tokens_of-bounds (t ∷ ts) =
    let one = estimate_text_tokens-bounds t in
    let rest = tokens_of-bounds ts in (omega (arith, one.0, rest.0), omega (arith, one.1, rest.1))

module _ (str_dict : JsonObject → String) where
  -- The names and the arguments of tool calls.
  abbrev pub call_texts : List ToolCall → List String
  call_texts [] = []
  call_texts (c ∷ cs) = c.name ∷ str_dict c.arguments ∷ call_texts cs

  -- What a message says.
  abbrev pub message_texts : AgentMessage → List String
  message_texts (user m) = m.content ∷ []
  message_texts (assistant m) = m.content ∷ call_texts m.tool_calls
  message_texts (tool m) = m.name ∷ m.content ∷ []

  abbrev pub conversation_texts : List AgentMessage → List String
  conversation_texts [] = []
  conversation_texts (m ∷ ms) = message_texts m ++ conversation_texts ms

  abbrev pub tool_texts : List AgentTool → List String
  tool_texts [] = []
  tool_texts (t ∷ ts) = t.name ∷ t.description ∷ str_dict t.input_schema ∷ tool_texts ts

  -- All texts of a request: the system prompt, the conversation and the tools.
  abbrev pub request_texts : String → List AgentMessage → List AgentTool → List String
  request_texts system messages tools = system ∷ (conversation_texts messages ++ tool_texts tools)

  calls_tokens : (cs : List ToolCall) → tool_call_tokens str_dict cs ≡ tokens_of (call_texts cs)
  unfolding tokens_of
  calls_tokens [] = omega arith
  calls_tokens (c ∷ cs) = omega (arith, calls_tokens cs)

  message_tokens_lem :
      (m : AgentMessage) → estimate_message_tokens str_dict m ≡ 4 + tokens_of (message_texts m)
  unfolding tokens_of
  message_tokens_lem (user m) = omega arith
  message_tokens_lem (assistant m) = omega (arith, calls_tokens m.tool_calls)
  message_tokens_lem (tool m) = omega arith

  conversation_tokens :
      (ms : List AgentMessage)
      → messages_tokens str_dict ms ≡ 4 * length ms + tokens_of (conversation_texts ms)
  unfolding tokens_of
  conversation_tokens [] = omega arith
  conversation_tokens (m ∷ ms) = omega (
    arith,
    message_tokens_lem m,
    conversation_tokens ms,
    tokens_of-append (message_texts m) (conversation_texts ms),
  )

  described_tokens :
      (ts : List AgentTool) → tools_tokens str_dict ts ≡ 16 * length ts + tokens_of (tool_texts ts)
  unfolding tokens_of
  described_tokens [] = omega arith
  described_tokens (t ∷ ts) = omega (arith, described_tokens ts)

  tokens_of_request :
      (system : String) (messages : List AgentMessage) (tools : List AgentTool)
      → estimate_context_tokens str_dict system messages tools
        ≡ 4 * length messages + 16 * length tools + tokens_of (request_texts system messages tools)
  unfolding estimate_context_tokens tokens_of
  tokens_of_request system messages tools = omega (
    arith,
    conversation_tokens messages,
    described_tokens tools,
    tokens_of-append (conversation_texts messages) (tool_texts tools),
  )

  -- Four times the estimate of a request is at least the characters of all its texts (the system
  -- prompt, the contents, the names and arguments of tool calls, the names of answered tools, and the
  -- names, descriptions and schemas of the tools), with 16 for each message and 64 for each tool, and
  -- is at most 3 more for each text.
  pub estimate_context_tokens-characters :
      (system : String) (messages : List AgentMessage) (tools : List AgentTool)
      → (characters (request_texts system messages tools) + 16 * length messages + 64 * length tools
          ≤ 4 * estimate_context_tokens str_dict system messages tools)
        × (4 * estimate_context_tokens str_dict system messages tools
            ≤ characters (request_texts system messages tools)
              + 16 * length messages
              + 64 * length tools
              + 3 * length (request_texts system messages tools))
  estimate_context_tokens-characters system messages tools =
      let total = tokens_of_request system messages tools in
      let around = tokens_of-bounds (request_texts system messages tools) in
      (omega (arith, total, around.0), omega (arith, total, around.1))
