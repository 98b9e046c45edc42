-- ===== src/Budget/Examples.antt =====
-- Tests of the budgets, and the theorems about them at a concrete window and concrete blocks.
use tau_prime.Prelude.{
  ℕ, ◌/◌, ◌*◌, ◌≤◌, ◌<◌, ◌+◌, String, List, [], ◌∷◌, ◌++◌, reverse, length, ◌≡◌, refl, arith,
}
use tau_prime.Budget.{
  compaction_budget, text_length, whole_blocks_from_start, whole_blocks_from_end,
}
use tau_prime.Budget.Bounds.{IsSafe, compaction_budget-IsSafe}
use tau_prime.Budget.Blocks.{
  joined_length, IsLongest, whole_blocks_from_start-IsLongest, whole_blocks_from_end-IsLongest,
}
use tau_prime.Loop.Environment.{AgentTool}
use tau_prime.Messages.{JsonObject, end_fields, ToolCall, AgentMessage, assistant, user_text}
use tau_prime.Budget.Tokens.{
  estimate_text_tokens, estimate_context_tokens, characters, request_texts,
  estimate_context_tokens-characters, estimate_text_tokens-bounds,
}

abbrev braces : JsonObject → String
braces o = "{}"

abbrev share : ℕ → ℕ
share window = window * 42 / 100

large_window :
    compaction_budget share 128000 6000 20000
    ≡ record { threshold_tokens = 111616; keep_recent_tokens = 20000; summary_input_tokens = 53760 }
unfolding compaction_budget
large_window = refl

compaction_budget-IsSafe_example : IsSafe 128000 6000 (compaction_budget share 128000 6000 20000)
compaction_budget-IsSafe_example = compaction_budget-IsSafe share 128000 6000 20000 (omega arith)

abbrev blocks : List String
blocks = "aaaa" ∷ "bb" ∷ "ccc" ∷ []

two_fit : whole_blocks_from_start blocks 8 ≡ "aaaa" ∷ "bb" ∷ []
unfolding whole_blocks_from_start text_length
two_fit = refl

two_fit_from_end : whole_blocks_from_end blocks 8 ≡ "bb" ∷ "ccc" ∷ []
unfolding whole_blocks_from_end text_length
two_fit_from_end = refl

whole_blocks_from_start-IsLongest_example :
    (rest : List String) × ((blocks ≡ whole_blocks_from_start blocks 8 ++ rest)
      × (joined_length (whole_blocks_from_start blocks 8) ≤ 8)
      × IsLongest 8 (whole_blocks_from_start blocks 8) rest)
whole_blocks_from_start-IsLongest_example = whole_blocks_from_start-IsLongest 8 blocks

whole_blocks_from_end-IsLongest_example :
    (rest : List String) × ((blocks ≡ reverse rest ++ whole_blocks_from_end blocks 8)
      × (joined_length (whole_blocks_from_end blocks 8) ≤ 8)
      × IsLongest 8 (reverse (whole_blocks_from_end blocks 8)) rest)
whole_blocks_from_end-IsLongest_example = whole_blocks_from_end-IsLongest 8 blocks

abbrev look : ToolCall
look = record { id = "1"; name = "read"; arguments = end_fields }

-- An assistant that calls a tool, and what the user says to it.
abbrev exchange : List AgentMessage
exchange =
    assistant (record { content = "I look"; tool_calls = look ∷ [] }) ∷ user_text "hello" ∷ []

abbrev no_tools : List AgentTool
no_tools = []

estimate_context_tokens-characters_example :
    (characters (request_texts braces "Be brief." exchange no_tools)
        + 16 * length exchange
        + 64 * length no_tools
      ≤ 4 * estimate_context_tokens braces "Be brief." exchange no_tools)
    × (4 * estimate_context_tokens braces "Be brief." exchange no_tools
        ≤ characters (request_texts braces "Be brief." exchange no_tools)
          + 16 * length exchange
          + 64 * length no_tools
          + 3 * length (request_texts braces "Be brief." exchange no_tools))
estimate_context_tokens-characters_example =
    estimate_context_tokens-characters braces "Be brief." exchange no_tools

estimate_text_tokens-bounds_example :
    (text_length "hello" ≤ 4 * estimate_text_tokens "hello")
    × (4 * estimate_text_tokens "hello" < text_length "hello" + 4)
estimate_text_tokens-bounds_example = estimate_text_tokens-bounds "hello"
